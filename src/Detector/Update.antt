-- ===== src/Detector/Update.antt =====
-- `_update_state`: the optimistic transaction on the shared state, with the writes of other
-- workers and the faults of Redis as a schedule.
pub mod Races
use adaptive_gateway.Prelude.{
  ℕ, zero, suc, Bool, true, false, Option, none, some, List, [], ◌∷◌, ◌++◌, if◌then◌else◌,
}
use adaptive_gateway.Prelude.Texts.{Text, str}
use adaptive_gateway.Prelude.Dicts.{Dict, lookup, insert}
use adaptive_gateway.Prelude.Floats.{Float}
use adaptive_gateway.Prelude.Results.{Exc, Result, ok, raise}
use adaptive_gateway.Rtt.{RttState, Thresholds, advance}
use adaptive_gateway.Detector.State.{Codec, decode_state, encode_state}

-- Where a RedisError strikes in one attempt: nowhere, at WATCH or GET, between GET and the effect of
-- EXEC, or after that effect.
pub data Fault : Type 0 where
  quiet on_read before_exec after_exec : Fault

-- `earlier` and `meanwhile` are what another worker writes to the key before WATCH, and between
-- WATCH and EXEC.
pub record Attempt : Type 0 where
  pub earlier : Option Text
  pub meanwhile : Option Text
  pub fault : Fault

abbrev pub calm : Attempt
calm = record { earlier = none; meanwhile = none; fault = quiet }

-- _STATE_KEY.format(client_id)
abbrev pub state_key : Text → Text
state_key client_id = str "netq:" ++ client_id

abbrev pub written : Text → Option Text → Dict Text → Dict Text
written key none store = store
written key (some v) store = insert key v store

-- How an attempt ends: with EXEC done or refused for a RedisError, with a WatchError, or with an
-- exception that `_update_state` does not catch.
pub data Ending : Type 0 where
  returned conflicted : Dict Text → Ending
  failed : Exc → Dict Text → Ending

module _ (fl : Float) (codec : Codec fl.F) where
  abbrev pub folded : RttState fl → fl.F → Thresholds fl → Text
  folded current sample t = codec.dumps (encode_state fl (advance fl current sample t))

  abbrev exec : Fault → Option Text → Text → Text → Dict Text → Ending
  exec before_exec meanwhile key v store = returned (written key meanwhile store)
  exec _ (some w) key v store = conflicted (insert key w store)
  exec _ none key v store = returned (insert key v store)

  abbrev write_back :
      Result (RttState fl) → Attempt → Text → fl.F → Thresholds fl → Dict Text → Ending
  write_back (raise e) a key sample t store = failed e store
  write_back (ok current) a key sample t store =
      exec a.fault a.meanwhile key (folded current sample t) store

  unfoldable pub attempt : Attempt → Text → fl.F → Thresholds fl → Dict Text → Ending
  attempt a key sample t store =
      let seen = written key a.earlier store in
      elim a.fault [
        | on_read ↦ returned (written key a.meanwhile seen)
        | _ ↦ write_back (decode_state fl codec (lookup key seen)) a key sample t seen
      ]

  abbrev next_attempt : List Attempt → Attempt
  next_attempt [] = calm
  next_attempt (a ∷ _) = a

  abbrev later : List Attempt → List Attempt
  later [] = []
  later (_ ∷ rest) = rest

  -- for _ in range(rounds), over the schedule; past its end Redis is quiet
  unfoldable pub attempts :
      ℕ → List Attempt → Text → fl.F → Thresholds fl → Dict Text → Option Exc × Dict Text
  attempts zero schedule key sample t store = (none, store)
  attempts (suc n) schedule key sample t store =
      elim (attempt (next_attempt schedule) key sample t store) [
        | returned store' ↦ (none, store')
        | failed e store' ↦ (some e, store')
        | conflicted store' ↦ attempts n (later schedule) key sample t store'
      ]

  unfoldable pub update_state :
      List Attempt → Text → fl.F → Thresholds fl → Dict Text → Option Exc × Dict Text
  update_state schedule client_id sample t store =
      attempts 4 schedule (state_key client_id) sample t store
