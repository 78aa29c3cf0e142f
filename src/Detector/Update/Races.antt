-- ===== src/Detector/Update/Races.antt =====
-- What concurrent workers can do to the shared state.
use adaptive_gateway.Prelude.{
  ℕ, zero, suc, ◌≤◌, ◌<◌, ◌≡◌, refl, Option, none, some, List, [], ◌∷◌, arith, length, map, All,
  take,
}
use adaptive_gateway.Prelude.Texts.{Text}
use adaptive_gateway.Prelude.Dicts.{Dict, lookup, insert, lookup-insert_self}
use adaptive_gateway.Prelude.Floats.{Float}
use adaptive_gateway.Prelude.Results.{ok}
use adaptive_gateway.Rtt.{RttState, Thresholds}
use adaptive_gateway.Detector.State.{Codec, decode_state}
use adaptive_gateway.Detector.Update.{
  Attempt, calm, state_key, folded, attempt, attempts, update_state, returned, conflicted,
}

-- Another worker writes `v` between WATCH and EXEC.
abbrev pub overtaken : Text → Attempt
overtaken v = record calm { meanwhile = some v }

abbrev pub after_writes : Text → Dict Text → List Text → Dict Text
after_writes key store [] = store
after_writes key store (v ∷ vs) = after_writes key (insert key v store) vs

module _ (fl : Float) (codec : Codec fl.F) where
  abbrev pub Readable : Option Text → Type 0
  Readable raw = (s : RttState fl) × (decode_state fl codec raw ≡ ok s)

  -- One attempt that is overtaken leaves the other worker's write, and one that is not folds the
  -- sample into the state that it read.
  attempt-overtaken :
      (v key : Text) (sample : fl.F) (t : Thresholds fl) (store : Dict Text)
      → Readable (lookup key store)
      → attempt fl codec (overtaken v) key sample t store ≡ conflicted (insert key v store)
  unfolding attempt
  attempt-overtaken v key sample t store (s, e) = rw e

  attempt-calm :
      (key : Text) (sample : fl.F) (t : Thresholds fl) (store : Dict Text) (s : RttState fl)
      → decode_state fl codec (lookup key store) ≡ ok s
      → attempt fl codec calm key sample t store
        ≡ returned (insert key (folded fl codec s sample t) store)
  unfolding attempt
  attempt-calm key sample t store s e = rw e

  catches_up :
      (n : ℕ) (vs : List Text) (key : Text) (sample : fl.F) (t : Thresholds fl) (store : Dict Text)
      (s : RttState fl)
      → Readable (lookup key store)
      → All (λ v. Readable (some v)) vs
      → decode_state fl codec (lookup key (after_writes key store vs)) ≡ ok s
      → length vs < n
      → attempts fl codec n (map overtaken vs) key sample t store
        ≡ (none, insert key (folded fl codec s sample t) (after_writes key store vs))
  unfolding attempts
  catches_up zero vs key sample t store s r all e lt = absurd (omega arith)
  catches_up (suc n) [] key sample t store s r all e lt =
      rw (attempt-calm key sample t store s e, attempts)
  catches_up (suc n) (v ∷ vs) key sample t store s r (here, all) e lt =
      rw (attempt-overtaken v key sample t store r, attempts)
        (catches_up n vs key sample t (insert key v store) s
          (rw (lookup-insert_self key v store) here) all e (omega arith))

  gives_up :
      (n : ℕ) (vs : List Text) (key : Text) (sample : fl.F) (t : Thresholds fl) (store : Dict Text)
      → Readable (lookup key store)
      → All (λ v. Readable (some v)) vs
      → n ≤ length vs
      → attempts fl codec n (map overtaken vs) key sample t store
        ≡ (none, after_writes key store (take n vs))
  unfolding attempts
  gives_up zero vs key sample t store r all le = refl
  gives_up (suc n) [] key sample t store r all le = absurd (omega arith)
  gives_up (suc n) (v ∷ vs) key sample t store r (here, all) le =
      rw (attempt-overtaken v key sample t store r, attempts)
        (gives_up n vs key sample t (insert key v store) (rw (lookup-insert_self key v store) here)
          all (omega arith))

  -- Other workers overtake the update with readable states `vs`. With fewer than four, the sample
  -- is folded into the last of these (into what was there, if there is none), and no write is
  -- lost. With four or more the sample is skipped, and the first four writes stand as they are.
  pub update_state_races :
      (vs : List Text) (client_id : Text) (sample : fl.F) (t : Thresholds fl) (store : Dict Text)
      (s : RttState fl)
      → Readable (lookup (state_key client_id) store)
      → All (λ v. Readable (some v)) vs
      → decode_state fl codec
          (lookup (state_key client_id) (after_writes (state_key client_id) store vs))
        ≡ ok s
      → (length vs < 4
          → update_state fl codec (map overtaken vs) client_id sample t store ≡ (
            none,
            insert
                (state_key client_id)
                (folded fl codec s sample t)
                (after_writes (state_key client_id) store vs),
          ))
        × (4 ≤ length vs
            → update_state fl codec (map overtaken vs) client_id sample t store
              ≡ (none, after_writes (state_key client_id) store (take 4 vs)))
  unfolding update_state
  update_state_races vs client_id sample t store s r all e =
      (catches_up 4 vs _ sample t store s r all e, gives_up 4 vs _ sample t store r all)
