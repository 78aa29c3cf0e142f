-- ===== src/Cache/Locks.antt =====
-- gateway/cache/redis_client.py: the locks, which a random token tells apart.
pub mod Exclusion
use adaptive_gateway.Prelude.{
  ℕ, Bool, true, false, Option, none, some, List, [], ◌∷◌, ◌++◌, if◌then◌else◌,
}
use adaptive_gateway.Prelude.Texts.{Text, str, text_eq}
use adaptive_gateway.Redis.{Redis, Reply, answered, effect}

abbrev pub lock_key : Text → Text
lock_key name = str "lock:" ++ name

abbrev has_text : Text → Option Text → Bool
has_text token none = false
has_text token (some held) = text_eq held token

module _ (r : Redis) where
  open r use {S}

  abbrev acquired : Reply → Text → S → S × Bool → Option Text × S
  acquired answered token s set = (if set.1 then some token else none, set.0)
  acquired reply token s set = (none, effect reply s set.0)

  -- `token` is what secrets.token_hex gives
  unfoldable pub acquire_lock : Reply → ℕ → Text → Text → ℕ → S → Option Text × S
  acquire_lock reply t token name ttl s =
      acquired reply token s (r.set_nx t ttl (lock_key name) token s)

  -- The script: the lock is deleted only when it still holds the caller's token.
  unfoldable pub delete_if_held : ℕ → Text → Text → S → S
  delete_if_held t key token s = if has_text token (r.get t key s) then r.delete t key s else s

  unfoldable pub release_lock : Reply → ℕ → Text → Text → S → S
  release_lock reply t name token s = effect reply s (delete_if_held t (lock_key name) token s)
