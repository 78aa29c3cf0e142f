-- ===== src/Cache/Tests.antt =====
-- The cache and the locks at concrete stores.
use adaptive_gateway.Prelude.{◌≡◌, refl, true, none, some, List, [], ◌∷◌, arith, ◌≤◌, ◌<◌}
use adaptive_gateway.Prelude.Texts.{Text, str, texts}
use adaptive_gateway.Prelude.Dicts.{lookup, insert}
use adaptive_gateway.Prelude.Floats.{Fixed, fin, fixed}
use adaptive_gateway.Prelude.Results.{Exc, value_error, Result, ok, raise}
use adaptive_gateway.Redis.{table, table_laws, Table, answered, lost_after}
use adaptive_gateway.Cache.{
  CachedResponse, Envelope, stale, is_malformed, is_stale, cache_get, cache_set,
}
use adaptive_gateway.Cache.Laws.{cache_get-cache_set}
use adaptive_gateway.Cache.Locks.{acquire_lock, release_lock}
use adaptive_gateway.Cache.Locks.Exclusion.{
  Call, acquiring, releasing, calls, acquired_lock_excludes, lock_frees,
}

abbrev pub entry : CachedResponse Fixed
entry = record {
  status = 200;
  headers = [];
  body_b64 = str "YQ==";
  media_type = none;
  stored_at = fin 1000000;
  fresh_for = 60;
}

abbrev read_back : Text → Result (CachedResponse Fixed)
read_back [] = raise value_error
read_back (_ ∷ _) = ok entry

-- One entry, and one body.
abbrev pub env : Envelope Fixed
env = record {
  dump = λ _. str "{}";
  validate = read_back;
  b64encode = λ _. str "YQ==";
  b64decode = λ _. ok (str "a");
}

validated : (raw : Text) (e : Exc) → read_back raw ≡ raise e → is_malformed e ≡ true
validated [] e same = ground arith
validated (c ∷ raw) e same = cc same

decoded : (raw : Text) (e : Exc) → env.b64decode raw ≡ raise e → is_malformed e ≡ true
decoded raw e same = cc same

cache_get-cache_set_example :
    cache_get fixed env table answered 1070
      (fin 1070000)
      (str "k")
      (cache_set fixed env table answered 1000 (str "k") entry [])
    ≡ ok (stale, some entry)
unfolding is_stale
cache_get-cache_set_example =
    cache_get-cache_set fixed env table table_laws 1000 1070 (fin 1070000) (str "k") entry (str "a")
      [] (omega arith) refl refl

abbrev held : Table
held = (str "lock:x", (str "me", 20)) ∷ []

-- Another client tries to take the lock, and one whose lock has expired releases it late.
abbrev others : List Call
others = acquiring answered 12 (str "you") ∷ releasing lost_after 15 (str "old") ∷ []

acquired_lock_excludes_example : calls table (str "x") 10 others held ≡ ([], held)
unfolding acquire_lock texts lookup insert
acquired_lock_excludes_example =
    acquired_lock_excludes table table_laws 10 10 10 (str "me") (str "x") [] held others refl
      ((omega arith, omega arith, refl), ((omega arith, omega arith, refl), tt))

lock_frees_example :
    (20 ≤ 25 → (acquire_lock table answered 25 (str "you") (str "x") 10 held).0 ≡ some (str "you"))
    × (14 < 20
        → (acquire_lock table answered 25
            (str "you")
            (str "x")
            10
            (release_lock table answered 14 (str "x") (str "me") held)).0
          ≡ some (str "you"))
unfolding acquire_lock texts lookup insert
lock_frees_example =
    lock_frees table table_laws 10 14 25 10 (str "me") (str "you") (str "x") [] held (omega arith)
      (omega arith) refl
