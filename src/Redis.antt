-- ===== src/Redis.antt =====
-- The Redis commands on strings that the gateway sends, as an interface: a server is a type of
-- stores with these commands, and `RedisLaws` is what their documentation promises. Times are the
-- server's clock in seconds. `Reply` is what the client sees of a command.
use adaptive_gateway.Prelude.{
  ℕ, ◌≤◌, ◌+◌, ◌≡◌, refl, Bool, true, false, Option, none, some, ltb, if◌then◌else◌, is_some, arith,
}
use adaptive_gateway.Prelude.Texts.{Text, text_eq}
use adaptive_gateway.Prelude.Dicts.{Dict, lookup, insert, pop, lookup-insert, lookup-pop}

pub record Redis : Type 1 where
  pub S : Type 0
  -- GET k
  pub get : ℕ → Text → S → Option Text
  -- SET k v EX ttl
  pub set_ex : ℕ → ℕ → Text → Text → S → S
  -- SET k v NX EX ttl, and whether it has set k
  pub set_nx : ℕ → ℕ → Text → Text → S → S × Bool
  -- DEL k
  pub delete : ℕ → Text → S → S

pub record RedisLaws (r : Redis) : Type 0 where
  pub get-set_ex :
      (t t' ttl : ℕ) (k j v : Text) (s : r.S)
      → t ≤ t'
      → r.get t' j (r.set_ex t ttl k v s)
        ≡ (if text_eq k j then (if ltb t' (t + ttl) then some v else none) else r.get t' j s)
  pub get-delete :
      (t t' : ℕ) (k j : Text) (s : r.S)
      → t ≤ t'
      → r.get t' j (r.delete t k s) ≡ (if text_eq k j then none else r.get t' j s)
  pub set_nx_lem :
      (t ttl : ℕ) (k v : Text) (s : r.S)
      → r.set_nx t ttl k v s
        ≡ (if is_some (r.get t k s) then (s, false) else (r.set_ex t ttl k v s, true))

-- The command ran and its answer arrived, or RedisError was raised before or after it ran.
pub data Reply : Type 0 where
  answered lost_before lost_after : Reply

-- The store after a command whose effect is the second store.
abbrev pub effect : {S : Type 0} → Reply → S → S → S
effect lost_before old new = old
effect _ old new = new

-- A server as a dictionary of values with the second at which they expire.
abbrev pub Table : Type 0
Table = Dict (Text × ℕ)

abbrev pub live : ℕ → Option (Text × ℕ) → Option Text
live t none = none
live t (some (v, expires)) = if ltb t expires then some v else none

abbrev pub table : Redis
table = record {
  S = Table;
  get = λ t k s. live t (lookup k s);
  set_ex = λ t ttl k v s. insert k (v, t + ttl) s;
  set_nx = λ t ttl k v s.
      if is_some (live t (lookup k s)) then (s, false) else (insert k (v, t + ttl) s, true);
  delete = λ t k s. pop k s;
}

table_set :
    (t t' ttl : ℕ) (k j v : Text) (s : Table)
    → live t' (lookup j (insert k (v, t + ttl) s))
      ≡ (if text_eq k j then (if ltb t' (t + ttl) then some v else none) else live t' (lookup j s))
table_set t t' ttl k j v s = ground (arith, lookup-insert k j (v, t + ttl) s)

table_delete :
    (t' : ℕ) (k j : Text) (s : Table)
    → live t' (lookup j (pop k s)) ≡ (if text_eq k j then none else live t' (lookup j s))
table_delete t' k j s = ground (arith, lookup-pop k j s)

pub table_laws : RedisLaws table
table_laws = record {
  get-set_ex = λ t t' ttl k j v s _. table_set t t' ttl k j v s;
  get-delete = λ t t' k j s _. table_delete t' k j s;
  set_nx_lem = λ t ttl k v s. refl;
}
