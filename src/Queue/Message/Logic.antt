-- ===== src/Queue/Message/Logic.antt =====
-- What holds after a chain of commands, each of which may break off.
use adaptive_gateway.Prelude.{◌≡◌, refl}
use adaptive_gateway.Prelude.Results.{Exc}
use adaptive_gateway.Redis.{Reply, answered, lost_before, lost_after}
use adaptive_gateway.Queue.Message.{Message, Outcome, done, broke, and_then, command, query}

module _ {F : Type 0} where
  -- Both ways an outcome can end.
  abbrev pub After : (Message F → Type 0) → Outcome F → Type 0
  After P (done w) = P w
  After P (broke e w) = P w

  -- A way that goes on, with what holds where it breaks off.
  abbrev pub Then : (Message F → Type 0) → (Message F → Type 0) → Outcome F → Type 0
  Then Q P (done w) = Q w
  Then Q P (broke e w) = P w

  pub and_then-After :
      (P Q : Message F → Type 0) (o : Outcome F) (k : Message F → Outcome F)
      → Then Q P o
      → ((w : Message F) → Q w → After P (k w))
      → After P (and_then o k)
  and_then-After P Q (done w) k q next = next w q
  and_then-After P Q (broke e w) k p next = p

  pub command-Then :
      (P Q : Message F → Type 0) (reply : Reply) (e : Exc) (f : Message F → Message F)
      (w : Message F)
      → P w
      → Q (f w)
      → P (f w)
      → Then Q P (command reply e f w)
  command-Then P Q answered e f w before after broken = after
  command-Then P Q lost_before e f w before after broken = before
  command-Then P Q lost_after e f w before after broken = broken

  pub command-After :
      (P : Message F → Type 0) (reply : Reply) (e : Exc) (f : Message F → Message F) (w : Message F)
      → P w
      → P (f w)
      → After P (command reply e f w)
  command-After P answered e f w before after = after
  command-After P lost_before e f w before after = before
  command-After P lost_after e f w before after = after

  pub query-After :
      {A : Type 0} (P : Message F → Type 0) (reply : Reply) (a : A) (k : A → Outcome F)
      (w : Message F)
      → P w
      → After P (k a)
      → After P (query reply a k w)
  query-After P answered a k w before after = after
  query-After P lost_before a k w before after = before
  query-After P lost_after a k w before after = before

  pub and_then_answered :
      (reply : Reply) (e : Exc) (f : Message F → Message F) (w : Message F)
      (k : Message F → Outcome F)
      → reply ≡ answered
      → and_then (command reply e f w) k ≡ k (f w)
  and_then_answered reply e f w k q = rw q refl

  pub query_answered :
      {A : Type 0} (reply : Reply) (a : A) (k : A → Outcome F) (w : Message F)
      → reply ≡ answered
      → query reply a k w ≡ k a
  query_answered reply a k w q = rw q refl
