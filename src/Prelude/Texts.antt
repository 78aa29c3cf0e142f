-- ===== src/Prelude/Texts.antt =====
-- Python's `str` as the list of its code points, with the methods that the gateway calls.
-- `lower` and `strip` are Python's on the code points below 256, which are what header bytes decode
-- to (latin-1).
use Prim.Native.Nat.{ℕ, zero, suc, ◌+◌, ◌-◌, ◌/◌, ◌%◌}
use Prim.Native.Char.{code}
use Prim.Native.String.{String}
use mathlib.Core.Path.{◌≡◌, refl}
use mathlib.Core.Logic.{◌↔◌}
use mathlib.Core.Bool.{Bool, true, false, not, ◌&&◌, ◌||◌}
use mathlib.Core.List.{List, [], ◌∷◌, ◌++◌, reverse}
use native.Mathlib.Omega.{arith}
use adaptive_gateway.Prelude.Tests.{ltb, leb, ◌==◌, if◌then◌else◌}

abbrev pub Text : Type 0
Text = List ℕ

-- A literal of the source, as its code points.
abbrev pub str : String → Text
str String.[] = []
str (String.◌∷◌ c s) = code c ∷ str s

-- s == t
unfoldable pub text_eq : Text → Text → Bool
text_eq [] [] = true
text_eq [] (d ∷ t) = false
text_eq (c ∷ s) [] = false
text_eq (c ∷ s) (d ∷ t) = c == d && text_eq s t

pub text_eq_iff : (s t : Text) → (text_eq s t ≡ true) ↔ (s ≡ t)
unfolding text_eq
text_eq_iff [] [] = ground arith
text_eq_iff [] (d ∷ t) = ground arith
text_eq_iff (c ∷ s) [] = ground arith
text_eq_iff (c ∷ s) (d ∷ t) = ground (arith, text_eq_iff s t)

pub text_eq_refl : (s : Text) → text_eq s s ≡ true
text_eq_refl s = (text_eq_iff s s).1 refl

-- s in {…}
unfoldable pub among : Text → List Text → Bool
unfolding text_eq
among s [] = false
among s (t ∷ ts) = text_eq s t || among s ts

unfoldable pub lower_char : ℕ → ℕ
lower_char c =
    if (leb b'A' c && leb c b'Z') || ((leb 192 c && leb c 222) && not (c == 215)) then c + 32 else c

-- s.lower()
unfoldable pub lower : Text → Text
unfolding lower_char
lower [] = []
lower (c ∷ s) = lower_char c ∷ lower s

abbrev upper_char : ℕ → Text
upper_char c =
    if (leb b'a' c && leb c b'z') || ((leb 224 c && leb c 254) && not (c == 247))
    then (c - 32) ∷ []
    else if c == 223
    then b'S' ∷ b'S' ∷ []
    else if c == 181
    then 924 ∷ []
    else if c == 255
    then 376 ∷ []
    else c ∷ []

-- s.upper()
unfoldable pub upper : Text → Text
upper [] = []
upper (c ∷ s) = upper_char c ++ upper s

-- s < t
abbrev pub less : Text → Text → Bool
less s [] = false
less [] (d ∷ t) = true
less (c ∷ s) (d ∷ t) = ltb c d || (c == d && less s t)

-- c.isspace()
unfoldable pub is_space : ℕ → Bool
is_space c = (leb 9 c && leb c 13) || (leb 28 c && leb c 32) || c == 133 || c == 160

unfoldable pub strip_left : Text → Text
unfolding is_space
strip_left [] = []
strip_left (c ∷ s) = let rest = strip_left s in if is_space c then rest else c ∷ s

-- s.strip()
unfoldable pub strip : Text → Text
unfolding strip_left
strip s = reverse (strip_left (reverse (strip_left s)))

unfoldable pub starts_with : Text → Text → Bool
starts_with s [] = true
starts_with [] (p ∷ ps) = false
starts_with (c ∷ s) (p ∷ ps) = c == p && starts_with s ps

-- s.startswith(p), s.endswith(p)
unfoldable pub ends_with : Text → Text → Bool
unfolding starts_with
ends_with s p = starts_with (reverse s) (reverse p)

-- p in s
unfoldable pub contains_text : Text → Text → Bool
unfolding starts_with
contains_text [] p = starts_with [] p
contains_text (c ∷ s) p = starts_with (c ∷ s) p || contains_text s p

-- s.partition(sep) with a one-character separator: the part before, and what follows it
unfoldable pub partition : ℕ → Text → Text × Text
partition sep [] = ([], [])
partition sep (c ∷ s) =
    let (head, tail) = partition sep s in if c == sep then ([], s) else (c ∷ head, tail)

abbrev push_head : ℕ → List Text → List Text
push_head c [] = (c ∷ []) ∷ []
push_head c (p ∷ ps) = (c ∷ p) ∷ ps

-- s.split(sep)
unfoldable pub split : ℕ → Text → List Text
split sep [] = [] ∷ []
split sep (c ∷ s) = let rest = split sep s in if c == sep then [] ∷ rest else push_head c rest

abbrev decimal_digits : ℕ → ℕ → Text
decimal_digits zero n = []
decimal_digits (suc fuel) n =
    let before = decimal_digits fuel (n / 10) in
    if ltb n 10 then (b'0' + n) ∷ [] else before ++ (b'0' + n % 10) ∷ []

-- str(n): a number has fewer digits than its successor has units
unfoldable pub decimal : ℕ → Text
decimal n = decimal_digits (suc n) n

-- sep.join(parts)
unfoldable pub join : Text → List Text → Text
join sep [] = []
join sep (p ∷ []) = p
join sep (p ∷ q ∷ ps) = p ++ (sep ++ join sep (q ∷ ps))

-- All of the text's functions open at once, for the tests.
unfoldable pub texts : Unit {0}
unfolding text_eq among lower strip starts_with ends_with contains_text partition split join
texts = tt
