-- ===== src/Common/Texts.antt =====
-- Text as a list of bytes, and what the Go library does to it. Case and white space are those of
-- ASCII, in which DNS names are written; `strings.ToLower`, `strings.ToUpper` and
-- `strings.TrimSpace` act on letters and spaces outside ASCII too, which is not modelled.
use Prim.Native.Char.{code}
use Prim.Native.String.{String}
use Prim.Native.Nat.{ℕ, zero, suc, ◌+◌, ◌-◌, ◌/◌, ◌%◌}
use mathlib.Core.Path.{◌≡◌, refl}
use mathlib.Core.Logic.{◌↔◌}
use mathlib.Core.Bool.{Bool, true, false, ◌&&◌, ◌||◌}
use mathlib.Core.List.{List, [], ◌∷◌, map, reverse}
use native.Mathlib.Omega.{arith}
use astradns_agent.Common.Tests.{leb, ◌==◌, if◌then◌else◌}

abbrev pub Text : Type 0
Text = List ℕ

-- A text literal.
abbrev pub codes : String → Text
codes String.[] = []
codes (String.◌∷◌ c s) = code c ∷ codes s

-- `a == b` of texts.
unfoldable pub text_eq : Text → Text → Bool
text_eq [] [] = true
text_eq [] (y ∷ ys) = false
text_eq (x ∷ xs) [] = false
text_eq (x ∷ xs) (y ∷ ys) = x == y && text_eq xs ys

pub text_eq_iff : (a b : Text) → (text_eq a b ≡ true) ↔ (a ≡ b)
unfolding text_eq
text_eq_iff [] [] = ground arith
text_eq_iff [] (y ∷ ys) = ground arith
text_eq_iff (x ∷ xs) [] = ground arith
text_eq_iff (x ∷ xs) (y ∷ ys) = ground (arith, text_eq_iff xs ys)

pub text_eq_refl : (a : Text) → text_eq a a ≡ true
text_eq_refl a = (text_eq_iff a a).1 refl

-- `strings.ToLower` and `strings.ToUpper`.
unfoldable pub lower_byte : ℕ → ℕ
lower_byte c = if leb b'A' c && leb c b'Z' then c + 32 else c

unfoldable pub upper_byte : ℕ → ℕ
upper_byte c = if leb b'a' c && leb c b'z' then c - 32 else c

unfoldable pub to_lower : Text → Text
unfolding lower_byte
to_lower = map lower_byte

unfoldable pub to_upper : Text → Text
unfolding upper_byte
to_upper = map upper_byte

-- `strings.TrimSpace`: tab, line feed, vertical tab, form feed, carriage return and space.
unfoldable pub is_space : ℕ → Bool
is_space c = c == 32 || (leb 9 c && leb c 13)

unfoldable pub trim_left : Text → Text
trim_left [] = []
trim_left (c ∷ s) = let rest = trim_left s in if is_space c then rest else c ∷ s

unfoldable pub trim_space : Text → Text
unfolding trim_left is_space
trim_space s = reverse (trim_left (reverse (trim_left s)))

-- `strings.HasPrefix`, and `strings.HasSuffix` by the reversed texts.
unfoldable pub has_prefix : Text → Text → Bool
has_prefix s [] = true
has_prefix [] (p ∷ ps) = false
has_prefix (c ∷ s) (p ∷ ps) = c == p && has_prefix s ps

unfoldable pub has_suffix : Text → Text → Bool
unfolding has_prefix
has_suffix s suffix = has_prefix (reverse s) (reverse suffix)

-- `strings.TrimSuffix(s, ".")`.
drop_dot : Text → Text
drop_dot [] = []
drop_dot (c ∷ s) = if c == b'.' then s else c ∷ s

unfoldable pub trim_suffix_dot : Text → Text
unfolding drop_dot
trim_suffix_dot s = reverse (drop_dot (reverse s))

-- `strings.Split(s, sep)` at a separator of one byte: never empty.
split_first : ℕ → List Text → List Text
split_first c [] = (c ∷ []) ∷ []
split_first c (w ∷ ws) = (c ∷ w) ∷ ws

unfoldable pub split : Text → ℕ → List Text
unfolding split_first
split [] sep = [] ∷ []
split (c ∷ s) sep = if c == sep then [] ∷ split s sep else split_first c (split s sep)

-- `%d` of a number that is not negative, last digit first; the fuel is the number itself.
unfoldable pub digits : ℕ → ℕ → Text
digits zero n = (b'0' + n % 10) ∷ []
digits (suc f) n =
    let rest = digits f (n / 10) in
    if leb 10 n then (b'0' + n % 10) ∷ rest else (b'0' + n % 10) ∷ []

unfoldable pub decimal : ℕ → Text
unfolding digits
decimal n = reverse (digits n n)
