-- ===== src/Common/Net.antt =====
-- Addresses of the form `host:port`, as `net.SplitHostPort` and `net.JoinHostPort` treat them.
use Prim.Native.Nat.{ℕ, zero, suc, ◌+◌, ◌-◌, ◌*◌, ◌^◌}
use mathlib.Core.Bool.{Bool, false, ◌&&◌, ◌||◌}
use mathlib.Core.Option.{Option, none, some}
use mathlib.Core.List.{[], ◌∷◌, ◌++◌, reverse}
use astradns_agent.Common.Ints.{ℤ, pos, negsuc}
use astradns_agent.Common.Tests.{leb, ◌==◌, if◌then◌else◌}
use astradns_agent.Common.Texts.{Text, codes, text_eq}

-- Does a byte stand in a text?
unfoldable pub contains : Text → ℕ → Bool
contains [] c = false
contains (d ∷ s) c = d == c || contains s c

abbrev pub cut_after : ℕ → Option (Text × Text) → Option (Text × Text)
cut_after d none = none
cut_after d (some (before, after)) = some (d ∷ before, after)

-- What stands before and after the first of a byte.
unfoldable pub cut : ℕ → Text → Option (Text × Text)
cut c [] = none
cut c (d ∷ s) = if d == c then some ([], s) else cut_after d (cut c s)

abbrev pub turned : Option (Text × Text) → Option (Text × Text)
turned none = none
turned (some (after, before)) = some (reverse before, reverse after)

-- And before and after the last of it.
unfoldable pub cut_last : ℕ → Text → Option (Text × Text)
unfolding cut
cut_last c s = turned (cut c (reverse s))

-- A host in brackets: they close at its end and stand nowhere else.
abbrev pub bracketed : Option (Text × Text) → Text → Option (Text × Text)
bracketed none port = none
bracketed (some (host, after)) port =
    if text_eq after []
    then (if contains host b'[' || (contains port b'[' || contains port b']')
        then none
        else some (host, port))
    else none

-- A host without: no colon but the last, no brackets.
abbrev pub plain : Text → Text → Option (Text × Text)
plain host port =
    if contains host b':' || (contains host b'[' || contains host b']')
    then none
    else if contains port b'[' || contains port b']'
    then none
    else some (host, port)

abbrev pub split_at_colon : Option (Text × Text) → Option (Text × Text)
split_at_colon none = none
split_at_colon (some ([], port)) = plain [] port
split_at_colon (some (c ∷ before, port)) =
    if c == b'[' then bracketed (cut b']' before) port else plain (c ∷ before) port

-- `net.SplitHostPort`; an error is `none`.
unfoldable pub net_split_host_port : Text → Option (Text × Text)
unfolding cut_last contains
net_split_host_port s = split_at_colon (cut_last b':' s)

-- `net.JoinHostPort` puts a host with a colon into brackets.
unfoldable pub join_host_port : Text → Text → Text
unfolding contains
join_host_port host port =
    if contains host b':'
    then codes "[" ++ (host ++ (codes "]:" ++ port))
    else host ++ (codes ":" ++ port)

-- `strconv.Atoi`: a sign or none, and digits, of a number of 64 bits.
unfoldable pub digits_value : ℕ → Text → Option ℕ
digits_value n [] = some n
digits_value n (c ∷ s) =
    let rest = digits_value (n * 10 + (c - b'0')) s in
    if leb b'0' c && leb c b'9' then rest else none

abbrev pub at_most : ℕ → (ℕ → ℤ) → Option ℕ → Option ℤ
at_most max f none = none
at_most max f (some n) = if leb n max then some (f n) else none

abbrev pub negated : ℕ → ℤ
negated zero = pos 0
negated (suc n) = negsuc n

abbrev pub unsigned : Text → Option ℕ
unsigned [] = none
unsigned (c ∷ s) = digits_value 0 (c ∷ s)

unfoldable pub atoi : Text → Option ℤ
atoi [] = none
atoi (c ∷ s) =
    if c == b'-'
    then at_most (2 ^ 63) negated (unsigned s)
    else if c == b'+'
    then at_most (2 ^ 63 - 1) pos (unsigned s)
    else at_most (2 ^ 63 - 1) pos (unsigned (c ∷ s))
