-- ===== src/Agent/Names/Labels.antt =====
-- Labels as they are described in RFC 1123.
use astradns_agent.Common.{
  ℕ, ◌≤◌, ◌≡◌, ◌≢◌, ◌↔◌, ◌⊎◌, true, false, [], ◌∷◌, Text, All, arith, length,
}
use astradns_agent.Agent.Names.{is_lower_alpha, is_digit, label_bytes, is_dns1123_label}

-- A letter in lower case, a digit or a hyphen.
abbrev pub IsLabelByte : ℕ → Type 0
IsLabelByte ch = ((b'a' ≤ ch) × (ch ≤ b'z')) ⊎ (((b'0' ≤ ch) × (ch ≤ b'9')) ⊎ (ch ≡ b'-'))

abbrev pub EndsPlain : Text → Type 0
EndsPlain [] = Unit
EndsPlain (ch ∷ []) = ch ≢ b'-'
EndsPlain (ch ∷ d ∷ rest) = EndsPlain (d ∷ rest)

abbrev pub StartsPlain : Text → Type 0
StartsPlain [] = Unit
StartsPlain (ch ∷ rest) = ch ≢ b'-'

label_bytes_later : (s : Text) → (label_bytes false s ≡ true) ↔ (All IsLabelByte s × EndsPlain s)
unfolding label_bytes is_lower_alpha is_digit
label_bytes_later [] = ground arith
label_bytes_later (ch ∷ []) = ground arith
label_bytes_later (ch ∷ d ∷ rest) = ground (arith, label_bytes_later (d ∷ rest))

label_bytes_first :
    (s : Text) → (label_bytes true s ≡ true) ↔ (All IsLabelByte s × StartsPlain s × EndsPlain s)
unfolding label_bytes is_lower_alpha is_digit
label_bytes_first [] = ground arith
label_bytes_first (ch ∷ []) = ground arith
label_bytes_first (ch ∷ d ∷ rest) = ground (arith, label_bytes_later (d ∷ rest))

-- `isDNS1123Label` holds exactly of one to 63 letters in lower case, digits and hyphens that
-- neither begin nor end with a hyphen.
pub is_dns1123_label_iff :
    (label : Text)
    → (is_dns1123_label label ≡ true) ↔ (
        (1 ≤ length label)
        × (length label ≤ 63)
        × All IsLabelByte label
        × StartsPlain label
        × EndsPlain label)
unfolding is_dns1123_label
is_dns1123_label_iff label = ground (arith, label_bytes_first label)
