-- ===== src/Engines/LineWriter/Lines.antt =====
-- The lines of the output.
use astradns_agent.Common.{
  ℕ, ◌≡◌, ◌↔◌, refl, sym, ap, subst, ◌∙◌, false, Bool-cases, inl, inr, ◌==◌, List, [], ◌∷◌, ◌++◌,
  Text, All, arith,
}
use astradns_agent.Engines.LineWriter.{under_line, split_lines}

-- The lines, each with its line feed, and the rest.
unfoldable pub joined : List Text × Text → Text
joined ([], rest) = rest
joined (s ∷ lines, rest) = s ++ (10 ∷ joined (lines, rest))

abbrev pub IsFeedless : Text → Type 0
IsFeedless s = All (λ c. (c == 10) ≡ false) s

joined-under_line : (c : ℕ) (r : List Text × Text) → joined (under_line c r) ≡ c ∷ joined r
unfolding joined
joined-under_line c ([], rest) = refl
joined-under_line c (s ∷ lines, rest) = refl

joined-split_lines : (s : Text) → joined (split_lines s) ≡ s
unfolding joined split_lines
joined-split_lines [] = refl
joined-split_lines (c ∷ s) = elim (Bool-cases (c == 10)) [
  | inl e ↦ rw e (ground (arith, e, joined-split_lines s))
  | inr e ↦
      rw e (joined-under_line c (split_lines s) ∙ ap (λ (t : Text). c ∷ t) (joined-split_lines s))
]

abbrev pub IsSplit : List Text × Text → Type 0
IsSplit r = All IsFeedless r.0 × IsFeedless r.1

under_line-IsSplit :
    (c : ℕ) (r : List Text × Text) → (c == 10) ≡ false → IsSplit r → IsSplit (under_line c r)
under_line-IsSplit c ([], rest) e k = (tt, (e, k.1))
under_line-IsSplit c (s ∷ lines, rest) e k = (((e, k.0.0), k.0.1), k.1)

pub split_lines-IsSplit : (s : Text) → IsSplit (split_lines s)
unfolding split_lines
split_lines-IsSplit [] = (tt, tt)
split_lines-IsSplit (c ∷ s) = elim (Bool-cases (c == 10)) [
  | inl e ↦ rw e (let k = split_lines-IsSplit s in ((tt, k.0), k.1))
  | inr e ↦ rw e (under_line-IsSplit c (split_lines s) e (split_lines-IsSplit s))
]

feedless-split : (s : Text) → IsFeedless s → split_lines s ≡ ([], s)
unfolding split_lines
feedless-split [] k = refl
feedless-split (c ∷ s) k = rw (k.0, feedless-split s k.1) refl

feed-split :
    (s t : Text)
    → IsFeedless s
    → split_lines (s ++ 10 ∷ t) ≡ (s ∷ (split_lines t).0, (split_lines t).1)
unfolding split_lines
feed-split [] t k = refl
feed-split (c ∷ s) t k = rw (k.0, feed-split s t k.1) refl

split_lines-joined :
    (lines : List Text) (rest : Text)
    → IsSplit (lines, rest)
    → split_lines (joined (lines, rest)) ≡ (lines, rest)
unfolding joined
split_lines-joined [] rest k = feedless-split rest k.1
split_lines-joined (s ∷ lines) rest k =
    let later = split_lines-joined lines rest (k.0.1, k.1) in
    feed-split s (joined (lines, rest)) k.0.0 ∙ ap (λ (r : List Text × Text). (s ∷ r.0, r.1)) later

-- The loop of `Write` cuts a text into the lines and the rest that, with a line feed after each
-- line, make up the text, and of which none has a line feed in it; it is the only way to cut it so.
pub split_lines_iff :
    (s : Text) (r : List Text × Text) → (split_lines s ≡ r) ↔ ((joined r ≡ s) × IsSplit r)
split_lines_iff s r = (
  λ e. (ap joined (sym e) ∙ joined-split_lines s, subst IsSplit e (split_lines-IsSplit s)),
  λ k. ap split_lines (sym k.0) ∙ split_lines-joined r.0 r.1 k.1,
)
