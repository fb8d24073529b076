-- ===== src/Diagnostics/Sorting.antt =====
-- Sorting texts by their bytes.
use astradns_agent.Common.{
  ◌≡◌, inl, inr, refl, true, false, Bool-cases, List, [], ◌∷◌, Text, any, arith, All, text_eq,
  text_eq_iff, if◌then◌else◌, if_cases,
}
use astradns_agent.Diagnostics.{text_before, insert_sorted, sort_strings}

pub text_before-total : (s t : Text) → text_before s t ≡ false → text_before t s ≡ true
unfolding text_before
text_before-total [] t h = cc
text_before-total (c ∷ s) [] h = refl
text_before-total (c ∷ s) (d ∷ t) h = ground (arith, h, text_before-total s t)

-- Each text stands before the next, and differs from it.
abbrev pub IsStrict : List Text → Type 0
IsStrict [] = Unit
IsStrict (s ∷ []) = Unit
IsStrict (s ∷ t ∷ ts) = ((text_before s t ≡ true) × (text_eq s t ≡ false)) × IsStrict (t ∷ ts)

text_eq-sym : (s t : Text) → text_eq s t ≡ false → text_eq t s ≡ false
text_eq-sym s t h = ground (arith, h, text_eq_iff s t, text_eq_iff t s)

insert_sorted-any :
    (u s : Text) (ts : List Text)
    → any (text_eq u) (insert_sorted s ts) ≡ (if text_eq u s then true else any (text_eq u) ts)
unfolding insert_sorted
insert_sorted-any u s [] = refl
insert_sorted-any u s (t ∷ ts) = ground (arith, insert_sorted-any u s ts)

-- Sorting keeps the members.
pub sort_strings-any :
    (u : Text) (ss : List Text) → any (text_eq u) (sort_strings ss) ≡ any (text_eq u) ss
unfolding sort_strings
sort_strings-any u [] = refl
sort_strings-any u (s ∷ ss) =
    ground (arith, insert_sorted-any u s (sort_strings ss), sort_strings-any u ss)

-- Of texts that each differ from those after it.
abbrev pub IsOnce : List Text → Type 0
IsOnce [] = Unit
IsOnce (s ∷ ss) = (any (text_eq s) ss ≡ false) × IsOnce ss

insert_under :
    (t s : Text) (ts : List Text)
    → (text_before t s ≡ true)
    → (text_eq t s ≡ false)
    → IsStrict (t ∷ ts)
    → IsStrict (insert_sorted s ts)
    → IsStrict (t ∷ insert_sorted s ts)
unfolding insert_sorted
insert_under t s [] b e k i = ((b, e), tt)
insert_under t s (u ∷ us) b e k i = elim (Bool-cases (text_before s u)) [
  | inl h ↦ rw h (let i : IsStrict (s ∷ u ∷ us) = rw h at i in ((b, e), i))
  | inr h ↦ rw h (let i : IsStrict (u ∷ insert_sorted s us) = rw h at i in (k.0, i))
]

IsStrict-tail : (t : Text) (ts : List Text) → IsStrict (t ∷ ts) → IsStrict ts
IsStrict-tail t [] k = tt
IsStrict-tail t (u ∷ us) k = k.1

insert_sorted-IsStrict :
    (s : Text) (ts : List Text)
    → any (text_eq s) ts ≡ false
    → IsStrict ts
    → IsStrict (insert_sorted s ts)
unfolding insert_sorted
insert_sorted-IsStrict s [] n k = tt
insert_sorted-IsStrict s (t ∷ ts) n k = elim (Bool-cases (text_before s t)) [
  | inl h ↦ rw h ((h, ground (arith, n)), k)
  | inr h ↦
      let below =
        insert_under t s ts (text_before-total s t h) (text_eq-sym s t (ground (arith, n))) k
          (insert_sorted-IsStrict s ts (ground (arith, n)) (IsStrict-tail t ts k)) in
      rw h below
]

pub sort_strings-IsStrict : (ss : List Text) → IsOnce ss → IsStrict (sort_strings ss)
unfolding sort_strings
sort_strings-IsStrict [] k = tt
sort_strings-IsStrict (s ∷ ss) k =
    insert_sorted-IsStrict s (sort_strings ss) (rw (sort_strings-any s ss) k.0)
      (sort_strings-IsStrict ss k.1)

insert_sorted-All :
    (P : Text → Type 0) (s : Text) (ts : List Text) → P s → All P ts → All P (insert_sorted s ts)
unfolding insert_sorted
insert_sorted-All P s [] p k = (p, tt)
insert_sorted-All P s (t ∷ ts) p k =
    if_cases (All P) (text_before s t) (λ _. (p, k)) λ _. (k.0, insert_sorted-All P s ts p k.1)

pub sort_strings-All : (P : Text → Type 0) (ss : List Text) → All P ss → All P (sort_strings ss)
unfolding sort_strings
sort_strings-All P [] k = tt
sort_strings-All P (s ∷ ss) k =
    insert_sorted-All P s (sort_strings ss) k.0 (sort_strings-All P ss k.1)
