-- ===== src/Watcher/Changes.antt =====
-- The bursts of changes among the occurrences.
use astradns_agent.Common.{
  ℕ, ◌+◌, ◌≤◌, ◌≡◌, refl, true, false, leb, Bool-cases, inl, inr, List, [], ◌∷◌, arith,
  if◌then◌else◌,
}
use astradns_agent.Watcher.{
  Occurrence, canceled, events_closed, errors_closed, error, event, is_change,
}

-- The times of the changes.
unfoldable pub changes : List (ℕ × Occurrence) → List ℕ
changes [] = []
changes ((time, event op) ∷ os) =
    let rest = changes os in if is_change op then time ∷ rest else rest
changes ((time, canceled) ∷ os) = changes os
changes ((time, events_closed) ∷ os) = changes os
changes ((time, errors_closed) ∷ os) = changes os
changes ((time, error) ∷ os) = changes os

-- The last of each burst: no change follows before `debounce` has passed.
unfoldable pub burst_ends : ℕ → List ℕ → List ℕ
burst_ends debounce [] = []
burst_ends debounce (t ∷ []) = t ∷ []
burst_ends debounce (t ∷ u ∷ ts) =
    let rest = burst_ends debounce (u ∷ ts) in if leb (t + debounce) u then t ∷ rest else rest

abbrev pub IsOrdered : ℕ → List (ℕ × Occurrence) → Type 0
IsOrdered from [] = Unit
IsOrdered from ((time, o) ∷ os) = (from ≤ time) × IsOrdered time os

abbrev pub GoesOn : Occurrence → Type 0
GoesOn canceled = ⊥
GoesOn events_closed = ⊥
GoesOn errors_closed = ⊥
GoesOn error = Unit
GoesOn (event op) = Unit

abbrev pub AllGoOn : List (ℕ × Occurrence) → Type 0
AllGoOn [] = Unit
AllGoOn ((time, o) ∷ os) = GoesOn o × AllGoOn os

module _ (debounce : ℕ) where
  pub burst_ends-split :
      (t u : ℕ) (ts : List ℕ)
      → leb (t + debounce) u ≡ true
      → burst_ends debounce (t ∷ u ∷ ts) ≡ t ∷ burst_ends debounce (u ∷ ts)
  unfolding burst_ends
  burst_ends-split t u ts h = rw h refl

  le→leb : (a b : ℕ) → a ≤ b → leb a b ≡ true
  le→leb a b h = ground (arith, h)

  -- A burst is over once `debounce` has passed.
  pub burst_ends-apart :
      (t from : ℕ) (os : List (ℕ × Occurrence))
      → t + debounce ≤ from
      → IsOrdered from os
      → burst_ends debounce (t ∷ changes os) ≡ t ∷ burst_ends debounce (changes os)
  unfolding changes
  burst_ends-apart t from [] h k = unfold burst_ends in refl
  burst_ends-apart t from ((time, error) ∷ os) h k =
      burst_ends-apart t time os (omega (arith, h, k.0)) k.1
  burst_ends-apart t from ((time, canceled) ∷ os) h k =
      burst_ends-apart t time os (omega (arith, h, k.0)) k.1
  burst_ends-apart t from ((time, events_closed) ∷ os) h k =
      burst_ends-apart t time os (omega (arith, h, k.0)) k.1
  burst_ends-apart t from ((time, errors_closed) ∷ os) h k =
      burst_ends-apart t time os (omega (arith, h, k.0)) k.1
  burst_ends-apart t from ((time, event op) ∷ os) h k = elim (Bool-cases (is_change op)) [
    | inl e ↦ rw e (burst_ends-split t time (changes os) (le→leb _ _ (omega (arith, h, k.0))))
    | inr e ↦ rw e (burst_ends-apart t time os (omega (arith, h, k.0)) k.1)
  ]

  pub burst_ends-joined :
      (t u : ℕ) (ts : List ℕ)
      → leb (t + debounce) u ≡ false
      → burst_ends debounce (t ∷ u ∷ ts) ≡ burst_ends debounce (u ∷ ts)
  unfolding burst_ends
  burst_ends-joined t u ts h = rw h refl
