-- ===== src/Watcher/Bursts.antt =====
-- Each burst of changes is followed by one reload.
use astradns_agent.Common.{
  ℕ, ◌+◌, ◌≤◌, ◌≡◌, refl, sym, ap, ◌∙◌, Bool, true, false, leb, leb→le, Bool-cases, inl, inr,
  Option, none, some, List, [], ◌∷◌, ◌++◌, map, if◌then◌else◌,
}
use astradns_agent.Watcher.{
  FsOp, Occurrence, canceled, events_closed, errors_closed, error, event, Watch, is_change,
  new_watch, fire_due, take, run, settle,
}
use astradns_agent.Watcher.Changes.{
  changes, burst_ends, IsOrdered, AllGoOn, burst_ends-split, burst_ends-apart, burst_ends-joined,
}

module _ (debounce : ℕ) where
  abbrev due : ℕ → ℕ
  due t = t + debounce

  abbrev at : Option ℕ → List ℕ → Watch
  at deadline reloads = record { deadline = deadline; reloads = reloads; ended = false }

  -- The reloads in the end, from a loop as it stands.
  unfoldable reloads_after : List (ℕ × Occurrence) → Watch → List ℕ
  reloads_after os w = (settle (run debounce os w)).reloads

  abbrev settled : List (ℕ × Occurrence) → Option ℕ → List ℕ → List ℕ
  settled os deadline reloads = reloads_after os (at deadline reloads)

  goes_on : (ended : Bool) (v w : Watch) → ended ≡ false → (if ended then v else w) ≡ w
  goes_on ended v w h = rw h refl

  step :
      (time : ℕ) (o : Occurrence) (os : List (ℕ × Occurrence)) (w v : Watch)
      → take debounce time o (fire_due time w) ≡ v
      → v.ended ≡ false
      → reloads_after ((time, o) ∷ os) w ≡ reloads_after os v
  unfolding reloads_after run
  step time o os w v e h =
      let chosen : Watch → Watch = λ next. if next.ended then next else run debounce os next in
      ap (λ (next : Watch). (settle (chosen next)).reloads) e
      ∙ ap (λ (next : Watch). (settle next).reloads) (goes_on v.ended v (run debounce os v) h)

  fires :
      (t time : ℕ) (rs : List ℕ)
      → leb (due t) time ≡ true
      → fire_due time (at (some (due t)) rs) ≡ at none (rs ++ due t ∷ [])
  unfolding fire_due
  fires t time rs h = rw h refl

  waits :
      (t time : ℕ) (rs : List ℕ)
      → leb (due t) time ≡ false
      → fire_due time (at (some (due t)) rs) ≡ at (some (due t)) rs
  unfolding fire_due
  waits t time rs h = rw h refl

  rests : (time : ℕ) (rs : List ℕ) → fire_due time (at none rs) ≡ at none rs
  unfolding fire_due
  rests time rs = refl

  take-change :
      (time : ℕ) (op : FsOp) (deadline : Option ℕ) (rs : List ℕ)
      → is_change op ≡ true
      → take debounce time (event op) (at deadline rs) ≡ at (some (due time)) rs
  unfolding take
  take-change time op deadline rs h = rw h refl

  -- What leaves the loop as it is.
  abbrev Idles : ℕ → Occurrence → Type 0
  Idles time o =
      (deadline : Option ℕ) (rs : List ℕ) → take debounce time o (at deadline rs) ≡ at deadline rs

  append-one : (xs : List ℕ) (x : ℕ) (ys : List ℕ) → (xs ++ x ∷ []) ++ ys ≡ xs ++ x ∷ ys
  append-one [] x ys = refl
  append-one (z ∷ xs) x ys = ap (λ (l : List ℕ). z ∷ l) (append-one xs x ys)

  append-nil : (xs : List ℕ) → xs ++ [] ≡ xs
  append-nil [] = refl
  append-nil (z ∷ xs) = ap (λ (l : List ℕ). z ∷ l) (append-nil xs)

  abbrev Follows : List (ℕ × Occurrence) → List ℕ → Type 0
  Follows os rs =
      (settled os none rs ≡ rs ++ map due (burst_ends debounce (changes os)))
      × ((t : ℕ)
          → settled os (some (due t)) rs ≡ rs ++ map due (burst_ends debounce (t ∷ changes os)))

  -- A timer that has fired before the next occurrence.
  fired-first :
      (t time : ℕ) (os : List (ℕ × Occurrence)) (rs : List ℕ)
      → t + debounce ≤ time
      → IsOrdered time os
      → settled os none (rs ++ due t ∷ [])
        ≡ (rs ++ due t ∷ []) ++ map due (burst_ends debounce (changes os))
      → settled os none (rs ++ due t ∷ []) ≡ rs ++ map due (burst_ends debounce (t ∷ changes os))
  fired-first t time os rs h k e =
      e
      ∙ (append-one rs (due t) (map due (burst_ends debounce (changes os)))
          ∙ ap (λ (ts : List ℕ). rs ++ map due ts) (sym (burst_ends-apart debounce t time os h k)))

  idle-Follows :
      (time : ℕ) (o : Occurrence) (os : List (ℕ × Occurrence)) (rs : List ℕ)
      → IsOrdered time os
      → Idles time o
      → changes ((time, o) ∷ os) ≡ changes os
      → ((rs : List ℕ) → Follows os rs)
      → Follows ((time, o) ∷ os) rs
  idle-Follows time o os rs k idles same ih = rw same (
    step time o os _ _ (ap (take debounce time o) (rests time rs) ∙ idles none rs) refl ∙ (ih rs).0,
    λ t. elim (Bool-cases (leb (due t) time)) [
      | inl d ↦
          step time o os _ _ (ap (take debounce time o) (fires t time rs d) ∙ idles _ _) refl
          ∙ fired-first t time os rs (leb→le _ _ d) k (ih (rs ++ due t ∷ [])).0
      | inr d ↦
          step time o os _ _ (ap (take debounce time o) (waits t time rs d) ∙ idles _ _) refl
          ∙ (ih rs).1 t
    ],
  )

  change-Follows :
      (time : ℕ) (op : FsOp) (os : List (ℕ × Occurrence)) (rs : List ℕ)
      → is_change op ≡ true
      → changes ((time, event op) ∷ os) ≡ time ∷ changes os
      → ((rs : List ℕ) → Follows os rs)
      → Follows ((time, event op) ∷ os) rs
  change-Follows time op os rs e same ih = rw same (
    step time (event op) os _ _
          (ap (take debounce time (event op)) (rests time rs) ∙ take-change time op none rs e) refl
        ∙ (ih rs).1 time,
    λ t. elim (Bool-cases (leb (due t) time)) [
      | inl d ↦
          step time (event op) os _ _
            (ap (take debounce time (event op)) (fires t time rs d)
              ∙ take-change time op none (rs ++ due t ∷ []) e)
            refl
          ∙ ((ih (rs ++ due t ∷ [])).1 time
              ∙ (append-one rs (due t) (map due (burst_ends debounce (time ∷ changes os)))
                  ∙ ap (λ (ts : List ℕ). rs ++ map due ts)
                      (sym (burst_ends-split debounce t time (changes os) d))))
      | inr d ↦
          step time (event op) os _ _
            (ap (take debounce time (event op)) (waits t time rs d)
              ∙ take-change time op (some (due t)) rs e)
            refl
          ∙ ((ih rs).1 time
              ∙ ap (λ (ts : List ℕ). rs ++ map due ts)
                  (sym (burst_ends-joined debounce t time (changes os) d)))
    ],
  )

  error-Idles : (time : ℕ) → Idles time error
  unfolding take
  error-Idles time = λ deadline rs. refl

  event-Idles : (time : ℕ) (op : FsOp) → is_change op ≡ false → Idles time (event op)
  unfolding take
  event-Idles time op e = λ deadline rs. rw e refl

  error-Follows :
      (time : ℕ) (os : List (ℕ × Occurrence)) (rs : List ℕ)
      → IsOrdered time os
      → ((rs : List ℕ) → Follows os rs)
      → Follows ((time, error) ∷ os) rs
  error-Follows time os rs k ih =
      idle-Follows time error os rs k (error-Idles time) (unfold changes in refl) ih

  event-Follows :
      (time : ℕ) (op : FsOp) (os : List (ℕ × Occurrence)) (rs : List ℕ)
      → IsOrdered time os
      → ((rs : List ℕ) → Follows os rs)
      → Follows ((time, event op) ∷ os) rs
  event-Follows time op os rs k ih = elim (Bool-cases (is_change op)) [
    | inl e ↦ change-Follows time op os rs e (unfold changes in rw e refl) ih
    | inr e ↦
        idle-Follows time (event op) os rs k (event-Idles time op e) (unfold changes in rw e refl)
          ih
  ]

  nil-Follows : (rs : List ℕ) → Follows [] rs
  unfolding reloads_after run settle changes burst_ends
  nil-Follows rs = (sym (append-nil rs), λ t. refl)

  run-Follows :
      (from : ℕ) (os : List (ℕ × Occurrence)) (rs : List ℕ)
      → IsOrdered from os
      → AllGoOn os
      → Follows os rs
  run-Follows from [] rs k g = nil-Follows rs
  run-Follows from ((time, canceled) ∷ os) rs k g = absurd g.0
  run-Follows from ((time, events_closed) ∷ os) rs k g = absurd g.0
  run-Follows from ((time, errors_closed) ∷ os) rs k g = absurd g.0
  run-Follows from ((time, error) ∷ os) rs k g =
      error-Follows time os rs k.1 (λ rs. run-Follows time os rs k.1 g.1)
  run-Follows from ((time, event op) ∷ os) rs k g =
      event-Follows time op os rs k.1 (λ rs. run-Follows time os rs k.1 g.1)

  -- While the watcher runs, whatever errors and other events come between, each burst of changes,
  -- in which none comes `debounce` after the one before it, is followed by exactly one reload,
  -- `debounce` after its last change, and there are no other reloads.
  pub settle-run-reloads :
      (os : List (ℕ × Occurrence))
      → IsOrdered 0 os
      → AllGoOn os
      → (settle (run debounce os new_watch)).reloads
        ≡ map (λ t. t + debounce) (burst_ends debounce (changes os))
  unfolding new_watch reloads_after
  settle-run-reloads os k g = (run-Follows 0 os [] k g).0
