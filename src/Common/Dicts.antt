-- ===== src/Common/Dicts.antt =====
-- A Go map with text keys, as a list of entries in the order in which a `range` meets them. The
-- theorems hold for every order of the entries.
use Prim.Native.Nat.{ℕ, suc, ◌+◌, ◌≤◌}
use mathlib.Core.Path.{◌≡◌, refl}
use mathlib.Core.Logic.{inl, inr}
use mathlib.Core.Bool.{Bool}
use mathlib.Core.Option.{Option, none, some}
use mathlib.Core.List.{List, [], ◌∷◌}
use native.Mathlib.Omega.{arith}
use astradns_agent.Common.Tests.{if◌then◌else◌, is_some, Bool-cases}
use astradns_agent.Common.Lists.{length}
use astradns_agent.Common.Texts.{Text, text_eq, text_eq_iff}

abbrev pub Dict {ℓ} : Type ℓ → Type ℓ
Dict V = List (Text × V)

module _ {ℓ} {V : Type ℓ} where
  unfoldable pub lookup : Text → Dict V → Option V
  lookup k [] = none
  lookup k ((j, v) ∷ m) = if text_eq j k then some v else lookup k m

  -- `m[k] = v`
  unfoldable pub insert : Text → V → Dict V → Dict V
  insert k v [] = (k, v) ∷ []
  insert k v ((j, w) ∷ m) = if text_eq j k then (k, v) ∷ m else (j, w) ∷ insert k v m

  -- `delete(m, k)`
  unfoldable pub delete : Text → Dict V → Dict V
  delete k [] = []
  delete k ((j, w) ∷ m) = if text_eq j k then m else (j, w) ∷ delete k m

  -- `for k, v := range m { if !keep(k, v) { delete(m, k) } }`
  unfoldable pub retain : (Text → V → Bool) → Dict V → Dict V
  retain keep [] = []
  retain keep ((j, w) ∷ m) = let rest = retain keep m in if keep j w then (j, w) ∷ rest else rest

  -- Each key stands once.
  abbrev pub Distinct : Dict V → Type ℓ
  Distinct [] = Unit
  Distinct ((k, v) ∷ m) = (lookup k m ≡ none) × Distinct m

  pub lookup-insert :
      (k j : Text) (v : V) (m : Dict V)
      → lookup j (insert k v m) ≡ (if text_eq k j then some v else lookup j m)
  unfolding lookup insert
  lookup-insert k j v [] = refl
  lookup-insert k j v ((i, w) ∷ m) =
      ground (arith, text_eq_iff k j, text_eq_iff i k, text_eq_iff i j, lookup-insert k j v m)

  pub length-insert :
      (k : Text) (v : V) (m : Dict V)
      → length (insert k v m) ≡ (if is_some (lookup k m) then length m else suc (length m))
  unfolding lookup insert
  length-insert k v [] = refl
  length-insert k v ((i, w) ∷ m) = ground (arith, length-insert k v m)

  pub Distinct-insert : (k : Text) (v : V) (m : Dict V) → Distinct m → Distinct (insert k v m)
  unfolding insert lookup
  Distinct-insert k v [] d = (refl, tt)
  Distinct-insert k v ((i, w) ∷ m) d = elim (Bool-cases (text_eq i k)) [
    | inl e ↦ rw e (rw (← (text_eq_iff i k).0 e) d)
    | inr e ↦ rw e (
      ground (arith, lookup-insert k i v m, text_eq_iff k i, text_eq_iff i k),
      Distinct-insert k v m d.1,
    )
  ]

  pub lookup-delete :
      (k j : Text) (m : Dict V)
      → Distinct m
      → lookup j (delete k m) ≡ (if text_eq k j then none else lookup j m)
  unfolding lookup delete
  lookup-delete k j [] d = ground arith
  lookup-delete k j ((i, w) ∷ m) d =
      ground (arith, text_eq_iff k j, text_eq_iff i k, text_eq_iff i j, lookup-delete k j m)

  pub length-delete :
      (k : Text) (m : Dict V)
      → length m ≡ (if is_some (lookup k m) then suc (length (delete k m)) else length (delete k m))
  unfolding lookup delete
  length-delete k [] = refl
  length-delete k ((i, w) ∷ m) = ground (arith, length-delete k m)

  pub Distinct-delete : (k : Text) (m : Dict V) → Distinct m → Distinct (delete k m)
  unfolding delete
  Distinct-delete k [] d = tt
  Distinct-delete k ((i, w) ∷ m) d = ground (arith, lookup-delete k i m, Distinct-delete k m)

  -- What a sweep leaves of the entry at a key.
  abbrev pub kept : (Text → V → Bool) → Text → Option V → Option V
  kept keep k none = none
  kept keep k (some v) = if keep k v then some v else none

  pub lookup-retain :
      (keep : Text → V → Bool) (j : Text) (m : Dict V)
      → Distinct m
      → lookup j (retain keep m) ≡ kept keep j (lookup j m)
  unfolding lookup retain
  lookup-retain keep j [] d = refl
  lookup-retain keep j ((i, w) ∷ m) d = ground (arith, text_eq_iff i j, lookup-retain keep j m)

  pub Distinct-retain :
      (keep : Text → V → Bool) (m : Dict V) → Distinct m → Distinct (retain keep m)
  unfolding retain
  Distinct-retain keep [] d = tt
  Distinct-retain keep ((i, w) ∷ m) d =
      ground (arith, lookup-retain keep i m, Distinct-retain keep m)

  pub length-retain-le : (keep : Text → V → Bool) (m : Dict V) → length (retain keep m) ≤ length m
  unfolding retain
  length-retain-le keep [] = omega arith
  length-retain-le keep ((i, w) ∷ m) = ground (arith, length-retain-le keep m)

-- `m[k]` of a map to numbers, where the key may be missing, and `m[k]++`.
abbrev pub or_zero : Option ℕ → ℕ
or_zero none = 0
or_zero (some n) = n

abbrev pub inc : Text → Dict ℕ → Dict ℕ
inc k m = insert k (or_zero (lookup k m) + 1) m

-- What stands at all keys together.
unfoldable pub total : Dict ℕ → ℕ
total [] = 0
total ((k, n) ∷ m) = n + total m

total-insert :
    (k : Text) (n : ℕ) (m : Dict ℕ) → total (insert k n m) + or_zero (lookup k m) ≡ total m + n
unfolding total insert lookup
total-insert k n [] = omega arith
total-insert k n ((j, v) ∷ m) = ground (arith, total-insert k n m)

pub total-inc : (k : Text) (m : Dict ℕ) → total (inc k m) ≡ suc (total m)
total-inc k m = omega (arith, total-insert k (or_zero (lookup k m) + 1) m)
