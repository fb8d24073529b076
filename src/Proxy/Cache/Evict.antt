-- ===== src/Proxy/Cache/Evict.antt =====
-- Eviction takes away one entry, and one that expires first.
use astradns_agent.Common.{
  ℕ, ◌≤◌, ◌≡◌, ◌≢◌, refl, sym, subst, none, some, [], ◌∷◌, Text, text_eq, text_eq_iff, text_eq_refl,
  Dict, lookup, delete, Distinct, arith, Bool-cases, inl, inr, ◌⊎◌, ◌∙◌,
}
use astradns_agent.Proxy.Cache.{CachedResponse, ResponseCache, older, oldest, evict_oldest_locked}

-- The keys that `cacheKey` makes are not empty.
abbrev pub IsNamed : Dict CachedResponse → Type 0
IsNamed [] = Unit
IsNamed ((key, e) ∷ m) = (key ≢ []) × IsNamed m

abbrev pub Holds : Dict CachedResponse → Text × ℕ → Type 0
Holds m found = (e : CachedResponse) × (lookup found.0 m ≡ some e) × (e.expires_at ≡ found.1)

abbrev pub NoneBefore : ℕ → Dict CachedResponse → Type 0
NoneBefore time [] = Unit
NoneBefore time ((key, e) ∷ m) = (time ≤ e.expires_at) × NoneBefore time m

NoneBefore-lookup :
    (time : ℕ) (m : Dict CachedResponse) (k : Text) (e : CachedResponse)
    → NoneBefore time m
    → lookup k m ≡ some e
    → time ≤ e.expires_at
unfolding lookup
NoneBefore-lookup time [] k e n h = cc
NoneBefore-lookup time ((j, w) ∷ m) k e n h = elim (Bool-cases (text_eq j k)) [
  | inl same ↦ ground (arith, n.0)
  | inr other ↦ NoneBefore-lookup time m k e n.1 (rw other at h)
]

Holds-cons :
    (key : Text) (entry : CachedResponse) (m : Dict CachedResponse) (found : Text × ℕ)
    → lookup key m ≡ none
    → Holds m found
    → Holds ((key, entry) ∷ m) found
unfolding lookup
Holds-cons key entry m found new (e, at, time) = (e, ground (arith, text_eq_iff key found.0), time)

-- What the loop has found, from a key and a time on.
record Found (start : Text × ℕ) (m : Dict CachedResponse) (found : Text × ℕ) : Type 0 where
  is_key : found.0 ≢ []
  earlier : found.1 ≤ start.1
  least : NoneBefore found.1 m
  held : (found ≡ start) ⊎ Holds m found

older-bounds :
    (best : Text × ℕ) (key : Text) (entry : CachedResponse)
    → best.0 ≢ []
    → ((older best key entry).1 ≤ best.1) × ((older best key entry).1 ≤ entry.expires_at)
unfolding older
older-bounds best key entry ne = ground (arith, text_eq_iff best.0 [])

older-cases :
    (best : Text × ℕ) (key : Text) (entry : CachedResponse)
    → (older best key entry ≡ best) ⊎ (older best key entry ≡ (key, entry.expires_at))
unfolding older
older-cases best key entry = ground arith

older-named :
    (best : Text × ℕ) (key : Text) (entry : CachedResponse)
    → best.0 ≢ []
    → key ≢ []
    → (older best key entry).0 ≢ []
unfolding older
older-named best key entry ne nk = elim (older-cases best key entry) [
  | inl e ↦ λ h. ne (ground (arith, e))
  | inr e ↦ λ h. nk (ground (arith, e))
]

lookup-head :
    (key : Text) (entry : CachedResponse) (m : Dict CachedResponse)
    → lookup key ((key, entry) ∷ m) ≡ some entry
unfolding lookup
lookup-head key entry m = rw (text_eq_refl key)

oldest-Found :
    (best : Text × ℕ) (m : Dict CachedResponse)
    → best.0 ≢ []
    → IsNamed m
    → Distinct m
    → Found best m (oldest best m)
unfolding oldest
oldest-Found best [] ne nm d = record {
  is_key = ne;
  earlier = omega arith;
  least = tt;
  held = inl refl;
}
oldest-Found best ((key, entry) ∷ m) ne nm d =
    let rest =
      oldest-Found (older best key entry) m (older-named best key entry ne nm.0) nm.1 d.1 in
    let bounds = older-bounds best key entry ne in
    record {
      is_key = rest.is_key;
      earlier = omega (arith, rest.earlier);
      least = (omega (arith, rest.earlier), rest.least);
      held = elim rest.held [
        | inl same ↦ elim (older-cases best key entry) [
          | inl kept ↦ inl (same ∙ kept)
          | inr taken ↦ inr (rw (same ∙ taken) (entry, lookup-head key entry m, refl))
        ]
        | inr later ↦ inr (Holds-cons key entry m (oldest (older best key entry) m) d.0 later)
      ];
    }

-- What the whole loop finds.
record First (m : Dict CachedResponse) (key : Text) : Type 0 where
  entry : CachedResponse
  is_key : key ≢ []
  at : lookup key m ≡ some entry
  least : NoneBefore entry.expires_at m

Found-First :
    (key : Text) (entry : CachedResponse) (m : Dict CachedResponse) (found : Text × ℕ)
    → Distinct ((key, entry) ∷ m)
    → Found (key, entry.expires_at) m found
    → First ((key, entry) ∷ m) found.0
Found-First key entry m found d f = elim f.held [
  | inl same ↦ record {
    entry = entry;
    is_key = f.is_key;
    at = rw same (lookup-head key entry m);
    least = (omega arith, rw same at f.least);
  }
  | inr later ↦
      let held = Holds-cons key entry m found d.0 later in
      record {
        entry = held.0;
        is_key = f.is_key;
        at = held.1;
        least = subst (λ t. NoneBefore t ((key, entry) ∷ m)) (sym held.2) (f.earlier, f.least);
      }
]

oldest-First :
    (m : Dict CachedResponse) → m ≢ [] → IsNamed m → Distinct m → First m (oldest ([], 0) m).0
oldest-First [] ne nm d = absurd (ne refl)
oldest-First ((key, entry) ∷ m) ne nm d =
    unfold oldest older text_eq in
    Found-First key entry m _ d (oldest-Found (key, entry.expires_at) m nm.0 nm.1 d.1)

-- From a cache that is not empty, eviction takes one entry away: an entry that stood in the cache,
-- and that no other entry expires before.
pub evict_oldest_locked_lem :
    (c : ResponseCache)
    → c.entries ≢ []
    → IsNamed c.entries
    → Distinct c.entries
    → (key : Text) × (e : CachedResponse) × (lookup key c.entries ≡ some e)
      × (evict_oldest_locked c ≡ record c { entries = delete key c.entries })
      × ((k : Text) (other : CachedResponse)
          → lookup k c.entries ≡ some other
          → e.expires_at ≤ other.expires_at)
unfolding evict_oldest_locked
evict_oldest_locked_lem c ne nm d =
    let first = oldest-First c.entries ne nm d in
    (
      (oldest ([], 0) c.entries).0,
      first.entry,
      first.at,
      ground (arith, text_eq_iff (oldest ([], 0) c.entries).0 [], first.is_key),
      λ k other h. NoneBefore-lookup _ c.entries k other first.least h,
    )
