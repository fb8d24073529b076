-- ===== src/Proxy/Message/Ages.antt =====
-- The least `Ttl` of a message, and records that age.
use astradns_agent.Common.{
  ℕ, ◌-◌, ◌*◌, ◌≤◌, ◌<◌, ◌≡◌, ◌⊎◌, refl, ap, ◌∙◌, inl, inr, Bool, true, false, Option, none, some,
  List, [], ◌∷◌, ◌++◌, All, arith, Bool-cases, second,
}
use astradns_agent.Dns.{Rr, Msg}
use astradns_agent.Proxy.Message.{
  min_ttl, min_records, all_records, ttl_of, min_response_ttl, cache_entry_ttl, aged,
}

-- The loop runs over the three sections as over one list.
min_records-append :
    (acc : ℕ × Bool) (xs ys : List Rr)
    → min_records (min_records acc xs) ys ≡ min_records acc (xs ++ ys)
unfolding min_records
min_records-append acc [] ys = refl
min_records-append acc (x ∷ xs) ys = min_records-append (min_ttl acc x.header) xs ys

-- A `Ttl` that is 0 or missing says nothing; any other lasts at least the time given.
abbrev pub Lasts : ℕ → Option ℕ → Type 0
Lasts time none = Unit {0}
Lasts time (some ttl) = (ttl ≡ 0) ⊎ (time ≤ ttl * second)

Lasts-mono : (m n : ℕ) (h : Option ℕ) → m ≤ n → Lasts n h → Lasts m h
Lasts-mono m n none le l = tt
Lasts-mono m n (some ttl) le (inl e) = inl e
Lasts-mono m n (some ttl) le (inr e) = inr (omega arith)

min_ttl-Lasts :
    (acc : ℕ × Bool) (h : Option ℕ)
    → (min_ttl acc h).1 ≡ true
    → Lasts ((min_ttl acc h).0 * second) h
unfolding min_ttl
min_ttl-Lasts (least, seen) none e = tt
min_ttl-Lasts (least, seen) (some ttl) e = ground arith

-- Where nothing is seen, the record says nothing.
min_ttl-silent :
    (acc : ℕ × Bool) (h : Option ℕ) (time : ℕ) → (min_ttl acc h).1 ≡ false → Lasts time h
unfolding min_ttl
min_ttl-silent (least, seen) none time e = tt
min_ttl-silent (least, seen) (some ttl) time e = ground arith

min_ttl-falls :
    (acc : ℕ × Bool) (h : Option ℕ)
    → acc.1 ≡ true
    → ((min_ttl acc h).1 ≡ true) × ((min_ttl acc h).0 ≤ acc.0)
unfolding min_ttl
min_ttl-falls (least, seen) none e = (e, omega arith)
min_ttl-falls (least, seen) (some ttl) e = ground arith

min_records-falls :
    (acc : ℕ × Bool) (rs : List Rr)
    → acc.1 ≡ true
    → ((min_records acc rs).1 ≡ true) × ((min_records acc rs).0 ≤ acc.0)
unfolding min_records
min_records-falls acc [] e = (e, omega arith)
min_records-falls acc (r ∷ rs) e =
    let first = min_ttl-falls acc r.header e in
    let later = min_records-falls (min_ttl acc r.header) rs first.0 in (later.0, omega arith)

min_records-Lasts :
    (acc : ℕ × Bool) (rs : List Rr)
    → (min_records acc rs).1 ≡ true
    → All (λ r. Lasts ((min_records acc rs).0 * second) r.header) rs
unfolding min_records
min_records-Lasts acc [] e = tt
min_records-Lasts acc (r ∷ rs) e = (
  elim (Bool-cases (min_ttl acc r.header).1) [
    | inl seen ↦
        Lasts-mono _ ((min_ttl acc r.header).0 * second) r.header
          (omega (arith, (min_records-falls (min_ttl acc r.header) rs seen).1))
          (min_ttl-Lasts acc r.header seen)
    | inr silent ↦ min_ttl-silent acc r.header _ silent
  ],
  min_records-Lasts (min_ttl acc r.header) rs e,
)

min_records-silent :
    (acc : ℕ × Bool) (rs : List Rr) (time : ℕ)
    → (min_records acc rs).1 ≡ false
    → All (λ r. Lasts time r.header) rs
unfolding min_records
min_records-silent acc [] time e = tt
min_records-silent acc (r ∷ rs) time e = (
  elim (Bool-cases (min_ttl acc r.header).1) [
    | inl seen ↦ cc ((min_records-falls (min_ttl acc r.header) rs seen).0)
    | inr silent ↦ min_ttl-silent acc r.header time silent
  ],
  min_records-silent (min_ttl acc r.header) rs time e,
)

min_records-pos :
    (acc : ℕ × Bool) (rs : List Rr)
    → (acc.1 ≡ true → 0 < acc.0)
    → (min_records acc rs).1 ≡ true
    → 0 < (min_records acc rs).0
unfolding min_records
min_records-pos acc [] p e = p e
min_records-pos (least, seen) (r ∷ rs) p e =
    min_records-pos (min_ttl (least, seen) r.header) rs (min_ttl-pos least seen r.header p) e
  where
    min_ttl-pos :
        (least : ℕ) (seen : Bool) (h : Option ℕ)
        → (seen ≡ true → 0 < least)
        → (min_ttl (least, seen) h).1 ≡ true
        → 0 < (min_ttl (least, seen) h).0
    min_ttl-pos least seen none p e = unfold min_ttl in p e
    min_ttl-pos least seen (some ttl) p e = unfold min_ttl in ground arith

min_response_ttl-append :
    (m : Msg) → min_response_ttl (some m) ≡ ttl_of (min_records (0, false) (all_records m))
unfolding min_response_ttl
min_response_ttl-append m =
    ap ttl_of
      (min_records-append _ m.ns m.extra ∙ min_records-append (0, false) m.answer (m.ns ++ m.extra))

-- Every record of a message whose `Ttl` is not 0 lasts as long as the message is kept.
pub cache_entry_ttl-Lasts :
    (m : Msg) (fallback : ℕ)
    → All (λ r. Lasts (cache_entry_ttl (some m) fallback) r.header) (all_records m)
unfolding cache_entry_ttl
cache_entry_ttl-Lasts m fallback = elim (Bool-cases (min_records (0, false) (all_records m)).1) [
  | inl seen ↦
      let least = (min_records (0, false) (all_records m)).0 in
      let kept : cache_entry_ttl (some m) fallback ≡ least * second = ground (
        arith,
        min_response_ttl-append m,
        min_records-pos (0, false) (all_records m) (λ e. cc) seen,
      ) in
      rw kept (min_records-Lasts (0, false) (all_records m) seen)
  | inr silent ↦ min_records-silent (0, false) (all_records m) _ silent
]

-- A record that lasts longer than the time passed keeps a `Ttl` that is not 0, and loses exactly
-- the whole seconds that have passed.
abbrev pub AgesBy : ℕ → Option ℕ → Option ℕ → Type 0
AgesBy elapsed none new = new ≡ none
AgesBy elapsed (some ttl) new = (new ≡ some (ttl - elapsed)) × ((ttl ≡ 0) ⊎ (0 < ttl - elapsed))

aged_header-AgesBy :
    (elapsed time body : ℕ) (h : Option ℕ)
    → Lasts time h
    → elapsed * second < time
    → AgesBy elapsed h (aged elapsed (record { header = h; body = body })).header
unfolding aged
aged_header-AgesBy elapsed time body none l h = refl
aged_header-AgesBy elapsed time body (some ttl) l h = ground arith

pub aged-AgesBy :
    (elapsed time : ℕ) (r : Rr)
    → Lasts time r.header
    → elapsed * second < time
    → AgesBy elapsed r.header (aged elapsed r).header
aged-AgesBy elapsed time r l h = aged_header-AgesBy elapsed time r.body r.header l h
