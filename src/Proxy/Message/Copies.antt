-- ===== src/Proxy/Message/Copies.antt =====
-- The copies of a message that answer later requests.
use astradns_agent.Common.{
  ℕ, ◌-◌, ◌≡◌, refl, Bool-cases, inl, inr, Option, none, some, List, [], ◌∷◌, map, All2, arith, leb,
  ◌==◌, if◌then◌else◌,
}
use astradns_agent.Dns.{Rr, Msg}
use astradns_agent.Proxy.Message.{map_records, with_id, aged, staled}

-- A `Ttl` less a number of seconds, and a `Ttl` of 1; a missing one stays missing.
abbrev pub IsLess : ℕ → Option ℕ → Option ℕ → Type 0
IsLess seconds none none = Unit
IsLess seconds none (some after) = ⊥
IsLess seconds (some before) none = ⊥
IsLess seconds (some before) (some after) = after ≡ before - seconds

abbrev pub IsOne : Option ℕ → Option ℕ → Type 0
IsOne none none = Unit
IsOne none (some after) = ⊥
IsOne (some before) none = ⊥
IsOne (some before) (some after) = after ≡ 1

-- A record of which only the `Ttl` may be another.
pub record SameRecord (T : Option ℕ → Option ℕ → Type 0) (r s : Rr) : Type 0 where
  pub header : T r.header s.header
  pub body : s.body ≡ r.body

-- An answer to `request` that says what `m` says, with its `Ttl`s changed as `T` tells.
pub record IsCopy (T : Option ℕ → Option ℕ → Type 0) (request m r : Msg) : Type 0 where
  pub id : r.id ≡ request.id
  pub rcode : r.rcode ≡ m.rcode
  pub truncated : r.truncated ≡ m.truncated
  pub question : r.question ≡ m.question
  pub answer : All2 (SameRecord T) m.answer r.answer
  pub ns : All2 (SameRecord T) m.ns r.ns
  pub extra : All2 (SameRecord T) m.extra r.extra

map-All2 :
    (R : Rr → Rr → Type 0) (f : Rr → Rr) (rs : List Rr)
    → ((r : Rr) → R r (f r))
    → All2 R rs (map f rs)
map-All2 R f [] h = tt
map-All2 R f (r ∷ rs) h = (h r, map-All2 R f rs h)

self-All2 : (R : Rr → Rr → Type 0) (rs : List Rr) → ((r : Rr) → R r r) → All2 R rs rs
self-All2 R [] h = tt
self-All2 R (r ∷ rs) h = (h r, self-All2 R rs h)

same_header :
    (h : Option ℕ) (b : ℕ)
    → SameRecord (IsLess 0) (record { header = h; body = b }) (record { header = h; body = b })
same_header none b = record { header = tt; body = refl }
same_header (some ttl) b = record { header = omega arith; body = refl }

aged-IsLess : (n : ℕ) (r : Rr) → SameRecord (IsLess n) r (aged n r)
aged-IsLess n r = of_header r.header r.body
  where
    of_header :
        (h : Option ℕ) (b : ℕ)
        → SameRecord
            (IsLess n)
            (record { header = h; body = b })
            (aged n (record { header = h; body = b }))
    of_header none b = unfold aged in record { header = tt; body = refl }
    of_header (some ttl) b = elim (Bool-cases (ttl == 0)) [
      | inl zero ↦ unfold aged in rw zero (record { header = ground arith; body = refl })
      | inr more ↦ elim (Bool-cases (leb ttl n)) [
        | inl old ↦ unfold aged in rw (more, old) (record { header = ground arith; body = refl })
        | inr young ↦ unfold aged in rw (more, young) (record { header = refl; body = refl })
      ]
    ]

staled-IsOne : (r : Rr) → SameRecord IsOne r (staled r)
staled-IsOne r = of_header r.header r.body
  where
    of_header :
        (h : Option ℕ) (b : ℕ)
        → SameRecord IsOne
            (record { header = h; body = b })
            (staled (record { header = h; body = b }))
    of_header none b = unfold staled in record { header = tt; body = refl }
    of_header (some ttl) b = unfold staled in record { header = refl; body = refl }

map_records-IsCopy :
    (T : Option ℕ → Option ℕ → Type 0) (f : Rr → Rr) (request m : Msg)
    → ((r : Rr) → SameRecord T r (f r))
    → IsCopy T request m (map_records f (with_id (some request) m))
unfolding map_records with_id
map_records-IsCopy T f request m h = record {
  id = refl;
  rcode = refl;
  truncated = refl;
  question = refl;
  answer = map-All2 (SameRecord T) f m.answer h;
  ns = map-All2 (SameRecord T) f m.ns h;
  extra = map-All2 (SameRecord T) f m.extra h;
}

pub staled-IsCopy :
    (request m : Msg) → IsCopy IsOne request m (map_records staled (with_id (some request) m))
staled-IsCopy request m = map_records-IsCopy IsOne staled request m staled-IsOne

with_id-IsCopy : (request m : Msg) → IsCopy (IsLess 0) request m (with_id (some request) m)
unfolding with_id
with_id-IsCopy request m = record {
  id = refl;
  rcode = refl;
  truncated = refl;
  question = refl;
  answer = self-All2 _ m.answer (λ r. same_header r.header r.body);
  ns = self-All2 _ m.ns (λ r. same_header r.header r.body);
  extra = self-All2 _ m.extra (λ r. same_header r.header r.body);
}

-- Where no second has passed the loop is skipped.
pub aged-IsCopy :
    (n : ℕ) (request m : Msg)
    → IsCopy (IsLess n) request m (
        if leb n 0
        then with_id (some request) m
        else map_records (aged n) (with_id (some request) m))
aged-IsCopy n request m = elim (Bool-cases (leb n 0)) [
  | inl none_passed ↦
      let zero : n ≡ 0 = ground arith in rw (none_passed, zero) (with_id-IsCopy request m)
  | inr passed ↦ rw passed (map_records-IsCopy (IsLess n) (aged n) request m (aged-IsLess n))
]
