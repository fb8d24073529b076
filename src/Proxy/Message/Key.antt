-- ===== src/Proxy/Message/Key.antt =====
-- Two requests have one cache key exactly when their questions agree, whatever the case of the name.
use astradns_agent.Common.{
  ℕ, zero, suc, ◌+◌, ◌-◌, ◌*◌, ◌/◌, ◌≤◌, ◌≡◌, ◌↔◌, refl, sym, ap, ◌∙◌, some, List, [], ◌∷◌, ◌++◌,
  reverse, All, Text, codes, digits, decimal, to_lower, leb, arith, Bool-cases, inl, inr,
}
use mathlib.Core.List.{reverse-append, reverse-reverse, append_assoc}
use astradns_agent.Dns.{Question, Msg}
use astradns_agent.Proxy.Message.{question_key, key_of, cache_key}

abbrev IsDigit : ℕ → Type 0
IsDigit c = (b'0' ≤ c) × (c ≤ b'9')

digits-IsDigit : (fuel n : ℕ) → All IsDigit (digits fuel n)
unfolding digits
digits-IsDigit zero n = ((omega arith, omega arith), tt)
digits-IsDigit (suc f) n = elim (Bool-cases (leb 10 n)) [
  | inl more ↦ rw more ((omega arith, omega arith), digits-IsDigit f (n / 10))
  | inr last ↦ rw last ((omega arith, omega arith), tt)
]

-- The number that digits stand for, least digit first.
value : Text → ℕ
value [] = 0
value (c ∷ s) = (c - b'0') + 10 * value s

value-digits : (fuel n : ℕ) → n ≤ fuel → value (digits fuel n) ≡ n
unfolding value digits
value-digits zero n h = omega arith
value-digits (suc f) n h = elim (Bool-cases (leb 10 n)) [
  | inl more ↦ rw more (omega (arith, value-digits f (n / 10) (omega arith)))
  | inr last ↦ rw last (ground arith)
]

-- A run of digits ends where the first `|` stands.
run-eq :
    (xs ys rest more : Text)
    → All IsDigit xs
    → All IsDigit ys
    → xs ++ b'|' ∷ rest ≡ ys ++ b'|' ∷ more
    → (xs ≡ ys) × (rest ≡ more)
run-eq [] [] rest more dx dy e = (refl, cc)
run-eq [] (y ∷ ys) rest more dx dy e = absurd (ground arith)
run-eq (x ∷ xs) [] rest more dx dy e = absurd (ground arith)
run-eq (x ∷ xs) (y ∷ ys) rest more dx dy e =
    let tails = run-eq xs ys rest more dx.1 dy.1 (cc) in (cc (tails.0), tails.1)

digits-injective : (m n : ℕ) → digits m m ≡ digits n n → m ≡ n
digits-injective m n e =
    sym (value-digits m m (omega arith)) ∙ ap value e ∙ value-digits n n (omega arith)

-- The key read backwards: class, type, name.
reverse-joined :
    (a b c : Text)
    → reverse (a ++ (codes "|" ++ (reverse b ++ (codes "|" ++ reverse c))))
      ≡ c ++ b'|' ∷ (b ++ b'|' ∷ reverse a)
reverse-joined a b c = simp (reverse-append, reverse-reverse, append_assoc)

reverse-question_key :
    (q : Question)
    → reverse (question_key q)
      ≡ digits q.qclass q.qclass
        ++ b'|' ∷ (digits q.qtype q.qtype ++ b'|' ∷ reverse (to_lower q.name))
unfolding question_key decimal
reverse-question_key q =
    reverse-joined (to_lower q.name) (digits q.qtype q.qtype) (digits q.qclass q.qclass)

question_key-injective :
    (q r : Question)
    → question_key q ≡ question_key r
    → (to_lower q.name ≡ to_lower r.name) × (q.qtype ≡ r.qtype) × (q.qclass ≡ r.qclass)
question_key-injective q r e =
    let classes =
      run-eq (digits q.qclass q.qclass) (digits r.qclass r.qclass) _ _
        (digits-IsDigit q.qclass q.qclass) (digits-IsDigit r.qclass r.qclass)
        (sym (reverse-question_key q) ∙ ap reverse e ∙ reverse-question_key r) in
    let types =
      run-eq (digits q.qtype q.qtype) (digits r.qtype r.qtype) _ _ (digits-IsDigit q.qtype q.qtype)
        (digits-IsDigit r.qtype r.qtype) classes.1 in
    (
      sym (reverse-reverse (to_lower q.name))
          ∙ ap reverse types.1
          ∙ reverse-reverse (to_lower r.name),
      digits-injective q.qtype r.qtype types.0,
      digits-injective q.qclass r.qclass classes.0,
    )

-- Two requests with a question have one cache key exactly when their first questions have one
-- name, whatever the case of its letters, one type and one class.
pub cache_key-eq_iff :
    (m n : Msg) (q r : Question) (qs rs : List Question)
    → m.question ≡ q ∷ qs
    → n.question ≡ r ∷ rs
    → (cache_key (some m) ≡ cache_key (some n))
      ↔ ((to_lower q.name ≡ to_lower r.name) × (q.qtype ≡ r.qtype) × (q.qclass ≡ r.qclass))
unfolding cache_key key_of question_key
cache_key-eq_iff m n q r qs rs eq er =
    rw (eq, er) (λ e. question_key-injective q r (ground arith), λ h. ground arith)
