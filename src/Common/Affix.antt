-- ===== src/Common/Affix.antt =====
-- What `has_prefix` and `has_suffix` decide.
use mathlib.Core.Path.{◌≡◌, refl, ap, sym, ◌∙◌}
use mathlib.Core.Logic.{◌↔◌}
use mathlib.Core.Bool.{true}
use mathlib.Core.List.{[], ◌∷◌, ◌++◌, reverse, reverse-append, reverse-reverse}
use native.Mathlib.Omega.{arith}
use astradns_agent.Common.Texts.{Text, has_prefix, has_suffix}

has_prefix_sound : (s p : Text) → has_prefix s p ≡ true → (t : Text) × (s ≡ p ++ t)
unfolding has_prefix
has_prefix_sound s [] h = (s, refl)
has_prefix_sound [] (c ∷ p) h = cc
has_prefix_sound (d ∷ s) (c ∷ p) h =
    let found : (t : Text) × (s ≡ p ++ t) = has_prefix_sound s p (ground arith) in
    (found.0, ground (arith, found.1))

has_prefix-append : (p t : Text) → has_prefix (p ++ t) p ≡ true
unfolding has_prefix
has_prefix-append [] [] = refl
has_prefix-append [] (c ∷ t) = refl
has_prefix-append (c ∷ p) t = ground (arith, has_prefix-append p t)

pub has_prefix_iff : (s p : Text) → (has_prefix s p ≡ true) ↔ ((t : Text) × (s ≡ p ++ t))
has_prefix_iff s p = (has_prefix_sound s p, λ found. rw (found.1) (has_prefix-append p found.0))

pub has_suffix_iff : (s p : Text) → (has_suffix s p ≡ true) ↔ ((t : Text) × (s ≡ t ++ p))
unfolding has_suffix
has_suffix_iff s p = (
  sound,
  λ found. rw (found.1, reverse-append found.0 p) (has_prefix-append (reverse p) (reverse found.0)),
)
  where
    sound : has_prefix (reverse s) (reverse p) ≡ true → (t : Text) × (s ≡ t ++ p)
    sound h =
        let found : (t : Text) × (reverse s ≡ reverse p ++ t) =
          has_prefix_sound (reverse s) (reverse p) h in
        (
          reverse found.0,
          sym (reverse-reverse s)
              ∙ ap reverse found.1
              ∙ reverse-append (reverse p) found.0
              ∙ ap (λ q. reverse found.0 ++ q) (reverse-reverse p),
        )
