-- ===== src/Agent/Supervise/Access.antt =====
-- Who is served the metrics.
use astradns_agent.Common.{
  ℕ, ◌≡◌, ◌≢◌, ◌↔◌, ◌⊎◌, inl, inr, refl, sym, ap, ◌∙◌, Bool, true, false, not, ◌&&◌, ◌||◌,
  Bool-cases, some, [], ◌∷◌, ◌++◌, Text, codes, arith, text_eq, text_eq_iff, text_eq_refl,
  trim_space, has_prefix, drop, length, if◌then◌else◌, if_cases,
}
use astradns_agent.Common.Affix.{has_prefix_iff}
use astradns_agent.Agent.Supervise.{is_authorized_metrics_request, metrics_status}

-- The header is the word Bearer, a space and the token, but for white space around each.
abbrev pub Presents : Text → Text → Type 0
Presents header token =
    (rest : Text) × (trim_space header ≡ codes "Bearer " ++ rest) × (trim_space rest ≡ token)

drop-append : (p s : Text) → drop (length p) (p ++ s) ≡ s
drop-append [] s = refl
drop-append (c ∷ p) s = drop-append p s

abbrev bearer : Text
bearer = codes "Bearer "

-- The test of the header, of which the token is not empty.
is_authorized_iff :
    (header token : Text)
    → text_eq token [] ≡ false
    → (is_authorized_metrics_request (some header) token ≡ true) ↔ Presents header token
unfolding is_authorized_metrics_request
is_authorized_iff header token some_token = (there, back)
  where
    authorization : Text
    authorization = trim_space header

    presented : Text
    presented = trim_space (drop (length bearer) authorization)

    presented_lem : (rest : Text) → authorization ≡ bearer ++ rest → presented ≡ trim_space rest
    presented_lem rest e =
        ap (λ (s : Text). trim_space (drop (length bearer) s)) e
        ∙ ap trim_space (drop-append bearer rest)

    Allows : Bool → Type 0
    Allows b = b ≡ true → Presents header token

    there :
        (if not (has_prefix authorization bearer)
            then false
            else if text_eq presented [] || text_eq token []
            then false
            else text_eq presented token)
          ≡ true
        → Presents header token
    there =
        if_cases Allows (not (has_prefix authorization bearer)) (λ _ h. cc)
          λ prefixed.
            if_cases Allows (text_eq presented [] || text_eq token []) (λ _ h. cc)
              λ _ h.
                let found = (has_prefix_iff authorization bearer).0 (ground (arith, prefixed)) in
                (
                  found.0,
                  found.1,
                  sym (presented_lem found.0 found.1) ∙ (text_eq_iff presented token).0 h,
                )

    back :
        Presents header token
        → (if not (has_prefix authorization bearer)
            then false
            else if text_eq presented [] || text_eq token []
            then false
            else text_eq presented token)
          ≡ true
    back (rest, e, p) =
        let prefixed = (has_prefix_iff authorization bearer).1 (rest, e) in
        let same = presented_lem rest e ∙ p in
        rw (prefixed, same, some_token, text_eq_refl token) refl

-- The metrics are served exactly at their path and, if a token is set, to requests that present it;
-- the status of the handler behind is neither 401 nor 404.
pub metrics_status_iff :
    (bearer_token : Text) (served : ℕ) (path header : Text)
    → served ≢ 404
    → served ≢ 401
    → (metrics_status bearer_token served path header ≡ served) ↔ (
        (path ≡ codes "/metrics")
        × ((trim_space bearer_token ≡ []) ⊎ Presents header (trim_space bearer_token)))
unfolding metrics_status
metrics_status_iff bearer_token served path header not_found unauthorized = (there, back)
  where
    token : Text
    token = trim_space bearer_token

    authorized : Bool
    authorized = is_authorized_metrics_request (some header) token

    Allows : ℕ → Type 0
    Allows n = n ≡ served → (path ≡ codes "/metrics") × ((token ≡ []) ⊎ Presents header token)

    there : Allows (
        if not (text_eq path (codes "/metrics"))
        then 404
        else if not (text_eq token []) && not authorized
        then 401
        else served)
    there =
        if_cases Allows (not (text_eq path (codes "/metrics"))) (λ _ h. absurd (not_found (sym h)))
          λ at_path.
            if_cases Allows (not (text_eq token []) && not authorized)
              (λ _ h. absurd (unauthorized (sym h)))
              λ admitted h. (
                (text_eq_iff path (codes "/metrics")).0 (ground (arith, at_path)),
                admits admitted (Bool-cases (text_eq token [])),
              )
      where
        admits :
            (not (text_eq token []) && not authorized) ≡ false
            → ((text_eq token [] ≡ true) ⊎ (text_eq token [] ≡ false))
            → (token ≡ []) ⊎ Presents header token
        admits admitted (inl e) = inl ((text_eq_iff token []).0 e)
        admits admitted (inr e) =
            inr ((is_authorized_iff header token e).0 (ground (arith, admitted, e)))

    back :
        (path ≡ codes "/metrics") × ((token ≡ []) ⊎ Presents header token)
        → (if not (text_eq path (codes "/metrics"))
            then 404
            else if not (text_eq token []) && not authorized
            then 401
            else served)
          ≡ served
    back (at_path, inl e) =
        ground (arith, (text_eq_iff path (codes "/metrics")).1 at_path, (text_eq_iff token []).1 e)
    back (at_path, inr p) = elim (Bool-cases (text_eq token [])) [
      | inl e ↦ ground (arith, (text_eq_iff path (codes "/metrics")).1 at_path, e)
      | inr e ↦ ground (
        arith,
        (text_eq_iff path (codes "/metrics")).1 at_path,
        e,
        (is_authorized_iff header token e).1 p,
      )
    ]
