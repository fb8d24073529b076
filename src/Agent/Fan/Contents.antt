-- ===== src/Agent/Fan/Contents.antt =====
-- What the outputs have received and hold, event by event.
use astradns_agent.Common.{
  ℕ, zero, suc, ◌≡◌, ◌⊎◌, refl, sym, ap, ◌∙◌, Bool, inl, inr, List, [], ◌∷◌, ◌++◌, All2, map,
  if_cases,
}
use mathlib.Core.List.{append_assoc, append-nil}
use astradns_agent.Agent.Fan.{
  Channel, Fan, Turn, takes_event, receives, has_room, offer, fan_event, receive_queue, receive,
  turn, turns, closed_channel,
}

module _ {A : Type 0} where
  -- The events that are offered, in order.
  unfoldable pub offered : List (Turn A) → List A
  offered [] = []
  offered (takes_event x ∷ ts) = x ∷ offered ts
  offered (receives i ∷ ts) = offered ts

  -- Some of a list's elements, in its order, none more often than it stands there.
  abbrev pub IsPicked : List A → List A → Type 0
  IsPicked taken [] = taken ≡ []
  IsPicked taken (x ∷ xs) =
      ((rest : List A) × (taken ≡ x ∷ rest) × IsPicked rest xs) ⊎ IsPicked taken xs

  -- All that has reached an output: what its receiver has, and then what waits.
  abbrev pub contents : Channel A → List A
  contents c = c.received ++ c.queue

  -- An output to which some of the events were added.
  abbrev pub IsGrown : List A → Channel A → Channel A → Type 0
  IsGrown xs c d = (taken : List A) × IsPicked taken xs × (contents d ≡ contents c ++ taken)

  offer-IsGrown :
      (x : A) (xs : List A) (c d : Channel A) → IsGrown xs (offer x c) d → IsGrown (x ∷ xs) c d
  unfolding offer
  offer-IsGrown x xs c d =
      if_cases (λ o. IsGrown xs o d → IsGrown (x ∷ xs) c d) (has_room c)
        (λ _ k. (
          x ∷ k.0,
          inl (k.0, refl, k.1),
          k.2
              ∙ (ap (λ (l : List A). l ++ k.0) (sym (append_assoc c.received c.queue (x ∷ [])))
                  ∙ append_assoc (c.received ++ c.queue) (x ∷ []) k.0),
        ))
        λ _ k. (k.0, inr k.1, k.2)

  offers-AreGrown :
      (x : A) (xs : List A) (outs gs : List (Channel A))
      → All2 (IsGrown xs) (map (offer x) outs) gs
      → All2 (IsGrown (x ∷ xs)) outs gs
  offers-AreGrown x xs [] [] k = tt
  offers-AreGrown x xs [] (g ∷ gs) k = absurd k
  offers-AreGrown x xs (c ∷ outs) [] k = absurd k
  offers-AreGrown x xs (c ∷ outs) (g ∷ gs) k =
      (offer-IsGrown x xs c g k.0, offers-AreGrown x xs outs gs k.1)

  contents-receive_queue :
      (queue : List A) (c : Channel A)
      → c.queue ≡ queue
      → contents (receive_queue queue c) ≡ contents c
  contents-receive_queue [] c e = refl
  contents-receive_queue (x ∷ queue) c e =
      append_assoc c.received (x ∷ []) queue ∙ ap (λ (l : List A). c.received ++ l) (sym e)

  of_contents :
      (xs : List A) (b c d : Channel A) → contents b ≡ contents c → IsGrown xs b d → IsGrown xs c d
  of_contents xs b c d e k = (k.0, k.1, k.2 ∙ ap (λ (l : List A). l ++ k.0) e)

  receive-AreGrown :
      (i : ℕ) (xs : List A) (outs gs : List (Channel A))
      → All2 (IsGrown xs) (receive i outs) gs
      → All2 (IsGrown xs) outs gs
  unfolding receive
  receive-AreGrown i xs [] gs k = k
  receive-AreGrown zero xs (c ∷ outs) [] k = absurd k
  receive-AreGrown (suc i) xs (c ∷ outs) [] k = absurd k
  receive-AreGrown zero xs (c ∷ outs) (g ∷ gs) k = (
    of_contents xs (receive_queue c.queue c) c g (contents-receive_queue c.queue c refl) k.0,
    k.1,
  )
  receive-AreGrown (suc i) xs (c ∷ outs) (g ∷ gs) k = (k.0, receive-AreGrown i xs outs gs k.1)

  closed-AreGrown : (outs : List (Channel A)) → All2 (IsGrown []) outs (map closed_channel outs)
  closed-AreGrown [] = tt
  closed-AreGrown (c ∷ outs) = (([], refl, sym (append-nil (contents c))), closed-AreGrown outs)

  -- What the outputs have in the end, from the fan as it stands.
  pub turns-AreGrown :
      (calls : Bool) (ts : List (Turn A)) (f : Fan A)
      → All2 (IsGrown (offered ts)) f.outs (map closed_channel (turns calls ts f).outs)
  unfolding turns turn offered fan_event
  turns-AreGrown calls [] f = closed-AreGrown f.outs
  turns-AreGrown calls (takes_event x ∷ ts) f =
      offers-AreGrown x (offered ts) f.outs _ (turns-AreGrown calls ts (fan_event calls x f))
  turns-AreGrown calls (receives i ∷ ts) f =
      receive-AreGrown i (offered ts) f.outs _
        (turns-AreGrown calls ts (record f { outs = receive i f.outs }))
