-- ===== src/Agent/Fan/Conserve.antt =====
-- No event is lost unseen on its way to the outputs.
use astradns_agent.Common.{
  ℕ, zero, suc, ◌+◌, ◌*◌, ◌≤◌, ◌≡◌, refl, ap, Bool, true, Bool-cases, inl, inr, List, [], ◌∷◌, All2,
  length, length-append, All, arith, map, if_cases,
}
use astradns_agent.Agent.Fan.{
  Channel, Fan, Turn, takes_event, receives, has_room, offer, drops_of, total_drops, fan_event,
  receive_queue, receive, turn, turns, closed_channel, fan_out,
}
use astradns_agent.Agent.Fan.Contents.{offered, IsGrown, turns-AreGrown}

module _ {A : Type 0} where
  -- What has reached an output, and what has reached them all.
  abbrev pub reached : Channel A → ℕ
  reached c = length c.received + length c.queue

  unfoldable pub reached_all : List (Channel A) → ℕ
  reached_all [] = 0
  reached_all (c ∷ outs) = reached c + reached_all outs

  unfoldable pub events : List (Turn A) → ℕ
  events [] = 0
  events (takes_event x ∷ ts) = events ts + 1
  events (receives i ∷ ts) = events ts

  abbrev pub IsWithin : Channel A → Type 0
  IsWithin c = length c.queue ≤ c.capacity

  offer-reached : (x : A) (c : Channel A) → reached (offer x c) + drops_of c ≡ reached c + 1
  unfolding offer
  offer-reached x c = elim (Bool-cases (has_room c)) [
    | inl e ↦ rw e (omega (arith, length-append c.queue (x ∷ [])))
    | inr e ↦ rw e (omega arith)
  ]

  offer-IsWithin : (x : A) (c : Channel A) → IsWithin c → IsWithin (offer x c)
  unfolding offer
  offer-IsWithin x c k =
      if_cases IsWithin (has_room c) (λ e. ground (arith, e, length-append c.queue (x ∷ []))) λ _. k

  offers-reached :
      (x : A) (outs : List (Channel A))
      → reached_all (map (offer x) outs) + total_drops outs ≡ reached_all outs + length outs
  unfolding reached_all total_drops
  offers-reached x [] = refl
  offers-reached x (c ∷ outs) = omega (arith, offer-reached x c, offers-reached x outs)

  offers-IsWithin :
      (x : A) (outs : List (Channel A)) → All IsWithin outs → All IsWithin (map (offer x) outs)
  offers-IsWithin x [] k = tt
  offers-IsWithin x (c ∷ outs) k = (offer-IsWithin x c k.0, offers-IsWithin x outs k.1)

  receive_queue-reached :
      (queue : List A) (c : Channel A)
      → c.queue ≡ queue
      → reached (receive_queue queue c) ≡ reached c
  receive_queue-reached [] c e = refl
  receive_queue-reached (x ∷ queue) c e =
      omega (arith, ap length e, length-append c.received (x ∷ []))

  receive_queue-IsWithin :
      (queue : List A) (c : Channel A)
      → c.queue ≡ queue
      → IsWithin c
      → IsWithin (receive_queue queue c)
  receive_queue-IsWithin [] c e k = k
  receive_queue-IsWithin (x ∷ queue) c e k = omega (arith, ap length e, k)

  receive-reached :
      (i : ℕ) (outs : List (Channel A)) → reached_all (receive i outs) ≡ reached_all outs
  unfolding receive reached_all
  receive-reached i [] = refl
  receive-reached zero (c ∷ outs) = omega (arith, receive_queue-reached c.queue c refl)
  receive-reached (suc i) (c ∷ outs) = omega (arith, receive-reached i outs)

  receive-IsWithin :
      (i : ℕ) (outs : List (Channel A)) → All IsWithin outs → All IsWithin (receive i outs)
  unfolding receive
  receive-IsWithin i [] k = k
  receive-IsWithin zero (c ∷ outs) k = (receive_queue-IsWithin c.queue c refl k.0, k.1)
  receive-IsWithin (suc i) (c ∷ outs) k = (k.0, receive-IsWithin i outs k.1)

  length-receive : (i : ℕ) (outs : List (Channel A)) → length (receive i outs) ≡ length outs
  unfolding receive
  length-receive i [] = refl
  length-receive zero (c ∷ outs) = refl
  length-receive (suc i) (c ∷ outs) = ap suc (length-receive i outs)

  length-offers : (x : A) (outs : List (Channel A)) → length (map (offer x) outs) ≡ length outs
  length-offers x [] = refl
  length-offers x (c ∷ outs) = ap suc (length-offers x outs)

  -- Each event reaches an output or is a drop of it, each drop is a call of `onDrop`, and the
  -- outputs keep their number and stay within their sizes.
  pub record IsConserved (calls : Bool) (n : ℕ) (f g : Fan A) : Type 0 where
    pub outs : length g.outs ≡ length f.outs
    pub reached :
        reached_all g.outs + g.dropped ≡ reached_all f.outs + f.dropped + n * length f.outs
    pub called : calls ≡ true → g.drop_calls + f.dropped ≡ f.drop_calls + g.dropped
    pub within : All IsWithin f.outs → All IsWithin g.outs

  turns-IsConserved :
      (calls : Bool) (ts : List (Turn A)) (f : Fan A)
      → IsConserved calls (events ts) f (turns calls ts f)
  unfolding turns turn events fan_event
  turns-IsConserved calls [] f = record {
    outs = refl;
    reached = omega arith;
    called = λ e. omega arith;
    within = λ k. k;
  }
  turns-IsConserved calls (takes_event x ∷ ts) f =
      let rest = turns-IsConserved calls ts (fan_event calls x f) in
      let same = length-offers x f.outs in
      record {
        outs = omega (arith, rest.outs, same);
        reached =
            omega
              (arith, rest.reached, offers-reached x f.outs, ap (λ (n : ℕ). events ts * n) same);
        called = λ e. ground (arith, rest.called e, e);
        within = λ k. rest.within (offers-IsWithin x f.outs k);
      }
  turns-IsConserved calls (receives i ∷ ts) f =
      let rest = turns-IsConserved calls ts (record f { outs = receive i f.outs }) in
      let same = length-receive i f.outs in
      record {
        outs = omega (arith, rest.outs, same);
        reached =
            omega
              (arith, rest.reached, receive-reached i f.outs, ap (λ (n : ℕ). events ts * n) same);
        called = rest.called;
        within = λ k. rest.within (receive-IsWithin i f.outs k);
      }

  closed-reached :
      (outs : List (Channel A)) → reached_all (map closed_channel outs) ≡ reached_all outs
  unfolding reached_all
  closed-reached [] = refl
  closed-reached (c ∷ outs) = omega (arith, closed-reached outs)

  closed-length : (outs : List (Channel A)) → length (map closed_channel outs) ≡ length outs
  closed-length [] = refl
  closed-length (c ∷ outs) = ap suc (closed-length outs)

  closed_channels-IsWithin :
      (outs : List (Channel A)) → All IsWithin outs → All IsWithin (map closed_channel outs)
  closed_channels-IsWithin [] k = tt
  closed_channels-IsWithin (c ∷ outs) k = (k.0, closed_channels-IsWithin outs k.1)

  -- Whatever the events and in whatever order the receivers take them, `fanOut` neither loses nor
  -- repeats an event unseen: what an output's receiver has taken, with what waits there, is what it
  -- was before and then some of the events, in their order and none more often than it came; and
  -- over all outputs the events that are missing are as many as the drops. A callback that is set is
  -- called once for each drop, and the outputs keep their number and stay within their sizes.
  pub fan_out-IsConserved :
      (calls : Bool) (ts : List (Turn A)) (f : Fan A)
      → All2 (IsGrown (offered ts)) f.outs (fan_out calls ts f).outs
        × IsConserved calls (events ts) f (fan_out calls ts f)
  unfolding fan_out
  fan_out-IsConserved calls ts f =
      let run = turns-IsConserved calls ts f in
      let ended = (turns calls ts f).outs in
      (
        turns-AreGrown calls ts f,
        record {
          outs = omega (arith, run.outs, closed-length ended);
          reached = omega (arith, run.reached, closed-reached ended);
          called = run.called;
          within = λ k. closed_channels-IsWithin ended (run.within k);
        },
      )
