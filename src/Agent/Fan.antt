-- ===== src/Agent/Fan.antt =====
-- cmd/agent/main.go: events handed from one channel to several, without waiting for any, and the
-- errors of components. The proofs are in the modules below.
pub mod Conserve
pub mod Contents
use astradns_agent.Common.{
  ℕ, zero, suc, ◌+◌, Bool, true, false, Option, none, some, List, [], ◌∷◌, ◌++◌, length, ltb, map,
  if◌then◌else◌,
}

-- A channel with room for `capacity` values: `queue` are those in it, the first to be received
-- first, and `received` are those that its receiver has taken, in order.
pub record Channel (A : Type 0) : Type 0 where
  pub capacity : ℕ
  pub queue : List A
  pub received : List A
  pub closed : Bool

-- The outputs, with the number of drops and of calls of `onDrop`.
pub record Fan (A : Type 0) : Type 0 where
  pub outs : List (Channel A)
  pub dropped : ℕ
  pub drop_calls : ℕ

-- What happens while `fanOut` runs: it takes an event, or the receiver of an output takes one.
pub data Turn (A : Type 0) : Type 0 where
  takes_event : A → Turn A
  receives : ℕ → Turn A

module _ {A : Type 0} where
  abbrev pub has_room : Channel A → Bool
  has_room c = ltb (length c.queue) c.capacity

  -- A `select` that sends or goes on.
  unfoldable pub offer : A → Channel A → Channel A
  offer x c = if has_room c then record c { queue = c.queue ++ x ∷ [] } else c

  abbrev pub drops_of : Channel A → ℕ
  drops_of c = if has_room c then 0 else 1

  -- `reportComponentErr`, with the number of calls of `onDrop`.
  unfoldable pub report_component_err : Bool → A → Channel A → Channel A × ℕ
  report_component_err has_on_drop x c =
      if has_room c
      then (record c { queue = c.queue ++ x ∷ [] }, 0)
      else (c, if has_on_drop then 1 else 0)

  -- The inner loop over the outputs.
  unfoldable pub total_drops : List (Channel A) → ℕ
  total_drops [] = 0
  total_drops (c ∷ outs) = drops_of c + total_drops outs

  unfoldable pub fan_event : Bool → A → Fan A → Fan A
  fan_event has_on_drop x f =
      let missed = total_drops f.outs in
      record {
        outs = map (offer x) f.outs;
        dropped = f.dropped + missed;
        drop_calls = if has_on_drop then f.drop_calls + missed else f.drop_calls;
      }

  abbrev pub receive_queue : List A → Channel A → Channel A
  receive_queue [] c = c
  receive_queue (x ∷ queue) c = record c { queue = queue; received = c.received ++ x ∷ [] }

  unfoldable pub receive : ℕ → List (Channel A) → List (Channel A)
  receive i [] = []
  receive zero (c ∷ outs) = receive_queue c.queue c ∷ outs
  receive (suc i) (c ∷ outs) = c ∷ receive i outs

  unfoldable pub turn : Bool → Turn A → Fan A → Fan A
  turn has_on_drop (takes_event x) f = fan_event has_on_drop x f
  turn has_on_drop (receives i) f = record f { outs = receive i f.outs }

  unfoldable pub turns : Bool → List (Turn A) → Fan A → Fan A
  turns has_on_drop [] f = f
  turns has_on_drop (t ∷ ts) f = turns has_on_drop ts (turn has_on_drop t f)

  abbrev pub closed_channel : Channel A → Channel A
  closed_channel c = record c { closed = true }

  -- `fanOut`, until its input is closed.
  unfoldable pub fan_out : Bool → List (Turn A) → Fan A → Fan A
  fan_out has_on_drop ts f =
      let ended = turns has_on_drop ts f in record ended { outs = map closed_channel ended.outs }
