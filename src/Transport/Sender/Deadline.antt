-- ===== src/Transport/Sender/Deadline.antt =====
-- The loop of a transfer ends.
use quinkgl_framework.Common.{
  ℕ, ◌+◌, ◌-◌, ◌≤◌, ◌<◌, String, ◌≡◌, refl, ◌∙◌, Bool, not, ◌&&◌, List, [], ◌∷◌, arith,
  if◌then◌else◌, contains, nat_eq, string_eq, pair_eq, length, All,
}
use quinkgl_framework.Common.Dict.{insert, has}
use quinkgl_framework.Transport.Limits.{chunk_transfer_timeout}
use quinkgl_framework.Transport.Host.{Host}
use quinkgl_framework.Transport.State.{Community, Metrics, OutgoingTransfer, ChunkAck}
use quinkgl_framework.Transport.Acks.{acknowledge, apply_ack}
use quinkgl_framework.Transport.Requests.{mark_due}
use quinkgl_framework.Transport.Sender.{
  Phase, polling, retrying, filling, finished, Sending, mark_sent, poll, retry, fill, advance,
  Event, tick, ack, nack, happen, run_events,
}

-- The steps that the loop has left in this round and until it reads the clock at its head.
unfoldable pub steps_left : OutgoingTransfer → Phase → ℕ
steps_left t polling = 1
steps_left t (retrying start rest) = length rest + 3 + (t.total_chunks - t.next_index)
steps_left t filling = 2 + (t.total_chunks - t.next_index)
steps_left t (finished result) = 0

abbrev pub measure : Sending → ℕ
measure s = steps_left s.transfer s.phase

-- The time is past the deadline of the transfer.
abbrev pub IsLate : Sending → ℕ → Type 0
IsLate s now = s.transfer.created_at + chunk_transfer_timeout < now

-- What ACKs and requests leave alone.
pub record SameCourse (t u : OutgoingTransfer) : Type 0 where
  pub same_total : u.total_chunks ≡ t.total_chunks
  pub same_next : u.next_index ≡ t.next_index
  pub same_start : u.created_at ≡ t.created_at

pub apply_ack-SameCourse :
    (host : Host) (peer_mid : String) (p : ChunkAck) (t : OutgoingTransfer)
    → SameCourse t (apply_ack host peer_mid p t)
unfolding apply_ack acknowledge
apply_ack-SameCourse host peer_mid p t = record {
  same_total = ground arith;
  same_next = ground arith;
  same_start = ground arith;
}

pub mark_due-SameCourse : (is : List ℕ) (t : OutgoingTransfer) → SameCourse t (mark_due is t)
unfolding mark_due
mark_due-SameCourse [] t = record { same_total = refl; same_next = refl; same_start = refl }
mark_due-SameCourse (i ∷ is) t =
    let u : OutgoingTransfer =
      (if not (contains t.acked i) && has i t.sent_at
        then record t { sent_at = insert i 0 t.sent_at; attempts = insert i 0 t.attempts }
        else t) in
    let v = mark_due-SameCourse is u in
    record {
      same_total = v.same_total ∙ ground arith;
      same_next = v.same_next ∙ ground arith;
      same_start = v.same_start ∙ ground arith;
    }

pub steps_left-SameCourse :
    (t u : OutgoingTransfer) (p : Phase) → SameCourse t u → steps_left u p ≡ steps_left t p
unfolding steps_left
steps_left-SameCourse t u polling c = refl
steps_left-SameCourse t u (retrying start rest) c = omega (arith, c.same_total, c.same_next)
steps_left-SameCourse t u filling c = omega (arith, c.same_total, c.same_next)
steps_left-SameCourse t u (finished result) c = refl

module _ (host : Host) (node : Community) where
  advance-created_at :
      (s : Sending) (now : ℕ)
      → (advance host node s now).0.transfer.created_at ≡ s.transfer.created_at
  unfolding advance poll retry fill mark_sent
  advance-created_at s now = ground arith

  retry-measure :
      (s : Sending) (start : ℕ) (e : ℕ × ℕ) (rest : List (ℕ × ℕ)) (now : ℕ)
      → measure (retry host node s start e rest now).0
        ≤ length rest + 3 + (s.transfer.total_chunks - s.transfer.next_index)
  unfolding retry steps_left mark_sent
  retry-measure s start e rest now = ground arith

  fill-measure :
      (t : OutgoingTransfer) (m : Metrics) (now : ℕ)
      → measure (fill host node (record { transfer = t; phase = filling; metrics = m }) now).0
        ≤ 1 + (t.total_chunks - t.next_index)
  unfolding fill steps_left mark_sent
  fill-measure t m now = ground arith

  poll-measure : (s : Sending) (now : ℕ) → IsLate s now → measure (poll host node s now).0 ≡ 0
  unfolding poll steps_left
  poll-measure s now h = ground arith

  -- Each step past the deadline brings the end nearer.
  advance_at-measure :
      (t : OutgoingTransfer) (p : Phase) (m : Metrics) (now : ℕ)
      → t.created_at + chunk_transfer_timeout < now
      → measure (advance host node (record { transfer = t; phase = p; metrics = m }) now).0
        ≤ steps_left t p - 1
  unfolding advance steps_left
  advance_at-measure t polling m now h =
      omega (arith, poll-measure (record { transfer = t; phase = polling; metrics = m }) now h)
  advance_at-measure t (retrying start []) m now h = omega arith
  advance_at-measure t (retrying start (e ∷ rest)) m now h = omega (
    arith,
    retry-measure (record { transfer = t; phase = retrying start (e ∷ rest); metrics = m }) start e
        rest now,
  )
  advance_at-measure t filling m now h = omega (arith, fill-measure t m now)
  advance_at-measure t (finished result) m now h = omega arith

-- The times at which the loop takes its steps.
abbrev pub ticks : List Event → List ℕ
ticks [] = []
ticks (tick now ∷ es) = now ∷ ticks es
ticks (ack peer_mid p ∷ es) = ticks es
ticks (nack indices ∷ es) = ticks es

module _ (host : Host) (node : Community) where
  run_events-measure :
      (es : List Event) (s : Sending) (deadline : ℕ)
      → s.transfer.created_at + chunk_transfer_timeout ≡ deadline
      → All (λ now. deadline < now) (ticks es)
      → measure (run_events host node s es).0 ≤ measure s - length (ticks es)
  unfolding run_events happen
  run_events-measure [] s deadline e h = omega arith
  run_events-measure (tick now ∷ es) s deadline e h = omega (
    arith,
    advance_at-measure host node s.transfer s.phase s.metrics now (omega (arith, e, h.0)),
    run_events-measure es (advance host node s now).0 deadline
        (omega (arith, e, advance-created_at host node s now)) h.1,
  )
  run_events-measure (ack peer_mid p ∷ es) s deadline e h =
      let c = apply_ack-SameCourse host peer_mid p s.transfer in
      omega (
        arith,
        steps_left-SameCourse s.transfer (apply_ack host peer_mid p s.transfer) s.phase c,
        run_events-measure es (record s { transfer = apply_ack host peer_mid p s.transfer })
            deadline (omega (arith, e, c.same_start)) h,
      )
  run_events-measure (nack indices ∷ es) s deadline e h =
      let c = mark_due-SameCourse indices s.transfer in
      omega (
        arith,
        steps_left-SameCourse s.transfer (mark_due indices s.transfer) s.phase c,
        run_events-measure es (record s { transfer = mark_due indices s.transfer }) deadline
            (omega (arith, e, c.same_start)) h,
      )

  pub measure-finished :
      (s : Sending) → measure s ≡ 0 → (result : Bool) × (s.phase ≡ finished result)
  unfolding steps_left
  measure-finished s h = at s.phase h
    where
      at : (p : Phase) → steps_left s.transfer p ≡ 0 → (result : Bool) × (p ≡ finished result)
      at polling h = absurd (omega arith)
      at (retrying start rest) h = absurd (omega arith)
      at filling h = absurd (omega arith)
      at (finished result) h = (result, refl)

  -- Once the deadline of a transfer has passed, its loop returns within a number of steps that
  -- its state bounds (measure), whatever ACKs and requests come between the steps.
  pub timeout_ends :
      (s : Sending) (es : List Event)
      → All (λ now. s.transfer.created_at + chunk_transfer_timeout < now) (ticks es)
      → measure s ≤ length (ticks es)
      → (result : Bool) × ((run_events host node s es).0.phase ≡ finished result)
  timeout_ends s es late enough = measure-finished (run_events host node s es).0 (
      omega
        (arith, run_events-measure es s (s.transfer.created_at + chunk_transfer_timeout) refl late))
