-- ===== src/Transport/Sender/Completion.antt =====
-- A transfer whose chunks are all acknowledged ends with success.
use quinkgl_framework.Common.{
  ℕ, ◌+◌, ◌-◌, ◌≤◌, String, ◌≡◌, refl, sym, ap, subst, ◌∙◌, Bool, true, false, ◌&&◌, List, [], ◌∷◌,
  arith, ltb, leb, if-elim, nat_eq, string_eq, pair_eq, length,
}
use quinkgl_framework.Transport.Limits.{chunk_max_send_attempts}
use quinkgl_framework.Transport.Host.{Host}
use quinkgl_framework.Transport.State.{Community, Metrics, OutgoingTransfer, ChunkAck, Effect}
use quinkgl_framework.Transport.Acks.{acknowledge, apply_ack}
use quinkgl_framework.Transport.Requests.{mark_due}
use quinkgl_framework.Transport.Sender.{
  Phase, polling, retrying, filling, finished, Sending, mark_sent, poll, retry, fill, advance,
  Event, tick, ack, nack, happen, run_events, is_due, attempts_of, in_flight, window_size,
}
use quinkgl_framework.Transport.Sender.Deadline.{
  steps_left, measure, ticks, apply_ack-SameCourse, mark_due-SameCourse, steps_left-SameCourse,
  measure-finished,
}

-- The loop has not returned without success.
abbrev pub IsOpen : Phase → Type 0
IsOpen (finished false) = ⊥
IsOpen _ = Unit

abbrev IsSettled : Sending → Type 0
IsSettled s = (s.transfer.completed ≡ true) × IsOpen s.phase

apply_ack-completed :
    (host : Host) (peer_mid : String) (p : ChunkAck) (t : OutgoingTransfer)
    → t.completed ≡ true
    → (apply_ack host peer_mid p t).completed ≡ true
unfolding apply_ack acknowledge
apply_ack-completed host peer_mid p t h = ground (arith, h)

mark_due-completed : (is : List ℕ) (t : OutgoingTransfer) → (mark_due is t).completed ≡ t.completed
unfolding mark_due
mark_due-completed [] t = refl
mark_due-completed (i ∷ is) t = mark_due-completed is _ ∙ ground arith

-- A step has left the transfer settled, with so many steps to go at most.
abbrev Settles : ℕ → Sending × List Effect → Type 0
Settles bound r = IsSettled r.0 × (measure r.0 ≤ bound)

module _ (host : Host) (node : Community) where
  poll-Settles :
      (s : Sending) (now : ℕ) → s.transfer.completed ≡ true → Settles 0 (poll host node s now)
  unfolding poll steps_left
  poll-Settles s now c =
      if-elim (Settles 0) s.transfer.completed (λ _. ((c, tt), omega arith))
        (λ f. absurd (ground (arith, c, f)))

  retry-Settles :
      (s : Sending) (start : ℕ) (e : ℕ × ℕ) (rest : List (ℕ × ℕ)) (now : ℕ)
      → s.transfer.completed ≡ true
      → Settles
          (length rest + 3 + (s.transfer.total_chunks - s.transfer.next_index))
          (retry host node s start e rest now)
  unfolding retry steps_left mark_sent
  retry-Settles s start (i, sent) rest now c =
      let P : Sending × List Effect → Type 0 =
        Settles (length rest + 3 + (s.transfer.total_chunks - s.transfer.next_index)) in
      if-elim P (is_due s.transfer start i sent)
        (λ _.
          if-elim P (leb chunk_max_send_attempts (attempts_of s.transfer i))
            (λ _. ((c, subst (λ b. IsOpen (finished b)) (sym c) tt), omega arith))
            (λ _. ((c, tt), omega arith)))
        (λ _. ((c, tt), omega arith))

  fill-Settles :
      (t : OutgoingTransfer) (m : Metrics) (now : ℕ)
      → t.completed ≡ true
      → Settles
          (1 + (t.total_chunks - t.next_index))
          (fill host node (record { transfer = t; phase = filling; metrics = m }) now)
  unfolding fill steps_left mark_sent
  fill-Settles t m now c =
      let P : Sending × List Effect → Type 0 = Settles (1 + (t.total_chunks - t.next_index)) in
      if-elim P
        (ltb t.next_index t.total_chunks && ltb (in_flight t.acked now t.sent_at) (window_size t))
        (λ room. ((c, tt), ground (arith, room)))
        (λ _.
          if-elim P (leb t.total_chunks (length t.acked)) (λ _. ((refl, tt), omega arith))
            (λ _. ((c, tt), omega arith)))

  advance_at-Settles :
      (t : OutgoingTransfer) (p : Phase) (m : Metrics) (now : ℕ)
      → t.completed ≡ true
      → IsOpen p
      → Settles
          (steps_left t p - 1)
          (advance host node (record { transfer = t; phase = p; metrics = m }) now)
  unfolding advance steps_left
  advance_at-Settles t polling m now c o =
      poll-Settles (record { transfer = t; phase = polling; metrics = m }) now c
  advance_at-Settles t (retrying start []) m now c o = ((c, tt), omega arith)
  advance_at-Settles t (retrying start (e ∷ rest)) m now c o =
      let r =
        retry-Settles (record { transfer = t; phase = retrying start (e ∷ rest); metrics = m })
          start e rest now c in
      (r.0, omega (arith, r.1))
  advance_at-Settles t filling m now c o =
      let r = fill-Settles t m now c in (r.0, omega (arith, r.1))
  advance_at-Settles t (finished true) m now c o = ((c, tt), omega arith)
  advance_at-Settles t (finished false) m now c o = absurd o

  run_events-Settles :
      (es : List Event) (s : Sending)
      → IsSettled s
      → Settles (measure s - length (ticks es)) (run_events host node s es)
  unfolding run_events happen
  run_events-Settles [] s v = (v, omega arith)
  run_events-Settles (tick now ∷ es) s v =
      let a = advance_at-Settles s.transfer s.phase s.metrics now v.0 v.1 in
      let r = run_events-Settles es (advance host node s now).0 a.0 in
      (r.0, omega (arith, a.1, r.1))
  run_events-Settles (ack peer_mid p ∷ es) s v =
      let c = apply_ack-SameCourse host peer_mid p s.transfer in
      let r =
        run_events-Settles es (record s { transfer = apply_ack host peer_mid p s.transfer })
          (apply_ack-completed host peer_mid p s.transfer v.0, v.1) in
      (
        r.0,
        omega (
          arith,
          r.1,
          steps_left-SameCourse s.transfer (apply_ack host peer_mid p s.transfer) s.phase c,
        ),
      )
  run_events-Settles (nack indices ∷ es) s v =
      let c = mark_due-SameCourse indices s.transfer in
      let r =
        run_events-Settles es (record s { transfer = mark_due indices s.transfer })
          (mark_due-completed indices s.transfer ∙ v.0, v.1) in
      (
        r.0,
        omega
            (arith, r.1, steps_left-SameCourse s.transfer (mark_due indices s.transfer) s.phase c),
      )

  -- The loop of a transfer that is completed, and that has not returned false already, returns
  -- true within a number of steps that its state bounds (measure), whatever ACKs and requests
  -- come between them.
  pub completed_succeeds :
      (s : Sending) (es : List Event)
      → s.transfer.completed ≡ true
      → IsOpen s.phase
      → measure s ≤ length (ticks es)
      → (run_events host node s es).0.phase ≡ finished true
  completed_succeeds s es c o enough =
      let r = run_events-Settles es s (c, o) in
      let f = measure-finished host node (run_events host node s es).0 (omega (arith, r.1)) in
      f.1 ∙ ap finished (open_result f.0 (subst IsOpen f.1 r.0.1))
    where
      open_result : (b : Bool) → IsOpen (finished b) → b ≡ true
      open_result true o = refl
      open_result false o = absurd o
