-- ===== src/Transport/Sender/Packets.antt =====
-- Every packet of the loop is a chunk of the transfer, to its recipient.
use quinkgl_framework.Common.{
  ℕ, ◌+◌, ◌-◌, ◌/◌, ◌*◌, ◌∙◌, contains, ◌≤◌, ◌<◌, String, ◌≡◌, refl, sym, ap, subst, Bool, true,
  ◌&&◌, Option, some, List, [], ◌∷◌, ◌++◌, arith, ltb, leb, if-elim, nat_eq, string_eq, pair_eq,
  length, All, All-append,
}
use quinkgl_framework.Transport.Words.{Bytes}
use quinkgl_framework.Transport.Limits.{chunk_transfer_timeout, chunk_max_send_attempts}
use quinkgl_framework.Transport.Host.{Host}
use quinkgl_framework.Transport.Buffer.{chunk_total, chunk_slice}
use quinkgl_framework.Transport.State.{
  Community, Metrics, CachedTransfer, OutgoingTransfer, ModelChunk, Effect, Failure, timeout,
  max_attempts,
}
use quinkgl_framework.Transport.Acks.{apply_ack}
use quinkgl_framework.Transport.Requests.{outgoing_chunk, send_model_chunk, mark_due}
use quinkgl_framework.Transport.Requests.Resends.{sent_chunks}
use quinkgl_framework.Transport.Sender.{
  Phase, polling, retrying, filling, finished, Sending, cached_of, mark_sent, attempts_of, is_due,
  in_flight, window_size, packet, poll, retry, fill, advance, Event, tick, ack, nack, happen,
  run_events, new_transfer, start_transfer,
}
use quinkgl_framework.Transport.Sender.Deadline.{apply_ack-SameCourse, mark_due-SameCourse}
use quinkgl_framework.Transport.Sender.Sends.{
  sends, requests, sends_both, apply_ack-attempts, mark_due-attempts, advance-sends,
}
use quinkgl_framework.Transport.Sender.Invariant.{
  IsOrderly, IsSnapshot, apply_ack-IsOrderly, mark_due-IsOrderly, mark_sent-IsOrderly,
  mark_sent_again, new_transfer-IsOrderly,
}

-- A packet that carries a chunk of some weights to a peer.
abbrev pub IsPacket : String → Bytes → String × ModelChunk → Type 0
IsPacket mid weights m =
    (m.0 ≡ mid)
    × (m.1.chunk_index < chunk_total weights)
    × (m.1.total_chunks ≡ chunk_total weights)
    × (m.1.chunk_data ≡ chunk_slice weights m.1.chunk_index)

-- A transfer in order, at a point of its loop, and the packets that were sent.
abbrev pub IsGood : Bytes → String → Sending × List Effect → Type 0
IsGood weights mid r =
    IsOrderly weights mid r.0.transfer
    × IsSnapshot r.0.transfer.next_index r.0.phase
    × All (IsPacket mid weights) (sent_chunks r.1)

-- What the bookkeeping does not look at.
relabel :
    (weights : Bytes) (mid : String) (t : OutgoingTransfer) (completed : Bool)
    (reason : Option Failure) (count : ℕ)
    → IsOrderly weights mid t
    → IsOrderly weights mid
        (record t { completed = completed; failed_reason = reason; retry_count = count })
relabel weights mid t completed reason count v = record {
  bytes = v.bytes;
  recipient = v.recipient;
  total = v.total;
  next = v.next;
  sent = v.sent;
  tried = v.tried;
  untried = v.untried;
}

sent_chunks-append :
    (es fs : List Effect) → sent_chunks (es ++ fs) ≡ sent_chunks es ++ sent_chunks fs
unfolding sent_chunks
sent_chunks-append [] fs = refl
sent_chunks-append (e ∷ es) fs = ground (arith, sent_chunks-append es fs)

All-sent_chunks :
    (mid : String) (weights : Bytes) (es fs : List Effect)
    → All (IsPacket mid weights) (sent_chunks es)
    → All (IsPacket mid weights) (sent_chunks fs)
    → All (IsPacket mid weights) (sent_chunks (es ++ fs))
All-sent_chunks mid weights es fs h k =
    rw (sent_chunks-append es fs)
      (All-append (IsPacket mid weights) (sent_chunks es) (sent_chunks fs) h k)

sends-append :
    (i : ℕ) (es fs : List Effect)
    → sends i (sent_chunks (es ++ fs)) ≡ sends i (sent_chunks es) + sends i (sent_chunks fs)
sends-append i es fs =
    ap (sends i) (sent_chunks-append es fs) ∙ sends_both i (sent_chunks es) (sent_chunks fs)

module _ (host : Host) (node : Community) (weights : Bytes) (mid : String) where
  packet-IsPacket :
      (t : OutgoingTransfer) (now i : ℕ)
      → IsOrderly weights mid t
      → i < t.total_chunks
      → All (IsPacket mid weights) (sent_chunks (packet host node t now i ∷ []))
  unfolding sent_chunks send_model_chunk outgoing_chunk cached_of
  packet-IsPacket t now i v h = (
    (
      v.recipient,
      omega (arith, v.total, h),
      ap chunk_total v.bytes,
      ap (λ w. chunk_slice w i) v.bytes,
    ),
    tt,
  )

  no_packets : All (IsPacket mid weights) (sent_chunks [])
  unfolding sent_chunks
  no_packets = tt

  poll-IsGood :
      (s : Sending) (now : ℕ)
      → IsOrderly weights mid s.transfer
      → IsGood weights mid (poll host node s now)
  unfolding poll
  poll-IsGood s now v =
      let t : OutgoingTransfer = s.transfer in
      if-elim (IsGood weights mid) t.completed (λ _. (v, tt, no_packets))
        (λ _.
          if-elim (IsGood weights mid) (ltb chunk_transfer_timeout (now - t.created_at))
            (λ _.
              (relabel weights mid t t.completed (some timeout) t.retry_count v, tt, no_packets))
            (λ _. (v, v.sent, no_packets)))

  retry-IsGood :
      (s : Sending) (start i sent : ℕ) (rest : List (ℕ × ℕ)) (now : ℕ)
      → IsOrderly weights mid s.transfer
      → i < s.transfer.next_index
      → All (λ e. e.0 < s.transfer.next_index) rest
      → IsGood weights mid (retry host node s start (i, sent) rest now)
  unfolding retry
  retry-IsGood s start i sent rest now v h a =
      let t : OutgoingTransfer = s.transfer in
      if-elim (IsGood weights mid) (is_due t start i sent)
        (λ _.
          if-elim (IsGood weights mid) (leb chunk_max_send_attempts (attempts_of t i))
            (λ _. (
              relabel weights mid t t.completed (some (max_attempts i)) t.retry_count v,
              tt,
              no_packets,
            ))
            (λ few. (
              relabel weights mid (mark_sent t i now) t.completed t.failed_reason
                  (t.retry_count + 1)
                  (mark_sent_again i now weights mid t v (ground (arith, few)) h),
              a,
              packet-IsPacket t now i v (omega (arith, v.next)),
            )))
        (λ _. (v, a, no_packets))

  fill-IsGood :
      (t : OutgoingTransfer) (m : Metrics) (now : ℕ)
      → IsOrderly weights mid t
      → IsGood weights mid
          (fill host node (record { transfer = t; phase = filling; metrics = m }) now)
  unfolding fill
  fill-IsGood t m now v =
      if-elim (IsGood weights mid)
        (ltb t.next_index t.total_chunks && ltb (in_flight t.acked now t.sent_at) (window_size t))
        (λ room. (
          mark_sent-IsOrderly t.next_index now (t.next_index + 1) weights mid t v
              (omega (arith, v.untried t.next_index (omega arith))) (omega arith) (omega arith)
              (ground (arith, room)),
          tt,
          packet-IsPacket t now t.next_index v (ground (arith, room)),
        ))
        (λ _.
          if-elim (IsGood weights mid) (leb t.total_chunks (length t.acked))
            (λ _. (relabel weights mid t true t.failed_reason t.retry_count v, tt, no_packets))
            (λ _. (v, tt, no_packets)))

  advance_at-IsGood :
      (t : OutgoingTransfer) (p : Phase) (m : Metrics) (now : ℕ)
      → IsOrderly weights mid t
      → IsSnapshot t.next_index p
      → IsGood weights mid (advance host node (record { transfer = t; phase = p; metrics = m }) now)
  unfolding advance
  advance_at-IsGood t polling m now v a =
      poll-IsGood (record { transfer = t; phase = polling; metrics = m }) now v
  advance_at-IsGood t (retrying start []) m now v a = (v, tt, no_packets)
  advance_at-IsGood t (retrying start ((i, sent) ∷ rest)) m now v a =
      retry-IsGood (record { transfer = t; phase = retrying start ((i, sent) ∷ rest); metrics = m })
        start i sent rest now v a.0 a.1
  advance_at-IsGood t filling m now v a = fill-IsGood t m now v
  advance_at-IsGood t (finished result) m now v a = (v, tt, no_packets)

  run_events-IsGood :
      (es : List Event) (s : Sending)
      → IsOrderly weights mid s.transfer
      → IsSnapshot s.transfer.next_index s.phase
      → IsGood weights mid (run_events host node s es)
  unfolding run_events happen
  run_events-IsGood [] s v a = (v, a, no_packets)
  run_events-IsGood (tick now ∷ es) s v a =
      let g = advance_at-IsGood s.transfer s.phase s.metrics now v a in
      let r = run_events-IsGood es (advance host node s now).0 g.0 g.1 in
      (r.0, r.1, All-sent_chunks mid weights (advance host node s now).1 _ g.2 r.2)
  run_events-IsGood (ack peer_mid p ∷ es) s v a =
      run_events-IsGood es (record s { transfer = apply_ack host peer_mid p s.transfer })
        (apply_ack-IsOrderly host peer_mid p weights mid s.transfer v)
        (subst (λ n. IsSnapshot n s.phase)
          (sym (apply_ack-SameCourse host peer_mid p s.transfer).same_next) a)
  run_events-IsGood (nack indices ∷ es) s v a =
      run_events-IsGood es (record s { transfer = mark_due indices s.transfer })
        (mark_due-IsOrderly indices weights mid s.transfer v)
        (subst (λ n. IsSnapshot n s.phase) (sym (mark_due-SameCourse indices s.transfer).same_next)
          a)

  -- What is sent of a chunk is counted, but for at most eight tries at each request for it.
  run_events-sends :
      (i : ℕ) (es : List Event) (s : Sending)
      → IsOrderly weights mid s.transfer
      → IsSnapshot s.transfer.next_index s.phase
      → sends i (sent_chunks (run_events host node s es).1) + attempts_of s.transfer i
        ≤ attempts_of (run_events host node s es).0.transfer i
          + chunk_max_send_attempts * requests i es
  unfolding run_events happen sent_chunks
  run_events-sends i [] s v a = omega arith
  run_events-sends i (tick now ∷ es) s v a =
      let g = advance_at-IsGood s.transfer s.phase s.metrics now v a in
      omega (
        arith,
        sends-append i (advance host node s now).1
            (run_events host node (advance host node s now).0 es).1,
        advance-sends host node i s now,
        run_events-sends i es (advance host node s now).0 g.0 g.1,
      )
  run_events-sends i (ack peer_mid p ∷ es) s v a = omega (
    arith,
    apply_ack-attempts host peer_mid p s.transfer i,
    run_events-sends i es (record s { transfer = apply_ack host peer_mid p s.transfer })
        (apply_ack-IsOrderly host peer_mid p weights mid s.transfer v)
        (subst (λ n. IsSnapshot n s.phase)
          (sym (apply_ack-SameCourse host peer_mid p s.transfer).same_next) a),
  )
  run_events-sends i (nack indices ∷ es) s v a =
      let r =
        run_events-sends i es (record s { transfer = mark_due indices s.transfer })
          (mark_due-IsOrderly indices weights mid s.transfer v)
          (subst (λ n. IsSnapshot n s.phase)
            (sym (mark_due-SameCourse indices s.transfer).same_next) a) in
      if-elim
        (λ n.
          sends i (
              sent_chunks
                (run_events host node (record s { transfer = mark_due indices s.transfer }) es).1)
            + attempts_of s.transfer i
          ≤ attempts_of
              (run_events host node (record s { transfer = mark_due indices s.transfer })
                es).0.transfer
              i
            + chunk_max_send_attempts * n)
        (contains indices i) (λ named. omega (arith, r, v.tried i))
        (λ other. omega (arith, r, mark_due-attempts i indices s.transfer other))

start_transfer-begun :
    (c : Community) (transfer_id target mid model_hash : String) (t : CachedTransfer) (now : ℕ)
    (begun : Community × Sending)
    → start_transfer c transfer_id target mid t model_hash now ≡ some begun
    → (begun.1.transfer
        ≡ new_transfer transfer_id target mid
            (record t { timestamp = now / 1000; recipient_mid = mid })
            now)
      × (begun.1.phase ≡ polling)
unfolding start_transfer
start_transfer-begun c transfer_id target mid model_hash t now begun h =
    (ground (arith, h), ground (arith, h))

-- Whatever happens to a transfer after its start, every packet that its loop sends goes to its
-- recipient and carries the chunk of the model that its index, which is in range, names; and
-- each chunk is sent at most eight times, and at most eight times more for each request that
-- names it.
pub run_events-genuine :
    (host : Host) (node c : Community) (transfer_id target mid model_hash : String)
    (t : CachedTransfer) (now i : ℕ) (begun : Community × Sending) (es : List Event)
    → start_transfer c transfer_id target mid t model_hash now ≡ some begun
    → All (IsPacket mid t.weights) (sent_chunks (run_events host node begun.1 es).1)
      × (sends i (sent_chunks (run_events host node begun.1 es).1)
          ≤ chunk_max_send_attempts * (1 + requests i es))
run_events-genuine host node c transfer_id target mid model_hash t now i begun es h =
    let cached : CachedTransfer = record t { timestamp = now / 1000; recipient_mid = mid } in
    let b = start_transfer-begun c transfer_id target mid model_hash t now begun h in
    let v =
      subst (IsOrderly t.weights mid) (sym b.0)
        (new_transfer-IsOrderly transfer_id target mid cached now) in
    let a = subst (IsSnapshot begun.1.transfer.next_index) (sym b.1) tt in
    let g = run_events-IsGood host node t.weights mid es begun.1 v a in
    (g.2, omega (arith, g.0.tried i, run_events-sends host node t.weights mid i es begun.1 v a))
