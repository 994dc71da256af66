-- ===== src/Transport/Sender/Sends.antt =====
-- How often the loop of `_send_chunked_model_update` in src/quinkgl/network/gossip_community.py sends a
-- chunk, against the attempts that it counts.
use quinkgl_framework.Common.{
  ℕ, ◌+◌, ◌-◌, ◌≡◌, refl, ◌∙◌, false, not, ◌&&◌, List, [], ◌∷◌, ◌++◌, arith, ltb, leb,
  if◌then◌else◌, if-elim, String, ◌==◌, contains, length, nat_eq, string_eq, pair_eq,
}
use quinkgl_framework.Common.Dict.{insert, has, lookup-insert}
use quinkgl_framework.Transport.Limits.{chunk_max_send_attempts, chunk_transfer_timeout}
use quinkgl_framework.Transport.Host.{Host}
use quinkgl_framework.Transport.State.{Community, Metrics, OutgoingTransfer, ModelChunk, Effect}
use quinkgl_framework.Transport.Acks.{apply_ack, acknowledge}
use quinkgl_framework.Transport.Requests.{outgoing_chunk, send_model_chunk, mark_due}
use quinkgl_framework.Transport.Requests.Resends.{sent_chunks}
use quinkgl_framework.Transport.State.{ChunkAck}
use quinkgl_framework.Transport.Sender.{
  Phase, polling, retrying, filling, finished, Sending, mark_sent, attempts_of, is_due, in_flight,
  window_size, packet, poll, retry, fill, advance, Event, tick, ack, nack,
}
use quinkgl_framework.Transport.Sender.Invariant.{attempts_of-mark_sent}

-- How many of some packets carry a chunk.
abbrev pub sends : ℕ → List (String × ModelChunk) → ℕ
sends i [] = 0
sends i (m ∷ ms) = if m.1.chunk_index == i then sends i ms + 1 else sends i ms

pub sends_both :
    (i : ℕ) (ms ns : List (String × ModelChunk)) → sends i (ms ++ ns) ≡ sends i ms + sends i ns
sends_both i [] ns = omega arith
sends_both i (m ∷ ms) ns = ground (arith, sends_both i ms ns)

-- How many requests name a chunk.
abbrev pub requests : ℕ → List Event → ℕ
requests i [] = 0
requests i (tick now ∷ es) = requests i es
requests i (ack peer_mid p ∷ es) = requests i es
requests i (nack indices ∷ es) = if contains indices i then requests i es + 1 else requests i es

pub apply_ack-attempts :
    (host : Host) (peer_mid : String) (p : ChunkAck) (t : OutgoingTransfer) (i : ℕ)
    → attempts_of (apply_ack host peer_mid p t) i ≡ attempts_of t i
unfolding apply_ack acknowledge
apply_ack-attempts host peer_mid p t i = ground arith

-- A request sets back only the attempts of the chunks that it names.
pub mark_due-attempts :
    (i : ℕ) (is : List ℕ) (t : OutgoingTransfer)
    → contains is i ≡ false
    → attempts_of (mark_due is t) i ≡ attempts_of t i
unfolding mark_due
mark_due-attempts i [] t absent = refl
mark_due-attempts i (j ∷ is) t absent =
    let u : OutgoingTransfer =
      (if not (contains t.acked j) && has j t.sent_at
        then record t { sent_at = insert j 0 t.sent_at; attempts = insert j 0 t.attempts }
        else t) in
    mark_due-attempts i is u (ground (arith, absent))
    ∙ if-elim (λ (v : OutgoingTransfer). attempts_of v i ≡ attempts_of t i)
        (not (contains t.acked j) && has j t.sent_at)
        (λ due. ground (arith, lookup-insert i j 0 t.attempts, absent)) (λ kept. refl)

module _ (host : Host) (node : Community) (i : ℕ) where
  -- What a step sends of a chunk is what it counts.
  abbrev IsCounted : OutgoingTransfer → Sending × List Effect → Type 0
  IsCounted t r = sends i (sent_chunks r.1) + attempts_of t i ≡ attempts_of r.0.transfer i

  nothing_sent : (n : ℕ) → sends i (sent_chunks []) + n ≡ n
  unfolding sent_chunks
  nothing_sent n = omega arith

  one_sent :
      (t : OutgoingTransfer) (now j : ℕ)
      → sends i (sent_chunks (packet host node t now j ∷ [])) + attempts_of t i
        ≡ attempts_of (mark_sent t j now) i
  unfolding sent_chunks send_model_chunk outgoing_chunk
  one_sent t now j = ground (arith, attempts_of-mark_sent j now i t)

  poll-IsCounted : (s : Sending) (now : ℕ) → IsCounted s.transfer (poll host node s now)
  unfolding poll
  poll-IsCounted s now =
      let n = attempts_of s.transfer i in
      if-elim (IsCounted s.transfer) s.transfer.completed (λ _. nothing_sent n)
        (λ _.
          if-elim (IsCounted s.transfer) (ltb chunk_transfer_timeout (now - s.transfer.created_at))
            (λ _. nothing_sent n) (λ _. nothing_sent n))

  retry-IsCounted :
      (s : Sending) (start j sent : ℕ) (rest : List (ℕ × ℕ)) (now : ℕ)
      → IsCounted s.transfer (retry host node s start (j, sent) rest now)
  unfolding retry
  retry-IsCounted s start j sent rest now =
      let t : OutgoingTransfer = s.transfer in
      if-elim (IsCounted t) (is_due t start j sent)
        (λ _.
          if-elim (IsCounted t) (leb chunk_max_send_attempts (attempts_of t j))
            (λ _. nothing_sent (attempts_of t i)) (λ _. one_sent t now j))
        (λ _. nothing_sent (attempts_of t i))

  fill-IsCounted : (s : Sending) (now : ℕ) → IsCounted s.transfer (fill host node s now)
  unfolding fill
  fill-IsCounted s now =
      let t : OutgoingTransfer = s.transfer in
      if-elim (IsCounted t)
        (ltb t.next_index t.total_chunks && ltb (in_flight t.acked now t.sent_at) (window_size t))
        (λ room. one_sent t now t.next_index)
        (λ full.
          if-elim (IsCounted t) (leb t.total_chunks (length t.acked))
            (λ _. nothing_sent (attempts_of t i)) (λ _. nothing_sent (attempts_of t i)))

  advance_at-IsCounted :
      (t : OutgoingTransfer) (p : Phase) (m : Metrics) (now : ℕ)
      → IsCounted t (advance host node (record { transfer = t; phase = p; metrics = m }) now)
  unfolding advance
  advance_at-IsCounted t polling m now =
      poll-IsCounted (record { transfer = t; phase = polling; metrics = m }) now
  advance_at-IsCounted t (retrying start []) m now = nothing_sent (attempts_of t i)
  advance_at-IsCounted t (retrying start ((j, sent) ∷ rest)) m now =
      retry-IsCounted
        (record { transfer = t; phase = retrying start ((j, sent) ∷ rest); metrics = m }) start j
        sent rest now
  advance_at-IsCounted t filling m now =
      fill-IsCounted (record { transfer = t; phase = filling; metrics = m }) now
  advance_at-IsCounted t (finished result) m now = nothing_sent (attempts_of t i)

  pub advance-sends :
      (s : Sending) (now : ℕ)
      → sends i (sent_chunks (advance host node s now).1) + attempts_of s.transfer i
        ≡ attempts_of (advance host node s now).0.transfer i
  advance-sends s now = advance_at-IsCounted s.transfer s.phase s.metrics now
