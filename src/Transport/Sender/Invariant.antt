-- ===== src/Transport/Sender/Invariant.antt =====
-- What the loop of a transfer sends, and how often.
use quinkgl_framework.Common.{
  ℕ, ◌+◌, ◌≤◌, ◌<◌, String, ◌≡◌, refl, ◌⊎◌, inl, inr, true, not, ◌&&◌, some, List, [], ◌∷◌, arith,
  if◌then◌else◌, Bool-cases, ◌==◌, contains, nat_eq, string_eq, pair_eq, All, Result-cases,
}
use quinkgl_framework.Common.Dict.{Dict, lookup, lookup-nil, insert, has, lookup-insert}
use quinkgl_framework.Transport.Words.{Bytes}
use quinkgl_framework.Transport.Limits.{chunk_max_send_attempts}
use quinkgl_framework.Transport.Ranges.{unpack_chunk_ranges}
use quinkgl_framework.Transport.Host.{Host}
use quinkgl_framework.Transport.Buffer.{chunk_total}
use quinkgl_framework.Transport.State.{CachedTransfer, OutgoingTransfer, ChunkAck}
use quinkgl_framework.Transport.Acks.{acknowledge, ack_matches, apply_ack}
use quinkgl_framework.Transport.Requests.{mark_due}
use quinkgl_framework.Transport.Sender.{
  Phase, polling, retrying, filling, finished, mark_sent, attempts_of, new_transfer,
}

-- The bookkeeping of a transfer: what was sent is below the next index, no chunk was tried more
-- often than the limit, and the rest of the retries are chunks that were sent.
pub record IsOrderly (weights : Bytes) (mid : String) (t : OutgoingTransfer) : Type 0 where
  pub bytes : t.weights_bytes ≡ weights
  pub recipient : t.recipient_mid ≡ mid
  pub total : t.total_chunks ≡ chunk_total weights
  pub next : t.next_index ≤ t.total_chunks
  pub sent : All (λ e. e.0 < t.next_index) t.sent_at
  pub tried : (i : ℕ) → attempts_of t i ≤ chunk_max_send_attempts
  pub untried : (i : ℕ) → t.next_index ≤ i → attempts_of t i ≡ 0

abbrev pub IsSnapshot : ℕ → Phase → Type 0
IsSnapshot next polling = Unit
IsSnapshot next (retrying start rest) = All (λ e. e.0 < next) rest
IsSnapshot next filling = Unit
IsSnapshot next (finished result) = Unit

-- An ACK is ignored, or it acknowledges some indices.
pub apply_ack_cases :
    (host : Host) (peer_mid : String) (p : ChunkAck) (t : OutgoingTransfer)
    → (apply_ack host peer_mid p t ≡ t)
      ⊎ ((acked : List ℕ) × (apply_ack host peer_mid p t ≡ acknowledge t acked))
unfolding apply_ack
apply_ack_cases host peer_mid p t = elim (Bool-cases (ack_matches host peer_mid p t)) [
  | inl fits ↦ elim (Result-cases (unpack_chunk_ranges p.sack_ranges (some t.total_chunks))) [
    | inl (acked, e) ↦ inr (acked, rw (fits, apply_ack) (rw (e, apply_ack)))
    | inr (_, e) ↦ inl (rw (fits, apply_ack) (rw (e, apply_ack)))
  ]
  | inr no_ ↦ inl (rw (no_, apply_ack))
]

acknowledge-IsOrderly :
    (acked : List ℕ) (weights : Bytes) (mid : String) (t : OutgoingTransfer)
    → IsOrderly weights mid t
    → IsOrderly weights mid (acknowledge t acked)
unfolding acknowledge
acknowledge-IsOrderly acked weights mid t v = record {
  bytes = v.bytes;
  recipient = v.recipient;
  total = v.total;
  next = v.next;
  sent = v.sent;
  tried = v.tried;
  untried = v.untried;
}

pub apply_ack-IsOrderly :
    (host : Host) (peer_mid : String) (p : ChunkAck) (weights : Bytes) (mid : String)
    (t : OutgoingTransfer)
    → IsOrderly weights mid t
    → IsOrderly weights mid (apply_ack host peer_mid p t)
apply_ack-IsOrderly host peer_mid p weights mid t v = elim (apply_ack_cases host peer_mid p t) [
  | inl e ↦ rw e v
  | inr (acked, e) ↦ rw e (acknowledge-IsOrderly acked weights mid t v)
]

All-insert :
    (b i v : ℕ) (d : Dict ℕ ℕ) → i < b → All (λ e. e.0 < b) d → All (λ e. e.0 < b) (insert i v d)
unfolding insert
All-insert b i v [] h a = (h, tt)
All-insert b i v ((j, w) ∷ d) h a = ground (arith, h, a.0, a.1, All-insert b i v d h a.1)

below_of_has : (b i : ℕ) (d : Dict ℕ ℕ) → All (λ e. e.0 < b) d → has i d ≡ true → i < b
unfolding lookup
below_of_has b i [] a h = absurd (ground (arith, h))
below_of_has b i ((j, w) ∷ d) a h = ground (arith, h, a.0, below_of_has b i d a.1)

pub mark_due-IsOrderly :
    (is : List ℕ) (weights : Bytes) (mid : String) (t : OutgoingTransfer)
    → IsOrderly weights mid t
    → IsOrderly weights mid (mark_due is t)
unfolding mark_due
mark_due-IsOrderly [] weights mid t v = v
mark_due-IsOrderly (i ∷ is) weights mid t v =
    elim (Bool-cases (not (contains t.acked i) && has i t.sent_at)) [
      | inl due ↦
          rw (due, mark_due) (mark_due-IsOrderly is weights mid _ (marked (ground (arith, due))))
      | inr no_ ↦ rw (no_, mark_due) (mark_due-IsOrderly is weights mid t v)
    ]
  where
    marked :
        has i t.sent_at ≡ true
        → IsOrderly weights mid
            (record t { sent_at = insert i 0 t.sent_at; attempts = insert i 0 t.attempts })
    marked h = record {
      bytes = v.bytes;
      recipient = v.recipient;
      total = v.total;
      next = v.next;
      sent =
          All-insert t.next_index i 0 t.sent_at (below_of_has t.next_index i t.sent_at v.sent h)
            v.sent;
      tried = λ j. ground (arith, lookup-insert j i 0 t.attempts, v.tried j);
      untried = λ j k. ground (arith, lookup-insert j i 0 t.attempts, v.untried j k);
    }

pub attempts_of-mark_sent :
    (i now j : ℕ) (t : OutgoingTransfer)
    → attempts_of (mark_sent t i now) j ≡ (if j == i then attempts_of t i + 1 else attempts_of t j)
unfolding mark_sent
attempts_of-mark_sent i now j t = ground (arith, lookup-insert j i (attempts_of t i + 1) t.attempts)

-- A chunk below `next` is sent, in a transfer with that next index.
pub mark_sent-IsOrderly :
    (i now next : ℕ) (weights : Bytes) (mid : String) (t : OutgoingTransfer)
    → IsOrderly weights mid t
    → attempts_of t i < chunk_max_send_attempts
    → i < next
    → t.next_index ≤ next
    → next ≤ t.total_chunks
    → IsOrderly weights mid (record (mark_sent t i now) { next_index = next })
mark_sent-IsOrderly i now next weights mid t v few h l u = record {
  bytes = unfold mark_sent in v.bytes;
  recipient = unfold mark_sent in v.recipient;
  total = unfold mark_sent in v.total;
  next = unfold mark_sent in u;
  sent = unfold mark_sent in All-insert next i now t.sent_at h (All-raise t.sent_at v.sent);
  tried = λ j. ground (arith, attempts_of-mark_sent i now j t, v.tried j, few);
  untried = λ j k. ground (arith, attempts_of-mark_sent i now j t, v.untried j);
}
  where
    All-raise : (d : Dict ℕ ℕ) → All (λ e. e.0 < t.next_index) d → All (λ e. e.0 < next) d
    All-raise [] a = tt
    All-raise (e ∷ d) a = (omega (arith, a.0), All-raise d a.1)

-- A chunk that was sent before is sent again.
pub mark_sent_again :
    (i now : ℕ) (weights : Bytes) (mid : String) (t : OutgoingTransfer)
    → IsOrderly weights mid t
    → attempts_of t i < chunk_max_send_attempts
    → i < t.next_index
    → IsOrderly weights mid (mark_sent t i now)
unfolding mark_sent
mark_sent_again i now weights mid t v few h =
    mark_sent-IsOrderly i now t.next_index weights mid t v few h (omega arith) v.next

-- A transfer that has just been registered is in order.
pub new_transfer-IsOrderly :
    (transfer_id target mid : String) (t : CachedTransfer) (now : ℕ)
    → IsOrderly t.weights mid (new_transfer transfer_id target mid t now)
unfolding new_transfer
new_transfer-IsOrderly transfer_id target mid t now = record {
  bytes = refl;
  recipient = refl;
  total = refl;
  next = omega arith;
  sent = tt;
  tried = λ j. ground (arith, lookup-nil {V = ℕ} j);
  untried = λ j k. ground (arith, lookup-nil {V = ℕ} j);
}
