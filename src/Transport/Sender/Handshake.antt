-- ===== src/Transport/Sender/Handshake.antt =====
-- The receiver's ACK and the sender's loop together.
use quinkgl_framework.Common.{
  ℕ, zero, suc, ◌+◌, ◌≤◌, ◌<◌, String, ◌≡◌, refl, sym, subst, true, false, some, List, [], ◌∷◌,
  arith, ℕ_discrete, contains, nat_eq, string_eq, pair_eq, length, All, ok,
}
use quinkgl_framework.Transport.Words.{Bytes, word_limit}
use quinkgl_framework.Transport.IndexSet.{
  AscFrom, union, set_of, contains-set_of, contains-union, union-AscFrom,
}
use quinkgl_framework.Transport.Ranges.{unpack_chunk_ranges}
use quinkgl_framework.Transport.Ranges.RoundTrip.{unpack-pack}
use quinkgl_framework.Transport.Host.{Host}
use quinkgl_framework.Transport.Signing.{chunk_sign_data, chunk_sign, chunk_verify}
use quinkgl_framework.Transport.State.{Community, OutgoingTransfer, ChunkAck, send_ack, signed_ack}
use quinkgl_framework.Transport.Replies.{send_chunk_ack_ranges}
use quinkgl_framework.Transport.Acks.{acknowledge, is_forged, ack_matches, apply_ack}

-- An ascending list that has every number between two bounds is as long as the gap.
length-full :
    (n lo : ℕ) (s : List ℕ)
    → AscFrom lo s
    → ((i : ℕ) → lo ≤ i → i < lo + n → contains s i ≡ true)
    → n ≤ length s
length-full zero lo s a h = omega arith
length-full (suc n) lo [] a h =
    absurd (let f = h lo (omega arith) (omega arith) in ground (arith, f))
length-full (suc n) lo (j ∷ s) a h = elim (ℕ_discrete lo j) [
  | yes e ↦ omega (
    arith,
    length-full n (suc lo) s (subst (λ x. AscFrom (suc x) s) (sym e) a.1)
        (λ i l u. let f = h i (omega arith) (omega arith) in ground (arith, f)),
  )
  | no d ↦
      absurd
        (let f = h lo (omega arith) (omega arith) in ground (arith, f, absent lo (suc j) s a.1))
]
  where
    absent : (i b : ℕ) (s : List ℕ) → AscFrom b s → i < b → contains s i ≡ false
    absent i b [] a l = refl
    absent i b (k ∷ s) a l = ground (arith, absent i (suc k) s a.1)

acknowledge_all :
    (t : OutgoingTransfer) (indices : List ℕ)
    → AscFrom 0 t.acked
    → ((i : ℕ) → i < t.total_chunks → contains indices i ≡ true)
    → (acknowledge t (set_of indices)).completed ≡ true
unfolding acknowledge
acknowledge_all t indices a all =
    let full : t.total_chunks ≤ length (union t.acked (set_of indices)) =
      length-full t.total_chunks 0 (union t.acked (set_of indices))
        (union-AscFrom t.acked (set_of indices) a)
        (λ i l u. ground (
          arith,
          contains-union i t.acked (set_of indices),
          contains-set_of i indices,
          all i (omega arith),
        )) in
    ground (arith, full)

-- The host of the receiver is that of the sender, but for its own key.
abbrev pub receiver_host : Host → (Bytes → Bytes) → Host
receiver_host host sign = record host { sign = sign }

is_forged-genuine :
    (host : Host) (mid : String) (p : ChunkAck)
    → host.verify mid p.signature (
        chunk_sign_data host
          (signed_ack p.sender_id p.round_number p.data_schema_hash p.total_chunks p.sack_ranges))
      ≡ true
    → is_forged host mid p ≡ false
unfolding is_forged chunk_verify
is_forged-genuine host mid p h = ground (arith, h)

module _ (host : Host) (sign : Bytes → Bytes) (receiver : Community) (sender_mid : String)
    (t : OutgoingTransfer) (schema : String) (round : ℕ) where
  -- The ACK that the receiver makes of some packed ranges.
  abbrev pub ack_of : Bytes → ChunkAck
  ack_of ranges = record {
    transfer_id = t.transfer_id;
    sender_id = receiver.node_id;
    data_schema_hash = schema;
    round_number = round;
    total_chunks = t.total_chunks;
    sack_ranges = ranges;
    signature =
        chunk_sign (receiver_host host sign)
          (signed_ack receiver.node_id round schema t.total_chunks ranges);
  }

  ack_of-genuine :
      ((text : Bytes) → host.verify t.recipient_mid (sign text) text ≡ true)
      → (ranges : Bytes) → is_forged host t.recipient_mid (ack_of ranges) ≡ false
  unfolding chunk_sign chunk_sign_data
  ack_of-genuine key ranges = is_forged-genuine host t.recipient_mid (ack_of ranges) (key _)

  ack_of-matches :
      (ranges : Bytes)
      → is_forged host t.recipient_mid (ack_of ranges) ≡ false
      → receiver.node_id ≡ t.target_node_id
      → ack_matches host t.recipient_mid (ack_of ranges) t ≡ true
  unfolding ack_matches
  ack_of-matches ranges f id = ground (arith, f, id)

  apply_ack-matched :
      (p : ChunkAck) (acked : List ℕ)
      → ack_matches host t.recipient_mid p t ≡ true
      → unpack_chunk_ranges p.sack_ranges (some t.total_chunks) ≡ ok acked
      → apply_ack host t.recipient_mid p t ≡ acknowledge t acked
  unfolding apply_ack
  apply_ack-matched p acked fits e = rw (fits, apply_ack) (rw (e, apply_ack))

  -- The ACK that a receiver sends when it has every chunk of a transfer completes the transfer
  -- at the sender. The receiver must be the target, its signatures must verify, its indices be
  -- in range, the ACKs so far ascend, and the number of chunks fit 32 bits.
  pub receiver_ack-completes :
      (indices : List ℕ)
      → ((text : Bytes) → host.verify t.recipient_mid (sign text) text ≡ true)
      → receiver.node_id ≡ t.target_node_id
      → AscFrom 0 t.acked
      → t.total_chunks ≤ word_limit
      → All (λ i. i < t.total_chunks) indices
      → ((i : ℕ) → i < t.total_chunks → contains indices i ≡ true)
      → (p : ChunkAck) × (send_chunk_ack_ranges
            (receiver_host host sign)
            receiver
            sender_mid
            t.transfer_id
            schema
            round
            t.total_chunks
            indices
          ≡ send_ack sender_mid p ∷ [])
        × ((apply_ack host t.recipient_mid p t).completed ≡ true)
  unfolding send_chunk_ack_ranges
  receiver_ack-completes indices key id asc fits known all =
      let u = unpack-pack t.total_chunks indices fits known in
      (
        ack_of u.0,
        rw (u.1, send_chunk_ack_ranges),
        rw
            (apply_ack-matched (ack_of u.0) (set_of indices)
              (ack_of-matches u.0 (ack_of-genuine key u.0) id) u.2)
            (acknowledge_all t indices asc all),
      )
