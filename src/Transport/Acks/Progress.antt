-- ===== src/Transport/Acks/Progress.antt =====
-- What ACKs can make of a transfer, and what its completion means.
use quinkgl_framework.Common.{
  ℕ, suc, ◌+◌, ◌≤◌, ◌<◌, String, ◌≡◌, subst, inl, inr, true, some, List, [], ◌∷◌, arith, ℕ_discrete,
  Bool-cases, Option-cases, contains, nat_eq, string_eq, pair_eq, length, All, Result-cases, ok,
  err,
}
use quinkgl_framework.Common.Dict.{lookup, lookup-insert_cases}
use quinkgl_framework.Transport.IndexSet.{
  AscFrom, union-AscFrom, union-All, length-union-le, length-le-of_AscFrom,
}
use quinkgl_framework.Transport.Ranges.{RangeError, unpack_chunk_ranges}
use quinkgl_framework.Transport.Ranges.Bounds.{unpack_in_range}
use quinkgl_framework.Transport.Host.{Host}
use quinkgl_framework.Transport.State.{Community, OutgoingTransfer, ChunkAck}
use quinkgl_framework.Transport.Acks.{acknowledge, ack_matches, apply_ack, on_chunk_ack}

-- The acknowledged indices are chunks of the transfer, each once, and completion means all.
pub record IsTracked (t : OutgoingTransfer) : Type 0 where
  pub ascending : AscFrom 0 t.acked
  pub in_range : All (λ i. i < t.total_chunks) t.acked
  pub complete : t.completed ≡ true → t.total_chunks ≤ length t.acked

-- An ascending list that fills its bounds has every number between them.
contains-full :
    (lo b i : ℕ) (s : List ℕ)
    → AscFrom lo s
    → All (λ j. j < b) s
    → b ≤ length s + lo
    → lo ≤ i
    → i < b
    → contains s i ≡ true
contains-full lo b i [] a c h l k = absurd (omega arith)
contains-full lo b i (j ∷ s) a c h l k = elim (ℕ_discrete i j) [
  | yes e ↦ ground arith
  | no n ↦
      let room : (j ≤ j) × AscFrom (suc j) s = (omega arith, a.1) in
      ground (arith, length-le-of_AscFrom j b (j ∷ s) room c, contains-full (suc j) b i s a.1 c.1)
]

acknowledge-IsTracked :
    (t : OutgoingTransfer) (s : List ℕ)
    → IsTracked t
    → All (λ i. i < t.total_chunks) s
    → IsTracked (acknowledge t s)
unfolding acknowledge
acknowledge-IsTracked t s v h = record {
  ascending = union-AscFrom t.acked s v.ascending;
  in_range = union-All t.total_chunks t.acked s v.in_range h;
  complete = λ e. ground (arith, length-union-le t.acked s);
}

module _ (host : Host) (peer_mid : String) (p : ChunkAck) where
  apply_ack-accepted :
      (t : OutgoingTransfer) (s : List ℕ)
      → ack_matches host peer_mid p t ≡ true
      → unpack_chunk_ranges p.sack_ranges (some t.total_chunks) ≡ ok s
      → apply_ack host peer_mid p t ≡ acknowledge t s
  unfolding apply_ack
  apply_ack-accepted t s fits e = rw (fits, apply_ack) (rw (e, apply_ack))

  apply_ack-refused :
      (t : OutgoingTransfer) {e : RangeError}
      → unpack_chunk_ranges p.sack_ranges (some t.total_chunks) ≡ err e
      → apply_ack host peer_mid p t ≡ t
  unfolding apply_ack
  apply_ack-refused t e = ground arith

  apply_ack-IsTracked :
      (t : OutgoingTransfer) → IsTracked t → IsTracked (apply_ack host peer_mid p t)
  apply_ack-IsTracked t v = elim (Bool-cases (ack_matches host peer_mid p t)) [
    | inl fits ↦ elim (Result-cases (unpack_chunk_ranges p.sack_ranges (some t.total_chunks))) [
      | inl (s, e) ↦
          rw (apply_ack-accepted t s fits e)
            (acknowledge-IsTracked t s v (unpack_in_range t.total_chunks p.sack_ranges s e).1)
      | inr (_, e) ↦ rw (apply_ack-refused t e) v
    ]
    | inr wrong ↦ unfold apply_ack in rw (wrong, apply_ack) v
  ]

-- Every transfer that is being sent keeps its record of ACKs.
abbrev pub AllTracked : Community → Type 0
AllTracked s =
    (key : String) (t : OutgoingTransfer)
    → lookup key s.active_outgoing_transfers ≡ some t
    → IsTracked t

on_chunk_ack-AllTracked :
    (host : Host) (peer_mid : String) (p : ChunkAck) (s : Community)
    → AllTracked s
    → AllTracked (on_chunk_ack host peer_mid p s)
unfolding on_chunk_ack
on_chunk_ack-AllTracked host peer_mid p s v =
    elim (Option-cases (lookup p.transfer_id s.active_outgoing_transfers)) [
      | inl e ↦ rw (e, on_chunk_ack) v
      | inr (t, e) ↦
          rw (e, on_chunk_ack)
            λ key u h.
              elim (lookup-insert_cases key p.transfer_id (apply_ack host peer_mid p t) u
                s.active_outgoing_transfers h) [
                  | inl q ↦
                      subst IsTracked q
                        (apply_ack-IsTracked host peer_mid p t (v p.transfer_id t e))
                  | inr old ↦ v key u old
                ]
    ]

-- ACKs that arrive, each with the peer that sent it.
unfoldable pub on_acks : Host → List (String × ChunkAck) → Community → Community
on_acks host [] s = s
on_acks host ((peer_mid, p) ∷ acks) s = on_acks host acks (on_chunk_ack host peer_mid p s)

on_acks-AllTracked :
    (host : Host) (acks : List (String × ChunkAck)) (s : Community)
    → AllTracked s
    → AllTracked (on_acks host acks s)
unfolding on_acks
on_acks-AllTracked host [] s v = v
on_acks-AllTracked host ((peer_mid, p) ∷ acks) s v =
    on_acks-AllTracked host acks (on_chunk_ack host peer_mid p s)
      (on_chunk_ack-AllTracked host peer_mid p s v)

-- If every transfer that is being sent starts with a true record of its ACKs (IsTracked), then
-- after any ACKs from any peers a transfer counts as completed only if each of its chunks has
-- been acknowledged.
pub completed_means_acked :
    (host : Host) (acks : List (String × ChunkAck)) (s : Community) (key : String)
    (t : OutgoingTransfer)
    → AllTracked s
    → lookup key (on_acks host acks s).active_outgoing_transfers ≡ some t
    → t.completed ≡ true
    → (i : ℕ) → i < t.total_chunks
    → contains t.acked i ≡ true
completed_means_acked host acks s key t v e done i h =
    let w = on_acks-AllTracked host acks s v key t e in
    contains-full 0 t.total_chunks i t.acked w.ascending w.in_range (omega (arith, w.complete done))
      (omega arith) h
