-- ===== src/Transport/Receive/Safety.antt =====
-- What no chunk can do: touch another peer's transfer, or break the caps on buffers.
use quinkgl_framework.Common.{
  ℕ, ◌≤◌, ◌<◌, String, ◌≡◌, refl, sym, ap, subst, ◌∙◌, ◌≢◌, inl, inr, true, none, some, arith, ◌==◌,
  nat_eq, string_eq, pair_eq, length,
}
use quinkgl_framework.Common.Dict.{
  Dict, lookup, insert, erase, has, count_keys, NodupKeys, lookup-insert_ne, lookup-insert_cases,
  lookup-erase_ne, lookup-erase-some, insert-NodupKeys, erase-NodupKeys, length-insert,
  length-erase-le, count_keys-insert, count_keys-erase-le,
}
use quinkgl_framework.Transport.Limits.{max_concurrent_transfers_per_peer, max_total_transfers}
use quinkgl_framework.Transport.Host.{Host}
use quinkgl_framework.Transport.Buffer.{ChunkBuffer}
use quinkgl_framework.Transport.State.{Community, ModelChunk}
use quinkgl_framework.Transport.Admission.{buffer_key, capacity, peer_transfers}
use quinkgl_framework.Transport.Receive.{on_model_chunk}
use quinkgl_framework.Transport.Receive.Changes.{
  IsPending, Change, unchanged, removed, updated, opened, on_model_chunk-Change,
}

-- The buffers keep to the caps, have distinct keys, and none of them is complete.
pub record IsSound (s : Community) : Type 0 where
  pub peer_cap :
      (mid : String) → peer_transfers mid s.chunk_buffers ≤ max_concurrent_transfers_per_peer
  pub total_cap : length s.chunk_buffers ≤ max_total_transfers
  pub distinct_keys : NodupKeys s.chunk_buffers
  pub pending :
      (key : String × String) (b : ChunkBuffer) → lookup key s.chunk_buffers ≡ some b → IsPending b

capacity_free :
    (s : Community) (peer_mid : String) (p : ModelChunk)
    → capacity s peer_mid p ≡ none
    → (peer_transfers peer_mid s.chunk_buffers < max_concurrent_transfers_per_peer)
      × (length s.chunk_buffers < max_total_transfers)
unfolding capacity
capacity_free s peer_mid p h = (ground arith, ground arith)

peer_transfers-insert_old :
    (key : String × String) (b : ChunkBuffer) (d : Dict (String × String) ChunkBuffer)
    → has key d ≡ true
    → (mid : String) → peer_transfers mid (insert key b d) ≡ peer_transfers mid d
unfolding peer_transfers
peer_transfers-insert_old key b d h mid =
    ground (arith, count_keys-insert (λ k. k.0 == mid) key b d)

peer_transfers-insert_new :
    (key : String × String) (b : ChunkBuffer) (d : Dict (String × String) ChunkBuffer)
    → peer_transfers key.0 d < max_concurrent_transfers_per_peer
    → (mid : String) → peer_transfers mid d ≤ max_concurrent_transfers_per_peer
    → peer_transfers mid (insert key b d) ≤ max_concurrent_transfers_per_peer
unfolding peer_transfers
peer_transfers-insert_new key b d free mid h = elim (string_eq.dec key.0 mid) [
  | yes e ↦
      ground (
        arith,
        count_keys-insert (λ k. k.0 == mid) key b d,
        ap (λ m. count_keys (λ k. k.0 == m) d) e,
      )
  | no n ↦ ground (arith, count_keys-insert (λ k. k.0 == mid) key b d)
]

peer_transfers-erase :
    (key : String × String) (d : Dict (String × String) ChunkBuffer) (mid : String)
    → peer_transfers mid (erase key d) ≤ peer_transfers mid d
unfolding peer_transfers
peer_transfers-erase key d mid = count_keys-erase-le (λ k. k.0 == mid) key d

module _ (host : Host) (peer_mid : String) (p : ModelChunk) (now : ℕ) where
  key : String × String
  key = buffer_key peer_mid p

  Change-other :
      {s t : Community} (other : String × String)
      → other ≢ key
      → Change host peer_mid p now s t
      → lookup other t.chunk_buffers ≡ lookup other s.chunk_buffers
  unfolding key
  Change-other other h (unchanged e) = ap (lookup other) e
  Change-other {s} other h (removed e) =
      ap (lookup other) e ∙ lookup-erase_ne other _ s.chunk_buffers h
  Change-other {s} other h (updated b e _ _) =
      ap (lookup other) e ∙ lookup-insert_ne other _ b s.chunk_buffers h
  Change-other {s} other h (opened b e _ _) =
      ap (lookup other) e ∙ lookup-insert_ne other _ b s.chunk_buffers h

  -- If the buffers are sound (IsSound), a chunk leaves the buffer of every other peer and of
  -- every other transfer as it was.
  pub on_model_chunk-other :
      (s : Community) (other : String × String)
      → IsSound s
      → other ≢ (peer_mid, p.transfer_id)
      → lookup other (on_model_chunk host peer_mid p now s).0.chunk_buffers
        ≡ lookup other s.chunk_buffers
  unfolding key
  on_model_chunk-other s other v h =
      Change-other other h (on_model_chunk-Change host peer_mid p now s v.pending)

  written-IsSound :
      (s : Community) (b : ChunkBuffer) (d : Dict (String × String) ChunkBuffer)
      → d ≡ insert key b s.chunk_buffers
      → IsPending b
      → IsSound s
      → ((mid : String) → peer_transfers mid d ≤ max_concurrent_transfers_per_peer)
      → length d ≤ max_total_transfers
      → (t : Community) → t.chunk_buffers ≡ d
      → IsSound t
  unfolding key
  written-IsSound s b d e w v pc tc t et = record {
    peer_cap = λ mid.
        subst (λ x. peer_transfers mid x ≤ max_concurrent_transfers_per_peer) (sym et) (pc mid);
    total_cap = subst (λ x. length x ≤ max_total_transfers) (sym et) tc;
    distinct_keys =
        subst NodupKeys (sym (et ∙ e)) (insert-NodupKeys key b s.chunk_buffers v.distinct_keys);
    pending = λ k c h.
        elim (lookup-insert_cases k key b c s.chunk_buffers (ap (lookup k) (sym (et ∙ e)) ∙ h)) [
          | inl q ↦ subst IsPending q w
          | inr old ↦ v.pending k c old
        ];
  }

  Change-IsSound : {s t : Community} → IsSound s → Change host peer_mid p now s t → IsSound t
  unfolding key
  Change-IsSound {s} {t} v (unchanged e) = record {
    peer_cap = λ mid.
        subst (λ x. peer_transfers mid x ≤ max_concurrent_transfers_per_peer) (sym e)
          (v.peer_cap mid);
    total_cap = subst (λ x. length x ≤ max_total_transfers) (sym e) v.total_cap;
    distinct_keys = subst NodupKeys (sym e) v.distinct_keys;
    pending = λ k c h. v.pending k c (ap (lookup k) (sym e) ∙ h);
  }
  Change-IsSound {s} {t} v (removed e) = record {
    peer_cap = λ mid.
        subst (λ x. peer_transfers mid x ≤ max_concurrent_transfers_per_peer) (sym e)
          (omega (arith, peer_transfers-erase key s.chunk_buffers mid, v.peer_cap mid));
    total_cap =
        subst (λ x. length x ≤ max_total_transfers) (sym e)
          (omega (arith, length-erase-le key s.chunk_buffers, v.total_cap));
    distinct_keys = subst NodupKeys (sym e) (erase-NodupKeys key s.chunk_buffers v.distinct_keys);
    pending = λ k c h.
        v.pending k c (lookup-erase-some k key c s.chunk_buffers (ap (lookup k) (sym e) ∙ h));
  }
  Change-IsSound {s} {t} v (updated b e old w) =
      written-IsSound s b (insert key b s.chunk_buffers) refl w v
        (λ mid.
          omega (arith, peer_transfers-insert_old key b s.chunk_buffers old mid, v.peer_cap mid))
        (ground (arith, length-insert key b s.chunk_buffers, v.total_cap)) t e
  Change-IsSound {s} {t} v (opened b e free w) =
      written-IsSound s b (insert key b s.chunk_buffers) refl w v
        (λ mid.
          peer_transfers-insert_new key b s.chunk_buffers (capacity_free s peer_mid p free).0 mid
            (v.peer_cap mid))
        (ground (arith, length-insert key b s.chunk_buffers, (capacity_free s peer_mid p free).1)) t
        e

  -- If before a chunk the caps on buffers per peer and in total hold, the keys are distinct, and
  -- each buffer lacks a chunk, then so it is after the chunk, whatever it is and whoever sends
  -- it.
  pub on_model_chunk-IsSound :
      (s : Community) → IsSound s → IsSound (on_model_chunk host peer_mid p now s).0
  on_model_chunk-IsSound s v =
      Change-IsSound v (on_model_chunk-Change host peer_mid p now s v.pending)
