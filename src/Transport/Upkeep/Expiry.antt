-- ===== src/Transport/Upkeep/Expiry.antt =====
-- What the periodic tasks delete, and what they leave.
use quinkgl_framework.Common.{
  ℕ, ◌≤◌, String, ◌≡◌, Bool, not, ◌&&◌, Option, none, List, [], ◌∷◌, arith, if◌then◌else◌, Eq, ◌==◌,
  nat_eq, string_eq, pair_eq, length, keep,
}
use quinkgl_framework.Common.Dict.{
  Dict, lookup, erase, has, keys, NodupKeys, length-erase-le, count_keys-erase-le,
}
use quinkgl_framework.Common.Purge.{
  erase_all, keys_where, passes, lookup-erase_all, erase_all-NodupKeys, lookup-purge, contains-keys,
  contains-keep,
}
use quinkgl_framework.Transport.Buffer.{ChunkBuffer, is_expired}
use quinkgl_framework.Transport.State.{Community}
use quinkgl_framework.Transport.Admission.{peer_transfers}
use quinkgl_framework.Transport.Receive.Safety.{IsSound}
use quinkgl_framework.Transport.Upkeep.{
  is_older, completed_transfer_ttl, recent_chunk_ttl, cleanup_stale_transfers,
  cleanup_outgoing_cache,
}

-- What is left of an entry when the entries that pass a test are deleted.
abbrev pub survivor {ℓ} : {V : Type ℓ} → (V → Bool) → Option V → Option V
survivor p o = if passes p o then none else o

-- In dicts with distinct keys, the clean-up of transfers deletes exactly the buffers that have
-- expired, the completed transfers of more than ten minutes ago, and the chunks that were
-- received more than two minutes ago.
pub cleanup_stale_transfers-exact :
    (s : Community) (now : ℕ) (key : String × String) (chunk : String × (String × ℕ))
    → NodupKeys s.chunk_buffers
    → NodupKeys s.completed_chunk_transfers
    → NodupKeys s.recent_chunks
    → let t = cleanup_stale_transfers s now in
      (lookup key t.chunk_buffers ≡ survivor (λ b. is_expired b now) (lookup key s.chunk_buffers))
      × (lookup key t.completed_chunk_transfers
          ≡ survivor (is_older completed_transfer_ttl now) (lookup key s.completed_chunk_transfers))
      × (lookup chunk t.recent_chunks
          ≡ survivor (is_older recent_chunk_ttl now) (lookup chunk s.recent_chunks))
unfolding cleanup_stale_transfers
cleanup_stale_transfers-exact s now key chunk ub uc ur = (
  lookup-purge (λ b. is_expired b now) key s.chunk_buffers ub,
  lookup-purge (is_older completed_transfer_ttl now) key s.completed_chunk_transfers uc,
  lookup-purge (is_older recent_chunk_ttl now) chunk s.recent_chunks ur,
)

length-erase_all-le {ℓ κ} :
    {K : Type ℓ} {V : Type κ} ⦃e : Eq K⦄ (ks : List K) (d : Dict K V)
    → length (erase_all ks d) ≤ length d
unfolding erase_all
length-erase_all-le [] d = omega arith
length-erase_all-le (k ∷ ks) d =
    omega (arith, length-erase_all-le ks (erase k d), length-erase-le k d)

peer_transfers-erase_all-le :
    (mid : String) (ks : List (String × String)) (d : Dict (String × String) ChunkBuffer)
    → peer_transfers mid (erase_all ks d) ≤ peer_transfers mid d
unfolding erase_all peer_transfers
peer_transfers-erase_all-le mid [] d = omega arith
peer_transfers-erase_all-le mid (k ∷ ks) d = omega (
  arith,
  peer_transfers-erase_all-le mid ks (erase k d),
  count_keys-erase-le (λ key. key.0 == mid) k d,
)

-- If the buffers are sound (IsSound), they are so after the clean-up of transfers.
pub cleanup_stale_transfers-IsSound :
    (s : Community) (now : ℕ) → IsSound s → IsSound (cleanup_stale_transfers s now)
unfolding cleanup_stale_transfers
cleanup_stale_transfers-IsSound s now v = record {
  peer_cap =
      λ mid. omega (arith, peer_transfers-erase_all-le mid stale s.chunk_buffers, v.peer_cap mid);
  total_cap = omega (arith, length-erase_all-le stale s.chunk_buffers, v.total_cap);
  distinct_keys = erase_all-NodupKeys stale s.chunk_buffers v.distinct_keys;
  pending =
      λ key b h. v.pending key b (ground (arith, h, lookup-erase_all key stale s.chunk_buffers));
}
  where
    stale : List (String × String)
    stale = keys_where (λ b. is_expired b now) s.chunk_buffers

has-orphan_free {κ} :
    {V : Type κ} (p : String → Bool) (k : String) (d : Dict String V)
    → has k (erase_all (keep (λ i. not (p i)) (keys d)) d) ≡ (has k d && p k)
has-orphan_free p k d = ground (
  arith,
  lookup-erase_all k (keep (λ i. not (p i)) (keys d)) d,
  contains-keep (λ i. not (p i)) k (keys d),
  contains-keys k d,
)

-- The clean-up of the outgoing cache keeps, of the transfers that are being sent and of the rate
-- limits of transfers, exactly those whose transfer is still in the cache.
pub cleanup_outgoing_cache-no_orphans :
    (s : Community) (now : ℕ) (tid : String)
    → let t = cleanup_outgoing_cache s now in
      (has tid t.active_outgoing_transfers
        ≡ (has tid s.active_outgoing_transfers && has tid t.outgoing_transfers))
      × (has tid t.nack_transfer_buckets
          ≡ (has tid s.nack_transfer_buckets && has tid t.outgoing_transfers))
unfolding cleanup_outgoing_cache
cleanup_outgoing_cache-no_orphans s now tid =
    let outgoing = (cleanup_outgoing_cache s now).outgoing_transfers in
    (
      has-orphan_free (λ i. has i outgoing) tid s.active_outgoing_transfers,
      has-orphan_free (λ i. has i outgoing) tid s.nack_transfer_buckets,
    )
