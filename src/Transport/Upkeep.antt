-- ===== src/Transport/Upkeep.antt =====
-- The periodic tasks of src/quinkgl/network/gossip_community.py: `_cleanup_stale_peers`,
-- `_cleanup_stale_transfers`, `_cleanup_outgoing_cache` and `_nack_incomplete_buffers`. A pause for
-- the callback of a peer that left is not modelled.
pub mod Expiry
pub mod Nagging
use quinkgl_framework.Common.{
  ℕ, ◌+◌, ◌-◌, ◌*◌, String, Bool, true, false, not, ◌||◌, none, some, List, [], ◌∷◌, ◌++◌, ltb,
  if◌then◌else◌, ◌==◌, nat_eq, string_eq, pair_eq, length, keep,
}
use quinkgl_framework.Common.Dict.{Dict, lookup, insert, erase, has, keys, values}
use quinkgl_framework.Common.Purge.{erase_all, keys_where}
use quinkgl_framework.Transport.Limits.{outgoing_transfer_cache_ttl, early_nack_age_threshold}
use quinkgl_framework.Transport.Host.{Host}
use quinkgl_framework.Transport.Buffer.{ChunkBuffer, is_complete, is_expired}
use quinkgl_framework.Transport.Bucket.{Bucket, nack_try_consume, nack_try_consume_transfer}
use quinkgl_framework.Transport.State.{Community, Metrics, PeerInfo, CachedTransfer, Effect}
use quinkgl_framework.Transport.Replies.{missing_chunks, send_missing_chunks_report}

abbrev pub stale_timeout : ℕ
stale_timeout = 300000

abbrev pub completed_transfer_ttl : ℕ
completed_transfer_ttl = 600000

abbrev pub recent_chunk_ttl : ℕ
recent_chunk_ttl = 120000

abbrev pub is_stale : ℕ → PeerInfo → Bool
is_stale now info = ltb stale_timeout (now - info.last_seen)

abbrev pub is_older : ℕ → ℕ → ℕ → Bool
is_older ttl now stamp = ltb ttl (now - stamp)

-- The mids of peers, where they are known.
unfoldable pub mids_of : List String → Dict String PeerInfo → List String
mids_of [] d = []
mids_of (node_id ∷ ids) d =
    let rest = mids_of ids d in
    elim (lookup node_id d) [ none ↦ rest | some info ↦ info.peer_mid ∷ rest ]

-- The new state, and the peers that the callback is told of.
unfoldable pub cleanup_stale_peers : Community → ℕ → Community × List String
unfolding mids_of
cleanup_stale_peers s now =
    let stale = keys_where (is_stale now) s.known_peers in
    (
      record s {
        known_peers = erase_all stale s.known_peers;
        mid_to_node_id = erase_all (mids_of stale s.known_peers) s.mid_to_node_id;
      },
      stale,
    )

abbrev count_timeouts : ℕ → Metrics → Metrics
count_timeouts n m = record m {
  chunk_transfers_failed_timeout = m.chunk_transfers_failed_timeout + n;
}

unfoldable pub cleanup_stale_transfers : Community → ℕ → Community
cleanup_stale_transfers s now =
    let stale = keys_where (λ b. is_expired b now) s.chunk_buffers in
    record s {
      chunk_buffers = erase_all stale s.chunk_buffers;
      metrics = count_timeouts (length stale) s.metrics;
      completed_chunk_transfers =
          erase_all (keys_where (is_older completed_transfer_ttl now) s.completed_chunk_transfers)
            s.completed_chunk_transfers;
      recent_chunks =
          erase_all (keys_where (is_older recent_chunk_ttl now) s.recent_chunks) s.recent_chunks;
    }

-- A cached transfer's timestamp is in seconds.
abbrev pub is_outdated : ℕ → CachedTransfer → Bool
is_outdated now t = is_older outgoing_transfer_cache_ttl now (t.timestamp * 1000)

-- The cache, and what belongs to transfers that are no longer in it.
unfoldable pub cleanup_outgoing_cache : Community → ℕ → Community
cleanup_outgoing_cache s now =
    let outgoing =
      erase_all (keys_where (is_outdated now) s.outgoing_transfers) s.outgoing_transfers in
    record s {
      outgoing_transfers = outgoing;
      nack_transfer_buckets =
          erase_all (keep (λ tid. not (has tid outgoing)) (keys s.nack_transfer_buckets))
            s.nack_transfer_buckets;
      inflight_transfers =
          erase_all (keys_where (λ tid. not (has tid outgoing)) s.inflight_transfers)
            s.inflight_transfers;
      active_outgoing_transfers =
          erase_all (keep (λ tid. not (has tid outgoing)) (keys s.active_outgoing_transfers))
            s.active_outgoing_transfers;
    }

-- The first known peer with a mid.
unfoldable pub knows_mid : String → List PeerInfo → Bool
knows_mid peer_mid [] = false
knows_mid peer_mid (info ∷ infos) = (info.peer_mid == peer_mid) || knows_mid peer_mid infos

abbrev ignore_nack : Metrics → Metrics
ignore_nack m = record m { nacks_ignored_budget = m.nacks_ignored_budget + 1 }

-- Too young, or nothing is missing.
unfoldable pub needs_no_nack : ChunkBuffer → ℕ → Bool
needs_no_nack b now =
    ltb (now - b.created_at) early_nack_age_threshold
    || (is_complete b || elim (missing_chunks b) [ [] ↦ true | _ ∷ _ ↦ false ])

module _ (host : Host) (now : ℕ) where
  -- A request for a buffer, within the rates of its transfer and of its peer.
  unfoldable pub nack_buffer : Community → String × String → ChunkBuffer → Community × List Effect
  unfolding needs_no_nack knows_mid
  nack_buffer s (peer_mid, transfer_id) b =
      let (transfer_buckets, transfer_ok) =
        nack_try_consume_transfer s.nack_transfer_buckets transfer_id now in
      let (buckets, peer_ok) = nack_try_consume s.nack_buckets peer_mid now in
      let s' : Community = record s { nack_transfer_buckets = transfer_buckets } in
      let s'' : Community = record s' { nack_buckets = buckets } in
      if needs_no_nack b now
      then (s, [])
      else (if transfer_ok
          then (if peer_ok
              then (if knows_mid peer_mid (values s.known_peers)
                  then (let (b', metrics, effects) =
                        send_missing_chunks_report host s'' peer_mid b now in
                      (
                        record s'' {
                          chunk_buffers = insert (peer_mid, transfer_id) b' s.chunk_buffers;
                          metrics = metrics;
                        },
                        effects,
                      ))
                  else (s'', []))
              else (record s'' { metrics = ignore_nack s.metrics }, []))
          else (record s' { metrics = ignore_nack s.metrics }, []))

  unfoldable pub nack_buffers :
      Dict (String × String) ChunkBuffer → Community → Community × List Effect
  unfolding nack_buffer
  nack_buffers [] s = (s, [])
  nack_buffers ((key, b) ∷ d) s =
      let (s', effects) = nack_buffer s key b in
      let (s'', more) = nack_buffers d s' in (s'', effects ++ more)

  unfoldable pub nack_incomplete_buffers : Community → Community × List Effect
  unfolding nack_buffers
  nack_incomplete_buffers s = nack_buffers s.chunk_buffers s
