-- ===== src/Transport/Receive/Once.antt =====
-- A transfer is handed over at most once.
use quinkgl_framework.Common.{
  ℕ, ◌+◌, String, ◌≡◌, refl, ◌≢◌, ◌⊎◌, inl, inr, true, List, [], arith, ltb, Bool-cases,
  Option-cases, nat_eq, string_eq, pair_eq,
}
use quinkgl_framework.Common.Dict.{lookup, insert, has, lookup-insert_self}
use quinkgl_framework.Transport.Limits.{max_chunks_per_transfer}
use quinkgl_framework.Transport.Host.{Host}
use quinkgl_framework.Transport.Buffer.{ChunkBuffer, add_chunk}
use quinkgl_framework.Transport.State.{Community, ModelChunk, Effect}
use quinkgl_framework.Transport.Admission.{
  buffer_key, chunk_key, authenticate, capacity, touch_sender, new_buffer,
}
use quinkgl_framework.Transport.Receive.{
  accept_model, finish_transfer, store_chunk, buffer_chunk, check_chunk, repeat_chunk,
  count_started, on_model_chunk,
}
use quinkgl_framework.Transport.Receive.Deliveries.{
  deliveries, acknowledged, deliveries-store_chunk, deliveries-store_chunk_more, store_chunk-state,
  no_deliveries-acks, no_deliveries-completion,
}

module _ (host : Host) (peer_mid : String) (p : ModelChunk) (now : ℕ) where
  -- The transfer is marked as completed, or nothing was handed over.
  abbrev Marks : Community × List Effect → Type 0
  Marks r =
      (has (buffer_key peer_mid p) r.0.completed_chunk_transfers ≡ true) ⊎ (deliveries r.1 ≡ [])

  finish_transfer-Marks :
      (s : Community) (b : ChunkBuffer) → Marks (finish_transfer host peer_mid p now s b)
  unfolding finish_transfer accept_model deliveries
  finish_transfer-Marks s b =
      ground (arith, lookup-insert_self (buffer_key peer_mid p) now s.completed_chunk_transfers)

  store_chunk-Marks :
      (s : Community) (b : ChunkBuffer) → Marks (store_chunk host peer_mid p now s b)
  store_chunk-Marks s b = elim (Bool-cases (add_chunk b p.chunk_index p.chunk_data).1) [
    | inl done ↦
        rw
          (
            deliveries-store_chunk host peer_mid p now s b done,
            store_chunk-state host peer_mid p now s b done,
          )
          (finish_transfer-Marks (touch_sender s p now).0 (acknowledged host peer_mid p now s b))
    | inr more ↦ inr (deliveries-store_chunk_more host peer_mid p now s b more)
  ]

  buffer_chunk-Marks : (s : Community) → Marks (buffer_chunk host peer_mid p now s)
  unfolding buffer_chunk deliveries
  buffer_chunk-Marks s = elim (Option-cases (lookup (buffer_key peer_mid p) s.chunk_buffers)) [
    | inl e ↦ elim (Option-cases (capacity s peer_mid p)) [
      | inl free ↦
          rw (e, free, buffer_chunk)
            (store_chunk-Marks (record s { metrics = count_started s.metrics }) (new_buffer p now))
      | inr (r, full) ↦ rw (e, full, buffer_chunk) (inr refl)
    ]
    | inr (b, e) ↦ rw (e, buffer_chunk) (store_chunk-Marks s b)
  ]

  check_chunk-Marks : (s : Community) → Marks (check_chunk host peer_mid p now s)
  unfolding check_chunk deliveries
  check_chunk-Marks s = elim (Bool-cases (ltb max_chunks_per_transfer p.total_chunks)) [
    | inl large ↦ rw (large, check_chunk) (inr refl)
    | inr fits ↦ elim (Bool-cases (ltb (s.local_round + s.max_round_skip) p.round_number)) [
      | inl future ↦ rw (fits, future, check_chunk) (inr refl)
      | inr timely ↦ rw (fits, timely, check_chunk) (buffer_chunk-Marks s)
    ]
  ]

  no_deliveries-repeat : (s : Community) → deliveries (repeat_chunk host peer_mid p now s).1 ≡ []
  unfolding repeat_chunk deliveries
  no_deliveries-repeat s = elim (Option-cases (lookup (buffer_key peer_mid p) s.chunk_buffers)) [
    | inl e ↦ rw (e, repeat_chunk)
    | inr (b, e) ↦ elim (Bool-cases (has p.chunk_index b.chunks)) [
      | inl old ↦ rw (e, repeat_chunk) (rw old (no_deliveries-acks host peer_mid p now s b true))
      | inr new ↦ rw (e, repeat_chunk) (rw new refl)
    ]
  ]

  on_model_chunk-Marks : (s : Community) → Marks (on_model_chunk host peer_mid p now s)
  unfolding on_model_chunk deliveries
  on_model_chunk-Marks s = elim (Option-cases (authenticate host s peer_mid p)) [
    | inl e ↦ elim (Bool-cases (has (buffer_key peer_mid p) s.completed_chunk_transfers)) [
      | inl done ↦ inl (rw (e, done, on_model_chunk) done)
      | inr open_ ↦ elim (Bool-cases (has (chunk_key peer_mid p) s.recent_chunks)) [
        | inl old ↦ inr (rw (e, open_, old, on_model_chunk) (no_deliveries-repeat s))
        | inr new ↦
            rw (e, open_, new, on_model_chunk)
              (check_chunk-Marks
                (record s { recent_chunks = insert (chunk_key peer_mid p) now s.recent_chunks }))
      ]
    ]
    | inr (r, e) ↦ inr (rw (e, on_model_chunk))
  ]

  completed_silent :
      (s : Community)
      → has (buffer_key peer_mid p) s.completed_chunk_transfers ≡ true
      → deliveries (on_model_chunk host peer_mid p now s).1 ≡ []
  unfolding on_model_chunk deliveries
  completed_silent s done = elim (Option-cases (authenticate host s peer_mid p)) [
    | inl e ↦ rw (e, done, on_model_chunk) (no_deliveries-completion host peer_mid p now s)
    | inr (r, e) ↦ rw (e, on_model_chunk)
  ]

module _ (host : Host) (peer_mid : String) (p q : ModelChunk) where
  -- Once a chunk of a transfer has led to a delivery, no chunk of that transfer from that peer
  -- does in a state that has the record of completed transfers of then.
  pub no_second_delivery :
      (now later : ℕ) (s t : Community)
      → deliveries (on_model_chunk host peer_mid p now s).1 ≢ []
      → q.transfer_id ≡ p.transfer_id
      → t.completed_chunk_transfers
        ≡ (on_model_chunk host peer_mid p now s).0.completed_chunk_transfers
      → deliveries (on_model_chunk host peer_mid q later t).1 ≡ []
  no_second_delivery now later s t first same kept =
      elim (on_model_chunk-Marks host peer_mid p now s) [
        | inl marked ↦ completed_silent host peer_mid q later t (rw (same, kept) marked)
        | inr none_ ↦ absurd (first none_)
      ]
