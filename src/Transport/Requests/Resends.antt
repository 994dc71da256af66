-- ===== src/Transport/Requests/Resends.antt =====
-- What a request for missing chunks can make a sender send.
use quinkgl_framework.Common.{
  ℕ, zero, suc, ◌%◌, ◌≤◌, ◌<◌, String, ◌≡◌, refl, ap, inl, inr, not, ◌||◌, Option, none, some, List,
  [], ◌∷◌, map, arith, ltb, Bool-cases, Option-cases, ◌==◌, nat_eq, string_eq, pair_eq, length,
  take, keep, All, length-take,
}
use quinkgl_framework.Common.Dict.{lookup}
use quinkgl_framework.Transport.Limits.{chunk_max_nack_indices}
use quinkgl_framework.Transport.Host.{Host}
use quinkgl_framework.Transport.Buffer.{chunk_total, chunk_slice}
use quinkgl_framework.Transport.Bucket.{nack_try_consume, nack_try_consume_transfer}
use quinkgl_framework.Transport.State.{
  Community, CachedTransfer, OutgoingTransfer, ModelChunk, RequestChunks, Reason, Effect, dropped,
  deliver, send_chunk, send_ack, send_heartbeat, send_request, send_update, discovered,
}
use quinkgl_framework.Transport.Requests.{
  send_model_chunk, valid_indices, resend, serve_request, limit_request, is_unauthorized,
  on_request_chunks,
}

-- The chunk packets among some effects, with their receivers.
unfoldable pub sent_chunks : List Effect → List (String × ModelChunk)
sent_chunks [] = []
sent_chunks (send_chunk mid c ∷ es) = (mid, c) ∷ sent_chunks es
sent_chunks (deliver _ _ _ _ _ _ ∷ es) = sent_chunks es
sent_chunks (dropped _ ∷ es) = sent_chunks es
sent_chunks (send_ack _ _ ∷ es) = sent_chunks es
sent_chunks (send_heartbeat _ _ ∷ es) = sent_chunks es
sent_chunks (send_request _ _ ∷ es) = sent_chunks es
sent_chunks (send_update _ _ ∷ es) = sent_chunks es
sent_chunks (discovered _ ∷ es) = sent_chunks es

All-take {ℓ κ} : {A : Type ℓ} (P : A → Type κ) (n : ℕ) (xs : List A) → All P xs → All P (take n xs)
All-take P zero xs h = tt
All-take P (suc n) [] h = tt
All-take P (suc n) (x ∷ xs) h = (h.0, All-take P n xs h.1)

All-keep : (b : ℕ) (xs : List ℕ) → All (λ i. i < b) (keep (λ i. ltb i b) xs)
All-keep b [] = tt
All-keep b (x ∷ xs) = ground (arith, All-keep b xs)

valid_indices-All :
    (total : ℕ) (indices : List ℕ) → All (λ i. i < total) (valid_indices total indices)
unfolding valid_indices
valid_indices-All total indices =
    All-take (λ i. i < total) chunk_max_nack_indices _ (All-keep total indices)

length-valid_indices :
    (total : ℕ) (indices : List ℕ) → length (valid_indices total indices) ≤ chunk_max_nack_indices
unfolding valid_indices
length-valid_indices total indices =
    omega (arith, length-take chunk_max_nack_indices (keep (λ i. ltb i total) indices))

-- A packet that carries a chunk of the cached weights to a peer.
abbrev pub IsResend : String → CachedTransfer → String × ModelChunk → Type 0
IsResend peer_mid t m =
    (m.0 ≡ peer_mid)
    × (m.1.chunk_index < chunk_total t.weights)
    × (m.1.total_chunks ≡ chunk_total t.weights)
    × (m.1.chunk_data ≡ chunk_slice t.weights m.1.chunk_index)

module _ (host : Host) (peer_mid : String) (p : RequestChunks) (now : ℕ) where
  -- At most `chunk_max_nack_indices` packets, each a chunk of the weights.
  abbrev pub IsServed : CachedTransfer → List Effect → Type 0
  IsServed t es =
      All (IsResend peer_mid t) (sent_chunks es)
      × (length (sent_chunks es) ≤ chunk_max_nack_indices)

  sent_chunks-map :
      (s : Community) (t : CachedTransfer) (is : List ℕ)
      → All (λ i. i < chunk_total t.weights) is
      → All
          (IsResend peer_mid t)
          (sent_chunks (map (send_model_chunk host s peer_mid p.transfer_id t now) is))
        × (length (sent_chunks (map (send_model_chunk host s peer_mid p.transfer_id t now) is))
            ≡ length is)
  unfolding sent_chunks send_model_chunk
  sent_chunks-map s t [] h = (tt, refl)
  sent_chunks-map s t (i ∷ is) h =
      let rest = sent_chunks-map s t is h.1 in (((refl, h.0, refl, refl), rest.0), ap suc rest.1)

  resend-IsServed :
      (s : Community) (t : CachedTransfer) (indices : List ℕ)
      → IsServed t
          (resend host peer_mid p now s t (valid_indices (chunk_total t.weights) indices)).1
  unfolding resend
  resend-IsServed s t indices =
      let sent =
        sent_chunks-map s t (valid_indices (chunk_total t.weights) indices)
          (valid_indices-All (chunk_total t.weights) indices) in
      (sent.0, omega (arith, sent.1, length-valid_indices (chunk_total t.weights) indices))

  none-IsServed : (t : CachedTransfer) (r : Reason) → IsServed t (dropped r ∷ [])
  unfolding sent_chunks
  none-IsServed t r = (tt, omega arith)

  serve_request-IsServed :
      (s : Community) (t : CachedTransfer) (active : Option OutgoingTransfer)
      → IsServed t (serve_request host peer_mid p now s t active).1
  unfolding serve_request sent_chunks
  serve_request-IsServed s t none =
      elim (Bool-cases
        (length p.missing_indices_bytes == 0 || not (length p.missing_indices_bytes % 4 == 0))) [
          | inl bad ↦ rw (bad, serve_request) (none-IsServed t Reason.malformed_nack)
          | inr good ↦ rw (good, serve_request) (resend-IsServed s t _)
        ]
  serve_request-IsServed s t (some o) =
      elim (Bool-cases
        (length p.missing_indices_bytes == 0 || not (length p.missing_indices_bytes % 4 == 0))) [
          | inl bad ↦ rw (bad, serve_request) (none-IsServed t Reason.malformed_nack)
          | inr good ↦ rw (good, serve_request) (tt, omega arith)
        ]

  limit_request-IsServed :
      (s : Community) (t : CachedTransfer) → IsServed t (limit_request host peer_mid p now s t).1
  limit_request-IsServed s t =
      elim (Bool-cases (nack_try_consume_transfer s.nack_transfer_buckets p.transfer_id now).1) [
        | inl ok_ ↦ elim (Bool-cases (nack_try_consume s.nack_buckets peer_mid now).1) [
          | inl ok' ↦
              unfold limit_request in rw (ok_, ok', limit_request) (serve_request-IsServed _ t none)
          | inr no_ ↦
              unfold limit_request in
              rw (ok_, no_, limit_request) (none-IsServed t Reason.nack_rate_limited)
        ]
        | inr no_ ↦
            unfold limit_request in
            rw (no_, limit_request) (none-IsServed t Reason.nack_transfer_rate_limited)
      ]

  -- A request for a cached transfer makes the sender send at most 128 packets, to the asking
  -- peer only, and each carries the chunk of the cached weights that its index names.
  pub on_request_chunks-IsServed :
      (s : Community) (t : CachedTransfer)
      → lookup p.transfer_id s.outgoing_transfers ≡ some t
      → IsServed t (on_request_chunks host peer_mid p now s).1
  on_request_chunks-IsServed s t e = elim (Bool-cases (is_unauthorized host peer_mid p now t)) [
    | inl other ↦
        unfold on_request_chunks in
        rw (e, on_request_chunks) (rw other (none-IsServed t Reason.unauthorized_nack))
    | inr same ↦ elim (Option-cases (lookup p.transfer_id s.active_outgoing_transfers)) [
      | inl cached ↦
          unfold on_request_chunks in
          rw (e, on_request_chunks) (rw (same, cached) (limit_request-IsServed _ t))
      | inr (o, active) ↦
          unfold on_request_chunks in
          rw (e, on_request_chunks) (rw (same, active) (serve_request-IsServed _ t (some o)))
    ]
  ]
