-- ===== src/Tests/Sending.antt =====
-- The theorems on buffers, ACKs, signatures, buckets and requests at concrete inputs.
use quinkgl_framework.Common.{
  ℕ, ◌+◌, ◌-◌, ◌*◌, ◌≤◌, ◌<◌, String, ◌≡◌, refl, sym, subst, ◌↔◌, true, none, some, List, [], ◌∷◌,
  arith, ℕ_discrete, contains, nat_eq, string_eq, pair_eq, All, ok,
}
use quinkgl_framework.Common.Dict.{Dict, lookup, insert}
use quinkgl_framework.Transport.IndexSet.{set_of, add_index, add_range, union}
use quinkgl_framework.Transport.Words.{Bytes, from_big_endian}
use quinkgl_framework.Transport.Ranges.{pack_chunk_ranges, unpack_ranges, unpack_chunk_ranges}
use quinkgl_framework.Transport.Ranges.RoundTrip.{unpack-pack}
use quinkgl_framework.Transport.Buffer.{chunk_total, is_complete, reassemble}
use quinkgl_framework.Transport.Buffer.Delivery.{receive_all, complete_iff, delivery}
use quinkgl_framework.Transport.Signing.{Signed, chunk_sign_data}
use quinkgl_framework.Transport.Signing.Binding.{IsWire, Agree, sign_data_binds}
use quinkgl_framework.Transport.Bucket.{Bucket}
use quinkgl_framework.Transport.Bucket.Rate.{allowed_count, rate_bound}
use quinkgl_framework.Transport.State.{Community, OutgoingTransfer}
use quinkgl_framework.Transport.Acks.{acknowledge, is_forged, ack_matches, apply_ack, on_chunk_ack}
use quinkgl_framework.Transport.Acks.Progress.{
  IsTracked, AllTracked, on_acks, completed_means_acked,
}
use quinkgl_framework.Transport.Requests.{on_request_chunks}
use quinkgl_framework.Transport.Requests.Resends.{IsServed, on_request_chunks-IsServed}
use quinkgl_framework.Tests

two_chunks : chunk_total Tests.model ≡ 2
unfolding chunk_total
two_chunks = refl

abbrev order : List ℕ
order = 1 ∷ 1 ∷ 0 ∷ []

order_known : All (λ i. i < chunk_total Tests.model) order
order_known = rw two_chunks (omega arith, (omega arith, (omega arith, tt)))

order_all : (i : ℕ) → i < chunk_total Tests.model → contains order i ≡ true
order_all i h = let l : i < 2 = omega (arith, h, two_chunks) in ground arith

complete_iff_example :
    (is_complete (receive_all Tests.model order Tests.empty_buffer) ≡ true)
    ↔ ((i : ℕ) → i < chunk_total Tests.model → contains order i ≡ true)
complete_iff_example =
    complete_iff Tests.model order Tests.empty_buffer (sym two_chunks) refl order_known

delivery_example : reassemble (receive_all Tests.model order Tests.empty_buffer) ≡ ok Tests.model
delivery_example =
    delivery Tests.model order Tests.empty_buffer (sym two_chunks) refl order_known order_all

unpack-pack_example :
    (bytes : Bytes) × (pack_chunk_ranges (3 ∷ 1 ∷ 3 ∷ []) ≡ some bytes)
    × (unpack_chunk_ranges bytes (some 5) ≡ ok (set_of (3 ∷ 1 ∷ 3 ∷ [])))
unpack-pack_example =
    unpack-pack 5 (3 ∷ 1 ∷ 3 ∷ []) (omega arith) (omega arith, (omega arith, (omega arith, tt)))

-- Two payloads that the digest of the examples does not tell apart.
abbrev message_a : Signed
message_a = record Tests.signed_message { chunk_data = 1 ∷ 2 ∷ 3 ∷ 4 ∷ 5 ∷ [] }

abbrev message_b : Signed
message_b = record Tests.signed_message { chunk_data = 1 ∷ 2 ∷ 3 ∷ 4 ∷ 6 ∷ [] }

message_a-IsWire : IsWire message_a
message_a-IsWire = record {
  round_fits = omega arith;
  index_fits = omega arith;
  total_fits = omega arith;
  samples_fit = omega arith;
  timestamp_fits = omega arith;
  loss_fits = omega arith;
  accuracy_fits = omega arith;
}

message_b-IsWire : IsWire message_b
message_b-IsWire = record {
  round_fits = omega arith;
  index_fits = omega arith;
  total_fits = omega arith;
  samples_fit = omega arith;
  timestamp_fits = omega arith;
  loss_fits = omega arith;
  accuracy_fits = omega arith;
}

same_text : chunk_sign_data Tests.open_host message_a ≡ chunk_sign_data Tests.open_host message_b
unfolding chunk_sign_data
same_text = refl

sign_data_binds_example : Agree Tests.open_host message_a message_b
sign_data_binds_example =
    sign_data_binds Tests.open_host message_a message_b message_a-IsWire message_b-IsWire refl refl
      same_text

abbrev requests : List (String × ℕ)
requests = ("a", 10) ∷ ("d", 10) ∷ ("a", 11) ∷ ("a", 12) ∷ []

abbrev no_buckets : Dict String Bucket
no_buckets = []

no_bucket : lookup "a" no_buckets ≡ none
unfolding lookup
no_bucket = refl

rate_bound_example : allowed_count 2 1 "a" no_buckets requests * 2 ≤ 1 * 2 + (12 - 10)
rate_bound_example = rate_bound 2 1 10 12 "a" requests no_buckets no_bucket (
  (omega arith, omega arith),
  ((omega arith, omega arith), ((omega arith, omega arith), ((omega arith, omega arith), tt))),
)

abbrev sending : Community
sending = record Tests.idle {
  node_id = "cd";
  outgoing_transfers = ("t", Tests.cached) ∷ [];
  active_outgoing_transfers = ("t", Tests.outgoing) ∷ [];
}

abbrev inactive : Community
inactive = record sending { active_outgoing_transfers = [] }

only_entry {ℓ} : {A : Type ℓ} (key k : String) (v w : A) → lookup key ((k, v) ∷ []) ≡ some w → v ≡ w
unfolding lookup
only_entry key k v w h = ground (arith, h)

outgoing-IsTracked : IsTracked Tests.outgoing
outgoing-IsTracked = record { ascending = tt; in_range = tt; complete = λ h. ground (arith, h) }

tracked : AllTracked sending
tracked key t h = subst IsTracked (only_entry key "t" Tests.outgoing t h) outgoing-IsTracked

abbrev acked : OutgoingTransfer
acked = record Tests.outgoing { acked = 0 ∷ 1 ∷ []; completed = true }

acked_now :
    lookup "t"
      (on_acks Tests.open_host (("m", Tests.full_ack) ∷ []) sending).active_outgoing_transfers
    ≡ some acked
unfolding on_acks on_chunk_ack apply_ack ack_matches is_forged acknowledge unpack_chunk_ranges
    unpack_ranges from_big_endian add_range add_index union ℕ_discrete string_eq lookup insert
acked_now = refl

completed_means_acked_example : contains acked.acked 1 ≡ true
completed_means_acked_example =
    completed_means_acked Tests.open_host (("m", Tests.full_ack) ∷ []) sending "t" acked tracked
      acked_now refl 1 (omega arith)

cached_entry : lookup "t" inactive.outgoing_transfers ≡ some Tests.cached
unfolding lookup string_eq
cached_entry = refl

on_request_chunks-IsServed_example :
    IsServed Tests.open_host "m" Tests.request 5000 Tests.cached
      (on_request_chunks Tests.open_host "m" Tests.request 5000 inactive).1
on_request_chunks-IsServed_example =
    on_request_chunks-IsServed Tests.open_host "m" Tests.request 5000 inactive Tests.cached
      cached_entry
