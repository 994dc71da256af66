-- ===== src/Transport/Buffer/Delivery.antt =====
-- From the sender's chunks back to the sender's bytes.
use quinkgl_framework.Common.{
  ℕ, ◌*◌, ◌≤◌, ◌<◌, ◌≡◌, refl, sym, ap, subst, ◌∙◌, ◌↔◌, Bool, true, false, List, [], ◌∷◌, arith,
  if◌then◌else◌, ◌==◌, contains, nat_eq, string_eq, pair_eq, length, All, ok,
}
use quinkgl_framework.Common.Dict.{lookup, has, NodupKeys, lookup-insert, insert-NodupKeys}
use quinkgl_framework.Transport.Words.{Bytes}
use quinkgl_framework.Transport.Limits.{chunk_size}
use quinkgl_framework.Transport.Buffer.{
  ChunkBuffer, is_complete, add_chunk, reassemble, chunk_total, chunk_slice,
}
use quinkgl_framework.Transport.Buffer.Reassembly.{
  present, present-eq-length, has_of_present, present_of_has, Carries, Carries-KeysBelow,
  Carries-lookup, Carries-insert, join_chunks-from,
}

chunk_total_covers : (w : Bytes) → length w ≤ chunk_total w * chunk_size
unfolding chunk_total
chunk_total_covers w = omega arith

-- A complete buffer of the sender's chunks, each index once.
pub reassemble_sent :
    (w : Bytes) (b : ChunkBuffer)
    → b.total_chunks ≡ chunk_total w
    → NodupKeys b.chunks
    → Carries w b.total_chunks b.chunks
    → is_complete b ≡ true
    → reassemble b ≡ ok w
unfolding reassemble is_complete
reassemble_sent w b e u c h = rw h (
    join_chunks-from w b.chunks 0 b.total_chunks
      (λ i l.
        Carries-lookup w b.total_chunks i b.chunks c
          (has_of_present b.total_chunks b.chunks full i (omega arith)))
      (omega (arith, chunk_total_covers w)))
  where
    full : present b.total_chunks b.chunks ≡ b.total_chunks
    full =
        present-eq-length b.total_chunks b.chunks u (Carries-KeysBelow w b.total_chunks b.chunks c)
        ∙ ground arith

-- The chunks of a transfer arrive in an order, some of them more than once.
unfoldable pub receive_all : Bytes → List ℕ → ChunkBuffer → ChunkBuffer
receive_all w [] b = b
receive_all w (i ∷ order) b = receive_all w order (add_chunk b i (chunk_slice w i)).0

record Sent (w : Bytes) (n : ℕ) (b : ChunkBuffer) : Type 0 where
  total : b.total_chunks ≡ n
  distinct : NodupKeys b.chunks
  carried : Carries w n b.chunks

add_chunk-Sent :
    (w : Bytes) (n i : ℕ) (b : ChunkBuffer)
    → i < n
    → Sent w n b
    → Sent w n (add_chunk b i (chunk_slice w i)).0
unfolding add_chunk
add_chunk-Sent w n i b h s = record {
  total = s.total;
  distinct = insert-NodupKeys i (chunk_slice w i) b.chunks s.distinct;
  carried = Carries-insert w n i b.chunks h s.carried;
}

receive_all-Sent :
    (w : Bytes) (n : ℕ) (order : List ℕ) (b : ChunkBuffer)
    → All (λ i. i < n) order
    → Sent w n b
    → Sent w n (receive_all w order b)
unfolding receive_all
receive_all-Sent w n [] b h s = s
receive_all-Sent w n (i ∷ order) b h s =
    receive_all-Sent w n order (add_chunk b i (chunk_slice w i)).0 h.1
      (add_chunk-Sent w n i b h.0 s)

has-add_chunk :
    (w : Bytes) (k i : ℕ) (b : ChunkBuffer)
    → has k (add_chunk b i (chunk_slice w i)).0.chunks ≡ (if k == i then true else has k b.chunks)
unfolding add_chunk
has-add_chunk w k i b = ground (arith, lookup-insert k i (chunk_slice w i) b.chunks)

has-receive_all :
    (w : Bytes) (k : ℕ) (order : List ℕ) (b : ChunkBuffer)
    → has k (receive_all w order b).chunks ≡ (if contains order k then true else has k b.chunks)
unfolding receive_all
has-receive_all w k [] b = refl
has-receive_all w k (i ∷ order) b =
    has-receive_all w k order (add_chunk b i (chunk_slice w i)).0
    ∙ ground (arith, has-add_chunk w k i b)

module _ (w : Bytes) (order : List ℕ) (b : ChunkBuffer) (total : b.total_chunks ≡ chunk_total w)
    (fresh : b.chunks ≡ []) (known : All (λ i. i < chunk_total w) order) where
  start : Sent w (chunk_total w) b
  start = record {
    total = total;
    distinct = subst NodupKeys (sym fresh) tt;
    carried = subst (Carries w (chunk_total w)) (sym fresh) tt;
  }

  received : Sent w (chunk_total w) (receive_all w order b)
  received = receive_all-Sent w (chunk_total w) order b known start

  has_iff : (k : ℕ) → has k (receive_all w order b).chunks ≡ contains order k
  unfolding lookup
  has_iff k =
      has-receive_all w k order b
      ∙ ap (λ d. if contains order k then true else has k d) fresh
      ∙ nothing (contains order k)
    where
      nothing : (c : Bool) → (if c then true else false) ≡ c
      nothing true = refl
      nothing false = refl

  -- Starting from an empty buffer of the right size, and with chunks of the sender's weights
  -- arriving in any order and with any repetitions, the buffer is complete exactly when every
  -- chunk index of the transfer has arrived.
  pub complete_iff :
      (is_complete (receive_all w order b) ≡ true)
      ↔ ((i : ℕ) → i < chunk_total w → contains order i ≡ true)
  unfolding is_complete
  complete_iff = (
    λ h i l.
        sym (has_iff i)
        ∙ has_of_present (chunk_total w) (receive_all w order b).chunks
            (present-eq-length (chunk_total w) _ received.distinct
                (Carries-KeysBelow w (chunk_total w) _ received.carried)
              ∙ ground (arith, received.total))
            i l,
    λ h. ground (
      arith,
      received.total,
      present-eq-length (chunk_total w) (receive_all w order b).chunks received.distinct
          (Carries-KeysBelow w (chunk_total w) _ received.carried),
      present_of_has (chunk_total w) (receive_all w order b).chunks (λ i l. has_iff i ∙ h i l),
    ),
  )

  -- Starting from an empty buffer of the right size, once every chunk of the sender's weights
  -- has arrived, in any order and with any repetitions, reassembly succeeds and gives back the
  -- bytes of the sender.
  pub delivery :
      ((i : ℕ) → i < chunk_total w → contains order i ≡ true)
      → reassemble (receive_all w order b) ≡ ok w
  delivery all =
      reassemble_sent w (receive_all w order b) received.total received.distinct
        (subst (λ n. Carries w n (receive_all w order b).chunks) (sym received.total)
          received.carried)
        (complete_iff.1 all)
