-- ===== src/Transport/Signing/Binding.antt =====
-- What a signature binds, and what it leaves open.
use quinkgl_framework.Common.{
  ℕ, ◌*◌, ◌/◌, ◌%◌, ◌<◌, String, ◌≡◌, refl, sym, ◌∙◌, List, [], ◌∷◌, ◌++◌, append_assoc, arith,
  nat_eq, string_eq, pair_eq, length,
}
use quinkgl_framework.Transport.Words.{
  word_limit, big_endian, double_bytes, length-big_endian, length-double_bytes,
  big_endian-injective,
}
use quinkgl_framework.Transport.Host.{Host}
use quinkgl_framework.Transport.Signing.{Signed, sign_tail, chunk_sign_data}

-- Lists of one length that begin a common list are equal, and so are their rests.
append-split {ℓ} :
    {A : Type ℓ} (xs ys : List A) {s t : List A}
    → length xs ≡ length ys
    → xs ++ s ≡ ys ++ t
    → (xs ≡ ys) × (s ≡ t)
append-split [] [] h e = (refl, e)
append-split [] (y ∷ ys) h e = absurd (omega arith)
append-split (x ∷ xs) [] h e = absurd (omega arith)
append-split (x ∷ xs) (y ∷ ys) {s} {t} h e =
    let rest = append-split xs ys {s = s} {t = t} (omega arith) (cc) in (cc (rest.0), rest.1)

big_endian-mod : (a b : ℕ) → big_endian a ≡ big_endian b → a % word_limit ≡ b % word_limit
unfolding big_endian
big_endian-mod a b e = grind arith

double_bytes-injective :
    (m n : ℕ)
    → m < word_limit * word_limit
    → n < word_limit * word_limit
    → double_bytes m ≡ double_bytes n
    → m ≡ n
unfolding double_bytes
double_bytes-injective m n h k e =
    let parts = append-split (big_endian (m / word_limit)) (big_endian (n / word_limit)) refl e in
    let high =
      big_endian-injective (m / word_limit) (n / word_limit) (omega arith) (omega arith) parts.0 in
    let low = big_endian-mod m n parts.1 in omega arith

-- The fields of a packet have the widths of its format.
pub record IsWire (m : Signed) : Type 0 where
  pub round_fits : m.round_number < word_limit
  pub index_fits : m.chunk_index < word_limit
  pub total_fits : m.total_chunks < word_limit
  pub samples_fit : m.sample_count < word_limit
  pub timestamp_fits : m.timestamp < word_limit
  pub loss_fits : m.loss < word_limit * word_limit
  pub accuracy_fits : m.accuracy < word_limit * word_limit

-- What two messages with one signed text have in common.
pub record Agree (host : Host) (m n : Signed) : Type 0 where
  pub same_sender : host.utf8 m.sender_id ≡ host.utf8 n.sender_id
  pub same_round : m.round_number ≡ n.round_number
  pub same_schema : host.utf8 m.data_schema_hash ≡ host.utf8 n.data_schema_hash
  pub same_index : m.chunk_index ≡ n.chunk_index
  pub same_total : m.total_chunks ≡ n.total_chunks
  pub same_samples : m.sample_count ≡ n.sample_count
  pub same_loss : m.loss ≡ n.loss
  pub same_accuracy : m.accuracy ≡ n.accuracy
  pub same_timestamp : m.timestamp ≡ n.timestamp
  pub same_digest : host.sha256 m.chunk_data ≡ host.sha256 n.chunk_data

-- Two messages with the same signed text, whose numbers fit their fields, agree in every signed
-- field and in the digest of their data, if their sender ids and their schema hashes are encoded
-- in equally many bytes.
pub sign_data_binds :
    (host : Host) (m n : Signed)
    → IsWire m
    → IsWire n
    → length (host.utf8 m.sender_id) ≡ length (host.utf8 n.sender_id)
    → length (host.utf8 m.data_schema_hash) ≡ length (host.utf8 n.data_schema_hash)
    → chunk_sign_data host m ≡ chunk_sign_data host n
    → Agree host m n
unfolding chunk_sign_data
sign_data_binds host m n wm wn hs hd e =
    let sender = append-split (host.utf8 m.sender_id) (host.utf8 n.sender_id) hs e in
    let round =
      append-split (big_endian m.round_number) (big_endian n.round_number) (same_length _ _)
        sender.1 in
    let schema =
      append-split (host.utf8 m.data_schema_hash) (host.utf8 n.data_schema_hash) hd round.1 in
    let index =
      append-split (big_endian m.chunk_index) (big_endian n.chunk_index) (same_length _ _)
        schema.1 in
    let total =
      append-split (big_endian m.total_chunks) (big_endian n.total_chunks) (same_length _ _)
        index.1 in
    let samples =
      append-split (big_endian m.sample_count) (big_endian n.sample_count) (same_length _ _)
        total.1 in
    let loss =
      append-split (double_bytes m.loss) (double_bytes n.loss) (same_length_double _ _) samples.1 in
    let accuracy =
      append-split (double_bytes m.accuracy) (double_bytes n.accuracy) (same_length_double _ _)
        loss.1 in
    let stamp =
      append-split (big_endian m.timestamp) (big_endian n.timestamp) (same_length _ _) accuracy.1 in
    record {
      same_sender = sender.0;
      same_round = big_endian-injective _ _ wm.round_fits wn.round_fits round.0;
      same_schema = schema.0;
      same_index = big_endian-injective _ _ wm.index_fits wn.index_fits index.0;
      same_total = big_endian-injective _ _ wm.total_fits wn.total_fits total.0;
      same_samples = big_endian-injective _ _ wm.samples_fit wn.samples_fit samples.0;
      same_loss = double_bytes-injective _ _ wm.loss_fits wn.loss_fits loss.0;
      same_accuracy = double_bytes-injective _ _ wm.accuracy_fits wn.accuracy_fits accuracy.0;
      same_timestamp = big_endian-injective _ _ wm.timestamp_fits wn.timestamp_fits stamp.0;
      same_digest = stamp.1;
    }
  where
    same_length : (a b : ℕ) → length (big_endian a) ≡ length (big_endian b)
    same_length a b = length-big_endian a ∙ sym (length-big_endian b)

    same_length_double : (a b : ℕ) → length (double_bytes a) ≡ length (double_bytes b)
    same_length_double a b = length-double_bytes a ∙ sym (length-double_bytes b)

-- The bytes between a sender id and a schema hash can be cut in several ways: if the first byte
-- of the round is moved to the sender id and the first byte of the schema hash to the round, the
-- signed text is the same.
pub sign_data_shift :
    (host : Host) (m : Signed) (sender schema : String) (round b0 b1 b2 b3 h : ℕ)
    → big_endian m.round_number ≡ b0 ∷ b1 ∷ b2 ∷ b3 ∷ []
    → host.utf8 m.data_schema_hash ≡ h ∷ host.utf8 schema
    → host.utf8 sender ≡ host.utf8 m.sender_id ++ b0 ∷ []
    → big_endian round ≡ b1 ∷ b2 ∷ b3 ∷ h ∷ []
    → chunk_sign_data host
        (record m { sender_id = sender; round_number = round; data_schema_hash = schema })
      ≡ chunk_sign_data host m
unfolding chunk_sign_data sign_tail
sign_data_shift host m sender schema round b0 b1 b2 b3 h er eh es er' =
    rw (er, eh, es, er') (append_assoc (host.utf8 m.sender_id) (b0 ∷ []) _)
