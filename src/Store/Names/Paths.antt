-- ===== src/Store/Names/Paths.antt =====
-- The paths of src/quinkgl/storage/model_store.py, and the ids read back from them.
use quinkgl_framework.Common.{
  ℕ, ◌-◌, ◌≡◌, refl, sym, ap, ◌∙◌, ◌≢◌, Bool, true, false, [], ◌∷◌, ◌++◌, append_assoc, arith,
  if◌then◌else◌, nat_eq, string_eq, pair_eq, list_eq, eq_self, length, take, drop, length-append,
  take-append-drop, ok, err, ◌>>=◌,
}
use quinkgl_framework.Common.Text.{ends_with}
use quinkgl_framework.Store.Names.{
  Text, invalid_checkpoint_id, validate_checkpoint_id, matches_id_pattern, file_prefix, gz_ext,
  msgpack_ext, file_name, between, get_checkpoint_path, checkpoint_id_from_path,
}

pub drop-append : (a b : Text) → drop (length a) (a ++ b) ≡ b
drop-append [] b = refl
drop-append (c ∷ a) b = drop-append a b

take-append : (a b : Text) → take (length a) (a ++ b) ≡ a
take-append [] [] = refl
take-append [] (c ∷ b) = refl
take-append (c ∷ a) b = ap (λ t. c ∷ t) (take-append a b)

prefix_length : (a b : Text) → length (a ++ b) - length b ≡ length a
prefix_length a b = omega (arith, length-append a b)

pub ends_with-append : (a b : Text) → ends_with (a ++ b) b ≡ true
unfolding ends_with
ends_with-append a b = rw (prefix_length a b, drop-append a b) (eq_self b)

last_of : Text → ℕ → ℕ
last_of [] d = d
last_of (c ∷ s) d = last_of s c

last_of-append : (a b : Text) (d : ℕ) → last_of (a ++ b) d ≡ last_of b (last_of a d)
unfolding last_of
last_of-append [] b d = refl
last_of-append (c ∷ a) b d = last_of-append a b c

-- A text that ends otherwise does not have the suffix.
ends_with_no :
    (s suffix : Text) (a b : ℕ)
    → last_of s 0 ≡ a
    → ((d : ℕ) → last_of suffix d ≡ b)
    → a ≢ b
    → ends_with s suffix ≡ false
unfolding ends_with
ends_with_no s suffix a b ha hb n = elim (list_eq.dec (drop m s) suffix) [
  | yes e ↦ absurd (
      n (
        sym ha
        ∙ ap (λ t. last_of t 0) (sym (take-append-drop m s))
        ∙ last_of-append (take m s) (drop m s) 0
        ∙ ap (λ t. last_of t (last_of (take m s) 0)) e
        ∙ hb _))
  | no differ ↦ ground (arith, differ)
]
  where
    m : ℕ
    m = length s - length suffix

last_of-file_name :
    (checkpoint_id ext : Text) (b : ℕ)
    → ((d : ℕ) → last_of ext d ≡ b)
    → last_of (file_name checkpoint_id ext) 0 ≡ b
unfolding file_name last_of
last_of-file_name checkpoint_id ext b h =
    last_of-append file_prefix (checkpoint_id ++ ext) 0 ∙ last_of-append checkpoint_id ext _ ∙ h _

pub between-file_name :
    (checkpoint_id ext : Text) → between (file_name checkpoint_id ext) ext ≡ checkpoint_id
unfolding between file_name
between-file_name checkpoint_id ext =
    ap (λ name. drop (length file_prefix) (take (length name - length ext) name))
      (sym (append_assoc file_prefix checkpoint_id ext))
    ∙ ap (λ n. drop (length file_prefix) (take n ((file_prefix ++ checkpoint_id) ++ ext)))
        (prefix_length (file_prefix ++ checkpoint_id) ext)
    ∙ ap (λ s. drop (length file_prefix) s) (take-append (file_prefix ++ checkpoint_id) ext)
    ∙ drop-append file_prefix checkpoint_id

pub ends_with-file_name :
    (checkpoint_id ext : Text) → ends_with (file_name checkpoint_id ext) ext ≡ true
unfolding file_name
ends_with-file_name checkpoint_id ext =
    rw (← append_assoc file_prefix checkpoint_id ext)
      (ends_with-append (file_prefix ++ checkpoint_id) ext)

pub validate_valid : (s : Text) → matches_id_pattern s ≡ true → validate_checkpoint_id s ≡ ok s
unfolding validate_checkpoint_id
validate_valid s h = rw h refl

read_back :
    (compression : Bool) (checkpoint_id : Text)
    → matches_id_pattern checkpoint_id ≡ true
    → checkpoint_id_from_path
        (file_name checkpoint_id (if compression then gz_ext else msgpack_ext))
      ≡ ok checkpoint_id
unfolding checkpoint_id_from_path last_of
read_back true checkpoint_id h =
    rw (ends_with-file_name checkpoint_id gz_ext, between-file_name checkpoint_id gz_ext)
      (validate_valid checkpoint_id h)
read_back false checkpoint_id h =
    rw
      (
        ends_with_no (file_name checkpoint_id msgpack_ext) gz_ext b'k' b'z'
            (last_of-file_name checkpoint_id msgpack_ext b'k' (λ d. refl)) (λ d. refl)
            (λ e. omega arith),
        ends_with-file_name checkpoint_id msgpack_ext,
        between-file_name checkpoint_id msgpack_ext,
      )
      (validate_valid checkpoint_id h)

-- The id that is read from the path of a checkpoint, compressed or not, is the id that named it;
-- an id that does not match the pattern has no path.
pub checkpoint_id_from_path-get_checkpoint_path :
    (compression : Bool) (checkpoint_id : Text)
    → (get_checkpoint_path compression checkpoint_id >>= checkpoint_id_from_path)
      ≡ validate_checkpoint_id checkpoint_id
unfolding get_checkpoint_path validate_checkpoint_id
checkpoint_id_from_path-get_checkpoint_path compression checkpoint_id =
    by_cases (matches_id_pattern checkpoint_id) refl
  where
    by_cases :
        (valid : Bool)
        → matches_id_pattern checkpoint_id ≡ valid
        → (((if valid then ok checkpoint_id else err invalid_checkpoint_id) >>= λ s.
              ok (file_name s (if compression then gz_ext else msgpack_ext)))
            >>= checkpoint_id_from_path)
          ≡ (if valid then ok checkpoint_id else err invalid_checkpoint_id)
    by_cases true h = read_back compression checkpoint_id h
    by_cases false h = refl
