-- ===== src/Store/Making.antt =====
-- What `__post_init__` of src/quinkgl/storage/model_store.py does to a checkpoint that it has made.
use quinkgl_framework.Common.{
  ◌≡◌, refl, ap, subst, ◌∙◌, true, false, [], ◌∷◌, if-elim, ◌==◌, nat_eq, string_eq, pair_eq,
  list_eq, Result, Result-bind_ok, ok, ok-injective, ◌>>=◌,
}
use quinkgl_framework.Store.Names.{Text, StoreError, validate_checkpoint_id, matches_id_pattern}
use quinkgl_framework.Store.Names.Paths.{validate_valid}
use quinkgl_framework.Store.Checkpoint.{
  ModelCheckpoint, Codec, post_init, with_id, with_checksum, compute_checksum, payload_dict,
}

matches-nonempty : (s : Text) → matches_id_pattern s ≡ true → s == [] ≡ false
unfolding matches_id_pattern list_eq
matches-nonempty [] h = absurd (cc h)
matches-nonempty (c ∷ s) h = refl

validate-matches : (s v : Text) → validate_checkpoint_id s ≡ ok v → (matches_id_pattern s ≡ true)
unfolding validate_checkpoint_id
validate-matches s v =
    if-elim (λ (r : Result StoreError Text). r ≡ ok v → matches_id_pattern s ≡ true)
      (matches_id_pattern s) (λ valid e. valid) (λ bad e. absurd (cc e))

with_checksum-again :
    (h : Codec) (b c : ModelCheckpoint)
    → with_checksum h b ≡ ok c
    → (c.checkpoint_id ≡ b.checkpoint_id) × (with_checksum h c ≡ ok c)
unfolding with_checksum compute_checksum payload_dict
with_checksum-again h b c =
    if-elim
      (λ (r : Result StoreError ModelCheckpoint).
        r ≡ ok c → (c.checkpoint_id ≡ b.checkpoint_id) × (with_checksum h c ≡ ok c))
      (b.checksum == [])
      (λ empty e.
        let (sum, (computed, made)) = Result-bind_ok (compute_checksum h b) _ c e in
        subst
          (λ (x : ModelCheckpoint).
            (x.checkpoint_id ≡ b.checkpoint_id) × (with_checksum h x ≡ ok x))
          (ok-injective _ c made)
          (
            refl,
            if-elim
                (λ (r : Result StoreError ModelCheckpoint). r ≡ ok (record b { checksum = sum }))
                (sum == []) (λ yes. ap (λ r. r >>= (λ x. ok (record b { checksum = x }))) computed)
                (λ no. refl),
          ))
      (λ given e.
        subst
          (λ (x : ModelCheckpoint).
            (x.checkpoint_id ≡ b.checkpoint_id) × (with_checksum h x ≡ ok x))
          (ok-injective b c e)
          (
            refl,
            if-elim (λ (r : Result StoreError ModelCheckpoint). r ≡ ok b) (b.checksum == [])
                (λ empty. absurd (cc (given, empty))) (λ no. refl),
          ))

with_id-named :
    (h : Codec) (c : ModelCheckpoint) → matches_id_pattern c.checkpoint_id ≡ true → with_id h c ≡ c
unfolding with_id matches_id_pattern
with_id-named h c valid =
    if-elim (λ (x : ModelCheckpoint). x ≡ c) (c.checkpoint_id == [])
      (λ empty. absurd (cc (empty, matches-nonempty c.checkpoint_id valid))) (λ no. refl)

-- A checkpoint that has been made is left as it is when it is made again.
pub post_init-again :
    (h : Codec) (a c : ModelCheckpoint)
    → post_init h a ≡ ok c
    → (matches_id_pattern c.checkpoint_id ≡ true) × (post_init h c ≡ ok c)
unfolding post_init
post_init-again h a c e =
    let (v, (valid, made)) =
      Result-bind_ok (validate_checkpoint_id (with_id h a).checkpoint_id) _ c e in
    let (same, again) = with_checksum-again h (with_id h a) c made in
    let matches : matches_id_pattern c.checkpoint_id ≡ true =
      ap matches_id_pattern same ∙ validate-matches (with_id h a).checkpoint_id v valid in
    (matches, rw (with_id-named h c matches, validate_valid c.checkpoint_id matches) again)
