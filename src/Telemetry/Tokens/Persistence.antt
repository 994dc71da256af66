-- ===== src/Telemetry/Tokens/Persistence.antt =====
-- What a new token is worth after the next start.
use quinkgl_framework.Common.{
  String, ◌≡◌, refl, sym, ap, ap₂, ◌∙◌, ◌≢◌, ◌⊎◌, inl, inr, true, false, Option, none, some, List,
  [], ◌∷◌, ◌++◌, map, arith, if◌then◌else◌, if-elim, ◌==◌, nat_eq, string_eq, pair_eq, All,
  All-append, Result, ok, err,
}
use quinkgl_framework.Common.Dict.{Dict, lookup, insert, lookup-insert, lookup-insert_self}
use quinkgl_framework.Telemetry.Tokens.{
  TokenRecord, Registry, TokenError, entries, missing, live_from, new_registry, given, entry_hash,
  from_entry, from_entries, from_file, resolve, to_entry, persist, create_token, with_record,
  registry_of, TokenFile,
}

-- A record that the file can hold.
abbrev pub IsFull : TokenRecord → Type 0
IsFull r = (r.token_hash ≢ "") × (r.swarm_id ≢ "")

-- A registry with a file, whose dict is that of its records.
pub record IsSaved (s : Registry) : Type 0 where
  pub stored : s.has_path ≡ true
  pub agrees : s.records ≡ live_from [] s.all_records
  pub full : All IsFull s.all_records

given_text : (t : String) → t ≢ "" → given (some t) ≡ some t
given_text t n =
    if-elim (λ (o : Option String). o ≡ some t) (t == "") (λ e. absurd (ground (arith, e, n)))
      (λ _. refl)

live_from-snoc :
    (d : Dict String TokenRecord) (rs : List TokenRecord) (r : TokenRecord)
    → r.revoked ≡ false
    → live_from d (rs ++ r ∷ []) ≡ insert r.token_hash r (live_from d rs)
unfolding live_from
live_from-snoc d [] r h =
    if-elim (λ x. x ≡ insert r.token_hash r d) r.revoked (λ bad. absurd (ground (arith, h, bad)))
      (λ _. refl)
live_from-snoc d (q ∷ rs) r h =
    live_from-snoc (if q.revoked then d else insert q.token_hash q d) rs r h

All-snoc :
    (rs : List TokenRecord) (r : TokenRecord) → All IsFull rs → IsFull r → All IsFull (rs ++ r ∷ [])
All-snoc rs r hs h = All-append IsFull rs (r ∷ []) hs (h, tt)

module _ (hash_token : String → String) where
  from_entry-to_entry :
      (r : TokenRecord) → IsFull r → from_entry hash_token (to_entry hash_token r) ≡ ok r
  unfolding from_entry to_entry entry_hash
  from_entry-to_entry r h = ground (arith, h.0, h.1)

  from_entries-map :
      (rs : List TokenRecord)
      → All IsFull rs
      → from_entries hash_token (map (to_entry hash_token) rs) ≡ ok rs
  unfolding from_entries
  from_entries-map [] h = refl
  from_entries-map (r ∷ rs) h =
      ap₂ with_record (from_entry-to_entry r h.0) (from_entries-map rs h.1)

  -- The record of a new token.
  abbrev pub record_of : String → String → String → TokenRecord
  record_of swarm_id name token = record {
    swarm_id = swarm_id;
    token_hash = hash_token token;
    name = name;
    revoked = false;
  }

  -- What the next start reads.
  reloaded : Registry → TokenRecord → Registry
  reloaded s r =
      let rs = s.all_records ++ r ∷ [] in
      new_registry rs true (entries (map (to_entry hash_token) rs))

  abbrev file_of : Result TokenError Registry → TokenFile
  file_of (err x) = missing
  file_of (ok s) = s.file

  resolve_given :
      (s : Registry) (t : String)
      → t ≢ ""
      → resolve hash_token s (some t) ≡ lookup (hash_token t) s.records
  unfolding resolve
  resolve_given s t n =
      ap (λ (o : Option String). elim o [ none ↦ none | some x ↦ lookup (hash_token x) s.records ])
        (given_text t n)

  -- A new record changes the answer for its own token only.
  lookup_given-insert :
      (g : Option String) (t h : String) (r : TokenRecord) (d : Dict String TokenRecord)
      → (g ≡ none) ⊎ (g ≡ some t)
      → hash_token t ≢ h
      → ◌≡◌ {A = Option TokenRecord}
          (elim g [ none ↦ none | some x ↦ lookup (hash_token x) (insert h r d) ])
          (elim g [ none ↦ none | some x ↦ lookup (hash_token x) d ])
  lookup_given-insert g t h r d (inl e) n = rw e refl
  lookup_given-insert g t h r d (inr e) n =
      rw e (ground (arith, n, lookup-insert (hash_token t) h r d))

  given_cases : (t : String) → (given (some t) ≡ none) ⊎ (given (some t) ≡ some t)
  given_cases t =
      if-elim (λ (o : Option String). (o ≡ none) ⊎ (o ≡ some t)) (t == "") (λ _. inl refl)
        (λ _. inr refl)

  resolve-other :
      (s loaded : Registry) (t h : String) (r : TokenRecord)
      → loaded.records ≡ insert h r s.records
      → hash_token t ≢ h
      → resolve hash_token loaded (some t) ≡ resolve hash_token s (some t)
  unfolding resolve
  resolve-other s loaded t h r e n =
      ap
        (λ (d : Dict String TokenRecord). elim (given (some t)) [
          | none ↦ none
          | some x ↦ lookup (hash_token x) d
        ])
        e
      ∙ lookup_given-insert (given (some t)) t h r s.records (given_cases t) n

  create_token-made :
      (s s' : Registry) (swarm_id name token : String)
      → s.has_path ≡ true
      → create_token hash_token s swarm_id name token ≡ ok s'
      → (s'.file
          ≡ entries
              (map (to_entry hash_token) (s.all_records ++ record_of swarm_id name token ∷ [])))
        × (swarm_id ≢ "")
  unfolding create_token persist
  create_token-made s s' swarm_id name token path =
      let rs = s.all_records ++ record_of swarm_id name token ∷ [] in
      let file = entries (map (to_entry hash_token) rs) in
      let added : Registry = record s {
        records = insert (hash_token token) (record_of swarm_id name token) s.records;
        all_records = rs;
      } in
      let written : (persist hash_token added).file ≡ file =
        if-elim (λ (x : Registry). x.file ≡ file) s.has_path (λ _. refl)
          (λ no. absurd (ground (arith, path, no))) in
      if-elim (λ (x : Result TokenError Registry). x ≡ ok s' → (s'.file ≡ file) × (swarm_id ≢ ""))
        (swarm_id == "") (λ _ no. absurd (ground (arith, no)))
        (λ named made. (sym (ap file_of made) ∙ written, λ e. ground (arith, named, e)))

  reloaded-IsSaved :
      (s : Registry) (r : TokenRecord) → IsSaved s → IsFull r → IsSaved (reloaded s r)
  unfolding reloaded new_registry
  reloaded-IsSaved s r v h = record {
    stored = refl;
    agrees = refl;
    full = All-snoc s.all_records r v.full h;
  }

  records-reloaded :
      (s : Registry) (r : TokenRecord)
      → IsSaved s
      → r.revoked ≡ false
      → (reloaded s r).records ≡ insert r.token_hash r s.records
  unfolding reloaded new_registry
  records-reloaded s r v h =
      live_from-snoc [] s.all_records r h ∙ ap (insert r.token_hash r) (sym v.agrees)

  from_file-reloaded :
      (s : Registry) (r : TokenRecord)
      → All IsFull (s.all_records ++ r ∷ [])
      → from_file hash_token (entries (map (to_entry hash_token) (s.all_records ++ r ∷ []))) false
        ≡ ok (reloaded s r)
  unfolding from_file reloaded
  from_file-reloaded s r full =
      ap (registry_of (entries (map (to_entry hash_token) (s.all_records ++ r ∷ []))))
        (from_entries-map (s.all_records ++ r ∷ []) full)

  -- A token that is created can be resolved after the next start, which reads a registry that
  -- again agrees with its file, and there every token with another hash is resolved as it was
  -- before. The registry must agree with its records (IsSaved), and neither the token nor its
  -- hash be empty.
  pub create_token-survives :
      (s s' : Registry) (swarm_id name token other : String)
      → IsSaved s
      → hash_token token ≢ ""
      → token ≢ ""
      → create_token hash_token s swarm_id name token ≡ ok s'
      → (loaded : Registry) × (from_file hash_token s'.file false ≡ ok loaded)
        × IsSaved loaded
        × (resolve hash_token loaded (some token) ≡ some (record_of swarm_id name token))
        × ((hash_token other ≡ hash_token token)
            ⊎ (resolve hash_token loaded (some other) ≡ resolve hash_token s (some other)))
  create_token-survives s s' swarm_id name token other v hashed real made =
      let r = record_of swarm_id name token in
      let (file, named) = create_token-made s s' swarm_id name token v.stored made in
      let full = All-snoc s.all_records r v.full (hashed, named) in
      let records = records-reloaded s r v refl in
      (
        reloaded s r,
        ap (λ f. from_file hash_token f false) file ∙ from_file-reloaded s r full,
        reloaded-IsSaved s r v (hashed, named),
        resolve_given (reloaded s r) token real
            ∙ ap (lookup (hash_token token)) records
            ∙ lookup-insert_self (hash_token token) r s.records,
        elim (string_eq.dec (hash_token other) (hash_token token)) [
          | yes same ↦ inl same
          | no n ↦ inr (resolve-other s (reloaded s r) other (hash_token token) r records n)
        ],
      )
