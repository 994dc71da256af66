-- ===== src/Directory/Cache.antt =====
-- What the cache of the directory holds.
use quinkgl_framework.Common.{
  ℕ, ◌≤◌, ◌<◌, String, ◌≡◌, ap, ◌∙◌, inl, inr, Bool, true, false, Option, none, some, [], ◌∷◌, ◌++◌,
  arith, if◌then◌else◌, Option-cases, if-elim, nat_eq, string_eq, pair_eq, length,
}
use quinkgl_framework.Common.Dict.{
  Dict, lookup, erase, NodupKeys, lookup-insert, lookup-insert_self, lookup-erase,
  lookup-erase_self, insert-NodupKeys, erase-NodupKeys, insert-absent,
}
use quinkgl_framework.Common.Purge.{
  erase_all, keys_where, passes, lookup-purge, erase_all-append, contains-keys_where,
}
use quinkgl_framework.Directory.Eviction.{
  length-evict_oldest, evict_oldest-NodupKeys, evict_expired-NodupKeys, lookup-evict_oldest,
  lookup-evict_expired, lookup-evict_last, lookup-erase_all-none,
}
use quinkgl_framework.Directory.{
  SwarmAdvertisement, Crypto, verify_advertisement, SwarmDirectory, is_expired, evict_expired,
  evict_oldest, received, is_superseded, store, accept, ingest,
}

-- The cache keeps to its limit, and has one advertisement for each swarm, under its id.
pub record IsCache (s : SwarmDirectory) : Type 0 where
  pub bounded : length s.cache ≤ s.max_cache
  pub distinct : NodupKeys s.cache
  pub keyed :
      (id : String) (ad : SwarmAdvertisement) → lookup id s.cache ≡ some ad → ad.swarm_id_hex ≡ id

store-NodupKeys :
    (s : SwarmDirectory) (ad : SwarmAdvertisement) (now : ℕ)
    → NodupKeys s.cache
    → NodupKeys (store s ad now)
unfolding store
store-NodupKeys s ad now u =
    insert-NodupKeys ad.swarm_id_hex (received s ad now) (erase ad.swarm_id_hex s.cache)
      (erase-NodupKeys ad.swarm_id_hex s.cache u)

store-keyed :
    (s : SwarmDirectory) (ad : SwarmAdvertisement) (now : ℕ)
    → ((id : String) (a : SwarmAdvertisement) → lookup id s.cache ≡ some a → a.swarm_id_hex ≡ id)
    → (id : String) (a : SwarmAdvertisement) → lookup id (store s ad now) ≡ some a
    → a.swarm_id_hex ≡ id
unfolding store received
store-keyed s ad now keyed id a h = elim (string_eq.dec id ad.swarm_id_hex) [
  | yes same ↦ ground (
    arith,
    h,
    same,
    lookup-insert id ad.swarm_id_hex (received s ad now) (erase ad.swarm_id_hex s.cache),
  )
  | no other ↦ keyed id a (
      ground (
        arith,
        h,
        lookup-insert id ad.swarm_id_hex (received s ad now) (erase ad.swarm_id_hex s.cache),
        lookup-erase id ad.swarm_id_hex s.cache,
      ))
]

accept-IsCache :
    (s : SwarmDirectory) (ad : SwarmAdvertisement) (now : ℕ)
    → IsCache s
    → IsCache (accept s ad now).0
unfolding accept
accept-IsCache s ad now v =
    if-elim (λ (r : SwarmDirectory × Bool). IsCache r.0) (is_superseded s ad now) (λ _. v)
      (λ _.
        let u = store-NodupKeys s ad now v.distinct in
        let w = evict_expired-NodupKeys now (store s ad now) u in
        record {
          bounded = length-evict_oldest s.max_cache (evict_expired now (store s ad now));
          distinct = evict_oldest-NodupKeys s.max_cache (evict_expired now (store s ad now)) w;
          keyed = λ id a h. store-keyed s ad now v.keyed id a (
              lookup-evict_expired now (store s ad now) id a u
                (lookup-evict_oldest s.max_cache (evict_expired now (store s ad now)) id a w h));
        })

-- If the cache of a directory keeps to its limit, has distinct keys, and keeps each
-- advertisement under its swarm id, it does so after any advertisement has come in.
pub ingest-IsCache :
    (crypto : Crypto) (s : SwarmDirectory) (ad : SwarmAdvertisement) (now : ℕ)
    → IsCache s
    → IsCache (ingest crypto s ad now).0
unfolding ingest
ingest-IsCache crypto s ad now v =
    if-elim (λ (r : SwarmDirectory × Bool). IsCache r.0) (verify_advertisement crypto ad)
      (λ _. accept-IsCache s ad now v) (λ _. v)

store-append :
    (s : SwarmDirectory) (ad : SwarmAdvertisement) (now : ℕ)
    → store s ad now ≡ erase ad.swarm_id_hex s.cache ++ (ad.swarm_id_hex, received s ad now) ∷ []
unfolding store
store-append s ad now =
    insert-absent ad.swarm_id_hex (received s ad now) (erase ad.swarm_id_hex s.cache)
      (lookup-erase_self ad.swarm_id_hex s.cache)

lookup-store :
    (s : SwarmDirectory) (ad : SwarmAdvertisement) (now : ℕ)
    → lookup ad.swarm_id_hex (store s ad now) ≡ some (received s ad now)
unfolding store
lookup-store s ad now =
    lookup-insert_self ad.swarm_id_hex (received s ad now) (erase ad.swarm_id_hex s.cache)

-- The cache after the new advertisement, the expired ones and the excess have been dealt with.
abbrev settled : SwarmDirectory → SwarmAdvertisement → ℕ → Dict String SwarmAdvertisement
settled s ad now = evict_oldest s.max_cache (evict_expired now (store s ad now))

lookup-evict_expired-store :
    (s : SwarmDirectory) (ad : SwarmAdvertisement) (now : ℕ)
    → NodupKeys s.cache
    → lookup ad.swarm_id_hex (evict_expired now (store s ad now))
      ≡ (if is_expired now (received s ad now) then none else some (received s ad now))
unfolding evict_expired
lookup-evict_expired-store s ad now u =
    lookup-purge (is_expired now) ad.swarm_id_hex (store s ad now) (store-NodupKeys s ad now u)
    ∙ ap (λ r. if passes (is_expired now) r then none else r) (lookup-store s ad now)

evict_expired-store-append :
    (s : SwarmDirectory) (ad : SwarmAdvertisement) (now : ℕ)
    → NodupKeys s.cache
    → is_expired now (received s ad now) ≡ false
    → evict_expired now (store s ad now)
      ≡ erase_all (keys_where (is_expired now) (store s ad now)) (erase ad.swarm_id_hex s.cache)
        ++ (ad.swarm_id_hex, received s ad now) ∷ []
unfolding evict_expired
evict_expired-store-append s ad now u fresh =
    ap (erase_all (keys_where (is_expired now) (store s ad now))) (store-append s ad now)
    ∙ erase_all-append (keys_where (is_expired now) (store s ad now)) ad.swarm_id_hex
        (received s ad now) (erase ad.swarm_id_hex s.cache)
        (contains-keys_where (is_expired now) ad.swarm_id_hex (store s ad now)
            (store-NodupKeys s ad now u)
          ∙ ap (passes (is_expired now)) (lookup-store s ad now)
          ∙ fresh)

lookup-settled_fresh :
    (s : SwarmDirectory) (ad : SwarmAdvertisement) (now : ℕ)
    → 0 < s.max_cache
    → NodupKeys s.cache
    → is_expired now (received s ad now) ≡ false
    → lookup ad.swarm_id_hex (settled s ad now) ≡ some (received s ad now)
lookup-settled_fresh s ad now pos u fresh =
    ap (λ d. lookup ad.swarm_id_hex (evict_oldest s.max_cache d))
      (evict_expired-store-append s ad now u fresh)
    ∙ lookup-evict_last s.max_cache
        (erase_all (keys_where (is_expired now) (store s ad now)) (erase ad.swarm_id_hex s.cache))
        ad.swarm_id_hex (received s ad now) pos
        (lookup-erase_all-none ad.swarm_id_hex (keys_where (is_expired now) (store s ad now))
          (erase ad.swarm_id_hex s.cache) (lookup-erase_self ad.swarm_id_hex s.cache))

lookup-settled_stale :
    (s : SwarmDirectory) (ad : SwarmAdvertisement) (now : ℕ)
    → NodupKeys s.cache
    → is_expired now (received s ad now) ≡ true
    → lookup ad.swarm_id_hex (settled s ad now) ≡ none
lookup-settled_stale s ad now u stale =
    elim (Option-cases (lookup ad.swarm_id_hex (settled s ad now))) [
      | inl h ↦ h
      | inr (a, h) ↦
          let w = store-NodupKeys s ad now u in
          let kept =
            lookup-evict_oldest s.max_cache (evict_expired now (store s ad now)) ad.swarm_id_hex a
              (evict_expired-NodupKeys now (store s ad now) w) h in
          absurd (ground (arith, kept, stale, lookup-evict_expired-store s ad now u))
    ]

lookup-settled :
    (s : SwarmDirectory) (ad : SwarmAdvertisement) (now : ℕ)
    → 0 < s.max_cache
    → NodupKeys s.cache
    → lookup ad.swarm_id_hex (settled s ad now)
      ≡ (if is_expired now (received s ad now) then none else some (received s ad now))
lookup-settled s ad now pos u =
    if-elim {A = Option SwarmAdvertisement} (λ r. lookup ad.swarm_id_hex (settled s ad now) ≡ r)
      (is_expired now (received s ad now)) (lookup-settled_stale s ad now u)
      (lookup-settled_fresh s ad now pos u)

-- Where ingest returns true, in a sound cache (IsCache) whose limit is not zero, the swarm has
-- the new advertisement afterwards, with its time of arrival, or nothing at all if that
-- advertisement has expired already.
pub ingest-lookup :
    (crypto : Crypto) (s : SwarmDirectory) (ad : SwarmAdvertisement) (now : ℕ)
    → 0 < s.max_cache
    → IsCache s
    → (ingest crypto s ad now).1 ≡ true
    → lookup ad.swarm_id_hex (ingest crypto s ad now).0.cache
      ≡ (if is_expired now (received s ad now) then none else some (received s ad now))
unfolding ingest accept
ingest-lookup crypto s ad now pos v =
    let Found : SwarmDirectory × Bool → Type 0 = (λ r.
      r.1 ≡ true
      → lookup ad.swarm_id_hex r.0.cache
        ≡ (if is_expired now (received s ad now) then none else some (received s ad now))) in
    if-elim Found (verify_advertisement crypto ad)
      (λ _.
        if-elim Found (is_superseded s ad now) (λ _ taken. absurd (ground (arith, taken)))
          (λ _ _. lookup-settled s ad now pos v.distinct))
      (λ _ taken. absurd (ground (arith, taken)))
