-- ===== src/Directory.antt =====
-- `SwarmDirectoryCommunity` of src/quinkgl/network/directory.py: the cache of signed advertisements of
-- swarms, its limits, and its queries. Times are in seconds; the clock is an argument. The JSON of an
-- advertisement and the Ed25519 signature are the parameter Crypto.
pub mod Eviction
pub mod Cache
pub mod Ledger
pub mod Quota
use quinkgl_framework.Common.{
  ℕ, ◌+◌, ◌-◌, String, Bool, true, false, ◌&&◌, ◌||◌, Option, none, some, List, [], ◌∷◌, ◌++◌, ltb,
  leb, if◌then◌else◌, ◌==◌, contains, nat_eq, string_eq, pair_eq, length, keep,
}
use quinkgl_framework.Common.Dict.{Dict, lookup, insert, erase, values}
use quinkgl_framework.Common.Purge.{erase_all, keys_where}
use quinkgl_framework.Common.Text.{codes, strip_prefix, from_hex}

-- `SwarmAdvertisement`; the fingerprint is its JSON text.
pub record SwarmAdvertisement : Type 0 where
  pub swarm_id_hex : String
  pub name : String
  pub tags : List String
  pub input_shape : List ℕ
  pub output_shape : List ℕ
  pub label_type : String
  pub data_schema_hash : String
  pub reference_fingerprint : String
  pub creator_pubkey : Option String
  pub signature : Option String
  pub received_at : Option ℕ
  pub expires_at : Option ℕ

pub record Crypto : Type 0 where
  -- `canonical_bytes()`, by `json.dumps`
  pub canonical_bytes : SwarmAdvertisement → List ℕ
  -- `Ed25519PublicKey.from_public_bytes` succeeds
  pub loads : List ℕ → Bool
  -- `public_key.verify(signature, message)` does not raise
  pub verify : List ℕ → List ℕ → List ℕ → Bool

-- The bytes after "ed25519:", of the right length.
unfoldable pub raw_bytes : ℕ → String → Option (List ℕ)
unfolding strip_prefix from_hex
raw_bytes size s = elim (strip_prefix (codes "ed25519:") (codes s)) [
  | none ↦ none
  | some rest ↦ elim (from_hex rest none) [
    | none ↦ none
    | some raw ↦ if length raw == size then some raw else none
  ]
]

unfoldable pub verify_raw : Crypto → SwarmAdvertisement → Option (List ℕ) → Option (List ℕ) → Bool
verify_raw crypto ad (some key) (some signature) =
    crypto.loads key && crypto.verify key signature (crypto.canonical_bytes ad)
verify_raw crypto ad _ _ = false

unfoldable pub verify_advertisement : Crypto → SwarmAdvertisement → Bool
unfolding raw_bytes verify_raw
verify_advertisement crypto ad =
    let key : Option (List ℕ) = (elim ad.creator_pubkey [
      | none ↦ none
      | some k ↦ raw_bytes 32 k
    ]) in
    let signature : Option (List ℕ) = (elim ad.signature [
      | none ↦ none
      | some s ↦ raw_bytes 64 s
    ]) in
    verify_raw crypto ad key signature

abbrev pub month : ℕ
month = 2592000

abbrev pub day : ℕ
day = 86400

pub record SwarmDirectory : Type 0 where
  pub max_cache : ℕ
  pub default_ttl : ℕ
  pub max_per_creator : ℕ
  pub max_per_session : ℕ
  pub cache : Dict String SwarmAdvertisement
  pub creator_history : Dict String (List ℕ)
  pub session_publish_count : ℕ

-- `__init__`, which raises on a limit out of range.
unfoldable pub new_directory : ℕ → ℕ → ℕ → ℕ → Option SwarmDirectory
new_directory max_cache default_ttl max_per_creator max_per_session =
    if max_cache == 0 || (default_ttl == 0 || ltb month default_ttl)
    then none
    else some (record {
      max_cache = max_cache;
      default_ttl = default_ttl;
      max_per_creator = max_per_creator;
      max_per_session = max_per_session;
      cache = [];
      creator_history = [];
      session_publish_count = 0;
    })

unfoldable pub is_expired : ℕ → SwarmAdvertisement → Bool
is_expired now ad = elim ad.expires_at [ none ↦ false | some t ↦ leb t now ]

unfoldable pub evict_expired : ℕ → Dict String SwarmAdvertisement → Dict String SwarmAdvertisement
evict_expired now d = erase_all (keys_where (is_expired now) d) d

-- `while len(cache) > max: cache.popitem(last=False)`
unfoldable pub evict_oldest : ℕ → Dict String SwarmAdvertisement → Dict String SwarmAdvertisement
evict_oldest max_cache [] = []
evict_oldest max_cache (e ∷ d) =
    if ltb max_cache (length (e ∷ d)) then evict_oldest max_cache d else e ∷ d

-- The copy that the cache keeps.
unfoldable pub received : SwarmDirectory → SwarmAdvertisement → ℕ → SwarmAdvertisement
received s ad now = record ad {
  received_at = some now;
  expires_at = elim ad.expires_at [ none ↦ some (now + s.default_ttl) | some t ↦ some t ];
}

abbrev pub time_of : Option ℕ → ℕ
time_of none = 0
time_of (some t) = t

-- The cache has an advertisement of this swarm that is not older.
unfoldable pub is_superseded : SwarmDirectory → SwarmAdvertisement → ℕ → Bool
is_superseded s ad now = elim (lookup ad.swarm_id_hex s.cache) [
  | none ↦ false
  | some existing ↦ leb now (time_of existing.received_at)
]

-- The cache with the new advertisement at its end.
unfoldable pub store : SwarmDirectory → SwarmAdvertisement → ℕ → Dict String SwarmAdvertisement
unfolding received
store s ad now = insert ad.swarm_id_hex (received s ad now) (erase ad.swarm_id_hex s.cache)

-- `ingest` with `verify=False`
unfoldable pub accept : SwarmDirectory → SwarmAdvertisement → ℕ → SwarmDirectory × Bool
unfolding is_superseded store evict_expired evict_oldest
accept s ad now =
    if is_superseded s ad now
    then (s, false)
    else (record s { cache = evict_oldest s.max_cache (evict_expired now (store s ad now)) }, true)

unfoldable pub ingest : Crypto → SwarmDirectory → SwarmAdvertisement → ℕ → SwarmDirectory × Bool
unfolding accept
ingest crypto s ad now = if verify_advertisement crypto ad then accept s ad now else (s, false)

unfoldable pub all_advertisements : SwarmDirectory → ℕ → SwarmDirectory × List SwarmAdvertisement
unfolding evict_expired
all_advertisements s now =
    let live = evict_expired now s.cache in (record s { cache = live }, values live)

-- `while history and history[0] < window_start: history.popleft()`
unfoldable pub prune_history : ℕ → List ℕ → List ℕ
prune_history window_start [] = []
prune_history window_start (t ∷ h) =
    if ltb t window_start then prune_history window_start h else t ∷ h

pub data PublishError : Type 0 where
  signature_invalid creator_rate_limited session_rate_limited : PublishError

abbrev pub history_of : SwarmDirectory → String → List ℕ
history_of s creator = elim (lookup creator s.creator_history) [ none ↦ [] | some h ↦ h ]

-- A check that fails has pruned the history all the same.
unfoldable pub check_publish_quota :
    SwarmDirectory → String → ℕ → SwarmDirectory × Option PublishError
unfolding prune_history
check_publish_quota s creator now =
    let h = prune_history (now - day) (history_of s creator) in
    (
      record s { creator_history = insert creator h s.creator_history },
      if leb s.max_per_creator (length h)
          then some creator_rate_limited
          else (if leb s.max_per_session s.session_publish_count
              then some session_rate_limited
              else none),
    )

unfoldable pub record_publish : SwarmDirectory → String → ℕ → SwarmDirectory
record_publish s creator now = record s {
  creator_history = insert creator (history_of s creator ++ now ∷ []) s.creator_history;
  session_publish_count = s.session_publish_count + 1;
}

-- `publish` once the quota has been checked.
unfoldable pub finish_publish :
    SwarmDirectory
    → SwarmAdvertisement
    → String
    → ℕ
    → Option PublishError
    → SwarmDirectory × Option PublishError
unfolding record_publish accept
finish_publish s ad creator now (some e) = (s, some e)
finish_publish s ad creator now none = ((accept (record_publish s creator now) ad now).0, none)

-- `publish` for a creator; an advertisement that verifies has one, which the source asserts.
unfoldable pub publish_by :
    SwarmDirectory → SwarmAdvertisement → ℕ → Option String → SwarmDirectory × Option PublishError
unfolding check_publish_quota finish_publish
publish_by s ad now none = (s, some signature_invalid)
publish_by s ad now (some creator) =
    let (s', refused) = check_publish_quota s creator now in
    finish_publish s' ad creator now refused

unfoldable pub publish :
    Crypto → SwarmDirectory → SwarmAdvertisement → ℕ → SwarmDirectory × Option PublishError
unfolding verify_advertisement publish_by
publish crypto s ad now =
    if verify_advertisement crypto ad
    then publish_by s ad now ad.creator_pubkey
    else (s, some signature_invalid)

-- The filters of a query; the trusted creators are their public keys as texts.
pub record Query : Type 0 where
  pub tags : List String
  pub input_shape : List ℕ
  pub label_type : Option String
  pub trusted_creators : Option (List String)

abbrev pub same_shape : List ℕ → List ℕ → Bool
same_shape [] [] = true
same_shape [] (y ∷ ys) = false
same_shape (x ∷ xs) [] = false
same_shape (x ∷ xs) (y ∷ ys) = x == y && same_shape xs ys

abbrev pub has_all : List String → List String → Bool
has_all [] tags = true
has_all (t ∷ ts) tags = contains tags t && has_all ts tags

abbrev pub trusts : List String → Option String → Bool
trusts creators none = false
trusts creators (some k) = contains creators k

-- An empty list of tags, or an empty shape, is no filter.
unfoldable pub matches : Crypto → Query → SwarmAdvertisement → Bool
matches crypto q ad =
    has_all q.tags ad.tags
    && ((elim q.input_shape [ [] ↦ true | n ∷ ns ↦ same_shape ad.input_shape (n ∷ ns) ])
        && ((elim q.label_type [ none ↦ true | some l ↦ ad.label_type == l ])
            && (elim q.trusted_creators [
              | none ↦ true
              | some creators ↦ trusts creators ad.creator_pubkey && verify_advertisement crypto ad
            ])))

unfoldable pub query :
    Crypto → SwarmDirectory → Query → ℕ → SwarmDirectory × List SwarmAdvertisement
unfolding evict_expired matches
query crypto s q now =
    let live = evict_expired now s.cache in
    (record s { cache = live }, keep (matches crypto q) (values live))
