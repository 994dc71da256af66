-- ===== src/Tests/Advertising.antt =====
-- The theorems on the directory of swarms at concrete inputs.
use quinkgl_framework.Common.{
  ◌≤◌, String, ◌≡◌, refl, true, none, some, [], ◌∷◌, arith, ℕ_discrete, nat_eq, string_eq, pair_eq,
  length,
}
use quinkgl_framework.Directory.{SwarmAdvertisement, Crypto, SwarmDirectory, new_directory}
use quinkgl_framework.Directory.Ledger.{IsLimited}
use quinkgl_framework.Directory.Quota.{publish_all, publish_all-bounded}

-- Every key and every signature is good.
abbrev open_crypto : Crypto
open_crypto = record { canonical_bytes = λ _. []; loads = λ _. true; verify = λ _ _ _. true }

abbrev empty : SwarmDirectory
empty = record {
  max_cache = 2;
  default_ttl = 100;
  max_per_creator = 5;
  max_per_session = 10;
  cache = [];
  creator_history = [];
  session_publish_count = 0;
}

-- 32 and 64 zero bytes in hexadecimal digits.
abbrev key : String
key = "ed25519:0000000000000000000000000000000000000000000000000000000000000000"

abbrev signature : String
signature =
    "ed25519:00000000000000000000000000000000000000000000000000000000000000000000000000000000000000000000000000000000000000000000000000000000"

abbrev ad : SwarmAdvertisement
ad = record {
  swarm_id_hex = "s";
  name = "n";
  tags = [];
  input_shape = [];
  output_shape = [];
  label_type = "class";
  data_schema_hash = "d";
  reference_fingerprint = "{}";
  creator_pubkey = some key;
  signature = some signature;
  received_at = none;
  expires_at = some 500;
}

new_empty : new_directory 2 100 5 10 ≡ some empty
unfolding new_directory ℕ_discrete
new_empty = refl

publish_all-bounded_example :
    let log = (publish_all open_crypto empty ((ad, 1000) ∷ (ad, 1001) ∷ []) []).1 in
    (length log ≤ 10) × IsLimited 5 log
publish_all-bounded_example =
    publish_all-bounded open_crypto 2 100 5 10 empty ((ad, 1000) ∷ (ad, 1001) ∷ []) new_empty
      (omega arith, (omega arith, tt))
