-- ===== src/Store/Checkpoint.antt =====
-- `ModelCheckpoint` and `CheckpointMetadata` of src/quinkgl/storage/model_store.py, and their bytes.
-- Rounds are natural numbers; a negative one is refused by `__post_init__`.
use quinkgl_framework.Common.{
  ℕ, ◌*◌, String, Bool, false, Option, none, some, List, [], if◌then◌else◌, ◌==◌, nat_eq, string_eq,
  pair_eq, length, take, Result, ok, err, ◌>>=◌, list_eq,
}
use quinkgl_framework.Store.Values.{Value, Formats, datetime, serialize_value, deserialize_value}
use quinkgl_framework.Store.Names.{
  Text, StoreError, not_serializable, deserialize_failed, validate_checkpoint_id,
}

abbrev pub Bytes : Type 0
Bytes = List ℕ

pub record ModelCheckpoint : Type 0 where
  pub round_number : ℕ
  pub weights : Value
  pub timestamp : ℕ
  pub metrics : Value
  pub contributing_peers : List String
  pub checkpoint_id : Text
  pub checksum : Text

pub record CheckpointMetadata : Type 0 where
  pub checkpoint_id : Text
  pub round_number : ℕ
  pub timestamp : ℕ
  pub metrics : Value
  pub contributing_peers : List String
  pub checksum : Text
  pub size_bytes : ℕ

-- What is packed: the fields of a checkpoint as `_serialize_value` gives them, and the checksum where
-- the document has one. A list of peers stays as it is.
pub record CheckpointDocument : Type 0 where
  pub round_number : ℕ
  pub timestamp : Value
  pub metrics : Value
  pub contributing_peers : List String
  pub checkpoint_id : Text
  pub weights : Value
  pub checksum : Option Text

pub record MetadataDocument : Type 0 where
  pub checkpoint_id : Text
  pub round_number : ℕ
  pub timestamp : Value
  pub metrics : Value
  pub contributing_peers : List String
  pub checksum : Text
  pub size_bytes : ℕ

-- What the store takes from msgpack, zlib, hashlib, numpy and datetime. None is an exception.
pub record Codec : Type 0 where
  pub formats : Formats
  -- f"{round_number}_{timestamp}".encode()
  pub content : ℕ → ℕ → Bytes
  -- `hashlib.sha256(data).hexdigest()`
  pub hexdigest : Bytes → Text
  -- `msgpack.packb` and `msgpack.unpackb` of a dict with these keys
  pub pack : CheckpointDocument → Option Bytes
  pub unpack : Bytes → Option CheckpointDocument
  pub pack_metadata : MetadataDocument → Option Bytes
  pub unpack_metadata : Bytes → Option MetadataDocument
  -- `zlib.compress(data, level=3)`
  pub compress : Bytes → Bytes
  -- `zlib.decompress(data, max_length=n)`
  pub decompress : Bytes → ℕ → Option Bytes

unfoldable pub payload_dict : Codec → ModelCheckpoint → CheckpointDocument
unfolding serialize_value
payload_dict h c = record {
  round_number = c.round_number;
  timestamp = serialize_value h.formats (datetime c.timestamp);
  metrics = serialize_value h.formats c.metrics;
  contributing_peers = c.contributing_peers;
  checkpoint_id = c.checkpoint_id;
  weights = serialize_value h.formats c.weights;
  checksum = none;
}

unfoldable pub compute_checksum : Codec → ModelCheckpoint → Result StoreError Text
unfolding payload_dict
compute_checksum h c = elim (h.pack (payload_dict h c)) [
  | none ↦ err not_serializable
  | some bytes ↦ ok (h.hexdigest bytes)
]

unfoldable pub with_checksum : Codec → ModelCheckpoint → Result StoreError ModelCheckpoint
unfolding compute_checksum
with_checksum h c =
    if c.checksum == []
    then compute_checksum h c >>= (λ sum. ok (record c { checksum = sum }))
    else ok c

unfoldable pub with_id : Codec → ModelCheckpoint → ModelCheckpoint
with_id h c =
    if c.checkpoint_id == []
    then record c { checkpoint_id = take 16 (h.hexdigest (h.content c.round_number c.timestamp)) }
    else c

-- `__post_init__`
unfoldable pub post_init : Codec → ModelCheckpoint → Result StoreError ModelCheckpoint
unfolding with_id with_checksum
post_init h c =
    let named = with_id h c in
    validate_checkpoint_id named.checkpoint_id >>= λ valid. with_checksum h named

unfoldable pub verify_checksum : Codec → ModelCheckpoint → Bool
unfolding compute_checksum
verify_checksum h c = elim (compute_checksum h c) [ ok sum ↦ c.checksum == sum | err _ ↦ false ]

unfoldable pub document_of : Codec → ModelCheckpoint → CheckpointDocument
unfolding payload_dict
document_of h c = record (payload_dict h c) { checksum = some c.checksum }

unfoldable pub serialize_checkpoint : Codec → ModelCheckpoint → Bool → Option Bytes
unfolding document_of
serialize_checkpoint h c compressed = elim (h.pack (document_of h c)) [
  | none ↦ none
  | some bytes ↦ some (if compressed then h.compress bytes else bytes)
]

-- With the time and the weights; a value that is not a time is taken for an exception.
unfoldable pub checkpoint_with :
    CheckpointDocument → Option Value → Option Value → Option ModelCheckpoint
checkpoint_with d (some (datetime t)) (some w) = some (record {
  round_number = d.round_number;
  weights = w;
  timestamp = t;
  metrics = d.metrics;
  contributing_peers = d.contributing_peers;
  checkpoint_id = d.checkpoint_id;
  checksum = elim d.checksum [ none ↦ [] | some sum ↦ sum ];
})
checkpoint_with d _ _ = none

unfoldable pub checkpoint_of : Codec → CheckpointDocument → Option ModelCheckpoint
unfolding checkpoint_with deserialize_value
checkpoint_of h d =
    checkpoint_with d (deserialize_value h.formats d.timestamp)
      (deserialize_value h.formats d.weights)

unfoldable pub made_of : Codec → Option ModelCheckpoint → Result StoreError ModelCheckpoint
unfolding post_init
made_of h none = err deserialize_failed
made_of h (some c) = elim (post_init h c) [ ok made ↦ ok made | err _ ↦ err deserialize_failed ]

unfoldable pub unpacked : Codec → Option Bytes → Result StoreError ModelCheckpoint
unfolding checkpoint_of made_of
unpacked h none = err deserialize_failed
unpacked h (some bytes) = elim (h.unpack bytes) [
  | none ↦ err deserialize_failed
  | some d ↦ made_of h (checkpoint_of h d)
]

unfoldable pub deserialize_checkpoint : Codec → Bytes → Bool → Result StoreError ModelCheckpoint
unfolding unpacked
deserialize_checkpoint h bytes compressed =
    unpacked h (if compressed then h.decompress bytes (length bytes * 100) else some bytes)

unfoldable pub checkpoint_to_metadata : ModelCheckpoint → ℕ → CheckpointMetadata
checkpoint_to_metadata c size_bytes = record {
  checkpoint_id = c.checkpoint_id;
  round_number = c.round_number;
  timestamp = c.timestamp;
  metrics = c.metrics;
  contributing_peers = c.contributing_peers;
  checksum = c.checksum;
  size_bytes = size_bytes;
}

unfoldable pub metadata_dict : Codec → CheckpointMetadata → MetadataDocument
unfolding serialize_value
metadata_dict h m = record {
  checkpoint_id = m.checkpoint_id;
  round_number = m.round_number;
  timestamp = serialize_value h.formats (datetime m.timestamp);
  metrics = serialize_value h.formats m.metrics;
  contributing_peers = m.contributing_peers;
  checksum = m.checksum;
  size_bytes = m.size_bytes;
}

unfoldable pub serialize_metadata : Codec → CheckpointMetadata → Option Bytes
unfolding metadata_dict
serialize_metadata h m = h.pack_metadata (metadata_dict h m)

unfoldable pub metadata_with :
    MetadataDocument → Option Value → Option Value → Option CheckpointMetadata
metadata_with d (some (datetime t)) (some metrics) = elim (validate_checkpoint_id d.checkpoint_id) [
  | ok valid ↦ some (record {
    checkpoint_id = valid;
    round_number = d.round_number;
    timestamp = t;
    metrics = metrics;
    contributing_peers = d.contributing_peers;
    checksum = d.checksum;
    size_bytes = d.size_bytes;
  })
  | err _ ↦ none
]
metadata_with d _ _ = none

-- `_deserialize_checkpoint_metadata`
unfoldable pub deserialize_metadata : Codec → Bytes → Option CheckpointMetadata
unfolding metadata_with deserialize_value
deserialize_metadata h bytes = elim (h.unpack_metadata bytes) [
  | none ↦ none
  | some d ↦
      metadata_with d (deserialize_value h.formats d.timestamp)
        (deserialize_value h.formats d.metrics)
]
