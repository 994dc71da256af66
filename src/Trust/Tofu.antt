-- ===== src/Trust/Tofu.antt =====
-- `TofuCache` of src/quinkgl/network/tofu.py: the creator key that was seen first for a swarm, under
-- the cache's lock. The file is its parsed JSON document, as far as it can be read; a write that
-- raises is not modelled, and the time is the text that a new entry gets.
pub mod Binding
pub mod Refinement
use quinkgl_framework.Common.{
  ℕ, String, Bool, true, false, Option, none, some, [], ◌∷◌, if◌then◌else◌, ◌==◌, nat_eq, string_eq,
  pair_eq, Result, ok, err,
}
use quinkgl_framework.Common.Dict.{Dict, lookup, insert, erase, has}

pub record TofuEntry : Type 0 where
  pub creator_pubkey : String
  pub first_seen : String

-- A field or an entry of the document: a text, an object with the two fields (if it has them), or
-- something else.
pub data Field : Type 0 where
  text : String → Field
  other : Field

pub data RawEntry : Type 0 where
  object : Option Field → Option Field → RawEntry
  not_object : RawEntry

-- The file: it is missing, cannot be read or parsed, has another root, or holds entries.
pub data Document : Type 0 where
  missing unreadable bad_root : Document
  root : Dict String RawEntry → Document

-- `TofuEntry.from_dict`, where none stands for the ValueError.
unfoldable pub from_dict : Option Field → Option Field → Option TofuEntry
from_dict (some (text pubkey)) (some (text first)) =
    some (record { creator_pubkey = pubkey; first_seen = first })
from_dict _ _ = none

unfoldable pub load_entries : Dict String RawEntry → Dict String TofuEntry
unfolding from_dict
load_entries [] = []
load_entries ((swarm_id, not_object) ∷ d) = load_entries d
load_entries ((swarm_id, object pubkey first) ∷ d) =
    let rest = load_entries d in
    elim (from_dict pubkey first) [ none ↦ rest | some entry ↦ (swarm_id, entry) ∷ rest ]

unfoldable pub load : Document → Dict String TofuEntry
unfolding load_entries
load missing = []
load unreadable = []
load bad_root = []
load (root d) = load_entries d

-- The cache in memory, once it has been loaded, and the file.
pub record TofuCache : Type 0 where
  pub cache : Option (Dict String TofuEntry)
  pub file : Document

unfoldable pub cached : TofuCache → Dict String TofuEntry
unfolding load
cached s = elim s.cache [ some d ↦ d | none ↦ load s.file ]

-- `to_dict`
unfoldable pub to_dict : TofuEntry → RawEntry
to_dict e = object (some (text e.creator_pubkey)) (some (text e.first_seen))

unfoldable pub dump : Dict String TofuEntry → Dict String RawEntry
unfolding to_dict
dump [] = []
dump ((swarm_id, e) ∷ d) = (swarm_id, to_dict e) ∷ dump d

-- `_flush`. The source sorts the keys; the order of a document's entries means nothing.
unfoldable pub flush : Dict String TofuEntry → TofuCache
unfolding dump
flush d = record { cache = some d; file = root (dump d) }

-- `_load_if_needed` leaves the entries in memory.
unfoldable pub loaded : TofuCache → TofuCache
unfolding cached
loaded s = record s { cache = some (cached s) }

unfoldable pub get : TofuCache → String → TofuCache × Option TofuEntry
unfolding loaded
get s swarm_id = (loaded s, lookup swarm_id (cached s))

pub data TofuError : Type 0 where
  empty_swarm_id empty_pubkey : TofuError
  tofu_conflict : String → String → TofuError

unfoldable pub record_or_validate :
    TofuCache → String → String → String → TofuCache × Result TofuError TofuEntry
unfolding loaded flush
record_or_validate s swarm_id creator_pubkey now =
    if swarm_id == ""
    then (s, err empty_swarm_id)
    else (if creator_pubkey == ""
        then (s, err empty_pubkey)
        else elim (lookup swarm_id (cached s)) [
          | none ↦
              let entry : TofuEntry = record {
                creator_pubkey = creator_pubkey;
                first_seen = now;
              } in
              (flush (insert swarm_id entry (cached s)), ok entry)
          | some existing ↦
              if existing.creator_pubkey == creator_pubkey
              then (loaded s, ok existing)
              else (loaded s, err (tofu_conflict existing.creator_pubkey creator_pubkey))
        ])

unfoldable pub forget : TofuCache → String → TofuCache × Bool
unfolding loaded flush
forget s swarm_id =
    if has swarm_id (cached s) then (flush (erase swarm_id (cached s)), true) else (loaded s, false)

-- Only a file that exists is written.
unfoldable pub clear : TofuCache → TofuCache
unfolding flush
clear s = elim s.file [ missing ↦ record s { cache = some [] } | _ ↦ flush [] ]
