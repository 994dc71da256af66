-- ===== src/Telemetry/Tokens.antt =====
-- `TelemetryTokenRegistry` of src/quinkgl/telemetry/tokens.py: the tokens that may report for a swarm,
-- by their hashes, and the file that keeps them. A file that is read has the fields of its entries as
-- texts; the hash of a token and the fresh token are arguments.
pub mod Persistence
use quinkgl_framework.Common.{
  ℕ, String, Bool, true, false, Option, none, some, List, [], ◌∷◌, ◌++◌, map, if◌then◌else◌, ◌==◌,
  nat_eq, string_eq, pair_eq, Result, ok, err,
}
use quinkgl_framework.Common.Dict.{Dict, lookup, insert}

pub record TokenRecord : Type 0 where
  pub swarm_id : String
  pub token_hash : String
  pub name : String
  pub revoked : Bool

-- An entry of the file.
pub record Entry : Type 0 where
  pub token : Option String
  pub token_hash : Option String
  pub swarm_id : Option String
  pub name : Option String
  pub revoked : Bool

-- The file: missing, blank, or a document with entries, or with another content.
pub data TokenFile : Type 0 where
  missing blank malformed : TokenFile
  entries : List Entry → TokenFile

pub record Registry : Type 0 where
  pub has_path : Bool
  pub records : Dict String TokenRecord
  pub all_records : List TokenRecord
  pub file : TokenFile

pub data TokenError : Type 0 where
  no_token no_swarm_id bad_file : TokenError

-- The dict of the records that are not revoked; a later one replaces an earlier one.
unfoldable pub live_from : Dict String TokenRecord → List TokenRecord → Dict String TokenRecord
live_from d [] = d
live_from d (r ∷ rs) = live_from (if r.revoked then d else insert r.token_hash r d) rs

unfoldable pub new_registry : List TokenRecord → Bool → TokenFile → Registry
unfolding live_from
new_registry records has_path file = record {
  has_path = has_path;
  records = live_from [] records;
  all_records = records;
  file = file;
}

-- A text that counts as false is as good as none.
abbrev pub given : Option String → Option String
given none = none
given (some s) = if s == "" then none else some s

abbrev pub with_record :
    Result TokenError TokenRecord
    → Result TokenError (List TokenRecord)
    → Result TokenError (List TokenRecord)
with_record (err x) rest = err x
with_record (ok r) (err x) = err x
with_record (ok r) (ok rs) = ok (r ∷ rs)

abbrev pub registry_of :
    TokenFile → Result TokenError (List TokenRecord) → Result TokenError Registry
registry_of file (err x) = err x
registry_of file (ok rs) = ok (new_registry rs true file)

module _ (hash_token : String → String) where
  -- `token` goes before `token_hash`.
  unfoldable pub entry_hash : Entry → Option String
  entry_hash e = elim (given e.token) [ none ↦ given e.token_hash | some t ↦ some (hash_token t) ]

  unfoldable pub from_entry : Entry → Result TokenError TokenRecord
  unfolding entry_hash
  from_entry e = elim (entry_hash e) [
    | none ↦ err no_token
    | some h ↦ elim (given e.swarm_id) [
      | none ↦ err no_swarm_id
      | some s ↦ ok (record {
        swarm_id = s;
        token_hash = h;
        name = elim e.name [ none ↦ "" | some n ↦ n ];
        revoked = e.revoked;
      })
    ]
  ]

  unfoldable pub from_entries : List Entry → Result TokenError (List TokenRecord)
  unfolding from_entry
  from_entries [] = ok []
  from_entries (e ∷ es) = with_record (from_entry e) (from_entries es)

  unfoldable pub from_file : TokenFile → Bool → Result TokenError Registry
  unfolding from_entries new_registry
  from_file missing missing_ok =
      if missing_ok then ok (new_registry [] true missing) else err bad_file
  from_file blank missing_ok = ok (new_registry [] true blank)
  from_file malformed missing_ok = err bad_file
  from_file (entries es) missing_ok = registry_of (entries es) (from_entries es)

  unfoldable pub resolve : Registry → Option String → Option TokenRecord
  resolve s token = elim (given token) [ none ↦ none | some t ↦ lookup (hash_token t) s.records ]

  unfoldable pub to_entry : TokenRecord → Entry
  to_entry r = record {
    token = none;
    token_hash = some r.token_hash;
    swarm_id = some r.swarm_id;
    name = some r.name;
    revoked = r.revoked;
  }

  unfoldable pub persist : Registry → Registry
  unfolding to_entry
  persist s = if s.has_path then record s { file = entries (map to_entry s.all_records) } else s

  unfoldable pub create_token : Registry → String → String → String → Result TokenError Registry
  unfolding persist
  create_token s swarm_id name token =
      let r : TokenRecord = record {
        swarm_id = swarm_id;
        token_hash = hash_token token;
        name = name;
        revoked = false;
      } in
      if swarm_id == ""
      then err no_swarm_id
      else ok (
          persist (record s {
            records = insert r.token_hash r s.records;
            all_records = s.all_records ++ r ∷ [];
          }))
