-- ===== src/Store/Values.antt =====
-- The values that src/quinkgl/storage/model_store.py saves, and how it makes them fit for msgpack:
-- `_serialize_value` and `_deserialize_value`. Dicts have text keys; a number is its integer value or
-- the pattern of its bits; bytes and objects of other classes are left out.
pub mod RoundTrip
use quinkgl_framework.Common.{
  ℕ, String, Bool, Option, none, some, List, [], ◌∷◌, if◌then◌else◌, ◌==◌, nat_eq, string_eq,
  pair_eq,
}

-- A numpy array: what `np.save` writes, and the shape.
pub record Array : Type 0 where
  pub dtype : String
  pub shape : List ℕ
  pub elements : List ℕ

mutual
  pub data Value : Type 0 where
    null : Value
    boolean : Bool → Value
    integer floating numpy_integer numpy_floating datetime : ℕ → Value
    text : String → Value
    ndarray : Array → Value
    list tuple : Items → Value
    dict : Fields → Value

  pub data Items : Type 0 where
    nil : Items
    cons : Value → Items → Items

  pub data Fields : Type 0 where
    end : Fields
    field : String → Value → Fields → Fields

-- What the source takes from numpy and datetime. None is an exception.
pub record Formats : Type 0 where
  -- `np.save` and `bytes.hex`
  pub array_hex : Array → String
  -- `bytes.fromhex` and `np.load`
  pub array_of_hex : String → Option Array
  pub isoformat : ℕ → String
  pub fromisoformat : String → Option ℕ

abbrev integers : List ℕ → Items
integers [] = nil
integers (n ∷ ns) = cons (integer n) (integers ns)

abbrev pub array_dict : Formats → Array → Fields
array_dict h a = field "__type__" (text "numpy.ndarray") (
    field "__data__" (text (h.array_hex a))
      (field "dtype" (text a.dtype) (field "shape" (tuple (integers a.shape)) end)))

abbrev pub datetime_dict : Formats → ℕ → Fields
datetime_dict h t = field "__type__" (text "datetime") (field "value" (text (h.isoformat t)) end)

unfoldable mutual
  pub serialize_value : Formats → Value → Value
  serialize_value h (ndarray a) = dict (array_dict h a)
  serialize_value h (numpy_integer n) = integer n
  serialize_value h (numpy_floating n) = floating n
  serialize_value h (datetime t) = dict (datetime_dict h t)
  serialize_value h (dict fs) = dict (serialize_fields h fs)
  serialize_value h (list xs) = list (serialize_items h xs)
  serialize_value h (tuple xs) = list (serialize_items h xs)
  serialize_value h null = null
  serialize_value h (boolean b) = boolean b
  serialize_value h (integer n) = integer n
  serialize_value h (floating n) = floating n
  serialize_value h (text s) = text s

  pub serialize_items : Formats → Items → Items
  serialize_items h nil = nil
  serialize_items h (cons x xs) = cons (serialize_value h x) (serialize_items h xs)

  pub serialize_fields : Formats → Fields → Fields
  serialize_fields h end = end
  serialize_fields h (field k v fs) = field k (serialize_value h v) (serialize_fields h fs)

-- `value.get(key)`
unfoldable pub get_field : String → Fields → Option Value
get_field key end = none
get_field key (field k v fs) = let rest = get_field key fs in if k == key then some v else rest

unfoldable pub read_array : Formats → Option Value → Option Value
read_array h (some (text s)) = elim (h.array_of_hex s) [ none ↦ none | some a ↦ some (ndarray a) ]
read_array h _ = none

unfoldable pub read_datetime : Formats → Option Value → Option Value
read_datetime h (some (text s)) = elim (h.fromisoformat s) [
  | none ↦ none
  | some t ↦ some (datetime t)
]
read_datetime h _ = none

-- By the type that a dict names, or as a regular dict.
unfoldable pub read_dict : Formats → Option Value → Fields → Option Value → Option Value
unfolding read_array read_datetime get_field
read_dict h (some (text name)) fs regular =
    if name == "numpy.ndarray"
    then read_array h (get_field "__data__" fs)
    else (if name == "datetime" then read_datetime h (get_field "value" fs) else regular)
read_dict h _ fs regular = regular

abbrev pub as_list : Option Items → Option Value
as_list none = none
as_list (some xs) = some (list xs)

abbrev pub as_dict : Option Fields → Option Value
as_dict none = none
as_dict (some fs) = some (dict fs)

abbrev pub with_item : Option Value → Option Items → Option Items
with_item (some x) (some xs) = some (cons x xs)
with_item _ _ = none

abbrev pub with_field : String → Option Value → Option Fields → Option Fields
with_field k (some v) (some fs) = some (field k v fs)
with_field k _ _ = none

-- None is an exception.
unfoldable mutual
  unfolding read_dict get_field

  pub deserialize_value : Formats → Value → Option Value
  deserialize_value h (dict fs) =
      read_dict h (get_field "__type__" fs) fs (as_dict (deserialize_fields h fs))
  deserialize_value h (list xs) = as_list (deserialize_items h xs)
  deserialize_value h (tuple xs) = some (tuple xs)
  deserialize_value h (ndarray a) = some (ndarray a)
  deserialize_value h (numpy_integer n) = some (numpy_integer n)
  deserialize_value h (numpy_floating n) = some (numpy_floating n)
  deserialize_value h (datetime t) = some (datetime t)
  deserialize_value h null = some null
  deserialize_value h (boolean b) = some (boolean b)
  deserialize_value h (integer n) = some (integer n)
  deserialize_value h (floating n) = some (floating n)
  deserialize_value h (text s) = some (text s)

  pub deserialize_items : Formats → Items → Option Items
  deserialize_items h nil = some nil
  deserialize_items h (cons x xs) = with_item (deserialize_value h x) (deserialize_items h xs)

  pub deserialize_fields : Formats → Fields → Option Fields
  deserialize_fields h end = some end
  deserialize_fields h (field k v fs) =
      with_field k (deserialize_value h v) (deserialize_fields h fs)
