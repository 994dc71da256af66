-- ===== src/Store/Values/RoundTrip.antt =====
-- Values come back from the bytes of src/quinkgl/storage/model_store.py, apart from their tuples and
-- numpy numbers.
use quinkgl_framework.Common.{
  ℕ, String, ◌≡◌, refl, ap, ap₂, Option, none, some, arith, nat_eq, string_eq, pair_eq,
}
use quinkgl_framework.Store.Values.{
  Array, Value, Items, Fields, Formats, null, boolean, integer, floating, numpy_integer,
  numpy_floating, datetime, text, ndarray, list, tuple, dict, nil, cons, end, field,
  serialize_value, serialize_items, serialize_fields, deserialize_value, deserialize_items,
  deserialize_fields, get_field, read_array, read_datetime, read_dict, as_list, as_dict, with_item,
  with_field,
}

-- msgpack packs a tuple as an array, and unpacks every array as a list.
unfoldable mutual
  pub lists_only : Value → Value
  lists_only (tuple xs) = list (lists_only_items xs)
  lists_only (list xs) = list (lists_only_items xs)
  lists_only (dict fs) = dict (lists_only_fields fs)
  lists_only v = v

  pub lists_only_items : Items → Items
  lists_only_items nil = nil
  lists_only_items (cons x xs) = cons (lists_only x) (lists_only_items xs)

  pub lists_only_fields : Fields → Fields
  lists_only_fields end = end
  lists_only_fields (field k v fs) = field k (lists_only v) (lists_only_fields fs)

-- No tuples, no numpy numbers, no dict with a key "__type__", and only arrays and times that numpy and
-- datetime read back as they were written.
unfoldable mutual
  unfolding get_field

  pub IsStorable : Formats → Value → Type 0
  IsStorable h (tuple xs) = ⊥
  IsStorable h (numpy_integer n) = ⊥
  IsStorable h (numpy_floating n) = ⊥
  IsStorable h (ndarray a) = h.array_of_hex (h.array_hex a) ≡ some a
  IsStorable h (datetime t) = h.fromisoformat (h.isoformat t) ≡ some t
  IsStorable h (list xs) = AreStorable h xs
  IsStorable h (dict fs) = (get_field "__type__" fs ≡ none) × FieldsAreStorable h fs
  IsStorable h _ = Unit

  pub AreStorable : Formats → Items → Type 0
  AreStorable h nil = Unit
  AreStorable h (cons x xs) = IsStorable h x × AreStorable h xs

  pub FieldsAreStorable : Formats → Fields → Type 0
  FieldsAreStorable h end = Unit
  FieldsAreStorable h (field k v fs) = IsStorable h v × FieldsAreStorable h fs

-- What a value is that `_serialize_value` and msgpack leave as it is.
unfoldable mutual
  pub IsPlain : Value → Type 0
  IsPlain (tuple xs) = ⊥
  IsPlain (numpy_integer n) = ⊥
  IsPlain (numpy_floating n) = ⊥
  IsPlain (ndarray a) = ⊥
  IsPlain (datetime t) = ⊥
  IsPlain (list xs) = ArePlain xs
  IsPlain (dict fs) = FieldsArePlain fs
  IsPlain _ = Unit

  pub ArePlain : Items → Type 0
  ArePlain nil = Unit
  ArePlain (cons x xs) = IsPlain x × ArePlain xs

  pub FieldsArePlain : Fields → Type 0
  FieldsArePlain end = Unit
  FieldsArePlain (field k v fs) = IsPlain v × FieldsArePlain fs

get_field-written :
    (h : Formats) (key : String) (fs : Fields)
    → get_field key fs ≡ none
    → get_field key (lists_only_fields (serialize_fields h fs)) ≡ none
unfolding get_field lists_only serialize_value
get_field-written h key end e = refl
get_field-written h key (field k v fs) e = ground (arith, e, get_field-written h key fs)

mutual
  unfolding serialize_value deserialize_value lists_only IsStorable read_dict read_array
      read_datetime get_field string_eq

  stored_back :
      (h : Formats) (v : Value)
      → IsStorable h v
      → deserialize_value h (lists_only (serialize_value h v)) ≡ some v
  stored_back h null s = refl
  stored_back h (boolean b) s = refl
  stored_back h (integer n) s = refl
  stored_back h (floating n) s = refl
  stored_back h (text t) s = refl
  stored_back h (numpy_integer n) s = absurd s
  stored_back h (numpy_floating n) s = absurd s
  stored_back h (tuple xs) s = absurd s
  stored_back h (ndarray a) s =
      ap (λ (o : Option Array). elim o [ none ↦ none | some b ↦ some (ndarray b) ]) s
  stored_back h (datetime t) s =
      ap (λ (o : Option ℕ). elim o [ none ↦ none | some u ↦ some (datetime u) ]) s
  stored_back h (list xs) s = ap as_list (items_back h xs s)
  stored_back h (dict fs) s =
      ap₂ (λ o r. read_dict h o (lists_only_fields (serialize_fields h fs)) (as_dict r))
        (get_field-written h "__type__" fs s.0) (fields_back h fs s.1)

  items_back :
      (h : Formats) (xs : Items)
      → AreStorable h xs
      → deserialize_items h (lists_only_items (serialize_items h xs)) ≡ some xs
  items_back h nil s = refl
  items_back h (cons x xs) s = ap₂ with_item (stored_back h x s.0) (items_back h xs s.1)

  fields_back :
      (h : Formats) (fs : Fields)
      → FieldsAreStorable h fs
      → deserialize_fields h (lists_only_fields (serialize_fields h fs)) ≡ some fs
  fields_back h end s = refl
  fields_back h (field k v fs) s = ap₂ (with_field k) (stored_back h v s.0) (fields_back h fs s.1)

mutual
  unfolding serialize_value lists_only IsPlain

  plain_kept : (h : Formats) (v : Value) → IsPlain v → lists_only (serialize_value h v) ≡ v
  plain_kept h null s = refl
  plain_kept h (boolean b) s = refl
  plain_kept h (integer n) s = refl
  plain_kept h (floating n) s = refl
  plain_kept h (text t) s = refl
  plain_kept h (numpy_integer n) s = absurd s
  plain_kept h (numpy_floating n) s = absurd s
  plain_kept h (tuple xs) s = absurd s
  plain_kept h (ndarray a) s = absurd s
  plain_kept h (datetime t) s = absurd s
  plain_kept h (list xs) s = ap list (plain_items_kept h xs s)
  plain_kept h (dict fs) s = ap dict (plain_fields_kept h fs s)

  plain_items_kept :
      (h : Formats) (xs : Items) → ArePlain xs → lists_only_items (serialize_items h xs) ≡ xs
  plain_items_kept h nil s = refl
  plain_items_kept h (cons x xs) s = ap₂ cons (plain_kept h x s.0) (plain_items_kept h xs s.1)

  plain_fields_kept :
      (h : Formats) (fs : Fields)
      → FieldsArePlain fs
      → lists_only_fields (serialize_fields h fs) ≡ fs
  plain_fields_kept h end s = refl
  plain_fields_kept h (field k v fs) s =
      ap₂ (field k) (plain_kept h v s.0) (plain_fields_kept h fs s.1)

-- A storable value is read back from what msgpack unpacks.
pub deserialize_value-stored :
    (h : Formats) (v : Value)
    → IsStorable h v
    → deserialize_value h (lists_only (serialize_value h v)) ≡ some v
deserialize_value-stored h v s = stored_back h v s

pub serialize_value-plain :
    (h : Formats) (v : Value) → IsPlain v → lists_only (serialize_value h v) ≡ v
serialize_value-plain h v s = plain_kept h v s
