-- ===== src/Rpc/Json/Access.antt =====
-- rpc/src/json_value.cpp: the accessors of a value. `logic_error` and `missing` are the exceptions
-- `std::logic_error` and `std::out_of_range`, the latter with the key that it names.
use audio_studio.Prelude.{
  ℕ, String, Bool, true, false, none, some, List, [], ◌∷◌, ◌≡◌, Ordering, refl, arith,
}
use audio_studio.Rpc.Json.{
  JsonValue, Items, Fields, null, bool, number, string, array, object, no_items, no_fields, field,
  find, push_back, compare_keys,
}

pub data Accessed {ℓ} (A : Type ℓ) : Type ℓ where
  value : A → Accessed A
  logic_error : String → Accessed A
  missing : List ℕ → Accessed A

unfoldable pub as_bool : JsonValue → Accessed Bool
as_bool (bool b) = value b
as_bool _ = logic_error "JSON value is not a bool"

unfoldable pub as_string : JsonValue → Accessed (List ℕ)
as_string (string text) = value text
as_string _ = logic_error "JSON value is not a string"

unfoldable pub as_array : JsonValue → Accessed Items
as_array (array values) = value values
as_array _ = logic_error "JSON value is not an array"

unfoldable pub as_object : JsonValue → Accessed Fields
as_object (object values) = value values
as_object _ = logic_error "JSON value is not an object"

unfoldable pub has : JsonValue → List ℕ → Bool
unfolding find
has (object values) key = elim (find key values) [ some v ↦ true | none ↦ false ]
has _ key = false

unfoldable pub at : JsonValue → List ℕ → Accessed JsonValue
unfolding find
at (object values) key = elim (find key values) [ some v ↦ value v | none ↦ missing key ]
at _ key = logic_error "JSON value is not an object"

-- `object_[key] = v`
unfoldable pub put : List ℕ → JsonValue → Fields → Fields
unfolding compare_keys
put key v no_fields = field key v no_fields
put key v (field k w fs) =
    let rest = put key v fs in
    elim (compare_keys key k) [
      | Ordering.lt ↦ field key v (field k w fs)
      | Ordering.eq ↦ field k v fs
      | Ordering.gt ↦ field k w rest
    ]

-- `json[key] = v`: null becomes an object first.
unfoldable pub assign : JsonValue → List ℕ → JsonValue → Accessed JsonValue
unfolding put
assign null key v = value (object (put key v no_fields))
assign (object values) key v = value (object (put key v values))
assign _ key v = logic_error "JSON value is not an object"

-- `pushBack`: null becomes an array first.
unfoldable pub push : JsonValue → JsonValue → Accessed JsonValue
unfolding push_back
push null v = value (array (push_back no_items v))
push (array values) v = value (array (push_back values v))
push _ v = logic_error "JSON value is not an array"

compare_keys_refl : (key : List ℕ) → compare_keys key key ≡ Ordering.eq
unfolding compare_keys
compare_keys_refl [] = refl
compare_keys_refl (c ∷ key) = ground (arith, compare_keys_refl key)

find-put : (key : List ℕ) (v : JsonValue) (fs : Fields) → find key (put key v fs) ≡ some v
unfolding find put
find-put key v no_fields = ground (arith, compare_keys_refl key)
find-put key v (field k w fs) = ground (arith, compare_keys_refl key, find-put key v fs)

-- What was assigned to a key of an object, or of null, is what `at` finds there.
pub at-assign :
    (json : JsonValue) (key : List ℕ) (v written : JsonValue)
    → assign json key v ≡ value written
    → at written key ≡ value v
unfolding assign at
at-assign null key v written e = ground (arith, find-put key v no_fields)
at-assign (object fs) key v written e = ground (arith, find-put key v fs)
at-assign (bool b) key v written e = absurd (ground arith)
at-assign (number raw) key v written e = absurd (ground arith)
at-assign (string text) key v written e = absurd (ground arith)
at-assign (array xs) key v written e = absurd (ground arith)
