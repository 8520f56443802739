-- ===== src/Rpc/Json.antt =====
-- rpc/src/json_value.hpp and json_value.cpp: a JSON value and its accessors. A `std::string` is the
-- list of its bytes; an object is a `std::map`, so its fields stand in the order of their keys.
pub mod Scan
pub mod Number
pub mod Text
pub mod Parser
pub mod Dump
pub mod RoundTrip
pub mod Termination
pub mod Access
pub mod Numerals
pub mod NumeralRoundTrip
pub mod IntRoundTrip
pub mod KeyOrder
use audio_studio.Prelude.{
  ℕ, ◌≡◌, Bool, true, false, Option, none, some, List, [], ◌∷◌, compare, Ordering,
}

mutual
  pub data JsonValue : Type 0 where
    null : JsonValue
    bool : Bool → JsonValue
    number : List ℕ → JsonValue
    string : List ℕ → JsonValue
    array : Items → JsonValue
    object : Fields → JsonValue

  pub data Items : Type 0 where
    no_items : Items
    item : JsonValue → Items → Items

  pub data Fields : Type 0 where
    no_fields : Fields
    field : List ℕ → JsonValue → Fields → Fields

-- `std::string::compare`
unfoldable pub compare_keys : List ℕ → List ℕ → Ordering
compare_keys [] [] = Ordering.eq
compare_keys [] (d ∷ t) = Ordering.lt
compare_keys (c ∷ s) [] = Ordering.gt
compare_keys (c ∷ s) (d ∷ t) = elim (compare c d) [
  | Ordering.eq ↦ compare_keys s t
  | Ordering.lt ↦ Ordering.lt
  | Ordering.gt ↦ Ordering.gt
]

-- `object_.emplace(key, value)`: the field that is there already stays.
unfoldable pub emplace : List ℕ → JsonValue → Fields → Fields
unfolding compare_keys
emplace key value no_fields = field key value no_fields
emplace key value (field k v fs) =
    let rest = emplace key value fs in
    elim (compare_keys key k) [
      | Ordering.lt ↦ field key value (field k v fs)
      | Ordering.eq ↦ field k v fs
      | Ordering.gt ↦ field k v rest
    ]

-- `object_.find(key)`
unfoldable pub find : List ℕ → Fields → Option JsonValue
unfolding compare_keys
find key no_fields = none
find key (field k v fs) =
    let rest = find key fs in elim (compare_keys key k) [ Ordering.eq ↦ some v | _ ↦ rest ]

-- `array_.push_back(value)`
unfoldable pub push_back : Items → JsonValue → Items
push_back no_items value = item value no_items
push_back (item v xs) value = item v (push_back xs value)
