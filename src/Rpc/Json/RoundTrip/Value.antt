-- ===== src/Rpc/Json/RoundTrip/Value.antt =====
-- A whole value written and read again.
use audio_studio.Prelude.{
  ℕ, zero, suc, ◌+◌, ◌*◌, ◌≡◌, refl, ◌⊎◌, inl, inr, Bool, true, false, List, [], append-nil, length,
  arith,
}
use audio_studio.Rpc.Json.{
  JsonValue, Items, Fields, null, bool, number, string, array, object, no_items, item, no_fields,
  field,
}
use audio_studio.Rpc.Json.Scan.{ok, skip_space, expect}
use audio_studio.Rpc.Json.Parser.{
  parse_literal, skip, parse_array, parse_object, parse_token, parse_value, parse_elements,
  parse_members, finish, parse_json,
}
use audio_studio.Rpc.Json.Dump.{dump}
use audio_studio.Rpc.Json.RoundTrip.Number.{IsNumber}
use audio_studio.Rpc.Json.RoundTrip.WellFormed.{
  IsWellFormed, AreWellFormed, AreFieldsWellFormed, parse_token-number, head-number,
  parse_key-dump_string,
}
use audio_studio.Rpc.Json.RoundTrip.Elements.{
  ReadsValue, ReadsItems, ReadsFields, read_last_item, read_item, read_last_field, read_field,
  read_array, read_object,
}

read_number : (raw : List ℕ) → IsNumber raw → ReadsValue (number raw)
unfolding parse_value dump
read_number raw h zero ts e b = absurd (omega arith)
read_number raw h (suc f) ts e b =
    rw ((head-number raw ts h).0)
      (parse_token-number raw ts (parse_elements f no_items) (parse_members f no_fields) h e)

read_text : (text : List ℕ) → ReadsValue (string text)
unfolding parse_value dump parse_token skip_space
read_text text zero ts e b = absurd (omega arith)
read_text text (suc f) ts e b = rw (parse_key-dump_string text ts) refl

read_constant : (v : JsonValue) → (v ≡ null) ⊎ ((b : Bool) × (v ≡ bool b)) → ReadsValue v
unfolding parse_value dump parse_token parse_literal skip_space
read_constant v c zero ts e b = absurd (omega arith)
read_constant v (inl c) (suc f) ts e b = rw c refl
read_constant v (inr (true, c)) (suc f) ts e b = rw c refl
read_constant v (inr (false, c)) (suc f) ts e b = rw c refl

read_empty_array : ReadsValue (array no_items)
unfolding parse_value dump parse_token parse_array skip_space expect
read_empty_array zero ts e b = absurd (omega arith)
read_empty_array (suc f) ts e b = refl

read_empty_object : ReadsValue (object no_fields)
unfolding parse_value dump parse_token parse_object skip_space expect
read_empty_object zero ts e b = absurd (omega arith)
read_empty_object (suc f) ts e b = refl

mutual
  unfolding IsWellFormed

  value_reads : (v : JsonValue) → IsWellFormed v → ReadsValue v
  value_reads null h = read_constant null (inl refl)
  value_reads (bool b) h = read_constant (bool b) (inr (b, refl))
  value_reads (number raw) h = read_number raw h
  value_reads (string text) h = read_text text
  value_reads (array no_items) h = read_empty_array
  value_reads (array (item v xs)) h = read_array v xs h.0 (value_reads v h.0) (items_read xs h.1)
  value_reads (object no_fields) h = read_empty_object
  value_reads (object (field k v fs)) h =
      read_object k v fs (value_reads v h.0) (fields_read fs h.1.1) h.1.0

  items_read : (xs : Items) → AreWellFormed xs → ReadsItems xs
  items_read no_items h = read_last_item
  items_read (item w xs) h = read_item w xs (value_reads w h.0) (items_read xs h.1)

  fields_read : (fs : Fields) → AreFieldsWellFormed fs → ReadsFields fs
  fields_read no_fields h = read_last_field
  fields_read (field j w fs) h = read_field j w fs (value_reads w h.0) h.1.0 (fields_read fs h.1.1)

-- `parseJson` of what `dump` writes of a value is the value, with nothing left, when its number texts
-- are JSON numbers and the keys of its objects ascend; strings may hold any bytes.
pub parse_json-dump : (v : JsonValue) → IsWellFormed v → parse_json (dump v) ≡ ok v []
unfolding parse_json skip skip_space finish
parse_json-dump v h =
    let whole = value_reads v h (2 * length (dump v) + 1) [] refl (omega arith) in
    rw (rw append-nil at whole) refl
