-- ===== src/Rpc/Json/Parser.antt =====
-- rpc/src/json_value.cpp, `parseValue`, `parseLiteral`, `parseArray`, `parseObject`, `parse` and
-- `parseJson`.
use audio_studio.Prelude.{
  ℕ, zero, suc, ◌+◌, ◌*◌, String, true, false, ◌||◌, List, [], ◌∷◌, length, take, drop, ◌==◌,
  if◌then◌else◌, Ordering,
}
use audio_studio.Rpc.Json.{
  JsonValue, Items, Fields, null, bool, string, array, object, no_items, no_fields, emplace,
  push_back, compare_keys,
}
use audio_studio.Rpc.Json.Scan.{
  Parser, ok, out_of_fuel, ◌>>=◌, ◌>>◌, pure, run, codes, fail, is_digit, skip_space, peek, starts,
  tail, expect,
}
use audio_studio.Rpc.Json.Number.{parse_number}
use audio_studio.Rpc.Json.Text.{parse_string}

unfoldable pub parse_literal : String → JsonValue → Parser JsonValue
unfolding compare_keys fail
parse_literal literal value ts =
    let expected = codes literal in
    elim (compare_keys (take (length expected) ts) expected) [
      | Ordering.eq ↦ ok value (drop (length expected) ts)
      | _ ↦ fail "invalid JSON literal" ts
    ]

unfoldable pub skip : Parser (Unit {0})
unfolding skip_space
skip ts = ok tt (skip_space ts)

-- `parseArray` and `parseObject`, their loops given.
unfoldable pub parse_array : Parser Items → Parser JsonValue
unfolding skip expect
parse_array elements ts = run ts do
  expect b'['
  skip
  λ rest.
      let some_elements = run rest (do pure (array (← elements))) in
      if starts b']' rest then ok (array no_items) (tail rest) else some_elements

unfoldable pub parse_object : Parser Fields → Parser JsonValue
unfolding skip expect
parse_object members ts = run ts do
  expect b'{'
  skip
  λ rest.
      let some_members = run rest (do pure (object (← members))) in
      if starts b'}' rest then ok (object no_fields) (tail rest) else some_members

-- `parseValue` after its `skipSpace`, by the first byte.
unfoldable pub parse_token : Parser Items → Parser Fields → Parser JsonValue
unfolding parse_literal parse_string parse_array parse_object parse_number
parse_token elements members [] = fail "unexpected end of JSON input" []
parse_token elements members (ch ∷ rest) =
    let ts = ch ∷ rest in
    if ch == b'n'
    then parse_literal "null" null ts
    else if ch == b't'
    then parse_literal "true" (bool true) ts
    else if ch == b'f'
    then parse_literal "false" (bool false) ts
    else if ch == b'"'
    then run ts (do pure (string (← parse_string)))
    else if ch == b'['
    then parse_array elements ts
    else if ch == b'{'
    then parse_object members ts
    else if ch == b'-' || is_digit ch
    then parse_number ts
    else fail "unexpected JSON token" ts

-- `if (peek() != '"') fail(...); key = parseString();`
unfoldable pub parse_key : Parser (List ℕ)
unfolding parse_string fail
parse_key ts =
    if peek ts == b'"' then parse_string ts else fail "JSON object key must be a string" ts

-- What a call leaves is no structural part of its input, so each call costs a unit of fuel.
unfoldable mutual
  unfolding parse_token push_back emplace parse_key

  pub parse_value : ℕ → Parser JsonValue
  parse_value zero ts = out_of_fuel
  parse_value (suc f) ts =
      parse_token (parse_elements f no_items) (parse_members f no_fields) (skip_space ts)

  pub parse_elements : ℕ → Items → Parser Items
  parse_elements zero values ts = out_of_fuel
  parse_elements (suc f) values ts = run ts do
    value ← parse_value f
    skip
    let more = push_back values value
    λ rest.
        let again = run rest (do expect b','; parse_elements f more) in
        if starts b']' rest then ok more (tail rest) else again

  pub parse_members : ℕ → Fields → Parser Fields
  parse_members zero values ts = out_of_fuel
  parse_members (suc f) values ts = run ts do
    skip
    key ← parse_key
    skip
    expect b':'
    value ← parse_value f
    skip
    let more = emplace key value values
    λ rest.
        let again = run rest (do expect b','; parse_members f more) in
        if starts b'}' rest then ok more (tail rest) else again

unfoldable pub finish : JsonValue → Parser JsonValue
finish value [] = ok value []
finish value (ch ∷ ts) = fail "unexpected trailing data" (ch ∷ ts)

unfoldable pub parse_json : Parser JsonValue
unfolding parse_value skip finish
parse_json text = run text do value ← parse_value (2 * length text + 1); skip; finish value
