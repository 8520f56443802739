-- ===== src/Rpc/Json/Dump.antt =====
-- rpc/src/json_value.cpp, `dump`, `dumpString` and `escapeJsonString`.
use audio_studio.Prelude.{
  ℕ, ◌+◌, ◌-◌, ◌/◌, ◌%◌, Bool, true, false, List, [], ◌∷◌, ◌++◌, ltb, ◌==◌, if◌then◌else◌,
}
use audio_studio.Rpc.Json.{
  JsonValue, Items, Fields, null, bool, number, string, array, object, no_items, item, no_fields,
  field,
}
use audio_studio.Rpc.Json.Scan.{codes}

unfoldable pub hex_digit : ℕ → ℕ
hex_digit n = if ltb n 10 then b'0' + n else b'a' + (n - 10)

-- `std::hex << std::setw(4) << std::setfill('0')`, of a number below 2 ^ 16
unfoldable pub hex_4 : ℕ → List ℕ
unfolding hex_digit
hex_4 n =
    hex_digit (n / 4096 % 16)
    ∷ hex_digit (n / 256 % 16)
    ∷ hex_digit (n / 16 % 16)
    ∷ hex_digit (n % 16)
    ∷ []

unfoldable pub dump_char : ℕ → List ℕ
unfolding hex_4
dump_char ch =
    if ch == b'"'
    then b'\\' ∷ b'"' ∷ []
    else if ch == b'\\'
    then b'\\' ∷ b'\\' ∷ []
    else if ch == 0x08
    then b'\\' ∷ b'b' ∷ []
    else if ch == 0x0c
    then b'\\' ∷ b'f' ∷ []
    else if ch == b'\n'
    then b'\\' ∷ b'n' ∷ []
    else if ch == b'\r'
    then b'\\' ∷ b'r' ∷ []
    else if ch == b'\t'
    then b'\\' ∷ b't' ∷ []
    else if ltb ch 0x20
    then b'\\' ∷ b'u' ∷ hex_4 ch
    else ch ∷ []

unfoldable pub dump_chars : List ℕ → List ℕ
unfolding dump_char
dump_chars [] = b'"' ∷ []
dump_chars (ch ∷ value) = dump_char ch ++ dump_chars value

unfoldable pub dump_string : List ℕ → List ℕ
unfolding dump_chars
dump_string value = b'"' ∷ dump_chars value

-- `if (i > 0) out << ','`
abbrev pub comma : Bool → List ℕ
comma first = if first then [] else b',' ∷ []

unfoldable mutual
  unfolding dump_string

  pub dump : JsonValue → List ℕ
  dump null = codes "null"
  dump (bool true) = codes "true"
  dump (bool false) = codes "false"
  dump (number raw) = raw
  dump (string value) = dump_string value
  dump (array values) = b'[' ∷ dump_items true values
  dump (object values) = b'{' ∷ dump_fields true values

  pub dump_items : Bool → Items → List ℕ
  dump_items first no_items = b']' ∷ []
  dump_items first (item v xs) = comma first ++ (dump v ++ dump_items false xs)

  pub dump_fields : Bool → Fields → List ℕ
  dump_fields first no_fields = b'}' ∷ []
  dump_fields first (field k v fs) =
      comma first ++ (dump_string k ++ b':' ∷ (dump v ++ dump_fields false fs))
