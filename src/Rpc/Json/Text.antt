-- ===== src/Rpc/Json/Text.antt =====
-- rpc/src/json_value.cpp, `parseString`, `parseUnicodeEscape` and `encodeUtf8`.
use audio_studio.Prelude.{
  ℕ, zero, suc, ◌+◌, ◌-◌, ◌*◌, ◌/◌, ◌^◌, ◌&&◌, Option, none, some, List, [], ◌∷◌, ◌++◌, bit_and,
  bit_or, length, ltb, leb, ◌==◌, if◌then◌else◌,
}
use audio_studio.Wire.Bytes.{u8, u32}
use audio_studio.Rpc.Json.Scan.{Parser, ok, out_of_fuel, ◌>>=◌, ◌>>◌, pure, run, fail, expect}

unfoldable pub encode_utf8 : ℕ → List ℕ
encode_utf8 codepoint =
    if leb codepoint 0x7f
    then u8 codepoint ∷ []
    else if leb codepoint 0x7ff
    then u8 (bit_or 0xc0 (codepoint / 2 ^ 6)) ∷ u8 (bit_or 0x80 (bit_and codepoint 0x3f)) ∷ []
    else u8 (bit_or 0xe0 (codepoint / 2 ^ 12))
      ∷ u8 (bit_or 0x80 (bit_and (codepoint / 2 ^ 6) 0x3f))
      ∷ u8 (bit_or 0x80 (bit_and codepoint 0x3f))
      ∷ []

unfoldable pub hex_value : ℕ → Option ℕ
hex_value ch =
    if leb b'0' ch && leb ch b'9'
    then some (ch - b'0')
    else if leb b'a' ch && leb ch b'f'
    then some (ch - b'a' + 10)
    else if leb b'A' ch && leb ch b'F'
    then some (ch - b'A' + 10)
    else none

-- One round of the loop: the byte is read before it is tested.
unfoldable pub hex_round : ℕ → Parser ℕ
unfolding hex_value fail
hex_round codepoint [] = fail "short JSON unicode escape" []
hex_round codepoint (ch ∷ ts) = elim (hex_value ch) [
  | some d ↦ ok (u32 (u32 (codepoint * 2 ^ 4) + d)) ts
  | none ↦ fail "invalid JSON unicode escape" ts
]

-- The four rounds and the text of what they read.
unfoldable pub hex_rounds : Parser (List ℕ)
unfolding hex_round encode_utf8
hex_rounds ts = run ts do
  one ← hex_round 0
  two ← hex_round one
  three ← hex_round two
  codepoint ← hex_round three
  pure (encode_utf8 codepoint)

unfoldable pub parse_unicode_escape : Parser (List ℕ)
unfolding hex_rounds fail
parse_unicode_escape ts =
    if ltb (length ts) 4 then fail "short JSON unicode escape" ts else hex_rounds ts

-- The `switch` on the byte after a backslash.
unfoldable pub parse_escape : Parser (List ℕ)
unfolding parse_unicode_escape
parse_escape [] = fail "unterminated JSON escape" []
parse_escape (escaped ∷ ts) =
    if escaped == b'"'
    then ok (b'"' ∷ []) ts
    else if escaped == b'\\'
    then ok (b'\\' ∷ []) ts
    else if escaped == b'/'
    then ok (b'/' ∷ []) ts
    else if escaped == b'b'
    then ok (0x08 ∷ []) ts
    else if escaped == b'f'
    then ok (0x0c ∷ []) ts
    else if escaped == b'n'
    then ok (b'\n' ∷ []) ts
    else if escaped == b'r'
    then ok (b'\r' ∷ []) ts
    else if escaped == b't'
    then ok (b'\t' ∷ []) ts
    else if escaped == b'u'
    then parse_unicode_escape ts
    else fail "invalid JSON escape" ts

-- The loop of `parseString`; each round reads a byte or more, so the input's length is fuel enough.
unfoldable pub parse_chars : ℕ → List ℕ → Parser (List ℕ)
unfolding parse_escape
parse_chars zero out ts = out_of_fuel
parse_chars (suc f) out [] = fail "unterminated JSON string" []
parse_chars (suc f) out (ch ∷ ts) =
    let plain = parse_chars f (out ++ ch ∷ []) ts in
    let escape = run ts do piece ← parse_escape; parse_chars f (out ++ piece)
    in if ch == b'"'
      then ok out ts
      else if ltb ch 0x20
      then fail "control character in JSON string" ts
      else if ch == b'\\'
      then escape
      else plain

unfoldable pub parse_string : Parser (List ℕ)
unfolding expect parse_chars
parse_string ts = run ts do expect b'"'; λ rest. parse_chars (suc (length rest)) [] rest
