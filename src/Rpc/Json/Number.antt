-- ===== src/Rpc/Json/Number.antt =====
-- rpc/src/json_value.cpp, `parseNumber` and `consumeDigits`.
use audio_studio.Prelude.{ℕ, ◌-◌, String, ◌||◌, List, [], ◌∷◌, length, take, if◌then◌else◌}
use audio_studio.Rpc.Json.{JsonValue, number}
use audio_studio.Rpc.Json.Scan.{Parser, ok, ◌>>◌, run, fail, is_digit, peek, starts, tail, consume}

unfoldable pub skip_digits : List ℕ → List ℕ
skip_digits [] = []
skip_digits (ch ∷ ts) = let rest = skip_digits ts in if is_digit ch then rest else ch ∷ ts

-- Begins after the loop where it began before when the first byte is no digit.
unfoldable pub consume_digits : String → Parser (Unit {0})
unfolding skip_digits fail
consume_digits error_message ts =
    if is_digit (peek ts) then ok tt (skip_digits ts) else fail error_message ts

unfoldable pub integer_part : Parser (Unit {0})
unfolding consume_digits
integer_part ts =
    if starts b'0' ts
    then (if is_digit (peek (tail ts))
        then fail "leading zero in JSON number" (tail ts)
        else ok tt (tail ts))
    else consume_digits "missing JSON number integer part" ts

unfoldable pub fraction_part : Parser (Unit {0})
unfolding consume_digits
fraction_part ts =
    if starts b'.' ts then consume_digits "missing JSON number fraction" (tail ts) else ok tt ts

-- `consume('+') || consume('-')`
unfoldable pub skip_sign : List ℕ → List ℕ
skip_sign ts = if starts b'+' ts then tail ts else consume b'-' ts

unfoldable pub exponent_part : Parser (Unit {0})
unfolding consume_digits skip_sign
exponent_part ts =
    if starts b'e' ts || starts b'E' ts
    then consume_digits "missing JSON number exponent" (skip_sign (tail ts))
    else ok tt ts

unfoldable pub number_text : Parser (Unit {0})
unfolding integer_part fraction_part exponent_part
number_text ts = run (consume b'-' ts) do integer_part; fraction_part; exponent_part

-- `text_.substr(begin, pos_ - begin)`
unfoldable pub parse_number : Parser JsonValue
unfolding number_text
parse_number ts =
    run ts do number_text; λ rest. ok (number (take (length ts - length rest) ts)) rest
