-- ===== src/Rpc/Json/Numerals.antt =====
-- rpc/src/json_value.cpp: numbers as texts, by `std::to_string`, and back, by `asUInt64` and `asInt64`.
-- What `std::stoull` and `std::stoll` throw is a `std::logic_error` too.
use audio_studio.Prelude.{
  ℕ, zero, suc, ◌+◌, ◌-◌, ◌*◌, ◌/◌, ◌%◌, ◌^◌, Bool, not, ◌&&◌, ◌||◌, List, [], ◌∷◌, ◌++◌, length,
  ltb, leb, ◌==◌, if◌then◌else◌,
}
use audio_studio.Audio.Stream.{ℤ, pos, negsuc}
use audio_studio.Rpc.Json.{JsonValue, number}
use audio_studio.Rpc.Json.Scan.{is_digit, peek, starts}
use audio_studio.Rpc.Json.Number.{skip_digits, skip_sign}
use audio_studio.Rpc.Json.Access.{Accessed, value, logic_error}

unfoldable pub decimal_digits : ℕ → ℕ → List ℕ
decimal_digits zero n = []
decimal_digits (suc f) n =
    let front = decimal_digits f (n / 10) in
    if ltb n 10 then (b'0' + n) ∷ [] else front ++ (b'0' + n % 10) ∷ []

-- `std::to_string`, of an `int` or a size; a number has at most as many digits as its value and one.
unfoldable pub decimal : ℕ → List ℕ
unfolding decimal_digits
decimal n = decimal_digits (suc n) n

unfoldable pub int_text : ℤ → List ℕ
unfolding decimal
int_text (pos n) = decimal n
int_text (negsuc n) = b'-' ∷ decimal (n + 1)

-- The number that the digits at the front make.
unfoldable pub leading_value : ℕ → List ℕ → ℕ
leading_value n [] = n
leading_value n (ch ∷ ts) =
    let rest = leading_value (n * 10 + (ch - b'0')) ts in if is_digit ch then rest else n

-- The spaces that `std::stoull` passes over, those of `isspace`.
abbrev pub is_c_space : ℕ → Bool
is_c_space ch = ch == b' ' || (leb 9 ch && leb ch 13)

unfoldable pub skip_c_space : List ℕ → List ℕ
skip_c_space [] = []
skip_c_space (ch ∷ ts) = let rest = skip_c_space ts in if is_c_space ch then rest else ch ∷ ts

-- The digits of a number's text behind spaces and a sign, and whether that is a minus.
abbrev pub unsigned_part : List ℕ → List ℕ
unsigned_part text = skip_sign (skip_c_space text)

abbrev pub is_negative : List ℕ → Bool
is_negative text = starts b'-' (skip_c_space text)

unfoldable pub as_uint64 : JsonValue → Accessed ℕ
unfolding leading_value skip_sign skip_digits skip_c_space
as_uint64 (number text) =
    let digits = unsigned_part text in
    let n = leading_value 0 digits in
    if starts b'-' text
    then logic_error "JSON number is negative"
    else if not (is_digit (peek digits)) || leb (2 ^ 64) n
    then logic_error "stoull"
    else if not (length (skip_digits digits) == 0)
    then logic_error "JSON number is not an unsigned integer"
    else value (if is_negative text then (2 ^ 64 - n) % 2 ^ 64 else n)
as_uint64 _ = logic_error "JSON value is not a number"

-- Minus `n`.
abbrev pub negated : ℕ → ℤ
negated zero = pos 0
negated (suc n) = negsuc n

unfoldable pub as_int64 : JsonValue → Accessed ℤ
unfolding leading_value skip_sign skip_digits skip_c_space
as_int64 (number text) =
    let digits = unsigned_part text in
    let n = leading_value 0 digits in
    let bound = if is_negative text then 2 ^ 63 + 1 else 2 ^ 63 in
    if not (is_digit (peek digits)) || leb bound n
    then logic_error "stoll"
    else if not (length (skip_digits digits) == 0)
    then logic_error "JSON number is not an integer"
    else value (if is_negative text then negated n else pos n)
as_int64 _ = logic_error "JSON value is not a number"
