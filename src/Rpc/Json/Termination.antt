-- ===== src/Rpc/Json/Termination.antt =====
-- The fuel the parser is given is enough for every text.
pub mod Number
pub mod Text
pub mod Value
use audio_studio.Prelude.{
  ℕ, zero, suc, ◌+◌, ◌-◌, ◌*◌, ◌≤◌, ◌<◌, ◌≡◌, refl, Bool, true, false, List, [], ◌∷◌, ◌++◌, leb,
  ltb, ◌==◌, ◌&&◌, ◌||◌, length, drop, length-drop, arith, Bool-cases, if◌then◌else◌, inl, inr,
  String, Ordering, ◌⊎◌, take,
}
use audio_studio.Rpc.Json.{
  JsonValue, Items, Fields, string, array, object, emplace, push_back, no_items, no_fields,
  compare_keys,
}
use audio_studio.Rpc.Json.Scan.{
  Scan, Parser, ok, failed, out_of_fuel, and_then, fail, skip_space, expect, tail, starts, codes,
  run, pure, is_digit, peek, consume,
}
use audio_studio.Rpc.Json.Number.{
  skip_digits, consume_digits, integer_part, fraction_part, skip_sign, exponent_part, number_text,
  parse_number,
}
use audio_studio.Rpc.Json.Text.{
  hex_value, hex_round, parse_unicode_escape, parse_escape, parse_chars, parse_string, encode_utf8,
}
use audio_studio.Rpc.Json.Parser.{
  parse_literal, skip, parse_array, parse_object, parse_token, parse_key, parse_value,
  parse_elements, parse_members, finish, parse_json,
}

-- An answer that is no want of fuel, and leaves at most `n` bytes.
unfoldable pub settles {ℓ} : {A : Type ℓ} → ℕ → Scan A → Bool
settles n (ok a rest) = leb (length rest) n
settles n (failed message at) = true
settles n out_of_fuel = false

pub settles-and_then {ℓ κ} :
    {A : Type ℓ} {B : Type κ} (n k : ℕ) (m : Scan A) (f : A → List ℕ → Scan B)
    → settles n m ≡ true
    → ((a : A) (rest : List ℕ) → length rest ≤ n → settles k (f a rest) ≡ true)
    → settles k (and_then m f) ≡ true
unfolding settles
settles-and_then n k (ok a rest) f h g = g a rest (ground arith)
settles-and_then n k (failed message at) f h g = refl
settles-and_then n k out_of_fuel f h g = absurd (ground arith)

pub settles_mono {ℓ} :
    {A : Type ℓ} (n k : ℕ) (m : Scan A) → n ≤ k → settles n m ≡ true → settles k m ≡ true
unfolding settles
settles_mono n k (ok a rest) le h = ground arith
settles_mono n k (failed message at) le h = refl
settles_mono n k out_of_fuel le h = absurd (ground arith)

-- What comes after uses no more than the input it gets.
pub settles_chain {ℓ κ} :
    {A : Type ℓ} {B : Type κ} (n : ℕ) (m : Scan A) (f : A → List ℕ → Scan B)
    → settles n m ≡ true
    → ((a : A) (rest : List ℕ) → settles (length rest) (f a rest) ≡ true)
    → settles n (and_then m f) ≡ true
settles_chain n m f h g =
    settles-and_then n n m f h λ a rest k. settles_mono (length rest) n (f a rest) k (g a rest)
