-- ===== src/Rpc/Json/Termination/Number.antt =====
-- Numbers and spaces: no loop, so no fuel.
use audio_studio.Prelude.{ℕ, suc, ◌-◌, ◌≤◌, ◌≡◌, refl, true, List, [], ◌∷◌, length, arith, String}
use audio_studio.Rpc.Json.Scan.{fail, skip_space, expect, consume}
use audio_studio.Rpc.Json.Number.{
  skip_digits, consume_digits, integer_part, fraction_part, skip_sign, exponent_part, number_text,
  parse_number,
}
use audio_studio.Rpc.Json.Parser.{skip}
use audio_studio.Rpc.Json.Termination.{settles, settles-and_then, settles_mono, settles_chain}

pub length-skip_space : (ts : List ℕ) → length (skip_space ts) ≤ length ts
unfolding skip_space
length-skip_space [] = omega arith
length-skip_space (c ∷ ts) = ground (arith, length-skip_space ts)

length-skip_digits : (ts : List ℕ) → length (skip_digits ts) ≤ length ts
unfolding skip_digits
length-skip_digits [] = omega arith
length-skip_digits (c ∷ ts) = ground (arith, length-skip_digits ts)

pub expect-settles : (c : ℕ) (ts : List ℕ) → settles (length ts - 1) (expect c ts) ≡ true
unfolding settles expect
expect-settles c [] = refl
expect-settles c (d ∷ ts) = ground arith

pub expect-settles_cons : (c d : ℕ) (ts : List ℕ) → settles (length ts) (expect c (d ∷ ts)) ≡ true
unfolding settles expect
expect-settles_cons c d ts = ground arith

pub skip-settles : (ts : List ℕ) → settles (length ts) (skip ts) ≡ true
unfolding settles skip
skip-settles ts = ground (arith, length-skip_space ts)

consume_digits-settles :
    (e : String) (ts : List ℕ) → settles (length ts) (consume_digits e ts) ≡ true
unfolding settles consume_digits fail
consume_digits-settles e ts = ground (arith, length-skip_digits ts)

integer_part-settles : (ts : List ℕ) → settles (length ts) (integer_part ts) ≡ true
unfolding settles integer_part fail
integer_part-settles [] = refl
integer_part-settles (c ∷ ts) =
    ground (arith, consume_digits-settles "missing JSON number integer part" (c ∷ ts))

fraction_part-settles : (ts : List ℕ) → settles (length ts) (fraction_part ts) ≡ true
unfolding settles fraction_part
fraction_part-settles [] = refl
fraction_part-settles (c ∷ ts) = ground (
  arith,
  settles_mono (length ts) (suc (length ts)) (consume_digits "missing JSON number fraction" ts),
  consume_digits-settles "missing JSON number fraction" ts,
)

length-consume : (c : ℕ) (ts : List ℕ) → length (consume c ts) ≤ length ts
length-consume c [] = omega arith
length-consume c (d ∷ ts) = ground arith

length-skip_sign : (ts : List ℕ) → length (skip_sign ts) ≤ length ts
unfolding skip_sign
length-skip_sign [] = omega arith
length-skip_sign (c ∷ ts) = ground arith

exponent_part-settles : (ts : List ℕ) → settles (length ts) (exponent_part ts) ≡ true
unfolding settles exponent_part
exponent_part-settles [] = refl
exponent_part-settles (c ∷ ts) = ground (
  arith,
  length-skip_sign ts,
  settles_mono (length (skip_sign ts)) (suc (length ts))
      (consume_digits "missing JSON number exponent" (skip_sign ts)),
  consume_digits-settles "missing JSON number exponent" (skip_sign ts),
)

number_text-settles : (ts : List ℕ) → settles (length ts) (number_text ts) ≡ true
unfolding number_text
number_text-settles ts =
    let after_sign = consume b'-' ts in
    settles_mono (length after_sign) (length ts) (number_text ts) (length-consume b'-' ts) (
      settles_chain (length after_sign) (integer_part after_sign) _
        (integer_part-settles after_sign)
        λ a rest.
          settles_chain (length rest) (fraction_part rest) _ (fraction_part-settles rest)
            λ b later. exponent_part-settles later)

pub parse_number-settles : (ts : List ℕ) → settles (length ts) (parse_number ts) ≡ true
unfolding parse_number settles
parse_number-settles ts =
    settles-and_then (length ts) (length ts) (number_text ts) _ (number_text-settles ts)
      λ a rest h. ground arith
