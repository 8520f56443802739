-- ===== src/Rpc/Json/IntRoundTrip.antt =====
-- A number written by `std::to_string` is a JSON number, and `asInt64` reads an `int` back.
use audio_studio.Prelude.{
  ℕ, zero, suc, ◌+◌, ◌/◌, ◌%◌, ◌^◌, ◌<◌, ◌≡◌, refl, true, false, ◌⊎◌, inl, inr, List, [], ◌∷◌, ◌++◌,
  ltb, leb, append-nil, arith, Bool-cases,
}
use audio_studio.Audio.Stream.{ℤ, pos, negsuc}
use audio_studio.Rpc.Json.{number}
use audio_studio.Rpc.Json.Scan.{is_digit, peek, starts}
use audio_studio.Rpc.Json.Number.{skip_digits, skip_sign}
use audio_studio.Rpc.Json.Access.{value}
use audio_studio.Rpc.Json.Numerals.{
  decimal_digits, decimal, int_text, leading_value, skip_c_space, as_int64,
}
use audio_studio.Rpc.Json.NumeralRoundTrip.{
  digit, decimal_digits-step, decimal_digits-short, leading_value-decimal_digits,
  skip_digits-decimal_digits, peek-decimal_digits, plain,
}
use audio_studio.Rpc.Json.RoundTrip.Number.{
  IsNumber, IsWhole, IsFraction, IsExponent, all_digits, digits,
}

all_digits-decimal_digits :
    (f n : ℕ) (ts : List ℕ) → n < f → all_digits (decimal_digits f n ++ ts) ≡ all_digits ts
unfolding all_digits
all_digits-decimal_digits zero n ts h = absurd (omega arith)
all_digits-decimal_digits (suc f) n ts h =
    let d : is_digit (b'0' + n % 10) ≡ true = ground arith in
    elim (Bool-cases (ltb n 10)) [
      | inl short ↦ rw (decimal_digits-short f n ts short, all_digits, d) refl
      | inr long ↦
          rw
            (
              decimal_digits-step f n ts long,
              all_digits-decimal_digits f (n / 10) (digit n ∷ ts) (ground arith),
              all_digits,
              d,
            )
            refl
    ]

-- No zero in front of a number above 0.
starts-decimal_digits :
    (f n : ℕ) (ts : List ℕ) → n < f → 0 < n → starts b'0' (decimal_digits f n ++ ts) ≡ false
starts-decimal_digits zero n ts h k = absurd (omega arith)
starts-decimal_digits (suc f) n ts h k = elim (Bool-cases (ltb n 10)) [
  | inl short ↦ rw (decimal_digits-short f n ts short) (ground arith)
  | inr long ↦
      rw (decimal_digits-step f n ts long)
        (starts-decimal_digits f (n / 10) (digit n ∷ ts) (ground arith) (ground arith))
]

digits-all_digits :
    (ds : List ℕ) → all_digits ds ≡ true → is_digit (peek ds) ≡ true → digits ds ≡ true
unfolding digits all_digits
digits-all_digits [] h k = absurd (ground arith)
digits-all_digits (d ∷ ds) h k = h

-- What the digits of `n` are, and what is read off them.
pub record IsDecimal (n : ℕ) (text : List ℕ) : Type 0 where
  pub first : is_digit (peek text) ≡ true
  pub all : all_digits text ≡ true
  pub read : leading_value 0 text ≡ n
  pub whole : skip_digits text ≡ []

pub decimal-IsDecimal : (n : ℕ) → IsDecimal n (decimal n)
unfolding decimal leading_value skip_digits all_digits
decimal-IsDecimal n =
    let text : List ℕ = decimal_digits (suc n) n in
    let same : text ++ [] ≡ text = append-nil text in
    let less : n < suc n = omega arith in
    record {
      first = rw same at (peek-decimal_digits (suc n) n [] less);
      all = rw same at (all_digits-decimal_digits (suc n) n [] less);
      read = rw same at (leading_value-decimal_digits (suc n) n [] less);
      whole = rw same at (skip_digits-decimal_digits (suc n) n [] less);
    }

decimal-IsWhole : (n : ℕ) → IsWhole (decimal n)
unfolding IsWhole decimal decimal_digits
decimal-IsWhole zero = inl refl
decimal-IsWhole (suc n) =
    let text : List ℕ = decimal_digits (suc (suc n)) (suc n) in
    let same : text ++ [] ≡ text = append-nil text in
    let known : IsDecimal (suc n) text = decimal-IsDecimal (suc n) in
    inr (
      digits-all_digits text known.all known.first,
      rw same at (starts-decimal_digits (suc (suc n)) (suc n) [] (omega arith) (omega arith)),
    )

-- A whole number with a sign or none is a JSON number.
whole-IsNumber :
    (sign whole : List ℕ)
    → (sign ≡ []) ⊎ (sign ≡ b'-' ∷ [])
    → IsWhole whole
    → IsNumber (sign ++ whole)
unfolding IsFraction IsExponent
whole-IsNumber sign whole s w = record {
  sign = sign;
  whole = whole;
  fraction = [];
  exponent = [];
  parts = rw (append-nil whole) refl;
  sign_form = s;
  whole_form = w;
  fraction_form = inl refl;
  exponent_form = inl refl;
}

pub decimal-IsNumber : (n : ℕ) → IsNumber (decimal n)
decimal-IsNumber n = whole-IsNumber [] (decimal n) (inl refl) (decimal-IsWhole n)

pub int_text-IsNumber : (z : ℤ) → IsNumber (int_text z)
unfolding int_text
int_text-IsNumber (pos n) = decimal-IsNumber n
int_text-IsNumber (negsuc n) =
    whole-IsNumber (b'-' ∷ []) (decimal (n + 1)) (inr refl) (decimal-IsWhole (n + 1))

-- In the range of an `int`.
unfoldable pub IsInt : ℤ → Type 0
IsInt (pos n) = n < 2 ^ 31
IsInt (negsuc n) = n < 2 ^ 31

pub as_int64-int_text : (z : ℤ) → IsInt z → as_int64 (number (int_text z)) ≡ value z
unfolding as_int64 int_text IsInt skip_sign skip_c_space
as_int64-int_text (pos n) h =
    let known : IsDecimal n (decimal n) = decimal-IsDecimal n in
    let (no_space, (no_sign, no_minus)) = plain (decimal n) known.first in
    let first : is_digit (peek (decimal n)) ≡ true = known.first in
    let read : leading_value 0 (decimal n) ≡ n = known.read in
    let whole : skip_digits (decimal n) ≡ [] = known.whole in
    let small : leb (2 ^ 63) n ≡ false = ground arith in
    rw (as_int64, no_space, no_sign, no_minus, first, read, whole, small) refl
as_int64-int_text (negsuc n) h =
    let known : IsDecimal (n + 1) (decimal (n + 1)) = decimal-IsDecimal (n + 1) in
    let first : is_digit (peek (decimal (n + 1))) ≡ true = known.first in
    let read : leading_value 0 (decimal (n + 1)) ≡ n + 1 = known.read in
    let whole : skip_digits (decimal (n + 1)) ≡ [] = known.whole in
    let small : leb (2 ^ 63 + 1) (n + 1) ≡ false = ground arith in
    let same : n + 1 ≡ suc n = omega arith in rw (as_int64, first, read, whole, small, same) refl
