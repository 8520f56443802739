-- ===== src/Rpc/Json/NumeralRoundTrip.antt =====
-- A number written by `std::to_string` and read by `asUInt64`.
use audio_studio.Prelude.{
  ℕ, zero, suc, ◌+◌, ◌-◌, ◌*◌, ◌/◌, ◌%◌, ◌^◌, ◌<◌, ◌≡◌, refl, ◌∙◌, true, false, List, [], ◌∷◌, ◌++◌,
  ltb, leb, append-nil, append_assoc, arith, Bool-cases, inl, inr,
}
use audio_studio.Rpc.Json.{number}
use audio_studio.Rpc.Json.Scan.{is_digit, peek, starts}
use audio_studio.Rpc.Json.Number.{skip_digits, skip_sign}
use audio_studio.Rpc.Json.Access.{value}
use audio_studio.Rpc.Json.Numerals.{decimal_digits, decimal, leading_value, skip_c_space, as_uint64}

abbrev pub digit : ℕ → ℕ
digit n = b'0' + n % 10

leading_value-digit :
    (a n : ℕ) (ts : List ℕ) → leading_value a (digit n ∷ ts) ≡ leading_value (a * 10 + n % 10) ts
unfolding leading_value
leading_value-digit a n ts =
    let e : a * 10 + (b'0' + n % 10 - b'0') ≡ a * 10 + n % 10 = omega arith in
    let d : is_digit (b'0' + n % 10) ≡ true = ground arith in rw (e, d) refl

-- The last digit of a number stands behind the others.
pub decimal_digits-step :
    (f n : ℕ) (ts : List ℕ)
    → ltb n 10 ≡ false
    → decimal_digits (suc f) n ++ ts ≡ decimal_digits f (n / 10) ++ (digit n ∷ ts)
unfolding decimal_digits
decimal_digits-step f n ts long =
    rw long (append_assoc (decimal_digits f (n / 10)) (digit n ∷ []) ts)

pub decimal_digits-short :
    (f n : ℕ) (ts : List ℕ) → ltb n 10 ≡ true → decimal_digits (suc f) n ++ ts ≡ digit n ∷ ts
unfolding decimal_digits
decimal_digits-short f n ts short = let e : b'0' + n ≡ digit n = ground arith in rw (short, e) refl

pub leading_value-decimal_digits :
    (f n : ℕ) (ts : List ℕ)
    → n < f
    → leading_value 0 (decimal_digits f n ++ ts) ≡ leading_value n ts
leading_value-decimal_digits zero n ts h = absurd (omega arith)
leading_value-decimal_digits (suc f) n ts h = elim (Bool-cases (ltb n 10)) [
  | inl short ↦
      let e : 0 * 10 + n % 10 ≡ n = ground arith in
      rw (decimal_digits-short f n ts short, leading_value-digit 0 n ts, e) refl
  | inr long ↦
      let e : n / 10 * 10 + n % 10 ≡ n = omega arith in
      let less : n / 10 < f = ground arith in
      rw
        (
          decimal_digits-step f n ts long,
          leading_value-decimal_digits f (n / 10) (digit n ∷ ts) less,
          leading_value-digit (n / 10) n ts,
          e,
        )
        refl
]

skip_digits-digit : (n : ℕ) (ts : List ℕ) → skip_digits (digit n ∷ ts) ≡ skip_digits ts
unfolding skip_digits
skip_digits-digit n ts = let d : is_digit (b'0' + n % 10) ≡ true = ground arith in rw d refl

pub skip_digits-decimal_digits :
    (f n : ℕ) (ts : List ℕ) → n < f → skip_digits (decimal_digits f n ++ ts) ≡ skip_digits ts
skip_digits-decimal_digits zero n ts h = absurd (omega arith)
skip_digits-decimal_digits (suc f) n ts h = elim (Bool-cases (ltb n 10)) [
  | inl short ↦ rw (decimal_digits-short f n ts short) (skip_digits-digit n ts)
  | inr long ↦
      let less : n / 10 < f = ground arith in
      rw (decimal_digits-step f n ts long)
        (skip_digits-decimal_digits f (n / 10) (digit n ∷ ts) less ∙ skip_digits-digit n ts)
]

pub peek-decimal_digits :
    (f n : ℕ) (ts : List ℕ) → n < f → is_digit (peek (decimal_digits f n ++ ts)) ≡ true
peek-decimal_digits zero n ts h = absurd (omega arith)
peek-decimal_digits (suc f) n ts h = elim (Bool-cases (ltb n 10)) [
  | inl short ↦ rw (decimal_digits-short f n ts short) (ground arith)
  | inr long ↦
      let less : n / 10 < f = ground arith in
      rw (decimal_digits-step f n ts long) (peek-decimal_digits f (n / 10) (digit n ∷ ts) less)
]

-- A text that begins with a digit has no space or sign in front.
pub plain :
    (ts : List ℕ)
    → is_digit (peek ts) ≡ true
    → (skip_c_space ts ≡ ts) × ((skip_sign ts ≡ ts) × (starts b'-' ts ≡ false))
unfolding skip_c_space skip_sign
plain [] h = absurd (ground arith)
plain (c ∷ ts) h = ground arith

-- A number below 2 ^ 64 that was written in decimal is what `asUInt64` reads.
pub as_uint64-decimal : (n : ℕ) → n < 2 ^ 64 → as_uint64 (number (decimal n)) ≡ value n
unfolding as_uint64 decimal
as_uint64-decimal n h =
    let text : List ℕ = decimal_digits (suc n) n in
    let same : text ++ [] ≡ text = append-nil text in
    let digit_first : is_digit (peek text) ≡ true =
      rw same at (peek-decimal_digits (suc n) n [] (omega arith)) in
    let read : leading_value 0 text ≡ n =
      rw same at (leading_value-decimal_digits (suc n) n [] (omega arith)) in
    let whole : skip_digits text ≡ [] =
      rw same at (skip_digits-decimal_digits (suc n) n [] (omega arith)) in
    let (no_space, (no_sign, no_minus)) = plain text digit_first in
    let small : leb (2 ^ 64) n ≡ false = ground arith in
    rw (as_uint64, no_space, no_sign, no_minus, digit_first, read, whole, small) refl
