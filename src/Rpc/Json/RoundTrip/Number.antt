-- ===== src/Rpc/Json/RoundTrip/Number.antt =====
-- The grammar of a number's text, and that `parseNumber` reads just that text.
use audio_studio.Prelude.{
  ℕ, ◌-◌, ◌≡◌, refl, ◌⊎◌, inl, inr, Bool, true, false, not, ◌&&◌, ◌||◌, List, [], ◌∷◌, ◌++◌,
  append_assoc, ◌==◌, length, length-append, take-append_length, arith, String,
}
use audio_studio.Rpc.Json.{number}
use audio_studio.Rpc.Json.Scan.{ok, is_digit, peek, starts, consume}
use audio_studio.Rpc.Json.Number.{
  skip_digits, consume_digits, integer_part, fraction_part, skip_sign, exponent_part, number_text,
  parse_number,
}

unfoldable pub all_digits : List ℕ → Bool
all_digits [] = true
all_digits (d ∷ ds) = is_digit d && all_digits ds

-- One digit or more.
unfoldable pub digits : List ℕ → Bool
unfolding all_digits
digits [] = false
digits (d ∷ ds) = is_digit d && all_digits ds

unfoldable pub IsWhole : List ℕ → Type 0
unfolding digits
IsWhole whole = (whole ≡ b'0' ∷ []) ⊎ ((digits whole ≡ true) × (starts b'0' whole ≡ false))

unfoldable pub IsFraction : List ℕ → Type 0
unfolding digits
IsFraction fraction =
    (fraction ≡ []) ⊎ ((ds : List ℕ) × (fraction ≡ b'.' ∷ ds) × (digits ds ≡ true))

unfoldable pub IsSign : List ℕ → Type 0
IsSign sign = (sign ≡ []) ⊎ ((sign ≡ b'+' ∷ []) ⊎ (sign ≡ b'-' ∷ []))

unfoldable pub IsExponent : List ℕ → Type 0
unfolding digits IsSign
IsExponent exponent =
    (exponent ≡ [])
    ⊎ ((e : ℕ) × (sign : List ℕ) × (ds : List ℕ) × (exponent ≡ e ∷ (sign ++ ds))
        × ((e ≡ b'e') ⊎ (e ≡ b'E'))
        × IsSign sign
        × (digits ds ≡ true))

-- The text is a number by JSON's grammar.
pub record IsNumber (raw : List ℕ) : Type 0 where
  pub sign : List ℕ
  pub whole : List ℕ
  pub fraction : List ℕ
  pub exponent : List ℕ
  pub parts : raw ≡ sign ++ (whole ++ (fraction ++ exponent))
  pub sign_form : (sign ≡ []) ⊎ (sign ≡ b'-' ∷ [])
  pub whole_form : IsWhole whole
  pub fraction_form : IsFraction fraction
  pub exponent_form : IsExponent exponent

-- No byte that a number could go on with.
abbrev pub ends_number : List ℕ → Bool
ends_number rest =
    not (is_digit (peek rest) || peek rest == b'.' || peek rest == b'e' || peek rest == b'E')

skip_digits-all_digits :
    (ds rest : List ℕ)
    → all_digits ds ≡ true
    → is_digit (peek rest) ≡ false
    → skip_digits (ds ++ rest) ≡ rest
unfolding all_digits skip_digits
skip_digits-all_digits [] [] h k = refl
skip_digits-all_digits [] (c ∷ rest) h k = ground arith
skip_digits-all_digits (d ∷ ds) rest h k = ground (arith, skip_digits-all_digits ds rest)

consume_digits-digits :
    (e : String) (ds rest : List ℕ)
    → digits ds ≡ true
    → is_digit (peek rest) ≡ false
    → consume_digits e (ds ++ rest) ≡ ok tt rest
unfolding digits consume_digits skip_digits
consume_digits-digits e [] rest h k = absurd (ground arith)
consume_digits-digits e (d ∷ ds) rest h k = ground (arith, skip_digits-all_digits ds rest)

integer_part-whole :
    (ws rest : List ℕ)
    → IsWhole ws
    → is_digit (peek rest) ≡ false
    → integer_part (ws ++ rest) ≡ ok tt rest
unfolding IsWhole integer_part digits
integer_part-whole ws rest (inl e) k = rw e (ground arith)
integer_part-whole [] rest (inr (h, n)) k = absurd (ground arith)
integer_part-whole (d ∷ ds) rest (inr (h, n)) k =
    ground (arith, consume_digits-digits "missing JSON number integer part" (d ∷ ds) rest)

fraction_part-fraction :
    (fs rest : List ℕ)
    → IsFraction fs
    → is_digit (peek rest) ≡ false
    → starts b'.' rest ≡ false
    → fraction_part (fs ++ rest) ≡ ok tt rest
unfolding IsFraction fraction_part
fraction_part-fraction fs rest (inl e) k m = rw e (ground arith)
fraction_part-fraction fs rest (inr (ds, e, h)) k m =
    rw e (consume_digits-digits "missing JSON number fraction" ds rest h k)

skip_sign-sign :
    (sign ds rest : List ℕ)
    → IsSign sign
    → digits ds ≡ true
    → skip_sign (sign ++ (ds ++ rest)) ≡ ds ++ rest
unfolding IsSign skip_sign digits
skip_sign-sign sign [] rest s h = absurd (ground arith)
skip_sign-sign sign (d ∷ ds) rest (inl e) h = rw e (ground arith)
skip_sign-sign sign (d ∷ ds) rest (inr (inl e)) h = rw e refl
skip_sign-sign sign (d ∷ ds) rest (inr (inr e)) h = rw e refl

exponent_part-exponent :
    (es rest : List ℕ)
    → IsExponent es
    → ends_number rest ≡ true
    → exponent_part (es ++ rest) ≡ ok tt rest
unfolding IsExponent exponent_part
exponent_part-exponent es [] (inl e) k = rw e refl
exponent_part-exponent es (c ∷ rest) (inl e) k = rw e (ground arith)
exponent_part-exponent es rest (inr (c, sign, ds, e, l, s, h)) k =
    rw (e, append_assoc)
      (ground (
        arith,
        skip_sign-sign sign ds rest s h,
        consume_digits-digits "missing JSON number exponent" ds rest h,
      ))

digit_not_sign : (c : ℕ) → is_digit c ≡ true → (c == b'-') ≡ false
digit_not_sign c h = ground arith

peek-whole :
    (ws ts : List ℕ) → IsWhole ws → (peek (ws ++ ts) == b'-' || is_digit (peek (ws ++ ts))) ≡ true
unfolding IsWhole digits
peek-whole ws ts (inl e) = rw e refl
peek-whole [] ts (inr (h, n)) = absurd (ground arith)
peek-whole (d ∷ ds) ts (inr (h, n)) = ground arith

head-whole : (ws rest : List ℕ) → IsWhole ws → starts b'-' (ws ++ rest) ≡ false
unfolding IsWhole digits
head-whole ws rest (inl e) = rw e refl
head-whole [] rest (inr (h, n)) = absurd (ground arith)
head-whole (d ∷ ds) rest (inr (h, n)) = ground (arith, digit_not_sign d)

head-exponent :
    (es rest : List ℕ)
    → IsExponent es
    → ends_number rest ≡ true
    → (is_digit (peek (es ++ rest)) ≡ false) × (starts b'.' (es ++ rest) ≡ false)
unfolding IsExponent
head-exponent es [] (inl e) k = rw e (refl, refl)
head-exponent es (c ∷ rest) (inl e) k = rw e (ground arith)
head-exponent es rest (inr (c, sign, ds, e, inl l, s, h)) k = rw (e, l) (refl, refl)
head-exponent es rest (inr (c, sign, ds, e, inr l, s, h)) k = rw (e, l) (refl, refl)

head-fraction :
    (fs rest : List ℕ)
    → IsFraction fs
    → is_digit (peek rest) ≡ false
    → is_digit (peek (fs ++ rest)) ≡ false
unfolding IsFraction
head-fraction fs rest (inl e) k = rw e k
head-fraction fs rest (inr (ds, e, h)) k = rw e refl

consume-sign :
    (sign ts : List ℕ)
    → (sign ≡ []) ⊎ (sign ≡ b'-' ∷ [])
    → starts b'-' ts ≡ false
    → consume b'-' (sign ++ ts) ≡ ts
consume-sign sign ts (inl e) k = rw e (ground arith)
consume-sign sign ts (inr e) k = rw e refl

number_text-number :
    (raw rest : List ℕ)
    → IsNumber raw
    → ends_number rest ≡ true
    → number_text (raw ++ rest) ≡ ok tt rest
unfolding number_text
number_text-number raw rest h k =
    let tail1 = head-exponent h.exponent rest h.exponent_form k in
    let after_exponent = exponent_part-exponent h.exponent rest h.exponent_form k in
    let after_fraction =
      fraction_part-fraction h.fraction (h.exponent ++ rest) h.fraction_form tail1.0 tail1.1 in
    let after_whole =
      integer_part-whole h.whole (h.fraction ++ (h.exponent ++ rest)) h.whole_form
        (head-fraction h.fraction (h.exponent ++ rest) h.fraction_form tail1.0) in
    let after_sign =
      consume-sign h.sign (h.whole ++ (h.fraction ++ (h.exponent ++ rest))) h.sign_form
        (head-whole h.whole (h.fraction ++ (h.exponent ++ rest)) h.whole_form) in
    rw
      (
        h.parts, append_assoc, append_assoc, append_assoc, after_sign, after_whole, after_fraction,
        after_exponent,
      )
      refl

-- A number's text, whatever follows that is no part of it, is read as it stands.
pub parse_number-number :
    (raw rest : List ℕ)
    → IsNumber raw
    → ends_number rest ≡ true
    → parse_number (raw ++ rest) ≡ ok (number raw) rest
unfolding parse_number
parse_number-number raw rest h k =
    let e : length (raw ++ rest) - length rest ≡ length raw =
      omega (arith, length-append raw rest) in
    rw (number_text-number raw rest h k, e, take-append_length raw rest) refl

-- The first byte of a number.
pub peek-number : (raw : List ℕ) → IsNumber raw → (peek raw == b'-' || is_digit (peek raw)) ≡ true
unfolding IsWhole digits
peek-number raw h = elim h.sign_form [
  | inr e ↦ rw (h.parts, e) refl
  | inl e ↦ rw (h.parts, e) (peek-whole h.whole (h.fraction ++ h.exponent) h.whole_form)
]
