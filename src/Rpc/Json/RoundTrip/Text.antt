-- ===== src/Rpc/Json/RoundTrip/Text.antt =====
-- A string literal written and read again.
use audio_studio.Prelude.{
  ℕ, zero, suc, ◌+◌, ◌*◌, ◌/◌, ◌%◌, ◌^◌, ◌⊎◌, inl, inr, ◌<◌, ◌≤◌, ◌≡◌, refl, some, List, [], ◌∷◌,
  ◌++◌, append_assoc, append-nil, length, length-append, arith,
}
use audio_studio.Wire.Bytes.{u32}
use audio_studio.Rpc.Json.Scan.{ok, expect}
use audio_studio.Rpc.Json.Text.{
  encode_utf8, hex_value, hex_round, hex_rounds, parse_unicode_escape, parse_escape, parse_chars,
  parse_string,
}
use audio_studio.Rpc.Json.Dump.{hex_digit, hex_4, dump_char, dump_chars, dump_string}

hex_value-hex_digit : (n : ℕ) → n < 16 → hex_value (hex_digit n) ≡ some n
unfolding hex_value hex_digit
hex_value-hex_digit n h = ground arith

hex_round-hex_digit :
    (c n : ℕ) (ts : List ℕ)
    → c < 2048
    → n < 16
    → hex_round c (hex_digit n ∷ ts) ≡ ok (c * 16 + n) ts
unfolding hex_round
hex_round-hex_digit c n ts hc hn =
    let e : u32 (u32 (c * 16) + n) ≡ c * 16 + n = omega arith in
    rw (hex_round, hex_value-hex_digit n hn, e)

u32_step : (c n : ℕ) → c < 2048 → n < 16 → u32 (u32 (c * 2 ^ 4) + n) ≡ c * 16 + n
u32_step c n hc hn = omega arith

parse_unicode_escape-hex_4 :
    (c : ℕ) (ts : List ℕ) → c < 128 → parse_unicode_escape (hex_4 c ++ ts) ≡ ok (c ∷ []) ts
unfolding parse_unicode_escape hex_rounds hex_4 encode_utf8
parse_unicode_escape-hex_4 c ts h =
    let e0 : c / 4096 % 16 ≡ 0 = omega arith in
    let e1 : c / 256 % 16 ≡ 0 = omega arith in
    let e2 : c / 16 % 16 ≡ c / 16 = omega arith in
    let e3 : c / 16 * 16 + c % 16 ≡ c = omega arith in
    ground (
      arith,
      e0,
      e1,
      e2,
      e3,
      hex_round-hex_digit 0 0 (hex_digit 0 ∷ hex_digit (c / 16) ∷ hex_digit (c % 16) ∷ ts)
          (omega arith) (omega arith),
      hex_round-hex_digit 0 0 (hex_digit (c / 16) ∷ hex_digit (c % 16) ∷ ts) (omega arith)
          (omega arith),
      hex_round-hex_digit 0 (c / 16) (hex_digit (c % 16) ∷ ts) (omega arith) (omega arith),
      hex_round-hex_digit (c / 16) (c % 16) ts (omega arith) (omega arith),
    )

IsShort : ℕ → Type 0
IsShort c =
    (c ≡ b'"') ⊎ (c ≡ b'\\') ⊎ (c ≡ 0x08) ⊎ (c ≡ 0x0c) ⊎ (c ≡ b'\n') ⊎ (c ≡ b'\r') ⊎ (c ≡ b'\t')

char_cases :
    (c : ℕ)
    → IsShort c
      ⊎ ((c < 0x20) × (dump_char c ≡ b'\\' ∷ b'u' ∷ hex_4 c))
      ⊎ ((0x20 ≤ c) × (¬ (c ≡ b'"')) × (¬ (c ≡ b'\\')) × (dump_char c ≡ c ∷ []))
unfolding dump_char IsShort
char_cases c = ground arith

module _ (f c : ℕ) (out ts : List ℕ) where
  abbrev IsStep : Type 0
  IsStep = parse_chars (suc f) out (dump_char c ++ ts) ≡ parse_chars f (out ++ c ∷ []) ts

  short_step : IsShort c → IsStep
  unfolding IsShort parse_chars parse_escape dump_char
  short_step h = elim h [
    | inl e ↦ rw e refl
    | inr (inl e) ↦ rw e refl
    | inr (inr (inl e)) ↦ rw e refl
    | inr (inr (inr (inl e))) ↦ rw e refl
    | inr (inr (inr (inr (inl e)))) ↦ rw e refl
    | inr (inr (inr (inr (inr (inl e))))) ↦ rw e refl
    | inr (inr (inr (inr (inr (inr e))))) ↦ rw e refl
  ]

  parse_chars-dump_char : IsStep
  unfolding parse_chars parse_escape dump_char
  parse_chars-dump_char = elim (char_cases c) [
    | inl h ↦ short_step h
    | inr (inl (h, e)) ↦ rw (e, parse_unicode_escape-hex_4 c ts (omega arith)) refl
    | inr (inr (h, n, m, e)) ↦ rw e (ground arith)
  ]

parse_chars-dump_chars :
    (value out ts : List ℕ) (f : ℕ)
    → length value < f
    → parse_chars f out (dump_chars value ++ ts) ≡ ok (out ++ value) ts
unfolding dump_chars parse_chars
parse_chars-dump_chars value out ts zero h = absurd (omega arith)
parse_chars-dump_chars [] out ts (suc f) h = rw (append-nil out)
parse_chars-dump_chars (c ∷ value) out ts (suc f) h = simp (
  append_assoc,
  parse_chars-dump_char,
  parse_chars-dump_chars value (out ++ c ∷ []) ts f (omega arith),
)

length-dump_chars : (value : List ℕ) → length value < length (dump_chars value)
unfolding dump_chars dump_char hex_4
length-dump_chars [] = omega arith
length-dump_chars (c ∷ value) =
    ground (arith, length-dump_chars value, length-append (dump_char c) (dump_chars value))

-- A string literal that `dumpString` wrote is read as the string.
pub parse_string-dump_string :
    (value ts : List ℕ) → parse_string (dump_string value ++ ts) ≡ ok value ts
unfolding parse_string dump_string expect
parse_string-dump_string value ts =
    parse_chars-dump_chars value [] ts (suc (length (dump_chars value ++ ts)))
      (omega (arith, length-append (dump_chars value) ts, length-dump_chars value))
