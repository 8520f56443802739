-- ===== src/Rpc/TextFrame/RoundTrip.antt =====
-- A frame with a `Content-Length` header that was written is read back.
use audio_studio.Prelude.{
  ℕ, zero, suc, ◌+◌, ◌-◌, ◌*◌, ◌/◌, ◌^◌, ◌<◌, ◌≤◌, ◌≡◌, refl, ap, ◌∙◌, sym, Bool, true, false, not,
  ◌&&◌, inl, inr, none, some, List, [], ◌∷◌, ◌++◌, length, take, drop, ltb, leb, ◌==◌, append-nil,
  append_assoc, length-append, take_all, drop-append_length, Bool-cases, arith,
}
use audio_studio.Rpc.Parsed.{parsed}
use audio_studio.Rpc.Json.Scan.{is_digit, peek, codes}
use audio_studio.Rpc.Json.Numerals.{decimal, decimal_digits, leading_value, skip_c_space}
use audio_studio.Rpc.Json.NumeralRoundTrip.{
  digit, leading_value-decimal_digits, peek-decimal_digits, plain,
}
use audio_studio.Rpc.Json.IntRoundTrip.{IsDecimal, decimal-IsDecimal}
use audio_studio.Rpc.Json.RoundTrip.Number.{all_digits}
use audio_studio.Rpc.BinaryFrame.RoundTrip.{append-split, read_bytes-append}
use audio_studio.Rpc.TextFrame.{
  header_end, find_text, parse_content_length, encode_content_length_frame, read_header,
  read_payload, read_content_length_frame_with_prefix,
}

-- 10 ^ (k + 1)
above : ℕ → ℕ
above zero = 10
above (suc k) = 10 * above k

length-decimal_digits : (f n k : ℕ) → n < f → n < above k → length (decimal_digits f n) ≤ k + 1
unfolding above decimal_digits
length-decimal_digits zero n k h b = absurd (omega arith)
length-decimal_digits (suc f) n zero h b =
    let short : ltb n 10 ≡ true = ground arith in rw (decimal_digits, short) (omega arith)
length-decimal_digits (suc f) n (suc k) h b = elim (Bool-cases (ltb n 10)) [
  | inl short ↦ rw (decimal_digits, short) (omega arith)
  | inr long ↦
      let shorter : length (decimal_digits f (n / 10)) ≤ k + 1 =
        length-decimal_digits f (n / 10) k (ground arith) (omega arith) in
      rw (decimal_digits, long, length-append (decimal_digits f (n / 10)) (digit n ∷ []))
        (omega arith)
]

-- No carriage return among the bytes.
unfoldable plain_line : List ℕ → Bool
plain_line [] = true
plain_line (c ∷ cs) = not (c == b'\r') && plain_line cs

find_text-plain :
    (line rest : List ℕ)
    → plain_line line ≡ true
    → find_text header_end rest ≡ none
    → find_text header_end (line ++ rest) ≡ none
unfolding plain_line find_text
find_text-plain [] rest h e = e
find_text-plain (c ∷ line) rest h e = ground (arith, find_text-plain line rest)

find_text-end :
    (line : List ℕ)
    → plain_line line ≡ true
    → find_text header_end (line ++ header_end) ≡ some (length line)
unfolding plain_line find_text
find_text-end [] h = refl
find_text-end (c ∷ line) h = ground (arith, find_text-end line)

plain_line-append : (xs ys : List ℕ) → plain_line (xs ++ ys) ≡ true → plain_line xs ≡ true
unfolding plain_line
plain_line-append [] ys h = refl
plain_line-append (c ∷ xs) ys h = ground (arith, plain_line-append xs ys)

read_header_step :
    (header : List ℕ) (byte : ℕ) (stream : List ℕ)
    → find_text header_end header ≡ none
    → length (header ++ byte ∷ []) ≤ 4096
    → read_header header (byte ∷ stream) ≡ read_header (header ++ byte ∷ []) stream
unfolding read_header
read_header_step header byte stream going b =
    let fits : ltb 4096 (length (header ++ byte ∷ [])) ≡ false = ground arith in
    rw (read_header, going, fits) refl

read_header_found :
    (header stream : List ℕ) (at : ℕ)
    → find_text header_end header ≡ some at
    → read_header header stream ≡ parsed (header, stream)
unfolding read_header
read_header_found header [] at found = rw (read_header, found) refl
read_header_found header (byte ∷ stream) at found = rw (read_header, found) refl

read_header-line :
    (line more stream : List ℕ)
    → plain_line (line ++ more) ≡ true
    → length (line ++ more) ≤ 4096
    → read_header line (more ++ stream) ≡ read_header (line ++ more) stream
unfolding find_text
read_header-line line [] stream h b = rw (append-nil line) refl
read_header-line line (c ∷ more) stream h b =
    let same : (line ++ c ∷ []) ++ more ≡ line ++ c ∷ more = append_assoc line (c ∷ []) more in
    let going : find_text header_end (line ++ []) ≡ none =
      find_text-plain line [] (plain_line-append line (c ∷ more) h) refl in
    let small : length line + length (c ∷ more) ≤ 4096 = rw (length-append line (c ∷ more)) at b in
    read_header_step line c (more ++ stream) (rw (append-nil line) at going)
      (rw (length-append line (c ∷ [])) (omega arith))
    ∙ (read_header-line (line ++ c ∷ []) more stream (rw same h) (rw same b)
        ∙ ap (λ header. read_header header stream) same)

-- One byte of the header's end, behind `before` of it.
read_header-end_byte :
    (line before : List ℕ) (byte : ℕ) (stream : List ℕ)
    → plain_line line ≡ true
    → find_text header_end before ≡ none
    → length line + length before < 4096
    → read_header (line ++ before) (byte ∷ stream)
      ≡ read_header (line ++ (before ++ byte ∷ [])) stream
read_header-end_byte line before byte stream h going b =
    read_header_step (line ++ before) byte stream (find_text-plain line before h going)
      (rw (length-append (line ++ before) (byte ∷ []), length-append line before) (omega arith))
    ∙ ap (λ header. read_header header stream) (append_assoc line before (byte ∷ []))

read_header-end :
    (line stream : List ℕ)
    → plain_line line ≡ true
    → length line + 4 ≤ 4096
    → read_header line (header_end ++ stream) ≡ parsed (line ++ header_end, stream)
unfolding find_text
read_header-end line stream h b =
    ap (λ header. read_header header (header_end ++ stream)) (sym (append-nil line))
    ∙ (read_header-end_byte line [] 13 (10 ∷ 13 ∷ 10 ∷ stream) h refl (omega arith)
        ∙ (read_header-end_byte line (13 ∷ []) 10 (13 ∷ 10 ∷ stream) h refl (omega arith)
            ∙ (read_header-end_byte line (13 ∷ 10 ∷ []) 13 (10 ∷ stream) h refl (omega arith)
                ∙ (read_header-end_byte line (13 ∷ 10 ∷ 13 ∷ []) 10 stream h refl (omega arith)
                    ∙ read_header_found (line ++ header_end) stream (length line)
                        (find_text-end line h)))))

plain_line-all_digits : (ds : List ℕ) → all_digits ds ≡ true → plain_line ds ≡ true
unfolding plain_line all_digits
plain_line-all_digits [] h = refl
plain_line-all_digits (d ∷ ds) h = ground (arith, plain_line-all_digits ds)

-- The header's line, without its end.
abbrev line_of : ℕ → List ℕ
line_of n = codes "Content-Length: " ++ decimal n

line_of-plain_line : (n : ℕ) → plain_line (line_of n) ≡ true
unfolding plain_line
line_of-plain_line n =
    let known : IsDecimal n (decimal n) = decimal-IsDecimal n in
    plain_line-all_digits (decimal n) known.all

length-line_of : (n : ℕ) → n < 2 ^ 64 → length (line_of n) ≤ 36
unfolding decimal above
length-line_of n h =
    let few : length (decimal_digits (suc n) n) ≤ 19 + 1 =
      length-decimal_digits (suc n) n 19 (omega arith) (ground arith) in
    omega arith

parse_content_length-line_of :
    (n : ℕ) → n < 2 ^ 64 → parse_content_length (line_of n ++ header_end) ≡ parsed n
unfolding parse_content_length find_text skip_c_space decimal leading_value
parse_content_length-line_of n h =
    let text : List ℕ = decimal_digits (suc n) n ++ header_end in
    let digit_first : is_digit (peek text) ≡ true =
      peek-decimal_digits (suc n) n header_end (omega arith) in
    let read : leading_value 0 text ≡ n =
      leading_value-decimal_digits (suc n) n header_end (omega arith) in
    let (no_space, more) = plain text digit_first in
    let small : leb (2 ^ 64) n ≡ false = ground arith in
    rw (no_space, digit_first, read, small) refl

read_payload_lem :
    (line json rest : List ℕ) (max_payload_size : ℕ)
    → plain_line line ≡ true
    → parse_content_length (line ++ header_end) ≡ parsed (length json)
    → length json ≤ max_payload_size
    → read_payload (line ++ header_end) max_payload_size (json ++ rest) ≡ parsed (json, rest)
unfolding read_payload
read_payload_lem line json rest max_payload_size h told within =
    let header : List ℕ = line ++ header_end in
    let size : length line + 4 ≡ length header = sym (length-append line header_end) in
    let nothing : drop (length header) header ≡ [] =
      rw (append-nil header) at (drop-append_length header []) in
    let all : take (length header) header ≡ header =
      take_all (length header) header (omega arith) in
    let fits : ltb max_payload_size (length json) ≡ false = ground arith in
    let missing : length json - 0 ≡ length json = omega arith in
    let whole : take (length json) json ≡ json = take_all (length json) json (omega arith) in
    rw
      (
        read_payload,
        find_text-end line h,
        size,
        nothing,
        all,
        told,
        fits,
        missing,
        read_bytes-append json rest,
        whole,
      )
      refl

encode_content_length_frame_lem :
    (json rest : List ℕ)
    → encode_content_length_frame json ++ rest
      ≡ line_of (length json) ++ (header_end ++ (json ++ rest))
unfolding encode_content_length_frame
encode_content_length_frame_lem json rest =
    ap (λ digits. codes "Content-Length: " ++ digits)
      (append_assoc (decimal (length json)) (header_end ++ json) rest)

length-line_of_least : (n : ℕ) → 16 ≤ length (line_of n)
length-line_of_least n = omega arith

-- `readContentLengthFrameWithPrefix` takes a written frame, whose payload is within the limit and
-- less than 2 ^ 64 bytes, off the
-- connection, when at most the first 16 bytes of it were read ahead: it returns the payload and
-- leaves the bytes that follow.
pub read_content_length_frame-encode :
    (json prefix stream rest : List ℕ) (max_payload_size : ℕ)
    → length json < 2 ^ 64
    → length json ≤ max_payload_size
    → length prefix ≤ 16
    → prefix ++ stream ≡ encode_content_length_frame json ++ rest
    → read_content_length_frame_with_prefix prefix max_payload_size stream ≡ parsed (json, rest)
unfolding read_content_length_frame_with_prefix
read_content_length_frame-encode json prefix stream rest max_payload_size h within short e =
    let n : ℕ = length json in
    let line : List ℕ = line_of n in
    let after : List ℕ = header_end ++ (json ++ rest) in
    let more : List ℕ = drop (length prefix) line in
    let fits : length prefix ≤ length line = omega (arith, length-line_of_least n) in
    let (front, back) : (prefix ++ more ≡ line) × (stream ≡ more ++ after) =
      append-split prefix stream line after (e ∙ encode_content_length_frame_lem json rest) fits in
    let header : read_header prefix stream ≡ parsed (line ++ header_end, json ++ rest) =
      ap (read_header prefix) back
      ∙ (read_header-line prefix more after (rw front (line_of-plain_line n))
            (rw front (omega (arith, length-line_of n h)))
          ∙ (ap (λ header. read_header header after) front
              ∙ read_header-end line (json ++ rest) (line_of-plain_line n)
                  (omega (arith, length-line_of n h)))) in
    rw (read_content_length_frame_with_prefix, header)
      (read_payload_lem line json rest max_payload_size (line_of-plain_line n)
        (parse_content_length-line_of n h) within)
