-- ===== src/Rpc/TextFrame.antt =====
-- rpc/src/rpc_framing.cpp: frames with a `Content-Length` header, which carry JSON. The connection is
-- the bytes that are still to come, as for the binary frames.
pub mod RoundTrip
use audio_studio.Prelude.{
  ℕ, zero, suc, ◌+◌, ◌-◌, ◌^◌, Bool, true, false, not, ◌&&◌, Option, none, some, List, [], ◌∷◌,
  ◌++◌, length, take, drop, ltb, leb, ◌==◌, if◌then◌else◌,
}
use audio_studio.Rpc.Parsed.{Parsed, parsed, thrown, demand, ◌>>=◌, ◌>>◌}
use audio_studio.Rpc.Json.Scan.{is_digit, peek, codes}
use audio_studio.Rpc.Json.Numerals.{decimal, leading_value, skip_c_space}
use audio_studio.Rpc.BinaryFrame.{read_bytes}

abbrev pub header_end : List ℕ
header_end = b'\r' ∷ b'\n' ∷ b'\r' ∷ b'\n' ∷ []

abbrev pub length_key : List ℕ
length_key = codes "Content-Length:"

abbrev pub begins_with : List ℕ → List ℕ → Bool
begins_with [] text = true
begins_with (p ∷ ps) [] = false
begins_with (p ∷ ps) (c ∷ text) = c == p && begins_with ps text

-- `text.find(pattern)`, with `none` for `npos`.
unfoldable pub find_text : List ℕ → List ℕ → Option ℕ
find_text pattern [] = if begins_with pattern [] then some 0 else none
find_text pattern (c ∷ text) =
    let rest = find_text pattern text in
    if begins_with pattern (c ∷ text)
    then some 0
    else elim rest [ none ↦ none | some n ↦ some (n + 1) ]

-- What `std::stoull` throws is not an `RpcFrameError`.
unfoldable pub parse_content_length : List ℕ → Parsed ℕ
unfolding find_text skip_c_space leading_value
parse_content_length header = elim (find_text length_key header) [
  | none ↦ thrown "missing Content-Length header"
  | some at ↦
      let digits = skip_c_space (drop (at + length length_key) header) in
      demand (is_digit (peek digits)) "invalid Content-Length header"
      >> demand (not (leb (2 ^ 64) (leading_value 0 digits))) "stoull"
      >> parsed (leading_value 0 digits)
]

unfoldable pub encode_content_length_frame : List ℕ → List ℕ
unfolding decimal
encode_content_length_frame json =
    codes "Content-Length: " ++ (decimal (length json) ++ (header_end ++ json))

-- The header with what was read ahead of it, its end included, and what is left.
unfoldable pub read_header : List ℕ → List ℕ → Parsed (List ℕ × List ℕ)
unfolding find_text
read_header header [] = elim (find_text header_end header) [
  | some at ↦ parsed (header, [])
  | none ↦ thrown "end of stream"
]
read_header header (byte ∷ stream) =
    let longer = header ++ byte ∷ [] in
    let rest = read_header longer stream in
    elim (find_text header_end header) [
      | some at ↦ parsed (header, byte ∷ stream)
      | none ↦ if ltb 4096 (length longer) then thrown "RPC frame header is too large" else rest
    ]

-- The payload, behind the header's end; it may begin in what was read ahead.
unfoldable pub read_payload : List ℕ → ℕ → List ℕ → Parsed (List ℕ × List ℕ)
unfolding find_text parse_content_length read_bytes
read_payload header max_payload_size stream = elim (find_text header_end header) [
  | none ↦ thrown "end of stream"
  | some at ↦ do
    let payload_prefix = drop (at + 4) header
    content_length ← parse_content_length (take (at + 4) header)
    demand (not (ltb max_payload_size content_length)) "RPC frame payload is too large"
    more ← read_bytes (content_length - length payload_prefix) stream
    parsed (take content_length (payload_prefix ++ more.0), more.1)
]

unfoldable pub read_content_length_frame_with_prefix :
    List ℕ → ℕ → List ℕ → Parsed (List ℕ × List ℕ)
unfolding read_header read_payload
read_content_length_frame_with_prefix prefix max_payload_size stream =
    read_header prefix stream >>= λ front. read_payload front.0 max_payload_size front.1

unfoldable pub read_content_length_frame : ℕ → List ℕ → Parsed (List ℕ × List ℕ)
unfolding read_content_length_frame_with_prefix
read_content_length_frame max_payload_size stream =
    read_content_length_frame_with_prefix [] max_payload_size stream
