-- ===== src/Rpc/BinaryFrame/RoundTrip.antt =====
-- A binary frame that is written is read back, whole or off a connection.
use audio_studio.Prelude.{
  ℕ, ◌+◌, ◌-◌, ◌≤◌, ◌<◌, ◌^◌, ◌≡◌, refl, sym, ap, ◌∙◌, take, drop, List, [], ◌∷◌, ◌++◌, length,
  arith, length-append, append_assoc, append-nil,
}
use audio_studio.Rpc.Parsed.{parsed}
use audio_studio.Rpc.BinaryFrame.{
  RpcBinaryFrame, RpcBinaryFrameHeader, binary_magic, binary_header_size, payload_crc,
  encode_header, decode_header, encode_binary_frame, decode_binary_frame, read_bytes,
  read_binary_frame,
}
use audio_studio.Wire.Bytes.{u32, zero_bytes, zero_tail, read_u16-bytes, read_u32-bytes}
use audio_studio.Wire.Checksum.{rpc_crc32, rpc_crc32-lt}

-- The fields that `encodeBinaryFrame` does not set fit the widths of the C++ struct.
pub record IsWellSized (f : RpcBinaryFrame) : Type 0 where
  pub version_fits : f.header.version < 2 ^ 16
  pub message_type_fits : f.header.message_type < 2 ^ 16
  pub service_fits : f.header.service_id < 2 ^ 16
  pub method_fits : f.header.method_id < 2 ^ 16
  pub payload_type_fits : f.header.payload_type < 2 ^ 16
  pub request_fits : f.header.request_id < 2 ^ 32
  pub session_fits : f.header.session_id < 2 ^ 32
  pub stream_fits : f.header.stream_id < 2 ^ 32
  pub flags_fit : f.header.flags < 2 ^ 32
  pub payload_fits : length f.payload < 2 ^ 32

-- The header that goes out, up to its own checksum.
abbrev pub filled_header : RpcBinaryFrame → RpcBinaryFrameHeader
filled_header f = record f.header {
  magic = binary_magic;
  header_size = binary_header_size;
  payload_len = length f.payload;
  payload_crc32 = payload_crc f.payload;
}

abbrev pub header_checksum : RpcBinaryFrame → ℕ
header_checksum f = rpc_crc32 (encode_header (filled_header f) 0)

-- The frame as it comes back.
abbrev pub sealed : RpcBinaryFrame → RpcBinaryFrame
sealed f = record f { header = record (filled_header f) { header_crc32 = header_checksum f } }

payload_crc-lt : (xs : List ℕ) → payload_crc xs < 2 ^ 32
payload_crc-lt [] = omega arith
payload_crc-lt (x ∷ xs) = rpc_crc32-lt (x ∷ xs)

decode_parsed :
    (xs : List ℕ)
    → binary_header_size ≤ length xs
    → (decode_header xs).magic ≡ binary_magic
    → (decode_header xs).header_size ≡ binary_header_size
    → length xs ≡ (decode_header xs).header_size + (decode_header xs).payload_len
    → rpc_crc32 (zero_tail (take binary_header_size xs)) ≡ (decode_header xs).header_crc32
    → payload_crc (drop binary_header_size xs) ≡ (decode_header xs).payload_crc32
    → decode_binary_frame xs
      ≡ parsed (record { header = decode_header xs; payload = drop binary_header_size xs })
unfolding decode_binary_frame
decode_parsed xs long magic_same header_same size_same header_crc body_crc = ground arith

encode_header-length :
    (f : RpcBinaryFrame) (crc : ℕ)
    → length (encode_header (filled_header f) crc) ≡ binary_header_size
unfolding encode_header
encode_header-length f crc = refl

module _ (f : RpcBinaryFrame) (h : IsWellSized f) where
  decode_header-sealed :
      (rest : List ℕ) (crc : ℕ)
      → crc < 2 ^ 32
      → decode_header (encode_header (filled_header f) crc ++ rest)
        ≡ record (filled_header f) { header_crc32 = crc }
  unfolding decode_header encode_header
  decode_header-sealed rest crc fits =
      let magic_fits : binary_magic < 2 ^ 32 = omega arith in
      let size_fits : binary_header_size < 2 ^ 16 = omega arith in
      simp (
        magic_fits,
        size_fits,
        read_u16-bytes,
        read_u32-bytes,
        h.version_fits,
        h.message_type_fits,
        h.service_fits,
        h.method_fits,
        h.payload_type_fits,
        h.request_fits,
        h.session_fits,
        h.stream_fits,
        h.flags_fit,
        h.payload_fits,
        payload_crc-lt f.payload,
        fits,
      )

  decode-whole :
      decode_binary_frame (encode_header (filled_header f) (header_checksum f) ++ f.payload)
      ≡ parsed (sealed f)
  unfolding zero_tail encode_header
  decode-whole =
      let crc : ℕ = header_checksum f in
      let xs : List ℕ = encode_header (filled_header f) crc ++ f.payload in
      let fields = decode_header-sealed f.payload crc (rpc_crc32-lt _) in
      let field = λ (g : RpcBinaryFrameHeader → ℕ). ap g fields in
      let size : (decode_header xs).header_size ≡ binary_header_size = field λ r. r.header_size in
      let more : (decode_header xs).payload_len ≡ length f.payload = field λ r. r.payload_len in
      let crc_same : rpc_crc32 (zero_tail (take binary_header_size xs)) ≡ header_checksum f =
        simp zero_bytes in
      decode_parsed xs (omega arith) (field λ r. r.magic) (field λ r. r.header_size)
        (omega (arith, size, more)) (crc_same ∙ sym (field λ r. r.header_crc32))
        (sym (field λ r. r.payload_crc32))
      ∙ ap (λ (r : RpcBinaryFrameHeader). parsed (record { header = r; payload = f.payload }))
          fields

-- A binary frame whose fields fit their widths decodes to itself, with the header fields that the
-- encoder sets (magic, header size, payload length and both checksums) as the encoder set them.
pub decode_binary_frame-encode_binary_frame :
    (f : RpcBinaryFrame)
    → IsWellSized f
    → decode_binary_frame (encode_binary_frame f) ≡ parsed (sealed f)
unfolding encode_binary_frame
decode_binary_frame-encode_binary_frame f h =
    let e : u32 (length f.payload) ≡ length f.payload = omega arith in rw e (decode-whole f h)

pub read_bytes-append : (xs rest : List ℕ) → read_bytes (length xs) (xs ++ rest) ≡ parsed (xs, rest)
unfolding read_bytes
read_bytes-append [] rest = refl
read_bytes-append (x ∷ xs) rest = rw (read_bytes-append xs rest) refl

-- Bytes that were read ahead are the front of what was written.
pub append-split :
    (p s a b : List ℕ)
    → p ++ s ≡ a ++ b
    → length p ≤ length a
    → (p ++ drop (length p) a ≡ a) × (s ≡ drop (length p) a ++ b)
append-split [] s a b e short = (refl, e)
append-split (x ∷ p) s [] b e short = absurd (omega arith)
append-split (x ∷ p) s (y ∷ a) b e short = ground (arith, append-split p s a b)

read_parts :
    (f : RpcBinaryFrame) (prefix start rest : List ℕ) (max_payload_size : ℕ)
    → IsWellSized f
    → length f.payload ≤ max_payload_size
    → prefix ++ start ≡ encode_header (filled_header f) (header_checksum f)
    → read_binary_frame prefix max_payload_size (start ++ (f.payload ++ rest))
      ≡ parsed (sealed f, rest)
unfolding read_binary_frame
read_parts f prefix start rest max_payload_size h within e =
    let crc : ℕ = header_checksum f in
    let bytes : List ℕ = encode_header (filled_header f) crc in
    let long : length bytes ≡ binary_header_size = encode_header-length f crc in
    let sum : length prefix + length start ≡ binary_header_size =
      sym (length-append prefix start) ∙ (ap (length {A = ℕ}) e ∙ long) in
    let n1 : binary_header_size - length prefix ≡ length start = omega arith in
    let n2 : binary_header_size + length f.payload - binary_header_size ≡ length f.payload =
      omega arith in
    let same : decode_header (prefix ++ start) ≡ record (filled_header f) { header_crc32 = crc } =
      rw (e, sym (append-nil bytes)) (decode_header-sealed f h [] crc (rpc_crc32-lt _)) in
    let size : length (prefix ++ start) ≡ binary_header_size = ap (length {A = ℕ}) e ∙ long in
    let whole : decode_binary_frame ((prefix ++ start) ++ f.payload) ≡ parsed (sealed f) =
      rw e (decode-whole f h) in
    rw
      (
        n1,
        read_bytes-append start (f.payload ++ rest),
        same,
        size,
        n2,
        read_bytes-append f.payload rest,
        whole,
      )
      (ground arith)

-- `readBinaryFrameWithPrefix` takes a written frame, whose payload is within the limit, off the
-- connection, when at most the header's bytes of it were read ahead: it returns the frame as
-- `decodeBinaryFrame` gives it, and leaves the bytes that follow.
pub read_binary_frame-encode_binary_frame :
    (f : RpcBinaryFrame) (prefix stream rest : List ℕ) (max_payload_size : ℕ)
    → IsWellSized f
    → length f.payload ≤ max_payload_size
    → length prefix ≤ binary_header_size
    → prefix ++ stream ≡ encode_binary_frame f ++ rest
    → read_binary_frame prefix max_payload_size stream ≡ parsed (sealed f, rest)
unfolding read_binary_frame encode_binary_frame
read_binary_frame-encode_binary_frame f prefix stream rest max_payload_size h within short e =
    let bytes : List ℕ = encode_header (filled_header f) (header_checksum f) in
    let size : u32 (length f.payload) ≡ length f.payload = omega arith in
    let start : List ℕ = drop (length prefix) bytes in
    let enc : encode_binary_frame f ≡ bytes ++ f.payload = rw size refl in
    let whole : prefix ++ stream ≡ bytes ++ (f.payload ++ rest) =
      e ∙ (ap (λ l. l ++ rest) enc ∙ append_assoc bytes f.payload rest) in
    let (front, back) =
      append-split prefix stream bytes (f.payload ++ rest) whole
        (omega (arith, encode_header-length f (header_checksum f))) in
    rw back (read_parts f prefix start rest max_payload_size h within front)
