-- ===== src/Rpc/BinaryFrame.antt =====
-- rpc/include/rpc_framing.hpp and src/rpc_framing.cpp: the binary frame of the RPC connection.
pub mod RoundTrip
use audio_studio.Prelude.{
  ℕ, zero, suc, ◌+◌, ◌-◌, Bool, not, List, [], ◌∷◌, ◌++◌, length, take, drop, ltb, ◌==◌,
  if◌then◌else◌,
}
use audio_studio.Rpc.Parsed.{Parsed, parsed, thrown, demand, ◌>>=◌, ◌>>◌}
use audio_studio.Wire.Bytes.{u32, append_u16, append_u32, read_u16, read_u32, zero_tail}
use audio_studio.Wire.Checksum.{rpc_crc32}

-- `message_type` and `payload_type` are enumerations over `uint16_t`, which a cast may give any
-- value of that type.
pub record RpcBinaryFrameHeader : Type 0 where
  pub magic : ℕ
  pub version : ℕ
  pub header_size : ℕ
  pub message_type : ℕ
  pub service_id : ℕ
  pub method_id : ℕ
  pub payload_type : ℕ
  pub request_id : ℕ
  pub session_id : ℕ
  pub stream_id : ℕ
  pub flags : ℕ
  pub payload_len : ℕ
  pub payload_crc32 : ℕ
  pub header_crc32 : ℕ

pub record RpcBinaryFrame : Type 0 where
  pub header : RpcBinaryFrameHeader
  pub payload : List ℕ

abbrev pub binary_magic : ℕ
binary_magic = 0x50525341

abbrev pub binary_header_size : ℕ
binary_header_size = 44

unfoldable pub encode_header : RpcBinaryFrameHeader → ℕ → List ℕ
unfolding append_u16 append_u32
encode_header header header_crc32 =
    let out1 = append_u32 [] header.magic in
    let out2 = append_u16 out1 header.version in
    let out3 = append_u16 out2 header.header_size in
    let out4 = append_u16 out3 header.message_type in
    let out5 = append_u16 out4 header.service_id in
    let out6 = append_u16 out5 header.method_id in
    let out7 = append_u16 out6 header.payload_type in
    let out8 = append_u32 out7 header.request_id in
    let out9 = append_u32 out8 header.session_id in
    let out10 = append_u32 out9 header.stream_id in
    let out11 = append_u32 out10 header.flags in
    let out12 = append_u32 out11 header.payload_len in
    let out13 = append_u32 out12 header.payload_crc32 in append_u32 out13 header_crc32

unfoldable pub decode_header : List ℕ → RpcBinaryFrameHeader
decode_header xs = record {
  magic = read_u32 xs;
  version = read_u16 (drop 4 xs);
  header_size = read_u16 (drop 6 xs);
  message_type = read_u16 (drop 8 xs);
  service_id = read_u16 (drop 10 xs);
  method_id = read_u16 (drop 12 xs);
  payload_type = read_u16 (drop 14 xs);
  request_id = read_u32 (drop 16 xs);
  session_id = read_u32 (drop 20 xs);
  stream_id = read_u32 (drop 24 xs);
  flags = read_u32 (drop 28 xs);
  payload_len = read_u32 (drop 32 xs);
  payload_crc32 = read_u32 (drop 36 xs);
  header_crc32 = read_u32 (drop 40 xs);
}

-- The checksum of a payload; that of an empty one is 0.
abbrev pub payload_crc : List ℕ → ℕ
payload_crc [] = 0
payload_crc (x ∷ xs) = rpc_crc32 (x ∷ xs)

unfoldable pub encode_binary_frame : RpcBinaryFrame → List ℕ
unfolding encode_header
encode_binary_frame frame =
    let header : RpcBinaryFrameHeader = record frame.header {
      magic = binary_magic;
      header_size = binary_header_size;
      payload_len = u32 (length frame.payload);
      payload_crc32 = payload_crc frame.payload;
    } in
    encode_header header (rpc_crc32 (encode_header header 0)) ++ frame.payload

unfoldable pub decode_binary_frame : List ℕ → Parsed RpcBinaryFrame
unfolding decode_header zero_tail
decode_binary_frame xs = do
  demand (not (ltb (length xs) binary_header_size)) "binary frame is too small"
  let header = decode_header xs
  demand (header.magic == binary_magic) "binary frame magic mismatch"
  demand (header.header_size == binary_header_size) "unsupported binary frame header size"
  demand (length xs == header.header_size + header.payload_len) "binary frame size mismatch"
  demand (rpc_crc32 (zero_tail (take binary_header_size xs)) == header.header_crc32)
      "binary frame header CRC mismatch"
  demand (payload_crc (drop binary_header_size xs) == header.payload_crc32)
      "binary frame payload CRC mismatch"
  parsed (record { header = header; payload = drop binary_header_size xs })

-- `read_byte`, `n` times: the connection is the bytes that are still to come, and the callback
-- throws at its end. What was read, and what is left.
unfoldable pub read_bytes : ℕ → List ℕ → Parsed (List ℕ × List ℕ)
read_bytes zero stream = parsed ([], stream)
read_bytes (suc n) [] = thrown "end of stream"
read_bytes (suc n) (x ∷ stream) =
    let rest = read_bytes n stream in rest >>= λ r. parsed (x ∷ r.0, r.1)

unfoldable pub read_binary_frame : List ℕ → ℕ → List ℕ → Parsed (RpcBinaryFrame × List ℕ)
read_binary_frame prefix max_payload_size stream = do
  first ← read_bytes (binary_header_size - length prefix) stream
  let (start, stream1) = first
  let header_bytes = prefix ++ start
  let header = decode_header header_bytes
  demand (header.magic == binary_magic) "binary frame magic mismatch"
  demand (header.header_size == binary_header_size) "unsupported binary frame header size"
  demand (not (ltb max_payload_size header.payload_len)) "binary frame payload is too large"
  second ← read_bytes (binary_header_size + header.payload_len - length header_bytes) stream1
  let (more, stream2) = second
  frame ← decode_binary_frame (header_bytes ++ more)
  parsed (frame, stream2)
