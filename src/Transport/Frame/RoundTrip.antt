-- ===== src/Transport/Frame/RoundTrip.antt =====
-- What `encode` writes, `decode` reads.
use audio_studio.Prelude.{
  ℕ, ◌+◌, ◌≤◌, ◌<◌, ◌^◌, ◌≡◌, refl, sym, ◌∙◌, take, drop, List, [], ◌∷◌, length, take_all, arith,
}
use audio_studio.Framework.Status.{done}
use audio_studio.Transport.Frame.{TransportFrame, encode, decode, magic, header_size, read_fields}
use audio_studio.Wire.Bytes.{
  byte, u32, zero_bytes, zero_tail, read_u16, read_u32, read_u16-bytes, read_u32-bytes,
}
use audio_studio.Wire.Checksum.{crc32, crc32-lt}

-- The fields fit the widths of the C++ struct.
pub record IsWellSized (f : TransportFrame) : Type 0 where
  pub version_fits : f.version < 2 ^ 16
  pub channel_fits : f.channel_id < 2 ^ 16
  pub command_fits : f.command_id < 2 ^ 16
  pub flags_fit : f.flags < 2 ^ 32
  pub sequence_fits : f.sequence_id < 2 ^ 32
  pub session_fits : f.session_id < 2 ^ 32
  pub payload_fits : length f.payload < 2 ^ 32

-- The bytes of a header with the given checksums and payload size.
abbrev laid_out : TransportFrame → ℕ → ℕ → ℕ → List ℕ → List ℕ
laid_out f size payload_crc header_crc rest =
    byte magic 0
    ∷ byte magic 8
    ∷ byte magic 16
    ∷ byte magic 24
    ∷ byte f.version 0
    ∷ byte f.version 8
    ∷ byte 36 0
    ∷ byte 36 8
    ∷ byte f.channel_id 0
    ∷ byte f.channel_id 8
    ∷ byte f.command_id 0
    ∷ byte f.command_id 8
    ∷ byte f.flags 0
    ∷ byte f.flags 8
    ∷ byte f.flags 16
    ∷ byte f.flags 24
    ∷ byte f.sequence_id 0
    ∷ byte f.sequence_id 8
    ∷ byte f.sequence_id 16
    ∷ byte f.sequence_id 24
    ∷ byte f.session_id 0
    ∷ byte f.session_id 8
    ∷ byte f.session_id 16
    ∷ byte f.session_id 24
    ∷ byte size 0
    ∷ byte size 8
    ∷ byte size 16
    ∷ byte size 24
    ∷ byte payload_crc 0
    ∷ byte payload_crc 8
    ∷ byte payload_crc 16
    ∷ byte payload_crc 24
    ∷ byte header_crc 0
    ∷ byte header_crc 8
    ∷ byte header_crc 16
    ∷ byte header_crc 24
    ∷ rest

-- A list that passes every test decodes to its fields.
decode_done :
    (xs : List ℕ)
    → header_size ≤ length xs
    → read_u32 xs ≡ magic
    → read_u16 (drop 6 xs) ≡ header_size
    → length xs ≡ header_size + read_u32 (drop 24 xs)
    → crc32 (zero_tail (take header_size xs)) ≡ read_u32 (drop 32 xs)
    → crc32 (take (read_u32 (drop 24 xs)) (drop header_size xs)) ≡ read_u32 (drop 28 xs)
    → decode xs ≡ done (read_fields xs)
unfolding decode
decode_done xs long magic_same header_same size_same header_crc payload_crc = ground arith

module _ (f : TransportFrame) (h : IsWellSized f) where
  frame_bytes : ℕ → List ℕ → List ℕ
  frame_bytes = laid_out f (length f.payload) (crc32 f.payload)

  decode-frame_bytes :
      (header_crc : ℕ)
      → header_crc < 2 ^ 32
      → crc32 (frame_bytes 0 []) ≡ header_crc
      → decode (frame_bytes header_crc f.payload) ≡ done (record f { service_id = f.channel_id })
  unfolding frame_bytes read_fields zero_tail
  decode-frame_bytes header_crc fits same =
      decode_done (frame_bytes header_crc f.payload) (omega arith)
        (read_u32-bytes magic _ (omega arith)) (read_u16-bytes 36 _ (omega arith))
        (rw
          (read_u32-bytes (length f.payload) (drop 28 (frame_bytes header_crc f.payload))
            h.payload_fits)
          (omega arith))
        (rw (read_u32-bytes header_crc f.payload fits) (simp zero_bytes at same))
        (rw
          (
            read_u32-bytes (length f.payload) (drop 28 (frame_bytes header_crc f.payload))
                h.payload_fits,
            take_all (length f.payload) f.payload (omega arith),
          )
          (sym (read_u32-bytes (crc32 f.payload) _ (crc32-lt f.payload))))
      ∙ simp (
        read_u16-bytes, read_u32-bytes, h.version_fits, h.channel_fits, h.command_fits, h.flags_fit,
        h.sequence_fits, h.session_fits,
      )

-- A transport frame whose fields fit the widths of the C++ struct decodes to itself, except that
-- its service id comes back as its channel id.
pub decode-encode_frame :
    (f : TransportFrame)
    → IsWellSized f
    → decode (encode f) ≡ done (record f { service_id = f.channel_id })
unfolding encode frame_bytes
decode-encode_frame f h =
    let e : u32 (length f.payload) ≡ length f.payload = omega arith in
    rw e (decode-frame_bytes f h (crc32 (frame_bytes f h 0 [])) (crc32-lt _) refl)
