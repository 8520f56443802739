-- ===== src/Transport/DataLinkFrame/RoundTrip.antt =====
-- What `encode` writes, `decode` reads.
use audio_studio.Prelude.{
  ℕ, ◌+◌, ◌%◌, ◌≤◌, ◌<◌, ◌^◌, ◌≡◌, refl, sym, ◌∙◌, get_or, take, drop, List, [], ◌∷◌, length,
  take_all, arith,
}
use audio_studio.Framework.Status.{done}
use audio_studio.Transport.DataLinkFrame.{
  DataLinkFrame, encode, decode, magic, header_size, read_fields,
}
use audio_studio.Wire.Bytes.{
  byte, u8, u32, zero_bytes, zero_tail, read_u32, read_u16-bytes, read_u32-bytes,
}
use audio_studio.Wire.Checksum.{crc32, crc32-lt}

-- The fields fit the widths of the C++ struct.
pub record IsWellSized (f : DataLinkFrame) : Type 0 where
  pub version_fits : f.version < 2 ^ 8
  pub flags_fit : f.flags < 2 ^ 16
  pub sequence_fits : f.link_sequence < 2 ^ 32
  pub size_fits : f.transport_size < 2 ^ 32
  pub offset_fits : f.fragment_offset < 2 ^ 32
  pub index_fits : f.fragment_index < 2 ^ 16
  pub count_fits : f.fragment_count < 2 ^ 16
  pub payload_fits : length f.payload < 2 ^ 32

-- The bytes of a header with the given checksums and payload size.
abbrev pub laid_out : DataLinkFrame → ℕ → ℕ → ℕ → List ℕ → List ℕ
laid_out f size payload_crc header_crc rest =
    byte magic 0
    ∷ byte magic 8
    ∷ byte magic 16
    ∷ byte magic 24
    ∷ u8 f.version
    ∷ u8 36
    ∷ byte f.flags 0
    ∷ byte f.flags 8
    ∷ byte f.link_sequence 0
    ∷ byte f.link_sequence 8
    ∷ byte f.link_sequence 16
    ∷ byte f.link_sequence 24
    ∷ byte f.transport_size 0
    ∷ byte f.transport_size 8
    ∷ byte f.transport_size 16
    ∷ byte f.transport_size 24
    ∷ byte f.fragment_offset 0
    ∷ byte f.fragment_offset 8
    ∷ byte f.fragment_offset 16
    ∷ byte f.fragment_offset 24
    ∷ byte size 0
    ∷ byte size 8
    ∷ byte size 16
    ∷ byte size 24
    ∷ byte f.fragment_index 0
    ∷ byte f.fragment_index 8
    ∷ byte f.fragment_count 0
    ∷ byte f.fragment_count 8
    ∷ byte payload_crc 0
    ∷ byte payload_crc 8
    ∷ byte payload_crc 16
    ∷ byte payload_crc 24
    ∷ byte header_crc 0
    ∷ byte header_crc 8
    ∷ byte header_crc 16
    ∷ byte header_crc 24
    ∷ rest

-- A list that passes every test decodes to its fields.
decode_done :
    (xs : List ℕ)
    → header_size ≤ length xs
    → read_u32 xs ≡ magic
    → get_or xs 5 0 ≡ header_size
    → length xs ≡ header_size + read_u32 (drop 20 xs)
    → crc32 (zero_tail (take header_size xs)) ≡ read_u32 (drop 32 xs)
    → crc32 (take (read_u32 (drop 20 xs)) (drop header_size xs)) ≡ read_u32 (drop 28 xs)
    → decode xs ≡ done (read_fields xs)
unfolding decode
decode_done xs long magic_same header_same size_same header_crc payload_crc = ground arith

module _ (f : DataLinkFrame) (h : IsWellSized f) where
  frame_bytes : ℕ → List ℕ → List ℕ
  frame_bytes = laid_out f (length f.payload) (crc32 f.payload)

  decode-frame_bytes :
      (header_crc : ℕ)
      → header_crc < 2 ^ 32
      → crc32 (frame_bytes 0 []) ≡ header_crc
      → decode (frame_bytes header_crc f.payload) ≡ done f
  unfolding frame_bytes read_fields zero_tail
  decode-frame_bytes header_crc fits same =
      decode_done (frame_bytes header_crc f.payload) (omega arith)
        (read_u32-bytes magic _ (omega arith)) refl
        (rw
          (read_u32-bytes (length f.payload) (drop 24 (frame_bytes header_crc f.payload))
            h.payload_fits)
          (omega arith))
        (rw (read_u32-bytes header_crc f.payload fits) (simp zero_bytes at same))
        (rw
          (
            read_u32-bytes (length f.payload) (drop 24 (frame_bytes header_crc f.payload))
                h.payload_fits,
            take_all (length f.payload) f.payload (omega arith),
          )
          (sym (read_u32-bytes (crc32 f.payload) _ (crc32-lt f.payload))))
      ∙ let e : f.version % 2 ^ 8 ≡ f.version = omega arith in
        simp (
          e, read_u16-bytes, read_u32-bytes, h.flags_fit, h.sequence_fits, h.size_fits,
          h.offset_fits, h.index_fits, h.count_fits,
        )

-- A data-link frame whose fields fit the widths of the C++ struct decodes to itself.
pub decode-encode_link : (f : DataLinkFrame) → IsWellSized f → decode (encode f) ≡ done f
unfolding encode frame_bytes
decode-encode_link f h =
    let e : u32 (length f.payload) ≡ length f.payload = omega arith in
    rw e (decode-frame_bytes f h (crc32 (frame_bytes f h 0 [])) (crc32-lt _) refl)
