-- ===== src/Controller/LinkFrame/Equivalence.antt =====
-- The device's frames and the server's are the same bytes.
use audio_studio.Prelude.{
  ℕ, ◌+◌, ◌*◌, ◌<◌, ◌≤◌, ◌≡◌, refl, ◌∙◌, Bool, true, false, ◌&&◌, not, Option, none, some, List,
  length, get_or, take, drop, length-take, length-drop, take_all, get_or-drop, get_or-take,
  Bool-cases, inl, inr, arith, ltb, ◌==◌, if◌then◌else◌,
}
use audio_studio.Framework.Status.{
  Result, Status, done, fail, stuck, require, invalid_argument, ◌>>◌,
}
use audio_studio.Wire.Bytes.{
  zero_bytes, are_bytes, get_or-IsByte, read_u32_digits, byte, IsByte, read_u32, zero_tail,
}
use audio_studio.Wire.Checksum.{crc32}
use audio_studio.Transport.DataLinkFrame.{DataLinkFrame, encode, decode, magic, read_fields}
use audio_studio.Controller.Bytes.{write_le32, ac_crc32-crc32}
use audio_studio.Controller.LinkFrame.{
  FrameView, header_size, encode_frame, decode_frame, is_magic, read_view,
}

-- 'A', 'S', 'D', 'L'
magic_bytes :
    (byte magic 0 ≡ b'A') × (byte magic 8 ≡ b'S') × (byte magic 16 ≡ b'D') × (byte magic 24 ≡ b'L')
unfolding byte
magic_bytes = (refl, refl, refl, refl)

-- When the buffer has room for it, the device writes a frame as the bytes that the server's
-- `encode` gives the same fields with version 1.
pub encode_frame-encode :
    (capacity flags link_sequence transport_size fragment_offset fragment_index fragment_count : ℕ)
    (payload : List ℕ)
    → header_size + length payload ≤ capacity
    → encode_frame capacity flags link_sequence transport_size fragment_offset fragment_index
        fragment_count payload
      ≡ some (
          encode (record {
            version = 1;
            flags = flags;
            link_sequence = link_sequence;
            transport_size = transport_size;
            fragment_offset = fragment_offset;
            fragment_index = fragment_index;
            fragment_count = fragment_count;
            payload = payload;
          }))
unfolding encode_frame encode
encode_frame-encode capacity flags link_sequence transport_size fragment_offset fragment_index
      fragment_count payload room =
    let fits : ltb capacity (header_size + length payload) ≡ false = ground arith in
    let (a, s, d, l) = magic_bytes in rw fits (simp (ac_crc32-crc32, a, s, d, l))

magic_digits :
    (a b c d : ℕ)
    → IsByte a
    → IsByte b
    → IsByte c
    → IsByte d
    → (a == b'A' && b == b'S' && c == b'D' && d == b'L')
      ≡ (a + b * 256 + c * 65536 + d * 16777216 == magic)
magic_digits a b c d ha hb hc hd = ground arith

pub is_magic-read_u32 : (xs : List ℕ) → are_bytes xs ≡ true → is_magic xs ≡ (read_u32 xs == magic)
unfolding is_magic
is_magic-read_u32 xs h =
    let h0 = get_or-IsByte xs 0 h in
    let h1 = get_or-IsByte xs 1 h in
    let h2 = get_or-IsByte xs 2 h in
    let h3 = get_or-IsByte xs 3 h in
    rw (read_u32_digits xs h0 h1 h2 h3)
      (magic_digits (get_or xs 0 0) (get_or xs 1 0) (get_or xs 2 0) (get_or xs 3 0) h0 h1 h2 h3)

-- The header with its checksum zeroed, and the checksum that stood there.
pub zeroed :
    (xs : List ℕ)
    → header_size ≤ length xs
    → write_le32 (take header_size xs) 32 0 ≡ zero_tail (take header_size xs)
unfolding write_le32 zero_tail
zeroed xs h =
    let e : length (take header_size xs) ≡ 36 = omega (arith, length-take {0} header_size xs) in
    rw e (simp zero_bytes)

header_byte :
    (xs : List ℕ) (i : ℕ)
    → i < 4
    → get_or (drop 32 (take header_size xs)) i 0 ≡ get_or (drop 32 xs) i 0
header_byte xs i h =
    rw (get_or-drop 32 (take header_size xs) i 0, get_or-drop 32 xs i 0)
      (get_or-take header_size xs (32 + i) 0 (omega arith))

pub header_crc : (xs : List ℕ) → read_u32 (drop 32 (take header_size xs)) ≡ read_u32 (drop 32 xs)
unfolding read_u32
header_crc xs =
    rw
      (
        header_byte xs 0 (omega arith),
        header_byte xs 1 (omega arith),
        header_byte xs 2 (omega arith),
        header_byte xs 3 (omega arith),
      )
      refl

unfoldable pub view_of : DataLinkFrame → FrameView
view_of f = record {
  flags = f.flags;
  link_sequence = f.link_sequence;
  transport_size = f.transport_size;
  fragment_offset = f.fragment_offset;
  payload_size = length f.payload;
  fragment_index = f.fragment_index;
  fragment_count = f.fragment_count;
  payload = f.payload;
}

-- What the device is told of a frame: all but the version, or a refusal.
unfoldable pub view : Result DataLinkFrame → Option FrameView
unfolding view_of
view (done f) = some (view_of f)
view (fail status) = none
view stuck = none

module _ (xs : List ℕ) (h : are_bytes xs ≡ true) (long : ltb (length xs) header_size ≡ false) where
  abbrev size : ℕ
  size = read_u32 (drop 20 xs)

  same_checks :
      length (drop header_size xs) ≡ size
      → (a b : Bool) (e1 e2 : Status)
      → (if not a then none else (if not b then none else some (read_view xs)))
        ≡ view (do require a e1; require b e2; done (read_fields xs))
  unfolding view read_view read_fields
  same_checks left false b e1 e2 = refl
  same_checks left true false e1 e2 = refl
  same_checks left true true e1 e2 = rw left refl

  -- The checks past the header's length and tag, on both sides.
  decode_tagged :
      (read_u32 xs == magic) ≡ true
      → (get_or xs 5 0 == header_size) ≡ true
      → decode_frame xs ≡ view (decode xs)
  unfolding decode_frame decode view
  decode_tagged tag header =
      let m : is_magic xs ≡ true = is_magic-read_u32 xs h ∙ tag in
      elim (Bool-cases (length xs == header_size + size)) [
        | inr uneven ↦ rw (decode_frame, long, tag, m, header, uneven) refl
        | inl even ↦
            let body : take size (drop header_size xs) ≡ drop header_size xs =
              take_all size (drop header_size xs)
                (ground (arith, length-drop {0} header_size xs)) in
            let enough : header_size ≤ length xs = ground arith in
            let left : length (drop header_size xs) ≡ size =
              ground (arith, length-drop {0} header_size xs) in
            rw
              (
                decode_frame,
                long,
                tag,
                m,
                header,
                even,
                ac_crc32-crc32 (write_le32 (take header_size xs) 32 0),
                zeroed xs enough,
                header_crc xs,
                ac_crc32-crc32 (drop header_size xs),
                body,
              )
              (same_checks left (crc32 (zero_tail (take header_size xs)) == read_u32 (drop 32 xs))
                (crc32 (drop header_size xs) == read_u32 (drop 28 xs))
                (invalid_argument "data-link header crc mismatch")
                (invalid_argument "data-link payload crc mismatch"))
      ]

-- On every buffer of bytes the device accepts just the frames that the server's `decode` accepts,
-- with the same fields.
pub decode_frame-decode : (xs : List ℕ) → are_bytes xs ≡ true → decode_frame xs ≡ view (decode xs)
unfolding decode_frame decode view
decode_frame-decode xs h = elim (Bool-cases (ltb (length xs) header_size)) [
  | inl short ↦ rw (decode_frame, short) refl
  | inr long ↦ elim (Bool-cases (read_u32 xs == magic)) [
    | inr other ↦
        let m : is_magic xs ≡ false = is_magic-read_u32 xs h ∙ other in
        rw (decode_frame, long, other, m) refl
    | inl tag ↦ elim (Bool-cases (get_or xs 5 0 == header_size)) [
      | inr other ↦
          let m : is_magic xs ≡ true = is_magic-read_u32 xs h ∙ tag in
          rw (decode_frame, long, tag, m, other) refl
      | inl header ↦ decode_tagged xs h long tag header
    ]
  ]
]
