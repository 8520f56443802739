-- ===== src/Controller/TransportFrame/Equivalence.antt =====
-- The device's transport frames and the server's are the same bytes.
use audio_studio.Prelude.{
  ℕ, ◌+◌, ◌*◌, ◌≤◌, ◌≡◌, refl, ◌∙◌, Bool, true, false, ◌&&◌, ◌||◌, not, Option, none, some, List,
  length, get_or, take, drop, length-drop, take_all, Bool-cases, inl, inr, arith, ltb, ◌==◌,
  if◌then◌else◌,
}
use audio_studio.Framework.Status.{
  Result, Status, done, fail, stuck, require, invalid_argument, ◌>>◌,
}
use audio_studio.Wire.Bytes.{
  are_bytes, get_or-IsByte, read_u32_digits, byte, IsByte, read_u32, read_u16, zero_tail,
}
use audio_studio.Wire.Checksum.{crc32}
use audio_studio.Transport.Frame.{TransportFrame, magic, read_fields}
use audio_studio.Transport.Frame
use audio_studio.Controller.Bytes.{write_le32, ac_crc32-crc32}
use audio_studio.Controller.LinkFrame.Equivalence.{zeroed, header_crc}
use audio_studio.Controller.TransportFrame.{
  Frame as AcFrame, header_size, max_payload, is_magic, read_frame, encode, decode,
}

-- 'A', 'S', 'T', 'M', and the header's size
header_bytes :
    ((byte magic 0 ≡ b'A') × (byte magic 8 ≡ b'S'))
    × ((byte magic 16 ≡ b'T') × (byte magic 24 ≡ b'M'))
unfolding byte
header_bytes = ((refl, refl), (refl, refl))

-- The server's frame for what the device answers to a request.
unfoldable pub answer : AcFrame → ℕ → List ℕ → TransportFrame
answer request flags payload = record {
  version = if request.version == 0 then 1 else request.version;
  service_id = request.channel_id;
  channel_id = request.channel_id;
  command_id = request.command_id;
  flags = flags;
  sequence_id = request.sequence_id;
  session_id = request.session_id;
  payload = payload;
}

-- When the payload is no longer than a packet allows and the buffer has room, the device writes the
-- bytes that the server's `encode` gives the same fields, with version 1 in place of 0.
pub encode-answer :
    (capacity : ℕ) (request : AcFrame) (flags : ℕ) (payload : List ℕ)
    → length payload ≤ max_payload
    → header_size + length payload ≤ capacity
    → encode capacity request flags payload ≡ some (Frame.encode (answer request flags payload))
unfolding encode Frame.encode answer
encode-answer capacity request flags payload short room =
    let fits : (ltb max_payload (length payload) || ltb capacity (header_size + length payload))
        ≡ false =
      ground arith in
    let ((a, s), (t, m)) = header_bytes in rw fits (simp (ac_crc32-crc32, a, s, t, m))

magic_digits :
    (a b c d : ℕ)
    → IsByte a
    → IsByte b
    → IsByte c
    → IsByte d
    → (a == b'A' && b == b'S' && c == b'T' && d == b'M')
      ≡ (a + b * 256 + c * 65536 + d * 16777216 == magic)
magic_digits a b c d ha hb hc hd = ground arith

is_magic-read_u32 : (xs : List ℕ) → are_bytes xs ≡ true → is_magic xs ≡ (read_u32 xs == magic)
unfolding is_magic
is_magic-read_u32 xs h =
    let h0 = get_or-IsByte xs 0 h in
    let h1 = get_or-IsByte xs 1 h in
    let h2 = get_or-IsByte xs 2 h in
    let h3 = get_or-IsByte xs 3 h in
    rw (read_u32_digits xs h0 h1 h2 h3)
      (magic_digits (get_or xs 0 0) (get_or xs 1 0) (get_or xs 2 0) (get_or xs 3 0) h0 h1 h2 h3)

unfoldable pub view_of : TransportFrame → AcFrame
view_of f = record {
  version = f.version;
  channel_id = f.channel_id;
  command_id = f.command_id;
  flags = f.flags;
  sequence_id = f.sequence_id;
  session_id = f.session_id;
  payload = f.payload;
}

-- What the device is told of a frame, or a refusal.
unfoldable pub view : Result TransportFrame → Option AcFrame
unfolding view_of
view (done f) = some (view_of f)
view (fail status) = none
view stuck = none

module _ (xs : List ℕ) (h : are_bytes xs ≡ true) (long : ltb (length xs) header_size ≡ false) where
  abbrev size : ℕ
  size = read_u32 (drop 24 xs)

  same_checks :
      take size (drop header_size xs) ≡ drop header_size xs
      → (a b : Bool) (e1 e2 : Status)
      → (if not a then none else (if not b then none else some (read_frame xs)))
        ≡ view (do require a e1; require b e2; done (read_fields xs))
  unfolding view read_frame read_fields
  same_checks body false b e1 e2 = refl
  same_checks body true false e1 e2 = refl
  same_checks body true true e1 e2 = rw body refl

  decode_tagged :
      (read_u32 xs == magic) ≡ true
      → (read_u16 (drop 6 xs) == header_size) ≡ true
      → decode xs ≡ view (Frame.decode xs)
  unfolding decode Frame.decode view
  decode_tagged tag header =
      let m : is_magic xs ≡ true = is_magic-read_u32 xs h ∙ tag in
      elim (Bool-cases (length xs == header_size + size)) [
        | inr uneven ↦ rw (decode, long, tag, m, header, uneven) refl
        | inl even ↦
            let body : take size (drop header_size xs) ≡ drop header_size xs =
              take_all size (drop header_size xs)
                (ground (arith, length-drop {0} header_size xs)) in
            let enough : header_size ≤ length xs = ground arith in
            rw
              (
                decode,
                long,
                tag,
                m,
                header,
                even,
                ac_crc32-crc32 (write_le32 (take header_size xs) 32 0),
                zeroed xs enough,
                header_crc xs,
                ac_crc32-crc32 (take size (drop header_size xs)),
              )
              (same_checks body (crc32 (zero_tail (take header_size xs)) == read_u32 (drop 32 xs))
                (crc32 (take size (drop header_size xs)) == read_u32 (drop 28 xs))
                (invalid_argument "transport frame header crc mismatch")
                (invalid_argument "transport frame payload crc mismatch"))
      ]

-- On every buffer of bytes the device accepts just the transport frames that the server's `decode`
-- accepts, with the same fields.
pub ac_decode-decode : (xs : List ℕ) → are_bytes xs ≡ true → decode xs ≡ view (Frame.decode xs)
unfolding decode Frame.decode view
ac_decode-decode xs h = elim (Bool-cases (ltb (length xs) header_size)) [
  | inl short ↦ rw (decode, short) refl
  | inr long ↦ elim (Bool-cases (read_u32 xs == magic)) [
    | inr other ↦
        let m : is_magic xs ≡ false = is_magic-read_u32 xs h ∙ other in
        rw (decode, long, other, m) refl
    | inl tag ↦ elim (Bool-cases (read_u16 (drop 6 xs) == header_size)) [
      | inr other ↦
          let m : is_magic xs ≡ true = is_magic-read_u32 xs h ∙ tag in
          rw (decode, long, tag, m, other) refl
      | inl header ↦ decode_tagged xs h long tag header
    ]
  ]
]
