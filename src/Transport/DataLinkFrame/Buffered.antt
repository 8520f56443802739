-- ===== src/Transport/DataLinkFrame/Buffered.antt =====
-- Frames in a receive buffer: `frame_size` tells a whole frame from one that is still arriving.
use audio_studio.Prelude.{
  ℕ, ◌+◌, ◌-◌, ◌≤◌, ◌<◌, ◌^◌, ◌≡◌, refl, String, List, [], ◌++◌, length, get_or, take, drop,
  take-append_add, length-take, length-append, arith,
}
use native.Mathlib.Decide.{dec_lt}
use audio_studio.Framework.Status.{Result, done, fail, unavailable}
use audio_studio.Transport.DataLinkFrame.{DataLinkFrame, encode, frame_size, magic, header_size}
use audio_studio.Transport.DataLinkFrame.RoundTrip.{laid_out}
use audio_studio.Wire.Bytes.{u32, read_u32, read_u32-bytes}
use audio_studio.Wire.Checksum.{crc32}

frame_size_done :
    (xs : List ℕ) (n : ℕ)
    → header_size ≤ length xs
    → read_u32 xs ≡ magic
    → get_or xs 5 0 ≡ header_size
    → read_u32 (drop 20 xs) ≡ n
    → header_size + n ≤ length xs
    → frame_size xs ≡ done (header_size + n)
unfolding frame_size
frame_size_done xs n long magic_same header_same size enough = ground arith

abbrev incomplete_payload : Result ℕ
incomplete_payload = fail (unavailable "data-link frame payload is incomplete")

frame_size_partial :
    (xs : List ℕ) (n : ℕ)
    → header_size ≤ length xs
    → read_u32 xs ≡ magic
    → get_or xs 5 0 ≡ header_size
    → read_u32 (drop 20 xs) ≡ n
    → length xs < header_size + n
    → frame_size xs ≡ incomplete_payload
unfolding frame_size
frame_size_partial xs n long magic_same header_same size short = ground arith

frame_size_short :
    (xs : List ℕ)
    → length xs < header_size
    → frame_size xs ≡ fail (unavailable "data-link frame header is incomplete")
unfolding frame_size
frame_size_short xs short = ground arith

-- A frame is its header and its payload.
pub length-encode : (f : DataLinkFrame) → length (encode f) ≡ header_size + length f.payload
unfolding encode
length-encode f = omega arith

module _ (f : DataLinkFrame) (fits : length f.payload < 2 ^ 32) where
  header_crc : ℕ
  header_crc = crc32 (laid_out f (length f.payload) (crc32 f.payload) 0 [])

  -- The header of `f` before any payload bytes.
  front : List ℕ → List ℕ
  front = laid_out f (length f.payload) (crc32 f.payload) header_crc

  encode-front : encode f ≡ front f.payload
  unfolding encode front header_crc
  encode-front = let e : u32 (length f.payload) ≡ length f.payload = omega arith in rw e refl

  front-append : (xs ys : List ℕ) → front xs ++ ys ≡ front (xs ++ ys)
  unfolding front
  front-append xs ys = refl

  -- A buffer that starts with a whole frame: its size is found at the front.
  pub frame_size-encode :
      (rest : List ℕ) → frame_size (encode f ++ rest) ≡ done (header_size + length f.payload)
  unfolding front
  frame_size-encode rest =
      rw (encode-front, front-append f.payload rest)
        (frame_size_done (front (f.payload ++ rest)) (length f.payload) (omega arith)
          (read_u32-bytes magic _ (omega arith)) refl (read_u32-bytes (length f.payload) _ fits)
          (omega (arith, length-append {0} f.payload rest)))

  front_partial :
      (n : ℕ) → n < length f.payload → frame_size (front (take n f.payload)) ≡ incomplete_payload
  unfolding front
  front_partial n short =
      frame_size_partial (front (take n f.payload)) (length f.payload) (omega arith)
        (read_u32-bytes magic _ (omega arith)) refl (read_u32-bytes (length f.payload) _ fits)
        (omega (arith, length-take {0} n f.payload))

  take-front : (n : ℕ) → take (36 + n) (front f.payload) ≡ front (take n f.payload)
  unfolding front
  take-front n = take-append_add (front []) f.payload n

  -- `frameSize` of a frame that is cut short anywhere, its payload being shorter than 4 GiB, is
  -- UNAVAILABLE: the caller is to wait for more bytes.
  pub frame_size-take :
      (n : ℕ)
      → n < length (encode f)
      → (message : String) × (frame_size (take n (encode f)) ≡ fail (unavailable message))
  frame_size-take n short = elim (dec_lt n 36) [
    | yes few ↦ (
      "data-link frame header is incomplete",
      frame_size_short (take n (encode f)) (omega (arith, length-take {0} n (encode f))),
    )
    | no many ↦ (
      "data-link frame payload is incomplete",
      rw (encode-front) (
          let e : n ≡ 36 + (n - 36) = omega arith in
          rw (e, take-front (n - 36)) (front_partial (n - 36) (omega (arith, length-encode f)))),
    )
  ]
