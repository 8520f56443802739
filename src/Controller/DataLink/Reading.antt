-- ===== src/Controller/DataLink/Reading.antt =====
-- `ac_datalink_read_frame` on a frame that the server wrote.
use audio_studio.Prelude.{
  ℕ, zero, suc, ◌+◌, ◌-◌, ◌≤◌, ◌≡◌, refl, sym, ap, ◌∙◌, true, false, ◌&&◌, some, List, [], ◌∷◌,
  ◌++◌, length, take, drop, length-append, length-take, take-append_length, drop-append_length, ltb,
  leb, arith,
}
use audio_studio.Framework.Status.{done}
use audio_studio.Wire.Bytes.{are_bytes}
use audio_studio.Transport.DataLinkFrame
use audio_studio.Transport.DataLinkFrame.{DataLinkFrame as Frame, encode, decode, magic}
use audio_studio.Transport.DataLinkFrame.RoundTrip.{IsWellSized, decode-encode_link}
use audio_studio.Transport.DataLinkFrame.Buffered.{length-encode}
use audio_studio.Transport.DataLink.ReadFrame.{frame_size-whole}
use audio_studio.Controller.LinkFrame.{
  FrameView, header_size, max_frame_size, is_magic, frame_size, decode_frame, effective_mtu,
}
use audio_studio.Controller.LinkFrame.Equivalence.{
  is_magic-read_u32, decode_frame-decode, view, view_of,
}
use audio_studio.Controller.Call.{ok}
use audio_studio.Controller.DataLink.{
  DeviceOps, DataLink, resync, shift, take_frame, round, rounds, read_frame, rx_stream_capacity,
}

are_bytes_prefix : (xs ys : List ℕ) → are_bytes (xs ++ ys) ≡ true → are_bytes xs ≡ true
unfolding are_bytes
are_bytes_prefix [] ys h = refl
are_bytes_prefix (x ∷ xs) ys h = ground (arith, are_bytes_prefix xs ys)

-- Where the server finds a frame of `n` bytes at the front, so does the controller.
frame_size-done :
    (xs : List ℕ) (n size : ℕ)
    → are_bytes xs ≡ true
    → header_size ≤ size
    → DataLinkFrame.frame_size xs ≡ done n
    → (is_magic xs ≡ true) × (frame_size xs size ≡ n)
unfolding frame_size DataLinkFrame.frame_size
frame_size-done xs n size h long e = ground (arith, is_magic-read_u32 xs h)

decode_frame-encode :
    (f : Frame)
    → IsWellSized f
    → are_bytes (encode f) ≡ true
    → decode_frame (encode f) ≡ some (view_of f)
unfolding view
decode_frame-encode f sized h =
    decode_frame-decode (encode f) h ∙ ap view (decode-encode_link f sized)

rounds-some :
    (D : DeviceOps) (fuel capacity ms : ℕ) (s t : DataLink D) (found : FrameView)
    → round D capacity ms s ≡ (ok (some found), t)
    → rounds D (suc fuel) capacity ms s ≡ (ok found, t)
unfolding rounds
rounds-some D fuel capacity ms s t found e = ground (arith, e)

module _ (D : DeviceOps) (f : Frame) (rest : List ℕ) (s : DataLink D) where
  pub record Buffered : Type 0 where
    pub stream : s.rx_stream ≡ encode f ++ rest
    pub bytes : are_bytes s.rx_stream ≡ true
    pub sized : IsWellSized f
    pub arrived : length (encode f) ≤ s.rx_stream_size
    pub fits : length (encode f) ≤ max_frame_size
    pub inside : s.rx_stream_size ≤ length s.rx_stream

  module _ (b : Buffered) where
    abbrev n : ℕ
    n = length (encode f)

    at_front : (is_magic s.rx_stream ≡ true) × (frame_size s.rx_stream s.rx_stream_size ≡ n)
    at_front =
        let whole : DataLinkFrame.frame_size s.rx_stream ≡ done n =
          rw b.stream (frame_size-whole f rest b.sized) in
        frame_size-done s.rx_stream n s.rx_stream_size b.bytes
          (omega (arith, length-encode f, b.arrived)) whole

    resync_front : (size : ℕ) → resync size s.rx_stream ≡ (s.rx_stream, size)
    unfolding resync
    resync_front zero = refl
    resync_front (suc size) = rw (at_front.0) refl

    decoded : decode_frame (take n s.rx_stream) ≡ some (view_of f)
    decoded =
        let bytes : are_bytes (encode f) ≡ true =
          are_bytes_prefix (encode f) rest (rw b.stream at b.bytes) in
        rw (b.stream, take-append_length (encode f) rest) (decode_frame-encode f b.sized bytes)

    -- The stream once the frame is taken off.
    abbrev pub taken : DataLink D
    taken = record s {
      rx_stream = shift n s.rx_stream s.rx_stream_size;
      rx_stream_size = s.rx_stream_size - n;
    }

    take_frame_lem : take_frame D n s ≡ (ok (some (view_of f)), taken)
    unfolding take_frame
    take_frame_lem =
        let short : ltb max_frame_size n ≡ false = ground (arith, b.fits) in
        rw (take_frame, decoded, short) refl

    round_lem : (capacity ms : ℕ) → round D capacity ms s ≡ (ok (some (view_of f)), taken)
    unfolding round
    round_lem capacity ms =
        let some_bytes : (ltb 0 n && leb n s.rx_stream_size) ≡ true =
          ground (arith, length-encode f, b.arrived) in
        let inside : ltb rx_stream_capacity n ≡ false = ground (arith, b.fits) in
        rw (round, resync_front s.rx_stream_size, at_front.1, inside, some_bytes) take_frame_lem

    -- What is left in the stream is what stood behind the frame.
    left_behind : take (s.rx_stream_size - n) taken.rx_stream ≡ take (s.rx_stream_size - n) rest
    unfolding shift
    left_behind =
        let m : ℕ = s.rx_stream_size - n in
        let size : n + length rest ≡ length s.rx_stream =
          rw b.stream (sym (length-append (encode f) rest)) in
        let e : length (take m rest) ≡ m = omega (arith, length-take {0} m rest, b.inside, size) in
        let behind : List ℕ = drop m s.rx_stream in
        let cut : take (length (take m rest)) (take m rest ++ behind) ≡ take m rest =
          take-append_length (take m rest) behind in
        let front : drop n s.rx_stream ≡ rest = rw b.stream (drop-append_length (encode f) rest) in
        rw front (rw e at cut)

    -- When a frame that the server encoded, of at most 1024 bytes and with fields that fit their
    -- widths, stands at the front of the receive stream, the controller's `read_frame` returns its
    -- fields, asks the device for nothing, and leaves the bytes that stood behind the frame.
    pub read_frame-encode_ac :
        (fuel ms : ℕ)
        → (read_frame D (suc fuel) ms s ≡ (ok (view_of f), taken))
          × (take taken.rx_stream_size taken.rx_stream ≡ take taken.rx_stream_size rest)
    unfolding read_frame
    read_frame-encode_ac fuel ms =
        let step = round_lem (effective_mtu s.mtu) ms in
        (rounds-some D fuel (effective_mtu s.mtu) ms s taken (view_of f) step, left_behind)
