-- ===== src/Transport/DataLink/ReadFrame.antt =====
-- `readFrame`: what a buffered frame gives, what a read leaves alone, and when the loop ends.
use audio_studio.Prelude.{
  ℕ, zero, suc, ◌+◌, ◌*◌, ◌≡◌, List, ◌++◌, length, some, max, take, drop, take-append_length,
  drop-append_length, arith,
}
use audio_studio.Framework.Status.{done}
use audio_studio.Transport.DataLinkFrame.{DataLinkFrame, encode, frame_size, header_size}
use audio_studio.Transport.DataLinkFrame.RoundTrip.{IsWellSized, decode-encode_link}
use audio_studio.Transport.DataLinkFrame.Buffered.{length-encode, frame_size-encode}
use audio_studio.Transport.DataLink.{
  DataLinkDevice, DataLinkManager, fill, round, rounds, read_frame, ns_per_ms,
}

pub frame_size-whole :
    (f : DataLinkFrame) (rest : List ℕ)
    → IsWellSized f
    → frame_size (encode f ++ rest) ≡ done (length (encode f))
frame_size-whole f rest h = rw (length-encode f) (frame_size-encode f h.payload_fits rest)

module _ (D : DataLinkDevice) where
  -- A frame that is all in the buffer is returned at once, and taken off the buffer.
  round-encode :
      (f : DataLinkFrame) (rest : List ℕ) (capacity timeout_ms deadline : ℕ) (s : DataLinkManager D)
      → IsWellSized f
      → s.rx_buffer ≡ encode f ++ rest
      → round D capacity timeout_ms deadline s ≡ (done (some f), record s { rx_buffer = rest })
  unfolding round
  round-encode f rest capacity timeout_ms deadline s h e =
      let whole : frame_size s.rx_buffer ≡ done (length (encode f)) =
        rw e (frame_size-whole f rest h) in
      let front : take (length (encode f)) s.rx_buffer ≡ encode f =
        rw e (take-append_length (encode f) rest) in
      let back : drop (length (encode f)) s.rx_buffer ≡ rest =
        rw e (drop-append_length (encode f) rest) in
      ground (arith, decode-encode_link f h)

  rounds-encode :
      (f : DataLinkFrame) (rest : List ℕ) (fuel capacity timeout_ms deadline : ℕ)
      (s : DataLinkManager D)
      → IsWellSized f
      → s.rx_buffer ≡ encode f ++ rest
      → rounds D (suc fuel) capacity timeout_ms deadline s ≡ (done f, record s { rx_buffer = rest })
  unfolding rounds
  rounds-encode f rest fuel capacity timeout_ms deadline s h e =
      ground (arith, round-encode f rest capacity timeout_ms deadline s h e)

  -- The state once the clock has been read.
  abbrev pub started : DataLinkManager D → DataLinkManager D
  started s = record s { device = (D.now s.device).1 }

  -- When a whole frame, whose fields fit their widths, stands at the front of the receive
  -- buffer, `readFrame` returns it and leaves what follows it in the buffer; of the device it
  -- only reads the clock.
  pub read_frame-encode :
      (f : DataLinkFrame) (rest : List ℕ) (fuel timeout_ms : ℕ) (s : DataLinkManager D)
      → IsWellSized f
      → s.rx_buffer ≡ encode f ++ rest
      → read_frame D (suc fuel) timeout_ms s ≡ (done f, record (started s) { rx_buffer = rest })
  unfolding read_frame
  read_frame-encode f rest fuel timeout_ms s h e =
      rounds-encode f rest fuel _ timeout_ms _ (started s) h e

  -- A round leaves the counters, the configuration and the sequence number alone.
  pub record Keeps (s t : DataLinkManager D) : Type 0 where
    pub stats : t.stats ≡ s.stats
    pub config : t.config ≡ s.config
    pub sequence : t.next_link_sequence ≡ s.next_link_sequence

  fill-Keeps :
      (capacity timeout_ms deadline : ℕ) (s : DataLinkManager D)
      → Keeps s (fill D capacity timeout_ms deadline s).1
  unfolding fill
  fill-Keeps capacity zero deadline s = ground arith
  fill-Keeps capacity (suc timeout_ms) deadline s = ground arith

  round-Keeps :
      (capacity timeout_ms deadline : ℕ) (s : DataLinkManager D)
      → Keeps s (round D capacity timeout_ms deadline s).1
  unfolding round
  round-Keeps capacity timeout_ms deadline s =
      ground (arith, fill-Keeps capacity timeout_ms deadline s)

  rounds-Keeps :
      (fuel capacity timeout_ms deadline : ℕ) (s : DataLinkManager D)
      → Keeps s (rounds D fuel capacity timeout_ms deadline s).1
  unfolding rounds
  rounds-Keeps zero capacity timeout_ms deadline s = ground arith
  rounds-Keeps (suc fuel) capacity timeout_ms deadline s = ground (
    arith,
    round-Keeps capacity timeout_ms deadline s,
    rounds-Keeps fuel capacity timeout_ms deadline (round D capacity timeout_ms deadline s).1,
  )

  -- Reading a frame changes only the device and the receive buffer.
  pub read_frame-Keeps :
      (fuel timeout_ms : ℕ) (s : DataLinkManager D) → Keeps s (read_frame D fuel timeout_ms s).1
  unfolding read_frame
  read_frame-Keeps fuel timeout_ms s =
      let k =
        rounds-Keeps fuel (max (D.max_payload_size s.device) header_size) timeout_ms
          ((D.now s.device).0 + timeout_ms * ns_per_ms) (started s) in
      record { stats = k.stats; config = k.config; sequence = k.sequence }
