-- ===== src/Transport/DataLink/Termination.antt =====
-- `readFrame` returns: its loop ends on any device whose clock runs.
use audio_studio.Prelude.{
  ℕ, zero, suc, ◌+◌, ◌-◌, ◌*◌, ◌/◌, if◌then◌else◌, ◌≤◌, ◌<◌, ◌^◌, ◌≡◌, ◌≢◌, inl, inr, List, ◌==◌,
  length, Option, none, max, length-append, take, drop, arith,
}
use audio_studio.Framework.StatusCode.{StatusCode}
use audio_studio.Framework.Status.{Status, Result, done, fail, stuck, Result-cases}
use audio_studio.Transport.DataLinkFrame.{DataLinkFrame, decode, frame_size, header_size}
use audio_studio.Wire.Bytes.{u32, read_u32-lt}
use audio_studio.Transport.DataLink.{
  DataLinkDevice, DataLinkManager, fill, round, rounds, read_frame, ns_per_ms,
}
use audio_studio.Transport.DataLink.ReadFrame.{started}

-- Where a frame is incomplete, at most 2 ^ 32 + 36 bytes are buffered.
length-incomplete :
    (xs : List ℕ) (status : Status)
    → frame_size xs ≡ fail status
    → status.code ≡ StatusCode.unavailable
    → length xs < 2 ^ 32 + header_size
unfolding frame_size
length-incomplete xs status e c = ground (arith, read_u32-lt (drop 20 xs))

decode-ne-stuck : (xs : List ℕ) → decode xs ≢ stuck
unfolding decode
decode-ne-stuck xs = ground arith

frame_size-ne-stuck : (xs : List ℕ) → frame_size xs ≢ stuck
unfolding frame_size
frame_size-ne-stuck xs = ground arith

-- What the loop needs of the device's clock: it never runs back, and a sleep lasts.
pub record IsTimely (D : DataLinkDevice) : Type 0 where
  pub now_keeps : (d : D.State) → (D.now d).0 ≤ (D.now (D.now d).1).0
  pub read_keeps :
      (d : D.State) (capacity wait : ℕ) → (D.now d).0 ≤ (D.now (D.read_block d capacity wait).2).0
  pub sleep_lasts : (d : D.State) → (D.now d).0 + ns_per_ms ≤ (D.now (D.sleep_ms d 1)).0

module _ (D : DataLinkDevice) (timely : IsTimely D) where
  -- What is left: bytes that may still come before a frame is whole, and time.
  budget : ℕ → DataLinkManager D → ℕ
  budget deadline s = (2 ^ 32 + header_size - length s.rx_buffer) + (deadline - (D.now s.device).0)

  abbrev GoesOn : Result (Option DataLinkFrame) → Type 0
  GoesOn r = r ≡ done none

  fill-budget :
      (capacity timeout_ms deadline : ℕ) (s : DataLinkManager D)
      → length s.rx_buffer < 2 ^ 32 + header_size
      → GoesOn (fill D capacity timeout_ms deadline s).0
      → budget deadline (fill D capacity timeout_ms deadline s).1 < budget deadline s
  unfolding fill budget
  fill-budget capacity zero deadline s short e = ground (
    arith,
    length-append {0} s.rx_buffer (D.read_block s.device capacity 0).1,
    timely.read_keeps s.device capacity 0,
  )
  fill-budget capacity (suc timeout_ms) deadline s short e =
      let (t, d) = D.now s.device in
      let ms : ℕ = u32 ((deadline - t) / ns_per_ms) in
      let wait : ℕ = if ms == 0 then 1 else ms in
      let (status, bytes, d') = D.read_block d capacity wait in
      let d'' = (D.now d').1 in
      ground (
        arith,
        length-append {0} s.rx_buffer bytes,
        timely.now_keeps s.device,
        timely.read_keeps d capacity wait,
        timely.now_keeps d',
        timely.sleep_lasts d'',
      )

  fill-ne-stuck :
      (capacity timeout_ms deadline : ℕ) (s : DataLinkManager D)
      → (fill D capacity timeout_ms deadline s).0 ≢ stuck
  unfolding fill
  fill-ne-stuck capacity zero deadline s = ground arith
  fill-ne-stuck capacity (suc timeout_ms) deadline s = ground arith

  round-budget :
      (capacity timeout_ms deadline : ℕ) (s : DataLinkManager D)
      → GoesOn (round D capacity timeout_ms deadline s).0
      → budget deadline (round D capacity timeout_ms deadline s).1 < budget deadline s
  unfolding round
  round-budget capacity timeout_ms deadline s e = elim (Result-cases (frame_size s.rx_buffer)) [
    | inl (size, known) ↦ ground arith
    | inr (inl (status, waits)) ↦ ground (
      arith,
      length-incomplete s.rx_buffer status waits,
      fill-budget capacity timeout_ms deadline s,
    )
    | inr (inr lost) ↦ ground arith
  ]

  round-ne-stuck :
      (capacity timeout_ms deadline : ℕ) (s : DataLinkManager D)
      → (round D capacity timeout_ms deadline s).0 ≢ stuck
  unfolding round
  round-ne-stuck capacity timeout_ms deadline s = elim (Result-cases (frame_size s.rx_buffer)) [
    | inl (size, known) ↦ ground (arith, decode-ne-stuck (take size s.rx_buffer))
    | inr (inl (status, waits)) ↦ ground (arith, fill-ne-stuck capacity timeout_ms deadline s)
    | inr (inr lost) ↦ ground (arith, frame_size-ne-stuck s.rx_buffer)
  ]

  rounds-ne-stuck :
      (fuel capacity timeout_ms deadline : ℕ) (s : DataLinkManager D)
      → budget deadline s < fuel
      → (rounds D fuel capacity timeout_ms deadline s).0 ≢ stuck
  unfolding rounds
  rounds-ne-stuck zero capacity timeout_ms deadline s enough = absurd (omega arith)
  rounds-ne-stuck (suc fuel) capacity timeout_ms deadline s enough = ground (
    arith,
    round-budget capacity timeout_ms deadline s,
    round-ne-stuck capacity timeout_ms deadline s,
    rounds-ne-stuck fuel capacity timeout_ms deadline (round D capacity timeout_ms deadline s).1,
  )

  -- On a device whose clock never runs back and advances over a sleep, `readFrame` returns,
  -- whatever the device delivers: it goes round at most once for each byte of the longest frame
  -- and once for each nanosecond of its timeout.
  pub read_frame-ne-stuck :
      (fuel timeout_ms : ℕ) (s : DataLinkManager D)
      → 2 ^ 32 + header_size + timeout_ms * ns_per_ms < fuel
      → (read_frame D fuel timeout_ms s).0 ≢ stuck
  unfolding read_frame budget
  read_frame-ne-stuck fuel timeout_ms s enough =
      rounds-ne-stuck fuel (max (D.max_payload_size s.device) header_size) timeout_ms
        ((D.now s.device).0 + timeout_ms * ns_per_ms) (started D s)
        (omega (arith, timely.now_keeps s.device))
