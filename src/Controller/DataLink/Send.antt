-- ===== src/Controller/DataLink/Send.antt =====
-- ac_datalink.c: `ac_datalink_send_packet`.
use audio_studio.Prelude.{
  ℕ, zero, suc, ◌+◌, ◌-◌, ◌*◌, ◌/◌, Bool, true, false, not, ◌&&◌, List, none, some, bit_or, length,
  take, drop, ltb, leb, ◌==◌, if◌then◌else◌,
}
use audio_studio.Audio.Stream.{negsuc}
use audio_studio.Wire.Bytes.{u16, u32}
use audio_studio.Transport.DataLinkFrame.{has_flag}
use audio_studio.Controller.LinkFrame.{
  FrameView, header_size, max_frame_size, max_packet_size, encode_frame, effective_mtu,
}
use audio_studio.Controller.Call.{
  Outcome, ok, returns, overrun, out_of_fuel, pure, gets, lift, update, guard, ◌>>=◌, ◌>>◌,
}
use audio_studio.Controller.DataLink.{DeviceOps, DataLink, Run, read_frame, write}

abbrev pub flag_data : ℕ
flag_data = 1

abbrev pub flag_ack : ℕ
flag_ack = 2

abbrev pub flag_nak : ℕ
flag_nak = 4

abbrev pub flag_end : ℕ
flag_end = 8

abbrev pub max_retries : ℕ
max_retries = 3

-- `fragment_count`, at least one
unfoldable pub fragments_of : ℕ → ℕ → ℕ
fragments_of payload_size capacity =
    let count = (payload_size + capacity - 1) / capacity in if count == 0 then 1 else count

-- The bytes of fragment `index`.
unfoldable pub encode_fragment : List ℕ → ℕ → ℕ → ℕ → ℕ → Outcome (List ℕ)
encode_fragment payload capacity count link_sequence index =
    let offset = index * capacity in
    let left = if ltb offset (length payload) then length payload - offset else 0 in
    let n = if ltb capacity left then capacity else left in
    let flags = if index + 1 == count then u16 (bit_or flag_data flag_end) else flag_data in
    elim (encode_frame max_frame_size flags link_sequence (u32 (length payload)) (u32 offset)
      (u16 index) (u16 count) (take n (drop offset payload))) [
        | none ↦ returns (negsuc 0)
        | some frame ↦ ok frame
      ]

abbrev pub acknowledges : ℕ → ℕ → FrameView → Bool
acknowledges link_sequence index ack =
    ack.link_sequence == link_sequence && ack.fragment_index == index && has_flag ack.flags flag_ack

module _ (D : DeviceOps) where
  abbrev pub count_retry : DataLink D → DataLink D
  count_retry s = record s { retries = u32 (s.retries + 1) }

  -- One attempt: whether the fragment was acknowledged.
  unfoldable pub attempt : ℕ → List ℕ → ℕ → ℕ → ℕ → Run D Bool
  unfolding write
  attempt fuel frame link_sequence index timeout_ms = do
    write D frame timeout_ms
    λ s.
        let (r, t) = read_frame D fuel timeout_ms s in
        elim r [
          | ok ack ↦
              (if acknowledges link_sequence index ack
                then (ok true, t)
                else if has_flag ack.flags flag_nak
                then (ok false, count_retry t)
                else (ok false, t))
          | returns code ↦ (ok false, count_retry t)
          | overrun ↦ (overrun, t)
          | out_of_fuel ↦ (out_of_fuel, t)
        ]

  -- `left` attempts of those that the source counts from 0 to 3.
  unfoldable pub deliver : ℕ → List ℕ → ℕ → ℕ → ℕ → ℕ → Run D (Unit {0})
  deliver fuel frame link_sequence index timeout_ms zero = guard false
  deliver fuel frame link_sequence index timeout_ms (suc left) = do
    delivered ← attempt fuel frame link_sequence index timeout_ms
    elim delivered [
      | true ↦ pure tt
      | false ↦ deliver fuel frame link_sequence index timeout_ms left
    ]

  unfoldable pub send_fragments : ℕ → List ℕ → ℕ → ℕ → ℕ → ℕ → ℕ → ℕ → Run D (Unit {0})
  send_fragments fuel payload capacity count link_sequence timeout_ms zero index = pure tt
  send_fragments fuel payload capacity count link_sequence timeout_ms (suc left) index = do
    frame ← lift (encode_fragment payload capacity count link_sequence index)
    deliver fuel frame link_sequence index timeout_ms (suc max_retries)
    send_fragments fuel payload capacity count link_sequence timeout_ms left (index + 1)

  unfoldable pub send_packet : ℕ → List ℕ → ℕ → Run D (Unit {0})
  unfolding fragments_of
  send_packet fuel payload timeout_ms = do
    opened ← gets λ s. s.is_open
    guard opened
    guard (not (ltb max_packet_size (length payload)))
    mtu ← gets λ s. effective_mtu s.mtu
    guard (not (leb mtu header_size))
    let capacity = mtu - header_size
    let count = fragments_of (length payload) capacity
    guard (not (ltb 0xffff count))
    link_sequence ← gets λ s. s.next_link_sequence
    update λ s. record s { next_link_sequence = u32 (s.next_link_sequence + 1) }
    send_fragments fuel payload capacity count link_sequence timeout_ms count 0
    update λ s. record s { tx_packets = u32 (s.tx_packets + 1) }
