-- ===== src/Transport/DataLink/Send.antt =====
-- datalink_manager.cpp: `sendPacket`.
use audio_studio.Prelude.{
  ℕ, zero, suc, ◌+◌, ◌-◌, ◌*◌, ◌/◌, Bool, true, false, not, ◌&&◌, List, bit_or, length, take, drop,
  ltb, leb, ◌==◌, max, min, if◌then◌else◌,
}
use audio_studio.Framework.Status.{Result, done, fail, stuck, invalid_argument, unavailable}
use audio_studio.Framework.Action.{pure, lift, gets, update, guard, observe, ◌>>=◌, ◌>>◌}
use audio_studio.Wire.Bytes.{u16, u32}
use audio_studio.Transport.DataLinkFrame.{
  DataLinkFrame, encode, header_size, has_flag, flag_data, flag_ack, flag_end,
}
use audio_studio.Transport.DataLink.{
  DataLinkDevice, DataLinkManagerStats, Run, count_with, write, read_frame,
}

abbrev pub count_sent : DataLinkManagerStats → DataLinkManagerStats
count_sent st = record st { fragments_sent = st.fragments_sent + 1 }

abbrev pub count_retry : DataLinkManagerStats → DataLinkManagerStats
count_retry st = record st { retries = st.retries + 1 }

unfoldable pub acknowledges : DataLinkFrame → DataLinkFrame → Bool
acknowledges frame ack =
    ack.link_sequence == frame.link_sequence
    && ack.fragment_index == frame.fragment_index
    && has_flag ack.flags flag_ack

-- Whether the read brought the acknowledgement, and the status to return when it did not.
unfoldable pub matches : DataLinkFrame → Result DataLinkFrame → Bool
unfolding acknowledges
matches frame (done ack) = acknowledges frame ack
matches frame (fail status) = false
matches frame stuck = false

unfoldable pub refusal : Result DataLinkFrame → Result (Unit {0})
refusal (done ack) = fail (unavailable "data-link fragment was not acknowledged")
refusal (fail status) = fail status
refusal stuck = stuck

-- Fragment `index` of a packet; its offset is at most the packet's size.
unfoldable pub fragment : List ℕ → ℕ → ℕ → ℕ → ℕ → DataLinkFrame
fragment payload capacity count sequence index =
    let offset = index * capacity in
    record {
      version = 1;
      flags = if index + 1 == count then bit_or flag_data flag_end else flag_data;
      link_sequence = sequence;
      transport_size = u32 (length payload);
      fragment_offset = u32 offset;
      fragment_index = u16 index;
      fragment_count = u16 count;
      payload = take (min capacity (length payload - offset)) (drop offset payload);
    }

abbrev pub fragment_count : ℕ → ℕ → ℕ
fragment_count size capacity = max 1 ((size + capacity - 1) / capacity)

module _ (D : DataLinkDevice) where
  unfoldable pub attempt : ℕ → DataLinkFrame → ℕ → Run D (Result DataLinkFrame)
  unfolding write
  attempt fuel frame timeout_ms = do
    write D (encode frame) timeout_ms
    count_with D count_sent
    wait ← gets λ s. s.config.ack_timeout_ms
    observe (read_frame D fuel wait)

  -- The source counts attempts from 0 to `max_retries`; here `left` counts the retries down.
  unfoldable pub deliver : ℕ → ℕ → DataLinkFrame → ℕ → Run D (Unit {0})
  unfolding attempt matches refusal
  deliver fuel zero frame timeout_ms = do
    read ← attempt fuel frame timeout_ms
    if matches frame read then pure tt else lift (refusal read)
  deliver fuel (suc left) frame timeout_ms = do
    read ← attempt fuel frame timeout_ms
    elim (matches frame read) [
      | true ↦ pure tt
      | false ↦ (do count_with D count_retry; deliver fuel left frame timeout_ms)
    ]

  unfoldable pub send_fragments : ℕ → List ℕ → ℕ → ℕ → ℕ → ℕ → ℕ → ℕ → Run D (Unit {0})
  send_fragments fuel payload capacity count sequence timeout_ms zero index = pure tt
  send_fragments fuel payload capacity count sequence timeout_ms (suc left) index = do
    retries ← gets λ s. s.config.max_retries
    deliver fuel retries (fragment payload capacity count sequence index) timeout_ms
    send_fragments fuel payload capacity count sequence timeout_ms left (index + 1)

  unfoldable pub send_packet : ℕ → List ℕ → ℕ → Run D (Unit {0})
  send_packet fuel payload timeout_ms = do
    connected ← gets λ s. D.is_connected s.device
    guard connected (unavailable "data-link device is not connected")
    mtu ← gets λ s. D.max_payload_size s.device
    guard (not (leb mtu header_size)) (invalid_argument "data-link MTU is too small")
    let capacity = mtu - header_size
    let count = fragment_count (length payload) capacity
    guard (not (ltb 0xffff count)) (invalid_argument "data-link packet has too many fragments")
    sequence ← gets λ s. s.next_link_sequence
    update λ s. record s { next_link_sequence = u32 (s.next_link_sequence + 1) }
    send_fragments fuel payload capacity count sequence timeout_ms count 0
    count_with D λ st. record st { packets_sent = st.packets_sent + 1 }
