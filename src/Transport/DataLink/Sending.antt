-- ===== src/Transport/DataLink/Sending.antt =====
-- `sendPacket`: what its counters say, and that its loops end.
use audio_studio.Prelude.{
  ℕ, zero, suc, ◌+◌, ◌-◌, ◌*◌, ◌≤◌, ◌<◌, ◌^◌, ◌≡◌, ◌≢◌, refl, List, length, arith,
}
use audio_studio.Framework.Status.{Result, done, fail, stuck}
use audio_studio.Wire.Bytes.{u32}
use audio_studio.Transport.DataLinkFrame.{DataLinkFrame, encode, header_size}
use audio_studio.Transport.DataLink.{DataLinkDevice, DataLinkManager, write, ns_per_ms}
use audio_studio.Transport.DataLink.Termination.{IsTimely, read_frame-ne-stuck}
use audio_studio.Transport.DataLink.ReadFrame.{read_frame-Keeps}
use audio_studio.Transport.DataLink.Send.{
  attempt, deliver, send_fragments, send_packet, refusal, fragment, fragment_count, count_sent,
  count_retry,
}

module _ (D : DataLinkDevice) where
  -- What sending leaves as it is.
  pub record Steady (s t : DataLinkManager D) : Type 0 where
    pub received : t.stats.fragments_received ≡ s.stats.fragments_received
    pub packets : t.stats.packets_sent ≡ s.stats.packets_sent
    pub packets_in : t.stats.packets_received ≡ s.stats.packets_received
    pub config : t.config ≡ s.config
    pub next : t.next_link_sequence ≡ s.next_link_sequence

  -- A written block leaves everything but the device, and a refused one is no result.
  abbrev pub counted : DataLinkFrame → ℕ → DataLinkManager D → DataLinkManager D
  counted frame timeout_ms s = record s {
    device = (D.write_block s.device (encode frame) timeout_ms).1;
    stats = count_sent s.stats;
  }

  -- How many writes an attempt counts.
  abbrev cost {ℓ} : {A : Type ℓ} → Result A → ℕ
  cost (done a) = 1
  cost (fail e) = 0
  cost stuck = 1

  pub attempt_lem :
      (fuel : ℕ) (frame : DataLinkFrame) (timeout_ms : ℕ) (s : DataLinkManager D)
      → let (r, t) = attempt D fuel frame timeout_ms s in
        Steady s t
        × (t.stats.retries ≡ s.stats.retries)
        × (t.stats.fragments_sent ≡ s.stats.fragments_sent + cost r)
  unfolding attempt write
  attempt_lem fuel frame timeout_ms s =
      ground (arith, read_frame-Keeps D fuel s.config.ack_timeout_ms (counted frame timeout_ms s))

  -- The counters after at most `count` fragments with at most `spare` retries.
  abbrev pub Accounts : ℕ → ℕ → DataLinkManager D → Result (Unit {0}) → DataLinkManager D → Type 0
  Accounts count spare s r t =
      (s.stats.retries ≤ t.stats.retries)
      × (t.stats.retries ≤ s.stats.retries + spare)
      × (t.stats.fragments_sent + s.stats.retries
          ≤ s.stats.fragments_sent + t.stats.retries + count)
      × (r ≡ done tt
          → t.stats.fragments_sent + s.stats.retries
            ≡ s.stats.fragments_sent + t.stats.retries + count)

  pub deliver_lem :
      (fuel left : ℕ) (frame : DataLinkFrame) (timeout_ms : ℕ) (s : DataLinkManager D)
      → let (r, t) = deliver D fuel left frame timeout_ms s in Steady s t × Accounts 1 left s r t
  unfolding deliver
  deliver_lem fuel zero frame timeout_ms s = ground (arith, attempt_lem fuel frame timeout_ms s)
  deliver_lem fuel (suc left) frame timeout_ms s =
      let s1 = (attempt D fuel frame timeout_ms s).1 in
      ground (
        arith,
        attempt_lem fuel frame timeout_ms s,
        deliver_lem fuel left frame timeout_ms (record s1 { stats = count_retry s1.stats }),
      )

  pub send_fragments_lem :
      (fuel : ℕ) (payload : List ℕ) (capacity count sequence timeout_ms left index retries : ℕ)
      (s : DataLinkManager D)
      → s.config.max_retries ≡ retries
      → let (r, t) =
          send_fragments D fuel payload capacity count sequence timeout_ms left index s in
        Steady s t × Accounts left (left * retries) s r t
  unfolding send_fragments
  send_fragments_lem fuel payload capacity count sequence timeout_ms zero index retries s e =
      ground arith
  send_fragments_lem fuel payload capacity count sequence timeout_ms (suc left) index retries s e =
      let frame : DataLinkFrame = fragment payload capacity count sequence index in
      let spare : suc left * retries ≡ retries + left * retries = omega arith in
      ground (
        arith,
        deliver_lem fuel s.config.max_retries frame timeout_ms s,
        send_fragments_lem fuel payload capacity count sequence timeout_ms left (index + 1) retries
            (deliver D fuel s.config.max_retries frame timeout_ms s).1,
      )

  abbrev pub capacity_of : DataLinkManager D → ℕ
  capacity_of s = D.max_payload_size s.device - header_size

  -- A packet that was sent took one link sequence number and counts as one packet. It made
  -- `max(1, ceil(size / (MTU - 36)))` fragments, each of which was written once and once more for
  -- each retry, and the retries are at most `max_retries` times as many as the fragments.
  pub send_packet-counts :
      (fuel : ℕ) (payload : List ℕ) (timeout_ms : ℕ) (s : DataLinkManager D)
      → (send_packet D fuel payload timeout_ms s).0 ≡ done tt
      → let t = (send_packet D fuel payload timeout_ms s).1 in
        let count = fragment_count (length payload) (capacity_of s) in
        (t.stats.packets_sent ≡ s.stats.packets_sent + 1)
        × (t.next_link_sequence ≡ u32 (s.next_link_sequence + 1))
        × (t.stats.fragments_sent + s.stats.retries
            ≡ s.stats.fragments_sent + t.stats.retries + count)
        × (t.stats.retries ≤ s.stats.retries + count * s.config.max_retries)
  unfolding send_packet
  send_packet-counts fuel payload timeout_ms s e =
      let capacity : ℕ = capacity_of s in
      let count : ℕ = fragment_count (length payload) capacity in
      let s1 : DataLinkManager D = record s {
        next_link_sequence = u32 (s.next_link_sequence + 1);
      } in
      ground (
        arith,
        send_fragments_lem fuel payload capacity count s.next_link_sequence timeout_ms count 0
            s.config.max_retries s1 refl,
      )

  module _ (timely : IsTimely D) (fuel : ℕ) where
    -- Enough fuel for one acknowledgement to come or to time out.
    abbrev pub Enough : DataLinkManager D → Type 0
    Enough s = 2 ^ 32 + header_size + s.config.ack_timeout_ms * ns_per_ms < fuel

    attempt-ne-stuck :
        (frame : DataLinkFrame) (timeout_ms : ℕ) (s : DataLinkManager D)
        → Enough s
        → let (r, t) = attempt D fuel frame timeout_ms s in (r ≢ stuck) × (r ≢ done stuck)
    unfolding attempt write
    attempt-ne-stuck frame timeout_ms s enough = ground (
      arith,
      read_frame-ne-stuck D timely fuel s.config.ack_timeout_ms (counted frame timeout_ms s),
    )

    deliver-ne-stuck :
        (left : ℕ) (frame : DataLinkFrame) (timeout_ms : ℕ) (s : DataLinkManager D)
        → Enough s
        → (deliver D fuel left frame timeout_ms s).0 ≢ stuck
    unfolding deliver refusal
    deliver-ne-stuck zero frame timeout_ms s enough =
        ground (arith, attempt-ne-stuck frame timeout_ms s)
    deliver-ne-stuck (suc left) frame timeout_ms s enough =
        let s1 = (attempt D fuel frame timeout_ms s).1 in
        ground (
          arith,
          attempt-ne-stuck frame timeout_ms s,
          attempt_lem fuel frame timeout_ms s,
          deliver-ne-stuck left frame timeout_ms (record s1 { stats = count_retry s1.stats }),
        )

    send_fragments-ne-stuck :
        (payload : List ℕ) (capacity count sequence timeout_ms left index : ℕ)
        (s : DataLinkManager D)
        → Enough s
        → (send_fragments D fuel payload capacity count sequence timeout_ms left index s).0 ≢ stuck
    unfolding send_fragments
    send_fragments-ne-stuck payload capacity count sequence timeout_ms zero index s enough =
        ground arith
    send_fragments-ne-stuck payload capacity count sequence timeout_ms (suc left) index s enough =
        let frame : DataLinkFrame = fragment payload capacity count sequence index in
        let retries : ℕ = s.config.max_retries in
        ground (
          arith,
          deliver-ne-stuck retries frame timeout_ms s enough,
          deliver_lem fuel retries frame timeout_ms s,
          send_fragments-ne-stuck payload capacity count sequence timeout_ms left (index + 1)
              (deliver D fuel retries frame timeout_ms s).1,
        )

    -- On a device whose clock never runs back and advances over a sleep, `sendPacket` returns,
    -- whatever the device delivers: it takes no more fuel than one read that lasts for the
    -- acknowledgement timeout, a round for each byte of the longest frame and for each
    -- nanosecond.
    pub send_packet-ne-stuck :
        (payload : List ℕ) (timeout_ms : ℕ) (s : DataLinkManager D)
        → Enough s
        → (send_packet D fuel payload timeout_ms s).0 ≢ stuck
    unfolding send_packet
    send_packet-ne-stuck payload timeout_ms s enough =
        let capacity : ℕ = capacity_of s in
        let count : ℕ = fragment_count (length payload) capacity in
        let s1 : DataLinkManager D = record s {
          next_link_sequence = u32 (s.next_link_sequence + 1);
        } in
        ground (
          arith,
          send_fragments-ne-stuck payload capacity count s.next_link_sequence timeout_ms count 0 s1
              enough,
        )
