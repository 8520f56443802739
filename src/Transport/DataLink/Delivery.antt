-- ===== src/Transport/DataLink/Delivery.antt =====
-- From `sendPacket` to `receivePacket`: what a sender puts on the line is what a receiver takes.
use audio_studio.Prelude.{
  ℕ, zero, suc, ◌+◌, ◌-◌, ◌*◌, ◌/◌, ◌≤◌, ◌<◌, ◌^◌, ◌≡◌, refl, sym, ap, ◌∙◌, Bool, true, false, List,
  [], ◌++◌, length, ◌==◌, max, append_assoc, append-nil, arith, if◌then◌else◌,
}
use audio_studio.Framework.Status.{Result, done, is_ok}
use audio_studio.Wire.Bytes.{u32}
use audio_studio.Transport.DataLinkFrame.{DataLinkFrame, encode, header_size}
use audio_studio.Transport.DataLink.{
  DataLinkDevice, DataLinkManager, fill, round, rounds, write, read_frame, ns_per_ms,
}
use audio_studio.Transport.DataLink.ReadFrame.{started}
use audio_studio.Transport.DataLink.Send.{
  attempt, deliver, send_fragments, send_packet, fragment, fragment_count, count_sent, count_retry,
}
use audio_studio.Transport.DataLink.Receive.{receive_packet}
use audio_studio.Transport.DataLink.Reassembly.{wire, fragments, Accepts, receive_packet-wire}
use audio_studio.Transport.DataLink.Sending.{
  deliver_lem, send_fragments_lem, capacity_of, attempt_lem,
}

-- A device whose line shows the blocks that it took, in order.
pub record Line (D : DataLinkDevice) : Type 0 where
  pub sent : D.State → List ℕ
  pub write_sent :
      (d : D.State) (block : List ℕ) (ms : ℕ)
      → is_ok (D.write_block d block ms).0 ≡ true
      → sent (D.write_block d block ms).1 ≡ sent d ++ block
  pub read_sent : (d : D.State) (capacity ms : ℕ) → sent (D.read_block d capacity ms).2 ≡ sent d
  pub now_sent : (d : D.State) → sent (D.now d).1 ≡ sent d
  pub sleep_sent : (d : D.State) (ms : ℕ) → sent (D.sleep_ms d ms) ≡ sent d

abbrev is_done {ℓ} : {A : Type ℓ} → Result A → Bool
is_done (done a) = true
is_done _ = false

module _ (D : DataLinkDevice) (line : Line D) where
  abbrev pub on_line : DataLinkManager D → List ℕ
  on_line s = line.sent s.device

  fill-on_line :
      (capacity timeout_ms deadline : ℕ) (s : DataLinkManager D)
      → on_line (fill D capacity timeout_ms deadline s).1 ≡ on_line s
  unfolding fill
  fill-on_line capacity zero deadline s = ground (arith, line.read_sent s.device capacity 0)
  fill-on_line capacity (suc timeout_ms) deadline s =
      let (t, d) = D.now s.device in
      let ms : ℕ = u32 ((deadline - t) / ns_per_ms) in
      let wait : ℕ = if ms == 0 then 1 else ms in
      let (status, bytes, d') = D.read_block d capacity wait in
      ground (
        arith,
        line.now_sent s.device,
        line.read_sent d capacity wait,
        line.now_sent d',
        line.sleep_sent (D.now d').1 1,
      )

  round-on_line :
      (capacity timeout_ms deadline : ℕ) (s : DataLinkManager D)
      → on_line (round D capacity timeout_ms deadline s).1 ≡ on_line s
  unfolding round
  round-on_line capacity timeout_ms deadline s =
      ground (arith, fill-on_line capacity timeout_ms deadline s)

  rounds-on_line :
      (fuel capacity timeout_ms deadline : ℕ) (s : DataLinkManager D)
      → on_line (rounds D fuel capacity timeout_ms deadline s).1 ≡ on_line s
  unfolding rounds
  rounds-on_line zero capacity timeout_ms deadline s = ground arith
  rounds-on_line (suc fuel) capacity timeout_ms deadline s = ground (
    arith,
    round-on_line capacity timeout_ms deadline s,
    rounds-on_line fuel capacity timeout_ms deadline (round D capacity timeout_ms deadline s).1,
  )

  read_frame-on_line :
      (fuel timeout_ms : ℕ) (s : DataLinkManager D)
      → on_line (read_frame D fuel timeout_ms s).1 ≡ on_line s
  unfolding read_frame
  read_frame-on_line fuel timeout_ms s =
      rounds-on_line fuel (max (D.max_payload_size s.device) header_size) timeout_ms
        ((D.now s.device).0 + timeout_ms * ns_per_ms) (started D s)
      ∙ line.now_sent s.device

  attempt-on_line :
      (fuel : ℕ) (frame : DataLinkFrame) (timeout_ms : ℕ) (s : DataLinkManager D)
      → is_done (attempt D fuel frame timeout_ms s).0 ≡ true
      → on_line (attempt D fuel frame timeout_ms s).1 ≡ on_line s ++ encode frame
  unfolding attempt write
  attempt-on_line fuel frame timeout_ms s e =
      let s1 : DataLinkManager D = record s {
        device = (D.write_block s.device (encode frame) timeout_ms).1;
        stats = count_sent s.stats;
      } in
      ground (
        arith,
        line.write_sent s.device (encode frame) timeout_ms,
        read_frame-on_line fuel s.config.ack_timeout_ms s1,
      )

  deliver-on_line :
      (fuel left : ℕ) (frame : DataLinkFrame) (timeout_ms : ℕ) (s : DataLinkManager D)
      → let (r, t) = deliver D fuel left frame timeout_ms s in
        r ≡ done tt → t.stats.retries ≡ s.stats.retries → on_line t ≡ on_line s ++ encode frame
  unfolding deliver
  deliver-on_line fuel zero frame timeout_ms s e k =
      ground (arith, attempt-on_line fuel frame timeout_ms s)
  deliver-on_line fuel (suc left) frame timeout_ms s e k =
      let s1 = (attempt D fuel frame timeout_ms s).1 in
      ground (
        arith,
        attempt-on_line fuel frame timeout_ms s,
        attempt_lem D fuel frame timeout_ms s,
        deliver_lem D fuel left frame timeout_ms (record s1 { stats = count_retry s1.stats }),
      )

  send_fragments-on_line :
      (fuel : ℕ) (payload : List ℕ) (capacity count sequence timeout_ms left index : ℕ)
      (s : DataLinkManager D)
      → let (r, t) =
          send_fragments D fuel payload capacity count sequence timeout_ms left index s in
        r ≡ done tt
        → t.stats.retries ≡ s.stats.retries
        → on_line t ≡ on_line s ++ wire (fragments payload capacity count sequence left index)
  unfolding send_fragments wire fragments
  send_fragments-on_line fuel payload capacity count sequence timeout_ms zero index s e k =
      sym (append-nil (on_line s))
  send_fragments-on_line fuel payload capacity count sequence timeout_ms (suc left) index s e k =
      let frame : DataLinkFrame = fragment payload capacity count sequence index in
      let retries : ℕ = s.config.max_retries in
      let s1 : DataLinkManager D = (deliver D fuel retries frame timeout_ms s).1 in
      let more : List ℕ = wire (fragments payload capacity count sequence left (index + 1)) in
      ground (
        arith,
        deliver_lem D fuel retries frame timeout_ms s,
        deliver-on_line fuel retries frame timeout_ms s,
        send_fragments_lem D fuel payload capacity count sequence timeout_ms left (index + 1)
            s1.config.max_retries s1 refl,
        send_fragments-on_line fuel payload capacity count sequence timeout_ms left (index + 1) s1,
        append_assoc (on_line s) (encode frame) more,
      )

  send_packet-on_line :
      (fuel : ℕ) (payload : List ℕ) (timeout_ms : ℕ) (s : DataLinkManager D)
      → let (r, t) = send_packet D fuel payload timeout_ms s in
        let capacity = capacity_of D s in
        let count = fragment_count (length payload) capacity in
        r ≡ done tt
        → t.stats.retries ≡ s.stats.retries
        → on_line t
          ≡ on_line s ++ wire (fragments payload capacity count s.next_link_sequence count 0)
  unfolding send_packet
  send_packet-on_line fuel payload timeout_ms s e k =
      let capacity : ℕ = capacity_of D s in
      let count : ℕ = fragment_count (length payload) capacity in
      let s1 : DataLinkManager D = record s {
        next_link_sequence = u32 (s.next_link_sequence + 1);
      } in
      ground (
        arith,
        send_fragments-on_line fuel payload capacity count s.next_link_sequence timeout_ms count 0
            s1,
      )

  send_packet-sendable :
      (fuel : ℕ) (payload : List ℕ) (timeout_ms : ℕ) (s : DataLinkManager D)
      → (send_packet D fuel payload timeout_ms s).0 ≡ done tt
      → (0 < capacity_of D s) × (fragment_count (length payload) (capacity_of D s) ≤ 0xffff)
  unfolding send_packet
  send_packet-sendable fuel payload timeout_ms s e = ground arith

-- A packet of less than 4 GiB that `sendPacket` delivers without a retry, on a line that was
-- empty, comes out of `receivePacket` as it went in: a receiver whose device takes the
-- acknowledgements, and whose buffer is what stands on the line, returns the packet, uses up the
-- buffer, and counts one packet and its fragments.
pub receive_packet-send_packet :
    (D E : DataLinkDevice) (line : Line D) (accepts : Accepts E) (fuel fuel' : ℕ) (payload : List ℕ)
    (ms ms' : ℕ) (s : DataLinkManager D) (r : DataLinkManager E)
    → length payload < 2 ^ 32
    → s.next_link_sequence < 2 ^ 32
    → line.sent s.device ≡ []
    → (send_packet D fuel payload ms s).0 ≡ done tt
    → (send_packet D fuel payload ms s).1.stats.retries ≡ s.stats.retries
    → r.rx_buffer ≡ line.sent (send_packet D fuel payload ms s).1.device
    → let (got, t) = receive_packet E (suc fuel') ms' r in
      (got ≡ done payload)
      × (t.rx_buffer ≡ [])
      × (t.stats ≡ record r.stats {
        packets_received = r.stats.packets_received + 1;
        fragments_received =
            r.stats.fragments_received + fragment_count (length payload) (capacity_of D s);
      })
receive_packet-send_packet D E line accepts fuel fuel' payload ms ms' s r small fresh empty sent
      first buffer =
    let capacity : ℕ = capacity_of D s in
    let count : ℕ = fragment_count (length payload) capacity in
    let fs : List ℕ = wire (fragments payload capacity count s.next_link_sequence count 0) in
    let sendable = send_packet-sendable D line fuel payload ms s sent in
    receive_packet-wire E accepts ms' payload capacity s.next_link_sequence sendable.0 small fresh
      fuel' [] r sendable.1
      (buffer
        ∙ (send_packet-on_line D line fuel payload ms s sent first
            ∙ (ap (λ l. l ++ fs) empty ∙ sym (append-nil fs))))
