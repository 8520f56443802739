-- ===== src/Transport/Manager/Exchange.antt =====
-- `sendSync`: what a response that it returns is, what it counts, and that it returns.
use audio_studio.Prelude.{
  ℕ, ◌+◌, ◌%◌, ◌*◌, ◌<◌, ◌^◌, ◌≡◌, ◌≢◌, true, List, Option, none, some, inl, inr, Option-cases,
  arith,
}
use audio_studio.Framework.Status.{done, stuck, unavailable}
use audio_studio.Framework.Action.{Action, continue-ne-stuck, lift, guard, pure, ◌>>=◌, ◌>>◌}
use audio_studio.OrderedMap.{nat_key, modify}
use audio_studio.OrderedMap.Laws.{find-modify}
use audio_studio.Wire.Bytes.{u32}
use audio_studio.Transport.Frame.{TransportFrame, encode, decode}
use audio_studio.Transport.DataLinkFrame.{header_size}
use audio_studio.Transport.DataLink.{DataLinkDevice, DataLinkManager, ns_per_ms}
use audio_studio.Transport.DataLink.Termination.{IsTimely}
use audio_studio.Transport.DataLink.Sending.{Enough, send_packet-ne-stuck}
use audio_studio.Transport.DataLink.Receiving.{receive_packet-ne-stuck}
use audio_studio.Transport.DataLink.Send.{send_packet}
use audio_studio.Transport.DataLink.Receive.{receive_packet}
use audio_studio.Transport.Channel.{LogicalChannel, count_tx, count_rx}
use audio_studio.Transport.Manager.{
  TransportManager, require_channel, on_link, record_tx, record_rx, next_sequence, request_frame,
  exchange, send_sync, answers, is_answer, get_channel,
}

module _ (D : DataLinkDevice) where
  -- A call on the link leaves the channels and the sequence number alone.
  on_link_keeps {ℓ} :
      {A : Type ℓ} (call : Action (DataLinkManager D) A) (s : TransportManager D)
      → let t = (on_link D call s).1 in
        (t.channels ≡ s.channels) × (t.next_sequence ≡ s.next_sequence)
  unfolding on_link
  on_link_keeps call s = ground arith

  -- What an exchange that returns a response was.
  exchange-done :
      (fuel : ℕ) (request : TransportFrame) (timeout_ms : ℕ) (s : TransportManager D)
      (response : TransportFrame)
      → (exchange D fuel request timeout_ms s).0 ≡ done response
      → let t = (exchange D fuel request timeout_ms s).1 in
        (answers D request response ≡ true)
        × (is_answer D response ≡ true)
        × (t.next_sequence ≡ s.next_sequence)
        × (t.channels
            ≡ modify response.channel_id count_rx (modify request.channel_id count_tx s.channels))
  unfolding exchange record_tx record_rx require_channel
  exchange-done fuel request timeout_ms s response e =
      let (r1, s1) = on_link D (send_packet D fuel (encode request) timeout_ms) s in
      let (r2, s2) = record_tx D request s1 in
      let (r3, s3) = on_link D (receive_packet D fuel timeout_ms) s2 in
      ground (
        arith,
        on_link_keeps (send_packet D fuel (encode request) timeout_ms) s,
        on_link_keeps (receive_packet D fuel timeout_ms) s2,
      )

  -- A response that `sendSync` returns carries the channel of the request and the sequence number
  -- that the request was given, and is marked as a response or an acknowledgement. The next request
  -- has the next sequence number, and the channel has counted one frame sent and one received.
  pub send_sync-done :
      (fuel channel_id command_id : ℕ) (payload : List ℕ) (timeout_ms session_id : ℕ)
      (s : TransportManager D) (response : TransportFrame) (channel : LogicalChannel)
      → (send_sync D fuel channel_id command_id payload timeout_ms session_id s).0 ≡ done response
      → (get_channel D channel_id s).0 ≡ done channel
      → let t = (send_sync D fuel channel_id command_id payload timeout_ms session_id s).1 in
        (response.channel_id ≡ channel_id)
        × (response.sequence_id ≡ s.next_sequence)
        × (is_answer D response ≡ true)
        × (t.next_sequence ≡ u32 (s.next_sequence + 1))
        × ((get_channel D channel_id t).0
            ≡ done (record channel {
              frames_sent = (channel.frames_sent + 1) % 2 ^ 64;
              frames_received = (channel.frames_received + 1) % 2 ^ 64;
            }))
  unfolding send_sync get_channel require_channel next_sequence answers request_frame
  send_sync-done fuel channel_id command_id payload timeout_ms session_id s response channel e
        known =
      let request : TransportFrame =
        request_frame D channel_id command_id s.next_sequence session_id payload in
      let s1 : TransportManager D = record s { next_sequence = u32 (s.next_sequence + 1) } in
      ground (
        arith,
        exchange-done fuel request timeout_ms s1 response,
        find-modify channel_id channel_id count_tx s.channels,
        find-modify channel_id channel_id count_rx (modify channel_id count_tx s.channels),
      )

frame-ne-stuck : (xs : List ℕ) → decode xs ≢ stuck
unfolding decode
frame-ne-stuck xs = ground arith

module _ (D : DataLinkDevice) (timely : IsTimely D) (fuel : ℕ) where
  -- Enough fuel for an acknowledgement on the link, if there is a link.
  abbrev pub EnoughLink : Option (DataLinkManager D) → Type 0
  EnoughLink none = Unit {0}
  EnoughLink (some link) = Enough D timely fuel link

  -- `sendSync` returns on a device whose clock runs, whatever the device delivers: fuel for one read
  -- of the data link that lasts for the acknowledgement timeout of the link, and for one that lasts
  -- for the call's timeout, is enough.
  pub send_sync-ne-stuck :
      (channel_id command_id : ℕ) (payload : List ℕ) (timeout_ms session_id : ℕ)
      (s : TransportManager D)
      → 2 ^ 32 + header_size + timeout_ms * ns_per_ms < fuel
      → EnoughLink s.datalink
      → (send_sync D fuel channel_id command_id payload timeout_ms session_id s).0 ≢ stuck
  unfolding send_sync exchange on_link record_tx record_rx require_channel
  send_sync-ne-stuck channel_id command_id payload timeout_ms session_id s enough link_enough =
      let request : TransportFrame =
        request_frame D channel_id command_id s.next_sequence session_id payload in
      elim (Option-cases s.datalink) [
        | inl absent ↦ ground arith
        | inr (link, known) ↦
            let (sent, link1) = send_packet D fuel (encode request) timeout_ms link in
            let (got, link2) = receive_packet D fuel timeout_ms link1 in
            let finish : List ℕ → Action (TransportManager D) TransportFrame = λ packet. (do
              response ← lift (decode packet)
              guard (answers D request response)
                  (unavailable "transport ACK does not match request")
              guard (is_answer D response) (unavailable "transport response is not an ACK")
              record_rx D response
              pure response) in
            let s1 : TransportManager D = record s {
              channels = modify channel_id count_tx s.channels;
              next_sequence = u32 (s.next_sequence + 1);
              datalink = some link2;
            } in
            let finished =
              continue-ne-stuck got s1 finish
                (receive_packet-ne-stuck D timely fuel timeout_ms enough link1)
                (λ packet. ground (arith, frame-ne-stuck packet)) in
            ground (
              arith,
              send_packet-ne-stuck D timely fuel (encode request) timeout_ms link,
              receive_packet-ne-stuck D timely fuel timeout_ms enough link1,
            )
      ]
