-- ===== src/Transport/DataLink/Reassembly.antt =====
-- `receivePacket` over the fragments that `sendPacket` makes gives the packet back.
use audio_studio.Prelude.{
  ℕ, zero, suc, ◌+◌, ◌-◌, ◌*◌, ◌≤◌, ◌<◌, ◌^◌, ◌≡◌, refl, sym, ap, ◌∙◌, true, List, [], ◌∷◌, ◌++◌,
  length, take, drop, replicate, min, append_assoc, length-take, length-drop, arith, Bool-cases,
  inl, inr, ltb,
}
use audio_studio.Framework.Status.{done, is_ok}
use audio_studio.Transport.DataLinkFrame.{DataLinkFrame, encode, make_ack, has_flag, flag_data}
use audio_studio.Transport.DataLinkFrame.RoundTrip.{IsWellSized}
use audio_studio.Transport.DataLink.{DataLinkDevice, DataLinkManager}
use audio_studio.Transport.DataLink.ReadFrame.{read_frame-encode, started}
use audio_studio.Transport.DataLink.Send.{fragment, fragment_count}
use audio_studio.Transport.DataLink.Receive.{
  splice, copy_fragment, continues, receive_rest, receive_packet, count_received,
}
use audio_studio.Transport.DataLink.Fragments.{
  filled, filled-zero, filled_all, length-filled, splice-filled, offset-le, size-le,
}

-- The frames of a packet, from `index` on, and the bytes that carry them.
module _ (payload : List ℕ) (capacity count sequence : ℕ) where
  unfoldable pub fragments : ℕ → ℕ → List DataLinkFrame
  fragments zero index = []
  fragments (suc left) index =
      fragment payload capacity count sequence index ∷ fragments left (index + 1)

  -- The bytes of fragment `index`.
  abbrev chunk : ℕ → List ℕ
  chunk index =
      take (min capacity (length payload - index * capacity)) (drop (index * capacity) payload)

  fragment-IsWellSized :
      (index : ℕ)
      → length payload < 2 ^ 32
      → sequence < 2 ^ 32
      → IsWellSized (fragment payload capacity count sequence index)
  unfolding fragment
  fragment-IsWellSized index small fresh =
      let bytes : length (chunk index) ≤ length payload = omega (
        arith,
        length-take {0} (min capacity (length payload - index * capacity))
            (drop (index * capacity) payload),
      ) in
      record {
        version_fits = omega arith;
        flags_fit = ground arith;
        sequence_fits = fresh;
        size_fits = omega arith;
        offset_fits = omega arith;
        index_fits = omega arith;
        count_fits = omega arith;
        payload_fits = omega arith;
      }

  fragment-has_data :
      (index : ℕ) → has_flag (fragment payload capacity count sequence index).flags flag_data ≡ true
  unfolding fragment
  fragment-has_data index = ground arith

unfoldable pub wire : List DataLinkFrame → List ℕ
wire [] = []
wire (f ∷ fs) = encode f ++ wire fs

-- A device that takes every block that it is given.
abbrev pub Accepts : DataLinkDevice → Type 0
Accepts D = (d : D.State) (block : List ℕ) (ms : ℕ) → is_ok (D.write_block d block ms).0 ≡ true

module _ (D : DataLinkDevice) (accepts : Accepts D) (timeout_ms : ℕ) where
  -- The state once a fragment has been counted and acknowledged.
  abbrev acked : DataLinkFrame → DataLinkManager D → DataLinkManager D
  acked f s = record s {
    device = (D.write_block s.device (encode (make_ack f)) timeout_ms).1;
    stats = count_received s.stats;
  }

  copy_fragment_lem :
      (size : ℕ) (f : DataLinkFrame) (packet : List ℕ) (s : DataLinkManager D)
      → f.transport_size ≡ size
      → f.fragment_offset + length f.payload ≤ length packet
      → copy_fragment D timeout_ms size f packet s
        ≡ (done (splice packet f.fragment_offset f.payload), acked f s)
  unfolding copy_fragment
  copy_fragment_lem size f packet s same fits =
      ground (arith, accepts s.device (encode (make_ack f)) timeout_ms)

  -- What reading `n` fragments does to the rest of the manager.
  pub record Received (n : ℕ) (rest : List ℕ) (s t : DataLinkManager D) : Type 0 where
    pub buffer : t.rx_buffer ≡ rest
    pub counted : t.stats ≡ record s.stats { fragments_received = s.stats.fragments_received + n }
    pub config : t.config ≡ s.config
    pub next : t.next_link_sequence ≡ s.next_link_sequence

  module _ (payload : List ℕ) (capacity sequence : ℕ) (pos : 0 < capacity)
      (small : length payload < 2 ^ 32) (fresh : sequence < 2 ^ 32) where
    abbrev total : ℕ
    total = fragment_count (length payload) capacity

    abbrev frame : ℕ → DataLinkFrame
    frame = fragment payload capacity total sequence

    abbrev arrived : ℕ → List ℕ
    arrived index = filled payload (index * capacity)

    -- The chunk of a fragment takes the packet to where the next one starts.
    splice-chunk :
        (index : ℕ)
        → index < total
        → splice (arrived index) (index * capacity) (chunk payload capacity total sequence index)
          ≡ arrived (index + 1)
    splice-chunk index h =
        let inside = offset-le (length payload) capacity index pos h in
        let n : ℕ = min capacity (length payload - index * capacity) in
        let next = splice-filled payload (index * capacity) n (omega arith) in
        elim (Bool-cases (ltb (length payload) ((index + 1) * capacity))) [
          | inl past ↦
              next
              ∙ (filled_all payload (index * capacity + n) (ground arith)
                  ∙ sym (filled_all payload ((index + 1) * capacity) (ground arith)))
          | inr within ↦ next ∙ ap (filled payload) (ground arith)
        ]

    copy_fragment-frame :
        (index : ℕ) (s : DataLinkManager D)
        → index < total
        → copy_fragment D timeout_ms (length payload) (frame index) (arrived index) s
          ≡ (done (arrived (index + 1)), acked (frame index) s)
    unfolding fragment
    copy_fragment-frame index s h =
        let inside = offset-le (length payload) capacity index pos h in
        let n : ℕ = min capacity (length payload - index * capacity) in
        let tail : List ℕ = drop (index * capacity) payload in
        let fits : index * capacity + length (take n tail) ≤ length (arrived index) = omega (
          arith,
          length-filled payload (index * capacity),
          length-take {0} n tail,
          length-drop {0} (index * capacity) payload,
        ) in
        let here : (frame index).fragment_offset ≡ index * capacity = omega arith in
        let size : (frame index).transport_size ≡ length payload = omega arith in
        copy_fragment_lem (length payload) (frame index) (arrived index) s size (rw here fits)
        ∙ ap (λ p. (done p, acked (frame index) s))
            (ap (λ o. splice (arrived index) o (take n tail)) here ∙ splice-chunk index h)

    continues-frame :
        (index : ℕ)
        → total ≤ 0xffff
        → index < total
        → continues (frame 0) index (frame index) ≡ true
    unfolding continues fragment
    continues-frame index few h = ground arith

    receive_rest-wire :
        (fuel left index : ℕ) (rest : List ℕ) (s : DataLinkManager D)
        → total ≤ 0xffff
        → index + left ≤ total
        → s.rx_buffer ≡ wire (fragments payload capacity total sequence left index) ++ rest
        → let (r, t) =
            receive_rest D (suc fuel) timeout_ms (frame 0) left index (arrived index) s in
          (r ≡ done (arrived (index + left))) × Received left rest s t
    unfolding receive_rest wire fragments fragment
    receive_rest-wire fuel zero index rest s few h e =
        let still = λ (n : ℕ). record s.stats { fragments_received = n } in
        (
          ap (λ n. done (arrived n)) (omega arith),
          record { buffer = e; counted = ap still (omega arith); config = refl; next = refl },
        )
    receive_rest-wire fuel (suc left) index rest s few h e =
        let more : List ℕ =
          wire (fragments payload capacity total sequence left (index + 1)) ++ rest in
        let got =
          read_frame-encode D (frame index) more fuel timeout_ms s
            (fragment-IsWellSized payload capacity total sequence index small fresh)
            (e ∙ append_assoc (encode (frame index)) _ rest) in
        let s1 : DataLinkManager D = record (started D s) { rx_buffer = more } in
        let same = continues-frame index few (omega arith) in
        let copied = copy_fragment-frame index s1 (omega arith) in
        let size : (frame 0).transport_size ≡ length payload = omega arith in
        let (r, t) =
          receive_rest-wire fuel left (index + 1) rest (acked (frame index) s1) few (omega arith)
            refl in
        ground (arith)

    -- The first fragment stands in front of the others.
    wire-total :
        wire (fragments payload capacity total sequence total 0)
        ≡ encode (frame 0) ++ wire (fragments payload capacity total sequence (total - 1) 1)
    unfolding wire fragments
    wire-total =
        let e : total ≡ suc (total - 1) = omega arith in
        ap (λ n. wire (fragments payload capacity total sequence n 0)) e

    -- On a device that takes what is written to it: when the buffer starts with the fragments of
    -- a packet of less than 4 GiB, of any positive capacity, at most 65535 of them and with a
    -- 32-bit sequence number, `receivePacket` returns the packet, leaves what follows in the
    -- buffer, and counts one packet and its fragments, whatever the timeout.
    pub receive_packet-wire :
        (fuel : ℕ) (rest : List ℕ) (s : DataLinkManager D)
        → total ≤ 0xffff
        → s.rx_buffer ≡ wire (fragments payload capacity total sequence total 0) ++ rest
        → let (r, t) = receive_packet D (suc fuel) timeout_ms s in
          (r ≡ done payload)
          × (t.rx_buffer ≡ rest)
          × (t.stats ≡ record s.stats {
            packets_received = s.stats.packets_received + 1;
            fragments_received = s.stats.fragments_received + total;
          })
    unfolding receive_packet fragment
    receive_packet-wire fuel rest s few e =
        let more : List ℕ =
          wire (fragments payload capacity total sequence (total - 1) 1) ++ rest in
        let got =
          read_frame-encode D (frame 0) more fuel timeout_ms s
            (fragment-IsWellSized payload capacity total sequence 0 small fresh)
            (e ∙ (ap (λ w. w ++ rest) wire-total ∙ append_assoc (encode (frame 0)) _ rest)) in
        let s1 : DataLinkManager D = record (started D s) { rx_buffer = more } in
        let copied = copy_fragment-frame 0 s1 (omega arith) in
        let size : (frame 0).transport_size ≡ length payload = omega arith in
        let count : (frame 0).fragment_count ≡ total = omega arith in
        let start : arrived 0 ≡ replicate (length payload) 0 =
          ap (filled payload) (omega arith) ∙ filled-zero payload in
        let whole : arrived total ≡ payload =
          filled_all payload (total * capacity) (size-le (length payload) capacity pos) in
        let (r, t) =
          receive_rest-wire fuel (total - 1) 1 rest (acked (frame 0) s1) few (omega arith) refl in
        let last : arrived (1 + (total - 1)) ≡ payload = ap arrived (omega arith) ∙ whole in
        let n : 1 + (total - 1) ≡ total = omega arith in ground (arith)
