-- ===== src/Controller/DataLink/Sending.antt =====
-- What a packet that was sent has put on the line: the fragments that the server expects.
use audio_studio.Prelude.{
  ℕ, zero, suc, ◌+◌, ◌-◌, ◌*◌, ◌≤◌, ◌<◌, ◌≡◌, refl, sym, ap, ◌∙◌, Bool, true, false, List, [], ◌∷◌,
  ◌++◌, append_assoc, append-nil, length, min, take, drop, ltb, ◌==◌, if◌then◌else◌, length-take,
  arith, bit_or,
}
use audio_studio.Wire.Bytes.{u32, u16}
use audio_studio.Transport.DataLinkFrame.{DataLinkFrame, encode}
use audio_studio.Transport.DataLink.Send.{fragment, fragment_count}
use audio_studio.Transport.DataLink.Reassembly.{fragments}
use audio_studio.Controller.LinkFrame.{header_size, max_frame_size, effective_mtu, frame_size}
use audio_studio.Controller.LinkFrame.Equivalence.{encode_frame-encode}
use audio_studio.Controller.Call.{Outcome, ok, returns, overrun, out_of_fuel, continue, pure}
use audio_studio.Controller.DataLink.{
  DeviceOps, DataLink, resync, is_zero, fill, take_frame, round, rounds, read_frame,
}
use audio_studio.Controller.DataLink.Send.{
  fragments_of, encode_fragment, attempt, deliver, send_fragments, send_packet,
}

-- The controller cuts a packet as the server does.
fragments_of_lem : (size capacity : ℕ) → fragments_of size capacity ≡ fragment_count size capacity
unfolding fragments_of
fragments_of_lem size capacity = ground arith

-- Where a header and the capacity fit a frame, the bytes of a fragment are those of the server's.
encode_fragment_lem :
    (payload : List ℕ) (capacity count sequence index : ℕ)
    → header_size + capacity ≤ max_frame_size
    → encode_fragment payload capacity count sequence index
      ≡ ok (encode (fragment payload capacity count sequence index))
unfolding encode_fragment fragment
encode_fragment_lem payload capacity count sequence index fits =
    let left : ℕ = length payload - index * capacity in
    let chunk : List ℕ = take (min capacity left) (drop (index * capacity) payload) in
    let short : length chunk ≤ capacity =
      omega (arith, length-take {0} (min capacity left) (drop (index * capacity) payload)) in
    let e1 : (if ltb (index * capacity) (length payload)
          then length payload - index * capacity
          else 0)
        ≡ left =
      ground arith in
    let e2 : (if ltb capacity left then capacity else left) ≡ min capacity left = ground arith in
    let flags : ℕ = if index + 1 == count then bit_or 1 8 else 1 in
    rw
      (
        encode_fragment,
        e1,
        e2,
        encode_frame-encode max_frame_size flags sequence (u32 (length payload))
            (u32 (index * capacity)) (u16 index) (u16 count) chunk (omega arith),
      )
      refl

-- A device whose line shows the blocks that it took, in order.
pub record Line (D : DeviceOps) : Type 0 where
  pub sent : D.State → List ℕ
  pub write_sent :
      (d : D.State) (block : List ℕ) (ms : ℕ)
      → is_zero (D.write d block ms).0 ≡ true
      → sent (D.write d block ms).1 ≡ sent d ++ block
  pub read_sent : (d : D.State) (capacity ms : ℕ) → sent (D.read d capacity ms).2 ≡ sent d

unfoldable pub repeated : ℕ → List ℕ → List ℕ
repeated zero block = []
repeated (suc n) block = block ++ repeated n block

-- The bytes hold each frame, in order, between one time and four.
pub data Carries : List DataLinkFrame → List ℕ → Type 0 where
  nothing : Carries [] []
  frame_sent :
      (f : DataLinkFrame) (fs : List DataLinkFrame) (bytes : List ℕ) (times : ℕ)
      → 1 ≤ times
      → times ≤ 4
      → Carries fs bytes
      → Carries (f ∷ fs) (repeated times (encode f) ++ bytes)

abbrev pub is_ok {ℓ} : {A : Type ℓ} → Outcome A → Bool
is_ok (ok a) = true
is_ok _ = false

module _ (D : DeviceOps) (line : Line D) where
  abbrev pub on_line : DataLink D → List ℕ
  on_line s = line.sent s.device

  take_frame-on_line : (size : ℕ) (s : DataLink D) → on_line (take_frame D size s).1 ≡ on_line s
  unfolding take_frame
  take_frame-on_line size s = ground arith

  fill-on_line : (capacity ms : ℕ) (s : DataLink D) → on_line (fill D capacity ms s).1 ≡ on_line s
  unfolding fill
  fill-on_line capacity ms s = ground (arith, line.read_sent s.device capacity ms)

  round-on_line : (capacity ms : ℕ) (s : DataLink D) → on_line (round D capacity ms s).1 ≡ on_line s
  unfolding round
  round-on_line capacity ms s =
      let (stream, size) = resync s.rx_stream_size s.rx_stream in
      let s1 : DataLink D = record s { rx_stream = stream; rx_stream_size = size } in
      ground (arith, take_frame-on_line (frame_size stream size) s1, fill-on_line capacity ms s1)

  rounds-on_line :
      (fuel capacity ms : ℕ) (s : DataLink D) → on_line (rounds D fuel capacity ms s).1 ≡ on_line s
  unfolding rounds
  rounds-on_line zero capacity ms s = refl
  rounds-on_line (suc fuel) capacity ms s = ground (
    arith,
    round-on_line capacity ms s,
    rounds-on_line fuel capacity ms (round D capacity ms s).1,
  )

  attempt-on_line :
      (fuel : ℕ) (block : List ℕ) (sequence index ms : ℕ) (s : DataLink D)
      → is_ok (attempt D fuel block sequence index ms s).0 ≡ true
      → on_line (attempt D fuel block sequence index ms s).1 ≡ on_line s ++ block
  unfolding attempt read_frame
  attempt-on_line fuel block sequence index ms s e =
      let s1 : DataLink D = record s { device = (D.write s.device block ms).1 } in
      ground
        (arith, line.write_sent s.device block ms, rounds-on_line fuel (effective_mtu s.mtu) ms s1)

  Delivered : ℕ → List ℕ → DataLink D → DataLink D → Type 0
  Delivered left block s t =
      (times : ℕ) × (1 ≤ times) × (times ≤ left) × (on_line t ≡ on_line s ++ repeated times block)

  once :
      (left : ℕ) (block : List ℕ) (s t : DataLink D)
      → on_line t ≡ on_line s ++ block
      → Delivered (suc left) block s t
  unfolding Delivered repeated
  once left block s t e =
      (1, omega arith, omega arith, e ∙ ap (λ b. on_line s ++ b) (sym (append-nil block)))

  once_more :
      (left : ℕ) (block : List ℕ) (s s1 t : DataLink D)
      → on_line s1 ≡ on_line s ++ block
      → Delivered left block s1 t
      → Delivered (suc left) block s t
  unfolding Delivered repeated
  once_more left block s s1 t e (times, low, high, d) = (
    suc times,
    omega arith,
    omega arith,
    d
        ∙ (ap (λ l. l ++ repeated times block) e
            ∙ append_assoc (on_line s) block (repeated times block)),
  )

  module _ (fuel : ℕ) (block : List ℕ) (sequence index ms left : ℕ) where
    abbrev again : Bool → DataLink D → Outcome (Unit {0}) × DataLink D
    again delivered = elim delivered [
      | true ↦ pure tt
      | false ↦ deliver D fuel block sequence index ms left
    ]

    after_attempt :
        ((t : DataLink D)
          → is_ok (deliver D fuel block sequence index ms left t).0 ≡ true
          → Delivered left block t (deliver D fuel block sequence index ms left t).1)
        → (s : DataLink D) (r : Outcome Bool) (t : DataLink D)
        → (is_ok r ≡ true → on_line t ≡ on_line s ++ block)
        → is_ok (continue r t again).0 ≡ true
        → Delivered (suc left) block s (continue r t again).1
    after_attempt ih s (ok true) t written e = once left block s t (written refl)
    after_attempt ih s (ok false) t written e =
        once_more left block s t (deliver D fuel block sequence index ms left t).1 (written refl)
          (ih t e)
    after_attempt ih s (returns code) t written e = absurd (ground arith)
    after_attempt ih s overrun t written e = absurd (ground arith)
    after_attempt ih s out_of_fuel t written e = absurd (ground arith)

  deliver-on_line :
      (fuel : ℕ) (block : List ℕ) (sequence index ms left : ℕ) (s : DataLink D)
      → is_ok (deliver D fuel block sequence index ms left s).0 ≡ true
      → Delivered left block s (deliver D fuel block sequence index ms left s).1
  unfolding deliver
  deliver-on_line fuel block sequence index ms zero s e = absurd (ground arith)
  deliver-on_line fuel block sequence index ms (suc left) s e =
      let (r, t) = attempt D fuel block sequence index ms s in
      after_attempt fuel block sequence index ms left
        (deliver-on_line fuel block sequence index ms left) s r t
        (attempt-on_line fuel block sequence index ms s) e

  -- What the fragments from `index` on add to the line.
  Sent : List DataLinkFrame → DataLink D → DataLink D → Type 0
  Sent fs s t = (bytes : List ℕ) × Carries fs bytes × (on_line t ≡ on_line s ++ bytes)

  Sent-first :
      (f : DataLinkFrame) (fs : List DataLinkFrame) (s t u : DataLink D)
      → Delivered 4 (encode f) s t
      → Sent fs t u
      → Sent (f ∷ fs) s u
  unfolding Sent Delivered
  Sent-first f fs s t u (times, low, high, d) (bytes, carried, e) = (
    repeated times (encode f) ++ bytes,
    frame_sent f fs bytes times low high carried,
    e ∙ (ap (λ l. l ++ bytes) d ∙ append_assoc (on_line s) (repeated times (encode f)) bytes),
  )

  module _ (fuel : ℕ) (payload : List ℕ) (capacity count sequence ms : ℕ)
      (fits : header_size + capacity ≤ max_frame_size) where
    abbrev rest : ℕ → ℕ → Unit {0} → DataLink D → Outcome (Unit {0}) × DataLink D
    rest left index u = send_fragments D fuel payload capacity count sequence ms left index

    after_delivery :
        (left index : ℕ)
        → ((t : DataLink D)
            → is_ok (rest left (index + 1) tt t).0 ≡ true
            → Sent
                (fragments payload capacity count sequence left (index + 1))
                t
                (rest left (index + 1) tt t).1)
        → (s : DataLink D) (r : Outcome (Unit {0})) (t : DataLink D)
        → (is_ok r ≡ true
            → Delivered 4 (encode (fragment payload capacity count sequence index)) s t)
        → is_ok (continue r t (rest left (index + 1))).0 ≡ true
        → Sent
            (fragment payload capacity count sequence index
              ∷ fragments payload capacity count sequence left (index + 1))
            s
            (continue r t (rest left (index + 1))).1
    after_delivery left index ih s (ok u) t d e =
        Sent-first (fragment payload capacity count sequence index)
          (fragments payload capacity count sequence left (index + 1)) s t _ (d refl) (ih t e)
    after_delivery left index ih s (returns code) t d e = absurd (ground arith)
    after_delivery left index ih s overrun t d e = absurd (ground arith)
    after_delivery left index ih s out_of_fuel t d e = absurd (ground arith)

    abbrev chunk_sent : ℕ → DataLink D → Outcome (Unit {0}) × DataLink D
    chunk_sent index =
        deliver D fuel (encode (fragment payload capacity count sequence index)) sequence index ms 4

    send_step :
        (left index : ℕ) (s : DataLink D)
        → send_fragments D fuel payload capacity count sequence ms (suc left) index s
          ≡ continue (chunk_sent index s).0 (chunk_sent index s).1 (rest left (index + 1))
    unfolding send_fragments
    send_step left index s =
        rw (encode_fragment_lem payload capacity count sequence index fits) refl

    none-Sent :
        (index : ℕ) (s : DataLink D)
        → Sent
            (fragments payload capacity count sequence 0 index)
            s
            (send_fragments D fuel payload capacity count sequence ms 0 index s).1
    unfolding send_fragments fragments Sent
    none-Sent index s = ([], nothing, sym (append-nil (on_line s)))

    send_fragments-on_line :
        (left index : ℕ) (s : DataLink D)
        → is_ok (send_fragments D fuel payload capacity count sequence ms left index s).0 ≡ true
        → Sent
            (fragments payload capacity count sequence left index)
            s
            (send_fragments D fuel payload capacity count sequence ms left index s).1
    unfolding fragments
    send_fragments-on_line zero index s e = none-Sent index s
    send_fragments-on_line (suc left) index s e =
        let (r, t) = chunk_sent index s in
        rw (send_step left index s) (
          after_delivery left index (send_fragments-on_line left (index + 1)) s r t
            (deliver-on_line fuel (encode (fragment payload capacity count sequence index)) sequence
              index ms 4 s)
            (rw (send_step left index s) at e))

  abbrev pub capacity_of : DataLink D → ℕ
  capacity_of s = effective_mtu s.mtu - header_size

  fits :
      (mtu : ℕ)
      → header_size < effective_mtu mtu
      → header_size + (effective_mtu mtu - header_size) ≤ max_frame_size
  unfolding effective_mtu
  fits mtu long = ground arith

  abbrev count_of : List ℕ → DataLink D → ℕ
  count_of payload s = fragment_count (length payload) (capacity_of s)

  abbrev sending : ℕ → List ℕ → ℕ → DataLink D → Outcome (Unit {0}) × DataLink D
  sending fuel payload ms s =
      send_fragments D fuel payload (capacity_of s) (count_of payload s) s.next_link_sequence ms
        (count_of payload s) 0 (record s { next_link_sequence = u32 (s.next_link_sequence + 1) })

  send_packet_lem :
      (fuel : ℕ) (payload : List ℕ) (ms : ℕ) (s : DataLink D)
      → is_ok (send_packet D fuel payload ms s).0 ≡ true
      → (is_ok (sending fuel payload ms s).0 ≡ true)
        × (on_line (send_packet D fuel payload ms s).1 ≡ on_line (sending fuel payload ms s).1)
        × (header_size < effective_mtu s.mtu)
  unfolding send_packet
  send_packet_lem fuel payload ms s e =
      let same = fragments_of_lem (length payload) (capacity_of s) in ground (arith, same)

  -- A packet that the controller sent is on the line as the fragments that the server cuts it into,
  -- with the link's MTU and the next sequence number: each in its place, and each from one to four
  -- times. `bytes` are what the call added to the line.
  pub send_packet-Carries :
      (fuel : ℕ) (payload : List ℕ) (ms : ℕ) (s : DataLink D)
      → is_ok (send_packet D fuel payload ms s).0 ≡ true
      → let capacity = capacity_of s in
        let count = fragment_count (length payload) capacity in
        (bytes : List ℕ) × Carries
          (fragments payload capacity count s.next_link_sequence count 0)
          bytes
        × (on_line (send_packet D fuel payload ms s).1 ≡ on_line s ++ bytes)
  unfolding Sent
  send_packet-Carries fuel payload ms s e =
      let (sent, line_same, long) = send_packet_lem fuel payload ms s e in
      let (bytes, carried, added) =
        send_fragments-on_line fuel payload (capacity_of s) (count_of payload s)
          s.next_link_sequence ms (fits s.mtu long) (count_of payload s) 0
          (record s { next_link_sequence = u32 (s.next_link_sequence + 1) }) sent in
      (bytes, carried, line_same ∙ added)
