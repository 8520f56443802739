-- ===== src/Transport/DataLink/Refusal.antt =====
-- `sendPacket`: which packets go out, and what becomes of the others.
use audio_studio.Prelude.{ℕ, ◌*◌, ◌≤◌, ◌<◌, ◌≡◌, ◌⊎◌, true, false, List, length}
use audio_studio.Framework.Status.{Result, fail, is_ok}
use audio_studio.Transport.DataLinkFrame.{DataLinkFrame, encode, header_size}
use audio_studio.Transport.DataLink.{DataLinkDevice, DataLinkManager}
use audio_studio.Transport.DataLink.Send.{fragment, fragment_count}
use audio_studio.Transport.DataLink.Sending.{capacity_of}

module _ (D : DataLinkDevice) where
  -- A packet of `size` bytes can go out: the device is connected, a fragment has room for a byte
  -- behind its header, and at most 65535 fragments hold the packet.
  abbrev pub IsSendable : ℕ → DataLinkManager D → Type 0
  IsSendable size s =
      (D.is_connected s.device ≡ true)
      × (header_size < D.max_payload_size s.device)
      × (size ≤ 0xffff * capacity_of D s)

  -- Whether the device takes the frame, and its answer when it does not.
  abbrev IsGiven {ℓ} :
      {A : Type ℓ} → DataLinkFrame → ℕ → DataLinkManager D → Result A → DataLinkManager D → Type ℓ
  IsGiven frame timeout_ms s r t =
      let first = D.write_block s.device (encode frame) timeout_ms in
      ((is_ok first.0 ≡ true) × (s.stats.fragments_sent < t.stats.fragments_sent))
      ⊎ ((is_ok first.0 ≡ false) × (r ≡ fail first.0))

  -- The packet's first fragment.
  abbrev pub first_fragment : List ℕ → DataLinkManager D → DataLinkFrame
  first_fragment payload s =
      fragment payload (capacity_of D s) (fragment_count (length payload) (capacity_of D s))
        s.next_link_sequence 0
