-- ===== src/Transport/DataLink.antt =====
-- server/framework/transport/include/datalink_manager.hpp and src/datalink_manager.cpp: packets cut
-- into fragments, each of which is sent again until it is acknowledged.
-- The device is drivers/datalink/include/datalink_device.hpp: `IDataLinkDevice` with its calls as
-- functions on a state of its own, and the steady clock, in nanoseconds, beside it.
pub mod ReadFrame
pub mod Termination
pub mod Send
pub mod Receive
pub mod Fragments
pub mod Reassembly
pub mod Sending
pub mod Refusal
pub mod Receiving
pub mod Delivery
use audio_studio.Prelude.{
  ℕ, zero, suc, ◌+◌, ◌-◌, ◌*◌, ◌/◌, Bool, Option, none, some, List, [], ◌++◌, length, take, drop,
  ltb, ◌==◌, max, if◌then◌else◌,
}
use audio_studio.Framework.StatusCode.{StatusCode}
use audio_studio.Framework.Status.{Status, done, fail, stuck, unavailable, is_ok}
use audio_studio.Framework.Action.{
  Action, pure, raise, lift, gets, update, guard, check, ◌>>=◌, ◌>>◌,
}
use audio_studio.Wire.Bytes.{u32}
use audio_studio.Transport.DataLinkFrame.{
  DataLinkFrame, encode, decode, frame_size, header_size, make_ack, make_nak,
}

pub record DataLinkDevice : Type 1 where
  pub State : Type 0
  pub is_connected : State → Bool
  pub max_payload_size : State → ℕ
  pub write_block : State → List ℕ → ℕ → Status × State
  -- The status, and the bytes that were put into the buffer (`actual_size` of them).
  pub read_block : State → ℕ → ℕ → Status × List ℕ × State
  pub now : State → ℕ × State
  pub sleep_ms : State → ℕ → State

pub record DataLinkManagerConfig : Type 0 where
  pub ack_timeout_ms : ℕ
  pub max_retries : ℕ

pub record DataLinkManagerStats : Type 0 where
  pub packets_sent : ℕ
  pub packets_received : ℕ
  pub fragments_sent : ℕ
  pub fragments_received : ℕ
  pub retries : ℕ

abbrev pub no_stats : DataLinkManagerStats
no_stats = record {
  packets_sent = 0;
  packets_received = 0;
  fragments_sent = 0;
  fragments_received = 0;
  retries = 0;
}

pub record DataLinkManager (D : DataLinkDevice) : Type 0 where
  pub device : D.State
  pub config : DataLinkManagerConfig
  pub stats : DataLinkManagerStats
  pub next_link_sequence : ℕ
  pub rx_buffer : List ℕ

abbrev pub ns_per_ms : ℕ
ns_per_ms = 1000000

module _ (D : DataLinkDevice) where
  abbrev pub Run {ℓ} : Type ℓ → Type ℓ
  Run A = Action (DataLinkManager D) A

  unfoldable pub new : D.State → DataLinkManagerConfig → DataLinkManager D
  new device config = record {
    device = device;
    config = config;
    stats = no_stats;
    next_link_sequence = 1;
    rx_buffer = [];
  }

  abbrev pub count_with : (DataLinkManagerStats → DataLinkManagerStats) → Run (Unit {0})
  count_with f = update λ s. record s { stats = f s.stats }

  -- `steady_clock::now()`
  unfoldable pub clock : Run ℕ
  clock s = let (t, d) = D.now s.device in (done t, record s { device = d })

  unfoldable pub write : List ℕ → ℕ → Run (Unit {0})
  write block timeout_ms s =
      let (status, d) = D.write_block s.device block timeout_ms in
      check status (record s { device = d })

  unfoldable pub read : ℕ → ℕ → Run (List ℕ)
  read capacity timeout_ms s =
      let (status, bytes, d) = D.read_block s.device capacity timeout_ms in
      let s' = record s { device = d } in
      if is_ok status then (done bytes, s') else (fail status, s')

  -- How long the next read may block; an error once the deadline has passed.
  remaining_ms : ℕ → ℕ → Run ℕ
  remaining_ms zero deadline = pure 0
  remaining_ms (suc timeout_ms) deadline = do
    t ← clock
    guard (ltb t deadline) (unavailable "data-link read timed out")
    let ms = u32 ((deadline - t) / ns_per_ms)
    pure (if ms == 0 then 1 else ms)

  -- The read gave no bytes.
  idle : ℕ → ℕ → Run (Option DataLinkFrame)
  idle zero deadline = raise (unavailable "data-link read returned no data")
  idle (suc timeout_ms) deadline = do
    t ← clock
    guard (ltb t deadline) (unavailable "data-link read timed out")
    update λ s. record s { device = D.sleep_ms s.device 1 }
    pure none

  -- The rest of one round of the loop of `readFrame`, when no whole frame is buffered.
  fill : ℕ → ℕ → ℕ → Run (Option DataLinkFrame)
  unfolding remaining_ms idle clock read
  fill capacity timeout_ms deadline = do
    wait ← remaining_ms timeout_ms deadline
    bytes ← read capacity wait
    if length bytes == 0
        then idle timeout_ms deadline
        else do update λ s. record s { rx_buffer = s.rx_buffer ++ bytes }; pure none

  -- One round: `some` is a frame to return, `none` goes round again.
  unfoldable pub round : ℕ → ℕ → ℕ → Run (Option DataLinkFrame)
  unfolding fill
  round capacity timeout_ms deadline s = elim (frame_size s.rx_buffer) [
    | done size ↦
        (do frame ← lift (decode (take size s.rx_buffer)); pure (some frame))
          (record s { rx_buffer = drop size s.rx_buffer })
    | fail status ↦ elim status.code [
      | StatusCode.unavailable ↦ fill capacity timeout_ms deadline s
      | _ ↦ (fail status, s)
    ]
    | stuck ↦ (stuck, s)
  ]

  -- `while (true)`
  unfoldable pub rounds : ℕ → ℕ → ℕ → ℕ → Run DataLinkFrame
  rounds zero capacity timeout_ms deadline s = (stuck, s)
  rounds (suc fuel) capacity timeout_ms deadline s =
      let (r, s') = round capacity timeout_ms deadline s in
      elim r [
        | done found ↦ elim found [
          | none ↦ rounds fuel capacity timeout_ms deadline s'
          | some frame ↦ (done frame, s')
        ]
        | fail status ↦ (fail status, s')
        | stuck ↦ (stuck, s')
      ]

  unfoldable pub read_frame : ℕ → ℕ → Run DataLinkFrame
  unfolding clock
  read_frame fuel timeout_ms = do
    capacity ← gets λ s. max (D.max_payload_size s.device) header_size
    start ← clock
    rounds fuel capacity timeout_ms (start + timeout_ms * ns_per_ms)

  unfoldable pub send_ack : DataLinkFrame → Bool → ℕ → Run (Unit {0})
  unfolding write
  send_ack frame ok timeout_ms =
      write (encode (if ok then make_ack frame else make_nak frame)) timeout_ms
