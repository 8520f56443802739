-- ===== src/Transport/Manager.antt =====
-- server/framework/transport/include/transport_manager.hpp and src/transport_manager.cpp: the
-- channels and the exchange of a request for its response over the data link.
pub mod Exchange
pub mod Binding
pub mod Closing
use audio_studio.Prelude.{
  ℕ, zero, suc, ◌+◌, ◌==◌, ◌%◌, ◌^◌, String, Bool, true, false, not, ◌&&◌, ◌||◌, bit_or, bit_and,
  List, [], ◌∷◌, ◌++◌, Option, none, some, map, if◌then◌else◌,
}
use audio_studio.Prelude.Texts.{is_empty, text_eq}
use audio_studio.Framework.Status.{
  Status, Result, done, fail, stuck, success, invalid_argument, unavailable, is_ok,
}
use audio_studio.Framework.Action.{
  Action, pure, raise, lift, gets, update, guard, check, ◌>>=◌, ◌>>◌,
}
use audio_studio.OrderedMap.{OrderedMap, nat_key, find, emplace, modify, erase, has, values, keys}
use audio_studio.Wire.Bytes.{u32}
use audio_studio.Transport.Frame.{
  TransportFrame, encode, decode, flag_request, flag_ack_required, flag_ack, flag_response,
}
use audio_studio.Transport.DataLink.{DataLinkDevice, DataLinkManager, DataLinkManagerConfig, new}
use audio_studio.Transport.DataLink.Send.{send_packet}
use audio_studio.Transport.DataLink.Receive.{receive_packet}
use audio_studio.Transport.Channel.{
  LogicalChannel, ChannelRuntime, AsyncRequest, new_runtime, count_tx, count_rx, enqueue,
}
use Prim.Native.String.{◌++◌ as ◌+++◌}

pub record DataLinkDeviceConfig : Type 0 where
  pub name : String
  pub endpoint : String
  pub options : OrderedMap String String

-- The device that the data link runs on: `device_` with its factory and configuration when the
-- manager owns it, or the address of one that someone else owns.
pub data Bound : Type 0 where
  owned : String → DataLinkDeviceConfig → DataLinkManagerConfig → Bound
  borrowed : ℕ → DataLinkManagerConfig → Bound

pub record TransportManager (D : DataLinkDevice) : Type 0 where
  pub channels : OrderedMap ℕ ChannelRuntime
  pub binding : Option Bound
  pub datalink : Option (DataLinkManager D)
  pub next_sequence : ℕ

abbrev pub no_channel : Status
no_channel = unavailable "transport channel not found"

abbrev pub closed_channel : Status
closed_channel = unavailable "transport channel is closed"

module _ (D : DataLinkDevice) where
  abbrev pub Run {ℓ} : Type ℓ → Type ℓ
  Run A = Action (TransportManager D) A

  unfoldable pub open_channel : ℕ → String → Run (Unit {0})
  open_channel id service = do
    guard (not (id == 0)) (invalid_argument "transport channel id is zero")
    guard (not (is_empty service)) (invalid_argument "transport service is empty")
    known ← gets λ s. has id s.channels
    guard (not known) (invalid_argument "transport channel already exists")
    update λ s. record s { channels = emplace id (new_runtime id service) s.channels }

  unfoldable pub require_channel : ℕ → Run ChannelRuntime
  require_channel id s = elim (find id s.channels) [
    | none ↦ (fail no_channel, s)
    | some runtime ↦ (done runtime, s)
  ]

  unfoldable pub get_channel : ℕ → Run LogicalChannel
  unfolding require_channel
  get_channel id = do runtime ← require_channel id; pure runtime.channel

  unfoldable pub list_channels : TransportManager D → List LogicalChannel
  list_channels s = map (λ r. r.channel) (values s.channels)

  abbrev pub count : ℕ → (ChannelRuntime → ChannelRuntime) → Run (Unit {0})
  count id f = update λ s. record s { channels = modify id f s.channels }

  unfoldable pub record_tx : TransportFrame → Run (Unit {0})
  unfolding require_channel
  record_tx frame = do
    runtime ← require_channel frame.channel_id
    guard runtime.channel.is_open closed_channel
    count frame.channel_id count_tx

  unfoldable pub record_rx : TransportFrame → Run (Unit {0})
  unfolding require_channel
  record_rx frame = do
    runtime ← require_channel frame.channel_id
    guard runtime.channel.is_open closed_channel
    count frame.channel_id count_rx

  -- `fetch_add(1)` on 32 bits.
  unfoldable pub next_sequence : Run ℕ
  next_sequence s = (done s.next_sequence, record s { next_sequence = u32 (s.next_sequence + 1) })

  -- A call on the data link; `unavailable` when there is none.
  unfoldable pub on_link {ℓ} : {A : Type ℓ} → Action (DataLinkManager D) A → Run A
  on_link call s = elim s.datalink [
    | none ↦ (fail (unavailable "transport data-link is not bound"), s)
    | some link ↦ let (r, link') = call link in (r, record s { datalink = some link' })
  ]

  unfoldable pub request_frame : ℕ → ℕ → ℕ → ℕ → List ℕ → TransportFrame
  request_frame channel_id command_id sequence session_id payload = record {
    version = 1;
    service_id = channel_id;
    channel_id = channel_id;
    command_id = command_id;
    flags = bit_or flag_request flag_ack_required;
    sequence_id = sequence;
    session_id = session_id;
    payload = payload;
  }

  unfoldable pub answers : TransportFrame → TransportFrame → Bool
  answers request response =
      response.channel_id == request.channel_id && response.sequence_id == request.sequence_id

  unfoldable pub is_answer : TransportFrame → Bool
  is_answer response = not (bit_and response.flags (bit_or flag_ack flag_response) == 0)

  unfoldable pub exchange : ℕ → TransportFrame → ℕ → Run TransportFrame
  unfolding on_link record_tx record_rx answers is_answer
  exchange fuel request timeout_ms = do
    on_link (send_packet D fuel (encode request) timeout_ms)
    record_tx request
    packet ← on_link (receive_packet D fuel timeout_ms)
    response ← lift (decode packet)
    guard (answers request response) (unavailable "transport ACK does not match request")
    guard (is_answer response) (unavailable "transport response is not an ACK")
    record_rx response
    pure response

  unfoldable pub send_sync : ℕ → ℕ → ℕ → List ℕ → ℕ → ℕ → Run TransportFrame
  unfolding require_channel next_sequence
  send_sync fuel channel_id command_id payload timeout_ms session_id = do
    runtime ← require_channel channel_id
    guard runtime.channel.is_open closed_channel
    sequence ← next_sequence
    exchange fuel (request_frame channel_id command_id sequence session_id payload) timeout_ms

  unfoldable pub send_async : ℕ → AsyncRequest → Run (Unit {0})
  unfolding require_channel enqueue
  send_async channel_id request = do
    runtime ← require_channel channel_id
    let (status, runtime') = enqueue request runtime
    count channel_id (λ _. runtime')
    check status
