-- ===== src/Tests/Fixtures.antt =====
-- A data-link device that acknowledges every frame that is written to it.
use audio_studio.Prelude.{ℕ, ◌+◌, ◌*◌, refl, true, List, [], ◌∷◌, ◌++◌, arith}
use audio_studio.Framework.Status.{Result, done, success}
use audio_studio.Transport.DataLinkFrame.{DataLinkFrame, encode, decode, make_ack}
use audio_studio.Transport.DataLink.{
  DataLinkDevice, DataLinkManager, DataLinkManagerConfig, ns_per_ms, no_stats,
}
use audio_studio.Transport.DataLink.Termination.{IsTimely}
use audio_studio.Transport.DataLink.Reassembly.{Accepts}
use audio_studio.Transport.DataLink.Delivery.{Line}

pub record EchoState : Type 0 where
  pub sent : List ℕ
  pub inbox : List ℕ
  pub time : ℕ

abbrev pub reply : Result DataLinkFrame → List ℕ
reply (done f) = encode (make_ack f)
reply _ = []

abbrev pub echo : DataLinkDevice
echo = record {
  State = EchoState;
  is_connected = λ d. true;
  max_payload_size = λ d. 40;
  write_block =
      λ d block ms. (success, record d { sent = d.sent ++ block; inbox = reply (decode block) });
  read_block = λ d capacity ms. (success, d.inbox, record d { inbox = [] });
  now = λ d. (d.time, record d { time = d.time + 1 });
  sleep_ms = λ d ms. record d { time = d.time + ms * ns_per_ms };
}

abbrev pub echo_start : EchoState
echo_start = record { sent = []; inbox = []; time = 0 }

abbrev pub echo_config : DataLinkManagerConfig
echo_config = record { ack_timeout_ms = 5; max_retries = 2 }

abbrev pub echo_manager : DataLinkManager echo
echo_manager = record {
  device = echo_start;
  config = echo_config;
  stats = no_stats;
  next_link_sequence = 1;
  rx_buffer = [];
}

pub echo-IsTimely : IsTimely echo
echo-IsTimely = record {
  now_keeps = λ d. omega arith;
  read_keeps = λ d capacity wait. omega arith;
  sleep_lasts = λ d. omega arith;
}

pub echo-Accepts : Accepts echo
echo-Accepts d block ms = refl

abbrev pub echo-Line : Line echo
echo-Line = record {
  sent = λ d. d.sent;
  write_sent = λ d block ms ok. refl;
  read_sent = λ d capacity ms. refl;
  now_sent = λ d. refl;
  sleep_sent = λ d ms. refl;
}

abbrev pub five_bytes : List ℕ
five_bytes = 10 ∷ 20 ∷ 30 ∷ 40 ∷ 50 ∷ []
