-- ===== src/Transport/Channel.antt =====
-- transport_manager.cpp: a logical channel, its queue of asynchronous requests, and the thread that
-- serves it.
pub mod Worker
use audio_studio.Prelude.{
  ℕ, ◌+◌, ◌%◌, ◌^◌, String, Bool, true, false, not, List, [], ◌∷◌, ◌++◌, Option, none, some,
  if◌then◌else◌,
}
use audio_studio.Framework.Status.{Status, success, unavailable}

pub record LogicalChannel : Type 0 where
  pub id : ℕ
  pub service : String
  pub is_open : Bool
  pub frames_sent : ℕ
  pub frames_received : ℕ

-- A callback is named by a number; a request may have none.
pub record AsyncRequest : Type 0 where
  pub command_id : ℕ
  pub payload : List ℕ
  pub callback : Option ℕ
  pub timeout_ms : ℕ
  pub session_id : ℕ

pub record ChannelRuntime : Type 0 where
  pub channel : LogicalChannel
  pub queue : List AsyncRequest
  pub active : Bool
  pub stopping : Bool

unfoldable pub new_runtime : ℕ → String → ChannelRuntime
new_runtime id service = record {
  channel = record {
    id = id;
    service = service;
    is_open = true;
    frames_sent = 0;
    frames_received = 0;
  };
  queue = [];
  active = false;
  stopping = false;
}

-- `++frames_sent` on a `size_t` of 64 bits.
abbrev pub count_tx : ChannelRuntime → ChannelRuntime
count_tx r = record r {
  channel = record r.channel { frames_sent = (r.channel.frames_sent + 1) % 2 ^ 64 };
}

abbrev pub count_rx : ChannelRuntime → ChannelRuntime
count_rx r = record r {
  channel = record r.channel { frames_received = (r.channel.frames_received + 1) % 2 ^ 64 };
}

-- The part of `sendAsync` that runs under the channel's mutex.
unfoldable pub enqueue : AsyncRequest → ChannelRuntime → Status × ChannelRuntime
enqueue request r =
    if not r.channel.is_open
    then (unavailable "transport channel is closed", r)
    else (success, record r { queue = r.queue ++ request ∷ [] })

-- The part of `closeChannel` that runs under the channel's mutex.
unfoldable pub mark_stopping : ChannelRuntime → ChannelRuntime
mark_stopping r = record r { channel = record r.channel { is_open = false }; stopping = true }

-- `drainAsync` waits for this.
abbrev pub is_drained : ChannelRuntime → Bool
is_drained r = elim r.queue [ [] ↦ not r.active | _ ∷ _ ↦ false ]
