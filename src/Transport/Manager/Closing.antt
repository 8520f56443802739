-- ===== src/Transport/Manager/Closing.antt =====
-- transport_manager.cpp: `drainAsync`, `closeChannel`, `shutdown` and `resetForTesting`, with no other
-- thread but the channel's worker at work.
use audio_studio.Prelude.{ℕ, List, [], ◌∷◌, Option, none}
use audio_studio.Framework.Status.{Result}
use audio_studio.Framework.Action.{pure, update, observe, ◌>>=◌, ◌>>◌}
use audio_studio.OrderedMap.{nat_key, erase, keys}
use audio_studio.Transport.Frame.{TransportFrame}
use audio_studio.Transport.DataLink.{DataLinkDevice}
use audio_studio.Transport.Channel.{AsyncRequest, mark_stopping}
use audio_studio.Transport.Manager.{TransportManager, Run, count, require_channel, send_sync}

-- A callback that the worker calls: its name, if there is one, and what it is given.
abbrev pub Callback : Type 0
Callback = Option ℕ × Result TransportFrame

module _ (D : DataLinkDevice) where
  -- What the worker does with the requests of a queue.
  unfoldable pub serve_queue : ℕ → ℕ → List AsyncRequest → Run D (List Callback)
  serve_queue fuel id [] = pure []
  serve_queue fuel id (r ∷ rs) = do
    count D id λ runtime. record runtime { queue = rs }
    response ← observe (send_sync D fuel id r.command_id r.payload r.timeout_ms r.session_id)
    rest ← serve_queue fuel id rs
    pure ((r.callback, response) ∷ rest)

  -- `drainAsync` returns when the worker has served the queue.
  unfoldable pub drain_async : ℕ → ℕ → Run D (List Callback)
  unfolding require_channel serve_queue
  drain_async fuel id = do runtime ← require_channel D id; serve_queue fuel id runtime.queue

  unfoldable pub close_channel : ℕ → ℕ → Run D (List Callback)
  unfolding drain_async mark_stopping
  close_channel fuel id = do
    runtime ← require_channel D id
    called ← drain_async fuel id
    count D id mark_stopping
    update λ s. record s { channels = erase id s.channels }
    pure called

  close_each : ℕ → List ℕ → TransportManager D → TransportManager D
  unfolding close_channel
  close_each fuel [] s = s
  close_each fuel (id ∷ ids) s = close_each fuel ids (close_channel fuel id s).1

  unfoldable pub shutdown : ℕ → TransportManager D → TransportManager D
  unfolding close_each
  shutdown fuel s = close_each fuel (keys s.channels) s

  unfoldable pub reset_for_testing : ℕ → TransportManager D → TransportManager D
  unfolding shutdown
  reset_for_testing fuel s = record (shutdown fuel s) {
    binding = none;
    datalink = none;
    next_sequence = 1;
  }
