-- ===== src/Transport/Channel/Worker.antt =====
-- `channelWorker` beside the threads that call `sendAsync` and `closeChannel`: every request that
-- was accepted is served once, in order.
use audio_studio.Prelude.{
  ◌≡◌, Bool, true, false, not, ◌&&◌, ◌||◌, List, [], ◌∷◌, ◌++◌, append_assoc, append-nil, arith,
}
use audio_studio.Framework.Status.{is_ok}
use audio_studio.Transport.Channel.{
  AsyncRequest, ChannelRuntime, enqueue, mark_stopping, is_drained,
}

-- Where the worker's thread is.
pub data Worker : Type 0 where
  waiting : Worker
  serving : AsyncRequest → Worker
  finishing : Worker
  exited : Worker

-- A channel as its threads see it. `accepted` and `served` are no part of the program: the requests
-- that `sendAsync` took, and those whose callback has been called.
pub record System : Type 0 where
  pub runtime : ChannelRuntime
  pub worker : Worker
  pub accepted : List AsyncRequest
  pub served : List AsyncRequest

abbrev pub in_hand : Worker → List AsyncRequest
in_hand (Worker.serving request) = request ∷ []
in_hand _ = []

-- One step of one of the threads; what runs under the channel's mutex is one step.
pub data Step : System → System → Type 0 where
  send :
      (request : AsyncRequest) (s : System)
      → is_ok (enqueue request s.runtime).0 ≡ true
      → Step s (record s {
        runtime = (enqueue request s.runtime).1;
        accepted = s.accepted ++ request ∷ [];
      })
  -- The front of the queue is taken; `stopping` does not keep the worker from it.
  take :
      (request : AsyncRequest) (rest : List AsyncRequest) (s : System)
      → s.worker ≡ Worker.waiting
      → s.runtime.queue ≡ request ∷ rest
      → Step s (record s {
        runtime = record s.runtime { queue = rest; active = true };
        worker = Worker.serving request;
      })
  -- `sendSync` has returned, and the callback has been called if there is one.
  call_back :
      (request : AsyncRequest) (s : System)
      → s.worker ≡ Worker.serving request
      → Step s (record s { worker = Worker.finishing; served = s.served ++ request ∷ [] })
  finish :
      (s : System)
      → s.worker ≡ Worker.finishing
      → Step s (record s { runtime = record s.runtime { active = false }; worker = Worker.waiting })
  stop : (s : System) → Step s (record s { runtime = mark_stopping s.runtime })
  exit :
      (s : System)
      → s.worker ≡ Worker.waiting
      → s.runtime.stopping ≡ true
      → s.runtime.queue ≡ []
      → Step s (record s { worker = Worker.exited })

-- A channel that has just been opened, and what its threads make of it.
pub data Reachable : System → Type 0 where
  start :
      (runtime : ChannelRuntime)
      → runtime.queue ≡ []
      → runtime.active ≡ false
      → runtime.stopping ≡ false
      → Reachable
          (record { runtime = runtime; worker = Worker.waiting; accepted = []; served = [] })
  step : (s t : System) → Reachable s → Step s t → Reachable t

abbrev pub is_busy : Worker → Bool
is_busy (Worker.serving request) = true
is_busy Worker.finishing = true
is_busy _ = false

abbrev pub has_exited : Worker → Bool
has_exited Worker.exited = true
has_exited _ = false

abbrev pub is_nil {ℓ} : {A : Type ℓ} → List A → Bool
is_nil [] = true
is_nil (x ∷ xs) = false

pub record IsOrderly (s : System) : Type 0 where
  pub all_there : s.served ++ (in_hand s.worker ++ s.runtime.queue) ≡ s.accepted
  pub busy : s.runtime.active ≡ is_busy s.worker
  pub closes : (s.runtime.stopping && s.runtime.channel.is_open) ≡ false
  pub exits : (has_exited s.worker && not (s.runtime.stopping && is_nil s.runtime.queue)) ≡ false

step-IsOrderly : (s t : System) → Step s t → IsOrderly s → IsOrderly t
unfolding enqueue mark_stopping
step-IsOrderly s _ (Step.send request _ ok) h =
    let queue : List AsyncRequest = s.runtime.queue in
    let hand : List AsyncRequest = in_hand s.worker in
    ground (
      arith,
      append_assoc hand queue (request ∷ []),
      append_assoc s.served (hand ++ queue) (request ∷ []),
    )
step-IsOrderly s _ (Step.take request rest _ free front) h = ground arith
step-IsOrderly s _ (Step.call_back request _ now) h =
    ground (arith, append_assoc s.served (request ∷ []) s.runtime.queue)
step-IsOrderly s _ (Step.finish _ now) h = ground arith
step-IsOrderly s _ (Step.stop _) h = ground arith
step-IsOrderly s _ (Step.exit _ free ends empty) h = ground arith

-- In every state that `sendAsync`, `closeChannel` and the worker reach from an open channel,
-- however their steps interleave: the requests served, the one in the worker's hand and those in
-- the queue are the accepted ones, in the order they were accepted; `active` says that the worker
-- has one in hand or has not yet finished with it; a channel that is stopping is not open; and the
-- worker has exited only from a stopping channel whose queue is empty.
pub reachable-IsOrderly : (s : System) → Reachable s → IsOrderly s
reachable-IsOrderly _ (Reachable.start runtime empty idle goes) = ground arith
reachable-IsOrderly _ (Reachable.step s t before now) =
    step-IsOrderly s t now (reachable-IsOrderly s before)

-- When `drainAsync` may return, every request accepted so far has been served, in order; and so it
-- is when the worker has exited.
pub drained-served :
    (s : System)
    → Reachable s
    → is_drained s.runtime || has_exited s.worker ≡ true
    → s.served ≡ s.accepted
drained-served s path quiet =
    let h = reachable-IsOrderly s path in ground (arith, append-nil s.served)
