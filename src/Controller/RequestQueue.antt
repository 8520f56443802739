-- ===== src/Controller/RequestQueue.antt =====
-- audio_controller/src/ac_transport.c: the ring of requests that a channel's thread works off,
-- `ac_transport_queue_request` and `ac_transport_pop_request`. Each call holds the channel's mutex, so
-- it is one step. A request that is queued owns its payload.
pub mod Refinement
use audio_studio.Prelude.{
  ℕ, ◌+◌, ◌-◌, ◌%◌, Option, none, some, List, length, get_or, set, ltb, leb, ◌==◌, if◌then◌else◌,
}
use audio_studio.Controller.TransportFrame.{Frame, max_payload}

abbrev pub queue_depth : ℕ
queue_depth = 4

pub record ChannelQueue : Type 0 where
  pub queue : List Frame
  pub head : ℕ
  pub tail : ℕ
  pub count : ℕ

abbrev pub no_frame : Frame
no_frame = record {
  version = 0;
  channel_id = 0;
  command_id = 0;
  flags = 0;
  sequence_id = 0;
  session_id = 0;
  payload = audio_studio.Prelude.[];
}

-- `none` is -1, with the queue as it was.
unfoldable pub queue_request : ChannelQueue → Frame → Option ChannelQueue
queue_request q frame =
    if ltb max_payload (length frame.payload)
    then none
    else if leb queue_depth q.count
    then none
    else some (record {
      queue = set q.queue q.tail frame;
      head = q.head;
      tail = (q.tail + 1) % queue_depth;
      count = q.count + 1;
    })

unfoldable pub pop_request : ChannelQueue → Option (Frame × ChannelQueue)
pop_request q =
    if q.count == 0
    then none
    else some (
      get_or q.queue q.head no_frame,
      record q { head = (q.head + 1) % queue_depth; count = q.count - 1 },
    )
