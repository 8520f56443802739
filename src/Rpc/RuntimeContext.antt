-- ===== src/Rpc/RuntimeContext.antt =====
-- rpc/include/rpc_runtime_context.hpp and rpc/src/rpc_runtime_context.cpp: the ids of sessions and
-- streams. A call holds the mutex, or is one atomic step of the counter.
pub mod Ids
use audio_studio.Prelude.{ℕ, ◌+◌, Option, none, some, List, [], ◌∷◌, ◌++◌}
use audio_studio.OrderedMap.{OrderedMap, nat_key, find, emplace, erase}
use audio_studio.Rpc.Json.KeyOrder.{text_key}
use audio_studio.Rpc.Json.Numerals.{decimal}
use audio_studio.Wire.Bytes.{u32}

pub record RpcRuntimeContext : Type 0 where
  pub next_id : ℕ
  pub session_ids : OrderedMap (List ℕ) ℕ
  pub stream_ids : OrderedMap (List ℕ) ℕ
  pub numeric_sessions : OrderedMap ℕ (List ℕ)

abbrev pub new_context : RpcRuntimeContext
new_context = record { next_id = 1; session_ids = []; stream_ids = []; numeric_sessions = [] }

-- `next_id_.fetch_add(1)`
abbrev pub count_id : RpcRuntimeContext → RpcRuntimeContext
count_id c = record c { next_id = u32 (c.next_id + 1) }

unfoldable pub next_session_id : List ℕ → RpcRuntimeContext → List ℕ × RpcRuntimeContext
unfolding decimal
next_session_id prefix c = (prefix ++ b'_' ∷ decimal c.next_id, count_id c)

unfoldable pub numeric_session_id : List ℕ → RpcRuntimeContext → ℕ × RpcRuntimeContext
unfolding find emplace
numeric_session_id session_id c = elim (find session_id c.session_ids) [
  | some id ↦ (id, c)
  | none ↦ (
    c.next_id,
    record (count_id c) {
      session_ids = emplace session_id c.next_id c.session_ids;
      numeric_sessions = emplace c.next_id session_id c.numeric_sessions;
    },
  )
]

unfoldable pub numeric_stream_id : List ℕ → RpcRuntimeContext → ℕ × RpcRuntimeContext
unfolding find emplace
numeric_stream_id session_id c = elim (find session_id c.stream_ids) [
  | some id ↦ (id, c)
  | none ↦
      (c.next_id, record (count_id c) { stream_ids = emplace session_id c.next_id c.stream_ids })
]

unfoldable pub release_session : List ℕ → RpcRuntimeContext → RpcRuntimeContext
unfolding find erase
release_session session_id c = record c {
  numeric_sessions = elim (find session_id c.session_ids) [
    | some id ↦ erase id c.numeric_sessions
    | none ↦ c.numeric_sessions
  ];
  session_ids = erase session_id c.session_ids;
  stream_ids = erase session_id c.stream_ids;
}

-- The name, or `none` for `false`.
unfoldable pub session_id_for_numeric : ℕ → RpcRuntimeContext → Option (List ℕ)
unfolding find
session_id_for_numeric numeric_session_id c = find numeric_session_id c.numeric_sessions
