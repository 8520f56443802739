-- ===== src/Framework/SessionRegistry.antt =====
-- server/framework/session/include/session_registry.hpp and src/session_registry.cpp.
pub mod Counting
use audio_studio.Prelude.{
  ℕ, ◌+◌, String, Bool, true, false, List, [], ◌∷◌, Option, none, some, if◌then◌else◌,
}
use audio_studio.Prelude.Texts.{is_empty}
use audio_studio.Framework.Status.{Status, success, invalid_argument, unavailable}
use audio_studio.OrderedMap.{OrderedMap, string_key, find, emplace, modify, has, values}
use Prim.Native.String.{◌++◌}

pub record SessionInfo : Type 0 where
  pub id : String
  pub owner : String
  pub active : Bool

abbrev pub no_session : SessionInfo
no_session = record { id = ""; owner = ""; active = false }

pub record SessionRegistry : Type 0 where
  pub sessions : OrderedMap String SessionInfo

abbrev pub closed : SessionInfo → SessionInfo
closed info = record info { active = false }

unfoldable pub create : String → String → SessionRegistry → Status × SessionRegistry
create id owner r =
    if is_empty id
    then (invalid_argument "session id is empty", r)
    else if is_empty owner
    then (invalid_argument "session owner is empty", r)
    else if has id r.sessions
    then (invalid_argument ("session already exists: " ++ id), r)
    else let info : SessionInfo = record { id = id; owner = owner; active = true } in
      (success, record r { sessions = emplace id info r.sessions })

unfoldable pub close : String → SessionRegistry → Status × SessionRegistry
close id r =
    if has id r.sessions
    then (success, record r { sessions = modify id closed r.sessions })
    else (unavailable ("session not found: " ++ id), r)

unfoldable pub get : String → SessionRegistry → SessionInfo
get id r = elim (find id r.sessions) [ none ↦ no_session | some info ↦ info ]

unfoldable pub list : SessionRegistry → List SessionInfo
list r = values r.sessions

pub count_active : List SessionInfo → ℕ
count_active [] = 0
count_active (info ∷ infos) =
    let rest = count_active infos in if info.active then rest + 1 else rest

unfoldable pub active_count : SessionRegistry → ℕ
unfolding count_active
active_count r = count_active (values r.sessions)
