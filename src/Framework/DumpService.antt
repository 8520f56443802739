-- ===== src/Framework/DumpService.antt =====
-- server/framework/dump/include/dump_service.hpp and src/dump_service.cpp.
pub mod Accounting
use audio_studio.Prelude.{
  ℕ, ◌+◌, ◌%◌, ◌^◌, String, Bool, true, false, List, Option, none, some, if◌then◌else◌,
}
use audio_studio.Prelude.Texts.{is_empty}
use audio_studio.Framework.Status.{
  Status, Result, done, fail, success, invalid_argument, unavailable,
}
use audio_studio.OrderedMap.{OrderedMap, string_key, find, emplace, modify, has, values}
use Prim.Native.String.{◌++◌}

pub record DumpSession : Type 0 where
  pub id : String
  pub source : String
  pub active : Bool
  pub bytes_written : ℕ

pub record DumpService : Type 0 where
  pub sessions : OrderedMap String DumpSession

abbrev not_found : String → Status
not_found id = unavailable ("dump session not found: " ++ id)

-- `bytes_written += bytes` on a `size_t` of 64 bits.
abbrev pub add_bytes : ℕ → DumpSession → DumpSession
add_bytes bytes session = record session {
  bytes_written = (session.bytes_written + bytes) % 2 ^ 64;
}

abbrev pub stopped : DumpSession → DumpSession
stopped session = record session { active = false }

abbrev pub started : String → String → DumpSession
started id source = record { id = id; source = source; active = true; bytes_written = 0 }

unfoldable pub start : String → String → DumpService → Status × DumpService
start id source s =
    if is_empty id
    then (invalid_argument "dump id is empty", s)
    else if is_empty source
    then (invalid_argument "dump source is empty", s)
    else if has id s.sessions
    then (invalid_argument ("dump session already exists: " ++ id), s)
    else (success, record s { sessions = emplace id (started id source) s.sessions })

unfoldable pub write : String → ℕ → DumpService → Status × DumpService
write id bytes s = elim (find id s.sessions) [
  | none ↦ (not_found id, s)
  | some session ↦
      if session.active
      then (success, record s { sessions = modify id (add_bytes bytes) s.sessions })
      else (unavailable ("dump session is not active: " ++ id), s)
]

unfoldable pub stop : String → DumpService → Status × DumpService
stop id s =
    if has id s.sessions
    then (success, record s { sessions = modify id stopped s.sessions })
    else (not_found id, s)

unfoldable pub get : String → DumpService → Result DumpSession
get id s = elim (find id s.sessions) [ none ↦ fail (not_found id) | some session ↦ done session ]

unfoldable pub list : DumpService → List DumpSession
list s = values s.sessions
