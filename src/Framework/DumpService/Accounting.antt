-- ===== src/Framework/DumpService/Accounting.antt =====
-- DumpService: the bytes that a dump session has are those of the writes that were accepted.
use audio_studio.Prelude.{
  ℕ, ◌+◌, ◌<◌, ◌%◌, ◌^◌, String, ◌≡◌, refl, ◌∙◌, true, false, ◌&&◌, List, [], ◌∷◌, none, some, inl,
  inr, Option-cases, arith, if◌then◌else◌,
}
use audio_studio.Prelude.Texts.{is_empty, text_eq, compare_eq}
use audio_studio.Framework.Status.{Status, is_ok, unavailable, invalid_argument}
use audio_studio.OrderedMap.{string_key, find}
use audio_studio.OrderedMap.Laws.{find-emplace, find-modify, key_eq_refl}
use audio_studio.Framework.DumpService.{
  DumpSession, DumpService, start, write, stop, started, stopped, add_bytes,
}
use Prim.Native.String.{◌++◌}

-- A call of the service.
pub data Call : Type 0 where
  starts : String → String → Call
  writes : String → ℕ → Call
  stops : String → Call

pub step : Call → DumpService → Status × DumpService
step (Call.starts id source) s = start id source s
step (Call.writes id bytes) s = write id bytes s
step (Call.stops id) s = stop id s

pub run : List Call → DumpService → DumpService
unfolding step
run [] s = s
run (c ∷ cs) s = run cs (step c s).1

-- How many bytes a call adds to a session.
pub written : String → Call → DumpService → ℕ
written id (Call.writes other bytes) s =
    if text_eq id other && is_ok (write other bytes s).0 then bytes else 0
written id _ s = 0

pub total_written : String → List Call → DumpService → ℕ
unfolding step written
total_written id [] s = 0
total_written id (c ∷ cs) s = written id c s + total_written id cs (step c s).1

abbrev pub bytes_of : String → DumpService → ℕ
bytes_of id s = elim (find id s.sessions) [ none ↦ 0 | some session ↦ session.bytes_written ]

step-bytes_of :
    (id : String) (c : Call) (s : DumpService)
    → bytes_of id s < 2 ^ 64
    → bytes_of id (step c s).1 ≡ (bytes_of id s + written id c s) % 2 ^ 64
unfolding step written start write stop
step-bytes_of id (Call.starts other source) s small =
    ground (arith, find-emplace id other (started other source) s.sessions, compare_eq id other)
step-bytes_of id (Call.writes other bytes) s small =
    ground (arith, find-modify id other (add_bytes bytes) s.sessions, compare_eq id other)
step-bytes_of id (Call.stops other) s small =
    ground (arith, find-modify id other stopped s.sessions, compare_eq id other)

-- After any sequence of calls, a session's `bytes_written` is what it was before (0 for one that
-- did not exist) plus the bytes of the writes to it that succeeded, in 64 bits: refused writes,
-- starts, stops and calls on other sessions add nothing.
pub run-bytes_of :
    (id : String) (calls : List Call) (s : DumpService)
    → bytes_of id s < 2 ^ 64
    → bytes_of id (run calls s) ≡ (bytes_of id s + total_written id calls s) % 2 ^ 64
unfolding run total_written
run-bytes_of id [] s small = omega arith
run-bytes_of id (c ∷ cs) s small =
    let now = step-bytes_of id c s small in
    run-bytes_of id cs (step c s).1 (omega arith) ∙ omega arith

abbrev IsStopped : String → DumpService → Type 0
IsStopped id s =
    (session : DumpSession) × (find id s.sessions ≡ some session) × (session.active ≡ false)

step-IsStopped :
    (id : String) (c : Call) (s : DumpService) → IsStopped id s → IsStopped id (step c s).1
unfolding step start write stop
step-IsStopped id (Call.starts other source) s (session, here, off) = (
  session,
  ground (arith, find-emplace id other (started other source) s.sessions, compare_eq id other),
  off,
)
step-IsStopped id (Call.writes other bytes) s (session, here, off) = (
  session,
  ground (arith, find-modify id other (add_bytes bytes) s.sessions, compare_eq id other),
  off,
)
step-IsStopped id (Call.stops other) s (session, here, off) = (
  if text_eq id other then stopped session else session,
  ground (arith, find-modify id other stopped s.sessions, compare_eq id other),
  ground arith,
)

stop-IsStopped :
    (id : String) (s : DumpService) → is_ok (stop id s).0 ≡ true → IsStopped id (stop id s).1
unfolding stop
stop-IsStopped id s ok = elim (Option-cases (find id s.sessions)) [
  | inl absent ↦ ground arith
  | inr (session, known) ↦
      (stopped session, ground (arith, find-modify id id stopped s.sessions, key_eq_refl id), refl)
]

run-IsStopped :
    (id : String) (calls : List Call) (s : DumpService)
    → IsStopped id s
    → IsStopped id (run calls s)
unfolding run
run-IsStopped id [] s h = h
run-IsStopped id (c ∷ cs) s h = run-IsStopped id cs (step c s).1 (step-IsStopped id c s h)

-- Once a `stop` has succeeded, whatever calls follow, a write to the session is refused with
-- UNAVAILABLE and changes nothing, and so is a second `start` of it with INVALID_ARGUMENT.
pub stop-final :
    (id source : String) (bytes : ℕ) (calls : List Call) (s : DumpService)
    → is_ok (stop id s).0 ≡ true
    → is_empty id ≡ false
    → is_empty source ≡ false
    → let t = run calls (stop id s).1 in
      (write id bytes t ≡ (unavailable ("dump session is not active: " ++ id), t))
      × (start id source t ≡ (invalid_argument ("dump session already exists: " ++ id), t))
unfolding write start
stop-final id source bytes calls s ok named sourced =
    let (session, here, off) = run-IsStopped id calls (stop id s).1 (stop-IsStopped id s ok) in
    (ground arith, ground arith)
