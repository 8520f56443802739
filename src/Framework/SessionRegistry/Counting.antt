-- ===== src/Framework/SessionRegistry/Counting.antt =====
-- SessionRegistry: lookups after each operation, and the number of active sessions.
use audio_studio.Prelude.{
  ℕ, ◌+◌, String, ◌≡◌, true, not, ◌&&◌, [], ◌∷◌, none, some, inl, inr, Option-cases, arith,
  if◌then◌else◌,
}
use audio_studio.Prelude.Texts.{is_empty, text_eq, compare_eq}
use audio_studio.Framework.Status.{is_ok}
use audio_studio.OrderedMap.{OrderedMap, string_key, find, emplace, modify, has, values}
use audio_studio.OrderedMap.Laws.{find-emplace, find-modify}
use audio_studio.OrderedMap.Order.{IsSorted, emplace-IsSorted, modify-IsSorted, modify_above}
use audio_studio.Framework.SessionRegistry.{
  SessionInfo, SessionRegistry, closed, create, close, get, count_active, active_count,
}

-- After `create`, in every case, a lookup gives the new session for its id if the call succeeded,
-- which it does for an id and an owner that are not empty while `get` finds no such session; every
-- other lookup gives what it gave before. After `close`, the session of that id is inactive and
-- every other is as it was.
pub create-close-get :
    (id owner other : String) (r : SessionRegistry)
    → let (made, r1) = create id owner r in
      let (shut, r2) = close id r in
      (is_ok made ≡ not (is_empty id) && not (is_empty owner) && not (has id r.sessions))
      × (get other r1 ≡ (
          if is_ok made && text_eq other id
          then record { id = id; owner = owner; active = true }
          else get other r))
      × (is_ok shut ≡ has id r.sessions)
      × (get other r2 ≡ (if text_eq other id then closed (get other r) else get other r))
unfolding create close get
create-close-get id owner other r = (
  ground arith,
  ground
      (arith, find-emplace other id (record { id = id; owner = owner; active = true }) r.sessions),
  ground arith,
  ground (arith, find-modify other id closed r.sessions, compare_eq other id),
)

-- How much a session counts.
abbrev weight : SessionInfo → ℕ
weight info = if info.active then 1 else 0

count_active-emplace :
    (id : String) (info : SessionInfo) (m : OrderedMap String SessionInfo)
    → find id m ≡ none
    → count_active (values (emplace id info m)) ≡ count_active (values m) + weight info
unfolding find emplace count_active
count_active-emplace id info [] h = ground arith
count_active-emplace id info ((j, w) ∷ m) h = ground (arith, count_active-emplace id info m)

count_active-close :
    (id : String) (m : OrderedMap String SessionInfo) (info : SessionInfo)
    → IsSorted m
    → find id m ≡ some info
    → count_active (values (modify id closed m)) + weight info ≡ count_active (values m)
unfolding find modify count_active
count_active-close id [] info s h = ground arith
count_active-close id ((j, w) ∷ m) info s h =
    ground (arith, compare_eq id j, modify_above j closed m, count_active-close id m info)

-- In a registry with its keys in order, `activeCount` grows by one when a session is created,
-- shrinks by one when a session that was active is closed, and stays the same when the call is
-- refused or the session was closed before; both calls keep the order.
pub active_count_lem :
    (id owner : String) (r : SessionRegistry)
    → IsSorted r.sessions
    → let (made, r1) = create id owner r in
      let (shut, r2) = close id r in
      (active_count r1 ≡ (if is_ok made then active_count r + 1 else active_count r))
      × (active_count r2 + (if (get id r).active then 1 else 0) ≡ active_count r)
      × IsSorted r1.sessions
      × IsSorted r2.sessions
unfolding create close get active_count
active_count_lem id owner r s =
    let info : SessionInfo = record { id = id; owner = owner; active = true } in
    (
      ground (arith, count_active-emplace id info r.sessions),
      elim (Option-cases (find id r.sessions)) [
        | inl absent ↦ ground arith
        | inr (found, known) ↦ ground (arith, count_active-close id r.sessions found s known)
      ],
      ground (arith, emplace-IsSorted id info r.sessions s),
      ground (arith, modify-IsSorted id closed r.sessions s),
    )
