-- ===== src/Audio/Service/Sessions.antt =====
-- AudioService: one session for an id, whichever its direction.
use audio_studio.Prelude.{
  ℕ, String, ◌≡◌, true, false, ◌&&◌, List, [], ◌∷◌, inl, inr, Option-cases, arith, if◌then◌else◌,
}
use audio_studio.Prelude.Texts.{text_eq, compare_eq}
use audio_studio.Framework.Status.{Status, done, fail, is_ok}
use audio_studio.OrderedMap.{string_key, find, assign, has}
use audio_studio.OrderedMap.Laws.{find-emplace, find-assign, find-erase}
use audio_studio.OrderedMap.Order.{IsSorted, emplace-IsSorted, assign-IsSorted, erase-IsSorted}
use audio_studio.Audio.Device.{AudioPlaybackDevice, AudioCaptureDevice}
use audio_studio.Audio.Stream.{AudioStream}
use audio_studio.Audio.Session.{Session, new_session, snapshot, stop, close}
use audio_studio.Audio.Playback.{prepare_playback, start_playback, write_frames, drain}
use audio_studio.Audio.Capture.{prepare_capture, start_capture, read_frames}
use audio_studio.Audio.Service.{
  Service, create, create_playback_session, create_capture_session, has_session, named_stream,
  make_device,
}
use audio_studio.Audio.Service.Calls.{
  dispatch, prepare_stream, start_stream, stop_stream, drain_stream, remove, get, write_stream,
  read_stream, not_found,
}

pub data ServiceCall : Type 0 where
  creates : AudioStream → ServiceCall
  prepares : String → ServiceCall
  starts : String → ServiceCall
  drains : String → ServiceCall
  stops : String → ServiceCall
  removes : String → ServiceCall
  writes : String → List ℕ → ℕ → ServiceCall
  reads : String → ℕ → ℕ → ServiceCall

module _ (P : AudioPlaybackDevice) (C : AudioCaptureDevice) where
  pub serve : ServiceCall → Service P C → Service P C
  serve (ServiceCall.creates stream) s = (create P C stream s).1
  serve (ServiceCall.prepares id) s = (prepare_stream P C id s).1
  serve (ServiceCall.starts id) s = (start_stream P C id s).1
  serve (ServiceCall.drains id) s = (drain_stream P C id s).1
  serve (ServiceCall.stops id) s = (stop_stream P C id s).1
  serve (ServiceCall.removes id) s = let (_, _, t) = remove P C id s in t
  serve (ServiceCall.writes id bytes ms) s = let (_, _, t) = write_stream P C id bytes ms s in t
  serve (ServiceCall.reads id max_bytes ms) s =
      let (_, _, t) = read_stream P C id max_bytes ms s in t

  pub serve_all : List ServiceCall → Service P C → Service P C
  unfolding serve
  serve_all [] s = s
  serve_all (c ∷ cs) s = serve_all cs (serve c s)

  -- Both maps have their keys in order, and no id is in both.
  pub record IsWellFormed (s : Service P C) : Type 0 where
    pub playback_sorted : IsSorted s.playback_sessions
    pub capture_sorted : IsSorted s.capture_sessions
    pub one_direction :
        (id : String) → (has id s.playback_sessions && has id s.capture_sessions) ≡ false

  create-IsWellFormed :
      (stream : AudioStream) (s : Service P C)
      → IsWellFormed s
      → IsWellFormed (create P C stream s).1
  unfolding create create_playback_session create_capture_session has_session
  create-IsWellFormed stream s h =
      let named : AudioStream = named_stream P C stream s in
      let p =
        new_session P.base named
          (make_device P C P.base "playback" (λ r. r.playback_factories) named s).1 in
      let c =
        new_session C.base named
          (make_device P C C.base "capture" (λ r. r.capture_factories) named s).1 in
      record {
        playback_sorted = ground (arith, emplace-IsSorted stream.id p s.playback_sessions);
        capture_sorted = ground (arith, emplace-IsSorted stream.id c s.capture_sessions);
        one_direction = λ id. ground (
          arith,
          h.one_direction id,
          find-emplace id stream.id p s.playback_sessions,
          find-emplace id stream.id c s.capture_sessions,
          compare_eq id stream.id,
        );
      }

  assign_playback-IsWellFormed :
      (id : String) (v : Session P.base) (s : Service P C)
      → has id s.playback_sessions ≡ true
      → IsWellFormed s
      → IsWellFormed (record s { playback_sessions = assign id v s.playback_sessions })
  assign_playback-IsWellFormed id v s here h = record {
    playback_sorted = assign-IsSorted id v s.playback_sessions h.playback_sorted;
    capture_sorted = h.capture_sorted;
    one_direction = λ other. ground (
      arith,
      h.one_direction other,
      find-assign other id v s.playback_sessions,
      compare_eq other id,
    );
  }

  assign_capture-IsWellFormed :
      (id : String) (v : Session C.base) (s : Service P C)
      → has id s.capture_sessions ≡ true
      → IsWellFormed s
      → IsWellFormed (record s { capture_sessions = assign id v s.capture_sessions })
  assign_capture-IsWellFormed id v s here h = record {
    playback_sorted = h.playback_sorted;
    capture_sorted = assign-IsSorted id v s.capture_sessions h.capture_sorted;
    one_direction = λ other. ground (
      arith,
      h.one_direction other,
      find-assign other id v s.capture_sessions,
      compare_eq other id,
    );
  }

  dispatch-IsWellFormed :
      (play : Session P.base → Status × Session P.base)
      (capture : Session C.base → Status × Session C.base) (id : String) (s : Service P C)
      → IsWellFormed s
      → IsWellFormed (dispatch P C play capture id s).1
  unfolding dispatch
  dispatch-IsWellFormed play capture id s h = elim (Option-cases (find id s.playback_sessions)) [
    | inl absent ↦ elim (Option-cases (find id s.capture_sessions)) [
      | inl nowhere ↦ rw (dispatch, absent, nowhere) h
      | inr (session, known) ↦
          rw (dispatch, absent, known)
            (assign_capture-IsWellFormed id (capture session).1 s (ground arith) h)
    ]
    | inr (session, known) ↦
        rw (dispatch, known) (assign_playback-IsWellFormed id (play session).1 s (ground arith) h)
  ]

  remove-IsWellFormed :
      (id : String) (s : Service P C)
      → IsWellFormed s
      → IsWellFormed (serve (ServiceCall.removes id) s)
  unfolding serve remove
  remove-IsWellFormed id s h = record {
    playback_sorted = ground (arith, erase-IsSorted id s.playback_sessions);
    capture_sorted = ground (arith, erase-IsSorted id s.capture_sessions);
    one_direction = λ other. ground (
      arith,
      h.one_direction other,
      find-erase other id s.playback_sessions,
      find-erase other id s.capture_sessions,
    );
  }

  serve-IsWellFormed :
      (c : ServiceCall) (s : Service P C) → IsWellFormed s → IsWellFormed (serve c s)
  unfolding serve prepare_stream start_stream stop_stream drain_stream write_stream read_stream
  serve-IsWellFormed (ServiceCall.creates stream) s h = create-IsWellFormed stream s h
  serve-IsWellFormed (ServiceCall.prepares id) s h =
      dispatch-IsWellFormed (prepare_playback P) (prepare_capture C) id s h
  serve-IsWellFormed (ServiceCall.starts id) s h =
      dispatch-IsWellFormed (start_playback P) (start_capture C) id s h
  serve-IsWellFormed (ServiceCall.drains id) s h =
      elim (Option-cases (find id s.playback_sessions)) [
        | inl absent ↦ rw (serve, drain_stream, absent) h
        | inr (session, known) ↦
            rw (serve, drain_stream, known)
              (assign_playback-IsWellFormed id (drain P session).1 s (ground arith) h)
      ]
  serve-IsWellFormed (ServiceCall.stops id) s h =
      dispatch-IsWellFormed (stop P.base) (stop C.base) id s h
  serve-IsWellFormed (ServiceCall.removes id) s h = remove-IsWellFormed id s h
  serve-IsWellFormed (ServiceCall.writes id bytes ms) s h =
      elim (Option-cases (find id s.playback_sessions)) [
        | inl absent ↦ rw (serve, write_stream, absent) h
        | inr (session, known) ↦
            let (_, _, session') = write_frames P bytes ms session in
            rw (serve, write_stream, known)
              (assign_playback-IsWellFormed id session' s (ground arith) h)
      ]
  serve-IsWellFormed (ServiceCall.reads id max_bytes ms) s h =
      elim (Option-cases (find id s.capture_sessions)) [
        | inl absent ↦ rw (serve, read_stream, absent) h
        | inr (session, known) ↦
            let (_, _, session') = read_frames C max_bytes ms session in
            rw (serve, read_stream, known)
              (assign_capture-IsWellFormed id session' s (ground arith) h)
      ]

  -- Whatever calls a service gets, and whatever the drivers and their factories answer: if no id
  -- has sessions of both directions and the maps are in key order before, as in a service without
  -- sessions, then so it is after.
  pub serve_all-IsWellFormed :
      (calls : List ServiceCall) (s : Service P C)
      → IsWellFormed s
      → IsWellFormed (serve_all calls s)
  unfolding serve_all
  serve_all-IsWellFormed [] s h = h
  serve_all-IsWellFormed (c ∷ cs) s h =
      serve_all-IsWellFormed cs (serve c s) (serve-IsWellFormed c s h)

  -- After `create`, in every case, `get` of the stream's id gives the stream with its driver and
  -- device names filled in if the call succeeded, and every other `get` gives what it gave before.
  pub get-create :
      (stream : AudioStream) (id : String) (s : Service P C)
      → let (status, t) = create P C stream s in
        get P C id t ≡ (
          if is_ok status && text_eq id stream.id
          then done (named_stream P C stream s)
          else get P C id s)
  unfolding create create_playback_session create_capture_session has_session get new_session
      snapshot
  get-create stream id s =
      let named : AudioStream = named_stream P C stream s in
      let p =
        new_session P.base named
          (make_device P C P.base "playback" (λ r. r.playback_factories) named s).1 in
      let c =
        new_session C.base named
          (make_device P C C.base "capture" (λ r. r.capture_factories) named s).1 in
      ground (
        arith,
        find-emplace id stream.id p s.playback_sessions,
        find-emplace id stream.id c s.capture_sessions,
        compare_eq id stream.id,
      )

  -- After `remove` in a service where no id has sessions of both directions, its id is unknown,
  -- every other id is as before, and the call succeeds exactly if the id was known.
  pub get-remove :
      (id other : String) (s : Service P C)
      → IsWellFormed s
      → let (status, _, t) = remove P C id s in
        (is_ok status ≡ has_session P C id s)
        × (get P C other t
            ≡ (if text_eq other id then fail (not_found P C other) else get P C other s))
  unfolding remove get has_session close
  get-remove id other s h = (
    ground arith,
    ground (
      arith,
      h.one_direction id,
      find-erase other id s.playback_sessions,
      find-erase other id s.capture_sessions,
      compare_eq other id,
    ),
  )
