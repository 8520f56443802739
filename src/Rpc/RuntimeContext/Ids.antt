-- ===== src/Rpc/RuntimeContext/Ids.antt =====
-- The names of sessions and their numbers belong together.
use audio_studio.Prelude.{
  ℕ, ◌+◌, ◌^◌, ◌<◌, ◌≤◌, ◌≡◌, inl, inr, none, some, List, [], ◌∷◌, length, if◌then◌else◌,
  Option-cases, Bool-cases, arith,
}
use audio_studio.OrderedMap.{nat_key, key_eq, find, emplace}
use audio_studio.OrderedMap.Laws.{key_eq_refl, key_eq-eq, find-emplace, find-erase}
use audio_studio.Rpc.Json.KeyOrder.{text_key}
use audio_studio.Rpc.RuntimeContext.{
  RpcRuntimeContext, new_context, count_id, next_session_id, numeric_session_id, numeric_stream_id,
  release_session,
}

-- A name has a number just where the number has that name, and numbers are below the next one.
pub record IsConsistent (c : RpcRuntimeContext) : Type 0 where
  pub named :
      (s : List ℕ) (n : ℕ) → find s c.session_ids ≡ some n → find n c.numeric_sessions ≡ some s
  pub numbered :
      (s : List ℕ) (n : ℕ) → find n c.numeric_sessions ≡ some s → find s c.session_ids ≡ some n
  pub below : (s : List ℕ) (n : ℕ) → find s c.session_ids ≡ some n → n < c.next_id

-- The calls that change the maps or the counter.
pub data Call : Type 0 where
  next : List ℕ → Call
  session : List ℕ → Call
  stream : List ℕ → Call
  release : List ℕ → Call

unfoldable pub step : Call → RpcRuntimeContext → RpcRuntimeContext
unfolding next_session_id numeric_session_id numeric_stream_id release_session
step (next prefix) c = (next_session_id prefix c).1
step (session s) c = (numeric_session_id s c).1
step (stream s) c = (numeric_stream_id s c).1
step (release s) c = release_session s c

unfoldable pub run : List Call → RpcRuntimeContext → RpcRuntimeContext
unfolding step
run [] c = c
run (call ∷ calls) c = run calls (step call c)

count_id-IsConsistent :
    (c : RpcRuntimeContext) → c.next_id + 1 < 2 ^ 32 → IsConsistent c → IsConsistent (count_id c)
count_id-IsConsistent c small ok = record {
  named = ok.named;
  numbered = ok.numbered;
  below = λ s n e. (let b : n < c.next_id = ok.below s n e in omega arith);
}

-- A new name and the next number.
added : List ℕ → RpcRuntimeContext → RpcRuntimeContext
added s c = record (count_id c) {
  session_ids = emplace s c.next_id c.session_ids;
  numeric_sessions = emplace c.next_id s c.numeric_sessions;
}

-- The next number has no name yet.
unused : (c : RpcRuntimeContext) → IsConsistent c → find c.next_id c.numeric_sessions ≡ none
unused c ok = elim (Option-cases (find c.next_id c.numeric_sessions)) [
  | inl absent ↦ absent
  | inr (s, e) ↦ absurd (
      let b : c.next_id < c.next_id = ok.below s c.next_id (ok.numbered s c.next_id e) in
      omega arith)
]

module _ (s : List ℕ) (c : RpcRuntimeContext) (ok : IsConsistent c) where
  -- What is found behind a new name.
  module _ (absent : find s c.session_ids ≡ none) where
    names_after :
        (t : List ℕ)
        → find t (added s c).session_ids
          ≡ (if key_eq t s then some c.next_id else find t c.session_ids)
    unfolding added
    names_after t = find-emplace t s c.next_id c.session_ids absent

    numbers_after :
        (n : ℕ)
        → find n (added s c).numeric_sessions
          ≡ (if key_eq n c.next_id then some s else find n c.numeric_sessions)
    unfolding added
    numbers_after n = find-emplace n c.next_id s c.numeric_sessions (unused c ok)

    added-named :
        (t : List ℕ) (n : ℕ)
        → find t (added s c).session_ids ≡ some n
        → find n (added s c).numeric_sessions ≡ some t
    added-named t n e = elim (Bool-cases (key_eq t s)) [
      | inl same ↦ rw (numbers_after n) (ground (arith, names_after t, key_eq-eq t s same))
      | inr other ↦ rw (numbers_after n) (ground (arith, names_after t, ok.named t n, ok.below t n))
    ]

    added-numbered :
        (t : List ℕ) (n : ℕ)
        → find n (added s c).numeric_sessions ≡ some t
        → find t (added s c).session_ids ≡ some n
    added-numbered t n e = elim (Bool-cases (key_eq n c.next_id)) [
      | inl same ↦ rw (names_after t) (ground (arith, numbers_after n, key_eq_refl s))
      | inr other ↦
          rw (names_after t)
            (ground (arith, numbers_after n, ok.numbered t n, absent, key_eq-eq t s))
    ]

    added-IsConsistent : c.next_id + 1 < 2 ^ 32 → IsConsistent (added s c)
    unfolding added
    added-IsConsistent small = record {
      named = added-named;
      numbered = added-numbered;
      below = λ t n e. ground (arith, names_after t, ok.below t n);
    }

  released-IsConsistent : IsConsistent (release_session s c)
  unfolding release_session
  released-IsConsistent = elim (Option-cases (find s c.session_ids)) [
    | inl absent ↦ record {
      named = λ t n e. ground (arith, find-erase t s c.session_ids, ok.named t n, absent);
      numbered = λ t n e.
          ground (arith, find-erase t s c.session_ids, ok.numbered t n, absent, key_eq-eq t s);
      below = λ t n e. ground (arith, find-erase t s c.session_ids, ok.below t n);
    }
    | inr (id, known) ↦ record {
      named = λ t n e. ground (
        arith,
        find-erase t s c.session_ids,
        find-erase n id c.numeric_sessions,
        ok.named t n,
        ok.named s id,
        known,
        key_eq_refl s,
      );
      numbered = λ t n e. ground (
        arith,
        find-erase t s c.session_ids,
        find-erase n id c.numeric_sessions,
        ok.numbered t n,
        ok.named s id,
        known,
        key_eq-eq t s,
      );
      below = λ t n e. ground (arith, find-erase t s c.session_ids, ok.below t n);
    }
  ]

step-IsConsistent :
    (call : Call) (c : RpcRuntimeContext)
    → c.next_id + 1 < 2 ^ 32
    → IsConsistent c
    → IsConsistent (step call c)
unfolding step next_session_id numeric_session_id numeric_stream_id added
step-IsConsistent (next prefix) c small ok = count_id-IsConsistent c small ok
step-IsConsistent (release s) c small ok = released-IsConsistent s c ok
step-IsConsistent (session s) c small ok = elim (Option-cases (find s c.session_ids)) [
  | inl absent ↦ rw (step, numeric_session_id, absent) (added-IsConsistent s c ok absent small)
  | inr (id, known) ↦ rw (step, numeric_session_id, known) ok
]
step-IsConsistent (stream s) c small ok = elim (Option-cases (find s c.stream_ids)) [
  | inl absent ↦
      let k : IsConsistent (count_id c) = count_id-IsConsistent c small ok in
      rw (step, numeric_stream_id, absent)
        (record { named = k.named; numbered = k.numbered; below = k.below })
  | inr (id, known) ↦ rw (step, numeric_stream_id, known) ok
]

step-next_id : (call : Call) (c : RpcRuntimeContext) → (step call c).next_id ≤ c.next_id + 1
unfolding step next_session_id numeric_session_id numeric_stream_id release_session
step-next_id (next prefix) c = omega arith
step-next_id (session s) c = ground arith
step-next_id (stream s) c = ground arith
step-next_id (release s) c = omega arith

run_within :
    (calls : List Call) (c : RpcRuntimeContext)
    → c.next_id + length calls < 2 ^ 32
    → IsConsistent c
    → IsConsistent (run calls c)
unfolding run
run_within [] c small ok = ok
run_within (call ∷ calls) c small ok =
    run_within calls (step call c) (omega (arith, step-next_id call c))
      (step-IsConsistent call c (omega arith) ok)

-- After any calls on a new context, fewer than 2 ^ 32 - 1, a name of a session has a number just
-- where `sessionIdForNumeric` gives that name for the number, so no two sessions have one number, and
-- a number is below the next one.
pub run-IsConsistent :
    (calls : List Call) → length calls + 1 < 2 ^ 32 → IsConsistent (run calls new_context)
unfolding find
run-IsConsistent calls small = run_within calls new_context (omega arith) (record {
  named = λ s n e. absurd (ground arith);
  numbered = λ s n e. absurd (ground arith);
  below = λ s n e. absurd (ground arith);
})
