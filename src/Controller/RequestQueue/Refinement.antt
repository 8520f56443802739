-- ===== src/Controller/RequestQueue/Refinement.antt =====
-- The ring is a queue of at most four requests, first in, first out.
use audio_studio.Prelude.{
  ℕ, zero, suc, ◌+◌, ◌-◌, ◌%◌, ◌≤◌, ◌<◌, ◌≡◌, ◌≢◌, refl, ap, sym, ◌∙◌, Option, none, some, List, [],
  ◌∷◌, ◌++◌, length, get_or, set, ltb, leb, ◌==◌, if◌then◌else◌, arith, ◌||◌, Bool-cases, inl, inr,
}
use audio_studio.Controller.TransportFrame.{Frame, max_payload}
use audio_studio.Controller.RequestQueue.{
  ChannelQueue, queue_depth, no_frame, queue_request, pop_request,
}

-- `n` requests from slot `i` on, round the ring.
unfoldable pub items : ℕ → ℕ → List Frame → List Frame
items zero i slots = []
items (suc n) i slots = get_or slots (i % queue_depth) no_frame ∷ items n (i + 1) slots

unfoldable pub requests : ChannelQueue → List Frame
unfolding items
requests q = items q.count q.head q.queue

pub record IsRing (q : ChannelQueue) : Type 0 where
  pub slots : length q.queue ≡ queue_depth
  pub head_inside : q.head < queue_depth
  pub filled : q.count ≤ queue_depth
  pub behind : q.tail ≡ (q.head + q.count) % queue_depth

length-set {ℓ} : {A : Type ℓ} (xs : List A) (i : ℕ) (v : A) → length (set xs i v) ≡ length xs
length-set [] i v = refl
length-set (x ∷ xs) zero v = refl
length-set (x ∷ xs) (suc i) v = ap suc (length-set xs i v)

get_or-set {ℓ} :
    {A : Type ℓ} (xs : List A) (i : ℕ) (v d : A) → i < length xs → get_or (set xs i v) i d ≡ v
get_or-set [] i v d h = absurd (omega arith)
get_or-set (x ∷ xs) zero v d h = refl
get_or-set (x ∷ xs) (suc i) v d h = get_or-set xs i v d (omega arith)

get_or-set_other {ℓ} :
    {A : Type ℓ} (xs : List A) (i j : ℕ) (v d : A) → i ≢ j → get_or (set xs i v) j d ≡ get_or xs j d
get_or-set_other [] i j v d h = refl
get_or-set_other (x ∷ xs) zero zero v d h = absurd (h refl)
get_or-set_other (x ∷ xs) zero (suc j) v d h = refl
get_or-set_other (x ∷ xs) (suc i) zero v d h = refl
get_or-set_other (x ∷ xs) (suc i) (suc j) v d h = get_or-set_other xs i j v d (omega arith)

length-items : (n i : ℕ) (slots : List Frame) → length (items n i slots) ≡ n
unfolding items
length-items zero i slots = refl
length-items (suc n) i slots = ap suc (length-items n (i + 1) slots)

items_snoc :
    (n i : ℕ) (slots : List Frame)
    → items (suc n) i slots ≡ items n i slots ++ get_or slots ((i + n) % queue_depth) no_frame ∷ []
unfolding items
items_snoc zero i slots = let e : i + 0 ≡ i = omega arith in rw e refl
items_snoc (suc n) i slots =
    let e : i + suc n ≡ i + 1 + n = omega arith in
    rw e (ap (◌∷◌ (get_or slots (i % queue_depth) no_frame)) (items_snoc n (i + 1) slots))

-- A write just behind the last request changes none of them.
items-set :
    (n i : ℕ) (slots : List Frame) (f : Frame)
    → n < queue_depth
    → items n i (set slots ((i + n) % queue_depth) f) ≡ items n i slots
unfolding items
items-set zero i slots f h = refl
items-set (suc n) i slots f h =
    let e : i + suc n ≡ i + 1 + n = omega arith in
    let other : (i + 1 + n) % 4 ≢ i % 4 = omega arith in
    rw
      (
        e,
        get_or-set_other slots ((i + 1 + n) % 4) (i % 4) f no_frame other,
        items-set n (i + 1) slots f (omega arith),
      )
      refl

-- The queue that the ring stands for: at most four requests, each with a payload that fits a packet.
unfoldable pub enqueue : List Frame → Frame → Option (List Frame)
enqueue fs f =
    if ltb max_payload (length f.payload) || leb queue_depth (length fs)
    then none
    else some (fs ++ f ∷ [])

unfoldable pub dequeue : List Frame → Option (Frame × List Frame)
dequeue [] = none
dequeue (f ∷ fs) = some (f, fs)

module _ (q : ChannelQueue) (ring : IsRing q) where
  abbrev grown : Frame → ChannelQueue
  grown f = record {
    queue = set q.queue q.tail f;
    head = q.head;
    tail = (q.tail + 1) % queue_depth;
    count = q.count + 1;
  }

  requests-grown : (f : Frame) → q.count < queue_depth → requests (grown f) ≡ requests q ++ f ∷ []
  unfolding requests
  requests-grown f h =
      let e : q.count + 1 ≡ suc q.count = omega arith in
      let slot : (q.head + q.count) % 4 < length q.queue = omega (arith, ring.slots) in
      rw
        (
          e,
          items_snoc q.count q.head (set q.queue q.tail f),
          ring.behind,
          items-set q.count q.head q.queue f h,
          get_or-set q.queue ((q.head + q.count) % 4) f no_frame slot,
        )
        refl

  length-requests : length (requests q) ≡ q.count
  unfolding requests
  length-requests = length-items q.count q.head q.queue

  pub grown-IsRing : (f : Frame) → q.count < queue_depth → IsRing (grown f)
  grown-IsRing f h = record {
    slots = length-set q.queue q.tail f ∙ ring.slots;
    head_inside = ring.head_inside;
    filled = omega arith;
    behind = omega (arith, ring.behind);
  }

  abbrev shrunk : ChannelQueue
  shrunk = record q { head = (q.head + 1) % queue_depth; count = q.count - 1 }

  pub shrunk-IsRing : 0 < q.count → IsRing shrunk
  shrunk-IsRing h = record {
    slots = ring.slots;
    head_inside = omega arith;
    filled = omega (arith, ring.filled);
    behind = omega (arith, ring.behind);
  }

items_round : (n i : ℕ) (slots : List Frame) → items n (i % queue_depth) slots ≡ items n i slots
unfolding items
items_round zero i slots = refl
items_round (suc n) i slots =
    let e : i % 4 % 4 ≡ i % 4 = omega arith in
    let k : (i % 4 + 1) % 4 ≡ (i + 1) % 4 = omega arith in
    rw
      (
        e,
        ap (◌∷◌ (get_or slots (i % 4) no_frame)) (
            sym (items_round n (i % 4 + 1) slots)
            ∙ (ap (λ j. items n j slots) k ∙ items_round n (i + 1) slots)),
      )
      refl

requests-shrunk :
    (q : ChannelQueue) (ring : IsRing q) (n : ℕ)
    → q.count ≡ suc n
    → requests q ≡ get_or q.queue q.head no_frame ∷ requests (shrunk q ring)
unfolding requests items
requests-shrunk q ring n e =
    let back : suc n - 1 ≡ n = omega arith in
    let here : q.head % 4 ≡ q.head = omega (arith, ring.head_inside) in
    rw (e, here, back, items_round n (q.head + 1) q.queue) refl

-- Where there is a result, its queue is a ring.
abbrev pub IsRingIn : Option ChannelQueue → Type 0
IsRingIn none = Unit
IsRingIn (some q) = IsRing q

abbrev pub seen : Option ChannelQueue → Option (List Frame)
seen none = none
seen (some q) = some (requests q)

abbrev pub popped : Option (Frame × ChannelQueue) → Option (Frame × List Frame)
popped none = none
popped (some (f, q)) = some (f, requests q)

abbrev pub left : Option (Frame × ChannelQueue) → Option ChannelQueue
left none = none
left (some (f, q)) = some q

queue_request-enqueue :
    (q : ChannelQueue)
    → IsRing q
    → (f : Frame)
    → (seen (queue_request q f) ≡ enqueue (requests q) f) × IsRingIn (queue_request q f)
unfolding queue_request enqueue
queue_request-enqueue q ring f =
    let n = length-requests q ring in
    elim (Bool-cases (ltb max_payload (length f.payload))) [
      | inl long ↦ rw long (refl, tt)
      | inr short ↦ elim (Bool-cases (leb queue_depth q.count)) [
        | inl full ↦ rw (short, n, full) (refl, tt)
        | inr room ↦
            let below : q.count < queue_depth = ground arith in
            rw (short, n, room)
              (ap some (requests-grown q ring f below), grown-IsRing q ring f below)
      ]
    ]

empty_requests : (q : ChannelQueue) → q.count ≡ 0 → requests q ≡ []
unfolding requests items
empty_requests q e = rw e refl

pop_request-dequeue :
    (q : ChannelQueue)
    → IsRing q
    → (popped (pop_request q) ≡ dequeue (requests q)) × IsRingIn (left (pop_request q))
unfolding pop_request dequeue
pop_request-dequeue q ring = elim (Bool-cases (q.count == 0)) [
  | inl idle ↦
      let e : q.count ≡ 0 = ground arith in
      let none_left : requests q ≡ [] = empty_requests q e in rw (idle, none_left) (refl, tt)
  | inr busy ↦
      let e : q.count ≡ suc (q.count - 1) = ground arith in
      rw (busy, requests-shrunk q ring (q.count - 1) e) (refl, shrunk-IsRing q ring (ground arith))
]

-- A ring of requests is a queue: queueing adds at the end, unless the payload is longer than a packet
-- allows or four requests wait, when it is refused; popping takes the first request, unless there is
-- none. Both leave a ring.
pub request_queue-refines :
    (q : ChannelQueue) (f : Frame)
    → IsRing q
    → ((seen (queue_request q f) ≡ enqueue (requests q) f) × IsRingIn (queue_request q f))
      × ((popped (pop_request q) ≡ dequeue (requests q)) × IsRingIn (left (pop_request q)))
request_queue-refines q f ring = (queue_request-enqueue q ring f, pop_request-dequeue q ring)
