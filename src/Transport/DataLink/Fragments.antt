-- ===== src/Transport/DataLink/Fragments.antt =====
-- The fragments of a packet, and the packet that they fill.
use audio_studio.Prelude.{
  ℕ, zero, suc, ◌+◌, ◌-◌, ◌*◌, ◌/◌, ◌≤◌, ◌<◌, ◌≡◌, refl, ap, List, [], ◌∷◌, ◌++◌, length, take,
  drop, replicate, append-nil, take_all, length-take, length-append, length-replicate, arith,
}
use audio_studio.Transport.DataLink.Send.{fragment_count}
use audio_studio.Transport.DataLink.Receive.{splice}
use native.Mathlib.Nat.{div-add-mod', mod-lt, mul-le-mul_right}

-- A packet whose first `n` bytes have arrived; the receiver starts it with zeros.
unfoldable pub filled : List ℕ → ℕ → List ℕ
filled payload n = take n payload ++ replicate (length payload - n) 0

pub filled-zero : (payload : List ℕ) → filled payload 0 ≡ replicate (length payload) 0
unfolding filled
filled-zero payload = ap (λ n. replicate n 0) (omega arith)

pub filled_all : (payload : List ℕ) (n : ℕ) → length payload ≤ n → filled payload n ≡ payload
unfolding filled
filled_all payload n h =
    let e : length payload - n ≡ 0 = omega arith in
    rw (e, take_all n payload h) (append-nil payload)

pub length-filled : (payload : List ℕ) (n : ℕ) → length (filled payload n) ≡ length payload
unfolding filled
length-filled payload n = omega (
  arith,
  length-append {0} (take n payload) (replicate (length payload - n) 0),
  length-take {0} n payload,
  length-replicate {0} {A = ℕ} (length payload - n) 0,
)

drop-replicate : (n m a : ℕ) → drop n (replicate (n + m) a) ≡ replicate m a
drop-replicate zero m a = ap (λ k. replicate k a) (omega arith)
drop-replicate (suc n) m a =
    let e : suc n + m ≡ suc (n + m) = omega arith in rw e (drop-replicate n m a)

pub splice-filled :
    (payload : List ℕ) (offset n : ℕ)
    → offset + n ≤ length payload
    → splice (filled payload offset) offset (take n (drop offset payload))
      ≡ filled payload (offset + n)
unfolding filled
splice-filled payload zero n h =
    let arrived : 0 + length (take n payload) ≡ n = omega (arith, length-take {0} n payload) in
    let e : length payload - 0 ≡ n + (length payload - n) = omega arith in
    let k : 0 + n ≡ n = omega arith in
    rw (arrived, e, drop-replicate n (length payload - n) 0, k) refl
splice-filled [] (suc offset) n h = absurd (omega arith)
splice-filled (x ∷ payload) (suc offset) n h =
    let chunk : ℕ = length (take n (drop offset payload)) in
    let e1 : suc (length payload) - suc offset ≡ length payload - offset = omega arith in
    let e2 : suc offset + chunk ≡ suc (offset + chunk) = omega arith in
    let e3 : suc offset + n ≡ suc (offset + n) = omega arith in
    let e4 : suc (length payload) - suc (offset + n) ≡ length payload - (offset + n) =
      omega arith in
    rw (e1, e2, e3, e4) (ap (◌∷◌ x) (splice-filled payload offset n (omega arith)))

ceiling-bounds :
    (size capacity : ℕ)
    → 0 < capacity
    → let q = (size + capacity - 1) / capacity in
      (q * capacity ≤ size + capacity - 1) × (size ≤ q * capacity)
ceiling-bounds size capacity pos =
    let q : ℕ = (size + capacity - 1) / capacity in
    let split = div-add-mod' (size + capacity - 1) capacity in
    let small = mod-lt (size + capacity - 1) pos in (omega arith, omega arith)

below-multiple :
    (size capacity index q : ℕ)
    → q * capacity ≤ size + capacity - 1
    → suc index < q
    → 0 < capacity
    → suc index * capacity ≤ size
below-multiple size capacity index q bound h pos =
    let more : (suc index + 1) * capacity ≤ q * capacity =
      mul-le-mul_right capacity (omega arith) in
    omega arith

-- A fragment starts inside the packet, and the fragments cover it.
pub offset-le :
    (size capacity index : ℕ)
    → 0 < capacity
    → index < fragment_count size capacity
    → index * capacity ≤ size
offset-le size capacity zero pos h = omega arith
offset-le size capacity (suc index) pos h =
    below-multiple size capacity index ((size + capacity - 1) / capacity)
      (ceiling-bounds size capacity pos).0 (omega arith) pos

pub size-le : (size capacity : ℕ) → 0 < capacity → size ≤ fragment_count size capacity * capacity
size-le size capacity pos =
    let q : ℕ = (size + capacity - 1) / capacity in
    let more : q * capacity ≤ fragment_count size capacity * capacity =
      mul-le-mul_right capacity (omega arith) in
    omega (arith, (ceiling-bounds size capacity pos).1)
