-- ===== src/Prelude/Texts.antt =====
-- Order of native strings, character by character.
use Prim.Native.Nat.{compare as compare_ℕ, Ordering}
use Prim.Native.Char.{Char, code}
use Prim.Native.String.{String, [], ◌∷◌, compare, then}
use Prim.Native.String.compare
use text.Mathlib.TextPositions.{compare_refl}
use text.Mathlib.TextEquality.{path_by_compare}
use mathlib.Core.Path.{◌≡◌}
use mathlib.Core.Logic.{◌↔◌}
use mathlib.Core.Bool.{Bool, true, false}
use native.Mathlib.Omega.{arith}

compare-cons :
    (c d : Char) (s t : String)
    → compare (c ∷ s) (d ∷ t) ≡ then (compare_ℕ (code c) (code d)) (compare s t)
compare-cons c d s t = compare.cons-cons c d s t

nil-compare : (c : Char) (s : String) → compare [] (c ∷ s) ≡ Ordering.lt
nil-compare c s = compare.nil-cons c s

compare-nil : (c : Char) (s : String) → compare (c ∷ s) [] ≡ Ordering.gt
compare-nil c s = compare.cons-nil c s

pub compare_swap : (s t : String) → compare s t ≡ Ordering.lt → compare t s ≡ Ordering.gt
compare_swap [] [] h = cc
compare_swap [] (d ∷ t) h = compare-nil d t
compare_swap (c ∷ s) [] h = cc (compare-nil c s)
compare_swap (c ∷ s) (d ∷ t) h =
    ground (arith, compare-cons c d s t, compare-cons d c t s, compare_swap s t)

pub compare_swap_gt : (s t : String) → compare s t ≡ Ordering.gt → compare t s ≡ Ordering.lt
compare_swap_gt [] [] h = cc
compare_swap_gt [] (d ∷ t) h = cc (nil-compare d t)
compare_swap_gt (c ∷ s) [] h = nil-compare c s
compare_swap_gt (c ∷ s) (d ∷ t) h =
    ground (arith, compare-cons c d s t, compare-cons d c t s, compare_swap_gt s t)

pub compare_trans :
    (s t u : String)
    → compare s t ≡ Ordering.lt
    → compare t u ≡ Ordering.lt
    → compare s u ≡ Ordering.lt
compare_trans s [] [] h k = cc
compare_trans [] [] (e ∷ u) h k = nil-compare e u
compare_trans (c ∷ s) [] (e ∷ u) h k = cc (compare-nil c s)
compare_trans [] (d ∷ t) [] h k = cc (compare-nil d t)
compare_trans [] (d ∷ t) (e ∷ u) h k = nil-compare e u
compare_trans (c ∷ s) (d ∷ t) [] h k = cc (compare-nil d t)
compare_trans (c ∷ s) (d ∷ t) (e ∷ u) h k =
    ground
      (arith, compare-cons c d s t, compare-cons d e t u, compare-cons c e s u, compare_trans s t u)

pub compare_eq : (s t : String) → (compare s t ≡ Ordering.eq) ↔ (s ≡ t)
compare_eq s t = (path_by_compare s t, λ e. rw e (compare_refl t))

abbrev pub text_eq : String → String → Bool
text_eq s t = elim (compare s t) [ Ordering.eq ↦ true | _ ↦ false ]

abbrev pub is_empty : String → Bool
is_empty text = text_eq text ""
