-- ===== src/Rpc/Json/KeyOrder.antt =====
-- `std::string` as the key of a map: texts compare byte by byte.
use audio_studio.Prelude.{ℕ, ◌≡◌, refl, List, [], ◌∷◌, Ordering, arith}
use audio_studio.OrderedMap.{Key}
use audio_studio.Rpc.Json.{compare_keys}

pub compare_keys-eq : (a b : List ℕ) → compare_keys a b ≡ Ordering.eq → a ≡ b
unfolding compare_keys
compare_keys-eq [] [] h = refl
compare_keys-eq [] (d ∷ b) h = absurd (ground arith)
compare_keys-eq (c ∷ a) [] h = absurd (ground arith)
compare_keys-eq (c ∷ a) (d ∷ b) h = ground (arith, compare_keys-eq a b)

pub compare_keys_same : (a b : List ℕ) → a ≡ b → compare_keys a b ≡ Ordering.eq
unfolding compare_keys
compare_keys_same [] [] e = refl
compare_keys_same [] (d ∷ b) e = absurd (ground arith)
compare_keys_same (c ∷ a) [] e = absurd (ground arith)
compare_keys_same (c ∷ a) (d ∷ b) e = ground (arith, compare_keys_same a b)

pub compare_keys-swap :
    (a b : List ℕ) → compare_keys a b ≡ Ordering.lt → compare_keys b a ≡ Ordering.gt
unfolding compare_keys
compare_keys-swap [] [] h = absurd (ground arith)
compare_keys-swap [] (d ∷ b) h = refl
compare_keys-swap (c ∷ a) [] h = absurd (ground arith)
compare_keys-swap (c ∷ a) (d ∷ b) h = ground (arith, compare_keys-swap a b)

pub compare_keys-swap_gt :
    (a b : List ℕ) → compare_keys a b ≡ Ordering.gt → compare_keys b a ≡ Ordering.lt
unfolding compare_keys
compare_keys-swap_gt [] [] h = absurd (ground arith)
compare_keys-swap_gt [] (d ∷ b) h = absurd (ground arith)
compare_keys-swap_gt (c ∷ a) [] h = refl
compare_keys-swap_gt (c ∷ a) (d ∷ b) h = ground (arith, compare_keys-swap_gt a b)

pub compare_keys_trans :
    (a b c : List ℕ)
    → compare_keys a b ≡ Ordering.lt
    → compare_keys b c ≡ Ordering.lt
    → compare_keys a c ≡ Ordering.lt
unfolding compare_keys
compare_keys_trans a [] [] h k = absurd (ground arith)
compare_keys_trans [] b [] h k = absurd (ground arith)
compare_keys_trans [] [] (e ∷ c) h k = refl
compare_keys_trans [] (d ∷ b) (e ∷ c) h k = refl
compare_keys_trans (x ∷ a) [] c h k = absurd (ground arith)
compare_keys_trans (x ∷ a) (d ∷ b) [] h k = absurd (ground arith)
compare_keys_trans (x ∷ a) (d ∷ b) (e ∷ c) h k = ground (arith, compare_keys_trans a b c)

instance abbrev pub text_key : Key (List ℕ)
text_key = record {
  cmp = compare_keys;
  cmp_eq = λ a b. (compare_keys-eq a b, compare_keys_same a b);
  cmp_swap = compare_keys-swap;
  cmp_swap_gt = compare_keys-swap_gt;
  cmp_trans = compare_keys_trans;
}
