-- ===== src/OrderedMap/Laws.antt =====
-- What a lookup finds after each operation.
use audio_studio.Prelude.{◌≡◌, refl, true, none, some, [], ◌∷◌, if◌then◌else◌, arith}
use audio_studio.OrderedMap.{Key, OrderedMap, key_eq, find, emplace, assign, modify, erase}
use mathlib.Core.Option

module _ {ℓ} {K : Type ℓ} ⦃o : Key K⦄ where
  pub key_eq_refl : (k : K) → key_eq k k ≡ true
  key_eq_refl k = rw ((o.cmp_eq k k).1 refl, key_eq)

  pub key_eq-eq : (i k : K) → key_eq i k ≡ true → i ≡ k
  key_eq-eq i k h = (o.cmp_eq i k).0 (ground arith)

module _ {ℓ κ} {K : Type ℓ} {V : Type κ} ⦃o : Key K⦄ where
  pub find-emplace :
      (i k : K) (v : V) (m : OrderedMap K V)
      → find k m ≡ none
      → find i (emplace k v m) ≡ (if key_eq i k then some v else find i m)
  unfolding find emplace
  find-emplace i k v [] h = refl
  find-emplace i k v ((j, w) ∷ m) h =
      ground (arith, find-emplace i k v m, o.cmp_eq i k, o.cmp_eq k j, o.cmp_eq i j)

  pub find-modify :
      (i k : K) (f : V → V) (m : OrderedMap K V)
      → find i (modify k f m) ≡ (if key_eq i k then Option.map f (find i m) else find i m)
  unfolding find modify
  find-modify i k f [] = ground arith
  find-modify i k f ((j, w) ∷ m) =
      ground (arith, find-modify i k f m, o.cmp_eq i k, o.cmp_eq k j, o.cmp_eq i j)

  pub find-assign :
      (i k : K) (v : V) (m : OrderedMap K V)
      → find i (assign k v m) ≡ (if key_eq i k then some v else find i m)
  unfolding find assign
  find-assign i k v [] = refl
  find-assign i k v ((j, w) ∷ m) =
      ground (arith, find-assign i k v m, o.cmp_eq i k, o.cmp_eq k j, o.cmp_eq i j)

  pub find-erase :
      (i k : K) (m : OrderedMap K V) → find i (erase k m) ≡ (if key_eq i k then none else find i m)
  unfolding find erase
  find-erase i k [] = ground arith
  find-erase i k ((j, w) ∷ m) =
      ground (arith, find-erase i k m, o.cmp_eq i k, o.cmp_eq k j, o.cmp_eq i j)

  pub erase_absent : (k : K) (m : OrderedMap K V) → find k m ≡ none → erase k m ≡ m
  unfolding find erase
  erase_absent k [] h = refl
  erase_absent k ((j, w) ∷ m) h = ground (arith, erase_absent k m)

  pub erase-emplace :
      (k : K) (v : V) (m : OrderedMap K V) → find k m ≡ none → erase k (emplace k v m) ≡ m
  unfolding find emplace erase
  erase-emplace k v [] h = ground (arith, key_eq_refl k)
  erase-emplace k v ((j, w) ∷ m) h =
      ground (arith, key_eq_refl k, erase_absent k m, erase-emplace k v m)
