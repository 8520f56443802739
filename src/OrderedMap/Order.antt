-- ===== src/OrderedMap/Order.antt =====
-- The operations keep the keys in strict order, so no key occurs twice.
use audio_studio.Prelude.{◌≡◌, refl, [], ◌∷◌, Ordering, arith}
use audio_studio.OrderedMap.{Key, OrderedMap, emplace, assign, modify, erase}

module _ {ℓ κ} {K : Type ℓ} {V : Type κ} ⦃o : Key K⦄ where
  -- `k` stands before every key.
  abbrev pub IsAbove : K → OrderedMap K V → Type 0
  IsAbove k [] = Unit {0}
  IsAbove k ((j, v) ∷ m) = (o.cmp k j ≡ Ordering.lt) × IsAbove k m

  abbrev pub IsSorted : OrderedMap K V → Type 0
  IsSorted [] = Unit {0}
  IsSorted ((j, v) ∷ m) = IsAbove j m × IsSorted m

  IsAbove-trans :
      (a b : K) (m : OrderedMap K V) → o.cmp a b ≡ Ordering.lt → IsAbove b m → IsAbove a m
  IsAbove-trans a b [] h t = tt
  IsAbove-trans a b ((j, v) ∷ m) h t = (o.cmp_trans a b j h t.0, IsAbove-trans a b m h t.1)

  IsAbove-emplace :
      (a k : K) (v : V) (m : OrderedMap K V)
      → o.cmp a k ≡ Ordering.lt
      → IsAbove a m
      → IsAbove a (emplace k v m)
  unfolding emplace
  IsAbove-emplace a k v [] h t = (h, tt)
  IsAbove-emplace a k v ((j, w) ∷ m) h t = ground (arith, IsAbove-emplace a k v m)

  pub emplace-IsSorted :
      (k : K) (v : V) (m : OrderedMap K V) → IsSorted m → IsSorted (emplace k v m)
  unfolding emplace
  emplace-IsSorted k v [] s = (tt, tt)
  emplace-IsSorted k v ((j, w) ∷ m) s = ground (
    arith,
    IsAbove-trans k j m,
    IsAbove-emplace j k v m,
    emplace-IsSorted k v m,
    o.cmp_swap_gt k j,
  )

  IsAbove-assign :
      (a k : K) (v : V) (m : OrderedMap K V)
      → o.cmp a k ≡ Ordering.lt
      → IsAbove a m
      → IsAbove a (assign k v m)
  unfolding assign
  IsAbove-assign a k v [] h t = (h, tt)
  IsAbove-assign a k v ((j, w) ∷ m) h t = ground (arith, IsAbove-assign a k v m)

  pub assign-IsSorted : (k : K) (v : V) (m : OrderedMap K V) → IsSorted m → IsSorted (assign k v m)
  unfolding assign
  assign-IsSorted k v [] s = (tt, tt)
  assign-IsSorted k v ((j, w) ∷ m) s =
      ground (
        arith,
        IsAbove-trans k j m,
        IsAbove-assign j k v m,
        assign-IsSorted k v m,
        o.cmp_swap_gt k j,
      )

  IsAbove-modify :
      (a k : K) (f : V → V) (m : OrderedMap K V) → IsAbove a m → IsAbove a (modify k f m)
  unfolding modify
  IsAbove-modify a k f [] t = tt
  IsAbove-modify a k f ((j, w) ∷ m) t = ground (arith, IsAbove-modify a k f m)

  pub modify-IsSorted :
      (k : K) (f : V → V) (m : OrderedMap K V) → IsSorted m → IsSorted (modify k f m)
  unfolding modify
  modify-IsSorted k f [] s = tt
  modify-IsSorted k f ((j, w) ∷ m) s = ground (arith, IsAbove-modify j k f m, modify-IsSorted k f m)

  IsAbove-erase : (a k : K) (m : OrderedMap K V) → IsAbove a m → IsAbove a (erase k m)
  unfolding erase
  IsAbove-erase a k [] t = tt
  IsAbove-erase a k ((j, w) ∷ m) t = ground (arith, IsAbove-erase a k m)

  pub erase-IsSorted : (k : K) (m : OrderedMap K V) → IsSorted m → IsSorted (erase k m)
  unfolding erase
  erase-IsSorted k [] s = tt
  erase-IsSorted k ((j, w) ∷ m) s = ground (arith, IsAbove-erase j k m, erase-IsSorted k m)

  -- A key before all of a map's keys is none of them.
  pub modify_above : (k : K) (f : V → V) (m : OrderedMap K V) → IsAbove k m → modify k f m ≡ m
  unfolding modify
  modify_above k f [] t = refl
  modify_above k f ((j, w) ∷ m) t = ground (arith, modify_above k f m)

  pub erase_above : (k : K) (m : OrderedMap K V) → IsAbove k m → erase k m ≡ m
  unfolding erase
  erase_above k [] t = refl
  erase_above k ((j, w) ∷ m) t = ground (arith, erase_above k m)
