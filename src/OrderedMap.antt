-- ===== src/OrderedMap.antt =====
-- std::map as the code uses it: entries in key order, found and inserted by comparison.
pub mod Laws
pub mod Order
use audio_studio.Prelude.{
  ℕ, String, ◌≡◌, ◌↔◌, Bool, true, false, Option, none, some, List, [], ◌∷◌, Ordering, compare,
  if◌then◌else◌, arith,
}
use audio_studio.Prelude.Texts.{compare_eq, compare_swap, compare_swap_gt, compare_trans}
use Prim.Native.String.{compare as compare_text}

-- The strict weak order by which a map keeps its keys.
pub record Key {ℓ} (K : Type ℓ) : Type ℓ where
  pub cmp : K → K → Ordering
  pub cmp_eq : (a b : K) → (cmp a b ≡ Ordering.eq) ↔ (a ≡ b)
  pub cmp_swap : (a b : K) → cmp a b ≡ Ordering.lt → cmp b a ≡ Ordering.gt
  pub cmp_swap_gt : (a b : K) → cmp a b ≡ Ordering.gt → cmp b a ≡ Ordering.lt
  pub cmp_trans :
      (a b c : K) → cmp a b ≡ Ordering.lt → cmp b c ≡ Ordering.lt → cmp a c ≡ Ordering.lt

pub compare_ℕ-eq : (a b : ℕ) → (compare a b ≡ Ordering.eq) ↔ (a ≡ b)
compare_ℕ-eq a b = ground arith

pub compare_ℕ-swap : (a b : ℕ) → compare a b ≡ Ordering.lt → compare b a ≡ Ordering.gt
compare_ℕ-swap a b h = ground arith

pub compare_ℕ-swap_gt : (a b : ℕ) → compare a b ≡ Ordering.gt → compare b a ≡ Ordering.lt
compare_ℕ-swap_gt a b h = ground arith

pub compare_ℕ-trans :
    (a b c : ℕ) → compare a b ≡ Ordering.lt → compare b c ≡ Ordering.lt → compare a c ≡ Ordering.lt
compare_ℕ-trans a b c h k = ground arith

instance abbrev pub nat_key : Key ℕ
nat_key = record {
  cmp = compare;
  cmp_eq = compare_ℕ-eq;
  cmp_swap = compare_ℕ-swap;
  cmp_swap_gt = compare_ℕ-swap_gt;
  cmp_trans = compare_ℕ-trans;
}

instance abbrev pub string_key : Key String
string_key = record {
  cmp = compare_text;
  cmp_eq = compare_eq;
  cmp_swap = compare_swap;
  cmp_swap_gt = compare_swap_gt;
  cmp_trans = compare_trans;
}

abbrev pub OrderedMap {ℓ κ} : Type ℓ → Type κ → Type (ℓ ⊔ κ)
OrderedMap K V = List (K × V)

abbrev pub key_eq {ℓ} : {K : Type ℓ} ⦃o : Key K⦄ → K → K → Bool
key_eq ⦃o⦄ a b = elim (o.cmp a b) [ Ordering.eq ↦ true | _ ↦ false ]

abbrev pub is_some {ℓ} : {A : Type ℓ} → Option A → Bool
is_some none = false
is_some (some a) = true

module _ {ℓ κ} {K : Type ℓ} {V : Type κ} ⦃o : Key K⦄ where
  unfoldable pub find : K → OrderedMap K V → Option V
  find k [] = none
  find k ((j, v) ∷ m) = if key_eq k j then some v else find k m

  -- `emplace` keeps an entry that is there already.
  unfoldable pub emplace : K → V → OrderedMap K V → OrderedMap K V
  emplace k v [] = (k, v) ∷ []
  emplace k v ((j, w) ∷ m) = elim (o.cmp k j) [
    | Ordering.lt ↦ (k, v) ∷ (j, w) ∷ m
    | Ordering.eq ↦ (j, w) ∷ m
    | Ordering.gt ↦ (j, w) ∷ emplace k v m
  ]

  -- `m[k] = v`
  unfoldable pub assign : K → V → OrderedMap K V → OrderedMap K V
  assign k v [] = (k, v) ∷ []
  assign k v ((j, w) ∷ m) = elim (o.cmp k j) [
    | Ordering.lt ↦ (k, v) ∷ (j, w) ∷ m
    | Ordering.eq ↦ (j, v) ∷ m
    | Ordering.gt ↦ (j, w) ∷ assign k v m
  ]

  -- A write through an iterator to the entry of `k`.
  unfoldable pub modify : K → (V → V) → OrderedMap K V → OrderedMap K V
  modify k f [] = []
  modify k f ((j, v) ∷ m) =
      let rest = modify k f m in if key_eq k j then (j, f v) ∷ rest else (j, v) ∷ rest

  unfoldable pub erase : K → OrderedMap K V → OrderedMap K V
  erase k [] = []
  erase k ((j, v) ∷ m) = let rest = erase k m in if key_eq k j then rest else (j, v) ∷ rest

  abbrev pub has : K → OrderedMap K V → Bool
  has k m = is_some (find k m)

abbrev pub values {ℓ κ} : {K : Type ℓ} {V : Type κ} → OrderedMap K V → List V
values [] = []
values ((k, v) ∷ m) = v ∷ values m

abbrev pub keys {ℓ κ} : {K : Type ℓ} {V : Type κ} → OrderedMap K V → List K
keys [] = []
keys ((k, v) ∷ m) = k ∷ keys m
