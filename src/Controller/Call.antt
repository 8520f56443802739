-- ===== src/Controller/Call.antt =====
-- C functions that return an `int`: 0 with what was written through the pointers is `ok`, any other
-- value `returns`. `overrun` is a write past the end of a buffer, where C has no meaning;
-- `out_of_fuel` belongs to the model only. The object that a function changes comes back on every path.
use audio_studio.Prelude.{Bool, true, false}
use audio_studio.Audio.Stream.{ℤ, negsuc}

pub data Outcome {ℓ} (A : Type ℓ) : Type ℓ where
  ok : A → Outcome A
  returns : ℤ → Outcome A
  overrun : Outcome A
  out_of_fuel : Outcome A

abbrev pub Call {ℓ κ} : Type ℓ → Type κ → Type (ℓ ⊔ κ)
Call S A = S → Outcome A × S

module _ {ℓ κ} {S : Type ℓ} {A : Type κ} where
  abbrev pub pure : A → Call S A
  pure a s = (ok a, s)

  abbrev pub gets : (S → A) → Call S A
  gets f s = (ok (f s), s)

  abbrev pub lift : Outcome A → Call S A
  lift r s = (r, s)

module _ {ℓ} {S : Type ℓ} where
  abbrev pub update : (S → S) → Call S (Unit {0})
  update f s = (ok tt, f s)

  -- `if (!test) return -1;`
  abbrev pub guard : Bool → Call S (Unit {0})
  guard true s = (ok tt, s)
  guard false s = (returns (negsuc 0), s)

module _ {ℓ κ κ'} {S : Type ℓ} {A : Type κ} {B : Type κ'} where
  abbrev pub continue : Outcome A → S → (A → Call S B) → Outcome B × S
  continue (ok a) s f = f a s
  continue (returns code) s f = (returns code, s)
  continue overrun s f = (overrun, s)
  continue out_of_fuel s f = (out_of_fuel, s)

  infixl 5 ◌>>=◌ ◌>>◌
  abbrev pub ◌>>=◌ : Call S A → (A → Call S B) → Call S B
  ◌>>=◌ m f s = let (r, s') = m s in continue r s' f

  abbrev pub ◌>>◌ : Call S A → Call S B → Call S B
  ◌>>◌ m k s = let (r, s') = m s in continue r s' (λ _. k)
