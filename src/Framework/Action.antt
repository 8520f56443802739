-- ===== src/Framework/Action.antt =====
-- Methods that change an object and may return early with a status: what was written before the
-- return stays written, so the state comes back on every path.
use audio_studio.Prelude.{Bool, true, false, ◌≢◌, refl, arith}
use audio_studio.Framework.Status.{Status, Result, done, fail, stuck, is_ok}

abbrev pub Action {ℓ κ} : Type ℓ → Type κ → Type (ℓ ⊔ κ)
Action S A = S → Result A × S

module _ {ℓ κ} {S : Type ℓ} {A : Type κ} where
  abbrev pub pure : A → Action S A
  pure a s = (done a, s)

  abbrev pub raise : Status → Action S A
  raise e s = (fail e, s)

  abbrev pub lift : Result A → Action S A
  lift r s = (r, s)

  abbrev pub gets : (S → A) → Action S A
  gets f s = (done (f s), s)

module _ {ℓ} {S : Type ℓ} where
  abbrev pub update : (S → S) → Action S (Unit {0})
  update f s = (done tt, f s)

  -- `if (!test) return status;`
  abbrev pub guard : Bool → Status → Action S (Unit {0})
  guard true e s = (done tt, s)
  guard false e s = (fail e, s)

  -- `if (!status.ok()) return status;`
  abbrev pub check : Status → Action S (Unit {0})
  check e = guard (is_ok e) e

module _ {ℓ κ κ'} {S : Type ℓ} {A : Type κ} {B : Type κ'} where
  abbrev pub continue : Result A → S → (A → Action S B) → Result B × S
  continue (done a) s f = f a s
  continue (fail e) s f = (fail e, s)
  continue stuck s f = (stuck, s)

  infixl 5 ◌>>=◌
  abbrev pub ◌>>=◌ : Action S A → (A → Action S B) → Action S B
  ◌>>=◌ m f s = let (r, s') = m s in continue r s' f

module _ {ℓ κ} {S : Type ℓ} {B : Type κ} where
  infixl 5 ◌>>◌
  abbrev pub ◌>>◌ : Action S (Unit {0}) → Action S B → Action S B
  ◌>>◌ m k s = let (r, s') = m s in continue r s' (λ _. k)

module _ {ℓ κ} {S : Type ℓ} {A : Type κ} where
  -- The status of a call that the code looks at, or drops, instead of returning it.
  abbrev pub observe : Action S A → Action S (Result A)
  observe m s =
      let (r, s') = m s in
      elim r [ done a ↦ (done (done a), s') | fail e ↦ (done (fail e), s') | stuck ↦ (stuck, s') ]

-- A chain of calls gets stuck only where one of them does.
pub continue-ne-stuck {ℓ κ κ'} :
    {S : Type ℓ} {A : Type κ} {B : Type κ'} (r : Result A) (s : S) (f : A → Action S B)
    → r ≢ stuck
    → ((a : A) → (f a s).0 ≢ stuck)
    → (continue r s f).0 ≢ stuck
continue-ne-stuck (done a) s f h k = k a
continue-ne-stuck (fail e) s f h k = ground arith
continue-ne-stuck stuck s f h k = absurd (h refl)
