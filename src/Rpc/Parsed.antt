-- ===== src/Rpc/Parsed.antt =====
-- The result of a function that may throw: the value, or the text of the `RpcFrameError`.
use audio_studio.Prelude.{String, Bool, true, false}

pub data Parsed {ℓ} (A : Type ℓ) : Type ℓ where
  parsed : A → Parsed A
  thrown : String → Parsed A

infixl 5 ◌>>=◌ ◌>>◌
abbrev pub ◌>>=◌ {ℓ κ} : {A : Type ℓ} {B : Type κ} → Parsed A → (A → Parsed B) → Parsed B
parsed a >>= f = f a
thrown e >>= f = thrown e

abbrev pub ◌>>◌ {ℓ} : {B : Type ℓ} → Parsed (Unit {0}) → Parsed B → Parsed B
m >> k = m >>= λ _. k

-- `if (!test) throw RpcFrameError(text);`
abbrev pub demand : Bool → String → Parsed (Unit {0})
demand true e = parsed tt
demand false e = thrown e
