-- ===== src/Rpc/Json/Scan.antt =====
-- rpc/src/json_value.cpp, the `Parser`'s position and its helpers: a parser takes the input that is
-- left and returns what it read and the input left then. `failed` is a `JsonParseError`: its text,
-- and the input left, which tells the byte it names. `out_of_fuel` belongs to the model only.
use Prim.Native.Char.{code}
use audio_studio.Prelude.{
  ℕ, String, Bool, false, ◌&&◌, ◌||◌, List, [], ◌∷◌, ◌++◌, leb, ◌==◌, if◌then◌else◌,
}

pub data Scan {ℓ} (A : Type ℓ) : Type ℓ where
  ok : A → List ℕ → Scan A
  failed : List ℕ → List ℕ → Scan A
  out_of_fuel : Scan A

abbrev pub Parser {ℓ} : Type ℓ → Type ℓ
Parser A = List ℕ → Scan A

abbrev pub and_then {ℓ κ} : {A : Type ℓ} {B : Type κ} → Scan A → (A → List ℕ → Scan B) → Scan B
and_then (ok a rest) f = f a rest
and_then (failed message at) f = failed message at
and_then out_of_fuel f = out_of_fuel

infixl 5 ◌>>=◌ ◌>>◌
abbrev pub ◌>>=◌ {ℓ κ} : {A : Type ℓ} {B : Type κ} → Parser A → (A → Parser B) → Parser B
p >>= f = λ ts. and_then (p ts) f

abbrev pub ◌>>◌ {ℓ κ} : {A : Type ℓ} {B : Type κ} → Parser A → Parser B → Parser B
p >> q = p >>= λ _. q

abbrev pub pure {ℓ} : {A : Type ℓ} → A → Parser A
pure a ts = ok a ts

abbrev pub run {ℓ} : {A : Type ℓ} → List ℕ → Parser A → Scan A
run ts p = p ts

-- The bytes of a text of the source.
abbrev pub codes : String → List ℕ
codes String.[] = []
codes (String.◌∷◌ c s) = code c ∷ codes s

unfoldable pub fail {ℓ} : {A : Type ℓ} → String → Parser A
fail message ts = failed (codes message) ts

-- `std::isspace` and `std::isdigit` of the C locale
abbrev pub is_space : ℕ → Bool
is_space ch = ch == b' ' || leb b'\t' ch && leb ch b'\r'

abbrev pub is_digit : ℕ → Bool
is_digit ch = leb b'0' ch && leb ch b'9'

unfoldable pub skip_space : List ℕ → List ℕ
skip_space [] = []
skip_space (ch ∷ ts) = let rest = skip_space ts in if is_space ch then rest else ch ∷ ts

abbrev pub peek : List ℕ → ℕ
peek [] = 0
peek (ch ∷ ts) = ch

-- The test of `consume(expected)`; what it leaves is `tail`.
abbrev pub starts : ℕ → List ℕ → Bool
starts expected [] = false
starts expected (ch ∷ ts) = ch == expected

abbrev pub tail : List ℕ → List ℕ
tail [] = []
tail (ch ∷ ts) = ts

-- `consume(expected)`, its result left unused
abbrev pub consume : ℕ → List ℕ → List ℕ
consume expected ts = if starts expected ts then tail ts else ts

unfoldable pub expect : ℕ → Parser (Unit {0})
expect expected ts =
    if starts expected ts
    then ok tt (tail ts)
    else failed (codes "expected JSON character '" ++ expected ∷ b'\'' ∷ []) ts
