-- ===== src/Framework/Status.antt =====
-- server/framework/common/include/status.hpp and src/status.cpp: the result of every operation.
use audio_studio.Prelude.{String, ◌≡◌, refl, ◌⊎◌, inl, inr, Bool, true, false, if◌then◌else◌}
use audio_studio.Framework.StatusCode.{StatusCode}
use Prim.Native.String.{◌++◌}

pub record Status : Type 0 where
  pub code : StatusCode
  pub message : String

abbrev pub success : Status
success = record { code = StatusCode.ok; message = "ok" }

abbrev pub invalid_argument : String → Status
invalid_argument message = record { code = StatusCode.invalid_argument; message = message }

abbrev pub unavailable : String → Status
unavailable message = record { code = StatusCode.unavailable; message = message }

abbrev pub internal : String → Status
internal message = record { code = StatusCode.internal; message = message }

abbrev pub is_ok_code : StatusCode → Bool
is_ok_code StatusCode.ok = true
is_ok_code _ = false

abbrev pub is_ok : Status → Bool
is_ok s = is_ok_code s.code

pub code_string : Status → String
code_string s = elim s.code [
  | StatusCode.ok ↦ "OK"
  | StatusCode.invalid_argument ↦ "INVALID_ARGUMENT"
  | StatusCode.unavailable ↦ "UNAVAILABLE"
  | StatusCode.internal ↦ "INTERNAL"
]

pub to_json : Status → String
unfolding code_string
to_json s =
    "{\"ok\":"
    ++ ((if is_ok s then "true" else "false")
        ++ (",\"code\":\"" ++ (code_string s ++ ("\",\"message\":\"" ++ (s.message ++ "\"}")))))

-- What an operation with an out parameter leaves: the value, or the status that it returned.
-- `stuck` is no value of the program: a loop of the model ran out of its fuel.
pub data Result {ℓ} (A : Type ℓ) : Type ℓ where
  done : A → Result A
  fail : Status → Result A
  stuck : Result A

infixl 5 ◌>>=◌ ◌>>◌
abbrev pub ◌>>=◌ {ℓ κ} : {A : Type ℓ} {B : Type κ} → Result A → (A → Result B) → Result B
done a >>= f = f a
fail s >>= f = fail s
stuck >>= f = stuck

abbrev pub ◌>>◌ {ℓ} : {B : Type ℓ} → Result (Unit {0}) → Result B → Result B
m >> k = m >>= λ _. k

-- `if (!test) return status;`
abbrev pub require : Bool → Status → Result (Unit {0})
require true s = done tt
require false s = fail s

pub Result-cases {ℓ} :
    {A : Type ℓ} (r : Result A)
    → ((a : A) × (r ≡ done a)) ⊎ (((e : Status) × (r ≡ fail e)) ⊎ (r ≡ stuck))
Result-cases (done a) = inl (a, refl)
Result-cases (fail e) = inr (inl (e, refl))
Result-cases stuck = inr (inr refl)
