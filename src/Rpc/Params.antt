-- ===== src/Rpc/Params.antt =====
-- rpc/src/json_rpc.cpp: `requireObjectParams` to `optionalBoolParam`, which a method reads its
-- parameters with.
use audio_studio.Prelude.{ℕ, ◌%◌, ◌^◌, Bool, none, some, List, ◌++◌}
use audio_studio.Rpc.Json.{JsonValue, bool, number, string, object, find}
use audio_studio.Rpc.Json.Numerals.{as_uint64}
use audio_studio.Rpc.Json.Scan.{codes}
use audio_studio.Rpc.Client.{Outcome, returned, raised, and_then, invalid_params}

unfoldable pub require_object_params : JsonValue → List ℕ → Outcome JsonValue
require_object_params (object fields) method = returned (object fields)
require_object_params params method =
    raised invalid_params (method ++ codes " expects named object params")

unfoldable pub require_string_param : JsonValue → List ℕ → Outcome (List ℕ)
unfolding find
require_string_param (object fields) name = elim (find name fields) [
  | none ↦ raised invalid_params (codes "missing string param: " ++ name)
  | some v ↦ elim v [
    | string text ↦ returned text
    | _ ↦ raised invalid_params (codes "missing string param: " ++ name)
  ]
]
require_string_param params name =
    raised invalid_params (name ++ codes " expects named object params")

-- The number at a key, cut to `width` bits.
unfoldable pub optional_uint_param : ℕ → JsonValue → List ℕ → ℕ → Outcome ℕ
unfolding find as_uint64 and_then
optional_uint_param width (object fields) name fallback = elim (find name fields) [
  | none ↦ returned fallback
  | some v ↦ elim v [
    | number raw ↦ and_then (as_uint64 (number raw)) (λ n. returned (n % 2 ^ width))
    | _ ↦ raised invalid_params (codes "param must be number: " ++ name)
  ]
]
optional_uint_param width params name fallback = returned fallback

unfoldable pub optional_uint32_param : JsonValue → List ℕ → ℕ → Outcome ℕ
unfolding optional_uint_param
optional_uint32_param params name fallback = optional_uint_param 32 params name fallback

unfoldable pub optional_uint16_param : JsonValue → List ℕ → ℕ → Outcome ℕ
unfolding optional_uint_param
optional_uint16_param params name fallback = optional_uint_param 16 params name fallback

unfoldable pub optional_bool_param : JsonValue → List ℕ → Bool → Outcome Bool
unfolding find
optional_bool_param (object fields) name fallback = elim (find name fields) [
  | none ↦ returned fallback
  | some v ↦ elim v [
    | bool b ↦ returned b
    | _ ↦ raised invalid_params (codes "param must be boolean: " ++ name)
  ]
]
optional_bool_param params name fallback = returned fallback
