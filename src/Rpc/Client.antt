-- ===== src/Rpc/Client.antt =====
-- rpc/src/json_rpc.cpp and rpc/include/json_rpc.hpp: `JsonRpcClient`, over a transport that is a
-- function from requests to responses on a state of its own, and the helpers for parameters.
pub mod InProcess
use audio_studio.Prelude.{
  ℕ, zero, suc, ◌+◌, ◌-◌, ◌%◌, ◌^◌, Bool, true, false, if◌then◌else◌, Option, none, some, List, [],
  ◌∷◌, ◌++◌, String, ltb,
}
use audio_studio.Audio.Stream.{ℤ, pos, negsuc}
use audio_studio.Rpc.Json.{JsonValue, Fields, null, number, string, object, no_fields, find}
use audio_studio.Rpc.Json.Numerals.{decimal, as_uint64, as_int64}
use audio_studio.Rpc.Json.Access.{
  Accessed, value, logic_error, missing, as_bool, as_string, has, at, put,
}
use audio_studio.Rpc.Json.Scan.{ok, failed, out_of_fuel, codes}
use audio_studio.Rpc.Json.Parser.{parse_json}
use audio_studio.Rpc.Json.Dump.{dump}
use audio_studio.Rpc.Endpoint.{JsonRpcEndpoint, handle_request, internal_error, what}

-- What a call returns or throws: a `JsonRpcError`, a `JsonParseError`, or what an accessor throws.
-- The parser never gives `stuck`.
pub data Outcome {ℓ} (A : Type ℓ) : Type ℓ where
  returned : A → Outcome A
  raised : ℤ → List ℕ → Outcome A
  parse_failed : List ℕ → Outcome A
  refused : Accessed A → Outcome A
  stuck : Outcome A

abbrev pub invalid_params : ℤ
invalid_params = negsuc 32601

pub record JsonRpcClient (S : Type 0) : Type 0 where
  pub transport : S
  pub next_id : ℕ

unfoldable pub build_request : ℕ → List ℕ → JsonValue → Bool → JsonValue
unfolding decimal put
build_request id name params notification =
    let named =
      put (codes "method") (string name) (put (codes "jsonrpc") (string (codes "2.0")) no_fields) in
    let numbered = if notification then named else put (codes "id") (number (decimal id)) named in
    elim params [ null ↦ object numbered | given ↦ object (put (codes "params") given numbered) ]

-- `static_cast<int>`
unfoldable pub to_int : ℤ → ℤ
to_int (pos n) = let m = n % 2 ^ 32 in if ltb m (2 ^ 31) then pos m else negsuc (2 ^ 32 - 1 - m)
to_int (negsuc n) = let m = n % 2 ^ 32 in if ltb m (2 ^ 31) then negsuc m else pos (2 ^ 32 - 1 - m)

unfoldable pub and_then {ℓ} : {A B : Type ℓ} → Accessed A → (A → Outcome B) → Outcome B
and_then (value a) next = next a
and_then (logic_error message) next = refused (logic_error message)
and_then (missing key) next = refused (missing key)

-- `throw JsonRpcError(...)` on a response's error.
unfoldable pub raise_error : JsonValue → Outcome JsonValue
unfolding and_then at as_int64 as_string to_int
raise_error error = and_then (at error (codes "code")) λ code. and_then (as_int64 code) λ n.
    and_then (at error (codes "message"))
      λ message. and_then (as_string message) λ text. raised (to_int n) text

unfoldable pub read_response : JsonValue → Outcome JsonValue
unfolding has at and_then raise_error
read_response response =
    if has response (codes "error")
    then and_then (at response (codes "error")) raise_error
    else if has response (codes "result")
    then and_then (at response (codes "result")) returned
    else raised internal_error (codes "invalid JSON-RPC response: missing result")

unfoldable pub parse_response : List ℕ → Outcome JsonValue
unfolding parse_json read_response what
parse_response text = elim (parse_json text) [
  | ok response rest ↦ read_response response
  | failed message at ↦ parse_failed (what text message at)
  | out_of_fuel ↦ stuck
]

module _ {S : Type 0} (send : S → List ℕ → List ℕ × S) where
  unfoldable pub call : List ℕ → JsonValue → JsonRpcClient S → Outcome JsonValue × JsonRpcClient S
  unfolding build_request dump parse_response
  call name params client =
      let request = build_request client.next_id name params false in
      let (text, transport) = send client.transport (dump request) in
      (
        parse_response text,
        record { transport = transport; next_id = (client.next_id + 1) % 2 ^ 64 },
      )

  unfoldable pub notify : List ℕ → JsonValue → JsonRpcClient S → JsonRpcClient S
  unfolding build_request dump
  notify name params client =
      let request = build_request client.next_id name params true in
      record { transport = (send client.transport (dump request)).1; next_id = client.next_id }

-- `InProcessJsonRpcTransport::send`
unfoldable pub in_process : JsonRpcEndpoint → List ℕ → List ℕ × JsonRpcEndpoint
unfolding handle_request
in_process endpoint request = (handle_request endpoint request, endpoint)
