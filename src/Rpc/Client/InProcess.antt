-- ===== src/Rpc/Client/InProcess.antt =====
-- rpc/src/json_rpc.cpp, a client on an endpoint of its own process: what a call comes back with.
use audio_studio.Prelude.{
  ℕ, ◌+◌, ◌%◌, ◌^◌, ◌<◌, ◌≡◌, refl, ap, ◌∙◌, true, false, List, ◌++◌, ltb, arith,
}
use audio_studio.Audio.Stream.{ℤ, pos, negsuc}
use audio_studio.Rpc.Json.{JsonValue, null, number, array, object, no_fields, find, compare_keys}
use audio_studio.Rpc.Json.Numerals.{decimal}
use audio_studio.Rpc.Json.IntRoundTrip.{
  decimal-IsNumber, int_text-IsNumber, IsInt, as_int64-int_text,
}
use audio_studio.Rpc.Json.RoundTrip.Keys.{IsBelow}
use audio_studio.Rpc.Json.RoundTrip.WellFormed.{IsWellFormed}
use audio_studio.Rpc.Json.RoundTrip.Value.{parse_json-dump}
use audio_studio.Rpc.Json.Access.{has, at, put, as_string}
use audio_studio.Rpc.Json.Scan.{codes}
use audio_studio.Rpc.Json.Dump.{dump}
use audio_studio.Rpc.Endpoint.{
  JsonRpcEndpoint, Called, result, rpc_error, exception, thrown, internal_error, invoke, reply,
  error_object, envelope, error_response, result_response, answer_value, handle_request,
  handle_single_request, handle_object, handle_method, handle_params, answer_call, text_at,
  params_of, has_bad_id, valid_id,
}
use audio_studio.Rpc.Client.{
  Outcome, returned, raised, build_request, to_int, and_then, raise_error, read_response,
  parse_response, call, in_process,
}

-- The kinds of parameters that JSON-RPC allows.
unfoldable pub IsParams : JsonValue → Type 0
IsParams null = Unit
IsParams (object values) = Unit
IsParams (array values) = Unit
IsParams _ = 0 < 0

-- What the method is called with.
unfoldable pub given : JsonValue → JsonValue
given null = object no_fields
given params = params

-- A result that can be written as JSON, an error with a code that is an `int`.
unfoldable pub IsPlain : Called → Type 0
unfolding IsWellFormed IsInt
IsPlain (result answer) = IsWellFormed answer
IsPlain (rpc_error code message) = IsInt code
IsPlain _ = Unit

-- What the caller has of it: exceptions of any kind arrive as a `JsonRpcError`.
unfoldable pub outcome_of : Called → Outcome JsonValue
outcome_of (result answer) = returned answer
outcome_of (rpc_error code message) = raised code message
outcome_of (exception what) = raised internal_error (codes "internal error: " ++ what)
outcome_of thrown = raised internal_error (codes "internal error")

to_int_lem : (z : ℤ) → IsInt z → to_int z ≡ z
unfolding to_int IsInt
to_int_lem (pos n) h =
    let e : n % 2 ^ 32 ≡ n = ground arith in
    let small : ltb n (2 ^ 31) ≡ true = ground arith in rw (e, small) refl
to_int_lem (negsuc n) h =
    let e : n % 2 ^ 32 ≡ n = ground arith in
    let small : ltb n (2 ^ 31) ≡ true = ground arith in rw (e, small) refl

build_request-IsWellFormed :
    (id : ℕ) (name : List ℕ) (params : JsonValue)
    → IsWellFormed params
    → IsParams params
    → IsWellFormed (build_request id name params false)
unfolding build_request put compare_keys IsWellFormed IsBelow IsParams
build_request-IsWellFormed id name null w p =
    (decimal-IsNumber id, ((refl, (refl, tt)), (tt, ((refl, tt), (tt, (tt, tt))))))
build_request-IsWellFormed id name (object values) w p = (
  decimal-IsNumber id,
  ((refl, (refl, (refl, tt))), (tt, ((refl, (refl, tt)), (tt, ((refl, tt), (w, (tt, tt))))))),
)
build_request-IsWellFormed id name (array values) w p = (
  decimal-IsNumber id,
  ((refl, (refl, (refl, tt))), (tt, ((refl, (refl, tt)), (tt, ((refl, tt), (w, (tt, tt))))))),
)
build_request-IsWellFormed id name _ w p = absurd (omega arith)

error_response-IsWellFormed :
    (id : JsonValue) (code : ℤ) (message : List ℕ)
    → IsWellFormed id
    → IsWellFormed (error_response id code message)
unfolding error_response error_object envelope put compare_keys IsWellFormed IsBelow
error_response-IsWellFormed id code message w = (
  (int_text-IsNumber code, ((refl, tt), (tt, (tt, tt)))),
  ((refl, (refl, tt)), (w, ((refl, tt), (tt, (tt, tt))))),
)

reply-IsWellFormed :
    (id : JsonValue) (called : Called)
    → IsWellFormed id
    → IsPlain called
    → IsWellFormed (reply id called)
unfolding reply result_response envelope put compare_keys IsWellFormed IsBelow IsPlain
reply-IsWellFormed id (result answer) w p =
    (w, ((refl, (refl, tt)), (tt, ((refl, tt), (p, (tt, tt))))))
reply-IsWellFormed id (rpc_error code message) w p = error_response-IsWellFormed id code message w
reply-IsWellFormed id (exception what) w p =
    error_response-IsWellFormed id internal_error (codes "internal error: " ++ what) w
reply-IsWellFormed id thrown w p =
    error_response-IsWellFormed id internal_error (codes "internal error") w

read_response-error :
    (id : JsonValue) (code : ℤ) (message : List ℕ)
    → IsInt code
    → read_response (error_response id code message) ≡ raised code message
unfolding read_response error_response error_object envelope put compare_keys has at find
    raise_error and_then as_string
read_response-error id code message h =
    rw (as_int64-int_text code h, and_then, to_int_lem code h) refl

read_response-reply :
    (id : JsonValue) (called : Called)
    → IsPlain called
    → read_response (reply id called) ≡ outcome_of called
unfolding reply result_response envelope put compare_keys has at find read_response and_then
    outcome_of IsPlain IsInt
read_response-reply id (result answer) h = refl
read_response-reply id (rpc_error code message) h = read_response-error id code message h
read_response-reply id (exception what) h =
    read_response-error id internal_error (codes "internal error: " ++ what) (omega arith)
read_response-reply id thrown h =
    read_response-error id internal_error (codes "internal error") (omega arith)

handle_single_request-build_request :
    (endpoint : JsonRpcEndpoint) (id : ℕ) (name : List ℕ) (params : JsonValue)
    → IsParams params
    → answer_value endpoint (build_request id name params false)
      ≡ dump (reply (number (decimal id)) (invoke endpoint name (given params)))
unfolding answer_value handle_single_request handle_object handle_method handle_params answer_call
    text_at params_of has_bad_id valid_id build_request put compare_keys find given IsParams
handle_single_request-build_request endpoint id name null p = refl
handle_single_request-build_request endpoint id name (object values) p = refl
handle_single_request-build_request endpoint id name (array values) p = refl
handle_single_request-build_request endpoint id name _ p = absurd (omega arith)

handle_request-dump :
    (endpoint : JsonRpcEndpoint) (request : JsonValue)
    → IsWellFormed request
    → handle_request endpoint (dump request) ≡ answer_value endpoint request
unfolding handle_request
handle_request-dump endpoint request w = rw (handle_request, parse_json-dump request w) refl

parse_response-dump :
    (response : JsonValue)
    → IsWellFormed response
    → parse_response (dump response) ≡ read_response response
unfolding parse_response
parse_response-dump response w = rw (parse_response, parse_json-dump response w) refl

-- On an endpoint of the same process a call gives what the method gives on these parameters, an
-- empty object for null: its result, or a `JsonRpcError` with the code and the text of what it
-- throws; and the next id is the one above, modulo 2 ^ 64. The parameters are null, an object or an
-- array with ascending keys and numbers by JSON's grammar, and so is a result of the method, of any
-- kind; an error's code is an `int`.
pub call-in_process :
    (endpoint : JsonRpcEndpoint) (next_id : ℕ) (name : List ℕ) (params : JsonValue)
    → IsWellFormed params
    → IsParams params
    → IsPlain (invoke endpoint name (given params))
    → call in_process name params (record { transport = endpoint; next_id = next_id }) ≡ (
      outcome_of (invoke endpoint name (given params)),
      record { transport = endpoint; next_id = (next_id + 1) % 2 ^ 64 },
    )
unfolding call in_process IsWellFormed
call-in_process endpoint next_id name params w p plain =
    let id : JsonValue = number (decimal next_id) in
    let called : Called = invoke endpoint name (given params) in
    let request : JsonValue = build_request next_id name params false in
    let answered : handle_request endpoint (dump request) ≡ dump (reply id called) =
      handle_request-dump endpoint request (build_request-IsWellFormed next_id name params w p)
      ∙ handle_single_request-build_request endpoint next_id name params p in
    let understood : parse_response (dump (reply id called)) ≡ outcome_of called =
      parse_response-dump (reply id called)
        (reply-IsWellFormed id called (decimal-IsNumber next_id) plain)
      ∙ read_response-reply id called plain in
    ap (λ outcome. (outcome, record { transport = endpoint; next_id = (next_id + 1) % 2 ^ 64 }))
      (ap parse_response answered ∙ understood)
