-- ===== src/Tests/Json.antt =====
-- Concrete JSON texts and values.
use audio_studio.Prelude.{
  none, some, ◌∷◌, arith, true, false, ℕ, ◌≡◌, refl, ◌⊎◌, inl, inr, List, [],
}
use audio_studio.Rpc.Json.{
  JsonValue, null, number, string, array, object, no_items, item, no_fields, field,
}
use audio_studio.Rpc.Json.Scan.{ok, failed, codes}
use audio_studio.Rpc.Json.Parser.{parse_json}
use audio_studio.Rpc.Json.Dump.{dump}
use audio_studio.Rpc.Json.RoundTrip.Number.{
  IsNumber, IsWhole, IsFraction, IsExponent, IsSign, digits,
}
use audio_studio.Rpc.Json.RoundTrip.Keys.{IsBelow}
use audio_studio.Rpc.Json.RoundTrip.WellFormed.{IsWellFormed}
use audio_studio.Rpc.Json.RoundTrip.Value.{parse_json-dump}
use audio_studio.Rpc.Json.Termination.Value.{parse_json_ends}
use audio_studio.Rpc.Endpoint.{
  JsonRpcEndpoint, result, add_method, has_method, invoke, handle_request, handle_single_request,
  method_not_found, internal_error,
}
use audio_studio.Rpc.Client.{
  returned, raised, JsonRpcClient, call, notify, in_process, invalid_params,
}
use audio_studio.Rpc.Client.InProcess.{IsParams, IsPlain, given, outcome_of, call-in_process}
use audio_studio.Rpc.RuntimeContext.{new_context, next_session_id, session_id_for_numeric}
use audio_studio.Rpc.RuntimeContext.Ids.{
  IsConsistent, Call, next, session, stream, release, step, run, run-IsConsistent,
}
use audio_studio.Rpc.ApiRegistry.{
  RpcMethodSpec, add_spec, has_spec, find_method, all_methods, smoke_tests, default_method_for_tool,
  describe_method, list_methods, register_endpoint,
}
use audio_studio.Rpc.Params.{
  require_object_params, require_string_param, optional_uint32_param, optional_uint16_param,
  optional_bool_param,
}
use audio_studio.Rpc.Endpoint.Replies.{IsAnswered, handle_single_request-IsAnswered}
use audio_studio.Rpc.Json.{compare_keys}

sample : JsonValue
sample = object (
    field (codes "a") (array (item null (item (number (codes "-1.50e+3")) no_items)))
      (field (codes "id") (string (codes "x\"\n\u{1}")) no_fields))

dump-sample : dump sample ≡ codes "{\"a\":[null,-1.50e+3],\"id\":\"x\\\"\\n\\u0001\"}"
unfolding dump sample
dump-sample = refl

parse_sample :
    parse_json (codes " {\"id\" : \"x\\\"\\n\\u0001\", \"a\":[ null,-1.50e+3 ],\"id\":3} ")
    ≡ ok sample []
unfolding parse_json sample
parse_sample = refl

sample-IsNumber : IsNumber (codes "-1.50e+3")
unfolding IsWhole IsFraction IsExponent IsSign digits
sample-IsNumber = record {
  sign = codes "-";
  whole = codes "1";
  fraction = codes ".50";
  exponent = codes "e+3";
  parts = refl;
  sign_form = inr refl;
  whole_form = inr (refl, refl);
  fraction_form = inr (codes "50", refl, refl);
  exponent_form = inr (b'e', codes "+", codes "3", refl, inl refl, inr (inl refl), refl);
}

parse_json-dump_example : parse_json (dump sample) ≡ ok sample []
unfolding sample IsWellFormed IsBelow compare_keys
parse_json-dump_example =
    parse_json-dump sample ((tt, (sample-IsNumber, tt)), ((refl, tt), (tt, (tt, tt))))

parse_json_ends_example :
    ((v : JsonValue) × (parse_json (codes "[1,") ≡ ok v []))
    ⊎ ((message : List ℕ) × (at : List ℕ) × (parse_json (codes "[1,") ≡ failed message at))
parse_json_ends_example = parse_json_ends (codes "[1,")

-- `ping` answers with its parameters.
pinging : JsonRpcEndpoint
unfolding add_method
pinging =
    (add_method (codes "ping") (λ params. result params) (record { methods = λ name. none })).1

ping : JsonValue
ping = object (
    field (codes "id") (number (codes "7")) (
      field (codes "jsonrpc") (string (codes "2.0")) (
        field (codes "method") (string (codes "ping"))
          (field (codes "params") (array no_items) no_fields))))

ping-reply :
    handle_request pinging
      (codes "{\"jsonrpc\":\"2.0\",\"id\":7,\"method\":\"ping\",\"params\":[]}")
    ≡ codes "{\"id\":7,\"jsonrpc\":\"2.0\",\"result\":[]}"
unfolding pinging add_method handle_request
ping-reply = refl

broken-reply :
    handle_request pinging (codes "[1,")
    ≡ codes
        "{\"error\":{\"code\":-32700,\"message\":\"parse error: unexpected end of JSON input at byte 3\"},\"id\":null,\"jsonrpc\":\"2.0\"}"
unfolding pinging add_method handle_request
broken-reply = refl

handle_single_request-IsAnswered_example : IsAnswered ping (handle_single_request pinging ping)
handle_single_request-IsAnswered_example = handle_single_request-IsAnswered pinging ping

client : JsonRpcClient JsonRpcEndpoint
client = record { transport = pinging; next_id = 7 }

-- A text and a number as parameters.
two_params : JsonValue
two_params = object (
    field (codes "name") (string (codes "dsp"))
      (field (codes "rate") (number (codes "70000")) no_fields))

pinging-has_method :
    (has_method (codes "ping") pinging ≡ true) × (has_method (codes "pong") pinging ≡ false)
unfolding has_method pinging add_method compare_keys
pinging-has_method = (refl, refl)

notify-client : notify in_process (codes "ping") null client ≡ client
unfolding notify in_process client pinging add_method
notify-client = refl

require-two_params :
    (require_string_param two_params (codes "name") ≡ returned (codes "dsp"))
    × (require_string_param two_params (codes "rate")
        ≡ raised invalid_params (codes "missing string param: rate"))
    × (require_object_params null (codes "ping")
        ≡ raised invalid_params (codes "ping expects named object params"))
unfolding two_params require_string_param require_object_params
require-two_params = (refl, refl, refl)

-- A number that is too large is cut.
optional-two_params :
    (optional_uint32_param two_params (codes "rate") 8000 ≡ returned 70000)
    × (optional_uint16_param two_params (codes "rate") 8000 ≡ returned 4464)
    × (optional_uint16_param two_params (codes "bits") 16 ≡ returned 16)
    × (optional_bool_param two_params (codes "on") true ≡ returned true)
unfolding two_params optional_uint32_param optional_uint16_param optional_bool_param
optional-two_params = (refl, refl, refl, refl)

call-in_process_example : call in_process (codes "ping") sample client ≡ (
  outcome_of (invoke pinging (codes "ping") (given sample)),
  record { transport = pinging; next_id = 8 },
)
unfolding sample IsWellFormed IsBelow compare_keys client IsParams IsPlain given invoke pinging
    add_method
call-in_process_example =
    call-in_process pinging 7 (codes "ping") sample
      ((tt, (sample-IsNumber, tt)), ((refl, tt), (tt, (tt, tt)))) tt
      ((tt, (sample-IsNumber, tt)), ((refl, tt), (tt, (tt, tt))))

-- A session with a number, one more whose number is given up, and a stream.
some_calls : List Call
some_calls =
    (session (codes "a")
      ∷ session (codes "b")
      ∷ stream (codes "a")
      ∷ release (codes "a")
      ∷ next (codes "s")
      ∷ [])

numbers :
    (session_id_for_numeric 1 (run some_calls new_context) ≡ none)
    × (session_id_for_numeric 2 (run some_calls new_context) ≡ some (codes "b"))
    × ((next_session_id (codes "s") (run some_calls new_context)).0 ≡ codes "s_5")
unfolding some_calls run step session_id_for_numeric next_session_id compare_keys
numbers = (refl, refl, refl)

run-IsConsistent_example : IsConsistent (run some_calls new_context)
unfolding some_calls
run-IsConsistent_example = run-IsConsistent some_calls (omega arith)

-- A method that answers with the context.
a_spec : RpcMethodSpec ℕ
a_spec = record {
  method = codes "log.get";
  summary = codes "reads";
  service = codes "log";
  version = codes "1.0";
  params_example = null;
  result_example = null;
  cli = record { tools = codes "aslog" ∷ []; default_action = codes "get" };
  smoke_test = record { enabled = false; params = null };
  handler = some (λ context params. result params);
}

registered :
    ((add_spec a_spec []).0 ≡ true)
    × ((add_spec a_spec (add_spec a_spec []).1).0 ≡ false)
    × (all_methods (add_spec a_spec []).1 ≡ a_spec ∷ [])
    × (smoke_tests (add_spec a_spec []).1 ≡ [])
    × (has_spec (codes "log.get") (add_spec a_spec []).1 ≡ true)
    × (find_method (codes "log") (add_spec a_spec []).1 ≡ none)
unfolding a_spec add_spec all_methods smoke_tests has_spec find_method compare_keys
registered = (refl, refl, refl, refl, refl, refl)

default_method :
    (default_method_for_tool (codes "aslog") (codes "get") (add_spec a_spec []).1 ≡ codes "log.get")
    × (default_method_for_tool (codes "aslog") (codes "set") (add_spec a_spec []).1
        ≡ codes "server.health")
    × (default_method_for_tool (codes "asplay") [] (add_spec a_spec []).1 ≡ codes "server.health")
unfolding a_spec add_spec default_method_for_tool compare_keys
default_method = (refl, refl, refl)

listed :
    (dump (list_methods (add_spec a_spec []).1)
      ≡ codes
          "{\"methods\":[{\"method\":\"log.get\",\"service\":\"log\",\"summary\":\"reads\",\"version\":\"1.0\"}]}")
    × (describe_method (codes "log") (add_spec a_spec []).1
        ≡ raised method_not_found (codes "method not found: log"))
unfolding a_spec add_spec list_methods describe_method compare_keys dump
listed = (refl, refl)

refused_context :
    register_endpoint none (add_spec a_spec []).1 pinging
    ≡ raised internal_error (codes "RPC runtime context is null")
unfolding register_endpoint
refused_context = refl
