-- ===== src/Rpc/Endpoint.antt =====
-- rpc/include/json_rpc.hpp and rpc/src/json_rpc.cpp, `JsonRpcEndpoint`: requests as texts, answered by
-- the methods that were added. A method is a function of its parameters; what it throws is a case of
-- its result. The map of methods is a function from names.
pub mod Replies
use audio_studio.Prelude.{
  ℕ, zero, suc, ◌+◌, ◌-◌, ◌/◌, ◌%◌, Bool, true, false, not, ◌&&◌, ◌||◌, Option, none, some, List,
  [], ◌∷◌, ◌++◌, String, length, take, ltb, ◌==◌, if◌then◌else◌, Ordering,
}
use audio_studio.Audio.Stream.{ℤ, pos, negsuc}
use audio_studio.Rpc.Json.{
  JsonValue, Items, Fields, null, bool, number, string, array, object, no_items, item, no_fields,
  compare_keys, find, push_back,
}
use audio_studio.Rpc.Json.Numerals.{decimal, int_text}
use audio_studio.Rpc.Json.Access.{Accessed, value, has, at, put}
use audio_studio.Rpc.Json.Scan.{Scan, ok, failed, out_of_fuel, codes}
use audio_studio.Rpc.Json.Parser.{parse_json}
use audio_studio.Rpc.Json.Dump.{dump}

-- What a method returns or throws: a `JsonRpcError`, another `std::exception` with its text, or
-- anything else.
pub data Called : Type 0 where
  result : JsonValue → Called
  rpc_error : ℤ → List ℕ → Called
  exception : List ℕ → Called
  thrown : Called

abbrev pub Method : Type 0
Method = JsonValue → Called

pub record JsonRpcEndpoint : Type 0 where
  pub methods : List ℕ → Option Method

abbrev pub same_key : List ℕ → List ℕ → Bool
same_key a b = elim (compare_keys a b) [ Ordering.eq ↦ true | _ ↦ false ]

abbrev pub parse_error : ℤ
parse_error = negsuc 32699

abbrev pub invalid_request_code : ℤ
invalid_request_code = negsuc 32599

abbrev pub method_not_found : ℤ
method_not_found = negsuc 32600

abbrev pub internal_error : ℤ
internal_error = negsuc 32602

unfoldable pub valid_id : JsonValue → Bool
valid_id null = true
valid_id (string text) = true
valid_id (number raw) = true
valid_id _ = false

unfoldable pub error_object : ℤ → List ℕ → JsonValue
unfolding int_text put
error_object code message =
    object (
      put (codes "message") (string message)
        (put (codes "code") (number (int_text code)) no_fields))

-- `response["jsonrpc"] = "2.0"; response["id"] = id;`
unfoldable pub envelope : JsonValue → Fields
unfolding put
envelope id = put (codes "id") id (put (codes "jsonrpc") (string (codes "2.0")) no_fields)

unfoldable pub error_response : JsonValue → ℤ → List ℕ → JsonValue
unfolding envelope error_object
error_response id code message =
    object (put (codes "error") (error_object code message) (envelope id))

unfoldable pub result_response : JsonValue → JsonValue → JsonValue
unfolding envelope
result_response id answer = object (put (codes "result") answer (envelope id))

unfoldable pub invalid_request : List ℕ → JsonValue
unfolding error_response
invalid_request message = error_response null invalid_request_code message

unfoldable pub response_id : JsonValue → JsonValue
unfolding find valid_id
response_id (object fields) = elim (find (codes "id") fields) [
  | none ↦ null
  | some id ↦ (if valid_id id then id else null)
]
response_id _ = null

unfoldable pub add_method : List ℕ → Method → JsonRpcEndpoint → Bool × JsonRpcEndpoint
add_method name method endpoint =
    let added : JsonRpcEndpoint = record {
      methods = λ other. if same_key other name then some method else endpoint.methods other;
    } in
    if length name == 0 || same_key (take 4 name) (codes "rpc.")
    then (false, endpoint)
    else elim (endpoint.methods name) [ some m ↦ (false, endpoint) | none ↦ (true, added) ]

unfoldable pub has_method : List ℕ → JsonRpcEndpoint → Bool
has_method name endpoint = elim (endpoint.methods name) [ some m ↦ true | none ↦ false ]

unfoldable pub invoke : JsonRpcEndpoint → List ℕ → JsonValue → Called
invoke endpoint name params = elim (endpoint.methods name) [
  | none ↦ rpc_error method_not_found (codes "method not found: " ++ name)
  | some method ↦ method params
]

-- The text at a key, where there is one: `has(key) && at(key).isString()`.
unfoldable pub text_at : List ℕ → Fields → Option (List ℕ)
unfolding find
text_at key fields = elim (find key fields) [
  | none ↦ none
  | some v ↦ elim v [ string text ↦ some text | _ ↦ none ]
]

-- `params`, absent or null ones as an empty object; `none` where they are of another kind.
unfoldable pub params_of : Fields → Option JsonValue
unfolding find
params_of fields = elim (find (codes "params") fields) [
  | none ↦ some (object no_fields)
  | some v ↦ elim v [
    | null ↦ some (object no_fields)
    | object values ↦ some (object values)
    | array values ↦ some (array values)
    | _ ↦ none
  ]
]

-- The `try` block and its handlers, for a request with an id.
unfoldable pub reply : JsonValue → Called → JsonValue
unfolding result_response error_response
reply id (result answer) = result_response id answer
reply id (rpc_error code message) = error_response id code message
reply id (exception what) = error_response id internal_error (codes "internal error: " ++ what)
reply id thrown = error_response id internal_error (codes "internal error")

-- The method is called in any case; without an id nothing is answered.
unfoldable pub answer_call :
    JsonRpcEndpoint → List ℕ → JsonValue → Option JsonValue → Option JsonValue
unfolding invoke reply
answer_call endpoint name params none = none
answer_call endpoint name params (some id) = some (reply id (invoke endpoint name params))

-- `request.has("id") && !validId(request.at("id"))`
unfoldable pub has_bad_id : Fields → Bool
unfolding find valid_id
has_bad_id fields = elim (find (codes "id") fields) [ none ↦ false | some id ↦ not (valid_id id) ]

abbrev pub version_text : String
version_text = "invalid request: jsonrpc must be \"2.0\""

abbrev pub method_text : String
method_text = "invalid request: method must be a string"

abbrev pub id_text : String
id_text = "invalid request: id must be string, number, or null"

abbrev pub params_text : String
params_text = "invalid request: params must be object, array, or null"

unfoldable pub refuse : Fields → String → Option JsonValue
unfolding response_id error_response
refuse fields message =
    some (error_response (response_id (object fields)) invalid_request_code (codes message))

-- The checks of `handleSingleRequest` on an object, in their order; first those of the parameters.
unfoldable pub handle_params : JsonRpcEndpoint → Fields → List ℕ → Option JsonValue
unfolding params_of answer_call refuse
handle_params endpoint fields name = elim (params_of fields) [
  | none ↦ refuse fields params_text
  | some params ↦ answer_call endpoint name params (find (codes "id") fields)
]

unfoldable pub handle_method : JsonRpcEndpoint → Fields → List ℕ → Option JsonValue
unfolding has_bad_id handle_params error_response
handle_method endpoint fields name =
    if has_bad_id fields
    then some (error_response null invalid_request_code (codes id_text))
    else handle_params endpoint fields name

unfoldable pub handle_object : JsonRpcEndpoint → Fields → Option JsonValue
unfolding text_at handle_method refuse
handle_object endpoint fields = elim (text_at (codes "jsonrpc") fields) [
  | none ↦ refuse fields version_text
  | some version ↦
      (if not (same_key version (codes "2.0"))
        then refuse fields version_text
        else elim (text_at (codes "method") fields) [
          | none ↦ refuse fields method_text
          | some name ↦ handle_method endpoint fields name
        ])
]

unfoldable pub handle_single_request : JsonRpcEndpoint → JsonValue → Option JsonValue
unfolding handle_object invalid_request
handle_single_request endpoint (object fields) = handle_object endpoint fields
handle_single_request endpoint _ = some (invalid_request (codes "invalid request: expected object"))

-- The loop over a batch, which collects the responses that there are.
unfoldable pub handle_batch : JsonRpcEndpoint → Items → Items → Items
unfolding handle_single_request push_back
handle_batch endpoint no_items batch = batch
handle_batch endpoint (item request rest) batch = elim (handle_single_request endpoint request) [
  | none ↦ handle_batch endpoint rest batch
  | some response ↦ handle_batch endpoint rest (push_back batch response)
]

unfoldable pub dump_batch : Items → List ℕ
unfolding dump
dump_batch no_items = []
dump_batch (item response rest) = dump (array (item response rest))

unfoldable pub answer_value : JsonRpcEndpoint → JsonValue → List ℕ
unfolding handle_batch dump_batch invalid_request
answer_value endpoint (array no_items) =
    dump (invalid_request (codes "invalid request: empty batch"))
answer_value endpoint (array (item request rest)) =
    dump_batch (handle_batch endpoint (item request rest) no_items)
answer_value endpoint request = elim (handle_single_request endpoint request) [
  | none ↦ []
  | some response ↦ dump response
]

-- `error.what()` of a `JsonParseError`: the text and the byte.
unfoldable pub what : List ℕ → List ℕ → List ℕ → List ℕ
unfolding decimal
what text message at = message ++ codes " at byte " ++ decimal (length text - length at)

-- An empty text is no response. The parser does not run out of fuel.
unfoldable pub handle_request : JsonRpcEndpoint → List ℕ → List ℕ
unfolding parse_json answer_value what error_response dump
handle_request endpoint text = elim (parse_json text) [
  | ok request rest ↦ answer_value endpoint request
  | failed message at ↦
      dump (error_response null parse_error (codes "parse error: " ++ what text message at))
  | out_of_fuel ↦ []
]
