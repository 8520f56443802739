-- ===== src/Rpc/Endpoint/Replies.antt =====
-- What the endpoint's replies have in common, and which requests get one.
use audio_studio.Prelude.{
  ℕ, ◌≡◌, refl, ◌⊎◌, inl, inr, true, false, Option, none, some, List, ◌++◌, String, Option-cases,
  Bool-cases, arith,
}
use audio_studio.Audio.Stream.{ℤ}
use audio_studio.Rpc.Json.{JsonValue, Fields, null, string, object, find, compare_keys}
use audio_studio.Rpc.Json.Access.{value, has, at, put}
use audio_studio.Rpc.Json.Scan.{codes}
use audio_studio.Rpc.Endpoint.{
  JsonRpcEndpoint, Called, result, rpc_error, exception, thrown, envelope, error_response,
  result_response, invalid_request, response_id, valid_id, text_at, params_of, reply, invoke,
  answer_call, handle_object, handle_single_request, internal_error, refuse, has_bad_id,
  handle_params, handle_method, version_text, method_text, id_text, params_text,
  invalid_request_code, same_key,
}

-- A response object by JSON-RPC 2.0: the version, the id, and a result or an error, not both.
pub record IsReply (id response : JsonValue) : Type 0 where
  pub version : at response (codes "jsonrpc") ≡ value (string (codes "2.0"))
  pub same_id : at response (codes "id") ≡ value id
  pub outcome :
      ((has response (codes "result") ≡ true) × (has response (codes "error") ≡ false))
      ⊎ ((has response (codes "result") ≡ false) × (has response (codes "error") ≡ true))

error_response-IsReply :
    (id : JsonValue) (code : ℤ) (message : List ℕ) → IsReply id (error_response id code message)
unfolding error_response envelope put compare_keys at has find
error_response-IsReply id code message = record {
  version = refl;
  same_id = refl;
  outcome = inr (refl, refl);
}

result_response-IsReply : (id answer : JsonValue) → IsReply id (result_response id answer)
unfolding result_response envelope put compare_keys at has find
result_response-IsReply id answer = record {
  version = refl;
  same_id = refl;
  outcome = inl (refl, refl);
}

reply-IsReply : (id : JsonValue) (called : Called) → IsReply id (reply id called)
unfolding reply
reply-IsReply id (result answer) = result_response-IsReply id answer
reply-IsReply id (rpc_error code message) = error_response-IsReply id code message
reply-IsReply id (exception what) =
    error_response-IsReply id internal_error (codes "internal error: " ++ what)
reply-IsReply id thrown = error_response-IsReply id internal_error (codes "internal error")

-- A reply with the request's id, or none, and then the request has no id.
unfoldable pub IsAnswered : JsonValue → Option JsonValue → Type 0
IsAnswered request none = has request (codes "id") ≡ false
IsAnswered request (some response) = IsReply (response_id request) response

module _ (endpoint : JsonRpcEndpoint) (fields : Fields) where
  abbrev request : JsonValue
  request = object fields

  -- What the endpoint makes of the id once the other checks are passed.
  abbrev checked : List ℕ → JsonValue → Option JsonValue
  checked name params = answer_call endpoint name params (find (codes "id") fields)

  refuse-IsAnswered : (message : String) → IsAnswered request (refuse fields message)
  unfolding IsAnswered refuse
  refuse-IsAnswered message =
      error_response-IsReply (response_id request) invalid_request_code (codes message)

  no_id :
      (name : List ℕ) (params : JsonValue)
      → find (codes "id") fields ≡ none
      → IsAnswered request (checked name params)
  unfolding IsAnswered answer_call has
  no_id name params e = rw e (rw (has, e) refl)

  good_id :
      (id : JsonValue)
      → find (codes "id") fields ≡ some id
      → has_bad_id fields ≡ false
      → valid_id id ≡ true
  unfolding has_bad_id
  good_id id known fine = ground arith

  unusable_id :
      has_bad_id fields ≡ true
      → (id : JsonValue) × (find (codes "id") fields ≡ some id) × (valid_id id ≡ false)
  unfolding has_bad_id
  unusable_id bad = elim (Option-cases (find (codes "id") fields)) [
    | inl absent ↦ absurd (ground arith)
    | inr (id, known) ↦ (id, known, ground arith)
  ]

  response_id-valid :
      (id : JsonValue)
      → find (codes "id") fields ≡ some id
      → valid_id id ≡ true
      → response_id request ≡ id
  unfolding response_id
  response_id-valid id e valid = rw (response_id, e, valid) refl

  response_id-bad :
      (id : JsonValue)
      → find (codes "id") fields ≡ some id
      → valid_id id ≡ false
      → response_id request ≡ null
  unfolding response_id
  response_id-bad id e bad = rw (response_id, e, bad) refl

  with_id :
      (name : List ℕ) (params id : JsonValue)
      → find (codes "id") fields ≡ some id
      → valid_id id ≡ true
      → IsAnswered request (checked name params)
  unfolding IsAnswered answer_call
  with_id name params id e valid =
      rw e (rw (response_id-valid id e valid) (reply-IsReply id (invoke endpoint name params)))

  bad_id :
      (id : JsonValue)
      → find (codes "id") fields ≡ some id
      → valid_id id ≡ false
      → IsAnswered request (some (error_response null invalid_request_code (codes id_text)))
  unfolding IsAnswered
  bad_id id e bad =
      rw (response_id-bad id e bad)
        (error_response-IsReply null invalid_request_code (codes id_text))

  handle_params-IsAnswered :
      (name : List ℕ)
      → has_bad_id fields ≡ false
      → IsAnswered request (handle_params endpoint fields name)
  unfolding handle_params
  handle_params-IsAnswered name fine = elim (Option-cases (params_of fields)) [
    | inl strange ↦ rw (handle_params, strange) (refuse-IsAnswered params_text)
    | inr (params, given) ↦
        rw (handle_params, given)
          (elim (Option-cases (find (codes "id") fields)) [
            | inl absent ↦ no_id name params absent
            | inr (id, known) ↦ with_id name params id known (good_id id known fine)
          ])
  ]

  handle_method-IsAnswered :
      (name : List ℕ) → IsAnswered request (handle_method endpoint fields name)
  unfolding handle_method
  handle_method-IsAnswered name = elim (Bool-cases (has_bad_id fields)) [
    | inr fine ↦ rw (handle_method, fine) (handle_params-IsAnswered name fine)
    | inl bad ↦
        rw (handle_method, bad)
          (let (id, known, invalid) = unusable_id bad in bad_id id known invalid)
  ]

  handle_object-IsAnswered : IsAnswered request (handle_object endpoint fields)
  unfolding handle_object
  handle_object-IsAnswered = elim (Option-cases (text_at (codes "jsonrpc") fields)) [
    | inl missing ↦ rw (handle_object, missing) (refuse-IsAnswered version_text)
    | inr (version, there) ↦ elim (Bool-cases (same_key version (codes "2.0"))) [
      | inr other ↦ rw (handle_object, there, other) (refuse-IsAnswered version_text)
      | inl same ↦ elim (Option-cases (text_at (codes "method") fields)) [
        | inl missing ↦ rw (handle_object, there, same, missing) (refuse-IsAnswered method_text)
        | inr (name, named) ↦ rw (handle_object, there, same, named) (handle_method-IsAnswered name)
      ]
    ]
  ]

-- Every request gets a JSON-RPC 2.0 response, with the request's id where that is a string, a number
-- or null and with null otherwise, and with a result or an error but not both; only a request without
-- an id may get none.
pub handle_single_request-IsAnswered :
    (endpoint : JsonRpcEndpoint) (request : JsonValue)
    → IsAnswered request (handle_single_request endpoint request)
unfolding handle_single_request IsAnswered invalid_request response_id
handle_single_request-IsAnswered endpoint (object fields) = handle_object-IsAnswered endpoint fields
handle_single_request-IsAnswered endpoint null =
    error_response-IsReply null invalid_request_code (codes "invalid request: expected object")
handle_single_request-IsAnswered endpoint _ =
    error_response-IsReply null invalid_request_code (codes "invalid request: expected object")
