-- ===== src/Rpc/ApiRegistry.antt =====
-- rpc/include/rpc_api_registry.hpp and rpc/src/rpc_api_registry.cpp: the methods of the RPC interface
-- by their names. `C` is the context that the handlers share.
use audio_studio.Prelude.{
  ℕ, Bool, true, false, ◌&&◌, ◌||◌, if◌then◌else◌, Option, none, some, List, [], ◌∷◌, ◌++◌, length,
  ◌==◌,
}
use audio_studio.OrderedMap.{OrderedMap, find, emplace, has, values}
use audio_studio.Rpc.Json.{
  JsonValue, Items, Fields, string, array, object, no_items, no_fields, push_back,
}
use audio_studio.Rpc.Json.Access.{put}
use audio_studio.Rpc.Json.KeyOrder.{text_key}
use audio_studio.Rpc.Json.Scan.{codes}
use audio_studio.Rpc.Endpoint.{
  JsonRpcEndpoint, Method, Called, exception, same_key, add_method, method_not_found,
  internal_error,
}
use audio_studio.Rpc.Client.{Outcome, returned, raised}

pub record RpcCliBinding : Type 0 where
  pub tools : List (List ℕ)
  pub default_action : List ℕ

pub record RpcSmokeTest : Type 0 where
  pub enabled : Bool
  pub params : JsonValue

pub record RpcMethodSpec (C : Type 0) : Type 0 where
  pub method : List ℕ
  pub summary : List ℕ
  pub service : List ℕ
  pub version : List ℕ
  pub params_example : JsonValue
  pub result_example : JsonValue
  pub cli : RpcCliBinding
  pub smoke_test : RpcSmokeTest
  pub handler : Option (C → JsonValue → Called)

abbrev pub is_empty : List ℕ → Bool
is_empty text = length text == 0

abbrev pub RpcApiRegistry : Type 0 → Type 0
RpcApiRegistry C = OrderedMap (List ℕ) (RpcMethodSpec C)

abbrev pub any_is : List ℕ → List (List ℕ) → Bool
any_is tool [] = false
any_is tool (candidate ∷ tools) = same_key candidate tool || any_is tool tools

module _ {C : Type 0} where
  unfoldable pub add_spec : RpcMethodSpec C → RpcApiRegistry C → Bool × RpcApiRegistry C
  unfolding find emplace
  add_spec spec methods = elim spec.handler [
    | none ↦ (false, methods)
    | some handler ↦
        if is_empty spec.method || has spec.method methods
        then (false, methods)
        else (true, emplace spec.method spec methods)
  ]

  unfoldable pub has_spec : List ℕ → RpcApiRegistry C → Bool
  unfolding find
  has_spec method methods = has method methods

  unfoldable pub find_method : List ℕ → RpcApiRegistry C → Option (RpcMethodSpec C)
  unfolding find
  find_method method methods = find method methods

  unfoldable pub all_methods : RpcApiRegistry C → List (RpcMethodSpec C)
  all_methods methods = values methods

  unfoldable pub smoke_tests : RpcApiRegistry C → List (RpcMethodSpec C)
  smoke_tests [] = []
  smoke_tests ((name, spec) ∷ rest) =
      let others = smoke_tests rest in if spec.smoke_test.enabled then spec ∷ others else others

  unfoldable pub default_method_for_tool : List ℕ → List ℕ → RpcApiRegistry C → List ℕ
  default_method_for_tool tool action [] = codes "server.health"
  default_method_for_tool tool action ((name, spec) ∷ rest) =
      let later = default_method_for_tool tool action rest in
      let binding = spec.cli in
      if any_is tool binding.tools
        && (is_empty binding.default_action
            || same_key binding.default_action action
            || is_empty action)
      then name
      else later

  -- `method`, `summary`, `service` and `version`, which both descriptions begin with.
  unfoldable pub summary_fields : RpcMethodSpec C → Fields
  unfolding put
  summary_fields spec = put (codes "version") (string spec.version) (
      put (codes "service") (string spec.service) (
        put (codes "summary") (string spec.summary)
          (put (codes "method") (string spec.method) no_fields)))

  unfoldable pub describe_method : List ℕ → RpcApiRegistry C → Outcome JsonValue
  unfolding find_method summary_fields put
  describe_method method methods = elim (find_method method methods) [
    | none ↦ raised method_not_found (codes "method not found: " ++ method)
    | some spec ↦ returned (
        object (
          put (codes "result_example") spec.result_example
            (put (codes "params_example") spec.params_example (summary_fields spec))))
  ]

  unfoldable pub list_items : RpcApiRegistry C → Items → Items
  unfolding summary_fields push_back
  list_items [] items = items
  list_items ((name, spec) ∷ rest) items =
      list_items rest (push_back items (object (summary_fields spec)))

  unfoldable pub list_methods : RpcApiRegistry C → JsonValue
  unfolding list_items put
  list_methods methods =
      object (put (codes "methods") (array (list_items methods no_items)) no_fields)

  -- The lambda around a handler; an empty one, which `addMethod` refuses, throws.
  abbrev pub bound : C → Option (C → JsonValue → Called) → Method
  bound context none params = exception (codes "bad_function_call")
  bound context (some handler) params = handler context params

  -- `endpoint.addMethod` for each; what that returns is not looked at.
  unfoldable pub add_methods : C → RpcApiRegistry C → JsonRpcEndpoint → JsonRpcEndpoint
  unfolding add_method
  add_methods context [] endpoint = endpoint
  add_methods context ((name, spec) ∷ rest) endpoint =
      add_methods context rest (add_method spec.method (bound context spec.handler) endpoint).1

  unfoldable pub register_endpoint :
      Option C → RpcApiRegistry C → JsonRpcEndpoint → Outcome JsonRpcEndpoint
  unfolding add_methods
  register_endpoint none methods endpoint =
      raised internal_error (codes "RPC runtime context is null")
  register_endpoint (some context) methods endpoint =
      returned (add_methods context methods endpoint)
