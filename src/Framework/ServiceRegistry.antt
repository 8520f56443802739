-- ===== src/Framework/ServiceRegistry.antt =====
-- server/framework/common/include/service_registry.hpp and src/service_registry.cpp.
pub mod Lookup
use audio_studio.Prelude.{
  ℕ, String, ◌≡◌, refl, Bool, true, false, List, Option, none, some, arith, if◌then◌else◌,
}
use audio_studio.Framework.Status.{Status, success, invalid_argument}
use audio_studio.OrderedMap.{OrderedMap, string_key, find, emplace, has, keys, key_eq}
use audio_studio.Prelude.Texts.{is_empty}
use Prim.Native.String.{◌++◌}

pub record ServiceRegistry : Type 0 where
  pub services : OrderedMap String String

unfoldable pub register_service : String → String → ServiceRegistry → Status × ServiceRegistry
register_service name description r =
    if is_empty name
    then (invalid_argument "service name is empty", r)
    else if has name r.services
    then (invalid_argument ("service already registered: " ++ name), r)
    else (success, record r { services = emplace name description r.services })

unfoldable pub has_service : String → ServiceRegistry → Bool
has_service name r = has name r.services

unfoldable pub service_names : ServiceRegistry → List String
service_names r = keys r.services

unfoldable pub describe : String → ServiceRegistry → String
describe name r = elim (find name r.services) [ none ↦ "" | some text ↦ text ]
