-- ===== src/Framework/ServiceRegistry/Lookup.antt =====
-- ServiceRegistry: what is found after a registration.
use audio_studio.Prelude.{String, ◌≡◌, not, ◌&&◌, arith, if◌then◌else◌}
use audio_studio.Prelude.Texts.{is_empty, text_eq}
use audio_studio.Framework.Status.{is_ok}
use audio_studio.OrderedMap.{string_key}
use audio_studio.OrderedMap.Laws.{find-emplace}
use audio_studio.OrderedMap.Order.{IsSorted, emplace-IsSorted}
use audio_studio.Framework.ServiceRegistry.{
  ServiceRegistry, register_service, has_service, describe,
}

-- `registerService` succeeds exactly for a name that is neither empty nor registered. After it,
-- in either case, `describe` gives the new description for the name if the call succeeded, and for
-- every other name, or after a refusal, what it gave before; names in strict order stay so.
pub register_service-describe :
    (name description other : String) (r : ServiceRegistry)
    → IsSorted r.services
    → let (status, r') = register_service name description r in
      (is_ok status ≡ not (is_empty name) && not (has_service name r))
      × (describe other r'
          ≡ (if is_ok status && text_eq other name then description else describe other r))
      × IsSorted r'.services
unfolding register_service has_service describe
register_service-describe name description other r s = (
  ground arith,
  ground (arith, find-emplace other name description r.services),
  ground (arith, emplace-IsSorted name description r.services s),
)
