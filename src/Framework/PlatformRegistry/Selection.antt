-- ===== src/Framework/PlatformRegistry/Selection.antt =====
-- PlatformRegistry: what is found and selected after a registration.
use audio_studio.Prelude.{
  ◌+◌, String, ◌≡◌, refl, not, ◌&&◌, [], ◌∷◌, none, length, arith, if◌then◌else◌,
}
use audio_studio.Prelude.Texts.{is_empty, text_eq}
use audio_studio.Framework.Status.{done, is_ok}
use audio_studio.Framework.PluginManager.{offers}
use audio_studio.OrderedMap.{OrderedMap, string_key, find, emplace, values}
use audio_studio.OrderedMap.Laws.{find-emplace}
use audio_studio.Framework.PlatformRegistry.{
  PlatformProfile, PlatformRegistry, register_platform, get_platform, has_platform, platform_count,
  select_platforms, platforms_with,
}

length-emplace :
    (id : String) (p : PlatformProfile) (m : OrderedMap String PlatformProfile)
    → find id m ≡ none
    → length (emplace id p m) ≡ length m + 1
unfolding find emplace
length-emplace id p [] h = refl
length-emplace id p ((j, w) ∷ m) h = ground (arith, length-emplace id p m)

selected-emplace :
    (id capability : String) (p : PlatformProfile) (m : OrderedMap String PlatformProfile)
    → find id m ≡ none
    → length (select_platforms capability (values (emplace id p m)))
      ≡ length (select_platforms capability (values m))
        + (if offers capability p.capabilities then 1 else 0)
unfolding find emplace select_platforms
selected-emplace id capability p [] h = ground arith
selected-emplace id capability p ((j, w) ∷ m) h = ground (arith, selected-emplace id capability p m)

-- `registerPlatform` succeeds exactly for a profile whose id and name are not empty and whose id
-- is not registered. If it succeeded, `getPlatform` finds the profile under its id, there is one
-- platform more, and one more is selected by each capability that the profile lists and by no other;
-- all other lookups, and all of them after a refusal, give what they gave before.
pub get_platform-register_platform :
    (p : PlatformProfile) (id capability : String) (r : PlatformRegistry)
    → let (status, t) = register_platform p r in
      (is_ok status ≡ not (is_empty p.id) && not (is_empty p.name) && not (has_platform p.id r))
      × (get_platform id t
          ≡ (if is_ok status && text_eq id p.id then done p else get_platform id r))
      × (platform_count t ≡ platform_count r + (if is_ok status then 1 else 0))
      × (length (platforms_with capability t)
          ≡ length (platforms_with capability r)
            + (if is_ok status && offers capability p.capabilities then 1 else 0))
unfolding register_platform get_platform has_platform platform_count platforms_with
get_platform-register_platform p id capability r = (
  ground arith,
  ground (arith, find-emplace id p.id p r.platforms),
  ground (arith, length-emplace p.id p r.platforms),
  ground (arith, selected-emplace p.id capability p r.platforms),
)
