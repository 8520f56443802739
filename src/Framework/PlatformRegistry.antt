-- ===== src/Framework/PlatformRegistry.antt =====
-- server/platform/core/include/platform_registry.hpp and src/platform_registry.cpp.
pub mod Selection
use audio_studio.Prelude.{ℕ, String, Bool, List, [], ◌∷◌, none, some, length, if◌then◌else◌}
use audio_studio.Prelude.Texts.{is_empty}
use audio_studio.Framework.Status.{
  Status, Result, done, fail, success, invalid_argument, unavailable,
}
use audio_studio.Framework.PluginManager.{offers}
use audio_studio.OrderedMap.{OrderedMap, string_key, find, emplace, has, values}
use Prim.Native.String.{◌++◌}

pub record PlatformProfile : Type 0 where
  pub id : String
  pub name : String
  pub transport : String
  pub capabilities : List String
  pub available : Bool

pub record PlatformRegistry : Type 0 where
  pub platforms : OrderedMap String PlatformProfile

unfoldable pub register_platform : PlatformProfile → PlatformRegistry → Status × PlatformRegistry
register_platform profile r =
    if is_empty profile.id
    then (invalid_argument "platform id is empty", r)
    else if is_empty profile.name
    then (invalid_argument "platform name is empty", r)
    else if has profile.id r.platforms
    then (invalid_argument ("platform already registered: " ++ profile.id), r)
    else (success, record r { platforms = emplace profile.id profile r.platforms })

unfoldable pub get_platform : String → PlatformRegistry → Result PlatformProfile
get_platform id r = elim (find id r.platforms) [
  | none ↦ fail (unavailable ("platform not found: " ++ id))
  | some profile ↦ done profile
]

unfoldable pub list_platforms : PlatformRegistry → List PlatformProfile
list_platforms r = values r.platforms

unfoldable pub select_platforms : String → List PlatformProfile → List PlatformProfile
select_platforms capability [] = []
select_platforms capability (p ∷ ps) =
    let rest = select_platforms capability ps in
    if offers capability p.capabilities then p ∷ rest else rest

unfoldable pub platforms_with : String → PlatformRegistry → List PlatformProfile
platforms_with capability r = select_platforms capability (values r.platforms)

unfoldable pub has_platform : String → PlatformRegistry → Bool
has_platform id r = has id r.platforms

unfoldable pub platform_count : PlatformRegistry → ℕ
platform_count r = length r.platforms
