-- ===== src/Framework/PluginManager.antt =====
-- server/framework/plugin/include/plugin_manager.hpp and src/plugin_manager.cpp.
pub mod Lifecycle
use audio_studio.Prelude.{
  ℕ, String, Bool, true, false, List, [], ◌∷◌, Option, none, some, length, ◌||◌, if◌then◌else◌,
}
use audio_studio.Prelude.Texts.{is_empty, text_eq}
use audio_studio.Framework.Status.{
  Status, Result, done, fail, success, invalid_argument, unavailable,
}
use audio_studio.OrderedMap.{OrderedMap, string_key, find, emplace, modify, erase, has, values}
use Prim.Native.String.{◌++◌}

pub record PluginDescriptor : Type 0 where
  pub id : String
  pub name : String
  pub version : String
  pub provider : String
  pub capabilities : List String
  pub active : Bool

pub record PluginManager : Type 0 where
  pub plugins : OrderedMap String PluginDescriptor

abbrev not_found : String → Status
not_found id = unavailable ("plugin not found: " ++ id)

unfoldable pub register_plugin : PluginDescriptor → PluginManager → Status × PluginManager
register_plugin descriptor m =
    if is_empty descriptor.id
    then (invalid_argument "plugin id is empty", m)
    else if is_empty descriptor.name
    then (invalid_argument "plugin name is empty", m)
    else if has descriptor.id m.plugins
    then (invalid_argument ("plugin already registered: " ++ descriptor.id), m)
    else (success, record m { plugins = emplace descriptor.id descriptor m.plugins })

unfoldable pub unregister_plugin : String → PluginManager → Status × PluginManager
unregister_plugin id m =
    let left = record m { plugins = erase id m.plugins } in
    if has id m.plugins then (success, left) else (not_found id, left)

abbrev pub with_active : Bool → PluginDescriptor → PluginDescriptor
with_active active plugin = record plugin { active = active }

unfoldable pub set_active : String → Bool → PluginManager → Status × PluginManager
set_active id active m =
    if has id m.plugins
    then (success, record m { plugins = modify id (with_active active) m.plugins })
    else (not_found id, m)

unfoldable pub get : String → PluginManager → Result PluginDescriptor
get id m = elim (find id m.plugins) [ none ↦ fail (not_found id) | some plugin ↦ done plugin ]

unfoldable pub list : PluginManager → List PluginDescriptor
list m = values m.plugins

-- `std::find` over the capabilities.
pub offers : String → List String → Bool
offers capability [] = false
offers capability (c ∷ cs) = text_eq c capability || offers capability cs

unfoldable pub select_plugins : String → List PluginDescriptor → List PluginDescriptor
unfolding offers
select_plugins capability [] = []
select_plugins capability (p ∷ ps) =
    let rest = select_plugins capability ps in
    if offers capability p.capabilities then p ∷ rest else rest

unfoldable pub find_by_capability : String → PluginManager → List PluginDescriptor
find_by_capability capability m = select_plugins capability (values m.plugins)

unfoldable pub size : PluginManager → ℕ
size m = length m.plugins
