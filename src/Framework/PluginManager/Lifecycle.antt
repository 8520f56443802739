-- ===== src/Framework/PluginManager/Lifecycle.antt =====
-- PluginManager: registration, activation and removal of a plugin.
use audio_studio.Prelude.{String, ◌≡◌, Bool, true, not, ◌&&◌, arith, if◌then◌else◌}
use audio_studio.Prelude.Texts.{is_empty, text_eq, compare_eq}
use audio_studio.Framework.Status.{done, fail, is_ok, unavailable, ◌>>=◌}
use audio_studio.OrderedMap.{string_key, has}
use audio_studio.OrderedMap.Laws.{find-emplace, find-modify, find-erase, erase-emplace}
use audio_studio.Framework.PluginManager.{
  PluginDescriptor, PluginManager, register_plugin, unregister_plugin, set_active, with_active, get,
}
use Prim.Native.String.{◌++◌}

-- After `unregisterPlugin` of a plugin that `registerPlugin` has just accepted, the manager is
-- what it was before both.
pub unregister_plugin-register_plugin :
    (p : PluginDescriptor) (m : PluginManager)
    → is_ok (register_plugin p m).0 ≡ true
    → (unregister_plugin p.id (register_plugin p m).1).1 ≡ m
unfolding register_plugin unregister_plugin
unregister_plugin-register_plugin p m ok = ground (arith, erase-emplace p.id p m.plugins)

-- After each of `registerPlugin`, `setActive` and `unregisterPlugin`, in every case, `get` of any
-- id: a registration that succeeded adds the plugin under its id, `setActive` changes the flag of
-- the one id, `unregisterPlugin` leaves that id unknown, and every other id is as before.
pub get-operations :
    (p : PluginDescriptor) (id other : String) (active : Bool) (m : PluginManager)
    → let (added, m1) = register_plugin p m in
      let (switched, m2) = set_active id active m in
      let (removed, m3) = unregister_plugin id m in
      (is_ok added ≡ not (is_empty p.id) && not (is_empty p.name) && not (has p.id m.plugins))
      × (get other m1 ≡ (if is_ok added && text_eq other p.id then done p else get other m))
      × (is_ok switched ≡ has id m.plugins)
      × (get other m2 ≡ (
          if text_eq other id
          then get other m >>= (λ q. done (with_active active q))
          else get other m))
      × (is_ok removed ≡ has id m.plugins)
      × (get other m3 ≡ (
          if text_eq other id
          then fail (unavailable ("plugin not found: " ++ other))
          else get other m))
unfolding register_plugin set_active unregister_plugin get
get-operations p id other active m = (
  ground arith,
  ground (arith, find-emplace other p.id p m.plugins),
  ground arith,
  ground (arith, find-modify other id (with_active active) m.plugins, compare_eq other id),
  ground arith,
  ground (arith, find-erase other id m.plugins, compare_eq other id),
)
