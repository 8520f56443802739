-- ===== src/Tests/Registries.antt =====
-- The registries and services at concrete entries.
use audio_studio.Prelude.{
  ◌+◌, ◌%◌, ◌^◌, ◌<◌, ◌≡◌, refl, true, false, not, ◌&&◌, List, [], ◌∷◌, if◌then◌else◌, arith,
}
use audio_studio.Prelude.Texts.{is_empty, text_eq}
use audio_studio.Framework.Status.{done, fail, is_ok, unavailable, invalid_argument, ◌>>=◌}
use audio_studio.OrderedMap.{string_key, find, has}
use audio_studio.OrderedMap.Order.{IsSorted}
use audio_studio.Framework.ServiceRegistry as Services
use audio_studio.Framework.SessionRegistry as Sessions
use audio_studio.Framework.SessionRegistry.Counting.{active_count_lem}
use audio_studio.Framework.DumpService as Dumps
use audio_studio.Framework.DumpService.Accounting.{
  Call, run, total_written, bytes_of, run-bytes_of, stop-final,
}
use audio_studio.Framework.ControlService as Controls
use audio_studio.Framework.ControlService.Values.{get-set, set-collides}
use audio_studio.Prelude.{length}
use audio_studio.Framework.PluginManager.{offers}
use audio_studio.Framework.PlatformRegistry as Platforms
use audio_studio.Framework.PlatformRegistry.Selection.{get_platform-register_platform}
use audio_studio.Framework.PluginManager as Plugins
use audio_studio.Framework.PluginManager.Lifecycle.{get-operations}
use Prim.Native.String.{◌++◌}

abbrev services : Services.ServiceRegistry
services = record { services = ("audio", "sound") ∷ ("log", "lines") ∷ [] }

abbrev a_session : Sessions.SessionInfo
a_session = record { id = "s1"; owner = "gui"; active = true }

abbrev sessions : Sessions.SessionRegistry
sessions = record { sessions = ("s1", a_session) ∷ [] }

active_count_lem_example :
    let (made, r1) = Sessions.create "s1" "cli" sessions in
    let (shut, r2) = Sessions.close "s1" sessions in
    (Sessions.active_count r1
      ≡ (if is_ok made then Sessions.active_count sessions + 1 else Sessions.active_count sessions))
    × (Sessions.active_count r2 + (if (Sessions.get "s1" sessions).active then 1 else 0)
        ≡ Sessions.active_count sessions)
    × IsSorted r1.sessions
    × IsSorted r2.sessions
active_count_lem_example = active_count_lem "s1" "cli" sessions (tt, tt)

abbrev a_dump : Dumps.DumpSession
a_dump = record { id = "d1"; source = "mic"; active = true; bytes_written = 100 }

abbrev dumps : Dumps.DumpService
dumps = record { sessions = ("d1", a_dump) ∷ [] }

abbrev calls : List Call
calls = Call.writes "d1" 28 ∷ Call.writes "d2" 5 ∷ Call.stops "d1" ∷ Call.writes "d1" 9 ∷ []

small : bytes_of "d1" dumps < 2 ^ 64
unfolding find
small = omega arith

stop_accepted : is_ok (Dumps.stop "d1" dumps).0 ≡ true
unfolding Dumps.stop find
stop_accepted = refl

run-bytes_of_example :
    bytes_of "d1" (run calls dumps)
    ≡ (bytes_of "d1" dumps + total_written "d1" calls dumps) % 2 ^ 64
run-bytes_of_example = run-bytes_of "d1" calls dumps small

stop-final_example :
    let t = run calls (Dumps.stop "d1" dumps).1 in
    (Dumps.write "d1" 3 t ≡ (unavailable ("dump session is not active: " ++ "d1"), t))
    × (Dumps.start "d1" "mic" t ≡ (invalid_argument ("dump session already exists: " ++ "d1"), t))
stop-final_example = stop-final "d1" "mic" 3 calls dumps stop_accepted refl refl

abbrev controls : Controls.ControlService
controls = record { values = [] }

abbrev gain : Controls.ControlValue
gain = record { node_id = "eq"; parameter_id = "gain"; value = "3" }

get-set_example :
    let (status, t) = Controls.set gain controls in
    (is_ok status ≡ not (is_empty "eq") && not (is_empty "gain"))
    × (Controls.get "eq" "gain" t ≡ (
        if is_ok status && text_eq (Controls.key "eq" "gain") (Controls.key "eq" "gain")
        then done gain
        else Controls.get "eq" "gain" controls))
    × IsSorted t.values
get-set_example = get-set gain "eq" "gain" controls tt

set-collides_example :
    let first : Controls.ControlValue = record {
      node_id = "a" ++ (":" ++ "b");
      parameter_id = "c";
      value = "1";
    } in
    let second : Controls.ControlValue = record {
      node_id = "a";
      parameter_id = "b" ++ (":" ++ "c");
      value = "2";
    } in
    Controls.get first.node_id first.parameter_id
      (Controls.set second (Controls.set first controls).1).1
    ≡ done second
set-collides_example = set-collides "a" "b" "c" "1" "2" controls refl refl

abbrev plugins : Plugins.PluginManager
plugins = record { plugins = [] }

abbrev a_plugin : Plugins.PluginDescriptor
a_plugin = record {
  id = "p1";
  name = "Equaliser";
  version = "1.0";
  provider = "studio";
  capabilities = "eq" ∷ [];
  active = false;
}

plugin_accepted : is_ok (Plugins.register_plugin a_plugin plugins).0 ≡ true
unfolding Plugins.register_plugin find
plugin_accepted = refl

abbrev loaded : Plugins.PluginManager
loaded = record { plugins = ("p1", a_plugin) ∷ [] }

abbrev other_plugin : Plugins.PluginDescriptor
other_plugin = record a_plugin { id = "p2" }

get-operations_example :
    let (added, m1) = Plugins.register_plugin other_plugin loaded in
    let (switched, m2) = Plugins.set_active "p1" true loaded in
    let (removed, m3) = Plugins.unregister_plugin "p1" loaded in
    (is_ok added
      ≡ not (is_empty "p2") && not (is_empty "Equaliser") && not (has "p2" loaded.plugins))
    × (Plugins.get "p1" m1
        ≡ (if is_ok added && text_eq "p1" "p2" then done other_plugin else Plugins.get "p1" loaded))
    × (is_ok switched ≡ has "p1" loaded.plugins)
    × (Plugins.get "p1" m2 ≡ (
        if text_eq "p1" "p1"
        then Plugins.get "p1" loaded >>= (λ q. done (Plugins.with_active true q))
        else Plugins.get "p1" loaded))
    × (is_ok removed ≡ has "p1" loaded.plugins)
    × (Plugins.get "p1" m3 ≡ (
        if text_eq "p1" "p1"
        then fail (unavailable ("plugin not found: " ++ "p1"))
        else Plugins.get "p1" loaded))
get-operations_example = get-operations other_plugin "p1" "p1" true loaded

abbrev platforms : Platforms.PlatformRegistry
platforms = record { platforms = [] }

abbrev a_profile : Platforms.PlatformProfile
a_profile = record {
  id = "a2";
  name = "A2 board";
  transport = "socket";
  capabilities = "dump" ∷ "audio" ∷ [];
  available = true;
}

get_platform-register_platform_example :
    let (status, t) = Platforms.register_platform a_profile platforms in
    (is_ok status
      ≡ not (is_empty "a2")
        && not (is_empty "A2 board")
        && not (Platforms.has_platform "a2" platforms))
    × (Platforms.get_platform "a2" t ≡ (
        if is_ok status && text_eq "a2" "a2"
        then done a_profile
        else Platforms.get_platform "a2" platforms))
    × (Platforms.platform_count t
        ≡ Platforms.platform_count platforms + (if is_ok status then 1 else 0))
    × (length (Platforms.platforms_with "audio" t)
        ≡ length (Platforms.platforms_with "audio" platforms)
          + (if is_ok status && offers "audio" a_profile.capabilities then 1 else 0))
get_platform-register_platform_example =
    get_platform-register_platform a_profile "a2" "audio" platforms
