-- ===== src/Framework/ControlService.antt =====
-- server/framework/control/include/control_service.hpp and src/control_service.cpp.
pub mod Values
use audio_studio.Prelude.{
  ℕ, String, Bool, true, false, List, Option, none, some, length, if◌then◌else◌,
}
use audio_studio.Prelude.Texts.{is_empty}
use audio_studio.Framework.Status.{
  Status, Result, done, fail, success, invalid_argument, unavailable,
}
use audio_studio.OrderedMap.{OrderedMap, string_key, find, assign, values}
use Prim.Native.String.{◌++◌}

pub record ControlValue : Type 0 where
  pub node_id : String
  pub parameter_id : String
  pub value : String

pub record ControlService : Type 0 where
  pub values : OrderedMap String ControlValue

abbrev pub key : String → String → String
key node_id parameter_id = node_id ++ (":" ++ parameter_id)

unfoldable pub set : ControlValue → ControlService → Status × ControlService
set value s =
    if is_empty value.node_id
    then (invalid_argument "control node id is empty", s)
    else if is_empty value.parameter_id
    then (invalid_argument "control parameter id is empty", s)
    else (
      success,
      record s { values = assign (key value.node_id value.parameter_id) value s.values },
    )

unfoldable pub get : String → String → ControlService → Result ControlValue
get node_id parameter_id s = elim (find (key node_id parameter_id) s.values) [
  | none ↦ fail (unavailable "control value not found")
  | some value ↦ done value
]

unfoldable pub list : ControlService → List ControlValue
list s = values s.values

unfoldable pub size : ControlService → ℕ
size s = length s.values
