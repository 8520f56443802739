-- ===== src/Transport/Manager/Binding.antt =====
-- transport_manager.cpp: `configureDataLinkDevice` and `bindDataLinkDevice`. The registry of device
-- factories is a parameter: what it makes of a factory's name and a configuration.
pub mod Again
use audio_studio.Prelude.{
  ℕ, ◌==◌, ◌≡◌, refl, String, Bool, true, false, not, ◌&&◌, [], ◌∷◌, Option, none, some, arith,
}
use audio_studio.Prelude.Texts.{is_empty, text_eq, compare_eq}
use audio_studio.Framework.Status.{Status, done, fail, invalid_argument, unavailable}
use audio_studio.Framework.Action.{raise, gets, update, guard, ◌>>=◌, ◌>>◌}
use audio_studio.OrderedMap.{OrderedMap}
use audio_studio.Transport.DataLink.{DataLinkDevice, DataLinkManagerConfig, new}
use audio_studio.Transport.Manager.{TransportManager, DataLinkDeviceConfig, Bound, Run}
use Prim.Native.String.{◌++◌ as ◌+++◌}

unfoldable pub same_manager_config : DataLinkManagerConfig → DataLinkManagerConfig → Bool
same_manager_config lhs rhs =
    lhs.ack_timeout_ms == rhs.ack_timeout_ms && lhs.max_retries == rhs.max_retries

-- `==` on two maps of options.
pub same_options : OrderedMap String String → OrderedMap String String → Bool
same_options [] [] = true
same_options ((k, v) ∷ m) ((j, w) ∷ n) =
    let rest = same_options m n in text_eq k j && text_eq v w && rest
same_options _ _ = false

unfoldable pub same_device_config : DataLinkDeviceConfig → DataLinkDeviceConfig → Bool
unfolding same_options
same_device_config lhs rhs =
    text_eq lhs.name rhs.name
    && text_eq lhs.endpoint rhs.endpoint
    && same_options lhs.options rhs.options

module _ (D : DataLinkDevice) where
  abbrev pub already_bound : Status
  already_bound = invalid_argument "transport data-link is already bound to a different device"

  -- Whether the device that is bound is connected.
  abbrev pub is_link_connected : TransportManager D → Bool
  is_link_connected s = elim s.datalink [ none ↦ false | some link ↦ D.is_connected link.device ]

  unfoldable pub is_data_link_configured : TransportManager D → Bool
  is_data_link_configured s = is_link_connected s

  unfoldable pub matches_owned :
      String → DataLinkDeviceConfig → DataLinkManagerConfig → Bound → Bool
  unfolding same_manager_config same_device_config
  matches_owned factory config manager_config (Bound.owned f c m) =
      text_eq f factory && same_device_config c config && same_manager_config m manager_config
  matches_owned factory config manager_config (Bound.borrowed a m) = false

  unfoldable pub matches_borrowed : ℕ → DataLinkManagerConfig → Bound → Bool
  unfolding same_manager_config
  matches_borrowed address config (Bound.owned f c m) = false
  matches_borrowed address config (Bound.borrowed a m) =
      a == address && same_manager_config m config

  unfoldable pub bind_new : Bound → D.State → DataLinkManagerConfig → Run D (Unit {0})
  bind_new bound device config =
      update λ s. record s { binding = some bound; datalink = some (new D device config) }

  unfoldable pub configure_device :
      (String → DataLinkDeviceConfig → Option D.State)
      → String
      → DataLinkDeviceConfig
      → DataLinkManagerConfig
      → Run D (Unit {0})
  unfolding matches_owned bind_new
  configure_device make factory config manager_config = do
    guard (not (is_empty factory)) (invalid_argument "transport data-link factory is empty")
    connected ← gets is_link_connected
    bound ← gets λ s. s.binding
    elim bound [
      | some b ↦ guard (matches_owned factory config manager_config b && connected) already_bound
      | none ↦ elim (make factory config) [
        | none ↦ raise (unavailable ("failed to create transport data-link device: " +++ factory))
        | some device ↦ (do
          guard (D.is_connected device) (unavailable "transport data-link device is not connected")
          bind_new (Bound.owned factory config manager_config) device manager_config)
      ]
    ]

  -- `address` stands for the reference to the device.
  unfoldable pub bind_device : ℕ → D.State → DataLinkManagerConfig → Run D (Unit {0})
  unfolding matches_borrowed bind_new
  bind_device address device config = do
    guard (D.is_connected device) (unavailable "data-link device is not connected")
    bound ← gets λ s. s.binding
    elim bound [
      | some b ↦ guard (matches_borrowed address config b) already_bound
      | none ↦ bind_new (Bound.borrowed address config) device config
    ]
