-- ===== src/Tests/Bindings.antt =====
-- A transport manager that a device was bound to, by either call.
use audio_studio.Prelude.{◌≡◌, ◌↔◌, ◌⊎◌, refl, true, String, Option, none, some, [], if◌then◌else◌}
use audio_studio.Prelude.Texts.{is_empty}
use audio_studio.Framework.Status.{done, fail, unavailable, invalid_argument}
use audio_studio.Transport.DataLink.{new}
use audio_studio.Transport.Manager.{TransportManager, DataLinkDeviceConfig, Bound}
use audio_studio.Transport.Manager.Binding.{
  configure_device, bind_device, already_bound, is_link_connected,
}
use audio_studio.Transport.Manager.Binding.Again.{Binds, configure_device-again}
use audio_studio.Tests.Fixtures.{EchoState, echo_start, echo, echo_config}

abbrev unbound : TransportManager echo
unbound = record { channels = []; binding = none; datalink = none; next_sequence = 1 }

abbrev device_config : DataLinkDeviceConfig
device_config = record { name = "link"; endpoint = "tcp://localhost:9000"; options = [] }

abbrev make_echo : String → DataLinkDeviceConfig → Option EchoState
make_echo factory config = some echo_start

abbrev bound : TransportManager echo
bound = record unbound {
  binding = some (Bound.owned "socket" device_config echo_config);
  datalink = some (new echo echo_start echo_config);
}

configured :
    configure_device echo make_echo "socket" device_config echo_config unbound ≡ (done tt, bound)
unfolding configure_device
configured = refl

-- The same device at another place.
abbrev other_config : DataLinkDeviceConfig
other_config = record device_config { endpoint = "tcp://localhost:9001" }

other-refused :
    configure_device echo make_echo "socket" other_config echo_config bound
    ≡ (fail (already_bound echo), bound)
unfolding configure_device
other-refused = refl

configure_device-again_example :
    let b = Bound.owned "socket" device_config echo_config in
    let (configuring, v) =
      configure_device echo make_echo "socket" other_config echo_config bound in
    let (binding, w) = bind_device echo 7 echo_start echo_config bound in
    (is_link_connected echo bound ≡ true)
    × (v ≡ bound)
    × (w ≡ bound)
    × ((configuring ≡ done tt) ↔ (
        (b ≡ Bound.owned "socket" other_config echo_config)
        × (is_link_connected echo bound ≡ true)))
    × ((configuring ≡ done tt)
        ⊎ (configuring
            ≡ fail (
                if is_empty "socket"
                then invalid_argument "transport data-link factory is empty"
                else already_bound echo)))
    × ((binding ≡ done tt)
        ↔ ((b ≡ Bound.borrowed 7 echo_config) × (echo.is_connected echo_start ≡ true)))
    × ((binding ≡ done tt)
        ⊎ (binding
            ≡ fail (
                if echo.is_connected echo_start
                then already_bound echo
                else unavailable "data-link device is not connected")))
configure_device-again_example =
    configure_device-again echo make_echo (Bound.owned "socket" device_config echo_config) "socket"
      other_config echo_config 7 echo_start bound bound
      (Binds.configures "socket" device_config echo_config unbound bound refl configured) refl
