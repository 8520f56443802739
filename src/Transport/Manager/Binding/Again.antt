-- ===== src/Transport/Manager/Binding/Again.antt =====
-- transport_manager.cpp: binding a device while one is bound already.
use audio_studio.Prelude.{
  ℕ, ◌≡◌, ◌↔◌, ◌⊎◌, refl, ◌∙◌, String, true, false, [], ◌∷◌, Option, none, some, arith,
  if◌then◌else◌,
}
use audio_studio.Prelude.Texts.{is_empty, compare_eq}
use audio_studio.Framework.Status.{done, fail, invalid_argument, unavailable}
use audio_studio.OrderedMap.{OrderedMap}
use audio_studio.Transport.DataLink.{DataLinkDevice, DataLinkManagerConfig, new}
use audio_studio.Transport.Manager.{TransportManager, DataLinkDeviceConfig, Bound}
use audio_studio.Transport.Manager.Binding.{
  same_manager_config, same_options, same_device_config, already_bound, is_link_connected,
  matches_owned, matches_borrowed, configure_device, bind_device, bind_new,
}

same_options_refl : (m : OrderedMap String String) → same_options m m ≡ true
unfolding same_options
same_options_refl [] = refl
same_options_refl ((k, v) ∷ m) = ground (arith, same_options_refl m, compare_eq k k, compare_eq v v)

same_options_same : (m n : OrderedMap String String) → same_options m n ≡ true → m ≡ n
unfolding same_options
same_options_same [] [] h = refl
same_options_same [] (f ∷ n) h = absurd (ground arith)
same_options_same (e ∷ m) [] h = absurd (ground arith)
same_options_same ((k, v) ∷ m) ((j, w) ∷ n) h =
    ground (arith, same_options_same m n, compare_eq k j, compare_eq v w)

same_options-eq : (m n : OrderedMap String String) → (same_options m n ≡ true) ↔ (m ≡ n)
same_options-eq m n = (same_options_same m n, λ e. rw e (same_options_refl n))

same_device_config-eq : (c d : DataLinkDeviceConfig) → (same_device_config c d ≡ true) ↔ (c ≡ d)
unfolding same_device_config
same_device_config-eq c d = ground (
  arith,
  same_options-eq c.options d.options,
  compare_eq c.name d.name,
  compare_eq c.endpoint d.endpoint,
)

same_manager_config-eq : (c d : DataLinkManagerConfig) → (same_manager_config c d ≡ true) ↔ (c ≡ d)
unfolding same_manager_config
same_manager_config-eq c d = ground arith

module _ (D : DataLinkDevice) where
  -- What the first binding leaves.
  configured :
      (make : String → DataLinkDeviceConfig → Option D.State) (factory : String)
      (config : DataLinkDeviceConfig) (manager_config : DataLinkManagerConfig)
      (s t : TransportManager D)
      → s.binding ≡ none
      → configure_device D make factory config manager_config s ≡ (done tt, t)
      → (t.binding ≡ some (Bound.owned factory config manager_config))
        × (is_empty factory ≡ false)
        × (is_link_connected D t ≡ true)
  unfolding configure_device bind_new new
  configured make factory config manager_config s t free e = ground arith

  borrowed :
      (address : ℕ) (device : D.State) (config : DataLinkManagerConfig) (s t : TransportManager D)
      → s.binding ≡ none
      → bind_device D address device config s ≡ (done tt, t)
      → (t.binding ≡ some (Bound.borrowed address config)) × (is_link_connected D t ≡ true)
  unfolding bind_device bind_new new
  borrowed address device config s t free e = ground arith

  -- A call on a manager without a device that bound one, what it bound, and the manager then.
  pub data Binds (make : String → DataLinkDeviceConfig → Option D.State)
      : Bound → TransportManager D → Type 0 where
    configures :
        (factory : String) (config : DataLinkDeviceConfig) (manager_config : DataLinkManagerConfig)
        (s t : TransportManager D)
        → s.binding ≡ none
        → configure_device D make factory config manager_config s ≡ (done tt, t)
        → Binds make (Bound.owned factory config manager_config) t
    binds :
        (address : ℕ) (device : D.State) (config : DataLinkManagerConfig) (s t : TransportManager D)
        → s.binding ≡ none
        → bind_device D address device config s ≡ (done tt, t)
        → Binds make (Bound.borrowed address config) t

  -- What was bound stands in the manager, with a name where it has a factory.
  abbrev IsNamed : Bound → Type 0
  IsNamed (Bound.owned factory config manager_config) = is_empty factory ≡ false
  IsNamed (Bound.borrowed address config) = Unit

  Binds_lem :
      (make : String → DataLinkDeviceConfig → Option D.State) (b : Bound) (t : TransportManager D)
      → Binds make b t
      → (t.binding ≡ some b) × (is_link_connected D t ≡ true) × IsNamed b
  Binds_lem make _ _ (Binds.configures factory config manager_config s t free e) =
      ground (arith, configured make factory config manager_config s t free e)
  Binds_lem make _ _ (Binds.binds address device config s t free e) =
      ground (arith, borrowed address device config s t free e)

  matches_owned-eq :
      (factory : String) (config : DataLinkDeviceConfig) (manager_config : DataLinkManagerConfig)
      (b : Bound)
      → (matches_owned D factory config manager_config b ≡ true)
        ↔ (b ≡ Bound.owned factory config manager_config)
  unfolding matches_owned
  matches_owned-eq factory config manager_config (Bound.owned f c m) = ground (
    arith,
    compare_eq f factory,
    same_device_config-eq c config,
    same_manager_config-eq m manager_config,
  )
  matches_owned-eq factory config manager_config (Bound.borrowed a m) = ground arith

  matches_borrowed-eq :
      (address : ℕ) (config : DataLinkManagerConfig) (b : Bound)
      → (matches_borrowed D address config b ≡ true) ↔ (b ≡ Bound.borrowed address config)
  unfolding matches_borrowed
  matches_borrowed-eq address config (Bound.owned f c m) = ground arith
  matches_borrowed-eq address config (Bound.borrowed a m) =
      ground (arith, same_manager_config-eq m config)

  nameless :
      (factory : String) (config : DataLinkDeviceConfig) (manager_config : DataLinkManagerConfig)
      (b : Bound)
      → is_empty factory ≡ true
      → IsNamed b
      → ¬ (b ≡ Bound.owned factory config manager_config)
  nameless factory config manager_config b e named same =
      let named' : is_empty factory ≡ false = rw same at named in ground arith

  -- Once `configureDataLinkDevice` or `bindDataLinkDevice` has bound a device, the device is
  -- connected. While that binding lasts, `configureDataLinkDevice` succeeds just where it was that
  -- call, with the same factory, device configuration and manager configuration, and the device that
  -- is bound is connected; and `bindDataLinkDevice` succeeds just where it was that call, of the same
  -- device and with the same configuration, and the device that it is given is connected. Any other
  -- call of them is refused: with UNAVAILABLE where the device given is not connected, and with
  -- INVALID_ARGUMENT otherwise. No call of them changes anything.
  pub configure_device-again :
      (make : String → DataLinkDeviceConfig → Option D.State) (b : Bound) (factory : String)
      (config : DataLinkDeviceConfig) (manager_config : DataLinkManagerConfig) (address : ℕ)
      (device : D.State) (t u : TransportManager D)
      → Binds make b t
      → u.binding ≡ t.binding
      → let (configuring, v) = configure_device D make factory config manager_config u in
        let (binding, w) = bind_device D address device manager_config u in
        (is_link_connected D t ≡ true)
        × (v ≡ u)
        × (w ≡ u)
        × ((configuring ≡ done tt)
            ↔ ((b ≡ Bound.owned factory config manager_config) × (is_link_connected D u ≡ true)))
        × ((configuring ≡ done tt)
            ⊎ (configuring
                ≡ fail (
                    if is_empty factory
                    then invalid_argument "transport data-link factory is empty"
                    else already_bound D)))
        × ((binding ≡ done tt)
            ↔ ((b ≡ Bound.borrowed address manager_config) × (D.is_connected device ≡ true)))
        × ((binding ≡ done tt)
            ⊎ (binding
                ≡ fail (
                    if D.is_connected device
                    then already_bound D
                    else unavailable "data-link device is not connected")))
  unfolding configure_device bind_device
  configure_device-again make b factory config manager_config address device t u bound lasts =
      let (held, live, named) = Binds_lem make b t bound in
      let here : u.binding ≡ some b = lasts ∙ held in
      let owned = matches_owned-eq factory config manager_config b in
      let lent = matches_borrowed-eq address manager_config b in
      let full : is_empty factory ≡ true → ¬ (b ≡ Bound.owned factory config manager_config) =
        λ e same. nameless factory config manager_config b e named same in
      ground (arith, here, live, owned, lent, full)
