-- ===== src/Startup/Booted.antt =====
-- What the start of the server leaves: the devices, each with the resource that stands for it.
use contiki_device_link.Common.{
  ℕ, ◌+◌, ◌<◌, ◌≡◌, refl, sym, ap, ◌∙◌, List, [], ◌∷◌, ◌++◌, Option, some, map, length,
  length-append, arith, set, length-map,
}
use contiki_device_link.Contiki.{Memb, Lists}
use contiki_device_link.Sensor.{Sensor, Driver, relay, led, pulse, mains, button, RelayRuntime}
use contiki_device_link.Device.Button.{Button}
use contiki_device_link.Device.Setup.{
  add_asu_relay, add_asu_led_indicator, add_asu_pulse_input_relay, add_asu_mains_detector,
  add_asu_button_sensor, set_up, button_config, relay_config, reset_runtime,
}
use contiki_device_link.Registry.{add_su_devices, init_su_sensors}
use contiki_device_link.Registry.Devices.{registered}
use contiki_device_link.Coap.{characters}
use contiki_device_link.Startup.{
  Resource, Methods, Statics, resource_of, res_susensor_activate, set_resource, State, devices,
  boot_relay, boot_led, boot_pulse, boot_mains, boot_button, er_uart_server,
}

map-append : {A B : Type 0} → (f : A → B) (xs ys : List A) → map f (xs ++ ys) ≡ map f xs ++ map f ys
map-append f [] ys = refl
map-append f (x ∷ xs) ys = ap (λ t. f x ∷ t) (map-append f xs ys)

set-append :
    {A : Type 0} → (xs : List A) (x y : A) → set (xs ++ x ∷ []) (length xs) y ≡ xs ++ y ∷ []
set-append [] x y = refl
set-append (z ∷ xs) x y = ap (λ t. z ∷ t) (set-append xs x y)

-- a device as the start leaves it: its name, its driver and its place among the resources
pub record Device : Type 0 where
  pub name : List ℕ
  pub driver : Driver
  pub resource : Option ℕ

abbrev pub view : Sensor → Device
view d = record { name = d.type; driver = d.driver; resource = d.resource }

-- the devices of the start, in the order of their registration
abbrev pub started : List Device
started =
    record { name = characters "su/powerrelay"; driver = relay; resource = some 0 }
    ∷ record { name = characters "su/led_yellow"; driver = led; resource = some 1 }
    ∷ record { name = characters "su/pulsecounter"; driver = pulse; resource = some 2 }
    ∷ record { name = characters "su/mainsdetect"; driver = mains; resource = some 3 }
    ∷ record { name = characters "su/pushbutton"; driver = button; resource = some 4 }
    ∷ []

module _ (memb : Memb) (lists : Lists Sensor) (methods : Methods) (stale : Resource) where
  -- The registry holds these devices, and the pool of resources one under each device's name, in this order.
  pub record IsBooted (b : State memb lists methods stale) (ds : List Device) : Type 0 where
    pub registered : map view b.registry.sudevices ≡ ds
    pub activated : map Resource.url b.resources.active ≡ map Device.name ds
    pub free_devices : memb.free_blocks b.registry.pool + length ds ≡ 10
    pub free_resources : memb.free_blocks b.resources.pool + length ds ≡ 20

  set_resource-IsBooted :
      (b : State memb lists methods stale) (ds : List Device) (d : Sensor)
      → IsBooted b ds
      → length ds < 10
      → d.config.type ≡ d.type
      → IsBooted
          (set_resource memb lists methods stale b
            (devices memb lists methods stale b)
            (add_su_devices memb lists b.registry d))
          (ds ++ record { name = d.type; driver = d.driver; resource = some (length ds) } ∷ [])
  unfolding set_resource res_susensor_activate add_su_devices resource_of
  set_resource-IsBooted b ds d h few names =
      let (t, gives, fewer) =
        memb.alloc_block b.registry.pool (omega (arith, h.free_devices, few)) in
      let (u, gives', fewer') =
        memb.alloc_block b.resources.pool (omega (arith, h.free_resources, few)) in
      rw (gives, add_su_devices, set_resource)
        (rw (gives', res_susensor_activate)
          (record {
            registered =
                ap (λ l. map view (set l (length b.registry.sudevices) done))
                  (lists.add_end b.registry.sudevices (registered d))
                ∙ (ap (map view) (set-append b.registry.sudevices (registered d) done)
                    ∙ (map-append view b.registry.sudevices (done ∷ [])
                        ∙ (ap (λ l. l ++ view done ∷ []) h.registered
                            ∙ ap (λ n. ds ++ named n ∷ []) place)));
            activated =
                map-append Resource.url b.resources.active
                  (resource_of methods stale (registered d) ∷ [])
                ∙ (ap (λ l. l ++ d.config.type ∷ []) h.activated
                    ∙ (ap (λ x. map Device.name ds ++ x ∷ []) names
                        ∙ sym (map-append Device.name ds (named (length ds) ∷ []))));
            free_devices =
                omega (arith, fewer, h.free_devices, length-append ds (named (length ds) ∷ []));
            free_resources =
                omega (arith, fewer', h.free_resources, length-append ds (named (length ds) ∷ []));
          }))
    where
      done : Sensor
      done = record (registered d) { resource = some (length b.resources.active) }

      named : ℕ → Device
      named n = record { name = d.type; driver = d.driver; resource = some n }

      place : length b.resources.active ≡ length ds
      place =
          sym (length-map b.resources.active Resource.url)
          ∙ (ap length h.activated ∙ length-map ds Device.name)

  boot_relay-IsBooted :
      (st : Statics) (b : State memb lists methods stale) (ds : List Device)
      → (runtime : RelayRuntime) (others : List RelayRuntime) → st.relayruntime ≡ runtime ∷ others
      → b.noofrelays ≡ 0
      → IsBooted b ds
      → length ds < 10
      → (c : State memb lists methods stale) × (boot_relay memb lists methods stale st b ≡ some c)
        × IsBooted c (
            ds
            ++ record {
              name = characters "su/powerrelay";
              driver = relay;
              resource = some (length ds);
            }
              ∷ [])
  unfolding boot_relay add_asu_relay set_up set_resource characters
  boot_relay-IsBooted st b ds runtime others there none_yet h few = (
    _,
    rw (there, add_asu_relay) (rw none_yet refl),
    set_resource-IsBooted (record b { noofrelays = b.noofrelays + 1 }) ds
        (record (set_up st.stack relay (characters "su/powerrelay") (relay_config st.flags)) {
          runtime = reset_runtime runtime;
        })
        (record {
          registered = h.registered;
          activated = h.activated;
          free_devices = h.free_devices;
          free_resources = h.free_resources;
        })
        few refl,
  )

  boot_led-IsBooted :
      (st : Statics) (b : State memb lists methods stale) (ds : List Device)
      → IsBooted b ds
      → length ds < 10
      → IsBooted (boot_led memb lists methods stale st b) (
          ds
          ++ record { name = characters "su/led_yellow"; driver = led; resource = some (length ds) }
            ∷ [])
  unfolding boot_led add_asu_led_indicator set_up set_resource characters
  boot_led-IsBooted st b ds h few = set_resource-IsBooted b ds _ h few refl

  boot_pulse-IsBooted :
      (st : Statics) (b : State memb lists methods stale) (ds : List Device)
      → IsBooted b ds
      → length ds < 10
      → IsBooted (boot_pulse memb lists methods stale st b) (
          ds
          ++ record {
            name = characters "su/pulsecounter";
            driver = pulse;
            resource = some (length ds);
          }
            ∷ [])
  unfolding boot_pulse add_asu_pulse_input_relay set_up set_resource characters
  boot_pulse-IsBooted st b ds h few = set_resource-IsBooted b ds _ h few refl

  boot_mains-IsBooted :
      (st : Statics) (b : State memb lists methods stale) (ds : List Device)
      → IsBooted b ds
      → length ds < 10
      → IsBooted (boot_mains memb lists methods stale st b) (
          ds
          ++ record {
            name = characters "su/mainsdetect";
            driver = mains;
            resource = some (length ds);
          }
            ∷ [])
  unfolding boot_mains add_asu_mains_detector set_up set_resource characters
  boot_mains-IsBooted st b ds h few = set_resource-IsBooted b ds _ h few refl

  boot_button-IsBooted :
      (st : Statics) (b : State memb lists methods stale) (ds : List Device)
      → IsBooted b ds
      → length ds < 10
      → IsBooted (boot_button memb lists methods stale st b) (
          ds
          ++ record {
            name = characters "su/pushbutton";
            driver = button;
            resource = some (length ds);
          }
            ∷ [])
  unfolding boot_button add_asu_button_sensor set_up set_resource characters
  boot_button-IsBooted st b ds h few =
      set_resource-IsBooted
        (record b {
          button =
              (add_asu_button_sensor memb lists b.registry st.stack b.button st.clock_second
                (characters "su/pushbutton") (button_config st.flags)).1;
        })
        ds _
        (record {
          registered = h.registered;
          activated = h.activated;
          free_devices = h.free_devices;
          free_resources = h.free_resources;
        })
        few refl

  -- The start registers five devices, in this order: the relay, the yellow LED, the pulse counter, the mains
  -- detector and the button; each has its place among the resources, where a resource has its name.
  pub er_uart_server-IsBooted :
      (st : Statics) (statics : Button) (runtime : RelayRuntime) (others : List RelayRuntime)
      → st.relayruntime ≡ runtime ∷ others
      → (b : State memb lists methods stale) × (er_uart_server memb lists methods stale st statics
          ≡ some b)
        × IsBooted b started
  unfolding er_uart_server init_su_sensors
  er_uart_server-IsBooted st statics runtime others there =
      let b : State memb lists methods stale = record {
        registry = init_su_sensors memb lists;
        resources = record { pool = memb.memb_init 20; active = [] };
        noofrelays = 0;
        button = statics;
      } in
      let start : IsBooted b [] = record {
        registered = refl;
        activated = refl;
        free_devices = omega (arith, memb.free-init 10);
        free_resources = omega (arith, memb.free-init 20);
      } in
      let (c, runs, one) =
        boot_relay-IsBooted st b [] runtime others there refl start (omega arith) in
      let two = boot_led-IsBooted st c _ one (omega arith) in
      let three = boot_pulse-IsBooted st _ _ two (omega arith) in
      let four = boot_mains-IsBooted st _ _ three (omega arith) in
      let five = boot_button-IsBooted st _ _ four (omega arith) in
      (_, rw (runs, er_uart_server) refl, five)
