-- ===== src/Device/Setup.antt =====
-- sensorsUnleashed/dev: the default configurations of the five drivers, and the functions that register a
-- device (addASURelay and its like). A string is the list of its characters.
use contiki_device_link.Common.{
  ℕ, ◌+◌, ◌≡◌, ◌<◌, refl, List, [], ◌∷◌, Option, none, some, get_elem?, arith, ap, true, false,
}
use contiki_device_link.Common.Int.{pos}
use contiki_device_link.Contiki.{Memb, Lists}
use contiki_device_link.Cmp.{put_as, type_uint8, uint8_object, uint16_object, get_as}
use contiki_device_link.Sensor.{
  ResourceConf, RelayRuntime, Driver, relay, led, pulse, mains, button, Sensor, change_event_active,
  below_event_active, susensors_no_event,
}
use contiki_device_link.Registry.{Registry, add_su_devices}
use contiki_device_link.Registry.Devices.{registered, add_room}
use contiki_device_link.Device.{Gpio}
use contiki_device_link.Device.Relay.{configure_active}
use contiki_device_link.Device.Relay.Laws.{IsSwitch, configure_active-IsSwitch}
use contiki_device_link.Device.Button.{Button, configure_interval}

-- `flags` are the methods and properties that Contiki's REST engine numbers.
-- `relayconfigs`
abbrev pub relay_config : ℕ → ResourceConf
relay_config flags = record {
  id = 0;
  resolution = 1;
  version = 1;
  flags = flags;
  max_pollinterval = pos 2;
  events_active = change_event_active;
  above_event_at = uint8_object 1;
  below_event_at = uint8_object 0;
  change_event = uint8_object 1;
  range_min = uint8_object 0;
  range_max = uint8_object 1;
  unit = [];
  spec =
      82 ∷ 101 ∷ 108 ∷ 97 ∷ 121 ∷ 32 ∷ 111 ∷ 117 ∷ 116 ∷ 112 ∷ 117 ∷ 116 ∷ 32 ∷ 99 ∷ 111 ∷ 110 ∷ 116
      ∷ 114 ∷ 111 ∷ 108 ∷ 32 ∷ 79 ∷ 70 ∷ 70 ∷ 61 ∷ 48 ∷ 44 ∷ 32 ∷ 79 ∷ 78 ∷ 61 ∷ 49 ∷ 44 ∷ 32 ∷ 84
      ∷ 79 ∷ 71 ∷ 71 ∷ 76 ∷ 69 ∷ 61 ∷ 50 ∷ [];
  type = 115 ∷ 117 ∷ 47 ∷ 112 ∷ 111 ∷ 119 ∷ 101 ∷ 114 ∷ 114 ∷ 101 ∷ 108 ∷ 97 ∷ 121 ∷ [];
  group = [];
  attr =
      116 ∷ 105 ∷ 116 ∷ 108 ∷ 101 ∷ 61 ∷ 34 ∷ 82 ∷ 101 ∷ 108 ∷ 97 ∷ 121 ∷ 32 ∷ 111 ∷ 117 ∷ 116 ∷ 112
      ∷ 117 ∷ 116 ∷ 34 ∷ 32 ∷ 59 ∷ 114 ∷ 116 ∷ 61 ∷ 34 ∷ 67 ∷ 111 ∷ 110 ∷ 116 ∷ 114 ∷ 111 ∷ 108 ∷ 34
      ∷ [];
}

-- `ledindicatorconfig`
abbrev pub led_config : ℕ → ResourceConf
led_config flags = record {
  id = 0;
  resolution = 1;
  version = 1;
  flags = flags;
  max_pollinterval = pos 2;
  events_active = change_event_active;
  above_event_at = uint8_object 1;
  below_event_at = uint8_object 0;
  change_event = uint8_object 1;
  range_min = uint16_object 0;
  range_max = uint16_object 1;
  unit = [];
  spec = 76 ∷ 69 ∷ 68 ∷ 32 ∷ 105 ∷ 110 ∷ 100 ∷ 105 ∷ 99 ∷ 97 ∷ 116 ∷ 111 ∷ 114 ∷ [];
  type = [];
  group = [];
  attr =
      116 ∷ 105 ∷ 116 ∷ 108 ∷ 101 ∷ 61 ∷ 34 ∷ 76 ∷ 69 ∷ 68 ∷ 32 ∷ 105 ∷ 110 ∷ 100 ∷ 105 ∷ 99 ∷ 97
      ∷ 116 ∷ 111 ∷ 114 ∷ 34 ∷ 32 ∷ 59 ∷ 114 ∷ 116 ∷ 61 ∷ 34 ∷ 73 ∷ 110 ∷ 100 ∷ 105 ∷ 99 ∷ 97 ∷ 116
      ∷ 111 ∷ 114 ∷ 34 ∷ [];
}

-- `pulseconfig`
abbrev pub pulse_config : ℕ → ResourceConf
pulse_config flags = record {
  id = 0;
  resolution = 100;
  version = 1;
  flags = flags;
  max_pollinterval = pos 30;
  events_active = change_event_active;
  above_event_at = uint16_object 1000;
  below_event_at = uint16_object 0;
  change_event = uint16_object 500;
  range_min = uint16_object 0;
  range_max = uint16_object 60000;
  unit = 87 ∷ [];
  spec =
      84 ∷ 104 ∷ 105 ∷ 115 ∷ 32 ∷ 105 ∷ 115 ∷ 32 ∷ 97 ∷ 32 ∷ 112 ∷ 117 ∷ 108 ∷ 115 ∷ 101 ∷ 32 ∷ 99
      ∷ 111 ∷ 117 ∷ 110 ∷ 116 ∷ 101 ∷ 114 ∷ 44 ∷ 32 ∷ 99 ∷ 111 ∷ 117 ∷ 110 ∷ 116 ∷ 105 ∷ 110 ∷ 103
      ∷ 32 ∷ 49 ∷ 48 ∷ 48 ∷ 48 ∷ 48 ∷ 32 ∷ 112 ∷ 117 ∷ 108 ∷ 115 ∷ 101 ∷ 115 ∷ 47 ∷ 107 ∷ 119 ∷ 104
      ∷ [];
  type = 115 ∷ 117 ∷ 47 ∷ 112 ∷ 117 ∷ 108 ∷ 115 ∷ 101 ∷ 99 ∷ 111 ∷ 117 ∷ 110 ∷ 116 ∷ 101 ∷ 114 ∷ [];
  group = [];
  attr =
      116 ∷ 105 ∷ 116 ∷ 108 ∷ 101 ∷ 61 ∷ 34 ∷ 80 ∷ 117 ∷ 108 ∷ 115 ∷ 101 ∷ 32 ∷ 99 ∷ 111 ∷ 117 ∷ 110
      ∷ 116 ∷ 101 ∷ 114 ∷ 34 ∷ 32 ∷ 59 ∷ 114 ∷ 116 ∷ 61 ∷ 34 ∷ 67 ∷ 111 ∷ 110 ∷ 116 ∷ 114 ∷ 111
      ∷ 108 ∷ 34 ∷ [];
}

-- `mainsdetectconfig`
abbrev pub mains_config : ℕ → ResourceConf
mains_config flags = record {
  id = 0;
  resolution = 1;
  version = 1;
  flags = flags;
  max_pollinterval = pos 2;
  events_active = change_event_active;
  above_event_at = uint8_object 1;
  below_event_at = uint8_object 0;
  change_event = uint8_object 1;
  range_min = uint8_object 0;
  range_max = uint8_object 1;
  unit = [];
  spec =
      68 ∷ 101 ∷ 116 ∷ 101 ∷ 99 ∷ 116 ∷ 32 ∷ 105 ∷ 102 ∷ 32 ∷ 109 ∷ 97 ∷ 105 ∷ 110 ∷ 115 ∷ 32 ∷ 105
      ∷ 115 ∷ 32 ∷ 112 ∷ 114 ∷ 101 ∷ 115 ∷ 101 ∷ 110 ∷ 116 ∷ 32 ∷ 111 ∷ 114 ∷ 32 ∷ 110 ∷ 111 ∷ 116
      ∷ [];
  type = 115 ∷ 117 ∷ 47 ∷ 109 ∷ 97 ∷ 105 ∷ 110 ∷ 115 ∷ 100 ∷ 101 ∷ 116 ∷ 101 ∷ 99 ∷ 116 ∷ [];
  group = [];
  attr =
      116 ∷ 105 ∷ 116 ∷ 108 ∷ 101 ∷ 61 ∷ 34 ∷ 77 ∷ 97 ∷ 105 ∷ 110 ∷ 115 ∷ 100 ∷ 101 ∷ 116 ∷ 101 ∷ 99
      ∷ 116 ∷ 34 ∷ 32 ∷ 59 ∷ 114 ∷ 116 ∷ 61 ∷ 34 ∷ 77 ∷ 111 ∷ 110 ∷ 105 ∷ 116 ∷ 111 ∷ 114 ∷ 34 ∷ [];
}

-- `pushbuttonconfig`
abbrev pub button_config : ℕ → ResourceConf
button_config flags = record {
  id = 0;
  resolution = 1;
  version = 1;
  flags = flags;
  max_pollinterval = pos 2;
  events_active = below_event_active;
  above_event_at = uint8_object 1;
  below_event_at = uint8_object 0;
  change_event = uint8_object 1;
  range_min = uint8_object 0;
  range_max = uint8_object 1;
  unit = [];
  spec =
      80 ∷ 117 ∷ 115 ∷ 104 ∷ 32 ∷ 98 ∷ 117 ∷ 116 ∷ 116 ∷ 111 ∷ 110 ∷ 59 ∷ 32 ∷ 79 ∷ 70 ∷ 70 ∷ 61
      ∷ 48 ∷ 44 ∷ 32 ∷ 79 ∷ 78 ∷ 61 ∷ 49 ∷ 44 ∷ 32 ∷ 84 ∷ 79 ∷ 71 ∷ 71 ∷ 76 ∷ 69 ∷ 61 ∷ 50 ∷ [];
  type = 115 ∷ 117 ∷ 47 ∷ 112 ∷ 117 ∷ 115 ∷ 104 ∷ 98 ∷ 117 ∷ 116 ∷ 116 ∷ 111 ∷ 110 ∷ [];
  group = [];
  attr =
      116 ∷ 105 ∷ 116 ∷ 108 ∷ 101 ∷ 61 ∷ 34 ∷ 82 ∷ 101 ∷ 108 ∷ 97 ∷ 121 ∷ 32 ∷ 111 ∷ 117 ∷ 116 ∷ 112
      ∷ 117 ∷ 116 ∷ 34 ∷ 32 ∷ 59 ∷ 114 ∷ 116 ∷ 61 ∷ 34 ∷ 67 ∷ 111 ∷ 110 ∷ 116 ∷ 114 ∷ 111 ∷ 108 ∷ 34
      ∷ [];
}

-- the runtime of a device that is added: `LastValue` keeps what the static held
unfoldable pub reset_runtime : RelayRuntime → RelayRuntime
reset_runtime r = record r {
  enabled = 0;
  has_event = 0;
  last_event_value = put_as 256 (record (r.last_event_value) { type = type_uint8 }) 0;
  change_event_acc = put_as 256 r.change_event_acc 0;
}

-- A device as the functions set it up on the stack; what they do not set is what `stack` holds.
unfoldable pub set_up : Sensor → Driver → List ℕ → ResourceConf → Sensor
set_up stack driver name config = record stack {
  type = name;
  driver = driver;
  config = config;
  above_eventhandler = none;
  below_eventhandler = none;
  change_eventhandler = none;
}

module _ (memb : Memb) (lists : Lists Sensor) where
  abbrev Added : Type 0
  Added = Option Sensor × Registry memb.State

  -- `addASURelay`, with `noofrelays` relays before it. A third relay has no runtime (undefined in C).
  unfoldable pub add_asu_relay :
      Registry memb.State
      → Sensor
      → List RelayRuntime
      → ℕ
      → List ℕ
      → ResourceConf
      → Option (Added × ℕ)
  unfolding set_up reset_runtime
  add_asu_relay r stack relayruntime noofrelays name config =
      elim (get_elem? relayruntime noofrelays) [
        | none ↦ none
        | some runtime ↦ some (
          add_su_devices memb lists r
              (record (set_up stack relay name config) { runtime = reset_runtime runtime }),
          noofrelays + 1,
        )
      ]

  -- `addASULedIndicator`; the name is the configuration's type too.
  unfoldable pub add_asu_led_indicator :
      Registry memb.State → Sensor → List ℕ → ResourceConf → ℕ → Added
  unfolding set_up
  add_asu_led_indicator r stack name config mask =
      add_su_devices memb lists r
        (record (set_up stack led name (record config { type = name })) { mask = mask })

  -- `addASUPulseInputRelay`
  unfoldable pub add_asu_pulse_input_relay :
      Registry memb.State → Sensor → RelayRuntime → List ℕ → ResourceConf → Added
  unfolding set_up reset_runtime
  add_asu_pulse_input_relay r stack runtime name config =
      add_su_devices memb lists r
        (record (set_up stack pulse name config) { runtime = reset_runtime runtime })

  -- `addASUMainsDetector`
  unfoldable pub add_asu_mains_detector :
      Registry memb.State → Sensor → RelayRuntime → List ℕ → ResourceConf → Added
  unfolding set_up reset_runtime
  add_asu_mains_detector r stack runtime name config =
      add_su_devices memb lists r
        (record (set_up stack mains name config) { runtime = reset_runtime runtime })

  -- `addASUButtonSensor`, which also sets the interval of the long press, a second of clock ticks
  unfoldable pub add_asu_button_sensor :
      Registry memb.State → Sensor → Button → ℕ → List ℕ → ResourceConf → Added × Button
  unfolding set_up configure_interval
  add_asu_button_sensor r stack statics clock_second name config = (
    add_su_devices memb lists r (set_up stack button name config),
    configure_interval statics clock_second,
  )

  -- A relay that is added with a runtime whose value is 0, as at boot, to a registry with a free block,
  -- and then started by the process (its flag cleared, activated), is a switch that is off.
  add_asu_relay-IsSwitch :
      (g : Gpio) (r : Registry memb.State) (stack : Sensor) (relayruntime : List RelayRuntime)
      (n : ℕ) (runtime : RelayRuntime) (name : List ℕ) (config : ResourceConf) (hardware : g.State)
      (polls : ℕ)
      → get_elem? relayruntime n ≡ some runtime
      → get_as 256 runtime.last_value ≡ 0
      → 0 < memb.free_blocks r.pool
      → (d : Sensor) × (r' : Registry memb.State) × (add_asu_relay r stack relayruntime n name
            config
          ≡ some ((some d, r'), n + 1))
        × (d.driver ≡ relay)
        × IsSwitch g
            (configure_active g
              (record {
                hardware = hardware;
                sensor = record d { event_flag = susensors_no_event };
                polls = polls;
              })
              true)
            false
  unfolding add_asu_relay set_up reset_runtime
  add_asu_relay-IsSwitch g r stack relayruntime n runtime name config hardware polls there
        zero_value room =
      let device = record (set_up stack relay name config) { runtime = reset_runtime runtime } in
      let (added, _, _) = add_room memb lists r device room in
      (
        registered device,
        (add_su_devices memb lists r device).1,
        rw (there, add_asu_relay)
            (ap (λ res. some ((res, (add_su_devices memb lists r device).1), n + 1)) added),
        refl,
        configure_active-IsSwitch g
            (record {
              hardware = hardware;
              sensor = record (registered device) { event_flag = susensors_no_event };
              polls = polls;
            })
            zero_value (omega arith),
      )
