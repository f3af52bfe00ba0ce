-- ===== src/Startup.antt =====
-- sensorsUnleashed/er-uart-server.c, the start of the server: the devices it adds and the CoAP
-- resources it makes of them, with `res_susensor_activate` of resources/res-susensors.c, `setResource`
-- of dev/susensorcommon.c and `res_uartsensors_activate` of apps/uartsensors/res-uartsensors.c. The
-- names of the devices are constants of their drivers' headers.
pub mod Booted
pub mod Found
pub mod Tests
use contiki_device_link.Common.{
  ℕ, zero, suc, ◌+◌, Bool, true, false, List, [], ◌∷◌, ◌++◌, Option, none, some, if◌then◌else◌,
  length, set,
}
use contiki_device_link.Common.Bits.{has_bit}
use contiki_device_link.Contiki.{Memb, Lists}
use contiki_device_link.Sensor.{Sensor, RelayRuntime}
use contiki_device_link.Device.Button.{Button}
use contiki_device_link.Device.Setup.{
  relay_config, led_config, pulse_config, mains_config, button_config, add_asu_relay,
  add_asu_led_indicator, add_asu_pulse_input_relay, add_asu_mains_detector, add_asu_button_sensor,
}
use contiki_device_link.Registry.{Registry, init_su_sensors}
use contiki_device_link.Uart.Proxy.{ProxyResource}
use contiki_device_link.Coap.{characters}

-- `resource_t`: a method has a handler, none, or what the block held before, which the code leaves for
-- POST and DELETE.
pub record Resource : Type 0 where
  pub url : List ℕ
  pub attributes : List ℕ
  pub flags : ℕ
  pub get_handler : Bool
  pub put_handler : Bool
  pub post_handler : Bool
  pub delete_handler : Bool

-- The pool `coap_resources`, and the resources that were activated, in order.
pub record Resources (P : Type 0) : Type 0 where
  pub pool : P
  pub active : List Resource

-- the bits of Contiki's REST engine
pub record Methods : Type 0 where
  pub method_get : ℕ
  pub method_post : ℕ
  pub method_put : ℕ
  pub method_delete : ℕ

-- the resource of a sensor, in a block that held `stale`
unfoldable pub resource_of : Methods → Resource → Sensor → Resource
resource_of m stale s = record {
  url = s.config.type;
  attributes = s.config.attr;
  flags = s.config.flags;
  get_handler = has_bit s.config.flags m.method_get;
  put_handler = has_bit s.config.flags m.method_put;
  post_handler = if has_bit s.config.flags m.method_post then stale.post_handler else false;
  delete_handler = if has_bit s.config.flags m.method_delete then stale.delete_handler else false;
}

-- `res_susensor_activate`: the place of the new resource, or NULL
module _ (memb : Memb) (methods : Methods) (stale : Resource) where
  unfoldable pub res_susensor_activate :
      Resources memb.State → Sensor → Option ℕ × Resources memb.State
  res_susensor_activate r s = elim (memb.memb_alloc r.pool) [
    | none ↦ (none, r)
    | some pool ↦ (
      some (length r.active),
      record { pool = pool; active = r.active ++ resource_of methods stale s ∷ [] },
    )
  ]

-- the resource of a sensor of the attached board
unfoldable pub proxy_resource_of : Methods → ProxyResource → Resource
proxy_resource_of m p = record {
  url = p.conf.type;
  attributes = p.conf.attr;
  flags = p.conf.flags;
  get_handler = has_bit p.conf.flags m.method_get;
  put_handler = has_bit p.conf.flags m.method_put;
  post_handler = has_bit p.conf.flags m.method_post;
  delete_handler = has_bit p.conf.flags m.method_delete;
}

-- `res_uartsensors_activate`, with the pool of its own file
unfoldable pub res_uartsensors_activate :
    (memb : Memb) → Methods → Resources memb.State → ProxyResource → Resources memb.State
res_uartsensors_activate memb m r p = elim (memb.memb_alloc r.pool) [
  | none ↦ r
  | some pool ↦ record { pool = pool; active = r.active ++ proxy_resource_of m p ∷ [] }
]

-- What the start makes: the registered devices, their resources, and the statics of relay.c and button-sensor.c.
pub record Boot (P : Type 0) : Type 0 where
  pub registry : Registry P
  pub resources : Resources P
  pub noofrelays : ℕ
  pub button : Button

-- The statics of the drivers' runtimes; `stack` is what the functions' local device holds at first.
pub record Statics : Type 0 where
  pub stack : Sensor
  pub relayruntime : List RelayRuntime
  pub pulseruntime : RelayRuntime
  pub mainsruntime : RelayRuntime
  pub led_yellow : ℕ
  pub clock_second : ℕ
  pub flags : ℕ

module _ (memb : Memb) (lists : Lists Sensor) (methods : Methods) (stale : Resource) where
  abbrev State : Type 0
  State = Boot memb.State

  -- `if(d != NULL) setResource(d, res_susensor_activate(d))`, for the device that was added behind `before`
  -- others
  unfoldable pub set_resource : State → ℕ → Option Sensor × Registry memb.State → State
  set_resource b before (none, registry) = record b { registry = registry }
  set_resource b before (some d, registry) =
      let (place, resources) = res_susensor_activate memb methods stale b.resources d in
      record b {
        registry = record registry {
          sudevices = set registry.sudevices before (record d { resource = place });
        };
        resources = resources;
      }

  abbrev devices : State → ℕ
  devices b = length b.registry.sudevices

  unfoldable pub boot_relay : Statics → State → Option State
  boot_relay st b =
      elim (add_asu_relay memb lists b.registry st.stack st.relayruntime b.noofrelays
        (characters "su/powerrelay") (relay_config st.flags)) [
          | none ↦ none
          | some (added, n) ↦ some (set_resource (record b { noofrelays = n }) (devices b) added)
        ]

  unfoldable pub boot_led : Statics → State → State
  boot_led st b = set_resource b (devices b) (
      add_asu_led_indicator memb lists b.registry st.stack (characters "su/led_yellow")
        (led_config st.flags) st.led_yellow)

  unfoldable pub boot_pulse : Statics → State → State
  boot_pulse st b = set_resource b (devices b) (
      add_asu_pulse_input_relay memb lists b.registry st.stack st.pulseruntime
        (characters "su/pulsecounter") (pulse_config st.flags))

  unfoldable pub boot_mains : Statics → State → State
  boot_mains st b = set_resource b (devices b) (
      add_asu_mains_detector memb lists b.registry st.stack st.mainsruntime
        (characters "su/mainsdetect") (mains_config st.flags))

  unfoldable pub boot_button : Statics → State → State
  boot_button st b =
      let (added, button) =
        add_asu_button_sensor memb lists b.registry st.stack b.button st.clock_second
          (characters "su/pushbutton") (button_config st.flags) in
      set_resource (record b { button = button }) (devices b) added

  -- the start of `er_uart_server`, up to the wait for a route
  unfoldable pub er_uart_server : Statics → Button → Option State
  er_uart_server st button =
      let b : State = record {
        registry = init_su_sensors memb lists;
        resources = record { pool = memb.memb_init 20; active = [] };
        noofrelays = 0;
        button = button;
      } in
      elim (boot_relay st b) [
        | none ↦ none
        | some c ↦ some (boot_button st (boot_mains st (boot_pulse st (boot_led st c))))
      ]
