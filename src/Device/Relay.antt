-- ===== src/Device/Relay.antt =====
-- sensorsUnleashed/dev/relay.c: the relay output. `Laws` proves that it is a switch.
pub mod Laws
use contiki_device_link.Common.{
  ℕ, ◌+◌, ◌<◌, Bool, true, false, ◌&&◌, List, Option, none, some, if◌then◌else◌, ◌==◌, ltb, not,
}
use contiki_device_link.Common.Bits.{has_bit}
use contiki_device_link.Common.Int.{ℤ, pos, negsuc}
use contiki_device_link.Cmp.{CmpObject, Codec, get_as, put_as, type_uint8, uint8_object}
use contiki_device_link.Sensor.{
  Action, set_on, set_off, set_toggle, Driver, relay, Sensor, RelayRuntime, ResourceConf,
  actual_value, above_event_active, below_event_active, change_event_active,
}
use contiki_device_link.Sensor.Events.{set_event_u8}
use contiki_device_link.Device.{
  Device, Gpio, last_value, set_last_value, report, action_of, event, malformed, decode_event,
}

module _ (g : Gpio) where
  open g use {
    State, set_pin, clr_pin, read_pin, set_output, set_input, software_control, override_oe,
  }

  -- 0 and the switched relay, or 1 if it was on already
  pub relay_on : Device State → ℕ × Device State
  unfolding set_last_value
  relay_on d =
      if last_value d.sensor == 0
      then (0, record d { sensor = set_last_value d.sensor 1; hardware = set_pin d.hardware })
      else (1, d)

  pub relay_off : Device State → ℕ × Device State
  unfolding set_last_value
  relay_off d =
      if last_value d.sensor == 1
      then (0, record d { sensor = set_last_value d.sensor 0; hardware = clr_pin d.hardware })
      else (1, d)

  -- `get` of the actual value; `none` is the return of 1.
  unfoldable pub get : Device State → ℕ → Option CmpObject
  get d type =
      if type == actual_value
      then some (uint8_object (if ltb 0 (read_pin d.hardware) then 1 else 0))
      else none

  -- the event is reported only if the relay changed
  pub off_reported : Device State → ℕ × Device State
  unfolding relay_off
  off_reported d =
      let (ret, e) = relay_off d in
      (ret, (if ret == 0 then report e (set_event_u8 e.sensor (negsuc 0) 1) else e))

  pub on_reported : Device State → ℕ × Device State
  unfolding relay_on
  on_reported d =
      let (ret, e) = relay_on d in
      (ret, (if ret == 0 then report e (set_event_u8 e.sensor (pos 1) 1) else e))

  act : Device State → Option Action → ℕ × Device State
  act d none = (1, d)
  act d (some set_off) = off_reported d
  act d (some set_on) = on_reported d
  act d (some set_toggle) = if ltb 0 (read_pin d.hardware) then off_reported d else on_reported d

  -- `set`, the function `value` of a relay
  pub value : Device State → ℤ → ℕ × Device State
  unfolding act
  value d type = if d.sensor.runtime.enabled == 0 then (1, d) else act d (action_of type)

  -- `configure` with SUSENSORS_ACTIVE
  pub configure_active : Device State → Bool → Device State
  configure_active d true = record d {
    hardware = clr_pin (override_oe (set_output (software_control d.hardware)));
    sensor = record (d.sensor) { runtime = record (d.sensor.runtime) { enabled = 1 } };
  }
  configure_active d false = record d {
    hardware = set_input d.hardware;
    sensor = record (d.sensor) { runtime = record (d.sensor.runtime) { enabled = 0 } };
  }

  -- A handler (`setOnhandler` and its like) makes its action.
  unfoldable pub run_handler : Device State → Option Action → Device State
  unfolding value
  run_handler d none = d
  run_handler d (some set_on) = (value d (pos 0)).1
  run_handler d (some set_off) = (value d (pos 1)).1
  run_handler d (some set_toggle) = (value d (pos 2)).1

  -- `eventHandler`: above switches on, else below switches off, else change toggles.
  pub event_handler : Codec → Device State → List ℕ → ℕ × Device State
  unfolding value
  event_handler codec d payload = elim (decode_event codec payload) [
    | malformed code ↦ (code, d)
    | event e ↦ (
      0,
      (if has_bit e above_event_active
          then (value d (pos 0)).1
          else (if has_bit e below_event_active
              then (value d (pos 1)).1
              else (if has_bit e change_event_active then (value d (pos 2)).1 else d))),
    )
  ]
