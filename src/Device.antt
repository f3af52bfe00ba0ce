-- ===== src/Device.antt =====
-- sensorsUnleashed/dev: the drivers. Each child models one of relay.c, ledindicator.c, mainsdetect.c,
-- pulsesensor.c and button-sensor.c. What they share stands here: the state of a driver with its
-- hardware, and the interfaces to Contiki's GPIO macros and LED library, which are not of this
-- repository.
pub mod Relay
pub mod Led
pub mod Mains
pub mod Pulse
pub mod Button
pub mod Setup
pub mod Tests
use contiki_device_link.Common.{
  ℕ, zero, suc, List, drop, ◌+◌, ◌-◌, ◌≤◌, ◌<◌, ◌≡◌, Bool, true, false, Option, none, some, bit_and,
  if◌then◌else◌,
}
use contiki_device_link.Common.Int.{ℤ, pos, negsuc}
use contiki_device_link.Cmp.{Codec, get_as, put_as}
use contiki_device_link.Sensor.{
  Action, set_on, set_off, set_toggle, Sensor, above_event_active, below_event_active,
  change_event_active,
}
use contiki_device_link.Sensor.Config.{cp_decode_object}

-- A sensor, the hardware that its driver works on, and how often `process_poll` was called.
pub record Device (S : Type 0) : Type 0 where
  pub hardware : S
  pub sensor : Sensor
  pub polls : ℕ

-- the sensor after `setEventU8` or `setEventU16`
abbrev pub report : {S : Type 0} → Device S → Sensor × Bool → Device S
report d (s, polled) = record d { sensor = s; polls = d.polls + (if polled then 1 else 0) }

-- `LastValue.as.u8` of the runtime, which drivers set themselves
abbrev pub last_value : Sensor → ℕ
last_value s = get_as 256 s.runtime.last_value

unfoldable pub set_last_value : Sensor → ℕ → Sensor
set_last_value s v = record s {
  runtime = record (s.runtime) { last_value = put_as 256 s.runtime.last_value v };
}

-- One pin of a GPIO port. A pin that is an output reads as it was last written.
pub record Gpio : Type 1 where
  pub State : Type 0
  pub software_control : State → State
  pub set_output : State → State
  pub set_input : State → State
  pub override_oe : State → State
  pub set_pin : State → State
  pub clr_pin : State → State
  pub read_pin : State → ℕ
  pub IsOutput : State → Type 0
  pub set_output-IsOutput : (s : State) → IsOutput (set_output s)
  pub override_oe-IsOutput : (s : State) → IsOutput s → IsOutput (override_oe s)
  pub set_pin-IsOutput : (s : State) → IsOutput s → IsOutput (set_pin s)
  pub clr_pin-IsOutput : (s : State) → IsOutput s → IsOutput (clr_pin s)
  pub read-set_pin : (s : State) → IsOutput s → 0 < read_pin (set_pin s)
  pub read-clr_pin : (s : State) → IsOutput s → read_pin (clr_pin s) ≡ 0

-- Contiki's dev/leds.h: a byte of LEDs, of which a mask, again a byte, is switched.
pub record Leds : Type 1 where
  pub State : Type 0
  pub leds_on : ℕ → State → State
  pub leds_off : ℕ → State → State
  pub leds_toggle : ℕ → State → State
  pub leds_get : State → ℕ
  pub get-on : (m : ℕ) (s : State) → m < 256 → bit_and (leds_get (leds_on m s)) m ≡ m
  pub get-off : (m : ℕ) (s : State) → m < 256 → bit_and (leds_get (leds_off m s)) m ≡ 0
  pub get-toggle :
      (m : ℕ) (s : State)
      → m < 256
      → bit_and (leds_get (leds_toggle m s)) m ≡ m - bit_and (leds_get s) m

-- The argument `type` of the function `value`, as one of enum su_basic_actions.
abbrev action_number : ℕ → Option Action
action_number zero = some set_on
action_number (suc zero) = some set_off
action_number (suc (suc zero)) = some set_toggle
action_number (suc (suc (suc n))) = none

abbrev pub action_of : ℤ → Option Action
action_of (pos n) = action_number n
action_of (negsuc n) = none

-- `getFunctionPtr` (relay.c, ledindicator.c): the handler for a trigger, by the action it makes. A
-- negative trigger is a large number as an enum, and has none.
abbrev pub get_function_ptr : ℤ → Option Action
get_function_ptr = action_of

-- `setEventhandlers` (relay.c, ledindicator.c)
unfoldable pub set_eventhandlers : Sensor → ℤ → ℤ → ℤ → Sensor
set_eventhandlers this above below change = record this {
  above_eventhandler = get_function_ptr above;
  below_eventhandler = get_function_ptr below;
  change_eventhandler = get_function_ptr change;
}

-- The start of `eventHandler`: the event byte, if byte and object can be read; else the error code.
pub data EventMessage : Type 0 where
  event : ℕ → EventMessage
  malformed : ℕ → EventMessage

unfoldable pub decode_event : Codec → List ℕ → EventMessage
decode_event codec payload =
    let r = codec.read_uchar payload in
    elim (r.value) [
      | none ↦ malformed 1
      | some e ↦ elim (cp_decode_object codec (drop r.used payload)) [
        | none ↦ malformed 2
        | some _ ↦ event e
      ]
    ]
