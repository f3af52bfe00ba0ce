-- ===== src/Device/Tests/Outputs.antt =====
-- Runs of the relay and the LED indicator.
use contiki_device_link.Common.{◌≡◌, refl, true, false, [], ◌∷◌, arith}
use contiki_device_link.Sensor.{set_on, set_toggle}
use contiki_device_link.Device.{Device, decode_event, event}
use contiki_device_link.Sensor.Config.{cp_decode_object}
use contiki_device_link.Device.Relay.Laws.{IsSwitch, run, run-IsSwitch}
use contiki_device_link.Device.Tests.Fixtures.{Pin, pin, three_bytes, device}

abbrev off : Device Pin
off = device (record { out = true; level = 0 }) 0

off-IsSwitch : IsSwitch pin off false
off-IsSwitch = record {
  output = refl;
  enabled = omega arith;
  value_is = refl;
  pin_is = refl;
  flag = omega arith;
}

abbrev on : Device Pin
on = device (record { out = true; level = 4 }) 1

on-IsSwitch : IsSwitch pin on true
on-IsSwitch = record {
  output = refl;
  enabled = omega arith;
  value_is = refl;
  pin_is = refl;
  flag = omega arith;
}

run-IsSwitch_example : IsSwitch pin (run pin off (set_toggle ∷ set_on ∷ set_toggle ∷ [])) false
run-IsSwitch_example =
    run-IsSwitch pin (set_toggle ∷ set_on ∷ set_toggle ∷ []) off false off-IsSwitch

above_and_change_message : decode_event three_bytes (10 ∷ 14 ∷ 1 ∷ 0 ∷ []) ≡ event 10
unfolding decode_event cp_decode_object
above_and_change_message = refl
