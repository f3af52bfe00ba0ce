-- ===== src/Device/Tests/Inputs.antt =====
-- Runs of the mains detector, the pulse counter and the button, and of the event engine and the
-- event setup that they share.
use contiki_device_link.Common.{ℕ, ◌≡◌, refl, true, false, List, [], ◌∷◌, ◌++◌, arith, length}
use contiki_device_link.Common.Int.{pos, negsuc, sub_ℕ}
use contiki_device_link.Sensor.{susensors_changed}
use contiki_device_link.Sensor.Events.{set_event}
use contiki_device_link.Sensor.Config.{
  suconfig, eventsetup, eventsetup_set, eventsetup_get, bytes, untouched,
}
use contiki_device_link.Sensor.Config.Laws.{IsSetUp, eventsetup-IsSetUp, eventsetup_round_trip}
use contiki_device_link.Device.{Device}
use contiki_device_link.Device.Mains.{
  Timer, pulse, gone, interrupts, IsDetector, interrupts-IsDetector,
}
use contiki_device_link.Device.Pulse.{Counter}
use contiki_device_link.Device.Button.{Button}
use contiki_device_link.Device.Tests.Fixtures.{
  three_bytes, three_bytes-ReadsObjects, three_bytes-StoresU8, setup, with_value, device,
}

falling_value_polls : (set_event 256 (with_value 1) (negsuc 0) 1).1 ≡ true
unfolding set_event susensors_changed
falling_value_polls = refl

-- the second object has another type than the lower threshold
eventsetup-IsSetUp_example :
    let (ret, c') = eventsetup three_bytes setup (14 ∷ 9 ∷ 0 ∷ 15 ∷ 3 ∷ 0 ∷ []) in
    IsSetUp three_bytes setup (14 ∷ 9 ∷ 0 ∷ 15 ∷ 3 ∷ 0 ∷ []) ret c'
eventsetup-IsSetUp_example = eventsetup-IsSetUp three_bytes setup (14 ∷ 9 ∷ 0 ∷ 15 ∷ 3 ∷ 0 ∷ [])

eventsetup_round_trip_example :
    let s = with_value 5 in
    (out : List ℕ) × ((suconfig three_bytes s eventsetup_get []).output ≡ bytes out)
    × ((suconfig three_bytes s eventsetup_get []).ret ≡ sub_ℕ 0 (length out))
    × (suconfig three_bytes s eventsetup_set (out ++ 7 ∷ [])
        ≡ record { ret = pos 0; sensor = s; output = untouched })
eventsetup_round_trip_example =
    eventsetup_round_trip three_bytes three_bytes-ReadsObjects three_bytes-StoresU8 (with_value 5)
      (with_value 5) (7 ∷ []) (omega arith) (omega arith) (omega arith) (omega arith) refl refl refl

abbrev detector : Device Timer
detector = device (record { taen = true; tben = false; tbv = 0; tav = 0; green = false }) 0

detector-IsDetector : IsDetector detector false
detector-IsDetector = record { value_is = refl; flag = omega arith }

interrupts-IsDetector_example : IsDetector (interrupts detector (pulse ∷ pulse ∷ gone ∷ [])) false
interrupts-IsDetector_example =
    interrupts-IsDetector (pulse ∷ pulse ∷ gone ∷ []) detector false detector-IsDetector

abbrev counter : ℕ → Device Counter
counter n = record {
  hardware = record { tar = 0; tailr = n };
  sensor = record (with_value 7) {
    config = record setup { change_event = record { type = 15; word = n } };
  };
  polls = 0;
}

abbrev button : Device Button
button = record {
  hardware = record {
    press_duration = 128;
    press_event_counter = 3;
    counting = false;
    debounces = 0;
    long_presses = 0;
  };
  sensor = with_value 0;
  polls = 0;
}
