-- ===== src/Sensor/Events/Change.antt =====
-- How often `setEventU8` and `setEventU16` raise the change event when the value moves by single steps.
use contiki_device_link.Common.{ℕ, ◌+◌, ◌≡◌, Bool, List, [], ◌∷◌, if◌then◌else◌, arith}
use contiki_device_link.Common.Bits.{has_bit}
use contiki_device_link.Common.Int.{ℤ}
use contiki_device_link.Cmp.{get_as, put_as}
use contiki_device_link.Sensor.{Sensor, susensors_changed, susensors_change_event}
use contiki_device_link.Sensor.Events.{accumulated, change_reached, set_event}

-- the sensor after the process has told its events
abbrev pub told : Sensor → Sensor
told s = record s { event_flag = 0 }

-- one call with step 1, when no event is pending
abbrev pub stepped : ℕ → Sensor → ℤ → Sensor
stepped m s dir = (set_event m (told s) dir 1).0

-- a row of calls, each in the direction of its entry: the sensor after it
pub moved : ℕ → Sensor → List ℤ → Sensor
moved m s [] = s
moved m s (dir ∷ dirs) = moved m (stepped m s dir) dirs

-- and how many of the calls left the change event in the sensor's flag
pub changes_raised : ℕ → Sensor → List ℤ → ℕ
changes_raised m s [] = 0
changes_raised m s (dir ∷ dirs) =
    (if has_bit (stepped m s dir).event_flag susensors_change_event then 1 else 0)
    + changes_raised m (stepped m s dir) dirs

abbrev threshold : ℕ → Sensor → ℕ
threshold m s = get_as m s.config.change_event

abbrev acc : ℕ → Sensor → ℕ
acc m s = get_as m s.runtime.change_event_acc

pub config-set_event :
    (m : ℕ) (s : Sensor) (dir : ℤ) (step : ℕ) → (set_event m s dir step).0.config ≡ s.config
unfolding set_event susensors_changed
config-set_event m s dir step = ground arith

pub stored_acc :
    (m : ℕ) (s : Sensor) (dir : ℤ) (step : ℕ)
    → (set_event m s dir step).0.runtime.change_event_acc
      ≡ put_as m s.runtime.change_event_acc
          (if change_reached m s step then 0 else accumulated m s step)
unfolding set_event susensors_changed
stored_acc m s dir step = ground arith

abbrev one_if : Bool → ℕ
one_if b = if b then 1 else 0
