-- ===== src/Sensor/Events.antt =====
-- sensorsUnleashed/dev/susensorcommon.c, `setEventU8` and `setEventU16`: what a driver calls after a
-- new value. The two differ in the width of the value alone, the parameter `m` here.
pub mod Emit
pub mod Change
use contiki_device_link.Common.{
  ℕ, ◌+◌, ◌%◌, Bool, true, false, ◌&&◌, bit_or, if◌then◌else◌, ◌==◌, leb,
}
use contiki_device_link.Common.Bits.{has_bit}
use contiki_device_link.Common.Int.{ℤ, is_negative}
use contiki_device_link.Cmp.{get_as, put_as}
use contiki_device_link.Sensor.{
  Sensor, susensors_changed, susensors_below_event, susensors_above_event, susensors_change_event,
  no_event_active, below_event_active, above_event_active, change_event_active,
}

-- the value crossed the lower or the upper line, in the direction that counts for it
unfoldable pub crossed_below : ℕ → Sensor → ℤ → Bool
crossed_below m s dir =
    is_negative dir
    && (leb (get_as m s.runtime.last_value) (get_as m s.config.below_event_at)
        && has_bit s.config.events_active below_event_active)

unfoldable pub crossed_above : ℕ → Sensor → ℤ → Bool
crossed_above m s dir =
    if is_negative dir
    then false
    else (leb (get_as m s.config.above_event_at) (get_as m s.runtime.last_value)
        && has_bit s.config.events_active above_event_active)

-- `ChangeEventAcc` after `+= step`, which wraps at the width; `step` is a `uint8_t` in both functions.
unfoldable pub accumulated : ℕ → Sensor → ℕ → ℕ
accumulated m s step = (get_as m s.runtime.change_event_acc + step % 256) % m

unfoldable pub change_reached : ℕ → Sensor → ℕ → Bool
unfolding accumulated
change_reached m s step = leb (get_as m s.config.change_event) (accumulated m s step)

-- `setEventU8` (m = 2 ^ 8) and `setEventU16` (m = 2 ^ 16): the sensor afterwards, and whether
-- `process_poll` was called.
unfoldable pub set_event : ℕ → Sensor → ℤ → ℕ → Sensor × Bool
unfolding crossed_below crossed_above accumulated change_reached
set_event m s dir step =
    let below = crossed_below m s dir in
    let above = crossed_above m s dir in
    let reached = change_reached m s step in
    let change = reached && has_bit s.config.events_active change_event_active in
    let crossing =
      if below
      then below_event_active
      else (if above then above_event_active else no_event_active) in
    let event =
      if below then susensors_below_event else (if above then susensors_above_event else 0) in
    let has_event = if change then bit_or crossing change_event_active else crossing in
    let event' = if change then bit_or event susensors_change_event else event in
    let acc = if reached then 0 else accumulated m s step in
    let r = record (s.runtime) {
      has_event = has_event;
      change_event_acc = put_as m s.runtime.change_event_acc acc;
    } in
    if has_event == no_event_active
    then (record s { runtime = r }, false)
    else susensors_changed
        (record s { runtime = record r { last_event_value = s.runtime.last_value } }) event'

abbrev pub set_event_u8 : Sensor → ℤ → ℕ → Sensor × Bool
set_event_u8 = set_event 256

abbrev pub set_event_u16 : Sensor → ℤ → ℕ → Sensor × Bool
set_event_u16 = set_event 65536
