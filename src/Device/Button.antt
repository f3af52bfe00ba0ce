-- ===== src/Device/Button.antt =====
-- sensorsUnleashed/dev/button-sensor.c: the push button. Whether the debounce timer has expired and
-- the level of the pin are read from Contiki and the hardware: arguments of the callback.
use contiki_device_link.Common.{ℕ, ◌+◌, ◌%◌, Bool, true, false, if◌then◌else◌, ◌==◌}
use contiki_device_link.Common.Bits.{has_bit}
use contiki_device_link.Sensor.{
  susensors_changed, susensors_above_event, susensors_below_event, susensors_change_event,
  above_event_active, below_event_active, change_event_active,
}
use contiki_device_link.Device.{Device, report}

abbrev pub pressed_level : ℕ
pressed_level = 0

-- The statics of the driver: `press_duration`, `press_event_counter`, whether `press_counter` runs,
-- and how often the debounce timer was set and `button_press_duration_exceeded` posted.
pub record Button : Type 0 where
  pub press_duration : ℕ
  pub press_event_counter : ℕ
  pub counting : Bool
  pub debounces : ℕ
  pub long_presses : ℕ

-- `duration_exceeded_callback`
unfoldable pub duration_exceeded_callback : Button → Button
duration_exceeded_callback b = record b {
  press_event_counter = (b.press_event_counter + 1) % 256;
  long_presses = b.long_presses + 1;
  counting = true;
}

-- `configure` with BUTTON_SENSOR_CONFIG_TYPE_INTERVAL
unfoldable pub configure_interval : Button → ℕ → Button
configure_interval b value = record b { press_duration = value }

-- `susensors_changed(thisptr, event)` if the configuration has events of this kind on
unfoldable pub changed_if_active : Device Button → ℕ → ℕ → Device Button
changed_if_active d active event =
    if has_bit d.sensor.config.events_active active
    then report d (susensors_changed d.sensor event)
    else d

-- the block `if(press_duration)`
unfoldable pub press_or_release : Device Button → ℕ → Device Button
unfolding changed_if_active
press_or_release d level =
    let b = record (d.hardware) { press_event_counter = 0 } in
    if level == pressed_level
    then changed_if_active (record d { hardware = record b { counting = true } }) below_event_active
        susensors_below_event
    else changed_if_active (record d { hardware = record b { counting = false } })
        above_event_active susensors_above_event

unfoldable pub btn_callback : Device Button → Bool → ℕ → Device Button
unfolding press_or_release changed_if_active
btn_callback d false level = d
btn_callback d true level =
    let e = record d { hardware = record (d.hardware) { debounces = d.hardware.debounces + 1 } } in
    let f = if d.hardware.press_duration == 0 then e else press_or_release e level in
    changed_if_active f change_event_active susensors_change_event
