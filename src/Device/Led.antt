-- ===== src/Device/Led.antt =====
-- sensorsUnleashed/dev/ledindicator.c: an LED indicator, over Contiki's LED library.
use contiki_device_link.Common.{
  ℕ, ◌<◌, ◌≡◌, ap, ◌∙◌, true, List, Option, none, some, if◌then◌else◌, ◌==◌, ltb, bit_and, arith,
}
use contiki_device_link.Common.Bits.{has_bit}
use contiki_device_link.Common.Int.{ℤ, pos}
use contiki_device_link.Cmp.{CmpObject, Codec, uint8_object}
use contiki_device_link.Sensor.{
  Action, set_on, set_off, set_toggle, actual_value, above_event_active, below_event_active,
  change_event_active,
}
use contiki_device_link.Device.{Device, Leds, action_of, event, malformed, decode_event}

module _ (l : Leds) where
  open l use {State, leds_on, leds_off, leds_toggle, leds_get}

  switch_leds : Device State → Option Action → ℕ × Device State
  switch_leds d none = (1, d)
  switch_leds d (some set_toggle) =
      (0, record d { hardware = leds_toggle d.sensor.mask d.hardware })
  switch_leds d (some set_on) = (0, record d { hardware = leds_on d.sensor.mask d.hardware })
  switch_leds d (some set_off) = (0, record d { hardware = leds_off d.sensor.mask d.hardware })

  -- `set`, the function `value` of an indicator
  unfoldable pub led_value : Device State → ℤ → ℕ × Device State
  unfolding switch_leds
  led_value d type = switch_leds d (action_of type)

  -- `get` of the actual value; `none` is the return of 1.
  unfoldable pub led_get : Device State → ℕ → Option CmpObject
  led_get d type =
      if type == actual_value
      then some
          (uint8_object (if ltb 0 (bit_and (leds_get d.hardware) d.sensor.mask) then 1 else 0))
      else none

  -- `eventHandler`: unlike the relay's, it toggles on a change also after above or below.
  unfoldable pub led_event_handler : Codec → Device State → List ℕ → ℕ × Device State
  unfolding led_value
  led_event_handler codec d payload = elim (decode_event codec payload) [
    | malformed code ↦ (code, d)
    | event e ↦
        let d' =
          if has_bit e above_event_active
          then (led_value d (pos 0)).1
          else (if has_bit e below_event_active then (led_value d (pos 1)).1 else d) in
        (0, (if has_bit e change_event_active then (led_value d' (pos 2)).1 else d'))
  ]

  above_and_change :
      (codec : Codec) (d : Device State) (payload : List ℕ) (e : ℕ)
      → decode_event codec payload ≡ event e
      → has_bit e above_event_active ≡ true
      → has_bit e change_event_active ≡ true
      → led_event_handler codec d payload ≡ (0, (led_value (led_value d (pos 0)).1 (pos 2)).1)
  unfolding led_event_handler
  above_and_change codec d payload e decoded above change =
      rw (decoded, led_event_handler) (rw (above, change))

  -- A posted event that carries both above and change leaves the LEDs of the mask, a byte, off: they
  -- are switched on and toggled at once.
  pub led_above_and_change :
      (codec : Codec) (d : Device State) (payload : List ℕ) (e : ℕ)
      → d.sensor.mask < 256
      → decode_event codec payload ≡ event e
      → has_bit e above_event_active ≡ true
      → has_bit e change_event_active ≡ true
      → led_get (led_event_handler codec d payload).1 actual_value ≡ some (uint8_object 0)
  unfolding led_get
  led_above_and_change codec d payload e byte decoded above change =
      ap (λ (r : ℕ × Device State). led_get r.1 actual_value)
        (above_and_change codec d payload e decoded above change)
      ∙ unfold led_value in
        ground (
          arith,
          l.get-on d.sensor.mask d.hardware byte,
          l.get-toggle d.sensor.mask (leds_on d.sensor.mask d.hardware) byte,
        )
