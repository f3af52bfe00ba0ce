-- ===== src/Device/Pulse.antt =====
-- sensorsUnleashed/dev/pulsesensor.c: the pulse counter. The hardware is the pair of timer registers
-- that the code reads: GPTIMER_TAR, the pulses since the last interrupt, and GPTIMER_TAILR, the
-- number of pulses at which the interrupt comes.
use contiki_device_link.Common.{
  ℕ, zero, suc, ◌+◌, ◌*◌, ◌%◌, ◌<◌, ◌≡◌, refl, ap, ◌∙◌, Option, none, some, if◌then◌else◌, ◌==◌,
  leb, arith,
}
use contiki_device_link.Common.Int.{pos}
use contiki_device_link.Cmp.{CmpObject, get_as, put_as, uint16_object, get_as-put_as}
use contiki_device_link.Sensor.{ResourceConf, actual_value}
use contiki_device_link.Sensor.Events.{set_event_u16, accumulated, change_reached}
use contiki_device_link.Sensor.Events.Emit.{rest-set_event}
use contiki_device_link.Sensor.Events.Change.{stored_acc, config-set_event}
use contiki_device_link.Device.{Device, report}

pub record Counter : Type 0 where
  pub tar : ℕ
  pub tailr : ℕ

abbrev pub u16 : ℕ → ℕ
u16 x = x % 65536

-- `get` of the actual value; `none` is the return of 1.
unfoldable pub pulse_get : Device Counter → ℕ → Option CmpObject
pulse_get d type =
    if type == actual_value
    then some (uint16_object (u16 (u16 d.hardware.tar + get_as 65536 d.sensor.runtime.last_value)))
    else none

-- `configure` with SUSENSORS_HW_INIT, as far as it sets the registers above
unfoldable pub pulse_init : Device Counter → Device Counter
pulse_init d = record d {
  hardware = record (d.hardware) { tailr = get_as 65536 d.sensor.config.change_event };
}

-- One round of pulseinput_int_process.
unfoldable pub pulse_polled : Device Counter → Device Counter
pulse_polled d =
    let r = d.sensor.runtime in
    let value = put_as 65536 r.last_value (u16 (get_as 65536 r.last_value + d.hardware.tailr)) in
    let s = record (d.sensor) { runtime = record r { last_value = value } } in
    report d (set_event_u16 s (pos 1) d.hardware.tailr)

unfoldable pub pulse_rounds : Device Counter → ℕ → Device Counter
pulse_rounds d zero = d
pulse_rounds d (suc n) = pulse_rounds (pulse_polled d) n

abbrev pub steps_so_far : Device Counter → ℕ
steps_so_far d = get_as 65536 d.sensor.runtime.change_event_acc

abbrev pub change_at : Device Counter → ℕ
change_at d = get_as 65536 d.sensor.config.change_event

pulse_polled_lem :
    (d : Device Counter)
    → (pulse_polled d).sensor.runtime.change_event_acc
      ≡ put_as 65536 d.sensor.runtime.change_event_acc (
          if leb (change_at d) ((steps_so_far d + d.hardware.tailr % 256) % 65536)
          then 0
          else (steps_so_far d + d.hardware.tailr % 256) % 65536)
unfolding pulse_polled change_reached accumulated
pulse_polled_lem d = stored_acc 65536 _ (pos 1) d.hardware.tailr

same_setup :
    (d : Device Counter)
    → ((pulse_polled d).sensor.config ≡ d.sensor.config) × ((pulse_polled d).hardware ≡ d.hardware)
unfolding pulse_polled
same_setup d = (config-set_event 65536 _ (pos 1) d.hardware.tailr, refl)

-- The rounds with a threshold that is a multiple of 256 add nothing.
stuck_round :
    (d : Device Counter)
    → d.hardware.tailr % 256 ≡ 0
    → steps_so_far d < change_at d
    → steps_so_far (pulse_polled d) ≡ steps_so_far d
stuck_round d multiple below =
    let same : (steps_so_far d + d.hardware.tailr % 256) % 65536 ≡ steps_so_far d = omega arith in
    ap (get_as 65536) (pulse_polled_lem d)
    ∙ (ap
          (λ n.
            get_as 65536 (
              put_as 65536 d.sensor.runtime.change_event_acc
                (if leb (change_at d) n then 0 else n)))
          same
        ∙ (get_as-put_as 65536 d.sensor.runtime.change_event_acc
              (if leb (change_at d) (steps_so_far d) then 0 else steps_so_far d) (ground arith)
            ∙ ground arith))

-- A pulse counter whose register GPTIMER_TAILR holds a multiple of 256 never raises the change event,
-- however many rounds pass: the step is cut to a byte, and the accumulated steps stay as they are,
-- below the threshold.
pulse_rounds_stuck :
    (n : ℕ) (d : Device Counter)
    → d.hardware.tailr % 256 ≡ 0
    → steps_so_far d < change_at d
    → (steps_so_far (pulse_rounds d n) ≡ steps_so_far d)
      × (steps_so_far (pulse_rounds d n) < change_at (pulse_rounds d n))
unfolding pulse_rounds
pulse_rounds_stuck zero d multiple below = (refl, below)
pulse_rounds_stuck (suc n) d multiple below =
    let (config, hardware) = same_setup d in
    let one = stuck_round d multiple below in
    let threshold = ap (λ (c : ResourceConf). get_as 65536 c.change_event) config in
    let rest =
      pulse_rounds_stuck n (pulse_polled d)
        (ap (λ (h : Counter). h.tailr % 256) hardware ∙ multiple) (omega (arith, one, threshold)) in
    (rest.0 ∙ one, rest.1)

last_value-polled :
    (d : Device Counter)
    → get_as 65536 (pulse_polled d).sensor.runtime.last_value
      ≡ (get_as 65536 d.sensor.runtime.last_value + d.hardware.tailr) % 65536
unfolding pulse_polled
last_value-polled d =
    let r = d.sensor.runtime in
    let v = u16 (get_as 65536 r.last_value + d.hardware.tailr) in
    ap (get_as 65536)
      (rest-set_event 65536
        (record (d.sensor) { runtime = record r { last_value = put_as 65536 r.last_value v } })
        (pos 1) d.hardware.tailr).1
    ∙ get_as-put_as 65536 r.last_value v (omega arith)

-- The value counts every pulse: after `n` rounds it has grown by `n` times the number of pulses per
-- round, modulo 2 ^ 16.
last_value-pulse_rounds :
    (n : ℕ) (d : Device Counter)
    → get_as 65536 (pulse_rounds d n).sensor.runtime.last_value
      ≡ (get_as 65536 d.sensor.runtime.last_value + n * d.hardware.tailr) % 65536
unfolding pulse_rounds
last_value-pulse_rounds zero d = omega arith
last_value-pulse_rounds (suc n) d =
    let (_, hardware) = same_setup d in
    let pulses = ap (λ (h : Counter). n * h.tailr) hardware in
    last_value-pulse_rounds n (pulse_polled d) ∙ omega (arith, last_value-polled d, pulses)
