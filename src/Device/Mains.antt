-- ===== src/Device/Mains.antt =====
-- sensorsUnleashed/dev/mainsdetect.c: the mains detector. Pulses of the mains restart a timeout; the
-- two interrupt handlers are its state machine. Of timer 2 the model has the two enable bits of
-- the control register and the values that the handlers write; acknowledging an interrupt has no
-- effect on them.
use contiki_device_link.Common.{
  ℕ, ◌<◌, ◌≡◌, ap, ◌∙◌, Bool, true, false, not, List, [], ◌∷◌, Option, none, some, if◌then◌else◌,
  ◌==◌, arith,
}
use contiki_device_link.Common.Int.{ℤ, pos, negsuc}
use contiki_device_link.Cmp.{CmpObject, get_as, get_as-put_as}
use contiki_device_link.Sensor.{actual_value}
use contiki_device_link.Sensor.Events.{set_event_u8}
use contiki_device_link.Sensor.Events.Emit.{set_event-IsEmitted}
use contiki_device_link.Device.{Device, report, last_value, set_last_value}

abbrev tick_timeout : ℕ
tick_timeout = 60000

-- GPT_2: TAEN and TBEN of GPTIMER_CTL, GPTIMER_TBV and GPTIMER_TAV; and whether the green LED is on.
pub record Timer : Type 0 where
  pub taen : Bool
  pub tben : Bool
  pub tbv : ℕ
  pub tav : ℕ
  pub green : Bool

-- `get` of the actual value; `none` is the return of 1.
pub mains_get : Device Timer → ℕ → Option CmpObject
mains_get d type = if type == actual_value then some d.sensor.runtime.last_value else none

-- the value goes to `v`, and the event engine is told the direction
pub note_mains : Device Timer → ℕ → ℤ → Device Timer
note_mains d v dir =
    let e = record d { sensor = set_last_value d.sensor v } in
    report e (set_event_u8 e.sensor dir 1)

-- `mainsdetect_pulsecnt_isr`
pub pulsecnt_isr : Device Timer → Device Timer
unfolding note_mains
pulsecnt_isr d =
    let e = if last_value d.sensor == 0 then note_mains d 1 (pos 1) else d in
    record e { hardware = record (d.hardware) { green = true; tbv = tick_timeout; tben = true } }

-- `mainsdetect_mainsgone_isr`
pub mainsgone_isr : Device Timer → Device Timer
unfolding note_mains
mainsgone_isr d =
    let e = if last_value d.sensor == 1 then note_mains d 0 (negsuc 0) else d in
    record e {
      hardware = record (d.hardware) {
        green = false;
        taen = not d.hardware.taen;
        tben = (if d.hardware.taen then true else d.hardware.tben);
        tav = 0;
      };
    }

pub data Interrupt : Type 0 where
  pulse gone : Interrupt

pub interrupted : Device Timer → Interrupt → Device Timer
interrupted d pulse = pulsecnt_isr d
interrupted d gone = mainsgone_isr d

pub interrupts : Device Timer → List Interrupt → Device Timer
interrupts d [] = d
interrupts d (i ∷ is) = interrupts (interrupted d i) is

-- mains is present after a pulse, and not after the timeout
abbrev pub present_after : List Interrupt → Bool → Bool
present_after [] b = b
present_after (pulse ∷ is) b = present_after is true
present_after (gone ∷ is) b = present_after is false

abbrev pub mains_level : Bool → ℕ
mains_level true = 1
mains_level false = 0

abbrev direction : Bool → ℤ
direction true = pos 1
direction false = negsuc 0

-- what is told to the event engine: nothing, if the mains is as it was
abbrev pub told : Bool → Bool → Device Timer → Device Timer
told true true d = d
told false false d = d
told was now d = note_mains d (mains_level now) (direction now)

abbrev interrupt_of : Bool → Interrupt
interrupt_of true = pulse
interrupt_of false = gone

-- The value says whether mains is present.
pub record IsDetector (d : Device Timer) (present : Bool) : Type 0 where
  pub value_is : last_value d.sensor ≡ mains_level present
  pub flag : d.sensor.event_flag < 256

note_mains-IsDetector :
    (d : Device Timer) (now : Bool) (dir : ℤ)
    → d.sensor.event_flag < 256
    → IsDetector (note_mains d (mains_level now) dir) now
unfolding note_mains set_last_value
note_mains-IsDetector d now dir h =
    let e = set_event-IsEmitted 256 (set_last_value d.sensor (mains_level now)) dir 1 h in
    record {
      value_is =
          ap (get_as 256) e.same_value
          ∙ get_as-put_as 256 d.sensor.runtime.last_value (mains_level now) (small now);
      flag = e.still_byte;
    }
  where
    small : (b : Bool) → mains_level b < 256
    small true = omega arith
    small false = omega arith

-- An interrupt tells the event engine of a change, and of nothing else: a pulse while mains was gone
-- tells it 1 upwards, a timeout while mains was present 0 downwards.
interrupted-told :
    (d : Device Timer) (was now : Bool)
    → IsDetector d was
    → let e = interrupted d (interrupt_of now) in
      (e.sensor ≡ (told was now d).sensor)
      × (e.polls ≡ (told was now d).polls)
      × (e.hardware.green ≡ now)
unfolding interrupted pulsecnt_isr mainsgone_isr
interrupted-told d true true v = ground (arith, v.value_is)
interrupted-told d true false v = ground (arith, v.value_is)
interrupted-told d false true v = ground (arith, v.value_is)
interrupted-told d false false v = ground (arith, v.value_is)

told-IsDetector :
    (d e : Device Timer) (was now : Bool)
    → IsDetector d was
    → e.sensor ≡ (told was now d).sensor
    → IsDetector e now
told-IsDetector d e was now v h = record {
  value_is = ap last_value h ∙ (told_valid was now v).value_is;
  flag = rw h ((told_valid was now v).flag);
}
  where
    told_valid : (was now : Bool) → IsDetector d was → IsDetector (told was now d) now
    told_valid true true w = w
    told_valid false false w = w
    told_valid true false w = note_mains-IsDetector d false (negsuc 0) w.flag
    told_valid false true w = note_mains-IsDetector d true (pos 1) w.flag

-- Whatever interrupts arrive, the value says afterwards whether the last one was a pulse.
pub interrupts-IsDetector :
    (is : List Interrupt) (d : Device Timer) (was : Bool)
    → IsDetector d was
    → IsDetector (interrupts d is) (present_after is was)
unfolding interrupts
interrupts-IsDetector [] d was v = v
interrupts-IsDetector (pulse ∷ is) d was v =
    interrupts-IsDetector is (interrupted d pulse) true
      (told-IsDetector d (interrupted d pulse) was true v (interrupted-told d was true v).0)
interrupts-IsDetector (gone ∷ is) d was v =
    interrupts-IsDetector is (interrupted d gone) false
      (told-IsDetector d (interrupted d gone) was false v (interrupted-told d was false v).0)
