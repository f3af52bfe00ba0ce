-- ===== src/Sensor/Events/Emit.antt =====
-- Which events `setEventU8` and `setEventU16` raise, and what they leave behind.
use contiki_device_link.Common.{
  ℕ, ◌+◌, ◌%◌, ◌≤◌, ◌<◌, ◌≡◌, ◌↔◌, ◌⊎◌, inl, inr, sym, ◌∙◌, refl, Bool, true, false, ◌&&◌, ◌||◌,
  if◌then◌else◌, arith,
}
use contiki_device_link.Common.Bits.{has_bit, bit_or-lt, has_bit-bit_or}
use contiki_device_link.Common.Int.{ℤ, is_negative}
use contiki_device_link.Cmp.{get_as}
use contiki_device_link.Sensor.{
  Sensor, susensors_changed, susensors_below_event, susensors_above_event, susensors_change_event,
  change_event_active, below_event_active, above_event_active,
}
use contiki_device_link.Sensor.Events.{crossed_below, crossed_above, change_reached, set_event}

-- The lines that a new value may cross, as conditions on the sensor before the call: a fall to the
-- lower line, a rise to the upper line, and enough steps since the last change event.
abbrev pub FallsBelow : ℕ → Sensor → ℤ → Type 0
FallsBelow m s dir =
    (is_negative dir ≡ true)
    × (get_as m s.runtime.last_value ≤ get_as m s.config.below_event_at)
    × (has_bit s.config.events_active below_event_active ≡ true)

abbrev pub RisesAbove : ℕ → Sensor → ℤ → Type 0
RisesAbove m s dir =
    (is_negative dir ≡ false)
    × (get_as m s.config.above_event_at ≤ get_as m s.runtime.last_value)
    × (has_bit s.config.events_active above_event_active ≡ true)

abbrev pub ChangesEnough : ℕ → Sensor → ℕ → Type 0
ChangesEnough m s step =
    (get_as m s.config.change_event ≤ (get_as m s.runtime.change_event_acc + step % 256) % m)
    × (has_bit s.config.events_active change_event_active ≡ true)

abbrev pub Flagged : Sensor → ℕ → Type 0
Flagged s event = has_bit s.event_flag event ≡ true

-- What one call does to the sensor.
pub record IsEmitted (m : ℕ) (s : Sensor) (dir : ℤ) (step : ℕ) (t : Sensor) (polled : Bool)
    : Type 0 where
  pub below :
      Flagged t susensors_below_event ↔ (Flagged s susensors_below_event ⊎ FallsBelow m s dir)
  pub above :
      Flagged t susensors_above_event ↔ (Flagged s susensors_above_event ⊎ RisesAbove m s dir)
  pub change :
      Flagged t susensors_change_event ↔ (Flagged s susensors_change_event ⊎ ChangesEnough m s step)
  pub polls : (polled ≡ true) ↔ (FallsBelow m s dir ⊎ (RisesAbove m s dir ⊎ ChangesEnough m s step))
  pub remembered :
      t.runtime.last_event_value
      ≡ (if polled then s.runtime.last_value else s.runtime.last_event_value)
  pub same_value : t.runtime.last_value ≡ s.runtime.last_value
  pub same_enabled : t.runtime.enabled ≡ s.runtime.enabled
  pub same_config : t.config ≡ s.config
  pub same_pairs : t.pairs ≡ s.pairs
  pub still_byte : t.event_flag < 256

-- the same with Boolean conditions
abbrev changed_enough : ℕ → Sensor → ℕ → Bool
changed_enough m s step =
    change_reached m s step && has_bit s.config.events_active change_event_active

pub flag-set_event :
    (m : ℕ) (s : Sensor) (dir : ℤ) (step : ℕ)
    → s.event_flag < 256
    → let t = (set_event m s dir step).0 in
      (has_bit t.event_flag 4 ≡ (has_bit s.event_flag 4 || crossed_below m s dir))
      × (has_bit t.event_flag 2 ≡ (has_bit s.event_flag 2 || crossed_above m s dir))
      × (has_bit t.event_flag 8 ≡ (has_bit s.event_flag 8 || changed_enough m s step))
unfolding set_event susensors_changed
flag-set_event m s dir step h = ground (
  arith,
  has_bit-bit_or s.event_flag 2 h,
  has_bit-bit_or s.event_flag 4 h,
  has_bit-bit_or s.event_flag 8 h,
  has_bit-bit_or s.event_flag 10 h,
  has_bit-bit_or s.event_flag 12 h,
)

flag-lt-set_event :
    (m : ℕ) (s : Sensor) (dir : ℤ) (step : ℕ)
    → s.event_flag < 256
    → (set_event m s dir step).0.event_flag < 256
unfolding set_event susensors_changed
flag-lt-set_event m s dir step h = ground (
  arith,
  bit_or-lt s.event_flag 2 h,
  bit_or-lt s.event_flag 4 h,
  bit_or-lt s.event_flag 8 h,
  bit_or-lt s.event_flag 10 h,
  bit_or-lt s.event_flag 12 h,
)

polled-set_event :
    (m : ℕ) (s : Sensor) (dir : ℤ) (step : ℕ)
    → (set_event m s dir step).1
      ≡ (crossed_below m s dir || (crossed_above m s dir || changed_enough m s step))
unfolding set_event susensors_changed
polled-set_event m s dir step = ground arith

pub rest-set_event :
    (m : ℕ) (s : Sensor) (dir : ℤ) (step : ℕ)
    → let (t, polled) = set_event m s dir step in
      (t.runtime.last_event_value
        ≡ (if polled then s.runtime.last_value else s.runtime.last_event_value))
      × (t.runtime.last_value ≡ s.runtime.last_value)
      × (t.runtime.enabled ≡ s.runtime.enabled)
      × (t.config ≡ s.config)
      × (t.pairs ≡ s.pairs)
unfolding set_event susensors_changed
rest-set_event m s dir step = ground arith

crossed_below_iff :
    (m : ℕ) (s : Sensor) (dir : ℤ) → (crossed_below m s dir ≡ true) ↔ FallsBelow m s dir
unfolding crossed_below
crossed_below_iff m s dir = ground arith

crossed_above_iff :
    (m : ℕ) (s : Sensor) (dir : ℤ) → (crossed_above m s dir ≡ true) ↔ RisesAbove m s dir
unfolding crossed_above
crossed_above_iff m s dir = ground arith

changed_enough_iff :
    (m : ℕ) (s : Sensor) (step : ℕ) → (changed_enough m s step ≡ true) ↔ ChangesEnough m s step
unfolding change_reached
changed_enough_iff m s step = ground arith

or_iff {ℓ} : {P : Type ℓ} (a b : Bool) → (b ≡ true) ↔ P → ((a || b) ≡ true) ↔ ((a ≡ true) ⊎ P)
or_iff true b h = ((λ _. inl refl), (λ _. refl))
or_iff false b h = ((λ e. inr (h.0 e)), (λ p. elim p [ inl e ↦ cc | inr q ↦ h.1 q ]))

or_iff_both {ℓ κ} :
    {P : Type ℓ} {Q : Type κ} (a b : Bool)
    → (a ≡ true) ↔ P
    → (b ≡ true) ↔ Q
    → ((a || b) ≡ true) ↔ (P ⊎ Q)
or_iff_both true b g h = ((λ _. inl (g.0 refl)), (λ _. refl))
or_iff_both false b g h = ((λ e. inr (h.0 e)), (λ p. elim p [ inl q ↦ cc (g.1 q) | inr q ↦ h.1 q ]))

on_equal {ℓ} : {P : Type ℓ} (t b : Bool) → t ≡ b → (b ≡ true) ↔ P → (t ≡ true) ↔ P
on_equal t b e h = ((λ p. h.0 (sym e ∙ p)), (λ p. e ∙ h.1 p))

pub set_event-IsEmitted :
    (m : ℕ) (s : Sensor) (dir : ℤ) (step : ℕ)
    → s.event_flag < 256
    → let (t, polled) = set_event m s dir step in IsEmitted m s dir step t polled
set_event-IsEmitted m s dir step h =
    let flags = flag-set_event m s dir step h in
    let rest = rest-set_event m s dir step in
    let low = crossed_below_iff m s dir in
    let high = crossed_above_iff m s dir in
    let enough = changed_enough_iff m s step in
    record {
      below = on_equal _ _ flags.0 (or_iff _ _ low);
      above = on_equal _ _ flags.1 (or_iff _ _ high);
      change = on_equal _ _ flags.2 (or_iff _ _ enough);
      polls =
          on_equal _ _ (polled-set_event m s dir step)
            (or_iff_both _ _ low (or_iff_both _ _ high enough));
      remembered = rest.0;
      same_value = rest.1;
      same_enabled = rest.2;
      same_config = rest.3;
      same_pairs = rest.4;
      still_byte = flag-lt-set_event m s dir step h;
    }
