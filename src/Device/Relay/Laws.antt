-- ===== src/Device/Relay/Laws.antt =====
-- The relay of relay.c is a switch: what `set` does to pin and value, one call and many.
use contiki_device_link.Common.{
  ℕ, ◌<◌, ◌≡◌, ◌≢◌, refl, sym, ap, subst, ◌∙◌, Bool, true, false, not, List, [], ◌∷◌, some,
  if◌then◌else◌, ltb, arith,
}
use contiki_device_link.Common.Bits.{same}
use contiki_device_link.Common.Int.{ℤ, pos, negsuc}
use contiki_device_link.Cmp.{get_as, get_as-put_as}
use contiki_device_link.Sensor.{Action, set_on, set_off, set_toggle}
use contiki_device_link.Sensor.Events.{set_event_u8}
use contiki_device_link.Sensor.Events.Emit.{set_event-IsEmitted, rest-set_event}
use contiki_device_link.Device.{last_value, set_last_value, Device, Gpio, report, action_of}
use contiki_device_link.Device.Relay.{
  relay_on, on_reported, off_reported, act, value, configure_active,
}

abbrev pub number_of : Action → ℤ
number_of set_on = pos 0
number_of set_off = pos 1
number_of set_toggle = pos 2

-- what an action makes of a switch
abbrev pub switched : Action → Bool → Bool
switched set_on b = true
switched set_off b = false
switched set_toggle b = not b

abbrev pub level : Bool → ℕ
level true = 1
level false = 0

module _ (g : Gpio) where
  open g use {State, set_pin, clr_pin, read_pin, IsOutput}

  -- The relay is enabled and drives its pin; value and pin agree on whether it is on.
  pub record IsSwitch (d : Device State) (on : Bool) : Type 0 where
    pub output : IsOutput d.hardware
    pub enabled : d.sensor.runtime.enabled ≢ 0
    pub value_is : last_value d.sensor ≡ level on
    pub pin_is : ltb 0 (read_pin d.hardware) ≡ on
    pub flag : d.sensor.event_flag < 256

  reported-IsSwitch :
      (d : Device State) (on : Bool) (dir : ℤ)
      → IsSwitch d on
      → IsSwitch (report d (set_event_u8 d.sensor dir 1)) on
  reported-IsSwitch d on dir v =
      let e = set_event-IsEmitted 256 d.sensor dir 1 v.flag in
      record {
        output = v.output;
        enabled = λ z. v.enabled (sym e.same_enabled ∙ z);
        value_is = ap (get_as 256) e.same_value ∙ v.value_is;
        pin_is = v.pin_is;
        flag = e.still_byte;
      }

  abbrev turned_on : Device State → Device State
  turned_on d = record d { sensor = set_last_value d.sensor 1; hardware = set_pin d.hardware }

  abbrev turned_off : Device State → Device State
  turned_off d = record d { sensor = set_last_value d.sensor 0; hardware = clr_pin d.hardware }

  -- A relay that changes does so on the pin, and reports the change to the event engine.
  on_reported-eq :
      (d : Device State) (on : Bool)
      → IsSwitch d on
      → on_reported g d ≡ (
          if on
          then (1, d)
          else (0, report (turned_on d) (set_event_u8 (turned_on d).sensor (pos 1) 1)))
  unfolding on_reported
  on_reported-eq d true v = ground arith
  on_reported-eq d false v = ground arith

  off_reported-eq :
      (d : Device State) (on : Bool)
      → IsSwitch d on
      → off_reported g d ≡ (
          if on
          then (0, report (turned_off d) (set_event_u8 (turned_off d).sensor (negsuc 0) 1))
          else (1, d))
  unfolding off_reported
  off_reported-eq d true v = ground arith
  off_reported-eq d false v = ground arith

  turned_on-IsSwitch : (d : Device State) (on : Bool) → IsSwitch d on → IsSwitch (turned_on d) true
  unfolding set_last_value
  turned_on-IsSwitch d on v = record {
    output = g.set_pin-IsOutput d.hardware v.output;
    enabled = v.enabled;
    value_is = get_as-put_as 256 d.sensor.runtime.last_value 1 (omega arith);
    pin_is = ground (arith, g.read-set_pin d.hardware v.output);
    flag = v.flag;
  }

  turned_off-IsSwitch :
      (d : Device State) (on : Bool) → IsSwitch d on → IsSwitch (turned_off d) false
  unfolding set_last_value
  turned_off-IsSwitch d on v = record {
    output = g.clr_pin-IsOutput d.hardware v.output;
    enabled = v.enabled;
    value_is = get_as-put_as 256 d.sensor.runtime.last_value 0 (omega arith);
    pin_is = ground (arith, g.read-clr_pin d.hardware v.output);
    flag = v.flag;
  }

  -- an outcome of `value` for a switch that was `on` and is to be `on'`
  abbrev pub Switches : Bool → Bool → ℕ × Device State → Type 0
  Switches on on' (ret, e) = IsSwitch e on' × (ret ≡ (if same on on' then 1 else 0))

  on_reported-Switches :
      (d : Device State) (on : Bool) → IsSwitch d on → Switches on true (on_reported g d)
  on_reported-Switches d true v = rw (on_reported-eq d true v) (v, refl)
  on_reported-Switches d false v =
      rw (on_reported-eq d false v)
        (reported-IsSwitch (turned_on d) true (pos 1) (turned_on-IsSwitch d false v), refl)

  off_reported-Switches :
      (d : Device State) (on : Bool) → IsSwitch d on → Switches on false (off_reported g d)
  off_reported-Switches d true v =
      rw (off_reported-eq d true v)
        (reported-IsSwitch (turned_off d) false (negsuc 0) (turned_off-IsSwitch d true v), refl)
  off_reported-Switches d false v = rw (off_reported-eq d false v) (v, refl)

  value-act :
      (d : Device State) (on : Bool) (type : ℤ)
      → IsSwitch d on
      → value g d type ≡ act g d (action_of type)
  unfolding value
  value-act d on type v = ground (arith, v.enabled)

  toggle-eq :
      (d : Device State) (on : Bool)
      → IsSwitch d on
      → act g d (some set_toggle) ≡ (if on then off_reported g d else on_reported g d)
  unfolding act
  toggle-eq d on v = rw (v.pin_is) refl

  act-Switches :
      (d : Device State) (on : Bool) (a : Action)
      → IsSwitch d on
      → Switches on (switched a on) (act g d (some a))
  unfolding act
  act-Switches d on set_on v = on_reported-Switches d on v
  act-Switches d on set_off v = off_reported-Switches d on v
  act-Switches d true set_toggle v =
      subst (Switches true false) (sym (toggle-eq d true v)) (off_reported-Switches d true v)
  act-Switches d false set_toggle v =
      subst (Switches false true) (sym (toggle-eq d false v)) (on_reported-Switches d false v)

  number_of-eq :
      (d : Device State) (a : Action) → act g d (action_of (number_of a)) ≡ act g d (some a)
  number_of-eq d set_on = refl
  number_of-eq d set_off = refl
  number_of-eq d set_toggle = refl

  -- an outcome that leaves the device's pairs
  abbrev KeepsPairs : Device State → ℕ × Device State → Type 0
  KeepsPairs d (ret, e) = e.sensor.pairs ≡ d.sensor.pairs

  on_reported-KeepsPairs :
      (d : Device State) (on : Bool) → IsSwitch d on → KeepsPairs d (on_reported g d)
  unfolding set_last_value
  on_reported-KeepsPairs d true v = rw (on_reported-eq d true v) refl
  on_reported-KeepsPairs d false v =
      rw (on_reported-eq d false v) ((rest-set_event 256 (turned_on d).sensor (pos 1) 1).4)

  off_reported-KeepsPairs :
      (d : Device State) (on : Bool) → IsSwitch d on → KeepsPairs d (off_reported g d)
  unfolding set_last_value
  off_reported-KeepsPairs d true v =
      rw (off_reported-eq d true v) ((rest-set_event 256 (turned_off d).sensor (negsuc 0) 1).4)
  off_reported-KeepsPairs d false v = rw (off_reported-eq d false v) refl

  act-KeepsPairs :
      (d : Device State) (on : Bool) (a : Action) → IsSwitch d on → KeepsPairs d (act g d (some a))
  unfolding act
  act-KeepsPairs d on set_on v = on_reported-KeepsPairs d on v
  act-KeepsPairs d on set_off v = off_reported-KeepsPairs d on v
  act-KeepsPairs d true set_toggle v =
      subst (KeepsPairs d) (sym (toggle-eq d true v)) (off_reported-KeepsPairs d true v)
  act-KeepsPairs d false set_toggle v =
      subst (KeepsPairs d) (sym (toggle-eq d false v)) (on_reported-KeepsPairs d false v)

  pub pairs-value :
      (d : Device State) (on : Bool) (a : Action)
      → IsSwitch d on
      → (value g d (number_of a)).1.sensor.pairs ≡ d.sensor.pairs
  pairs-value d on a v =
      subst (KeepsPairs d) (sym (value-act d on (number_of a) v ∙ number_of-eq d a))
        (act-KeepsPairs d on a v)

  -- `set` with one of the three actions takes an enabled relay from `on` to what the action makes of
  -- it, on the pin and in the value, and keeps it a switch. It returns 0 exactly if the relay changed,
  -- else 1.
  pub value-Switches :
      (d : Device State) (on : Bool) (a : Action)
      → IsSwitch d on
      → Switches on (switched a on) (value g d (number_of a))
  value-Switches d on a v =
      subst (Switches on (switched a on)) (sym (value-act d on (number_of a) v ∙ number_of-eq d a))
        (act-Switches d on a v)

  -- the actions of a history, one after the other
  pub run : Device State → List Action → Device State
  run d [] = d
  run d (a ∷ as') = run ((value g d (number_of a)).1) as'

  abbrev pub switched_all : List Action → Bool → Bool
  switched_all [] on = on
  switched_all (a ∷ as') on = switched_all as' (switched a on)

  -- A relay that is a switch - enabled, its pin an output whose level agrees with the value, and its flag a byte -
  -- is a switch after any history of actions, in the state that the actions make of its first one.
  pub run-IsSwitch :
      (as' : List Action) (d : Device State) (on : Bool)
      → IsSwitch d on
      → IsSwitch (run d as') (switched_all as' on)
  unfolding run
  run-IsSwitch [] d on v = v
  run-IsSwitch (a ∷ as') d on v =
      run-IsSwitch as' ((value g d (number_of a)).1) (switched a on) (value-Switches d on a v).0

  -- Activating a relay whose value is 0 and whose flag is a byte makes it a switch that is off.
  pub configure_active-IsSwitch :
      (d : Device State)
      → last_value d.sensor ≡ 0
      → d.sensor.event_flag < 256
      → IsSwitch (configure_active g d true) false
  unfolding configure_active
  configure_active-IsSwitch d z f =
      let out = g.override_oe-IsOutput _ (g.set_output-IsOutput (g.software_control d.hardware)) in
      record {
        output = g.clr_pin-IsOutput _ out;
        enabled = omega arith;
        value_is = z;
        pin_is = ground (arith, g.read-clr_pin _ out);
        flag = f;
      }

  -- A relay that is deactivated while it is on, and activated again, has its pin low and cannot be
  -- switched on: `set` with ON returns 1 and changes nothing, since the value still says that it
  -- is on.
  reactivated_stuck :
      (d : Device State)
      → IsSwitch d true
      → let e = configure_active g (configure_active g d false) true in
        (read_pin e.hardware ≡ 0) × (value g e (pos 0) ≡ (1, e))
  unfolding configure_active value act on_reported relay_on
  reactivated_stuck d v = (
    g.read-clr_pin _ (g.override_oe-IsOutput _ (g.set_output-IsOutput _)),
    ground (arith, v.value_is),
  )
