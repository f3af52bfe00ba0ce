-- ===== src/Sensor/Config.antt =====
-- sensorsUnleashed/dev/susensorcommon.c, `suconfig`: the settings that all sensors share, with the two
-- helpers of lib/cmp_helpers.c that it calls, `cp_decodeObject` and `cp_encodeObject`.
pub mod Laws
use contiki_device_link.Common.{
  ℕ, ◌+◌, ◌%◌, List, ◌++◌, [], Option, none, some, if◌then◌else◌, ◌==◌, drop, length,
}
use contiki_device_link.Common.Int.{ℤ, pos, sub_ℕ}
use contiki_device_link.Cmp.{CmpObject, Codec, Read, type_uint8, uint8_object}
use contiki_device_link.Sensor.{Sensor, ResourceConf}

-- enum susensors_configcmd
pub data ConfigCmd : Type 0 where
  eventsetup_set eventsetup_get cevent_get aevent_get bevent_get : ConfigCmd
  rangemax_get rangemin_get eventstate_get : ConfigCmd

-- what is written through `data`
pub data Output : Type 0 where
  untouched : Output
  object : CmpObject → Output
  bytes : List ℕ → Output

pub record Reply : Type 0 where
  pub ret : ℤ
  pub sensor : Sensor
  pub output : Output

module _ (codec : Codec) where
  -- `cp_decodeObject(payload + len, …)`: the object and the bytes read, if it returns 0
  unfoldable pub cp_decode_object : List ℕ → Option (CmpObject × ℕ)
  cp_decode_object buffer =
      let r = codec.read_object buffer in elim (r.value) [ none ↦ none | some o ↦ some (o, r.used) ]

  unfoldable pub cp_encode_object : CmpObject → List ℕ
  cp_encode_object o = codec.write_object o

  -- the next object of the setup list, if it has the type that the setting has
  pub next_object : List ℕ → ℕ → ℕ → Option (CmpObject × ℕ)
  unfolding cp_decode_object
  next_object payload len type = elim (cp_decode_object (drop len payload)) [
    | none ↦ none
    | some (o, used) ↦ if o.type == type then some (o, len + used) else none
  ]

  set_events_active : ResourceConf → List ℕ → ℕ → ℕ × ResourceConf
  set_events_active c payload len = elim (next_object payload len type_uint8) [
    | none ↦ (4, c)
    | some (o, _) ↦ (0, record c { events_active = o.word % 256 })
  ]

  set_change : ResourceConf → List ℕ → ℕ → ℕ × ResourceConf
  set_change c payload len = elim (next_object payload len c.change_event.type) [
    | none ↦ (3, c)
    | some (o, len') ↦ set_events_active (record c { change_event = o }) payload len'
  ]

  set_below : ResourceConf → List ℕ → ℕ → ℕ × ResourceConf
  set_below c payload len = elim (next_object payload len c.below_event_at.type) [
    | none ↦ (2, c)
    | some (o, len') ↦ set_change (record c { below_event_at = o }) payload len'
  ]

  -- SUSENSORS_EVENTSETUP_SET: the code that is returned, and the configuration after it
  pub eventsetup : ResourceConf → List ℕ → ℕ × ResourceConf
  unfolding set_events_active set_change set_below
  eventsetup c payload = elim (next_object payload 0 c.above_event_at.type) [
    | none ↦ (1, c)
    | some (o, len) ↦ set_below (record c { above_event_at = o }) payload len
  ]

  -- the bytes of SUSENSORS_EVENTSETUP_GET
  pub setup_bytes : ResourceConf → List ℕ
  unfolding cp_encode_object
  setup_bytes c =
      cp_encode_object c.above_event_at
      ++ (cp_encode_object c.below_event_at
          ++ (cp_encode_object c.change_event ++ cp_encode_object (uint8_object c.events_active)))

  answer : Sensor → CmpObject → Reply
  answer this o = record { ret = pos 0; sensor = this; output = object o }

  -- `payload` is what `data` shows for the command that reads it. EVENTSETUP_GET returns the buffer's
  -- start minus its end.
  pub suconfig : Sensor → ConfigCmd → List ℕ → Reply
  unfolding answer
  suconfig this eventsetup_set payload =
      let (ret, c) = eventsetup this.config payload in
      record { ret = pos ret; sensor = record this { config = c }; output = untouched }
  suconfig this eventsetup_get payload =
      let out = setup_bytes this.config in
      record { ret = sub_ℕ 0 (length out); sensor = this; output = bytes out }
  suconfig this cevent_get payload = answer this this.config.change_event
  suconfig this aevent_get payload = answer this this.config.above_event_at
  suconfig this bevent_get payload = answer this this.config.below_event_at
  suconfig this rangemax_get payload = answer this this.config.range_max
  suconfig this rangemin_get payload = answer this this.config.range_min
  suconfig this eventstate_get payload = answer this (uint8_object this.config.events_active)
