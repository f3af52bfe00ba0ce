-- ===== src/Sensor.antt =====
-- sensorsUnleashed/lib/susensors.h and lib/cmp_helpers.h: the data of a sensor, and
-- `susensors_changed` (lib/susensors.c) by which a driver reports its events. `Events` is
-- the event engine of dev/susensorcommon.c; the devices, the registry and the pairing build on it.
pub mod Events
pub mod Config
use contiki_device_link.Common.{ℕ, Bool, true, List, Option, bit_or}
use contiki_device_link.Common.Int.{ℤ}
use contiki_device_link.Cmp.{CmpObject}

-- SUSENSORS_*_EVENT, the bits of `event_flag`
abbrev pub susensors_no_event : ℕ
susensors_no_event = 0

abbrev pub susensors_above_event : ℕ
susensors_above_event = 2

abbrev pub susensors_below_event : ℕ
susensors_below_event = 4

abbrev pub susensors_change_event : ℕ
susensors_change_event = 8

-- enum eventstate, the bits of `eventsActive` and `hasEvent`
abbrev pub no_event_active : ℕ
no_event_active = 1

abbrev pub above_event_active : ℕ
above_event_active = 2

abbrev pub below_event_active : ℕ
below_event_active = 4

abbrev pub change_event_active : ℕ
change_event_active = 8

-- enum su_basic_actions
pub data Action : Type 0 where
  set_on set_off set_toggle : Action

-- enum up_parameter: the one reading that a driver serves
abbrev pub actual_value : ℕ
actual_value = 0

-- struct resourceconf
pub record ResourceConf : Type 0 where
  pub id : ℕ
  pub resolution : ℕ
  pub version : ℕ
  pub flags : ℕ
  pub max_pollinterval : ℤ
  pub events_active : ℕ
  pub above_event_at : CmpObject
  pub below_event_at : CmpObject
  pub change_event : CmpObject
  pub range_min : CmpObject
  pub range_max : CmpObject
  pub unit : List ℕ
  pub spec : List ℕ
  pub type : List ℕ
  pub group : List ℕ
  pub attr : List ℕ

-- struct relayRuntime
pub record RelayRuntime : Type 0 where
  pub enabled : ℕ
  pub has_event : ℕ
  pub last_event_value : CmpObject
  pub last_value : CmpObject
  pub change_event_acc : CmpObject

-- The driver whose functions a sensor's pointers `value`, `configure`, `status`, `eventhandler` and
-- `setEventhandlers` show.
pub data Driver : Type 0 where
  relay led pulse mains button : Driver

-- struct joinpair_s (pairing.h). `mmem` strings and `char*` are byte lists; a pointer that is 0 is
-- `none`. The device that `deviceptr` shows is the one whose list `pairs` holds the pair.
pub record JoinPair : Type 0 where
  pub dsturl : List ℕ
  pub dsturl_above : Option (List ℕ)
  pub dsturl_below : Option (List ℕ)
  pub dsturl_change : Option (List ℕ)
  pub srcurl : List ℕ
  pub triggers : List ℤ
  pub destip : List ℕ

-- struct susensors_sensor, with struct extras: `config`, `runtime`, `mask` (the LED's runtime) and
-- `resource` (a CoAP resource's number). A handler pointer is the action that it makes, or NULL.
pub record Sensor : Type 0 where
  pub type : List ℕ
  pub driver : Driver
  pub event_flag : ℕ
  pub above_eventhandler : Option Action
  pub below_eventhandler : Option Action
  pub change_eventhandler : Option Action
  pub config : ResourceConf
  pub runtime : RelayRuntime
  pub mask : ℕ
  pub resource : Option ℕ
  pub pairs : List JoinPair

-- `susensors_changed`. The flag beside the sensor says that `process_poll` was called.
unfoldable pub susensors_changed : Sensor → ℕ → Sensor × Bool
susensors_changed s event = (record s { event_flag = bit_or s.event_flag event }, true)
