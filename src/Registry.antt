-- ===== src/Registry.antt =====
-- sensorsUnleashed/lib/susensors.c: the devices that the firmware registers, how a request's URL
-- finds one, and the notifications that the process sends for raised events. `Pair` models the
-- process's pairing event and the notification callbacks, `Missing` the search for nodes that do not answer.
pub mod Devices
pub mod Find
pub mod Notify
pub mod Pair
pub mod Missing
pub mod Tests
use contiki_device_link.Common.{
  ℕ, zero, suc, ◌-◌, ◌%◌, Bool, true, false, ◌&&◌, ◌||◌, List, [], ◌∷◌, ◌++◌, Option, none, some,
  if◌then◌else◌, ◌==◌, ltb, bit_and, length, get_or,
}
use contiki_device_link.Common.Bits.{has_bit}
use contiki_device_link.Contiki.{Memb, Lists}
use contiki_device_link.Sensor.{
  Sensor, susensors_above_event, susensors_below_event, susensors_change_event, susensors_no_event,
}

abbrev pub devices_max : ℕ
devices_max = 10

-- strAbove, strBelow and strChange: "/above", "/below" and "/change"
abbrev pub str_above : List ℕ
str_above = 47 ∷ 97 ∷ 98 ∷ 111 ∷ 118 ∷ 101 ∷ []

abbrev pub str_below : List ℕ
str_below = 47 ∷ 98 ∷ 101 ∷ 108 ∷ 111 ∷ 119 ∷ []

abbrev pub str_change : List ℕ
str_change = 47 ∷ 99 ∷ 104 ∷ 97 ∷ 110 ∷ 103 ∷ 101 ∷ []

-- `sudevices_memb` and the list `sudevices`
pub record Registry (P : Type 0) : Type 0 where
  pub pool : P
  pub sudevices : List Sensor

module _ (memb : Memb) (lists : Lists Sensor) where
  unfoldable pub init_su_sensors : Registry memb.State
  init_su_sensors = record { pool = memb.memb_init devices_max; sudevices = [] }

  -- `addSUDevices`; without a block it returns NULL and changes nothing.
  unfoldable pub add_su_devices : Registry memb.State → Sensor → Option Sensor × Registry memb.State
  add_su_devices r device = elim (memb.memb_alloc r.pool) [
    | none ↦ (none, r)
    | some pool ↦
        let d = record device { pairs = [] } in
        (some d, record { pool = pool; sudevices = lists.list_add r.sudevices d })
  ]

-- `strncmp(…) == 0`; a string is the list of its characters, without the NUL at the end.
unfoldable pub strncmp_equal : ℕ → List ℕ → List ℕ → Bool
strncmp_equal zero xs ys = true
strncmp_equal (suc n) [] [] = true
strncmp_equal (suc n) [] (y ∷ ys) = false
strncmp_equal (suc n) (x ∷ xs) [] = false
strncmp_equal (suc n) (x ∷ xs) (y ∷ ys) = x == y && strncmp_equal n xs ys

abbrev pub slash : ℕ
slash = 47

-- `su_url_len`, a `uint8_t`; and `su_url_len - 1` as the `size_t` of `strncmp`
abbrev pub su_url_len : Sensor → ℕ
su_url_len i = length i.type % 256

abbrev pub compared : Sensor → ℕ
compared i = if su_url_len i == 0 then 4294967295 else su_url_len i - 1

-- HAS_SUB_RESOURCES is a flag of Contiki's REST engine.
module _ (has_sub_resources : ℕ) where
  -- the condition in the loop of `susensors_find`
  unfoldable pub is_match : List ℕ → ℕ → Sensor → Bool
  unfolding strncmp_equal
  is_match prefix len i =
      (su_url_len i == len
        || (ltb (su_url_len i) len
            && (has_bit i.config.flags has_sub_resources
                && get_or prefix (su_url_len i) 0 == slash)))
      && strncmp_equal (compared i) prefix i.type

  unfoldable pub first_match : List Sensor → List ℕ → ℕ → Option Sensor
  unfolding is_match
  first_match [] prefix len = none
  first_match (i ∷ is) prefix len =
      if is_match prefix len i then some i else first_match is prefix len

  unfoldable pub susensors_find : List Sensor → List ℕ → ℕ → Option Sensor
  unfolding first_match
  susensors_find devices prefix len =
      first_match devices prefix (if len == 0 then length prefix % 65536 else len)

-- one call of `coap_notify_observers_sub`
pub record Notification : Type 0 where
  pub resource : ℕ
  pub sub_url : List ℕ

-- one `if` of the process's loop: the event's bit is cleared, and the observers are notified
unfoldable pub notify_event : ℕ → ℕ → List ℕ → Sensor → Sensor × List Notification
notify_event resource event url d =
    if has_bit d.event_flag event
    then (
      record d { event_flag = bit_and d.event_flag (255 - event) },
      record { resource = resource; sub_url = url } ∷ [],
    )
    else (d, [])

unfoldable pub notify_all : ℕ → Sensor → Sensor × List Notification
unfolding notify_event
notify_all resource d =
    let (d1, change) = notify_event resource susensors_change_event str_change d in
    let (d2, below) = notify_event resource susensors_below_event str_below d1 in
    let (d3, above) = notify_event resource susensors_above_event str_above d2 in
    (d3, change ++ (below ++ above))

-- what the process does with one device
notify_resource : Option ℕ → Sensor → Sensor × List Notification
unfolding notify_all
notify_resource none d = (d, [])
notify_resource (some r) d = notify_all r d

unfoldable pub notify : Sensor → Sensor × List Notification
unfolding notify_resource
notify d =
    let (e, sent) = notify_resource d.resource d in
    (record e { event_flag = susensors_no_event }, sent)

-- The `do … while(events)` of the process after a poll: `events` stays 0, so it runs once.
unfoldable pub poll : List Sensor → List Sensor × List Notification
unfolding notify
poll [] = ([], [])
poll (d ∷ ds) = let (e, sent) = notify d in let (es, others) = poll ds in (e ∷ es, sent ++ others)
