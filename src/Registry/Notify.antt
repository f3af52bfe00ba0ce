-- ===== src/Registry/Notify.antt =====
-- What the process of susensors.c tells the observers of a device.
use contiki_device_link.Common.{
  ℕ, ◌<◌, ◌≡◌, refl, ap, ap₂, ◌∙◌, Bool, true, false, List, [], ◌∷◌, ◌++◌, Option, none, some, map,
  bit_and, ltb, ltb→lt, ◌-◌, arith,
}
use contiki_device_link.Common.Bits.{has_bit, same, eq_of_same, tabled, tabled_at}
use contiki_device_link.Sensor.{
  Sensor, susensors_above_event, susensors_below_event, susensors_change_event, susensors_no_event,
}
use contiki_device_link.Registry.{
  str_above, str_below, str_change, Notification, notify_event, notify_all, notify_resource, notify,
  poll,
}

abbrev keeps : ℕ → ℕ → ℕ → Bool
keeps event other x = same (has_bit (bit_and x (255 - event)) other) (has_bit x other)

kept_table :
    (tabled (keeps 8 4) 256 ≡ true)
    × (tabled (keeps 8 2) 256 ≡ true)
    × (tabled (keeps 4 2) 256 ≡ true)
    × (tabled (λ x. ltb (bit_and x 247) 256) 256 ≡ true)
unfolding tabled
kept_table = (refl, refl, refl, refl)

abbrev pub sent_if : ℕ → List ℕ → Bool → List Notification
sent_if resource url true = record { resource = resource; sub_url = url } ∷ []
sent_if resource url false = []

-- the notifications that a device's flag asks for
abbrev asked_of : Option ℕ → ℕ → List Notification
asked_of none flag = []
asked_of (some r) flag =
    sent_if r str_change (has_bit flag susensors_change_event)
    ++ (sent_if r str_below (has_bit flag susensors_below_event)
        ++ sent_if r str_above (has_bit flag susensors_above_event))

abbrev pub asked : Sensor → List Notification
asked d = asked_of d.resource d.event_flag

abbrev pub quiet : Sensor → Sensor
quiet d = record d { event_flag = susensors_no_event }

kept :
    (x : ℕ)
    → x < 256
    → (has_bit (bit_and x 247) 4 ≡ has_bit x 4)
      × (has_bit (bit_and x 247) 2 ≡ has_bit x 2)
      × (bit_and x 247 < 256)
kept x h = (
  eq_of_same _ _ (tabled_at (keeps 8 4) 256 x h kept_table.0),
  eq_of_same _ _ (tabled_at (keeps 8 2) 256 x h kept_table.1),
  ltb→lt _ _ (tabled_at (λ x. ltb (bit_and x 247) 256) 256 x h kept_table.3),
)

kept_above : (x : ℕ) → x < 256 → has_bit (bit_and x 251) 2 ≡ has_bit x 2
kept_above x h = eq_of_same _ _ (tabled_at (keeps 4 2) 256 x h kept_table.2)

notify-asked_resource :
    (r : ℕ) (d : Sensor)
    → d.event_flag < 256
    → (quiet (notify_all r d).0 ≡ quiet d) × ((notify_all r d).1 ≡ asked_of (some r) d.event_flag)
unfolding notify_all notify_event
notify-asked_resource r d small = ground (
  arith,
  kept d.event_flag small,
  kept_above d.event_flag small,
  kept_above (bit_and d.event_flag 247) (kept d.event_flag small).2,
)

notify_resource-asked :
    (o : Option ℕ) (d : Sensor)
    → d.event_flag < 256
    → (quiet (notify_resource o d).0 ≡ quiet d)
      × ((notify_resource o d).1 ≡ asked_of o d.event_flag)
unfolding notify_resource
notify_resource-asked none d small = (refl, refl)
notify_resource-asked (some r) d small = notify-asked_resource r d small

-- A device's observers are told of the events in its flag, and its flag is 0 afterwards.
notify-asked : (d : Sensor) → d.event_flag < 256 → notify d ≡ (quiet d, asked d)
unfolding notify
notify-asked d small =
    let h = notify_resource-asked d.resource d small in ap₂ (λ s sent. (s, sent)) h.0 h.1

abbrev pub AllBytes : List Sensor → Type 0
AllBytes [] = Unit
AllBytes (d ∷ ds) = (d.event_flag < 256) × AllBytes ds

abbrev pub asked_by_all : List Sensor → List Notification
asked_by_all [] = []
asked_by_all (d ∷ ds) = asked d ++ asked_by_all ds

poll_once : (ds : List Sensor) → AllBytes ds → poll ds ≡ (map quiet ds, asked_by_all ds)
unfolding poll
poll_once [] small = refl
poll_once (d ∷ ds) small =
    ap₂
      (λ (one : Sensor × List Notification) (rest : List Sensor × List Notification).
        (one.0 ∷ rest.0, one.1 ++ rest.1))
      (notify-asked d small.0) (poll_once ds small.1)

asked-quiet : (o : Option ℕ) → asked_of o susensors_no_event ≡ []
asked-quiet none = refl
asked-quiet (some r) = refl

poll-quiet : (ds : List Sensor) → (poll (map quiet ds)).1 ≡ []
unfolding poll
poll-quiet [] = refl
poll-quiet (d ∷ ds) =
    ap₂ ◌++◌
      (ap (λ (x : Sensor × List Notification). x.1) (notify-asked (quiet d) (omega arith))
        ∙ asked-quiet d.resource)
      (poll-quiet ds)

-- For devices whose flags are bytes: one poll tells the observers of every device of the events in its
-- flag, in the order change, below, above, clears every flag and changes nothing else; a second
-- poll has nothing to tell.
pub poll-asked :
    (ds : List Sensor)
    → AllBytes ds
    → (poll ds ≡ (map quiet ds, asked_by_all ds)) × ((poll (poll ds).0).1 ≡ [])
poll-asked ds small =
    let once = poll_once ds small in
    (once, ap (λ (x : List Sensor × List Notification). (poll x.0).1) once ∙ poll-quiet ds)
