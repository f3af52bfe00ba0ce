-- ===== src/Registry/Tests.antt =====
-- Runs and instances of the registry at concrete devices.
use contiki_device_link.Common.{ℕ, ◌≡◌, ◌≢◌, refl, true, [], ◌∷◌, none, some, arith, map}
use contiki_device_link.Common.Int.{pos, negsuc}
use contiki_device_link.Sensor.{Sensor, JoinPair}
use contiki_device_link.Registry.{susensors_find, poll}
use contiki_device_link.Registry.Find.{IsFirst, susensors_find-IsFirst}
use contiki_device_link.Registry.Notify.{quiet, asked_by_all, poll-asked}
use contiki_device_link.Registry.Pair.{
  above_event, Flag, notification_ok, paired, triggered, notificationcb, notificationcb-paired,
}
use contiki_device_link.Device.{Device}
use contiki_device_link.Device.Tests.Fixtures.{Pin, pin, with_value, device}

abbrev named : ℕ → Sensor
named c = record (with_value 1) {
  type = 115 ∷ 117 ∷ 47 ∷ c ∷ [];
  event_flag = 12;
  resource = some 3;
}

susensors_find-IsFirst_example :
    IsFirst 8
      (named 97 ∷ named 98 ∷ [])
      (115 ∷ 117 ∷ 47 ∷ 98 ∷ [])
      4
      (susensors_find 8 (named 97 ∷ named 98 ∷ []) (115 ∷ 117 ∷ 47 ∷ 98 ∷ []) 4)
susensors_find-IsFirst_example =
    susensors_find-IsFirst 8 (named 97 ∷ named 98 ∷ []) (115 ∷ 117 ∷ 47 ∷ 98 ∷ []) 4

poll-asked_example :
    let ds = named 97 ∷ named 98 ∷ [] in
    (poll ds ≡ (map quiet ds, asked_by_all ds)) × ((poll (poll ds).0).1 ≡ [])
poll-asked_example = poll-asked (named 97 ∷ named 98 ∷ []) (omega arith, (omega arith, tt))

abbrev toggling : JoinPair
toggling = record {
  dsturl = 97 ∷ [];
  dsturl_above = some (97 ∷ []);
  dsturl_below = none;
  dsturl_change = none;
  srcurl = 98 ∷ [];
  triggers = pos 2 ∷ negsuc 0 ∷ negsuc 0 ∷ [];
  destip = [];
}

abbrev lamp : Device Pin
lamp = device (record { out = true; level = 0 }) 0

notificationcb-paired_example :
    let e = paired pin lamp toggling in
    (notificationcb pin above_event e notification_ok ≡ triggered pin e (pos 2))
    × ((flag : Flag) → flag ≢ notification_ok → notificationcb pin above_event e flag ≡ e)
notificationcb-paired_example = notificationcb-paired pin lamp toggling above_event refl
