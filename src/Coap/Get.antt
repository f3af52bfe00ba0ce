-- ===== src/Coap/Get.antt =====
-- sensorsUnleashed/resources/res-susensors.c, `res_susensor_gethandler`.
use Prim.Native.String.{String}
use contiki_device_link.Common.{
  ℕ, zero, Bool, List, [], ◌∷◌, Option, none, some, if◌then◌else◌, ◌==◌, ltb, length,
}
use contiki_device_link.Common.Int.{ℤ, pos, negsuc}
use contiki_device_link.Cmp.{CmpObject, Codec}
use contiki_device_link.Sensor.{Sensor}
use contiki_device_link.Sensor.Config.{
  ConfigCmd, aevent_get, bevent_get, cevent_get, rangemin_get, rangemax_get, eventstate_get,
  eventsetup_get, object, bytes, Reply, suconfig, cp_encode_object,
}
use contiki_device_link.Device.{Device}
use contiki_device_link.Pairing.Flash.{Name, Flash, pairing_getlist}
use contiki_device_link.Coap.{
  ok, bad_request, Request, Response, unset, with_status, with_payload, find_command, Handlers,
  Board, find_device,
}

-- what a query asks for: a setting with an age for the answer, the setup, or the list of pairs
pub data GetCommand : Type 0 where
  setting : ConfigCmd → Option ℕ → GetCommand
  event_setup pairings : GetCommand

abbrev get_commands : List (String × GetCommand)
get_commands =
    ("AboveEventAt", setting aevent_get (some 3600))
    ∷ ("BelowEventAt", setting bevent_get (some 3600))
    ∷ ("ChangeEventAt", setting cevent_get (some 3600))
    ∷ ("RangeMin", setting rangemin_get none)
    ∷ ("RangeMax", setting rangemax_get none)
    ∷ ("getEventState", setting eventstate_get none)
    ∷ ("getEventSetup", event_setup)
    ∷ ("pairings", pairings)
    ∷ []

-- the object that a call of `suconfig` wrote, if it returned 0
unfoldable pub object_of : Reply → Option CmpObject
object_of r = elim (r.ret) [
  | pos zero ↦ elim (r.output) [ object o ↦ some o | _ ↦ none ]
  | _ ↦ none
]

-- what a handler gives: the response, and `*offset`
abbrev pub Answer : Type 0
Answer = Response × ℤ

module _ (codec : Codec) where
  -- the end of the handler, for a `len` that is not 0
  unfoldable pub send_object : Response → Option CmpObject → Response
  send_object r none = r
  send_object r (some o) = with_payload (record r { status = some ok }) (cp_encode_object codec o)

  -- The answer to "getEventSetup" has the length that `suconfig` returns.
  unfoldable pub send_setup : Sensor → Response
  send_setup s =
      let r = suconfig codec s eventsetup_get [] in
      record unset { payload = (elim (r.output) [ bytes b ↦ b | _ ↦ [] ]); payload_len = r.ret }

  module _ (can_open : Flash → Name → Bool) where
    unfoldable pub send_pairings : Flash → Sensor → ℕ → ℕ → Option Answer
    send_pairings f s preferred_size offset =
        elim (pairing_getlist can_open f s preferred_size offset) [
          | none ↦ none
          | some p ↦ some (elim (p.ret) [
            | none ↦ (with_status bad_request, pos p.offset)
            | some ret ↦ (
              with_payload unset p.buffer,
              (if ltb ret preferred_size then negsuc 0 else pos p.offset),
            )
          ])
        ]

    unfoldable pub get_command : Flash → Sensor → ℕ → ℕ → Option GetCommand → Option Answer
    get_command f s preferred_size offset none = some (unset, pos offset)
    get_command f s preferred_size offset (some event_setup) = some (send_setup s, pos offset)
    get_command f s preferred_size offset (some pairings) = send_pairings f s preferred_size offset
    get_command f s preferred_size offset (some (setting c max_age)) = some (
      send_object (record unset { max_age = max_age }) (object_of (suconfig codec s c [])),
      pos offset,
    )

    module _ {S : Type 0} (has_sub_resources : ℕ) (handlers : Device S → Handlers S) where
      unfoldable pub get_device : Flash → Device S → Request → ℕ → ℕ → Option Answer
      get_device f d request preferred_size offset =
          if length request.query == 0
          then some
              (send_object (record unset { max_age = some 30 }) ((handlers d).status d), pos offset)
          else get_command f d.sensor preferred_size offset
              (find_command get_commands request.query)

      unfoldable pub res_susensor_gethandler :
          {P M : Type 0} → Board S P M → Request → ℕ → ℕ → Option Answer
      res_susensor_gethandler b request preferred_size offset =
          elim (find_device has_sub_resources b.devices request.url (length request.url)) [
            | none ↦ some (unset, pos offset)
            | some (i, d) ↦ get_device b.flash d request preferred_size offset
          ]
