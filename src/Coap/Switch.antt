-- ===== src/Coap/Switch.antt =====
-- A relay that is switched by requests to its resource.
use contiki_device_link.Common.{
  ℕ, ◌≡◌, refl, Bool, true, false, some, if◌then◌else◌, ◌==◌, length, arith,
}
use contiki_device_link.Common.Bits.{same}
use contiki_device_link.Common.Int.{pos}
use contiki_device_link.Cmp.{Codec, uint8_object}
use contiki_device_link.Sensor.{actual_value}
use contiki_device_link.Sensor.Config.{cp_encode_object}
use contiki_device_link.Device.{Device, Gpio}
use contiki_device_link.Device.Relay.{get, value, event_handler}
use contiki_device_link.Device.Relay.Laws.{level, IsSwitch}
use contiki_device_link.Pairing.Flash.{Name, Flash}
use contiki_device_link.Coap.{
  Request, Response, ok, bad_request, with_status, with_payload, Handlers,
}
use contiki_device_link.Coap.Get.{send_object, get_device}

-- the functions of relay.c
abbrev pub relay_handlers : (g : Gpio) → Codec → Device g.State → Handlers g.State
relay_handlers g codec d = record {
  status = λ e. get g e actual_value;
  value = λ e type. some (value g e type);
  eventhandler = λ e payload. some (event_handler g codec e payload);
}

-- the answer to a command that takes a switch from `on` to `on'`
abbrev pub answer_switched : Codec → Bool → Bool → Response
answer_switched codec on on' =
    if same on on'
    then with_status bad_request
    else with_payload (with_status ok) (cp_encode_object codec (uint8_object (level on')))

module _ (g : Gpio) (codec : Codec) where
  -- what a switch tells of itself
  get-level :
      (d : Device g.State) (on : Bool)
      → IsSwitch g d on
      → get g d actual_value ≡ some (uint8_object (level on))
  unfolding get
  get-level d true v = ground (arith, v.pin_is)
  get-level d false v = ground (arith, v.pin_is)

  -- and a request without a query tells its state
  pub get_device-level :
      (has_sub_resources : ℕ) (can_open : Flash → Name → Bool) (f : Flash) (d : Device g.State)
      (on : Bool) (request : Request) (preferred_size offset : ℕ)
      → length request.query ≡ 0
      → IsSwitch g d on
      → get_device codec can_open has_sub_resources
          (relay_handlers g codec)
          f
          d
          request
          preferred_size
          offset
        ≡ some (
          with_payload
              (record (with_status ok) { max_age = some 30 })
              (cp_encode_object codec (uint8_object (level on))),
          pos offset,
        )
  unfolding get_device send_object
  get_device-level has_sub_resources can_open f d on request preferred_size offset asks v =
      let no_query : (length request.query == 0) ≡ true = ground (arith, asks) in
      rw (no_query, get_device) (rw (get-level d on v) refl)
