-- ===== src/Coap/Sensors.antt =====
-- apps/uartsensors/res-uartsensors.c: the resources of the attached board's sensors.
pub mod Setup
pub mod Tests
use contiki_device_link.Common.{
  ℕ, zero, suc, ◌+◌, ◌*◌, ◌-◌, Bool, true, false, ◌&&◌, List, [], ◌∷◌, ◌++◌, Option, none, some,
  if◌then◌else◌, ◌==◌, ltb, leb, length, take, drop,
}
use contiki_device_link.Common.Int.{pos}
use contiki_device_link.Cmp.{CmpObject, Codec}
use contiki_device_link.Sensor.Config.{cp_decode_object}
use contiki_device_link.Pairing.{Assembly, pairing_assemble_message}
use contiki_device_link.Uart.Message.{read_bytes}
use contiki_device_link.Uart.Proxy.{
  ProxyResource, Host, uartsensors_find, cp_decode_u8, uartsensors_set_event_val,
}
use contiki_device_link.Registry.{strncmp_equal}
use contiki_device_link.Coap.{
  Status, ok, changed, bad_request, not_modified, request_entity_too_large, Request, Response,
  unset, with_status, with_payload, with_text, characters, find_command,
}
use contiki_device_link.Coap.Text.{
  Text, append_text, print_unsigned, cp_cmp_to_string, cp_conv_msg_pack_to_string,
}
use Prim.Native.String.{String}

pub data ProxyCommand : Type 0 where
  raw info eventstatus eventsetup : ProxyCommand

abbrev pub proxy_commands : List (String × ProxyCommand)
proxy_commands =
    ("raw", raw) ∷ ("info", info) ∷ ("eventstatus", eventstatus) ∷ ("eventsetup", eventsetup) ∷ []

abbrev empty_text : Text
empty_text = record { buffer = []; len = 0 }

-- the payload and the age that are set, for the text in the buffer
abbrev pub with_age : Text → ℕ → Response
with_age t age = record (with_payload unset (take t.len t.buffer)) { max_age = some age }

module _ (codec : Codec) (print_float : CmpObject → List ℕ) where
  -- a name and the value behind it; what `cp_cmp_to_string` returns is not looked at
  unfoldable pub append_value : Text → String → CmpObject → Text
  append_value t name o = (cp_cmp_to_string print_float o (append_text t (characters name))).1

  -- "eventsetup": the three thresholds
  unfoldable pub setup_text : ProxyResource → Text
  setup_text r =
      let above = append_value empty_text "AE=" r.conf.above_event_at in
      let below = append_value above "\nBE=" r.conf.below_event_at in
      append_value below "\nCE=" r.conf.change_event

  -- The answer to a command; the value is a read of the host's buffer at `lastval`.
  unfoldable pub proxy_answer : Host → ProxyResource → Option ProxyCommand → Option Response
  proxy_answer h r none = some (with_payload unset (characters "Query not recognized...."))
  proxy_answer h r (some raw) = elim (read_bytes h.payloadbuffer r.lastval r.vallen) [
    | none ↦ none
    | some bytes ↦ some (record (with_payload unset bytes) { max_age = some 0 })
  ]
  proxy_answer h r (some info) =
      let id = append_text (append_text empty_text (characters "ID=")) (print_unsigned r.conf.id) in
      some (with_age (append_text (append_text id (10 ∷ [])) r.conf.spec) 3600)
  proxy_answer h r (some eventstatus) =
      some (with_age (append_text empty_text (print_unsigned r.conf.events_active)) 600)
  proxy_answer h r (some eventsetup) = some (with_age (setup_text r) 600)

  -- without a query: the measurement as text
  unfoldable pub proxy_value : Host → ProxyResource → Response
  proxy_value h r =
      let (ret, t) =
        cp_conv_msg_pack_to_string codec print_float (drop r.lastval h.payloadbuffer) empty_text in
      if ret == 0
      then with_age t 0
      else with_payload unset (characters "No data available from the sensor....")

  -- `res_proxy_get_handler`; the flag says that the content type TEXT_PLAIN is set.
  unfoldable pub res_proxy_get_handler : Host → Request → Option (Response × Bool)
  res_proxy_get_handler h request = elim (uartsensors_find h.proxy_resource_list request.url) [
    | none ↦ some (unset, false)
    | some r ↦
        if length request.query == 0
        then some (proxy_value h r, true)
        else elim (proxy_answer h r (find_command proxy_commands request.query)) [
          | none ↦ none
          | some a ↦ some (a, true)
        ]
  ]

-- Code with a loop, after some of its rounds: a round whose behaviour C leaves undefined, rounds that are left to do,
-- or the end.
pub data Run (A : Type 0) : Type 0 where
  undefined going_on : Run A
  ended : A → Run A

-- "eventsetup" of a PUT. Each round decodes the parameter at the payload's start, and the object behind its end,
-- where the memory holds `behind`; `bufindex` is what the last decoder read, and is kept if it fails.
module _ (crc16_data : List ℕ → ℕ → ℕ) (codec : Codec) where
  -- one round: the status it sets, `bufindex`, and the host
  unfoldable pub setup_round :
      Host → ProxyResource → List ℕ → List ℕ → Option Status → ℕ → Option (Option Status × ℕ × Host)
  setup_round h r payload behind status bufindex = elim (cp_decode_u8 codec payload) [
    | none ↦ some (some bad_request, bufindex, h)
    | some (parameter, used) ↦ elim (cp_decode_object codec behind) [
      | none ↦ some (some bad_request, used, h)
      | some (newval, used') ↦
          elim (uartsensors_set_event_val codec crc16_data h r parameter newval) [
            | none ↦ none
            | some (ret, t) ↦ some ((if ret == 0 then status else some changed), used', t)
          ]
    ]
  ]

  -- The loop, for so many rounds.
  unfoldable pub setup_loop :
      ℕ → Host → ProxyResource → List ℕ → List ℕ → Option Status → ℕ → Run (Option Status × Host)
  setup_loop zero h r payload behind status bufindex = going_on
  setup_loop (suc rounds) h r payload behind status bufindex =
      elim (setup_round h r payload behind status bufindex) [
        | none ↦ undefined
        | some (status', bufindex', t) ↦
            if ltb bufindex' (length payload)
            then setup_loop rounds t r payload behind status' bufindex'
            else ended (status', t)
      ]

-- "join" of a PUT: the message is assembled, and refused at its end.
unfoldable pub proxy_join : Assembly → Response → Request → Option (Response × Assembly)
proxy_join a r request =
    let len = length request.payload in
    if len == 0
    then some (with_text bad_request "no payload in query", a)
    else (if leb (request.block1_num * request.block1_size + len) 200
        then elim (pairing_assemble_message a request.payload request.block1_num) [
          | none ↦ none
          | some (ret, b) ↦
              let stored =
                if ret == 0
                then record r {
                  status = some changed;
                  block1 = some (request.block1_num, request.block1_size);
                }
                else r in
              some (
                (if request.block1_more
                    then stored
                    else record stored { status = some not_modified }),
                b,
              )
        ]
        else some (record r { status = some request_entity_too_large }, a))

-- `res_proxy_put_handler`, with the memory behind the payload. A query for "eventsetup" is none for "join", also
-- with the length of the payload, which `len` is by then.
unfoldable pub res_proxy_put_handler :
    (List ℕ → ℕ → ℕ)
    → Codec
    → ℕ
    → Host
    → Assembly
    → List ℕ
    → Request
    → Run (Response × Host × Assembly)
res_proxy_put_handler crc16_data codec rounds h a behind request =
    if request.is_octet_stream
    then elim (uartsensors_find h.proxy_resource_list request.url) [
      | none ↦ ended (with_text bad_request "Unknown resource", h, a)
      | some r ↦
          if length request.query == 0
          then ended (unset, h, a)
          else (if strncmp_equal (length request.query) request.query (characters "eventsetup")
              then (if length request.payload == 0
                  then ended (with_text bad_request "no payload in query", h, a)
                  else elim (setup_loop crc16_data codec rounds h r request.payload behind none 0) [
                    | undefined ↦ undefined
                    | going_on ↦ going_on
                    | ended (status, t) ↦ ended (record unset { status = status }, t, a)
                  ])
              else (if strncmp_equal (length request.query) request.query (characters "join")
                  then elim (proxy_join a unset request) [
                    | none ↦ undefined
                    | some (response, b) ↦ ended (response, h, b)
                  ]
                  else ended (unset, h, a)))
    ]
    else ended (with_text bad_request "msgPacked, octet-stream only", h, a)
