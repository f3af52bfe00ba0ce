-- ===== src/Uart/Proxy.antt =====
-- apps/uartsensors/uartsensors.c: the sensors of the attached board as the firmware sees them, and
-- the messages that the board sends about them in normal operation. `Laws` proves what a message
-- does.
pub mod Laws
pub mod Tests
use contiki_device_link.Common.{
  ℕ, zero, suc, ◌+◌, ◌-◌, ◌%◌, ◌≤◌, ◌<◌, ◌≡◌, Bool, true, false, ◌&&◌, ◌||◌, List, [], ◌∷◌, ◌++◌,
  Option, none, some, if◌then◌else◌, ◌==◌, ltb, leb, length, take, drop, set, get_elem?,
}
use contiki_device_link.Cmp.{CmpObject, Codec}
use contiki_device_link.Sensor.{ResourceConf}
use contiki_device_link.Sensor.Config.{cp_decode_object, cp_encode_object}
use contiki_device_link.Uart.{frameandsend}
use contiki_device_link.Uart.Message.{
  cp_encodemessage, read_bytes, resource_value_update, resource_event, resource_reset,
  resource_setval, resource_updateval,
}

abbrev pub lastvalsize : ℕ
lastvalsize = 15

-- enum up_parameter
abbrev pub change_event_config_value : ℕ
change_event_config_value = 2

abbrev pub above_event_config_value : ℕ
above_event_config_value = 3

abbrev pub below_event_config_value : ℕ
below_event_config_value = 4

-- `struct proxy_resource`; `lastval` is the index in `payloadbuffer` that it points to.
pub record ProxyResource : Type 0 where
  pub conf : ResourceConf
  pub lastval : ℕ
  pub vallen : ℕ

-- The statics: `payloadbuffer`, `rx_reply` with its payload pointer as an index in the buffer, the
-- list of resources, `msgid`, the bytes sent to the board, and the resources that
-- `uartsensors_event` was posted for, by their place in the list, the latest first.
pub record Host : Type 0 where
  pub payloadbuffer : List ℕ
  pub cmd : ℕ
  pub len : ℕ
  pub payload : ℕ
  pub proxy_resource_list : List ProxyResource
  pub msgid : ℕ
  pub wire : List ℕ
  pub posted : List ℕ

abbrev pub received : Host → List ℕ
received h = drop h.payload h.payloadbuffer

-- `memcpy(&buffer[at], …)` of bytes that lie elsewhere: `none` behind the buffer's end (undefined in C)
unfoldable pub copy_to : List ℕ → ℕ → List ℕ → Option (List ℕ)
copy_to buffer at bytes =
    if leb (at + length bytes) (length buffer)
    then some (take at buffer ++ (bytes ++ drop (at + length bytes) buffer))
    else none

-- the loop of `handleSensorMessages`: the first resource with the id, and its place
unfoldable pub find_id : List ProxyResource → ℕ → Option (ℕ × ProxyResource)
find_id [] id = none
find_id (r ∷ rs) id =
    let rest = find_id rs id in
    if r.conf.id == id
    then some (0, r)
    else elim rest [ none ↦ none | some (i, found) ↦ some (i + 1, found) ]

-- the name has the length of the resource's type, and its characters
unfoldable pub same_name : List ℕ → List ℕ → Bool
same_name [] [] = true
same_name [] (y ∷ ys) = false
same_name (x ∷ xs) [] = false
same_name (x ∷ xs) (y ∷ ys) = x == y && same_name xs ys

-- `uartsensors_find`
unfoldable pub uartsensors_find : List ProxyResource → List ℕ → Option ProxyResource
unfolding same_name
uartsensors_find [] name = none
uartsensors_find (r ∷ rs) name =
    if same_name r.conf.type name then some r else uartsensors_find rs name

-- `rx_reply.len - len`, unsigned in 32 bits
abbrev pub value_length : Host → ℕ → ℕ
value_length h used = (h.len + 4294967296 - used) % 4294967296

-- whether two ranges of `n` bytes, from `a` and from `b` on, have a byte in common
abbrev pub overlap : ℕ → ℕ → ℕ → Bool
overlap a b n = ltb a (b + n) && ltb b (a + n)

-- the `memcpy` of `n` bytes within the buffer to `lastval`, which is undefined if the two ranges overlap, and the event
unfoldable pub store_bytes : Host → ℕ → ProxyResource → ℕ → ℕ → Option Host
unfolding copy_to
store_bytes h i resource used n = elim (read_bytes h.payloadbuffer (h.payload + used) n) [
  | none ↦ none
  | some value ↦
      if overlap (h.payload + used) resource.lastval n
      then none
      else elim (copy_to h.payloadbuffer resource.lastval value) [
        | none ↦ none
        | some buffer ↦ some (record h {
          payloadbuffer = buffer;
          proxy_resource_list = set h.proxy_resource_list i (record resource { vallen = n % 256 });
          posted = (if h.cmd == resource_event then i ∷ h.posted else h.posted);
        })
      ]
]

-- the branch for RESOURCE_VALUE_UPDATE and RESOURCE_EVENT
unfoldable pub store_value : Host → ℕ → ProxyResource → ℕ → Option Host
unfolding store_bytes
store_value h i resource used =
    if leb used lastvalsize then store_bytes h i resource used (value_length h used) else some h

-- the `switch` over the parameter
unfoldable pub update_conf : ResourceConf → ℕ → CmpObject → ResourceConf
update_conf c parameter o =
    if parameter == change_event_config_value
    then record c { change_event = o }
    else (if parameter == above_event_config_value
        then record c { above_event_at = o }
        else (if parameter == below_event_config_value then record c { below_event_at = o } else c))

module _ (codec : Codec) where
  -- `cp_decodeU8`: the value and the bytes read, if it returns 0
  unfoldable pub cp_decode_u8 : List ℕ → Option (ℕ × ℕ)
  cp_decode_u8 buffer =
      let r = codec.read_uchar buffer in elim (r.value) [ none ↦ none | some x ↦ some (x, r.used) ]

  -- The branch for RESOURCE_UPDATEVAL. Each decoder sets `len` to what it read itself, so the object
  -- is read at the length of the parameter, counted from the start of the payload.
  unfoldable pub update_value : Host → ℕ → ProxyResource → ℕ → Host
  unfolding cp_decode_u8 update_conf cp_decode_object
  update_value h i resource used = elim (cp_decode_u8 (drop used (received h))) [
    | none ↦ h
    | some (parameter, used') ↦ elim (cp_decode_object codec (drop used' (received h))) [
      | none ↦ h
      | some (o, _) ↦ record h {
        proxy_resource_list =
            set h.proxy_resource_list i
              (record resource { conf = update_conf resource.conf parameter o });
      }
    ]
  ]

  unfoldable pub handle_sensor_messages : Host → Option Host
  unfolding cp_decode_u8 find_id store_value update_value
  handle_sensor_messages h = elim (cp_decode_u8 (received h)) [
    | none ↦ some h
    | some (id, used) ↦ elim (find_id h.proxy_resource_list id) [
      | none ↦ some h
      | some (i, resource) ↦
          if h.cmd == resource_value_update || h.cmd == resource_event
          then store_value h i resource used
          else (if h.cmd == resource_updateval
              then some (update_value h i resource used)
              else some h)
    ]
  ]

  -- A request to the board: its payload is built where received payloads lie, `msgid` is counted
  -- up, and the message is framed and sent. `crc16_data` is Contiki's.
  unfoldable pub send_request : (List ℕ → ℕ → ℕ) → Host → ℕ → List ℕ → Option Host
  unfolding copy_to
  send_request crc16_data h cmd bytes = elim (copy_to h.payloadbuffer h.payload bytes) [
    | none ↦ none
    | some buffer ↦
        let message =
          cp_encodemessage crc16_data ((h.msgid + 1) % 256) cmd bytes (length bytes % 256) in
        some (record h {
          payloadbuffer = buffer;
          msgid = h.msgid + 1;
          wire = h.wire ++ frameandsend message (length message);
        })
  ]

  -- `uartsensors_updateVal`
  unfoldable pub uartsensors_update_val : (List ℕ → ℕ → ℕ) → Host → ProxyResource → ℕ → Option Host
  unfolding send_request
  uartsensors_update_val crc16_data h this parameter =
      send_request crc16_data h resource_updateval
        (codec.write_u8 this.conf.id ++ codec.write_u8 parameter)

  -- `uartsensors_setEventVal`: 1 and nothing done, or 0 after the request
  unfoldable pub uartsensors_set_event_val :
      (List ℕ → ℕ → ℕ) → Host → ProxyResource → ℕ → CmpObject → Option (ℕ × Host)
  unfolding send_request cp_encode_object
  uartsensors_set_event_val crc16_data h this parameter val =
      if ltb below_event_config_value parameter
      then some (1, h)
      else elim (send_request crc16_data h resource_setval (
          codec.write_u8 this.conf.id
          ++ (codec.write_u8 parameter ++ cp_encode_object codec val))) [
            | none ↦ none
            | some h' ↦ some (0, h')
          ]

  -- `uartsensors_reset`
  unfoldable pub uartsensors_reset : (List ℕ → ℕ → ℕ) → Host → ProxyResource → Option Host
  unfolding send_request
  uartsensors_reset crc16_data h this =
      send_request crc16_data h resource_reset (codec.write_u8 this.conf.id)
