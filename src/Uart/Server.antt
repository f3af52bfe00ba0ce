-- ===== src/Uart/Server.antt =====
-- apps/uartsensors/uartsensors.c, the process `uartsensors_server`: the start, in which the board is asked for
-- its resources one after the other, and the operation after it.
pub mod Answers
pub mod Started
pub mod Tests
use contiki_device_link.Common.{
  ℕ, zero, suc, ◌+◌, ◌%◌, Bool, true, false, List, [], ◌∷◌, ◌++◌, Option, none, some, if◌then◌else◌,
  ◌==◌, ltb, length, take, get_elem?,
}
use contiki_device_link.Common.Int.{ℤ, pos, negsuc}
use contiki_device_link.Contiki.{Memb, Lists}
use contiki_device_link.Cmp.{Codec}
use contiki_device_link.Uart.{frameandsend}
use contiki_device_link.Uart.Message.{
  RxMsg, cp_encodemessage, cp_decodemessage, resource_count, resource_config,
  resource_req_update_all,
}
use contiki_device_link.Uart.Config.{Decoded, cp_decoderesource_conf}
use contiki_device_link.Uart.Proxy.{
  ProxyResource, Host, lastvalsize, received, handle_sensor_messages,
}

-- where the process waits: in `initResources` for the count or for a configuration, or in its loop
pub data Phase : Type 0 where
  wait_count wait_config running : Phase

-- The statics beside those of `Host`: `rx_reply.seqno`, `resources_availble`, `j`, the pool of resources;
-- and how often `uartsensors_event` was posted with NULL, for the end of the start.
pub record Server (P : Type 0) : Type 0 where
  pub host : Host
  pub seqno : ℕ
  pub phase : Phase
  pub resources_availble : ℕ
  pub j : ℕ
  pub pool : P
  pub ended : ℕ

-- `stale` is what `memb_alloc` leaves in a block.
module _ (crc16_data : List ℕ → ℕ → ℕ) (codec : Codec) (memb : Memb) (lists : Lists ProxyResource)
    (stale : ProxyResource) where
  abbrev State : Type 0
  State = Server memb.State

  -- `frameandsend(&txbuf[0], cp_encodemessage(msgid, …))`
  unfoldable pub send_message : Host → ℕ → List ℕ → Host
  send_message h cmd payload =
      let message = cp_encodemessage crc16_data (h.msgid % 256) cmd payload (length payload) in
      record h { wire = h.wire ++ frameandsend message (length message) }

  -- with `++msgid`
  unfoldable pub send_next : Host → ℕ → List ℕ → Host
  send_next h cmd payload = send_message (record h { msgid = h.msgid + 1 }) cmd payload

  -- `uartsensors_init`, and the process up to its first wait
  unfoldable pub uartsensors_init : List ℕ → State
  uartsensors_init payloadbuffer = record {
    host =
        send_message
          (record {
            payloadbuffer = payloadbuffer;
            cmd = 0;
            len = 0;
            payload = 0;
            proxy_resource_list = [];
            msgid = 1;
            wire = [];
            posted = [];
          })
          resource_count [];
    seqno = 0;
    phase = wait_count;
    resources_availble = 0;
    j = 0;
    pool = memb.memb_init 20;
    ended = 0;
  }

  -- the head of the loop over the resources, and the end of the start
  unfoldable pub next_request : State → State
  next_request s =
      if ltb s.j s.resources_availble
      then record s { host = send_next s.host resource_config (s.j ∷ []); phase = wait_config }
      else record s {
        host = send_next s.host resource_req_update_all [];
        phase = running;
        ended = s.ended + 1;
      }

  -- the new resource of a decoded configuration
  unfoldable pub new_resource : State → memb.State → Decoded → State
  new_resource s pool d =
      let place = s.host.payload + d.attr_end in
      record s {
        pool = pool;
        host = record (s.host) {
          payloadbuffer = take s.host.payload s.host.payloadbuffer ++ d.memory;
          payload = place + lastvalsize;
          proxy_resource_list =
              lists.list_add s.host.proxy_resource_list
                (record stale { conf = record (d.conf) { id = s.j }; lastval = place });
          posted = length s.host.proxy_resource_list ∷ s.host.posted;
        };
      }

  -- the body of the loop, once the answer is there; without a block the configuration is left out
  unfoldable pub create_resource : State → Option State
  create_resource s = elim (memb.memb_alloc s.pool) [
    | none ↦ some s
    | some pool ↦ elim (cp_decoderesource_conf codec stale.conf (received s.host)) [
      | none ↦ none
      | some d ↦ some (new_resource s pool d)
    ]
  ]

  -- `initResources`, called again: it goes on if `rx_reply` answers the last request,
  -- up to the next one, whose number is another
  unfoldable pub init_resources : State → Option State
  init_resources s =
      if s.seqno == s.host.msgid
      then elim (s.phase) [
        | wait_count ↦ elim (get_elem? (received s.host) 0) [
          | none ↦ none
          | some n ↦ some (next_request (record s { resources_availble = n; j = 0 }))
        ]
        | wait_config ↦ elim (create_resource s) [
          | none ↦ none
          | some t ↦ some (next_request (record t { j = (t.j + 1) % 256 }))
        ]
        | running ↦ some s
      ]
      else some s

  -- `rx_reply` with its payload, as `cp_decodemessage` is given it and leaves it
  abbrev pub rx_reply : State → RxMsg
  rx_reply s = record {
    seqno = s.seqno;
    cmd = s.host.cmd;
    len = s.host.len;
    payload = received s.host;
  }

  unfoldable pub store_reply : State → RxMsg → State
  store_reply s m = record s {
    seqno = m.seqno;
    host = record (s.host) {
      payloadbuffer = take s.host.payload s.host.payloadbuffer ++ m.payload;
      cmd = m.cmd;
      len = m.len;
    };
  }

  -- a message that was decoded
  unfoldable pub take_reply : State → Option State
  take_reply s = elim (s.phase) [
    | running ↦ elim (handle_sensor_messages codec s.host) [
      | none ↦ none
      | some h ↦ some (record s { host = h })
    ]
    | _ ↦ init_resources s
  ]

  -- `uart_event`: the `len` bytes of `source` were received
  unfoldable pub receive_message : State → List ℕ → ℕ → Option State
  receive_message s source len = elim (cp_decodemessage crc16_data source len (rx_reply s)) [
    | none ↦ none
    | some (pos zero, m) ↦ take_reply (store_reply s m)
    | some (_, m) ↦ some s
  ]
