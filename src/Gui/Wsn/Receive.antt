-- ===== src/Gui/Wsn/Receive.antt =====
-- SensorsUnleasedGui/suGui/wsn.cpp: what is done with a datagram of the node. `none` is a run whose behaviour C++
-- leaves undefined.
use contiki_device_link.Common.{
  ℕ, suc, ◌+◌, ◌-◌, ◌*◌, ◌%◌, ◌^◌, List, [], ◌∷◌, ◌++◌, Option, none, some, if◌then◌else◌, ◌==◌,
  ltb, length, take, drop, replicate, set,
}
use contiki_device_link.Uart.Message.{read_bytes}
use contiki_device_link.Gui.{
  Pdu, CoapOption, confirmable, reset, acknowledgement, coap_check_option, option_content_format,
  option_block1, option_block2,
}
use contiki_device_link.Gui.Block.{
  calc_block_option, parse_block_option, size_of, next_block_option,
}
use contiki_device_link.Gui.Wsn.{
  Wsn, Message, Told, parsed, handle_return_code, Format, text_plain, app_link, app_xml, app_octet,
  app_exi, app_json, remove_pdu,
}

-- The token as a number: `memcpy` into a `uint16_t` of the stack, which two bytes fill.
abbrev pub token_of : List ℕ → Option ℕ
token_of (a ∷ b ∷ []) = some (a + 256 * b)
token_of _ = none

-- `findPDU`, with the message's place
unfoldable pub find_message : List Message → ℕ → Option (ℕ × Message)
find_message [] token = none
find_message (m ∷ ms) token =
    let rest = find_message ms token in
    if m.token == token
    then some (0, m)
    else elim rest [ none ↦ none | some (i, n) ↦ some (suc i, n) ]

-- `new CoapPDU()`
abbrev pub blank : Pdu
blank = record {
  type = confirmable;
  code = 0;
  message_id = 0;
  token = [];
  uri = [];
  options = [];
  payload = [];
}

-- `send_RST` and `send_ACK`, which no one calls; `send_ACK` copies the URI of the message that it makes.
unfoldable pub send_rst : Wsn → Pdu → Wsn
send_rst w recv = record w {
  sent =
      w.sent
      ++ record blank {
        uri = recv.uri;
        message_id = recv.message_id;
        token = recv.token;
        type = reset;
      }
        ∷ [];
}

unfoldable pub send_ack : Wsn → Pdu → Wsn
send_ack w recv = record w {
  sent =
      w.sent
      ++ record blank { message_id = recv.message_id; token = recv.token; type = acknowledgement }
        ∷ [];
}

-- `rx_payload[offset + i] = *(pl + i)`: the array grows to a byte that is written behind its end. The bytes between,
-- which are left unset, are 0 here.
unfoldable pub write_at : List ℕ → ℕ → List ℕ → List ℕ
write_at rx offset pl =
    if length pl == 0
    then rx
    else take offset rx
      ++ (replicate (offset - length rx) 0 ++ (pl ++ drop (offset + length pl) rx))

abbrev format_of : ℕ → Option Format
format_of ct =
    if ct == 0
    then some text_plain
    else (if ct == 40
        then some app_link
        else (if ct == 41
            then some app_xml
            else (if ct == 42
                then some app_octet
                else (if ct == 47
                    then some app_exi
                    else (if ct == 50 then some app_json else none)))))

abbrev content_format : CoapOption → ℕ
content_format o = elim (o.option_value) [ [] ↦ 0 | v ∷ vs ↦ v ]

-- `parseMessage`, by the content format that the request had
unfoldable pub parse_rx_message : Message → ℕ → List Told
parse_rx_message m code = elim (coap_check_option m.last_pdu.options option_content_format) [
  | none ↦ []
  | some o ↦ elim (format_of (content_format o)) [
    | none ↦ []
    | some f ↦ parsed f m.tokenref m.rx_payload code ∷ []
  ]
]

-- The number and the size of the block that was answered.
unfoldable pub answered_block : Wsn → Message → CoapOption → ℕ × ℕ
answered_block w m o = elim (parse_block_option o.option_value) [
  | none ↦ (m.num, w.pref_msg_size)
  | some b ↦ (b.num, size_of b.szx)
]

-- what is left of the payload, a `uint32_t`
abbrev pub bytesleft : Message → ℕ
bytesleft m = (length m.tx_payload + 2 ^ 32 - m.tx_next_index) % 2 ^ 32

-- The next block of a payload, behind block `num`, with blocks of `prefsize` bytes.
unfoldable pub next_block : Message → ℕ → ℕ → Option (Message × Pdu)
next_block m num prefsize =
    let more = ltb prefsize (bytesleft m) in
    let n = if more then prefsize else bytesleft m in
    elim (read_bytes m.tx_payload m.tx_next_index n) [
      | none ↦ none
      | some bytes ↦ some (
        record m { num = (num + 1) % 2 ^ 32; tx_next_index = (m.tx_next_index + n) % 2 ^ 32 },
        record blank {
          options =
              record {
                option_number = option_block1;
                option_value = calc_block_option more ((num + 1) % 2 ^ 32) prefsize;
              }
              ∷ [];
          payload = bytes;
        },
      )
    ]

-- the answer's block1 option
unfoldable pub take_block1 : Wsn → Message → Option CoapOption → Option (Message × Option Pdu)
take_block1 w m none = some (m, none)
take_block1 w m (some o) =
    let (num, prefsize) = answered_block w m o in
    if bytesleft m == 0
    then some (m, none)
    else elim (next_block m num prefsize) [ none ↦ none | some (n, pdu) ↦ some (n, some pdu) ]

-- The answer's block2 option, or a plain answer: the message, what is told, and what is asked for next.
unfoldable pub take_block2 : Message → Pdu → Option CoapOption → Message × List Told × Option Pdu
take_block2 m recv none =
    if length recv.payload == 0
    then (m, [], none)
    else (let n = record m { rx_payload = write_at m.rx_payload 0 recv.payload } in
        (n, parse_rx_message n recv.code, none))
take_block2 m recv (some o) = elim (parse_block_option o.option_value) [
  | none ↦ (m, [], none)
  | some b ↦
      let n = record m {
        rx_payload = write_at m.rx_payload (b.num * size_of b.szx % 2 ^ 32) recv.payload;
      } in
      if b.more
      then (
        n,
        [],
        some (record blank {
          options =
              record {
                option_number = option_block2;
                option_value = next_block_option o.option_value ((b.num + 1) % 2 ^ 32);
              }
              ∷ [];
        }),
      )
      else (n, parse_rx_message n recv.code, none)
]

-- `setContentFormat`; TEXT_PLAIN is an option with no byte.
abbrev content_option : ℕ → CoapOption
content_option ct = record {
  option_number = option_content_format;
  option_value = if ct == 0 then [] else ct ∷ [];
}

-- the content format of the request, for the next one
abbrev pub same_format : List CoapOption → List CoapOption
same_format options = elim (coap_check_option options option_content_format) [
  | none ↦ []
  | some o ↦ elim (o.option_value) [ [] ↦ [] | v ∷ vs ↦ content_option v ∷ [] ]
]

-- The message that is sent next; the URI is copied up to 200 characters.
unfoldable pub completed : Message → Pdu → Pdu → Pdu
completed m recv tx = record m.last_pdu {
  options = tx.options ++ same_format m.last_pdu.options;
  message_id = (recv.message_id + 1) % 65536;
  payload = tx.payload;
}

-- what goes out: the block2 part's message, or else the block1 part's
abbrev pub chosen : Option Pdu → Option Pdu → Option Pdu
chosen tx (some pdu) = some pdu
chosen tx none = tx

-- `Do the transmitting part`, for the message at place `i`
unfoldable pub transmit : Wsn → ℕ → Message → Pdu → Option Pdu → Wsn
transmit w i m recv none = record w {
  active_pdus = remove_pdu m.token (set w.active_pdus i m);
  told = w.told ++ handle_return_code m.tokenref recv.code ∷ [];
}
transmit w i m recv (some tx) =
    let pdu = completed m recv tx in
    record w {
      active_pdus = set w.active_pdus i (record m { last_pdu = pdu });
      sent = w.sent ++ pdu ∷ [];
    }

-- an answer to the message at place `i`
unfoldable pub handle_answer : Wsn → ℕ → Message → Pdu → Option Wsn
handle_answer w i m recv = elim (take_block1 w m (coap_check_option recv.options option_block1)) [
  | none ↦ none
  | some (n, tx) ↦
      let (o, told, asked) = take_block2 n recv (coap_check_option recv.options option_block2) in
      some (transmit (record w { told = w.told ++ told }) i o recv (chosen tx asked))
]

-- `parseData`, for a datagram that `validate` accepts; one that no message waits for is dropped.
unfoldable pub parse_pdu : Wsn → Pdu → Option Wsn
parse_pdu w recv = elim (token_of recv.token) [
  | none ↦ none
  | some token ↦ elim (find_message w.active_pdus token) [
    | none ↦ some w
    | some (i, m) ↦ handle_answer w i m recv
  ]
]

-- `validate` is cantcoap's reading of a datagram.
unfoldable pub parse_data : (List ℕ → Option Pdu) → Wsn → List ℕ → Option Wsn
parse_data validate w datagram = elim (validate datagram) [
  | none ↦ some w
  | some recv ↦ parse_pdu w recv
]
