-- ===== src/Gui/Wsn.antt =====
-- SensorsUnleasedGui/suGui/wsn.cpp: the messages that the desktop program has sent to a node and that wait for an
-- answer. `Receive` models what is done with an answer, `Retry` and `Upload` hold the proofs.
-- A timer and a clock count milliseconds.
pub mod Timeout
pub mod Receive
pub mod Retry
pub mod Step
pub mod Upload
pub mod Delivered
use contiki_device_link.Common.{
  ℕ, zero, suc, ◌+◌, ◌-◌, ◌*◌, Bool, true, false, List, [], ◌∷◌, ◌++◌, Option, none, some,
  if◌then◌else◌, ◌==◌, ltb, leb, ◌&&◌, not, max, length, take,
}
use contiki_device_link.Gui.{PduType, confirmable, Pdu, option_block1}
use contiki_device_link.Gui.Block.{calc_block_option}

-- `msgid`
pub record MsgId : Type 0 where
  pub number : ℕ
  pub req : ℕ

-- `struct coapMessageStore_`; `txtime` is when the message was sent, or invalid.
pub record Message : Type 0 where
  pub token : ℕ
  pub tokenref : MsgId
  pub last_pdu : Pdu
  pub rx_payload : List ℕ
  pub tx_payload : List ℕ
  pub tx_next_index : ℕ
  pub num : ℕ
  pub txtime : Option ℕ
  pub keep : Bool
  pub retranscount : ℕ

-- the content formats that have a function
pub data Format : Type 0 where
  text_plain app_link app_xml app_octet app_exi app_json : Format

-- The calls of the virtual functions, and the signal `timeoutinfo`. `parsed` stands for the six functions of the
-- content formats; only that of APP_OCTET is given the code.
pub data Told : Type 0 where
  parsed : Format → MsgId → List ℕ → ℕ → Told
  node_not_responding : MsgId → Told
  handle_return_code : MsgId → ℕ → Told
  timeoutinfo : ℕ → ℕ → Told

-- `acktimer` is when the timer ends, if it is active. `sent` is what went to the socket, `observing` whether the
-- socket passes the node's datagrams on.
pub record Wsn : Type 0 where
  pub pref_msg_size : ℕ
  pub ack_timeout : ℕ
  pub retransmissions : ℕ
  pub active_pdus : List Message
  pub acktimer : Option ℕ
  pub sent : List Pdu
  pub told : List Told
  pub observing : Bool

-- `wsn::wsn`
unfoldable pub wsn : Wsn
wsn = record {
  pref_msg_size = 32;
  ack_timeout = 2000;
  retransmissions = 3;
  active_pdus = [];
  acktimer = none;
  sent = [];
  told = [];
  observing = false;
}

abbrev pub is_confirmable : PduType → Bool
is_confirmable confirmable = true
is_confirmable _ = false

-- `acktimer->start(ms)`, unless it is active
abbrev pub start_timer : ℕ → ℕ → Option ℕ → Option ℕ
start_timer now ms none = some (now + ms)
start_timer now ms (some t) = some t

-- The new entry of the store. `stale` and `stale_num` are what the fields hold that are only set for a message that
-- is sent in blocks.
abbrev pub new_entry : ℕ → ℕ → ℕ → Pdu → MsgId → Message
new_entry now stale stale_num pdu ref = record {
  token = ref.number;
  tokenref = ref;
  last_pdu = pdu;
  rx_payload = [];
  tx_payload = [];
  tx_next_index = stale;
  num = stale_num;
  txtime = some now;
  keep = false;
  retranscount = 0;
}

-- the message with its payload, or with the first block of it
unfoldable pub with_tx_payload : ℕ → Message → List ℕ → Message
with_tx_payload size m payload =
    if length payload == 0
    then m
    else (if ltb size (length payload)
        then record m {
          last_pdu = record (m.last_pdu) {
            options =
                m.last_pdu.options
                ++ record {
                  option_number = option_block1;
                  option_value = calc_block_option true 0 size;
                }
                  ∷ [];
            payload = take size payload;
          };
          tx_payload = payload;
          tx_next_index = size;
          num = 0;
        }
        else record m { last_pdu = record (m.last_pdu) { payload = payload } })

-- `wsn::send`
unfoldable pub send : ℕ → ℕ → ℕ → Wsn → Pdu → MsgId → List ℕ → Wsn
send now stale stale_num w pdu ref payload =
    let m = with_tx_payload w.pref_msg_size (new_entry now stale stale_num pdu ref) payload in
    record w {
      sent = w.sent ++ m.last_pdu ∷ [];
      observing = true;
      acktimer =
          if is_confirmable pdu.type then start_timer now w.ack_timeout w.acktimer else w.acktimer;
      active_pdus = w.active_pdus ++ m ∷ [];
      told = w.told ++ timeoutinfo 0 w.retransmissions ∷ [];
    }

-- `stopListening`
unfoldable pub stop_listening : Wsn → Wsn
stop_listening w = record w { observing = false }

-- `removePDU`: the first message with that token that is not kept
unfoldable pub remove_pdu : ℕ → List Message → List Message
remove_pdu token [] = []
remove_pdu token (m ∷ ms) = if m.token == token && not m.keep then ms else m ∷ remove_pdu token ms

-- `disableTokenRemoval` and `enableTokenRemoval`
unfoldable pub disable_token_removal : ℕ → List Message → List Message
disable_token_removal token [] = []
disable_token_removal token (m ∷ ms) =
    if m.token == token
    then record m { txtime = none; keep = true } ∷ ms
    else m ∷ disable_token_removal token ms

unfoldable pub enable_token_removal : ℕ → List Message → List Message
enable_token_removal token [] = []
enable_token_removal token (m ∷ ms) =
    if m.token == token then record m { keep = false } ∷ ms else m ∷ enable_token_removal token ms
