-- ===== src/Gui/Tests.antt =====
-- Runs and instances of the desktop program.
use contiki_device_link.Common.{
  ℕ, ◌+◌, ◌*◌, ◌/◌, ◌%◌, ◌^◌, ◌<◌, ◌≡◌, ◌↔◌, refl, true, false, List, [], ◌∷◌, ◌++◌, none, some,
  arith, replicate, map,
}
use contiki_device_link.Common.Bits.{has_bit}
use contiki_device_link.Pairing.Assemble.{joined, IsAssembled}
use contiki_device_link.Pairing.{Assembly}
use contiki_device_link.Device.Tests.Fixtures.{three_bytes, blocks, appending}
use contiki_device_link.Coap.Put.{finish_join}
use contiki_device_link.Coap.Parts.{continue}
use contiki_device_link.Coap.Tests.{lamp, board, switching, always, plenty, blank}
use contiki_device_link.Gui.{
  Pdu, confirmable, acknowledgement, coap_check_option, option_block1, option_content_format,
}
use contiki_device_link.Gui.Block.{BlockOption, calc_block_option, parse_block_option, size_of}
use contiki_device_link.Gui.Block.Laws.{parse_block_option-calc_block_option}
use contiki_device_link.Gui.Wsn.{Wsn, MsgId, wsn, send, timeoutinfo}
use contiki_device_link.Gui.Wsn.Retry.{fires, entry, idle, told_until, fires-send}
use contiki_device_link.Gui.Wsn.Step.{IsContinue, Sent, view}
use contiki_device_link.Gui.Wsn.Step
use contiki_device_link.Gui.Wsn.Upload.{exchange, ready, IsUploaded, final_code, exchange-send}
use contiki_device_link.Gui.Wsn.Delivered.{ReadBlock, deliver, deliver-send}

parse_block_option-calc_block_option_example :
    (o : BlockOption) × (parse_block_option (calc_block_option true 20 32) ≡ some o)
    × (o.more ≡ true)
    × (size_of o.szx ≡ 32)
    × ((o.num ≡ 20) ↔ (20 < 16))
parse_block_option-calc_block_option_example =
    parse_block_option-calc_block_option true 20 32 (1, omega arith, refl) (omega arith)

abbrev pdu : Pdu
pdu = record {
  type = confirmable;
  code = 3;
  message_id = 100;
  token = 5 ∷ 0 ∷ [];
  uri = 115 ∷ [];
  options = record { option_number = option_content_format; option_value = 42 ∷ [] } ∷ [];
  payload = [];
}

abbrev ref : MsgId
ref = record { number = 5; req = 1 }

abbrev program : Wsn
program = record {
  pref_msg_size = 32;
  ack_timeout = 2000;
  retransmissions = 3;
  active_pdus = [];
  acktimer = none;
  sent = [];
  told = [];
  observing = false;
}

program_lem : wsn ≡ program
unfolding wsn
program_lem = refl

-- The slots run on time, and late.
fires-send_example :
    let m = entry 10 0 0 program pdu ref (1 ∷ 2 ∷ []) in
    fires (send 10 0 0 (idle program) pdu ref (1 ∷ 2 ∷ [])) (0 ∷ 0 ∷ 5 ∷ 0 ∷ 0 ∷ 9 ∷ 0 ∷ 1 ∷ [])
    ≡ record program {
      active_pdus = [];
      acktimer = none;
      observing = true;
      sent = program.sent ++ replicate 4 m.last_pdu;
      told = program.told ++ timeoutinfo 0 3 ∷ told_until 3 3 m;
    }
fires-send_example =
    fires-send 10 0 0 program pdu ref (1 ∷ 2 ∷ []) (0 ∷ 0 ∷ 5 ∷ 0 ∷ 0 ∷ 9 ∷ 0 ∷ 1 ∷ []) refl
      (omega arith) (omega arith)

abbrev read_byte : List ℕ → ReadBlock
read_byte [] = record { num = 0; more = false; size = 16 }
read_byte (v ∷ vs) = record { num = v / 16; more = has_bit v 8; size = 2 ^ (v % 8 + 4) }

-- the answer to block `num`
abbrev answer : ℕ → Pdu
answer num = record {
  type = acknowledgement;
  code = 68;
  message_id = 100;
  token = 5 ∷ 0 ∷ [];
  uri = [];
  options = record { option_number = option_block1; option_value = (num * 16 + 1) ∷ [] } ∷ [];
  payload = [];
}

answer-IsContinue_zero : IsContinue 5 0 (answer 0)
answer-IsContinue_zero = record {
  option = 1;
  tokened = refl;
  block1 = unfold coap_check_option in refl;
  numbered = refl;
  sized = refl;
  no_block2 = unfold coap_check_option in refl;
  empty = refl;
}

answer-IsContinue_one : IsContinue 5 1 (answer 1)
answer-IsContinue_one = record {
  option = 17;
  tokened = refl;
  block1 = unfold coap_check_option in refl;
  numbered = refl;
  sized = refl;
  no_block2 = unfold coap_check_option in refl;
  empty = refl;
}

deliver-send_example :
    (v : Wsn) × (sent : List Sent) × (a : Assembly) × (exchange
        (send 10 0 0 (ready program) pdu ref (joined (replicate 32 7 ∷ (8 ∷ 9 ∷ []) ∷ [])))
        (answer 0 ∷ answer 1 ∷ [])
      ≡ some v)
    × (map view v.sent ≡ map view program.sent ++ sent)
    × (deliver read_byte three_bytes blocks appending plenty
          (λ pool. blank)
          always
          board
          0
          lamp
          switching
          (continue 0 32)
          sent
        ≡ finish_join three_bytes blocks appending plenty
            (λ pool. blank)
            always
            (continue 1 32)
            (record board { assembly = a })
            0
            lamp)
    × IsAssembled a (joined (replicate 32 7 ∷ (8 ∷ 9 ∷ []) ∷ []))
deliver-send_example =
    deliver-send read_byte (λ v byte. refl) three_bytes blocks appending plenty (λ pool. blank)
      always 10 0 0 program pdu ref (replicate 32 7) (8 ∷ 9 ∷ []) [] (answer 0) (answer 1 ∷ [])
      board 0 lamp switching (continue 0 32) (unfold coap_check_option in refl) (refl, omega arith)
      (omega arith) refl (answer-IsContinue_zero, (answer-IsContinue_one, tt))

exchange-send_example :
    (v : Wsn) × (exchange
        (send 10 0 0 (ready program) pdu ref (joined (replicate 32 7 ∷ (8 ∷ 9 ∷ []) ∷ [])))
        (answer 0 ∷ answer 1 ∷ [])
      ≡ some v)
    × IsUploaded
        (record program { told = program.told ++ timeoutinfo 0 program.retransmissions ∷ [] })
        v
        []
        (Step.blocks 0 (replicate 32 7 ∷ (8 ∷ 9 ∷ []) ∷ []))
        ref
        (final_code (answer 0) (answer 1 ∷ []))
exchange-send_example =
    exchange-send 10 0 0 program pdu ref (replicate 32 7) (8 ∷ 9 ∷ []) []
      (unfold coap_check_option in refl) (refl, omega arith) (answer 0) (answer 1 ∷ [])
      (omega arith) refl (answer-IsContinue_zero, (answer-IsContinue_one, tt))
