-- ===== src/Gui/Wsn/Step.antt =====
-- One answer of a node to a payload that wsn.cpp sends in blocks.
use contiki_device_link.Common.{
  ℕ, ◌+◌, ◌/◌, ◌%◌, ◌^◌, ◌≤◌, ◌<◌, ◌≡◌, refl, sym, ap, ◌∙◌, Bool, true, false, List, [], ◌∷◌, ◌++◌,
  Option, none, some, if◌then◌else◌, ltb, leb, ◌==◌, length, length-append, append-nil, take-append,
  drop-append, arith,
}
use contiki_device_link.Pairing.Assemble.{joined}
use contiki_device_link.Uart.Message.{read_bytes}
use contiki_device_link.Gui.{Pdu, CoapOption, coap_check_option, option_block1, option_block2}
use contiki_device_link.Gui.Block.{calc_block_option, parse_block_option, more_bytes}
use contiki_device_link.Gui.Wsn.{Wsn, Message, handle_return_code, remove_pdu}
use contiki_device_link.Gui.Wsn.Receive.{
  token_of, find_message, blank, bytesleft, next_block, take_block1, take_block2, answered_block,
  completed, transmit, handle_answer, parse_pdu,
}

-- The answer to block `num`: the token of the message, and one byte of block1 with the number and 32 bytes.
pub record IsContinue (token num : ℕ) (recv : Pdu) : Type 0 where
  pub option : ℕ
  pub tokened : token_of recv.token ≡ some token
  pub block1 :
      coap_check_option recv.options option_block1
      ≡ some (record { option_number = option_block1; option_value = option ∷ [] })
  pub numbered : option / 16 ≡ num
  pub sized : option % 4 ≡ 1
  pub no_block2 : coap_check_option recv.options option_block2 ≡ none
  pub empty : recv.payload ≡ []

-- the parts of a payload: all but the last are blocks of `size`
abbrev pub IsCut : ℕ → List (List ℕ) → Type 0
IsCut size [] = Unit
IsCut size (p ∷ []) = (0 < length p) × (length p ≤ size)
IsCut size (p ∷ q ∷ ps) = (length p ≡ size) × IsCut size (q ∷ ps)

-- the block1 option of a message that was sent, and its payload
pub record Sent : Type 0 where
  pub option : List ℕ
  pub payload : List ℕ

abbrev pub block1_value : Option CoapOption → List ℕ
block1_value none = []
block1_value (some o) = o.option_value

abbrev pub view : Pdu → Sent
view p = record {
  option = block1_value (coap_check_option p.options option_block1);
  payload = p.payload;
}

abbrev pub has_next : List (List ℕ) → Bool
has_next [] = false
has_next (p ∷ ps) = true

-- the parts as blocks, from number `num` on
abbrev pub blocks : ℕ → List (List ℕ) → List Sent
blocks num [] = []
blocks num (p ∷ ps) =
    record { option = calc_block_option (has_next ps) num 32; payload = p } ∷ blocks (num + 1) ps

read_bytes-middle :
    (pre p r : List ℕ) → read_bytes (pre ++ (p ++ r)) (length pre) (length p) ≡ some p
read_bytes-middle pre p r =
    let inside : leb (length pre + length p) (length (pre ++ (p ++ r))) ≡ true =
      ground (arith, length-append pre (p ++ r), length-append p r) in
    rw inside (rw (drop-append pre (p ++ r)) (rw (take-append p r) refl))

pub first_nonempty : (p : List ℕ) (ps : List (List ℕ)) → IsCut 32 (p ∷ ps) → 0 < length p
first_nonempty p [] cut = cut.0
first_nonempty p (q ∷ ps) cut = omega (arith, cut.0)

-- Whether the next part is the last, and how long it is.
part_more :
    (p : List ℕ) (ps : List (List ℕ))
    → IsCut 32 (p ∷ ps)
    → ltb 32 (length p + length (joined ps)) ≡ has_next ps
part_more p [] cut = ground (arith, cut.1)
part_more p (q ∷ ps) cut =
    ground (arith, cut.0, first_nonempty q ps cut.1, length-append q (joined ps))

part_length :
    (p : List ℕ) (ps : List (List ℕ))
    → IsCut 32 (p ∷ ps)
    → (if has_next ps then 32 else length p + length (joined ps)) ≡ length p
part_length p [] cut = omega arith
part_length p (q ∷ ps) cut = sym cut.0

-- the message after its next part, and what is sent of it
abbrev pub advanced : Message → List ℕ → List ℕ → ℕ → Message
advanced m pre p num = record m { num = num + 1; tx_next_index = length pre + length p }

abbrev pub block_pdu : List ℕ → List (List ℕ) → ℕ → Pdu
block_pdu p ps num = record blank {
  options =
      record {
        option_number = option_block1;
        option_value = calc_block_option (has_next ps) (num + 1) 32;
      }
      ∷ [];
  payload = p;
}

abbrev pub continued : Message → List ℕ → List ℕ → List (List ℕ) → ℕ → Pdu → Message
continued m pre p ps num recv = record (advanced m pre p num) {
  last_pdu = completed (advanced m pre p num) recv (block_pdu p ps num);
}

module _ (m : Message) (pre p : List ℕ) (ps : List (List ℕ)) (num : ℕ)
    (whole : m.tx_payload ≡ pre ++ (p ++ joined ps)) (index : m.tx_next_index ≡ length pre)
    (short : length m.tx_payload < 2 ^ 32) (cut : IsCut 32 (p ∷ ps)) (few : num < 15) where
  left : bytesleft m ≡ length p + length (joined ps)
  left = omega (
    arith,
    ap length whole,
    index,
    short,
    length-append pre (p ++ joined ps),
    length-append p (joined ps),
  )

  next_block_lem : next_block m num 32 ≡ some (advanced m pre p num, block_pdu p ps num)
  unfolding next_block
  next_block_lem =
      let found : read_bytes m.tx_payload m.tx_next_index (length p) ≡ some p =
        rw whole (rw index (read_bytes-middle pre p (joined ps))) in
      let more : ltb 32 (bytesleft m) ≡ has_next ps = ap (ltb 32) left ∙ part_more p ps cut in
      let size : (if ltb 32 (bytesleft m) then 32 else bytesleft m) ≡ length p =
        ap (λ b. if b then 32 else bytesleft m) more
        ∙ (ap (λ n. if has_next ps then 32 else n) left ∙ part_length p ps cut) in
      let next : (m.tx_next_index + (if ltb 32 (bytesleft m) then 32 else bytesleft m)) % 2 ^ 32
          ≡ length pre + length p =
        ap (λ n. (m.tx_next_index + n) % 2 ^ 32) size
        ∙ omega (
          arith,
          ap length whole,
          index,
          short,
          length-append pre (p ++ joined ps),
          length-append p (joined ps),
        ) in
      let number : (num + 1) % 2 ^ 32 ≡ num + 1 = omega (arith, few) in
      rw (size, next_block) (rw found (rw next (rw number (rw more refl))))

  -- The next block is sent for the answer to the one before.
  pub step_lem :
      (w : Wsn) (others : List Message) (recv : Pdu)
      → IsContinue m.token num recv
      → let n = continued m pre p ps num recv in
        parse_pdu (record w { active_pdus = m ∷ others }) recv
        ≡ some (record w { active_pdus = n ∷ others; sent = w.sent ++ n.last_pdu ∷ [] })
  unfolding parse_pdu find_message handle_answer take_block1 answered_block parse_block_option
      more_bytes take_block2 transmit
  step_lem w others recv c =
      let same : (m.token == m.token) ≡ true = ground arith in
      let no_payload : (length recv.payload == 0) ≡ true = ap (λ l. length l == 0) (c.empty) in
      let some_left : (bytesleft m == 0) ≡ false = ground (arith, left, first_nonempty p ps cut) in
      rw (c.tokened, parse_pdu)
        (rw (same, find_message)
          (rw (c.block1, handle_answer)
            (rw (some_left, take_block1)
              (rw (c.numbered) (
                rw (c.sized) (
                  rw next_block_lem (
                    rw (c.no_block2)
                      (rw (no_payload, take_block2) (rw (append-nil w.told) refl)))))))))

-- The answer to the last block: the code is told, and the message no longer waits.
pub last_lem :
    (w : Wsn) (m : Message) (num : ℕ) (others : List Message) (recv : Pdu)
    → IsContinue m.token num recv
    → m.tx_next_index ≡ length m.tx_payload
    → m.keep ≡ false
    → parse_pdu (record w { active_pdus = m ∷ others }) recv
      ≡ some (record w {
        active_pdus = others;
        told = w.told ++ handle_return_code m.tokenref recv.code ∷ [];
      })
unfolding parse_pdu find_message handle_answer take_block1 answered_block parse_block_option
    more_bytes take_block2 transmit remove_pdu
last_lem w m num others recv c all removable =
    let same : (m.token == m.token) ≡ true = ground arith in
    let no_payload : (length recv.payload == 0) ≡ true = ap (λ l. length l == 0) (c.empty) in
    let none_left : (bytesleft m == 0) ≡ true =
      let none : bytesleft m ≡ 0 = omega (arith, all) in ground (arith, none) in
    rw (c.tokened, parse_pdu)
      (rw (same, find_message)
        (rw (c.block1, handle_answer)
          (rw (none_left, take_block1)
            (rw (c.no_block2) (
              rw (no_payload, take_block2)
                (rw (removable, remove_pdu) (rw same (rw (append-nil w.told) refl))))))))
