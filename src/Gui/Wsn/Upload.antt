-- ===== src/Gui/Wsn/Upload.antt =====
-- A payload that is longer than a block: what `send` and `parseData` of wsn.cpp send of it, while the node
-- answers each block.
use contiki_device_link.Common.{
  ℕ, suc, ◌+◌, ◌*◌, ◌^◌, ◌≤◌, ◌<◌, ◌≡◌, refl, sym, ap, ◌∙◌, true, false, List, [], ◌∷◌, ◌++◌,
  Option, none, some, if◌then◌else◌, ltb, ◌==◌, length, take, map, length-append, append_assoc,
  append-nil, take-append, arith, Bool-cases, inl, inr,
}
use mathlib.Core.List.{map-append}
use contiki_device_link.Pairing.Assemble.{joined}
use contiki_device_link.Gui.{Pdu, CoapOption, coap_check_option, option_block1}
use contiki_device_link.Gui.Block.{calc_block_option}
use contiki_device_link.Gui.Wsn.{
  Wsn, Message, MsgId, handle_return_code, timeoutinfo, new_entry, send, with_tx_payload,
  is_confirmable, start_timer,
}
use contiki_device_link.Gui.Wsn.Receive.{completed, parse_pdu}
use contiki_device_link.Gui.Wsn.Step.{
  IsContinue, IsCut, Sent, block1_value, view, blocks, first_nonempty, continued, step_lem,
  last_lem,
}

-- the answers, one after the other
unfoldable pub exchange : Wsn → List Pdu → Option Wsn
exchange w [] = some w
exchange w (r ∷ rs) = elim (parse_pdu w r) [ none ↦ none | some v ↦ exchange v rs ]

abbrev pub AllContinue : ℕ → ℕ → List Pdu → Type 0
AllContinue token num [] = Unit
AllContinue token num (r ∷ rs) = IsContinue token num r × AllContinue token (num + 1) rs

abbrev pub final_code : Pdu → List Pdu → ℕ
final_code r [] = r.code
final_code r (s ∷ rs) = final_code s rs

-- The parts were sent as blocks from number `num` on, the code is told, and only `others` wait.
pub record IsUploaded (w v : Wsn) (others : List Message) (parts : List Sent) (ref : MsgId)
    (code : ℕ) : Type 0 where
  pub waiting : v.active_pdus ≡ others
  pub sent : map view v.sent ≡ map view w.sent ++ parts
  pub told : v.told ≡ w.told ++ handle_return_code ref code ∷ []

later-IsCut : (p : List ℕ) (ps : List (List ℕ)) → IsCut 32 (p ∷ ps) → IsCut 32 ps
later-IsCut p [] cut = tt
later-IsCut p (q ∷ ps) cut = cut.1

upload_rest :
    (ps : List (List ℕ)) (w : Wsn) (m : Message) (others : List Message) (pre : List ℕ) (num : ℕ)
    (r : Pdu) (rs : List Pdu)
    → m.tx_payload ≡ pre ++ joined ps
    → m.tx_next_index ≡ length pre
    → length m.tx_payload < 2 ^ 32
    → IsCut 32 ps
    → num + length ps < 16
    → m.keep ≡ false
    → length rs ≡ length ps
    → AllContinue m.token num (r ∷ rs)
    → (v : Wsn) × (exchange (record w { active_pdus = m ∷ others }) (r ∷ rs) ≡ some v)
      × IsUploaded w v others (blocks (num + 1) ps) m.tokenref (final_code r rs)
unfolding exchange completed coap_check_option
upload_rest [] w m others pre num r [] whole index short cut few removable count c =
    let all : m.tx_next_index ≡ length m.tx_payload =
      omega (arith, index, ap length whole, length-append pre []) in
    (
      record w { active_pdus = others; told = w.told ++ handle_return_code m.tokenref r.code ∷ [] },
      rw (last_lem w m num others r (c.0) all removable, exchange) refl,
      record { waiting = refl; sent = sym (append-nil (map view w.sent)); told = refl },
    )
upload_rest [] w m others pre num r (q ∷ rs) whole index short cut few removable count c =
    absurd (omega (arith, count))
upload_rest (p ∷ ps) w m others pre num r [] whole index short cut few removable count c =
    absurd (omega (arith, count))
upload_rest (p ∷ ps) w m others pre num r (q ∷ rs) whole index short cut few removable count c =
    let n = continued m pre p ps num r in
    let w' : Wsn = record w { sent = w.sent ++ n.last_pdu ∷ [] } in
    let (v, runs, up) =
      upload_rest ps w' n others (pre ++ p) (num + 1) q rs
        (whole ∙ sym (append_assoc pre p (joined ps))) (sym (length-append pre p)) short
        (later-IsCut p ps cut) (omega (arith, few)) removable (omega (arith, count)) (c.1) in
    (
      v,
      rw
          (
            step_lem m pre p ps num whole index short cut (omega (arith, few)) w others r (c.0),
            exchange,
          )
          runs,
      record {
        waiting = up.waiting;
        told = up.told;
        sent =
            up.sent
            ∙ (ap (λ l. l ++ blocks (num + 1 + 1) ps) (map-append view w.sent (n.last_pdu ∷ []))
                ∙ append_assoc (map view w.sent) (view n.last_pdu ∷ []) (blocks (num + 1 + 1) ps));
      },
    )

joined_short :
    (p : List ℕ) (ps : List (List ℕ))
    → IsCut 32 (p ∷ ps)
    → length (joined (p ∷ ps)) ≤ 32 * suc (length ps)
joined_short p [] cut = omega (arith, cut.1, length-append p [])
joined_short p (q ∷ ps) cut =
    omega (arith, cut.0, length-append p (joined (q ∷ ps)), joined_short q ps cut.1)

option-append :
    (options : List CoapOption) (o : CoapOption)
    → o.option_number ≡ option_block1
    → coap_check_option options option_block1 ≡ none
    → coap_check_option (options ++ o ∷ []) option_block1 ≡ some o
unfolding coap_check_option
option-append [] o number missing = rw number refl
option-append (a ∷ options) o number missing =
    elim (Bool-cases (a.option_number == option_block1)) [
      | inl here ↦ absurd (cc (rw (here, coap_check_option) at missing))
      | inr other ↦
          rw (other, coap_check_option)
            (option-append options o number (rw (other, coap_check_option) at missing))
    ]

-- a program that sends blocks of 32 bytes, while no message waits
abbrev pub ready : Wsn → Wsn
ready w = record w { pref_msg_size = 32; active_pdus = [] }

module _ (now stale stale_num : ℕ) (w : Wsn) (pdu : Pdu) (ref : MsgId) (p q : List ℕ)
    (ps : List (List ℕ)) (plain : coap_check_option pdu.options option_block1 ≡ none)
    (cut : IsCut 32 (p ∷ q ∷ ps)) where
  abbrev first : Message
  first = record (new_entry now stale stale_num pdu ref) {
    last_pdu = record pdu {
      options =
          pdu.options
          ++ record { option_number = option_block1; option_value = calc_block_option true 0 32 }
            ∷ [];
      payload = p;
    };
    tx_payload = joined (p ∷ q ∷ ps);
    tx_next_index = 32;
    num = 0;
  }

  first_lem :
      with_tx_payload 32 (new_entry now stale stale_num pdu ref) (joined (p ∷ q ∷ ps)) ≡ first
  unfolding with_tx_payload
  first_lem =
      let long : length (joined (p ∷ q ∷ ps)) ≡ 32 + length (joined (q ∷ ps)) =
        omega (arith, cut.0, length-append p (joined (q ∷ ps))) in
      let more : 0 < length (joined (q ∷ ps)) =
        omega (arith, first_nonempty q ps cut.1, length-append q (joined ps)) in
      let some_bytes : (length (joined (p ∷ q ∷ ps)) == 0) ≡ false = ground (arith, long) in
      let split : ltb 32 (length (joined (p ∷ q ∷ ps))) ≡ true = ground (arith, long, more) in
      let part : take 32 (joined (p ∷ q ∷ ps)) ≡ p =
        ap (λ n. take n (joined (p ∷ q ∷ ps))) (sym cut.0) ∙ take-append p (joined (q ∷ ps)) in
      rw (some_bytes, with_tx_payload) (rw split (rw part refl))

  abbrev begun : Wsn
  begun = record w {
    pref_msg_size = 32;
    sent = w.sent ++ first.last_pdu ∷ [];
    told = w.told ++ timeoutinfo 0 w.retransmissions ∷ [];
    observing = true;
    acktimer =
        if is_confirmable pdu.type then start_timer now w.ack_timeout w.acktimer else w.acktimer;
  }

  send_lem :
      send now stale stale_num (ready w) pdu ref (joined (p ∷ q ∷ ps))
      ≡ record begun { active_pdus = first ∷ [] }
  unfolding send
  send_lem = rw first_lem refl

  first_sent : map view begun.sent ++ blocks 1 (q ∷ ps) ≡ map view w.sent ++ blocks 0 (p ∷ q ∷ ps)
  first_sent =
      let seen =
        option-append pdu.options
          (record { option_number = option_block1; option_value = calc_block_option true 0 32 })
          refl plain in
      ap (λ l. l ++ blocks 1 (q ∷ ps))
        (map-append view w.sent (first.last_pdu ∷ [])
          ∙ ap (λ o. map view w.sent ++ record { option = block1_value o; payload = p } ∷ []) seen)
      ∙ append_assoc (map view w.sent) _ (blocks 1 (q ∷ ps))

  -- A payload of 33 to 512 bytes, cut into parts of 32 bytes with a last one of 1 to 32, that is sent while no other
  -- message waits to a node that answers each block with its number and this size: the parts are sent
  -- as the blocks from 0 on, each but the last with more to come; after the answer to the last the code is
  -- told, and nothing waits.
  pub exchange-send :
      (r : Pdu) (rs : List Pdu)
      → length (q ∷ ps) < 16
      → length rs ≡ length (q ∷ ps)
      → AllContinue ref.number 0 (r ∷ rs)
      → (v : Wsn) × (exchange
            (send now stale stale_num (ready w) pdu ref (joined (p ∷ q ∷ ps)))
            (r ∷ rs)
          ≡ some v)
        × IsUploaded
            (record w { told = w.told ++ timeoutinfo 0 w.retransmissions ∷ [] })
            v
            []
            (blocks 0 (p ∷ q ∷ ps))
            ref
            (final_code r rs)
  exchange-send r rs few count answers =
      let (v, runs, up) =
        upload_rest (q ∷ ps) begun first [] p 0 r rs refl (sym cut.0)
          (omega (arith, joined_short p (q ∷ ps) cut, few)) (cut.1) (omega (arith, few)) refl count
          answers in
      (
        v,
        ap (λ s. exchange s (r ∷ rs)) send_lem ∙ runs,
        record { waiting = up.waiting; told = up.told; sent = up.sent ∙ first_sent },
      )
