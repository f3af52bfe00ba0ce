-- ===== src/Gui/Wsn/Timeout.antt =====
-- SensorsUnleasedGui/suGui/wsn.cpp, `timeout`: what is sent again, and what is given up, when the timer has ended.
use contiki_device_link.Common.{
  ℕ, ◌+◌, ◌-◌, List, [], ◌∷◌, ◌++◌, Option, none, some, if◌then◌else◌, ltb, leb, max,
}
use contiki_device_link.Gui.Wsn.{
  Wsn, Message, Told, timeoutinfo, node_not_responding, is_confirmable, remove_pdu,
}
use contiki_device_link.Gui.{Pdu}

-- What the loop of `timeout` makes of the messages: the store, `nexttimeout` (`none` is -1), `delindex`, and what is
-- sent and told.
pub record Round : Type 0 where
  pub store : List Message
  pub nexttimeout : Option ℕ
  pub delindex : List ℕ
  pub sent : List Pdu
  pub told : List Told

abbrev later : Option ℕ → ℕ → Option ℕ
later none elapsed = some (max elapsed 100)
later (some next) elapsed = some (max (max next elapsed) 100)

abbrev at_first : Option ℕ → ℕ → Option ℕ
at_first none ms = some ms
at_first (some next) ms = some next

-- one message; what is sent again counts as sent now
unfoldable pub timeout_message : Wsn → ℕ → Message → ℕ → Option ℕ → Round
timeout_message w now m start next =
    if ltb w.ack_timeout (now - start)
    then (if leb w.retransmissions m.retranscount
        then record {
          store = m ∷ [];
          nexttimeout = next;
          delindex = m.token ∷ [];
          sent = [];
          told = node_not_responding m.tokenref ∷ timeoutinfo m.retranscount w.retransmissions ∷ [];
        }
        else (if is_confirmable m.last_pdu.type
            then record {
              store = record m { retranscount = m.retranscount + 1; txtime = some now } ∷ [];
              nexttimeout = at_first next w.ack_timeout;
              delindex = [];
              sent = m.last_pdu ∷ [];
              told = timeoutinfo (m.retranscount + 1) w.retransmissions ∷ [];
            }
            else record {
              store = m ∷ [];
              nexttimeout = next;
              delindex = m.token ∷ [];
              sent = [];
              told = timeoutinfo m.retranscount w.retransmissions ∷ [];
            }))
    else record {
      store = m ∷ [];
      nexttimeout = later next (now - start);
      delindex = [];
      sent = [];
      told = [];
    }

abbrev kept_entry : Message → Option ℕ → Round
kept_entry m next = record {
  store = m ∷ [];
  nexttimeout = next;
  delindex = [];
  sent = [];
  told = [];
}

unfoldable pub timeout_any : Wsn → ℕ → Message → Option ℕ → Round
timeout_any w now m next = elim (m.txtime) [
  | none ↦ kept_entry m next
  | some start ↦ timeout_message w now m start next
]

unfoldable pub timeout_loop : Wsn → ℕ → List Message → Option ℕ → Round
timeout_loop w now [] next = record {
  store = [];
  nexttimeout = next;
  delindex = [];
  sent = [];
  told = [];
}
timeout_loop w now (m ∷ ms) next =
    let r = timeout_any w now m next in
    let s = timeout_loop w now ms r.nexttimeout in
    record {
      store = r.store ++ s.store;
      nexttimeout = s.nexttimeout;
      delindex = r.delindex ++ s.delindex;
      sent = r.sent ++ s.sent;
      told = r.told ++ s.told;
    }

unfoldable pub remove_pdus : List ℕ → List Message → List Message
remove_pdus [] ms = ms
remove_pdus (t ∷ ts) ms = remove_pdus ts (remove_pdu t ms)

abbrev restarted : ℕ → Option ℕ → Option ℕ
restarted now none = none
restarted now (some next) = if ltb 0 next then some (now + next) else none

-- `timeout`, when the timer has ended
unfoldable pub timeout : ℕ → Wsn → Wsn
timeout now w =
    let r = timeout_loop w now w.active_pdus none in
    record w {
      active_pdus = remove_pdus r.delindex r.store;
      acktimer = restarted now r.nexttimeout;
      sent = w.sent ++ r.sent;
      told = w.told ++ r.told;
    }
