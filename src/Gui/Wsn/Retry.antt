-- ===== src/Gui/Wsn/Retry.antt =====
-- The retransmissions of wsn.cpp: what becomes of a message that is never answered.
use contiki_device_link.Common.{
  ℕ, zero, suc, ◌+◌, ◌-◌, ◌*◌, ◌≤◌, ◌<◌, ◌≡◌, refl, sym, ap, ◌∙◌, true, false, List, [], ◌∷◌, ◌++◌,
  none, some, if◌then◌else◌, max, ltb, leb, ◌==◌, length, replicate, append_assoc, append-nil,
  arith, Bool-cases, ltb→lt, inl, inr,
}
use contiki_device_link.Gui.{Pdu, confirmable}
use contiki_device_link.Gui.Wsn.{
  Wsn, Message, MsgId, Told, node_not_responding, timeoutinfo, new_entry, send, with_tx_payload,
  remove_pdu, is_confirmable,
}
use contiki_device_link.Gui.Wsn.Timeout.{
  remove_pdus, timeout_message, timeout_any, timeout_loop, timeout,
}

-- The timer ends, and its slot runs `delay` milliseconds later.
unfoldable pub fire : Wsn → ℕ → Wsn
fire w delay = elim (w.acktimer) [ none ↦ w | some t ↦ timeout (t + delay) w ]

unfoldable pub fires : Wsn → List ℕ → Wsn
fires w [] = w
fires w (d ∷ ds) = fires (fire w d) ds

-- The store has one message, sent at `s`, and the timer ends at `t`.
abbrev pub waiting : Wsn → Message → ℕ → ℕ → Wsn
waiting w m s t = record w { active_pdus = record m { txtime = some s } ∷ []; acktimer = some t }

-- a message that is kept at no time, and sent again while it is not answered
pub record IsRepeated (w : Wsn) (m : Message) : Type 0 where
  pub confirmed : m.last_pdu.type ≡ confirmable
  pub removable : m.keep ≡ false
  pub counted : m.retranscount ≤ w.retransmissions

-- What is told of a message that is given up, with `n` retransmissions to go.
abbrev pub told_until : ℕ → ℕ → Message → List Told
told_until zero retransmissions m =
    node_not_responding m.tokenref ∷ timeoutinfo m.retranscount retransmissions ∷ []
told_until (suc n) retransmissions m =
    timeoutinfo (m.retranscount + 1) retransmissions
    ∷ told_until n retransmissions (record m { retranscount = m.retranscount + 1 })

abbrev resent : Wsn → Message → Wsn
resent w m = record w {
  sent = w.sent ++ m.last_pdu ∷ [];
  told = w.told ++ timeoutinfo (m.retranscount + 1) w.retransmissions ∷ [];
}

module _ (w : Wsn) (m : Message) (s t d : ℕ) (rep : IsRepeated w m) where
  fire_early :
      0 < w.ack_timeout
      → t + d - s ≤ w.ack_timeout
      → fire (waiting w m s t) d ≡ waiting w m s (t + d + max (t + d - s) 100)
  unfolding fire timeout timeout_loop timeout_any timeout_message remove_pdus
  fire_early some_time early =
      let not_yet : ltb w.ack_timeout (t + d - s) ≡ false = ground (arith, early) in
      let positive : ltb 0 (max (t + d - s) 100) ≡ true = ground arith in
      rw (not_yet, timeout, timeout_loop, timeout_any, timeout_message)
        (rw positive (rw (append-nil w.sent) (rw (append-nil w.told) refl)))

  fire_again :
      0 < w.ack_timeout
      → w.ack_timeout < t + d - s
      → m.retranscount < w.retransmissions
      → fire (waiting w m s t) d
        ≡ waiting
            (resent w m)
            (record m { retranscount = m.retranscount + 1 })
            (t + d)
            (t + d + w.ack_timeout)
  unfolding fire timeout timeout_loop timeout_any timeout_message remove_pdus
  fire_again some_time late again =
      let expired : ltb w.ack_timeout (t + d - s) ≡ true = ground (arith, late) in
      let more : leb w.retransmissions m.retranscount ≡ false = ground (arith, again) in
      let positive : ltb 0 w.ack_timeout ≡ true = ground (arith, some_time) in
      rw (expired, timeout, timeout_loop, timeout_any, timeout_message)
        (rw more (rw (rep.confirmed) (rw positive refl)))

  fire_last :
      w.ack_timeout < t + d - s
      → m.retranscount ≡ w.retransmissions
      → fire (waiting w m s t) d ≡ record w {
        active_pdus = [];
        acktimer = none;
        sent = w.sent ++ [];
        told = w.told ++ told_until 0 w.retransmissions m;
      }
  unfolding fire timeout timeout_loop timeout_any timeout_message remove_pdus remove_pdu
  fire_last late enough =
      let expired : ltb w.ack_timeout (t + d - s) ≡ true = ground (arith, late) in
      let last : leb w.retransmissions m.retranscount ≡ true = ground (arith, enough) in
      let same : (m.token == m.token) ≡ true = ground arith in
      rw (expired, timeout, timeout_loop, timeout_any, timeout_message)
        (rw last (rw (same, remove_pdus, remove_pdu) (rw (rep.removable) refl)))

-- the message is gone: it was sent `n` times more
abbrev pub given_up : Wsn → Message → ℕ → Wsn
given_up w m n = record w {
  active_pdus = [];
  acktimer = none;
  sent = w.sent ++ replicate n m.last_pdu;
  told = w.told ++ told_until n w.retransmissions m;
}

fires_stopped :
    (w : Wsn) (ds : List ℕ) → fires (record w { acktimer = none }) ds ≡ record w { acktimer = none }
unfolding fires fire
fires_stopped w [] = refl
fires_stopped w (d ∷ ds) = fires_stopped w ds

fires_until :
    (ds : List ℕ) (n : ℕ) (w : Wsn) (m : Message) (s t : ℕ)
    → IsRepeated w m
    → 0 < w.ack_timeout
    → s + w.ack_timeout ≤ t
    → m.retranscount + n ≡ w.retransmissions
    → 2 * n + 1 ≤ length ds
    → (t ≡ s + w.ack_timeout → 2 * n + 2 ≤ length ds)
    → fires (waiting w m s t) ds ≡ given_up w m n
unfolding fires
fires_until [] n w m s t rep some_time armed left enough exact = absurd (omega (arith, enough))
fires_until (d ∷ ds) n w m s t rep some_time armed left enough exact =
    elim (Bool-cases (ltb w.ack_timeout (t + d - s))) [
      | inr early ↦
          let not_late : t + d - s ≤ w.ack_timeout = ground (arith, early) in
          let now : t ≡ s + w.ack_timeout = omega (arith, not_late, armed) in
          rw (fire_early w m s t d rep some_time not_late) (
            fires_until ds n w m s _ rep some_time (omega (arith, now, some_time)) left
              (omega (arith, exact now)) (λ e. absurd (omega (arith, e, now, some_time))))
      | inl expired ↦
          let late : w.ack_timeout < t + d - s = ltb→lt _ _ expired in
          elim n
              as (λ n.
                m.retranscount + n ≡ w.retransmissions
                → 2 * n + 1 ≤ suc (length ds)
                → fires (fire (waiting w m s t) d) ds ≡ given_up w m n) [
                  | zero ↦ λ left enough.
                      rw (fire_last w m s t d rep late (omega (arith, left)))
                        (fires_stopped (given_up w m 0) ds)
                  | suc k ↦ λ left enough.
                      rw (fire_again w m s t d rep some_time late (omega (arith, left))) (
                        rw
                          (sym (
                            append_assoc w.told
                              (timeoutinfo (m.retranscount + 1) w.retransmissions ∷ [])
                              (told_until k w.retransmissions
                                (record m { retranscount = m.retranscount + 1 }))))
                          (rw (sym (append_assoc w.sent (m.last_pdu ∷ []) (replicate k m.last_pdu)))
                            (fires_until ds k (resent w m)
                              (record m { retranscount = m.retranscount + 1 }) (t + d) _
                              (record {
                                confirmed = rep.confirmed;
                                removable = rep.removable;
                                counted = omega (arith, left);
                              })
                              some_time (omega arith) (omega (arith, left)) (omega (arith, enough))
                              (λ e. omega (arith, enough)))))
                ]
            left enough
    ]

-- what `send` stores
abbrev pub entry : ℕ → ℕ → ℕ → Wsn → Pdu → MsgId → List ℕ → Message
entry now stale stale_num w pdu ref payload =
    with_tx_payload w.pref_msg_size (new_entry now stale stale_num pdu ref) payload

module _ (size now stale stale_num : ℕ) (pdu : Pdu) (ref : MsgId) (payload : List ℕ) where
  abbrev made : Message
  made = with_tx_payload size (new_entry now stale stale_num pdu ref) payload

  made_fresh :
      (made ≡ record made { txtime = some now })
      × (made.last_pdu.type ≡ pdu.type)
      × (made.keep ≡ false)
      × (made.retranscount ≡ 0)
  unfolding with_tx_payload
  made_fresh = elim (Bool-cases (length payload == 0)) [
    | inl e ↦ rw (e, with_tx_payload) (refl, refl, refl, refl)
    | inr e ↦ elim (Bool-cases (ltb size (length payload))) [
      | inl more ↦ rw (e, with_tx_payload) (rw more (refl, refl, refl, refl))
      | inr fits ↦ rw (e, with_tx_payload) (rw fits (refl, refl, refl, refl))
    ]
  ]

-- no message waits, and the timer is stopped
abbrev pub idle : Wsn → Wsn
idle w = record w { active_pdus = []; acktimer = none }

-- A confirmable message that is sent while no other waits, and that is never answered: whenever the slots of the
-- timer run, after twice as many of them as there are transmissions the message is given up. It
-- was sent once and `retransmissions` times more; told are the count of 0, then that of each repetition, and at
-- the end that the node does not respond, with the last count again behind it; no message waits and the
-- timer is stopped.
pub fires-send :
    (now stale stale_num : ℕ) (w : Wsn) (pdu : Pdu) (ref : MsgId) (payload delays : List ℕ)
    → pdu.type ≡ confirmable
    → 0 < w.ack_timeout
    → 2 * (w.retransmissions + 1) ≤ length delays
    → let m = entry now stale stale_num w pdu ref payload in
      fires (send now stale stale_num (idle w) pdu ref payload) delays ≡ record w {
        active_pdus = [];
        acktimer = none;
        observing = true;
        sent = w.sent ++ replicate (suc w.retransmissions) m.last_pdu;
        told =
            w.told
            ++ timeoutinfo 0 w.retransmissions ∷ told_until w.retransmissions w.retransmissions m;
      }
unfolding send
fires-send now stale stale_num w pdu ref payload delays confirmed some_time enough =
    let m = entry now stale stale_num w pdu ref payload in
    let (timed, typed, removable, fresh) =
      made_fresh w.pref_msg_size now stale stale_num pdu ref payload in
    let w' : Wsn = record w {
      sent = w.sent ++ m.last_pdu ∷ [];
      told = w.told ++ timeoutinfo 0 w.retransmissions ∷ [];
      observing = true;
    } in
    let begun : send now stale stale_num (idle w) pdu ref payload
        ≡ waiting w' m now (now + w.ack_timeout) =
      ap
        (λ b. record w' {
          active_pdus = m ∷ [];
          acktimer = if b then some (now + w.ack_timeout) else none;
        })
        (ap is_confirmable confirmed)
      ∙ ap (λ x. record w' { active_pdus = x ∷ []; acktimer = some (now + w.ack_timeout) }) timed in
    let run =
      fires_until delays w.retransmissions w' m now (now + w.ack_timeout)
        (record {
          confirmed = typed ∙ confirmed;
          removable = removable;
          counted = omega (arith, fresh);
        })
        some_time (omega arith) (omega (arith, fresh)) (omega (arith, enough))
        (λ e. omega (arith, enough)) in
    rw begun (
      rw run (
        rw (append_assoc w.sent (m.last_pdu ∷ []) (replicate w.retransmissions m.last_pdu)) (
          rw
            (append_assoc w.told (timeoutinfo 0 w.retransmissions ∷ [])
              (told_until w.retransmissions w.retransmissions m))
            refl)))
