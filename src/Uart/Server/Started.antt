-- ===== src/Uart/Server/Started.antt =====
-- The start of `uartsensors_server` with a board that answers every request.
use contiki_device_link.Common.{
  ℕ, suc, ◌+◌, ◌≤◌, ◌<◌, ◌≡◌, refl, ap, ap₂, ◌∙◌, true, false, List, [], ◌∷◌, ◌++◌, Option, none,
  some, ltb, length, arith, length-drop, append_assoc,
}
use contiki_device_link.Contiki.{Memb, Lists}
use contiki_device_link.Cmp.{Codec}
use contiki_device_link.Uart.Message.{
  cp_encodemessage, resource_count, resource_config, resource_req_update_all,
}
use contiki_device_link.Uart.Proxy.{ProxyResource}
use contiki_device_link.Uart.Server.{
  running, Server, send_message, send_next, uartsensors_init, next_request, init_resources,
  store_reply, take_reply, receive_message,
}
use contiki_device_link.Uart.Server.Answers.{
  Answer, total, upward, ids, AllDecoded, answered, with_answer, receive-take_reply, IsConfigured,
  frame, asked, IsStarted, IsAsking, next-IsAsking, step,
}

module _ (crc16_data : List ℕ → ℕ → ℕ)
    (crc16_data-lt : (bytes : List ℕ) (acc : ℕ) → crc16_data bytes acc < 65536) (codec : Codec)
    (memb : Memb) (lists : Lists ProxyResource) (stale : ProxyResource) where
  abbrev State : Type 0
  State = Server memb.State

  last-IsStarted :
      (s u : State) (id j : ℕ) (a : Answer)
      → IsAsking crc16_data crc16_data-lt codec memb lists stale s id j (a ∷ [])
      → IsConfigured crc16_data crc16_data-lt codec memb lists stale s a u
      → IsStarted crc16_data crc16_data-lt codec memb lists stale s id j
          (a ∷ [])
          (next_request crc16_data codec memb lists stale u)
  unfolding next_request send_next send_message
  last-IsStarted s u id j a h c =
      let done : ltb u.j u.resources_availble ≡ false =
        ground (arith, c.counted, c.same_count, h.at_j, h.open_ones) in
      rw (done, next_request)
        (record {
          runs = refl;
          told = ap (λ n. n + 1) c.same_ended;
          known = c.listed ∙ ap (λ n. ids s.host.proxy_resource_list ++ n ∷ []) h.at_j;
          sent =
              ap₂
                (λ w n.
                  w
                  ++ frame crc16_data crc16_data-lt codec memb lists stale n resource_req_update_all
                      [])
                c.same_wire (ap (λ n. n + 1) (c.same_number ∙ h.number));
        })

  later-IsStarted :
      (s u t : State) (id j : ℕ) (a b : Answer) (as' : List Answer)
      → IsAsking crc16_data crc16_data-lt codec memb lists stale s id j (a ∷ b ∷ as')
      → IsConfigured crc16_data crc16_data-lt codec memb lists stale s a u
      → IsStarted crc16_data crc16_data-lt codec memb lists stale
          (next_request crc16_data codec memb lists stale u)
          (id + 1)
          (j + 1)
          (b ∷ as')
          t
      → IsStarted crc16_data crc16_data-lt codec memb lists stale s id j (a ∷ b ∷ as') t
  unfolding next_request send_next send_message
  later-IsStarted s u t id j a b as' h c after =
      let more : ltb u.j u.resources_availble ≡ true =
        ground (arith, c.counted, c.same_count, h.at_j, h.open_ones) in
      let after' = rw (more, next_request) at after in
      record {
        runs = after'.runs;
        told = after'.told ∙ ap (λ n. n + 1) c.same_ended;
        known =
            after'.known
            ∙ (ap (λ l. l ++ upward (j + 1) (b ∷ as')) c.listed
                ∙ (append_assoc (ids s.host.proxy_resource_list) (s.j ∷ []) _
                    ∙ ap (λ n. ids s.host.proxy_resource_list ++ (n ∷ upward (j + 1) (b ∷ as')))
                        h.at_j));
        sent =
            after'.sent
            ∙ (ap
                  (λ l.
                    l
                    ++ asked crc16_data crc16_data-lt codec memb lists stale (id + 1) (j + 1)
                        (b ∷ as'))
                  (ap₂ (λ l f. l ++ f) c.same_wire
                    (ap₂
                      (λ n m.
                        frame crc16_data crc16_data-lt codec memb lists stale n resource_config
                          (m ∷ []))
                      (ap (λ n. n + 1) (c.same_number ∙ h.number))
                      (c.counted ∙ ap (λ n. n + 1) h.at_j)))
                ∙ append_assoc s.host.wire _ _);
      }

  answered-IsStarted :
      (as' : List Answer) (a : Answer) (s : State) (id j : ℕ)
      → IsAsking crc16_data crc16_data-lt codec memb lists stale s id j (a ∷ as')
      → AllDecoded codec stale.conf (a ∷ as')
      → (t : State) × (answered crc16_data crc16_data-lt codec memb lists stale s id resource_config
            (a ∷ as')
          ≡ some t)
        × IsStarted crc16_data crc16_data-lt codec memb lists stale s id j (a ∷ as') t
  unfolding answered
  answered-IsStarted [] a s id j h good =
      let (u, ran, c) = step crc16_data crc16_data-lt codec memb lists stale s id j a [] h good.0 in
      (next_request crc16_data codec memb lists stale u, ran, last-IsStarted s u id j a h c)
  answered-IsStarted (b ∷ as') a s id j h good =
      let (u, ran, c) =
        step crc16_data crc16_data-lt codec memb lists stale s id j a (b ∷ as') h good.0 in
      let v = next_request crc16_data codec memb lists stale u in
      let (t, rest, started) =
        answered-IsStarted as' b v (id + 1) (j + 1)
          (next-IsAsking crc16_data crc16_data-lt codec memb lists stale s u id j a b as' h c)
          good.1 in
      (t, ran ∙ rest, later-IsStarted s u t id j a b as' h c started)

  -- all that the process sends in its start
  abbrev pub requests : List Answer → List ℕ
  requests [] =
      frame crc16_data crc16_data-lt codec memb lists stale 1 resource_count []
      ++ frame crc16_data crc16_data-lt codec memb lists stale 2 resource_req_update_all []
  requests (a ∷ as') =
      frame crc16_data crc16_data-lt codec memb lists stale 1 resource_count []
      ++ (frame crc16_data crc16_data-lt codec memb lists stale 2 resource_config (0 ∷ [])
          ++ asked crc16_data crc16_data-lt codec memb lists stale 2 0 (a ∷ as'))

  -- the process from its start, with the count of resources and then their configurations
  pub start : List ℕ → List ℕ → List Answer → Option State
  start payloadbuffer rest as' =
      let message = cp_encodemessage crc16_data 1 resource_count (length as' ∷ []) 1 in
      elim (receive_message crc16_data codec memb lists stale
        (uartsensors_init crc16_data codec memb lists stale payloadbuffer) (message ++ rest)
        (length message)) [
          | none ↦ none
          | some s ↦
              answered crc16_data crc16_data-lt codec memb lists stale s 2 resource_config as'
        ]

  -- the state at the first request for a configuration
  counted_state : List ℕ → ℕ → State
  counted_state payloadbuffer n =
      record (with_answer crc16_data crc16_data-lt codec memb lists stale
        (uartsensors_init crc16_data codec memb lists stale payloadbuffer) 1 resource_count
        (n ∷ [])) { resources_availble = n; j = 0 }

  first_step :
      (payloadbuffer rest : List ℕ) (as' : List Answer)
      → 0 < length payloadbuffer
      → start payloadbuffer rest as'
        ≡ answered crc16_data crc16_data-lt codec memb lists stale
            (next_request crc16_data codec memb lists stale
              (counted_state payloadbuffer (length as')))
            2
            resource_config
            as'
  unfolding start uartsensors_init send_message counted_state take_reply init_resources store_reply
  first_step payloadbuffer rest as' some_room =
      rw
        (
          receive-take_reply crc16_data crc16_data-lt codec memb lists stale
              (uartsensors_init crc16_data codec memb lists stale payloadbuffer) 1 resource_count
              (record { bytes = length as' ∷ []; rest = rest; size = 0 }) (omega arith)
              (omega arith) (omega arith) (omega (arith, some_room)),
          start,
        )
        refl

  asks :
      (payloadbuffer : List ℕ) (a : Answer) (as' : List Answer)
      → 0 < length payloadbuffer
      → total (a ∷ as') ≤ length payloadbuffer
      → length (a ∷ as') ≤ 20
      → IsAsking crc16_data crc16_data-lt codec memb lists stale
          (next_request crc16_data codec memb lists stale
            (counted_state payloadbuffer (suc (length as'))))
          2
          0
          (a ∷ as')
  unfolding next_request send_next send_message counted_state store_reply uartsensors_init
  asks payloadbuffer a as' some_room fits few =
      let more : ltb 0 (suc (length as')) ≡ true = ground arith in
      rw (more, next_request)
        (record {
          waits = refl;
          number = refl;
          at_j = refl;
          open_ones = omega arith;
          bound = omega (arith, few);
          few = omega (arith, few);
          space = omega (arith, fits, length-drop 1 payloadbuffer, some_room);
          blocks = omega (arith, few, memb.free-init 20);
        })

  before :
      (payloadbuffer : List ℕ) (n : ℕ)
      → let s =
          next_request crc16_data codec memb lists stale (counted_state payloadbuffer (suc n)) in
        (s.ended ≡ 0)
        × (ids s.host.proxy_resource_list ≡ [])
        × (s.host.wire
            ≡ frame crc16_data crc16_data-lt codec memb lists stale 1 resource_count []
              ++ frame crc16_data crc16_data-lt codec memb lists stale 2 resource_config (0 ∷ []))
  unfolding next_request send_next send_message counted_state store_reply uartsensors_init
  before payloadbuffer n =
      let more : ltb 0 (suc n) ≡ true = ground arith in rw (more, next_request) (refl, refl, refl)

  -- A board that answers the request for the count, and then every request for a configuration, with the
  -- number of the request, is known after these answers: the start ends once, all values are asked
  -- for, and the resources have the ids from 0 on. The configurations are decoded, they fit the
  -- buffer together, and there are 20 at most.
  pub start-IsStarted :
      (payloadbuffer rest : List ℕ) (as' : List Answer)
      → 0 < length payloadbuffer
      → total as' ≤ length payloadbuffer
      → length as' ≤ 20
      → AllDecoded codec stale.conf as'
      → (t : State) × (start payloadbuffer rest as' ≡ some t)
        × (t.phase ≡ running)
        × (t.ended ≡ 1)
        × (ids t.host.proxy_resource_list ≡ upward 0 as')
        × (t.host.wire ≡ requests as')
  unfolding next_request send_next send_message counted_state store_reply uartsensors_init answered
  start-IsStarted payloadbuffer rest [] some_room fits few good = (
    next_request crc16_data codec memb lists stale (counted_state payloadbuffer 0),
    first_step payloadbuffer rest [] some_room,
    refl,
    refl,
    refl,
    refl,
  )
  start-IsStarted payloadbuffer rest (a ∷ as') some_room fits few good =
      let s =
        next_request crc16_data codec memb lists stale
          (counted_state payloadbuffer (suc (length as'))) in
      let (t, ran, h) =
        answered-IsStarted as' a s 2 0 (asks payloadbuffer a as' some_room fits few) good in
      let b = before payloadbuffer (length as') in
      (
        t,
        first_step payloadbuffer rest (a ∷ as') some_room ∙ ran,
        h.runs,
        h.told ∙ ap (λ n. n + 1) b.0,
        h.known ∙ ap (λ l. l ++ upward 0 (a ∷ as')) b.1,
        h.sent
            ∙ (ap (λ w. w ++ asked crc16_data crc16_data-lt codec memb lists stale 2 0 (a ∷ as'))
                  b.2
                ∙ append_assoc
                    (frame crc16_data crc16_data-lt codec memb lists stale 1 resource_count [])
                    (frame crc16_data crc16_data-lt codec memb lists stale 2 resource_config
                      (0 ∷ []))
                    _),
      )
