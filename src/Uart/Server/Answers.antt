-- ===== src/Uart/Server/Answers.antt =====
-- The answers of a board to the requests of `uartsensors_server`, and one round of its start.
use contiki_device_link.Common.{
  ℕ, zero, suc, ◌+◌, ◌-◌, ◌%◌, ◌≤◌, ◌<◌, ◌≡◌, refl, ap, ◌∙◌, true, List, [], ◌∷◌, ◌++◌, Option,
  none, some, ◌==◌, ltb, length, take, drop, map, arith, length-append, length-take, length-drop,
}
use contiki_device_link.Contiki.{Memb, Lists}
use contiki_device_link.Cmp.{Codec}
use contiki_device_link.Sensor.{ResourceConf}
use contiki_device_link.Uart.{frameandsend}
use contiki_device_link.Uart.Message.{cp_encodemessage, resource_config, resource_req_update_all}
use contiki_device_link.Uart.Message.RoundTrip.{cp_decodemessage-encodemessage}
use contiki_device_link.Uart.Config.{Decoded, cp_decoderesource_conf}
use contiki_device_link.Uart.Proxy.{ProxyResource, lastvalsize, received}
use contiki_device_link.Uart.Server.{
  wait_config, running, Server, send_message, send_next, next_request, new_resource,
  create_resource, init_resources, rx_reply, store_reply, take_reply, receive_message,
}

-- the answer to a request for a configuration: its bytes, and what is behind them in the buffer
pub record Answer : Type 0 where
  pub bytes : List ℕ
  pub rest : List ℕ
  -- how much memory its strings and the value need
  pub size : ℕ

abbrev pub total : List Answer → ℕ
total [] = 0
total (a ∷ as') = a.size + total as'

-- the numbers of resources from `j` on, one for each answer
abbrev pub upward : ℕ → List Answer → List ℕ
upward j [] = []
upward j (a ∷ as') = j ∷ upward (j + 1) as'

abbrev pub ids : List ProxyResource → List ℕ
ids = map (λ r. r.conf.id)

module _ (codec : Codec) where
  -- The answer is decoded into whatever memory has `size` bytes: its strings lie in them, with room for the
  -- value, and the memory keeps its length.
  pub record IsDecoded (old : ResourceConf) (a : Answer) : Type 0 where
    pub short : length a.bytes < 256
    pub fits : length a.bytes ≤ a.size
    pub decodes :
        (mem : List ℕ)
        → a.size ≤ length (a.bytes ++ mem)
        → (d : Decoded) × (cp_decoderesource_conf codec old (a.bytes ++ mem) ≡ some d)
          × (length d.memory ≡ length (a.bytes ++ mem))
          × (d.attr_end + lastvalsize ≤ a.size)

  abbrev pub AllDecoded : ResourceConf → List Answer → Type 0
  AllDecoded old [] = Unit
  AllDecoded old (a ∷ as') = IsDecoded old a × AllDecoded old as'

module _ (crc16_data : List ℕ → ℕ → ℕ)
    (crc16_data-lt : (bytes : List ℕ) (acc : ℕ) → crc16_data bytes acc < 65536) (codec : Codec)
    (memb : Memb) (lists : Lists ProxyResource) (stale : ProxyResource) where
  abbrev State : Type 0
  State = Server memb.State

  -- the process with the answers to the requests from number `id` on, of kind `cmd` each
  unfoldable pub answered : State → ℕ → ℕ → List Answer → Option State
  answered s id cmd [] = some s
  answered s id cmd (a ∷ as') =
      let message = cp_encodemessage crc16_data id cmd a.bytes (length a.bytes) in
      elim (receive_message crc16_data codec memb lists stale s (message ++ a.rest)
        (length message)) [ none ↦ none | some t ↦ answered t (id + 1) cmd as' ]

  -- what the process has of an answer when `initResources` goes on
  abbrev pub with_answer : State → ℕ → ℕ → List ℕ → State
  with_answer s id cmd bytes = store_reply crc16_data codec memb lists stale s (record {
    seqno = id;
    cmd = cmd;
    len = length bytes;
    payload = bytes ++ drop (length bytes) (received s.host);
  })

  pub receive-take_reply :
      (s : State) (id cmd : ℕ) (a : Answer)
      → id < 256
      → cmd < 256
      → length a.bytes < 256
      → length a.bytes ≤ length (received s.host)
      → let message = cp_encodemessage crc16_data id cmd a.bytes (length a.bytes) in
        receive_message crc16_data codec memb lists stale s (message ++ a.rest) (length message)
        ≡ take_reply crc16_data codec memb lists stale (with_answer s id cmd a.bytes)
  unfolding receive_message
  receive-take_reply s id cmd a hid hcmd short fits =
      rw
        (
          cp_decodemessage-encodemessage crc16_data crc16_data-lt id cmd a.bytes a.rest
              (rx_reply crc16_data codec memb lists stale s) hid hcmd short fits,
          receive_message,
        )
        refl

  -- `t` is `s` after the configuration `a` of resource `s.j`, at the head of the loop.
  pub record IsConfigured (s : State) (a : Answer) (t : State) : Type 0 where
    pub counted : t.j ≡ s.j + 1
    pub same_count : t.resources_availble ≡ s.resources_availble
    pub same_number : t.host.msgid ≡ s.host.msgid
    pub same_size : length t.host.payloadbuffer ≡ length s.host.payloadbuffer
    pub space : t.host.payload ≤ s.host.payload + a.size
    pub listed : ids t.host.proxy_resource_list ≡ ids s.host.proxy_resource_list ++ s.j ∷ []
    pub block : memb.free_blocks t.pool + 1 ≡ memb.free_blocks s.pool
    pub same_wire : t.host.wire ≡ s.host.wire
    pub same_ended : t.ended ≡ s.ended

  drop-take-append : (n : ℕ) (xs ys : List ℕ) → n ≤ length xs → drop n (take n xs ++ ys) ≡ ys
  drop-take-append zero xs ys h = refl
  drop-take-append (suc n) [] ys h = absurd (omega (arith, h))
  drop-take-append (suc n) (x ∷ xs) ys h = drop-take-append n xs ys (omega (arith, h))

  ids-append :
      (rs : List ProxyResource) (r : ProxyResource) → ids (rs ++ r ∷ []) ≡ ids rs ++ r.conf.id ∷ []
  ids-append [] r = refl
  ids-append (q ∷ rs) r = ap (λ l. q.conf.id ∷ l) (ids-append rs r)

  take_reply-IsConfigured :
      (s : State) (id cmd : ℕ) (a : Answer)
      → s.phase ≡ wait_config
      → s.host.msgid ≡ id
      → IsDecoded codec stale.conf a
      → s.host.payload + a.size ≤ length s.host.payloadbuffer
      → 0 < memb.free_blocks s.pool
      → s.j + 1 < 256
      → (t : State) × (take_reply crc16_data codec memb lists stale (with_answer s id cmd a.bytes)
          ≡ some (next_request crc16_data codec memb lists stale t))
        × IsConfigured s a t
  unfolding take_reply init_resources create_resource store_reply new_resource next_request
  take_reply-IsConfigured s id cmd a waits number good room free few =
      let mem = drop (length a.bytes) (received s.host) in
      let old = take s.host.payload s.host.payloadbuffer in
      let span : length (a.bytes ++ mem) ≡ length s.host.payloadbuffer - s.host.payload = omega (
        arith,
        length-append a.bytes mem,
        length-drop (length a.bytes) (received s.host),
        length-drop s.host.payload s.host.payloadbuffer,
        good.fits,
        room,
      ) in
      let there : drop s.host.payload (old ++ (a.bytes ++ mem)) ≡ a.bytes ++ mem =
        drop-take-append s.host.payload s.host.payloadbuffer (a.bytes ++ mem)
          (omega (arith, room)) in
      let (pool, gives, fewer) = memb.alloc_block s.pool free in
      let (d, decoded, kept, inside) = good.decodes mem (omega (arith, span, room)) in
      let answers : (id == s.host.msgid) ≡ true = ground (arith, number) in
      let u =
        new_resource crc16_data codec memb lists stale (with_answer s id cmd a.bytes) pool d in
      (
        record u { j = (s.j + 1) % 256 },
        rw (waits, take_reply) (rw answers (rw waits (rw gives (rw there (rw decoded refl))))),
        record {
          counted = omega (arith, few);
          same_count = refl;
          same_number = refl;
          same_size = omega (
            arith,
            length-append (take s.host.payload (old ++ (a.bytes ++ mem))) d.memory,
            length-take s.host.payload (old ++ (a.bytes ++ mem)),
            length-append old (a.bytes ++ mem),
            length-take s.host.payload s.host.payloadbuffer,
            kept,
            span,
            room,
          );
          space = omega (arith, inside);
          listed =
              ap ids (lists.add_end s.host.proxy_resource_list _)
              ∙ ids-append s.host.proxy_resource_list _;
          block = fewer;
          same_wire = refl;
          same_ended = refl;
        },
      )

  abbrev pub frame : ℕ → ℕ → List ℕ → List ℕ
  frame id cmd payload =
      let message = cp_encodemessage crc16_data (id % 256) cmd payload (length payload) in
      frameandsend message (length message)

  -- What is sent after the answers, the first of which is for resource `j` and has number `id`: the
  -- requests for the next resources, and at the end the one for all values.
  abbrev pub asked : ℕ → ℕ → List Answer → List ℕ
  asked id j [] = []
  asked id j (a ∷ []) = frame (id + 1) resource_req_update_all []
  asked id j (a ∷ b ∷ as') =
      frame (id + 1) resource_config ((j + 1) ∷ []) ++ asked (id + 1) (j + 1) (b ∷ as')

  -- `t` is in normal operation, with resources for the answers behind those of `s`
  pub record IsStarted (s : State) (id j : ℕ) (as' : List Answer) (t : State) : Type 0 where
    pub runs : t.phase ≡ running
    pub told : t.ended ≡ s.ended + 1
    pub known : ids t.host.proxy_resource_list ≡ ids s.host.proxy_resource_list ++ upward j as'
    pub sent : t.host.wire ≡ s.host.wire ++ asked id j as'

  -- `s` waits for the answers
  pub record IsAsking (s : State) (id j : ℕ) (as' : List Answer) : Type 0 where
    pub waits : s.phase ≡ wait_config
    pub number : s.host.msgid ≡ id
    pub at_j : s.j ≡ j
    pub open_ones : j + length as' ≡ s.resources_availble
    pub bound : id + length as' ≤ 256
    pub few : s.resources_availble < 255
    pub space : s.host.payload + total as' ≤ length s.host.payloadbuffer
    pub blocks : length as' ≤ memb.free_blocks s.pool

  pub next-IsAsking :
      (s u : State) (id j : ℕ) (a b : Answer) (as' : List Answer)
      → IsAsking s id j (a ∷ b ∷ as')
      → IsConfigured s a u
      → IsAsking (next_request crc16_data codec memb lists stale u) (id + 1) (j + 1) (b ∷ as')
  unfolding next_request send_next send_message
  next-IsAsking s u id j a b as' h c =
      let more : ltb u.j u.resources_availble ≡ true =
        ground (arith, c.counted, c.same_count, h.at_j, h.open_ones) in
      rw (more, next_request)
        (record {
          waits = refl;
          number = omega (arith, c.same_number, h.number);
          at_j = omega (arith, c.counted, h.at_j);
          open_ones = omega (arith, c.same_count, h.open_ones);
          bound = omega (arith, h.bound);
          few = omega (arith, c.same_count, h.few);
          space = omega (arith, c.space, c.same_size, h.space);
          blocks = omega (arith, c.block, h.blocks);
        })

  pub step :
      (s : State) (id j : ℕ) (a : Answer) (as' : List Answer)
      → IsAsking s id j (a ∷ as')
      → IsDecoded codec stale.conf a
      → (u : State) × (answered s id resource_config (a ∷ as')
          ≡ answered
              (next_request crc16_data codec memb lists stale u)
              (id + 1)
              resource_config
              as')
        × IsConfigured s a u
  unfolding answered
  step s id j a as' h good =
      let (u, ran, c) =
        take_reply-IsConfigured s id resource_config a h.waits h.number good
          (omega (arith, h.space)) (omega (arith, h.blocks))
          (omega (arith, h.few, h.at_j, h.open_ones)) in
      (
        u,
        rw
            (
              receive-take_reply s id resource_config a (omega (arith, h.bound)) (omega arith)
                  good.short
                  (omega
                    (arith, length-drop s.host.payload s.host.payloadbuffer, good.fits, h.space)),
              answered,
            )
            (rw ran refl),
        c,
      )
