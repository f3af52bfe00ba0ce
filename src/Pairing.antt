-- ===== src/Pairing.antt =====
-- sensorsUnleashed/pairing.c: how a pair of a device with a resource of another node comes into being: the
-- assembly of the message in a static buffer, its parsing, and the list of pairs, with the array and
-- string helpers of lib/cmp_helpers.c that it calls. `mmem_alloc` is Contiki's; `malloc` gives
-- memory. Writing behind a buffer's end is `none` (undefined in C).
pub mod Assemble
pub mod Parse
pub mod Handle
pub mod Flash
pub mod Tests
use contiki_device_link.Common.{
  ℕ, zero, suc, ◌+◌, ◌-◌, ◌%◌, Bool, true, false, ◌&&◌, List, [], ◌∷◌, ◌++◌, Option, none, some,
  if◌then◌else◌, ◌==◌, ltb, leb, length, take, drop, replicate,
}
use contiki_device_link.Common.Int.{ℤ}
use contiki_device_link.Contiki.{Memb, Lists}
use contiki_device_link.Cmp.{Codec, Read}
use contiki_device_link.Sensor.{JoinPair, Sensor}
use contiki_device_link.Registry.{str_above, str_below, str_change, strncmp_equal}
use contiki_device_link.Uart.Proxy.{copy_to}

abbrev pub buffersize : ℕ
buffersize = 300

-- `buffer` and `bufsize`
pub record Assembly : Type 0 where
  pub buffer : List ℕ
  pub bufsize : ℕ

-- the start of `pairing_assembleMessage`: message 0 clears the buffer
unfoldable pub cleared : Assembly → ℕ → Assembly
cleared a num = if num == 0 then record { buffer = replicate buffersize 0; bufsize = 0 } else a

-- `pairing_assembleMessage`, for the `len` bytes at `data`
unfoldable pub pairing_assemble_message : Assembly → List ℕ → ℕ → Option (ℕ × Assembly)
unfolding cleared copy_to
pairing_assemble_message a bytes num =
    let b = cleared a num in
    if ltb buffersize (b.bufsize + length bytes)
    then some (1, b)
    else elim (copy_to b.buffer b.bufsize bytes) [
      | none ↦ none
      | some buffer ↦ some (0, record { buffer = buffer; bufsize = b.bufsize + length bytes })
    ]

-- what an array decoder gives: its return value, the values it stored, the bytes it read
pub record ArrayRead (A : Type 0) : Type 0 where
  pub ret : ℕ
  pub values : List A
  pub used : ℕ

-- The loop `while(size)` of an array decoder, which counts `step` down for each value, in 32 bits. The
-- array has room for `room` more values.
unfoldable pub decode_loop :
    {A : Type 0} → (List ℕ → Read A) → ℕ → ℕ → ℕ → List ℕ → Option (ArrayRead A)
decode_loop read step zero size bytes =
    if size == 0
    then some (record { ret = 0; values = []; used = 0 })
    else (let r = read bytes in
        elim (r.value) [
          | none ↦ some (record { ret = 1; values = []; used = r.used })
          | some v ↦ none
        ])
decode_loop read step (suc room) size bytes =
    let r = read bytes in
    let rest =
      decode_loop read step room ((size + 4294967296 - step) % 4294967296) (drop r.used bytes) in
    if size == 0 then some (record { ret = 0; values = []; used = 0 }) else elim (r.value) [
      | none ↦ some (record { ret = 1; values = []; used = r.used })
      | some v ↦ elim rest [
        | none ↦ none
        | some t ↦ some (record { ret = t.ret; values = v ∷ t.values; used = r.used + t.used })
      ]
    ]

-- `cp_decodeS8Array` and `cp_decodeU16Array`: without a header they return 0 and store nothing.
unfoldable pub decode_array :
    {A : Type 0} → Codec → (List ℕ → Read A) → ℕ → ℕ → List ℕ → Option (ArrayRead A)
unfolding decode_loop
decode_array codec read step room buffer =
    let header = codec.read_array buffer in
    elim (header.value) [
      | none ↦ some (record { ret = 0; values = []; used = header.used })
      | some size ↦ elim (decode_loop read step room size (drop header.used buffer)) [
        | none ↦ none
        | some t ↦ some (record t { used = header.used + t.used })
      ]
    ]

unfoldable pub cp_decode_s8_array : Codec → ℕ → List ℕ → Option (ArrayRead ℤ)
unfolding decode_array
cp_decode_s8_array codec room buffer = decode_array codec codec.read_s8 1 room buffer

-- The size is counted down by 2 for each value.
unfoldable pub cp_decode_u16_array : Codec → ℕ → List ℕ → Option (ArrayRead ℕ)
unfolding decode_array
cp_decode_u16_array codec room buffer = decode_array codec codec.read_u16 2 room buffer

-- the values stored over what the array held
abbrev stored_over : {A : Type 0} → List A → List A → List A
stored_over values old = values ++ drop (length values) old

-- a string up to its NUL
unfoldable pub c_string : List ℕ → List ℕ
c_string [] = []
c_string (x ∷ xs) = let rest = c_string xs in if x == 0 then [] else x ∷ rest

-- `if(pair->dsturlAbove == 0)` and its like: a URL that the block holds already stays.
unfoldable pub with_url : Option (List ℕ) → List ℕ → List ℕ → Option (List ℕ)
unfolding c_string
with_url none dst suffix = some (c_string dst ++ suffix)
with_url (some u) dst suffix = some u

-- the return value of `parseMessage`, the block, and the memory of `mmem_alloc` afterwards
pub record ParseResult (M : Type 0) : Type 0 where
  pub ret : ℕ
  pub pair : JoinPair
  pub mmem : M

module _ {M : Type 0} (codec : Codec) (mmem_alloc : M → ℕ → Option M) where
  -- the source URL, and the end
  unfoldable pub parse_source : JoinPair → M → List ℕ → Option (ParseResult M)
  parse_source pair mmem payload =
      let src = codec.read_str 100 payload in
      elim (src.value) [
        | none ↦ some (record { ret = 4; pair = pair; mmem = mmem })
        | some url ↦ elim (mmem_alloc mmem (length url + 1)) [
          | none ↦ some (record { ret = 3; pair = pair; mmem = mmem })
          | some mmem' ↦
              some (record { ret = 0; pair = record pair { srcurl = url }; mmem = mmem' })
        ]
      ]

  -- the triggers, and the URLs of the notifications
  unfoldable pub parse_triggers : JoinPair → M → List ℕ → List ℕ → Option (ParseResult M)
  unfolding parse_source cp_decode_s8_array with_url
  parse_triggers pair mmem dst payload = elim (cp_decode_s8_array codec 3 payload) [
    | none ↦ none
    | some t ↦
        let pair' = record pair { triggers = stored_over t.values pair.triggers } in
        if t.ret == 0
        then parse_source
            (record pair' {
              dsturl_above = with_url pair.dsturl_above dst str_above;
              dsturl_below = with_url pair.dsturl_below dst str_below;
              dsturl_change = with_url pair.dsturl_change dst str_change;
            })
            mmem (drop t.used payload)
        else some (record { ret = 3; pair = pair'; mmem = mmem })
  ]

  -- the URL of the destination
  unfoldable pub parse_destination : JoinPair → M → List ℕ → Option (ParseResult M)
  unfolding parse_triggers
  parse_destination pair mmem payload =
      let dst = codec.read_str 100 payload in
      elim (dst.value) [
        | none ↦ some (record { ret = 2; pair = pair; mmem = mmem })
        | some url ↦ elim (mmem_alloc mmem (length url + 1)) [
          | none ↦ some (record { ret = 5; pair = pair; mmem = mmem })
          | some mmem' ↦
              parse_triggers (record pair { dsturl = url }) mmem' url (drop dst.used payload)
        ]
      ]

  -- `parseMessage`, into the block `pair`
  unfoldable pub parse_message : JoinPair → M → List ℕ → Option (ParseResult M)
  unfolding parse_destination cp_decode_u16_array
  parse_message pair mmem payload = elim (cp_decode_u16_array codec 8 payload) [
    | none ↦ none
    | some t ↦
        let pair' = record pair { destip = stored_over t.values pair.destip } in
        if t.ret == 0
        then parse_destination pair' mmem (drop t.used payload)
        else some (record { ret = 1; pair = pair'; mmem = mmem })
  ]

-- two destinations that `pairing_handle` takes for the same: of one size, and equal
unfoldable pub same_destination : JoinPair → JoinPair → Bool
unfolding strncmp_equal
same_destination p q =
    length p.dsturl == length q.dsturl && strncmp_equal (length p.dsturl + 1) p.dsturl q.dsturl

unfoldable pub is_paired : List JoinPair → JoinPair → Bool
unfolding same_destination
is_paired [] p = false
is_paired (q ∷ qs) p = let rest = is_paired qs p in if same_destination q p then true else rest

-- The state that `pairing_handle` changes: the assembled message, the pool `pairings`, the memory of
-- `mmem_alloc`, the device, the messages stored in its file, the latest last, and the pairs
-- posted to the process.
pub record Pairing (P M : Type 0) : Type 0 where
  pub assembly : Assembly
  pub pool : P
  pub mmem : M
  pub device : Sensor
  pub stored : List (List ℕ)
  pub posted : List JoinPair

module _ {M : Type 0} (codec : Codec) (memb : Memb) (lists : Lists JoinPair)
    (mmem_alloc : M → ℕ → Option M) where
  -- a parsed pair: refused if the device has one with the same destination, else stored
  unfoldable pub add_pair : Pairing memb.State M → memb.State → JoinPair → ℕ × Pairing memb.State M
  unfolding is_paired
  add_pair s pool p =
      if is_paired s.device.pairs p then (5, record s { pool = memb.memb_free pool }) else (
        0,
        record s {
          pool = pool;
          device = record (s.device) { pairs = lists.list_add s.device.pairs p };
          stored = s.stored ++ take s.assembly.bufsize s.assembly.buffer ∷ [];
          posted = p ∷ s.posted;
        },
      )

  -- `pairing_handle`, if `memb_alloc` gives the block with the content `block`. The device's URL is
  -- written behind the message; `parseMessage` of no block is undefined.
  unfoldable pub pairing_handle :
      Pairing memb.State M → JoinPair → Option (ℕ × Pairing memb.State M)
  unfolding add_pair parse_message copy_to
  pairing_handle s block =
      let name = codec.write_str s.device.type in
      if ltb buffersize (length s.device.type + s.assembly.bufsize)
      then some (3, s)
      else elim (copy_to s.assembly.buffer s.assembly.bufsize name) [
        | none ↦ none
        | some buffer ↦
            let t = record s {
              assembly = record { buffer = buffer; bufsize = s.assembly.bufsize + length name };
            } in
            elim (memb.memb_alloc s.pool) [
              | none ↦ none
              | some pool ↦ elim (parse_message codec mmem_alloc block s.mmem buffer) [
                | none ↦ none
                | some r ↦
                    let u = record t { mmem = r.mmem } in
                    some (
                      if r.ret == 0
                      then add_pair u pool r.pair
                      else (r.ret, record u { pool = memb.memb_free pool }))
              ]
            ]
      ]
