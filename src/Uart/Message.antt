-- ===== src/Uart/Message.antt =====
-- sensorsUnleashed/lib/cmp_helpers.c, `cp_encodemessage` and `cp_decodemessage` (and the same text in
-- apps/uartsensors/uart_protocolhandler.c): a message with its number, command, payload, length
-- byte and checksum. `crc16_data` is Contiki's: a parameter, over the bytes that it reads.
pub mod RoundTrip
use contiki_device_link.Common.{
  ℕ, ◌+◌, ◌-◌, ◌*◌, ◌/◌, ◌%◌, List, [], ◌∷◌, ◌++◌, Option, none, some, if◌then◌else◌, ◌==◌, ltb,
  leb, length, get_elem?, take, drop,
}
use contiki_device_link.Common.Int.{ℤ, pos, negsuc}

-- `rx_msg`; `payload` is the memory that the pointer shows.
pub record RxMsg : Type 0 where
  pub seqno : ℕ
  pub cmd : ℕ
  pub len : ℕ
  pub payload : List ℕ

-- enum req_cmd
abbrev pub resource_count : ℕ
resource_count = 1

abbrev pub resource_config : ℕ
resource_config = 2

abbrev pub resource_value_update : ℕ
resource_value_update = 3

abbrev pub resource_req_update_all : ℕ
resource_req_update_all = 4

abbrev pub resource_event : ℕ
resource_event = 5

abbrev pub resource_reset : ℕ
resource_reset = 6

abbrev pub resource_setval : ℕ
resource_setval = 7

abbrev pub resource_updateval : ℕ
resource_updateval = 8

infixl 5 ◌>>=◌
abbrev ◌>>=◌ {ℓ κ} : {A : Type ℓ} {B : Type κ} → Option A → (A → Option B) → Option B
none >>= k = none
some x >>= k = k x

-- `n` bytes from index `i`; `none` is a read behind the memory's end.
abbrev pub read_bytes : List ℕ → ℕ → ℕ → Option (List ℕ)
read_bytes s i n = if leb (i + n) (length s) then some (take n (drop i s)) else none

-- the bytes over the start of the memory; `none` is a write behind its end
abbrev pub write_bytes : List ℕ → List ℕ → Option (List ℕ)
write_bytes mem bytes =
    if leb (length bytes) (length mem) then some (bytes ++ drop (length bytes) mem) else none

-- the fields of the message, once its checksum is known to be right
pub store_message : List ℕ → ℕ → RxMsg → Option (ℤ × RxMsg)
store_message source msglen destination = do
  seqno ← get_elem? source 0
  cmd ← get_elem? source 1
  bytes ← read_bytes source 2 ((msglen + 256 - 2) % 256)
  payload ← write_bytes destination.payload bytes
  some (
    pos 0,
    record { seqno = seqno; cmd = cmd; len = (msglen + 256 - 2) % 256; payload = payload },
  )

-- number, command, payload and length byte: what the checksum is taken of
unfoldable pub encode_body : ℕ → ℕ → List ℕ → ℕ → List ℕ
encode_body msgid cmd payload len =
    let head = (msgid % 256) ∷ (cmd % 256) ∷ take len payload in head ++ (length head % 256) ∷ []

module _ (crc16_data : List ℕ → ℕ → ℕ) where
  -- The bytes that `cp_encodemessage` writes at `buffer`; it returns their number.
  unfoldable pub cp_encodemessage : ℕ → ℕ → List ℕ → ℕ → List ℕ
  cp_encodemessage msgid cmd payload len =
      let body = encode_body msgid cmd payload len in
      let crc = crc16_data body 0 in body ++ (crc % 256) ∷ (crc / 256 % 256) ∷ []

  -- The result is what is returned, with the message container after it; `none` is an access out of
  -- bounds. `char` arithmetic wraps at 256.
  unfoldable pub cp_decodemessage : List ℕ → ℕ → RxMsg → Option (ℤ × RxMsg)
  unfolding store_message
  cp_decodemessage source len destination = if ltb len 3 then none else (do
    msglen ← get_elem? source (len - 3)
    low ← get_elem? source (len - 2)
    high ← get_elem? source (len - 1)
    covered ← read_bytes source 0 (len - 2)
    if crc16_data covered 0 == low + 256 * high
        then store_message source msglen destination
        else some (negsuc 0, destination))
