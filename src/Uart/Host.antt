-- ===== src/Uart/Host.antt =====
-- UartTest/uart.cpp: the other end of the UART link, as the desktop program that tests it has it. `Stuffing` is about
-- what it sends, `Alike` and `Reception` about what it receives. `none` is a write behind the end of a buffer. A
-- `QByteArray` is a list.
pub mod Stuffing
pub mod Alike
pub mod Reception
pub mod Tests
use contiki_device_link.Common.{
  ℕ, zero, suc, ◌+◌, ◌*◌, ◌&&◌, List, [], ◌∷◌, ◌++◌, Option, none, some, if◌then◌else◌, ◌==◌, ltb,
  leb, length, take, drop, set, get_or, replicate,
}
use contiki_device_link.Uart.{end_byte, esc, esc_end, esc_esc, Buffer}

-- `RX_BUFFERS` and `RX_BUFLEN`
abbrev pub host_buffers : ℕ
host_buffers = 5

abbrev pub host_buflen : ℕ
host_buflen = 300

abbrev pub empty_buffer : Buffer
empty_buffer = record { buffer = replicate host_buflen 0; wrt_ptr = 0 }

-- The members of `uart`. `signalled` are the buffers that `messageReceived` was emitted with, the latest first.
pub record TestPort : Type 0 where
  pub ring : List Buffer
  pub current : ℕ
  pub last : ℕ
  pub signalled : List ℕ

abbrev pub current_buffer : TestPort → Buffer
current_buffer h = get_or h.ring h.current empty_buffer

-- `*rxbuf[activebuffer].wrt_ptr++ = c`
unfoldable pub append_byte : TestPort → ℕ → Option TestPort
append_byte h c =
    let b = current_buffer h in
    if ltb b.wrt_ptr host_buflen
    then some (record h {
      ring =
          set h.ring h.current
            (record { buffer = set b.buffer b.wrt_ptr c; wrt_ptr = b.wrt_ptr + 1 });
    })
    else none

-- `uart::switchbuffer`
unfoldable pub next_ring_buffer : TestPort → TestPort
next_ring_buffer h =
    let next = if leb host_buffers (h.current + 1) then 0 else h.current + 1 in
    record h {
      ring = set h.ring next (record (get_or h.ring next empty_buffer) { wrt_ptr = 0 });
      current = next;
    }

abbrev pub keep_last : ℕ → Option TestPort → Option TestPort
keep_last c none = none
keep_last c (some h) = some (record h { last = c })

-- one byte of `readData`
unfoldable pub read_one : TestPort → ℕ → Option TestPort
read_one h c = keep_last c (
    if c == end_byte
    then some (next_ring_buffer (record h { signalled = h.current ∷ h.signalled }))
    else (if (c == esc_esc) && (h.last == esc)
        then append_byte h h.last
        else (if (c == esc_end) && (h.last == esc)
            then append_byte h end_byte
            else append_byte h c)))

-- `readData`, for the bytes that have arrived
unfoldable pub read_data : TestPort → List ℕ → Option TestPort
read_data h [] = some h
read_data h (c ∷ cs) = elim (read_one h c) [ none ↦ none | some g ↦ read_data g cs ]

-- The members as the constructor leaves them; `stale` is what `last_c` holds, which it does not set.
unfoldable pub new_host : ℕ → TestPort
new_host stale = next_ring_buffer (record {
  ring = replicate host_buffers empty_buffer;
  current = 0;
  last = stale;
  signalled = [];
})

-- `remove(i, 1)` and `insert(i, c)` of QByteArray, within the array
abbrev remove_at : List ℕ → ℕ → List ℕ
remove_at msg i = take i msg ++ drop (suc i) msg

abbrev insert_at : List ℕ → ℕ → ℕ → List ℕ
insert_at msg i c = take i msg ++ c ∷ drop i msg

-- the body of the loop of `byteStuff`
unfoldable pub stuff_at : List ℕ → ℕ → List ℕ
stuff_at msg i =
    if get_or msg i 0 == end_byte
    then insert_at (insert_at (remove_at msg i) i esc_end) i esc
    else (if get_or msg i 0 == esc then insert_at msg (suc i) esc_esc else msg)

-- The loop of `byteStuff` from place `i` on, in so many rounds; the array grows meanwhile.
unfoldable pub byte_stuff_loop : ℕ → List ℕ → ℕ → Option (List ℕ)
byte_stuff_loop zero msg i = none
byte_stuff_loop (suc rounds) msg i =
    if ltb i (length msg) then byte_stuff_loop rounds (stuff_at msg i) (suc i) else some msg

-- `byteStuff`: two rounds for each byte, and the last test
unfoldable pub byte_stuff : List ℕ → Option (List ℕ)
byte_stuff msg = byte_stuff_loop (2 * length msg + 1) msg 0

-- `transmit`: what is written to the port
unfoldable pub transmit_frame : List ℕ → ℕ → Option (List ℕ)
transmit_frame txbuf len = elim (byte_stuff (take len txbuf)) [
  | none ↦ none
  | some tx ↦ some (tx ++ end_byte ∷ [])
]
