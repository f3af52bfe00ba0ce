-- ===== src/Uart.antt =====
-- apps/uartsensors/uarthandler.c: the byte framing of the UART link to a sensor board, with its
-- ring of receive buffers. `Framing` holds the proofs about one frame, `Ring` those about the
-- ring of buffers, `Message` the message layer (lib/cmp_helpers.c) above the frames.
-- `char` is the target's unsigned char (ARM), so a byte is a number below 256.
pub mod Framing
pub mod Ring
pub mod Message
pub mod Link
pub mod Proxy
pub mod Config
pub mod Server
pub mod Host
pub mod Tests
use contiki_device_link.Common.{
  ℕ, ◌+◌, ◌-◌, Bool, true, false, ◌&&◌, List, [], ◌∷◌, Option, none, some, if◌then◌else◌, ◌==◌, ltb,
  leb, get_or, set, take, replicate, ◌++◌,
}

-- #define END, ESC, ESC_END, ESC_ESC
abbrev pub end_byte : ℕ
end_byte = 0xC0

abbrev pub esc : ℕ
esc = 0xDB

abbrev pub esc_end : ℕ
esc_end = 0xDC

abbrev pub esc_esc : ℕ
esc_esc = 0xDD

abbrev pub rx_buffers : ℕ
rx_buffers = 5

abbrev pub rx_buflen : ℕ
rx_buflen = 200

-- `buffer_t`; the write pointer is the index that it points to.
pub record Buffer : Type 0 where
  pub buffer : List ℕ
  pub wrt_ptr : ℕ

abbrev pub blank : Buffer
blank = record { buffer = replicate rx_buflen 0; wrt_ptr = 0 }

-- The statics of uarthandler.c. `posted` are the buffers that `msgrdy_callback` was called with, by
-- index, the latest first: `uart_event_callback` posts the pointer to the server process.
pub record Uart : Type 0 where
  pub rxbuf : List Buffer
  pub activebuffer : ℕ
  pub last_c : ℕ
  pub posted : List ℕ

-- `*rxbuf[activebuffer].wrt_ptr++ = c`; a write behind the buffer's end is `none` (undefined in C).
pub write_byte : Buffer → ℕ → Option Buffer
write_byte b c =
    if ltb b.wrt_ptr rx_buflen
    then some (record { buffer = set b.buffer b.wrt_ptr c; wrt_ptr = b.wrt_ptr + 1 })
    else none

abbrev pub active : Uart → Buffer
active u = get_or u.rxbuf u.activebuffer blank

pub set_active : Uart → Buffer → Uart
set_active u b = record u { rxbuf = set u.rxbuf u.activebuffer b }

pub store_byte : Uart → ℕ → Option Uart
unfolding write_byte set_active
store_byte u c = elim (write_byte (active u) c) [ none ↦ none | some b ↦ some (set_active u b) ]

pub switchbuffer : Uart → Uart
switchbuffer u =
    let next = if leb rx_buffers (u.activebuffer + 1) then 0 else u.activebuffer + 1 in
    let b = get_or u.rxbuf next blank in
    record u { rxbuf = set u.rxbuf next (record b { wrt_ptr = 0 }); activebuffer = next }

-- `last_c = c` at the end of `proxy_rx_callback`
pub remember : ℕ → Option Uart → Option Uart
remember c none = none
remember c (some u) = some (record u { last_c = c })

pub proxy_rx_callback : Uart → ℕ → Option Uart
unfolding store_byte switchbuffer remember
proxy_rx_callback u c = remember c (
    if c == end_byte
    then some (switchbuffer (record u { posted = u.activebuffer ∷ u.posted }))
    else (if (c == esc_esc) && (u.last_c == esc)
        then store_byte u u.last_c
        else (if (c == esc_end) && (u.last_c == esc)
            then store_byte u end_byte
            else store_byte u c)))

-- The UART driver calls `proxy_rx_callback` for each byte of the wire.
pub receive : Uart → List ℕ → Option Uart
receive u [] = some u
receive u (c ∷ cs) = elim (proxy_rx_callback u c) [ none ↦ none | some u' ↦ receive u' cs ]

-- The statics at boot, then `switchbuffer()` as in `uarthandler_init`.
pub uarthandler_init : Uart
unfolding switchbuffer
uarthandler_init =
    switchbuffer
      (record { rxbuf = replicate rx_buffers blank; activebuffer = 0; last_c = 0; posted = [] })

-- The bytes that `frameandsend` writes for one byte of the message.
pub stuff : ℕ → List ℕ
stuff c =
    if c == end_byte then esc ∷ esc_end ∷ [] else (if c == esc then esc ∷ esc_esc ∷ [] else c ∷ [])

pub stuff_all : List ℕ → List ℕ
unfolding stuff
stuff_all [] = []
stuff_all (c ∷ cs) = stuff c ++ stuff_all cs

-- What goes out on the wire for the first `len` bytes at `s`.
pub frameandsend : List ℕ → ℕ → List ℕ
unfolding stuff_all
frameandsend s len = stuff_all (take len s) ++ end_byte ∷ []

-- The bytes of a message as the server process reads them: from `buffer[0]` up to `wrt_ptr`.
abbrev pub contents : Buffer → List ℕ
contents b = take b.wrt_ptr b.buffer
