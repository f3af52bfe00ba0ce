-- ===== src/Uart/Tests.antt =====
-- Runs and instances of the UART link at concrete bytes, with a sum of bytes for the checksum.
use contiki_device_link.Common.{
  ℕ, ◌+◌, ◌%◌, ◌<◌, ◌≡◌, ◌↔◌, refl, List, [], ◌∷◌, ◌++◌, some, length, get_or, arith,
}
use contiki_device_link.Common.Int.{pos}
use contiki_device_link.Uart.{
  rx_buffers, Uart, blank, receive, frameandsend, contents, uarthandler_init,
}
use contiki_device_link.Uart.Framing.{escaped, IsPlain}
use contiki_device_link.Uart.Ring.{
  IsReady, IsDelivered, receive-frameandsend, receive-frames, delivered_iff_IsPlain, frames,
  frames_until, uarthandler_init-IsReady,
}
use contiki_device_link.Uart.Message.{RxMsg, cp_encodemessage, cp_decodemessage, encode_body}
use contiki_device_link.Uart.Message.RoundTrip.{cp_decodemessage-encodemessage}
use contiki_device_link.Uart.Link.{link-delivers, decode_buffer}

sum16 : List ℕ → ℕ → ℕ
sum16 [] acc = acc % 65536
sum16 (b ∷ bs) acc = sum16 bs (acc + b)

sum16-lt : (bytes : List ℕ) (acc : ℕ) → sum16 bytes acc < 65536
unfolding sum16
sum16-lt [] acc = omega arith
sum16-lt (b ∷ bs) acc = sum16-lt bs (acc + b)

abbrev blank_reply : RxMsg
blank_reply = record { seqno = 0; cmd = 0; len = 0; payload = 9 ∷ 9 ∷ 9 ∷ [] }

-- END and ESC on the wire
frame_of_specials :
    frameandsend (1 ∷ 0xC0 ∷ 0xDB ∷ []) 3 ≡ 1 ∷ 0xDB ∷ 0xDC ∷ 0xDB ∷ 0xDD ∷ 0xC0 ∷ []
unfolding frameandsend
frame_of_specials = refl

-- and what the receiver makes of them
specials_arrive_escaped : escaped (1 ∷ 0xC0 ∷ 0xDB ∷ []) ≡ 1 ∷ 0xDB ∷ 0xC0 ∷ 0xDB ∷ 0xDB ∷ []
unfolding escaped
specials_arrive_escaped = refl

encoded : cp_encodemessage sum16 5 7 (1 ∷ 2 ∷ []) 2 ≡ 5 ∷ 7 ∷ 1 ∷ 2 ∷ 4 ∷ 19 ∷ 0 ∷ []
unfolding cp_encodemessage encode_body sum16
encoded = refl

receive-frameandsend_example :
    (u : Uart) × (receive uarthandler_init (frameandsend (1 ∷ 0xC0 ∷ []) 2) ≡ some u)
    × IsDelivered (1 ∷ 0xC0 ∷ []) uarthandler_init u
unfolding escaped
receive-frameandsend_example =
    receive-frameandsend (1 ∷ 0xC0 ∷ []) uarthandler_init uarthandler_init-IsReady (omega arith)

receive-frames_example :
    (u : Uart) × (receive uarthandler_init (frames ((1 ∷ []) ∷ (2 ∷ 0xDB ∷ []) ∷ [])) ≡ some u)
    × IsReady u
    × ((i : ℕ)
        → i < rx_buffers
        → 2 < frames_until uarthandler_init i
        → get_or u.rxbuf i blank ≡ get_or uarthandler_init.rxbuf i blank)
unfolding escaped
receive-frames_example =
    receive-frames ((1 ∷ []) ∷ (2 ∷ 0xDB ∷ []) ∷ []) uarthandler_init uarthandler_init-IsReady
      (omega arith)

delivered_iff_IsPlain_example :
    (u : Uart) × (receive uarthandler_init (frameandsend (1 ∷ 0xC0 ∷ []) 2) ≡ some u)
    × ((contents (get_or u.rxbuf uarthandler_init.activebuffer blank) ≡ 1 ∷ 0xC0 ∷ [])
        ↔ IsPlain (1 ∷ 0xC0 ∷ []))
unfolding escaped
delivered_iff_IsPlain_example =
    delivered_iff_IsPlain (1 ∷ 0xC0 ∷ []) uarthandler_init uarthandler_init-IsReady (omega arith)

cp_decodemessage-encodemessage_example :
    let bytes = cp_encodemessage sum16 5 7 (1 ∷ 2 ∷ []) 2 in
    cp_decodemessage sum16 (bytes ++ 8 ∷ []) (length bytes) blank_reply
    ≡ some (pos 0, record { seqno = 5; cmd = 7; len = 2; payload = 1 ∷ 2 ∷ 9 ∷ [] })
cp_decodemessage-encodemessage_example =
    cp_decodemessage-encodemessage sum16 sum16-lt 5 7 (1 ∷ 2 ∷ []) (8 ∷ []) blank_reply
      (omega arith) (omega arith) (omega arith) (omega arith)

link-delivers_example :
    let bytes = cp_encodemessage sum16 5 7 (1 ∷ 2 ∷ []) 2 in
    (u : Uart) × (receive uarthandler_init (frameandsend bytes (length bytes)) ≡ some u)
    × (u.posted ≡ uarthandler_init.activebuffer ∷ uarthandler_init.posted)
    × (decode_buffer sum16 (get_or u.rxbuf uarthandler_init.activebuffer blank) blank_reply
        ≡ some (pos 0, record { seqno = 5; cmd = 7; len = 2; payload = 1 ∷ 2 ∷ 9 ∷ [] }))
unfolding cp_encodemessage encode_body sum16
link-delivers_example =
    link-delivers sum16 sum16-lt 5 7 (1 ∷ 2 ∷ []) blank_reply uarthandler_init
      uarthandler_init-IsReady (omega arith) (omega arith) (omega arith) (omega arith) (omega arith)
