-- ===== src/Uart/Link.antt =====
-- The link end to end, apps/uartsensors: `cp_encodemessage`, `frameandsend`, the wire,
-- `proxy_rx_callback`, and `cp_decodemessage` on the buffer that was posted (uartsensors.c,
-- uartsensors_server).
use contiki_device_link.Common.{
  ℕ, ◌≤◌, ◌<◌, ◌≡◌, ap, ap₂, sym, ◌∙◌, List, ◌∷◌, ◌++◌, Option, some, length, drop, get_or, arith,
  take-append-drop,
}
use contiki_device_link.Common.Int.{ℤ, pos}
use contiki_device_link.Uart.{rx_buflen, Buffer, blank, Uart, receive, frameandsend, contents}
use contiki_device_link.Uart.Framing.{escaped, escaped_plain, IsPlain}
use contiki_device_link.Uart.Ring.{IsReady, receive-frameandsend}
use contiki_device_link.Uart.Message.{RxMsg, cp_encodemessage, cp_decodemessage}
use contiki_device_link.Uart.Message.RoundTrip.{length-encode, cp_decodemessage-encodemessage}

module _ (crc16_data : List ℕ → ℕ → ℕ) where
  -- what the server process does with a buffer that was posted
  pub decode_buffer : Buffer → RxMsg → Option (ℤ × RxMsg)
  decode_buffer lastmsg rx_reply =
      cp_decodemessage crc16_data lastmsg.buffer lastmsg.wrt_ptr rx_reply

  -- A buffer that holds just the bytes `e` is decoded as these bytes, whatever lies behind them.
  decode_buffer-contents :
      (b : Buffer) (e : List ℕ) (dest : RxMsg)
      → contents b ≡ e
      → b.wrt_ptr ≡ length e
      → decode_buffer b dest
        ≡ cp_decodemessage crc16_data (e ++ drop b.wrt_ptr b.buffer) (length e) dest
  unfolding decode_buffer
  decode_buffer-contents b e dest held written =
      ap₂ (λ l n. cp_decodemessage crc16_data l n dest)
        (sym (take-append-drop b.wrt_ptr b.buffer) ∙ ap (λ l. l ++ drop b.wrt_ptr b.buffer) held)
        written

  module _ (crc16_data-lt : (bytes : List ℕ) (acc : ℕ) → crc16_data bytes acc < 65536) where
    -- A message of at most 195 payload bytes, whose encoded form has no END and no ESC byte, arrives: the receiver
    -- posts the buffer that was active, and decoding that buffer gives the message back.
    pub link-delivers :
        (msgid cmd : ℕ) (payload : List ℕ) (dest : RxMsg) (u : Uart)
        → IsReady u
        → msgid < 256
        → cmd < 256
        → length payload ≤ 195
        → length payload ≤ length dest.payload
        → IsPlain (cp_encodemessage crc16_data msgid cmd payload (length payload))
        → let bytes = cp_encodemessage crc16_data msgid cmd payload (length payload) in
          (u' : Uart) × (receive u (frameandsend bytes (length bytes)) ≡ some u')
          × (u'.posted ≡ u.activebuffer ∷ u.posted)
          × (decode_buffer (get_or u'.rxbuf u.activebuffer blank) dest
              ≡ some (
                pos 0,
                record {
                  seqno = msgid;
                  cmd = cmd;
                  len = length payload;
                  payload = payload ++ drop (length payload) dest.payload;
                },
              ))
    link-delivers msgid cmd payload dest u r hm hc small room plain =
        let bytes = cp_encodemessage crc16_data msgid cmd payload (length payload) in
        let same = escaped_plain bytes plain in
        let fits : length (escaped bytes) ≤ rx_buflen =
          omega (arith, ap length same, length-encode crc16_data msgid cmd payload hm hc) in
        let (u', runs, d) = receive-frameandsend bytes u r fits in
        let b = get_or u'.rxbuf u.activebuffer blank in
        (
          u',
          runs,
          d.handed,
          decode_buffer-contents b bytes dest (d.held ∙ same) (d.written ∙ ap length same)
              ∙ cp_decodemessage-encodemessage crc16_data crc16_data-lt msgid cmd payload
                  (drop b.wrt_ptr b.buffer) dest hm hc (omega arith) room,
        )
