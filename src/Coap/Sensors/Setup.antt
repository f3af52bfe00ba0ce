-- ===== src/Coap/Sensors/Setup.antt =====
-- The "eventsetup" requests of res-uartsensors.c: the text that is answered, and the loop that reads a new setup.
use contiki_device_link.Common.{
  take-append, ℕ, ◌%◌, zero, suc, ◌+◌, ◌<◌, ◌≡◌, ◌≢◌, refl, sym, ap, ◌∙◌, true, false, List, [],
  ◌++◌, Option, some, ◌==◌, ltb, length, take, drop, arith, inl, inr, length-append, length-take,
  length-drop, leb, Bool-cases, ◌≤◌, append_assoc,
}
use contiki_device_link.Cmp.{CmpObject, Codec}
use contiki_device_link.Sensor.Config.{cp_decode_object, cp_encode_object}
use contiki_device_link.Uart.Proxy.{
  ProxyResource, Host, cp_decode_u8, uartsensors_set_event_val, send_request, copy_to,
  below_event_config_value,
}
use contiki_device_link.Uart.{frameandsend}
use contiki_device_link.Uart.Message.{cp_encodemessage, resource_setval}
use contiki_device_link.Coap.{Status, characters}
use contiki_device_link.Coap.Text.{
  Text, printed, append_text, value_text, cp_cmp_to_string, type_sint32,
}
use contiki_device_link.Coap.Sensors.{append_value, setup_text, setup_round, setup_loop, going_on}

-- The buffer holds the text `s`, whatever is behind it.
pub record IsText (t : Text) (s : List ℕ) : Type 0 where
  pub counted : t.len ≡ length s
  pub held : take t.len t.buffer ≡ s

append_text-IsText :
    (t : Text) (s more : List ℕ) → IsText t s → IsText (append_text t more) (s ++ more)
unfolding append_text printed
append_text-IsText t s more h = record {
  counted = omega (arith, h.counted, length-append s more);
  held =
      ap (λ l. take (t.len + length more) (l ++ (more ++ drop (t.len + length more) t.buffer)))
        h.held
      ∙ (ap (λ l. take (t.len + length more) l)
            (sym (append_assoc s more (drop (t.len + length more) t.buffer)))
          ∙ (ap (λ n. take n ((s ++ more) ++ drop (t.len + length more) t.buffer))
                (omega (arith, h.counted, length-append s more))
              ∙ take-append (s ++ more) _));
}

module _ (codec : Codec) (print_float : CmpObject → List ℕ) where
  append_value-IsText :
      (t : Text) (s v name : List ℕ) (o : CmpObject)
      → IsText t s
      → o.type ≢ type_sint32
      → value_text print_float o ≡ some v
      → IsText (cp_cmp_to_string print_float o (append_text t name)).1 (s ++ name ++ v)
  unfolding cp_cmp_to_string
  append_value-IsText t s v name o h other text =
      let counts : (o.type == 20) ≡ false = ground (arith, other) in
      rw (text, cp_cmp_to_string)
        (rw counts
          (append_text-IsText (append_text t name) (s ++ name) v (append_text-IsText t s name h)))

  -- The answer to "eventsetup" is AE=, BE= and CE= with the thresholds, in three lines, for thresholds that have a
  -- text and are not 32-bit signed integers.
  setup_text-IsText :
      (r : ProxyResource) (above below change : List ℕ)
      → value_text print_float r.conf.above_event_at ≡ some above
      → value_text print_float r.conf.below_event_at ≡ some below
      → value_text print_float r.conf.change_event ≡ some change
      → r.conf.above_event_at.type ≢ type_sint32
      → r.conf.below_event_at.type ≢ type_sint32
      → r.conf.change_event.type ≢ type_sint32
      → let t = setup_text codec print_float r in
        take t.len t.buffer
        ≡ characters "AE=" ++ above ++ characters "\nBE=" ++ below ++ characters "\nCE=" ++ change
  unfolding setup_text append_value
  setup_text-IsText r above below change ha hb hc oa ob oc =
      let start : IsText (record { buffer = []; len = 0 }) [] = record {
        counted = refl;
        held = refl;
      } in
      let a = append_value-IsText _ [] above (characters "AE=") r.conf.above_event_at start oa ha in
      let b = append_value-IsText _ _ below (characters "\nBE=") r.conf.below_event_at a ob hb in
      let c = append_value-IsText _ _ change (characters "\nCE=") r.conf.change_event b oc hc in
      c.held

module _ (crc16_data : List ℕ → ℕ → ℕ) (codec : Codec) where
  -- the payload of the request for a new setting fits behind the place where payloads lie
  abbrev pub Fits : Host → ProxyResource → ℕ → CmpObject → Type 0
  Fits h r parameter newval =
      h.payload
        + length
            (codec.write_u8 r.conf.id ++ (codec.write_u8 parameter ++ codec.write_object newval))
      ≤ length h.payloadbuffer

  -- A request is sent, and the next one has the same room.
  record IsSent (h t : Host) : Type 0 where
    same_place : t.payload ≡ h.payload
    same_room : length t.payloadbuffer ≡ length h.payloadbuffer

  set_event_val-IsSent :
      (h : Host) (r : ProxyResource) (parameter : ℕ) (newval : CmpObject)
      → Fits h r parameter newval
      → (ret : ℕ) × (t : Host) × (uartsensors_set_event_val codec crc16_data h r parameter newval
          ≡ some (ret, t))
        × IsSent h t
  unfolding uartsensors_set_event_val send_request copy_to cp_encode_object
  set_event_val-IsSent h r parameter newval fits =
      elim (Bool-cases (ltb below_event_config_value parameter)) [
        | inl none_sent ↦ (
          1,
          h,
          rw (none_sent, uartsensors_set_event_val) refl,
          record { same_place = refl; same_room = refl },
        )
        | inr sends ↦
            let bytes =
              codec.write_u8 r.conf.id ++ (codec.write_u8 parameter ++ codec.write_object newval) in
            let message =
              cp_encodemessage crc16_data ((h.msgid + 1) % 256) resource_setval bytes
                (length bytes % 256) in
            let room : leb (h.payload + length bytes) (length h.payloadbuffer) ≡ true =
              ground (arith, fits) in
            (
              0,
              record h {
                payloadbuffer =
                    take h.payload h.payloadbuffer
                    ++ (bytes ++ drop (h.payload + length bytes) h.payloadbuffer);
                msgid = h.msgid + 1;
                wire = h.wire ++ frameandsend message (length message);
              },
              rw (sends, uartsensors_set_event_val) (rw (room, send_request, copy_to) refl),
              record {
                same_place = refl;
                same_room = omega (
                  arith,
                  fits,
                  length-append (take h.payload h.payloadbuffer)
                      (bytes ++ drop (h.payload + length bytes) h.payloadbuffer),
                  length-append bytes (drop (h.payload + length bytes) h.payloadbuffer),
                  length-take h.payload h.payloadbuffer,
                  length-drop (h.payload + length bytes) h.payloadbuffer,
                );
              },
            )
      ]

  -- If the payload starts with a parameter and the memory behind it with an object that is shorter than the
  -- payload, and the request that is sent to the board has room, the loop goes on after any number of
  -- rounds: none of them is its last, and none is undefined.
  pub setup_loop_endless :
      (rounds : ℕ) (h : Host) (r : ProxyResource) (payload behind : List ℕ) (status : Option Status)
      (bufindex parameter used used' : ℕ) (newval : CmpObject)
      → cp_decode_u8 codec payload ≡ some (parameter, used)
      → cp_decode_object codec behind ≡ some (newval, used')
      → used' < length payload
      → Fits h r parameter newval
      → setup_loop crc16_data codec rounds h r payload behind status bufindex ≡ going_on
  unfolding setup_loop setup_round
  setup_loop_endless zero h r payload behind status bufindex parameter used used' newval first
        second short fits =
      refl
  setup_loop_endless (suc rounds) h r payload behind status bufindex parameter used used' newval
        first second short fits =
      let goes_on : ltb used' (length payload) ≡ true = ground (arith, short) in
      let (ret, t, gives, sent) = set_event_val-IsSent h r parameter newval fits in
      rw (first, setup_loop)
        (rw second (
          rw gives (
            rw goes_on (
              setup_loop_endless rounds t r payload behind _ used' parameter used used' newval first
                second short (omega (arith, fits, sent.same_place, sent.same_room))))))
