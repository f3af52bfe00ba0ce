-- ===== src/Uart/Message/RoundTrip.antt =====
-- What `cp_decodemessage` makes of the bytes of `cp_encodemessage`, and of damaged bytes.
use contiki_device_link.Common.{
  take-append, ℕ, suc, ◌+◌, ◌-◌, ◌*◌, ◌/◌, ◌%◌, ◌≤◌, ◌<◌, ◌≡◌, refl, ap, sym, ◌∙◌, List, [], ◌∷◌,
  ◌++◌, some, if◌then◌else◌, ◌==◌, length, get_elem?, take, drop, arith, length-append,
  append_assoc,
}
use native.Mathlib.Nat.{mod-eq_of_lt}
use contiki_device_link.Common.Int.{pos, negsuc}
use contiki_device_link.Uart.Message.{
  RxMsg, read_bytes, encode_body, cp_encodemessage, store_message, cp_decodemessage,
}

module _ {ℓ} {A : Type ℓ} where
  get_elem?-append :
      (xs ys : List A) (i : ℕ) → get_elem? (xs ++ ys) (length xs + i) ≡ get_elem? ys i
  get_elem?-append [] ys i = ap (get_elem? ys) (omega arith)
  get_elem?-append (x ∷ xs) ys i =
      ap (get_elem? (x ∷ (xs ++ ys))) {y = suc (length xs + i)} (omega arith)
      ∙ get_elem?-append xs ys i

  take-all : (xs : List A) → take (length xs) xs ≡ xs
  take-all [] = refl
  take-all (x ∷ xs) = ap (λ t. x ∷ t) (take-all xs)

read_prefix : (xs ys : List ℕ) → read_bytes (xs ++ ys) 0 (length xs) ≡ some xs
read_prefix xs ys = ground (arith, length-append xs ys, take-append xs ys)

store_payload :
    (a b n : ℕ) (payload rest : List ℕ) (dest : RxMsg)
    → length payload < 256
    → n ≡ (length payload + 2) % 256
    → length payload ≤ length dest.payload
    → store_message (a ∷ b ∷ (payload ++ rest)) n dest
      ≡ some (
        pos 0,
        record {
          seqno = a;
          cmd = b;
          len = length payload;
          payload = payload ++ drop (length payload) dest.payload;
        },
      )
unfolding store_message
store_payload a b n payload rest dest small e room =
    let e' : (n + 256 - 2) % 256 ≡ length payload = omega arith in
    rw e' (ground (arith, length-append payload rest, take-append payload rest))

abbrev length_byte : List ℕ → ℕ
length_byte payload = suc (suc (length payload)) % 256

abbrev body_of : ℕ → ℕ → List ℕ → List ℕ
body_of msgid cmd payload = msgid ∷ cmd ∷ (payload ++ length_byte payload ∷ [])

encode_body-eq :
    (msgid cmd : ℕ) (payload : List ℕ)
    → msgid < 256
    → cmd < 256
    → encode_body msgid cmd payload (length payload) ≡ body_of msgid cmd payload
unfolding encode_body
encode_body-eq msgid cmd payload hm hc = rw (take-all payload, mod-eq_of_lt hm, mod-eq_of_lt hc)

-- the byte at index `k` behind number, command and payload
behind_payload :
    (a b k i : ℕ) (payload xs : List ℕ)
    → i ≡ length payload + 2 + k
    → get_elem? (a ∷ b ∷ (payload ++ xs)) i ≡ get_elem? xs k
behind_payload a b k i payload xs e =
    ap (get_elem? (a ∷ b ∷ (payload ++ xs))) {y = suc (suc (length payload + k))} (omega arith)
    ∙ get_elem?-append payload xs k

-- number, command, payload, length byte and checksum `c`, with what follows in memory
abbrev wire : ℕ → ℕ → List ℕ → ℕ → List ℕ → List ℕ
wire a b payload c rest =
    a ∷ b ∷ (payload ++ length_byte payload ∷ (c % 256) ∷ (c / 256 % 256) ∷ rest)

wire-eq :
    (a b c : ℕ) (payload rest : List ℕ)
    → (body_of a b payload ++ (c % 256) ∷ (c / 256 % 256) ∷ []) ++ rest ≡ wire a b payload c rest
wire-eq a b c payload rest = simp append_assoc

module _ (crc16_data : List ℕ → ℕ → ℕ) where
  -- A message whose checksum fits is stored, one whose checksum does not is refused.
  decode_checks :
      (source covered : List ℕ) (len msglen low high : ℕ) (dest : RxMsg)
      → 3 ≤ len
      → get_elem? source (len - 3) ≡ some msglen
      → get_elem? source (len - 2) ≡ some low
      → get_elem? source (len - 1) ≡ some high
      → read_bytes source 0 (len - 2) ≡ some covered
      → cp_decodemessage crc16_data source len dest ≡ (
          if crc16_data covered 0 == low + 256 * high
          then store_message source msglen dest
          else some (negsuc 0, dest))
  unfolding cp_decodemessage
  decode_checks source covered len msglen low high dest h e1 e2 e3 e4 =
      rw (e1, e2, e3, e4) (ground arith)

  encode-eq :
      (msgid cmd : ℕ) (payload : List ℕ)
      → msgid < 256
      → cmd < 256
      → cp_encodemessage crc16_data msgid cmd payload (length payload)
        ≡ body_of msgid cmd payload
          ++ (crc16_data (body_of msgid cmd payload) 0 % 256)
            ∷ (crc16_data (body_of msgid cmd payload) 0 / 256 % 256)
            ∷ []
  unfolding cp_encodemessage
  encode-eq msgid cmd payload hm hc =
      ap (λ l. l ++ (crc16_data l 0 % 256) ∷ (crc16_data l 0 / 256 % 256) ∷ [])
        (encode_body-eq msgid cmd payload hm hc)

  pub length-encode :
      (msgid cmd : ℕ) (payload : List ℕ)
      → msgid < 256
      → cmd < 256
      → length (cp_encodemessage crc16_data msgid cmd payload (length payload)) ≡ length payload + 5
  length-encode msgid cmd payload hm hc =
      ap length (encode-eq msgid cmd payload hm hc)
      ∙ (length-append (body_of msgid cmd payload) _
          ∙ omega (arith, length-append payload (length_byte payload ∷ [])))

  module _ (crc16_data-lt : (bytes : List ℕ) (acc : ℕ) → crc16_data bytes acc < 65536) where
    decode_wire :
        (a b : ℕ) (payload rest : List ℕ) (dest : RxMsg)
        → cp_decodemessage crc16_data
            (wire a b payload (crc16_data (body_of a b payload) 0) rest)
            (length payload + 5)
            dest
          ≡ store_message
              (wire a b payload (crc16_data (body_of a b payload) 0) rest)
              (length_byte payload)
              dest
    decode_wire a b payload rest dest =
        let c = crc16_data (body_of a b payload) 0 in
        let body = body_of a b payload in
        let size : length payload + 5 - 2 ≡ length body =
          omega (arith, length-append payload (length_byte payload ∷ [])) in
        let covered : read_bytes (wire a b payload c rest) 0 (length payload + 5 - 2) ≡ some body =
          ap (read_bytes (wire a b payload c rest) 0) size
          ∙ (ap (λ l. read_bytes l 0 (length body))
                (sym (wire-eq a b c payload rest) ∙ append_assoc body _ rest)
              ∙ read_prefix body _) in
        decode_checks (wire a b payload c rest) body (length payload + 5) (length_byte payload)
          (c % 256) (c / 256 % 256) dest (omega arith)
          (behind_payload a b 0 _ payload _ (omega arith))
          (behind_payload a b 1 _ payload _ (omega arith))
          (behind_payload a b 2 _ payload _ (omega arith)) covered
        ∙ ground (arith, crc16_data-lt body 0)

    -- What `cp_encodemessage` writes for a message is decoded, whatever follows it in memory, to the
    -- same number, command and payload: for every payload that a `char` length can count.
    pub cp_decodemessage-encodemessage :
        (msgid cmd : ℕ) (payload rest : List ℕ) (dest : RxMsg)
        → msgid < 256
        → cmd < 256
        → length payload < 256
        → length payload ≤ length dest.payload
        → let bytes = cp_encodemessage crc16_data msgid cmd payload (length payload) in
          cp_decodemessage crc16_data (bytes ++ rest) (length bytes) dest
          ≡ some (
            pos 0,
            record {
              seqno = msgid;
              cmd = cmd;
              len = length payload;
              payload = payload ++ drop (length payload) dest.payload;
            },
          )
    cp_decodemessage-encodemessage msgid cmd payload rest dest hm hc small room =
        let c = crc16_data (body_of msgid cmd payload) 0 in
        ap
          (λ n.
            cp_decodemessage crc16_data
              (cp_encodemessage crc16_data msgid cmd payload (length payload) ++ rest) n dest)
          (length-encode msgid cmd payload hm hc)
        ∙ (ap (λ l. cp_decodemessage crc16_data (l ++ rest) (length payload + 5) dest)
              (encode-eq msgid cmd payload hm hc)
            ∙ (ap (λ l. cp_decodemessage crc16_data l (length payload + 5) dest)
                  (wire-eq msgid cmd c payload rest)
                ∙ (decode_wire msgid cmd payload rest dest
                    ∙ store_payload msgid cmd (length_byte payload) payload _ dest small
                        (omega arith) room)))
