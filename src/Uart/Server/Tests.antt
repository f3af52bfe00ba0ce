-- ===== src/Uart/Server/Tests.antt =====
-- A run of the start with a board that has one resource.
use contiki_device_link.Common.{
  ℕ, ◌+◌, ◌≤◌, ◌≡◌, refl, true, List, [], ◌∷◌, ◌++◌, none, some, arith, replicate, leb, length,
  take, drop,
}
use contiki_device_link.Common.Int.{pos}
use contiki_device_link.Cmp.{CmpObject, Codec, Read}
use contiki_device_link.Uart.Config.{
  Decoded, cp_decoderesource_conf, read_field, behind, put_slash, read_string, decode_fields,
  with_strings, decode_group,
}
use contiki_device_link.Pairing.{c_string}
use contiki_device_link.Uart.Proxy.{ProxyResource, copy_to}
use contiki_device_link.Uart.Server.{Server, running}
use contiki_device_link.Uart.Server.Answers.{Answer, IsDecoded, ids}
use contiki_device_link.Uart.Server.Started.{start, start-IsStarted, requests}
use contiki_device_link.Device.Tests.Fixtures.{three_bytes, setup, blocks, appending}

-- a string is read without a look at how many bytes there are
abbrev read_there : List ℕ → Read (List ℕ)
read_there [] = record { value = none; used = 0 }
read_there (n ∷ bytes) = record { value = some (take n bytes); used = n + 1 }

abbrev unchecked : Codec
unchecked = record three_bytes { read_str = λ room. read_there }

-- fields of zeros, and five empty strings
abbrev blank_bytes : List ℕ
blank_bytes = replicate 15 0 ++ (1 ∷ 0 ∷ 1 ∷ 0 ∷ 1 ∷ 0 ∷ 1 ∷ 0 ∷ 1 ∷ 0 ∷ [])

-- these with the slash of the URL
abbrev slashed_bytes : List ℕ
slashed_bytes = 0 ∷ 0 ∷ 47 ∷ replicate 12 0 ++ (1 ∷ 0 ∷ 1 ∷ 0 ∷ 1 ∷ 0 ∷ 1 ∷ 0 ∷ 1 ∷ 0 ∷ [])

abbrev blank_answer : Answer
blank_answer = record { bytes = blank_bytes; rest = []; size = 25 }

abbrev block : ProxyResource
block = record { conf = setup; lastval = 0; vallen = 0 }

written :
    (buffer : List ℕ) (at : ℕ) (bytes : List ℕ)
    → at + length bytes ≤ length buffer
    → copy_to buffer at bytes ≡ some (take at buffer ++ (bytes ++ drop (at + length bytes) buffer))
unfolding copy_to
written buffer at bytes h =
    let fits : leb (at + length bytes) (length buffer) ≡ true = ground (arith, h) in rw fits refl

abbrev zeros : CmpObject
zeros = record { type = 0; word = 0 }

abbrev twice : List ℕ
twice = 0 ∷ 0 ∷ []

blank_decoded :
    (mem : List ℕ)
    → (d : Decoded) × (cp_decoderesource_conf unchecked setup (blank_bytes ++ mem) ≡ some d)
      × (length d.memory ≡ length (blank_bytes ++ mem))
      × (d.attr_end + 15 ≤ 25)
unfolding cp_decoderesource_conf read_field behind put_slash read_string decode_fields with_strings
    decode_group c_string
blank_decoded mem =
    let b = blank_bytes ++ mem in
    let c = slashed_bytes ++ mem in
    (
      record {
        conf = record setup {
          resolution = 0;
          version = 0;
          max_pollinterval = pos 0;
          events_active = 0;
          above_event_at = zeros;
          below_event_at = zeros;
          change_event = zeros;
          type = 47 ∷ [];
        };
        memory = c;
        attr_end = 5;
      },
      rw (written b 0 twice (omega arith), cp_decoderesource_conf, read_string)
          (rw (written b 1 twice (omega arith)) (
            rw (written b 2 twice (omega arith)) (
              rw (written b 2 (47 ∷ []) (omega arith), decode_group, put_slash)
                (rw (written c 3 twice (omega arith), decode_group, read_string)
                  (rw (written c 4 twice (omega arith)) refl))))),
      refl,
      omega arith,
    )

blank-IsDecoded : IsDecoded unchecked setup blank_answer
blank-IsDecoded = record {
  short = omega arith;
  fits = omega arith;
  decodes = λ mem h. blank_decoded mem;
}

abbrev crc : List ℕ → ℕ → ℕ
crc bytes acc = 7

start-IsStarted_example :
    (t : Server ℕ) × (start crc
        (λ bytes acc. omega arith)
        unchecked
        blocks
        appending
        block
        (replicate 30 0)
        []
        (blank_answer ∷ [])
      ≡ some t)
    × (t.phase ≡ running)
    × (t.ended ≡ 1)
    × (ids t.host.proxy_resource_list ≡ 0 ∷ [])
    × (t.host.wire
        ≡ requests crc
            (λ bytes acc. omega arith)
            unchecked
            blocks
            appending
            block
            (blank_answer ∷ []))
start-IsStarted_example =
    start-IsStarted crc (λ bytes acc. omega arith) unchecked blocks appending block (replicate 30 0)
      [] (blank_answer ∷ []) (omega arith) (omega arith) (omega arith) (blank-IsDecoded, tt)
