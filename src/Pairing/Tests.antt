-- ===== src/Pairing/Tests.antt =====
-- Runs and instances of the pairing at a concrete message.
use contiki_device_link.Common.{
  ℕ, ◌+◌, ◌≤◌, ◌≡◌, refl, List, [], ◌∷◌, ◌++◌, Option, none, some, arith, replicate,
}
use contiki_device_link.Common.Int.{pos}
use contiki_device_link.Sensor.{JoinPair}
use contiki_device_link.Pairing.{
  buffersize, Assembly, ParseResult, parse_message, Pairing, parse_destination, parse_triggers,
  parse_source, with_url, c_string, cp_decode_u16_array, cp_decode_s8_array, decode_array,
  decode_loop,
}
use contiki_device_link.Pairing.Assemble.{assemble, joined, IsAssembled, assemble-IsAssembled}
use contiki_device_link.Pairing.Parse.{IsParsed, parse_message-IsParsed}
use contiki_device_link.Device.Tests.Fixtures.{three_bytes, with_value}

-- an array of eight words, the URL "ab", three triggers
abbrev message : List ℕ
message = 16 ∷ 1 ∷ 2 ∷ 3 ∷ 4 ∷ 5 ∷ 6 ∷ 7 ∷ 8 ∷ 2 ∷ 97 ∷ 98 ∷ 3 ∷ 0 ∷ 1 ∷ 2 ∷ []

abbrev blank_assembly : Assembly
blank_assembly = record { buffer = replicate buffersize 0; bufsize = 0 }

assemble-IsAssembled_example :
    (b : Assembly) × (assemble blank_assembly (message ∷ (5 ∷ []) ∷ []) 0 ≡ some b)
    × IsAssembled b (joined (message ∷ (5 ∷ []) ∷ []))
assemble-IsAssembled_example =
    assemble-IsAssembled blank_assembly message ((5 ∷ []) ∷ []) (omega arith)

-- memory that never runs out
abbrev plenty : ℕ → ℕ → Option ℕ
plenty used size = some (used + size)

-- a block in which a refused pair has left its URL above
abbrev stale : JoinPair
stale = record {
  dsturl = [];
  dsturl_above = some (120 ∷ []);
  dsturl_below = none;
  dsturl_change = none;
  srcurl = [];
  triggers = pos 9 ∷ pos 9 ∷ pos 9 ∷ [];
  destip = replicate 8 0;
}

abbrev parsed_pair : JoinPair
parsed_pair = record {
  dsturl = 97 ∷ 98 ∷ [];
  dsturl_above = some (120 ∷ []);
  dsturl_below = some (97 ∷ 98 ∷ 47 ∷ 98 ∷ 101 ∷ 108 ∷ 111 ∷ 119 ∷ []);
  dsturl_change = some (97 ∷ 98 ∷ 47 ∷ 99 ∷ 104 ∷ 97 ∷ 110 ∷ 103 ∷ 101 ∷ []);
  srcurl = 115 ∷ [];
  triggers = pos 0 ∷ pos 1 ∷ pos 2 ∷ [];
  destip = 1 ∷ 2 ∷ 3 ∷ 4 ∷ 5 ∷ 6 ∷ 7 ∷ 8 ∷ [];
}

abbrev result : ParseResult ℕ
result = record { ret = 0; pair = parsed_pair; mmem = 5 }

stale_parse : parse_message three_bytes plenty stale 0 (message ++ 1 ∷ 115 ∷ []) ≡ some result
unfolding parse_message parse_destination parse_triggers parse_source with_url c_string
    cp_decode_u16_array cp_decode_s8_array decode_array decode_loop
stale_parse = refl

parse_message-IsParsed_example : (result.ret ≤ 5) × (result.ret ≡ 0 → IsParsed stale parsed_pair)
parse_message-IsParsed_example =
    parse_message-IsParsed three_bytes plenty stale 0 (message ++ 1 ∷ 115 ∷ []) result stale_parse

abbrev ready : Pairing ℕ ℕ
ready = record {
  assembly = record { buffer = message ++ replicate 284 0; bufsize = 16 };
  pool = 20;
  mmem = 0;
  device = with_value 0;
  stored = [];
  posted = [];
}

abbrev whole : List ℕ
whole = message ++ (1 ∷ 115 ∷ replicate 282 0)
