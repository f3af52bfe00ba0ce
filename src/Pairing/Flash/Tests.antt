-- ===== src/Pairing/Flash/Tests.antt =====
-- Runs and instances of the pairs file with messages of one pair.
use contiki_device_link.Common.{
  ℕ, suc, ◌+◌, ◌<◌, ◌≡◌, refl, Bool, true, List, [], ◌∷◌, ◌++◌, Option, none, some, arith,
  replicate, leb, ltb, length, take, length-append, ap, ◌∙◌, if◌then◌else◌,
}
use contiki_device_link.Common.Int.{pos}
use contiki_device_link.Cmp.{Codec, Read}
use contiki_device_link.Sensor.{JoinPair}
use contiki_device_link.ReverseNotify.{Cfs}
use contiki_device_link.Pairing.{
  Pairing, parse_message, buffersize, parse_destination, parse_triggers, parse_source, with_url,
  c_string, cp_decode_u16_array, cp_decode_s8_array, decode_array, decode_loop,
}
use contiki_device_link.Pairing.Flash.{Name, Flash, pairs_, equal_name}
use contiki_device_link.Pairing.Flash.Restore.{restore_sensor_pairs}
use contiki_device_link.Pairing.Flash.Scan.{ReadsBins, written}
use contiki_device_link.Pairing.Flash.Refines.{
  ReadsIndexes, Command, store, remove, Node, perform_all, obey_all, IsNode, perform_all-IsNode,
}
use contiki_device_link.Pairing.Flash.Restored.{IsRestored, restore_sensor_pairs-IsRestored}
use contiki_device_link.Pairing.Flash.Parts.{fetch, fetch-pairing_getlist}
use contiki_device_link.Device.Tests.Fixtures.{
  three_bytes, blocks, appending, with_value, read_counted,
}

truncating : Cfs
truncating = record { overwrite = λ old new. new; over_shorter = λ old new h. refl }

take_whole : (v rest : List ℕ) → take (length v) (v ++ rest) ≡ v
take_whole [] rest = refl
take_whole (x ∷ v) rest = ap (λ t. x ∷ t) (take_whole v rest)

counted :
    (room : ℕ) (v rest : List ℕ)
    → length v < room
    → read_counted room (length v ∷ v ++ rest) ≡ record { value = some v; used = length v + 1 }
counted room v rest h =
    let fits : ltb (length v) room ≡ true = ground (arith, h) in
    let there : leb (length v) (length (v ++ rest)) ≡ true = ground (arith, length-append v rest) in
    rw (fits, there, take_whole v rest) refl

three_bytes-ReadsBins : ReadsBins three_bytes
three_bytes-ReadsBins = record {
  reads = λ room v rest h.
      counted (room + 1) v rest (omega (arith, h))
      ∙ ap (λ n. record { value = some v; used = n }) {x = length v + 1} {y = suc (length v)}
          (omega arith);
  marked = λ v. omega arith;
  ends = λ room. refl;
}

-- a string is read without a look at how many bytes there are
abbrev read_there : List ℕ → Read (List ℕ)
read_there [] = record { value = none; used = 0 }
read_there (n ∷ bytes) = record { value = some (take n bytes); used = n + 1 }

abbrev unchecked : Codec
unchecked = record three_bytes { read_str = λ room. read_there }

unchecked-ReadsBins : ReadsBins unchecked
unchecked-ReadsBins = record {
  reads = three_bytes-ReadsBins.reads;
  marked = three_bytes-ReadsBins.marked;
  ends = three_bytes-ReadsBins.ends;
}

three_bytes-ReadsIndexes : ReadsIndexes three_bytes
three_bytes-ReadsIndexes = record { reads_count = λ n rest h. refl; reads_index = λ i rest h. refl }

abbrev always : Flash → Name → Bool
always f n = true

-- three messages in the file of the device "s"
abbrev three_messages : List (List ℕ)
three_messages = (7 ∷ []) ∷ (8 ∷ 8 ∷ []) ∷ (9 ∷ []) ∷ []

abbrev holding : List ℕ → Flash
holding bytes = record {
  files = λ n. if equal_name n (pairs_ ++ 115 ∷ []) then some bytes else none;
  opened = 0;
}

abbrev node : Node ℕ
node = record {
  kept = record {
    flash = holding (1 ∷ 7 ∷ 2 ∷ 8 ∷ 8 ∷ 1 ∷ 9 ∷ []);
    assembly = record { buffer = replicate buffersize 0; bufsize = 0 };
  };
  device = with_value 0;
  mmem = 0;
}

node-IsNode : IsNode three_bytes truncating always (λ m u. m) node three_messages
unfolding written equal_name
node-IsNode = record {
  named = omega arith;
  keeps = record { holds = refl; no_temp = refl; fit = ground arith };
}

abbrev commands : List Command
commands = remove (0 ∷ 2 ∷ []) ∷ store (5 ∷ []) ∷ []

perform_all-IsNode_example :
    (t : Node ℕ) × (perform_all three_bytes truncating always (λ m u. m) node commands ≡ some t)
    × IsNode three_bytes truncating always (λ m u. m) t (obey_all three_messages commands)
perform_all-IsNode_example =
    perform_all-IsNode three_bytes truncating always (λ m u. m) three_bytes-ReadsBins
      three_bytes-ReadsIndexes (λ f n. refl) commands node three_messages node-IsNode (ground arith)

fetch-pairing_getlist_example :
    fetch always (holding (1 ∷ 7 ∷ 1 ∷ 9 ∷ [])) (with_value 0) 2 5 0 ≡ some (1 ∷ 7 ∷ 1 ∷ 9 ∷ [])
unfolding equal_name
fetch-pairing_getlist_example =
    fetch-pairing_getlist always (holding (1 ∷ 7 ∷ 1 ∷ 9 ∷ [])) (with_value 0) (1 ∷ 7 ∷ 1 ∷ 9 ∷ [])
      (omega arith) refl refl 2 (omega arith)

-- an array of eight words, the URL "ab", three triggers, the URL "s"
abbrev message : List ℕ
message = 16 ∷ 1 ∷ 2 ∷ 3 ∷ 4 ∷ 5 ∷ 6 ∷ 7 ∷ 8 ∷ 2 ∷ 97 ∷ 98 ∷ 3 ∷ 0 ∷ 1 ∷ 2 ∷ 1 ∷ 115 ∷ []

-- memory that never runs out
abbrev plenty : ℕ → ℕ → Option ℕ
plenty used size = some (used + size)

abbrev blank : JoinPair
blank = record {
  dsturl = [];
  dsturl_above = none;
  dsturl_below = none;
  dsturl_change = none;
  srcurl = [];
  triggers = pos 0 ∷ pos 0 ∷ pos 0 ∷ [];
  destip = replicate 8 0;
}

abbrev parsed_pair : JoinPair
parsed_pair = record {
  dsturl = 97 ∷ 98 ∷ [];
  dsturl_above = some (97 ∷ 98 ∷ 47 ∷ 97 ∷ 98 ∷ 111 ∷ 118 ∷ 101 ∷ []);
  dsturl_below = some (97 ∷ 98 ∷ 47 ∷ 98 ∷ 101 ∷ 108 ∷ 111 ∷ 119 ∷ []);
  dsturl_change = some (97 ∷ 98 ∷ 47 ∷ 99 ∷ 104 ∷ 97 ∷ 110 ∷ 103 ∷ 101 ∷ []);
  srcurl = 115 ∷ [];
  triggers = pos 0 ∷ pos 1 ∷ pos 2 ∷ [];
  destip = 1 ∷ 2 ∷ 3 ∷ 4 ∷ 5 ∷ 6 ∷ 7 ∷ 8 ∷ [];
}

-- a memory of 16 bytes
abbrev sixteen : ℕ → ℕ → Option ℕ
sixteen used size = if leb (used + size) 16 then some (used + size) else none

message_parse :
    (rest : List ℕ)
    → parse_message unchecked sixteen blank 0 (message ++ rest)
      ≡ some (record { ret = 0; pair = parsed_pair; mmem = 5 })
unfolding parse_message parse_destination parse_triggers parse_source with_url c_string
    cp_decode_u16_array cp_decode_s8_array decode_array decode_loop
message_parse rest = refl

abbrev starting : Pairing ℕ ℕ
starting = record {
  assembly = record { buffer = replicate buffersize 0; bufsize = 0 };
  pool = 20;
  mmem = 0;
  device = with_value 0;
  stored = [];
  posted = [];
}

abbrev at_start : Flash
at_start = holding (18 ∷ message)

restore_sensor_pairs-IsRestored_example :
    (t : Pairing ℕ ℕ) × (restore_sensor_pairs unchecked blocks appending sixteen
        (λ pool. blank)
        always
        at_start
        starting
      ≡ some t)
    × (0 < 1 → t.assembly.bufsize ≡ 0)
    × IsRestored unchecked blocks appending sixteen blank starting (parsed_pair ∷ []) t
unfolding written equal_name
restore_sensor_pairs-IsRestored_example =
    restore_sensor_pairs-IsRestored unchecked blocks appending sixteen blank unchecked-ReadsBins
      always at_start (message ∷ []) (parsed_pair ∷ []) starting (omega arith) refl
      (record { holds = refl; no_temp = refl; fit = ground arith }) (5, message_parse, tt)
      (omega arith)
