-- ===== src/Coap/Tests.antt =====
-- Runs and instances of the resources.
use contiki_device_link.Common.{
  ℕ, ◌+◌, ◌-◌, ◌≡◌, ◌⊎◌, refl, Bool, true, false, List, [], ◌∷◌, Option, none, some, arith,
  replicate,
}
use contiki_device_link.Common.Int.{ℤ, pos}
use contiki_device_link.Sensor.{JoinPair, Sensor}
use contiki_device_link.Device.{Device}
use contiki_device_link.ReverseNotify.{Cfs, Sources, remove_item}
use contiki_device_link.Pairing.{Assembly}
use contiki_device_link.Pairing.Assemble.{IsAssembled, joined}
use contiki_device_link.Pairing.Flash.{Flash, Name}
use contiki_device_link.Coap.{Request, Board, characters}
use contiki_device_link.Coap.Parts.{send_parts, continues, send_parts-IsAssembled}
use contiki_device_link.Coap.System.{res_sysinfo_puthandler, presence_request, tx_presence_cb}
use contiki_device_link.Coap.System.Presence.{
  IsInterested, IsPicked, all_pairs, presence-IsInterested,
}
use contiki_device_link.Device.Tests.Fixtures.{three_bytes, blocks, appending, with_value, Pin}

truncating : Cfs
truncating = record { overwrite = λ old new. new; over_shorter = λ old new h. refl }

pub always : Flash → Name → Bool
always f n = true

pub plenty : ℕ → ℕ → Option ℕ
plenty used size = some (used + size)

pub blank : JoinPair
blank = record {
  dsturl = [];
  dsturl_above = none;
  dsturl_below = none;
  dsturl_change = none;
  srcurl = [];
  triggers = pos 0 ∷ pos 0 ∷ pos 0 ∷ [];
  destip = replicate 8 0;
}

-- a relay that is off, with the URL "s"
abbrev pub lamp : Device Pin
lamp = record {
  hardware = record { out = true; level = 0 };
  sensor = record (with_value 0) { config = record ((with_value 0).config) { type = 115 ∷ [] } };
  polls = 0;
}

abbrev pub board : Board Pin ℕ ℕ
board = record {
  devices = lamp ∷ [];
  flash = record { files = λ n. none; opened = 0 };
  assembly = record { buffer = replicate 300 7; bufsize = 3 };
  pool = 20;
  mmem = 0;
  posted = [];
}

-- "s?setCommand=0"
abbrev pub switching : Request
switching = record {
  is_octet_stream = true;
  url = 115 ∷ [];
  query = characters "setCommand=0";
  set_command = some (48 ∷ []);
  payload = [];
  block1_num = 0;
  block1_size = 0;
  block1_more = false;
}

-- a `strtol` of one digit
abbrev digit : List ℕ → ℤ
digit [] = pos 0
digit (c ∷ cs) = pos (c - 48)

send_parts-IsAssembled_example :
    (a : Assembly) × (send_parts three_bytes blocks appending plenty
        (λ pool. blank)
        always
        board
        0
        lamp
        switching
        0
        64
        (replicate 64 1 ∷ replicate 64 2 ∷ replicate 64 3 ∷ replicate 8 4 ∷ [])
      ≡ some (
        continues 0 64 (replicate 64 1 ∷ replicate 64 2 ∷ replicate 64 3 ∷ replicate 8 4 ∷ []),
        record board { assembly = a },
      ))
    × IsAssembled a (joined (replicate 64 1 ∷ replicate 64 2 ∷ replicate 64 3 ∷ replicate 8 4 ∷ []))
send_parts-IsAssembled_example =
    send_parts-IsAssembled three_bytes blocks appending plenty (λ pool. blank) always board 0 lamp
      switching 64 (replicate 64 1) (replicate 64 2 ∷ replicate 64 3 ∷ replicate 8 4 ∷ [])
      (ground arith) (omega arith)

abbrev nodes : Sources ℕ
nodes = record { pool = 19; revlookup = (replicate 8 1) ∷ []; file = none; posted = [] }

-- a device with a pair to the node that calls
abbrev interested : Sensor
interested = record (with_value 0) { pairs = blank ∷ [] }

presence-IsInterested_example :
    let (r, e) = res_sysinfo_puthandler (replicate 8 0) (interested ∷ []) presence_request in
    let t =
      tx_presence_cb three_bytes blocks appending truncating (λ l i. []) true nodes 0 (some r) in
    IsPicked (replicate 8 0) (all_pairs (interested ∷ [])) e.posted
    × ((IsInterested (replicate 8 0) (interested ∷ []) × (t ≡ nodes))
        ⊎ ((IsInterested (replicate 8 0) (interested ∷ []) → ⊥)
            × (t ≡ remove_item three_bytes blocks appending truncating (λ l i. []) true nodes 0)))
presence-IsInterested_example =
    presence-IsInterested three_bytes blocks appending truncating (λ l i. []) (replicate 8 0)
      (interested ∷ []) true nodes 0
