-- ===== src/Device/Tests/Fixtures.antt =====
-- A pin, a byte of LEDs, a reader and writer of values, and a sensor, for the runs.
use contiki_device_link.Common.{
  Bool, List, Option, [], ap, arith, bit_and, bit_or, bit_xor, false, if◌then◌else◌, leb, length,
  ltb, none, refl, some, suc, take, true, zero, ℕ, ◌%◌, ◌&&◌, ◌*◌, ◌++◌, ◌+◌, ◌-◌, ◌/◌, ◌<◌, ◌==◌,
  ◌∷◌, ◌≡◌,
}
use contiki_device_link.Common.Bits.{tabled, tabled_at_both}
use contiki_device_link.Common.Int.{ℤ, pos}
use contiki_device_link.Contiki.{Memb, Lists}
use contiki_device_link.Cmp.{CmpObject, Codec, Read, ReadsObjects, StoresU8, uint8_object}
use contiki_device_link.Sensor.{Sensor, ResourceConf, relay}
use contiki_device_link.Device.{Device, Gpio, Leds}

pub record Pin : Type 0 where
  pub out : Bool
  pub level : ℕ

abbrev pub pin : Gpio
pin = record {
  State = Pin;
  software_control = λ s. s;
  set_output = λ s. record s { out = true };
  set_input = λ s. record s { out = false };
  override_oe = λ s. s;
  set_pin = λ s. record s { level = 4 };
  clr_pin = λ s. record s { level = 0 };
  read_pin = λ s. s.level;
  IsOutput = λ s. s.out ≡ true;
  set_output-IsOutput = λ s. refl;
  override_oe-IsOutput = λ s h. h;
  set_pin-IsOutput = λ s h. h;
  clr_pin-IsOutput = λ s h. h;
  read-set_pin = λ s h. omega arith;
  read-clr_pin = λ s h. refl;
}

abbrev led_laws : ℕ → ℕ → Bool
led_laws m s =
    (bit_and (bit_or s m % 256) m == m)
    && ((bit_and ((s - bit_and s m) % 256) m == 0)
        && (bit_and (bit_xor s m % 256) m == m - bit_and s m))

led_table : tabled (λ m. tabled (led_laws m) 256) 256 ≡ true
unfolding tabled
led_table = refl

pub lawful : (m s : ℕ) → m < 256 → led_laws m (s % 256) ≡ true
lawful m s h = tabled_at_both led_laws 256 256 m (s % 256) h (omega arith) led_table

abbrev pub byte_of_leds : Leds
byte_of_leds = record {
  State = ℕ;
  leds_on = λ m s. bit_or (s % 256) m;
  leds_off = λ m s. s % 256 - bit_and (s % 256) m;
  leds_toggle = λ m s. bit_xor (s % 256) m;
  leds_get = λ s. s % 256;
  get-on = λ m s h. ground (arith, lawful m s h);
  get-off = λ m s h. ground (arith, lawful m s h);
  get-toggle = λ m s h. ground (arith, lawful m s h);
}

-- An object as three bytes: its type and a 16-bit word.
abbrev pub read_three : List ℕ → Read CmpObject
read_three [] = record { value = none; used = 0 }
read_three (t ∷ []) = record { value = none; used = 0 }
read_three (t ∷ lo ∷ []) = record { value = none; used = 0 }
read_three (t ∷ lo ∷ hi ∷ rest) = record {
  value = some (record { type = t; word = lo + 256 * hi });
  used = 3;
}

abbrev pub write_three : CmpObject → List ℕ
write_three o = o.type ∷ o.word % 256 ∷ o.word / 256 ∷ []

abbrev pub first_byte : List ℕ → Read ℕ
first_byte [] = record { value = none; used = 0 }
first_byte (b ∷ rest) = record { value = some b; used = 1 }

abbrev pub signed : Read ℕ → Read ℤ
signed r = record {
  value = (elim (r.value) [ none ↦ none | some b ↦ some (pos b) ]);
  used = r.used;
}

abbrev pub read_counted : ℕ → List ℕ → Read (List ℕ)
read_counted room [] = record { value = none; used = 0 }
read_counted room (n ∷ bytes) =
    if ltb n room && leb n (length bytes)
    then record { value = some (take n bytes); used = n + 1 }
    else record { value = none; used = 1 }

-- A string or an array is written with its length before it.
abbrev pub three_bytes : Codec
three_bytes = record {
  read_object = read_three;
  write_object = write_three;
  read_uchar = first_byte;
  write_u8 = λ v. v ∷ [];
  read_u8 = first_byte;
  read_s8 = λ bytes. signed (first_byte bytes);
  read_u16 = first_byte;
  write_u16 = λ v. v ∷ [];
  read_u32 = first_byte;
  write_u32 = λ v. v ∷ [];
  read_s32 = λ bytes. signed (first_byte bytes);
  write_s32 = λ v. 0 ∷ [];
  read_array = first_byte;
  write_array = λ v. v ∷ [];
  read_str = read_counted;
  write_str = λ s. length s ∷ s;
  size_left = λ size bytes. size;
  read_bin = λ room. read_counted (room + 1);
  write_bin = λ s. length s ∷ s;
  IsStorable = λ o. o.word < 65536;
}

pub three_bytes-ReadsObjects : ReadsObjects three_bytes
three_bytes-ReadsObjects o rest h =
    ap (λ w. record { value = some (record { type = o.type; word = w }); used = 3 })
      {x = o.word % 256 + 256 * (o.word / 256)} (omega arith)

pub three_bytes-StoresU8 : StoresU8 three_bytes
three_bytes-StoresU8 v h = omega arith

abbrev pub word : ℕ → CmpObject
word v = uint8_object v

-- Above at 10, below at 1, change at every 2nd step, all events on.
abbrev pub setup : ResourceConf
setup = record {
  id = 0;
  resolution = 1;
  version = 1;
  flags = 0;
  max_pollinterval = pos 2;
  events_active = 14;
  above_event_at = word 10;
  below_event_at = word 1;
  change_event = word 2;
  range_min = word 0;
  range_max = word 20;
  unit = [];
  spec = [];
  type = [];
  group = [];
  attr = [];
}

abbrev pub with_value : ℕ → Sensor
with_value v = record {
  type = 115 ∷ [];
  driver = relay;
  event_flag = 0;
  above_eventhandler = none;
  below_eventhandler = none;
  change_eventhandler = none;
  config = setup;
  runtime = record {
    enabled = 1;
    has_event = 1;
    last_event_value = word 0;
    last_value = word v;
    change_event_acc = word 0;
  };
  mask = 6;
  resource = none;
  pairs = [];
}

abbrev pub device : {S : Type 0} → S → ℕ → Device S
device hardware v = record { hardware = hardware; sensor = with_value v; polls = 0 }

-- A pool that counts its free blocks.
abbrev pub take_block : ℕ → Option ℕ
take_block zero = none
take_block (suc n) = some n

pub take_empty : (s : ℕ) → s ≡ 0 → take_block s ≡ none
take_empty zero h = refl
take_empty (suc n) h = absurd (omega arith)

pub take_some : (s : ℕ) → 0 < s → (t : ℕ) × (take_block s ≡ some t) × (t + 1 ≡ s)
take_some zero h = absurd (omega arith)
take_some (suc n) h = (n, refl, omega arith)

abbrev pub blocks : Memb
blocks = record {
  State = ℕ;
  memb_init = λ n. n;
  memb_alloc = take_block;
  memb_free = λ s. s + 1;
  free_blocks = λ s. s;
  free-init = λ n. refl;
  free-free = λ s. refl;
  alloc_empty = take_empty;
  alloc_block = take_some;
}

abbrev pub appending : {A : Type 0} → Lists A
appending = record { list_add = λ xs x. xs ++ x ∷ []; add_end = λ xs x. refl }
