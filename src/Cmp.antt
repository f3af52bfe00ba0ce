-- ===== src/Cmp.antt =====
-- sensorsUnleashed/lib/cmp.h: the value type of the MessagePack library, as the firmware uses it, and
-- the library's own functions as an interface. The library (cmp.c) is a copy of another project's
-- code; its readers and writers are the fields of `Codec`.
use contiki_device_link.Common.{
  ℕ, ◌+◌, ◌-◌, ◌*◌, ◌%◌, ◌<◌, ◌≡◌, List, ◌++◌, Option, some, length, ap, ◌∙◌, ◌/◌, arith,
}
use native.Mathlib.Nat.{mod-eq_of_lt, mod-mod, mul-add-mod_self_right, div-add-mod'}
use contiki_device_link.Common.Int.{ℤ}

-- `cmp_object_t`. `word` is the content of the union `as`, little-endian.
pub record CmpObject : Type 0 where
  pub type : ℕ
  pub word : ℕ

abbrev pub type_uint8 : ℕ
type_uint8 = 14

abbrev pub type_uint16 : ℕ
type_uint16 = 15

-- Reading and writing the member of the union that has the values below `m`: `as.u8` with 2 ^ 8,
-- `as.u16` with 2 ^ 16. The other bytes of the union stay.
abbrev pub get_as : ℕ → CmpObject → ℕ
get_as m o = o.word % m

abbrev pub put_as : ℕ → CmpObject → ℕ → CmpObject
put_as m o v = record o { word = o.word - o.word % m + v % m }

-- Writing a member of the union and reading it again.
pub get_as-put_as : (m : ℕ) (o : CmpObject) (v : ℕ) → v < m → get_as m (put_as m o v) ≡ v
get_as-put_as m o v h =
    ap (λ t. (t + v % m) % m) {y = o.word / m * m} (omega (arith, div-add-mod' o.word m))
    ∙ (mul-add-mod_self_right (o.word / m) m (v % m) ∙ (mod-mod v m ∙ mod-eq_of_lt h))

abbrev pub uint8_object : ℕ → CmpObject
uint8_object v = record { type = type_uint8; word = v }

abbrev pub uint16_object : ℕ → CmpObject
uint16_object v = record { type = type_uint16; word = v }

-- What a reader gives: the value, or `none` for the library's `false`, and how many bytes it consumed
-- in both cases.
pub record Read (A : Type 0) : Type 0 where
  pub value : Option A
  pub used : ℕ

-- The functions of cmp.h that the firmware calls. A reader is given the bytes from `ctx->buf` on, a
-- writer gives the bytes that it puts there. `read_str` and `read_bin` are given the room at the destination too.
pub record Codec : Type 1 where
  pub read_object : List ℕ → Read CmpObject
  pub write_object : CmpObject → List ℕ
  pub read_uchar : List ℕ → Read ℕ
  pub write_u8 : ℕ → List ℕ
  pub read_u8 : List ℕ → Read ℕ
  pub read_s8 : List ℕ → Read ℤ
  pub read_u16 : List ℕ → Read ℕ
  pub write_u16 : ℕ → List ℕ
  pub read_u32 : List ℕ → Read ℕ
  pub write_u32 : ℕ → List ℕ
  pub read_s32 : List ℕ → Read ℤ
  pub write_s32 : ℤ → List ℕ
  pub read_array : List ℕ → Read ℕ
  pub write_array : ℕ → List ℕ
  pub read_str : ℕ → List ℕ → Read (List ℕ)
  pub write_str : List ℕ → List ℕ
  -- what a `read_str` that fails leaves as the size
  pub size_left : ℕ → List ℕ → ℕ
  pub read_bin : ℕ → List ℕ → Read (List ℕ)
  pub write_bin : List ℕ → List ℕ
  -- the objects that the library writes and reads back as they are
  pub IsStorable : CmpObject → Type 0

-- The round trip of objects that the MessagePack format documents: the reader consumes the bytes that
-- the writer wrote, whatever follows them, and gives the object back.
abbrev pub ReadsObjects : Codec → Type 0
ReadsObjects c =
    (o : CmpObject) (rest : List ℕ)
    → c.IsStorable o
    → c.read_object (c.write_object o ++ rest)
      ≡ record { value = some o; used = length (c.write_object o) }

abbrev pub StoresU8 : Codec → Type 0
StoresU8 c = (v : ℕ) → v < 256 → c.IsStorable (uint8_object v)
