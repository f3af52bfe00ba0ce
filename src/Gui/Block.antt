-- ===== src/Gui/Block.antt =====
-- The block options of wsn.cpp: number, more-flag and size of a block in one to three bytes.
pub mod Laws
use contiki_device_link.Common.{
  ℕ, zero, suc, ◌+◌, ◌*◌, ◌/◌, ◌%◌, ◌^◌, Bool, true, false, List, [], ◌∷◌, ◌++◌, Option, none, some,
  if◌then◌else◌, ltb, bit_or, take, length,
}
use contiki_device_link.Common.Bits.{has_bit}

-- `uint8_t more` as a number
abbrev pub more_flag : Bool → ℕ
more_flag true = 1
more_flag false = 0

abbrev block_len : ℕ → ℕ
block_len num = if ltb num 16 then 1 else (if ltb num 4096 then 2 else 3)

-- the bytes of a `uint32_t` in memory, the lowest first
abbrev pub memory_bytes : ℕ → List ℕ
memory_bytes n = (n % 256) ∷ (n / 256 % 256) ∷ (n / 65536 % 256) ∷ (n / 16777216 % 256) ∷ []

-- `calc_block_option`: the bytes, `len` of them. `msgsize >> 5` is stored in 16 bits.
unfoldable pub calc_block_option : Bool → ℕ → ℕ → List ℕ
calc_block_option more num msgsize =
    let szx = msgsize / 32 % 65536 in
    take (block_len num) (memory_bytes (bit_or (num * 16 % 2 ^ 32) (szx + more_flag more * 8)))

-- What `parseBlockOption` stores.
pub record BlockOption : Type 0 where
  pub more : Bool
  pub num : ℕ
  pub szx : ℕ

-- `*num |= value << (j * 8 + 4)` for the bytes from number `j` on. The bits do not overlap, and the
-- ones above 2 ^ 32 are lost.
unfoldable pub more_bytes : List ℕ → ℕ → ℕ → ℕ
more_bytes [] j num = num
more_bytes (v ∷ vs) j num = more_bytes vs (j + 1) ((num + v * 2 ^ (j * 8 + 4)) % 2 ^ 32)

-- `parseBlockOption`: `none` for an option with no byte
unfoldable pub parse_block_option : List ℕ → Option BlockOption
parse_block_option [] = none
parse_block_option (v ∷ vs) =
    some (record { more = has_bit v 8; num = more_bytes vs 1 (v / 16); szx = v % 4 })

-- `1 << (szx + 4)`
abbrev pub size_of : ℕ → ℕ
size_of szx = 2 ^ (szx + 4)

abbrev cleared_bytes : List ℕ → List ℕ
cleared_bytes [] = []
cleared_bytes (w ∷ ws) = 0 ∷ cleared_bytes ws

-- The option with which the next block of an answer is asked for: the bytes are changed where they lie.
-- The loop clears the later bytes, and adds to the first one only bits that a byte does not have.
unfoldable pub next_block_option : List ℕ → ℕ → List ℕ
next_block_option [] num = []
next_block_option (v ∷ vs) num = bit_or (v % 8) (num * 16 % 256) ∷ cleared_bytes vs
