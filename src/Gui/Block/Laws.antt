-- ===== src/Gui/Block/Laws.antt =====
-- What `parseBlockOption` reads of what `calc_block_option` writes.
use Prim.Native.Nat.{digits, bit_or-bitwise}
use contiki_device_link.Common.{
  ℕ, zero, suc, ◌+◌, ◌*◌, ◌/◌, ◌%◌, ◌^◌, ◌≤◌, ◌<◌, max, ◌≡◌, ◌↔◌, refl, Bool, true, List, [], ◌∷◌,
  some, bit_or, arith, ltb, Bool-cases, ltb→lt, inl, inr,
}
use contiki_device_link.Common.Bits.{has_bit, tabled, tabled_at, same, eq_of_same}
use contiki_device_link.Gui.Block.{
  more_flag, calc_block_option, BlockOption, more_bytes, parse_block_option, size_of,
}

abbrev or_digits : ℕ → ℕ → ℕ → ℕ
or_digits n a b = digits (λ b. b) max n a b

or_digits_fuel : (n m a b : ℕ) → a ≤ n → a ≤ m → or_digits n a b ≡ or_digits m a b
or_digits_fuel zero zero a b p q = refl
or_digits_fuel zero (suc m) zero b p q = refl
or_digits_fuel zero (suc m) (suc a) b p q = absurd (omega arith)
or_digits_fuel (suc n) zero zero b p q = refl
or_digits_fuel (suc n) zero (suc a) b p q = absurd (omega arith)
or_digits_fuel (suc n) (suc m) zero b p q = refl
or_digits_fuel (suc n) (suc m) (suc a) b p q =
    omega (arith, or_digits_fuel n m (suc a / 2) (b / 2) (omega arith) (omega arith))

zero-bit_or : (b : ℕ) → bit_or 0 b ≡ b
zero-bit_or b = bit_or-bitwise 0 b

bit_or_step : (a b : ℕ) → bit_or a b ≡ bit_or (a / 2) (b / 2) * 2 + max (a % 2) (b % 2)
bit_or_step zero b = omega (arith, zero-bit_or b, zero-bit_or (b / 2))
bit_or_step (suc a) b = omega (
  arith,
  bit_or-bitwise (suc a) b,
  bit_or-bitwise (suc a / 2) (b / 2),
  or_digits_fuel a (suc a / 2) (suc a / 2) (b / 2) (omega arith) (omega arith),
)

bit_or-zero_fuel : (n a : ℕ) → a ≤ n → bit_or a 0 ≡ a
bit_or-zero_fuel n zero h = refl
bit_or-zero_fuel zero (suc a) h = absurd (omega arith)
bit_or-zero_fuel (suc n) (suc a) h =
    omega (arith, bit_or_step (suc a) 0, bit_or-zero_fuel n (suc a / 2) (omega arith))

even_step : (m n r : ℕ) → m ≡ n * 2 → bit_or m r ≡ bit_or n (r / 2) * 2 + r % 2
even_step m n r e =
    let half : m / 2 ≡ n = omega (arith, e) in
    let s : bit_or m r ≡ bit_or (m / 2) (r / 2) * 2 + max (m % 2) (r % 2) = bit_or_step m r in
    let t : bit_or m r ≡ bit_or n (r / 2) * 2 + max (m % 2) (r % 2) = rw half at s in
    omega (arith, t, e)

-- Four bits below a number that has none of them are added.
pub bit_or-nibble : (n r : ℕ) → r < 16 → bit_or (n * 16) r ≡ n * 16 + r
bit_or-nibble n r small = omega (
  arith,
  even_step (n * 16) (n * 8) r (omega arith),
  even_step (n * 8) (n * 4) (r / 2) (omega arith),
  even_step (n * 4) (n * 2) (r / 2 / 2) (omega arith),
  even_step (n * 2) n (r / 2 / 2 / 2) (omega arith),
  gone,
)
  where
    gone : bit_or n (r / 2 / 2 / 2 / 2) ≡ n
    gone =
        let none_left : r / 2 / 2 / 2 / 2 ≡ 0 = omega arith in
        rw none_left (bit_or-zero_fuel n n (omega arith))

-- the number of a block, as it is read
abbrev pub read_number : ℕ → ℕ
read_number num = num % 16 + num / 16 % 256 * 4096 + num / 4096 * 1048576

has_more_table : tabled (λ v. same (has_bit v 8) (ltb 7 (v % 16))) 256 ≡ true
unfolding tabled
has_more_table = refl

-- the flag in the first byte
pub has_more : (v : ℕ) → v < 256 → has_bit v 8 ≡ ltb 7 (v % 16)
has_more v byte =
    eq_of_same _ _ (tabled_at (λ v. same (has_bit v 8) (ltb 7 (v % 16))) 256 v byte has_more_table)

size_bits : (s : ℕ) → s < 3 → size_of s / 32 % 65536 ≡ s
size_bits zero small = refl
size_bits (suc zero) small = refl
size_bits (suc (suc zero)) small = refl
size_bits (suc (suc (suc s))) small = absurd (omega arith)

-- the number in one, two and three bytes
one_byte : (num r : ℕ) → r < 16 → num < 16 → (num * 16 + r) % 256 / 16 ≡ read_number num
one_byte num r low h = omega (arith, low, h)

two_bytes :
    (num r : ℕ)
    → r < 16
    → num < 4096
    → ((num * 16 + r) % 256 / 16 + (num * 16 + r) / 256 % 256 * 4096) % 4294967296 ≡ read_number num
two_bytes num r low h = omega (arith, low, h)

three_bytes :
    (num r : ℕ)
    → r < 16
    → num < 1048576
    → (((num * 16 + r) % 256 / 16 + (num * 16 + r) / 256 % 256 * 4096) % 4294967296
          + (num * 16 + r) / 65536 % 256 * 1048576)
        % 4294967296
      ≡ read_number num
three_bytes num r low h = omega (arith, low, h)

module _ (more : Bool) (num s : ℕ) (small : s < 3) where
  -- the bits of the option below the number
  abbrev bits : ℕ
  bits = s + more_flag more * 8

  bits_small : bits < 16
  bits_small = ground (arith, small)

  -- the first byte
  read_first : (v : ℕ) → v < 256 → v % 16 ≡ bits → (has_bit v 8 ≡ more) × (v % 4 ≡ s)
  read_first v byte e = rw (has_more v byte) (ground (arith, e, small))

  parsed :
      (v : ℕ) (vs : List ℕ) (n : ℕ)
      → v < 256
      → v % 16 ≡ bits
      → more_bytes vs 1 (v / 16) ≡ n
      → parse_block_option (v ∷ vs) ≡ some (record { more = more; num = n; szx = s })
  unfolding parse_block_option
  parsed v vs n byte low number =
      let (flagged, sized) = read_first v byte low in rw flagged (rw sized (rw number))

  parse-calc :
      num < 1048576
      → parse_block_option (calc_block_option more num (size_of s))
        ≡ some (record { more = more; num = read_number num; szx = s })
  unfolding calc_block_option more_bytes
  parse-calc h =
      let whole : num * 16 % 2 ^ 32 ≡ num * 16 = omega (arith, h) in
      rw (size_bits s small) (
        rw whole (
          rw (bit_or-nibble num bits bits_small) (elim (Bool-cases (ltb num 16)) [
            | inl one ↦ rw one (
                parsed _ _ _ (omega arith) (omega (arith, bits_small))
                  (one_byte num bits bits_small (ltb→lt num 16 one)))
            | inr further ↦ elim (Bool-cases (ltb num 4096)) [
              | inl two ↦ rw further (
                  rw two (
                    parsed _ _ _ (omega arith) (omega (arith, bits_small))
                      (two_bytes num bits bits_small (ltb→lt num 4096 two))))
              | inr three ↦ rw further (
                  rw three (
                    parsed _ _ _ (omega arith) (omega (arith, bits_small))
                      (three_bytes num bits bits_small h)))
            ]
          ])))

-- a block of 32 bytes with a number below 16
pub calc_one_byte :
    (more : Bool) (num : ℕ)
    → num < 16
    → calc_block_option more num 32 ≡ (num * 16 + (1 + more_flag more * 8)) ∷ []
unfolding calc_block_option
calc_one_byte more num h =
    let whole : num * 16 % 2 ^ 32 ≡ num * 16 = omega (arith, h) in
    let one : ltb num 16 ≡ true = ground (arith, h) in
    let low : 1 + more_flag more * 8 < 16 = ground arith in
    let byte : (num * 16 + (1 + more_flag more * 8)) % 256 ≡ num * 16 + (1 + more_flag more * 8) =
      ground (arith, h) in
    rw whole (rw (bit_or-nibble num (1 + more_flag more * 8) low) (rw one (rw byte refl)))

-- The number that is read is the one that was written exactly for the numbers of one byte.
read_number_iff : (num : ℕ) → num < 1048576 → (read_number num ≡ num) ↔ (num < 16)
read_number_iff num h = ((λ e. omega (arith, e, h)), (λ small. omega (arith, small)))

-- The option that calc_block_option writes for a block of 16, 32 or 64 bytes, with a number of 20 bits, is read with
-- its flag and its size; its number is read as it was written exactly if it is below 16.
pub parse_block_option-calc_block_option :
    (more : Bool) (num size : ℕ)
    → (s : ℕ) × (s < 3) × (size ≡ size_of s)
    → num < 1048576
    → (o : BlockOption) × (parse_block_option (calc_block_option more num size) ≡ some o)
      × (o.more ≡ more)
      × (size_of o.szx ≡ size)
      × ((o.num ≡ num) ↔ (num < 16))
parse_block_option-calc_block_option more num size (s, small, sized) h = (
  record { more = more; num = read_number num; szx = s },
  rw sized (parse-calc more num s small h),
  refl,
  rw sized,
  read_number_iff num h,
)
