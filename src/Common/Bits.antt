-- ===== src/Common/Bits.antt =====
-- Bit masks of the event flags: tests by `&`, and the tables that carry their laws over a byte.
use Prim.Native.Nat.{ℕ, zero, suc, ◌<◌, bit_and, bit_or}
use mathlib.Core.Path.{◌≡◌, refl}
use mathlib.Core.Bool.{Bool, true, false, ◌&&◌, ◌||◌, not}
use native.Mathlib.Omega.{arith}
use contiki_device_link.Common.Tests.{ltb, ltb→lt, ◌==◌}

-- `x & m` as a condition
abbrev pub has_bit : ℕ → ℕ → Bool
has_bit x m = not (bit_and x m == 0)

abbrev pub same : Bool → Bool → Bool
same true b = b
same false b = not b

pub eq_of_same : (a b : Bool) → same a b ≡ true → a ≡ b
eq_of_same true b h = ground arith
eq_of_same false b h = ground arith

-- A law of bytes is checked for each of its finitely many arguments: `tabled law k` evaluates it at
-- the arguments that are smaller than `k`.
unfoldable pub tabled : (ℕ → Bool) → ℕ → Bool
tabled law zero = true
tabled law (suc k) = tabled law k && law k

-- The evaluation decides the law for each of them.
pub tabled_at : (law : ℕ → Bool) (k arg : ℕ) → arg < k → tabled law k ≡ true → law arg ≡ true
unfolding tabled
tabled_at law zero arg in_table table = absurd (omega arith)
tabled_at law (suc k) arg in_table table = ground (arith, tabled_at law k arg)

pub tabled_at_both :
    (law : ℕ → ℕ → Bool) (j k arg other : ℕ)
    → arg < j
    → other < k
    → tabled (λ a. tabled (law a) k) j ≡ true
    → law arg other ≡ true
tabled_at_both law j k arg other left right table =
    tabled_at (law arg) k other right (tabled_at (λ a. tabled (law a) k) j arg left table)

abbrev or_has : ℕ → ℕ → ℕ → Bool
or_has m x e = same (has_bit (bit_or x e) m) (has_bit x m || has_bit e m)

or_table :
    (tabled (λ x. tabled (or_has 2 x) 16) 256 ≡ true)
    × (tabled (λ x. tabled (or_has 4 x) 16) 256 ≡ true)
    × (tabled (λ x. tabled (or_has 8 x) 16) 256 ≡ true)
unfolding tabled
or_table = (refl, refl, refl)

-- `|=` of an event adds exactly its bits.
pub has_bit-bit_or :
    (x e : ℕ)
    → x < 256
    → e < 16
    → (has_bit (bit_or x e) 2 ≡ (has_bit x 2 || has_bit e 2))
      × (has_bit (bit_or x e) 4 ≡ (has_bit x 4 || has_bit e 4))
      × (has_bit (bit_or x e) 8 ≡ (has_bit x 8 || has_bit e 8))
has_bit-bit_or x e hx he = (
  eq_of_same _ _ (tabled_at_both (or_has 2) 256 16 x e hx he or_table.0),
  eq_of_same _ _ (tabled_at_both (or_has 4) 256 16 x e hx he or_table.1),
  eq_of_same _ _ (tabled_at_both (or_has 8) 256 16 x e hx he or_table.2),
)

abbrev or_below : ℕ → ℕ → Bool
or_below x e = ltb (bit_or x e) 256

or_below_table : tabled (λ x. tabled (or_below x) 16) 256 ≡ true
unfolding tabled
or_below_table = refl

pub bit_or-lt : (x e : ℕ) → x < 256 → e < 16 → bit_or x e < 256
bit_or-lt x e hx he = ltb→lt _ _ (tabled_at_both or_below 256 16 x e hx he or_below_table)
