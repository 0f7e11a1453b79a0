-- ===== src/Archive/Rebuild/Bits.antt =====
-- The operators on the bits of an int64 that is not negative, as Go has them, and what they do to a word
-- of two fields.
use den_kit_stash.Base.{ℕ, zero, suc, ◌+◌, ◌-◌, ◌*◌, ◌/◌, ◌%◌, ◌≡◌, refl, ◌<◌, arith}
use Prim.Native.Nat.{min, max}

-- `a | b` and `a & b`, bit by bit, in so many bits.
abbrev pub or_bits : ℕ → ℕ → ℕ → ℕ
or_bits zero a b = 0
or_bits (suc n) a b = max (a % 2) (b % 2) + 2 * or_bits n (a / 2) (b / 2)

abbrev pub and_bits : ℕ → ℕ → ℕ → ℕ
and_bits zero a b = 0
and_bits (suc n) a b = min (a % 2) (b % 2) + 2 * and_bits n (a / 2) (b / 2)

-- `a << k`, one place after the other, without its wrap-around.
abbrev pub shift : ℕ → ℕ → ℕ
shift zero a = a
shift (suc k) a = 2 * shift k a

or_bits-zero : (n a : ℕ) → a < shift n 1 → or_bits n a 0 ≡ a
or_bits-zero zero a h = omega arith
or_bits-zero (suc n) a h = ground (arith, or_bits-zero n (a / 2) (omega arith))

and_bits-zero : (n a : ℕ) → and_bits n a 0 ≡ 0
and_bits-zero zero a = refl
and_bits-zero (suc n) a = ground (arith, and_bits-zero n (a / 2))

-- Fields that do not overlap are put side by side.
pub or_bits-fields :
    (n k q r : ℕ)
    → r < shift k 1
    → shift k q + r < shift n 1
    → or_bits n (shift k q) r ≡ shift k q + r
or_bits-fields zero k q r fits small = omega arith
or_bits-fields (suc n) zero q r fits small =
    let none_left : r ≡ 0 = omega arith in
    ground (arith, none_left, or_bits-zero n (q / 2) (omega arith))
or_bits-fields (suc n) (suc k) q r fits small =
    ground (arith, or_bits-fields n k q (r / 2) (omega arith) (omega arith))

-- A mask of the low bits cuts off the upper field.
pub and_bits-mask :
    (n k q r : ℕ)
    → r < shift k 1
    → shift k q + r < shift n 1
    → and_bits n (shift k q + r) (shift k 1 - 1) ≡ r
and_bits-mask zero k q r fits small = omega arith
and_bits-mask (suc n) zero q r fits small = ground (arith, and_bits-zero n ((q + r) / 2))
and_bits-mask (suc n) (suc k) q r fits small =
    ground (arith, and_bits-mask n k q (r / 2) (omega arith) (omega arith))
