-- ===== src/Bits.antt =====
-- `x & 0xff` as a remainder, for numbers of any size. The native `bit_and` is specified digit by
-- digit; one step of that recursion is enough to peel off the eight bits of the mask.
use Prim.Native.Nat.{ℕ, zero, suc, ◌+◌, ◌*◌, ◌/◌, ◌%◌, ◌≤◌, min, bit_and, digits, bit_and-bitwise}
use mathlib.Core.Path.{◌≡◌, refl}
use native.Mathlib.Omega.{arith}

abbrev and_with : ℕ → ℕ → ℕ → ℕ
and_with fuel x y = digits (λ b. zero) min fuel x y

-- Any fuel that covers the first number gives the same digits.
and_with_enough : (k x y : ℕ) → x ≤ k → and_with k x y ≡ and_with x x y
and_with_enough k x y h = go k x x y h (omega arith)
  where
    go : (k l x y : ℕ) → x ≤ k → x ≤ l → and_with k x y ≡ and_with l x y
    go zero zero zero y p q = refl
    go (suc k) zero zero y p q = refl
    go zero (suc l) zero y p q = refl
    go (suc k) (suc l) zero y p q = refl
    go zero l (suc x) y p q = absurd (omega arith)
    go (suc k) zero (suc x) y p q = absurd (omega arith)
    go (suc k) (suc l) (suc x) y p q =
        omega (arith, go k l (suc x / 2) (y / 2) (omega arith) (omega arith))

pub bit_and_halves : (x y : ℕ) → bit_and x y ≡ min (x % 2) (y % 2) + 2 * bit_and (x / 2) (y / 2)
bit_and_halves zero y = omega (arith, bit_and-bitwise 0 y, bit_and-bitwise 0 (y / 2))
bit_and_halves (suc x) y = omega (
  arith,
  bit_and-bitwise (suc x) y,
  bit_and-bitwise (suc x / 2) (y / 2),
  and_with_enough x (suc x / 2) (y / 2) (omega arith),
)

bit_and_none : (k x : ℕ) → x ≤ k → bit_and x 0 ≡ 0
bit_and_none k zero h = refl
bit_and_none zero (suc x) h = absurd (omega arith)
bit_and_none (suc k) (suc x) h =
    omega (arith, bit_and_halves (suc x) 0, bit_and_none k (suc x / 2) (omega arith))

pub mask_1 : (x : ℕ) → bit_and x 1 ≡ x % 2
mask_1 x = omega (arith, bit_and_halves x 1, bit_and_none x (x / 2) (omega arith))

mask_3 : (x : ℕ) → bit_and x 3 ≡ x % 4
mask_3 x = omega (arith, bit_and_halves x 3, mask_1 (x / 2))

mask_15 : (x : ℕ) → bit_and x 15 ≡ x % 16
mask_15 x = omega (arith, bit_and_halves x 15, bit_and_halves (x / 2) 7, mask_3 (x / 2 / 2))

mask_63 : (x : ℕ) → bit_and x 63 ≡ x % 64
mask_63 x = omega (arith, bit_and_halves x 63, bit_and_halves (x / 2) 31, mask_15 (x / 2 / 2))

-- The low byte.
pub bit_and-0xff : (x : ℕ) → bit_and x 0xff ≡ x % 256
bit_and-0xff x =
    omega (arith, bit_and_halves x 255, bit_and_halves (x / 2) 127, mask_63 (x / 2 / 2))

pub bit_and-0x03 : (x : ℕ) → bit_and x 0x03 ≡ x % 4
bit_and-0x03 = mask_3

-- A byte without its low two bits.
pub bit_and-0xfc : (x : ℕ) → bit_and x 0xfc ≡ 4 * (x / 4 % 64)
bit_and-0xfc x =
    omega (arith, bit_and_halves x 252, bit_and_halves (x / 2) 126, mask_63 (x / 2 / 2))
