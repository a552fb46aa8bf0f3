-- ===== src/Reports/Bits.antt =====
-- The bits of a report, and those in which two reports differ.
use Prim.Native.Nat.{digits, differ, bit_and, bit_xor, bit_xor-bitwise, bit_and-bitwise}
use zerowire.Prelude.{
  ℕ, zero, suc, ◌+◌, ◌*◌, ◌/◌, ◌%◌, ◌^◌, ◌≤◌, ◌<◌, ◌≡◌, refl, ap, ◌∙◌, arith, false, not, ◌==◌,
  if◌then◌else◌,
}
use zerowire.Bits.{bit_and_halves, mask_1}
use zerowire.Reports.{has_bit}

abbrev xor_with : ℕ → ℕ → ℕ → ℕ
xor_with fuel x y = digits (λ b. b) differ fuel x y

differ_lt : (a b : ℕ) → a < 2 → b < 2 → differ a b ≡ (a + b) % 2
differ_lt zero zero h k = refl
differ_lt zero (suc zero) h k = refl
differ_lt (suc zero) zero h k = refl
differ_lt (suc zero) (suc zero) h k = refl
differ_lt (suc (suc a)) b h k = absurd (omega arith)
differ_lt a (suc (suc b)) h k = absurd (omega arith)

-- Any fuel that covers the first number gives the same digits.
xor_with_enough : (k l x y : ℕ) → x ≤ k → x ≤ l → xor_with k x y ≡ xor_with l x y
xor_with_enough zero zero zero y p q = refl
xor_with_enough (suc k) zero zero y p q = refl
xor_with_enough zero (suc l) zero y p q = refl
xor_with_enough (suc k) (suc l) zero y p q = refl
xor_with_enough zero l (suc x) y p q = absurd (omega arith)
xor_with_enough (suc k) zero (suc x) y p q = absurd (omega arith)
xor_with_enough (suc k) (suc l) (suc x) y p q =
    omega (arith, xor_with_enough k l (suc x / 2) (y / 2) (omega arith) (omega arith))

xor-halves : (x y : ℕ) → bit_xor x y ≡ (x % 2 + y % 2) % 2 + 2 * bit_xor (x / 2) (y / 2)
xor-halves zero y = omega (arith, bit_xor-bitwise 0 y, bit_xor-bitwise 0 (y / 2))
xor-halves (suc x) y = omega (
  arith,
  bit_xor-bitwise (suc x) y,
  bit_xor-bitwise (suc x / 2) (y / 2),
  differ_lt (suc x % 2) (y % 2) (omega arith) (omega arith),
  xor_with_enough x (suc x / 2) (suc x / 2) (y / 2) (omega arith) (omega arith),
)

-- `x >> i`
abbrev shift : ℕ → ℕ → ℕ
shift zero x = x
shift (suc i) x = shift i (x / 2)

bit_of_shift : (i x : ℕ) → (bit_and x (2 ^ i) == 0) ≡ (shift i x % 2 == 0)
bit_of_shift zero x = rw (mask_1 x) refl
bit_of_shift (suc i) x =
    let halves = bit_and_halves x (2 ^ suc i) in
    let twice : 2 ^ suc i ≡ 2 * 2 ^ i = omega arith in
    let half : 2 ^ suc i / 2 ≡ 2 ^ i = omega arith in
    let even : 2 ^ suc i % 2 ≡ 0 = omega arith in
    let doubled : bit_and x (2 ^ suc i) ≡ 2 * bit_and (x / 2) (2 ^ i) =
      halves ∙ rw (half, even) (omega arith) in
    rw (← bit_of_shift i (x / 2)) (ground (arith, doubled))

shift-xor : (i x y : ℕ) → shift i (bit_xor x y) ≡ bit_xor (shift i x) (shift i y)
shift-xor zero x y = refl
shift-xor (suc i) x y =
    let half : bit_xor x y / 2 ≡ bit_xor (x / 2) (y / 2) = omega (arith, xor-halves x y) in
    ap (shift i) half ∙ shift-xor i (x / 2) (y / 2)

pub has_bit-xor :
    (x y i : ℕ) → has_bit (bit_xor x y) i ≡ (if has_bit x i then not (has_bit y i) else has_bit y i)
has_bit-xor x y i =
    let low = xor-halves (shift i x) (shift i y) in
    rw (bit_of_shift i (bit_xor x y), bit_of_shift i x, bit_of_shift i y, shift-xor i x y)
      (ground (arith, low))

pub has_bit-zero : (i : ℕ) → has_bit 0 i ≡ false
has_bit-zero i = rw (bit_and-bitwise 0 (2 ^ i)) refl
