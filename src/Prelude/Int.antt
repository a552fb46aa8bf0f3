-- ===== src/Prelude/Int.antt =====
-- Signed 32-bit integers, as the integers that they stand for, and Rust's `as` between them and `u32`.
use Prim.Native.Nat.{ℕ, ◌-◌, ◌^◌, ◌%◌, ◌<◌}
use mathlib.Core.Path.{◌≡◌}
use mathlib.Core.Bool.{Bool, true, false}
use native.Mathlib.Omega.{arith}
use zerowire.Prelude.Tests.{ltb, ◌==◌, if◌then◌else◌}

-- `negsuc n` is -(n + 1).
pub data ℤ : Type 0 where
  pos : ℕ → ℤ
  negsuc : ℕ → ℤ

abbrev pub int_eq : ℤ → ℤ → Bool
int_eq (pos a) (pos b) = a == b
int_eq (negsuc a) (negsuc b) = a == b
int_eq _ _ = false

abbrev pub IsI32 : ℤ → Type 0
IsI32 (pos n) = n < 2 ^ 31
IsI32 (negsuc n) = n < 2 ^ 31

-- `x as u32`
unfoldable pub i32_as_u32 : ℤ → ℕ
i32_as_u32 (pos n) = n % 2 ^ 32
i32_as_u32 (negsuc n) = 2 ^ 32 - 1 - n % 2 ^ 32

-- `w as i32`
unfoldable pub u32_as_i32 : ℕ → ℤ
u32_as_i32 w = if ltb w (2 ^ 31) then pos w else negsuc (2 ^ 32 - 1 - w)

pub i32_as_u32-lt : (x : ℤ) → i32_as_u32 x < 2 ^ 32
unfolding i32_as_u32
i32_as_u32-lt (pos n) = omega arith
i32_as_u32-lt (negsuc n) = omega arith

pub u32_as_i32-i32_as_u32 : (x : ℤ) → IsI32 x → u32_as_i32 (i32_as_u32 x) ≡ x
unfolding u32_as_i32 i32_as_u32
u32_as_i32-i32_as_u32 (pos n) h = ground arith
u32_as_i32-i32_as_u32 (negsuc n) h = ground arith

pub int_eq→eq : (a b : ℤ) → int_eq a b ≡ true → a ≡ b
int_eq→eq (pos a) (pos b) h = ground arith
int_eq→eq (pos a) (negsuc b) h = ground arith
int_eq→eq (negsuc a) (pos b) h = ground arith
int_eq→eq (negsuc a) (negsuc b) h = ground arith

pub int_eq_refl : (a : ℤ) → int_eq a a ≡ true
int_eq_refl (pos a) = ground arith
int_eq_refl (negsuc a) = ground arith
