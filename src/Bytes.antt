-- ===== src/Bytes.antt =====
-- Byte strings as lists of numbers, and the fixed-width integers of `u16::to_be_bytes`,
-- `u32::from_be_bytes` and their little-endian kin, which every codec of protocol/src uses.
use zerowire.Prelude.{
  ℕ, ◌+◌, ◌*◌, ◌/◌, ◌%◌, ◌^◌, ◌<◌, ◌≡◌, refl, arith, List, [], ◌∷◌, length, get_or, All,
}

abbrev pub Bytes : Type 0
Bytes = List ℕ

abbrev pub IsByte : ℕ → Type 0
IsByte b = b < 256

abbrev pub AllBytes : Bytes → Type 0
AllBytes = All IsByte

abbrev pub IsU16 : ℕ → Type 0
IsU16 v = v < 2 ^ 16

abbrev pub IsU32 : ℕ → Type 0
IsU32 v = v < 2 ^ 32

-- `b[i]`; the source indexes only behind a length check, so the default is never read.
abbrev pub at : Bytes → ℕ → ℕ
at b i = get_or b i 0

unfoldable pub u16_to_be : ℕ → Bytes
u16_to_be v = (v / 256 % 256) ∷ (v % 256) ∷ []

unfoldable pub u16_from_be : ℕ → ℕ → ℕ
u16_from_be a b = a * 256 + b

unfoldable pub u16_to_le : ℕ → Bytes
u16_to_le v = (v % 256) ∷ (v / 256 % 256) ∷ []

unfoldable pub u16_from_le : ℕ → ℕ → ℕ
u16_from_le a b = a + b * 256

unfoldable pub u32_to_be : ℕ → Bytes
u32_to_be v = (v / 16777216 % 256) ∷ (v / 65536 % 256) ∷ (v / 256 % 256) ∷ (v % 256) ∷ []

unfoldable pub u32_from_be : ℕ → ℕ → ℕ → ℕ → ℕ
u32_from_be a b c d = a * 16777216 + b * 65536 + c * 256 + d

pub length-u32_to_be : (v : ℕ) → length (u32_to_be v) ≡ 4
unfolding u32_to_be
length-u32_to_be v = refl

pub length-u16_to_be : (v : ℕ) → length (u16_to_be v) ≡ 2
unfolding u16_to_be
length-u16_to_be v = refl

pub u32_to_be-AllBytes : (v : ℕ) → AllBytes (u32_to_be v)
unfolding u32_to_be
u32_to_be-AllBytes v = omega arith

pub u16_to_be-AllBytes : (v : ℕ) → AllBytes (u16_to_be v)
unfolding u16_to_be
u16_to_be-AllBytes v = omega arith

-- What `to_be_bytes` writes, `from_be_bytes` reads back.
pub u32_from_be-to_be :
    (v : ℕ)
    → IsU32 v
    → u32_from_be (v / 16777216 % 256) (v / 65536 % 256) (v / 256 % 256) (v % 256) ≡ v
unfolding u32_from_be
u32_from_be-to_be v h = omega arith

pub u16_from_be-to_be : (v : ℕ) → IsU16 v → u16_from_be (v / 256 % 256) (v % 256) ≡ v
unfolding u16_from_be
u16_from_be-to_be v h = omega arith

pub u32_from_be-IsU32 :
    (a b c d : ℕ) → IsByte a → IsByte b → IsByte c → IsByte d → IsU32 (u32_from_be a b c d)
unfolding u32_from_be
u32_from_be-IsU32 a b c d ha hb hc hd = omega arith

-- And the other way round, for four bytes.
pub u32_to_be-from_be :
    (a b c d : ℕ)
    → IsByte a
    → IsByte b
    → IsByte c
    → IsByte d
    → u32_to_be (u32_from_be a b c d) ≡ a ∷ b ∷ c ∷ d ∷ []
unfolding u32_to_be u32_from_be
u32_to_be-from_be a b c d ha hb hc hd = ground arith

pub u16_to_be-from_be : (a b : ℕ) → IsByte a → IsByte b → u16_to_be (u16_from_be a b) ≡ a ∷ b ∷ []
unfolding u16_to_be u16_from_be
u16_to_be-from_be a b ha hb = ground arith
