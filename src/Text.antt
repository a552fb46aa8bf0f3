-- ===== src/Text.antt =====
-- Numbers as text, the way `format!` of the standard library prints them.
use zerowire.Prelude.{
  ℕ, zero, suc, ◌/◌, ◌%◌, String, str_append, List, [], ◌∷◌, true, false, ltb, get_or,
}

abbrev digits : List String
digits =
    "0" ∷ "1" ∷ "2" ∷ "3" ∷ "4" ∷ "5" ∷ "6" ∷ "7" ∷ "8" ∷ "9" ∷ "a" ∷ "b" ∷ "c" ∷ "d" ∷ "e" ∷ "f"
    ∷ []

abbrev pub digit : ℕ → String
digit d = get_or digits d "0"

-- At most as many digits as the first argument says.
unfoldable pub show_radix : ℕ → ℕ → ℕ → String
show_radix zero radix n = ""
show_radix (suc k) radix n = elim (ltb n radix) [
  | true ↦ digit n
  | false ↦ str_append (show_radix k radix (n / radix)) (digit (n % radix))
]

-- `{}`; twenty digits are enough for a `u64`
abbrev pub decimal : ℕ → String
decimal n = show_radix 20 10 n

-- `{:#x}`
abbrev pub hexadecimal : ℕ → String
hexadecimal n = str_append "0x" (show_radix 16 16 n)

-- `{:02x}` of a byte
abbrev pub hex2 : ℕ → String
hex2 n = str_append (digit (n / 16 % 16)) (digit (n % 16))

-- `{:04x}` of a `u16`
abbrev pub hex4 : ℕ → String
hex4 n = str_append (hex2 (n / 256)) (hex2 n)

-- `concat!`
unfoldable pub joined : List String → String
joined [] = ""
joined (s ∷ ss) = str_append s (joined ss)
