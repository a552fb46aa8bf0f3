-- ===== src/Keymap.antt =====
-- desktop-linux/src/receiver.rs: HID key usages as Linux key codes.
pub mod Inverse
use zerowire.Prelude.{
  ℕ, ◌+◌, ◌-◌, Bool, ◌&&◌, Option, none, some, List, [], ◌∷◌, leb, ◌==◌, if◌then◌else◌, get_or,
}

-- The letters A to Z.
abbrev pub is_letter : ℕ → Bool
is_letter usage = leb 0x04 usage && leb usage 0x1D

abbrev pub letter_codes : List ℕ
letter_codes =
    30 ∷ 48 ∷ 46 ∷ 32 ∷ 18 ∷ 33 ∷ 34 ∷ 35 ∷ 23 ∷ 36 ∷ 37 ∷ 38 ∷ 50 ∷ 49 ∷ 24 ∷ 25 ∷ 16 ∷ 19 ∷ 31
    ∷ 20 ∷ 22 ∷ 47 ∷ 17 ∷ 45 ∷ 21 ∷ 44 ∷ []

unfoldable pub code_for_letter : ℕ → Option ℕ
code_for_letter usage =
    if is_letter usage then some (get_or letter_codes (usage - 0x04) 0) else none

-- The digits, punctuation and editing keys from 0x1E to 0x39; 0 where there is none.
abbrev pub other_codes : List ℕ
other_codes =
    2 ∷ 3 ∷ 4 ∷ 5 ∷ 6 ∷ 7 ∷ 8 ∷ 9 ∷ 10 ∷ 11 ∷ 28 ∷ 1 ∷ 14 ∷ 15 ∷ 57 ∷ 12 ∷ 13 ∷ 26 ∷ 27 ∷ 43 ∷ 0
    ∷ 39 ∷ 40 ∷ 41 ∷ 51 ∷ 52 ∷ 53 ∷ 58 ∷ []

abbrev pub nonzero : ℕ → Option ℕ
nonzero code = if code == 0 then none else some code

-- For a letter the source first computes a linear code, which is never 0, and then puts
-- `code_for_letter` in its place.
unfoldable pub hid_usage_to_linux_key : ℕ → Option ℕ
unfolding code_for_letter
hid_usage_to_linux_key usage =
    if is_letter usage
    then elim (code_for_letter usage) [ none ↦ some (30 + (usage - 0x04)) | some code ↦ some code ]
    else if leb 0x1E usage && leb usage 0x39
    then nonzero (get_or other_codes (usage - 0x1E) 0)
    else if leb 0x3A usage && leb usage 0x45
    then some (59 + (usage - 0x3A))
    else if usage == 0x4F
    then some 106
    else if usage == 0x50
    then some 105
    else if usage == 0x51
    then some 108
    else if usage == 0x52
    then some 103
    else none
