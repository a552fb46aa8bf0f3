-- ===== src/Keymap/Inverse.antt =====
-- No two usages have the same key code, and none has the code of a modifier key.
use zerowire.Prelude.{
  ℕ, zero, suc, ◌<◌, ◌≡◌, refl, ap, sym, ◌∙◌, ◌≢◌, ==_iff, ==_refl, arith, Bool, true, false,
  Bool-cases, inl, inr, Option, none, some, List, [], ◌∷◌, ◌==◌, if◌then◌else◌, get_or,
}
use zerowire.Bytes.{IsByte}
use zerowire.Keymap.{hid_usage_to_linux_key, code_for_letter}

-- The usage of each key code, 0 where there is none.
abbrev key_usages : List ℕ
key_usages =
    0 ∷ 41 ∷ 30 ∷ 31 ∷ 32 ∷ 33 ∷ 34 ∷ 35 ∷ 36 ∷ 37 ∷ 38 ∷ 39 ∷ 45 ∷ 46 ∷ 42 ∷ 43 ∷ 20 ∷ 26 ∷ 8 ∷ 21
    ∷ 23 ∷ 28 ∷ 24 ∷ 12 ∷ 18 ∷ 19 ∷ 47 ∷ 48 ∷ 40 ∷ 0 ∷ 4 ∷ 22 ∷ 7 ∷ 9 ∷ 10 ∷ 11 ∷ 13 ∷ 14 ∷ 15 ∷ 51
    ∷ 52 ∷ 53 ∷ 0 ∷ 49 ∷ 29 ∷ 27 ∷ 6 ∷ 25 ∷ 5 ∷ 17 ∷ 16 ∷ 54 ∷ 55 ∷ 56 ∷ 0 ∷ 0 ∷ 0 ∷ 44 ∷ 57 ∷ 58
    ∷ 59 ∷ 60 ∷ 61 ∷ 62 ∷ 63 ∷ 64 ∷ 65 ∷ 66 ∷ 67 ∷ 68 ∷ 69 ∷ 0 ∷ 0 ∷ 0 ∷ 0 ∷ 0 ∷ 0 ∷ 0 ∷ 0 ∷ 0 ∷ 0
    ∷ 0 ∷ 0 ∷ 0 ∷ 0 ∷ 0 ∷ 0 ∷ 0 ∷ 0 ∷ 0 ∷ 0 ∷ 0 ∷ 0 ∷ 0 ∷ 0 ∷ 0 ∷ 0 ∷ 0 ∷ 0 ∷ 0 ∷ 0 ∷ 0 ∷ 0 ∷ 82 ∷ 0
    ∷ 80 ∷ 79 ∷ 0 ∷ 81 ∷ []

-- Left and right control, shift, alt and meta.
abbrev pub is_modifier : ℕ → Bool
is_modifier c =
    if c == 29
    then true
    else if c == 42
    then true
    else if c == 56
    then true
    else if c == 125
    then true
    else if c == 97
    then true
    else if c == 54
    then true
    else if c == 100
    then true
    else c == 126

abbrev inverts : Option ℕ → ℕ → Bool
inverts none usage = true
inverts (some code) usage = if is_modifier code then false else get_or key_usages code 0 == usage

abbrev inverts_below : ℕ → Bool
inverts_below zero = true
inverts_below (suc n) = if inverts (hid_usage_to_linux_key n) n then inverts_below n else false

inverts_table : inverts_below 256 ≡ true
unfolding hid_usage_to_linux_key code_for_letter
inverts_table = refl

both : (b c : Bool) → (if b then c else false) ≡ true → (b ≡ true) × (c ≡ true)
both true c h = (refl, h)
both false c h = absurd (ground arith)

pub ne_of_test : (a b : ℕ) → (a == b) ≡ false → a ≢ b
ne_of_test a b h e = absurd (ground (arith, ==_refl b))

inverts-lt :
    (n usage : ℕ)
    → inverts_below n ≡ true
    → usage < n
    → inverts (hid_usage_to_linux_key usage) usage ≡ true
inverts-lt zero usage h l = absurd (omega arith)
inverts-lt (suc n) usage h l =
    let (top, below) = both (inverts (hid_usage_to_linux_key n) n) (inverts_below n) h in
    elim (Bool-cases (usage == n)) [
      | inl same ↦
          let e : usage ≡ n = (==_iff usage n).0 same in
          ap (λ (u : ℕ). inverts (hid_usage_to_linux_key u) u) e ∙ top
      | inr less ↦
          inverts-lt n usage below (let ne : usage ≢ n = ne_of_test usage n less in omega arith)
    ]

code_inverts :
    (usage code : ℕ)
    → IsByte usage
    → hid_usage_to_linux_key usage ≡ some code
    → inverts (some code) usage ≡ true
code_inverts usage code h e =
    ap (λ (o : Option ℕ). inverts o usage) (sym e) ∙ inverts-lt 256 usage inverts_table h

pub code-not_modifier :
    (usage code : ℕ)
    → IsByte usage
    → hid_usage_to_linux_key usage ≡ some code
    → is_modifier code ≡ false
code-not_modifier usage code h e = ground (arith, code_inverts usage code h e)

-- Two usages, each a byte, with the same key code are the same.
pub code_injective :
    (usage usage' code : ℕ)
    → IsByte usage
    → IsByte usage'
    → hid_usage_to_linux_key usage ≡ some code
    → hid_usage_to_linux_key usage' ≡ some code
    → usage ≡ usage'
code_injective usage usage' code h h' e e' =
    ground (arith, code_inverts usage code h e, code_inverts usage' code h' e')
