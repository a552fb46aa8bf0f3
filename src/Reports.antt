-- ===== src/Reports.antt =====
-- desktop-linux/src/receiver.rs: HID input reports in the boot format, as input events. The
-- function-local statics, which hold what the last report said, are a record that is passed along.
pub mod Bits
pub mod Events
pub mod Buttons
pub mod Keys
pub mod Keyboard
pub mod Whole
pub mod Closed
use Prim.Native.Nat.{bit_and, bit_xor}
use zerowire.Prelude.{
  ℕ, ◌+◌, ◌-◌, ◌*◌, ◌^◌, ℤ, pos, negsuc, int_eq, Bool, true, false, not, ◌&&◌, Option, none, some,
  List, [], ◌∷◌, ltb, leb, ◌==◌, if◌then◌else◌, length,
}
use zerowire.Bytes.{Bytes, at}
use zerowire.Io.{Io, pure, continue, ◌>>=◌, ◌>>◌}
use zerowire.Uinput.{
  UinputDevice, when, mouse_move, mouse_wheel, mouse_button, key, btn_left, btn_right, btn_middle,
  btn_side, btn_extra,
}
use zerowire.Keymap.{hid_usage_to_linux_key}

-- `PREV`, `PREV_MOD` and `PREV_KEYS`
pub record Statics : Type 0 where
  pub prev : ℕ
  pub prev_mod : ℕ
  pub prev_keys : Bytes

abbrev pub zero_statics : Statics
zero_statics = record { prev = 0; prev_mod = 0; prev_keys = 0 ∷ 0 ∷ 0 ∷ 0 ∷ 0 ∷ 0 ∷ [] }

-- `b as i8 as i32`
abbrev pub as_i8 : ℕ → ℤ
as_i8 b = if ltb b 128 then pos b else negsuc (255 - b)

-- `b & (1 << i) != 0`
abbrev pub has_bit : ℕ → ℕ → Bool
has_bit b i = not (bit_and b (2 ^ i) == 0)

-- `xs.contains(&x)`
abbrev pub contains : Bytes → ℕ → Bool
contains [] x = false
contains (y ∷ ys) x = if y == x then true else contains ys x

abbrev pub modifier_bits : List (ℕ × ℕ)
modifier_bits =
    (0, 29) ∷ (1, 42) ∷ (2, 56) ∷ (3, 125) ∷ (4, 97) ∷ (5, 54) ∷ (6, 100) ∷ (7, 126) ∷ []

module _ {S : Type 0} (device : UinputDevice S) where
  unfoldable pub press_or_release : ℕ → ℕ → ℕ → ℕ → Io S (Unit {0})
  press_or_release prev buttons i code =
      when (has_bit (bit_xor prev buttons) i) (mouse_button device code (has_bit buttons i))

  unfoldable pub apply_buttons : ℕ → ℕ → Io S (Unit {0})
  unfolding press_or_release
  apply_buttons prev buttons = do
    press_or_release prev buttons 0 btn_left
    press_or_release prev buttons 1 btn_right
    press_or_release prev buttons 2 btn_middle
    press_or_release prev buttons 3 btn_side
    press_or_release prev buttons 4 btn_extra

  unfoldable pub apply_mouse_report : Statics → Bytes → Io S Statics
  unfolding apply_buttons
  apply_mouse_report statics body =
      let buttons = at body 0 in
      let dx = if leb 2 (length body) then as_i8 (at body 1) else pos 0 in
      let dy = if leb 3 (length body) then as_i8 (at body 2) else pos 0 in
      let wheel = if leb 4 (length body) then as_i8 (at body 3) else pos 0 in
      do
        apply_buttons statics.prev buttons
        when (not (int_eq dx (pos 0) && int_eq dy (pos 0))) (mouse_move device dx dy)
        when (not (int_eq wheel (pos 0))) (mouse_wheel device wheel (pos 0))
        pure (record statics { prev = buttons })

  -- The `for` over the modifier bits.
  unfoldable pub apply_modifiers : ℕ → ℕ → List (ℕ × ℕ) → Io S (Unit {0})
  apply_modifiers prev_mod modifier [] = pure tt
  apply_modifiers prev_mod modifier (b ∷ bs) = do
    let was = has_bit prev_mod b.0
    let now = has_bit modifier b.0
    when (if was then not now else now) (key device b.1 now)
    apply_modifiers prev_mod modifier bs

  -- One round of the two loops over keys: `k` is reported unless it is 0, stands in the other report,
  -- or has no code.
  unfoldable pub apply_key : Bool → Bytes → ℕ → Io S (Unit {0})
  apply_key pressed others k =
      if not (k == 0) && not (contains others k)
      then elim (hid_usage_to_linux_key k) [ none ↦ pure tt | some code ↦ key device code pressed ]
      else pure tt

  unfoldable pub apply_keys : Bool → Bytes → Bytes → Io S (Unit {0})
  unfolding apply_key
  apply_keys pressed others [] = pure tt
  apply_keys pressed others (k ∷ ks) = do apply_key pressed others k; apply_keys pressed others ks

  -- The body has eight bytes where this is called.
  unfoldable pub apply_keyboard_report : Statics → Bytes → Io S Statics
  unfolding apply_modifiers apply_keys
  apply_keyboard_report statics body =
      let modifier = at body 0 in
      let keys = at body 2 ∷ at body 3 ∷ at body 4 ∷ at body 5 ∷ at body 6 ∷ at body 7 ∷ [] in
      do
        apply_modifiers statics.prev_mod modifier modifier_bits
        apply_keys false keys statics.prev_keys
        apply_keys true statics.prev_keys keys
        pure (record statics { prev_mod = modifier; prev_keys = keys })

  unfoldable pub apply_report : Statics → Bytes → Io S Statics
  unfolding apply_mouse_report apply_keyboard_report
  apply_report statics body =
      if length body == 0
      then pure statics
      else if leb (length body) 5
      then apply_mouse_report statics body
      else if length body == 8
      then apply_keyboard_report statics body
      else apply_mouse_report statics body
