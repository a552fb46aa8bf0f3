-- ===== src/HidDescriptor.antt =====
-- desktop-linux/src/hid_descriptor.rs: what kind of device a HID report descriptor describes.
pub mod Items
use Prim.Native.Nat.{bit_and}
use zerowire.Prelude.{
  Bool, false, ℕ, zero, suc, ◌+◌, ◌*◌, ◌%◌, ◌^◌, Option, none, some, List, [], ◌∷◌, ltb, ◌==◌,
  if◌then◌else◌, length, drop,
}
use zerowire.Bytes.{Bytes, at, u16_from_le}

pub data Kind : Type 0 where
  mouse keyboard gamepad other : Kind

abbrev pub usage_page_generic_desktop : ℕ
usage_page_generic_desktop = 0x01

abbrev pub usage_mouse : ℕ
usage_mouse = 0x02

abbrev pub usage_keyboard : ℕ
usage_keyboard = 0x06

abbrev pub usage_gamepad : ℕ
usage_gamepad = 0x05

abbrev pub usage_joystick : ℕ
usage_joystick = 0x04

-- The data bytes of an item, by the low two bits of its prefix.
unfoldable pub item_size : ℕ → ℕ
item_size prefix =
    let code = bit_and prefix 0x03 in
    if code == 0 then 0 else if code == 1 then 1 else if code == 2 then 2 else 4

-- The data of an item that starts `rest`, read from behind the prefix.
unfoldable pub data_le : ℕ → Bytes → ℕ
data_le size rest =
    if size == 0
    then 0
    else if size == 1
    then at rest 1
    else if size == 2
    then u16_from_le (at rest 1) (at rest 2)
    else at rest 1 + 256 * at rest 2 + 65536 * at rest 3 + 16777216 * at rest 4

unfoldable pub usage_kind : ℕ → Kind
usage_kind usage =
    if usage == usage_mouse
    then mouse
    else if usage == usage_keyboard
    then keyboard
    else if usage == usage_gamepad
    then gamepad
    else if usage == usage_joystick
    then gamepad
    else other

-- `page == Some(USAGE_PAGE_GENERIC_DESKTOP)`
abbrev pub is_desktop : Option ℕ → Bool
is_desktop none = false
is_desktop (some p) = p == usage_page_generic_desktop

-- The `while`, on `desc[i..]`, for at most as many rounds as the fuel says: `none` is the model's own,
-- and says that there were too few.
unfoldable pub scan : ℕ → Option ℕ → Bytes → Option Kind
scan fuel page [] = some other
scan zero page (prefix ∷ rest) = none
scan (suc fuel) page (prefix ∷ rest) =
    let size = item_size prefix in
    let tag = bit_and prefix 0xFC in
    let value = data_le size (prefix ∷ rest) % 256 in
    let next = scan fuel (if tag == 0x04 then some value else page) (drop size rest) in
    if ltb (length rest) size
    then some other
    else if tag == 0x04
    then next
    else if tag == 0x08
    then if is_desktop page then some (usage_kind value) else next
    else next

-- With a round for each byte.
unfoldable pub classify : Bytes → Option Kind
classify desc = scan (length desc) none desc

abbrev pub mouse_descriptor : Bytes
mouse_descriptor =
    0x05 ∷ 0x01 ∷ 0x09 ∷ 0x02 ∷ 0xA1 ∷ 0x01 ∷ 0x09 ∷ 0x01 ∷ 0xA1 ∷ 0x00 ∷ 0x05 ∷ 0x09 ∷ 0x19 ∷ 0x01
    ∷ 0x29 ∷ 0x05 ∷ 0x15 ∷ 0x00 ∷ 0x25 ∷ 0x01 ∷ 0x95 ∷ 0x05 ∷ 0x75 ∷ 0x01 ∷ 0x81 ∷ 0x02 ∷ 0x95
    ∷ 0x01 ∷ 0x75 ∷ 0x03 ∷ 0x81 ∷ 0x03 ∷ 0x05 ∷ 0x01 ∷ 0x09 ∷ 0x30 ∷ 0x09 ∷ 0x31 ∷ 0x09 ∷ 0x38
    ∷ 0x15 ∷ 0x81 ∷ 0x25 ∷ 0x7F ∷ 0x75 ∷ 0x08 ∷ 0x95 ∷ 0x03 ∷ 0x81 ∷ 0x06 ∷ 0xC0 ∷ 0xC0 ∷ []

abbrev pub keyboard_descriptor : Bytes
keyboard_descriptor = 0x05 ∷ 0x01 ∷ 0x09 ∷ 0x06 ∷ 0xA1 ∷ 0x01 ∷ 0xC0 ∷ []
