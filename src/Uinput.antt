-- ===== src/Uinput.antt =====
-- desktop-linux/src/uinput.rs: the events of the virtual input device. The `write` of one event, with
-- the time of day in it, is the kernel's; the ioctls that set the device up are left out.
use zerowire.Prelude.{String, ℕ, ℤ, pos, int_eq, Bool, not, if◌then◌else◌}
use zerowire.Io.{Io, pure, ◌>>◌}

abbrev pub ev_syn : ℕ
ev_syn = 0x00

abbrev pub ev_key : ℕ
ev_key = 0x01

abbrev pub ev_rel : ℕ
ev_rel = 0x02

abbrev pub syn_report : ℕ
syn_report = 0

abbrev pub rel_x : ℕ
rel_x = 0x00

abbrev pub rel_y : ℕ
rel_y = 0x01

abbrev pub rel_wheel : ℕ
rel_wheel = 0x08

abbrev pub rel_hwheel : ℕ
rel_hwheel = 0x06

abbrev pub btn_left : ℕ
btn_left = 0x110

abbrev pub btn_right : ℕ
btn_right = 0x111

abbrev pub btn_middle : ℕ
btn_middle = 0x112

abbrev pub btn_side : ℕ
btn_side = 0x113

abbrev pub btn_extra : ℕ
btn_extra = 0x114

-- A device's name, vendor id and product id.
pub data DeviceProfile : Type 0 where
  mouse keyboard : String → ℕ → ℕ → DeviceProfile

-- A type, a code and a value.
pub record InputEvent : Type 0 where
  pub ty : ℕ
  pub code : ℕ
  pub value : ℤ

-- What the helpers use of the device file.
pub record UinputDevice (S : Type 0) : Type 0 where
  pub write_event : InputEvent → Io S (Unit {0})

-- `if b { m?; }`
abbrev pub when : {S : Type 0} → Bool → Io S (Unit {0}) → Io S (Unit {0})
when b m = if b then m else pure tt

module _ {S : Type 0} (device : UinputDevice S) where
  abbrev pub emit : ℕ → ℕ → ℤ → Io S (Unit {0})
  emit ty code value = device.write_event (record { ty = ty; code = code; value = value })

  unfoldable pub sync : Io S (Unit {0})
  sync = emit ev_syn syn_report (pos 0)

  unfoldable pub mouse_move : ℤ → ℤ → Io S (Unit {0})
  unfolding sync
  mouse_move dx dy = do
    when (not (int_eq dx (pos 0))) (emit ev_rel rel_x dx)
    when (not (int_eq dy (pos 0))) (emit ev_rel rel_y dy)
    sync

  unfoldable pub mouse_wheel : ℤ → ℤ → Io S (Unit {0})
  unfolding sync
  mouse_wheel dv dh = do
    when (not (int_eq dv (pos 0))) (emit ev_rel rel_wheel dv)
    when (not (int_eq dh (pos 0))) (emit ev_rel rel_hwheel dh)
    sync

  unfoldable pub mouse_button : ℕ → Bool → Io S (Unit {0})
  unfolding sync
  mouse_button button pressed = do emit ev_key button (if pressed then pos 1 else pos 0); sync

  unfoldable pub key : ℕ → Bool → Io S (Unit {0})
  unfolding sync
  key code pressed = do emit ev_key code (if pressed then pos 1 else pos 0); sync
