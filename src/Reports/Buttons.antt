-- ===== src/Reports/Buttons.antt =====
-- Mouse reports and the buttons that they leave pressed.
use Prim.Native.Nat.{bit_xor}
use zerowire.Prelude.{
  ℕ, zero, suc, ◌+◌, ◌<◌, ◌≡◌, ◌≢◌, ap, ◌∙◌, arith, ℤ, pos, int_eq, Bool, false, not, ◌&&◌, leb,
  if◌then◌else◌, List, [], ◌++◌, ok, length, ==_refl, ne→==_false,
}
use zerowire.Bytes.{Bytes, at}
use zerowire.Io.{Io, pure, ◌>>◌}
use zerowire.Uinput.{
  InputEvent, UinputDevice, when, mouse_button, mouse_move, mouse_wheel, rel_x, rel_y, rel_wheel,
  rel_hwheel, btn_left, btn_right, btn_middle, btn_side, btn_extra,
}
use zerowire.Reports.{
  Statics, as_i8, has_bit, press_or_release, apply_buttons, apply_mouse_report, apply_report,
}
use zerowire.Reports.Bits.{has_bit-xor}
use zerowire.Reports.Events.{
  Recorder, replay, replay-append, replay-only_if, replay-axis, only_if, key_events, axis_events,
  Emits, Emits-then, Emits-pure, Emits-when, Emits-mouse_button, Emits-mouse_move,
  Emits-mouse_wheel,
}

abbrev button_events : ℕ → ℕ → ℕ → ℕ → List InputEvent
button_events prev buttons i code =
    only_if (has_bit (bit_xor prev buttons) i) (key_events code (has_bit buttons i))

-- A button that is as the last report says is then as this one says.
replay-own :
    (code prev buttons i : ℕ)
    → replay code (has_bit prev i) (button_events prev buttons i code) ≡ has_bit buttons i
replay-own code prev buttons i = rw (has_bit-xor prev buttons i) (ground (arith, ==_refl code))

replay-other :
    (code code' prev buttons i : ℕ) (down : Bool)
    → code' ≢ code
    → replay code down (button_events prev buttons i code') ≡ down
replay-other code code' prev buttons i down h = ground (arith, ne→==_false code' code h)

abbrev all_buttons : ℕ → ℕ → List InputEvent
all_buttons prev buttons =
    button_events prev buttons 0 btn_left
    ++ (button_events prev buttons 1 btn_right
        ++ (button_events prev buttons 2 btn_middle
            ++ (button_events prev buttons 3 btn_side ++ button_events prev buttons 4 btn_extra)))

abbrev pub button_code : ℕ → ℕ
button_code i = 0x110 + i

-- Each of the five buttons is then as the report says.
replay-all_buttons :
    (prev buttons i : ℕ)
    → i < 5
    → replay (button_code i) (has_bit prev i) (all_buttons prev buttons) ≡ has_bit buttons i
replay-all_buttons prev buttons zero h = ground (arith, has_bit-xor prev buttons 0)
replay-all_buttons prev buttons (suc zero) h = ground (arith, has_bit-xor prev buttons 1)
replay-all_buttons prev buttons (suc (suc zero)) h = ground (arith, has_bit-xor prev buttons 2)
replay-all_buttons prev buttons (suc (suc (suc zero))) h =
    ground (arith, has_bit-xor prev buttons 3)
replay-all_buttons prev buttons (suc (suc (suc (suc zero)))) h =
    ground (arith, has_bit-xor prev buttons 4)
replay-all_buttons prev buttons (suc (suc (suc (suc (suc i))))) h = absurd (omega arith)

-- What a mouse report of the given body emits.
abbrev pub mouse_events : ℕ → Bytes → List InputEvent
mouse_events prev body =
    let dx = if leb 2 (length body) then as_i8 (at body 1) else pos 0 in
    let dy = if leb 3 (length body) then as_i8 (at body 2) else pos 0 in
    let wheel = if leb 4 (length body) then as_i8 (at body 3) else pos 0 in
    all_buttons prev (at body 0)
    ++ (only_if (not (int_eq dx (pos 0) && int_eq dy (pos 0))) (axis_events rel_x rel_y dx dy)
        ++ (only_if (not (int_eq wheel (pos 0))) (axis_events rel_wheel rel_hwheel wheel (pos 0))
            ++ []))

module _ {S : Type 0} {device : UinputDevice S} (r : Recorder device) where
  Emits-press_or_release :
      (prev buttons i code : ℕ) (s : S)
      → Emits r
          (press_or_release device prev buttons i code)
          s
          tt
          (button_events prev buttons i code)
  unfolding press_or_release
  Emits-press_or_release prev buttons i code =
      Emits-when r (has_bit (bit_xor prev buttons) i) (mouse_button device code (has_bit buttons i))
        _ (Emits-mouse_button r code (has_bit buttons i))

  Emits-apply_buttons :
      (prev buttons : ℕ) (s : S)
      → Emits r (apply_buttons device prev buttons) s tt (all_buttons prev buttons)
  unfolding apply_buttons
  Emits-apply_buttons prev buttons =
      let press : ℕ → ℕ → Io S (Unit {0}) = press_or_release device prev buttons in
      let emits = Emits-press_or_release prev buttons in
      Emits-then r (press 0 btn_left)
        (press 1 btn_right >> (press 2 btn_middle >> (press 3 btn_side >> press 4 btn_extra))) _ _
        (emits 0 btn_left)
        (Emits-then r (press 1 btn_right)
          (press 2 btn_middle >> (press 3 btn_side >> press 4 btn_extra)) _ _ (emits 1 btn_right)
          (Emits-then r (press 2 btn_middle) (press 3 btn_side >> press 4 btn_extra) _ _
            (emits 2 btn_middle)
            (Emits-then r (press 3 btn_side) (press 4 btn_extra) _ _ (emits 3 btn_side)
              (emits 4 btn_extra))))

  pub Emits-apply_mouse_report :
      (statics : Statics) (body : Bytes) (s : S)
      → Emits r
          (apply_mouse_report device statics body)
          s
          (record statics { prev = at body 0 })
          (mouse_events statics.prev body)
  unfolding apply_mouse_report
  Emits-apply_mouse_report statics body =
      let dx : ℤ = if leb 2 (length body) then as_i8 (at body 1) else pos 0 in
      let dy : ℤ = if leb 3 (length body) then as_i8 (at body 2) else pos 0 in
      let wheel : ℤ = if leb 4 (length body) then as_i8 (at body 3) else pos 0 in
      let new : Statics = record statics { prev = at body 0 } in
      let moves : Bool = not (int_eq dx (pos 0) && int_eq dy (pos 0)) in
      let scrolls : Bool = not (int_eq wheel (pos 0)) in
      let scroll : Io S (Unit {0}) = when scrolls (mouse_wheel device wheel (pos 0)) in
      let move : Io S (Unit {0}) = when moves (mouse_move device dx dy) in
      Emits-then r (apply_buttons device statics.prev (at body 0)) (move >> (scroll >> pure new)) _
        _ (Emits-apply_buttons statics.prev (at body 0))
        (Emits-then r move (scroll >> pure new) _ _
          (Emits-when r moves (mouse_move device dx dy) _ (Emits-mouse_move r dx dy))
          (Emits-then r scroll (pure new) _ _
            (Emits-when r scrolls (mouse_wheel device wheel (pos 0)) _
              (Emits-mouse_wheel r wheel (pos 0)))
            (Emits-pure r new)))

  -- The five buttons are down or up as the byte `prev` says.
  abbrev pub IsShown : ℕ → S → Type 0
  IsShown prev s = (i : ℕ) → i < 5 → replay (button_code i) false (r.events s) ≡ has_bit prev i

  mouse_events-replay :
      (prev : ℕ) (body : Bytes) (i : ℕ)
      → i < 5
      → replay (button_code i) (has_bit prev i) (mouse_events prev body) ≡ has_bit (at body 0) i
  mouse_events-replay prev body i h =
      let code : ℕ = button_code i in
      let dx : ℤ = if leb 2 (length body) then as_i8 (at body 1) else pos 0 in
      let dy : ℤ = if leb 3 (length body) then as_i8 (at body 2) else pos 0 in
      let wheel : ℤ = if leb 4 (length body) then as_i8 (at body 3) else pos 0 in
      let now : Bool = has_bit (at body 0) i in
      let move : List InputEvent =
        only_if (not (int_eq dx (pos 0) && int_eq dy (pos 0))) (axis_events rel_x rel_y dx dy) in
      let scroll : List InputEvent =
        only_if (not (int_eq wheel (pos 0))) (axis_events rel_wheel rel_hwheel wheel (pos 0)) in
      replay-append code (all_buttons prev (at body 0)) (move ++ (scroll ++ [])) (has_bit prev i)
      ∙ ap (λ (d : Bool). replay code d (move ++ (scroll ++ [])))
          (replay-all_buttons prev (at body 0) i h)
      ∙ replay-append code move (scroll ++ []) now
      ∙ ap (λ (d : Bool). replay code d (scroll ++ []))
          (replay-only_if _ code now (axis_events rel_x rel_y dx dy)
            (replay-axis code now rel_x rel_y dx dy))
      ∙ replay-append code scroll [] now
      ∙ replay-only_if _ code now (axis_events rel_wheel rel_hwheel wheel (pos 0))
          (replay-axis code now rel_wheel rel_hwheel wheel (pos 0))

  -- On a device that takes every event, if the five buttons are as the last mouse report said, a report
  -- that is not empty and has not the eight bytes of a keyboard report is applied without an error,
  -- and leaves them as its first byte says; that byte is what is kept of it.
  pub apply_report_buttons :
      (statics : Statics) (body : Bytes) (s : S)
      → length body ≢ 0
      → length body ≢ 8
      → IsShown statics.prev s
      → ((apply_report device statics body s).0 ≡ ok (record statics { prev = at body 0 }))
        × IsShown (at body 0) (apply_report device statics body s).1
  unfolding apply_report
  apply_report_buttons statics body s nonempty no_keys shown =
      let applied : apply_report device statics body s ≡ apply_mouse_report device statics body s =
        ground arith in
      let (returns, emitted) = Emits-apply_mouse_report statics body s in
      rw applied (
        returns,
        λ i h.
            ap (replay (button_code i) false) emitted
            ∙ replay-append (button_code i) (r.events s) (mouse_events statics.prev body) false
            ∙ ap (λ (d : Bool). replay (button_code i) d (mouse_events statics.prev body))
                (shown i h)
            ∙ mouse_events-replay statics.prev body i h,
      )
