-- ===== src/Reports/Closed.antt =====
-- A report is a sequence of writes to the device: what holds of these holds of it.
use zerowire.Prelude.{
  ℕ, ℤ, pos, int_eq, Bool, true, false, not, ◌&&◌, leb, if◌then◌else◌, Option, none, some, List, [],
  ◌∷◌, length,
}
use zerowire.Bytes.{Bytes, at}
use zerowire.Io.{Io, pure}
use zerowire.Uinput.{
  InputEvent, UinputDevice, when, emit, sync, ev_rel, rel_x, rel_y, rel_wheel, rel_hwheel,
  mouse_move, mouse_wheel, mouse_button, key,
}
use zerowire.Keymap.{hid_usage_to_linux_key}
use zerowire.Reports.{
  Statics, as_i8, modifier_bits, press_or_release, apply_buttons, apply_mouse_report,
  apply_modifiers, apply_key, apply_keys, apply_keyboard_report, apply_report,
}
use zerowire.Reports.Keys.{report_keys}
use zerowire.Wire.Steady.{Closed, Closed-if}

module _ {S : Type 0} {P : (A : Type 0) → Io S A → Type 0} (c : Closed P) (device : UinputDevice S)
    (writes : (e : InputEvent) → P (Unit {0}) (device.write_event e)) where
  Closed-when : (b : Bool) (m : Io S (Unit {0})) → P (Unit {0}) m → P (Unit {0}) (when b m)
  Closed-when b m h = Closed-if c b m (pure tt) h (c.of_pure tt)

  sync-Closed : P (Unit {0}) (sync device)
  unfolding sync
  sync-Closed = writes _

  key-Closed : (code : ℕ) (pressed : Bool) → P (Unit {0}) (key device code pressed)
  unfolding key
  key-Closed code pressed = c.of_bind _ _ (writes _) (λ _. sync-Closed)

  mouse_button-Closed :
      (code : ℕ) (pressed : Bool) → P (Unit {0}) (mouse_button device code pressed)
  unfolding mouse_button
  mouse_button-Closed code pressed = c.of_bind _ _ (writes _) (λ _. sync-Closed)

  mouse_move-Closed : (dx dy : ℤ) → P (Unit {0}) (mouse_move device dx dy)
  unfolding mouse_move
  mouse_move-Closed dx dy =
      c.of_bind _ _ (Closed-when (not (int_eq dx (pos 0))) (emit device ev_rel rel_x dx) (writes _))
        (λ _.
          c.of_bind _ _
            (Closed-when (not (int_eq dy (pos 0))) (emit device ev_rel rel_y dy) (writes _))
            (λ _. sync-Closed))

  mouse_wheel-Closed : (dv dh : ℤ) → P (Unit {0}) (mouse_wheel device dv dh)
  unfolding mouse_wheel
  mouse_wheel-Closed dv dh =
      c.of_bind _ _
        (Closed-when (not (int_eq dv (pos 0))) (emit device ev_rel rel_wheel dv) (writes _))
        (λ _.
          c.of_bind _ _
            (Closed-when (not (int_eq dh (pos 0))) (emit device ev_rel rel_hwheel dh) (writes _))
            (λ _. sync-Closed))

  press-Closed :
      (prev buttons i code : ℕ) → P (Unit {0}) (press_or_release device prev buttons i code)
  unfolding press_or_release
  press-Closed prev buttons i code = Closed-when _ _ (mouse_button-Closed code _)

  apply_buttons-Closed : (prev buttons : ℕ) → P (Unit {0}) (apply_buttons device prev buttons)
  unfolding apply_buttons
  apply_buttons-Closed prev buttons = c.of_bind _ _ (press-Closed prev buttons 0 _) (λ _.
      c.of_bind _ _ (press-Closed prev buttons 1 _) (λ _.
        c.of_bind _ _ (press-Closed prev buttons 2 _) (λ _.
          c.of_bind _ _ (press-Closed prev buttons 3 _) (λ _. press-Closed prev buttons 4 _))))

  apply_mouse_report-Closed :
      (statics : Statics) (body : Bytes) → P Statics (apply_mouse_report device statics body)
  unfolding apply_mouse_report
  apply_mouse_report-Closed statics body =
      let dx : ℤ = if leb 2 (length body) then as_i8 (at body 1) else pos 0 in
      let dy : ℤ = if leb 3 (length body) then as_i8 (at body 2) else pos 0 in
      let wheel : ℤ = if leb 4 (length body) then as_i8 (at body 3) else pos 0 in
      let moves : Bool = not (int_eq dx (pos 0) && int_eq dy (pos 0)) in
      let scrolls : Bool = not (int_eq wheel (pos 0)) in
      c.of_bind _ _ (apply_buttons-Closed statics.prev (at body 0)) (λ _.
        c.of_bind _ _ (Closed-when moves (mouse_move device dx dy) (mouse_move-Closed dx dy)) (λ _.
          c.of_bind _ _
            (Closed-when scrolls (mouse_wheel device wheel (pos 0))
              (mouse_wheel-Closed wheel (pos 0)))
            (λ _. c.of_pure (record statics { prev = at body 0 }))))

  apply_modifiers-Closed :
      (prev modifier : ℕ) (bs : List (ℕ × ℕ))
      → P (Unit {0}) (apply_modifiers device prev modifier bs)
  unfolding apply_modifiers
  apply_modifiers-Closed prev modifier [] = c.of_pure tt
  apply_modifiers-Closed prev modifier (b ∷ bs) =
      c.of_bind _ _ (Closed-when _ _ (key-Closed b.1 _))
        (λ _. apply_modifiers-Closed prev modifier bs)

  code-Closed :
      (pressed : Bool) (o : Option ℕ)
      → P (Unit {0}) (elim o [ none ↦ pure tt | some code ↦ key device code pressed ])
  code-Closed pressed none = c.of_pure tt
  code-Closed pressed (some code) = key-Closed code pressed

  apply_key-Closed :
      (pressed : Bool) (others : Bytes) (k : ℕ) → P (Unit {0}) (apply_key device pressed others k)
  unfolding apply_key
  apply_key-Closed pressed others k =
      Closed-if c _ _ _ (code-Closed pressed (hid_usage_to_linux_key k)) (c.of_pure tt)

  apply_keys-Closed :
      (pressed : Bool) (others ks : Bytes) → P (Unit {0}) (apply_keys device pressed others ks)
  unfolding apply_keys
  apply_keys-Closed pressed others [] = c.of_pure tt
  apply_keys-Closed pressed others (k ∷ ks) =
      c.of_bind _ _ (apply_key-Closed pressed others k) (λ _. apply_keys-Closed pressed others ks)

  apply_keyboard_report-Closed :
      (statics : Statics) (body : Bytes) → P Statics (apply_keyboard_report device statics body)
  unfolding apply_keyboard_report
  apply_keyboard_report-Closed statics body =
      let keys : Bytes = report_keys body in
      let new : Statics = record statics { prev_mod = at body 0; prev_keys = keys } in
      c.of_bind _ _ (apply_modifiers-Closed statics.prev_mod (at body 0) modifier_bits) (λ _.
        c.of_bind _ _ (apply_keys-Closed false keys statics.prev_keys)
          (λ _. c.of_bind _ _ (apply_keys-Closed true statics.prev_keys keys) (λ _. c.of_pure new)))

  pub apply_report-Closed :
      (statics : Statics) (body : Bytes) → P Statics (apply_report device statics body)
  unfolding apply_report
  apply_report-Closed statics body = Closed-if c _ _ _ (c.of_pure statics) (
      Closed-if c _ _ _ (apply_mouse_report-Closed statics body) (
        Closed-if c _ _ _ (apply_keyboard_report-Closed statics body)
          (apply_mouse_report-Closed statics body)))
