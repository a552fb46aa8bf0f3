-- ===== src/Reports/Keyboard.antt =====
-- Keyboard reports: what `apply_report` emits for one, and the keys that are down after it.
use zerowire.Prelude.{
  ℕ, ◌≡◌, ◌≢◌, ap, ◌∙◌, arith, Bool, true, false, not, ◌&&◌, ◌==◌, if◌then◌else◌, Option, none,
  some, List, [], ◌∷◌, ◌++◌, ok, length,
}
use zerowire.Bytes.{Bytes, at, AllBytes, IsByte}
use zerowire.Io.{Io, pure, ◌>>◌}
use zerowire.Uinput.{InputEvent, UinputDevice, when, key}
use zerowire.Keymap.{hid_usage_to_linux_key}
use zerowire.Reports.{
  Statics, has_bit, contains, modifier_bits, apply_modifiers, apply_key, apply_keys,
  apply_keyboard_report, apply_report,
}
use zerowire.Reports.Events.{
  Recorder, replay, replay-append, Emits, Emits-then, Emits-pure, Emits-when, Emits-key,
}
use zerowire.Reports.Keys.{
  modifiers_events, code_events, usage_events, usages_events, replay-report, report_keys,
  report_keys-AllBytes,
}

abbrev pub keyboard_events : Statics → Bytes → List InputEvent
keyboard_events statics body =
    modifiers_events statics.prev_mod (at body 0) modifier_bits
    ++ (usages_events false (report_keys body) statics.prev_keys
        ++ (usages_events true statics.prev_keys (report_keys body) ++ []))

module _ {S : Type 0} {device : UinputDevice S} (r : Recorder device) where
  Emits-apply_modifiers :
      (prev now : ℕ) (bs : List (ℕ × ℕ)) (s : S)
      → Emits r (apply_modifiers device prev now bs) s tt (modifiers_events prev now bs)
  unfolding apply_modifiers
  Emits-apply_modifiers prev now [] = Emits-pure r tt
  Emits-apply_modifiers prev now (b ∷ bs) =
      let changed : Bool = if has_bit prev b.0 then not (has_bit now b.0) else has_bit now b.0 in
      let act : Io S (Unit {0}) = key device b.1 (has_bit now b.0) in
      Emits-then r (when changed act) (apply_modifiers device prev now bs) _ _
        (Emits-when r changed act _ (Emits-key r b.1 (has_bit now b.0)))
        (Emits-apply_modifiers prev now bs)

  abbrev code_action : Bool → Option ℕ → Io S (Unit {0})
  code_action pressed o = elim o [ none ↦ pure tt | some code ↦ key device code pressed ]

  Emits-code_action :
      (pressed : Bool) (o : Option ℕ) (s : S)
      → Emits r (code_action pressed o) s tt (code_events pressed o)
  Emits-code_action pressed none = Emits-pure r tt
  Emits-code_action pressed (some code) = Emits-key r code pressed

  Emits-apply_key :
      (pressed : Bool) (others : Bytes) (k : ℕ) (s : S)
      → Emits r (apply_key device pressed others k) s tt (usage_events pressed others k)
  unfolding apply_key
  Emits-apply_key pressed others k =
      Emits-when r (not (k == 0) && not (contains others k))
        (code_action pressed (hid_usage_to_linux_key k)) _
        (Emits-code_action pressed (hid_usage_to_linux_key k))

  Emits-apply_keys :
      (pressed : Bool) (others ks : Bytes) (s : S)
      → Emits r (apply_keys device pressed others ks) s tt (usages_events pressed others ks)
  unfolding apply_keys
  Emits-apply_keys pressed others [] = Emits-pure r tt
  Emits-apply_keys pressed others (k ∷ ks) =
      Emits-then r (apply_key device pressed others k) (apply_keys device pressed others ks) _ _
        (Emits-apply_key pressed others k) (Emits-apply_keys pressed others ks)

  pub Emits-apply_keyboard_report :
      (statics : Statics) (body : Bytes) (s : S)
      → Emits r
          (apply_keyboard_report device statics body)
          s
          (record statics { prev_mod = at body 0; prev_keys = report_keys body })
          (keyboard_events statics body)
  unfolding apply_keyboard_report
  Emits-apply_keyboard_report statics body =
      let new : Statics = record statics { prev_mod = at body 0; prev_keys = report_keys body } in
      let keys : Bytes = report_keys body in
      let release : Io S (Unit {0}) = apply_keys device false keys statics.prev_keys in
      let press : Io S (Unit {0}) = apply_keys device true statics.prev_keys keys in
      Emits-then r (apply_modifiers device statics.prev_mod (at body 0) modifier_bits)
        (release >> (press >> pure new)) _ _
        (Emits-apply_modifiers statics.prev_mod (at body 0) modifier_bits)
        (Emits-then r release (press >> pure new) _ _
          (Emits-apply_keys false keys statics.prev_keys)
          (Emits-then r press (pure new) _ _ (Emits-apply_keys true statics.prev_keys keys)
            (Emits-pure r new)))

  -- Every key that has a code is down or up as the usages `keys` say.
  abbrev pub AreShown : Bytes → S → Type 0
  AreShown keys s =
      (k code : ℕ)
      → IsByte k
      → k ≢ 0
      → hid_usage_to_linux_key k ≡ some code
      → replay code false (r.events s) ≡ contains keys k

  -- On a device that takes every event, if every key with a code is down or up as the last keyboard
  -- report said, a report of eight bytes is applied without an error, and leaves exactly those keys
  -- down that are among its six key bytes; these and the modifier byte are what is kept of it.
  pub apply_report_keys :
      (statics : Statics) (body : Bytes) (s : S)
      → length body ≡ 8
      → AllBytes body
      → AllBytes statics.prev_keys
      → AreShown statics.prev_keys s
      → ((apply_report device statics body s).0
          ≡ ok (record statics { prev_mod = at body 0; prev_keys = report_keys body }))
        × AreShown (report_keys body) (apply_report device statics body s).1
  unfolding apply_report
  apply_report_keys statics body s eight bytes prev_bytes shown =
      let applied : apply_report device statics body s
          ≡ apply_keyboard_report device statics body s =
        ground arith in
      let (returns, emitted) = Emits-apply_keyboard_report statics body s in
      rw applied (
        returns,
        λ k code fits nonzero coded.
            ap (replay code false) emitted
            ∙ replay-append code (r.events s) (keyboard_events statics body) false
            ∙ ap (λ (d : Bool). replay code d (keyboard_events statics body))
                (shown k code fits nonzero coded)
            ∙ replay-report k code fits nonzero coded statics.prev_mod (at body 0) statics.prev_keys
                (report_keys body) prev_bytes (report_keys-AllBytes body bytes),
      )
