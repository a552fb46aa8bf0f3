-- ===== src/Reports/Whole.antt =====
-- Any report, as the events that it stands for.
use zerowire.Prelude.{
  ◌≡◌, ◌≢◌, refl, arith, Bool, ==_iff, true, false, ◌==◌, if◌then◌else◌, List, [], ◌∷◌, length,
}
use zerowire.Bytes.{Bytes, at}
use zerowire.Io.{Io}
use zerowire.Uinput.{InputEvent, UinputDevice}
use zerowire.Reports.{Statics, apply_mouse_report, apply_keyboard_report, apply_report}
use zerowire.Reports.Events.{Recorder, Emits, Emits-pure}
use zerowire.Reports.Keys.{report_keys}
use zerowire.Reports.Buttons.{mouse_events, Emits-apply_mouse_report}
use zerowire.Reports.Keyboard.{keyboard_events, Emits-apply_keyboard_report}

-- A report of eight bytes is a keyboard's, any other a mouse's, and an empty one says nothing.
abbrev pub is_keyboard : Bytes → Bool
is_keyboard body = length body == 8

abbrev pub report_events : Statics → Bytes → List InputEvent
report_events statics [] = []
report_events statics body =
    if is_keyboard body then keyboard_events statics body else mouse_events statics.prev body

abbrev pub after_report : Statics → Bytes → Statics
after_report statics [] = statics
after_report statics body =
    if is_keyboard body
    then record statics { prev_mod = at body 0; prev_keys = report_keys body }
    else record statics { prev = at body 0 }

module _ {S : Type 0} {device : UinputDevice S} (r : Recorder device) where
  Emits-same :
      (m k : Io S Statics) (s : S) (a : Statics) (es : List InputEvent)
      → m s ≡ k s
      → Emits r k s a es
      → Emits r m s a es
  Emits-same m k s a es e h = rw e h

  by_kind :
      (statics : Statics) (body : Bytes) (s : S) (keys : Bool)
      → length body ≢ 0
      → is_keyboard body ≡ keys
      → Emits r
          (apply_report device statics body)
          s
          (if keys
            then record statics { prev_mod = at body 0; prev_keys = report_keys body }
            else record statics { prev = at body 0 })
          (if keys then keyboard_events statics body else mouse_events statics.prev body)
  unfolding apply_report
  by_kind statics body s true some_bytes e =
      let eight : length body ≡ 8 = (==_iff (length body) 8).0 e in
      let applied : apply_report device statics body s
          ≡ apply_keyboard_report device statics body s =
        ground arith in
      Emits-same (apply_report device statics body) (apply_keyboard_report device statics body) s _
        _ applied (Emits-apply_keyboard_report r statics body s)
  by_kind statics body s false some_bytes e =
      let applied : apply_report device statics body s ≡ apply_mouse_report device statics body s =
        ground arith in
      Emits-same (apply_report device statics body) (apply_mouse_report device statics body) s _ _
        applied (Emits-apply_mouse_report r statics body s)

  pub Emits-apply_report :
      (statics : Statics) (body : Bytes) (s : S)
      → Emits r
          (apply_report device statics body)
          s
          (after_report statics body)
          (report_events statics body)
  unfolding apply_report
  Emits-apply_report statics [] s = Emits-pure r statics s
  Emits-apply_report statics (b ∷ bs) s =
      by_kind statics (b ∷ bs) s (is_keyboard (b ∷ bs)) (λ e. absurd (omega arith)) refl
