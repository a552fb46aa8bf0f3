-- ===== src/Reports/Events.antt =====
-- The events that an action on the virtual device emits, and which keys they leave pressed.
use zerowire.Prelude.{
  ℕ, ◌≡◌, refl, ap, ◌∙◌, sym, arith, ℤ, pos, int_eq, Bool, true, false, not, ◌&&◌, ◌==◌,
  if◌then◌else◌, List, [], ◌∷◌, ◌++◌, ok, append_assoc, append-nil,
}
use zerowire.Io.{Io, pure, ◌>>◌}
use zerowire.Uinput.{
  InputEvent, UinputDevice, when, emit, sync, mouse_move, mouse_wheel, mouse_button, key, ev_key,
  ev_syn, ev_rel, syn_report, rel_x, rel_y, rel_wheel, rel_hwheel,
}

-- A device that takes every event and keeps them in order.
pub record Recorder {S : Type 0} (device : UinputDevice S) : Type 0 where
  pub events : S → List InputEvent
  pub takes : (e : InputEvent) (s : S) → (device.write_event e s).0 ≡ ok tt
  pub appends : (e : InputEvent) (s : S) → events (device.write_event e s).1 ≡ events s ++ (e ∷ [])

-- Whether the key `code` is down after the events, if it is down before them or not.
abbrev pub replay : ℕ → Bool → List InputEvent → Bool
replay code down [] = down
replay code down (e ∷ es) =
    replay code (if e.ty == ev_key && e.code == code then not (int_eq e.value (pos 0)) else down) es

pub replay-append :
    (code : ℕ) (es fs : List InputEvent) (down : Bool)
    → replay code down (es ++ fs) ≡ replay code (replay code down es) fs
replay-append code [] fs down = refl
replay-append code (e ∷ es) fs down = replay-append code es fs _

abbrev pub event : ℕ → ℕ → ℤ → InputEvent
event ty code value = record { ty = ty; code = code; value = value }

abbrev pub only_if : Bool → List InputEvent → List InputEvent
only_if b es = if b then es else []

abbrev pub key_events : ℕ → Bool → List InputEvent
key_events code pressed =
    event ev_key code (if pressed then pos 1 else pos 0) ∷ event ev_syn syn_report (pos 0) ∷ []

-- A motion along the axes `x` and `y`.
abbrev pub axis_events : ℕ → ℕ → ℤ → ℤ → List InputEvent
axis_events x y dx dy =
    only_if (not (int_eq dx (pos 0))) (event ev_rel x dx ∷ [])
    ++ (only_if (not (int_eq dy (pos 0))) (event ev_rel y dy ∷ [])
        ++ (event ev_syn syn_report (pos 0) ∷ []))

pub replay-only_if :
    (b : Bool) (code : ℕ) (down : Bool) (es : List InputEvent)
    → replay code down es ≡ down
    → replay code down (only_if b es) ≡ down
replay-only_if true code down es h = h
replay-only_if false code down es h = refl

-- Motions press and release nothing.
pub replay-axis :
    (code : ℕ) (down : Bool) (x y : ℕ) (dx dy : ℤ) → replay code down (axis_events x y dx dy) ≡ down
replay-axis code down x y dx dy = ground arith

module _ {S : Type 0} {device : UinputDevice S} (r : Recorder device) where
  -- `m` returns `a` and emits `es`.
  abbrev pub Emits : {A : Type 0} → Io S A → S → A → List InputEvent → Type 0
  Emits m s a es = ((m s).0 ≡ ok a) × (r.events (m s).1 ≡ r.events s ++ es)

  -- One action after another.
  pub Emits-then :
      {B : Type 0} (m : Io S (Unit {0})) (k : Io S B) {b : B} (es fs : List InputEvent)
      → ((s : S) → Emits m s tt es)
      → ((s : S) → Emits k s b fs)
      → (s : S) → Emits (m >> k) s b (es ++ fs)
  Emits-then m k {b} es fs first second s =
      let h = first s in
      let next = second (m s).1 in
      rw h.0 (
        next.0,
        next.1 ∙ ap (λ (z : List InputEvent). z ++ fs) h.1 ∙ append_assoc (r.events s) es fs,
      )

  pub Emits-pure : {A : Type 0} (a : A) (s : S) → Emits (pure a) s a []
  Emits-pure a s = (refl, sym (append-nil (r.events s)))

  pub Emits-emit : (e : InputEvent) (s : S) → Emits (device.write_event e) s tt (e ∷ [])
  Emits-emit e s = (r.takes e s, r.appends e s)

  pub Emits-when :
      (b : Bool) (m : Io S (Unit {0})) (es : List InputEvent)
      → ((s : S) → Emits m s tt es)
      → (s : S) → Emits (when b m) s tt (only_if b es)
  Emits-when true m es h s = h s
  Emits-when false m es h s = Emits-pure tt s

  pub Emits-key :
      (code : ℕ) (pressed : Bool) (s : S)
      → Emits (key device code pressed) s tt (key_events code pressed)
  unfolding key
  Emits-key code pressed =
      Emits-then (emit device ev_key code (if pressed then pos 1 else pos 0)) (sync device) _ _
        (Emits-emit _) (Emits-emit _)

  pub Emits-mouse_button :
      (code : ℕ) (pressed : Bool) (s : S)
      → Emits (mouse_button device code pressed) s tt (key_events code pressed)
  unfolding mouse_button
  Emits-mouse_button code pressed =
      Emits-then (emit device ev_key code (if pressed then pos 1 else pos 0)) (sync device) _ _
        (Emits-emit _) (Emits-emit _)

  Emits-axis :
      (x y : ℕ) (dx dy : ℤ) (s : S)
      → Emits
          (when (not (int_eq dx (pos 0))) (emit device ev_rel x dx)
            >> (when (not (int_eq dy (pos 0))) (emit device ev_rel y dy) >> sync device))
          s
          tt
          (axis_events x y dx dy)
  unfolding sync
  Emits-axis x y dx dy =
      Emits-then (when (not (int_eq dx (pos 0))) (emit device ev_rel x dx))
        (when (not (int_eq dy (pos 0))) (emit device ev_rel y dy) >> sync device) _ _
        (Emits-when (not (int_eq dx (pos 0))) (emit device ev_rel x dx) _ (Emits-emit _))
        (Emits-then (when (not (int_eq dy (pos 0))) (emit device ev_rel y dy)) (sync device) _ _
          (Emits-when (not (int_eq dy (pos 0))) (emit device ev_rel y dy) _ (Emits-emit _))
          (Emits-emit _))

  pub Emits-mouse_move :
      (dx dy : ℤ) (s : S) → Emits (mouse_move device dx dy) s tt (axis_events rel_x rel_y dx dy)
  unfolding mouse_move
  Emits-mouse_move = Emits-axis rel_x rel_y

  pub Emits-mouse_wheel :
      (dv dh : ℤ) (s : S)
      → Emits (mouse_wheel device dv dh) s tt (axis_events rel_wheel rel_hwheel dv dh)
  unfolding mouse_wheel
  Emits-mouse_wheel = Emits-axis rel_wheel rel_hwheel
