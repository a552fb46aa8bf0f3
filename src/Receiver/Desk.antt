-- ===== src/Receiver/Desk.antt =====
-- What the receiver writes to: a virtual device that takes every event, beside the stream.
use zerowire.Prelude.{ℕ, ◌≡◌, sym, ◌∙◌, List, [], ◌∷◌, ◌++◌, Result, ok, append-nil}
use zerowire.Bytes.{Bytes}
use zerowire.Io.{Io, Failure}
use zerowire.Uinput.{InputEvent, UinputDevice, DeviceProfile}
use zerowire.Reports.{Statics, apply_report}
use zerowire.Reports.Events.{Recorder}
use zerowire.Reports.Whole.{report_events, after_report, Emits-apply_report}
use zerowire.Reports.Closed.{apply_report-Closed}
use zerowire.Wire.{Stream, recv_envelope}
use zerowire.Wire.Laws.{Transport}
use zerowire.Wire.Settles.{Settles}
use zerowire.Wire.Steady.{Steady, Settles-Closed, Steady-Closed, recv_envelope-Steady}

module _ {S : Type 0} {st : Stream S} (t : Transport st) (uinput : UinputDevice S)
    (create : DeviceProfile → Io S (Unit {0})) where
  -- The documented behaviour of uinput: a device is created as its profile says, events are taken in
  -- order, and the stream is another file.
  pub record Desk : Type 0 where
    pub recorder : Recorder uinput
    pub profiles : S → List DeviceProfile
    pub creates : (p : DeviceProfile) (s : S) → (create p s).0 ≡ ok tt
    pub create_adds : (p : DeviceProfile) (s : S) → profiles (create p s).1 ≡ profiles s ++ (p ∷ [])
    pub create_events : (p : DeviceProfile) → Steady recorder.events (create p)
    pub create_settles : (p : DeviceProfile) → Settles t (create p)
    pub create_outgoing : (p : DeviceProfile) → Steady t.outgoing (create p)
    pub write_outgoing : (e : InputEvent) → Steady t.outgoing (uinput.write_event e)
    pub write_profiles : (e : InputEvent) → Steady profiles (uinput.write_event e)
    pub write_settles : (e : InputEvent) → Settles t (uinput.write_event e)
    pub read_profiles : (n : ℕ) → Steady profiles (st.read_exact n)
    pub read_events : (n : ℕ) → Steady recorder.events (st.read_exact n)
    pub send_profiles : (bs : Bytes) → Steady profiles (st.write_all bs)
    pub send_events : (bs : Bytes) → Steady recorder.events (st.write_all bs)

  module _ (desk : Desk) where
    -- `m` has the result `r`, takes no input, writes nothing, creates `ps` and emits `es`.
    pub record Does {A : Type 0} (m : Io S A) (s : S) (r : Result Failure A)
        (ps : List DeviceProfile) (es : List InputEvent) : Type 0 where
      pub returns : (m s).0 ≡ r
      pub keeps : t.incoming (m s).1 ≡ t.incoming s
      pub silent : t.outgoing (m s).1 ≡ t.outgoing s
      pub made : desk.profiles (m s).1 ≡ desk.profiles s ++ ps
      pub emitted : desk.recorder.events (m s).1 ≡ desk.recorder.events s ++ es

    pub create-Does : (p : DeviceProfile) (s : S) → Does (create p) s (ok tt) (p ∷ []) []
    create-Does p s = record {
      returns = desk.creates p s;
      keeps = (desk.create_settles p).keeps s;
      silent = (desk.create_outgoing p).same s;
      made = desk.create_adds p s;
      emitted = (desk.create_events p).same s ∙ sym (append-nil (desk.recorder.events s));
    }

    pub apply_report-Does :
        (statics : Statics) (body : Bytes) (s : S)
        → Does
            (apply_report uinput statics body)
            s
            (ok (after_report statics body))
            []
            (report_events statics body)
    apply_report-Does statics body s =
        let (returned, added) = Emits-apply_report desk.recorder statics body s in
        record {
          returns = returned;
          keeps =
              (apply_report-Closed (Settles-Closed t) uinput desk.write_settles statics body).keeps
                s;
          silent =
              (apply_report-Closed (Steady-Closed t.outgoing) uinput desk.write_outgoing statics
                  body).same
                s;
          made =
              (apply_report-Closed (Steady-Closed desk.profiles) uinput desk.write_profiles statics
                  body).same
                s
              ∙ sym (append-nil (desk.profiles s));
          emitted = added;
        }

    pub recv_envelope-profiles : (s : S) → desk.profiles (recv_envelope st s).1 ≡ desk.profiles s
    recv_envelope-profiles = (recv_envelope-Steady desk.profiles st desk.read_profiles).same

    pub recv_envelope-events :
        (s : S) → desk.recorder.events (recv_envelope st s).1 ≡ desk.recorder.events s
    recv_envelope-events = (recv_envelope-Steady desk.recorder.events st desk.read_events).same
