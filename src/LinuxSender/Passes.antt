-- ===== src/LinuxSender/Passes.antt =====
-- What the receiver makes of what the sender for a real HID device sends.
use zerowire.Prelude.{
  ℕ, ◌+◌, ◌%◌, ◌^◌, ◌<◌, ◌≤◌, ◌≡◌, refl, arith, true, List, [], ◌∷◌, ◌++◌, ok, length, All, map,
}
use zerowire.Bytes.{Bytes}
use zerowire.Json.{Json, RoundTrips}
use zerowire.Envelope.{Envelope, max_payload}
use zerowire.Hid.{BindAckMeta, encode_bind_ack_body}
use zerowire.Hid.Frame.{parse-encode_hid, length-encode_hid}
use zerowire.Hid.BindAck.{parse_bind_ack_body-encode}
use zerowire.Uinput.{InputEvent, DeviceProfile}
use zerowire.Reports.{Statics, zero_statics}
use zerowire.Reports.Whole.{report_events, after_report}
use zerowire.Receiver.{Session, new_session, profile_of}
use zerowire.Receiver.Machine.{acknowledged, report as said_report, unbound, say, course}
use zerowire.Wire.Chain.{IsWithinLimit}
use zerowire.LinuxSender.{
  ExposedHidraw, Reading, report, would_block, end_of_file, numbered_report, meta_for,
  descriptor_for,
}
use zerowire.LinuxSender.Forward.{forwarded, FitsBuffer}
use zerowire.LinuxSender.Serve.{ack_of, goodbye}
use zerowire.MockSender.Streams.{hid_message}

-- The events that the reports of a file come to, each on what the ones before have left.
abbrev pub passed_on : Statics → List Reading → List InputEvent
passed_on statics [] = []
passed_on statics (report body ∷ rs) =
    report_events statics body ++ passed_on (after_report statics body) rs
passed_on statics (would_block ∷ rs) = passed_on statics rs
passed_on statics (end_of_file ∷ rs) = []

abbrev pub bound_session : ℕ → ℕ → Statics → Session
bound_session last_seq reports_seen statics = record {
  bound = true;
  last_seq = last_seq;
  reports_seen = reports_seen;
  statics = statics;
}

-- The session after the reports of a file: the last sequence number, the reports seen and the statics.
abbrev pub after_all : ℕ → ℕ → Statics → List Reading → Session
after_all last_seq reports_seen statics [] = bound_session last_seq reports_seen statics
after_all last_seq reports_seen statics (report body ∷ rs) =
    after_all ((last_seq + 1) % 2 ^ 16) ((reports_seen + 1) % 2 ^ 64) (after_report statics body) rs
after_all last_seq reports_seen statics (would_block ∷ rs) =
    after_all last_seq reports_seen statics rs
after_all last_seq reports_seen statics (end_of_file ∷ rs) =
    bound_session last_seq reports_seen statics

-- What the sender sends once a device is bound, over a file that gives `rs`.
abbrev pub sent : Json BindAckMeta → ℕ → ExposedHidraw → List Reading → List Envelope
sent json id chosen rs =
    hid_message (ack_of json id chosen) ∷ (forwarded id 0 rs ++ (hid_message (goodbye id) ∷ []))

length-forwarded :
    (id seq : ℕ) (rs : List Reading)
    → length (forwarded id seq rs ++ (hid_message (goodbye id) ∷ [])) ≤ length rs + 1
length-forwarded id seq [] = omega arith
length-forwarded id seq (report body ∷ rs) =
    omega (arith, length-forwarded id ((seq + 1) % 2 ^ 16) rs)
length-forwarded id seq (would_block ∷ rs) = omega (arith, length-forwarded id seq rs)
length-forwarded id seq (end_of_file ∷ rs) = omega arith

forwarded-fit :
    (id seq : ℕ) (rs : List Reading)
    → All FitsBuffer rs
    → All IsWithinLimit (forwarded id seq rs ++ (hid_message (goodbye id) ∷ []))
forwarded-fit id seq [] fit = (omega (arith, length-encode_hid (goodbye id)), tt)
forwarded-fit id seq (report body ∷ rs) fit =
    let n : ℕ = (seq + 1) % 2 ^ 16 in
    let small : length body ≤ 64 = fit.0 in
    (omega (arith, length-encode_hid (numbered_report id n body)), forwarded-fit id n rs fit.1)
forwarded-fit id seq (would_block ∷ rs) fit = forwarded-fit id seq rs fit.1
forwarded-fit id seq (end_of_file ∷ rs) fit = (omega (arith, length-encode_hid (goodbye id)), tt)

module _ (json : Json BindAckMeta) where
  pub length-sent :
      (id : ℕ) (chosen : ExposedHidraw) (rs : List Reading)
      → length (sent json id chosen rs) ≤ length rs + 2
  length-sent id chosen rs = omega (arith, length-forwarded id 0 rs)

  pub sent-fit :
      (id : ℕ) (chosen : ExposedHidraw) (rs : List Reading)
      → 4
          + length
              (encode_bind_ack_body json (meta_for chosen) (descriptor_for (meta_for chosen).kind))
        ≤ max_payload
      → All FitsBuffer rs
      → All IsWithinLimit (sent json id chosen rs)
  sent-fit id chosen rs fits fit =
      (omega (arith, length-encode_hid (ack_of json id chosen)), forwarded-fit id 0 rs fit)

  say-numbered :
      (id n : ℕ) (body : Bytes)
      → n < 2 ^ 16
      → say json (hid_message (numbered_report id n body)) ≡ said_report (numbered_report id n body)
  say-numbered id n body small = rw (parse-encode_hid (numbered_report id n body) small) refl

  say-goodbye : (id : ℕ) → say json (hid_message (goodbye id)) ≡ unbound
  say-goodbye id = rw (parse-encode_hid (goodbye id) (omega arith)) refl

  say-ack_of :
      (id : ℕ) (chosen : ExposedHidraw)
      → RoundTrips json (meta_for chosen)
      → length (json.to_vec (meta_for chosen)) < 2 ^ 16
      → say json (hid_message (ack_of json id chosen)) ≡ acknowledged (meta_for chosen)
  say-ack_of id chosen back short =
      rw
        (
          parse-encode_hid (ack_of json id chosen) (omega arith),
          parse_bind_ack_body-encode json (meta_for chosen) (descriptor_for (meta_for chosen).kind)
              back short,
        )
        refl

  course-forwarded :
      (id last_seq reports_seen : ℕ) (statics : Statics) (rs : List Reading)
      → course
          (bound_session last_seq reports_seen statics)
          (map (say json) (forwarded id last_seq rs ++ (hid_message (goodbye id) ∷ [])))
        ≡ (ok (after_all last_seq reports_seen statics rs), [], passed_on statics rs)
  course-forwarded id last_seq reports_seen statics [] = rw (say-goodbye id) refl
  course-forwarded id last_seq reports_seen statics (report body ∷ rs) =
      rw
        (
          say-numbered id ((last_seq + 1) % 2 ^ 16) body (omega arith),
          course-forwarded id ((last_seq + 1) % 2 ^ 16) ((reports_seen + 1) % 2 ^ 64)
              (after_report statics body) rs,
        )
        refl
  course-forwarded id last_seq reports_seen statics (would_block ∷ rs) =
      course-forwarded id last_seq reports_seen statics rs
  course-forwarded id last_seq reports_seen statics (end_of_file ∷ rs) = rw (say-goodbye id) refl

  pub course-sent :
      (id : ℕ) (chosen : ExposedHidraw) (profile : DeviceProfile) (rs : List Reading)
      → RoundTrips json (meta_for chosen)
      → length (json.to_vec (meta_for chosen)) < 2 ^ 16
      → profile_of (meta_for chosen) (meta_for chosen).kind ≡ ok profile
      → course new_session (map (say json) (sent json id chosen rs))
        ≡ (ok (after_all 0 0 zero_statics rs), profile ∷ [], passed_on zero_statics rs)
  course-sent id chosen profile rs back short known =
      rw (say-ack_of id chosen back short, known, course-forwarded id 0 0 zero_statics rs) refl
