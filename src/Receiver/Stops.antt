-- ===== src/Receiver/Stops.antt =====
-- The loop of the HID receiver ends on every input.
use zerowire.Prelude.{
  ℕ, zero, suc, ◌<◌, ◌≢◌, inl, inr, ap, arith, Bool, true, false, length, err, Bool-cases,
}
use zerowire.Bytes.{Bytes}
use zerowire.Json.{Json}
use zerowire.Envelope.{Channel, control, usbip, hid, keepalive}
use zerowire.Control.{ControlMessage}
use zerowire.Hid
use zerowire.Hid.{
  HidFrame, HidOp, BindAckMeta, DeviceKind, mouse, keyboard, gamepad, other, bind, bind_ack,
  report_in, report_out, report_feature, unbind, parse_bind_ack_body,
}
use zerowire.Io.{Io, hid_frame, out_of_fuel}
use zerowire.Uinput.{InputEvent, UinputDevice, DeviceProfile}
use zerowire.Reports.{Statics}
use zerowire.Reports.Closed.{apply_report-Closed}
use zerowire.Receiver.{
  Session, Round, go_on, leave, profile_of, open_device, on_report, on_hid_op, on_session_envelope,
  receive_loop,
}
use zerowire.Wire.{Stream, recv_envelope}
use zerowire.Wire.Laws.{Transport}
use zerowire.Wire.Sound.{recv_envelope_shrinks}
use zerowire.Wire.Settles.{
  Result-cases, map_err-ne, Settles, Settles-pure, Settles-lift, Settles-bind,
}
use zerowire.Wire.Steady.{Settles-Closed}

profile_of-ne : (meta : BindAckMeta) (kind : DeviceKind) → profile_of meta kind ≢ err out_of_fuel
unfolding profile_of
profile_of-ne meta mouse = λ h. cc
profile_of-ne meta keyboard = λ h. cc
profile_of-ne meta gamepad = λ h. cc
profile_of-ne meta other = λ h. cc

module _ {S : Type 0} {st : Stream S} (t : Transport st) (json : Json ControlMessage)
    (meta_json : Json BindAckMeta) (uinput : UinputDevice S)
    (create : DeviceProfile → Io S (Unit {0})) (stop : S → Bool)
    (writes : (e : InputEvent) → Settles t (uinput.write_event e))
    (creates : (p : DeviceProfile) → Settles t (create p)) where
  open_device-Settles :
      (meta : BindAckMeta) → Settles t (open_device st json meta_json uinput create stop meta)
  unfolding open_device
  open_device-Settles meta =
      Settles-bind t _ create (Settles-lift t _ (profile_of-ne meta meta.kind)) creates

  on_report-Settles :
      (b : Bool) (last_seq seen : ℕ) (statics : Statics) (f : HidFrame)
      → Settles t (
          on_report st json meta_json uinput create stop
            (record { bound = b; last_seq = last_seq; reports_seen = seen; statics = statics })
            f)
  unfolding on_report
  on_report-Settles true last_seq seen statics f =
      Settles-bind t _ _ (apply_report-Closed (Settles-Closed t) uinput writes statics f.body)
        (λ statics'. Settles-pure t _)
  on_report-Settles false last_seq seen statics f = Settles-pure t _

  on_hid_op-Settles :
      (session : Session) (f : HidFrame) (op : HidOp)
      → Settles t (on_hid_op st json meta_json uinput create stop session f op)
  unfolding on_hid_op
  on_hid_op-Settles session f bind_ack =
      Settles-bind t _ _
        (Settles-lift t _ (map_err-ne hid_frame (λ e h. cc) (parse_bind_ack_body meta_json f.body)))
        (λ m. Settles-bind t _ _ (open_device-Settles m.0) (λ _. Settles-pure t _))
  on_hid_op-Settles session f report_in =
      Settles-bind t _ _
        (on_report-Settles session.bound session.last_seq session.reports_seen session.statics f)
        (λ session'. Settles-pure t (go_on session'))
  on_hid_op-Settles session f unbind = Settles-pure t (leave session)
  on_hid_op-Settles session f bind = Settles-pure t (go_on session)
  on_hid_op-Settles session f report_out = Settles-pure t (go_on session)
  on_hid_op-Settles session f report_feature = Settles-pure t (go_on session)

  on_session_envelope-Settles :
      (session : Session) (c : Channel) (payload : Bytes)
      → Settles t (
          on_session_envelope st json meta_json uinput create stop session
            (record { channel = c; payload = payload }))
  unfolding on_session_envelope
  on_session_envelope-Settles session hid payload =
      Settles-bind t _ _ (Settles-lift t _ (map_err-ne hid_frame (λ e h. cc) (Hid.parse payload)))
        (λ f. on_hid_op-Settles session f f.op)
  on_session_envelope-Settles session control payload = Settles-pure t (go_on session)
  on_session_envelope-Settles session usbip payload = Settles-pure t (go_on session)
  on_session_envelope-Settles session keepalive payload = Settles-pure t (go_on session)

  -- Whatever the sender has sent, and whether or not the writes to uinput succeed, if neither they nor
  -- the creation of a device read from the stream or run out of fuel, the loop returns: it does not
  -- run out of a fuel that is larger than the number of bytes to come.
  pub receive_loop_stops :
      (fuel : ℕ) (session : Session) (s : S)
      → length (t.incoming s) < fuel
      → (receive_loop st json meta_json uinput create stop fuel session s).0 ≢ err out_of_fuel
  unfolding receive_loop
  receive_loop_stops zero session s h = absurd (omega arith)
  receive_loop_stops (suc fuel) session s h = elim (Bool-cases (stop s)) [
    | inl stopping ↦ rw (stopping, receive_loop) (λ p. cc)
    | inr running ↦ elim (Result-cases (recv_envelope st s).0) [
      | inr (e, ended) ↦ rw (running, ended, receive_loop) (λ p. cc)
      | inl (env, got) ↦
          let s1 : S = (recv_envelope st s).1 in
          let m : Io S Round =
            on_session_envelope st json meta_json uinput create stop session env in
          let settled : Settles t m = on_session_envelope-Settles session env.channel env.payload in
          let shrunk = recv_envelope_shrinks t s env got in
          let left = ap length (settled.keeps s1) in
          rw (running, got, receive_loop)
            (elim (Result-cases (m s1).0) [
              | inr (e, failed) ↦ rw failed (λ p. settled.fuel s1 (ground arith))
              | inl (go_on session', went) ↦
                  rw went (receive_loop_stops fuel session' (m s1).1 (omega arith))
              | inl (leave session', went) ↦ rw went (λ p. cc)
            ])
    ]
  ]
