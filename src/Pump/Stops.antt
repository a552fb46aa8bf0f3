-- ===== src/Pump/Stops.antt =====
-- The pump ends on every input: enough fuel is one more round than there are bytes to come.
use zerowire.Prelude.{
  ℕ, zero, suc, ◌<◌, ◌≢◌, inl, inr, ap, arith, Option, none, some, length, take, err, ok_or,
}
use zerowire.Bytes.{Bytes}
use zerowire.Envelope.{Channel, control, usbip, hid, keepalive}
use zerowire.Usbip.{
  UrbOp, cmd_submit, cmd_unlink, ret_submit, ret_unlink, peek_urb_op, urb_header_len,
}
use zerowire.Usbip.Frame
use zerowire.Usbip.Frame.{UsbipError}
use zerowire.Usbip.CmdSubmit
use zerowire.Usbip.CmdSubmit.{CmdSubmit}
use zerowire.Usbip.CmdUnlink
use zerowire.Usbip.CmdUnlink.{CmdUnlink}
use zerowire.Device.{FakeDevice}
use zerowire.Io.{Io, urb, usbip_frame, unknown_urb_op, out_of_fuel}
use zerowire.Wire.{Stream, recv_envelope}
use zerowire.Wire.Laws.{Transport}
use zerowire.Wire.Sound.{recv_envelope_shrinks}
use zerowire.Wire.Settles.{
  Result-cases, map_err-ne, Settles, Settles-pure, Settles-raise, Settles-lift, Settles-if,
  Settles-bind, send_envelope-Settles,
}
use zerowire.Pump.{
  PumpStats, no_stats, submit, unlink, on_op, handle_urb_packet, on_envelope, pump_loop, run_pump,
}

unknown_op_ne : (o : Option UrbOp) → ok_or o unknown_urb_op ≢ err out_of_fuel
unknown_op_ne none = λ h. cc
unknown_op_ne (some a) = λ h. cc

module _ {S : Type 0} {st : Stream S} (t : Transport st) (import_id : ℕ) (device : FakeDevice) where
  submit-Settles :
      (raw : Bytes) (stats : PumpStats) (cmd : CmdSubmit)
      → Settles t (submit st import_id device raw stats cmd)
  unfolding submit
  submit-Settles raw stats cmd =
      Settles-if t _ _ _ (Settles-raise t _ (λ e. cc))
        (Settles-bind t _ _ (send_envelope-Settles t usbip _) (λ _. Settles-pure t _))

  unlink-Settles :
      (stats : PumpStats) (u : CmdUnlink) → Settles t (unlink st import_id device stats u)
  unfolding unlink
  unlink-Settles stats u =
      Settles-bind t _ _ (send_envelope-Settles t usbip _) (λ _. Settles-pure t _)

  on_op-Settles :
      (raw : Bytes) (stats : PumpStats) (op : UrbOp)
      → Settles t (on_op st import_id device raw stats op)
  unfolding on_op
  on_op-Settles raw stats cmd_submit =
      Settles-bind t _ _
        (Settles-lift t _ (map_err-ne urb (λ e h. cc) (CmdSubmit.parse (take urb_header_len raw))))
        (submit-Settles raw stats)
  on_op-Settles raw stats cmd_unlink =
      Settles-bind t _ _
        (Settles-lift t _ (map_err-ne urb (λ e h. cc) (CmdUnlink.parse (take urb_header_len raw))))
        (unlink-Settles stats)
  on_op-Settles raw stats ret_submit = Settles-raise t _ (λ e. cc)
  on_op-Settles raw stats ret_unlink = Settles-raise t _ (λ e. cc)

  handle_urb_packet-Settles :
      (raw : Bytes) (stats : PumpStats)
      → Settles t (handle_urb_packet st import_id device raw stats)
  unfolding handle_urb_packet
  handle_urb_packet-Settles raw stats = Settles-if t _ _ _ (Settles-raise t _ (λ e. cc)) (
      Settles-bind t _ _ (Settles-lift t _ (unknown_op_ne (peek_urb_op raw)))
        (on_op-Settles raw stats))

  by_channel :
      (c : Channel) (payload : Bytes) (stats : PumpStats)
      → Settles t
          (on_envelope st import_id device (record { channel = c; payload = payload }) stats)
  unfolding on_envelope
  by_channel usbip payload stats =
      Settles-bind t _ _
        (Settles-lift t _ (map_err-ne usbip_frame (λ e h. cc) (Frame.parse payload)))
        (λ f.
          Settles-if t _ _ _ (Settles-raise t _ (λ e. cc)) (handle_urb_packet-Settles f.raw stats))
  by_channel control payload stats = Settles-pure t stats
  by_channel hid payload stats = Settles-pure t stats
  by_channel keepalive payload stats = Settles-pure t stats

  pump_loop_stops :
      (fuel : ℕ) (stats : PumpStats) (s : S)
      → length (t.incoming s) < fuel
      → (pump_loop st import_id device fuel stats s).0 ≢ err out_of_fuel
  unfolding pump_loop
  pump_loop_stops zero stats s h = absurd (omega arith)
  pump_loop_stops (suc fuel) stats s h = elim (Result-cases (recv_envelope st s).0) [
    | inr (e, ended) ↦ rw ended (λ p. cc)
    | inl (env, got) ↦
        let s1 : S = (recv_envelope st s).1 in
        let m : Io S PumpStats = on_envelope st import_id device env stats in
        let settled : Settles t m = by_channel env.channel env.payload stats in
        let shrunk = recv_envelope_shrinks t s env got in
        rw got (elim (Result-cases (m s1).0) [
          | inr (e, failed) ↦ rw failed (rw (← failed) (settled.fuel s1))
          | inl (stats', answered) ↦
              rw answered
                (pump_loop_stops fuel stats' (m s1).1 (omega (arith, ap length (settled.keeps s1))))
        ])
  ]

  -- Whatever the peer has sent and whether or not writes succeed, the pump returns: it does not run
  -- out of a fuel that is larger than the number of bytes to come.
  pub run_pump_stops :
      (fuel : ℕ) (s : S)
      → length (t.incoming s) < fuel
      → (run_pump st import_id device fuel s).0 ≢ err out_of_fuel
  unfolding run_pump
  run_pump_stops fuel s = pump_loop_stops fuel no_stats s
