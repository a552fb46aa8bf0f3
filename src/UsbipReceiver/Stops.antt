-- ===== src/UsbipReceiver/Stops.antt =====
-- The passive session of the USB/IP receiver ends on every input.
use zerowire.Prelude.{ℕ, zero, suc, ◌<◌, ◌≢◌, inl, inr, ap, arith, Bool, length, err, Bool-cases}
use zerowire.Bytes.{Bytes}
use zerowire.Json.{Json}
use zerowire.Envelope.{Channel, control, usbip, hid, keepalive}
use zerowire.Control.{ControlMessage, UsbipAttachInfo}
use zerowire.Usbip.Frame
use zerowire.Io.{Io, usbip_frame, out_of_fuel}
use zerowire.Wire.{Stream, recv_envelope}
use zerowire.Wire.Laws.{Transport}
use zerowire.Wire.Sound.{recv_envelope_shrinks}
use zerowire.Wire.Settles.{
  Result-cases, map_err-ne, Settles, Settles-pure, Settles-lift, Settles-bind,
}
use zerowire.Transcript.{Transcript, SimulatedAttach, record_urb, create}
use zerowire.Transcript.Laws.{Beside, simulated, create-Logs, record_urb-Logs}
use zerowire.UsbipReceiver.{
  Relay, relaying, stopped, on_relayed_envelope, relay_loop, run_simulated,
}

module _ {S : Type 0} {st : Stream S} (t : Transport st) (json : Json ControlMessage)
    (log : Transcript S) (beside : Beside t log) (stop : S → Bool) where
  record_urb-Settles :
      (sim : SimulatedAttach) (import_id seq bytes : ℕ)
      → Settles t (record_urb log sim import_id seq bytes)
  record_urb-Settles sim import_id seq bytes = record {
    fuel = λ s h.
        absurd (ground (arith, (record_urb-Logs t log beside sim import_id seq bytes s).runs));
    keeps = λ s. (record_urb-Logs t log beside sim import_id seq bytes s).runs.1;
  }

  on_relayed_envelope-Settles :
      (sim : SimulatedAttach) (frames : ℕ) (c : Channel) (payload : Bytes)
      → Settles t
          (on_relayed_envelope st json log sim frames (record { channel = c; payload = payload }))
  unfolding on_relayed_envelope
  on_relayed_envelope-Settles sim frames usbip payload =
      Settles-bind t _ _
        (Settles-lift t _ (map_err-ne usbip_frame (λ e h. cc) (Frame.parse payload)))
        (λ f. Settles-bind t _ _ (record_urb-Settles sim f.import_id _ _) (λ _. Settles-pure t _))
  on_relayed_envelope-Settles sim frames control payload = Settles-pure t _
  on_relayed_envelope-Settles sim frames hid payload = Settles-pure t _
  on_relayed_envelope-Settles sim frames keepalive payload = Settles-pure t _

  relay_loop_stops :
      (sim : SimulatedAttach) (fuel frames : ℕ) (s : S)
      → length (t.incoming s) < fuel
      → (relay_loop st json log stop sim fuel frames s).0 ≢ err out_of_fuel
  unfolding relay_loop
  relay_loop_stops sim zero frames s h = absurd (omega arith)
  relay_loop_stops sim (suc fuel) frames s h = elim (Bool-cases (stop s)) [
    | inl stopping ↦ rw (stopping, relay_loop) (λ p. cc)
    | inr running ↦ elim (Result-cases (recv_envelope st s).0) [
      | inr (e, ended) ↦ rw (running, ended, relay_loop) (λ p. cc)
      | inl (env, got) ↦
          let s1 : S = (recv_envelope st s).1 in
          let m : Io S Relay = on_relayed_envelope st json log sim frames env in
          let settled : Settles t m =
            on_relayed_envelope-Settles sim frames env.channel env.payload in
          let shrunk = recv_envelope_shrinks t s env got in
          let left = ap length (settled.keeps s1) in
          rw (running, got, relay_loop)
            (elim (Result-cases (m s1).0) [
              | inr (e, failed) ↦ rw failed (λ p. settled.fuel s1 (ground arith))
              | inl (relaying frames', went) ↦
                  rw went (relay_loop_stops sim fuel frames' (m s1).1 (omega arith))
              | inl (stopped frames', went) ↦ rw went (λ p. cc)
            ])
    ]
  ]

  -- Whatever the sender has sent, a session that only listens returns, if the transcript can be
  -- written: it does not run out of a fuel that is larger than the number of bytes to come.
  pub run_simulated_stops :
      (info : UsbipAttachInfo) (fuel : ℕ) (s : S)
      → length (t.incoming s) < fuel
      → (run_simulated st json log stop info fuel s).0 ≢ err out_of_fuel
  unfolding run_simulated
  run_simulated_stops info fuel s h =
      let made = create-Logs t log beside info s in
      let left = ap length made.runs.1 in
      rw made.runs.0
        (relay_loop_stops (simulated t log beside info) fuel 0 (create log info s).1 (omega arith))
