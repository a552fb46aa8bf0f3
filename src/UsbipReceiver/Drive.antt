-- ===== src/UsbipReceiver/Drive.antt =====
-- The active session of the USB/IP receiver: a transcript beside the stream, and the script.
use zerowire.Prelude.{ℕ, ◌+◌, ◌*◌, ◌^◌, ◌≤◌, ap, ◌∙◌, List, ◌++◌, String, ok}
use zerowire.Bytes.{Bytes, IsU32}
use zerowire.Json.{Json}
use zerowire.Control.{ControlMessage, UsbipAttachInfo}
use zerowire.Io.{Io}
use zerowire.Device.{mass_storage}
use zerowire.Pump.Request.{requests_bytes, answers_bytes}
use zerowire.Driver.{DriverStats, script_default, run_script}
use zerowire.Driver.Loopback.{script_requests, run_script_answered}
use zerowire.Driver.Script.{script_default-IsExpected, count_script-script_default}
use zerowire.Wire.{Stream}
use zerowire.Wire.Laws.{Transport, CanWrite}
use zerowire.Wire.Chain.{At, Yields, Yields-then}
use zerowire.Transcript.{Transcript, SimulatedAttach, drop_attach}
use zerowire.Transcript.Laws.{Beside, Logs, simulated, create-Logs, drop_attach-Logs}
use zerowire.UsbipReceiver.{dropping, run_simulated_drive}

-- The counters of a run of the script with `n` extra reads, all of them good.
abbrev pub all_good : ℕ → DriverStats
all_good n = record {
  urbs_issued = 7 + n;
  urbs_ok = 7 + n;
  unlinks_issued = 1;
  unlinks_ok = 1;
  bytes_returned = 155 + 64 * n;
}

module _ {S : Type 0} {st : Stream S} (t : Transport st) (can_write : CanWrite st)
    (log : Transcript S) (beside : Beside t log) where
  pub Yields-logged :
      {A : Type 0} {m : Io S A} {a : A} {ls : List String} {s : S} {i o : Bytes}
      → Logs t log beside m s a ls
      → At t s i o
      → Yields t m s a i o
  Yields-logged h at0 = record { runs = (h.runs.0, h.runs.1 ∙ at0.0, h.runs.2 ∙ at0.1) }

  pub Yields-dropping :
      {A : Type 0} (m : Io S A) (sim : SimulatedAttach) {s : S} {a : A} {i o : Bytes}
      → Yields t m s a i o
      → Yields t (dropping m (drop_attach log sim)) s a i o
  Yields-dropping m sim {s} h =
      let dropped = drop_attach-Logs t log beside sim (m s).1 in
      record { runs = (h.runs.0, dropped.runs.1 ∙ h.runs.1, dropped.runs.2 ∙ h.runs.2) }

  pub run_simulated_drive_answered :
      (json : Json ControlMessage) (info : UsbipAttachInfo) (vendor product n : ℕ) {rest o : Bytes}
      {s : S}
      → IsU32 info.import_id
      → 100 + n ≤ 2 ^ 32
      → At t s
          (answers_bytes info.import_id
              (mass_storage vendor product)
              (script_requests (script_default n))
            ++ rest)
          o
      → Yields t (run_simulated_drive st json log info n) s (all_good n) rest (
          o
          ++ requests_bytes info.import_id
              (mass_storage vendor product)
              (script_requests (script_default n)))
  unfolding run_simulated_drive
  run_simulated_drive_answered json info vendor product n {rest} {o} id_fits few at0 =
      Yields-then t _ _ (Yields-logged (create-Logs t log beside info _) at0) (λ s1 at1.
        Yields-dropping (run_script st info.import_id (script_default n))
          (simulated t log beside info)
          (let (went, left, sent) =
              run_script_answered t can_write info.import_id id_fits (mass_storage vendor product)
                (script_default n) rest s1
                (script_default-IsExpected info.import_id vendor product n few) at1.0 in
            record {
              runs = (
                went ∙ ap ok (count_script-script_default n few),
                left,
                sent
                    ∙ ap
                        (λ (z : Bytes).
                          z
                          ++ requests_bytes info.import_id (mass_storage vendor product)
                              (script_requests (script_default n)))
                        at1.1,
              );
            }))
