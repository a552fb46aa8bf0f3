-- ===== src/Driver/Loopback.antt =====
-- The run of a script on the replies of the pump.
use zerowire.Prelude.{ℕ, ◌≡◌, sym, ap, ◌∙◌, List, [], ◌∷◌, ◌++◌, All, append_assoc, append-nil}
use zerowire.Bytes.{Bytes, IsU32}
use zerowire.Envelope.RoundTrip.{frame}
use zerowire.Device.{FakeDevice}
use zerowire.Wire.{Stream}
use zerowire.Wire.Laws.{Transport, CanWrite, Runs}
use zerowire.Pump.Request.{
  Request, request_envelope, answer, IsServable, requests_bytes, answers_bytes,
}
use zerowire.Driver.{
  ScriptedUrb, DriverStats, no_urbs, last_unlink, count_reply, count_last, issue_urb, run_urbs,
  run_script,
}
use zerowire.Driver.Exchange.{
  as_request, IsExpected, issue_urb-Runs, issue_unlink-Runs, last_unlink-IsCmdUnlink,
}

-- What the pump is asked in a run of a script.
abbrev pub script_requests : List ScriptedUrb → List Request
script_requests [] = Request.unlink last_unlink ∷ []
script_requests (u ∷ us) = as_request u ∷ script_requests us

-- The counters of a run in which every reply is as expected.
abbrev pub count_script : List ScriptedUrb → DriverStats → DriverStats
count_script [] stats = count_last stats
count_script (u ∷ us) stats = count_script us (count_reply u u.expected_actual_length stats)

module _ {S : Type 0} {st : Stream S} (t : Transport st) (can_write : CanWrite st) (import_id : ℕ)
    (id_fits : IsU32 import_id) (device : FakeDevice) where
  -- Over the replies of the pump to what it writes, the driver goes through the script and counts
  -- every URB as good.
  run_urbs-Runs :
      (us : List ScriptedUrb) (rest : Bytes) (stats : DriverStats) (s : S)
      → All (IsExpected import_id device) us
      → t.incoming s ≡ answers_bytes import_id device (script_requests us) ++ rest
      → Runs t
          (run_urbs st import_id us stats)
          s
          (count_script us stats)
          rest
          (t.outgoing s ++ requests_bytes import_id device (script_requests us))
  unfolding run_urbs
  run_urbs-Runs [] rest stats s h e =
      let bytes : Bytes = answer import_id device (Request.unlink last_unlink) in
      let (done, left, wrote) =
        issue_unlink-Runs t can_write import_id id_fits device rest stats s
          (e ∙ ap (λ (z : Bytes). z ++ rest) (append-nil bytes)) in
      (done, left, wrote ∙ ap (λ (z : Bytes). t.outgoing s ++ z) (sym (append-nil _)))
  run_urbs-Runs (u ∷ us) rest stats s h e =
      let (done, left, wrote) =
        issue_urb-Runs t can_write import_id id_fits device u
          (answers_bytes import_id device (script_requests us) ++ rest) stats s h.0
          (e
            ∙ append_assoc (answer import_id device (as_request u))
                (answers_bytes import_id device (script_requests us)) rest) in
      let s1 : S = (issue_urb st import_id u stats s).1 in
      let next = run_urbs-Runs us rest (count_reply u u.expected_actual_length stats) s1 h.1 left in
      rw done (
        next.0,
        next.1,
        next.2
            ∙ ap (λ (z : Bytes). z ++ requests_bytes import_id device (script_requests us)) wrote
            ∙ append_assoc (t.outgoing s) (frame (request_envelope import_id (as_request u)))
                (requests_bytes import_id device (script_requests us)),
      )

  -- If the bytes to come are the pump's answers to a script whose every URB it can serve and the
  -- device answers as the script expects, over a stream that takes every write and with an import id
  -- of 32 bits, the run succeeds with every URB and the unlink counted, the answers are all that it
  -- reads, and what it writes are the requests of the script in order.
  pub run_script_answered :
      (us : List ScriptedUrb) (rest : Bytes) (s : S)
      → All (IsExpected import_id device) us
      → t.incoming s ≡ answers_bytes import_id device (script_requests us) ++ rest
      → Runs t
          (run_script st import_id us)
          s
          (count_script us no_urbs)
          rest
          (t.outgoing s ++ requests_bytes import_id device (script_requests us))
  unfolding run_script
  run_script_answered us rest s = run_urbs-Runs us rest no_urbs s

pub script_requests-IsServable :
    (import_id : ℕ) (device : FakeDevice) (us : List ScriptedUrb)
    → All (IsExpected import_id device) us
    → All (IsServable import_id device) (script_requests us)
script_requests-IsServable import_id device [] h = (last_unlink-IsCmdUnlink, tt)
script_requests-IsServable import_id device (u ∷ us) h =
    (h.0.0, script_requests-IsServable import_id device us h.1)
