-- ===== src/Pump/Serve.antt =====
-- A whole session of the pump.
use zerowire.Prelude.{
  ℕ, zero, suc, ◌+◌, ◌<◌, ◌≤◌, ◌≡◌, refl, sym, ap, ◌∙◌, arith, List, [], ◌∷◌, ◌++◌, length, ◌≢◌,
  ◌-◌, ne→==_false, ok, err, append_assoc, append-nil, length-append, All,
}
use zerowire.Bytes.{Bytes, IsU32}
use zerowire.Envelope.{usbip, header_len, max_payload}
use zerowire.Envelope.RoundTrip.{frame}
use zerowire.Usbip.Frame
use zerowire.Usbip.Frame.{UsbipFrame}
use zerowire.Usbip.CmdSubmit
use zerowire.Usbip.CmdUnlink
use zerowire.Device.{FakeDevice}
use zerowire.Io.{wrong_import_id}
use zerowire.Wire.{Stream, recv_envelope}
use zerowire.Wire.Laws.{Transport, CanWrite, recv_envelope-frame}
use zerowire.Wire.Sound.{recv_envelope_short}
use zerowire.Pump.{PumpStats, no_stats, on_envelope, pump_loop, run_pump}
use zerowire.Pump.Request.{
  Request, request_envelope, answer, counted, counted_all, IsServable, requests_bytes,
  answers_bytes,
}
use zerowire.Pump.Handle.{on_envelope_answers}

pub request_fits :
    (import_id : ℕ) (device : FakeDevice) (req : Request)
    → IsServable import_id device req
    → length (request_envelope import_id req).payload ≤ max_payload
request_fits import_id device (Request.submit cmd body) h = omega (
  arith,
  Frame.length-encode (record { import_id = import_id; raw = CmdSubmit.encode cmd ++ body }),
  CmdSubmit.length-encode cmd h.0.setup_len,
  length-append (CmdSubmit.encode cmd) body,
)
request_fits import_id device (Request.unlink u) h = omega (
  arith,
  Frame.length-encode (record { import_id = import_id; raw = CmdUnlink.encode u }),
  CmdUnlink.length-encode u,
)
request_fits import_id device (Request.skipped c payload) h = h.1

module _ {S : Type 0} {st : Stream S} (t : Transport st) (writes : CanWrite st) (import_id : ℕ)
    (id_fits : IsU32 import_id) (device : FakeDevice) where
  -- The state in which a session stands after the requests.
  abbrev after : List Request → PumpStats → S → S
  after [] stats s = s
  after (r ∷ rs) stats s =
      after rs (counted import_id device stats r)
        (on_envelope st import_id device (request_envelope import_id r) stats
          (recv_envelope st s).1).1

  -- The loop goes through servable requests and comes out at what follows them.
  pub pump_loop_through :
      (reqs : List Request) (rest : Bytes) (fuel k : ℕ) (stats : PumpStats) (s : S)
      → All (IsServable import_id device) reqs
      → fuel ≡ length reqs + k
      → t.incoming s ≡ requests_bytes import_id device reqs ++ rest
      → (pump_loop st import_id device fuel stats s
          ≡ pump_loop st import_id device k
              (counted_all import_id device stats reqs)
              (after reqs stats s))
        × (t.incoming (after reqs stats s) ≡ rest)
        × (t.outgoing (after reqs stats s) ≡ t.outgoing s ++ answers_bytes import_id device reqs)
  unfolding pump_loop
  pump_loop_through [] rest fuel k stats s valid rounds e =
      let same : fuel ≡ k = omega arith in (rw same, e, sym (append-nil (t.outgoing s)))
  pump_loop_through (r ∷ rs) rest zero k stats s valid rounds e = absurd (omega arith)
  pump_loop_through (r ∷ rs) rest (suc fuel) k stats s valid rounds e =
      let s1 : S = (recv_envelope st s).1 in
      let stats' : PumpStats = counted import_id device stats r in
      let s2 : S = (on_envelope st import_id device (request_envelope import_id r) stats s1).1 in
      let got =
        recv_envelope-frame t (request_envelope import_id r)
          (requests_bytes import_id device rs ++ rest) s (request_fits import_id device r valid.0)
          (e
            ∙ append_assoc (frame (request_envelope import_id r))
                (requests_bytes import_id device rs) rest) in
      let done = on_envelope_answers t writes import_id id_fits device r stats s1 valid.0 in
      let on = pump_loop_through rs rest fuel k stats' s2 valid.1 (omega arith) (done.1 ∙ got.1) in
      (
        rw (got.0, done.0) on.0,
        on.1,
        on.2
            ∙ ap (λ (z : Bytes). z ++ answers_bytes import_id device rs)
                (done.2 ∙ ap (λ (z : Bytes). z ++ answer import_id device r) got.2)
            ∙ append_assoc (t.outgoing s) (answer import_id device r)
                (answers_bytes import_id device rs),
      )

  -- One more round, on a stream with less than a header to come.
  pump_loop_ends :
      (k : ℕ) (stats : PumpStats) (s : S)
      → 0 < k
      → length (t.incoming s) < header_len
      → ((pump_loop st import_id device k stats s).0 ≡ ok stats)
        × (t.outgoing (pump_loop st import_id device k stats s).1 ≡ t.outgoing s)
  unfolding pump_loop
  pump_loop_ends zero stats s some_fuel short = absurd (omega arith)
  pump_loop_ends (suc k) stats s some_fuel short =
      let (ended, kept) = recv_envelope_short t s short in rw ended (refl, kept)

  -- Over a stream that takes every write, with an import id of 32 bits, the pump answers each
  -- servable request of a session with its one answer, in order, skips the other channels, writes
  -- nothing else, and ends with the counts of all of them, when less than a header follows the last
  -- request and the fuel exceeds their number.
  pub run_pump_answers :
      (reqs : List Request) (cut : Bytes) (fuel : ℕ) (s : S)
      → All (IsServable import_id device) reqs
      → length cut < header_len
      → length reqs < fuel
      → t.incoming s ≡ requests_bytes import_id device reqs ++ cut
      → ((run_pump st import_id device fuel s).0 ≡ ok (counted_all import_id device no_stats reqs))
        × (t.outgoing (run_pump st import_id device fuel s).1
            ≡ t.outgoing s ++ answers_bytes import_id device reqs)
  unfolding run_pump
  run_pump_answers reqs cut fuel s valid short enough e =
      let k : ℕ = fuel - length reqs in
      let (go, left, wrote) = pump_loop_through reqs cut fuel k no_stats s valid (omega arith) e in
      let (ended, kept) =
        pump_loop_ends k (counted_all import_id device no_stats reqs) (after reqs no_stats s)
          (omega arith) (rw left short) in
      rw go (ended, kept ∙ wrote)

  pump_loop_wrong_id :
      (k other : ℕ) (raw rest : Bytes) (stats : PumpStats) (s : S)
      → 0 < k
      → IsU32 other
      → other ≢ import_id
      → 4 + length raw ≤ max_payload
      → t.incoming s
        ≡ frame (record {
          channel = usbip;
          payload = Frame.encode (record { import_id = other; raw = raw });
        })
          ++ rest
      → ((pump_loop st import_id device k stats s).0 ≡ err (wrong_import_id other import_id))
        × (t.outgoing (pump_loop st import_id device k stats s).1 ≡ t.outgoing s)
  unfolding pump_loop on_envelope
  pump_loop_wrong_id zero other raw rest stats s some_fuel small ne fits e = absurd (omega arith)
  pump_loop_wrong_id (suc k) other raw rest stats s some_fuel small ne fits e =
      let packet : UsbipFrame = record { import_id = other; raw = raw } in
      let got =
        recv_envelope-frame t (record { channel = usbip; payload = Frame.encode packet }) rest s
          (omega (arith, Frame.length-encode packet)) e in
      rw (got.0, Frame.parse-encode_usbip_frame packet small, ne→==_false other import_id ne)
        (refl, got.2)

  -- Over a stream that takes every write, with import ids of 32 bits and fuel for one round more than
  -- there are requests, a packet within the limit for another import id ends the pump with that error:
  -- the servable requests before it have been answered, and nothing is written for it or for what
  -- follows.
  pub run_pump_wrong_id :
      (reqs : List Request) (other : ℕ) (raw rest : Bytes) (fuel : ℕ) (s : S)
      → All (IsServable import_id device) reqs
      → IsU32 other
      → other ≢ import_id
      → 4 + length raw ≤ max_payload
      → length reqs < fuel
      → t.incoming s
        ≡ requests_bytes import_id device reqs
          ++ (frame (record {
            channel = usbip;
            payload = Frame.encode (record { import_id = other; raw = raw });
          })
              ++ rest)
      → ((run_pump st import_id device fuel s).0 ≡ err (wrong_import_id other import_id))
        × (t.outgoing (run_pump st import_id device fuel s).1
            ≡ t.outgoing s ++ answers_bytes import_id device reqs)
  unfolding run_pump
  run_pump_wrong_id reqs other raw rest fuel s valid small ne fits enough e =
      let k : ℕ = fuel - length reqs in
      let (go, left, wrote) = pump_loop_through reqs _ fuel k no_stats s valid (omega arith) e in
      let (ended, kept) =
        pump_loop_wrong_id k other raw rest (counted_all import_id device no_stats reqs)
          (after reqs no_stats s) (omega arith) small ne fits left in
      rw go (ended, kept ∙ wrote)
