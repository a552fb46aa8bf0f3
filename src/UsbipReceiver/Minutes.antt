-- ===== src/UsbipReceiver/Minutes.antt =====
-- The passive session of the USB/IP receiver, and the transcript that it leaves.
use zerowire.Prelude.{
  ℕ, zero, suc, ◌+◌, ◌%◌, ◌^◌, ◌<◌, ◌≡◌, refl, sym, ap, ◌∙◌, arith, Bool, true, false, Option, none,
  some, List, [], ◌∷◌, ◌++◌, String, Result, ok, err, map_err, length, append-nil, append_assoc,
  All, map, if◌then◌else◌,
}
use zerowire.Bytes.{Bytes}
use zerowire.Json.{Json}
use zerowire.Envelope.{Channel, Envelope, control, usbip, hid, keepalive, header_len}
use zerowire.Envelope.RoundTrip.{frame}
use zerowire.Control.{ControlMessage, UsbipAttachInfo}
use zerowire.Usbip.Frame
use zerowire.Usbip.Frame.{UsbipFrame, UsbipError}
use zerowire.Io.{Io, Failure, usbip_frame, pure, lift, ◌>>=◌}
use zerowire.Wire.{Stream, recv_envelope}
use zerowire.Wire.Laws.{Transport, recv_envelope-frame}
use zerowire.Wire.Chain.{frames_bytes, IsWithinLimit}
use zerowire.Wire.Sound.{recv_envelope_short}
use zerowire.Transcript.{
  Transcript, SimulatedAttach, sim_urb_line, sim_detach_line, record_urb, create,
}
use zerowire.Transcript.Laws.{
  Beside, Logs, attach_lines, simulated, recv_envelope-lines, create-Logs, record_urb-Logs,
  drop_attach-Logs,
}
use zerowire.UsbipReceiver.{
  Relay, relaying, stopped, is_error, on_relayed_control, on_relayed_envelope, relay_loop,
  run_simulated,
}

-- What an envelope says to a receiver that only listens.
pub data Heard : Type 0 where
  packet : UsbipFrame → Heard
  bad_packet : UsbipError → Heard
  farewell : Heard
  nothing : Heard

abbrev heard_packet : Result UsbipError UsbipFrame → Heard
heard_packet (ok f) = packet f
heard_packet (err e) = bad_packet e

abbrev heard_verdict : Bool → Heard
heard_verdict true = farewell
heard_verdict false = nothing

abbrev heard_control : Option ControlMessage → Heard
heard_control none = nothing
heard_control (some msg) = heard_verdict (is_error msg)

abbrev pub heard : Json ControlMessage → Channel → Bytes → Heard
heard json usbip payload = heard_packet (Frame.parse payload)
heard json control payload = heard_control (json.from_slice payload)
heard json hid payload = nothing
heard json keepalive payload = nothing

abbrev pub hear : Json ControlMessage → Envelope → Heard
hear json env = heard json env.channel env.payload

abbrev next_seq : ℕ → ℕ
next_seq frames = (frames + 1) % 2 ^ 32

-- The session by what is heard: its result, and the lines of the transcript. A packet adds a line
-- with the running number; a bad one, and an error of the sender, end the session. Nothing else does: no
-- other control message, so that an ATTACH_DENIED is passed over, and no HID frame, so that an unbinding
-- is passed over too.
abbrev pub minutes : SimulatedAttach → ℕ → List Heard → Result Failure ℕ × List String
minutes sim frames [] = (ok frames, [])
minutes sim frames (packet f ∷ hs) =
    let (result, ls) = minutes sim (next_seq frames) hs in
    (result, sim_urb_line sim f.import_id (next_seq frames) (length f.raw) ∷ ls)
minutes sim frames (bad_packet e ∷ hs) = (err (usbip_frame e), [])
minutes sim frames (farewell ∷ hs) = (ok frames, [])
minutes sim frames (nothing ∷ hs) = minutes sim frames hs

module _ {S : Type 0} {st : Stream S} (t : Transport st) (json : Json ControlMessage)
    (log : Transcript S) (beside : Beside t log) where
  -- What a round does, by what is heard.
  abbrev Steps : SimulatedAttach → ℕ → Io S Relay → S → Heard → Type 0
  Steps sim frames m s (packet f) =
      Logs t log beside m s (relaying (next_seq frames))
        (sim_urb_line sim f.import_id (next_seq frames) (length f.raw) ∷ [])
  Steps sim frames m s (bad_packet e) = m s ≡ (err (usbip_frame e), s)
  Steps sim frames m s farewell = m s ≡ (ok (stopped frames), s)
  Steps sim frames m s nothing = m s ≡ (ok (relaying frames), s)

  on_packet :
      (sim : SimulatedAttach) (frames : ℕ) (r : Result UsbipError UsbipFrame) (s : S)
      → Steps sim frames
          (lift (map_err usbip_frame r) >>= (λ f.
            record_urb log sim f.import_id (next_seq frames) (length f.raw)
            >>= (λ _. pure (relaying (next_seq frames)))))
          s
          (heard_packet r)
  on_packet sim frames (ok f) s =
      let wrote = record_urb-Logs t log beside sim f.import_id (next_seq frames) (length f.raw) s in
      record {
        runs = rw wrote.runs.0 (refl, wrote.runs.1, wrote.runs.2);
        adds = rw wrote.runs.0 wrote.adds;
      }
  on_packet sim frames (err e) s = refl

  on_verdict :
      (sim : SimulatedAttach) (frames : ℕ) (b : Bool) (s : S)
      → Steps sim frames (pure (if b then stopped frames else relaying frames)) s (heard_verdict b)
  on_verdict sim frames true s = refl
  on_verdict sim frames false s = refl

  on_control :
      (sim : SimulatedAttach) (frames : ℕ) (o : Option ControlMessage) (s : S)
      → Steps sim frames (pure (on_relayed_control st json log frames o)) s (heard_control o)
  unfolding on_relayed_control
  on_control sim frames none s = refl
  on_control sim frames (some msg) s = on_verdict sim frames (is_error msg) s

  on_relayed_envelope-Steps :
      (sim : SimulatedAttach) (frames : ℕ) (c : Channel) (payload : Bytes) (s : S)
      → Steps sim frames
          (on_relayed_envelope st json log sim frames (record { channel = c; payload = payload }))
          s
          (heard json c payload)
  unfolding on_relayed_envelope on_relayed_control
  on_relayed_envelope-Steps sim frames usbip payload s =
      on_packet sim frames (Frame.parse payload) s
  on_relayed_envelope-Steps sim frames control payload s =
      on_control sim frames (json.from_slice payload) s
  on_relayed_envelope-Steps sim frames hid payload s = refl
  on_relayed_envelope-Steps sim frames keepalive payload s = refl

  -- `m` ends with the result `r.0`, adds the lines `r.1` and writes nothing.
  abbrev Follows : Io S ℕ → S → Result Failure ℕ × List String → Type 0
  Follows m s r =
      ((m s).0 ≡ r.0)
      × (beside.lines (m s).1 ≡ beside.lines s ++ r.1)
      × (t.outgoing (m s).1 ≡ t.outgoing s)

  module _ (stop : S → Bool) (running : (s : S) → stop s ≡ false) where
    abbrev onward : SimulatedAttach → ℕ → Relay → Io S ℕ
    onward sim fuel (relaying frames) = relay_loop st json log stop sim fuel frames
    onward sim fuel (stopped frames) = pure frames

    -- The rest of the session, once it is known what a round has done.
    round-Follows :
        (sim : SimulatedAttach) (frames fuel : ℕ) (h : Heard) (hs : List Heard) (rest : Bytes)
        (m : Io S Relay) (s : S)
        → Steps sim frames m s h
        → t.incoming s ≡ rest
        → ((k : ℕ) (s' : S)
            → t.incoming s' ≡ rest
            → Follows (relay_loop st json log stop sim fuel k) s' (minutes sim k hs))
        → Follows (m >>= onward sim fuel) s (minutes sim frames (h ∷ hs))
    round-Follows sim frames fuel (packet f) hs rest m s step e go =
        let (went, wrote, kept) = go (next_seq frames) (m s).1 (step.runs.1 ∙ e) in
        rw step.runs.0 (
          went,
          wrote
              ∙ ap (λ (z : List String). z ++ (minutes sim (next_seq frames) hs).1) step.adds
              ∙ append_assoc (beside.lines s) _ _,
          kept ∙ step.runs.2,
        )
    round-Follows sim frames fuel (bad_packet x) hs rest m s step e go =
        rw step (refl, sym (append-nil (beside.lines s)), refl)
    round-Follows sim frames fuel farewell hs rest m s step e go =
        rw step (refl, sym (append-nil (beside.lines s)), refl)
    round-Follows sim frames fuel nothing hs rest m s step e go = rw step (go frames s e)

    relay_loop-Follows :
        (sim : SimulatedAttach) (envs : List Envelope) (cut : Bytes) (fuel frames : ℕ) (s : S)
        → All IsWithinLimit envs
        → length cut < header_len
        → length envs < fuel
        → t.incoming s ≡ frames_bytes envs ++ cut
        → Follows
            (relay_loop st json log stop sim fuel frames)
            s
            (minutes sim frames (map (hear json) envs))
    unfolding relay_loop
    relay_loop-Follows sim envs cut zero frames s fit short enough e = absurd (omega arith)
    relay_loop-Follows sim [] cut (suc fuel) frames s fit short enough e =
        let (ended, kept) = recv_envelope_short t s (rw e short) in
        rw (running s, ended, relay_loop)
          (refl, recv_envelope-lines t log beside s ∙ sym (append-nil (beside.lines s)), kept)
    relay_loop-Follows sim (env ∷ envs) cut (suc fuel) frames s fit short enough e =
        let got =
          recv_envelope-frame t env (frames_bytes envs ++ cut) s fit.0
            (e ∙ append_assoc (frame env) (frames_bytes envs) cut) in
        let s1 : S = (recv_envelope st s).1 in
        let (went, wrote, kept) =
          round-Follows sim frames fuel (hear json env) (map (hear json) envs)
            (frames_bytes envs ++ cut) (on_relayed_envelope st json log sim frames env) s1
            (on_relayed_envelope-Steps sim frames env.channel env.payload s1) got.1
            (λ k s' e'. relay_loop-Follows sim envs cut fuel k s' fit.1 short (omega arith) e') in
        rw (running s, got.0, relay_loop)
          (
            went,
            wrote
                ∙ ap
                    (λ (z : List String).
                      z ++ (minutes sim frames (map (hear json) (env ∷ envs))).1)
                    (recv_envelope-lines t log beside s),
            kept ∙ got.2,
          )

    -- Whatever envelopes within the limit the sender has sent before its end is closed, with less than
    -- a header behind the last: while no stop is asked for, the transcript can be written and the fuel
    -- exceeds their number, the session ends with the result that its minutes give, and adds to the
    -- transcript the lines of the attach, those of the minutes, and the line of the detach, which
    -- stands also behind a session that fails; nothing is written to the sender. By the minutes each
    -- packet adds a line, a bad packet and an error of the sender end the session, and all else is passed
    -- over, an ATTACH_DENIED and a HID frame that unbinds among it.
    pub run_simulated-minutes :
        (info : UsbipAttachInfo) (envs : List Envelope) (cut : Bytes) (fuel : ℕ) (s : S)
        → All IsWithinLimit envs
        → length cut < header_len
        → length envs < fuel
        → t.incoming s ≡ frames_bytes envs ++ cut
        → let sim = simulated t log beside info in
          let session = minutes sim 0 (map (hear json) envs) in
          let ran = run_simulated st json log stop info fuel s in
          (ran.0 ≡ session.0)
          × (beside.lines ran.1
              ≡ beside.lines s
                ++ (attach_lines t log beside info ++ (session.1 ++ (sim_detach_line sim ∷ []))))
          × (t.outgoing ran.1 ≡ t.outgoing s)
    unfolding run_simulated
    run_simulated-minutes info envs cut fuel s fit short enough e =
        let sim : SimulatedAttach = simulated t log beside info in
        let made = create-Logs t log beside info s in
        let s1 : S = (create log info s).1 in
        let (went, wrote, kept) =
          relay_loop-Follows sim envs cut fuel 0 s1 fit short enough (made.runs.1 ∙ e) in
        let s2 : S = (relay_loop st json log stop sim fuel 0 s1).1 in
        let dropped = drop_attach-Logs t log beside sim s2 in
        rw made.runs.0 (
          went,
          dropped.adds
              ∙ ap (λ (z : List String). z ++ (sim_detach_line sim ∷ []))
                  (wrote
                    ∙ ap (λ (z : List String). z ++ (minutes sim 0 (map (hear json) envs)).1)
                        made.adds)
              ∙ append_assoc (beside.lines s ++ attach_lines t log beside info) _ _
              ∙ append_assoc (beside.lines s) _ _,
          dropped.runs.2 ∙ kept ∙ made.runs.2,
        )
