-- ===== src/Receiver/Course.antt =====
-- The loop of the HID receiver as a run of the machine over what the sender says.
use zerowire.Prelude.{
  ℕ, zero, suc, ◌+◌, ◌%◌, ◌^◌, ◌<◌, ◌≡◌, refl, sym, ap, ◌∙◌, arith, Bool, true, false, List, [],
  ◌∷◌, ◌++◌, Result, ok, err, map_err, length, append-nil, append_assoc, All, map,
}
use zerowire.Bytes.{Bytes}
use zerowire.Json.{Json}
use zerowire.Envelope.{Channel, Envelope, control, usbip, hid, keepalive, header_len}
use zerowire.Envelope.RoundTrip.{frame}
use zerowire.Control.{ControlMessage}
use zerowire.Hid
use zerowire.Hid.{
  HidFrame, HidOp, HidError, BindAckMeta, bind, bind_ack, report_in, report_out, report_feature,
  unbind, parse_bind_ack_body,
}
use zerowire.Io.{Io, Failure, hid_frame, pure, lift, ◌>>=◌}
use zerowire.Uinput.{InputEvent, UinputDevice, DeviceProfile}
use zerowire.Reports.{Statics, apply_report}
use zerowire.Receiver.{
  Session, Round, go_on, leave, profile_of, open_device, on_report, on_hid_op, on_session_envelope,
  receive_loop,
}
use zerowire.Receiver.Machine.{
  said_ack, said_op, said_frame, said, say, Answer, opened, reported, respond, then_on, course,
}
use zerowire.Receiver.Desk.{
  Desk, Does, create-Does, apply_report-Does, recv_envelope-profiles, recv_envelope-events,
}
use zerowire.Wire.{Stream, recv_envelope}
use zerowire.Wire.Laws.{Transport, recv_envelope-frame}
use zerowire.Wire.Chain.{frames_bytes, IsWithinLimit}
use zerowire.Wire.Sound.{recv_envelope_short}

module _ {S : Type 0} {st : Stream S} (t : Transport st) (json : Json ControlMessage)
    (meta_json : Json BindAckMeta) (uinput : UinputDevice S)
    (create : DeviceProfile → Io S (Unit {0})) (desk : Desk t uinput create) (stop : S → Bool) where
  abbrev Answers : {A : Type 0} → Io S A → S → Answer A → Type 0
  Answers m s a = Does t uinput create desk m s a.0 a.1 a.2

  Answers-pure : {A : Type 0} (a : A) (s : S) → Answers (pure a) s (ok a, [], [])
  Answers-pure a s = record {
    returns = refl;
    keeps = refl;
    silent = refl;
    made = sym (append-nil (desk.profiles s));
    emitted = sym (append-nil (desk.recorder.events s));
  }

  Answers-raise :
      {A : Type 0} (e : Failure) (s : S) → Answers {A = A} (lift (err e)) s (err e, [], [])
  Answers-raise e s = record {
    returns = refl;
    keeps = refl;
    silent = refl;
    made = sym (append-nil (desk.profiles s));
    emitted = sym (append-nil (desk.recorder.events s));
  }

  -- What is done with the result of an action that succeeds.
  Answers-return :
      {A B : Type 0} (m : Io S A) (f : A → B) {s : S} {a : A} {ps : List DeviceProfile}
      {es : List InputEvent}
      → Answers m s (ok a, ps, es)
      → Answers (m >>= (λ x. pure (f x))) s (ok (f a), ps, es)
  Answers-return m f h = record {
    returns = rw h.returns refl;
    keeps = rw h.returns h.keeps;
    silent = rw h.returns h.silent;
    made = rw h.returns h.made;
    emitted = rw h.returns h.emitted;
  }

  opened-Answers :
      (session : Session) (r : Result Failure DeviceProfile) (s : S)
      → Answers
          ((lift r >>= create) >>= (λ _. pure (go_on (record session { bound = true }))))
          s
          (opened session r)
  opened-Answers session (ok p) s =
      Answers-return (create p) (λ _. go_on (record session { bound = true }))
        (create-Does t uinput create desk p s)
  opened-Answers session (err e) s = Answers-raise e s

  on_report-Answers :
      (b : Bool) (last_seq seen : ℕ) (statics : Statics) (f : HidFrame) (s : S)
      → let session : Session = record {
        bound = b;
        last_seq = last_seq;
        reports_seen = seen;
        statics = statics;
      } in
        Answers
          (on_report st json meta_json uinput create stop session f
            >>= (λ session'. pure (go_on session')))
          s
          (reported session f b)
  unfolding on_report
  on_report-Answers true last_seq seen statics f s =
      let renewed : Statics → Session = λ statics'. record {
        bound = true;
        last_seq = f.seq;
        reports_seen = (seen + 1) % 2 ^ 64;
        statics = statics';
      } in
      Answers-return (apply_report uinput statics f.body >>= (λ x. pure (renewed x))) go_on (
        Answers-return (apply_report uinput statics f.body) renewed
          (apply_report-Does t uinput create desk statics f.body s))
  on_report-Answers false last_seq seen statics f s = Answers-pure _ s

  said_ack-Answers :
      (session : Session) (r : Result HidError (BindAckMeta × Bytes)) (s : S)
      → Answers
          (lift (map_err hid_frame r) >>= (λ m.
            open_device st json meta_json uinput create stop m.0
            >>= (λ _. pure (go_on (record session { bound = true })))))
          s
          (respond session (said_ack r))
  unfolding open_device
  said_ack-Answers session (ok m) s = opened-Answers session (profile_of m.0 m.0.kind) s
  said_ack-Answers session (err e) s = Answers-raise (hid_frame e) s

  on_hid_op-Answers :
      (session : Session) (f : HidFrame) (op : HidOp) (s : S)
      → Answers
          (on_hid_op st json meta_json uinput create stop session f op)
          s
          (respond session (said_op meta_json f op))
  unfolding on_hid_op
  on_hid_op-Answers session f bind_ack s =
      said_ack-Answers session (parse_bind_ack_body meta_json f.body) s
  on_hid_op-Answers session f report_in s =
      on_report-Answers session.bound session.last_seq session.reports_seen session.statics f s
  on_hid_op-Answers session f unbind s = Answers-pure (leave session) s
  on_hid_op-Answers session f bind s = Answers-pure (go_on session) s
  on_hid_op-Answers session f report_out s = Answers-pure (go_on session) s
  on_hid_op-Answers session f report_feature s = Answers-pure (go_on session) s

  said_frame-Answers :
      (session : Session) (r : Result HidError HidFrame) (s : S)
      → Answers
          (lift (map_err hid_frame r)
            >>= (λ f. on_hid_op st json meta_json uinput create stop session f f.op))
          s
          (respond session (said_frame meta_json r))
  said_frame-Answers session (ok f) s = on_hid_op-Answers session f f.op s
  said_frame-Answers session (err e) s = Answers-raise (hid_frame e) s

  -- A round of the loop answers what the envelope says.
  on_session_envelope-Answers :
      (session : Session) (c : Channel) (payload : Bytes) (s : S)
      → Answers
          (on_session_envelope st json meta_json uinput create stop session
            (record { channel = c; payload = payload }))
          s
          (respond session (said meta_json c payload))
  unfolding on_session_envelope
  on_session_envelope-Answers session hid payload s =
      said_frame-Answers session (Hid.parse payload) s
  on_session_envelope-Answers session control payload s = Answers-pure (go_on session) s
  on_session_envelope-Answers session usbip payload s = Answers-pure (go_on session) s
  on_session_envelope-Answers session keepalive payload s = Answers-pure (go_on session) s

  -- `m` ends as the machine does.
  abbrev pub Ends : Io S Session → S → Answer Session → Type 0
  Ends m s a =
      ((m s).0 ≡ a.0)
      × (desk.profiles (m s).1 ≡ desk.profiles s ++ a.1)
      × (desk.recorder.events (m s).1 ≡ desk.recorder.events s ++ a.2)
      × (t.outgoing (m s).1 ≡ t.outgoing s)

  -- The rest of a session, once a round is answered.
  then_on-Ends :
      (m : Io S Round) (s : S) (a : Answer Round) (next : Session → Answer Session)
      (go : Session → Io S Session)
      → Answers m s a
      → ((session : Session) → Ends (go session) (m s).1 (next session))
      → Ends
          (m
            >>= (λ round. elim round [ go_on session ↦ go session | leave session ↦ pure session ]))
          s
          (then_on a next)
  then_on-Ends m s (err e, ps, es) next go h k = rw h.returns (refl, h.made, h.emitted, h.silent)
  then_on-Ends m s (ok (leave session), ps, es) next go h k =
      rw h.returns (refl, h.made, h.emitted, h.silent)
  then_on-Ends m s (ok (go_on session), ps, es) next go h k =
      let (returned, made, emitted, silent) = k session in
      rw h.returns (
        returned,
        made
            ∙ ap (λ (z : List DeviceProfile). z ++ (next session).1) h.made
            ∙ append_assoc (desk.profiles s) ps (next session).1,
        emitted
            ∙ ap (λ (z : List InputEvent). z ++ (next session).2) h.emitted
            ∙ append_assoc (desk.recorder.events s) es (next session).2,
        silent ∙ h.silent,
      )

  -- Whatever envelopes within the limit the sender has sent before its end is closed, with less than a
  -- header behind the last: while no stop is asked for, uinput takes what it is given and the fuel
  -- exceeds their number, the loop ends as the machine over what the envelopes say does, with the same
  -- result, the same devices created and the same events emitted, in the same order, and writes nothing
  -- to the sender.
  pub receive_loop-course :
      (envs : List Envelope) (cut : Bytes) (fuel : ℕ) (session : Session) (s : S)
      → ((s' : S) → stop s' ≡ false)
      → All IsWithinLimit envs
      → length cut < header_len
      → length envs < fuel
      → t.incoming s ≡ frames_bytes envs ++ cut
      → Ends
          (receive_loop st json meta_json uinput create stop fuel session)
          s
          (course session (map (say meta_json) envs))
  unfolding receive_loop
  receive_loop-course envs cut zero session s running fit short enough e = absurd (omega arith)
  receive_loop-course [] cut (suc fuel) session s running fit short enough e =
      let (ended, kept) = recv_envelope_short t s (rw e short) in
      rw (running s, ended, receive_loop)
        (
          refl,
          recv_envelope-profiles t uinput create desk s ∙ sym (append-nil (desk.profiles s)),
          recv_envelope-events t uinput create desk s ∙ sym (append-nil (desk.recorder.events s)),
          kept,
        )
  receive_loop-course (env ∷ envs) cut (suc fuel) session s running fit short enough e =
      let got =
        recv_envelope-frame t env (frames_bytes envs ++ cut) s fit.0
          (e ∙ append_assoc (frame env) (frames_bytes envs) cut) in
      let s1 : S = (recv_envelope st s).1 in
      let m : Io S Round = on_session_envelope st json meta_json uinput create stop session env in
      let answered = on_session_envelope-Answers session env.channel env.payload s1 in
      let (returned, made, emitted, silent) =
        then_on-Ends m s1 (respond session (say meta_json env))
          (λ session'. course session' (map (say meta_json) envs))
          (receive_loop st json meta_json uinput create stop fuel) answered
          (λ session'.
            receive_loop-course envs cut fuel session' (m s1).1 running fit.1 short (omega arith)
              (answered.keeps ∙ got.1)) in
      let rest : Answer Session = course session (map (say meta_json) (env ∷ envs)) in
      rw (running s, got.0, receive_loop)
        (
          returned,
          made
              ∙ ap (λ (z : List DeviceProfile). z ++ rest.1)
                  (recv_envelope-profiles t uinput create desk s),
          emitted
              ∙ ap (λ (z : List InputEvent). z ++ rest.2)
                  (recv_envelope-events t uinput create desk s),
          silent ∙ got.2,
        )
