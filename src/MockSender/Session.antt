-- ===== src/MockSender/Session.antt =====
-- A whole HID session, from HELLO to the end: the receiver, and the stand-in sender, each over a stream
-- with what the other one writes to come.
use zerowire.Prelude.{
  ℕ, ◌+◌, ◌^◌, ◌<◌, ◌≤◌, ◌≡◌, refl, sym, ap, ◌∙◌, arith, Bool, false, Option, List, [], ◌∷◌, ◌++◌,
  String, ok, length, append_assoc,
}
use zerowire.Bytes.{Bytes}
use zerowire.Json.{Json, RoundTrips}
use zerowire.Envelope.{Envelope, max_payload}
use zerowire.Control.{ControlMessage, DeviceSummary, list_devices, device_list, attach, attach_ok}
use zerowire.Hid.{HidFrame, BindRequest, BindAckMeta, bind}
use zerowire.Uinput.{UinputDevice, DeviceProfile}
use zerowire.Io.{Io}
use zerowire.Sender.Answered.{answer_handshake_met}
use zerowire.Receiver.{Session, run_receive}
use zerowire.Receiver.Handshake.{greeting, bind_request, IsWanted, pick_hid_device_first}
use zerowire.Receiver.Desk.{Desk}
use zerowire.Receiver.Whole.{asks_for, run_receive-course}
use zerowire.Receiver.Machine.{Answer}
use zerowire.MockSender.{
  Mode, MockArgs, closed, mock_hello_ack, mock_summary, mock_meta, synth_mouse_bind_ack_body,
  run_mock_session, by_mode,
}
use zerowire.MockSender.Streams.{mock_stream, run_hid_bound}
use zerowire.MockSender.Moves.{
  mock_session, mock_profile, mock_moves, course-mock_stream, mock_stream-fit, length-mock_stream,
}
use zerowire.Wire.{Stream}
use zerowire.Wire.Laws.{Transport, CanWrite}
use zerowire.Wire.Chain.{control_frame, frames_bytes, IsSendable, At}

-- Every message of the session is within the limit, and serde reads it back.
pub record AreSendable (json : Json ControlMessage) (bind_json : Json BindRequest)
    (meta_json : Json BindAckMeta) (busid client : String) : Type 0 where
  pub greets : IsSendable json (greeting client)
  pub greeted : IsSendable json mock_hello_ack
  pub listing : IsSendable json list_devices
  pub listed : IsSendable json (device_list (mock_summary Mode.hid busid ∷ []))
  pub attaching : IsSendable json (attach busid "hid")
  pub attached : IsSendable json (attach_ok busid 1)
  pub binding : length (bind_request bind_json (mock_summary Mode.hid busid)) ≤ max_payload
  pub acknowledged : RoundTrips meta_json (mock_meta busid)
  pub ack_fits : 4 + length (synth_mouse_bind_ack_body meta_json busid) ≤ max_payload
  pub short : length (meta_json.to_vec (mock_meta busid)) < 2 ^ 16

module _ (json : Json ControlMessage) (bind_json : Json BindRequest) (meta_json : Json BindAckMeta)
    (busid : String) (n : ℕ) where
  abbrev offered : DeviceSummary
  offered = mock_summary Mode.hid busid

  -- What the sender writes in a session.
  abbrev pub told : Bytes
  told =
      control_frame json mock_hello_ack
      ++ (control_frame json (device_list (offered ∷ []))
          ++ (control_frame json (attach_ok busid 1)
              ++ frames_bytes (mock_stream meta_json 1 busid n)))

  abbrev pub mock_args : MockArgs
  mock_args = record { reports = n; busid = busid; persistent = false; mode = Mode.hid }

  sender_tells :
      {P : Type 0} {sender : Stream P} (t : Transport sender)
      → CanWrite sender
      → (client : String) (p : P) → AreSendable json bind_json meta_json busid client
      → At t p (asks_for json bind_json client offered) []
      → ((run_mock_session sender json meta_json mock_args p).0 ≡ ok closed)
        × (t.outgoing (run_mock_session sender json meta_json mock_args p).1 ≡ told)
  unfolding run_mock_session by_mode
  sender_tells {sender = sender} t can_write client p good at0 =
      let request : HidFrame = record {
        op = bind;
        bind_id = 1;
        seq = 0;
        body = bind_json.to_vec (record { busid = busid; want = "input" });
      } in
      let met =
        answer_handshake_met t can_write json 1 client ("hid-fastlane/1" ∷ []) mock_hello_ack
          offered "hid" good.greets good.listing good.attaching good.greeted.1 good.listed.1 at0 in
      let sent =
        run_hid_bound t can_write json meta_json mock_args request refl refl (omega arith)
          good.binding good.attached.1 good.ack_fits (met.runs.1, met.runs.2) in
      rw met.runs.0 (
        sent.runs.0,
        sent.runs.2
            ∙ append_assoc (control_frame json mock_hello_ack)
                (control_frame json (device_list (offered ∷ []))) _,
      )

-- The receiver and the stand-in sender, each over a stream with what the other one writes to come: if
-- streams take every write, uinput takes what it is given, the messages are within the limit and read
-- back by serde, the receiver asks for no bus id or for the one on offer, no stop is asked for, the
-- number `n` of reports fits 32 bits, and the fuel exceeds n + 2, then the sender closes after the
-- last report, the receiver ends without an error with `n` reports seen, it has created one device, a
-- mouse with the name and the ids that the sender gave, has moved it by three to the right `n` times
-- and emitted nothing else, and has written what the sender has read.
pub hid_session :
    {D P : Type 0} {receiver : Stream D} {sender : Stream P} (t : Transport receiver)
    (t' : Transport sender)
    → CanWrite receiver
    → CanWrite sender
    → (uinput : UinputDevice D) (create : DeviceProfile → Io D (Unit {0}))
      (desk : Desk t uinput create) (stop : D → Bool) (json : Json ControlMessage)
      (bind_json : Json BindRequest) (meta_json : Json BindAckMeta) (busid client : String)
      (wanted : Option String) (n fuel : ℕ) (d : D) (p : P)
    → AreSendable json bind_json meta_json busid client
    → IsWanted wanted (mock_summary Mode.hid busid)
    → ((s : D) → stop s ≡ false)
    → n < 2 ^ 32
    → n + 2 < fuel
    → t.outgoing d ≡ []
    → t'.outgoing p ≡ []
    → t'.incoming p ≡ asks_for json bind_json client (mock_summary Mode.hid busid)
    → t.incoming d
      ≡ t'.outgoing
          (run_mock_session sender json meta_json (mock_args json bind_json meta_json busid n) p).1
    → let ran =
        run_receive receiver json bind_json meta_json uinput create stop client wanted fuel d in
      let mock =
        run_mock_session sender json meta_json (mock_args json bind_json meta_json busid n) p in
      (mock.0 ≡ ok closed)
      × (ran.0 ≡ ok (mock_session n))
      × (desk.profiles ran.1 ≡ desk.profiles d ++ (mock_profile ∷ []))
      × (desk.recorder.events ran.1 ≡ desk.recorder.events d ++ mock_moves n)
      × (t.outgoing ran.1 ≡ t'.incoming p)
hid_session {D = D} {receiver = receiver} t t' r_writes s_writes uinput create desk stop json
      bind_json meta_json busid client wanted n fuel d p good picks running few enough d_new p_new
      asking replied =
    let (ended, wrote) =
      sender_tells json bind_json meta_json busid n t' s_writes client p good (asking, p_new) in
    let device : DeviceSummary = mock_summary Mode.hid busid in
    let envs : List Envelope = mock_stream meta_json 1 busid n in
    let (went, made, emitted, sent) =
      run_receive-course t r_writes uinput create desk stop json bind_json meta_json client wanted _
        _ _ (device ∷ []) device envs fuel d good.greeted good.listed good.attached good.greets.1
        good.listing.1 good.attaching.1 good.binding
        ((pick_hid_device_first wanted [] [] device tt).1 picks) running
        (mock_stream-fit meta_json 1 busid n good.ack_fits)
        (omega (arith, length-mock_stream meta_json 1 busid n)) d_new (replied ∙ wrote) in
    let answered =
      course-mock_stream meta_json 1 busid n good.acknowledged good.short (omega arith) in
    (
      ended,
      went ∙ ap (λ (a : Answer Session). a.0) answered,
      made ∙ ap (λ (a : Answer Session). desk.profiles d ++ a.1) answered,
      emitted ∙ ap (λ (a : Answer Session). desk.recorder.events d ++ a.2) answered,
      sent ∙ sym asking,
    )
