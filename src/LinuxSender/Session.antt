-- ===== src/LinuxSender/Session.antt =====
-- A whole HID session, from HELLO to the end of the device's file: the receiver, and the sender for a
-- real HID device, each over a stream with what the other one writes to come.
use zerowire.Prelude.{
  ℕ, ◌+◌, ◌^◌, ◌<◌, ◌≡◌, sym, ap, ◌∙◌, arith, Bool, false, Option, List, [], ◌∷◌, ◌++◌, String, ok,
  length, append_assoc, All, map,
}
use zerowire.Bytes.{Bytes}
use zerowire.Json.{Json, RoundTrips}
use zerowire.Envelope.{Envelope}
use zerowire.Control.{ControlMessage, DeviceSummary, attach_ok}
use zerowire.Hid.{HidFrame, BindRequest, BindAckMeta, bind}
use zerowire.Uinput.{UinputDevice, DeviceProfile}
use zerowire.Io.{Io}
use zerowire.LinuxSender.{ExposedHidraw, Hidraw, meta_for, serve_session}
use zerowire.LinuxSender.Forward.{Tape, FitsBuffer}
use zerowire.LinuxSender.Serve.{linux_ack, listed, IsServable, serve_session-Yields}
use zerowire.LinuxSender.Passes.{passed_on, after_all, sent, length-sent, sent-fit, course-sent}
use zerowire.Receiver.{Session, profile_of, pick_hid_device, run_receive}
use zerowire.Receiver.Handshake.{greeting}
use zerowire.Receiver.Desk.{Desk}
use zerowire.Receiver.Whole.{asks_for, run_receive-course}
use zerowire.Receiver.Machine.{Answer}
use zerowire.Reports.{zero_statics}
use zerowire.Wire.{Stream}
use zerowire.Wire.Laws.{Transport, CanWrite}
use zerowire.Wire.Chain.{control_frame, At, Yields, IsSendable}

-- The frame with which the receiver asks to bind.
abbrev pub bind_frame : Json BindRequest → DeviceSummary → HidFrame
bind_frame bind_json device = record {
  op = bind;
  bind_id = 1;
  seq = 0;
  body = bind_json.to_vec (record { busid = device.busid; want = "input" });
}

module _ (json : Json ControlMessage) (bind_json : Json BindRequest) (meta_json : Json BindAckMeta)
    (name client : String) (devices : List ExposedHidraw) (chosen : ExposedHidraw) where
  -- The messages of the session are within the limit and read back by serde, the device is the first
  -- with its bus id, and it is a keyboard or a mouse.
  pub record IsReady (profile : DeviceProfile) : Type 0 where
    pub served :
        IsServable json bind_json meta_json
          (greeting client)
          name
          chosen.summary.busid
          "hid"
          devices
          chosen
          (bind_frame bind_json chosen.summary)
    pub greets : IsSendable json (linux_ack name)
    pub lists : IsSendable json (listed devices)
    pub attaches : IsSendable json (attach_ok chosen.summary.busid 1)
    pub acknowledges : RoundTrips meta_json (meta_for chosen)
    pub short : length (meta_json.to_vec (meta_for chosen)) < 2 ^ 16
    pub known : profile_of (meta_for chosen) (meta_for chosen).kind ≡ ok profile

-- The receiver and the sender for a real HID device, each over a stream with what the other one writes
-- to come: if streams take every write, uinput takes what it is given, the device's file can be opened
-- and read to its end, in reads of at most 64 bytes, the messages are within the limit and read back by
-- serde, the receiver picks, of the devices that the sender lists, one with an interface of a keyboard
-- or a mouse that is the first with its bus id, no stop is asked for, and the fuel of each loop is
-- enough for the reads of the file, then the sender ends without an error, so does the receiver, it has
-- created one device, with the profile of the device's metadata, has emitted the events of every report
-- of the file in order and nothing else, and has written what the sender has read.
pub linux_session :
    {D P : Type 0} {receiver : Stream D} {sender : Stream P} (t : Transport receiver)
    (t' : Transport sender)
    → CanWrite receiver
    → CanWrite sender
    → (uinput : UinputDevice D) (create : DeviceProfile → Io D (Unit {0}))
      (desk : Desk t uinput create) (stop : D → Bool) (hidraw : Hidraw P) (tape : Tape t' hidraw)
      (listing : Io P (List ExposedHidraw)) (json : Json ControlMessage)
      (bind_json : Json BindRequest) (meta_json : Json BindAckMeta) (name client : String)
      (wanted : Option String) (devices : List ExposedHidraw) (chosen : ExposedHidraw)
      (profile : DeviceProfile) (fuel fuel' : ℕ) (d : D) (p : P)
    → IsReady json bind_json meta_json name client devices chosen profile
    → ((s : P) → (i o : Bytes) → At t' s i o → Yields t' listing s devices i o)
    → pick_hid_device (map (λ x. x.summary) devices) wanted ≡ ok chosen.summary
    → ((s : D) → stop s ≡ false)
    → All FitsBuffer (tape.content chosen.hidraw_path)
    → length (tape.content chosen.hidraw_path) < fuel'
    → length (tape.content chosen.hidraw_path) + 2 < fuel
    → t.outgoing d ≡ []
    → t'.outgoing p ≡ []
    → t'.incoming p ≡ asks_for json bind_json client chosen.summary
    → t.incoming d
      ≡ t'.outgoing (serve_session sender json bind_json meta_json hidraw name listing fuel' p).1
    → let ran =
        run_receive receiver json bind_json meta_json uinput create stop client wanted fuel d in
      let served = serve_session sender json bind_json meta_json hidraw name listing fuel' p in
      let rs = tape.content chosen.hidraw_path in
      (served.0 ≡ ok tt)
      × (ran.0 ≡ ok (after_all 0 0 zero_statics rs))
      × (desk.profiles ran.1 ≡ desk.profiles d ++ (profile ∷ []))
      × (desk.recorder.events ran.1 ≡ desk.recorder.events d ++ passed_on zero_statics rs)
      × (t.outgoing ran.1 ≡ t'.incoming p)
linux_session {D = D} {receiver = receiver} t t' r_writes s_writes uinput create desk stop hidraw
      tape listing json bind_json meta_json name client wanted devices chosen profile fuel fuel' d p
      ready shows picked running fit few enough d_new p_new asking replied =
    let device : DeviceSummary = chosen.summary in
    let rs = tape.content chosen.hidraw_path in
    let envs : List Envelope = sent meta_json 1 chosen rs in
    let served =
      (serve_session-Yields t' s_writes json bind_json meta_json hidraw tape listing 1 client
        ("hid-fastlane/1" ∷ []) name device.busid "hid" devices chosen (bind_frame bind_json device)
        fuel' ready.served shows few fit (asking, p_new)).runs in
    let replied_whole =
      replied
      ∙ served.2
      ∙ append_assoc (control_frame json (linux_ack name)) (control_frame json (listed devices))
          _ in
    let (went, made, emitted, wrote) =
      run_receive-course t r_writes uinput create desk stop json bind_json meta_json client wanted
        "linux-sender" name ("hid-fastlane/1" ∷ []) (map (λ x. x.summary) devices) device envs fuel
        d ready.greets ready.lists ready.attaches ready.served.greets.1 ready.served.lists.1
        ready.served.attaches.1 ready.served.binding picked running
        (sent-fit meta_json 1 chosen rs ready.served.ack_fits fit)
        (omega (arith, length-sent meta_json 1 chosen rs)) d_new replied_whole in
    let answered =
      course-sent meta_json 1 chosen profile rs ready.acknowledges ready.short ready.known in
    (
      served.0,
      went ∙ ap (λ (a : Answer Session). a.0) answered,
      made ∙ ap (λ (a : Answer Session). desk.profiles d ++ a.1) answered,
      emitted ∙ ap (λ (a : Answer Session). desk.recorder.events d ++ a.2) answered,
      wrote ∙ sym asking,
    )
