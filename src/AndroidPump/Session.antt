-- ===== src/AndroidPump/Session.antt =====
-- A whole USB/IP session, from HELLO to the last URB: the receiver that drives a script, and the
-- sender with the fake mass storage, each over a stream with what the other one writes to come.
use zerowire.Prelude.{
  ℕ, ◌+◌, ◌^◌, ◌<◌, ◌≤◌, ◌≡◌, sym, ap, ◌∙◌, arith, Bool, Option, some, List, [], ◌∷◌, ◌++◌, String,
  ok, append-nil, append_assoc,
}
use zerowire.Bytes.{Bytes, IsU32}
use zerowire.Json.{Json}
use zerowire.Control.{
  ControlMessage, DeviceSummary, UsbipAttachInfo, list_devices, device_list, attach,
  attach_ok_usbip,
}
use zerowire.Device.{FakeDevice, mass_storage}
use zerowire.Pump.{no_stats}
use zerowire.Pump.Request.{Request, requests_bytes, answers_bytes, counted_all}
use zerowire.Pump.Serve.{run_pump_answers}
use zerowire.Driver.{script_default}
use zerowire.Driver.Loopback.{script_requests, script_requests-IsServable}
use zerowire.Driver.Script.{script_default-IsExpected, length-script_default}
use zerowire.Vhci.{Sysfs}
use zerowire.Transcript.{Transcript}
use zerowire.Transcript.Laws.{Beside}
use zerowire.Sender.{answer_handshake}
use zerowire.Io.{pure}
use zerowire.Sender.Answered.{answer_handshake_met}
use zerowire.UsbipReceiver.{
  UsbipReceiveOpts, attach_usbip, run_simulated_drive, attached, run_usbip_receive,
}
use zerowire.UsbipReceiver.Answered.{IsAskedFor, usbip_hello, attach_usbip_answered}
use zerowire.UsbipReceiver.Drive.{run_simulated_drive_answered}
use zerowire.AndroidPump.{
  PumpArgs, pump_hello_ack, pump_summary, pump_attach_info, run_pump_session,
}
use zerowire.Wire.{Stream, send_control}
use zerowire.Wire.Laws.{Transport, CanWrite}
use zerowire.Wire.Chain.{
  control_frame, IsSendable, At, Yields, Yields-then, Yields-pure, Yields-send_control,
}

-- A simulated attach with a script of `n` extra reads.
abbrev pub driving_opts :
    {D : Type 0} → Transcript D → ℕ → String → Option String → UsbipReceiveOpts D
driving_opts log n client busid = record {
  busid = busid;
  client_name = client;
  simulate_transcript = some log;
  simulate_drive_urbs = some n;
}

-- Every message of the session is within the limit, and serde reads it back.
pub record AreSendable (json : Json ControlMessage) (args : PumpArgs) (client : String)
    : Type 0 where
  pub greeting : IsSendable json (usbip_hello client)
  pub greeted : IsSendable json pump_hello_ack
  pub listing : IsSendable json list_devices
  pub listed : IsSendable json (device_list (pump_summary args ∷ []))
  pub attaching : IsSendable json (attach args.busid "usbip")
  pub attached : IsSendable json (attach_ok_usbip (pump_attach_info args))

module _ (json : Json ControlMessage) (args : PumpArgs) (n : ℕ) where
  abbrev storage : FakeDevice
  storage = mass_storage args.vendor args.product

  abbrev urbs : Bytes
  urbs = requests_bytes args.import_id storage (script_requests (script_default n))

  abbrev replies : Bytes
  replies = answers_bytes args.import_id storage (script_requests (script_default n))

  -- What the receiver writes in a session.
  abbrev pub asked : String → Bytes
  asked client =
      control_frame json (usbip_hello client)
      ++ (control_frame json list_devices
          ++ (control_frame json (attach args.busid "usbip") ++ urbs))

  -- What the sender writes in a session.
  abbrev pub answered : Bytes
  answered =
      control_frame json pump_hello_ack
      ++ (control_frame json (device_list (pump_summary args ∷ []))
          ++ (control_frame json (attach_ok_usbip (pump_attach_info args)) ++ replies))

  sender_answers :
      {P : Type 0} {pump : Stream P} (t : Transport pump)
      → CanWrite pump
      → (client : String) (fuel : ℕ) (p : P) → AreSendable json args client
      → IsU32 args.import_id
      → 100 + n ≤ 2 ^ 32
      → 8 + n < fuel
      → At t p (asked client) []
      → ((run_pump_session pump json args fuel p).0
          ≡ ok (counted_all args.import_id storage no_stats (script_requests (script_default n))))
        × (t.outgoing (run_pump_session pump json args fuel p).1 ≡ answered)
  unfolding run_pump_session
  sender_answers {P} {pump} t can_write client fuel p good id_fits few enough at0 =
      let reqs : List Request = script_requests (script_default n) in
      let device : DeviceSummary = pump_summary args in
      let info : UsbipAttachInfo = pump_attach_info args in
      let expected = script_default-IsExpected args.import_id args.vendor args.product n few in
      let met =
        answer_handshake_met t can_write json 1 client ("usbip/1.1.1" ∷ []) pump_hello_ack device
          "usbip" good.greeting good.listing good.attaching good.greeted.1 good.listed.1 at0 in
      let p1 : P = (answer_handshake pump json pump_hello_ack device "usbip" p).1 in
      let told =
        Yields-send_control t json can_write (attach_ok_usbip info) {s = p1} good.attached.1
          (met.runs.1, met.runs.2) in
      let p2 : P = (send_control pump json (attach_ok_usbip info) p1).1 in
      let (served, wrote) =
        run_pump_answers t can_write args.import_id id_fits storage reqs [] fuel p2
          (script_requests-IsServable args.import_id storage _ expected) (omega arith)
          (omega (arith, length-script_default n)) (told.runs.1 ∙ sym (append-nil urbs)) in
      rw (met.runs.0, told.runs.0)
        (
          served,
          wrote
              ∙ ap (λ (z : Bytes). z ++ replies) told.runs.2
              ∙ append_assoc
                  (control_frame json pump_hello_ack
                    ++ control_frame json (device_list (device ∷ [])))
                  (control_frame json (attach_ok_usbip info)) replies
              ∙ append_assoc (control_frame json pump_hello_ack)
                  (control_frame json (device_list (device ∷ [])))
                  (control_frame json (attach_ok_usbip info) ++ replies),
        )

  receiver_asks :
      {D : Type 0} {driver : Stream D} (t : Transport driver)
      → CanWrite driver
      → (log : Transcript D) → Beside t log
      → (sysfs : Sysfs D) (stop : D → Bool) (fd fuel : ℕ) (client : String) (busid : Option String)
        (d : D)
      → AreSendable json args client
      → IsAskedFor busid (pump_summary args)
      → IsU32 args.import_id
      → 100 + n ≤ 2 ^ 32
      → At t d answered []
      → Yields t
          (run_usbip_receive driver json stop sysfs fd fuel (driving_opts log n client busid))
          d
          tt
          []
          (asked client)
  unfolding run_usbip_receive attached
  receiver_asks {driver = driver} t can_write log beside sysfs stop fd fuel client busid d good
        wanted id_fits few at0 =
      let info : UsbipAttachInfo = pump_attach_info args in
      let sent : Bytes → Bytes = λ z.
        control_frame json pump_hello_ack
        ++ (control_frame json (device_list (pump_summary args ∷ []))
            ++ (control_frame json (attach_ok_usbip info) ++ z)) in
      let joined_up =
        append_assoc (control_frame json (usbip_hello client) ++ control_frame json list_devices)
          (control_frame json (attach args.busid "usbip")) urbs
        ∙ append_assoc (control_frame json (usbip_hello client)) (control_frame json list_devices)
            (control_frame json (attach args.busid "usbip") ++ urbs) in
      rw (sym joined_up) (
        Yields-then t (attach_usbip driver json client busid) _
          (attach_usbip_answered t can_write json client busid _ _ _ (pump_summary args) info
            good.greeted good.listed good.attached good.greeting.1 good.listing.1 good.attaching.1
            wanted (at0.0 ∙ sym (ap sent (append-nil replies)), at0.1))
          (λ d1 at1.
            Yields-then t (run_simulated_drive driver json log info n) (λ _. pure tt)
              (run_simulated_drive_answered t can_write log beside json info args.vendor
                args.product n id_fits few at1)
              (λ d2 at2. Yields-pure t tt at2)))

-- The receiver with a transcript and `n` extra reads, and the sender that stands in for the phone,
-- each over a stream with what the other one writes to come: if streams take every write and the
-- transcript can be written, the messages of the handshake are within the limit and read back by
-- serde, the receiver asks for no bus id or for the one on offer, the import id is of 32 bits, 100 + n
-- is at most 2^32 and the pump has fuel, then both end without an error, the pump has served the whole
-- script, the receiver has written what the sender has read, and has read everything that the sender
-- has written.
pub usbip_session :
    {D P : Type 0} {driver : Stream D} {pump : Stream P} (t : Transport driver)
    (t' : Transport pump)
    → CanWrite driver
    → CanWrite pump
    → (log : Transcript D) → Beside t log
    → (sysfs : Sysfs D) (stop : D → Bool) (fd rounds : ℕ) (json : Json ControlMessage)
      (args : PumpArgs) (client : String) (busid : Option String) (n fuel : ℕ) (d : D) (p : P)
    → AreSendable json args client
    → IsAskedFor busid (pump_summary args)
    → IsU32 args.import_id
    → 100 + n ≤ 2 ^ 32
    → 8 + n < fuel
    → t.outgoing d ≡ []
    → t'.outgoing p ≡ []
    → t'.incoming p ≡ asked json args n client
    → t.incoming d ≡ t'.outgoing (run_pump_session pump json args fuel p).1
    → let opts = driving_opts log n client busid in
      let receiver = run_usbip_receive driver json stop sysfs fd rounds opts d in
      (receiver.0 ≡ ok tt)
      × ((run_pump_session pump json args fuel p).0
          ≡ ok (
              counted_all args.import_id
                (mass_storage args.vendor args.product)
                no_stats
                (script_requests (script_default n))))
      × (t.outgoing receiver.1 ≡ t'.incoming p)
      × (t.incoming receiver.1 ≡ [])
usbip_session t t' d_writes p_writes log beside sysfs stop fd rounds json args client busid n fuel d
      p good wanted id_fits few enough d_new p_new asking replied =
    let (served, wrote) =
      sender_answers json args n t' p_writes client fuel p good id_fits few enough
        (asking, p_new) in
    let (went, left, sent) =
      (receiver_asks json args n t d_writes log beside sysfs stop fd rounds client busid d good
        wanted id_fits few (replied ∙ wrote, d_new)).runs in
    (went, served, sent ∙ sym asking, left)
