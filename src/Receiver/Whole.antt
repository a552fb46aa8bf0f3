-- ===== src/Receiver/Whole.antt =====
-- `run_receive` as a whole: the handshake, and then the loop.
use zerowire.Prelude.{
  ℕ, ◌<◌, ◌≤◌, ◌≡◌, sym, ap, ◌∙◌, arith, Bool, false, Option, List, [], ◌++◌, String, ok, length,
  append-nil, append_assoc, All, map,
}
use zerowire.Bytes.{Bytes}
use zerowire.Json.{Json}
use zerowire.Envelope.{max_payload, Envelope, hid as hid_channel}
use zerowire.Envelope.RoundTrip.{frame}
use zerowire.Control.{
  ControlMessage, DeviceSummary, hello_ack, list_devices, device_list, attach, attach_ok,
}
use zerowire.Hid.{BindRequest, BindAckMeta}
use zerowire.Uinput.{InputEvent, UinputDevice, DeviceProfile}
use zerowire.Io.{Io}
use zerowire.Receiver.{new_session, pick_hid_device, shake_hands, run_receive}
use zerowire.Receiver.Handshake.{greeting, bind_request, shake_hands-Steady, shake_hands_answered}
use zerowire.Receiver.Desk.{Desk}
use zerowire.Receiver.Course.{receive_loop-course}
use zerowire.Receiver.Machine.{say, course}
use zerowire.Wire.{Stream}
use zerowire.Wire.Laws.{Transport, CanWrite}
use zerowire.Wire.Chain.{control_frame, frames_bytes, IsSendable, IsWithinLimit}

-- What the receiver writes in a session in which it binds `device`.
abbrev pub asks_for : Json ControlMessage → Json BindRequest → String → DeviceSummary → Bytes
asks_for json bind_json client device =
    control_frame json (greeting client)
    ++ (control_frame json list_devices
        ++ (control_frame json (attach device.busid "hid")
            ++ (frame (record { channel = hid_channel; payload = bind_request bind_json device })
                ++ [])))

-- What a sender writes that grants it, and then sends `envs`.
abbrev pub grants :
    Json ControlMessage → ControlMessage → List DeviceSummary → String → List Envelope → Bytes
grants json ack devices busid envs =
    control_frame json ack
    ++ (control_frame json (device_list devices)
        ++ (control_frame json (attach_ok busid 1) ++ frames_bytes envs))

module _ {S : Type 0} {st : Stream S} (t : Transport st) (can_write : CanWrite st)
    (uinput : UinputDevice S) (create : DeviceProfile → Io S (Unit {0}))
    (desk : Desk t uinput create) (stop : S → Bool) (json : Json ControlMessage)
    (bind_json : Json BindRequest) (meta_json : Json BindAckMeta) where
  -- With a sender that grants what is asked for, a session ends as the machine does, from a new one.
  pub run_receive-course :
      (client : String) (wanted : Option String) (sender_id name : String) (supports : List String)
      (devices : List DeviceSummary) (chosen : DeviceSummary) (envs : List Envelope) (fuel : ℕ)
      (s : S)
      → IsSendable json (hello_ack sender_id name supports)
      → IsSendable json (device_list devices)
      → IsSendable json (attach_ok chosen.busid 1)
      → length (json.to_vec (greeting client)) ≤ max_payload
      → length (json.to_vec list_devices) ≤ max_payload
      → length (json.to_vec (attach chosen.busid "hid")) ≤ max_payload
      → length (bind_request bind_json chosen) ≤ max_payload
      → pick_hid_device devices wanted ≡ ok chosen
      → ((s' : S) → stop s' ≡ false)
      → All IsWithinLimit envs
      → length envs < fuel
      → t.outgoing s ≡ []
      → t.incoming s ≡ grants json (hello_ack sender_id name supports) devices chosen.busid envs
      → let ran = run_receive st json bind_json meta_json uinput create stop client wanted fuel s in
        let answer = course new_session (map (say meta_json) envs) in
        (ran.0 ≡ answer.0)
        × (desk.profiles ran.1 ≡ desk.profiles s ++ answer.1)
        × (desk.recorder.events ran.1 ≡ desk.recorder.events s ++ answer.2)
        × (t.outgoing ran.1 ≡ asks_for json bind_json client chosen)
  unfolding run_receive
  run_receive-course client wanted sender_id name supports devices chosen envs fuel s ok1 ok2 ok3
        fit1 fit2 fit3 fit4 picked running fit enough new replied =
      let (shaken, left, sent) =
        shake_hands_answered t can_write json bind_json client wanted sender_id name supports
          devices chosen chosen.busid 1 (frames_bytes envs) s ok1 ok2 ok3 fit1 fit2 fit3 fit4 picked
          replied in
      let s1 : S = (shake_hands st json bind_json client wanted s).1 in
      let (went, made, emitted, silent) =
        receive_loop-course t json meta_json uinput create desk stop envs [] fuel new_session s1
          running fit (omega arith) enough (left ∙ sym (append-nil _)) in
      let answer = course new_session (map (say meta_json) envs) in
      let hello : Bytes = control_frame json (greeting client) in
      let lists : Bytes = control_frame json list_devices in
      let attaching : Bytes = control_frame json (attach chosen.busid "hid") in
      let bound : Bytes =
        frame (record { channel = hid_channel; payload = bind_request bind_json chosen }) in
      let profiles =
        (shake_hands-Steady desk.profiles st json desk.read_profiles desk.send_profiles bind_json
            client wanted).same
          s in
      let events =
        (shake_hands-Steady desk.recorder.events st json desk.read_events desk.send_events bind_json
            client wanted).same
          s in
      rw shaken (
        went,
        made ∙ ap (λ (x : List DeviceProfile). x ++ answer.1) profiles,
        emitted ∙ ap (λ (x : List InputEvent). x ++ answer.2) events,
        silent
            ∙ sent
            ∙ ap (λ (z : Bytes). (((z ++ hello) ++ lists) ++ attaching) ++ bound) new
            ∙ append_assoc (hello ++ lists) attaching bound
            ∙ append_assoc hello lists (attaching ++ bound)
            ∙ ap (λ (z : Bytes). hello ++ (lists ++ (attaching ++ z))) (sym (append-nil bound)),
      )
