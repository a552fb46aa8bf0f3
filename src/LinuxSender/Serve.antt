-- ===== src/LinuxSender/Serve.antt =====
-- A whole session of the sender for a real HID device.
use zerowire.Prelude.{
  ℕ, ◌+◌, ◌<◌, ◌≤◌, ◌≡◌, sym, ap, ◌∙◌, arith, true, List, [], ◌∷◌, ◌++◌, String, str_eq, str_eq_iff,
  Option, some, ok_or, length, append_assoc, append-nil, All, map,
}
use zerowire.Bytes.{Bytes, IsU16}
use zerowire.Json.{Json}
use zerowire.Envelope.{Envelope, max_payload}
use zerowire.Envelope.RoundTrip.{frame}
use zerowire.Control.{
  ControlMessage, hello, hello_ack, list_devices, device_list, attach, attach_ok,
}
use zerowire.Hid
use zerowire.Hid.{HidFrame, BindRequest, BindAckMeta, bind, bind_ack, unbind, encode_bind_ack_body}
use zerowire.Hid.Frame.{length-encode_hid}
use zerowire.Io.{Io, bad_json, busid_not_offered, pure, lift}
use zerowire.LinuxSender.{
  ExposedHidraw, find_exposed, meta_for, descriptor_for, stream_ended, Hidraw, forward_reports,
  pump_reports, attach_busid, check_bind, serve_bound, serve_session,
}
use zerowire.LinuxSender.Forward.{Tape, FitsBuffer, forwarded, forward_reports-Yields}
use zerowire.MockSender.{answered_id}
use zerowire.MockSender.Streams.{hid_message, send_hid-Yields, on_bind_envelope-Yields}
use zerowire.Sender.{expect_hello, expect_list_devices}
use zerowire.Wire.{Stream}
use zerowire.Wire.Laws.{Transport, CanWrite}
use zerowire.Wire.Chain.{
  At, Yields, Yields-next, Yields-then, Yields-attempt, Yields-pure, Yields-spelt, Yields-lift,
  Yields-recv, Yields-recv_control, Yields-send_control, control_frame, frames_bytes,
  frames_bytes-append, IsSendable,
}

abbrev pub ack_of : Json BindAckMeta → ℕ → ExposedHidraw → HidFrame
ack_of json bind_id d = record {
  op = bind_ack;
  bind_id = bind_id;
  seq = 0;
  body = encode_bind_ack_body json (meta_for d) (descriptor_for (meta_for d).kind);
}

abbrev pub goodbye : ℕ → HidFrame
goodbye bind_id = record { op = unbind; bind_id = bind_id; seq = 0; body = stream_ended }

abbrev pub linux_ack : String → ControlMessage
linux_ack name = hello_ack "linux-sender" name ("hid-fastlane/1" ∷ [])

abbrev pub listed : List ExposedHidraw → ControlMessage
listed devices = device_list (map (λ d. d.summary) devices)

-- The messages of a session are within the limit and read back by serde, the device asked for is
-- exposed, and the frame asks to bind the same one.
pub record IsServable (json : Json ControlMessage) (bind_json : Json BindRequest)
    (meta_json : Json BindAckMeta) (greeting : ControlMessage) (name busid mode : String)
    (devices : List ExposedHidraw) (chosen : ExposedHidraw) (f : HidFrame) : Type 0 where
  pub greets : IsSendable json greeting
  pub lists : IsSendable json list_devices
  pub attaches : IsSendable json (attach busid mode)
  pub greeted : length (json.to_vec (linux_ack name)) ≤ max_payload
  pub shown : length (json.to_vec (listed devices)) ≤ max_payload
  pub attached : length (json.to_vec (attach_ok chosen.summary.busid 1)) ≤ max_payload
  pub ack_fits :
      4
        + length (
            encode_bind_ack_body meta_json
              (meta_for chosen)
              (descriptor_for (meta_for chosen).kind))
      ≤ max_payload
  pub found : find_exposed busid devices ≡ some chosen
  pub asks : f.op ≡ bind
  pub small : IsU16 f.seq
  pub binding : length (Hid.encode f) ≤ max_payload
  pub request : BindRequest
  pub requested : bind_json.from_slice f.body ≡ some request
  pub same : request.busid ≡ chosen.summary.busid

module _ {S : Type 0} {st : Stream S} (t : Transport st) (can_write : CanWrite st)
    (json : Json ControlMessage) (bind_json : Json BindRequest) (meta_json : Json BindAckMeta)
    (hidraw : Hidraw S) (tape : Tape t hidraw) where
  pump_reports-Yields :
      (path : String) (bind_id fuel : ℕ) {i o : Bytes} {s : S}
      → length (tape.content path) < fuel
      → All FitsBuffer (tape.content path)
      → At t s i o
      → Yields t
          (pump_reports st json bind_json meta_json hidraw path bind_id fuel)
          s
          tt
          i
          (o ++ frames_bytes (forwarded bind_id 0 (tape.content path)))
  unfolding pump_reports
  pump_reports-Yields path bind_id fuel {s = s} few fit (coming, written) =
      Yields-next t (hidraw.open_nonblocking path)
        (λ _. forward_reports st json bind_json meta_json hidraw fuel bind_id 0)
        (record {
          runs = (
            tape.opens path s,
            (tape.open_keeps path s).0 ∙ coming,
            (tape.open_keeps path s).1 ∙ written,
          );
        })
        (λ at1.
          forward_reports-Yields t can_write json bind_json meta_json hidraw tape
            (tape.content path) fuel bind_id 0 (tape.opened path s) few fit at1)

  check_bind-Yields :
      (busid : String) (f : HidFrame) (request : BindRequest) {i o : Bytes} {s : S}
      → bind_json.from_slice f.body ≡ some request
      → request.busid ≡ busid
      → At t s i o
      → Yields t (check_bind st json bind_json meta_json hidraw busid f) s tt i o
  unfolding check_bind
  check_bind-Yields busid f request read same at0 =
      Yields-then t (lift (ok_or (bind_json.from_slice f.body) bad_json)) _
        (Yields-lift t (ap (λ (r : Option BindRequest). ok_or r bad_json) read) at0)
        (λ s1 at1.
          let e : str_eq request.busid busid ≡ true = (str_eq_iff request.busid busid).1 same in
          rw e (Yields-pure t tt at1))

  -- What is sent once a device is bound, to the end of its file.
  abbrev pub linux_stream : ℕ → ExposedHidraw → List Envelope
  linux_stream id chosen =
      hid_message (ack_of meta_json id chosen)
      ∷ (forwarded id 0 (tape.content chosen.hidraw_path) ++ (hid_message (goodbye id) ∷ []))

  serve_bound-Yields :
      (chosen : ExposedHidraw) (f : HidFrame) (request : BindRequest) (fuel : ℕ) {rest o : Bytes}
      {s : S}
      → f.op ≡ bind
      → IsU16 f.seq
      → length (Hid.encode f) ≤ max_payload
      → length (json.to_vec (attach_ok chosen.summary.busid 1)) ≤ max_payload
      → 4
          + length (
              encode_bind_ack_body meta_json
                (meta_for chosen)
                (descriptor_for (meta_for chosen).kind))
        ≤ max_payload
      → bind_json.from_slice f.body ≡ some request
      → request.busid ≡ chosen.summary.busid
      → length (tape.content chosen.hidraw_path) < fuel
      → All FitsBuffer (tape.content chosen.hidraw_path)
      → At t s (frame (hid_message f) ++ rest) o
      → Yields t (serve_bound st json bind_json meta_json hidraw chosen fuel) s tt rest (
          o
          ++ (control_frame json (attach_ok chosen.summary.busid 1)
              ++ frames_bytes (linux_stream (answered_id f.bind_id) chosen)))
  unfolding serve_bound
  serve_bound-Yields chosen f request fuel {rest} {o} asks small fits ok_fits ack_fits read same few
        fit at0 =
      let id : ℕ = answered_id f.bind_id in
      let busid : String = chosen.summary.busid in
      let ack : HidFrame = ack_of meta_json id chosen in
      let rs : List Envelope = forwarded id 0 (tape.content chosen.hidraw_path) in
      let last : Bytes = frame (hid_message (goodbye id)) in
      let told : Bytes = control_frame json (attach_ok busid 1) in
      Yields-spelt t
        (Yields-then t _ _ (Yields-send_control t json can_write (attach_ok busid 1) ok_fits at0)
          (λ s1 at1. Yields-then t _ _ (Yields-recv t (hid_message f) fits at1) (λ s2 at2.
            Yields-then t _ _ (on_bind_envelope-Yields t can_write json meta_json f asks small at2)
              (λ s3 at3.
                Yields-then t _ _ (check_bind-Yields busid f request read same at3) (λ s4 at4.
                  Yields-then t _ _
                    (send_hid-Yields t can_write json meta_json ack
                      (omega (arith, length-encode_hid ack)) at4)
                    (λ s5 at5.
                      Yields-then t _ _ (pump_reports-Yields chosen.hidraw_path id fuel few fit at5)
                        (λ s6 at6.
                          Yields-then t _ (λ _. pure tt)
                            (Yields-attempt t (
                              send_hid-Yields t can_write json meta_json (goodbye id)
                                (omega (arith, length-encode_hid (goodbye id))) at6))
                            (λ s7 at7. Yields-pure t tt at7))))))))
        (append_assoc ((o ++ told) ++ frame (hid_message ack)) (frames_bytes rs) last
          ∙ append_assoc (o ++ told) (frame (hid_message ack)) (frames_bytes rs ++ last)
          ∙ append_assoc o told (frame (hid_message ack) ++ (frames_bytes rs ++ last))
          ∙ ap (λ (z : Bytes). o ++ (told ++ (frame (hid_message ack) ++ z)))
              (ap (λ (z : Bytes). frames_bytes rs ++ z) (sym (append-nil last))
                ∙ sym (frames_bytes-append rs (hid_message (goodbye id) ∷ []))))

  -- Over a file that ends, a session with a receiver that asks to bind an exposed device succeeds.
  pub serve_session-Yields :
      (listing : Io S (List ExposedHidraw)) (version : ℕ) (client : String) (supports : List String)
      (name busid mode : String) (devices : List ExposedHidraw) (chosen : ExposedHidraw)
      (f : HidFrame) (fuel : ℕ) {rest o : Bytes} {s : S}
      → IsServable json bind_json meta_json
          (hello version client supports)
          name
          busid
          mode
          devices
          chosen
          f
      → ((s : S) → (i o : Bytes) → At t s i o → Yields t listing s devices i o)
      → length (tape.content chosen.hidraw_path) < fuel
      → All FitsBuffer (tape.content chosen.hidraw_path)
      → At t s
          (control_frame json (hello version client supports)
            ++ (control_frame json list_devices
                ++ (control_frame json (attach busid mode) ++ (frame (hid_message f) ++ rest))))
          o
      → Yields t (serve_session st json bind_json meta_json hidraw name listing fuel) s tt rest (
          ((o ++ control_frame json (linux_ack name)) ++ control_frame json (listed devices))
          ++ (control_frame json (attach_ok chosen.summary.busid 1)
              ++ frames_bytes (linux_stream (answered_id f.bind_id) chosen)))
  unfolding serve_session expect_hello expect_list_devices attach_busid
  serve_session-Yields listing version client supports name busid mode devices chosen f fuel c shows
        few fit at0 =
      Yields-then t _ _ (Yields-recv_control t json (hello version client supports) c.greets at0)
        (λ s1 at1.
          Yields-then t _ _ (Yields-send_control t json can_write (linux_ack name) c.greeted at1)
            (λ s2 at2. Yields-then t _ _ (shows s2 _ _ at2) (λ s3 at3.
              Yields-then t _ _ (Yields-recv_control t json list_devices c.lists at3) (λ s4 at4.
                Yields-then t _ _
                  (Yields-send_control t json can_write (listed devices) c.shown at4)
                  (λ s5 at5.
                    Yields-then t _ _
                      (Yields-recv_control t json (attach busid mode) c.attaches at5)
                      (λ s6 at6.
                        Yields-then t
                          (lift (ok_or (find_exposed busid devices) (busid_not_offered busid))) _
                          (Yields-lift t
                            (ap (λ (x : Option ExposedHidraw). ok_or x (busid_not_offered busid))
                              c.found)
                            at6)
                          (λ s7 at7.
                            serve_bound-Yields chosen f c.request fuel c.asks c.small c.binding
                              c.attached c.ack_fits c.requested c.same few fit at7)))))))
