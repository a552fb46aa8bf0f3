-- ===== src/LinuxSender.antt =====
-- desktop-linux/src/bin/linux_sender.rs: the sender that forwards a real HID device, from the accepted
-- connection on. The devices that sysfs shows and the /dev/hidraw files are parameters; the log and
-- the pauses are left out.
pub mod Forward
pub mod Serve
pub mod Passes
pub mod Session
use zerowire.Prelude.{
  ℕ, zero, suc, ◌+◌, ◌%◌, ◌^◌, Bool, true, false, not, Option, none, some, List, [], ◌∷◌, String,
  str_eq, str_append, ◌==◌, if◌then◌else◌, Result, ok, err, map_err, ok_or, map,
}
use zerowire.Bytes.{Bytes}
use zerowire.Json.{Json}
use zerowire.Control.{ControlMessage, DeviceSummary, hello_ack, device_list, attach, attach_ok}
use zerowire.Hid.{
  HidFrame, BindRequest, BindAckMeta, DeviceKind, mouse, keyboard, gamepad, other, bind_ack,
  report_in, unbind, encode_bind_ack_body,
}
use zerowire.HidDescriptor.{mouse_descriptor, keyboard_descriptor}
use zerowire.MockSender.{hid_envelope, answered_id, send_hid, on_bind_envelope}
use zerowire.Sender.{expect_hello, expect_list_devices}
use zerowire.Io.{
  Io, Failure, bad_json, busid_not_offered, unexpected_message, out_of_fuel, pure, raise, lift,
  attempt, continue, ◌>>=◌, ◌>>◌,
}
use zerowire.Wire.{Stream, recv_envelope, recv_control, send_control}

pub record ExposedHidraw : Type 0 where
  pub summary : DeviceSummary
  pub hidraw_path : String
  pub interface_class : ℕ
  pub interface_protocol : ℕ

-- By the interface descriptor: 1 is a keyboard, 2 a mouse.
unfoldable pub kind_for : ExposedHidraw → DeviceKind
kind_for d =
    if d.interface_class == 0x03
    then if d.interface_protocol == 1
      then keyboard
      else if d.interface_protocol == 2
      then mouse
      else other
    else other

unfoldable pub find_exposed : String → List ExposedHidraw → Option ExposedHidraw
find_exposed busid [] = none
find_exposed busid (d ∷ ds) = if str_eq d.summary.busid busid then some d else find_exposed busid ds

abbrev pub or_path : Option String → String → String
or_path (some product) path = product
or_path none path = str_append "hidraw " path

abbrev pub meta_for : ExposedHidraw → BindAckMeta
meta_for d = record {
  busid = d.summary.busid;
  kind = kind_for d;
  vendor_id = d.summary.vendor_id;
  product_id = d.summary.product_id;
  name = or_path d.summary.product d.hidraw_path;
}

abbrev pub descriptor_for : DeviceKind → Bytes
descriptor_for mouse = mouse_descriptor
descriptor_for keyboard = keyboard_descriptor
descriptor_for gamepad = []
descriptor_for other = []

-- `{"reason":"hidraw stream ended"}`
abbrev pub stream_ended : Bytes
stream_ended =
    123 ∷ 34 ∷ 114 ∷ 101 ∷ 97 ∷ 115 ∷ 111 ∷ 110 ∷ 34 ∷ 58 ∷ 34 ∷ 104 ∷ 105 ∷ 100 ∷ 114 ∷ 97 ∷ 119
    ∷ 32 ∷ 115 ∷ 116 ∷ 114 ∷ 101 ∷ 97 ∷ 109 ∷ 32 ∷ 101 ∷ 110 ∷ 100 ∷ 101 ∷ 100 ∷ 34 ∷ 125 ∷ []

-- What a read of at most 64 bytes from a hidraw file that does not block comes to.
pub data Reading : Type 0 where
  report : Bytes → Reading
  would_block : Reading
  end_of_file : Reading

-- Opening it, with the flag set, and reading it; a failure is an error of either.
pub record Hidraw (S : Type 0) : Type 0 where
  pub open_nonblocking : String → Io S (Unit {0})
  pub read : Io S Reading

abbrev pub numbered_report : ℕ → ℕ → Bytes → HidFrame
numbered_report bind_id seq body = record {
  op = report_in;
  bind_id = bind_id;
  seq = seq;
  body = body;
}

module _ {S : Type 0} (st : Stream S) (control_json : Json ControlMessage)
    (bind_json : Json BindRequest) (meta_json : Json BindAckMeta) (hidraw : Hidraw S) where
  -- The `loop`, for at most as many reads as the fuel says. A report that cannot be sent ends it
  -- without an error.
  unfoldable pub forward_reports : ℕ → ℕ → ℕ → Io S (Unit {0})
  unfolding hid_envelope
  forward_reports zero bind_id seq = raise out_of_fuel
  forward_reports (suc fuel) bind_id seq = do
    got ← hidraw.read
    elim got [
      | end_of_file ↦ pure tt
      | would_block ↦ forward_reports fuel bind_id seq
      | report body ↦ do
        bytes ← lift (hid_envelope (numbered_report bind_id ((seq + 1) % 2 ^ 16) body))
        sent ← attempt (st.write_all bytes)
        elim sent [ none ↦ pure tt | some _ ↦ forward_reports fuel bind_id ((seq + 1) % 2 ^ 16) ]
    ]

  unfoldable pub pump_reports : String → ℕ → ℕ → Io S (Unit {0})
  unfolding forward_reports
  pump_reports path bind_id fuel = do hidraw.open_nonblocking path; forward_reports fuel bind_id 0

  unfoldable pub attach_busid : ControlMessage → Io S String
  attach_busid (attach busid mode) = pure busid
  attach_busid msg = raise (unexpected_message msg)

  unfoldable pub check_bind : String → HidFrame → Io S (Unit {0})
  check_bind busid frame = do
    request ← lift (ok_or (bind_json.from_slice frame.body) bad_json)
    if str_eq request.busid busid then pure tt else raise (busid_not_offered request.busid)

  -- `serve_session` from ATTACH_OK on.
  unfoldable pub serve_bound : ExposedHidraw → ℕ → Io S (Unit {0})
  unfolding check_bind pump_reports
  serve_bound chosen fuel = do
    send_control st control_json (attach_ok chosen.summary.busid 1)
    env ← recv_envelope st
    bind_frame ← on_bind_envelope st control_json meta_json env
    check_bind chosen.summary.busid bind_frame
    let bind_id = answered_id bind_frame.bind_id
    send_hid st control_json meta_json (record {
      op = bind_ack;
      bind_id = bind_id;
      seq = 0;
      body =
          encode_bind_ack_body meta_json (meta_for chosen) (descriptor_for (meta_for chosen).kind);
    })
    pump_reports chosen.hidraw_path bind_id fuel
    attempt (
        send_hid st control_json meta_json
          (record { op = unbind; bind_id = bind_id; seq = 0; body = stream_ended }))
    pure tt

  -- `serve_session`: `listing` is what `enumerate_hidraw_devices` gives.
  unfoldable pub serve_session : String → Io S (List ExposedHidraw) → ℕ → Io S (Unit {0})
  unfolding find_exposed attach_busid serve_bound
  serve_session name listing fuel = do
    greeting ← recv_control st control_json
    expect_hello st control_json greeting
    send_control st control_json (hello_ack "linux-sender" name ("hid-fastlane/1" ∷ []))
    devices ← listing
    request ← recv_control st control_json
    expect_list_devices st control_json request
    send_control st control_json (device_list (map (λ d. d.summary) devices))
    attaching ← recv_control st control_json
    busid ← attach_busid attaching
    chosen ← lift (ok_or (find_exposed busid devices) (busid_not_offered busid))
    serve_bound chosen fuel
