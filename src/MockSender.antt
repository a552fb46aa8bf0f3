-- ===== src/MockSender.antt =====
-- desktop-linux/src/bin/mock_sender.rs: the stand-in for the Android sender, from the accepted
-- connection on. The log and the pauses are left out.
pub mod Streams
pub mod Moves
pub mod Session
use zerowire.Prelude.{
  ℕ, zero, suc, ◌+◌, ◌%◌, ◌^◌, Bool, true, false, not, Option, none, some, List, [], ◌∷◌, String,
  ◌==◌, if◌then◌else◌, Result, ok, err, map_err, replicate,
}
use zerowire.Bytes.{Bytes}
use zerowire.Json.{Json}
use zerowire.Envelope
use zerowire.Envelope.{
  Channel, Envelope, control, keepalive, hid as hid_channel, usbip as usbip_channel,
}
use zerowire.Control.{
  ControlMessage, DeviceSummary, UsbipAttachInfo, hello_ack, attach_ok, attach_ok_usbip,
}
use zerowire.Hid
use zerowire.Hid.{
  HidFrame, HidOp, BindAckMeta, mouse, bind, bind_ack, report_in, report_out, report_feature,
  unbind, encode_bind_ack_body,
}
use zerowire.HidDescriptor.{mouse_descriptor}
use zerowire.Device.{synth_device_descriptor}
use zerowire.Usbip.Frame
use zerowire.AndroidPump.{hex_string}
use zerowire.Sender.{answer_handshake}
use zerowire.Io.{
  Io, Failure, envelope, hid_frame, wrong_channel, unexpected_hid_op, panic, pure, raise, lift,
  continue, ◌>>=◌, ◌>>◌,
}
use zerowire.Wire.{Stream, recv_envelope, send_control}

pub data Mode : Type 0 where
  hid usbip : Mode

-- The arguments that the session reads.
pub record MockArgs : Type 0 where
  pub reports : ℕ
  pub busid : String
  pub persistent : Bool
  pub mode : Mode

-- How a session ends that meets no error: the connection is closed, or kept until the process is
-- killed.
pub data Ending : Type 0 where
  closed idling : Ending

abbrev pub ending : Bool → Ending
ending true = idling
ending false = closed

abbrev pub mock_hello_ack : ControlMessage
mock_hello_ack = hello_ack "mock-sender" "zerowire-mock" ("hid-fastlane/1" ∷ "usbip/1.1.1" ∷ [])

abbrev pub mock_summary : Mode → String → DeviceSummary
mock_summary hid busid = record {
  busid = busid;
  vendor_id = 0xBADD;
  product_id = 0xC0DE;
  manufacturer = some "builtbyzero";
  product = some "zerowire-mock mouse";
  serial = none;
  device_class = 0;
  device_subclass = 0;
  device_protocol = 0;
  is_hid = true;
}
mock_summary usbip busid = record {
  busid = busid;
  vendor_id = 0x046d;
  product_id = 0xc52b;
  manufacturer = some "builtbyzero";
  product = some "zerowire-mock mass-storage";
  serial = some "sim-0001";
  device_class = 0x08;
  device_subclass = 0x06;
  device_protocol = 0x50;
  is_hid = false;
}

abbrev pub mode_name : Mode → String
mode_name hid = "hid"
mode_name usbip = "usbip"

-- `synth_mouse_bind_ack_body` of desktop-linux/src/receiver.rs, and its metadata
abbrev pub mock_meta : String → BindAckMeta
mock_meta busid = record {
  busid = busid;
  kind = mouse;
  vendor_id = 0xBADD;
  product_id = 0xC0DE;
  name = "zerowire-mock mouse";
}

unfoldable pub synth_mouse_bind_ack_body : Json BindAckMeta → String → Bytes
synth_mouse_bind_ack_body json busid = encode_bind_ack_body json (mock_meta busid) mouse_descriptor

-- `hid_envelope` of desktop-linux/src/receiver.rs, which panics if the frame is too large
unfoldable pub hid_envelope : HidFrame → Result Failure Bytes
hid_envelope f =
    map_err (λ e. panic)
      (Envelope.encode (record { channel = hid_channel; payload = Hid.encode f }))

-- `{"reason":"mock done"}`
abbrev pub mock_done : Bytes
mock_done =
    123 ∷ 34 ∷ 114 ∷ 101 ∷ 97 ∷ 115 ∷ 111 ∷ 110 ∷ 34 ∷ 58 ∷ 34 ∷ 109 ∷ 111 ∷ 99 ∷ 107 ∷ 32 ∷ 100
    ∷ 111 ∷ 110 ∷ 101 ∷ 34 ∷ 125 ∷ []

abbrev pub mock_report : ℕ → ℕ → HidFrame
mock_report bind_id i = record {
  op = report_in;
  bind_id = bind_id;
  seq = (i + 1) % 2 ^ 16;
  body = 0 ∷ 3 ∷ 0 ∷ 0 ∷ [];
}

abbrev pub mock_unbind : ℕ → HidFrame
mock_unbind bind_id = record { op = unbind; bind_id = bind_id; seq = 0; body = mock_done }

abbrev pub mock_import_id : ℕ
mock_import_id = 7

abbrev pub mock_attach_info : DeviceSummary → UsbipAttachInfo
mock_attach_info device = record {
  busid = device.busid;
  import_id = mock_import_id;
  devid = 0x00010002;
  speed = 3;
  vendor_id = device.vendor_id;
  product_id = device.product_id;
  descriptor_hex =
      some (
        hex_string
          (synth_device_descriptor device.vendor_id device.product_id device.device_class));
}

-- `vec![0xABu8; 48]` in a frame
abbrev pub mock_urb : Bytes
mock_urb = Frame.encode (record { import_id = mock_import_id; raw = replicate 48 0xAB })

unfoldable pub is_bind : HidOp → Bool
is_bind bind = true
is_bind bind_ack = false
is_bind report_in = false
is_bind report_out = false
is_bind report_feature = false
is_bind unbind = false

abbrev pub answered_id : ℕ → ℕ
answered_id bind_id = if bind_id == 0 then 1 else bind_id

module _ {S : Type 0} (st : Stream S) (control_json : Json ControlMessage)
    (meta_json : Json BindAckMeta) where
  unfoldable pub send_hid : HidFrame → Io S (Unit {0})
  unfolding hid_envelope
  send_hid f = do bytes ← lift (hid_envelope f); st.write_all bytes

  -- The `for`, from `i` on, with as many rounds to go as the first argument says.
  unfoldable pub send_reports : ℕ → ℕ → ℕ → Io S (Unit {0})
  unfolding send_hid
  send_reports zero bind_id i = pure tt
  send_reports (suc k) bind_id i = do
    send_hid (mock_report bind_id i)
    send_reports k bind_id (i + 1)

  unfoldable pub on_bind_envelope : Envelope → Io S HidFrame
  unfolding is_bind
  on_bind_envelope env = elim env.channel [
    | hid_channel ↦ do
      f ← lift (map_err hid_frame (Hid.parse env.payload))
      if is_bind f.op then pure f else raise unexpected_hid_op
    | control ↦ raise (wrong_channel control)
    | usbip_channel ↦ raise (wrong_channel usbip_channel)
    | keepalive ↦ raise (wrong_channel keepalive)
  ]

  unfoldable pub run_hid : MockArgs → Io S Ending
  unfolding on_bind_envelope send_reports synth_mouse_bind_ack_body
  run_hid args = do
    send_control st control_json (attach_ok args.busid 1)
    env ← recv_envelope st
    bind_frame ← on_bind_envelope env
    let bind_id = answered_id bind_frame.bind_id
    send_hid (record {
      op = bind_ack;
      bind_id = bind_id;
      seq = 0;
      body = synth_mouse_bind_ack_body meta_json args.busid;
    })
    send_reports args.reports bind_id 0
    if args.persistent then pure idling else do send_hid (mock_unbind bind_id); pure closed

  -- The `for` of the other mode.
  unfoldable pub send_urbs : ℕ → Io S (Unit {0})
  send_urbs zero = pure tt
  send_urbs (suc k) = do
    bytes ← lift (
        map_err envelope (Envelope.encode (record { channel = usbip_channel; payload = mock_urb })))
    st.write_all bytes
    send_urbs k

  unfoldable pub run_usbip : MockArgs → DeviceSummary → Io S Ending
  unfolding send_urbs
  run_usbip args device = do
    send_control st control_json (attach_ok_usbip (mock_attach_info device))
    send_urbs args.reports
    pure (ending args.persistent)

  unfoldable pub by_mode : MockArgs → Mode → Io S Ending
  unfolding run_hid run_usbip
  by_mode args hid = run_hid args
  by_mode args usbip = run_usbip args (mock_summary usbip args.busid)

  -- `run_session`
  unfoldable pub run_mock_session : MockArgs → Io S Ending
  unfolding by_mode
  run_mock_session args = do
    answer_handshake st control_json mock_hello_ack (mock_summary args.mode args.busid)
        (mode_name args.mode)
    by_mode args args.mode
