-- ===== src/Receiver.antt =====
-- desktop-linux/src/receiver.rs: a session of the HID receiver, from the handshake on. Dialling, the
-- log and the diagnostic trace are left out; `stop` is what the flag says at the head of a round.
pub mod Handshake
pub mod Machine
pub mod Desk
pub mod Course
pub mod Stops
pub mod Whole
use zerowire.Prelude.{
  ℕ, zero, suc, ◌+◌, ◌%◌, ◌^◌, Bool, true, false, Option, none, some, List, [], ◌∷◌, String, str_eq,
  str_append, if◌then◌else◌, Result, ok, err, map_err, ok_or,
}
use zerowire.Bytes.{Bytes}
use zerowire.Json.{Json}
use zerowire.Envelope.{Envelope, control, usbip, hid, keepalive}
use zerowire.Control.{
  ControlMessage, DeviceSummary, hello, hello_ack, error, list_devices, device_list, attach,
  attach_ok, attach_denied,
}
use zerowire.Hid
use zerowire.Hid.{
  HidFrame, HidOp, BindRequest, BindAckMeta, DeviceKind, mouse, keyboard, gamepad, other, bind,
  bind_ack, report_in, report_out, report_feature, unbind, parse_bind_ack_body,
}
use zerowire.Io.{
  Io, Failure, hid_frame, no_such_device, unsupported_kind, sender_error, attach_refused,
  unexpected_message, out_of_fuel, pure, raise, lift, attempt, continue, ◌>>=◌, ◌>>◌,
}
use zerowire.Wire.{Stream, recv_envelope, send_envelope, recv_control, send_control}
use zerowire.Uinput
use zerowire.Uinput.{UinputDevice, DeviceProfile}
use zerowire.Reports.{Statics, zero_statics, apply_report}

-- `devs.iter().find(|d| d.busid == b)`
unfoldable pub find_busid : String → List DeviceSummary → Option DeviceSummary
find_busid b [] = none
find_busid b (d ∷ ds) = if str_eq d.busid b then some d else find_busid b ds

-- `devs.iter().find(|d| d.is_hid)`
unfoldable pub find_hid : List DeviceSummary → Option DeviceSummary
find_hid [] = none
find_hid (d ∷ ds) = if d.is_hid then some d else find_hid ds

unfoldable pub pick_hid_device : List DeviceSummary → Option String → Result Failure DeviceSummary
unfolding find_busid find_hid
pick_hid_device devs none = ok_or (find_hid devs) no_such_device
pick_hid_device devs (some b) = ok_or (find_busid b devs) no_such_device

-- `format!("zerowire: {}", meta.name)`
abbrev pub shown_name : BindAckMeta → String
shown_name meta = str_append "zerowire: " meta.name

unfoldable pub profile_of : BindAckMeta → DeviceKind → Result Failure DeviceProfile
profile_of meta mouse = ok (Uinput.mouse (shown_name meta) meta.vendor_id meta.product_id)
profile_of meta keyboard = ok (Uinput.keyboard (shown_name meta) meta.vendor_id meta.product_id)
profile_of meta gamepad = err unsupported_kind
profile_of meta other = err unsupported_kind

-- The locals of the loop, and the statics of the report functions.
pub record Session : Type 0 where
  pub bound : Bool
  pub last_seq : ℕ
  pub reports_seen : ℕ
  pub statics : Statics

abbrev pub new_session : Session
new_session = record { bound = false; last_seq = 0; reports_seen = 0; statics = zero_statics }

-- What a round of the loop ends in.
pub data Round : Type 0 where
  go_on : Session → Round
  leave : Session → Round

module _ {S : Type 0} (st : Stream S) (control_json : Json ControlMessage) where
  unfoldable pub on_hello_reply : ControlMessage → Io S (Unit {0})
  on_hello_reply (hello_ack sender_id name supports) = pure tt
  on_hello_reply (error code message) = raise (sender_error code message)
  on_hello_reply msg = raise (unexpected_message msg)

  unfoldable pub on_list_reply : ControlMessage → Io S (List DeviceSummary)
  on_list_reply (device_list devices) = pure devices
  on_list_reply msg = raise (unexpected_message msg)

  unfoldable pub on_attach_reply : ControlMessage → Io S (Unit {0})
  on_attach_reply (attach_ok busid import_id) = pure tt
  on_attach_reply (attach_denied busid reason) = raise (attach_refused busid reason)
  on_attach_reply msg = raise (unexpected_message msg)

  -- HELLO, LIST_DEVICES, ATTACH and BIND; the result is the device chosen.
  unfoldable pub shake_hands : Json BindRequest → String → Option String → Io S DeviceSummary
  unfolding on_hello_reply on_list_reply on_attach_reply
  shake_hands bind_json client_name busid = do
    send_control st control_json (hello 1 client_name ("hid-fastlane/1" ∷ []))
    greeted ← recv_control st control_json
    on_hello_reply greeted
    send_control st control_json list_devices
    listed ← recv_control st control_json
    devices ← on_list_reply listed
    chosen ← lift (pick_hid_device devices busid)
    send_control st control_json (attach chosen.busid "hid")
    attached ← recv_control st control_json
    on_attach_reply attached
    let bind_frame : HidFrame = record {
      op = bind;
      bind_id = 1;
      seq = 0;
      body = bind_json.to_vec (record { busid = chosen.busid; want = "input" });
    }
    send_envelope st hid (Hid.encode bind_frame)
    pure chosen

  module _ (meta_json : Json BindAckMeta) (uinput : UinputDevice S)
      (create : DeviceProfile → Io S (Unit {0})) (stop : S → Bool) where
    unfoldable pub open_device : BindAckMeta → Io S (Unit {0})
    open_device meta = do profile ← lift (profile_of meta meta.kind); create profile

    -- `seq` is only compared, for the log, with the last one.
    unfoldable pub on_report : Session → HidFrame → Io S Session
    on_report session frame = elim session.bound [
      | true ↦ do
        statics ← apply_report uinput session.statics frame.body
        pure (record session {
          last_seq = frame.seq;
          reports_seen = (session.reports_seen + 1) % 2 ^ 64;
          statics = statics;
        })
      | false ↦ pure (record session { last_seq = frame.seq })
    ]

    unfoldable pub on_hid_op : Session → HidFrame → HidOp → Io S Round
    unfolding open_device on_report
    on_hid_op session frame bind_ack = do
      (meta, descriptor) ← lift (map_err hid_frame (parse_bind_ack_body meta_json frame.body))
      open_device meta
      pure (go_on (record session { bound = true }))
    on_hid_op session frame report_in = do session' ← on_report session frame; pure (go_on session')
    on_hid_op session frame unbind = pure (leave session)
    on_hid_op session frame bind = pure (go_on session)
    on_hid_op session frame report_out = pure (go_on session)
    on_hid_op session frame report_feature = pure (go_on session)

    unfoldable pub on_session_envelope : Session → Envelope → Io S Round
    unfolding on_hid_op
    on_session_envelope session env = elim env.channel [
      | keepalive ↦ pure (go_on session)
      | control ↦ pure (go_on session)
      | hid ↦ do
        frame ← lift (map_err hid_frame (Hid.parse env.payload))
        on_hid_op session frame frame.op
      | usbip ↦ pure (go_on session)
    ]

    -- The `while`, for at most as many rounds as the fuel says.
    unfoldable pub receive_loop : ℕ → Session → Io S Session
    unfolding on_session_envelope
    receive_loop zero session s = raise out_of_fuel s
    receive_loop (suc fuel) session s = elim (stop s) [
      | true ↦ pure session s
      | false ↦ continue (attempt (recv_envelope st) s).0 (attempt (recv_envelope st) s).1 (λ got.
          elim got [
            | none ↦ pure session
            | some env ↦ do
              round ← on_session_envelope session env
              elim round [
                | go_on session' ↦ receive_loop fuel session'
                | leave session' ↦ pure session'
              ]
          ])
    ]

  -- `run_receive`, once it has dialled.
  unfoldable pub run_receive :
      Json BindRequest
      → Json BindAckMeta
      → UinputDevice S
      → (DeviceProfile → Io S (Unit {0}))
      → (S → Bool)
      → String
      → Option String
      → ℕ
      → Io S Session
  unfolding shake_hands receive_loop
  run_receive bind_json meta_json uinput create stop client_name busid fuel = do
    shake_hands bind_json client_name busid
    receive_loop meta_json uinput create stop fuel new_session
