-- ===== src/UsbipReceiver.antt =====
-- desktop-linux/src/usbip_receiver.rs: a session of the USB/IP receiver, from the handshake on.
-- Dialling and the log are left out; `stop` is what the flag says at the head of a round.
pub mod Answered
pub mod Drive
pub mod Minutes
pub mod Stops
use zerowire.Prelude.{
  ℕ, zero, suc, ◌+◌, ◌%◌, ◌^◌, Bool, true, false, not, Option, none, some, List, [], ◌∷◌, String,
  if◌then◌else◌, length, Result, err, ok, map_err, ok_or,
}
use zerowire.Json.{Json}
use zerowire.Envelope.{Envelope, control, usbip, hid, keepalive}
use zerowire.Control.{
  ControlMessage, DeviceSummary, UsbipAttachInfo, hello, error, list_devices, attach, attach_ok,
  attach_ok_usbip, attach_denied,
}
use zerowire.Usbip.Frame
use zerowire.Driver.{DriverStats, script_default, run_script}
use zerowire.Vhci.{Sysfs, vhci_available, attach_socket}
use zerowire.Transcript.{Transcript, SimulatedAttach, create, record_urb, drop_attach}
use zerowire.Receiver.{find_busid, on_hello_reply, on_list_reply}
use zerowire.Io.{
  Io, Failure, usbip_frame, no_such_device, no_vhci, attach_refused, unexpected_message,
  out_of_fuel, pure, raise, lift, attempt, continue, ◌>>=◌, ◌>>◌,
}
use zerowire.Wire.{Stream, recv_envelope, recv_control, send_control}

-- `devs.first()`, unless a bus id is asked for
unfoldable pub pick_device : List DeviceSummary → Option String → Result Failure DeviceSummary
unfolding find_busid
pick_device devs (some b) = ok_or (find_busid b devs) no_such_device
pick_device [] none = err no_such_device
pick_device (d ∷ ds) none = ok d

-- What stands for the reply of an old sender.
abbrev pub synthesized_info : DeviceSummary → String → ℕ → UsbipAttachInfo
synthesized_info chosen busid import_id = record {
  busid = busid;
  import_id = import_id;
  devid = 0;
  speed = 2;
  vendor_id = chosen.vendor_id;
  product_id = chosen.product_id;
  descriptor_hex = none;
}

unfoldable pub is_error : ControlMessage → Bool
is_error (error code message) = true
is_error msg = false

-- What a round of the loop ends in, with the number of frames so far.
pub data Relay : Type 0 where
  relaying : ℕ → Relay
  stopped : ℕ → Relay

-- A value that is dropped at the end of its scope, however the scope is left.
abbrev pub dropping : {S A : Type 0} → Io S A → Io S (Unit {0}) → Io S A
dropping m cleanup s = ((m s).0, (cleanup (m s).1).1)

module _ {S : Type 0} (st : Stream S) (control_json : Json ControlMessage) where
  unfoldable pub on_usbip_attach_reply : DeviceSummary → ControlMessage → Io S UsbipAttachInfo
  on_usbip_attach_reply chosen (attach_ok_usbip info) = pure info
  on_usbip_attach_reply chosen (attach_denied busid reason) = raise (attach_refused busid reason)
  on_usbip_attach_reply chosen (attach_ok busid import_id) =
      pure (synthesized_info chosen busid import_id)
  on_usbip_attach_reply chosen msg = raise (unexpected_message msg)

  -- HELLO, LIST_DEVICES and ATTACH in the mode `usbip`.
  unfoldable pub attach_usbip : String → Option String → Io S UsbipAttachInfo
  unfolding pick_device on_hello_reply on_list_reply on_usbip_attach_reply
  attach_usbip client_name busid = do
    send_control st control_json (hello 1 client_name ("usbip/1.1.1" ∷ []))
    greeted ← recv_control st control_json
    on_hello_reply st control_json greeted
    send_control st control_json list_devices
    listed ← recv_control st control_json
    devices ← on_list_reply st control_json listed
    chosen ← lift (pick_device devices busid)
    send_control st control_json (attach chosen.busid "usbip")
    attached ← recv_control st control_json
    on_usbip_attach_reply chosen attached

  module _ (log : Transcript S) where
    -- The statistics are logged. What `run_script` adds to the transcript is left out.
    unfoldable pub run_simulated_drive : UsbipAttachInfo → ℕ → Io S DriverStats
    run_simulated_drive info extra = do
      sim ← create log info
      dropping (run_script st info.import_id (script_default extra)) (drop_attach log sim)

    on_relayed_control : ℕ → Option ControlMessage → Relay
    unfolding is_error
    on_relayed_control frames none = relaying frames
    on_relayed_control frames (some msg) = if is_error msg then stopped frames else relaying frames

    unfoldable pub on_relayed_envelope : SimulatedAttach → ℕ → Envelope → Io S Relay
    unfolding on_relayed_control
    on_relayed_envelope sim frames env = elim env.channel [
      | usbip ↦ do
        frame ← lift (map_err usbip_frame (Frame.parse env.payload))
        record_urb log sim frame.import_id ((frames + 1) % 2 ^ 32) (length frame.raw)
        pure (relaying ((frames + 1) % 2 ^ 32))
      | control ↦ pure (on_relayed_control frames (control_json.from_slice env.payload))
      | hid ↦ pure (relaying frames)
      | keepalive ↦ pure (relaying frames)
    ]

    module _ (stop : S → Bool) where
      -- The `while`, for at most as many rounds as the fuel says; the result is the number of frames.
      unfoldable pub relay_loop : SimulatedAttach → ℕ → ℕ → Io S ℕ
      unfolding on_relayed_envelope
      relay_loop sim zero frames s = raise out_of_fuel s
      relay_loop sim (suc fuel) frames s = elim (stop s) [
        | true ↦ pure frames s
        | false ↦ continue (attempt (recv_envelope st) s).0 (attempt (recv_envelope st) s).1 (λ got.
            elim got [
              | none ↦ pure frames
              | some env ↦ do
                next ← on_relayed_envelope sim frames env
                elim next [
                  | relaying frames' ↦ relay_loop sim fuel frames'
                  | stopped frames' ↦ pure frames'
                ]
            ])
      ]

      unfoldable pub run_simulated : UsbipAttachInfo → ℕ → Io S ℕ
      unfolding relay_loop
      run_simulated info fuel = do
        sim ← create log info
        dropping (relay_loop sim fuel 0) (drop_attach log sim)

  -- `fd` is the descriptor of the socket, which is the kernel's from here on.
  unfoldable pub run_real : Sysfs S → ℕ → UsbipAttachInfo → Io S ℕ
  run_real sysfs fd info s =
      if vhci_available sysfs s then attach_socket sysfs fd info s else raise no_vhci s

-- What the options say besides the target: no transcript stands for a real attach.
pub record UsbipReceiveOpts (S : Type 0) : Type 0 where
  pub busid : Option String
  pub client_name : String
  pub simulate_transcript : Option (Transcript S)
  pub simulate_drive_urbs : Option ℕ

module _ {S : Type 0} (st : Stream S) (control_json : Json ControlMessage) (stop : S → Bool)
    (sysfs : Sysfs S) (fd fuel : ℕ) where
  unfoldable pub attached : Option (Transcript S) → Option ℕ → UsbipAttachInfo → Io S (Unit {0})
  unfolding run_simulated_drive run_simulated run_real
  attached none drive info = run_real st control_json sysfs fd info >> pure tt
  attached (some log) (some extra) info =
      run_simulated_drive st control_json log info extra >> pure tt
  attached (some log) none info = run_simulated st control_json log stop info fuel >> pure tt

  unfoldable pub run_usbip_receive : UsbipReceiveOpts S → Io S (Unit {0})
  unfolding attach_usbip attached
  run_usbip_receive opts = do
    info ← attach_usbip st control_json opts.client_name opts.busid
    attached opts.simulate_transcript opts.simulate_drive_urbs info
