-- ===== src/Tests/UsbipSession.antt =====
-- USB/IP sessions on the machine of `World`, and the port of a status file.
use zerowire.Prelude.{
  inl, ◌==◌, ◌≡◌, ◌≢◌, refl, arith, false, if◌then◌else◌, Option, none, some, List, [], ◌∷◌, ◌++◌,
  ok, err,
}
use zerowire.Bytes.{Bytes}
use zerowire.Json.{Json}
use zerowire.Envelope.{Envelope, header, control, usbip, hid}
use zerowire.Control.{
  ControlMessage, UsbipAttachInfo, hello, hello_ack, error, list_devices, device_list, attach,
  attach_ok_usbip, attach_denied,
}
use zerowire.Device.{mass_storage}
use zerowire.Pump.{no_stats}
use zerowire.Pump.Request.{counted_all}
use zerowire.Driver.{script_default}
use zerowire.Driver.Loopback.{script_requests}
use zerowire.Io.{no_free_port, out_of_fuel}
use zerowire.Usbip.Frame
use zerowire.Hid
use zerowire.Vhci.{Codes, Sysfs, is_whitespace, find_free_port}
use zerowire.Vhci.Ports.{Row, IsRow, printed_row, printed_status, find_free_port_first}
use zerowire.Envelope.RoundTrip.{frame}
use zerowire.Transcript.{SimulatedAttach, sim_attach_line, sim_urb_line, sim_detach_line}
use zerowire.UsbipReceiver.{run_usbip_receive, run_simulated}
use zerowire.UsbipReceiver.Answered.{usbip_hello}
use zerowire.UsbipReceiver.Minutes.{run_simulated-minutes}
use zerowire.UsbipReceiver.Stops.{run_simulated_stops}
use zerowire.AndroidPump.{
  PumpArgs, pump_hello_ack, pump_summary, pump_attach_info, run_pump_session,
}
use zerowire.AndroidPump.Session.{AreSendable, asked, driving_opts, usbip_session}
use zerowire.Wire.Chain.{frames_bytes}
use zerowire.Tests.World.{
  World, world, world-Transport, world-CanWrite, transcript, transcript-Beside, with_input,
}

abbrev args : PumpArgs
args = record { busid = "1-2"; vendor = 0x0781; product = 0x5567; import_id = 7 }

-- A stand-in for serde that knows the messages of the session, each by a number.
abbrev to_vec : ControlMessage → Bytes
to_vec (hello version client supports) = 1 ∷ []
to_vec (hello_ack sender_id name supports) = 2 ∷ []
to_vec list_devices = 3 ∷ []
to_vec (device_list devices) = 4 ∷ []
to_vec (attach busid mode) = 5 ∷ []
to_vec (attach_ok_usbip info) = 6 ∷ []
to_vec (error code message) = 7 ∷ []
to_vec (attach_denied busid reason) = 8 ∷ []
to_vec msg = []

abbrev from_slice : Bytes → Option ControlMessage
from_slice [] = none
from_slice (k ∷ ks) =
    if k == 1
    then some (usbip_hello "laptop")
    else if k == 2
    then some pump_hello_ack
    else if k == 3
    then some list_devices
    else if k == 4
    then some (device_list (pump_summary args ∷ []))
    else if k == 5
    then some (attach "1-2" "usbip")
    else if k == 6
    then some (attach_ok_usbip (pump_attach_info args))
    else if k == 7
    then some (error "gone" "unplugged")
    else if k == 8
    then some (attach_denied "1-2" "unplugged")
    else none

abbrev json : Json ControlMessage
json = record { to_vec = to_vec; from_slice = from_slice }

sendable : AreSendable json args "laptop"
sendable = record {
  greeting = (refl, omega arith);
  greeted = (refl, omega arith);
  listing = (refl, omega arith);
  listed = (refl, omega arith);
  attaching = (refl, omega arith);
  attached = (refl, omega arith);
}

abbrev no_sysfs : Sysfs World
no_sysfs = record {
  root_exists = λ w. false;
  status_exists = λ w. false;
  read_status = λ w. (err no_free_port, w);
  write_attach = λ l w. (err no_free_port, w);
  open_detach = λ w. (err no_free_port, w);
  write_detach = λ l w. (err no_free_port, w);
}

abbrev at_sender : World
at_sender = with_input (asked json args 1 "laptop")

abbrev at_receiver : World
at_receiver = with_input (run_pump_session world json args 10 at_sender).1.link.w

usbip_session_example :
    let receiver =
      run_usbip_receive world json
        (λ w. false)
        no_sysfs
        3
        9
        (driving_opts transcript 1 "laptop" none)
        at_receiver in
    (receiver.0 ≡ ok tt)
    × ((run_pump_session world json args 10 at_sender).0
        ≡ ok (
            counted_all 7
              (mass_storage 0x0781 0x5567)
              no_stats
              (script_requests (script_default 1))))
    × (receiver.1.link.w ≡ at_sender.link.r)
    × (receiver.1.link.r ≡ [])
unfolding world-Transport
usbip_session_example =
    usbip_session world-Transport world-Transport world-CanWrite world-CanWrite transcript
      transcript-Beside no_sysfs (λ w. false) 3 9 json args "laptop" none 1 10 at_receiver at_sender
      sendable tt (omega arith) (omega arith) (omega arith) refl refl refl refl

abbrev unbinding : Bytes
unbinding = 0x20 ∷ 1 ∷ 0 ∷ 0 ∷ []

unbinding_unbinds :
    Hid.parse unbinding ≡ ok (record { op = Hid.unbind; bind_id = 1; seq = 0; body = [] })
unfolding Hid.parse Hid.op_from_u8 zerowire.Bytes.u16_from_be
unbinding_unbinds = refl

-- A packet, three envelopes that are passed over (what is no HID frame, a HID frame that unbinds, and an
-- ATTACH_DENIED), another packet, and an error of the sender, behind which nothing counts.
abbrev session : List Envelope
session =
    record {
      channel = usbip;
      payload = Frame.encode (record { import_id = 7; raw = 1 ∷ 2 ∷ 3 ∷ [] });
    }
    ∷ record { channel = hid; payload = 9 ∷ [] }
    ∷ record { channel = hid; payload = unbinding }
    ∷ record { channel = control; payload = 8 ∷ [] }
    ∷ record { channel = usbip; payload = Frame.encode (record { import_id = 7; raw = 4 ∷ [] }) }
    ∷ record { channel = control; payload = 7 ∷ [] }
    ∷ record { channel = usbip; payload = 1 ∷ [] }
    ∷ []

abbrev listening : World
listening = with_input (frames_bytes session ++ (0x5a ∷ []))

abbrev info : UsbipAttachInfo
info = record (pump_attach_info args) { descriptor_hex = none }

abbrev sim_attached : SimulatedAttach
sim_attached = record { port = 7; busid = "1-2" }

run_simulated-minutes_example :
    let ran = run_simulated world json transcript (λ w. false) info 8 listening in
    (ran.0 ≡ ok 2)
    × (ran.1.lines
        ≡ sim_attach_line 7 info
          ∷ sim_urb_line sim_attached 7 1 3
          ∷ sim_urb_line sim_attached 7 2 1
          ∷ sim_detach_line sim_attached
          ∷ [])
    × (ran.1.link.w ≡ [])
unfolding world-Transport transcript-Beside zerowire.UsbipReceiver.is_error Frame.encode Frame.parse
    zerowire.Bytes.u32_to_be zerowire.Bytes.u32_from_be
run_simulated-minutes_example =
    run_simulated-minutes world-Transport json transcript transcript-Beside (λ w. false) (λ w. refl)
      info session (0x5a ∷ []) 8 listening
      (
        omega arith,
        (
          omega arith,
          (omega arith, (omega arith, (omega arith, (omega arith, (omega arith, tt))))),
        ),
      )
      (omega arith) (omega arith) refl

-- The lines as they stand in the file.
sim_lines :
    (sim_attach_line 7 info
      ≡ "sim-attach port=7 busid=1-2 import_id=7 devid=0x10002 speed=3 vid=0781 pid=5567")
    × (sim_urb_line sim_attached 7 1 48 ≡ "sim-urb port=7 import_id=7 seq=1 bytes=48")
    × (sim_detach_line sim_attached ≡ "sim-detach port=7 busid=1-2")
unfolding sim_attach_line sim_urb_line sim_detach_line zerowire.Text.show_radix
sim_lines = (refl, refl, refl)

run_simulated_stops_example :
    (run_simulated world json transcript (λ w. false) info 100 listening).0 ≢ err out_of_fuel
unfolding world-Transport Frame.encode zerowire.Bytes.u32_to_be
run_simulated_stops_example =
    run_simulated_stops world-Transport json transcript transcript-Beside (λ w. false) info 100
      listening (unfold frame in unfold header in omega arith)

-- The rows of a status file: `hs  0000 006 002 …`, a port that is in use, and `ss  0008 004 …`, one that
-- is free.
abbrev columns : Codes
columns = 48 ∷ 48 ∷ 50 ∷ 32 ∷ 48 ∷ []

abbrev used : Row
used = record { hub_first = 104; hub_rest = 115 ∷ []; port = 0; sta = 6; others = columns }

abbrev unused : Row
unused = record { hub_first = 115; hub_rest = 115 ∷ []; port = 8; sta = 4; others = columns }

used_is_printed :
    printed_row used ≡ 104 ∷ 115 ∷ 32 ∷ 32 ∷ 48 ∷ 48 ∷ 48 ∷ 48 ∷ 32 ∷ 48 ∷ 48 ∷ 54 ∷ 32 ∷ columns
used_is_printed = refl

used-IsRow : IsRow used
unfolding is_whitespace
used-IsRow =
    ((refl, (refl, tt)), omega arith, omega arith, (refl, (refl, (refl, (refl, (refl, tt))))))

unused-IsRow : IsRow unused
unfolding is_whitespace
unused-IsRow =
    ((refl, (refl, tt)), omega arith, omega arith, (refl, (refl, (refl, (refl, (refl, tt))))))

find_free_port_first_example :
    (find_free_port (printed_status (104 ∷ []) (used ∷ [])) ≡ err no_free_port)
    × (find_free_port (printed_status (104 ∷ []) (used ∷ unused ∷ [])) ≡ ok 8)
find_free_port_first_example =
    find_free_port_first (104 ∷ []) (used ∷ []) unused [] (refl, tt) (used-IsRow, tt)
      ((λ e. absurd (ground arith)), tt) unused-IsRow (inl refl)
