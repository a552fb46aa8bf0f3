-- ===== src/Tests/HidSession.antt =====
-- HID sessions on the machine of `World`.
use zerowire.Prelude.{
  ◌==◌, ◌≡◌, ◌≢◌, refl, arith, false, if◌then◌else◌, Option, none, some, List, [], ◌∷◌, ◌++◌, ok,
  err, pos,
}
use zerowire.Bytes.{Bytes}
use zerowire.Json.{Json}
use zerowire.Envelope.{Envelope, header, usbip, hid}
use zerowire.Envelope.RoundTrip.{frame}
use zerowire.Control.{
  ControlMessage, hello, hello_ack, list_devices, device_list, attach, attach_ok,
}
use zerowire.Hid
use zerowire.Hid.{BindRequest, BindAckMeta}
use zerowire.Io.{hid_frame, out_of_fuel}
use zerowire.Uinput.{ev_rel, rel_x, ev_syn, syn_report}
use zerowire.Reports.Events.{event}
use zerowire.Receiver.{new_session, receive_loop, run_receive}
use zerowire.Receiver.Handshake.{greeting}
use zerowire.Receiver.Whole.{asks_for}
use zerowire.Receiver.Course.{receive_loop-course}
use zerowire.Receiver.Stops.{receive_loop_stops}
use zerowire.MockSender.{Mode, closed, mock_hello_ack, mock_summary, mock_meta, run_mock_session}
use zerowire.MockSender.Moves.{mock_profile, mock_session}
use zerowire.MockSender.Session.{AreSendable, mock_args, hid_session}
use zerowire.Wire.Chain.{frames_bytes}
use zerowire.Tests.World.{
  World, world, world-Transport, world-CanWrite, uinput, create_device, desk, with_input,
  write_event-Settles, create_device-Settles,
}

-- A stand-in for serde that knows the messages of the session, each by a number.
abbrev to_vec : ControlMessage → Bytes
to_vec (hello version client supports) = 1 ∷ []
to_vec (hello_ack sender_id name supports) = 2 ∷ []
to_vec list_devices = 3 ∷ []
to_vec (device_list devices) = 4 ∷ []
to_vec (attach busid mode) = 5 ∷ []
to_vec (attach_ok busid import_id) = 6 ∷ []
to_vec msg = []

abbrev from_slice : Bytes → Option ControlMessage
from_slice [] = none
from_slice (k ∷ ks) =
    if k == 1
    then some (greeting "laptop")
    else if k == 2
    then some mock_hello_ack
    else if k == 3
    then some list_devices
    else if k == 4
    then some (device_list (mock_summary Mode.hid "1-2" ∷ []))
    else if k == 5
    then some (attach "1-2" "hid")
    else if k == 6
    then some (attach_ok "1-2" 1)
    else none

abbrev json : Json ControlMessage
json = record { to_vec = to_vec; from_slice = from_slice }

abbrev bind_json : Json BindRequest
bind_json = record { to_vec = λ r. 0x7b ∷ 0x7d ∷ []; from_slice = λ b. none }

abbrev meta_json : Json BindAckMeta
meta_json = record { to_vec = λ m. 0x7b ∷ 0x7d ∷ []; from_slice = λ b. some (mock_meta "1-2") }

sendable : AreSendable json bind_json meta_json "1-2" "laptop"
unfolding Hid.encode Hid.encode_bind_ack_body zerowire.Bytes.u16_to_be
    zerowire.MockSender.synth_mouse_bind_ack_body
sendable = record {
  greets = (refl, omega arith);
  greeted = (refl, omega arith);
  listing = (refl, omega arith);
  listed = (refl, omega arith);
  attaching = (refl, omega arith);
  attached = (refl, omega arith);
  binding = omega arith;
  acknowledged = refl;
  ack_fits = omega arith;
  short = omega arith;
}

abbrev at_sender : World
at_sender = with_input (asks_for json bind_json "laptop" (mock_summary Mode.hid "1-2"))

abbrev at_receiver : World
at_receiver =
    with_input
      (run_mock_session world json meta_json (mock_args json bind_json meta_json "1-2" 2)
        at_sender).1.link.w

-- The mouse moves twice.
hid_session_example :
    let ran =
      run_receive world json bind_json meta_json uinput create_device
        (λ w. false)
        "laptop"
        none
        5
        at_receiver in
    ((run_mock_session world json meta_json
        (mock_args json bind_json meta_json "1-2" 2)
        at_sender).0
      ≡ ok closed)
    × (ran.0 ≡ ok (mock_session 2))
    × (ran.1.profiles ≡ mock_profile ∷ [])
    × (ran.1.events
        ≡ event ev_rel rel_x (pos 3)
          ∷ event ev_syn syn_report (pos 0)
          ∷ event ev_rel rel_x (pos 3)
          ∷ event ev_syn syn_report (pos 0)
          ∷ [])
    × (ran.1.link.w ≡ at_sender.link.r)
unfolding world-Transport desk
hid_session_example =
    hid_session world-Transport world-Transport world-CanWrite world-CanWrite uinput create_device
      desk (λ w. false) json bind_json meta_json "1-2" "laptop" none 2 5 at_receiver at_sender
      sendable refl (λ w. refl) (omega arith) (omega arith) refl refl refl refl

-- A report before the acknowledgement, an envelope that is passed over, and a frame that cannot be
-- read, which ends the session with an error.
abbrev early : List Envelope
early =
    record { channel = hid; payload = 0x10 ∷ 1 ∷ 0 ∷ 9 ∷ 0 ∷ 3 ∷ [] }
    ∷ record { channel = usbip; payload = [] }
    ∷ record { channel = hid; payload = 0x10 ∷ [] }
    ∷ []

abbrev hearing : World
hearing = with_input (frames_bytes early ++ (0x5a ∷ []))

receive_loop-course_example :
    let ran =
      receive_loop world json meta_json uinput create_device (λ w. false) 4 new_session hearing in
    (ran.0 ≡ err (hid_frame (Hid.short 1)))
    × (ran.1.profiles ≡ [])
    × (ran.1.events ≡ [])
    × (ran.1.link.w ≡ [])
unfolding world-Transport desk Hid.parse Hid.op_from_u8
receive_loop-course_example =
    receive_loop-course world-Transport json meta_json uinput create_device desk (λ w. false) early
      (0x5a ∷ []) 4 new_session hearing (λ w. refl) (omega arith, (omega arith, (omega arith, tt)))
      (omega arith) (omega arith) refl

receive_loop_stops_example :
    (receive_loop world json meta_json uinput create_device (λ w. false) 100 new_session hearing).0
    ≢ err out_of_fuel
unfolding world-Transport zerowire.Bytes.u32_to_be
receive_loop_stops_example =
    receive_loop_stops world-Transport json meta_json uinput create_device (λ w. false)
      write_event-Settles create_device-Settles 100 new_session hearing
      (unfold frame in unfold header in omega arith)
