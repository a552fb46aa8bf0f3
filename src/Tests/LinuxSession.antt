-- ===== src/Tests/LinuxSession.antt =====
-- A session of the sender for a real HID device, on the machine of `World`.
use zerowire.Prelude.{
  ◌==◌, ◌≡◌, refl, arith, true, false, if◌then◌else◌, Option, none, some, List, [], ◌∷◌, ok, pos,
}
use zerowire.Bytes.{Bytes}
use zerowire.Json.{Json}
use zerowire.Control.{
  ControlMessage, DeviceSummary, hello, hello_ack, list_devices, device_list, attach, attach_ok,
}
use zerowire.Hid
use zerowire.Hid.{BindRequest, BindAckMeta}
use zerowire.Io.{Io}
use zerowire.Uinput
use zerowire.Uinput.{DeviceProfile, ev_rel, rel_x, ev_syn, syn_report}
use zerowire.Reports.Events.{event}
use zerowire.Receiver.{run_receive}
use zerowire.Receiver.Handshake.{greeting}
use zerowire.LinuxSender.{ExposedHidraw, Reading, report, would_block, meta_for, serve_session}
use zerowire.LinuxSender.Serve.{linux_ack, listed}
use zerowire.LinuxSender.Session.{IsReady, linux_session}
use zerowire.Receiver.Whole.{asks_for}
use zerowire.Tests.World.{
  World, world, world-Transport, world-CanWrite, uinput, create_device, desk, with_input, hidraw,
  tape,
}

abbrev summary : DeviceSummary
summary = record {
  busid = "1-2";
  vendor_id = 0x046d;
  product_id = 0xc077;
  manufacturer = none;
  product = some "mouse";
  serial = none;
  device_class = 0;
  device_subclass = 0;
  device_protocol = 0;
  is_hid = true;
}

abbrev exposed : ExposedHidraw
exposed = record {
  summary = summary;
  hidraw_path = "/dev/hidraw0";
  interface_class = 3;
  interface_protocol = 2;
}

abbrev profile : DeviceProfile
profile = Uinput.mouse "zerowire: mouse" 0x046d 0xc077

-- A stand-in for serde that knows the messages of the session, each by a number.
abbrev to_vec : ControlMessage → Bytes
to_vec (hello version client supports) = 1 ∷ []
to_vec (hello_ack sender_id name supports) = 2 ∷ []
to_vec list_devices = 3 ∷ []
to_vec (device_list devices) = 4 ∷ []
to_vec (attach busid mode) = 5 ∷ []
to_vec (attach_ok busid import_id) = 6 ∷ []
to_vec msg = []

abbrev from_slice : Bytes → Option ControlMessage
from_slice [] = none
from_slice (k ∷ ks) =
    if k == 1
    then some (greeting "laptop")
    else if k == 2
    then some (linux_ack "desk")
    else if k == 3
    then some list_devices
    else if k == 4
    then some (listed (exposed ∷ []))
    else if k == 5
    then some (attach "1-2" "hid")
    else if k == 6
    then some (attach_ok "1-2" 1)
    else none

abbrev json : Json ControlMessage
json = record { to_vec = to_vec; from_slice = from_slice }

abbrev bind_json : Json BindRequest
bind_json = record {
  to_vec = λ r. 0x7b ∷ 0x7d ∷ [];
  from_slice = λ b. some (record { busid = "1-2"; want = "input" });
}

abbrev meta_json : Json BindAckMeta
meta_json = record { to_vec = λ m. 0x7b ∷ 0x7d ∷ []; from_slice = λ b. some (meta_for exposed) }

ready : IsReady json bind_json meta_json "desk" "laptop" (exposed ∷ []) exposed profile
unfolding Hid.encode Hid.encode_bind_ack_body zerowire.Bytes.u16_to_be zerowire.LinuxSender.kind_for
    zerowire.LinuxSender.find_exposed zerowire.Receiver.profile_of
ready = record {
  served = record {
    greets = (refl, omega arith);
    lists = (refl, omega arith);
    attaches = (refl, omega arith);
    greeted = omega arith;
    shown = omega arith;
    attached = omega arith;
    ack_fits = omega arith;
    found = refl;
    asks = refl;
    small = omega arith;
    binding = omega arith;
    request = record { busid = "1-2"; want = "input" };
    requested = refl;
    same = refl;
  };
  greets = (refl, omega arith);
  lists = (refl, omega arith);
  attaches = (refl, omega arith);
  acknowledges = refl;
  short = omega arith;
  known = refl;
}

-- Two movements, and a moment without.
abbrev moves : List Reading
moves = report (0 ∷ 3 ∷ 0 ∷ 0 ∷ []) ∷ would_block ∷ report (0 ∷ 5 ∷ 0 ∷ 0 ∷ []) ∷ []

abbrev listing : Io World (List ExposedHidraw)
listing w = (ok (exposed ∷ []), w)

abbrev at_sender : World
at_sender = with_input (asks_for json bind_json "laptop" summary)

abbrev at_receiver : World
at_receiver =
    with_input
      (serve_session world json bind_json meta_json (hidraw moves) "desk" listing 4
        at_sender).1.link.w

linux_session_example :
    let ran =
      run_receive world json bind_json meta_json uinput create_device
        (λ w. false)
        "laptop"
        none
        6
        at_receiver in
    ((serve_session world json bind_json meta_json (hidraw moves) "desk" listing 4 at_sender).0
      ≡ ok tt)
    × (ran.0
        ≡ ok (record {
          bound = true;
          last_seq = 2;
          reports_seen = 2;
          statics = zerowire.Reports.zero_statics;
        }))
    × (ran.1.profiles ≡ profile ∷ [])
    × (ran.1.events
        ≡ event ev_rel rel_x (pos 3)
          ∷ event ev_syn syn_report (pos 0)
          ∷ event ev_rel rel_x (pos 5)
          ∷ event ev_syn syn_report (pos 0)
          ∷ [])
    × (ran.1.link.w ≡ at_sender.link.r)
unfolding world-Transport desk tape zerowire.Receiver.pick_hid_device zerowire.Receiver.find_hid
linux_session_example =
    linux_session world-Transport world-Transport world-CanWrite world-CanWrite uinput create_device
      desk (λ w. false) (hidraw moves) (tape moves) listing json bind_json meta_json "desk" "laptop"
      none (exposed ∷ []) exposed profile 6 4 at_receiver at_sender ready
      (λ s i o at0. record { runs = (refl, at0.0, at0.1) }) refl (λ w. refl)
      (omega arith, (tt, (omega arith, tt))) (omega arith) (omega arith) refl refl refl refl
