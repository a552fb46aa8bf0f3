-- ===== src/Tests/Input.antt =====
-- Report descriptors, mouse reports, and the handshake of the receiver.
use zerowire.Prelude.{
  ℕ, ◌==◌, if◌then◌else◌, sym, ◌≡◌, ◌≢◌, refl, arith, true, false, Option, none, some, List, [],
  ◌∷◌, ◌++◌, ok, err, pos, negsuc,
}
use zerowire.Bytes.{Bytes, at}
use zerowire.Json.{Json}
use zerowire.Envelope.{hid}
use zerowire.Envelope.RoundTrip.{frame}
use zerowire.Control.{
  ControlMessage, DeviceSummary, hello, hello_ack, list_devices, device_list, attach, attach_ok,
}
use zerowire.Hid.{BindRequest}
use zerowire.HidDescriptor
use zerowire.HidDescriptor.{Kind, classify, scan, mouse_descriptor, keyboard_descriptor}
use zerowire.HidDescriptor.Items.{Item, scan_enough}
use zerowire.Io.{no_such_device}
use zerowire.Uinput.{InputEvent, UinputDevice, ev_key, ev_rel, ev_syn, btn_left, rel_y}
use zerowire.Reports.{zero_statics, apply_report}
use zerowire.Reports.Bits.{has_bit-zero}
use zerowire.Reports.Events.{Recorder, event}
use zerowire.Reports.Buttons.{IsShown, apply_report_buttons}
use zerowire.Keymap.{hid_usage_to_linux_key, code_for_letter}
use zerowire.Keymap.Inverse.{code_injective}
use zerowire.Reports.Keys.{zero_keys}
use zerowire.Reports.Keyboard.{AreShown, apply_report_keys}
use zerowire.Receiver.{pick_hid_device, shake_hands}
use zerowire.Wire.Chain.{control_frame}
use zerowire.Receiver.Handshake.{shake_hands_answered, pick_hid_device_first}
use zerowire.Wire.Laws.{Runs}
use zerowire.Duplex.{Duplex, duplex, duplex-Transport, duplex-CanWrite}

mouse_is_mouse : classify mouse_descriptor ≡ some HidDescriptor.mouse
unfolding classify HidDescriptor.scan HidDescriptor.item_size HidDescriptor.data_le
    HidDescriptor.usage_kind
mouse_is_mouse = refl

-- A usage page of two bytes is cut to its low one: 0xFF01, of a vendor, is taken for Generic Desktop.
vendor_page_is_mouse : classify (0x06 ∷ 0x01 ∷ 0xFF ∷ 0x09 ∷ 0x02 ∷ []) ≡ some HidDescriptor.mouse
unfolding classify HidDescriptor.scan HidDescriptor.item_size HidDescriptor.data_le
    HidDescriptor.usage_kind zerowire.Bytes.u16_from_le
vendor_page_is_mouse = refl

-- Usage page Generic Desktop, usage Keyboard, collection, end.
abbrev keyboard_items : List Item
keyboard_items =
    record { tag = 1; size_code = 1; payload = 0x01 ∷ [] }
    ∷ record { tag = 2; size_code = 1; payload = 0x06 ∷ [] }
    ∷ record { tag = 40; size_code = 1; payload = 0x01 ∷ [] }
    ∷ record { tag = 48; size_code = 0; payload = [] }
    ∷ []

scan_enough_example :
    (scan 100 none keyboard_descriptor ≢ none)
    × (scan 100 none keyboard_descriptor ≡ scan 7 none keyboard_descriptor)
scan_enough_example = scan_enough 100 none keyboard_descriptor (omega arith)

abbrev event_log : UinputDevice (List InputEvent)
event_log = record { write_event = λ e s. (ok tt, s ++ (e ∷ [])) }

abbrev event_log-Recorder : Recorder event_log
event_log-Recorder = record { events = λ s. s; takes = λ e s. refl; appends = λ e s. refl }

-- The left button goes down while the mouse moves up by one.
left_and_up :
    (apply_report event_log zero_statics (1 ∷ 0 ∷ 0xff ∷ []) []).1
    ≡ event ev_key btn_left (pos 1)
      ∷ event ev_syn 0 (pos 0)
      ∷ event ev_rel rel_y (negsuc 0)
      ∷ event ev_syn 0 (pos 0)
      ∷ []
unfolding apply_report zerowire.Uinput.mouse_button zerowire.Uinput.mouse_move
left_and_up = refl

apply_report_buttons_example :
    ((apply_report event_log zero_statics (1 ∷ 0 ∷ 0xff ∷ []) []).0
      ≡ ok (record zero_statics { prev = 1 }))
    × IsShown event_log-Recorder 1 (apply_report event_log zero_statics (1 ∷ 0 ∷ 0xff ∷ []) []).1
apply_report_buttons_example =
    apply_report_buttons event_log-Recorder zero_statics (1 ∷ 0 ∷ 0xff ∷ []) [] (omega arith)
      (omega arith) (λ i h. sym (has_bit-zero i))

abbrev pointer : DeviceSummary
pointer = record {
  busid = "1-2";
  vendor_id = 0x046d;
  product_id = 0xc52b;
  manufacturer = none;
  product = some "mouse";
  serial = none;
  device_class = 3;
  device_subclass = 1;
  device_protocol = 2;
  is_hid = true;
}

abbrev disk : DeviceSummary
disk = record pointer { busid = "1-1"; device_class = 8; is_hid = false }

pick_hid_device_first_example :
    (pick_hid_device (disk ∷ []) none ≡ err no_such_device)
    × (pointer.is_hid ≡ true → pick_hid_device (disk ∷ pointer ∷ []) none ≡ ok pointer)
pick_hid_device_first_example = pick_hid_device_first none (disk ∷ []) [] pointer ((λ e. cc), tt)

-- A stand-in for serde: the receiver's messages by number, and the three that the sender answers.
abbrev to_vec : ControlMessage → Bytes
to_vec (hello_ack sender_id name supports) = 1 ∷ []
to_vec (device_list devices) = 2 ∷ []
to_vec (attach_ok busid import_id) = 3 ∷ []
to_vec msg = 4 ∷ []

abbrev from_slice : Bytes → Option ControlMessage
from_slice bytes =
    if at bytes 0 == 1
    then some (hello_ack "phone-1" "phone" [])
    else if at bytes 0 == 2
    then some (device_list (disk ∷ pointer ∷ []))
    else if at bytes 0 == 3
    then some (attach_ok "1-2" 1)
    else none

abbrev control_json : Json ControlMessage
control_json = record { to_vec = to_vec; from_slice = from_slice }

abbrev bind_json : Json BindRequest
bind_json = record { to_vec = λ r. 0x7b ∷ 0x7d ∷ []; from_slice = λ b. none }

abbrev at_receiver : Duplex
at_receiver = record {
  r =
      control_frame control_json (hello_ack "phone-1" "phone" [])
      ++ (control_frame control_json (device_list (disk ∷ pointer ∷ []))
          ++ (control_frame control_json (attach_ok "1-2" 1) ++ (9 ∷ [])));
  w = [];
}

abbrev written : Bytes
written =
    (((control_frame control_json (hello 1 "laptop" ("hid-fastlane/1" ∷ []))
          ++ control_frame control_json list_devices)
        ++ control_frame control_json (attach "1-2" "hid"))
      ++ frame (record { channel = hid; payload = 0x01 ∷ 1 ∷ 0 ∷ 0 ∷ 0x7b ∷ 0x7d ∷ [] }))

shake_hands_answered_example :
    Runs duplex-Transport
      (shake_hands duplex control_json bind_json "laptop" none)
      at_receiver
      pointer
      (9 ∷ [])
      written
unfolding duplex-Transport pick_hid_device zerowire.Hid.encode zerowire.Hid.op_to_u8
    zerowire.Bytes.u16_to_be
shake_hands_answered_example =
    shake_hands_answered duplex-Transport duplex-CanWrite control_json bind_json "laptop" none
      "phone-1" "phone" [] (disk ∷ pointer ∷ []) pointer "1-2" 1 (9 ∷ []) at_receiver
      (refl, omega arith) (refl, omega arith) (refl, omega arith) (omega arith) (omega arith)
      (omega arith) (omega arith) refl refl

-- Left shift and A, with nothing down before.
abbrev shift_a : Bytes
shift_a = 0x02 ∷ 0 ∷ 0x04 ∷ 0 ∷ 0 ∷ 0 ∷ 0 ∷ 0 ∷ []

apply_report_keys_example :
    ((apply_report event_log zero_statics shift_a []).0
      ≡ ok (record zero_statics { prev_mod = 0x02; prev_keys = 0x04 ∷ 0 ∷ 0 ∷ 0 ∷ 0 ∷ 0 ∷ [] }))
    × AreShown event_log-Recorder
        (0x04 ∷ 0 ∷ 0 ∷ 0 ∷ 0 ∷ 0 ∷ [])
        (apply_report event_log zero_statics shift_a []).1
apply_report_keys_example =
    apply_report_keys event_log-Recorder zero_statics shift_a [] refl (omega arith) (omega arith)
      (λ k code fits nonzero coded. zero_keys k nonzero)

abbrev usage_z : ℕ
usage_z = 0x1D

code_injective_example : usage_z ≡ usage_z
unfolding hid_usage_to_linux_key code_for_letter
code_injective_example = code_injective usage_z usage_z 44 (omega arith) (omega arith) refl refl
