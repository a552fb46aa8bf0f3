-- ===== src/AndroidPump.antt =====
-- desktop-linux/src/bin/simulate_android_pump.rs: the sender that stands in for the phone, from the
-- accepted connection on. The log is left out.
pub mod Session
use zerowire.Prelude.{
  ℕ, Bool, true, false, not, Option, none, some, List, [], ◌∷◌, String, str_eq, str_append,
  if◌then◌else◌, Result, ok, err, map,
}
use zerowire.Bytes.{Bytes}
use zerowire.Json.{Json}
use zerowire.Text.{hex2, joined}
use zerowire.Control.{
  ControlMessage, DeviceSummary, UsbipAttachInfo, hello, hello_ack, list_devices, device_list,
  attach, attach_ok_usbip,
}
use zerowire.Device.{mass_storage, synth_device_descriptor}
use zerowire.Pump.{PumpStats, run_pump}
use zerowire.Io.{
  Io, Failure, busid_not_offered, mode_not_offered, unexpected_message, pure, raise, lift, continue,
  ◌>>=◌, ◌>>◌,
}
use zerowire.Sender.{answer_handshake}
use zerowire.Wire.{Stream, send_control}

-- The arguments that the session reads.
pub record PumpArgs : Type 0 where
  pub busid : String
  pub vendor : ℕ
  pub product : ℕ
  pub import_id : ℕ

abbrev pub pump_hello_ack : ControlMessage
pump_hello_ack = hello_ack "simulate-android-pump" "zerowire-android-pump" ("usbip/1.1.1" ∷ [])

abbrev pub pump_summary : PumpArgs → DeviceSummary
pump_summary args = record {
  busid = args.busid;
  vendor_id = args.vendor;
  product_id = args.product;
  manufacturer = some "builtbyzero";
  product = some "zerowire-android-pump fake mass-storage";
  serial = some "sim-0001";
  device_class = 0x08;
  device_subclass = 0x06;
  device_protocol = 0x50;
  is_hid = false;
}

-- `write!(hex_str, "{b:02x}")` for each byte
unfoldable pub hex_string : Bytes → String
unfolding joined
hex_string bytes = joined (map hex2 bytes)

abbrev pub pump_attach_info : PumpArgs → UsbipAttachInfo
pump_attach_info args = record {
  busid = args.busid;
  import_id = args.import_id;
  devid = 0x00010002;
  speed = 3;
  vendor_id = args.vendor;
  product_id = args.product;
  descriptor_hex = some (hex_string (synth_device_descriptor args.vendor args.product 0x08));
}

module _ {S : Type 0} (st : Stream S) (control_json : Json ControlMessage) where
  -- `run_session`. Its result is that of the pump, which it logs.
  unfoldable pub run_pump_session : PumpArgs → ℕ → Io S PumpStats
  run_pump_session args fuel = do
    answer_handshake st control_json pump_hello_ack (pump_summary args) "usbip"
    send_control st control_json (attach_ok_usbip (pump_attach_info args))
    run_pump st args.import_id (mass_storage args.vendor args.product) fuel
