-- ===== src/Tests/Session.antt =====
-- The receive helpers and the pump over the in-memory stream.
use zerowire.Prelude.{
  ℕ, ◌+◌, ◌<◌, ◌≤◌, ◌≡◌, ◌≢◌, ◌%◌, inl, get_or, pos, refl, arith, List, [], ◌∷◌, ◌++◌, length, All,
  ok, err,
}
use zerowire.Bytes.{Bytes, AllBytes, u32_from_be, u16_from_le}
use zerowire.Envelope
use zerowire.Envelope.{Envelope, Channel, control, usbip, keepalive, header_len, max_payload}
use zerowire.Envelope.RoundTrip.{frame}
use zerowire.Usbip.CmdSubmit.{CmdSubmit}
use zerowire.Usbip.CmdUnlink.{CmdUnlink}
use zerowire.Usbip.Frame
use zerowire.Usbip.Frame.{UsbipFrame}
use zerowire.Device.{
  FakeDevice, FakeEndpoint, SubmitResult, mass_storage, dispatch_submit, execute_control, endpoint,
  endpoint_address, is_in,
}
use zerowire.Device.Replies.{IsInOrder, dispatch_submit-IsInOrder, bulk_in_reply}
use zerowire.Io.{io, out_of_fuel, wrong_import_id}
use zerowire.Wire.{recv_envelope}
use zerowire.Wire.Laws.{Runs, recv_envelope-frame}
use zerowire.Wire.Sound.{recv_envelope_reads_first, recv_envelope_sound}
use zerowire.Duplex.{Duplex, duplex, duplex-Transport, duplex-CanWrite}
use zerowire.Pump.{no_stats, run_pump}
use zerowire.Pump.Request.{Request, IsServable, requests_bytes, answers_bytes, counted_all}
use zerowire.Pump.Serve.{run_pump_answers, run_pump_wrong_id}
use zerowire.Pump.Stops.{run_pump_stops}

abbrev storage : FakeDevice
storage = mass_storage 0x046d 0xc52b

-- GET_DESCRIPTOR(Device, 18), SET_CONFIGURATION(1), 4 bytes of bulk IN, and a keepalive between.
abbrev get_device : CmdSubmit
get_device = record {
  seqnum = 1;
  devid = 0x10002;
  direction = 1;
  ep = 0;
  transfer_flags = 0;
  transfer_buffer_length = 18;
  start_frame = 0;
  number_of_packets = 0;
  interval = 0;
  setup = 0x80 ∷ 0x06 ∷ 0x00 ∷ 0x01 ∷ 0x00 ∷ 0x00 ∷ 18 ∷ 0x00 ∷ [];
}

abbrev bulk_in : CmdSubmit
bulk_in = record get_device {
  seqnum = 254;
  ep = 1;
  transfer_buffer_length = 4;
  setup = 0 ∷ 0 ∷ 0 ∷ 0 ∷ 0 ∷ 0 ∷ 0 ∷ 0 ∷ [];
}

abbrev cancel : CmdUnlink
cancel = record { seqnum = 22; devid = 0; direction = 0; ep = 0; unlink_seqnum = 7 }

bulk_in_runs : (dispatch_submit storage bulk_in []).body ≡ 254 ∷ 255 ∷ 0 ∷ 1 ∷ []
unfolding dispatch_submit mass_storage endpoint_address zerowire.Device.execute_bulk
    zerowire.Device.bulk_pattern
bulk_in_runs = refl

abbrev requests : List Request
requests =
    Request.submit get_device []
    ∷ Request.skipped keepalive []
    ∷ Request.submit bulk_in []
    ∷ Request.unlink cancel
    ∷ []

requests-IsServable : All (IsServable 7 storage) requests
unfolding dispatch_submit mass_storage endpoint_address execute_control zerowire.Device.execute_bulk
    zerowire.Device.bulk_pattern u16_from_le
requests-IsServable = (
  (omega arith, λ e. absurd (omega arith), omega arith, omega arith),
  (
    (λ e. cc, omega arith),
    ((omega arith, λ e. absurd (omega arith), omega arith, omega arith), (omega arith, tt)),
  ),
)

abbrev session : Duplex
session = record { r = requests_bytes 7 storage requests ++ (0x5a ∷ []); w = [] }

run_pump_answers_example :
    ((run_pump duplex 7 storage 5 session).0 ≡ ok (counted_all 7 storage no_stats requests))
    × ((run_pump duplex 7 storage 5 session).1.w ≡ answers_bytes 7 storage requests)
unfolding duplex-Transport
run_pump_answers_example =
    run_pump_answers duplex-Transport duplex-CanWrite 7 (omega arith) storage requests (0x5a ∷ []) 5
      session requests-IsServable (omega arith) (omega arith) refl

abbrev stranger : UsbipFrame
stranger = record { import_id = 8; raw = [] }

abbrev strange_session : Duplex
strange_session = record {
  r =
      requests_bytes 7 storage requests
      ++ (frame (record { channel = usbip; payload = Frame.encode stranger }) ++ (1 ∷ []));
  w = [];
}

run_pump_wrong_id_example :
    ((run_pump duplex 7 storage 5 strange_session).0 ≡ err (wrong_import_id 8 7))
    × ((run_pump duplex 7 storage 5 strange_session).1.w ≡ answers_bytes 7 storage requests)
unfolding duplex-Transport
run_pump_wrong_id_example =
    run_pump_wrong_id duplex-Transport duplex-CanWrite 7 (omega arith) storage requests 8 []
      (1 ∷ []) 5 strange_session requests-IsServable (omega arith) (omega arith) (omega arith)
      (omega arith) refl

abbrev garbage : Duplex
garbage = record { r = 0x5a ∷ 0x57 ∷ 1 ∷ 1 ∷ 0xff ∷ 0xff ∷ 0xff ∷ 0xff ∷ 3 ∷ []; w = [] }

run_pump_stops_example : (run_pump duplex 7 storage 10 garbage).0 ≢ err out_of_fuel
unfolding duplex-Transport
run_pump_stops_example = run_pump_stops duplex-Transport 7 storage 10 garbage (omega arith)

recv_envelope_reads_first_example : (recv_envelope duplex garbage).0 ≡ err io
unfolding duplex-Transport
recv_envelope_reads_first_example =
    recv_envelope_reads_first duplex-Transport garbage (omega arith)
      (unfold u32_from_be in omega arith)

abbrev hello : Envelope
hello = record { channel = control; payload = 0x7b ∷ 0x7d ∷ [] }

abbrev greeting : Duplex
greeting = record { r = frame hello ++ (9 ∷ []); w = 1 ∷ [] }

recv_envelope-frame_example :
    Runs duplex-Transport (recv_envelope duplex) greeting hello (9 ∷ []) (1 ∷ [])
unfolding duplex-Transport
recv_envelope-frame_example =
    recv_envelope-frame duplex-Transport hello (9 ∷ []) greeting (omega arith) refl

dispatch_submit-IsInOrder_example : IsInOrder (dispatch_submit storage get_device [])
dispatch_submit-IsInOrder_example =
    dispatch_submit-IsInOrder storage get_device [] (unfold mass_storage in omega arith)
      (unfold mass_storage in omega arith) (omega arith)

recv_envelope_sound_example :
    (greeting.r ≡ frame hello ++ (recv_envelope duplex greeting).1.r)
    × (length hello.payload ≤ max_payload)
    × ((recv_envelope duplex greeting).1.w ≡ 1 ∷ [])
unfolding duplex-Transport frame Envelope.header Envelope.to_u8 zerowire.Bytes.u32_to_be
recv_envelope_sound_example =
    recv_envelope_sound duplex-Transport greeting hello (omega arith)
      (recv_envelope-frame duplex-Transport hello (9 ∷ []) greeting (omega arith) refl).0

bulk_in_reply_example :
    ((dispatch_submit storage bulk_in []).status ≡ pos 0)
    × ((dispatch_submit storage bulk_in []).actual_length ≡ 4)
    × (length (dispatch_submit storage bulk_in []).body ≡ 4)
    × ((i : ℕ) → i < 4 → get_or (dispatch_submit storage bulk_in []).body i 0 ≡ (254 + i) % 256)
unfolding mass_storage endpoint_address endpoint zerowire.Device.find_address is_in
bulk_in_reply_example =
    bulk_in_reply storage bulk_in [] _ (omega arith) refl (inl refl) refl (omega arith)
