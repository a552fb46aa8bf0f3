-- ===== src/Tests/Simulation.antt =====
-- The URB driver against the pump, over two in-memory streams.
use zerowire.Prelude.{◌≡◌, refl, arith, [], ◌∷◌, ◌++◌, ok, err}
use zerowire.Bytes.{Bytes}
use zerowire.Envelope.{usbip}
use zerowire.Envelope.RoundTrip.{frame}
use zerowire.Usbip.Frame
use zerowire.Device.{FakeDevice, mass_storage}
use zerowire.Io.{panic}
use zerowire.Duplex.{Duplex, duplex, duplex-Transport, duplex-CanWrite}
use zerowire.Pump.{no_stats, run_pump}
use zerowire.Pump.Request.{requests_bytes, counted_all}
use zerowire.Driver.{reads, no_setup, no_urbs, issue_urb, script_default, run_script}
use zerowire.Driver.Loopback.{script_requests}
use zerowire.Driver.Script.{simulated_session}
use zerowire.Driver.Panics.{issue_urb_short_reply}

abbrev storage : FakeDevice
storage = mass_storage 0x0781 0x5567

abbrev at_pump : Duplex
at_pump = record { r = requests_bytes 7 storage (script_requests (script_default 2)); w = [] }

abbrev at_driver : Duplex
at_driver = record { r = (run_pump duplex 7 storage 11 at_pump).1.w; w = [] }

simulated_session_example :
    ((run_script duplex 7 (script_default 2) at_driver).0
      ≡ ok (record {
        urbs_issued = 9;
        urbs_ok = 9;
        unlinks_issued = 1;
        unlinks_ok = 1;
        bytes_returned = 283;
      }))
    × ((run_pump duplex 7 storage 11 at_pump).0
        ≡ ok (counted_all 7 storage no_stats (script_requests (script_default 2))))
    × ((run_script duplex 7 (script_default 2) at_driver).1.w ≡ at_pump.r)
    × ((run_script duplex 7 (script_default 2) at_driver).1.r ≡ [])
unfolding duplex-Transport
simulated_session_example =
    simulated_session duplex-Transport duplex-Transport duplex-CanWrite duplex-CanWrite 7 0x0781
      0x5567 2 11 at_driver at_pump (omega arith) (omega arith) (omega arith) refl refl refl refl

abbrev short_reply : Bytes
short_reply = 0 ∷ 0 ∷ 0 ∷ 3 ∷ []

abbrev at_short : Duplex
at_short = record {
  r =
      frame (record {
        channel = usbip;
        payload = Frame.encode (record { import_id = 7; raw = short_reply });
      })
      ++ [];
  w = [];
}

issue_urb_short_reply_example :
    (issue_urb duplex 7 (reads 5 1 no_setup 64) no_urbs at_short).0 ≡ err panic
unfolding duplex-Transport zerowire.Usbip.peek_urb_op zerowire.Usbip.urb_op_from_u32
    zerowire.Usbip.read_u32 zerowire.Bytes.u32_from_be
issue_urb_short_reply_example =
    issue_urb_short_reply duplex-Transport duplex-CanWrite 7 (reads 5 1 no_setup 64) no_urbs
      short_reply [] at_short (omega arith) refl (omega arith) refl (omega arith) refl
