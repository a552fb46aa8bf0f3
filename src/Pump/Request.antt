-- ===== src/Pump/Request.antt =====
-- The pump at the level of messages: what a request looks like on the wire, and what answers it.
use zerowire.Prelude.{ℕ, ◌+◌, ◌≤◌, ◌≡◌, ◌≢◌, pos, List, [], ◌∷◌, ◌++◌, ◌==◌, if◌then◌else◌, length}
use zerowire.Bytes.{Bytes}
use zerowire.Envelope.{Channel, Envelope, usbip, max_payload}
use zerowire.Envelope.RoundTrip.{frame}
use zerowire.Usbip.{urb_header_len, urb_dir_out}
use zerowire.Usbip.Frame
use zerowire.Usbip.CmdSubmit
use zerowire.Usbip.CmdSubmit.{CmdSubmit, IsCmdSubmit}
use zerowire.Usbip.CmdUnlink
use zerowire.Usbip.CmdUnlink.{CmdUnlink, IsCmdUnlink}
use zerowire.Device.{FakeDevice, SubmitResult, dispatch_submit}
use zerowire.Pump.{PumpStats, count_submit, count_unlink, ret_submit_payload, ret_unlink_payload}

-- A URB with the bytes behind its header, the cancelling of one, or an envelope of a channel that
-- the pump skips.
pub data Request : Type 0 where
  submit : CmdSubmit → Bytes → Request
  unlink : CmdUnlink → Request
  skipped : Channel → Bytes → Request

module _ (import_id : ℕ) where
  abbrev pub request_envelope : Request → Envelope
  request_envelope (submit cmd body) = record {
    channel = usbip;
    payload = Frame.encode (record { import_id = import_id; raw = CmdSubmit.encode cmd ++ body });
  }
  request_envelope (unlink u) = record {
    channel = usbip;
    payload = Frame.encode (record { import_id = import_id; raw = CmdUnlink.encode u });
  }
  request_envelope (skipped c payload) = record { channel = c; payload = payload }

  module _ (device : FakeDevice) where
    -- The device sees the bytes of an OUT transfer, and none otherwise.
    abbrev pub result : CmdSubmit → Bytes → SubmitResult
    result cmd body = dispatch_submit device cmd (if cmd.direction == urb_dir_out then body else [])

    -- The bytes of the one envelope that answers a request.
    abbrev pub answer : Request → Bytes
    answer (submit cmd body) =
        frame
          (record { channel = usbip; payload = ret_submit_payload import_id cmd (result cmd body) })
    answer (unlink u) =
        frame (record { channel = usbip; payload = ret_unlink_payload import_id u (pos 0) })
    answer (skipped c payload) = []

    abbrev pub counted : PumpStats → Request → PumpStats
    counted stats (submit cmd body) = count_submit cmd (result cmd body) stats
    counted stats (unlink u) = count_unlink stats
    counted stats (skipped c payload) = stats

    -- Header fields in range, an OUT transfer with all of its bytes, and envelopes within the limit
    -- both ways.
    abbrev pub IsServable : Request → Type 0
    IsServable (submit cmd body) =
        IsCmdSubmit cmd
        × (cmd.direction ≡ urb_dir_out → length body ≡ cmd.transfer_buffer_length)
        × (4 + urb_header_len + length body ≤ max_payload)
        × (4 + urb_header_len + length (result cmd body).body ≤ max_payload)
    IsServable (unlink u) = IsCmdUnlink u
    IsServable (skipped c payload) = (c ≢ usbip) × (length payload ≤ max_payload)

    -- A session's bytes: the requests in, the answers out.
    abbrev pub requests_bytes : List Request → Bytes
    requests_bytes [] = []
    requests_bytes (r ∷ rs) = frame (request_envelope r) ++ requests_bytes rs

    abbrev pub answers_bytes : List Request → Bytes
    answers_bytes [] = []
    answers_bytes (r ∷ rs) = answer r ++ answers_bytes rs

    abbrev pub counted_all : PumpStats → List Request → PumpStats
    counted_all stats [] = stats
    counted_all stats (r ∷ rs) = counted_all (counted stats r) rs
