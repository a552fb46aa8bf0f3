-- ===== src/Driver/Panics.antt =====
-- A reply that is too short for its header: the slice `&f.raw[..URB_HEADER_LEN]` comes before the
-- parser that would have reported the length.
use zerowire.Prelude.{
  ℕ, ◌+◌, ◌<◌, ◌≤◌, ◌≡◌, refl, ◌∙◌, arith, some, ◌++◌, lt→ltb, ==_refl, length, length-append, err,
}
use zerowire.Bytes.{Bytes, IsU32}
use zerowire.Envelope.{usbip, max_payload}
use zerowire.Envelope.RoundTrip.{frame}
use zerowire.Usbip.{ret_submit, urb_header_len, peek_urb_op}
use zerowire.Usbip.Frame
use zerowire.Usbip.Frame.{UsbipFrame}
use zerowire.Usbip.CmdSubmit
use zerowire.Io.{panic}
use zerowire.Wire.{Stream, send_envelope}
use zerowire.Wire.Laws.{Transport, CanWrite, send_envelope-frame, recv_envelope-frame}
use zerowire.Driver.{
  ScriptedUrb, DriverStats, urb_cmd, issue_urb, urb_reply, usbip_payload, header_slice,
}

-- Over a stream that takes every write, a reply for the session that names itself a `RET_SUBMIT` and
-- has fewer than 48 bytes makes the driver panic, for every URB whose request is within the limit.
pub issue_urb_short_reply :
    {S : Type 0} {st : Stream S} (t : Transport st)
    → CanWrite st
    → (import_id : ℕ) (u : ScriptedUrb) (stats : DriverStats) (raw rest : Bytes) (s : S)
    → IsU32 import_id
    → length u.setup ≡ 8
    → 4 + urb_header_len + length u.out_body ≤ max_payload
    → peek_urb_op raw ≡ some ret_submit
    → length raw < urb_header_len
    → t.incoming s
      ≡ frame (record {
        channel = usbip;
        payload = Frame.encode (record { import_id = import_id; raw = raw });
      })
        ++ rest
    → (issue_urb st import_id u stats s).0 ≡ err panic
unfolding issue_urb usbip_payload urb_reply header_slice
issue_urb_short_reply {st} t can_write import_id u stats raw rest s id_fits setup_len fits peek
      short e =
    let asked : UsbipFrame = record {
      import_id = import_id;
      raw = CmdSubmit.encode (urb_cmd u) ++ u.out_body;
    } in
    let reply : UsbipFrame = record { import_id = import_id; raw = raw } in
    let sent =
      send_envelope-frame t can_write (record { channel = usbip; payload = Frame.encode asked }) s
        (omega (
          arith,
          Frame.length-encode asked,
          length-append (CmdSubmit.encode (urb_cmd u)) u.out_body,
          CmdSubmit.length-encode (urb_cmd u) setup_len,
        )) in
    let got =
      recv_envelope-frame t (record { channel = usbip; payload = Frame.encode reply }) rest
        (send_envelope st usbip (Frame.encode asked) s).1 (omega (arith, Frame.length-encode reply))
        (sent.1 ∙ e) in
    rw
      (
        sent.0,
        got.0,
        Frame.parse-encode_usbip_frame reply id_fits,
        ==_refl import_id,
        peek,
        lt→ltb (length raw) urb_header_len short,
      )
      refl
