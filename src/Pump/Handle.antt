-- ===== src/Pump/Handle.antt =====
-- One request in, one answer out.
use zerowire.Prelude.{
  ℕ, ◌+◌, ◌≤◌, ◌≡◌, ◌≢◌, refl, sym, ap, ◌∙◌, arith, ℤ, pos, Bool-cases, false, some, [], ◌++◌, ltb,
  ◌==◌, ==_refl, ==_iff, inl, inr, length, drop, ok, le→ltb_false, length-append, take-append,
  drop-append, take_all, append-nil,
}
use zerowire.Bytes.{Bytes, IsU32}
use zerowire.Envelope.{Channel, Envelope, control, usbip, hid, keepalive, max_payload}
use zerowire.Envelope.RoundTrip.{frame}
use zerowire.Usbip.{urb_header_len, urb_dir_out, cmd_unlink, peek_urb_op}
use zerowire.Usbip.Frame
use zerowire.Usbip.CmdSubmit
use zerowire.Usbip.CmdSubmit.{CmdSubmit, IsCmdSubmit}
use zerowire.Usbip.CmdUnlink
use zerowire.Usbip.CmdUnlink.{CmdUnlink, IsCmdUnlink}
use zerowire.Usbip.RetSubmit
use zerowire.Usbip.RetUnlink
use zerowire.Usbip.Dispatch.{peek-cmd_submit, peek-cmd_unlink}
use zerowire.Device.{FakeDevice, SubmitResult}
use zerowire.Io.{pure, ◌>>◌}
use zerowire.Wire.{Stream}
use zerowire.Wire.Laws.{Transport, CanWrite, Runs, send_envelope-frame}
use zerowire.Pump.{
  PumpStats, count_submit, ret_submit_payload, ret_unlink_payload, send_ret_submit, submit,
  handle_urb_packet, on_envelope,
}
use zerowire.Pump.Request.{Request, request_envelope, result, answer, counted, IsServable}

pub length-ret_submit_payload :
    (import_id : ℕ) (cmd : CmdSubmit) (res : SubmitResult)
    → length (ret_submit_payload import_id cmd res) ≡ 4 + urb_header_len + length res.body
unfolding ret_submit_payload
length-ret_submit_payload import_id cmd res =
    omega (arith, Frame.length-encode, RetSubmit.length-encode, length-append {0})

pub length-ret_unlink_payload :
    (import_id : ℕ) (u : CmdUnlink) (status : ℤ)
    → length (ret_unlink_payload import_id u status) ≡ 4 + urb_header_len
unfolding ret_unlink_payload
length-ret_unlink_payload import_id u status =
    Frame.length-encode _ ∙ ap (λ (n : ℕ). 4 + n) (RetUnlink.length-encode _)

module _ {S : Type 0} {st : Stream S} (t : Transport st) (writes : CanWrite st) (import_id : ℕ)
    (id_fits : IsU32 import_id) (device : FakeDevice) where
  -- Sending the reply and counting it.
  reply_sent :
      (cmd : CmdSubmit) (res : SubmitResult) (stats : PumpStats) (s : S)
      → 4 + urb_header_len + length res.body ≤ max_payload
      → Runs t
          (send_ret_submit st import_id device cmd res >> pure (count_submit cmd res stats))
          s
          (count_submit cmd res stats)
          (t.incoming s)
          (t.outgoing s
            ++ frame (record { channel = usbip; payload = ret_submit_payload import_id cmd res }))
  unfolding send_ret_submit
  reply_sent cmd res stats s small =
      let env : Envelope = record {
        channel = usbip;
        payload = ret_submit_payload import_id cmd res;
      } in
      let sent =
        send_envelope-frame t writes env s
          (omega (arith, length-ret_submit_payload import_id cmd res)) in
      rw sent.0 (refl, sent.1, sent.2)

  submit_answers :
      (cmd : CmdSubmit) (body : Bytes) (stats : PumpStats) (s : S)
      → IsServable import_id device (Request.submit cmd body)
      → Runs t
          (submit st import_id device (CmdSubmit.encode cmd ++ body) stats cmd)
          s
          (count_submit cmd (result import_id device cmd body) stats)
          (t.incoming s)
          (t.outgoing s ++ answer import_id device (Request.submit cmd body))
  unfolding submit
  submit_answers cmd body stats s (valid, whole, small, small') =
      let header : Bytes = CmdSubmit.encode cmd in
      let size : length header ≡ urb_header_len = CmdSubmit.length-encode cmd valid.setup_len in
      let behind : drop urb_header_len (header ++ body) ≡ body = drop-append header body _ size in
      elim (Bool-cases (cmd.direction == urb_dir_out)) [
        | inl out ↦
            let want : length body ≡ cmd.transfer_buffer_length = whole ((==_iff _ _).0 out) in
            let room : ltb (length (header ++ body)) (urb_header_len + cmd.transfer_buffer_length)
                ≡ false =
              le→ltb_false _ _ (omega (arith, size, want, length-append header body)) in
            rw (out, behind, take_all body cmd.transfer_buffer_length (omega arith), room)
              (reply_sent cmd _ stats s (rw out at small'))
        | inr into ↦ rw into (reply_sent cmd _ stats s (rw into at small'))
      ]

  skip_lem :
      (c : Channel) (payload : Bytes) (stats : PumpStats) (s : S)
      → c ≢ usbip
      → Runs t
          (on_envelope st import_id device (record { channel = c; payload = payload }) stats)
          s
          stats
          (t.incoming s)
          (t.outgoing s ++ [])
  unfolding on_envelope
  skip_lem usbip payload stats s h = absurd (h refl)
  skip_lem control payload stats s h = (refl, refl, sym (append-nil _))
  skip_lem hid payload stats s h = (refl, refl, sym (append-nil _))
  skip_lem keepalive payload stats s h = (refl, refl, sym (append-nil _))

  -- A request is answered by its one envelope and counted; an envelope of another channel changes
  -- nothing.
  pub on_envelope_answers :
      (req : Request) (stats : PumpStats) (s : S)
      → IsServable import_id device req
      → Runs t
          (on_envelope st import_id device (request_envelope import_id req) stats)
          s
          (counted import_id device stats req)
          (t.incoming s)
          (t.outgoing s ++ answer import_id device req)
  unfolding on_envelope handle_urb_packet
  on_envelope_answers (Request.submit cmd body) stats s h =
      let header : Bytes = CmdSubmit.encode cmd in
      let size : length header ≡ urb_header_len = CmdSubmit.length-encode cmd h.0.setup_len in
      let long : ltb (length (header ++ body)) urb_header_len ≡ false =
        le→ltb_false _ _ (omega (arith, size, length-append header body)) in
      let framed : Frame.parse
            (Frame.encode (record { import_id = import_id; raw = header ++ body }))
          ≡ ok (record { import_id = import_id; raw = header ++ body }) =
        Frame.parse-encode_usbip_frame _ id_fits in
      rw
        (
          framed,
          ==_refl import_id,
          long,
          peek-cmd_submit cmd body,
          take-append header body urb_header_len size,
          CmdSubmit.parse-encode_cmd_submit cmd h.0,
        )
        (submit_answers cmd body stats s h)
  on_envelope_answers (Request.unlink u) stats s h =
      let header : Bytes = CmdUnlink.encode u in
      let size : length header ≡ urb_header_len = CmdUnlink.length-encode u in
      let long : ltb (length header) urb_header_len ≡ false =
        le→ltb_false _ _ (omega (arith, size)) in
      let framed : Frame.parse (Frame.encode (record { import_id = import_id; raw = header }))
          ≡ ok (record { import_id = import_id; raw = header }) =
        Frame.parse-encode_usbip_frame _ id_fits in
      let peeked : peek_urb_op header ≡ some cmd_unlink =
        ap peek_urb_op (sym (append-nil header)) ∙ peek-cmd_unlink u [] in
      let env : Envelope = record {
        channel = usbip;
        payload = ret_unlink_payload import_id u (pos 0);
      } in
      let sent =
        send_envelope-frame t writes env s
          (omega (arith, length-ret_unlink_payload import_id u (pos 0))) in
      rw
        (
          framed,
          ==_refl import_id,
          long,
          peeked,
          take_all header urb_header_len (omega (arith, size)),
          CmdUnlink.parse-encode_cmd_unlink u h,
          sent.0,
        )
        (refl, sent.1, sent.2)
  on_envelope_answers (Request.skipped c payload) stats s h = skip_lem c payload stats s h.0
