-- ===== src/Driver/Exchange.antt =====
-- One URB of the driver, or its unlink, and the reply of the pump.
use zerowire.Prelude.{
  ℕ, ◌-◌, ◌%◌, ◌^◌, ◌<◌, ◌≡◌, refl, sym, ap, ◌∙◌, arith, ℤ, pos, int_eq_refl, Bool-cases, false, [],
  ◌++◌, inl, inr, ltb, ◌==◌, ==_refl, ==_iff, le→ltb_false, if◌then◌else◌, length, ok,
  length-append, take-append, append-nil, take_all,
}
use zerowire.Bytes.{Bytes, IsU32}
use zerowire.Envelope.{usbip}
use zerowire.Envelope.RoundTrip.{frame}
use zerowire.Usbip.{ret_submit, urb_header_len, urb_dir_out, urb_dir_in, peek_urb_op}
use zerowire.Usbip.Frame
use zerowire.Usbip.CmdSubmit.{CmdSubmit}
use zerowire.Usbip.RetSubmit
use zerowire.Usbip.RetSubmit.{RetSubmit, IsRetSubmit}
use zerowire.Usbip.CmdUnlink.{CmdUnlink, IsCmdUnlink}
use zerowire.Usbip.RetUnlink
use zerowire.Usbip.RetUnlink.{RetUnlink, IsRetUnlink}
use zerowire.Usbip.Dispatch.{peek-ret_submit, peek-ret_unlink}
use zerowire.Device.{FakeDevice, SubmitResult}
use zerowire.Device.Replies.{dispatch_submit-IsRepresentable}
use zerowire.Wire.{Stream, send_envelope, recv_envelope}
use zerowire.Wire.Laws.{Transport, CanWrite, Runs, send_envelope-frame, recv_envelope-frame}
use zerowire.Pump.{ret_submit_payload, ret_unlink_payload}
use zerowire.Pump.Handle.{length-ret_submit_payload, length-ret_unlink_payload}
use zerowire.Pump.Serve.{request_fits}
use zerowire.Pump.Request.{Request, request_envelope, result, answer, IsServable}
use zerowire.Driver.{
  ScriptedUrb, DriverStats, urb_cmd, last_unlink, count_reply, count_last, issue_urb, issue_unlink,
  check_ret, header_slice, urb_reply, unlink_reply, usbip_payload,
}

abbrev pub as_request : ScriptedUrb → Request
as_request u = Request.submit (urb_cmd u) u.out_body

module _ (import_id : ℕ) (device : FakeDevice) where
  -- The pump can serve the URB, and the device's reply is the one that the script expects.
  abbrev pub IsExpected : ScriptedUrb → Type 0
  IsExpected u =
      let r = result import_id device (urb_cmd u) u.out_body in
      IsServable import_id device (as_request u)
      × (r.status ≡ u.expected_status)
      × (r.actual_length ≡ u.expected_actual_length)
      × (u.direction ≡ urb_dir_in → length r.body ≡ r.actual_length)

-- The header of a reply.
abbrev ret_of : CmdSubmit → SubmitResult → RetSubmit
ret_of cmd res = record {
  seqnum = cmd.seqnum;
  devid = 0;
  direction = cmd.direction;
  ep = cmd.ep;
  status = res.status;
  actual_length = res.actual_length;
  start_frame = 0;
  number_of_packets = 0;
  error_count = 0;
}

abbrev unlinked : CmdUnlink → ℤ → RetUnlink
unlinked u status = record {
  seqnum = u.seqnum;
  devid = 0;
  direction = u.direction;
  ep = u.ep;
  status = status;
}

pub last_unlink-IsCmdUnlink : IsCmdUnlink last_unlink
last_unlink-IsCmdUnlink = omega arith

unlinked-IsRetUnlink : IsRetUnlink (unlinked last_unlink (pos 0))
unlinked-IsRetUnlink = omega arith

module _ {S : Type 0} {st : Stream S} (t : Transport st) (can_write : CanWrite st) (import_id : ℕ)
    (id_fits : IsU32 import_id) (device : FakeDevice) where
  ret_submit_parses :
      (cmd : CmdSubmit) (res : SubmitResult)
      → Frame.parse (ret_submit_payload import_id cmd res)
        ≡ ok (record { import_id = import_id; raw = RetSubmit.encode (ret_of cmd res) ++ res.body })
  unfolding ret_submit_payload
  ret_submit_parses cmd res = Frame.parse-encode_usbip_frame _ id_fits

  ret_unlink_parses :
      (u : CmdUnlink) (status : ℤ)
      → Frame.parse (ret_unlink_payload import_id u status)
        ≡ ok (record { import_id = import_id; raw = RetUnlink.encode (unlinked u status) })
  unfolding ret_unlink_payload
  ret_unlink_parses u status = Frame.parse-encode_usbip_frame _ id_fits

  ret_of-IsRetSubmit :
      (u : ScriptedUrb)
      → IsExpected import_id device u
      → IsRetSubmit (ret_of (urb_cmd u) (result import_id device (urb_cmd u) u.out_body))
  ret_of-IsRetSubmit u h =
      let fits =
        dispatch_submit-IsRepresentable device (urb_cmd u)
          (if u.direction == urb_dir_out then u.out_body else []) in
      let sizes = h.0.0 in
      record {
        seqnum = sizes.seqnum;
        devid = omega arith;
        direction = sizes.direction;
        ep = sizes.ep;
        status = fits.0;
        actual_length = fits.1;
        start_frame = omega arith;
        number_of_packets = omega arith;
        error_count = omega arith;
      }

  check_ret_lem :
      (u : ScriptedUrb) (stats : DriverStats) (s : S)
      → IsExpected import_id device u
      → let r = result import_id device (urb_cmd u) u.out_body in
        check_ret st import_id u stats (length r.body % 2 ^ 32) (ret_of (urb_cmd u) r) s
        ≡ (ok (count_reply u u.expected_actual_length stats), s)
  unfolding check_ret
  check_ret_lem u stats s (servable, status, size, whole) =
      let r : SubmitResult = result import_id device (urb_cmd u) u.out_body in
      let small : r.actual_length < 2 ^ 32 =
        (dispatch_submit-IsRepresentable device (urb_cmd u) _).1 in
      elim (Bool-cases (u.direction == urb_dir_in)) [
        | inl into ↦
            let same : length r.body ≡ r.actual_length = whole ((==_iff _ _).0 into) in
            let fits : length r.body % 2 ^ 32 ≡ u.expected_actual_length = omega arith in
            rw
              (
                status,
                size,
                int_eq_refl u.expected_status,
                ==_refl u.expected_actual_length,
                fits,
                ==_refl u.expected_actual_length,
                into,
              )
              refl
        | inr out ↦
            rw (status, size, int_eq_refl u.expected_status, ==_refl u.expected_actual_length, out)
              refl
      ]

  -- A reply of the pump, as the driver takes it apart.
  urb_reply_lem :
      (u : ScriptedUrb) (stats : DriverStats) (s : S)
      → IsExpected import_id device u
      → let r = result import_id device (urb_cmd u) u.out_body in
        urb_reply st import_id u stats
          (RetSubmit.encode (ret_of (urb_cmd u) r) ++ r.body)
          ret_submit
          s
        ≡ (ok (count_reply u u.expected_actual_length stats), s)
  unfolding urb_reply header_slice
  urb_reply_lem u stats s h =
      let r : SubmitResult = result import_id device (urb_cmd u) u.out_body in
      let ret : RetSubmit = ret_of (urb_cmd u) r in
      let header : Bytes = RetSubmit.encode ret in
      let valid : IsRetSubmit ret = ret_of-IsRetSubmit u h in
      let size : length header ≡ urb_header_len = RetSubmit.length-encode ret in
      let long : ltb (length (header ++ r.body)) urb_header_len ≡ false =
        le→ltb_false _ _ (omega (arith, size, length-append header r.body)) in
      let behind : length (header ++ r.body) - urb_header_len ≡ length r.body =
        omega (arith, size, length-append header r.body) in
      rw
        (
          long,
          take-append header r.body urb_header_len size,
          RetSubmit.parse-encode_ret_submit ret valid,
          behind,
        )
        (check_ret_lem u stats s h)

  -- The reply of the pump to a URB is what the driver expects.
  pub issue_urb-Runs :
      (u : ScriptedUrb) (rest : Bytes) (stats : DriverStats) (s : S)
      → IsExpected import_id device u
      → t.incoming s ≡ answer import_id device (as_request u) ++ rest
      → Runs t
          (issue_urb st import_id u stats)
          s
          (count_reply u u.expected_actual_length stats)
          rest
          (t.outgoing s ++ frame (request_envelope import_id (as_request u)))
  unfolding issue_urb usbip_payload
  issue_urb-Runs u rest stats s h e =
      let r : SubmitResult = result import_id device (urb_cmd u) u.out_body in
      let sent =
        send_envelope-frame t can_write (request_envelope import_id (as_request u)) s
          (request_fits import_id device (as_request u) h.0) in
      let s1 : S =
        (send_envelope st usbip (request_envelope import_id (as_request u)).payload s).1 in
      let got =
        recv_envelope-frame t
          (record { channel = usbip; payload = ret_submit_payload import_id (urb_cmd u) r }) rest s1
          (omega (arith, length-ret_submit_payload import_id (urb_cmd u) r)) (sent.1 ∙ e) in
      let s2 : S = (recv_envelope st s1).1 in
      rw
        (
          sent.0,
          got.0,
          ret_submit_parses (urb_cmd u) r,
          ==_refl import_id,
          peek-ret_submit (ret_of (urb_cmd u) r) r.body,
          urb_reply_lem u stats s2 h,
        )
        (refl, got.1, got.2 ∙ sent.2)

  -- The same for the unlink at the end.
  pub issue_unlink-Runs :
      (rest : Bytes) (stats : DriverStats) (s : S)
      → t.incoming s ≡ answer import_id device (Request.unlink last_unlink) ++ rest
      → Runs t
          (issue_unlink st import_id stats)
          s
          (count_last stats)
          rest
          (t.outgoing s ++ frame (request_envelope import_id (Request.unlink last_unlink)))
  unfolding issue_unlink usbip_payload unlink_reply header_slice
  issue_unlink-Runs rest stats s e =
      let asked : Request = Request.unlink last_unlink in
      let ret : RetUnlink = unlinked last_unlink (pos 0) in
      let sent =
        send_envelope-frame t can_write (request_envelope import_id asked) s
          (request_fits import_id device asked last_unlink-IsCmdUnlink) in
      let s1 : S = (send_envelope st usbip (request_envelope import_id asked).payload s).1 in
      let got =
        recv_envelope-frame t
          (record { channel = usbip; payload = ret_unlink_payload import_id last_unlink (pos 0) })
          rest s1 (omega (arith, length-ret_unlink_payload import_id last_unlink (pos 0)))
          (sent.1 ∙ e) in
      let size : length (RetUnlink.encode ret) ≡ urb_header_len = RetUnlink.length-encode ret in
      rw
        (
          sent.0,
          got.0,
          ret_unlink_parses last_unlink (pos 0),
          ap peek_urb_op (sym (append-nil (RetUnlink.encode ret))) ∙ peek-ret_unlink ret [],
          size,
          take_all (RetUnlink.encode ret) urb_header_len (omega (arith, size)),
          RetUnlink.parse-encode_ret_unlink ret unlinked-IsRetUnlink,
        )
        (refl, got.1, got.2 ∙ sent.2)
