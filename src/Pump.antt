-- ===== src/Pump.antt =====
-- desktop-linux/src/urb_pump.rs: the loop that answers USB/IP requests for a device.
pub mod Request
pub mod Handle
pub mod Serve
pub mod Stops
use zerowire.Prelude.{
  ℕ, zero, suc, ◌+◌, ◌-◌, ◌%◌, ◌^◌, ℤ, pos, int_eq, Bool, true, false, not, ◌&&◌, Option, none,
  some, List, [], ◌∷◌, ◌++◌, ltb, ◌==◌, if◌then◌else◌, length, take, drop, map_err, ok_or,
}
use zerowire.Bytes.{Bytes}
use zerowire.Envelope.{Envelope, control, usbip, hid, keepalive}
use zerowire.Usbip.{
  UrbOp, cmd_submit, cmd_unlink, ret_submit, ret_unlink, urb_header_len, urb_dir_out, urb_dir_in,
  peek_urb_op,
}
use zerowire.Usbip.Frame
use zerowire.Usbip.Frame.{UsbipFrame}
use zerowire.Usbip.CmdSubmit
use zerowire.Usbip.CmdSubmit.{CmdSubmit, is_control}
use zerowire.Usbip.RetSubmit
use zerowire.Usbip.RetSubmit.{RetSubmit}
use zerowire.Usbip.CmdUnlink
use zerowire.Usbip.CmdUnlink.{CmdUnlink}
use zerowire.Usbip.RetUnlink
use zerowire.Usbip.RetUnlink.{RetUnlink}
use zerowire.Device.{FakeDevice, SubmitResult, eopnotsupp, dispatch_submit}
use zerowire.Io.{
  Io, usbip_frame, urb, wrong_import_id, urb_too_short, unknown_urb_op, out_truncated,
  unexpected_op, out_of_fuel, pure, raise, lift, attempt, continue, ◌>>=◌, ◌>>◌,
}
use zerowire.Wire.{Stream, recv_envelope, send_envelope}

-- Seven `u32` counters. Their `+=` wraps, as in a release build.
pub record PumpStats : Type 0 where
  pub submits_seen : ℕ
  pub submits_ok : ℕ
  pub control_in_bytes : ℕ
  pub bulk_in_bytes : ℕ
  pub bulk_out_bytes : ℕ
  pub unlinks_seen : ℕ
  pub unsupported : ℕ

abbrev pub no_stats : PumpStats
no_stats = record {
  submits_seen = 0;
  submits_ok = 0;
  control_in_bytes = 0;
  bulk_in_bytes = 0;
  bulk_out_bytes = 0;
  unlinks_seen = 0;
  unsupported = 0;
}

abbrev pub add_u32 : ℕ → ℕ → ℕ
add_u32 a b = (a + b) % 2 ^ 32

-- How the counters move on one submitted URB with result `res`.
unfoldable pub count_submit : CmdSubmit → SubmitResult → PumpStats → PumpStats
unfolding is_control
count_submit cmd res stats =
    let seen = record stats { submits_seen = add_u32 stats.submits_seen 1 } in
    if int_eq res.status (pos 0)
    then if is_control cmd && cmd.direction == urb_dir_in
      then record seen {
        submits_ok = add_u32 stats.submits_ok 1;
        control_in_bytes = add_u32 stats.control_in_bytes res.actual_length;
      }
      else if cmd.direction == urb_dir_in
      then record seen {
        submits_ok = add_u32 stats.submits_ok 1;
        bulk_in_bytes = add_u32 stats.bulk_in_bytes res.actual_length;
      }
      else record seen {
        submits_ok = add_u32 stats.submits_ok 1;
        bulk_out_bytes = add_u32 stats.bulk_out_bytes res.actual_length;
      }
    else if int_eq res.status eopnotsupp
    then record seen { unsupported = add_u32 stats.unsupported 1 }
    else seen

unfoldable pub count_unlink : PumpStats → PumpStats
count_unlink stats = record stats { unlinks_seen = add_u32 stats.unlinks_seen 1 }

-- The payload that `send_ret_submit` puts into an envelope.
unfoldable pub ret_submit_payload : ℕ → CmdSubmit → SubmitResult → Bytes
ret_submit_payload import_id cmd res =
    let ret : RetSubmit = record {
      seqnum = cmd.seqnum;
      devid = 0;
      direction = cmd.direction;
      ep = cmd.ep;
      status = res.status;
      actual_length = res.actual_length;
      start_frame = 0;
      number_of_packets = 0;
      error_count = 0;
    } in
    Frame.encode (record { import_id = import_id; raw = RetSubmit.encode ret ++ res.body })

unfoldable pub ret_unlink_payload : ℕ → CmdUnlink → ℤ → Bytes
ret_unlink_payload import_id u status =
    let ret : RetUnlink = record {
      seqnum = u.seqnum;
      devid = 0;
      direction = u.direction;
      ep = u.ep;
      status = status;
    } in
    Frame.encode (record { import_id = import_id; raw = RetUnlink.encode ret })

module _ {S : Type 0} (st : Stream S) (import_id : ℕ) (device : FakeDevice) where
  unfoldable pub send_ret_submit : CmdSubmit → SubmitResult → Io S (Unit {0})
  send_ret_submit cmd res = send_envelope st usbip (ret_submit_payload import_id cmd res)

  unfoldable pub send_ret_unlink : CmdUnlink → ℤ → Io S (Unit {0})
  send_ret_unlink u status = send_envelope st usbip (ret_unlink_payload import_id u status)

  -- The `CMD_SUBMIT` arm, from the parsed header on.
  submit : Bytes → PumpStats → CmdSubmit → Io S PumpStats
  unfolding send_ret_submit
  submit raw stats cmd =
      let want = cmd.transfer_buffer_length in
      let is_out = cmd.direction == urb_dir_out in
      let out_body = if is_out then take want (drop urb_header_len raw) else [] in
      let res = dispatch_submit device cmd out_body in
      if is_out && ltb (length raw) (urb_header_len + want)
      then raise (out_truncated (length raw - urb_header_len) want)
      else do send_ret_submit cmd res; pure (count_submit cmd res stats)

  unlink : PumpStats → CmdUnlink → Io S PumpStats
  unfolding send_ret_unlink
  unlink stats u = do send_ret_unlink u (pos 0); pure (count_unlink stats)

  on_op : Bytes → PumpStats → UrbOp → Io S PumpStats
  unfolding submit unlink
  on_op raw stats cmd_submit = do
    cmd ← lift (map_err urb (CmdSubmit.parse (take urb_header_len raw)))
    submit raw stats cmd
  on_op raw stats cmd_unlink = do
    u ← lift (map_err urb (CmdUnlink.parse (take urb_header_len raw)))
    unlink stats u
  on_op raw stats ret_submit = raise (unexpected_op ret_submit)
  on_op raw stats ret_unlink = raise (unexpected_op ret_unlink)

  unfoldable pub handle_urb_packet : Bytes → PumpStats → Io S PumpStats
  unfolding on_op
  handle_urb_packet raw stats =
      if ltb (length raw) urb_header_len
      then raise (urb_too_short (length raw))
      else do op ← lift (ok_or (peek_urb_op raw) unknown_urb_op); on_op raw stats op

  -- One round of the loop, on the envelope received.
  unfoldable pub on_envelope : Envelope → PumpStats → Io S PumpStats
  on_envelope env stats = elim env.channel [
    | usbip ↦ do
      frame ← lift (map_err usbip_frame (Frame.parse env.payload))
      if not (frame.import_id == import_id)
          then raise (wrong_import_id frame.import_id import_id)
          else handle_urb_packet frame.raw stats
    | control ↦ pure stats
    | hid ↦ pure stats
    | keepalive ↦ pure stats
  ]

  -- The `loop`, for at most as many rounds as the fuel says. An envelope that cannot be received ends
  -- it, and any other failure is its result.
  unfoldable pub pump_loop : ℕ → PumpStats → Io S PumpStats
  pump_loop zero stats = raise out_of_fuel
  pump_loop (suc fuel) stats = do
    got ← attempt (recv_envelope st)
    elim got [
      | none ↦ pure stats
      | some env ↦ do stats' ← on_envelope env stats; pump_loop fuel stats'
    ]

  unfoldable pub run_pump : ℕ → Io S PumpStats
  unfolding pump_loop
  run_pump fuel = pump_loop fuel no_stats
