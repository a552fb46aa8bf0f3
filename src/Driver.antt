-- ===== src/Driver.antt =====
-- desktop-linux/src/urb_driver.rs: the receiver's side of a simulated session, which issues URBs and
-- checks the replies. The transcript that it writes along the way, and the labels that stand in it,
-- are left out.
pub mod Exchange
pub mod Loopback
pub mod Script
pub mod Panics
use zerowire.Prelude.{
  ℕ, zero, suc, ◌+◌, ◌-◌, ◌%◌, ◌^◌, ℤ, pos, int_eq, Bool, not, ◌&&◌, List, [], ◌∷◌, ◌++◌, ltb, ◌==◌,
  if◌then◌else◌, length, take, map_err, ok_or,
}
use zerowire.Bytes.{Bytes}
use zerowire.Envelope.{Envelope, control, usbip, hid, keepalive}
use zerowire.Usbip.{
  UrbOp, cmd_submit, cmd_unlink, ret_submit, ret_unlink, urb_header_len, urb_dir_out, urb_dir_in,
  peek_urb_op,
}
use zerowire.Usbip.Frame
use zerowire.Usbip.Frame.{UsbipFrame}
use zerowire.Usbip.CmdSubmit
use zerowire.Usbip.CmdSubmit.{CmdSubmit}
use zerowire.Usbip.RetSubmit
use zerowire.Usbip.RetSubmit.{RetSubmit}
use zerowire.Usbip.CmdUnlink
use zerowire.Usbip.CmdUnlink.{CmdUnlink}
use zerowire.Usbip.RetUnlink
use zerowire.Usbip.RetUnlink.{RetUnlink}
use zerowire.Io.{
  Io, usbip_frame, urb, wrong_channel, wrong_import_id, unknown_urb_op, unexpected_op, urb_failed,
  body_mismatch, unlink_failed, panic, pure, raise, lift, continue, ◌>>=◌, ◌>>◌,
}
use zerowire.Wire.{Stream, recv_envelope, send_envelope}

pub record ScriptedUrb : Type 0 where
  pub seqnum : ℕ
  pub ep : ℕ
  pub direction : ℕ
  pub setup : Bytes
  pub transfer_buffer_length : ℕ
  pub out_body : Bytes
  pub expected_status : ℤ
  pub expected_actual_length : ℕ

abbrev pub no_setup : Bytes
no_setup = 0 ∷ 0 ∷ 0 ∷ 0 ∷ 0 ∷ 0 ∷ 0 ∷ 0 ∷ []

-- An IN transfer of `n` bytes that is expected to succeed in full.
abbrev pub reads : ℕ → ℕ → Bytes → ℕ → ScriptedUrb
reads seqnum ep setup n = record {
  seqnum = seqnum;
  ep = ep;
  direction = urb_dir_in;
  setup = setup;
  transfer_buffer_length = n;
  out_body = [];
  expected_status = pos 0;
  expected_actual_length = n;
}

-- An OUT transfer, likewise.
abbrev pub writes : ℕ → ℕ → Bytes → Bytes → ScriptedUrb
writes seqnum ep setup body = record {
  seqnum = seqnum;
  ep = ep;
  direction = urb_dir_out;
  setup = setup;
  transfer_buffer_length = length body;
  out_body = body;
  expected_status = pos 0;
  expected_actual_length = length body;
}

-- `(k..k + n).collect()`
unfoldable pub range : ℕ → ℕ → Bytes
range k zero = []
range k (suc n) = k ∷ range (k + 1) n

-- `n` reads of 64 bytes, with the sequence numbers from `k` on
unfoldable pub extra_bulk_in : ℕ → ℕ → List ScriptedUrb
extra_bulk_in k zero = []
extra_bulk_in k (suc n) = reads k 1 no_setup 64 ∷ extra_bulk_in (k + 1) n

-- The source's second argument, `devid`, is not used there.
unfoldable pub script_default : ℕ → List ScriptedUrb
unfolding range
script_default n_extra_bulk_in =
    reads 1 0 (0x80 ∷ 0x06 ∷ 0x00 ∷ 0x01 ∷ 0x00 ∷ 0x00 ∷ 18 ∷ 0x00 ∷ []) 18
    ∷ reads 2 0 (0x80 ∷ 0x06 ∷ 0x00 ∷ 0x02 ∷ 0x00 ∷ 0x00 ∷ 9 ∷ 0x00 ∷ []) 9
    ∷ reads 3 0 (0x80 ∷ 0x06 ∷ 0x00 ∷ 0x02 ∷ 0x00 ∷ 0x00 ∷ 32 ∷ 0x00 ∷ []) 32
    ∷ writes 4 0 (0x00 ∷ 0x09 ∷ 0x01 ∷ 0x00 ∷ 0x00 ∷ 0x00 ∷ 0x00 ∷ 0x00 ∷ []) []
    ∷ reads 5 1 no_setup 64
    ∷ writes 6 2 no_setup (range 0 64)
    ∷ reads 7 1 no_setup 32
    ∷ extra_bulk_in 100 n_extra_bulk_in

-- Counters of 32 bits, and 64 bits for the bytes. Their `+=` wraps, as in a release build.
pub record DriverStats : Type 0 where
  pub urbs_issued : ℕ
  pub urbs_ok : ℕ
  pub unlinks_issued : ℕ
  pub unlinks_ok : ℕ
  pub bytes_returned : ℕ

abbrev pub no_urbs : DriverStats
no_urbs = record {
  urbs_issued = 0;
  urbs_ok = 0;
  unlinks_issued = 0;
  unlinks_ok = 0;
  bytes_returned = 0;
}

abbrev pub urb_cmd : ScriptedUrb → CmdSubmit
urb_cmd u = record {
  seqnum = u.seqnum;
  devid = 0x00010002;
  direction = u.direction;
  ep = u.ep;
  transfer_flags = 0;
  transfer_buffer_length = u.transfer_buffer_length;
  start_frame = 0;
  number_of_packets = 0;
  interval = 0;
  setup = u.setup;
}

abbrev pub last_unlink : CmdUnlink
last_unlink = record {
  seqnum = 9001;
  devid = 0x00010002;
  direction = urb_dir_out;
  ep = 0;
  unlink_seqnum = 5;
}

-- The counters after a good reply of `n` bytes.
abbrev pub count_reply : ScriptedUrb → ℕ → DriverStats → DriverStats
count_reply u n stats = record stats {
  urbs_issued = (stats.urbs_issued + 1) % 2 ^ 32;
  urbs_ok = (stats.urbs_ok + 1) % 2 ^ 32;
  bytes_returned =
      if u.direction == urb_dir_in
      then (stats.bytes_returned + n) % 2 ^ 64
      else stats.bytes_returned;
}

abbrev pub count_last : DriverStats → DriverStats
count_last stats = record stats {
  unlinks_issued = (stats.unlinks_issued + 1) % 2 ^ 32;
  unlinks_ok = (stats.unlinks_ok + 1) % 2 ^ 32;
}

module _ {S : Type 0} (st : Stream S) (import_id : ℕ) where
  -- A reply's envelope has to be of the USB/IP channel.
  unfoldable pub usbip_payload : Envelope → Io S Bytes
  usbip_payload env = elim env.channel [
    | usbip ↦ pure env.payload
    | control ↦ raise (wrong_channel control)
    | hid ↦ raise (wrong_channel hid)
    | keepalive ↦ raise (wrong_channel keepalive)
  ]

  -- `&f.raw[..URB_HEADER_LEN]`
  unfoldable pub header_slice : Bytes → Io S Bytes
  header_slice raw =
      if ltb (length raw) urb_header_len then raise panic else pure (take urb_header_len raw)

  -- What is made of a `RET_SUBMIT` with `body_len` bytes behind it.
  unfoldable pub check_ret : ScriptedUrb → DriverStats → ℕ → RetSubmit → Io S DriverStats
  check_ret u stats body_len ret =
      if not (int_eq ret.status u.expected_status && ret.actual_length == u.expected_actual_length)
      then raise (urb_failed u.seqnum)
      else if u.direction == urb_dir_in && not (body_len == ret.actual_length)
      then raise (body_mismatch body_len ret.actual_length)
      else pure (count_reply u ret.actual_length stats)

  unfoldable pub urb_reply : ScriptedUrb → DriverStats → Bytes → UrbOp → Io S DriverStats
  unfolding header_slice check_ret
  urb_reply u stats raw ret_submit = do
    header ← header_slice raw
    ret ← lift (map_err urb (RetSubmit.parse header))
    check_ret u stats ((length raw - urb_header_len) % 2 ^ 32) ret
  urb_reply u stats raw cmd_submit = raise (unexpected_op cmd_submit)
  urb_reply u stats raw cmd_unlink = raise (unexpected_op cmd_unlink)
  urb_reply u stats raw ret_unlink = raise (unexpected_op ret_unlink)

  -- The body of the loop: one URB, and its reply.
  unfoldable pub issue_urb : ScriptedUrb → DriverStats → Io S DriverStats
  unfolding usbip_payload urb_reply
  issue_urb u stats = do
    send_envelope st usbip (
        Frame.encode
          (record { import_id = import_id; raw = CmdSubmit.encode (urb_cmd u) ++ u.out_body }))
    env ← recv_envelope st
    payload ← usbip_payload env
    f ← lift (map_err usbip_frame (Frame.parse payload))
    if not (f.import_id == import_id)
        then raise (wrong_import_id f.import_id import_id)
        else do op ← lift (ok_or (peek_urb_op f.raw) unknown_urb_op); urb_reply u stats f.raw op

  unfoldable pub unlink_reply : DriverStats → Bytes → UrbOp → Io S DriverStats
  unfolding header_slice
  unlink_reply stats raw ret_unlink = do
    header ← header_slice raw
    r ← lift (map_err urb (RetUnlink.parse header))
    if int_eq r.status (pos 0) then pure (count_last stats) else raise (unlink_failed r.status)
  unlink_reply stats raw ret_submit = raise (unexpected_op ret_submit)
  unlink_reply stats raw cmd_submit = raise (unexpected_op cmd_submit)
  unlink_reply stats raw cmd_unlink = raise (unexpected_op cmd_unlink)

  -- The reply's import id is not looked at here.
  unfoldable pub issue_unlink : DriverStats → Io S DriverStats
  unfolding usbip_payload unlink_reply
  issue_unlink stats = do
    send_envelope st usbip
        (Frame.encode (record { import_id = import_id; raw = CmdUnlink.encode last_unlink }))
    env ← recv_envelope st
    payload ← usbip_payload env
    f ← lift (map_err usbip_frame (Frame.parse payload))
    op ← lift (ok_or (peek_urb_op f.raw) unknown_urb_op)
    unlink_reply stats f.raw op

  -- The `for` over the script, and the unlink behind it.
  unfoldable pub run_urbs : List ScriptedUrb → DriverStats → Io S DriverStats
  unfolding issue_urb issue_unlink
  run_urbs [] stats = issue_unlink stats
  run_urbs (u ∷ us) stats = do stats' ← issue_urb u stats; run_urbs us stats'

  unfoldable pub run_script : List ScriptedUrb → Io S DriverStats
  unfolding run_urbs
  run_script script = run_urbs script no_urbs
