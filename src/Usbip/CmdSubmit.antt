-- ===== src/Usbip/CmdSubmit.antt =====
-- `CmdSubmit` of protocol/src/usbip.rs: the header of a submitted URB.
use zerowire.Prelude.{
  ℕ, ◌≡◌, arith, Bool, not, ltb, ◌==◌, if◌then◌else◌, length, take, drop, Result, ok, err, take_all,
  append-nil,
}
use zerowire.Bytes.{Bytes, IsU32, u32_to_be, u32_from_be}
use zerowire.Usbip.{
  UrbError, short, unknown_command, cmd_submit, urb_header_len, urb_op_to_u32, read_u32, write_u32,
  copy_from_slice, zero_header,
}

pub record CmdSubmit : Type 0 where
  pub seqnum : ℕ
  pub devid : ℕ
  pub direction : ℕ
  pub ep : ℕ
  pub transfer_flags : ℕ
  pub transfer_buffer_length : ℕ
  pub start_frame : ℕ
  pub number_of_packets : ℕ
  pub interval : ℕ
  pub setup : Bytes

unfoldable pub parse : Bytes → Result UrbError CmdSubmit
unfolding read_u32 urb_op_to_u32
parse hdr =
    if ltb (length hdr) urb_header_len
    then err (short (length hdr))
    else let command = read_u32 hdr 0 in
      if not (command == urb_op_to_u32 cmd_submit)
      then err (unknown_command command)
      else ok (record {
        seqnum = read_u32 hdr 4;
        devid = read_u32 hdr 8;
        direction = read_u32 hdr 12;
        ep = read_u32 hdr 16;
        transfer_flags = read_u32 hdr 20;
        transfer_buffer_length = read_u32 hdr 24;
        start_frame = read_u32 hdr 28;
        number_of_packets = read_u32 hdr 32;
        interval = read_u32 hdr 36;
        setup = take 8 (drop 40 hdr);
      })

unfoldable pub encode : CmdSubmit → Bytes
unfolding write_u32 copy_from_slice u32_to_be urb_op_to_u32
encode c =
    let out = write_u32 zero_header 0 (urb_op_to_u32 cmd_submit) in
    let out = write_u32 out 4 c.seqnum in
    let out = write_u32 out 8 c.devid in
    let out = write_u32 out 12 c.direction in
    let out = write_u32 out 16 c.ep in
    let out = write_u32 out 20 c.transfer_flags in
    let out = write_u32 out 24 c.transfer_buffer_length in
    let out = write_u32 out 28 c.start_frame in
    let out = write_u32 out 32 c.number_of_packets in
    let out = write_u32 out 36 c.interval in copy_from_slice out 40 c.setup

unfoldable pub is_control : CmdSubmit → Bool
is_control c = c.ep == 0

-- The widths that the Rust types give: nine `u32` and `[u8; 8]`.
pub record IsCmdSubmit (c : CmdSubmit) : Type 0 where
  pub seqnum : IsU32 c.seqnum
  pub devid : IsU32 c.devid
  pub direction : IsU32 c.direction
  pub ep : IsU32 c.ep
  pub transfer_flags : IsU32 c.transfer_flags
  pub transfer_buffer_length : IsU32 c.transfer_buffer_length
  pub start_frame : IsU32 c.start_frame
  pub number_of_packets : IsU32 c.number_of_packets
  pub interval : IsU32 c.interval
  pub setup_len : length c.setup ≡ 8

pub length-encode : (c : CmdSubmit) → length c.setup ≡ 8 → length (encode c) ≡ urb_header_len
unfolding encode
length-encode c h = rw (h, append-nil, h)

-- A header whose fields fit 32 bits, with eight setup bytes, is read back from its encoding.
pub parse-encode_cmd_submit : (c : CmdSubmit) → IsCmdSubmit c → parse (encode c) ≡ ok c
unfolding parse encode u32_from_be
parse-encode_cmd_submit c v =
    rw (v.setup_len, append-nil, v.setup_len, take_all c.setup 8 (omega arith)) (ground arith)
