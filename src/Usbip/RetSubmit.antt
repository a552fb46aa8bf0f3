-- ===== src/Usbip/RetSubmit.antt =====
-- `RetSubmit` of protocol/src/usbip.rs: the header of a completed URB.
use zerowire.Prelude.{
  ℕ, ◌≡◌, refl, ap, arith, not, ltb, ◌==◌, if◌then◌else◌, length, Result, ok, err, ℤ, IsI32,
  i32_as_u32, u32_as_i32, i32_as_u32-lt, u32_as_i32-i32_as_u32,
}
use zerowire.Bytes.{Bytes, IsU32, u32_to_be, u32_from_be, u32_from_be-to_be}
use zerowire.Usbip.{
  UrbError, short, unknown_command, ret_submit, urb_header_len, urb_op_to_u32, read_u32, write_u32,
  zero_header,
}

pub record RetSubmit : Type 0 where
  pub seqnum : ℕ
  pub devid : ℕ
  pub direction : ℕ
  pub ep : ℕ
  pub status : ℤ
  pub actual_length : ℕ
  pub start_frame : ℕ
  pub number_of_packets : ℕ
  pub error_count : ℕ

unfoldable pub parse : Bytes → Result UrbError RetSubmit
unfolding read_u32 urb_op_to_u32
parse hdr =
    if ltb (length hdr) urb_header_len
    then err (short (length hdr))
    else let command = read_u32 hdr 0 in
      if not (command == urb_op_to_u32 ret_submit)
      then err (unknown_command command)
      else ok (record {
        seqnum = read_u32 hdr 4;
        devid = read_u32 hdr 8;
        direction = read_u32 hdr 12;
        ep = read_u32 hdr 16;
        status = u32_as_i32 (read_u32 hdr 20);
        actual_length = read_u32 hdr 24;
        start_frame = read_u32 hdr 28;
        number_of_packets = read_u32 hdr 32;
        error_count = read_u32 hdr 36;
      })

unfoldable pub encode : RetSubmit → Bytes
unfolding write_u32 u32_to_be urb_op_to_u32
encode r =
    let out = write_u32 zero_header 0 (urb_op_to_u32 ret_submit) in
    let out = write_u32 out 4 r.seqnum in
    let out = write_u32 out 8 r.devid in
    let out = write_u32 out 12 r.direction in
    let out = write_u32 out 16 r.ep in
    let out = write_u32 out 20 (i32_as_u32 r.status) in
    let out = write_u32 out 24 r.actual_length in
    let out = write_u32 out 28 r.start_frame in
    let out = write_u32 out 32 r.number_of_packets in write_u32 out 36 r.error_count

-- The ranges that the Rust types give.
pub record IsRetSubmit (r : RetSubmit) : Type 0 where
  pub seqnum : IsU32 r.seqnum
  pub devid : IsU32 r.devid
  pub direction : IsU32 r.direction
  pub ep : IsU32 r.ep
  pub status : IsI32 r.status
  pub actual_length : IsU32 r.actual_length
  pub start_frame : IsU32 r.start_frame
  pub number_of_packets : IsU32 r.number_of_packets
  pub error_count : IsU32 r.error_count

pub length-encode : (r : RetSubmit) → length (encode r) ≡ urb_header_len
unfolding encode
length-encode r = refl

-- A header whose fields fit 32 bits, the status as a signed number, is read back from its encoding.
pub parse-encode_ret_submit : (r : RetSubmit) → IsRetSubmit r → parse (encode r) ≡ ok r
unfolding parse encode u32_from_be
parse-encode_ret_submit r v = ground (
  arith,
  i32_as_u32-lt r.status,
  u32_as_i32-i32_as_u32 r.status v.status,
  ap u32_as_i32 (u32_from_be-to_be (i32_as_u32 r.status) (i32_as_u32-lt r.status)),
)
