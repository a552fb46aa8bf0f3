-- ===== src/Usbip/CmdUnlink.antt =====
-- `CmdUnlink` of protocol/src/usbip.rs: the request to cancel a submitted URB.
use zerowire.Prelude.{ℕ, ◌≡◌, refl, arith, not, ltb, ◌==◌, if◌then◌else◌, length, Result, ok, err}
use zerowire.Bytes.{Bytes, IsU32, u32_to_be, u32_from_be}
use zerowire.Usbip.{
  UrbError, short, unknown_command, cmd_unlink, urb_header_len, urb_op_to_u32, read_u32, write_u32,
  zero_header,
}

pub record CmdUnlink : Type 0 where
  pub seqnum : ℕ
  pub devid : ℕ
  pub direction : ℕ
  pub ep : ℕ
  pub unlink_seqnum : ℕ

unfoldable pub parse : Bytes → Result UrbError CmdUnlink
unfolding read_u32 urb_op_to_u32
parse hdr =
    if ltb (length hdr) urb_header_len
    then err (short (length hdr))
    else let command = read_u32 hdr 0 in
      if not (command == urb_op_to_u32 cmd_unlink)
      then err (unknown_command command)
      else ok (record {
        seqnum = read_u32 hdr 4;
        devid = read_u32 hdr 8;
        direction = read_u32 hdr 12;
        ep = read_u32 hdr 16;
        unlink_seqnum = read_u32 hdr 20;
      })

unfoldable pub encode : CmdUnlink → Bytes
unfolding write_u32 u32_to_be urb_op_to_u32
encode r =
    let out = write_u32 zero_header 0 (urb_op_to_u32 cmd_unlink) in
    let out = write_u32 out 4 r.seqnum in
    let out = write_u32 out 8 r.devid in
    let out = write_u32 out 12 r.direction in
    let out = write_u32 out 16 r.ep in write_u32 out 20 r.unlink_seqnum

-- The ranges that the Rust types give.
pub record IsCmdUnlink (r : CmdUnlink) : Type 0 where
  pub seqnum : IsU32 r.seqnum
  pub devid : IsU32 r.devid
  pub direction : IsU32 r.direction
  pub ep : IsU32 r.ep
  pub unlink_seqnum : IsU32 r.unlink_seqnum

pub length-encode : (r : CmdUnlink) → length (encode r) ≡ urb_header_len
unfolding encode
length-encode r = refl

-- A header whose fields fit 32 bits is read back from its encoding.
pub parse-encode_cmd_unlink : (r : CmdUnlink) → IsCmdUnlink r → parse (encode r) ≡ ok r
unfolding parse encode u32_from_be
parse-encode_cmd_unlink r v = ground arith
