-- ===== src/Usbip.antt =====
-- protocol/src/usbip.rs: USB/IP packets. The codes and the errors stand here; `Frame` is the
-- import-id prefix, and the four 48-byte URB headers have a module each.
pub mod Frame
pub mod CmdSubmit
pub mod RetSubmit
pub mod CmdUnlink
pub mod RetUnlink
pub mod Dispatch
use zerowire.Prelude.{
  ℕ, ◌+◌, ◌-◌, ◌^◌, ◌*◌, ◌≡◌, refl, Option, none, some, List, [], ◌∷◌, ◌++◌, ltb, ◌==◌,
  if◌then◌else◌, length, take, drop, Result, ok, err,
}
use zerowire.Bytes.{Bytes, at, u32_to_be, u32_from_be}

-- `Op`, the codes of the high-level requests
pub data Op : Type 0 where
  op_req_devlist op_rep_devlist op_req_import op_rep_import : Op

unfoldable pub op_to_u16 : Op → ℕ
op_to_u16 op_req_devlist = 0x8005
op_to_u16 op_rep_devlist = 0x0005
op_to_u16 op_req_import = 0x8003
op_to_u16 op_rep_import = 0x0003

unfoldable pub op_from_u16 : ℕ → Option Op
op_from_u16 v =
    if v == 0x8005
    then some op_req_devlist
    else if v == 0x0005
    then some op_rep_devlist
    else if v == 0x8003
    then some op_req_import
    else if v == 0x0003
    then some op_rep_import
    else none

-- `UrbOp`, the `command` field of a URB header
pub data UrbOp : Type 0 where
  cmd_submit cmd_unlink ret_submit ret_unlink : UrbOp

unfoldable pub urb_op_to_u32 : UrbOp → ℕ
urb_op_to_u32 cmd_submit = 1
urb_op_to_u32 cmd_unlink = 2
urb_op_to_u32 ret_submit = 3
urb_op_to_u32 ret_unlink = 4

unfoldable pub urb_op_from_u32 : ℕ → Option UrbOp
urb_op_from_u32 v =
    if v == 1
    then some cmd_submit
    else if v == 2
    then some cmd_unlink
    else if v == 3
    then some ret_submit
    else if v == 4
    then some ret_unlink
    else none

pub data UnlinkReason : Type 0 where
  unspecified timeout device_unplugged user_revoked sender_shutdown : UnlinkReason

unfoldable pub unlink_reason_to_u8 : UnlinkReason → ℕ
unlink_reason_to_u8 unspecified = 0
unlink_reason_to_u8 timeout = 1
unlink_reason_to_u8 device_unplugged = 2
unlink_reason_to_u8 user_revoked = 3
unlink_reason_to_u8 sender_shutdown = 4

unfoldable pub unlink_reason_from_u8 : ℕ → UnlinkReason
unlink_reason_from_u8 v =
    if v == 1
    then timeout
    else if v == 2
    then device_unplugged
    else if v == 3
    then user_revoked
    else if v == 4
    then sender_shutdown
    else unspecified

pub data UsbipSpeed : Type 0 where
  unknown low full high wireless super super_plus : UsbipSpeed

unfoldable pub speed_to_u8 : UsbipSpeed → ℕ
speed_to_u8 unknown = 0
speed_to_u8 low = 1
speed_to_u8 full = 2
speed_to_u8 high = 3
speed_to_u8 wireless = 4
speed_to_u8 super = 5
speed_to_u8 super_plus = 6

unfoldable pub speed_from_u8 : ℕ → UsbipSpeed
speed_from_u8 v =
    if v == 1
    then low
    else if v == 2
    then full
    else if v == 3
    then high
    else if v == 4
    then wireless
    else if v == 5
    then super
    else if v == 6
    then super_plus
    else unknown

pub data EndpointType : Type 0 where
  control_ep isochronous bulk interrupt : EndpointType

pub data UrbError : Type 0 where
  short : ℕ → UrbError
  unknown_command : ℕ → UrbError

abbrev pub urb_header_len : ℕ
urb_header_len = 48

abbrev pub urb_dir_out : ℕ
urb_dir_out = 0

abbrev pub urb_dir_in : ℕ
urb_dir_in = 1

unfoldable pub read_u32 : Bytes → ℕ → ℕ
read_u32 b off = u32_from_be (at b off) (at b (off + 1)) (at b (off + 2)) (at b (off + 3))

-- `b[off..off + len].copy_from_slice(src)`
unfoldable pub copy_from_slice : Bytes → ℕ → Bytes → Bytes
copy_from_slice b off src = take off b ++ (src ++ drop (off + length src) b)

unfoldable pub write_u32 : Bytes → ℕ → ℕ → Bytes
unfolding copy_from_slice
write_u32 b off v = copy_from_slice b off (u32_to_be v)

-- `[0u8; URB_HEADER_LEN]`
abbrev pub zero_header : Bytes
zero_header =
    0 ∷ 0 ∷ 0 ∷ 0 ∷ 0 ∷ 0 ∷ 0 ∷ 0 ∷ 0 ∷ 0 ∷ 0 ∷ 0 ∷ 0 ∷ 0 ∷ 0 ∷ 0 ∷ 0 ∷ 0 ∷ 0 ∷ 0 ∷ 0 ∷ 0 ∷ 0 ∷ 0
    ∷ 0 ∷ 0 ∷ 0 ∷ 0 ∷ 0 ∷ 0 ∷ 0 ∷ 0 ∷ 0 ∷ 0 ∷ 0 ∷ 0 ∷ 0 ∷ 0 ∷ 0 ∷ 0 ∷ 0 ∷ 0 ∷ 0 ∷ 0 ∷ 0 ∷ 0 ∷ 0 ∷ 0
    ∷ []

unfoldable pub peek_urb_op : Bytes → Option UrbOp
unfolding read_u32
peek_urb_op hdr = if ltb (length hdr) 4 then none else urb_op_from_u32 (read_u32 hdr 0)
