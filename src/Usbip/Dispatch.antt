-- ===== src/Usbip/Dispatch.antt =====
-- Which parser takes which header: the command field, as `peek_urb_op` sees it, decides.
use zerowire.Prelude.{ℕ, ◌≡◌, ◌≤◌, ◌↔◌, le→ltb_false, refl, arith, some, ◌++◌, length, IsOk}
use zerowire.Bytes.{Bytes, u32_from_be}
use zerowire.Usbip.{
  UrbOp, cmd_submit, cmd_unlink, ret_submit, ret_unlink, urb_header_len, urb_op_to_u32,
  urb_op_from_u32, peek_urb_op,
}
use zerowire.Usbip.CmdSubmit
use zerowire.Usbip.CmdSubmit.{CmdSubmit}
use zerowire.Usbip.RetSubmit
use zerowire.Usbip.RetSubmit.{RetSubmit}
use zerowire.Usbip.CmdUnlink
use zerowire.Usbip.CmdUnlink.{CmdUnlink}
use zerowire.Usbip.RetUnlink
use zerowire.Usbip.RetUnlink.{RetUnlink}

pub urb_op_from_u32-to_u32 : (op : UrbOp) → urb_op_from_u32 (urb_op_to_u32 op) ≡ some op
unfolding urb_op_from_u32 urb_op_to_u32
urb_op_from_u32-to_u32 cmd_submit = refl
urb_op_from_u32-to_u32 cmd_unlink = refl
urb_op_from_u32-to_u32 ret_submit = refl
urb_op_from_u32-to_u32 ret_unlink = refl

pub urb_op_to_u32-from_u32 :
    (v : ℕ) (op : UrbOp) → urb_op_from_u32 v ≡ some op → urb_op_to_u32 op ≡ v
unfolding urb_op_from_u32 urb_op_to_u32
urb_op_to_u32-from_u32 v op h = ground arith

pub peek-cmd_submit :
    (c : CmdSubmit) (rest : Bytes) → peek_urb_op (CmdSubmit.encode c ++ rest) ≡ some cmd_submit
unfolding peek_urb_op urb_op_from_u32 CmdSubmit.encode u32_from_be
peek-cmd_submit c rest = ground arith

pub peek-ret_submit :
    (r : RetSubmit) (rest : Bytes) → peek_urb_op (RetSubmit.encode r ++ rest) ≡ some ret_submit
unfolding peek_urb_op urb_op_from_u32 RetSubmit.encode u32_from_be
peek-ret_submit r rest = ground arith

pub peek-cmd_unlink :
    (u : CmdUnlink) (rest : Bytes) → peek_urb_op (CmdUnlink.encode u ++ rest) ≡ some cmd_unlink
unfolding peek_urb_op urb_op_from_u32 CmdUnlink.encode u32_from_be
peek-cmd_unlink u rest = ground arith

pub peek-ret_unlink :
    (r : RetUnlink) (rest : Bytes) → peek_urb_op (RetUnlink.encode r ++ rest) ≡ some ret_unlink
unfolding peek_urb_op urb_op_from_u32 RetUnlink.encode u32_from_be
peek-ret_unlink r rest = ground arith

-- On a buffer that holds a header, each of the four parsers succeeds exactly if `peek_urb_op`
-- answers with its operation.
pub peek_selects_parser :
    (hdr : Bytes)
    → urb_header_len ≤ length hdr
    → ((peek_urb_op hdr ≡ some cmd_submit) ↔ IsOk (CmdSubmit.parse hdr))
      × ((peek_urb_op hdr ≡ some cmd_unlink) ↔ IsOk (CmdUnlink.parse hdr))
      × ((peek_urb_op hdr ≡ some ret_submit) ↔ IsOk (RetSubmit.parse hdr))
      × ((peek_urb_op hdr ≡ some ret_unlink) ↔ IsOk (RetUnlink.parse hdr))
unfolding peek_urb_op urb_op_from_u32 CmdSubmit.parse CmdUnlink.parse RetSubmit.parse
    RetUnlink.parse
peek_selects_parser hdr h = (
  ground (arith, le→ltb_false (length hdr) 4 (omega arith)),
  ground (arith, le→ltb_false (length hdr) 4 (omega arith)),
  ground (arith, le→ltb_false (length hdr) 4 (omega arith)),
  ground (arith, le→ltb_false (length hdr) 4 (omega arith)),
)
