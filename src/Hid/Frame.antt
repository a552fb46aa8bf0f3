-- ===== src/Hid/Frame.antt =====
-- HID frames: what `encode` writes `parse` reads back, and the reverse.
use zerowire.Prelude.{length, ◌+◌, ℕ, ◌≡◌, refl, arith, some, ◌∷◌, ok}
use zerowire.Bytes.{Bytes, AllBytes, IsU16, u16_to_be, u16_from_be-to_be, u16_to_be-from_be}
use zerowire.Hid.{
  HidOp, bind, bind_ack, report_in, report_out, report_feature, unbind, HidFrame, op_to_u8,
  op_from_u8, encode, parse,
}

pub op_from_u8-to_u8 : (op : HidOp) → op_from_u8 (op_to_u8 op) ≡ some op
unfolding op_from_u8 op_to_u8
op_from_u8-to_u8 bind = refl
op_from_u8-to_u8 bind_ack = refl
op_from_u8-to_u8 report_in = refl
op_from_u8-to_u8 report_out = refl
op_from_u8-to_u8 report_feature = refl
op_from_u8-to_u8 unbind = refl

op_to_u8-from_u8 : (v : ℕ) (op : HidOp) → op_from_u8 v ≡ some op → op_to_u8 op ≡ v
unfolding op_from_u8 op_to_u8
op_to_u8-from_u8 v op h = ground arith

pub length-encode_hid : (f : HidFrame) → length (encode f) ≡ 4 + length f.body
unfolding encode u16_to_be
length-encode_hid f = omega arith

-- A frame whose sequence number fits 16 bits is read back from its encoding.
pub parse-encode_hid : (f : HidFrame) → IsU16 f.seq → parse (encode f) ≡ ok f
unfolding parse encode u16_to_be
parse-encode_hid f h = ground (arith, op_from_u8-to_u8 f.op, u16_from_be-to_be f.seq)

-- A payload of bytes that parses is the encoding of the frame that it parses to.
pub encode-parse_hid :
    (payload : Bytes) (f : HidFrame) → AllBytes payload → parse payload ≡ ok f → encode f ≡ payload
unfolding parse encode
encode-parse_hid (a ∷ b ∷ c ∷ d ∷ body) f bytes h =
    ground (arith, op_to_u8-from_u8 a f.op, u16_to_be-from_be c d)
encode-parse_hid _ f bytes h = ground arith
