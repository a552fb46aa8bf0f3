-- ===== src/Hid.antt =====
-- protocol/src/hid.rs: the HID fast lane's frames, and the body of a `BindAck`.
pub mod Frame
pub mod BindAck
use zerowire.Prelude.{
  ℕ, ◌+◌, ◌%◌, ◌^◌, Option, none, some, List, [], ◌∷◌, ◌++◌, ltb, ◌==◌, if◌then◌else◌, length, take,
  drop, Result, ok, err, ◌>>=◌, ok_or, String,
}
use zerowire.Bytes.{Bytes, at, u16_to_be, u16_from_be}
use zerowire.Json.{Json}

abbrev pub hid_header_len : ℕ
hid_header_len = 4

pub data DeviceKind : Type 0 where
  mouse keyboard gamepad other : DeviceKind

pub record BindRequest : Type 0 where
  pub busid : String
  pub want : String

pub record BindAckMeta : Type 0 where
  pub busid : String
  pub kind : DeviceKind
  pub vendor_id : ℕ
  pub product_id : ℕ
  pub name : String

pub data HidOp : Type 0 where
  bind bind_ack report_in report_out report_feature unbind : HidOp

-- `op as u8`
unfoldable pub op_to_u8 : HidOp → ℕ
op_to_u8 bind = 0x01
op_to_u8 bind_ack = 0x02
op_to_u8 report_in = 0x10
op_to_u8 report_out = 0x11
op_to_u8 report_feature = 0x12
op_to_u8 unbind = 0x20

unfoldable pub op_from_u8 : ℕ → Option HidOp
op_from_u8 v =
    if v == 0x01
    then some bind
    else if v == 0x02
    then some bind_ack
    else if v == 0x10
    then some report_in
    else if v == 0x11
    then some report_out
    else if v == 0x12
    then some report_feature
    else if v == 0x20
    then some unbind
    else none

pub data HidError : Type 0 where
  short : ℕ → HidError
  unknown_op : ℕ → HidError
  bad_meta : HidError

pub record HidFrame : Type 0 where
  pub op : HidOp
  pub bind_id : ℕ
  pub seq : ℕ
  pub body : Bytes

unfoldable pub encode_into : HidFrame → Bytes → Bytes
encode_into f out = ((out ++ (op_to_u8 f.op ∷ f.bind_id ∷ [])) ++ u16_to_be f.seq) ++ f.body

unfoldable pub encode : HidFrame → Bytes
unfolding encode_into
encode f = encode_into f []

unfoldable pub parse : Bytes → Result HidError HidFrame
parse payload = if ltb (length payload) hid_header_len then err (short (length payload)) else do
  op ← ok_or (op_from_u8 (at payload 0)) (unknown_op (at payload 0))
  ok (record {
    op = op;
    bind_id = at payload 1;
    seq = u16_from_be (at payload 2) (at payload 3);
    body = drop hid_header_len payload;
  })

-- `meta_json.len() as u16` wraps.
unfoldable pub encode_bind_ack_body : Json BindAckMeta → BindAckMeta → Bytes → Bytes
encode_bind_ack_body json meta report_descriptor =
    let meta_json = json.to_vec meta in
    u16_to_be (length meta_json % 2 ^ 16) ++ (meta_json ++ report_descriptor)

unfoldable pub parse_bind_ack_body :
    Json BindAckMeta → Bytes → Result HidError (BindAckMeta × Bytes)
parse_bind_ack_body json body =
    let meta_len = u16_from_be (at body 0) (at body 1) in
    if ltb (length body) 2
    then err (short (length body))
    else if ltb (length body) (2 + meta_len)
    then err (short (length body))
    else do
      meta ← ok_or (json.from_slice (take meta_len (drop 2 body))) bad_meta
      ok (meta, drop (2 + meta_len) body)
