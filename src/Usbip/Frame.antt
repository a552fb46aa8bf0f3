-- ===== src/Usbip/Frame.antt =====
-- `UsbipFrame` of protocol/src/usbip.rs: one USB/IP packet behind the id of the attached device.
use zerowire.Prelude.{
  ℕ, ◌+◌, ◌≡◌, arith, [], ◌∷◌, ◌++◌, ltb, if◌then◌else◌, length, drop, Result, ok, err,
}
use zerowire.Bytes.{
  Bytes, AllBytes, IsU32, at, u32_to_be, u32_from_be, u32_from_be-to_be, u32_to_be-from_be,
}

pub data UsbipError : Type 0 where
  short : ℕ → UsbipError

pub record UsbipFrame : Type 0 where
  pub import_id : ℕ
  pub raw : Bytes

unfoldable pub parse : Bytes → Result UsbipError UsbipFrame
parse payload =
    if ltb (length payload) 4
    then err (short (length payload))
    else ok (record {
      import_id = u32_from_be (at payload 0) (at payload 1) (at payload 2) (at payload 3);
      raw = drop 4 payload;
    })

unfoldable pub encode_into : UsbipFrame → Bytes → Bytes
encode_into f out = (out ++ u32_to_be f.import_id) ++ f.raw

unfoldable pub encode : UsbipFrame → Bytes
unfolding encode_into
encode f = encode_into f []

pub length-encode : (f : UsbipFrame) → length (encode f) ≡ 4 + length f.raw
unfolding encode u32_to_be
length-encode f = omega arith

-- A frame whose import id fits 32 bits is read back from its encoding.
pub parse-encode_usbip_frame : (f : UsbipFrame) → IsU32 f.import_id → parse (encode f) ≡ ok f
unfolding parse encode u32_to_be
parse-encode_usbip_frame f h = ground (arith, u32_from_be-to_be f.import_id)

-- A payload of bytes that parses is the encoding of the frame that it parses to.
pub encode-parse_usbip_frame :
    (payload : Bytes) (f : UsbipFrame)
    → AllBytes payload
    → parse payload ≡ ok f
    → encode f ≡ payload
unfolding parse encode
encode-parse_usbip_frame (a ∷ b ∷ c ∷ d ∷ raw) f bytes h = ground (arith, u32_to_be-from_be a b c d)
encode-parse_usbip_frame _ f bytes h = ground arith
