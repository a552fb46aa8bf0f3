-- ===== src/Envelope.antt =====
-- protocol/src/envelope.rs: the frame that carries every byte after the handshake. A borrowed
-- payload is the list of its bytes, and `&mut Vec<u8>` is the list that comes in and goes out.
pub mod RoundTrip
pub mod Incremental
use zerowire.Prelude.{
  ℕ, ◌+◌, ◌-◌, ◌%◌, ◌^◌, Bool, not, ◌&&◌, Option, none, some, List, [], ◌∷◌, ◌++◌, ltb, ◌==◌,
  if◌then◌else◌, length, take, drop, Result, ok, err, ◌>>=◌,
}
use zerowire.Bytes.{Bytes, at, u32_to_be, u32_from_be}

-- `MAGIC`, ASCII Z and W
abbrev pub magic_0 : ℕ
magic_0 = b'Z'

abbrev pub magic_1 : ℕ
magic_1 = b'W'

abbrev pub protocol_version : ℕ
protocol_version = 1

abbrev pub header_len : ℕ
header_len = 8

abbrev pub max_payload : ℕ
max_payload = 1048576

pub data Channel : Type 0 where
  control usbip hid keepalive : Channel

-- `channel as u8`
unfoldable pub to_u8 : Channel → ℕ
to_u8 control = 0x01
to_u8 usbip = 0x02
to_u8 hid = 0x03
to_u8 keepalive = 0x7f

pub data EnvelopeError : Type 0 where
  short : ℕ → EnvelopeError
  bad_magic : ℕ → ℕ → EnvelopeError
  bad_version : ℕ → EnvelopeError
  unknown_channel : ℕ → EnvelopeError
  too_large : ℕ → EnvelopeError

-- `Channel::from_u8`
unfoldable pub from_u8 : ℕ → Result EnvelopeError Channel
from_u8 v =
    if v == 0x01
    then ok control
    else if v == 0x02
    then ok usbip
    else if v == 0x03
    then ok hid
    else if v == 0x7f
    then ok keepalive
    else err (unknown_channel v)

pub record Envelope : Type 0 where
  pub channel : Channel
  pub payload : Bytes

-- The first eight bytes that `encode_into` appends, for a payload of `len` bytes.
unfoldable pub header : Channel → ℕ → Bytes
header c len = magic_0 ∷ magic_1 ∷ protocol_version ∷ to_u8 c ∷ u32_to_be (len % 2 ^ 32)

-- The new `out`, and the number of bytes written. `payload.len() as u32` wraps.
unfoldable pub encode_into : Envelope → Bytes → Result EnvelopeError (Bytes × ℕ)
unfolding header
encode_into env out =
    if ltb max_payload (length env.payload)
    then err (too_large (length env.payload))
    else let out' = out ++ (header env.channel (length env.payload) ++ env.payload) in
      ok (out', length out' - length out)

unfoldable pub encode : Envelope → Result EnvelopeError Bytes
unfolding encode_into
encode env = do (buf, _) ← encode_into env []; ok buf

-- `ok none` is `Ok(None)`: the buffer does not hold a full frame yet.
unfoldable pub parse : Bytes → Result EnvelopeError (Option (Envelope × ℕ))
parse buf =
    if ltb (length buf) header_len
    then ok none
    else if not (at buf 0 == magic_0 && at buf 1 == magic_1)
    then err (bad_magic (at buf 0) (at buf 1))
    else if not (at buf 2 == protocol_version)
    then err (bad_version (at buf 2))
    else do
      channel ← from_u8 (at buf 3)
      let len = u32_from_be (at buf 4) (at buf 5) (at buf 6) (at buf 7)
      let total = header_len + len
      if ltb max_payload len
          then err (too_large len)
          else if ltb (length buf) total
          then ok none
          else ok (
              some (
                record {
                  channel = channel;
                  payload = take (total - header_len) (drop header_len buf);
                },
                total,
              ))
