-- ===== src/Wire.antt =====
-- Envelopes over a byte stream: desktop-linux/src/tls.rs, whose helpers are those of
-- desktop-linux/src/wire.rs for any `Read + Write`.
pub mod Laws
pub mod Sound
pub mod Settles
pub mod Chain
pub mod Steady
use zerowire.Prelude.{
  ℕ, ◌+◌, Option, none, some, List, [], ◌∷◌, ◌++◌, Result, ok, err, map_err, ok_or,
}
use zerowire.Bytes.{Bytes, at, u32_from_be}
use zerowire.Json.{Json}
use zerowire.Control.{ControlMessage}
use zerowire.Envelope
use zerowire.Envelope.{Channel, Envelope, control, header_len}
use zerowire.Io.{
  Io, Failure, io, envelope, incomplete, wrong_channel, bad_json, lift, pure, raise, ◌>>=◌, ◌>>◌,
}

-- What the helpers use of `std::io`.
pub record Stream (S : Type 0) : Type 0 where
  pub read_exact : ℕ → Io S Bytes
  pub write_all : Bytes → Io S (Unit {0})

module _ {S : Type 0} (st : Stream S) where
  -- `full` is the header and then the payload, which `read_exact` writes over the zeros.
  unfoldable pub recv_envelope : Io S Envelope
  recv_envelope = do
    header ← st.read_exact header_len
    let len = u32_from_be (at header 4) (at header 5) (at header 6) (at header 7)
    payload ← st.read_exact len
    parsed ← lift (map_err envelope (Envelope.parse (header ++ payload)))
    (env, _) ← lift (ok_or parsed incomplete)
    pure env

  unfoldable pub send_envelope : Channel → Bytes → Io S (Unit {0})
  send_envelope channel payload = do
    bytes ←
        lift (map_err envelope (Envelope.encode (record { channel = channel; payload = payload })))
    st.write_all bytes

  module _ (json : Json ControlMessage) where
    unfoldable pub recv_control : Io S ControlMessage
    recv_control = do
      env ← recv_envelope
      elim env.channel [
        | control ↦ lift (ok_or (json.from_slice env.payload) bad_json)
        | other ↦ raise (wrong_channel other)
      ]

    unfoldable pub send_control : ControlMessage → Io S (Unit {0})
    send_control msg = send_envelope control (json.to_vec msg)
