-- ===== src/Sender.antt =====
-- What the senders of desktop-linux/src/bin have in common: the handshake, as it is answered, up to
-- the check of what the receiver attaches to.
pub mod Answered
use zerowire.Prelude.{ℕ, Bool, not, List, [], ◌∷◌, String, str_eq, if◌then◌else◌, Result, ok, err}
use zerowire.Json.{Json}
use zerowire.Control.{ControlMessage, DeviceSummary, hello, list_devices, device_list, attach}
use zerowire.Io.{
  Io, Failure, busid_not_offered, mode_not_offered, unexpected_message, pure, raise, lift, continue,
  ◌>>=◌, ◌>>◌,
}
use zerowire.Wire.{Stream, recv_control, send_control}

-- What is asked for has to be what is offered: the bus id, and then the mode.
unfoldable pub check_offer : String → String → String → String → Result Failure (Unit {0})
check_offer offered_busid offered_mode busid mode =
    if not (str_eq busid offered_busid)
    then err (busid_not_offered busid)
    else if not (str_eq mode offered_mode)
    then err (mode_not_offered mode)
    else ok tt

module _ {S : Type 0} (st : Stream S) (control_json : Json ControlMessage) where
  unfoldable pub expect_hello : ControlMessage → Io S (Unit {0})
  expect_hello (hello version client supports) = pure tt
  expect_hello msg = raise (unexpected_message msg)

  unfoldable pub expect_list_devices : ControlMessage → Io S (Unit {0})
  expect_list_devices list_devices = pure tt
  expect_list_devices msg = raise (unexpected_message msg)

  unfoldable pub expect_attach : String → String → ControlMessage → Io S (Unit {0})
  unfolding check_offer
  expect_attach offered_busid offered_mode (attach busid mode) =
      lift (check_offer offered_busid offered_mode busid mode)
  expect_attach offered_busid offered_mode msg = raise (unexpected_message msg)

  -- HELLO, LIST_DEVICES and ATTACH, as the sender answers them: what it says of itself, the device
  -- that it offers, and the mode.
  unfoldable pub answer_handshake : ControlMessage → DeviceSummary → String → Io S (Unit {0})
  unfolding expect_hello expect_list_devices expect_attach
  answer_handshake ack device mode = do
    greeting ← recv_control st control_json
    expect_hello greeting
    send_control st control_json ack
    request ← recv_control st control_json
    expect_list_devices request
    send_control st control_json (device_list (device ∷ []))
    attaching ← recv_control st control_json
    expect_attach device.busid mode attaching
