-- ===== src/Device.antt =====
-- The fake USB device of desktop-linux/src/urb_pump.rs, and what it answers to one submitted URB.
-- Errno values are negated, as on the wire.
pub mod Replies
use Prim.Native.Nat.{bit_and, bit_or}
use zerowire.Prelude.{
  ℕ, zero, suc, ◌+◌, ◌*◌, ◌/◌, ◌%◌, ◌^◌, ℤ, pos, negsuc, Bool, true, false, not, ◌&&◌, Option, none,
  some, List, [], ◌∷◌, ◌++◌, ltb, ◌==◌, if◌then◌else◌, length, take, min,
}
use zerowire.Bytes.{Bytes, at, u16_to_le, u16_from_le}
use zerowire.Usbip.{EndpointType, control_ep, isochronous, bulk, interrupt, urb_dir_in}
use zerowire.Usbip.CmdSubmit.{CmdSubmit, is_control}

-- -19
abbrev pub enodev : ℤ
enodev = negsuc 18

-- -95
abbrev pub eopnotsupp : ℤ
eopnotsupp = negsuc 94

pub record FakeEndpoint : Type 0 where
  pub address : ℕ
  pub xfer_type : EndpointType

unfoldable pub is_in : FakeEndpoint → Bool
is_in e = not (bit_and e.address 0x80 == 0)

pub record FakeDevice : Type 0 where
  pub device_descriptor : Bytes
  pub config_descriptor : Bytes
  pub endpoints : List FakeEndpoint

-- `iter().find(|e| e.address == address)`
unfoldable pub find_address : List FakeEndpoint → ℕ → Option FakeEndpoint
find_address [] address = none
find_address (e ∷ es) address = if e.address == address then some e else find_address es address

unfoldable pub endpoint : FakeDevice → ℕ → Option FakeEndpoint
unfolding find_address
endpoint device address = find_address device.endpoints address

pub record SubmitResult : Type 0 where
  pub status : ℤ
  pub actual_length : ℕ
  pub body : Bytes

abbrev pub failed : ℤ → SubmitResult
failed e = record { status = e; actual_length = 0; body = [] }

abbrev pub descriptor_reply : Bytes → ℕ → SubmitResult
descriptor_reply buf w_length =
    let taken = min w_length (length buf) in
    record { status = pos 0; actual_length = taken % 2 ^ 32; body = take taken buf }

unfoldable pub execute_control : FakeDevice → CmdSubmit → Bytes → SubmitResult
execute_control device cmd out_body =
    let bm_request_type = at cmd.setup 0 in
    let b_request = at cmd.setup 1 in
    let w_value = u16_from_le (at cmd.setup 2) (at cmd.setup 3) in
    let w_length = u16_from_le (at cmd.setup 6) (at cmd.setup 7) in
    let is_in = not (bit_and bm_request_type 0x80 == 0) in
    let desc_type = w_value / 256 % 256 in
    if is_in && b_request == 0x06
    then if desc_type == 0x01
      then descriptor_reply device.device_descriptor w_length
      else if desc_type == 0x02
      then descriptor_reply device.config_descriptor w_length
      else failed eopnotsupp
    else if not is_in && cmd.transfer_buffer_length == 0
    then record { status = pos 0; actual_length = 0; body = [] }
    else if not is_in
    then record { status = pos 0; actual_length = length out_body % 2 ^ 32; body = [] }
    else record { status = pos 0; actual_length = 0; body = [] }

-- Byte i of the bulk data is `(seqnum + i) & 0xFF`; the first argument counts the bytes left.
unfoldable pub bulk_pattern : ℕ → ℕ → Bytes
bulk_pattern zero n = []
bulk_pattern (suc k) n = bit_and n 0xff ∷ bulk_pattern k (n + 1)

unfoldable pub execute_bulk : CmdSubmit → FakeEndpoint → Bytes → SubmitResult
unfolding is_in
execute_bulk cmd ep out_body =
    let len = cmd.transfer_buffer_length in
    if is_in ep
    then record { status = pos 0; actual_length = len % 2 ^ 32; body = bulk_pattern len cmd.seqnum }
    else record { status = pos 0; actual_length = length out_body % 2 ^ 32; body = [] }

-- `(((direction == URB_DIR_IN) as u8) << 7) | (ep as u8 & 0x0F)`
unfoldable pub endpoint_address : CmdSubmit → ℕ
endpoint_address cmd =
    bit_or (if cmd.direction == urb_dir_in then 0x80 else 0) (bit_and (cmd.ep % 256) 0x0f)

abbrev execute_on : FakeDevice → CmdSubmit → Bytes → FakeEndpoint → EndpointType → SubmitResult
execute_on device cmd out_body ep bulk = execute_bulk cmd ep out_body
execute_on device cmd out_body ep interrupt = execute_bulk cmd ep out_body
execute_on device cmd out_body ep isochronous = failed eopnotsupp
execute_on device cmd out_body ep control_ep = execute_control device cmd out_body

unfoldable pub dispatch_submit : FakeDevice → CmdSubmit → Bytes → SubmitResult
unfolding is_control endpoint
dispatch_submit device cmd out_body =
    if is_control cmd
    then execute_control device cmd out_body
    else elim (endpoint device (endpoint_address cmd)) [
      | none ↦ failed enodev
      | some ep ↦ execute_on device cmd out_body ep ep.xfer_type
    ]

-- `synth_device_descriptor` of desktop-linux/src/usbip.rs: 18 bytes
unfoldable pub synth_device_descriptor : ℕ → ℕ → ℕ → Bytes
synth_device_descriptor vendor product class =
    0x12
    ∷ 0x01
    ∷ 0x00
    ∷ 0x02
    ∷ class
    ∷ 0x00
    ∷ 0x00
    ∷ 64
    ∷ (u16_to_le vendor ++ (u16_to_le product ++ (0x00 ∷ 0x01 ∷ 0 ∷ 0 ∷ 0 ∷ 1 ∷ [])))

-- 32 bytes: configuration, interface, and one bulk endpoint each way
unfoldable pub synth_config_descriptor : ℕ → ℕ → ℕ → Bytes
synth_config_descriptor class subclass proto =
    0x09 ∷ 0x02 ∷ 0x20 ∷ 0x00 ∷ 0x01 ∷ 0x01 ∷ 0x00 ∷ 0x80 ∷ 0x32 ∷ 0x09 ∷ 0x04 ∷ 0x00 ∷ 0x00 ∷ 0x02
    ∷ class ∷ subclass ∷ proto ∷ 0x00 ∷ 0x07 ∷ 0x05 ∷ 0x81 ∷ 0x02 ∷ 0x40 ∷ 0x00 ∷ 0x00 ∷ 0x07 ∷ 0x05
    ∷ 0x02 ∷ 0x02 ∷ 0x40 ∷ 0x00 ∷ 0x00 ∷ []

unfoldable pub mass_storage : ℕ → ℕ → FakeDevice
unfolding synth_device_descriptor synth_config_descriptor u16_to_le
mass_storage vendor product = record {
  device_descriptor = synth_device_descriptor vendor product 0x08;
  config_descriptor = synth_config_descriptor 0x08 0x06 0x50;
  endpoints =
      record { address = 0x81; xfer_type = bulk }
      ∷ record { address = 0x02; xfer_type = bulk }
      ∷ [];
}
