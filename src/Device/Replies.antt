-- ===== src/Device/Replies.antt =====
-- What a reply of the fake device looks like, on every branch of the dispatch.
use zerowire.Prelude.{
  ℕ, zero, suc, ◌+◌, ◌%◌, ◌^◌, ◌<◌, ◌≡◌, ◌≢◌, ◌⊎◌, inl, inr, refl, arith, pos, IsI32, Bool-cases,
  ne→==_false, get_or, true, Option, none, some, [], ◌==◌, length, min, length-take,
}
use zerowire.Bytes.{Bytes, at, IsU32, u16_from_le}
use zerowire.Usbip.{EndpointType, control_ep, isochronous, bulk, interrupt}
use zerowire.Usbip.CmdSubmit.{CmdSubmit}
use zerowire.Bits.{bit_and-0xff}
use zerowire.Device.{
  FakeDevice, FakeEndpoint, SubmitResult, descriptor_reply, failed, enodev, eopnotsupp, is_in,
  endpoint, execute_control, execute_bulk, execute_on, bulk_pattern, endpoint_address,
  dispatch_submit,
}

pub length-bulk_pattern : (k n : ℕ) → length (bulk_pattern k n) ≡ k
unfolding bulk_pattern
length-bulk_pattern zero n = refl
length-bulk_pattern (suc k) n = omega (arith, length-bulk_pattern k (n + 1))

-- A reply in order: the length that is announced is that of the data, or there is no data; and a
-- failure announces nothing and has no data.
abbrev pub IsInOrder : SubmitResult → Type 0
IsInOrder r =
    ((r.actual_length ≡ length r.body) ⊎ (r.body ≡ []))
    × (r.status ≢ pos 0 → (r.actual_length ≡ 0) × (r.body ≡ []))

descriptor_reply-length :
    (buf : Bytes) (w : ℕ)
    → length buf < 2 ^ 32
    → (descriptor_reply buf w).actual_length ≡ length (descriptor_reply buf w).body
descriptor_reply-length buf w h = omega (arith, length-take (min w (length buf)) buf)

execute_control-IsInOrder :
    (device : FakeDevice) (cmd : CmdSubmit) (out_body : Bytes)
    → length device.device_descriptor < 2 ^ 32
    → length device.config_descriptor < 2 ^ 32
    → IsInOrder (execute_control device cmd out_body)
unfolding execute_control
execute_control-IsInOrder device cmd out_body h k =
    let w : ℕ = u16_from_le (at cmd.setup 6) (at cmd.setup 7) in
    ground (
      arith,
      descriptor_reply-length device.device_descriptor w h,
      descriptor_reply-length device.config_descriptor w k,
    )

execute_bulk-IsInOrder :
    (cmd : CmdSubmit) (ep : FakeEndpoint) (out_body : Bytes)
    → IsU32 cmd.transfer_buffer_length
    → IsInOrder (execute_bulk cmd ep out_body)
unfolding execute_bulk
execute_bulk-IsInOrder cmd ep out_body h =
    ground (arith, length-bulk_pattern cmd.transfer_buffer_length cmd.seqnum)

-- A property of every way in which a URB is answered is a property of the dispatch.
module _ {ℓ} (P : SubmitResult → Type ℓ) (device : FakeDevice) (cmd : CmdSubmit) (out_body : Bytes)
    (control : P (execute_control device cmd out_body))
    (bulk_or_interrupt : (ep : FakeEndpoint) → P (execute_bulk cmd ep out_body))
    (no_endpoint : P (failed enodev)) (iso : P (failed eopnotsupp)) where
  by_type : (ep : FakeEndpoint) (ty : EndpointType) → P (execute_on device cmd out_body ep ty)
  by_type ep bulk = bulk_or_interrupt ep
  by_type ep interrupt = bulk_or_interrupt ep
  by_type ep isochronous = iso
  by_type ep control_ep = control

  abbrev by_endpoint : Option FakeEndpoint → SubmitResult
  by_endpoint o = elim o [
    | none ↦ failed enodev
    | some ep ↦ execute_on device cmd out_body ep ep.xfer_type
  ]

  by_endpoint_lem : (o : Option FakeEndpoint) → P (by_endpoint o)
  by_endpoint_lem none = no_endpoint
  by_endpoint_lem (some ep) = by_type ep ep.xfer_type

  pub dispatch_cases : P (dispatch_submit device cmd out_body)
  unfolding dispatch_submit
  dispatch_cases = elim (Bool-cases (cmd.ep == 0)) [
    | inl zero_ep ↦ rw zero_ep control
    | inr other ↦ rw other (by_endpoint_lem (endpoint device (endpoint_address cmd)))
  ]

-- Every reply is in order, for descriptors and a buffer length that fit 32 bits.
pub dispatch_submit-IsInOrder :
    (device : FakeDevice) (cmd : CmdSubmit) (out_body : Bytes)
    → length device.device_descriptor < 2 ^ 32
    → length device.config_descriptor < 2 ^ 32
    → IsU32 cmd.transfer_buffer_length
    → IsInOrder (dispatch_submit device cmd out_body)
dispatch_submit-IsInOrder device cmd out_body h k b =
    dispatch_cases IsInOrder device cmd out_body (execute_control-IsInOrder device cmd out_body h k)
      (λ ep. execute_bulk-IsInOrder cmd ep out_body b) (inr refl, λ _. (refl, refl))
      (inr refl, λ _. (refl, refl))

-- The data of a bulk or interrupt IN transfer, byte by byte.
pub get_or-bulk_pattern : (k n i : ℕ) → i < k → get_or (bulk_pattern k n) i 0 ≡ (n + i) % 256
unfolding bulk_pattern
get_or-bulk_pattern zero n i h = absurd (omega arith)
get_or-bulk_pattern (suc k) n zero h = omega (arith, bit_and-0xff n)
get_or-bulk_pattern (suc k) n (suc i) h =
    omega (arith, get_or-bulk_pattern k (n + 1) i (omega arith))

-- A bulk or interrupt IN transfer on an endpoint that the device has returns as many bytes as were
-- asked for, and byte `i` is `seqnum + i` modulo 256.
pub bulk_in_reply :
    (device : FakeDevice) (cmd : CmdSubmit) (out_body : Bytes) (ep : FakeEndpoint)
    → cmd.ep ≢ 0
    → endpoint device (endpoint_address cmd) ≡ some ep
    → (ep.xfer_type ≡ bulk) ⊎ (ep.xfer_type ≡ interrupt)
    → is_in ep ≡ true
    → IsU32 cmd.transfer_buffer_length
    → let r = dispatch_submit device cmd out_body in
      (r.status ≡ pos 0)
      × (r.actual_length ≡ cmd.transfer_buffer_length)
      × (length r.body ≡ cmd.transfer_buffer_length)
      × ((i : ℕ) → i < cmd.transfer_buffer_length → get_or r.body i 0 ≡ (cmd.seqnum + i) % 256)
unfolding dispatch_submit execute_bulk
bulk_in_reply device cmd out_body ep not_control found kind into fits =
    let reply : execute_on device cmd out_body ep ep.xfer_type ≡ execute_bulk cmd ep out_body =
      ground arith in
    rw (ne→==_false cmd.ep 0 not_control, found, reply, into)
      (
        refl,
        omega arith,
        length-bulk_pattern cmd.transfer_buffer_length cmd.seqnum,
        get_or-bulk_pattern cmd.transfer_buffer_length cmd.seqnum,
      )

-- The status and the length of a reply fit the fields of a `RET_SUBMIT`.
abbrev pub IsRepresentable : SubmitResult → Type 0
IsRepresentable r = IsI32 r.status × IsU32 r.actual_length

execute_control-IsRepresentable :
    (device : FakeDevice) (cmd : CmdSubmit) (out_body : Bytes)
    → IsRepresentable (execute_control device cmd out_body)
unfolding execute_control
execute_control-IsRepresentable device cmd out_body = ground arith

execute_bulk-IsRepresentable :
    (cmd : CmdSubmit) (ep : FakeEndpoint) (out_body : Bytes)
    → IsRepresentable (execute_bulk cmd ep out_body)
unfolding execute_bulk
execute_bulk-IsRepresentable cmd ep out_body = ground arith

pub dispatch_submit-IsRepresentable :
    (device : FakeDevice) (cmd : CmdSubmit) (out_body : Bytes)
    → IsRepresentable (dispatch_submit device cmd out_body)
dispatch_submit-IsRepresentable device cmd out_body =
    dispatch_cases IsRepresentable device cmd out_body
      (execute_control-IsRepresentable device cmd out_body)
      (λ ep. execute_bulk-IsRepresentable cmd ep out_body) (omega arith) (omega arith)
