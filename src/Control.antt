-- ===== src/Control.antt =====
-- protocol/src/control.rs: the messages of the control channel. Their JSON form is serde's, a `Json`.
use zerowire.Prelude.{ℕ, Bool, Option, List, String}

pub record DeviceSummary : Type 0 where
  pub busid : String
  pub vendor_id : ℕ
  pub product_id : ℕ
  pub manufacturer : Option String
  pub product : Option String
  pub serial : Option String
  pub device_class : ℕ
  pub device_subclass : ℕ
  pub device_protocol : ℕ
  pub is_hid : Bool

-- `UsbipAttachInfo` of protocol/src/usbip.rs
pub record UsbipAttachInfo : Type 0 where
  pub busid : String
  pub import_id : ℕ
  pub devid : ℕ
  pub speed : ℕ
  pub vendor_id : ℕ
  pub product_id : ℕ
  pub descriptor_hex : Option String

pub data ControlMessage : Type 0 where
  hello : ℕ → String → List String → ControlMessage
  hello_ack : String → String → List String → ControlMessage
  auth : String → ControlMessage
  auth_ok : ControlMessage
  error : String → String → ControlMessage
  list_devices : ControlMessage
  device_list : List DeviceSummary → ControlMessage
  attach : String → String → ControlMessage
  attach_ok : String → ℕ → ControlMessage
  attach_ok_usbip : UsbipAttachInfo → ControlMessage
  attach_denied : String → String → ControlMessage
