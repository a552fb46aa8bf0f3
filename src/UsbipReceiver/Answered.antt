-- ===== src/UsbipReceiver/Answered.antt =====
-- The handshake of the USB/IP receiver, against a sender that answers it.
use zerowire.Prelude.{
  ◌≤◌, ◌≡◌, refl, Option, none, some, List, [], ◌∷◌, ◌++◌, String, str_eq_iff, ok, length,
}
use zerowire.Bytes.{Bytes}
use zerowire.Json.{Json}
use zerowire.Envelope.{max_payload}
use zerowire.Control.{
  ControlMessage, DeviceSummary, UsbipAttachInfo, hello, hello_ack, list_devices, device_list,
  attach, attach_ok_usbip,
}
use zerowire.Receiver.{find_busid, on_hello_reply, on_list_reply}
use zerowire.Wire.{Stream}
use zerowire.Wire.Laws.{Transport, CanWrite}
use zerowire.Wire.Chain.{
  control_frame, IsSendable, At, Yields, Yields-then, Yields-pure, Yields-lift, Yields-recv_control,
  Yields-send_control,
}
use zerowire.UsbipReceiver.{pick_device, on_usbip_attach_reply, attach_usbip}

abbrev pub usbip_hello : String → ControlMessage
usbip_hello client = hello 1 client ("usbip/1.1.1" ∷ [])

-- The one device on offer is taken if no bus id, or its own, is asked for.
abbrev pub IsAskedFor : Option String → DeviceSummary → Type 0
IsAskedFor none d = Unit {0}
IsAskedFor (some b) d = d.busid ≡ b

pub pick_device_offered :
    (busid : Option String) (d : DeviceSummary)
    → IsAskedFor busid d
    → pick_device (d ∷ []) busid ≡ ok d
unfolding pick_device find_busid
pick_device_offered none d h = refl
pick_device_offered (some b) d h = rw ((str_eq_iff d.busid b).1 h) refl

module _ {S : Type 0} {st : Stream S} (t : Transport st) (can_write : CanWrite st)
    (json : Json ControlMessage) where
  pub attach_usbip_answered :
      (client : String) (busid : Option String) (sender_id name : String) (supports : List String)
      (device : DeviceSummary) (info : UsbipAttachInfo) {rest o : Bytes} {s : S}
      → IsSendable json (hello_ack sender_id name supports)
      → IsSendable json (device_list (device ∷ []))
      → IsSendable json (attach_ok_usbip info)
      → length (json.to_vec (usbip_hello client)) ≤ max_payload
      → length (json.to_vec list_devices) ≤ max_payload
      → length (json.to_vec (attach device.busid "usbip")) ≤ max_payload
      → IsAskedFor busid device
      → At t s
          (control_frame json (hello_ack sender_id name supports)
            ++ (control_frame json (device_list (device ∷ []))
                ++ (control_frame json (attach_ok_usbip info) ++ rest)))
          o
      → Yields t (attach_usbip st json client busid) s info rest (
          ((o ++ control_frame json (usbip_hello client)) ++ control_frame json list_devices)
          ++ control_frame json (attach device.busid "usbip"))
  unfolding attach_usbip on_hello_reply on_list_reply on_usbip_attach_reply
  attach_usbip_answered client busid sender_id name supports device info ok1 ok2 ok3 fit1 fit2 fit3
        asked at0 =
      Yields-then t _ _ (Yields-send_control t json can_write (usbip_hello client) fit1 at0)
        (λ s1 at1.
          Yields-then t _ _ (Yields-recv_control t json (hello_ack sender_id name supports) ok1 at1)
            (λ s2 at2.
              Yields-then t _ _ (Yields-send_control t json can_write list_devices fit2 at2)
                (λ s3 at3.
                  Yields-then t _ _ (Yields-recv_control t json (device_list (device ∷ [])) ok2 at3)
                    (λ s4 at4.
                      Yields-then t _ _ (Yields-lift t (pick_device_offered busid device asked) at4)
                        (λ s5 at5.
                          Yields-then t _ _
                            (Yields-send_control t json can_write (attach device.busid "usbip") fit3
                              at5)
                            (λ s6 at6.
                              Yields-then t _ _
                                (Yields-recv_control t json (attach_ok_usbip info) ok3 at6)
                                (λ s7 at7. Yields-pure t info at7)))))))
