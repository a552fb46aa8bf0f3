-- ===== src/Sender/Answered.antt =====
-- The handshake that a sender goes through with a receiver that attaches to what is offered.
use zerowire.Prelude.{ℕ, ◌≤◌, ◌≡◌, refl, List, [], ◌∷◌, ◌++◌, String, str_eq_iff, ok, length}
use zerowire.Bytes.{Bytes}
use zerowire.Json.{Json}
use zerowire.Envelope.{max_payload}
use zerowire.Control.{ControlMessage, DeviceSummary, hello, list_devices, device_list, attach}
use zerowire.Wire.{Stream}
use zerowire.Wire.Laws.{Transport, CanWrite}
use zerowire.Wire.Chain.{
  control_frame, IsSendable, At, Yields, Yields-then, Yields-lift, Yields-recv_control,
  Yields-send_control,
}
use zerowire.Sender.{
  check_offer, expect_hello, expect_list_devices, expect_attach, answer_handshake,
}

check_offer_met : (busid mode : String) → check_offer busid mode busid mode ≡ ok tt
unfolding check_offer
check_offer_met busid mode =
    rw ((str_eq_iff busid busid).1 refl, (str_eq_iff mode mode).1 refl) refl

module _ {S : Type 0} {st : Stream S} (t : Transport st) (can_write : CanWrite st)
    (json : Json ControlMessage) where
  pub answer_handshake_met :
      (version : ℕ) (client : String) (supports : List String) (ack : ControlMessage)
      (device : DeviceSummary) (mode : String) {rest o : Bytes} {s : S}
      → IsSendable json (hello version client supports)
      → IsSendable json list_devices
      → IsSendable json (attach device.busid mode)
      → length (json.to_vec ack) ≤ max_payload
      → length (json.to_vec (device_list (device ∷ []))) ≤ max_payload
      → At t s
          (control_frame json (hello version client supports)
            ++ (control_frame json list_devices
                ++ (control_frame json (attach device.busid mode) ++ rest)))
          o
      → Yields t
          (answer_handshake st json ack device mode)
          s
          tt
          rest
          ((o ++ control_frame json ack) ++ control_frame json (device_list (device ∷ [])))
  unfolding answer_handshake expect_hello expect_list_devices expect_attach
  answer_handshake_met version client supports ack device mode ok1 ok2 ok3 fit1 fit2 at0 =
      Yields-then t _ _ (Yields-recv_control t json (hello version client supports) ok1 at0)
        (λ s1 at1. Yields-then t _ _ (Yields-send_control t json can_write ack fit1 at1) (λ s2 at2.
          Yields-then t _ _ (Yields-recv_control t json list_devices ok2 at2) (λ s3 at3.
            Yields-then t _ _
              (Yields-send_control t json can_write (device_list (device ∷ [])) fit2 at3)
              (λ s4 at4.
                Yields-then t _ _ (Yields-recv_control t json (attach device.busid mode) ok3 at4)
                  (λ s5 at5. Yields-lift t (check_offer_met device.busid mode) at5)))))
