-- ===== src/Receiver/Handshake.antt =====
-- The handshake of the receiver, against a sender that answers it.
use zerowire.Prelude.{
  ℕ, ◌≤◌, ◌≡◌, refl, true, false, Option, none, some, List, [], ◌∷◌, ◌++◌, String, str_eq,
  str_eq_iff, ok, err, length, All, Bool-cases, inl, inr,
}
use zerowire.Bytes.{Bytes}
use zerowire.Json.{Json}
use zerowire.Envelope.{hid, max_payload}
use zerowire.Envelope.RoundTrip.{frame}
use zerowire.Control.{
  ControlMessage, DeviceSummary, hello, hello_ack, error, attach_denied, list_devices, device_list,
  attach, attach_ok,
}
use zerowire.Hid
use zerowire.Hid.{HidFrame, BindRequest, bind}
use zerowire.Io.{no_such_device, pure}
use zerowire.Wire.{Stream}
use zerowire.Wire.Laws.{Transport, CanWrite, Runs}
use zerowire.Wire.Steady.{
  Steady, Steady-Closed, Steady-lift, send_envelope-Steady, send_control-Steady,
  recv_control-Steady,
}
use zerowire.Wire.Chain.{
  control_frame, IsSendable, Yields-then, Yields-pure, Yields-lift, Yields-send,
  Yields-recv_control, Yields-send_control,
}
use zerowire.Receiver.{
  find_busid, find_hid, pick_hid_device, on_hello_reply, on_list_reply, on_attach_reply,
  shake_hands,
}

abbrev pub greeting : String → ControlMessage
greeting client = hello 1 client ("hid-fastlane/1" ∷ [])

abbrev pub bind_request : Json BindRequest → DeviceSummary → Bytes
bind_request bind_json chosen = Hid.encode (record {
  op = bind;
  bind_id = 1;
  seq = 0;
  body = bind_json.to_vec (record { busid = chosen.busid; want = "input" });
})

module _ {S : Type 0} {st : Stream S} (t : Transport st) (can_write : CanWrite st)
    (json : Json ControlMessage) where
  -- Over a stream that takes every write: if the sender's next messages are HELLO_ACK, DEVICE_LIST and
  -- ATTACH_OK, each read back by serde and within the limit, as are the receiver's own, and a device
  -- can be picked from the list, then the handshake returns that device, has read the three messages
  -- and nothing behind them, and has written HELLO, LIST_DEVICES, ATTACH for that device and BIND.
  pub shake_hands_answered :
      (bind_json : Json BindRequest) (client : String) (busid : Option String)
      (sender_id name : String) (supports : List String) (devices : List DeviceSummary)
      (chosen : DeviceSummary) (attached : String) (import_id : ℕ) (rest : Bytes) (s : S)
      → IsSendable json (hello_ack sender_id name supports)
      → IsSendable json (device_list devices)
      → IsSendable json (attach_ok attached import_id)
      → length (json.to_vec (greeting client)) ≤ max_payload
      → length (json.to_vec list_devices) ≤ max_payload
      → length (json.to_vec (attach chosen.busid "hid")) ≤ max_payload
      → length (bind_request bind_json chosen) ≤ max_payload
      → pick_hid_device devices busid ≡ ok chosen
      → t.incoming s
        ≡ control_frame json (hello_ack sender_id name supports)
          ++ (control_frame json (device_list devices)
              ++ (control_frame json (attach_ok attached import_id) ++ rest))
      → Runs t (shake_hands st json bind_json client busid) s chosen rest (
          (((t.outgoing s ++ control_frame json (greeting client))
              ++ control_frame json list_devices)
            ++ control_frame json (attach chosen.busid "hid"))
          ++ frame (record { channel = hid; payload = bind_request bind_json chosen }))
  unfolding shake_hands on_hello_reply on_list_reply on_attach_reply
  shake_hands_answered bind_json client busid sender_id name supports devices chosen attached
        import_id rest s ok1 ok2 ok3 fit1 fit2 fit3 fit4 picked e =
      (Yields-then t _ _ (Yields-send_control t json can_write (greeting client) fit1 (e, refl))
        (λ s1 at1.
          Yields-then t _ _ (Yields-recv_control t json (hello_ack sender_id name supports) ok1 at1)
            (λ s2 at2.
              Yields-then t _ _ (Yields-send_control t json can_write list_devices fit2 at2)
                (λ s3 at3.
                  Yields-then t _ _ (Yields-recv_control t json (device_list devices) ok2 at3)
                    (λ s4 at4. Yields-then t _ _ (Yields-lift t picked at4) (λ s5 at5.
                      Yields-then t _ _
                        (Yields-send_control t json can_write (attach chosen.busid "hid") fit3 at5)
                        (λ s6 at6.
                          Yields-then t _ _
                            (Yields-recv_control t json (attach_ok attached import_id) ok3 at6)
                            (λ s7 at7.
                              Yields-then t _ (λ _. pure chosen)
                                (Yields-send t can_write
                                  (record {
                                    channel = hid;
                                    payload = bind_request bind_json chosen;
                                  })
                                  fit4 at7)
                                (λ s8 at8. Yields-pure t chosen at8))))))))).runs

-- The handshake leaves alone what reading and writing do.
module _ {S X : Type 0} (see : S → X) (st : Stream S) (json : Json ControlMessage)
    (reads : (n : ℕ) → Steady see (st.read_exact n))
    (writes : (bs : Bytes) → Steady see (st.write_all bs)) where
  on_hello_reply-Steady : (msg : ControlMessage) → Steady see (on_hello_reply st json msg)
  unfolding on_hello_reply
  on_hello_reply-Steady (hello_ack _ _ _) = record { same = λ s. refl }
  on_hello_reply-Steady (error _ _) = record { same = λ s. refl }
  on_hello_reply-Steady _ = record { same = λ s. refl }

  on_list_reply-Steady : (msg : ControlMessage) → Steady see (on_list_reply st json msg)
  unfolding on_list_reply
  on_list_reply-Steady (device_list _) = record { same = λ s. refl }
  on_list_reply-Steady _ = record { same = λ s. refl }

  on_attach_reply-Steady : (msg : ControlMessage) → Steady see (on_attach_reply st json msg)
  unfolding on_attach_reply
  on_attach_reply-Steady (attach_ok _ _) = record { same = λ s. refl }
  on_attach_reply-Steady (attach_denied _ _) = record { same = λ s. refl }
  on_attach_reply-Steady _ = record { same = λ s. refl }

  pub shake_hands-Steady :
      (bind_json : Json BindRequest) (client : String) (busid : Option String)
      → Steady see (shake_hands st json bind_json client busid)
  unfolding shake_hands
  shake_hands-Steady bind_json client busid =
      let c = Steady-Closed see in
      let send = send_control-Steady see st reads writes json in
      let recv = recv_control-Steady see st reads writes json in
      c.of_bind _ _ (send (greeting client)) (λ _. c.of_bind _ _ recv (λ greeted.
        c.of_bind _ _ (on_hello_reply-Steady greeted) (λ _. c.of_bind _ _ (send list_devices) (λ _.
          c.of_bind _ _ recv (λ listed. c.of_bind _ _ (on_list_reply-Steady listed) (λ devices.
            c.of_bind _ _ (Steady-lift see (pick_hid_device devices busid)) (λ chosen.
              c.of_bind _ _ (send (attach chosen.busid "hid")) (λ _. c.of_bind _ _ recv (λ attached.
                c.of_bind _ _ (on_attach_reply-Steady attached) (λ _.
                  c.of_bind _ _
                    (send_envelope-Steady see st reads writes hid (bind_request bind_json chosen))
                    (λ _. c.of_pure chosen)))))))))))

-- What is asked of the device: its bus id, or that it is a HID device.
abbrev pub IsWanted : Option String → DeviceSummary → Type 0
IsWanted none d = d.is_hid ≡ true
IsWanted (some b) d = d.busid ≡ b

abbrev pub NoneWanted : Option String → List DeviceSummary → Type 0
NoneWanted busid ds = All (λ d. ¬ IsWanted busid d) ds

-- The device that is picked is the first of the list that is wanted: it has the bus id that is asked
-- for, or is a HID device if none is; and if no device is wanted, the receiver gives up.
pub pick_hid_device_first :
    (busid : Option String) (front back : List DeviceSummary) (d : DeviceSummary)
    → NoneWanted busid front
    → (pick_hid_device front busid ≡ err no_such_device)
      × (IsWanted busid d → pick_hid_device (front ++ (d ∷ back)) busid ≡ ok d)
unfolding pick_hid_device find_busid find_hid
pick_hid_device_first none [] back d h = (refl, λ w. rw w refl)
pick_hid_device_first (some b) [] back d h = (refl, λ w. rw ((str_eq_iff d.busid b).1 w) refl)
pick_hid_device_first none (f ∷ fs) back d h =
    let next = pick_hid_device_first none fs back d h.1 in
    let skip : f.is_hid ≡ false = elim (Bool-cases f.is_hid) [
      | inl w ↦ absurd (h.0 w)
      | inr n ↦ n
    ] in
    rw skip next
pick_hid_device_first (some b) (f ∷ fs) back d h =
    let next = pick_hid_device_first (some b) fs back d h.1 in
    let skip : str_eq f.busid b ≡ false = elim (Bool-cases (str_eq f.busid b)) [
      | inl w ↦ absurd (h.0 ((str_eq_iff f.busid b).0 w))
      | inr n ↦ n
    ] in
    rw skip next
