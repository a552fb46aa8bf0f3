-- ===== src/MockSender/Streams.antt =====
-- What the stand-in sender writes once it is bound.
use zerowire.Prelude.{
  ℕ, zero, suc, ◌+◌, ◌≤◌, ◌≡◌, sym, ap, ◌∙◌, arith, Bool, true, false, List, [], ◌∷◌, ◌++◌, String,
  map_err, length, if◌then◌else◌, append-nil, append_assoc,
}
use zerowire.Bytes.{Bytes, IsU16}
use zerowire.Json.{Json}
use zerowire.Envelope.{Envelope, max_payload, hid as hid_channel}
use zerowire.Envelope.RoundTrip.{frame, encode-frame}
use zerowire.Control.{ControlMessage, attach_ok}
use zerowire.Hid
use zerowire.Hid.{HidFrame, BindAckMeta, bind, bind_ack}
use zerowire.Hid.Frame.{length-encode_hid, parse-encode_hid}
use zerowire.Io.{Io, panic, hid_frame, unexpected_hid_op, pure, raise, ◌>>=◌}
use zerowire.MockSender.{
  MockArgs, Ending, closed, idling, answered_id, mock_report, mock_unbind, hid_envelope, send_hid,
  send_reports, on_bind_envelope, is_bind, run_hid, synth_mouse_bind_ack_body,
}
use zerowire.Wire.{Stream}
use zerowire.Wire.Laws.{Transport, CanWrite}
use zerowire.Wire.Chain.{
  At, Yields, Yields-then, Yields-pure, Yields-spelt, frames_bytes-append, Yields-lift,
  Yields-write, Yields-recv, Yields-send_control, control_frame, frames_bytes,
}

abbrev pub hid_message : HidFrame → Envelope
hid_message f = record { channel = hid_channel; payload = Hid.encode f }

-- The reports, from `i` on.
abbrev pub mock_reports : ℕ → ℕ → ℕ → List Envelope
mock_reports bind_id zero i = []
mock_reports bind_id (suc k) i =
    hid_message (mock_report bind_id i) ∷ mock_reports bind_id k (i + 1)

abbrev pub mock_ack : Json BindAckMeta → ℕ → String → HidFrame
mock_ack json bind_id busid = record {
  op = bind_ack;
  bind_id = bind_id;
  seq = 0;
  body = synth_mouse_bind_ack_body json busid;
}

-- All that is sent behind ATTACH_OK: the acknowledgement, `n` reports, and the end.
abbrev pub mock_stream : Json BindAckMeta → ℕ → String → ℕ → List Envelope
mock_stream json bind_id busid n =
    hid_message (mock_ack json bind_id busid)
    ∷ (mock_reports bind_id n 0 ++ (hid_message (mock_unbind bind_id) ∷ []))

module _ {S : Type 0} {st : Stream S} (t : Transport st) (can_write : CanWrite st)
    (json : Json ControlMessage) (meta_json : Json BindAckMeta) where
  pub send_hid-Yields :
      (f : HidFrame) {i o : Bytes} {s : S}
      → length (Hid.encode f) ≤ max_payload
      → At t s i o
      → Yields t (send_hid st json meta_json f) s tt i (o ++ frame (hid_message f))
  unfolding send_hid hid_envelope
  send_hid-Yields f fits at0 =
      Yields-then t _ _
        (Yields-lift t (ap (map_err (λ e. panic)) (encode-frame (hid_message f) fits)) at0)
        (λ s1 at1. Yields-write t can_write (frame (hid_message f)) at1)

  send_reports-Yields :
      (bind_id k i : ℕ) {rest o : Bytes} {s : S}
      → At t s rest o
      → Yields t
          (send_reports st json meta_json k bind_id i)
          s
          tt
          rest
          (o ++ frames_bytes (mock_reports bind_id k i))
  unfolding send_reports
  send_reports-Yields bind_id zero i at0 =
      Yields-spelt t (Yields-pure t tt at0) (sym (append-nil _))
  send_reports-Yields bind_id (suc k) i {o = o} at0 =
      Yields-spelt t
        (Yields-then t _ (λ _. send_reports st json meta_json k bind_id (i + 1))
          (send_hid-Yields (mock_report bind_id i)
            (omega (arith, length-encode_hid (mock_report bind_id i))) at0)
          (λ s1 at1. send_reports-Yields bind_id k (i + 1) at1))
        (append_assoc o (frame (hid_message (mock_report bind_id i)))
          (frames_bytes (mock_reports bind_id k (i + 1))))

  pub on_bind_envelope-Yields :
      (f : HidFrame) {rest o : Bytes} {s : S}
      → f.op ≡ bind
      → IsU16 f.seq
      → At t s rest o
      → Yields t (on_bind_envelope st json meta_json (hid_message f)) s f rest o
  unfolding on_bind_envelope is_bind
  on_bind_envelope-Yields f asks small at0 =
      Yields-then t _ (λ (g : HidFrame). if is_bind g.op then pure g else raise unexpected_hid_op)
        (Yields-lift t (ap (map_err hid_frame) (parse-encode_hid f small)) at0)
        (λ s1 at1. let e : is_bind f.op ≡ true = ap is_bind asks in rw e (Yields-pure t f at1))

  abbrev finish : ℕ → Bool → Io S Ending
  finish id stays =
      if stays
      then pure idling
      else send_hid st json meta_json (mock_unbind id) >>= (λ _. pure closed)

  finish-Yields :
      (id : ℕ) (stays : Bool) {rest o : Bytes} {s : S}
      → stays ≡ false
      → At t s rest o
      → Yields t (finish id stays) s closed rest (o ++ frame (hid_message (mock_unbind id)))
  finish-Yields id true e at0 = absurd cc
  finish-Yields id false e at0 =
      Yields-then t _ (λ _. pure closed)
        (send_hid-Yields (mock_unbind id) (omega (arith, length-encode_hid (mock_unbind id))) at0)
        (λ s1 at1. Yields-pure t closed at1)

  -- Once a frame that asks to bind is there, everything else is sent.
  pub run_hid_bound :
      (args : MockArgs) (f : HidFrame) {rest o : Bytes} {s : S}
      → args.persistent ≡ false
      → f.op ≡ bind
      → IsU16 f.seq
      → length (Hid.encode f) ≤ max_payload
      → length (json.to_vec (attach_ok args.busid 1)) ≤ max_payload
      → 4 + length (synth_mouse_bind_ack_body meta_json args.busid) ≤ max_payload
      → At t s (frame (hid_message f) ++ rest) o
      → Yields t (run_hid st json meta_json args) s closed rest (
          o
          ++ (control_frame json (attach_ok args.busid 1)
              ++ frames_bytes
                  (mock_stream meta_json (answered_id f.bind_id) args.busid args.reports)))
  unfolding run_hid on_bind_envelope is_bind
  run_hid_bound args f {rest} {o} leaving asks small fits ok_fits ack_fits at0 =
      let id : ℕ = answered_id f.bind_id in
      let ack : HidFrame = mock_ack meta_json id args.busid in
      let reports : Bytes = frames_bytes (mock_reports id args.reports 0) in
      let last : Bytes = frame (hid_message (mock_unbind id)) in
      let told : Bytes = control_frame json (attach_ok args.busid 1) in
      Yields-spelt t
        (Yields-then t _ _
          (Yields-send_control t json can_write (attach_ok args.busid 1) ok_fits at0)
          (λ s1 at1. Yields-then t _ _ (Yields-recv t (hid_message f) fits at1) (λ s2 at2.
            Yields-then t _ _ (on_bind_envelope-Yields f asks small at2) (λ s3 at3.
              Yields-then t _ _ (send_hid-Yields ack (omega (arith, length-encode_hid ack)) at3)
                (λ s4 at4.
                  Yields-then t _ (λ _. finish id args.persistent)
                    (send_reports-Yields id args.reports 0 at4)
                    (λ s5 at5. finish-Yields id args.persistent leaving at5))))))
        (append_assoc (((o ++ told) ++ frame (hid_message ack))) reports last
          ∙ append_assoc (o ++ told) (frame (hid_message ack)) (reports ++ last)
          ∙ append_assoc o told (frame (hid_message ack) ++ (reports ++ last))
          ∙ ap (λ (z : Bytes). o ++ (told ++ (frame (hid_message ack) ++ z)))
              (ap (λ (z : Bytes). reports ++ z) (sym (append-nil last))
                ∙ sym (
                    frames_bytes-append (mock_reports id args.reports 0)
                      (hid_message (mock_unbind id) ∷ []))))
