-- ===== src/MockSender/Moves.antt =====
-- What the receiver makes of what the stand-in sender sends.
use zerowire.Prelude.{
  ℕ, zero, suc, ◌+◌, ◌%◌, ◌^◌, ◌<◌, ◌≤◌, ◌≡◌, refl, arith, true, List, [], ◌∷◌, ◌++◌, String, ok,
  length, length-append, pos, All, map,
}
use zerowire.Json.{Json, RoundTrips}
use zerowire.Envelope.{max_payload}
use zerowire.Hid.{BindAckMeta}
use zerowire.Hid.Frame.{parse-encode_hid, length-encode_hid}
use zerowire.Hid.BindAck.{parse_bind_ack_body-encode}
use zerowire.HidDescriptor.{mouse_descriptor}
use zerowire.Uinput
use zerowire.Uinput.{InputEvent, UinputDevice, DeviceProfile, ev_rel, ev_syn, rel_x, syn_report}
use zerowire.Reports.{zero_statics}
use zerowire.Reports.Events.{event}
use zerowire.Receiver.{Session, new_session, profile_of}
use zerowire.Receiver.Machine.{acknowledged, report, unbound, say, course}
use zerowire.Wire.Chain.{IsWithinLimit}
use zerowire.MockSender.{mock_report, mock_unbind, mock_meta, synth_mouse_bind_ack_body}
use zerowire.MockSender.Streams.{hid_message, mock_reports, mock_ack, mock_stream}

-- What `n` reports of the stand-in sender come to: each moves the mouse by three to the right.
abbrev pub mock_moves : ℕ → List InputEvent
mock_moves zero = []
mock_moves (suc n) = event ev_rel rel_x (pos 3) ∷ event ev_syn syn_report (pos 0) ∷ mock_moves n

abbrev pub mock_session : ℕ → Session
mock_session n = record {
  bound = true;
  last_seq = n % 2 ^ 16;
  reports_seen = n;
  statics = zero_statics;
}

abbrev pub mock_profile : DeviceProfile
mock_profile = Uinput.mouse "zerowire: zerowire-mock mouse" 0xBADD 0xC0DE

length-mock_reports : (bind_id k i : ℕ) → length (mock_reports bind_id k i) ≡ k
length-mock_reports bind_id zero i = refl
length-mock_reports bind_id (suc k) i = omega (arith, length-mock_reports bind_id k (i + 1))

mock_reports-fit :
    (bind_id k i : ℕ)
    → All IsWithinLimit (mock_reports bind_id k i ++ (hid_message (mock_unbind bind_id) ∷ []))
mock_reports-fit bind_id zero i = (omega (arith, length-encode_hid (mock_unbind bind_id)), tt)
mock_reports-fit bind_id (suc k) i =
    (omega (arith, length-encode_hid (mock_report bind_id i)), mock_reports-fit bind_id k (i + 1))

module _ (json : Json BindAckMeta) where
  pub length-mock_stream :
      (bind_id : ℕ) (busid : String) (n : ℕ) → length (mock_stream json bind_id busid n) ≡ n + 2
  length-mock_stream bind_id busid n = omega (
    arith,
    length-append (mock_reports bind_id n 0) (hid_message (mock_unbind bind_id) ∷ []),
    length-mock_reports bind_id n 0,
  )

  pub mock_stream-fit :
      (bind_id : ℕ) (busid : String) (n : ℕ)
      → 4 + length (synth_mouse_bind_ack_body json busid) ≤ max_payload
      → All IsWithinLimit (mock_stream json bind_id busid n)
  mock_stream-fit bind_id busid n fits =
      (omega (arith, length-encode_hid (mock_ack json bind_id busid)), mock_reports-fit bind_id n 0)

  say-report :
      (bind_id i : ℕ)
      → say json (hid_message (mock_report bind_id i)) ≡ report (mock_report bind_id i)
  say-report bind_id i = rw (parse-encode_hid (mock_report bind_id i) (omega arith)) refl

  say-unbind : (bind_id : ℕ) → say json (hid_message (mock_unbind bind_id)) ≡ unbound
  say-unbind bind_id = rw (parse-encode_hid (mock_unbind bind_id) (omega arith)) refl

  say-ack :
      (bind_id : ℕ) (busid : String)
      → RoundTrips json (mock_meta busid)
      → length (json.to_vec (mock_meta busid)) < 2 ^ 16
      → say json (hid_message (mock_ack json bind_id busid)) ≡ acknowledged (mock_meta busid)
  unfolding synth_mouse_bind_ack_body
  say-ack bind_id busid back short =
      rw
        (
          parse-encode_hid (mock_ack json bind_id busid) (omega arith),
          parse_bind_ack_body-encode json (mock_meta busid) mouse_descriptor back short,
        )
        refl

  course-reports :
      (bind_id k i : ℕ)
      → i + k < 2 ^ 64
      → course
          (mock_session i)
          (map (say json) (mock_reports bind_id k i ++ (hid_message (mock_unbind bind_id) ∷ [])))
        ≡ (ok (mock_session (i + k)), [], mock_moves k)
  course-reports bind_id zero i few = rw (say-unbind bind_id) (ground arith)
  course-reports bind_id (suc k) i few =
      let small : (i + 1) % 2 ^ 64 ≡ i + 1 = omega arith in
      let count : i + suc k ≡ (i + 1) + k = omega arith in
      rw (say-report bind_id i, small, course-reports bind_id k (i + 1) (omega arith), count) refl

  -- The session of a mouse that moves `n` times, as the machine answers it.
  pub course-mock_stream :
      (bind_id : ℕ) (busid : String) (n : ℕ)
      → RoundTrips json (mock_meta busid)
      → length (json.to_vec (mock_meta busid)) < 2 ^ 16
      → n < 2 ^ 64
      → course new_session (map (say json) (mock_stream json bind_id busid n))
        ≡ (ok (mock_session n), mock_profile ∷ [], mock_moves n)
  unfolding profile_of
  course-mock_stream bind_id busid n back short few =
      let count : 0 + n ≡ n = omega arith in
      rw (say-ack bind_id busid back short, course-reports bind_id n 0 (omega arith), count) refl
