-- ===== src/LinuxSender/Forward.antt =====
-- What the sender for a real HID device writes.
use zerowire.Prelude.{
  ℕ, zero, suc, ◌+◌, ◌%◌, ◌^◌, ◌<◌, ◌≤◌, ◌≡◌, sym, ap, ◌∙◌, arith, List, [], ◌∷◌, ◌++◌, String,
  none, some, ok, map_err, length, append-nil, append_assoc, All,
}
use zerowire.Bytes.{Bytes}
use zerowire.Json.{Json}
use zerowire.Envelope.{Envelope}
use zerowire.Envelope.RoundTrip.{frame, encode-frame}
use zerowire.Control.{ControlMessage}
use zerowire.Hid.{HidFrame, BindRequest, BindAckMeta}
use zerowire.Hid.Frame.{length-encode_hid}
use zerowire.Io.{panic, pure, lift, attempt}
use zerowire.LinuxSender.{
  Reading, report, would_block, end_of_file, Hidraw, numbered_report, forward_reports,
}
use zerowire.MockSender.{hid_envelope}
use zerowire.MockSender.Streams.{hid_message}
use zerowire.Wire.{Stream}
use zerowire.Wire.Laws.{Transport, CanWrite}
use zerowire.Wire.Chain.{
  At, Yields, Yields-next, Yields-attempt, Yields-pure, Yields-spelt, Yields-lift, Yields-write,
  frames_bytes,
}

abbrev pub first : List Reading → Reading
first [] = end_of_file
first (r ∷ rs) = r

abbrev pub behind : List Reading → List Reading
behind [] = []
behind (r ∷ rs) = rs

-- The reports that the readings come to up to the first end of file, numbered from the one after
-- `seq` on, modulo 2 ^ 16.
abbrev pub forwarded : ℕ → ℕ → List Reading → List Envelope
forwarded bind_id seq [] = []
forwarded bind_id seq (report body ∷ rs) =
    hid_message (numbered_report bind_id ((seq + 1) % 2 ^ 16) body)
    ∷ forwarded bind_id ((seq + 1) % 2 ^ 16) rs
forwarded bind_id seq (would_block ∷ rs) = forwarded bind_id seq rs
forwarded bind_id seq (end_of_file ∷ rs) = []

-- A read gives no more than the 64 bytes of the buffer.
abbrev pub FitsBuffer : Reading → Type 0
FitsBuffer (report body) = length body ≤ 64
FitsBuffer would_block = Unit {0}
FitsBuffer end_of_file = Unit {0}

-- A file that can be opened and read, gives `content` one by one, and then its end, and has nothing to
-- do with the stream.
pub record Tape {S : Type 0} {st : Stream S} (t : Transport st) (hidraw : Hidraw S) : Type 0 where
  pub content : String → List Reading
  pub left : S → List Reading
  pub opens : (path : String) (s : S) → (hidraw.open_nonblocking path s).0 ≡ ok tt
  pub opened : (path : String) (s : S) → left (hidraw.open_nonblocking path s).1 ≡ content path
  pub open_keeps :
      (path : String) (s : S)
      → At t (hidraw.open_nonblocking path s).1 (t.incoming s) (t.outgoing s)
  pub reads : (s : S) → (hidraw.read s).0 ≡ ok (first (left s))
  pub advances : (s : S) → left (hidraw.read s).1 ≡ behind (left s)
  pub read_keeps : (s : S) → At t (hidraw.read s).1 (t.incoming s) (t.outgoing s)
  pub write_left : (bs : Bytes) (s : S) → left (st.write_all bs s).1 ≡ left s

module _ {S : Type 0} {st : Stream S} (t : Transport st) (can_write : CanWrite st)
    (json : Json ControlMessage) (bind_json : Json BindRequest) (meta_json : Json BindAckMeta)
    (hidraw : Hidraw S) (tape : Tape t hidraw) where
  read-Yields :
      {i o : Bytes} {s : S} {r : Reading}
      → first (tape.left s) ≡ r
      → At t s i o
      → Yields t hidraw.read s r i o
  read-Yields {s = s} e (coming, written) = record {
    runs =
        (tape.reads s ∙ ap ok e, (tape.read_keeps s).0 ∙ coming, (tape.read_keeps s).1 ∙ written);
  }

  encode-report : (f : HidFrame) → length f.body ≤ 64 → hid_envelope f ≡ ok (frame (hid_message f))
  unfolding hid_envelope
  encode-report f small =
      ap (map_err (λ e. panic)) (encode-frame (hid_message f) (omega (arith, length-encode_hid f)))

  pub forward_reports-Yields :
      (rs : List Reading) (fuel bind_id seq : ℕ) {i o : Bytes} {s : S}
      → tape.left s ≡ rs
      → length rs < fuel
      → All FitsBuffer rs
      → At t s i o
      → Yields t
          (forward_reports st json bind_json meta_json hidraw fuel bind_id seq)
          s
          tt
          i
          (o ++ frames_bytes (forwarded bind_id seq rs))
  unfolding forward_reports
  forward_reports-Yields rs zero bind_id seq e few fit at0 = absurd (omega arith)
  forward_reports-Yields [] (suc fuel) bind_id seq e few fit at0 =
      Yields-spelt t
        (Yields-next t hidraw.read _ (read-Yields (ap first e) at0) (λ at1. Yields-pure t tt at1))
        (sym (append-nil _))
  forward_reports-Yields (end_of_file ∷ rs) (suc fuel) bind_id seq e few fit at0 =
      Yields-spelt t
        (Yields-next t hidraw.read _ (read-Yields (ap first e) at0) (λ at1. Yields-pure t tt at1))
        (sym (append-nil _))
  forward_reports-Yields (would_block ∷ rs) (suc fuel) bind_id seq {s = s} e few fit at0 =
      Yields-next t hidraw.read _ (read-Yields (ap first e) at0) (λ at1.
        forward_reports-Yields rs fuel bind_id seq (tape.advances s ∙ ap behind e) (omega arith)
          fit.1 at1)
  forward_reports-Yields (report body ∷ rs) (suc fuel) bind_id seq {o = o} {s = s} e few fit at0 =
      let n : ℕ = (seq + 1) % 2 ^ 16 in
      let bytes : Bytes = frame (hid_message (numbered_report bind_id n body)) in
      Yields-spelt t
        (Yields-next t hidraw.read _ (read-Yields (ap first e) at0) (λ at1.
          Yields-next t (lift (hid_envelope (numbered_report bind_id n body))) _
            (Yields-lift t (encode-report (numbered_report bind_id n body) fit.0) at1)
            (λ at2.
              Yields-next t (attempt (st.write_all bytes))
                (λ sent. elim sent [
                  | none ↦ pure tt
                  | some _ ↦ forward_reports st json bind_json meta_json hidraw fuel bind_id n
                ])
                (Yields-attempt t (Yields-write t can_write bytes at2))
                (λ at3.
                  forward_reports-Yields rs fuel bind_id n
                    (tape.write_left bytes _ ∙ tape.advances s ∙ ap behind e) (omega arith) fit.1
                    at3))))
        (append_assoc o bytes (frames_bytes (forwarded bind_id n rs)))
