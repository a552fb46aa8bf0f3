-- ===== src/Wire/Chain.antt =====
-- Steps that run one after the other over a stream, and what is left to come and written after each.
use zerowire.Prelude.{
  ◌≤◌, ◌≡◌, refl, sym, ap, ◌∙◌, append_assoc, ◌++◌, Result, ok, ok_or, to_option, Option, some,
  List, [], ◌∷◌, length,
}
use zerowire.Bytes.{Bytes}
use zerowire.Json.{Json, RoundTrips}
use zerowire.Envelope.{Envelope, control, max_payload}
use zerowire.Envelope.RoundTrip.{frame}
use zerowire.Control.{ControlMessage}
use zerowire.Io.{Io, Failure, bad_json, pure, lift, attempt, ◌>>=◌}
use zerowire.Wire.{Stream, recv_envelope, send_envelope, recv_control, send_control}
use zerowire.Wire.Laws.{
  Transport, CanWrite, Runs, Runs-bind, recv_envelope-frame, send_envelope-frame,
}

-- A message on the wire.
abbrev pub control_frame : Json ControlMessage → ControlMessage → Bytes
control_frame json msg = frame (record { channel = control; payload = json.to_vec msg })

-- The envelopes of a session on the wire.
abbrev pub frames_bytes : List Envelope → Bytes
frames_bytes [] = []
frames_bytes (env ∷ envs) = frame env ++ frames_bytes envs

abbrev pub IsWithinLimit : Envelope → Type 0
IsWithinLimit env = length env.payload ≤ max_payload

pub frames_bytes-append :
    (xs ys : List Envelope) → frames_bytes (xs ++ ys) ≡ frames_bytes xs ++ frames_bytes ys
frames_bytes-append [] ys = refl
frames_bytes-append (x ∷ xs) ys =
    ap (λ (z : Bytes). frame x ++ z) (frames_bytes-append xs ys)
    ∙ sym (append_assoc (frame x) (frames_bytes xs) (frames_bytes ys))

-- A message that is within the limit and that serde reads back.
abbrev pub IsSendable : Json ControlMessage → ControlMessage → Type 0
IsSendable json msg = RoundTrips json msg × (length (json.to_vec msg) ≤ max_payload)

module _ {S : Type 0} {st : Stream S} (t : Transport st) where
  -- A state in which `i` is to come and `o` has been written.
  abbrev pub At : S → Bytes → Bytes → Type 0
  At s i o = (t.incoming s ≡ i) × (t.outgoing s ≡ o)

  -- `Runs`, as a type that says which action it is about.
  pub record Yields {A : Type 0} (m : Io S A) (s : S) (a : A) (i o : Bytes) : Type 0 where
    pub runs : Runs t m s a i o

  -- The step after, in the very state that the first leaves.
  pub Yields-next :
      {A B : Type 0} (m : Io S A) (f : A → Io S B) {s : S} {a : A} {b : B} {i o i' o' : Bytes}
      → Yields m s a i o
      → (At (m s).1 i o → Yields (f a) (m s).1 b i' o')
      → Yields (m >>= f) s b i' o'
  Yields-next m f {s} {a} {b} {i} {o} {i'} {o'} h k = record {
    runs = Runs-bind t m f s a b i o i' o' h.runs (k (h.runs.1, h.runs.2)).runs;
  }

  pub Yields-then :
      {A B : Type 0} (m : Io S A) (f : A → Io S B) {s : S} {a : A} {b : B} {i o i' o' : Bytes}
      → Yields m s a i o
      → ((s' : S) → At s' i o → Yields (f a) s' b i' o')
      → Yields (m >>= f) s b i' o'
  Yields-then m f {s} h k = Yields-next m f h (k (m s).1)

  pub Yields-attempt :
      {A : Type 0} {m : Io S A} {s : S} {a : A} {i o : Bytes}
      → Yields m s a i o
      → Yields (attempt m) s (some a) i o
  Yields-attempt h = record { runs = (ap (λ r. ok (to_option r)) h.runs.0, h.runs.1, h.runs.2) }

  -- What is written, spelt in another way.
  pub Yields-spelt :
      {A : Type 0} {m : Io S A} {s : S} {a : A} {i o o' : Bytes}
      → Yields m s a i o
      → o ≡ o'
      → Yields m s a i o'
  Yields-spelt h e = record { runs = (h.runs.0, h.runs.1, h.runs.2 ∙ e) }

  pub Yields-pure : {A : Type 0} (a : A) {s : S} {i o : Bytes} → At s i o → Yields (pure a) s a i o
  Yields-pure a h = record { runs = (refl, h.0, h.1) }

  pub Yields-lift :
      {A : Type 0} {r : Result Failure A} {a : A} {s : S} {i o : Bytes}
      → r ≡ ok a
      → At s i o
      → Yields (lift r) s a i o
  Yields-lift e h = record { runs = (e, h.0, h.1) }

  pub Yields-write :
      CanWrite st
      → (bs : Bytes) {i o : Bytes} {s : S} → At s i o
      → Yields (st.write_all bs) s tt i (o ++ bs)
  Yields-write can_write bs {i} {o} {s} h = record {
    runs = (
      can_write bs s,
      t.write_keeps bs s ∙ h.0,
      t.write_appends bs s (can_write bs s) ∙ ap (λ (z : Bytes). z ++ bs) h.1,
    );
  }

  pub Yields-recv :
      (env : Envelope) {rest o : Bytes} {s : S}
      → length env.payload ≤ max_payload
      → At s (frame env ++ rest) o
      → Yields (recv_envelope st) s env rest o
  Yields-recv env {rest} {o} {s} fits h =
      let (got, left, wrote) = recv_envelope-frame t env rest s fits h.0 in
      record { runs = (got, left, wrote ∙ h.1) }

  pub Yields-send :
      CanWrite st
      → (env : Envelope) {i o : Bytes} {s : S} → length env.payload ≤ max_payload
      → At s i o
      → Yields (send_envelope st env.channel env.payload) s tt i (o ++ frame env)
  Yields-send can_write env {i} {o} {s} fits h =
      let (done, left, wrote) = send_envelope-frame t can_write env s fits in
      record { runs = (done, left ∙ h.0, wrote ∙ ap (λ (z : Bytes). z ++ frame env) h.1) }

  module _ (json : Json ControlMessage) where
    pub Yields-recv_control :
        (msg : ControlMessage) {rest o : Bytes} {s : S}
        → IsSendable json msg
        → At s (control_frame json msg ++ rest) o
        → Yields (recv_control st json) s msg rest o
    unfolding recv_control
    Yields-recv_control msg (back, fits) h =
        Yields-then _ _
          (Yields-recv (record { channel = control; payload = json.to_vec msg }) fits h)
          (λ s' at'. Yields-lift (ap (λ (o : Option ControlMessage). ok_or o bad_json) back) at')

    pub Yields-send_control :
        CanWrite st
        → (msg : ControlMessage) {i o : Bytes} {s : S} → length (json.to_vec msg) ≤ max_payload
        → At s i o
        → Yields (send_control st json msg) s tt i (o ++ control_frame json msg)
    unfolding send_control
    Yields-send_control can_write msg fits h =
        Yields-send can_write (record { channel = control; payload = json.to_vec msg }) fits h
