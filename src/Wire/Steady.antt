-- ===== src/Wire/Steady.antt =====
-- Kinds of action that are closed under sequence; one of them: what leaves a part of the state alone.
use zerowire.Prelude.{
  ℕ, ◌≡◌, refl, ◌∙◌, ◌++◌, Bool, true, false, if◌then◌else◌, Result, ok, err, map_err, ok_or,
}
use zerowire.Bytes.{Bytes}
use zerowire.Envelope
use zerowire.Envelope.{Channel, control, usbip, hid, keepalive, header_len}
use zerowire.Json.{Json}
use zerowire.Control.{ControlMessage}
use zerowire.Io.{
  Io, Failure, envelope, incomplete, bad_json, wrong_channel, pure, raise, lift, continue, ◌>>=◌,
}
use zerowire.Wire.{Stream, recv_envelope, send_envelope, recv_control, send_control}
use zerowire.Wire.Laws.{Transport}
use zerowire.Wire.Settles.{Settles, Settles-pure, Settles-bind}

-- What is shown of an action by showing it of its steps.
pub record Closed {S : Type 0} (P : (A : Type 0) → Io S A → Type 0) : Type 1 where
  pub of_pure : {A : Type 0} (a : A) → P A (pure a)
  pub of_bind :
      {A B : Type 0} (m : Io S A) (f : A → Io S B) → P A m → ((a : A) → P B (f a)) → P B (m >>= f)

module _ {S : Type 0} {P : (A : Type 0) → Io S A → Type 0} (c : Closed P) where
  pub Closed-if : {A : Type 0} (b : Bool) (m n : Io S A) → P A m → P A n → P A (if b then m else n)
  Closed-if true m n p q = p
  Closed-if false m n p q = q

pub Settles-Closed : {S : Type 0} {st : Stream S} (t : Transport st) → Closed (λ A m. Settles t m)
Settles-Closed t = record { of_pure = Settles-pure t; of_bind = Settles-bind t }

module _ {S X : Type 0} (see : S → X) where
  pub record Steady {A : Type 0} (m : Io S A) : Type 0 where
    pub same : (s : S) → see (m s).1 ≡ see s

  pub Steady-Closed : Closed (λ A m. Steady m)
  Steady-Closed = record {
    of_pure = λ a. record { same = λ s. refl };
    of_bind = λ m f p q. record { same = λ s. next f q (m s).0 (m s).1 ∙ p.same s };
  }
    where
      next :
          {A B : Type 0} (f : A → Io S B)
          → ((a : A) → Steady (f a))
          → (r : Result Failure A) (s : S) → see (continue r s f).1 ≡ see s
      next f q (ok a) s = (q a).same s
      next f q (err e) s = refl

  pub Steady-lift : {A : Type 0} (r : Result Failure A) → Steady (lift r)
  Steady-lift r = record { same = λ s. refl }

  pub Steady-raise : {A : Type 0} (e : Failure) → Steady (raise {A = A} e)
  Steady-raise e = record { same = λ s. refl }

  -- Receiving leaves alone what reading does.
  pub recv_envelope-Steady :
      (st : Stream S) → ((n : ℕ) → Steady (st.read_exact n)) → Steady (recv_envelope st)
  unfolding recv_envelope
  recv_envelope-Steady st reads =
      let c = Steady-Closed in
      c.of_bind _ _ (reads header_len) (λ header. c.of_bind _ _ (reads _) (λ payload.
        c.of_bind _ _ (Steady-lift (map_err envelope (Envelope.parse (header ++ payload))))
          (λ parsed.
            c.of_bind _ _ (Steady-lift (ok_or parsed incomplete)) (λ found. c.of_pure found.0))))

  -- Sending leaves alone what writing does, and the two of control messages likewise.
  module _ (st : Stream S) (reads : (n : ℕ) → Steady (st.read_exact n))
      (writes : (bs : Bytes) → Steady (st.write_all bs)) where
    pub send_envelope-Steady :
        (ch : Channel) (payload : Bytes) → Steady (send_envelope st ch payload)
    unfolding send_envelope
    send_envelope-Steady ch payload =
        Steady-Closed.of_bind _ _
          (Steady-lift
            (map_err envelope (Envelope.encode (record { channel = ch; payload = payload }))))
          (λ bytes. writes bytes)

    pub send_control-Steady :
        (json : Json ControlMessage) (msg : ControlMessage) → Steady (send_control st json msg)
    unfolding send_control
    send_control-Steady json msg = send_envelope-Steady control (json.to_vec msg)

    by_channel :
        (json : Json ControlMessage) (ch : Channel) (payload : Bytes)
        → Steady (elim ch [
          | control ↦ lift (ok_or (json.from_slice payload) bad_json)
          | other ↦ raise (wrong_channel other)
        ])
    by_channel json control payload = Steady-lift (ok_or (json.from_slice payload) bad_json)
    by_channel json usbip payload = Steady-raise (wrong_channel usbip)
    by_channel json hid payload = Steady-raise (wrong_channel hid)
    by_channel json keepalive payload = Steady-raise (wrong_channel keepalive)

    pub recv_control-Steady : (json : Json ControlMessage) → Steady (recv_control st json)
    unfolding recv_control
    recv_control-Steady json =
        Steady-Closed.of_bind _ _ (recv_envelope-Steady st reads)
          (λ env. by_channel json env.channel env.payload)
