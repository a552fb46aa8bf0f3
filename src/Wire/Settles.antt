-- ===== src/Wire/Settles.antt =====
-- Actions that take no input and cannot run out of fuel, and how they are put together.
use zerowire.Prelude.{
  ◌≡◌, ◌≢◌, ◌⊎◌, inl, inr, refl, arith, ◌∙◌, Bool, true, false, if◌then◌else◌, Result, ok, err,
  map_err,
}
use zerowire.Bytes.{Bytes}
use zerowire.Envelope
use zerowire.Envelope.{Channel, EnvelopeError}
use zerowire.Io.{Io, Failure, envelope, out_of_fuel, pure, raise, lift, continue, ◌>>=◌}
use zerowire.Wire.{Stream, send_envelope}
use zerowire.Wire.Laws.{Transport}

pub Result-cases :
    {A : Type 0} (r : Result Failure A) → ((a : A) × (r ≡ ok a)) ⊎ ((e : Failure) × (r ≡ err e))
Result-cases (ok a) = inl (a, refl)
Result-cases (err e) = inr (e, refl)

-- An error that is wrapped is none of the model's own.
pub map_err-ne :
    {E A : Type 0} (wrap : E → Failure)
    → ((e : E) → wrap e ≢ out_of_fuel)
    → (r : Result E A) → map_err wrap r ≢ err out_of_fuel
map_err-ne wrap ne (ok a) = λ h. cc
map_err-ne wrap ne (err e) = λ h. ne e (ground arith)

module _ {S : Type 0} {st : Stream S} (t : Transport st) where
  pub record Settles {A : Type 0} (m : Io S A) : Type 0 where
    pub fuel : (s : S) → (m s).0 ≢ err out_of_fuel
    pub keeps : (s : S) → t.incoming (m s).1 ≡ t.incoming s

  module _ {A : Type 0} where
    pub Settles-pure : (a : A) → Settles (pure a)
    Settles-pure a = record { fuel = λ s e. cc; keeps = λ s. refl }

    pub Settles-raise : (e : Failure) → e ≢ out_of_fuel → Settles (raise {A = A} e)
    Settles-raise e ne = record { fuel = λ s p. ne (ground arith); keeps = λ s. refl }

    pub Settles-lift : (r : Result Failure A) → r ≢ err out_of_fuel → Settles (lift r)
    Settles-lift r ne = record { fuel = λ s. ne; keeps = λ s. refl }

    pub Settles-if :
        (b : Bool) (m n : Io S A) → Settles m → Settles n → Settles (if b then m else n)
    Settles-if true m n p q = p
    Settles-if false m n p q = q

  pub Settles-bind :
      {A B : Type 0} (m : Io S A) (f : A → Io S B)
      → Settles m
      → ((a : A) → Settles (f a))
      → Settles (m >>= f)
  Settles-bind {A} {B} m f p q = record {
    fuel = λ s. continue_fuel (m s).0 (m s).1 (p.fuel s);
    keeps = λ s. continue_keeps (m s).0 (m s).1 ∙ p.keeps s;
  }
    where
      continue_fuel :
          (r : Result Failure A) (s : S)
          → r ≢ err out_of_fuel
          → (continue r s f).0 ≢ err out_of_fuel
      continue_fuel (ok a) s ne = (q a).fuel s
      continue_fuel (err e) s ne = λ h. ne (ground arith)

      continue_keeps : (r : Result Failure A) (s : S) → t.incoming (continue r s f).1 ≡ t.incoming s
      continue_keeps (ok a) s = (q a).keeps s
      continue_keeps (err e) s = refl

  -- Sending neither takes input nor runs out of fuel.
  pub send_envelope-Settles : (c : Channel) (payload : Bytes) → Settles (send_envelope st c payload)
  unfolding send_envelope
  send_envelope-Settles c payload =
      Settles-bind _ _
        (Settles-lift _ (
          map_err-ne envelope (λ e h. cc)
            (Envelope.encode (record { channel = c; payload = payload }))))
        (λ bytes. record { fuel = write_ne bytes; keeps = t.write_keeps bytes })
    where
      write_ne : (bytes : Bytes) (s : S) → (st.write_all bytes s).0 ≢ err out_of_fuel
      write_ne bytes s h = elim (t.write_fails bytes s) [ inl w ↦ cc | inr w ↦ cc ]
