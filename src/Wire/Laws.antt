-- ===== src/Wire/Laws.antt =====
-- What `std::io` promises of a stream, and what the envelope helpers do over any stream that keeps it.
use zerowire.Prelude.{
  ℕ, ◌%◌, ◌^◌, ◌<◌, ◌≤◌, ◌≡◌, ◌⊎◌, refl, sym, ap, ◌∙◌, arith, some, [], ◌++◌, length, take, drop,
  ok, err, append-nil, append_assoc, length-append, take-append, drop-append,
}
use zerowire.Bytes.{Bytes, at, u32_to_be, u32_from_be, u32_from_be-to_be}
use zerowire.Envelope
use zerowire.Envelope.{Channel, Envelope, header, header_len, max_payload, too_large}
use zerowire.Envelope.RoundTrip.{frame, encode-frame, parse-frame}
use zerowire.Io.{Io, io, ◌>>=◌}
use zerowire.Wire.{Stream, recv_envelope, send_envelope}

-- The documented behaviour of `read_exact` and `write_all`, over the bytes that the peer has sent and
-- the bytes that it has been sent.
pub record Transport {S : Type 0} (st : Stream S) : Type 0 where
  pub incoming : S → Bytes
  pub outgoing : S → Bytes
  pub read_ok :
      (n : ℕ) (s : S) → n ≤ length (incoming s) → (st.read_exact n s).0 ≡ ok (take n (incoming s))
  pub read_rest :
      (n : ℕ) (s : S)
      → n ≤ length (incoming s)
      → incoming (st.read_exact n s).1 ≡ drop n (incoming s)
  pub read_short : (n : ℕ) (s : S) → length (incoming s) < n → (st.read_exact n s).0 ≡ err io
  pub read_keeps : (n : ℕ) (s : S) → outgoing (st.read_exact n s).1 ≡ outgoing s
  pub write_appends :
      (bs : Bytes) (s : S)
      → (st.write_all bs s).0 ≡ ok tt
      → outgoing (st.write_all bs s).1 ≡ outgoing s ++ bs
  pub write_fails :
      (bs : Bytes) (s : S) → ((st.write_all bs s).0 ≡ ok tt) ⊎ ((st.write_all bs s).0 ≡ err io)
  pub write_keeps : (bs : Bytes) (s : S) → incoming (st.write_all bs s).1 ≡ incoming s

-- Every write succeeds: the peer does not close its end.
abbrev pub CanWrite : {S : Type 0} → Stream S → Type 0
CanWrite {S} st = (bs : Bytes) (s : S) → (st.write_all bs s).0 ≡ ok tt

length-header : (c : Channel) (n : ℕ) → length (header c n) ≡ header_len
unfolding header u32_to_be
length-header c n = refl

-- The length field of a header, as `recv_envelope` decodes it.
length_field :
    (c : Channel) (n : ℕ)
    → n ≤ max_payload
    → u32_from_be (at (header c n) 4) (at (header c n) 5) (at (header c n) 6) (at (header c n) 7)
      ≡ n
unfolding header u32_to_be
length_field c n fits =
    let small : n % 2 ^ 32 ≡ n = omega arith in rw small (u32_from_be-to_be n (omega arith))

module _ {S : Type 0} {st : Stream S} (t : Transport st) where
  -- `m` started in `s` returns `a`, and leaves `i` to be read and `o` written.
  abbrev pub Runs : {A : Type 0} → Io S A → S → A → Bytes → Bytes → Type 0
  Runs m s a i o = ((m s).0 ≡ ok a) × (t.incoming (m s).1 ≡ i) × (t.outgoing (m s).1 ≡ o)

  pub Runs-bind :
      {A B : Type 0} (m : Io S A) (f : A → Io S B) (s : S) (a : A) (b : B) (i o i' o' : Bytes)
      → Runs m s a i o
      → Runs (f a) (m s).1 b i' o'
      → Runs (m >>= f) s b i' o'
  Runs-bind m f s a b i o i' o' h k = rw h.0 k

  -- Reading as many bytes as a first part has, where that part is next.
  pub read_exact-append :
      (part rest : Bytes) (s : S) {n : ℕ}
      → length part ≡ n
      → t.incoming s ≡ part ++ rest
      → Runs (st.read_exact n) s part rest (t.outgoing s)
  read_exact-append part rest s {n} size e =
      let room : n ≤ length (t.incoming s) = rw e (omega (arith, size, length-append part rest)) in
      (
        t.read_ok n s room ∙ ap ok (ap (take n) e ∙ take-append part rest n size),
        t.read_rest n s room ∙ ap (drop n) e ∙ drop-append part rest n size,
        t.read_keeps n s,
      )

  -- A frame that the peer has sent is received, and no byte behind it is taken.
  pub recv_envelope-frame :
      (env : Envelope) (rest : Bytes) (s : S)
      → length env.payload ≤ max_payload
      → t.incoming s ≡ frame env ++ rest
      → Runs (recv_envelope st) s env rest (t.outgoing s)
  unfolding recv_envelope frame
  recv_envelope-frame env rest s fits e =
      let n : ℕ = length env.payload in
      let h : Bytes = header env.channel n in
      let s1 : S = (st.read_exact header_len s).1 in
      let first =
        read_exact-append h (env.payload ++ rest) s (length-header _ _)
          (e ∙ append_assoc h env.payload rest) in
      let second = read_exact-append env.payload rest s1 refl first.1 in
      let parsed : Envelope.parse (h ++ env.payload) ≡ ok (some (env, length (frame env))) =
        ap Envelope.parse (sym (append-nil (frame env))) ∙ parse-frame env [] fits in
      rw (first.0, length_field env.channel n fits, second.0, parsed)
        (refl, second.1, second.2 ∙ first.2)

  -- A payload within the limit is sent as one frame.
  pub send_envelope-frame :
      CanWrite st
      → (env : Envelope) (s : S) → length env.payload ≤ max_payload
      → Runs
          (send_envelope st env.channel env.payload)
          s
          tt
          (t.incoming s)
          (t.outgoing s ++ frame env)
  unfolding send_envelope
  send_envelope-frame writes env s fits =
      rw (encode-frame env fits) (writes _ s, t.write_keeps _ s, t.write_appends _ s (writes _ s))
