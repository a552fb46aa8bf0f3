-- ===== src/Wire/Sound.antt =====
-- `recv_envelope` on any input: what it returns was on the wire, and what is cut short is an error.
use zerowire.Prelude.{
  ℕ, ◌+◌, ◌<◌, ◌≤◌, ◌≡◌, refl, sym, ap, ◌∙◌, arith, Option, none, some, [], ◌++◌, length, take,
  drop, Result, ok, err, map_err, ok_or, length-append, take-append-drop, length-take, length-drop,
  drop_all, get_or-append_lt, append_assoc, append-nil, ap₂, All-append, All-take, All-drop,
}
use native.Mathlib.Decide.{dec_le}
use zerowire.Bytes.{Bytes, AllBytes, IsByte, at, u32_from_be}
use zerowire.Envelope
use zerowire.Envelope.{Envelope, EnvelopeError, header_len, max_payload}
use zerowire.Envelope.RoundTrip.{frame, parse-eq-frame}
use zerowire.Envelope.Incremental.{parse_total}
use zerowire.Io.{Io, Failure, io, envelope, incomplete, lift, pure, ◌>>=◌}
use zerowire.Wire.{Stream, recv_envelope}
use zerowire.Wire.Laws.{Transport}

-- The length that the eight bytes of a header declare.
abbrev pub declared : Bytes → ℕ
declared h = u32_from_be (at h 4) (at h 5) (at h 6) (at h 7)

declared-append : (h rest : Bytes) → length h ≡ header_len → declared (h ++ rest) ≡ declared h
declared-append h rest size = rw (
  get_or-append_lt h rest 4 0 (omega arith),
  get_or-append_lt h rest 5 0 (omega arith),
  get_or-append_lt h rest 6 0 (omega arith),
  get_or-append_lt h rest 7 0 (omega arith),
)

-- What `recv_envelope` makes of the answer of `parse`.
abbrev received : Result EnvelopeError (Option (Envelope × ℕ)) → Result Failure Envelope
received (ok (some p)) = ok p.0
received (ok none) = err incomplete
received (err e) = err (envelope e)

abbrev finish : {S : Type 0} → Result EnvelopeError (Option (Envelope × ℕ)) → Io S Envelope
finish r = do
  parsed ← lift (map_err envelope r)
  (env, _) ← lift (ok_or parsed incomplete)
  pure env

finish_lem :
    {S : Type 0} (r : Result EnvelopeError (Option (Envelope × ℕ))) (s : S)
    → ((finish r s).0 ≡ received r) × ((finish r s).1 ≡ s)
finish_lem (ok (some p)) s = (refl, refl)
finish_lem (ok none) s = (refl, refl)
finish_lem (err e) s = (refl, refl)

received_ok :
    (r : Result EnvelopeError (Option (Envelope × ℕ))) (env : Envelope)
    → received r ≡ ok env
    → (n : ℕ) × (r ≡ ok (some (env, n)))
received_ok (ok (some (e, n))) env h = (n, ground arith)
received_ok (ok none) env h = absurd (ground arith)
received_ok (err e) env h = absurd (ground arith)

module _ {S : Type 0} {st : Stream S} (t : Transport st) where
  -- With fewer than eight bytes to come `recv_envelope` fails, and writes nothing.
  pub recv_envelope_short :
      (s : S)
      → length (t.incoming s) < header_len
      → ((recv_envelope st s).0 ≡ err io) × (t.outgoing (recv_envelope st s).1 ≡ t.outgoing s)
  unfolding recv_envelope
  recv_envelope_short s h = rw (t.read_short header_len s h) (refl, t.read_keeps header_len s)

  -- If fewer bytes follow the header than it declares, the answer is the I/O error, whatever the
  -- header says otherwise: the payload is read before the magic, the version, the channel and the
  -- limit on the length are looked at.
  pub recv_envelope_reads_first :
      (s : S)
      → header_len ≤ length (t.incoming s)
      → length (t.incoming s) < header_len + declared (take header_len (t.incoming s))
      → (recv_envelope st s).0 ≡ err io
  unfolding recv_envelope
  recv_envelope_reads_first s some_header cut =
      let s1 : S = (st.read_exact header_len s).1 in
      let left : t.incoming s1 ≡ drop header_len (t.incoming s) =
        t.read_rest header_len s some_header in
      let missing : length (t.incoming s1) < declared (take header_len (t.incoming s)) =
        rw left (omega (arith, length-drop header_len (t.incoming s))) in
      rw (t.read_ok header_len s some_header, t.read_short _ s1 missing)

  -- Both reads succeed: the result is what `parse` makes of the bytes read.
  recv_envelope_whole :
      (s : S)
      → header_len ≤ length (t.incoming s)
      → header_len + declared (take header_len (t.incoming s)) ≤ length (t.incoming s)
      → let hd = take header_len (t.incoming s) in
        let body = drop header_len (t.incoming s) in
        ((recv_envelope st s).0 ≡ received (Envelope.parse (hd ++ take (declared hd) body)))
        × (t.incoming (recv_envelope st s).1 ≡ drop (declared hd) body)
        × (t.outgoing (recv_envelope st s).1 ≡ t.outgoing s)
  unfolding recv_envelope
  recv_envelope_whole s some_header whole =
      let inc : Bytes = t.incoming s in
      let hd : Bytes = take header_len inc in
      let s1 : S = (st.read_exact header_len s).1 in
      let s2 : S = (st.read_exact (declared hd) s1).1 in
      let left : t.incoming s1 ≡ drop header_len inc = t.read_rest header_len s some_header in
      let room : declared hd ≤ length (t.incoming s1) =
        rw left (omega (arith, length-drop header_len inc)) in
      let first = t.read_ok header_len s some_header in
      let second = t.read_ok (declared hd) s1 room ∙ ap ok (ap (take (declared hd)) left) in
      let (result, state) =
        finish_lem (Envelope.parse (hd ++ take (declared hd) (drop header_len inc))) s2 in
      rw (first, second)
        (
          result,
          ap t.incoming state ∙ t.read_rest (declared hd) s1 room ∙ ap (drop (declared hd)) left,
          ap t.outgoing state ∙ t.read_keeps (declared hd) s1 ∙ t.read_keeps header_len s,
        )

  -- An envelope that is received was the next frame on the wire, its payload is within the limit,
  -- nothing beyond it is consumed and nothing is written, for incoming bytes below 256.
  pub recv_envelope_sound :
      (s : S) (env : Envelope)
      → AllBytes (t.incoming s)
      → (recv_envelope st s).0 ≡ ok env
      → (t.incoming s ≡ frame env ++ t.incoming (recv_envelope st s).1)
        × (length env.payload ≤ max_payload)
        × (t.outgoing (recv_envelope st s).1 ≡ t.outgoing s)
  recv_envelope_sound s env bytes h = elim (dec_le header_len (length (t.incoming s))) [
    | no cut ↦ absurd (ground (arith, recv_envelope_short s))
    | yes some_header ↦
        elim (dec_le (header_len + declared (take header_len (t.incoming s)))
          (length (t.incoming s))) [
            | no cut ↦ absurd (ground (arith, recv_envelope_reads_first s))
            | yes whole ↦
                let hd : Bytes = take header_len (t.incoming s) in
                let body : Bytes = drop header_len (t.incoming s) in
                let len : ℕ = declared hd in
                let full : Bytes = hd ++ take len body in
                let count : length hd ≡ header_len =
                  omega (arith, length-take header_len (t.incoming s)) in
                let room : len ≤ length body =
                  omega (arith, length-drop header_len (t.incoming s)) in
                let (result, left, kept) = recv_envelope_whole s some_header whole in
                let (n, accepted) = received_ok (Envelope.parse full) env (sym result ∙ h) in
                let full_bytes : AllBytes full =
                  All-append IsByte hd (take len body) (All-take IsByte header_len _ bytes)
                    (All-take IsByte len body (All-drop IsByte header_len _ bytes)) in
                let (shape, size, cap) = parse-eq-frame full env n full_bytes accepted in
                let exact : drop n full ≡ [] = drop_all full n (
                  omega (
                    arith,
                    parse_total full env n accepted,
                    declared-append hd (take len body) count,
                    length-append hd (take len body),
                    length-take len body,
                  )) in
                let spelled : full ≡ frame env =
                  shape ∙ ap (λ (z : Bytes). frame env ++ z) exact ∙ append-nil (frame env) in
                (
                  sym (take-append-drop header_len (t.incoming s))
                      ∙ ap (λ (z : Bytes). hd ++ z) (sym (take-append-drop len body))
                      ∙ sym (append_assoc hd (take len body) (drop len body))
                      ∙ ap₂ (λ (a b : Bytes). a ++ b) spelled (sym left),
                  cap,
                  kept,
                )
          ]
  ]

  -- Every envelope that is received takes at least its header from what is to come.
  pub recv_envelope_shrinks :
      (s : S) (env : Envelope)
      → (recv_envelope st s).0 ≡ ok env
      → length (t.incoming (recv_envelope st s).1) < length (t.incoming s)
  recv_envelope_shrinks s env h = elim (dec_le header_len (length (t.incoming s))) [
    | no cut ↦ absurd (ground (arith, recv_envelope_short s))
    | yes some_header ↦
        elim (dec_le (header_len + declared (take header_len (t.incoming s)))
          (length (t.incoming s))) [
            | no cut ↦ absurd (ground (arith, recv_envelope_reads_first s))
            | yes whole ↦
                let body : Bytes = drop header_len (t.incoming s) in
                let len : ℕ = declared (take header_len (t.incoming s)) in
                rw (recv_envelope_whole s some_header whole).1
                  (omega (arith, length-drop len body, length-drop header_len (t.incoming s)))
          ]
  ]
