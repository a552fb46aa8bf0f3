-- ===== src/Envelope/Incremental.antt =====
-- Feeding `parse` more bytes: a decision once made stands, and before a whole frame is there it asks
-- for more.
use zerowire.Prelude.{
  ℕ, ◌+◌, ◌-◌, ◌≤◌, ◌≡◌, ◌≢◌, refl, sym, ap, ◌∙◌, arith, Option, none, some, [], ◌∷◌, ◌++◌, length,
  ◌⊎◌, inl, inr, Result, ok, err, length-append, take-append_le, append-nil,
}
use zerowire.Bytes.{Bytes, at, u32_from_be}
use zerowire.Envelope.{Envelope, EnvelopeError, header_len, max_payload, parse}
use zerowire.Envelope.RoundTrip.{frame, parse-frame}

-- A buffer on which `parse` has decided, with success or with an error, gets the same answer
-- whatever bytes arrive behind it.
pub parse-append : (buf more : Bytes) → parse buf ≢ ok none → parse (buf ++ more) ≡ parse buf
unfolding parse
parse-append (b0 ∷ b1 ∷ b2 ∷ b3 ∷ b4 ∷ b5 ∷ b6 ∷ b7 ∷ body) more h =
    let len : ℕ = u32_from_be b4 b5 b6 b7 in
    let slice : header_len + len - header_len ≡ len = omega arith in
    rw slice (ground (arith, length-append body more, take-append_le body more len))
parse-append _ more h = absurd (h (ground arith))

-- An accepted envelope takes its header at least, and no more bytes than there are.
pub parse_consumes :
    (buf : Bytes) (env : Envelope) (n : ℕ)
    → parse buf ≡ ok (some (env, n))
    → (header_len ≤ n) × (n ≤ length buf)
unfolding parse
parse_consumes (b0 ∷ b1 ∷ b2 ∷ b3 ∷ b4 ∷ b5 ∷ b6 ∷ b7 ∷ body) env n h = ground arith
parse_consumes _ env n h = ground arith

-- The bytes consumed are the header and what its length field declares.
pub parse_total :
    (buf : Bytes) (env : Envelope) (n : ℕ)
    → parse buf ≡ ok (some (env, n))
    → n ≡ header_len + u32_from_be (at buf 4) (at buf 5) (at buf 6) (at buf 7)
unfolding parse
parse_total (b0 ∷ b1 ∷ b2 ∷ b3 ∷ b4 ∷ b5 ∷ b6 ∷ b7 ∷ body) env n h = ground arith
parse_total _ env n h = ground arith

parse_none_or_not :
    (r : Result EnvelopeError (Option (Envelope × ℕ))) → (r ≡ ok none) ⊎ (r ≢ ok none)
parse_none_or_not (ok none) = inl refl
parse_none_or_not (ok (some p)) = inr (λ e. cc)
parse_none_or_not (err x) = inr (λ e. cc)

-- On every proper prefix of the frame of an envelope with a payload within the limit `parse` asks
-- for more bytes.
pub parse_truncated :
    (env : Envelope) (front back : Bytes) (b : ℕ)
    → length env.payload ≤ max_payload
    → frame env ≡ front ++ (b ∷ back)
    → parse front ≡ ok none
parse_truncated env front back b fits e = elim (parse_none_or_not (parse front)) [
  | inl waits ↦ waits
  | inr decided ↦
      let whole : parse front ≡ ok (some (env, length (frame env))) =
        sym (parse-append front (b ∷ back) decided)
        ∙ ap parse (sym e)
        ∙ ap parse (sym (append-nil (frame env)))
        ∙ parse-frame env [] fits in
      absurd (
        omega
          (arith, parse_consumes front env _ whole, ap length e, length-append front (b ∷ back)))
]
