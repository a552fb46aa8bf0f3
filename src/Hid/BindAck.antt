-- ===== src/Hid/BindAck.antt =====
-- The body of a `BindAck`: a length, the metadata as JSON, and the report descriptor.
use zerowire.Prelude.{
  ℕ, suc, ◌+◌, ◌%◌, ◌^◌, ◌≤◌, ◌<◌, ◌≡◌, refl, arith, ◌++◌, length, drop, ok, err, ok_or, none, take,
  ◌>>=◌, ◌∙◌, length-append, take-append, take-append_le, drop-append,
}
use zerowire.Bytes.{Bytes, u16_to_be, u16_from_be-to_be}
use zerowire.Json.{Json, RoundTrips}
use zerowire.Hid.{BindAckMeta, bad_meta, encode_bind_ack_body, parse_bind_ack_body}

-- `parse_bind_ack_body` on a length field `n` and what follows it.
parse_at_length :
    (json : Json BindAckMeta) (n : ℕ) (tail : Bytes)
    → n < 2 ^ 16
    → n ≤ length tail
    → parse_bind_ack_body json (u16_to_be n ++ tail)
      ≡ (ok_or (json.from_slice (take n tail)) bad_meta >>= λ m. ok (m, drop n tail))
unfolding parse_bind_ack_body u16_to_be
parse_at_length json n tail h fits =
    let step : 2 + n ≡ suc (suc n) = omega arith in rw (u16_from_be-to_be n h, step) (ground arith)

module _ (json : Json BindAckMeta) (meta : BindAckMeta) (rd : Bytes) where
  -- Metadata and report descriptor are read back, if serde reads back the metadata and its JSON is
  -- shorter than 2^16 bytes.
  pub parse_bind_ack_body-encode :
      RoundTrips json meta
      → length (json.to_vec meta) < 2 ^ 16
      → parse_bind_ack_body json (encode_bind_ack_body json meta rd) ≡ ok (meta, rd)
  unfolding encode_bind_ack_body
  parse_bind_ack_body-encode back h =
      let meta_json : Bytes = json.to_vec meta in
      let n : ℕ = length meta_json in
      let fits : n % 2 ^ 16 ≡ n = omega arith in
      rw fits (
        parse_at_length json n (meta_json ++ rd) h (omega (arith, length-append meta_json rd))
        ∙ rw (take-append meta_json rd n refl, drop-append meta_json rd n refl, back))

  -- If the JSON has 2^16 bytes or more, its length is cut on the wire, and the acknowledgement is
  -- refused for its metadata, where serde accepts no proper part of the JSON from its start on.
  pub parse_bind_ack_body_too_long :
      ((n : ℕ) → n < length (json.to_vec meta) → json.from_slice (take n (json.to_vec meta)) ≡ none)
      → 2 ^ 16 ≤ length (json.to_vec meta)
      → parse_bind_ack_body json (encode_bind_ack_body json meta rd) ≡ err bad_meta
  unfolding encode_bind_ack_body
  parse_bind_ack_body_too_long no_part h =
      let meta_json : Bytes = json.to_vec meta in
      let n : ℕ = length meta_json % 2 ^ 16 in
      let shorter : n < length meta_json = omega arith in
      let room : n ≤ length (meta_json ++ rd) = omega (arith, length-append meta_json rd) in
      parse_at_length json n (meta_json ++ rd) (omega arith) room
      ∙ rw (take-append_le meta_json rd n (omega arith), no_part n shorter) refl
