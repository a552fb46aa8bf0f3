-- ===== src/Envelope/RoundTrip.antt =====
-- What `encode` writes, `parse` reads back, and the reverse.
use zerowire.Prelude.{
  ℕ, suc, ◌+◌, ◌-◌, ◌%◌, ◌^◌, ◌≤◌, ◌≡◌, refl, ap, ◌∙◌, arith, Option, none, some, ◌∷◌, ◌++◌, ltb,
  if◌then◌else◌, le→ltb_false, length, take, drop, Result, ok, err, length-append, take-append,
  take-append-drop, length-take,
}
use zerowire.Bytes.{
  Bytes, AllBytes, u32_to_be, u32_from_be, u32_from_be-to_be, IsByte, u32_from_be-IsU32,
  u32_to_be-from_be,
}
use zerowire.Envelope.{
  Channel, Envelope, control, usbip, hid, keepalive, header_len, max_payload, to_u8, from_u8,
  header, magic_0, magic_1, protocol_version, EnvelopeError, too_large, encode, parse,
}

pub from_u8-to_u8 : (c : Channel) → from_u8 (to_u8 c) ≡ ok c
unfolding from_u8 to_u8
from_u8-to_u8 control = refl
from_u8-to_u8 usbip = refl
from_u8-to_u8 hid = refl
from_u8-to_u8 keepalive = refl

-- The bytes of an envelope, as one list.
unfoldable pub frame : Envelope → Bytes
frame env = header env.channel (length env.payload) ++ env.payload

pub encode-frame : (env : Envelope) → length env.payload ≤ max_payload → encode env ≡ ok (frame env)
unfolding encode frame
encode-frame env h = ground (arith, le→ltb_false max_payload (length env.payload))

pub length-frame : (env : Envelope) → length (frame env) ≡ header_len + length env.payload
unfolding frame header u32_to_be
length-frame env = omega arith

-- `parse` past the magic, the version and the channel: the length decides.
abbrev parse_body : Channel → ℕ → Bytes → Result EnvelopeError (Option (Envelope × ℕ))
parse_body c len body =
    if ltb max_payload len
    then err (too_large len)
    else if ltb (length body) len
    then ok none
    else ok (some (record { channel = c; payload = take len body }, header_len + len))

pub parse-header :
    (c : Channel) (l0 l1 l2 l3 : ℕ) (body : Bytes)
    → parse (magic_0 ∷ magic_1 ∷ protocol_version ∷ to_u8 c ∷ l0 ∷ l1 ∷ l2 ∷ l3 ∷ body)
      ≡ parse_body c (u32_from_be l0 l1 l2 l3) body
unfolding parse
parse-header c l0 l1 l2 l3 body =
    let len : ℕ = u32_from_be l0 l1 l2 l3 in
    let slice : header_len + len - header_len ≡ len = omega arith in
    rw (from_u8-to_u8 c, slice) (ground arith)

-- The frame of an envelope with a payload within the limit, at the front of any buffer, is read
-- back, and its length is what was consumed.
pub parse-frame :
    (env : Envelope) (rest : Bytes)
    → length env.payload ≤ max_payload
    → parse (frame env ++ rest) ≡ ok (some (env, length (frame env)))
unfolding frame header u32_to_be
parse-frame env rest h =
    let n : ℕ = length env.payload in
    let fits : n % 2 ^ 32 ≡ n = omega arith in
    parse-header _ _ _ _ _ _
    ∙ rw (fits, u32_from_be-to_be n (omega arith))
        (ground (arith, length-append env.payload rest, take-append env.payload rest n refl))

pub to_u8-from_u8 : (v : ℕ) {c : Channel} → from_u8 v ≡ ok c → to_u8 c ≡ v
unfolding from_u8 to_u8
to_u8-from_u8 v h = ground arith

-- What `parse` has checked of a buffer that it accepts.
parse_accepts :
    (b0 b1 b2 b3 b4 b5 b6 b7 : ℕ) (body : Bytes) (env : Envelope) (n : ℕ)
    → parse (b0 ∷ b1 ∷ b2 ∷ b3 ∷ b4 ∷ b5 ∷ b6 ∷ b7 ∷ body) ≡ ok (some (env, n))
    → (b0 ≡ magic_0)
      × (b1 ≡ magic_1)
      × (b2 ≡ protocol_version)
      × (to_u8 env.channel ≡ b3)
      × (env.payload ≡ take (u32_from_be b4 b5 b6 b7) body)
      × (n ≡ header_len + u32_from_be b4 b5 b6 b7)
      × (u32_from_be b4 b5 b6 b7 ≤ length body)
      × (u32_from_be b4 b5 b6 b7 ≤ max_payload)
unfolding parse
parse_accepts b0 b1 b2 b3 b4 b5 b6 b7 body env n h =
    let len : ℕ = u32_from_be b4 b5 b6 b7 in
    let slice : header_len + len - header_len ≡ len = omega arith in
    ground (arith, to_u8-from_u8 b3 {c = env.channel}, ap (λ k. take k body) slice)

drop-header :
    (b0 b1 b2 b3 b4 b5 b6 b7 len : ℕ) (body : Bytes)
    → drop (header_len + len) (b0 ∷ b1 ∷ b2 ∷ b3 ∷ b4 ∷ b5 ∷ b6 ∷ b7 ∷ body) ≡ drop len body
drop-header b0 b1 b2 b3 b4 b5 b6 b7 len body =
    let e : header_len + len ≡ suc (suc (suc (suc (suc (suc (suc (suc len))))))) = omega arith in
    rw e

-- The frame of an envelope whose length field is spelled by the four bytes `a b c d`.
frame_at_length :
    (env : Envelope) (a b c d : ℕ)
    → IsByte a
    → IsByte b
    → IsByte c
    → IsByte d
    → length env.payload ≡ u32_from_be a b c d
    → frame env
      ≡ magic_0 ∷ magic_1 ∷ protocol_version ∷ to_u8 env.channel ∷ a ∷ b ∷ c ∷ d ∷ env.payload
unfolding frame header
frame_at_length env a b c d ha hb hc hd e =
    let fits : u32_from_be a b c d % 2 ^ 32 ≡ u32_from_be a b c d =
      omega (arith, u32_from_be-IsU32 a b c d ha hb hc hd) in
    rw (e, fits, u32_to_be-from_be a b c d ha hb hc hd)

-- A buffer of bytes that is accepted starts with the frame of the envelope that is returned, the
-- number returned is the length of that frame, and the payload is within the limit.
pub parse-eq-frame :
    (buf : Bytes) (env : Envelope) (n : ℕ)
    → AllBytes buf
    → parse buf ≡ ok (some (env, n))
    → (buf ≡ frame env ++ drop n buf)
      × (n ≡ length (frame env))
      × (length env.payload ≤ max_payload)
parse-eq-frame (b0 ∷ b1 ∷ b2 ∷ b3 ∷ b4 ∷ b5 ∷ b6 ∷ b7 ∷ body) env n bytes h =
    let len : ℕ = u32_from_be b4 b5 b6 b7 in
    let (e0, e1, e2, e3, payload, size, inside, cap) =
      parse_accepts b0 b1 b2 b3 b4 b5 b6 b7 body env n h in
    let count : length env.payload ≡ len = rw payload (omega (arith, length-take len body)) in
    let shape =
      frame_at_length env b4 b5 b6 b7 (omega arith) (omega arith) (omega arith) (omega arith)
        count in
    (
      rw (shape, size, drop-header, payload, take-append-drop len body, e0, e1, e2, e3),
      rw (size, shape) (omega (arith, count)),
      omega (arith, count),
    )
parse-eq-frame _ env n bytes h = unfold parse in ground arith
