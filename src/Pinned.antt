-- ===== src/Pinned.antt =====
-- desktop-linux/src/tls.rs: `PinnedPeerVerifier`, by which either side accepts the other's certificate.
use Prim.Native.Nat.{max, digits, differ, bit_or, bit_xor, bit_or-bitwise, bit_xor-bitwise}
use zerowire.Prelude.{
  ℕ, zero, suc, ◌/◌, ◌%◌, ◌≤◌, ◌≡◌, ◌↔◌, refl, sym, ap, ap₂, ◌∙◌, arith, Bool, true, false, not,
  ◌==◌, ==_iff, if◌then◌else◌, [], ◌∷◌, length, Result, ok, err,
}
use zerowire.Bytes.{Bytes}

pub record PinnedPeerVerifier : Type 0 where
  pub expected : Bytes

-- The case of `rustls::Error` that is returned.
pub data CertError : Type 0 where
  application_verification_failure : CertError

-- The `for`, over two certificates of the same length, from what `diff` is so far.
unfoldable diff_from : ℕ → Bytes → Bytes → ℕ
diff_from diff [] ys = diff
diff_from diff (x ∷ xs) [] = diff
diff_from diff (x ∷ xs) (y ∷ ys) = diff_from (bit_or diff (bit_xor x y)) xs ys

unfoldable pub matches : PinnedPeerVerifier → Bytes → Bool
unfolding diff_from
matches v presented =
    if not (length v.expected == length presented)
    then false
    else diff_from 0 v.expected presented == 0

unfoldable pub verify_server_cert : PinnedPeerVerifier → Bytes → Result CertError (Unit {0})
unfolding matches
verify_server_cert v end_entity =
    if matches v end_entity then ok tt else err application_verification_failure

unfoldable pub verify_client_cert : PinnedPeerVerifier → Bytes → Result CertError (Unit {0})
unfolding matches
verify_client_cert v end_entity =
    if matches v end_entity then ok tt else err application_verification_failure

or_digits_zero : (n a b : ℕ) → a ≤ n → digits (λ b. b) max n a b ≡ 0 → (a ≡ 0) × (b ≡ 0)
or_digits_zero zero zero b h e = (refl, e)
or_digits_zero zero (suc a) b h e = absurd (omega arith)
or_digits_zero (suc n) zero b h e = (refl, e)
or_digits_zero (suc n) (suc a) b h e =
    let (p, q) = or_digits_zero n (suc a / 2) (b / 2) (omega arith) (omega arith) in
    absurd (omega arith)

differ_zero : (x y : ℕ) → differ x y ≡ 0 → x ≡ y
differ_zero zero y e = sym e
differ_zero (suc x) zero e = absurd (omega arith)
differ_zero (suc x) (suc y) e = ap suc (differ_zero x y e)

differ_same : (x : ℕ) → differ x x ≡ 0
differ_same zero = refl
differ_same (suc x) = differ_same x

xor_digits_zero : (n a b : ℕ) → a ≤ n → digits (λ b. b) differ n a b ≡ 0 → a ≡ b
xor_digits_zero zero zero b h e = sym e
xor_digits_zero zero (suc a) b h e = absurd (omega arith)
xor_digits_zero (suc n) zero b h e = sym e
xor_digits_zero (suc n) (suc a) b h e =
    let halves = xor_digits_zero n (suc a / 2) (b / 2) (omega arith) (omega arith) in
    let ends = differ_zero (suc a % 2) (b % 2) (omega arith) in omega arith

xor_digits_same : (n a : ℕ) → a ≤ n → digits (λ b. b) differ n a a ≡ 0
xor_digits_same zero zero h = refl
xor_digits_same zero (suc a) h = absurd (omega arith)
xor_digits_same (suc n) zero h = refl
xor_digits_same (suc n) (suc a) h =
    omega (arith, xor_digits_same n (suc a / 2) (omega arith), differ_same (suc a % 2))

bit_or_zero : (a b : ℕ) → bit_or a b ≡ 0 → (a ≡ 0) × (b ≡ 0)
bit_or_zero a b e = or_digits_zero a a b (omega arith) (sym (bit_or-bitwise a b) ∙ e)

bit_xor_zero : (a b : ℕ) → bit_xor a b ≡ 0 → a ≡ b
bit_xor_zero a b e = xor_digits_zero a a b (omega arith) (sym (bit_xor-bitwise a b) ∙ e)

bit_xor_same : (a : ℕ) → bit_xor a a ≡ 0
bit_xor_same a = bit_xor-bitwise a a ∙ xor_digits_same a a (omega arith)

diff_from_zero :
    (diff : ℕ) (xs ys : Bytes)
    → length xs ≡ length ys
    → diff_from diff xs ys ≡ 0
    → (diff ≡ 0) × (xs ≡ ys)
unfolding diff_from
diff_from_zero diff [] [] h e = (e, refl)
diff_from_zero diff [] (y ∷ ys) h e = absurd (omega arith)
diff_from_zero diff (x ∷ xs) [] h e = absurd (omega arith)
diff_from_zero diff (x ∷ xs) (y ∷ ys) h e =
    let (none_here, rest) = diff_from_zero (bit_or diff (bit_xor x y)) xs ys (omega arith) e in
    let (before, here) = bit_or_zero diff (bit_xor x y) none_here in
    (before, ap₂ (λ (z : ℕ) (zs : Bytes). z ∷ zs) (bit_xor_zero x y here) rest)

diff_from_same : (xs : Bytes) → diff_from 0 xs xs ≡ 0
unfolding diff_from
diff_from_same [] = refl
diff_from_same (x ∷ xs) = rw (bit_xor_same x) (diff_from_same xs)

matches-same : (v : PinnedPeerVerifier) → matches v v.expected ≡ true
unfolding matches
matches-same v =
    rw ((==_iff (length v.expected) (length v.expected)).1 refl, diff_from_same v.expected) refl

matches_only :
    (v : PinnedPeerVerifier) (presented : Bytes)
    → matches v presented ≡ true
    → presented ≡ v.expected
unfolding matches
matches_only v presented e =
    let same : length v.expected ≡ length presented = ground arith in
    let none : diff_from 0 v.expected presented ≡ 0 = ground arith in
    sym (diff_from_zero 0 v.expected presented same none).1

-- On either side of a connection a certificate is accepted exactly if it is, byte by byte, the one that
-- is expected.
pub verify_cert_pins :
    (v : PinnedPeerVerifier) (end_entity : Bytes)
    → ((verify_server_cert v end_entity ≡ ok tt) ↔ (end_entity ≡ v.expected))
      × ((verify_client_cert v end_entity ≡ ok tt) ↔ (end_entity ≡ v.expected))
unfolding verify_server_cert verify_client_cert
verify_cert_pins v end_entity = (
  ((λ e. matches_only v end_entity (ground arith)), (λ e. rw (e, matches-same v) refl)),
  ((λ e. matches_only v end_entity (ground arith)), (λ e. rw (e, matches-same v) refl)),
)
