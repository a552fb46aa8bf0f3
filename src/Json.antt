-- ===== src/Json.antt =====
-- serde_json, which is not part of the repository: a serializer and a parser for the values of `A`.
use mathlib.Core.Path.{◌≡◌}
use mathlib.Core.Option.{Option, some}
use zerowire.Bytes.{Bytes}

pub record Json (A : Type 0) : Type 0 where
  pub to_vec : A → Bytes
  pub from_slice : Bytes → Option A

-- serde's documented property of a derived serializer and parser, at one value: what was written is
-- read back.
abbrev pub RoundTrips : {A : Type 0} → Json A → A → Type 0
RoundTrips json a = json.from_slice (json.to_vec a) ≡ some a
