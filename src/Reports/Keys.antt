-- ===== src/Reports/Keys.antt =====
-- Keyboard reports as lists of events, and the keys that these leave pressed.
use zerowire.Prelude.{
  ℕ, zero, suc, ◌≡◌, ◌≢◌, refl, ap, ◌∙◌, sym, arith, Bool, true, false, not, ◌&&◌, Bool-cases, inl,
  inr, ◌==◌, if◌then◌else◌, Option, none, some, List, [], ◌∷◌, ◌++◌, ==_refl, ==_iff, ne→==_false,
  All,
}
use zerowire.Bytes.{Bytes, at, AllBytes, IsByte}
use zerowire.Uinput.{InputEvent}
use zerowire.Keymap.{hid_usage_to_linux_key}
use zerowire.Keymap.Inverse.{ne_of_test, is_modifier, code-not_modifier, code_injective}
use zerowire.Reports.{zero_statics, has_bit, contains, modifier_bits}
use zerowire.Reports.Events.{replay, replay-append, replay-only_if, only_if, key_events}

abbrev pub modifiers_events : ℕ → ℕ → List (ℕ × ℕ) → List InputEvent
modifiers_events prev now [] = []
modifiers_events prev now (b ∷ bs) =
    only_if (if has_bit prev b.0 then not (has_bit now b.0) else has_bit now b.0)
      (key_events b.1 (has_bit now b.0))
    ++ modifiers_events prev now bs

abbrev pub code_events : Bool → Option ℕ → List InputEvent
code_events pressed none = []
code_events pressed (some code) = key_events code pressed

abbrev pub usage_events : Bool → Bytes → ℕ → List InputEvent
usage_events pressed others k =
    only_if (not (k == 0) && not (contains others k))
      (code_events pressed (hid_usage_to_linux_key k))

abbrev pub usages_events : Bool → Bytes → Bytes → List InputEvent
usages_events pressed others [] = []
usages_events pressed others (k ∷ ks) =
    usage_events pressed others k ++ usages_events pressed others ks

replay-key_own :
    (code : ℕ) (down pressed : Bool) → replay code down (key_events code pressed) ≡ pressed
replay-key_own code down true = ground (arith, ==_refl code)
replay-key_own code down false = ground (arith, ==_refl code)

replay-key_other :
    (code code' : ℕ) (down pressed : Bool)
    → code' ≢ code
    → replay code down (key_events code' pressed) ≡ down
replay-key_other code code' down pressed h = ground (arith, ne→==_false code' code h)

-- The modifier keys, and no others, change with the modifier byte.
abbrev AllModifiers : List (ℕ × ℕ) → Type 0
AllModifiers bs = All (λ (b : ℕ × ℕ). is_modifier b.1 ≡ true) bs

modifier_bits-AllModifiers : AllModifiers modifier_bits
modifier_bits-AllModifiers = (refl, (refl, (refl, (refl, (refl, (refl, (refl, (refl, tt))))))))

modifier_or_not : (c c' : ℕ) → is_modifier c ≡ true → is_modifier c' ≡ false → c ≢ c'
modifier_or_not c c' h n e =
    let clash : true ≡ false = sym h ∙ ap is_modifier e ∙ n in absurd (ground arith)

replay-modifiers :
    (code prev now : ℕ) (bs : List (ℕ × ℕ)) (down : Bool)
    → AllModifiers bs
    → is_modifier code ≡ false
    → replay code down (modifiers_events prev now bs) ≡ down
replay-modifiers code prev now [] down h n = refl
replay-modifiers code prev now (b ∷ bs) down h n =
    let other : b.1 ≢ code = λ e. modifier_or_not b.1 code h.0 n e in
    let changed : Bool = if has_bit prev b.0 then not (has_bit now b.0) else has_bit now b.0 in
    let first : List InputEvent = key_events b.1 (has_bit now b.0) in
    let rest : List InputEvent = modifiers_events prev now bs in
    replay-append code (only_if changed first) rest down
    ∙ ap (λ (d : Bool). replay code d rest)
        (replay-only_if changed code down first
          (replay-key_other code b.1 down (has_bit now b.0) other))
    ∙ replay-modifiers code prev now bs down h.1 n

merge :
    (c others pressed down : Bool)
    → (if c && not others then pressed else if others then down else pressed)
      ≡ (if not others then pressed else down)
merge true true pressed down = refl
merge true false pressed down = refl
merge false true pressed down = refl
merge false false pressed down = refl

update :
    (was now : Bool)
    → (if now && not was then true else if was && not now then false else was) ≡ now
update true true = refl
update true false = refl
update false true = refl
update false false = refl

module _ (k code : ℕ) (fits : IsByte k) (nonzero : k ≢ 0)
    (coded : hid_usage_to_linux_key k ≡ some code) where
  replay-code_events :
      (k' : ℕ) (down pressed : Bool)
      → IsByte k'
      → k' ≢ k
      → (o : Option ℕ) → hid_usage_to_linux_key k' ≡ o
      → replay code down (code_events pressed o) ≡ down
  replay-code_events k' down pressed fits' ne none e = refl
  replay-code_events k' down pressed fits' ne (some code') e =
      replay-key_other code code' down pressed
        (λ same. ne (code_injective k' k code fits' fits (e ∙ ap some same) coded))

  usage_events-other :
      (k' : ℕ) (down pressed : Bool) (others : Bytes)
      → IsByte k'
      → k' ≢ k
      → replay code down (usage_events pressed others k') ≡ down
  usage_events-other k' down pressed others fits' ne =
      replay-only_if _ code down (code_events pressed (hid_usage_to_linux_key k'))
        (replay-code_events k' down pressed fits' ne (hid_usage_to_linux_key k') refl)

  unless :
      (b down pressed : Bool)
      → replay code down (only_if (not b) (key_events code pressed)) ≡ (if b then down else pressed)
  unless true down pressed = refl
  unless false down pressed = replay-key_own code down pressed

  usage_events-own :
      (down pressed : Bool) (others : Bytes)
      → replay code down (usage_events pressed others k)
        ≡ (if contains others k then down else pressed)
  usage_events-own down pressed others =
      rw (ne→==_false k 0 nonzero, coded) (unless (contains others k) down pressed)

  -- The keys of `ks` that are not in `others` are pressed or released.
  replay-usages :
      (pressed : Bool) (others ks : Bytes) (down : Bool)
      → AllBytes ks
      → replay code down (usages_events pressed others ks)
        ≡ (if contains ks k && not (contains others k) then pressed else down)
  replay-usages pressed others [] down h = refl
  replay-usages pressed others (k' ∷ ks) down h =
      let rest : List InputEvent = usages_events pressed others ks in
      let split = replay-append code (usage_events pressed others k') rest down in
      elim (Bool-cases (k' == k)) [
        | inl own ↦
            let first : replay code down (usage_events pressed others k')
                ≡ (if contains others k then down else pressed) =
              ap (λ (u : ℕ). replay code down (usage_events pressed others u)) ((==_iff k' k).0 own)
              ∙ usage_events-own down pressed others in
            split
            ∙ ap (λ (d : Bool). replay code d rest) first
            ∙ replay-usages pressed others ks (if contains others k then down else pressed) h.1
            ∙ rw own (merge (contains ks k) (contains others k) pressed down)
        | inr other ↦
            split
            ∙ ap (λ (d : Bool). replay code d rest)
                (usage_events-other k' down pressed others h.0 (ne_of_test k' k other))
            ∙ rw other (replay-usages pressed others ks down h.1)
      ]

  -- All of a report: the keys that were down and are not named any more are released, and those that
  -- are named and were not are pressed.
  pub replay-report :
      (prev_mod modifier : ℕ) (prev_keys keys : Bytes)
      → AllBytes prev_keys
      → AllBytes keys
      → replay code (contains prev_keys k) (
          modifiers_events prev_mod modifier modifier_bits
          ++ (usages_events false keys prev_keys ++ (usages_events true prev_keys keys ++ [])))
        ≡ contains keys k
  replay-report prev_mod modifier prev_keys keys h h' =
      let was : Bool = contains prev_keys k in
      let now : Bool = contains keys k in
      let mods : List InputEvent = modifiers_events prev_mod modifier modifier_bits in
      let released : List InputEvent = usages_events false keys prev_keys in
      let typed : List InputEvent = usages_events true prev_keys keys in
      let left : Bool = if was && not now then false else was in
      replay-append code mods (released ++ (typed ++ [])) was
      ∙ ap (λ (d : Bool). replay code d (released ++ (typed ++ [])))
          (replay-modifiers code prev_mod modifier modifier_bits was modifier_bits-AllModifiers
            (code-not_modifier k code fits coded))
      ∙ replay-append code released (typed ++ []) was
      ∙ ap (λ (d : Bool). replay code d (typed ++ [])) (replay-usages false keys prev_keys was h)
      ∙ replay-append code typed [] left
      ∙ replay-usages true prev_keys keys left h'
      ∙ update was now

-- The six key bytes of a report.
abbrev pub report_keys : Bytes → Bytes
report_keys body = at body 2 ∷ at body 3 ∷ at body 4 ∷ at body 5 ∷ at body 6 ∷ at body 7 ∷ []

at-IsByte : (body : Bytes) (i : ℕ) → AllBytes body → IsByte (at body i)
at-IsByte [] i h = omega arith
at-IsByte (b ∷ body) zero h = h.0
at-IsByte (b ∷ body) (suc i) h = at-IsByte body i h.1

pub report_keys-AllBytes : (body : Bytes) → AllBytes body → AllBytes (report_keys body)
report_keys-AllBytes body h =
    let b = λ (i : ℕ). at-IsByte body i h in (b 2, (b 3, (b 4, (b 5, (b 6, (b 7, tt))))))

-- Before the first report no key is down.
pub zero_keys : (k : ℕ) → k ≢ 0 → false ≡ contains zero_statics.prev_keys k
zero_keys k nonzero = ground (arith, ne→==_false 0 k (λ e. nonzero (sym e)))
