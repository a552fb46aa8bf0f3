-- ===== src/Vhci/Ports.antt =====
-- The port that is taken from a status file, as the kernel prints it.
use zerowire.Prelude.{
  ℕ, ◌+◌, ◌-◌, ◌*◌, ◌/◌, ◌%◌, ◌^◌, ◌<◌, ◌≤◌, ◌≡◌, ◌≢◌, ◌⊎◌, inl, inr, refl, ap, ◌∙◌, arith, Bool,
  true, false, ◌||◌, ◌==◌, Option, none, some, List, [], ◌∷◌, ◌++◌, Result, ok, err, ok_or, All,
  All-append, if◌then◌else◌, ne→==_false,
}
use zerowire.Io.{Failure, no_free_port}
use zerowire.Vhci.{
  Codes, is_whitespace, newline, pieces, non_empty, split_whitespace, rows, parse_digits,
  parse_unsigned, free_port, first_port, find_free_port,
}

-- A row: the hub, the port and the state of the port, and the columns behind them.
pub record Row : Type 0 where
  pub hub_first : ℕ
  pub hub_rest : Codes
  pub port : ℕ
  pub sta : ℕ
  pub others : Codes

abbrev digit_code : ℕ → ℕ
digit_code d = 48 + d

abbrev three_digits : ℕ → Codes
three_digits n = digit_code (n / 100) ∷ digit_code (n / 10 % 10) ∷ digit_code (n % 10) ∷ []

-- `%04u` of the port
abbrev four_digits : ℕ → Codes
four_digits n = 48 ∷ three_digits n

-- `hs  0000 004 …`: two spaces behind the hub, and one behind the other columns
abbrev pub printed_row : Row → Codes
printed_row r =
    (r.hub_first ∷ r.hub_rest)
    ++ (32 ∷ 32 ∷ (four_digits r.port ++ (32 ∷ (three_digits r.sta ++ (32 ∷ r.others)))))

abbrev pub printed_rows : List Row → Codes
printed_rows [] = []
printed_rows (r ∷ rs) = printed_row r ++ (10 ∷ printed_rows rs)

abbrev pub printed_status : Codes → List Row → Codes
printed_status header rs = header ++ (10 ∷ printed_rows rs)

abbrev pub IsLine : Codes → Type 0
IsLine = All (λ c. newline c ≡ false)

abbrev pub IsWord : Codes → Type 0
IsWord = All (λ c. is_whitespace c ≡ false)

-- A hub is a word, a port has eight bits and a state three digits, and the rest is on one line.
abbrev pub IsRow : Row → Type 0
IsRow r = IsWord (r.hub_first ∷ r.hub_rest) × (r.port < 256) × (r.sta < 1000) × IsLine r.others

abbrev pub IsFree : Row → Type 0
IsFree r = (r.sta ≡ 4) ⊎ (r.sta ≡ 5)

pieces-append :
    (ends : ℕ → Bool) (w : Codes) (e : ℕ) (rest : Codes)
    → All (λ c. ends c ≡ false) w
    → ends e ≡ true
    → pieces ends (w ++ (e ∷ rest)) ≡ (w, (pieces ends rest).0 ∷ (pieces ends rest).1)
unfolding pieces
pieces-append ends [] e rest h stop = rw stop refl
pieces-append ends (c ∷ w) e rest h stop = rw (h.0, pieces-append ends w e rest h.1 stop) refl

-- A digit that keeps the number within the limit is read.
parse_digits-digit :
    (limit acc d : ℕ) (cs : Codes)
    → d < 10
    → acc * 10 + d ≤ limit
    → parse_digits limit acc (digit_code d ∷ cs) ≡ parse_digits limit (acc * 10 + d) cs
unfolding parse_digits
parse_digits-digit limit acc d cs small fits = ground arith

parse_digits-nil : (limit acc : ℕ) → parse_digits limit acc [] ≡ some acc
unfolding parse_digits
parse_digits-nil limit acc = refl

-- Without a sign, it is all digits.
parse_unsigned-digits :
    (limit c : ℕ) (cs : Codes)
    → c ≢ 43
    → parse_unsigned limit (c ∷ cs) ≡ parse_digits limit 0 (c ∷ cs)
unfolding parse_unsigned
parse_unsigned-digits limit c cs h = rw (ne→==_false c 43 h) refl

three_read : (limit n : ℕ) → n < 1000 → n ≤ limit → parse_digits limit 0 (three_digits n) ≡ some n
three_read limit n small fits =
    let a : ℕ = 0 * 10 + n / 100 in
    let b : ℕ = a * 10 + n / 10 % 10 in
    let whole : b * 10 + n % 10 ≡ n = omega arith in
    parse_digits-digit limit 0 (n / 100) (digit_code (n / 10 % 10) ∷ digit_code (n % 10) ∷ [])
      (omega arith) (omega arith)
    ∙ parse_digits-digit limit a (n / 10 % 10) (digit_code (n % 10) ∷ []) (omega arith)
        (omega arith)
    ∙ parse_digits-digit limit b (n % 10) [] (omega arith) (omega arith)
    ∙ parse_digits-nil limit (b * 10 + n % 10)
    ∙ ap some whole

four_read : (n : ℕ) → n < 256 → parse_unsigned 255 (four_digits n) ≡ some n
four_read n h =
    parse_unsigned-digits 255 48 (three_digits n) (omega arith)
    ∙ parse_digits-digit 255 0 0 (three_digits n) (omega arith) (omega arith)
    ∙ three_read 255 n (omega arith) (omega arith)

state_read : (n : ℕ) → n < 1000 → parse_unsigned (2 ^ 32 - 1) (three_digits n) ≡ some n
state_read n h =
    parse_unsigned-digits (2 ^ 32 - 1) (digit_code (n / 100)) _ (omega arith)
    ∙ three_read (2 ^ 32 - 1) n h (omega arith)

digit_code-IsWord : (d : ℕ) → d < 10 → is_whitespace (digit_code d) ≡ false
unfolding is_whitespace
digit_code-IsWord d h = ground arith

three_digits-IsWord : (n : ℕ) → n < 1000 → IsWord (three_digits n)
three_digits-IsWord n h = (
  digit_code-IsWord (n / 100) (omega arith),
  (digit_code-IsWord (n / 10 % 10) (omega arith), (digit_code-IsWord (n % 10) (omega arith), tt)),
)

split-printed_row :
    (r : Row)
    → IsRow r
    → (others : List Codes) × (split_whitespace (printed_row r)
        ≡ (r.hub_first ∷ r.hub_rest) ∷ four_digits r.port ∷ three_digits r.sta ∷ others)
unfolding split_whitespace non_empty is_whitespace
split-printed_row r (hub, port, sta, others) =
    let text : Codes = r.others in
    let first =
      pieces-append is_whitespace (r.hub_first ∷ r.hub_rest) 32
        (32 ∷ (four_digits r.port ++ (32 ∷ (three_digits r.sta ++ (32 ∷ text))))) hub refl in
    let gap =
      pieces-append is_whitespace [] 32
        (four_digits r.port ++ (32 ∷ (three_digits r.sta ++ (32 ∷ text)))) tt refl in
    let second =
      pieces-append is_whitespace (four_digits r.port) 32 (three_digits r.sta ++ (32 ∷ text))
        (digit_code-IsWord 0 (omega arith), three_digits-IsWord r.port (omega arith)) refl in
    let third =
      pieces-append is_whitespace (three_digits r.sta) 32 text (three_digits-IsWord r.sta sta)
        refl in
    let words : Codes × List Codes → List Codes = λ p. non_empty (p.0 ∷ p.1) in
    let hub_word : Codes = r.hub_first ∷ r.hub_rest in
    (
      words (pieces is_whitespace text),
      ap words first
          ∙ ap (λ (p : Codes × List Codes). hub_word ∷ words p) gap
          ∙ ap (λ (p : Codes × List Codes). hub_word ∷ words p) second
          ∙ ap (λ (p : Codes × List Codes). hub_word ∷ four_digits r.port ∷ words p) third,
    )

free_port-printed_row :
    (r : Row)
    → IsRow r
    → free_port (split_whitespace (printed_row r))
      ≡ (if r.sta == 4 || r.sta == 5 then some r.port else none)
unfolding free_port
free_port-printed_row r h =
    let (others, split) = split-printed_row r h in
    rw (split, four_read r.port h.1, state_read r.sta h.2) refl

-- Every row of the file is a line.
text-IsLine : (w : Codes) → IsWord w → IsLine w
unfolding is_whitespace
text-IsLine [] h = tt
text-IsLine (c ∷ w) h = (ground (arith, h.0), text-IsLine w h.1)

printed_row-IsLine : (r : Row) → IsRow r → IsLine (printed_row r)
printed_row-IsLine r (hub, port, sta, others) =
    let hub_line : IsLine (r.hub_first ∷ r.hub_rest) = text-IsLine (r.hub_first ∷ r.hub_rest) hub in
    let port_line : IsLine (four_digits r.port) =
      text-IsLine (four_digits r.port)
        (digit_code-IsWord 0 (omega arith), three_digits-IsWord r.port (omega arith)) in
    let sta_line : IsLine (three_digits r.sta) =
      text-IsLine (three_digits r.sta) (three_digits-IsWord r.sta sta) in
    let plain : ℕ → Type 0 = λ c. newline c ≡ false in
    let after_sta : Codes = 32 ∷ r.others in
    let after_port : Codes = 32 ∷ (three_digits r.sta ++ after_sta) in
    let after_hub : Codes = 32 ∷ 32 ∷ (four_digits r.port ++ after_port) in
    All-append plain (r.hub_first ∷ r.hub_rest) after_hub hub_line (
      refl,
      (
        refl,
        All-append plain (four_digits r.port) after_port port_line
            (refl, All-append plain (three_digits r.sta) after_sta sta_line (refl, others)),
      ),
    )

abbrev all_pieces : Codes → List Codes
all_pieces text = (pieces newline text).0 ∷ (pieces newline text).1

all_pieces-printed_row :
    (r : Row) (rest : Codes)
    → IsRow r
    → all_pieces (printed_row r ++ (10 ∷ rest)) ≡ printed_row r ∷ all_pieces rest
all_pieces-printed_row r rest h =
    ap (λ (p : Codes × List Codes). p.0 ∷ p.1)
      (pieces-append newline (printed_row r) 10 rest (printed_row-IsLine r h) refl)

row_answer : (r : Row) → Option ℕ
row_answer r = if r.sta == 4 || r.sta == 5 then some r.port else none

free_answer : (r : Row) → IsFree r → row_answer r ≡ some r.port
unfolding row_answer
free_answer r (inl e) = rw e refl
free_answer r (inr e) = rw e refl

busy_answer : (r : Row) → ¬ IsFree r → row_answer r ≡ none
unfolding row_answer
busy_answer r h =
    rw (ne→==_false r.sta 4 (λ e. h (inl e)), ne→==_false r.sta 5 (λ e. h (inr e))) refl

abbrev or_next : List Codes → Option ℕ → Option ℕ
or_next ls (some port) = some port
or_next ls none = first_port ls

first_port-cons :
    (l : Codes) (ls : List Codes)
    → first_port (l ∷ ls) ≡ or_next ls (free_port (split_whitespace l))
unfolding first_port
first_port-cons l ls = go (free_port (split_whitespace l))
  where
    go : (o : Option ℕ) → elim o [ some port ↦ some port | none ↦ first_port ls ] ≡ or_next ls o
    go (some port) = refl
    go none = refl

first_port-row :
    (r : Row) (rest : Codes)
    → IsRow r
    → first_port (all_pieces (printed_row r ++ (10 ∷ rest)))
      ≡ or_next (all_pieces rest) (row_answer r)
unfolding row_answer
first_port-row r rest h =
    ap first_port (all_pieces-printed_row r rest h)
    ∙ first_port-cons (printed_row r) (all_pieces rest)
    ∙ ap (or_next (all_pieces rest)) (free_port-printed_row r h)

abbrev AllBusy : List Row → Type 0
AllBusy = All (λ r. ¬ IsFree r)

-- The answer of the rows, by the first that is free.
first_port-rows :
    (front : List Row) (r : Row) (back : List Row)
    → All IsRow front
    → AllBusy front
    → (first_port (all_pieces (printed_rows front)) ≡ none)
      × (IsRow r
          → IsFree r
          → first_port (all_pieces (printed_rows (front ++ (r ∷ back)))) ≡ some r.port)
unfolding first_port
first_port-rows [] r back rows busy =
    (refl, λ row free. first_port-row r (printed_rows back) row ∙ rw (free_answer r free) refl)
first_port-rows (b ∷ bs) r back rows busy =
    let next = first_port-rows bs r back rows.1 busy.1 in
    let skip = busy_answer b busy.0 in
    (
      first_port-row b (printed_rows bs) rows.0 ∙ rw skip next.0,
      λ row free.
          first_port-row b (printed_rows (bs ++ (r ∷ back))) rows.0 ∙ rw skip (next.1 row free),
    )

-- In a status file as the kernel prints it, with rows behind a header of one line, the port taken is
-- that of the first row whose state is 4 or 5; as long as no row is free, there is no port.
pub find_free_port_first :
    (header : Codes) (front : List Row) (r : Row) (back : List Row)
    → IsLine header
    → All IsRow front
    → AllBusy front
    → IsRow r
    → IsFree r
    → (find_free_port (printed_status header front) ≡ err no_free_port)
      × (find_free_port (printed_status header (front ++ (r ∷ back))) ≡ ok r.port)
unfolding find_free_port rows
find_free_port_first header front r back line are_rows busy row free =
    let found = first_port-rows front r back are_rows busy in
    let skip : (rs : List Row) → rows (printed_status header rs) ≡ all_pieces (printed_rows rs) =
      λ rs.
        ap (λ (p : Codes × List Codes). p.1)
          (pieces-append newline header 10 (printed_rows rs) line refl) in
    let answer : List Codes → Result Failure ℕ = λ ls. ok_or (first_port ls) no_free_port in
    let taken : Option ℕ → Result Failure ℕ = λ o. ok_or o no_free_port in
    (
      ap answer (skip front) ∙ ap taken found.0,
      ap answer (skip (front ++ (r ∷ back))) ∙ ap taken (found.1 row free),
    )
