-- ===== src/Vhci.antt =====
-- desktop-linux/src/usbip.rs: what the receiver does with the ports of `vhci-hcd`. The files
-- under sysfs are a parameter.
pub mod Ports
use zerowire.Prelude.{
  ℕ, zero, suc, ◌+◌, ◌*◌, ◌-◌, ◌/◌, ◌%◌, ◌^◌, Bool, true, false, not, ◌&&◌, ◌||◌, Option, none,
  some, List, [], ◌∷◌, map, String, str_append, ltb, leb, ◌==◌, if◌then◌else◌, Result, ok_or,
}
use Prim.Native.String.{len}
use zerowire.Bytes.{Bytes}
use zerowire.Control.{UsbipAttachInfo}
use zerowire.Text.{decimal, hexadecimal, hex4, joined}
use zerowire.Io.{Io, Failure, no_free_port, pure, lift, attempt, continue, ◌>>=◌, ◌>>◌}

-- A text by the codes of its characters.
abbrev pub Codes : Type 0
Codes = List ℕ

-- `char::is_whitespace`
unfoldable pub is_whitespace : ℕ → Bool
is_whitespace c =
    (leb 9 c && leb c 13)
    || c == 32
    || c == 0x85
    || c == 0xa0
    || c == 0x1680
    || (leb 0x2000 c && leb c 0x200a)
    || c == 0x2028
    || c == 0x2029
    || c == 0x202f
    || c == 0x205f
    || c == 0x3000

abbrev newline : ℕ → Bool
newline c = c == 10

-- The pieces of a text between the characters that pass a test: the first, and the others.
unfoldable pub pieces : (ℕ → Bool) → Codes → Codes × List Codes
pieces ends [] = ([], [])
pieces ends (c ∷ cs) =
    let (first, others) = pieces ends cs in
    if ends c then ([], first ∷ others) else (c ∷ first, others)

unfoldable pub non_empty : List Codes → List Codes
non_empty [] = []
non_empty ([] ∷ ws) = non_empty ws
non_empty ((c ∷ cs) ∷ ws) = (c ∷ cs) ∷ non_empty ws

unfoldable pub split_whitespace : Codes → List Codes
unfolding pieces non_empty
split_whitespace text =
    let (first, others) = pieces is_whitespace text in non_empty (first ∷ others)

-- `lines().skip(1)`. What `lines` takes off, a `\r` at the end of a line and an empty line at the
-- end of the text, makes no difference to the words of the lines.
unfoldable pub rows : Codes → List Codes
unfolding pieces
rows text = (pieces newline text).1

-- `parse::<u8>` and `parse::<u32>`: the largest value, what is read so far, and the digits left.
unfoldable pub parse_digits : ℕ → ℕ → Codes → Option ℕ
parse_digits limit acc [] = some acc
parse_digits limit acc (c ∷ cs) =
    let acc' = acc * 10 + (c - 48) in
    let rest = parse_digits limit acc' cs in
    if leb 48 c && leb c 57 && leb acc' limit then rest else none

abbrev some_digits : ℕ → Codes → Option ℕ
some_digits limit [] = none
some_digits limit (c ∷ cs) = parse_digits limit 0 (c ∷ cs)

-- A `+` before the digits is allowed, a `-` is not.
unfoldable pub parse_unsigned : ℕ → Codes → Option ℕ
unfolding parse_digits
parse_unsigned limit [] = none
parse_unsigned limit (c ∷ cs) = if c == 43 then some_digits limit cs else some_digits limit (c ∷ cs)

abbrev if_free : Option ℕ → Option ℕ → Option ℕ
if_free (some port) (some sta) = if sta == 4 || sta == 5 then some port else none
if_free _ _ = none

-- The port of a free row, by its columns: state 4 is free, 5 is not assigned.
unfoldable pub free_port : List Codes → Option ℕ
unfolding parse_unsigned
free_port (hub ∷ port ∷ sta ∷ others) =
    if_free (parse_unsigned 255 port) (parse_unsigned (2 ^ 32 - 1) sta)
free_port columns = none

unfoldable pub first_port : List Codes → Option ℕ
unfolding free_port split_whitespace
first_port [] = none
first_port (line ∷ more) = elim (free_port (split_whitespace line)) [
  | some port ↦ some port
  | none ↦ first_port more
]

unfoldable pub find_free_port : Codes → Result Failure ℕ
unfolding first_port rows
find_free_port status = ok_or (first_port (rows status)) no_free_port

-- The files under `VHCI_ROOT`: what is there, what is read, and what is opened and written.
pub record Sysfs (S : Type 0) : Type 0 where
  pub root_exists : S → Bool
  pub status_exists : S → Bool
  pub read_status : Io S Codes
  pub write_attach : String → Io S (Unit {0})
  pub open_detach : Io S (Unit {0})
  pub write_detach : String → Io S (Unit {0})

abbrev pub attach_line : ℕ → ℕ → UsbipAttachInfo → String
attach_line port fd info =
    joined
      (decimal port ∷ " " ∷ decimal fd ∷ " " ∷ decimal info.devid ∷ " " ∷ decimal info.speed ∷ [])

module _ {S : Type 0} (sysfs : Sysfs S) where
  -- `fd` is the socket's file descriptor.
  unfoldable pub attach_socket : ℕ → UsbipAttachInfo → Io S ℕ
  unfolding find_free_port joined
  attach_socket fd info = do
    status ← sysfs.read_status
    port ← lift (find_free_port status)
    sysfs.write_attach (attach_line port fd info)
    pure port

  -- A write that fails is only logged.
  unfoldable pub detach_port : ℕ → Io S (Unit {0})
  detach_port port = do sysfs.open_detach; attempt (sysfs.write_detach (decimal port)); pure tt

  unfoldable pub vhci_available : S → Bool
  vhci_available s = sysfs.root_exists s && sysfs.status_exists s
