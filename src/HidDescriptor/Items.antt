-- ===== src/HidDescriptor/Items.antt =====
-- Report descriptors as lists of items.
use Prim.Native.Nat.{bit_and}
use zerowire.Prelude.{
  length-drop, ℕ, zero, suc, ◌+◌, ◌*◌, ◌%◌, ◌<◌, ◌≤◌, ◌≡◌, ◌≢◌, refl, arith, ◌/◌, Option, none,
  some, List, [], ◌∷◌, ◌++◌, ◌==◌, if◌then◌else◌, length, drop,
}
use zerowire.Bytes.{Bytes, at, AllBytes}
use zerowire.HidDescriptor.{Kind, other, item_size, data_le, usage_kind, is_desktop, scan}

-- A short item: the type and tag bits of its prefix, the two bits that code the size, and the data.
pub record Item : Type 0 where
  pub tag : ℕ
  pub size_code : ℕ
  pub payload : Bytes

abbrev pub coded_size : ℕ → ℕ
coded_size c = if c == 3 then 4 else c

pub record IsItem (i : Item) : Type 0 where
  pub tag_fits : i.tag < 64
  pub code_fits : i.size_code < 4
  pub size : length i.payload ≡ coded_size i.size_code
  pub bytes : AllBytes i.payload

abbrev pub item_bytes : Item → Bytes
item_bytes i = (4 * i.tag + i.size_code) ∷ i.payload

abbrev pub items_bytes : List Item → Bytes
items_bytes [] = []
items_bytes (i ∷ is) = item_bytes i ++ items_bytes is

-- The data as a number, little-endian.
abbrev pub le_value : Bytes → ℕ
le_value [] = 0
le_value (b ∷ bs) = b + 256 * le_value bs

abbrev pub usage_page_tag : ℕ
usage_page_tag = 1

abbrev pub usage_tag : ℕ
usage_tag = 2

-- The page of a usage: a usage of four bytes brings its own in the upper half, any other has the one
-- that is in force.
abbrev pub page_of_usage : Option ℕ → Item → Option ℕ
page_of_usage page i = if i.size_code == 3 then some (le_value i.payload / 65536) else page

-- The kind that the first usage on the page Generic Desktop says, where the page in force is that of
-- the last usage page item before.
abbrev pub first_usage : Option ℕ → List Item → Kind
first_usage page [] = other
first_usage page (i ∷ is) =
    let next =
      first_usage (if i.tag == usage_page_tag then some (le_value i.payload) else page) is in
    if i.tag == usage_tag
    then if is_desktop (page_of_usage page i) then usage_kind (le_value i.payload % 65536) else next
    else next

-- A usage page or a usage that fits a byte, a usage in an item of at most two.
pub record IsNarrow (i : Item) : Type 0 where
  pub page_fits : i.tag ≡ usage_page_tag → le_value i.payload < 256
  pub usage_fits : i.tag ≡ usage_tag → le_value i.payload < 256
  pub usage_short : i.tag ≡ usage_tag → i.size_code < 3

-- The same by the first bytes of the data, 0 for an item without data.
abbrev low_byte : Item → ℕ
low_byte i = at i.payload 0

abbrev low_usage : Option ℕ → List Item → Kind
low_usage page [] = other
low_usage page (i ∷ is) =
    let next = low_usage (if i.tag == usage_page_tag then some (low_byte i) else page) is in
    if i.tag == usage_tag then if is_desktop page then usage_kind (low_byte i) else next else next

-- More rounds than bytes are never used up, since each takes a byte or more.
scan_ends :
    (fuel : ℕ) (page : Option ℕ) (desc : Bytes) → length desc ≤ fuel → scan fuel page desc ≢ none
unfolding scan
scan_ends fuel page [] h = ground arith
scan_ends zero page (x ∷ rest) h = absurd (omega arith)
scan_ends (suc fuel) page (x ∷ rest) h =
    let n : ℕ = item_size x in
    let left = length-drop n rest in
    let next = if bit_and x 0xFC == 0x04 then some (data_le n (x ∷ rest) % 256) else page in
    ground (arith, scan_ends fuel next (drop n rest) (omega arith))

scan_same :
    (k l : ℕ) (page : Option ℕ) (desc : Bytes)
    → length desc ≤ k
    → length desc ≤ l
    → scan k page desc ≡ scan l page desc
unfolding scan
scan_same k l page [] h h' = ground arith
scan_same zero l page (x ∷ rest) h h' = absurd (omega arith)
scan_same (suc k) zero page (x ∷ rest) h h' = absurd (omega arith)
scan_same (suc k) (suc l) page (x ∷ rest) h h' =
    let n : ℕ = item_size x in
    let left = length-drop n rest in
    let next = if bit_and x 0xFC == 0x04 then some (data_le n (x ∷ rest) % 256) else page in
    rw (scan_same k l next (drop n rest) (omega arith) (omega arith)) refl

-- The loop ends, for a descriptor of any bytes: with at least as many rounds as there are bytes it
-- does not run out of them, and their number does not matter.
pub scan_enough :
    (fuel : ℕ) (page : Option ℕ) (desc : Bytes)
    → length desc ≤ fuel
    → (scan fuel page desc ≢ none) × (scan fuel page desc ≡ scan (length desc) page desc)
scan_enough fuel page desc h =
    (scan_ends fuel page desc h, scan_same fuel (length desc) page desc h (omega arith))
