-- ===== src/Bitmap.antt =====
-- lib/kernel/bitmap.c: an array of bits in 32-bit elements. A function that changes the bitmap
-- returns the new one. `none` is a failed ASSERT, or an access outside the elements.
pub mod Bit
pub mod Range
pub mod Scan
pub mod Create
mod Tests
use Prim.Native.Nat.{bit_and, bit_or, bit_xor}
use tddb.Base.{
  ℕ, zero, suc, ◌+◌, ◌-◌, ◌*◌, ◌/◌, ◌%◌, ◌^◌, Bool, true, false, not, Option, none, some, List,
  ◌==◌, ltb, leb, same, if◌then◌else◌, ◌>>=◌, ◌>>◌, assert, get_elem?, set, replicate,
}

-- `struct bitmap`
pub record Bitmap : Type 0 where
  pub bit_cnt : ℕ
  pub bits : List ℕ

-- `size_t` and `elem_type` have 32 bits.
abbrev pub word : ℕ
word = 2 ^ 32

-- BITMAP_ERROR is SIZE_MAX.
abbrev pub bitmap_error : ℕ
bitmap_error = 2 ^ 32 - 1

abbrev pub add_size : ℕ → ℕ → ℕ
add_size a b = (a + b) % word

-- ELEM_BITS
abbrev pub elem_bits : ℕ
elem_bits = 32

abbrev pub elem_idx : ℕ → ℕ
elem_idx bit_idx = bit_idx / elem_bits

-- `1 << k` at `k < 32` does not wrap.
abbrev pub bit_mask : ℕ → ℕ
bit_mask bit_idx = 2 ^ (bit_idx % elem_bits)

-- DIV_ROUND_UP (X, STEP) is (X + STEP - 1) / STEP.
unfoldable pub elem_cnt : ℕ → ℕ
elem_cnt bit_cnt = add_size bit_cnt (elem_bits - 1) / elem_bits

unfoldable pub byte_cnt : ℕ → ℕ
unfolding elem_cnt
byte_cnt bit_cnt = 4 * elem_cnt bit_cnt % word

unfoldable pub last_mask : Bitmap → ℕ
last_mask b =
    let last_bits = b.bit_cnt % elem_bits in
    if last_bits == 0 then word - 1 else (2 ^ last_bits - 1)

-- The instruction that reads and writes one element of `bits`.
unfoldable pub update_elem : Bitmap → ℕ → (ℕ → ℕ) → Option Bitmap
update_elem b idx f = do w ← get_elem? b.bits idx; some (record b { bits = set b.bits idx (f w) })

unfoldable pub mark : Bitmap → ℕ → Option Bitmap
unfolding update_elem
mark b bit_idx = update_elem b (elem_idx bit_idx) (λ w. bit_or w (bit_mask bit_idx))

-- `~mask` is the complement in 32 bits.
unfoldable pub reset : Bitmap → ℕ → Option Bitmap
unfolding update_elem
reset b bit_idx = update_elem b (elem_idx bit_idx) (λ w. bit_and w (word - 1 - bit_mask bit_idx))

unfoldable pub flip : Bitmap → ℕ → Option Bitmap
unfolding update_elem
flip b bit_idx = update_elem b (elem_idx bit_idx) (λ w. bit_xor w (bit_mask bit_idx))

unfoldable pub set_bit : Bitmap → ℕ → Bool → Option Bitmap
unfolding mark reset
set_bit b idx value = do assert (ltb idx b.bit_cnt); if value then mark b idx else reset b idx

unfoldable pub test : Bitmap → ℕ → Option Bool
test b idx = do
  assert (ltb idx b.bit_cnt)
  w ← get_elem? b.bits (elem_idx idx)
  some (not (bit_and w (bit_mask idx) == 0))

-- the rounds of the loop of `bitmap_set_multiple` from `i` on; `n` are left
unfoldable pub set_from : Bitmap → ℕ → ℕ → ℕ → Bool → Option Bitmap
set_from b start i zero value = some b
set_from b start i (suc n) value =
    set_bit b (add_size start i) value >>= λ b'. set_from b' start (i + 1) n value

unfoldable pub set_multiple : Bitmap → ℕ → ℕ → Bool → Option Bitmap
unfolding set_from
set_multiple b start cnt value = do
  assert (leb start b.bit_cnt)
  assert (leb (add_size start cnt) b.bit_cnt)
  set_from b start 0 cnt value

unfoldable pub set_all : Bitmap → Bool → Option Bitmap
unfolding set_multiple
set_all b value = set_multiple b 0 b.bit_cnt value

unfoldable pub count_from : Bitmap → ℕ → ℕ → ℕ → Bool → ℕ → Option ℕ
count_from b start i zero value value_cnt = some value_cnt
count_from b start i (suc n) value value_cnt = test b (add_size start i) >>= λ t.
    count_from b start (i + 1) n value (if same t value then value_cnt + 1 else value_cnt)

unfoldable pub count : Bitmap → ℕ → ℕ → Bool → Option ℕ
unfolding count_from
count b start cnt value = do
  assert (leb start b.bit_cnt)
  assert (leb (add_size start cnt) b.bit_cnt)
  count_from b start 0 cnt value 0

unfoldable pub contains_from : Bitmap → ℕ → ℕ → ℕ → Bool → Option Bool
contains_from b start i zero value = some false
contains_from b start i (suc n) value = test b (add_size start i) >>= λ t.
    let rest = contains_from b start (i + 1) n value in if same t value then some true else rest

unfoldable pub contains : Bitmap → ℕ → ℕ → Bool → Option Bool
unfolding contains_from
contains b start cnt value = do
  assert (leb start b.bit_cnt)
  assert (leb (add_size start cnt) b.bit_cnt)
  contains_from b start 0 cnt value

unfoldable pub any : Bitmap → ℕ → ℕ → Option Bool
unfolding contains
any b start cnt = contains b start cnt true

unfoldable pub none_set : Bitmap → ℕ → ℕ → Option Bool
unfolding contains
none_set b start cnt = do t ← contains b start cnt true; some (not t)

unfoldable pub all : Bitmap → ℕ → ℕ → Option Bool
unfolding contains
all b start cnt = do t ← contains b start cnt false; some (not t)

-- the rounds of the loop of `bitmap_scan` from `i` on; `n` are left
unfoldable pub scan_from : Bitmap → ℕ → ℕ → ℕ → Bool → Option ℕ
scan_from b i zero cnt value = some bitmap_error
scan_from b i (suc n) cnt value = contains b i cnt (not value) >>= λ found.
    let rest = scan_from b (i + 1) n cnt value in if found then rest else some i

-- `for (i = start; i <= last; i++)` makes `last + 1 - start` rounds.
unfoldable pub scan : Bitmap → ℕ → ℕ → Bool → Option ℕ
unfolding scan_from
scan b start cnt value = do
  assert (leb start b.bit_cnt)
  if leb cnt b.bit_cnt
      then scan_from b start (b.bit_cnt - cnt + 1 - start) cnt value
      else some bitmap_error

unfoldable pub scan_and_flip : Bitmap → ℕ → ℕ → Bool → Option (ℕ × Bitmap)
unfolding scan set_multiple
scan_and_flip b start cnt value = do
  idx ← scan b start cnt value
  if idx == bitmap_error
      then some (idx, b)
      else (set_multiple b idx cnt (not value) >>= λ b'. some (idx, b'))

-- What `malloc` leaves in the new elements is `garbage`; `none` inside the result is a null pointer.
unfoldable pub create : ℕ → Bool → Option (List ℕ) → Option (Option Bitmap)
unfolding set_all byte_cnt
create bit_cnt false block = some none
create bit_cnt true none =
    if bit_cnt == 0
    then (set_all (record { bit_cnt = bit_cnt; bits = List.[] }) false >>= λ b. some (some b))
    else some none
create bit_cnt true (some garbage) =
    set_all (record { bit_cnt = bit_cnt; bits = garbage }) false >>= λ b. some (some b)
