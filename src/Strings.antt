-- ===== src/Strings.antt =====
-- lib/string.c: blocks of memory and strings. The memory is a function from addresses to bytes, and no
-- object reaches the end of the address space, so that addresses do not wrap. A function that writes
-- returns the new memory; `none` is a failed ASSERT, or a loop over a string that ran out of fuel.
pub mod Blocks
pub mod Ends
pub mod Search
pub mod Find
mod Tests
use tddb.Base.{
  ℕ, zero, suc, ◌+◌, ◌-◌, ◌%◌, ◌^◌, Bool, true, false, not, ◌||◌, ◌&&◌, Option, none, some, ◌==◌,
  ltb, leb, if◌then◌else◌, ◌>>=◌, ◌>>◌, assert,
}
use tddb.Base.Members.{update}

abbrev pub Memory : Type 0
Memory = ℕ → ℕ

-- `p != NULL || size == 0`
abbrev pub is_block : ℕ → ℕ → Bool
is_block p size = not (p == 0) || (size == 0)

-- `while (size-- > 0) *dst++ = *src++;` and where it leaves `dst`
unfoldable pub copy_up : Memory → ℕ → ℕ → ℕ → Memory × ℕ
copy_up m dst src zero = (m, dst)
copy_up m dst src (suc size) = copy_up (update m dst (m src)) (dst + 1) (src + 1) size

-- `while (size-- > 0) *--dst = *--src;`
unfoldable pub copy_down : Memory → ℕ → ℕ → ℕ → Memory × ℕ
copy_down m dst src zero = (m, dst)
copy_down m dst src (suc size) =
    copy_down (update m (dst - 1) (m (src - 1))) (dst - 1) (src - 1) size

unfoldable pub memcpy : Memory → ℕ → ℕ → ℕ → Option (Memory × ℕ)
unfolding copy_up
memcpy m dst src size = do
  assert (is_block dst size)
  assert (is_block src size)
  some ((copy_up m dst src size).0, dst)

-- The pointer that it returns is the one that the loop moved.
unfoldable pub memmove : Memory → ℕ → ℕ → ℕ → Option (Memory × ℕ)
unfolding copy_up copy_down
memmove m dst src size = do
  assert (is_block dst size)
  assert (is_block src size)
  some (if ltb dst src then copy_up m dst src size else copy_down m (dst + size) (src + size) size)

-- `value` is cut to a byte.
unfoldable pub fill : Memory → ℕ → ℕ → ℕ → Memory
fill m dst value zero = m
fill m dst value (suc size) = fill (update m dst (value % 2 ^ 8)) (dst + 1) value size

unfoldable pub memset : Memory → ℕ → ℕ → ℕ → Option (Memory × ℕ)
unfolding fill
memset m dst value size = do assert (is_block dst size); some (fill m dst value size, dst)

-- The sign of an `int`.
pub data Sign : Type 0 where
  negative null positive : Sign

unfoldable pub compare_up : Memory → ℕ → ℕ → ℕ → Sign
compare_up m a b zero = null
compare_up m a b (suc size) =
    let rest = compare_up m (a + 1) (b + 1) size in
    if m a == m b then rest else if ltb (m b) (m a) then positive else negative

unfoldable pub memcmp : Memory → ℕ → ℕ → ℕ → Option Sign
unfolding compare_up
memcmp m a b size = do
  assert (is_block a size)
  assert (is_block b size)
  some (compare_up m a b size)

-- the loop of `strlen` from `p` on, which began at `string`
unfoldable pub end_from : ℕ → Memory → ℕ → Option ℕ
end_from zero m p = none
end_from (suc fuel) m p = let rest = end_from fuel m (p + 1) in if m p == 0 then some p else rest

unfoldable pub strlen : ℕ → Memory → ℕ → Option ℕ
strlen fuel m string = do assert (not (string == 0)); p ← end_from fuel m string; some (p - string)

-- `memcpy` and the terminator behind it, in `strlcpy`
unfoldable pub copy_terminated : Memory → ℕ → ℕ → ℕ → Option Memory
copy_terminated m dst src dst_len = do
  r ← memcpy m dst src dst_len
  some (update (r.0) (dst + dst_len) 0)

unfoldable pub strlcpy : ℕ → Memory → ℕ → ℕ → ℕ → Option (Memory × ℕ)
strlcpy fuel m dst src size = do
  assert (not (dst == 0))
  assert (not (src == 0))
  src_len ← strlen fuel m src
  if size == 0
      then some (m, src_len)
      else (copy_terminated m dst src (if ltb src_len (size - 1) then src_len else (size - 1))
          >>= λ m'. some (m', src_len))
