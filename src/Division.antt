-- ===== src/Division.antt =====
-- lib/arithmetic.c: 64-bit division out of 32-bit division. Words are numbers below their size; a
-- negative `int64_t` is its two's complement. `none` is a divide error (#DE).
pub mod Leading
pub mod Unsigned
pub mod Long
pub mod Signed
mod Tests
use tddb.Base.{
  ℕ, ◌+◌, ◌-◌, ◌*◌, ◌/◌, ◌%◌, ◌^◌, Bool, Option, none, some, ◌==◌, ltb, leb, same, if◌then◌else◌,
  ◌>>=◌,
}

abbrev pub u32 : ℕ → ℕ
u32 x = x % 2 ^ 32

abbrev pub u64 : ℕ → ℕ
u64 x = x % 2 ^ 64

-- `a - b` and `-a` in 64 bits
abbrev pub sub64 : ℕ → ℕ → ℕ
sub64 a b = (a + 2 ^ 64 - b) % 2 ^ 64

abbrev pub neg64 : ℕ → ℕ
neg64 a = (2 ^ 64 - a) % 2 ^ 64

-- The DIVL instruction: it traps at 0 and where the quotient needs more than 32 bits.
unfoldable pub divl : ℕ → ℕ → Option ℕ
divl n d = if d == 0 then none else if ltb (n / d) (2 ^ 32) then some (n / d) else none

-- `if (x <= limit) { n += k; x <<= k; }`
unfoldable pub shift_below : ℕ → ℕ → ℕ × ℕ → ℕ × ℕ
shift_below limit k (n, x) = if leb x limit then (n + k, u32 (x * 2 ^ k)) else (n, x)

unfoldable pub nlz : ℕ → ℕ
unfolding shift_below
nlz x =
    let (n, y) =
      shift_below 0x3FFFFFFF 2
        (shift_below 0x0FFFFFFF 4 (shift_below 0x00FFFFFF 8 (shift_below 0x0000FFFF 16 (0, x)))) in
    if leb y 0x7FFFFFFF then n + 1 else n

-- the half of `udiv64` for a divisor of at most 32 bits
unfoldable pub udiv_short : ℕ → ℕ → Option ℕ
udiv_short n d =
    let n1 = n / 2 ^ 32 in
    let n0 = u32 n in
    let d0 = u32 d in
    if d0 == 0
    then none
    else divl (u64 (2 ^ 32 * (n1 % d0) + n0)) d0 >>= λ q. some (u64 (q + 2 ^ 32 * (n1 / d0)))

-- the half for a longer divisor
unfoldable pub udiv_long : ℕ → ℕ → Option ℕ
udiv_long n d =
    let s = nlz (d / 2 ^ 32) in
    divl (n / 2) (u64 (d * 2 ^ s) / 2 ^ 32) >>= λ q0.
    let q = q0 / 2 ^ (31 - s) in
    some (if ltb (sub64 n (u64 (sub64 q 1 * d))) d then sub64 q 1 else q)

unfoldable pub udiv64 : ℕ → ℕ → Option ℕ
udiv64 n d = if d / 2 ^ 32 == 0 then udiv_short n d else if ltb n d then some 0 else udiv_long n d

-- The result has type `uint32_t`.
unfoldable pub umod64 : ℕ → ℕ → Option ℕ
umod64 n d = do q ← udiv64 n d; some (u32 (sub64 n (u64 (d * q))))

-- The sign of an `int64_t` is its top bit.
abbrev pub is_negative : ℕ → Bool
is_negative n = leb (2 ^ 63) n

abbrev pub magnitude : ℕ → ℕ
magnitude n = if is_negative n then neg64 n else n

unfoldable pub sdiv64 : ℕ → ℕ → Option ℕ
sdiv64 n d = do
  q_abs ← udiv64 (magnitude n) (magnitude d)
  some (if same (is_negative n) (is_negative d) then q_abs else neg64 q_abs)

-- The result has type `int32_t`: it keeps 32 bits.
unfoldable pub smod64 : ℕ → ℕ → Option ℕ
smod64 n d = do q ← sdiv64 n d; some (u32 (sub64 n (u64 (d * q))))

-- `int32_t` to `long long`
abbrev pub extend32 : ℕ → ℕ
extend32 x = if leb (2 ^ 31) x then 2 ^ 64 - 2 ^ 32 + x else x

unfoldable pub divdi3 : ℕ → ℕ → Option ℕ
divdi3 n d = sdiv64 n d

unfoldable pub moddi3 : ℕ → ℕ → Option ℕ
moddi3 n d = do r ← smod64 n d; some (extend32 r)

unfoldable pub udivdi3 : ℕ → ℕ → Option ℕ
udivdi3 n d = udiv64 n d

unfoldable pub umoddi3 : ℕ → ℕ → Option ℕ
umoddi3 n d = umod64 n d
