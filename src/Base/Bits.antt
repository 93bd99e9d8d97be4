-- ===== src/Base/Bits.antt =====
-- The bits of a word: the operations `|`, `&`, `^` and `~` of C, bit by bit, at every width.
use Prim.Native.Nat.{
  ℕ, zero, suc, ◌+◌, ◌-◌, ◌*◌, ◌/◌, ◌%◌, ◌^◌, ◌≤◌, ◌<◌, min, max, differ, digits, bitwise, bit_and,
  bit_or, bit_xor, bit_and-bitwise, bit_or-bitwise, bit_xor-bitwise,
}
use mathlib.Core.Path.{◌∙◌, ◌≡◌, refl, ap}
use mathlib.Core.Logic.{◌≢◌}
use native.Mathlib.Nat.{le_refl, pow-suc, one-le-pow}
use native.Mathlib.Omega.{arith}

-- bit `k` of `w`, 0 or 1
unfoldable pub bit : ℕ → ℕ → ℕ
bit w zero = w % 2
bit w (suc k) = bit (w / 2) k

-- The native operations are recursions on binary digits with a count of digits to go. The count may
-- be larger than it need be, so that the equation for the lowest digit holds with no count at all.
module _ (rest : ℕ → ℕ) (op : ℕ → ℕ → ℕ) where
  one_more : (x y : ℕ) (c : ℕ) → x ≤ c → digits rest op (suc c) x y ≡ digits rest op c x y
  one_more zero y zero le = refl
  one_more zero y (suc c) le = refl
  one_more (suc x) y zero le = elim le [ ]
  one_more (suc x) y (suc c) le =
      let half = suc x / 2 in
      ap (λ d. d * 2 + op (suc x % 2) (y % 2)) (one_more half (y / 2) c (omega arith))

  many_more :
      (k : ℕ) {big c : ℕ} (x y : ℕ)
      → big ≡ k + c
      → x ≤ c
      → digits rest op big x y ≡ digits rest op c x y
  many_more zero {big} {c} x y e le = let e' : big ≡ c = omega arith in rw e'
  many_more (suc k) {big} {c} x y e le =
      let e' : big ≡ suc (k + c) = omega arith in
      rw e' (one_more x y (k + c) (omega arith) ∙ many_more k x y refl le)

  lowest_digit :
      ((y : ℕ) → rest y ≡ rest (y / 2) * 2 + op 0 (y % 2))
      → (x y : ℕ) → bitwise rest op x y ≡ bitwise rest op (x / 2) (y / 2) * 2 + op (x % 2) (y % 2)
  lowest_digit base zero y = base y
  lowest_digit base (suc x) y =
      let half = suc x / 2 in
      ap (λ d. d * 2 + op (suc x % 2) (y % 2))
        (many_more (x - half) half (y / 2) (omega arith) (omega arith))

or_lowest : (x y : ℕ) → bit_or x y ≡ bit_or (x / 2) (y / 2) * 2 + max (x % 2) (y % 2)
or_lowest x y = simp bit_or-bitwise (lowest_digit (λ r. r) max (λ r. omega arith) x y)

and_lowest : (x y : ℕ) → bit_and x y ≡ bit_and (x / 2) (y / 2) * 2 + min (x % 2) (y % 2)
and_lowest x y = simp bit_and-bitwise (lowest_digit (λ r. 0) min (λ r. omega arith) x y)

-- Two digits differ if their sum is odd.
differ_lem : (x y : ℕ) → x < 2 → y < 2 → differ x y ≡ (x + y) % 2
differ_lem zero y h l = omega arith
differ_lem (suc zero) zero h l = refl
differ_lem (suc zero) (suc zero) h l = refl
differ_lem (suc zero) (suc (suc y)) h l = absurd (omega arith)
differ_lem (suc (suc x)) y h l = absurd (omega arith)

differ_zero : (r : ℕ) → r ≡ r / 2 * 2 + differ 0 (r % 2)
differ_zero r = omega arith

xor_lowest : (x y : ℕ) → bit_xor x y ≡ bit_xor (x / 2) (y / 2) * 2 + (x % 2 + y % 2) % 2
xor_lowest x y =
    rw (← differ_lem (x % 2) (y % 2) (omega arith) (omega arith))
      (simp bit_xor-bitwise (lowest_digit (λ r. r) differ (λ r. differ_zero r) x y))

-- `|` sets a bit where one of its operands has it.
pub bit-or : (k a b : ℕ) → bit (bit_or a b) k ≡ max (bit a k) (bit b k)
unfolding bit
bit-or zero a b = omega (arith, or_lowest a b)
bit-or (suc k) a b =
    let e : bit_or a b / 2 ≡ bit_or (a / 2) (b / 2) = omega (arith, or_lowest a b) in
    rw e (bit-or k (a / 2) (b / 2))

pub bit-and : (k a b : ℕ) → bit (bit_and a b) k ≡ min (bit a k) (bit b k)
unfolding bit
bit-and zero a b = omega (arith, and_lowest a b)
bit-and (suc k) a b =
    let e : bit_and a b / 2 ≡ bit_and (a / 2) (b / 2) = omega (arith, and_lowest a b) in
    rw e (bit-and k (a / 2) (b / 2))

pub bit-xor : (k a b : ℕ) → bit (bit_xor a b) k ≡ (bit a k + bit b k) % 2
unfolding bit
bit-xor zero a b = omega (arith, xor_lowest a b)
bit-xor (suc k) a b =
    let e : bit_xor a b / 2 ≡ bit_xor (a / 2) (b / 2) = omega (arith, xor_lowest a b) in
    rw e (bit-xor k (a / 2) (b / 2))

pub bit-lt : (w k : ℕ) → bit w k < 2
unfolding bit
bit-lt w zero = omega arith
bit-lt w (suc k) = bit-lt (w / 2) k

zero-bit : (k : ℕ) → bit 0 k ≡ 0
unfolding bit
zero-bit zero = refl
zero-bit (suc k) = zero-bit k

-- A shifted one has one bit.
pub bit-pow_self : (k : ℕ) → bit (2 ^ k) k ≡ 1
unfolding bit
bit-pow_self zero = refl
bit-pow_self (suc k) =
    let e : 2 ^ suc k / 2 ≡ 2 ^ k = omega (arith, pow-suc 2 k) in rw e (bit-pow_self k)

pub bit-pow_ne : (k j : ℕ) → k ≢ j → bit (2 ^ k) j ≡ 0
unfolding bit
bit-pow_ne zero zero h = absurd (h refl)
bit-pow_ne zero (suc j) h = zero-bit j
bit-pow_ne (suc k) zero h = omega (arith, pow-suc 2 k)
bit-pow_ne (suc k) (suc j) h =
    let e : 2 ^ suc k / 2 ≡ 2 ^ k = omega (arith, pow-suc 2 k) in
    rw e (bit-pow_ne k j (λ p. h (ap suc p)))

-- `~m` in `n` bits
pub bit-complement : (n m j : ℕ) → m < 2 ^ n → j < n → bit (2 ^ n - 1 - m) j ≡ 1 - bit m j
unfolding bit
bit-complement zero m j h l = absurd (omega arith)
bit-complement (suc n) m zero h l = omega (arith, pow-suc 2 n)
bit-complement (suc n) m (suc j) h l =
    let e : (2 ^ suc n - 1 - m) / 2 ≡ 2 ^ n - 1 - m / 2 = omega (arith, pow-suc 2 n) in
    rw e (bit-complement n (m / 2) j (omega (arith, pow-suc 2 n)) (omega arith))

-- `w & 0`, from a bound on `w`
and-zero : (bound w : ℕ) → w ≤ bound → bit_and w 0 ≡ 0
and-zero bound zero le = refl
and-zero zero (suc w) le = elim le [ ]
and-zero (suc bound) (suc w) le =
    let halved = and-zero bound (suc w / 2) (omega arith) in
    omega (arith, and_lowest (suc w) 0, halved)

-- `w & (1 << k)` is the bit in its place.
pub and-pow : (k w : ℕ) → bit_and w (2 ^ k) ≡ bit w k * 2 ^ k
unfolding bit
and-pow zero w = omega (arith, and_lowest w 1, and-zero (w / 2) (w / 2) (le_refl _))
and-pow (suc k) w =
    let e : 2 ^ suc k / 2 ≡ 2 ^ k = omega (arith, pow-suc 2 k) in
    let h : bit_and (w / 2) (2 ^ suc k / 2) ≡ bit (w / 2) k * 2 ^ k = rw e (and-pow k (w / 2)) in
    omega (
      arith,
      and_lowest w (2 ^ suc k),
      h,
      pow-suc 2 k,
      ap (λ (t : ℕ). bit (w / 2) k * t) (pow-suc 2 k),
    )

pub pow-lt : (k n : ℕ) → k < n → 2 ^ k < 2 ^ n
pow-lt k zero h = absurd (omega arith)
pow-lt zero (suc n) h = omega (arith, pow-suc 2 n, one-le-pow n 2 (omega arith))
pow-lt (suc k) (suc n) h = omega (arith, pow-suc 2 n, pow-suc 2 k, pow-lt k n (omega arith))

-- `&` gives no more than its second operand.
pub bit_and-le : (x y : ℕ) → bit_and x y ≤ y
bit_and-le x y = bounded (x + y) x y (le_refl (x + y))
  where
    bounded : (n x y : ℕ) → x + y ≤ n → bit_and x y ≤ y
    bounded zero zero zero le = omega arith
    bounded zero (suc x) y le = absurd (omega (arith, le))
    bounded zero zero (suc y) le = absurd (omega (arith, le))
    bounded (suc n) zero zero le = omega arith
    bounded (suc n) (suc x) y le =
        omega (arith, and_lowest (suc x) y, bounded n (suc x / 2) (y / 2) (omega (arith, le)))
    bounded (suc n) zero (suc y) le =
        omega (arith, and_lowest zero (suc y), bounded n zero (suc y / 2) (omega (arith, le)))
