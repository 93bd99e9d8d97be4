-- ===== src/Division/Long.antt =====
-- `udiv64` for a divisor of more than 32 bits: the divisor is scaled so that its highest bit is the top
-- one, divided by its upper half, and the quotient corrected by one.
use native.Mathlib.Nat.{
  div-mul-le_self, lt-div-mul-add, div-eq_of_lt, div-div-eq-div-mul, le-div_iff_mul-le,
  div-lt_iff_lt-mul, one-le-pow, div-le_self, mod-eq_of_lt,
}
use native.Mathlib.Decide.{dec_le}
use tddb.Base.{
  ℕ, ◌+◌, ◌-◌, ◌*◌, ◌/◌, ◌^◌, ◌≤◌, ◌<◌, ◌≡◌, refl, ap, sym, ◌∙◌, arith, ltb, some, if◌then◌else◌,
  dec_lt, lt→ltb, le→ltb-false, ==_ne,
}
use tddb.Base.Bits.{pow-lt}
use tddb.Division.{u64, sub64, divl, nlz, udiv_long, udiv64}
use tddb.Division.Leading.{pow-add, mul_mono, nlz_lem}
use tddb.Division.Unsigned.{divl-some, quotient_close, udiv_short-div}

-- The scale `p = 2 ^ nlz` and its complement `a`.
record Scale (d p a v : ℕ) : Type 0 where
  whole : d * p < 2 ^ 64
  high : 2 ^ 31 ≤ v
  fits : v < 2 ^ 32
  near_below : 2 * (v * a) ≤ d
  near_above : d < 2 * (v * a) + 2 * a
  large : 2 ^ 32 * a ≤ 2 * (v * a)

cancel_le : (x y p : ℕ) → 0 < p → x * p ≤ y * p → x ≤ y
cancel_le x y p pos h = elim (dec_le x y) [
  | yes q ↦ q
  | no q ↦ absurd (omega (arith, mul_mono {a = y + 1} {b = x} p (omega arith)))
]

scale :
    (d p a : ℕ)
    → p * a ≡ 2 ^ 31
    → 2 ^ 31 ≤ d / 2 ^ 32 * p
    → d / 2 ^ 32 * p < 2 ^ 32
    → Scale d p a (d * p / 2 ^ 32)
scale d p a e top fits = record {
  whole = whole;
  high = high;
  fits = omega (arith, whole);
  near_below = cancel_le (2 * (v * a)) d p p_pos (omega (arith, va));
  near_above = near_above;
  large = grind (arith, mul_mono a high);
}
  where
    v : ℕ
    v = d * p / 2 ^ 32

    p_pos : 0 < p
    p_pos = grind arith

    -- the upper half is below `2 * a`, so that one more of it still fits
    half_fits : d / 2 ^ 32 + 1 ≤ 2 * a
    half_fits = elim (dec_le (d / 2 ^ 32 + 1) (2 * a)) [
      | yes q ↦ q
      | no q ↦ absurd (omega (arith, mul_mono {a = 2 * a} {b = d / 2 ^ 32} p (omega arith)))
    ]

    whole : d * p < 2 ^ 64
    whole =
        omega (arith, e, p_pos, mul_mono {a = d + 1} {b = 2 ^ 33 * a} p (omega (arith, half_fits)))

    high : 2 ^ 31 ≤ v
    high = omega (arith, mul_mono {a = 2 ^ 32 * (d / 2 ^ 32)} {b = d} p (omega arith))

    va : v * a * p ≡ v * 2 ^ 31
    va = omega (arith, ap (λ (t : ℕ). v * t) e)

    near_above : d < 2 * (v * a) + 2 * a
    near_above = elim (dec_le (2 * (v * a) + 2 * a) d) [
      | yes q ↦ absurd (omega (arith, e, va, mul_mono p q))
      | no q ↦ omega arith
    ]

pow_lt_inv : (s n : ℕ) → 2 ^ s < 2 ^ n → s < n
pow_lt_inv s n h = elim (dec_le n s) [
  | yes q ↦ elim (dec_le s n) [
    | yes r ↦ let e : s ≡ n = omega arith in absurd (omega (arith, ap (λ (t : ℕ). 2 ^ t) e))
    | no r ↦ absurd (omega (arith, pow-lt n s (omega arith)))
  ]
  | no q ↦ omega arith
]

-- The estimate from the upper halves: at most one too large.
close :
    (n d p a v : ℕ)
    → 0 < a
    → n < 2 ^ 64
    → Scale d p a v
    → (n / d ≤ n / 2 / v / a) × (n / 2 / v / a ≤ n / d + 1)
close n d p a v pos hn sc =
    let e : n / 2 / v / a ≡ n / (2 * (v * a)) =
      div-div-eq-div-mul (n / 2) v a ∙ div-div-eq-div-mul n 2 (v * a) in
    rw e (quotient_close n d (2 * (v * a)) a pos sc.large sc.near_below sc.near_above hn)

back :
    (n d q k : ℕ)
    → n < 2 ^ 64
    → sub64 q 1 ≡ k
    → k * d ≤ n
    → sub64 n (u64 (sub64 q 1 * d)) ≡ n - k * d
back n d q k hn e h = rw e (omega arith)

-- The correction at the end of `udiv64`.
correct :
    (n d q : ℕ)
    → n < 2 ^ 64
    → 0 < d
    → d ≤ n
    → n / d ≤ q
    → q ≤ n / d + 1
    → (if ltb (sub64 n (u64 (sub64 q 1 * d))) d then sub64 q 1 else q) ≡ n / d
correct n d q hn pos le lower upper = elim (dec_le q (n / d)) [
  | yes exact ↦
      let e : q ≡ n / d = omega arith in
      let up : (n / d - 1 + 1) * d ≡ n / d * d = ap (λ (t : ℕ). t * d) (omega (arith, one)) in
      let b : sub64 n (u64 (sub64 q 1 * d)) ≡ n - (n / d - 1) * d =
        back n d q (n / d - 1) hn (omega (arith, one)) (omega (arith, up, div-mul-le_self n d)) in
      rw (b, le→ltb-false (n - (n / d - 1) * d) d (omega (arith, up, div-mul-le_self n d))) e
  | no above ↦
      let e : sub64 q 1 ≡ n / d = omega (arith, div-le_self n d) in
      let b : sub64 n (u64 (sub64 q 1 * d)) ≡ n - n / d * d =
        back n d q (n / d) hn e (div-mul-le_self n d) in
      rw
        (
          b,
          lt→ltb (n - n / d * d) d (omega (arith, lt-div-mul-add {a = n} pos, div-mul-le_self n d)),
        )
        e
]
  where
    one : 1 ≤ n / d
    one = (le-div_iff_mul-le pos).1 (omega arith)

-- The code's long division over the values that its variables have.
long_run :
    (n d s v q r : ℕ)
    → nlz (d / 2 ^ 32) ≡ s
    → u64 (d * 2 ^ s) / 2 ^ 32 ≡ v
    → divl (n / 2) v ≡ some (n / 2 / v)
    → n / 2 / v / 2 ^ (31 - s) ≡ q
    → (if ltb (sub64 n (u64 (sub64 q 1 * d))) d then sub64 q 1 else q) ≡ r
    → udiv_long n d ≡ some r
unfolding udiv_long
long_run n d s v q r e1 e2 e3 e4 e5 = rw (e1, e2, e3, e4) (ap some e5)

one_le_half : (d : ℕ) → 2 ^ 32 ≤ d → 1 ≤ d / 2 ^ 32
one_le_half d h = omega arith

udiv_long-div :
    (n d : ℕ) → n < 2 ^ 64 → d < 2 ^ 64 → 2 ^ 32 ≤ d → d ≤ n → udiv_long n d ≡ some (n / d)
udiv_long-div n d hn hd long le =
    let s = nlz (d / 2 ^ 32) in
    let (top, fits) = nlz_lem (d / 2 ^ 32) (omega arith) (omega arith) in
    let a = 2 ^ (31 - s) in
    let v = d * 2 ^ s / 2 ^ 32 in
    let small : s < 32 =
      pow_lt_inv s 32 (grind (arith, fits, mul_mono (2 ^ s) (one_le_half d long))) in
    let total : s + (31 - s) ≡ 31 = omega arith in
    let e : 2 ^ s * a ≡ 2 ^ 31 = sym (pow-add 2 s (31 - s)) ∙ ap (λ (t : ℕ). 2 ^ t) total in
    let sc : Scale d (2 ^ s) a v = scale d (2 ^ s) a e top fits in
    let (lower, upper) = close n d (2 ^ s) a v (one-le-pow (31 - s) 2 (omega arith)) hn sc in
    long_run n d s v (n / 2 / v / a) (n / d) refl
      (ap (λ (t : ℕ). t / 2 ^ 32) (mod-eq_of_lt sc.whole))
      (divl-some (n / 2) v (λ z. absurd (omega (arith, sc.high, z)))
        ((div-lt_iff_lt-mul (omega (arith, sc.high))).1 (omega (arith, sc.high))))
      refl (correct n d (n / 2 / v / a) hn (omega arith) le lower upper)

-- `udiv64` (`__udivdi3`) is division: for every 64-bit dividend and every nonzero 64-bit divisor it
-- returns the quotient, and DIVL never traps on the way.
pub udiv64-div : (n d : ℕ) → n < 2 ^ 64 → d < 2 ^ 64 → 0 < d → udiv64 n d ≡ some (n / d)
unfolding udiv64
udiv64-div n d hn hd pos = elim (dec_lt d (2 ^ 32)) [
  | yes short ↦ let e : d / 2 ^ 32 ≡ 0 = omega arith in rw e (udiv_short-div n d hn pos short)
  | no long ↦ rw (==_ne (d / 2 ^ 32) 0 (λ e. absurd (omega (arith, e)))) (elim (dec_lt n d) [
    | yes small ↦ rw (lt→ltb n d small) (ap some (sym (div-eq_of_lt small)))
    | no large ↦
        rw (le→ltb-false n d (omega arith)) (udiv_long-div n d hn hd (omega arith) (omega arith))
  ])
]
