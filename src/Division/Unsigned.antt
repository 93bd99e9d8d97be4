-- ===== src/Division/Unsigned.antt =====
-- `udiv64` is division, whatever the size of the divisor.
use native.Mathlib.Nat.{
  div-le_self, add-mul-div_left, le-div_iff_mul-le, div-lt_iff_lt-mul, div-mul-le_self,
  lt-div-mul-add, div-add-mod', mod-lt, mod-eq_of_lt,
}
use native.Mathlib.Decide.{dec_le}
use tddb.Base.{
  ℕ, zero, suc, ◌+◌, ◌-◌, ◌*◌, ◌/◌, ◌%◌, ◌^◌, ◌≤◌, ◌<◌, ◌≡◌, ◌≢◌, refl, ap, ◌∙◌, arith, some,
  lt→ltb, ==_ne,
}
use tddb.Division.{u32, u64, divl, udiv_short}
use tddb.Division.Leading.{mul_mono}

pub divl-some : (n d : ℕ) → d ≢ 0 → n / d < 2 ^ 32 → divl n d ≡ some (n / d)
unfolding divl
divl-some n d ne h = rw (==_ne d 0 ne, lt→ltb _ _ h)

-- The two digits of a division by a short divisor, `b` the base.
short_digits :
    (b n1 n0 d : ℕ)
    → 0 < d
    → n0 < b
    → ((b * (n1 % d) + n0) / d + b * (n1 / d) ≡ (b * n1 + n0) / d) × ((b * (n1 % d) + n0) / d < b)
short_digits b n1 n0 d pos h =
    let e : b * n1 ≡ b * (n1 % d) + d * (b * (n1 / d)) =
      grind (arith, ap (λ (t : ℕ). b * t) (div-add-mod' n1 d)) in
    let e' : b * n1 + n0 ≡ b * (n1 % d) + n0 + d * (b * (n1 / d)) = omega (arith, e) in
    let small : b * (n1 % d) + b ≤ b * d = grind (arith, mul_mono b (mod-lt n1 pos)) in
    (
      rw (e', add-mul-div_left _ (b * (n1 / d)) pos),
      (div-lt_iff_lt-mul pos).1 (omega (arith, small)),
    )

-- The code's short division over the values that its variables have.
short_run :
    (n d n1 n0 x : ℕ)
    → d ≢ 0
    → n / 2 ^ 32 ≡ n1
    → u32 n ≡ n0
    → u32 d ≡ d
    → u64 (2 ^ 32 * (n1 % d) + n0) ≡ x
    → x / d < 2 ^ 32
    → udiv_short n d ≡ some (u64 (x / d + 2 ^ 32 * (n1 / d)))
unfolding udiv_short
short_run n d n1 n0 x ne e1 e0 ed ex h = rw (e1, e0, ed, ==_ne d 0 ne, ex, divl-some x d ne h)

pub udiv_short-div : (n d : ℕ) → n < 2 ^ 64 → 0 < d → d < 2 ^ 32 → udiv_short n d ≡ some (n / d)
udiv_short-div n d hn pos hd =
    let n1 = n / 2 ^ 32 in
    let n0 = u32 n in
    let x = 2 ^ 32 * (n1 % d) + n0 in
    let (sum, fits) = short_digits (2 ^ 32) n1 n0 d pos (omega arith) in
    let split : 2 ^ 32 * n1 + n0 ≡ n = omega arith in
    let total : x / d + 2 ^ 32 * (n1 / d) ≡ n / d = sum ∙ ap (λ (t : ℕ). t / d) split in
    let small : 2 ^ 32 * (n1 % d) + 2 ^ 32 ≤ 2 ^ 32 * d = omega (arith, mod-lt n1 pos) in
    short_run n d n1 n0 x (λ e. absurd (omega (arith, e))) refl refl (omega arith)
      (omega (arith, small)) fits
    ∙ ap some (ap u64 total ∙ mod-eq_of_lt (omega (arith, div-le_self n d)))

square_bound : (a : ℕ) → 0 < a → 2 * a ≤ a * a + 1
square_bound zero h = absurd (omega arith)
square_bound (suc m) h = omega arith

-- The estimate behind it: `r` is how far `D` lies below `d`, and `c + 1` is `2 * a`.
gap_small :
    (n D r a c : ℕ) → 2 * a ≡ c + 1 → 2 ^ 32 * a ≤ D → r ≤ c → n < 2 ^ 64 → n * r < (D + r) * D
gap_small n D r a c e big near hn = omega (
  arith,
  mul_mono n near,
  mul_mono c hn,
  square_bound a (omega arith),
  mul_mono D big,
  mul_mono (2 ^ 32 * a) big,
)

-- If the quotient by `D` were two too large, `r` would be larger than the estimate allows.
gap_contradiction :
    (n D r k : ℕ) → n * r < (D + r) * D → n < (k + 1) * (D + r) → (k + 2) * D ≤ n → ⊥
gap_contradiction n D r k small above below =
    let far : D + r ≤ (k + 2) * r = omega arith in omega (arith, mul_mono r below, mul_mono D far)

-- A divisor `D` a little below `d` gives a quotient that is at most one too large.
pub quotient_close :
    (n d D a : ℕ)
    → 0 < a
    → 2 ^ 32 * a ≤ D
    → D ≤ d
    → d < D + 2 * a
    → n < 2 ^ 64
    → (n / d ≤ n / D) × (n / D ≤ n / d + 1)
quotient_close n d D a pos big le near hn = (lower, upper)
  where
    D_pos : 0 < D
    D_pos = omega arith

    lower : n / d ≤ n / D
    lower = (le-div_iff_mul-le D_pos).1 (omega (arith, div-mul-le_self n d, mul_mono (n / d) le))

    split : D + (d - D) ≡ d
    split = omega arith

    small : n * (d - D) < (D + (d - D)) * D
    small = gap_small n D (d - D) a (2 * a - 1) (omega arith) big (omega arith) hn

    above : n < (n / d + 1) * (D + (d - D))
    above = rw split (omega (arith, lt-div-mul-add {a = n} {b = d} (omega arith)))

    upper : n / D ≤ n / d + 1
    upper = elim (dec_le ((n / d + 2) * D) n) [
      | yes two ↦ absurd (gap_contradiction n D (d - D) (n / d) small above two)
      | no less ↦ omega (arith, (div-lt_iff_lt-mul {x = n} {y = n / d + 2} D_pos).1 (omega arith))
    ]
