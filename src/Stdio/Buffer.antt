-- ===== src/Stdio/Buffer.antt =====
-- The bounds of `format_integer`'s buffer, and the flags that `parse_conversion` leaves (lib/stdio.c).
use native.Mathlib.Nat.{div-add-mod, add-mul}
use tddb.Base.{
  ℕ, zero, suc, ◌+◌, ◌-◌, ◌*◌, ◌/◌, ◌%◌, ◌^◌, ◌≤◌, ◌<◌, Bool, true, ◌&&◌, some, List, [], ◌∷◌,
  length, ◌==◌, ltb, if◌then◌else◌, ◌≡◌, refl, ap, arith, min, Bool-cases, inl, inr,
}
use tddb.Stdio.{
  Conversion, IntegerBase, digits_from, zeros_from, octal_zero, precision_of, integer_buffer,
}

-- A larger divisor, a smaller quotient
eighth : (q b r v : ℕ) → b * q + r ≡ v → 8 ≤ b → 8 * q ≤ v
eighth q b r v e base = omega (arith, e, base, ap (λ k. k * q) split, mul_distrib)
  where
    split : b ≡ 8 + (b - 8)
    split = omega (arith, base)

    mul_distrib : (8 + (b - 8)) * q ≡ 8 * q + (b - 8) * q
    mul_distrib = add-mul 8 (b - 8) q

digits_from-length :
    (k fuel value cnt : ℕ) (b : IntegerBase) (group : Bool) (buf : List ℕ)
    → 8 ≤ b.base
    → value < 8 ^ k
    → k ≤ fuel
    → (out : List ℕ) × (digits_from (suc fuel) b group value cnt buf ≡ some out)
      × (length out ≤ length buf + (k + k))
unfolding digits_from
digits_from-length k fuel zero cnt b group buf base lt le = (buf, refl, omega arith)
digits_from-length zero fuel (suc value) cnt b group buf base lt le = absurd (omega (arith, lt))
digits_from-length (suc k) zero (suc value) cnt b group buf base lt le = absurd (omega (arith, le))
digits_from-length (suc k) (suc fuel) (suc value) cnt b group buf base lt le =
    let buf' = if group && (ltb 0 cnt && (cnt % b.group == 0)) then 44 ∷ buf else buf in
    let smaller : suc value / b.base < 8 ^ k = omega (
      arith,
      lt,
      eighth (suc value / b.base) b.base (suc value % b.base) (suc value)
          (div-add-mod (suc value) b.base) base,
    ) in
    let (out, run, few) =
      digits_from-length k fuel (suc value / b.base) (cnt + 1) b group
        (b.digits (suc value % b.base) ∷ buf') base smaller (omega (arith, le)) in
    (out, rw some_value run, omega (arith, few, comma))
  where
    some_value : ltb 0 (suc value) ≡ true
    some_value = ground arith

    comma :
        length (if group && (ltb 0 cnt && (cnt % b.group == 0)) then 44 ∷ buf else buf)
        ≤ length buf + 1
    comma = ground arith

zeros_from-length :
    (fuel precision : ℕ) (buf : List ℕ)
    → length buf ≤ 63
    → 63 ≤ length buf + fuel
    → (length (zeros_from fuel precision buf) ≤ 63)
      × (length buf ≤ length (zeros_from fuel precision buf))
      × (min precision 63 ≤ length (zeros_from fuel precision buf))
unfolding zeros_from
zeros_from-length zero precision buf le enough = (le, omega arith, omega (arith, le, enough))
zeros_from-length (suc fuel) precision buf le enough =
    elim (Bool-cases (ltb (length buf) precision && ltb (length buf) 63)) [
      | inl y ↦
          let (upper, lower, wide) =
            zeros_from-length fuel precision (48 ∷ buf) (ground (arith, y))
              (omega (arith, enough)) in
          rw y (upper, omega (arith, lower), wide)
      | inr n ↦ rw n (le, omega arith, ground (arith, n, le))
    ]

-- The buffer of `format_integer`, of 64 characters, never overflows, whatever the value of 64 bits, the base and the
-- conversion are; it holds at least as many characters (digits, and the commas of groups) as the precision says, up to 63.
-- The base is 8 or more.
pub integer_buffer-length :
    (value : ℕ) (b : IntegerBase) (c : Conversion)
    → value < 18446744073709551616
    → 8 ≤ b.base
    → (buf : List ℕ) × (integer_buffer value b c ≡ some buf)
      × (length buf ≤ 64)
      × (min (precision_of c.precision) 63 ≤ length buf)
unfolding integer_buffer
integer_buffer-length value b c lt base =
    let (digits, run, few) =
      digits_from-length 22 63 value 0 b c.flags.group [] base (omega (arith, lt, large))
        (omega arith) in
    let (upper, lower, wide) =
      zeros_from-length 64 (precision_of c.precision) digits (omega (arith, few)) (omega arith) in
    (
      octal_zero b c.flags (zeros_from 64 (precision_of c.precision) digits),
      rw run refl,
      ground (arith, upper),
      ground (arith, wide),
    )
  where
    large : 18446744073709551616 ≤ 8 ^ 22
    large = omega arith
