-- ===== src/Division/Leading.antt =====
-- `nlz` counts the leading zero bits of a 32-bit number.
use native.Mathlib.Nat.{pow-zero, pow-suc, add-zero, add-suc, mul-one, mul_assoc}
use tddb.Base.{
  ℕ, zero, suc, ◌+◌, ◌*◌, ◌^◌, ◌≤◌, ◌<◌, ◌≡◌, refl, ap, arith, leb, Bool-cases, inl, inr, leb→le,
  leb-false→lt, if◌then◌else◌,
}
use tddb.Division.{u32, shift_below, nlz}

pub pow-add : (a n k : ℕ) → a ^ (n + k) ≡ a ^ n * a ^ k
pow-add a n zero = rw (add-zero, pow-zero, mul-one)
pow-add a n (suc k) = rw (add-suc, pow-suc, pow-add a n k, pow-suc a k, mul_assoc)

-- A state of `nlz` at `x`: the number is `x` shifted by the count, and lies in `lo ≤ y < 2 ^ 32`.
record Shifted (x lo : ℕ) (s : ℕ × ℕ) : Type 0 where
  shifted : s.1 ≡ x * 2 ^ s.0
  above : lo ≤ s.1
  below : s.1 < 2 ^ 32

pub mul_mono : {a b : ℕ} (p : ℕ) → a ≤ b → a * p ≤ b * p
mul_mono p h = grind arith

-- The arithmetic of a shift by `p = 2 ^ k`.
shift_fits :
    (p limit lo y : ℕ)
    → suc limit * p ≡ 2 ^ 32
    → lo * p ≡ suc limit
    → lo ≤ y
    → y ≤ limit
    → (y * p < 2 ^ 32) × (suc limit ≤ y * p)
shift_fits p limit lo y top bottom above small = (fits, high)
  where
    pos : 0 < p
    pos = grind arith

    fits : y * p < 2 ^ 32
    fits = grind (arith, pos, mul_mono p small)

    high : suc limit ≤ y * p
    high = grind (arith, mul_mono p above)

shift_below-Shifted :
    (k limit lo x : ℕ) (s : ℕ × ℕ)
    → suc limit * 2 ^ k ≡ 2 ^ 32
    → lo * 2 ^ k ≡ suc limit
    → Shifted x lo s
    → Shifted x (suc limit) (shift_below limit k s)
unfolding shift_below
shift_below-Shifted k limit lo x (n, y) top bottom h = elim (Bool-cases (leb y limit)) [
  | inl small ↦
      let (fits, high) = shift_fits (2 ^ k) limit lo y top bottom h.above (leb→le y limit small) in
      let id : u32 (y * 2 ^ k) ≡ y * 2 ^ k = omega arith in
      rw (small, id)
        (record {
          shifted = rw (pow-add, ← mul_assoc) (ap (λ (t : ℕ). t * 2 ^ k) h.shifted);
          above = high;
          below = fits;
        })
  | inr large ↦ rw large (record { shifted = h.shifted; above = ground arith; below = h.below })
]

finish_lem :
    (x : ℕ) (s : ℕ × ℕ)
    → Shifted x 0x40000000 s
    → let n = if leb s.1 0x7FFFFFFF then s.0 + 1 else s.0 in
      (2 ^ 31 ≤ x * 2 ^ n) × (x * 2 ^ n < 2 ^ 32)
finish_lem x (n, y) h = elim (Bool-cases (leb y 0x7FFFFFFF)) [
  | inl small ↦ rw small (
      omega (
        arith,
        leb→le y 0x7FFFFFFF small,
        h.shifted,
        h.above,
        ap (λ (t : ℕ). x * t) (pow-add 2 n 1),
      ))
  | inr large ↦ rw large (omega (arith, h.shifted, h.below, leb-false→lt y 0x7FFFFFFF large))
]

-- `nlz` of a nonzero 32-bit number is the shift that brings its highest bit to the top.
pub nlz_lem : (x : ℕ) → 0 < x → x < 2 ^ 32 → (2 ^ 31 ≤ x * 2 ^ nlz x) × (x * 2 ^ nlz x < 2 ^ 32)
unfolding nlz
nlz_lem x pos fits = finish_lem x _ s4
  where
    s0 : Shifted x 1 (0, x)
    s0 = record { shifted = omega arith; above = pos; below = fits }

    s4 : Shifted x 0x40000000 (
        shift_below 0x3FFFFFFF 2
          (shift_below 0x0FFFFFFF 4 (shift_below 0x00FFFFFF 8 (shift_below 0x0000FFFF 16 (0, x)))))
    s4 = shift_below-Shifted 2 0x3FFFFFFF 0x10000000 x _ refl refl (
        shift_below-Shifted 4 0x0FFFFFFF 0x01000000 x _ refl refl (
          shift_below-Shifted 8 0x00FFFFFF 0x00010000 x _ refl refl
            (shift_below-Shifted 16 0x0000FFFF 1 x _ refl refl s0)))
