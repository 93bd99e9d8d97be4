-- ===== src/Division/Signed.antt =====
-- The signed divisions and the remainders.
use native.Mathlib.Nat.{div-le_self, div-add-mod', mod-lt, mul_comm}
use tddb.Base.{
  ℕ, ◌+◌, ◌*◌, ◌/◌, ◌%◌, ◌^◌, ◌≤◌, ◌<◌, ◌≡◌, ◌≢◌, ap, ◌∙◌, arith, same, Bool, true, false, some,
  if◌then◌else◌, le→leb, lt→leb-false, dec_lt,
}
use tddb.Division.{
  u32, u64, sub64, neg64, is_negative, magnitude, extend32, udiv64, umod64, sdiv64, smod64, divdi3,
  moddi3, umoddi3,
}
use tddb.Division.Long.{udiv64-div}

-- `__umoddi3` returns the low 32 bits of the remainder.
pub umoddi3-mod : (n d : ℕ) → n < 2 ^ 64 → d < 2 ^ 64 → 0 < d → umoddi3 n d ≡ some (n % d % 2 ^ 32)
unfolding umoddi3 umod64
umoddi3-mod n d hn hd pos =
    let e : sub64 n (u64 (d * (n / d))) ≡ n % d =
      omega (arith, div-add-mod' n d, mul_comm d (n / d)) in
    rw (udiv64-div n d hn hd pos, e)

-- For a remainder that needs more than 32 bits this is not the remainder.
pub umoddi3-ne-mod :
    (n d : ℕ) → n < 2 ^ 64 → d < 2 ^ 64 → 0 < d → 2 ^ 32 ≤ n % d → umoddi3 n d ≢ some (n % d)
umoddi3-ne-mod n d hn hd pos big e = absurd (omega (arith, same_some))
  where
    same_some : n % d % 2 ^ 32 ≡ n % d
    same_some = cc (umoddi3-mod n d hn hd pos)

module _ (a b : ℕ) (ha : a < 2 ^ 63) (hb : b < 2 ^ 63) (pos_a : 0 < a) (pos_b : 0 < b) where
  sign_pos : (x : ℕ) → x < 2 ^ 63 → (is_negative x ≡ false) × (magnitude x ≡ x)
  sign_pos x h = let e : is_negative x ≡ false = lt→leb-false (2 ^ 63) x h in (e, rw e)

  sign_neg :
      (x : ℕ) → 0 < x → x < 2 ^ 63 → (is_negative (neg64 x) ≡ true) × (magnitude (neg64 x) ≡ x)
  sign_neg x p h =
      let e : is_negative (neg64 x) ≡ true = le→leb (2 ^ 63) (neg64 x) (omega arith) in
      (e, rw e (omega arith))

  quotient : udiv64 a b ≡ some (a / b)
  quotient = udiv64-div a b (omega arith) (omega arith) pos_b

  -- The value of `sdiv64` at operands with known signs and magnitudes.
  run :
      (n d : ℕ) {p q : Bool}
      → (is_negative n ≡ p) × (magnitude n ≡ a)
      → (is_negative d ≡ q) × (magnitude d ≡ b)
      → divdi3 n d ≡ some (if same p q then a / b else neg64 (a / b))
  unfolding divdi3 sdiv64
  run n d (p, m) (q, k) = rw (m, k, quotient, p, q)

  -- `__divdi3` truncates toward zero: for all signs of the operands the quotient of the magnitudes,
  -- negative if the signs differ.
  pub divdi3-div :
      (divdi3 a b ≡ some (a / b))
      × (divdi3 (neg64 a) b ≡ some (neg64 (a / b)))
      × (divdi3 a (neg64 b) ≡ some (neg64 (a / b)))
      × (divdi3 (neg64 a) (neg64 b) ≡ some (a / b))
  divdi3-div = (
    run a b (sign_pos a ha) (sign_pos b hb),
    run (neg64 a) b (sign_neg a pos_a ha) (sign_pos b hb),
    run a (neg64 b) (sign_pos a ha) (sign_neg b pos_b hb),
    run (neg64 a) (neg64 b) (sign_neg a pos_a ha) (sign_neg b pos_b hb),
  )

  product : b * (a / b) + a % b ≡ a
  product = omega (arith, div-add-mod' a b, mul_comm b (a / b))

  neg_product : u64 (b * neg64 (a / b)) ≡ neg64 (b * (a / b))
  neg_product = elim (dec_lt 0 (a / b)) [
    | yes q ↦
        let t : neg64 (a / b) + a / b ≡ 2 ^ 64 = omega (arith, div-le_self a b) in
        omega (arith, ap (λ (x : ℕ). b * x) t, product)
    | no q ↦ let e : a / b ≡ 0 = omega arith in rw e (omega arith)
  ]

  -- The remainder's 32 bits, extended again.
  small_remainder :
      a % b < 2 ^ 31
      → (extend32 (u32 (a % b)) ≡ a % b) × (extend32 (u32 (neg64 (a % b))) ≡ neg64 (a % b))
  small_remainder h = ground arith

  mod_run :
      (n q r : ℕ)
      → divdi3 n b ≡ some q
      → sub64 n (u64 (b * q)) ≡ r
      → moddi3 n b ≡ some (extend32 (u32 r))
  unfolding moddi3 smod64 divdi3
  mod_run n q r e f = rw (e, f)

  -- `__moddi3` returns the remainder with the sign of the dividend, for positive divisors of at most
  -- 31 bits and both signs of the dividend.
  pub moddi3-mod :
      b ≤ 2 ^ 31 → (moddi3 a b ≡ some (a % b)) × (moddi3 (neg64 a) b ≡ some (neg64 (a % b)))
  moddi3-mod small =
      let (up, down) = small_remainder (omega (arith, mod-lt a pos_b)) in
      (
        mod_run a (a / b) (a % b) (divdi3-div.0) (omega (arith, product)) ∙ ap some up,
        mod_run (neg64 a) (neg64 (a / b)) (neg64 (a % b)) (divdi3-div.1)
              (omega (arith, neg_product, product))
            ∙ ap some down,
      )
