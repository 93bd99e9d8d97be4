-- ===== src/Hash/Buckets.antt =====
-- Buckets: where elements stand and how many they are; and the search for the number of buckets.
use tddb.Base.{
  ℕ, zero, suc, ◌+◌, ◌-◌, ◌≤◌, ◌<◌, Bool, true, false, not, ◌&&◌, ◌||◌, some, List, [], ◌∷◌, ◌==◌,
  ◌≡◌, ◌≢◌, refl, sym, ap, ◌∙◌, arith, length, ==_ne, ==_refl, Bool-cases, inl, inr, ℕ_discrete,
}
use tddb.Base.Members.{update, has, Distinct}
use tddb.Base.Bits.{bit_and-le}
use tddb.Hash.{without, turn_off_least_1bit, is_power_of_2, power_from}

-- The loop ends with a power of 2.
pub power_from-is_power_of_2 :
    (fuel x : ℕ)
    → x < fuel
    → 1 ≤ x
    → (p : ℕ) × (power_from fuel x ≡ some p) × (is_power_of_2 p ≡ true) × (1 ≤ p) × (p ≤ x)
unfolding power_from
power_from-is_power_of_2 zero x fuelled some_x = absurd (omega (arith, fuelled))
power_from-is_power_of_2 (suc fuel) x fuelled some_x = elim (Bool-cases (is_power_of_2 x)) [
  | inl y ↦ (x, rw y refl, y, some_x, omega arith)
  | inr n ↦
      let (p, run, power, pos, le) =
        power_from-is_power_of_2 fuel (turn_off_least_1bit x)
          (omega (arith, fuelled, some_x, bit_and-le x (x - 1))) (ground (arith, some_x, n)) in
      (p, rw n run, power, pos, omega (arith, le, bit_and-le x (x - 1)))
]

-- whether an element stands in one of `left` buckets from `i` on, and how many elements there are
abbrev pub anywhere : ℕ → ℕ → (ℕ → List ℕ) → ℕ → Bool
anywhere zero i buckets c = false
anywhere (suc left) i buckets c = has c (buckets i) || anywhere left (i + 1) buckets c

abbrev pub total : ℕ → ℕ → (ℕ → List ℕ) → ℕ
total zero i buckets = 0
total (suc left) i buckets = length (buckets i) + total left (i + 1) buckets

pub anywhere-has :
    (left i : ℕ) (buckets : ℕ → List ℕ) (c : ℕ)
    → anywhere left i buckets c ≡ true
    → (k : ℕ) × (i ≤ k) × (k < i + left) × (has c (buckets k) ≡ true)
anywhere-has zero i buckets c a = cc a
anywhere-has (suc left) i buckets c a = elim (Bool-cases (has c (buckets i))) [
  | inl y ↦ (i, omega arith, omega arith, y)
  | inr n ↦
      let (k, ge, lt, h) = anywhere-has left (i + 1) buckets c (ground (arith, a, n)) in
      (k, omega (arith, ge), omega (arith, lt), h)
]

pub has-anywhere :
    (left i : ℕ) (buckets : ℕ → List ℕ) (c k : ℕ)
    → i ≤ k
    → k < i + left
    → has c (buckets k) ≡ true
    → anywhere left i buckets c ≡ true
has-anywhere zero i buckets c k ge lt h = absurd (omega (arith, ge, lt))
has-anywhere (suc left) i buckets c k ge lt h = elim (ℕ_discrete i k) [
  | yes e ↦ rw (ap (λ j. has c (buckets j)) e ∙ h) refl
  | no n ↦
      ground
        (arith, has-anywhere left (i + 1) buckets c k (omega (arith, ge, n)) (omega (arith, lt)) h)
]

pub total-update :
    (left i : ℕ) (buckets : ℕ → List ℕ) (k : ℕ) (xs : List ℕ)
    → i ≤ k
    → k < i + left
    → total left i (update buckets k xs) + length (buckets k) ≡ total left i buckets + length xs
total-update zero i buckets k xs ge lt = absurd (omega (arith, ge, lt))
total-update (suc left) i buckets k xs ge lt = elim (ℕ_discrete k i) [
  | yes e ↦
      omega (
        arith,
        there e,
        total-above left (i + 1) (omega (arith, e)),
        ap (λ j. length (buckets j)) e,
      )
  | no n ↦ omega (
    arith,
    elsewhere n,
    total-update left (i + 1) buckets k xs (omega (arith, ge, n)) (omega (arith, lt)),
  )
]
  where
    there : k ≡ i → length (update buckets k xs i) ≡ length xs
    there e = rw (==_eq e) refl
      where
        ==_eq : k ≡ i → (k == i) ≡ true
        ==_eq e = ground (arith, e)

    elsewhere : k ≢ i → length (update buckets k xs i) ≡ length (buckets i)
    elsewhere n = rw (==_ne k i n) refl

    total-above : (left i : ℕ) → k < i → total left i (update buckets k xs) ≡ total left i buckets
    total-above zero i above = refl
    total-above (suc left) i above =
        rw
          (
            ==_ne k i (λ e. omega (arith, e, above)),
            total-above left (i + 1) (omega (arith, above)),
          )
          refl

pub total-empty : (left i : ℕ) → total left i (λ j. []) ≡ 0
total-empty zero i = refl
total-empty (suc left) i = omega (arith, total-empty left (i + 1))

pub has-without :
    (c e : ℕ) (xs : List ℕ) → Distinct xs → has c (without e xs) ≡ (has c xs && not (c == e))
has-without c e [] d = refl
has-without c e (x ∷ xs) (out, d) = elim (ℕ_discrete e x) [
  | yes same ↦ elim (ℕ_discrete c e) [
    | yes here ↦
        rw (ap (λ k. k == x) same ∙ ==_refl x)
          (ground (arith, out, same, here, ap (λ k. has k xs) (here ∙ same)))
    | no other ↦ ground (arith, same, other)
  ]
  | no other ↦ ground (arith, has-without c e xs d, other)
]

pub without-Distinct : (e : ℕ) (xs : List ℕ) → Distinct xs → Distinct (without e xs)
without-Distinct e [] d = tt
without-Distinct e (x ∷ xs) (out, d) = elim (ℕ_discrete e x) [
  | yes same ↦ rw (ap (λ k. k == x) same ∙ ==_refl x) d
  | no other ↦
      rw (==_ne e x other) (has-without x e xs d ∙ ground (arith, out), without-Distinct e xs d)
]

without-length : (e : ℕ) (xs : List ℕ) → has e xs ≡ true → length (without e xs) + 1 ≡ length xs
without-length e [] i = cc i
without-length e (x ∷ xs) i = elim (ℕ_discrete e x) [
  | yes same ↦ rw (ap (λ k. k == x) same ∙ ==_refl x) (omega arith)
  | no other ↦ rw (==_ne e x other) (omega (arith, without-length e xs (ground (arith, i, other))))
]

without_out : (e : ℕ) (xs : List ℕ) → has e xs ≡ false → without e xs ≡ xs
without_out e [] out = refl
without_out e (x ∷ xs) out = ground (arith, out, without_out e xs (ground (arith, out)))

-- One element less, when it stands in one bucket only
pub total-without :
    (left i : ℕ) (buckets : ℕ → List ℕ) (e k : ℕ)
    → i ≤ k
    → k < i + left
    → has e (buckets k) ≡ true
    → ((m : ℕ) → i ≤ m → m < i + left → has e (buckets m) ≡ true → m ≡ k)
    → total left i (λ j. without e (buckets j)) + 1 ≡ total left i buckets
total-without zero i buckets e k ge lt there one = absurd (omega (arith, ge, lt))
total-without (suc left) i buckets e k ge lt there one = elim (ℕ_discrete k i) [
  | yes same ↦ omega (
    arith,
    without-length e (buckets i) (ap (λ j. has e (buckets j)) (sym same) ∙ there),
    none_above left (i + 1) (λ m ge' lt'.
        missing m (omega (arith, ge')) (omega (arith, lt')) (λ q. omega (arith, q, same, ge'))),
  )
  | no n ↦ omega (
    arith,
    ap length (without_out e (buckets i) (missing i (omega arith) (omega arith) (λ q. n (sym q)))),
    total-without left (i + 1) buckets e k (omega (arith, ge, n)) (omega (arith, lt)) there
        (λ m ge' lt'. one m (omega (arith, ge')) (omega (arith, lt'))),
  )
]
  where
    missing : (m : ℕ) → i ≤ m → m < i + suc left → m ≢ k → has e (buckets m) ≡ false
    missing m ge' lt' n = elim (Bool-cases (has e (buckets m))) [
      | inl y ↦ absurd (n (one m ge' lt' y))
      | inr f ↦ f
    ]

    none_above :
        (left i : ℕ)
        → ((m : ℕ) → i ≤ m → m < i + left → has e (buckets m) ≡ false)
        → total left i (λ j. without e (buckets j)) ≡ total left i buckets
    none_above zero i out = refl
    none_above (suc left) i out = omega (
      arith,
      ap length (without_out e (buckets i) (out i (omega arith) (omega arith))),
      none_above left (i + 1) (λ m ge' lt'. out m (omega (arith, ge')) (omega (arith, lt'))),
    )

-- One element more at the front of a bucket
pub pushed-has :
    (bs : ℕ → List ℕ) (p e c j : ℕ)
    → has c (update bs p (e ∷ bs p) j) ≡ (has c (bs j) || ((c == e) && (p == j)))
pushed-has bs p e c j = elim (ℕ_discrete p j) [
  | yes same ↦ ground (arith, same, ap (λ k. has c (bs k)) same)
  | no other ↦ rw (==_ne p j other) (ground arith)
]
