-- ===== src/Bitmap/Scan.antt =====
-- `scan` finds the first run of bits, and `scan_and_flip` claims it.
use native.Mathlib.Nat.{ne_of_lt}
use tddb.Base.{
  ℕ, zero, suc, ◌+◌, ◌-◌, ◌≤◌, ◌<◌, Bool, true, false, not, some, ◌≡◌, ◌≢◌, refl, sym, ◌∙◌, arith,
  inl, inr, le→leb, ==_ne, Bool-cases, ℕ_discrete,
}
use mathlib.Core.Path.{subst}
use native.Mathlib.Decide.{dec_le}
use tddb.Bitmap.{Bitmap, bitmap_error, contains, scan_from, scan, set_multiple, scan_and_flip}
use tddb.Bitmap.Bit.{at, IsValid}
use tddb.Bitmap.Range.{Fills, Fits, Search, hit, miss, contains-Search, set_multiple-Fills}

-- The `cnt` bits from `i` on have the value `v`.
abbrev pub Run : Bitmap → ℕ → ℕ → Bool → Type 0
Run b i cnt v = (j : ℕ) → i ≤ j → j < i + cnt → at b j ≡ v

-- What the first run of `cnt` bits of value `v` at or after `start` is, if there is one.
pub data First (b : Bitmap) (start cnt : ℕ) (v : Bool) : ℕ → Type 0 where
  found :
      (i : ℕ)
      → start ≤ i
      → i + cnt ≤ b.bit_cnt
      → Run b i cnt v
      → ((k : ℕ) → start ≤ k → k < i → ¬ (Run b k cnt v))
      → First b start cnt v i
  absent :
      ((k : ℕ) → start ≤ k → k + cnt ≤ b.bit_cnt → ¬ (Run b k cnt v))
      → First b start cnt v bitmap_error

not-not : (v : Bool) → not (not v) ≡ v
not-not true = refl
not-not false = refl

not-ne : (v : Bool) → not v ≢ v
not-ne true h = cc
not-ne false h = cc

Run-of_miss :
    {b : Bitmap} {i : ℕ} (cnt : ℕ) {v : Bool} → Search b i (i + cnt) (not v) false → Run b i cnt v
Run-of_miss {b} {i} cnt {v} s = go s refl
  where
    go : {t : Bool} → Search b i (i + cnt) (not v) t → t ≡ false → Run b i cnt v
    go (hit j lo up is) e = cc
    go (miss none) e = λ j lo up. none j lo up ∙ not-not v

not-Run-of_hit :
    {b : Bitmap} {i : ℕ} (cnt : ℕ) {v : Bool}
    → Search b i (i + cnt) (not v) true
    → ¬ (Run b i cnt v)
not-Run-of_hit {b} {i} cnt {v} s r = go s refl
  where
    go : {t : Bool} → Search b i (i + cnt) (not v) t → t ≡ true → ⊥
    go (hit j lo up is) e = not-ne v (sym is ∙ r j lo up)
    go (miss none) e = cc

First-later :
    {b : Bitmap} {i cnt r : ℕ} {v : Bool}
    → ¬ (Run b i cnt v)
    → First b (i + 1) cnt v r
    → First b i cnt v r
First-later {b} {i} {cnt} {r} {v} no_run (found j lo fits run least) =
    found j (omega arith) fits run (λ k low up. elim (ℕ_discrete i k) [
      | yes p ↦ subst (λ (t : ℕ). ¬ (Run b t cnt v)) p no_run
      | no ne ↦ least k (omega arith) up
    ])
First-later {b} {i} {cnt} {r} {v} no_run (absent none) = absent (λ k low fits.
    elim (ℕ_discrete i k) [
      | yes p ↦ subst (λ (t : ℕ). ¬ (Run b t cnt v)) p no_run
      | no ne ↦ none k (omega arith) fits
    ])

scan_from-skip :
    (b : Bitmap) {r : ℕ} (i n cnt : ℕ) (v : Bool)
    → contains b i cnt (not v) ≡ some true
    → scan_from b (i + 1) n cnt v ≡ some r
    → scan_from b i (suc n) cnt v ≡ some r
unfolding scan_from
scan_from-skip b i n cnt v p q = rw (p, q)

scan_from-stop :
    (b : Bitmap) (i n cnt : ℕ) (v : Bool)
    → contains b i cnt (not v) ≡ some false
    → scan_from b i (suc n) cnt v ≡ some i
unfolding scan_from
scan_from-stop b i n cnt v p = rw p

-- `n` rounds go through all places from `i` on where `cnt` bits fit.
scan_from-First :
    (n : ℕ) {b : Bitmap} (i cnt : ℕ) (v : Bool)
    → IsValid b
    → cnt ≤ b.bit_cnt
    → n ≡ b.bit_cnt - cnt + 1 - i
    → (r : ℕ) × (scan_from b i n cnt v ≡ some r) × First b i cnt v r
unfolding scan_from
scan_from-First zero {b} i cnt v ok h e =
    (bitmap_error, refl, absent (λ k lo fits. absurd (omega arith)))
scan_from-First (suc n) {b} i cnt v ok h e =
    let fits : Fits b i cnt = record { valid = ok; below = omega arith } in
    let (t, run, found_it) = contains-Search (not v) fits in
    let (r, rest, first) = scan_from-First n {b = b} (i + 1) cnt v ok h (omega arith) in
    elim (Bool-cases t) [
      | inl hit_it ↦ (
        r,
        scan_from-skip b i n cnt v (rw hit_it at run) rest,
        First-later (not-Run-of_hit cnt (rw hit_it at found_it)) first,
      )
      | inr miss_it ↦ (
        i,
        scan_from-stop b i n cnt v (rw miss_it at run),
        found i (omega arith) (fits.below) (Run-of_miss cnt (rw miss_it at found_it))
            (λ k lo up. absurd (omega arith)),
      )
    ]

scan_run :
    (b : Bitmap) {r : ℕ} (start cnt : ℕ) (v : Bool)
    → start ≤ b.bit_cnt
    → cnt ≤ b.bit_cnt
    → scan_from b start (b.bit_cnt - cnt + 1 - start) cnt v ≡ some r
    → scan b start cnt v ≡ some r
unfolding scan
scan_run b start cnt v p q e = rw (le→leb start b.bit_cnt p, le→leb cnt b.bit_cnt q) e

scan_too_long :
    (b : Bitmap) (start cnt : ℕ) (v : Bool)
    → start ≤ b.bit_cnt
    → b.bit_cnt < cnt
    → scan b start cnt v ≡ some bitmap_error
unfolding scan
scan_too_long b start cnt v p q = rw (le→leb start b.bit_cnt p) (ground arith)

-- `bitmap_scan` on a valid bitmap returns the first place at or after `start` where `cnt` bits in a row
-- have the value, and BITMAP_ERROR exactly if there is no such place.
pub scan-First :
    {b : Bitmap} (start cnt : ℕ) (v : Bool)
    → IsValid b
    → start ≤ b.bit_cnt
    → (r : ℕ) × (scan b start cnt v ≡ some r) × First b start cnt v r
scan-First {b} start cnt v ok h = elim (dec_le cnt b.bit_cnt) [
  | yes q ↦
      let (r, e, first) =
        scan_from-First (b.bit_cnt - cnt + 1 - start) {b = b} start cnt v ok q refl in
      (r, scan_run b start cnt v h q e, first)
  | no q ↦ (
    bitmap_error,
    scan_too_long b start cnt v h (omega arith),
    absent (λ k lo fits. absurd (omega arith)),
  )
]

flip_run :
    (b : Bitmap) {b' : Bitmap} {r : ℕ} (start cnt : ℕ) (v : Bool)
    → scan b start cnt v ≡ some r
    → r ≢ bitmap_error
    → set_multiple b r cnt (not v) ≡ some b'
    → scan_and_flip b start cnt v ≡ some (r, b')
unfolding scan_and_flip
flip_run b start cnt v p ne q = rw (p, ==_ne _ _ ne, q)

flip_none :
    (b : Bitmap) (start cnt : ℕ) (v : Bool)
    → scan b start cnt v ≡ some bitmap_error
    → scan_and_flip b start cnt v ≡ some (bitmap_error, b)
unfolding scan_and_flip
flip_none b start cnt v p = rw p

-- What `bitmap_scan_and_flip` leaves: the bitmap as it was with BITMAP_ERROR, else the run that it
-- found with the other value.
pub data Claimed (b : Bitmap) (cnt : ℕ) (v : Bool) : ℕ → Bitmap → Type 0 where
  full : Claimed b cnt v bitmap_error b
  claimed : {i : ℕ} {b' : Bitmap} → Fits b i cnt → Fills b i cnt (not v) b' → Claimed b cnt v i b'

-- `bitmap_scan_and_flip` on a valid bitmap, from a start that is at most its size, returns the first run of the value at or
-- after the start, as `bitmap_scan` does, and the bitmap in which exactly that run is flipped; it changes nothing
-- if there is no run. The run of no bits is found at the start.
pub scan_and_flip-Claimed :
    {b : Bitmap} (start cnt : ℕ) (v : Bool)
    → IsValid b
    → start ≤ b.bit_cnt
    → (r : ℕ) × (b' : Bitmap) × (scan_and_flip b start cnt v ≡ some (r, b'))
      × First b start cnt v r
      × Claimed b cnt v r b'
scan_and_flip-Claimed {b} start cnt v ok h =
    let (r, e, first) = scan-First {b = b} start cnt v ok h in go e first
  where
    go :
        {r : ℕ}
        → scan b start cnt v ≡ some r
        → First b start cnt v r
        → (r : ℕ) × (b' : Bitmap) × (scan_and_flip b start cnt v ≡ some (r, b'))
          × First b start cnt v r
          × Claimed b cnt v r b'
    go e (absent no_run) = (bitmap_error, b, flip_none b start cnt v e, absent no_run, full)
    go e (found i lo fits run least) =
        let range : Fits b i cnt = record { valid = ok; below = fits } in
        let (b', filled, f) = set_multiple-Fills (not v) range in
        (
          i,
          b',
          flip_run b start cnt v e (λ p. ne_of_lt (omega (arith, ok.small)) p) filled,
          found i lo fits run least,
          claimed range f,
        )
