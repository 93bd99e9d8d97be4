-- ===== src/Bitmap/Range.antt =====
-- Ranges of bits: what the loops of `set_multiple`, `contains` and `count` do.
use native.Mathlib.Nat.{zero-add}
use tddb.Base.{
  ℕ, zero, suc, ◌+◌, ◌≤◌, ◌<◌, Bool, true, false, not, ◌&&◌, some, ltb, leb, same, if◌then◌else◌,
  length, ◌≡◌, refl, ◌∙◌, ap, inl, inr, arith, le→leb, Bool-cases, ℕ_discrete,
}
use tddb.Bitmap.{
  Bitmap, add_size, set_bit, test, set_from, set_multiple, count_from, count, contains_from,
  contains,
}
use tddb.Bitmap.Bit.{at, IsValid, Writes, set_bit-Writes, test-at, Writes-IsValid}

-- `start ≤ j < start + cnt`
abbrev pub within : ℕ → ℕ → ℕ → Bool
within start cnt j = leb start j && ltb j (start + cnt)

-- `b'` is `b` with the `cnt` bits from `start` on at `v`.
pub record Fills (b : Bitmap) (start cnt : ℕ) (v : Bool) (b' : Bitmap) : Type 0 where
  pub same_cnt : b'.bit_cnt ≡ b.bit_cnt
  pub same_len : length b'.bits ≡ length b.bits
  pub bits : (j : ℕ) → at b' j ≡ (if within start cnt j then v else at b j)

-- a range that lies in the bitmap
pub record Fits (b : Bitmap) (start cnt : ℕ) : Type 0 where
  pub valid : IsValid b
  pub below : start + cnt ≤ b.bit_cnt

Fills-refl : (b : Bitmap) (start : ℕ) (v : Bool) → Fills b start 0 v b
Fills-refl b start v = record { same_cnt = refl; same_len = refl; bits = λ j. ground arith }

Fills-step :
    {b b1 b' : Bitmap} {i n : ℕ} {v : Bool}
    → Writes b i v b1
    → Fills b1 (i + 1) n v b'
    → Fills b i (suc n) v b'
Fills-step {b} {b1} {b'} {i} {n} {v} w f = record {
  same_cnt = f.same_cnt ∙ w.cnt;
  same_len = f.same_len ∙ w.len;
  bits = λ j. ground (arith, f.bits j, w.bits j);
}

set_from-step :
    (b : Bitmap) {b1 b' : Bitmap} (start i n k : ℕ) (v : Bool)
    → add_size start i ≡ k
    → set_bit b k v ≡ some b1
    → set_from b1 start (i + 1) n v ≡ some b'
    → set_from b start i (suc n) v ≡ some b'
unfolding set_from
set_from-step b start i n k v p q r = rw (p, q, r)

set_from-Fills :
    (n : ℕ) {b : Bitmap} (start i : ℕ) (v : Bool)
    → IsValid b
    → start + i + n ≤ b.bit_cnt
    → (b' : Bitmap) × (set_from b start i n v ≡ some b') × Fills b (start + i) n v b'
unfolding set_from
set_from-Fills zero {b} start i v ok h = (b, refl, Fills-refl b (start + i) v)
set_from-Fills (suc n) {b} start i v ok h =
    let (b1, e1, w) = set_bit-Writes ok (start + i) (omega arith) v in
    let (b', e, f) =
      set_from-Fills n start (i + 1) v (Writes-IsValid w ok) (omega (arith, w.cnt)) in
    let next : start + (i + 1) ≡ start + i + 1 = omega arith in
    (
      b',
      set_from-step b start i n (start + i) v (omega (arith, ok.small)) e1 e,
      Fills-step w (rw next at f),
    )

-- the two assertions at the head of the range functions
asserts :
    {b : Bitmap} {start cnt : ℕ}
    → Fits b start cnt
    → (leb start b.bit_cnt ≡ true) × (leb (add_size start cnt) b.bit_cnt ≡ true)
asserts {b} {start} {cnt} r =
    let no_wrap : add_size start cnt ≡ start + cnt = omega (arith, r.below, r.valid.small) in
    (
      le→leb start b.bit_cnt (omega (arith, r.below)),
      rw no_wrap (le→leb (start + cnt) b.bit_cnt r.below),
    )

set_multiple_run :
    {b b' : Bitmap} {start cnt : ℕ} (v : Bool)
    → Fits b start cnt
    → set_from b start 0 cnt v ≡ some b'
    → set_multiple b start cnt v ≡ some b'
unfolding set_multiple
set_multiple_run v r e = rw ((asserts r).0, (asserts r).1) e

-- `bitmap_set_multiple` writes the bits of the range and no other.
pub set_multiple-Fills :
    {b : Bitmap} {start cnt : ℕ} (v : Bool)
    → Fits b start cnt
    → (b' : Bitmap) × (set_multiple b start cnt v ≡ some b') × Fills b start cnt v b'
set_multiple-Fills {b} {start} {cnt} v r =
    let (b', e, f) = set_from-Fills cnt start 0 v r.valid (omega (arith, r.below)) in
    let e0 : start + 0 ≡ start = omega arith in (b', set_multiple_run v r e, rw e0 at f)

pub Fills-IsValid :
    {b b' : Bitmap} {start cnt : ℕ} {v : Bool} → Fills b start cnt v b' → IsValid b → IsValid b'
Fills-IsValid f ok = record {
  room = omega (arith, f.same_cnt, f.same_len, ok.room);
  small = omega (arith, f.same_cnt, ok.small);
}

-- What a search of the range `lo ≤ j < hi` for the value `v` says.
pub data Search (b : Bitmap) (lo hi : ℕ) (v : Bool) : Bool → Type 0 where
  hit : (j : ℕ) → lo ≤ j → j < hi → at b j ≡ v → Search b lo hi v true
  miss : ((j : ℕ) → lo ≤ j → j < hi → at b j ≡ not v) → Search b lo hi v false

same-true : (t v : Bool) → same t v ≡ true → t ≡ v
same-true true true h = refl
same-true true false h = cc
same-true false true h = cc
same-true false false h = refl

same-false : (t v : Bool) → same t v ≡ false → t ≡ not v
same-false true true h = cc
same-false true false h = refl
same-false false true h = refl
same-false false false h = cc

Search-extend :
    {b : Bitmap} {i hi : ℕ} {v : Bool} {t : Bool}
    → at b i ≡ not v
    → Search b (i + 1) hi v t
    → Search b i hi v t
Search-extend e (hit j lo up is) = hit j (omega arith) up is
Search-extend {b} {i} {hi} {v} e (miss none) =
    miss (λ j lo up. elim (ℕ_discrete i j) [ yes p ↦ rw p at e | no ne ↦ none j (omega arith) up ])

contains_from-step :
    (b : Bitmap) {t : Bool} (start i n k : ℕ) (v : Bool)
    → add_size start i ≡ k
    → test b k ≡ some (at b k)
    → same (at b k) v ≡ false
    → contains_from b start (i + 1) n v ≡ some t
    → contains_from b start i (suc n) v ≡ some t
unfolding contains_from
contains_from-step b start i n k v p q s r = rw (p, q, s, r)

contains_from-hit :
    (b : Bitmap) (start i n k : ℕ) (v : Bool)
    → add_size start i ≡ k
    → test b k ≡ some (at b k)
    → same (at b k) v ≡ true
    → contains_from b start i (suc n) v ≡ some true
unfolding contains_from
contains_from-hit b start i n k v p q s = rw (p, q, s)

contains_from-Search :
    (n : ℕ) {b : Bitmap} (start i hi : ℕ) (v : Bool)
    → IsValid b
    → start + i + n ≡ hi
    → hi ≤ b.bit_cnt
    → (t : Bool) × (contains_from b start i n v ≡ some t) × Search b (start + i) hi v t
unfolding contains_from
contains_from-Search zero {b} start i hi v ok e h =
    (false, refl, miss (λ j lo up. absurd (omega arith)))
contains_from-Search (suc n) {b} start i hi v ok e h =
    let no_wrap : add_size start i ≡ start + i = omega (arith, ok.small) in
    let e1 : test b (start + i) ≡ some (at b (start + i)) = test-at ok (start + i) (omega arith) in
    let (t, run, found) = contains_from-Search n {b = b} start (i + 1) hi v ok (omega arith) h in
    let next : start + (i + 1) ≡ start + i + 1 = omega arith in
    elim (Bool-cases (same (at b (start + i)) v)) [
      | inl s ↦ (
        true,
        contains_from-hit b start i n (start + i) v no_wrap e1 s,
        hit (start + i) (omega arith) (omega arith) (same-true _ v s),
      )
      | inr s ↦ (
        t,
        contains_from-step b start i n (start + i) v no_wrap e1 s run,
        Search-extend (same-false _ v s) (rw next at found),
      )
    ]

contains_run :
    {b : Bitmap} {t : Bool} {start cnt : ℕ} (v : Bool)
    → Fits b start cnt
    → contains_from b start 0 cnt v ≡ some t
    → contains b start cnt v ≡ some t
unfolding contains
contains_run v r e = rw ((asserts r).0, (asserts r).1) e

-- `bitmap_contains` on a range of the bitmap returns whether some bit of the range has the value:
-- with `true` such a bit is at hand, with `false` every bit of the range has the other value.
pub contains-Search :
    {b : Bitmap} {start cnt : ℕ} (v : Bool)
    → Fits b start cnt
    → (t : Bool) × (contains b start cnt v ≡ some t) × Search b start (start + cnt) v t
contains-Search {b} {start} {cnt} v r =
    let (t, e, found) =
      contains_from-Search cnt {b = b} start 0 (start + cnt) v r.valid (omega arith) r.below in
    let e0 : start + 0 ≡ start = omega arith in (t, contains_run v r e, rw e0 at found)

-- the number of bits of value `v` among the `n` from `i` on
pub tally : (ℕ → Bool) → ℕ → ℕ → Bool → ℕ
tally f i zero v = 0
tally f i (suc n) v = (if same (f i) v then 1 else 0) + tally f (i + 1) n v

count_from-tally :
    (n : ℕ) {b : Bitmap} (start i acc : ℕ) (v : Bool)
    → IsValid b
    → start + i + n ≤ b.bit_cnt
    → count_from b start i n v acc ≡ some (acc + tally (at b) (start + i) n v)
unfolding count_from tally
count_from-tally zero {b} start i acc v ok h = ap some (omega arith)
count_from-tally (suc n) {b} start i acc v ok h =
    let no_wrap : add_size start i ≡ start + i = omega (arith, ok.small) in
    let next : start + (i + 1) ≡ start + i + 1 = omega arith in
    rw (no_wrap, test-at ok (start + i) (omega arith))
      (elim (Bool-cases (same (at b (start + i)) v)) [
        | inl s ↦
            rw (s, count_from-tally n {b = b} start (i + 1) (acc + 1) v ok (omega arith), next)
              (ap some (omega arith))
        | inr s ↦
            rw (s, count_from-tally n {b = b} start (i + 1) acc v ok (omega arith), next)
              (ap some (omega arith))
      ])

-- `bitmap_count` returns the number of bits of the range that have the value.
pub count-tally :
    {b : Bitmap} {start cnt : ℕ} (v : Bool)
    → Fits b start cnt
    → count b start cnt v ≡ some (tally (at b) start cnt v)
unfolding count
count-tally {b} {start} {cnt} v r =
    let e0 : start + 0 ≡ start = omega arith in
    rw ((asserts r).0, (asserts r).1)
      (rw (e0, zero-add (tally (at b) start cnt v)) at
        (count_from-tally cnt {b = b} start 0 0 v r.valid (omega (arith, r.below))))
