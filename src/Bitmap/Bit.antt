-- ===== src/Bitmap/Bit.antt =====
-- One bit of a bitmap: what `mark`, `reset`, `flip`, `set_bit` and `test` do to the array of bits that
-- the elements stand for.
use Prim.Native.Nat.{bit_and, bit_or, bit_xor}
use native.Mathlib.Nat.{one-le-pow}
use tddb.Base.{
  ℕ, ◌-◌, ◌*◌, ◌/◌, ◌%◌, ◌^◌, ◌≤◌, ◌<◌, Bool, true, false, not, some, ◌==◌, if◌then◌else◌, length,
  get_or, set, length-set, get_elem?-eq-get_or, get_or-set_self, get_or-set_ne, ◌≡◌, refl, ap,
  arith, ℕ_discrete, lt→ltb, ==_ne,
}
use tddb.Base.Bits.{
  bit, bit-or, bit-and, bit-xor, bit-lt, bit-pow_self, bit-pow_ne, bit-complement, and-pow, pow-lt,
}
use tddb.Bitmap.{Bitmap, word, bitmap_error, update_elem, mark, reset, flip, set_bit, test}

-- the bit numbered `i`
abbrev pub at : Bitmap → ℕ → Bool
at b i = bit (get_or b.bits (i / 32) 0) (i % 32) == 1

-- The elements hold all bits, and BITMAP_ERROR is no bit's number.
pub record IsValid (b : Bitmap) : Type 0 where
  pub room : b.bit_cnt ≤ 32 * length b.bits
  pub small : b.bit_cnt < bitmap_error

-- `b'` is `b` with the bit numbered `i` at `v`.
pub record Writes (b : Bitmap) (i : ℕ) (v : Bool) (b' : Bitmap) : Type 0 where
  pub cnt : b'.bit_cnt ≡ b.bit_cnt
  pub len : length b'.bits ≡ length b.bits
  pub bits : (j : ℕ) → at b' j ≡ (if i == j then v else at b j)

index_eq : (i j : ℕ) → i / 32 ≡ j / 32 → (i % 32 == j % 32) ≡ (i == j)
index_eq i j e = ground arith

update_elem-Writes :
    (b : Bitmap) (i : ℕ) (v : Bool) (f : ℕ → ℕ)
    → i / 32 < length b.bits
    → ((k : ℕ)
        → k < 32
        → (bit (f (get_or b.bits (i / 32) 0)) k == 1)
          ≡ (if i % 32 == k then v else bit (get_or b.bits (i / 32) 0) k == 1))
    → (b' : Bitmap) × (update_elem b (i / 32) f ≡ some b') × Writes b i v b'
unfolding update_elem
update_elem-Writes b i v f h law = (
  record b { bits = set b.bits (i / 32) (f w) },
  rw (get_elem?-eq-get_or b.bits (i / 32) 0 h),
  record { cnt = refl; len = length-set b.bits (i / 32) (f w); bits = cases },
)
  where
    w : ℕ
    w = get_or b.bits (i / 32) 0

    cases :
        (j : ℕ)
        → (bit (get_or (set b.bits (i / 32) (f w)) (j / 32) 0) (j % 32) == 1)
          ≡ (if i == j then v else at b j)
    cases j = elim (ℕ_discrete (i / 32) (j / 32)) [
      | yes e ↦
          rw (← e, get_or-set_self b.bits (i / 32) (f w) 0 h, ← index_eq i j e)
            (law (j % 32) (omega arith))
      | no ne ↦ rw (
        get_or-set_ne b.bits (i / 32) (j / 32) (f w) 0 ne,
        ==_ne i j (λ p. ne (ap (λ (t : ℕ). t / 32) p)),
      )
    ]

-- What the three instructions do to bit `k` of an element, `r` being the bit that the mask has.
or_law :
    (r : ℕ)
    → r < 32
    → (w k : ℕ) → k < 32
    → (bit (bit_or w (2 ^ r)) k == 1) ≡ (if r == k then true else bit w k == 1)
or_law r hr w k h = elim (ℕ_discrete r k) [
  | yes e ↦ rw e (ground (arith, bit-or k w (2 ^ k), bit-pow_self k, bit-lt w k))
  | no ne ↦ ground (arith, bit-or k w (2 ^ r), bit-pow_ne r k ne, bit-lt w k)
]

and_law :
    (r : ℕ)
    → r < 32
    → (w k : ℕ) → k < 32
    → (bit (bit_and w (word - 1 - 2 ^ r)) k == 1) ≡ (if r == k then false else bit w k == 1)
and_law r hr w k h = elim (ℕ_discrete r k) [
  | yes e ↦ rw e (
      ground (
        arith,
        bit-and k w (word - 1 - 2 ^ k),
        bit-complement 32 (2 ^ k) k (pow-lt k 32 h) h,
        bit-pow_self k,
      ))
  | no ne ↦ ground (
    arith,
    bit-and k w (word - 1 - 2 ^ r),
    bit-complement 32 (2 ^ r) k (pow-lt r 32 hr) h,
    bit-pow_ne r k ne,
    bit-lt w k,
  )
]

-- `bitmap_mark` sets the bit and no other.
pub mark-Writes :
    (b : Bitmap) (i : ℕ)
    → i / 32 < length b.bits
    → (b' : Bitmap) × (mark b i ≡ some b') × Writes b i true b'
unfolding mark
mark-Writes b i h = update_elem-Writes b i true _ h (or_law (i % 32) (omega arith) _)

-- `bitmap_reset` clears the bit and no other.
pub reset-Writes :
    (b : Bitmap) (i : ℕ)
    → i / 32 < length b.bits
    → (b' : Bitmap) × (reset b i ≡ some b') × Writes b i false b'
unfolding reset
reset-Writes b i h = update_elem-Writes b i false _ h (and_law (i % 32) (omega arith) _)

mask_test : (k w : ℕ) → not (bit w k * 2 ^ k == 0) ≡ (bit w k == 1)
mask_test k w = ground (arith, bit-lt w k, one-le-pow k 2)

xor_law :
    (r : ℕ)
    → r < 32
    → (w k : ℕ) → k < 32
    → (bit (bit_xor w (2 ^ r)) k == 1) ≡ (if r == k then not (bit w r == 1) else bit w k == 1)
xor_law r hr w k h = elim (ℕ_discrete r k) [
  | yes e ↦ rw e (ground (arith, bit-xor k w (2 ^ k), bit-pow_self k, bit-lt w k))
  | no ne ↦ ground (arith, bit-xor k w (2 ^ r), bit-pow_ne r k ne, bit-lt w k)
]

-- `bitmap_flip` toggles the bit and no other.
pub flip-Writes :
    (b : Bitmap) (i : ℕ)
    → i / 32 < length b.bits
    → (b' : Bitmap) × (flip b i ≡ some b') × Writes b i (not (at b i)) b'
unfolding flip
flip-Writes b i h = update_elem-Writes b i (not (at b i)) _ h (xor_law (i % 32) (omega arith) _)

module _ {b : Bitmap} (v : IsValid b) (i : ℕ) (h : i < b.bit_cnt) where
  in_room : i / 32 < length b.bits
  in_room = omega (arith, v.room)

  -- `bitmap_set` writes the bit that it names and leaves every other bit alone.
  pub set_bit-Writes : (x : Bool) → (b' : Bitmap) × (set_bit b i x ≡ some b') × Writes b i x b'
  unfolding set_bit
  set_bit-Writes true = rw (lt→ltb i b.bit_cnt h) (mark-Writes b i in_room)
  set_bit-Writes false = rw (lt→ltb i b.bit_cnt h) (reset-Writes b i in_room)

  -- `bitmap_test` returns the bit.
  pub test-at : test b i ≡ some (at b i)
  unfolding test
  test-at =
      rw (lt→ltb i b.bit_cnt h, get_elem?-eq-get_or b.bits (i / 32) 0 in_room, and-pow)
        (ap some (mask_test (i % 32) (get_or b.bits (i / 32) 0)))

-- A write keeps the bitmap valid.
pub Writes-IsValid : {b b' : Bitmap} {i : ℕ} {x : Bool} → Writes b i x b' → IsValid b → IsValid b'
Writes-IsValid w v = record {
  room = omega (arith, v.room, w.cnt, w.len);
  small = omega (arith, w.cnt, v.small);
}
