-- ===== src/Bitmap/Tests.antt =====
-- Tests of the bitmap functions, and each property at a concrete bitmap.
use tddb.Base.{ℕ, ◌-◌, ◌^◌, false, [], ◌∷◌, some, ◌≡◌, refl, arith}
use tddb.Bitmap.{
  Bitmap, bitmap_error, byte_cnt, last_mask, set_bit, test, contains, scan, scan_and_flip,
}
use tddb.Bitmap.Bit.{IsValid}
use tddb.Bitmap.Range.{Fits}
use tddb.Bitmap.Scan.{First, Claimed, scan_and_flip-Claimed}

-- 40 bits in two elements; bits 0, 1 and 33 are set.
abbrev sample : Bitmap
sample = record { bit_cnt = 40; bits = 3 ∷ 2 ∷ [] }

sample-IsValid : IsValid sample
sample-IsValid = record { room = omega arith; small = omega arith }

sample-Fits : Fits sample 1 4
sample-Fits = record { valid = sample-IsValid; below = omega arith }

scan_finds : scan sample 0 3 false ≡ some 2
unfolding scan contains test
scan_finds = refl

scan_fails : scan sample 0 35 false ≡ some bitmap_error
unfolding scan contains test
scan_fails = refl

scan_flips : scan_and_flip sample 0 1 false ≡ some (2, record { bit_cnt = 40; bits = 7 ∷ 2 ∷ [] })
unfolding scan_and_flip contains test set_bit
scan_flips = refl

last_mask_partial : last_mask sample ≡ 255
unfolding last_mask
last_mask_partial = refl

-- Rounding up overflows for a bitmap of almost 2 ^ 32 bits: no elements are asked for.
byte_cnt_overflow : byte_cnt (2 ^ 32 - 31) ≡ 0
unfolding byte_cnt
byte_cnt_overflow = refl

scan_and_flip-Claimed_example :
    (r : ℕ) × (b' : Bitmap) × (scan_and_flip sample 0 3 false ≡ some (r, b'))
    × First sample 0 3 false r
    × Claimed sample 3 false r b'
scan_and_flip-Claimed_example = scan_and_flip-Claimed 0 3 false sample-IsValid (omega arith)
