-- ===== src/Inode/Rounds.antt =====
-- The rounds of `inode_write_at`.
use tddb.Base.{
  ℕ, zero, suc, ◌+◌, ◌-◌, ◌%◌, ◌≤◌, ◌<◌, Bool, true, false, ◌&&◌, none, some, ◌⊎◌, ◌==◌, ◌≡◌, ◌≢◌,
  refl, ap, ◌∙◌, arith, Bool-cases, inl, inr, ==_ne, dec_lt,
}
use tddb.Strings.{Memory}
use tddb.Inode.{Disk, sector_size, InodeDisk, chunk_size, write_chunk, write_from}
use mathlib.Core.Path.{subst}
use tddb.Inode.Layout.{OnDisk, available, chunk-le}
use tddb.Inode.Chunk.{position, patched, Written, write_chunk-Written}

module _ (i : InodeDisk) (m : Memory) where
  -- First `c` bytes, then the rest.
  Written-then :
      {d d1 d' : Disk} (src c n offset : ℕ)
      → Written d i m src c offset d1
      → Written d1 i m (src + c) n (offset + c) d'
      → Written d i m src (c + n) offset d'
  Written-then {d} {d1} {d'} src c n offset first rest = record {
    same_size = rest.same_size ∙ first.same_size;
    bytes = λ s b h. rest.bytes s b h ∙ joined s b (first.bytes s b h);
  }
    where
      joined :
          (s b : ℕ)
          → d1.sectors s b ≡ patched d i m src c offset s b
          → patched d1 i m (src + c) n (offset + c) s b ≡ patched d i m src (c + n) offset s b
      joined s b e = elim (dec_lt (position i s b) (offset + c)) [
        | yes l ↦ ground (arith, e)
        | no g ↦ ground (arith, e, ap m (index g))
      ]
        where
          index :
              ¬ (position i s b < offset + c)
              → src + c + (position i s b - (offset + c)) ≡ src + (position i s b - offset)
          index g = omega arith

  write_from-go :
      {d' : Disk} {r : Disk × ℕ} (bounce : Bool) (fuel : ℕ) (d : Disk)
      (buffer size offset bytes_written : ℕ)
      → size ≢ 0
      → write_chunk d i m (buffer + bytes_written) bounce size offset ≡ some (some d')
      → write_from fuel d' i m buffer bounce
          (size - chunk_size i size offset)
          (offset + chunk_size i size offset)
          (bytes_written + chunk_size i size offset)
        ≡ some r
      → write_from (suc fuel) d i m buffer bounce size offset bytes_written ≡ some r
  unfolding write_from
  write_from-go bounce fuel d buffer size offset bytes_written ne step rest =
      rw (==_ne size 0 ne, step) rest

  write_from-stop :
      (bounce : Bool) (fuel : ℕ) (d : Disk) (buffer size offset bytes_written : ℕ)
      → available i size offset ≡ 0
      → write_from (suc fuel) d i m buffer bounce size offset bytes_written
        ≡ some (d, bytes_written)
  unfolding write_from write_chunk
  write_from-stop bounce fuel d buffer size offset bytes_written none_left =
      let (le, fits, pos) = chunk-le i size offset in
      let zero_chunk : chunk_size i size offset ≡ 0 = omega (arith, le) in
      elim (Bool-cases (size == 0)) [ inl y ↦ rw y | inr ne ↦ rw (ne, zero_chunk) ]

  pub write_from-Written :
      (fuel : ℕ) (d : Disk) (buffer size offset bytes_written : ℕ)
      → OnDisk d i
      → size < fuel
      → (d' : Disk) × (write_from fuel d i m buffer true size offset bytes_written
          ≡ some (d', bytes_written + available i size offset))
        × Written d i m (buffer + bytes_written) (available i size offset) offset d'
  write_from-Written zero d buffer size offset bytes_written on h = absurd (omega arith)
  write_from-Written (suc fuel) d buffer size offset bytes_written on h =
      elim (dec_lt 0 (available i size offset)) [
        | yes left ↦
            let c : ℕ = chunk_size i size offset in
            let (le, fits, pos) = chunk-le i size offset in
            let (d1, step, first) =
              write_chunk-Written i m d (buffer + bytes_written) size offset on left in
            let (d', run, rest) =
              write_from-Written fuel d1 buffer (size - c) (offset + c) (bytes_written + c)
                (omega (arith, on, first.same_size)) (omega (arith, pos, left)) in
            (
              d',
              write_from-go true fuel d buffer size offset bytes_written (omega (arith, left)) step
                    run
                  ∙ ap (λ k. some (d', k)) (total le),
              subst (λ k. Written d i m (buffer + bytes_written) k offset d') (parts le)
                  (Written-then (buffer + bytes_written) c (available i (size - c) (offset + c))
                    offset first
                    (subst
                      (λ k. Written d1 i m k (available i (size - c) (offset + c)) (offset + c) d')
                      (along c) rest)),
            )
        | no done_it ↦ (
          d,
          write_from-stop true fuel d buffer size offset bytes_written (omega arith)
              ∙ ap (λ k. some (d, k)) (omega arith),
          record { same_size = refl; bytes = λ s b hb. ground arith },
        )
      ]
    where
      total :
          {c : ℕ}
          → c ≤ available i size offset
          → bytes_written + c + available i (size - c) (offset + c)
            ≡ bytes_written + available i size offset
      total h = omega arith

      parts :
          {c : ℕ}
          → c ≤ available i size offset
          → c + available i (size - c) (offset + c) ≡ available i size offset
      parts h = omega arith

      along : (c : ℕ) → buffer + (bytes_written + c) ≡ buffer + bytes_written + c
      along c = omega arith

  -- Without memory a chunk that is not a whole sector is not written.
  write_chunk-none :
      (d : Disk) (src size offset : ℕ)
      → 0 < available i size offset
      → (write_chunk d i m src false size offset ≡ some none)
        ⊎ (write_chunk d i m src false size offset ≡ write_chunk d i m src true size offset)
  unfolding write_chunk
  write_chunk-none d src size offset h =
      let (le, fits, pos) = chunk-le i size offset in
      let ne : chunk_size i size offset ≢ 0 = omega (arith, pos, h) in
      elim (Bool-cases ((offset % sector_size == 0) && (chunk_size i size offset == sector_size))) [
        | inl y ↦ inr (rw (==_ne (chunk_size i size offset) 0 ne, y) refl)
        | inr part ↦ inl (rw (==_ne (chunk_size i size offset) 0 ne, part) refl)
      ]

  write_from-break :
      (fuel : ℕ) (d : Disk) (buffer size offset bytes_written : ℕ)
      → size ≢ 0
      → write_chunk d i m (buffer + bytes_written) false size offset ≡ some none
      → write_from (suc fuel) d i m buffer false size offset bytes_written ≡ some (d, bytes_written)
  unfolding write_from
  write_from-break fuel d buffer size offset bytes_written ne step = rw (==_ne size 0 ne, step) refl

  -- The loop without memory: it writes a part, from the beginning on.
  pub write_from-part :
      (fuel : ℕ) (d : Disk) (buffer size offset bytes_written : ℕ)
      → OnDisk d i
      → size < fuel
      → (d' : Disk) × (n : ℕ) × (write_from fuel d i m buffer false size offset bytes_written
          ≡ some (d', bytes_written + n))
        × (n ≤ available i size offset)
        × Written d i m (buffer + bytes_written) n offset d'
  write_from-part zero d buffer size offset bytes_written on h = absurd (omega arith)
  write_from-part (suc fuel) d buffer size offset bytes_written on h =
      elim (dec_lt 0 (available i size offset)) [
        | yes left ↦ elim (write_chunk-none d (buffer + bytes_written) size offset left) [
          | inl none_written ↦ (
            d,
            0,
            write_from-break fuel d buffer size offset bytes_written (omega (arith, left))
                  none_written
                ∙ ap (λ k. some (d, k)) (omega arith),
            omega arith,
            record { same_size = refl; bytes = λ s b hb. ground arith },
          )
          | inr whole ↦
              let c : ℕ = chunk_size i size offset in
              let (le, fits, pos) = chunk-le i size offset in
              let (d1, step, first) =
                write_chunk-Written i m d (buffer + bytes_written) size offset on left in
              let (d', n, run, some_part, rest) =
                write_from-part fuel d1 buffer (size - c) (offset + c) (bytes_written + c)
                  (omega (arith, on, first.same_size)) (omega (arith, pos, left)) in
              (
                d',
                c + n,
                write_from-go false fuel d buffer size offset bytes_written (omega (arith, left))
                      (whole ∙ step) run
                    ∙ ap (λ k. some (d', k)) (omega arith),
                omega (arith, some_part, le),
                Written-then (buffer + bytes_written) c n offset first
                    (subst (λ k. Written d1 i m k n (offset + c) d') (omega arith) rest),
              )
        ]
        | no done_it ↦ (
          d,
          0,
          write_from-stop false fuel d buffer size offset bytes_written (omega arith)
              ∙ ap (λ k. some (d, k)) (omega arith),
          omega arith,
          record { same_size = refl; bytes = λ s b hb. ground arith },
        )
      ]
