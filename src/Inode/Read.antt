-- ===== src/Inode/Read.antt =====
-- What `inode_read_at` leaves in the buffer.
use tddb.Base.{
  ℕ, zero, suc, if◌then◌else◌, ◌+◌, ◌-◌, ◌≤◌, ◌<◌, Bool, true, false, none, some, ◌==◌, ◌≡◌, ◌≢◌,
  refl, ap, ◌∙◌, arith, Bool-cases, inl, inr, ==_ne, dec_lt,
}
use tddb.Strings.{Memory}
use tddb.Inode.{Disk, InodeDisk, chunk_size, read_chunk, read_from, inode_read_at}
use tddb.Inode.Layout.{OnDisk, available, chunk-le}
use tddb.Inode.Copy.{filled, read_chunk-filled, read_chunk-none, filled-filled}

module _ (d : Disk) (i : InodeDisk) (on : OnDisk d i) where
  read_from-go :
      {m' : Memory} {r : Memory × ℕ} (bounce : Bool) (fuel : ℕ) (m : Memory)
      (buffer size offset bytes_read : ℕ)
      → size ≢ 0
      → read_chunk d i m (buffer + bytes_read) bounce size offset ≡ some (some m')
      → read_from fuel d i m' buffer bounce
          (size - chunk_size i size offset)
          (offset + chunk_size i size offset)
          (bytes_read + chunk_size i size offset)
        ≡ some r
      → read_from (suc fuel) d i m buffer bounce size offset bytes_read ≡ some r
  unfolding read_from
  read_from-go bounce fuel m buffer size offset bytes_read ne step rest =
      rw (==_ne size 0 ne, step) rest

  read_from-stop :
      (bounce : Bool) (fuel : ℕ) (m : Memory) (buffer size offset bytes_read : ℕ)
      → available i size offset ≡ 0
      → read_from (suc fuel) d i m buffer bounce size offset bytes_read ≡ some (m, bytes_read)
  unfolding read_from read_chunk
  read_from-stop bounce fuel m buffer size offset bytes_read none_left =
      let (le, fits, pos) = chunk-le i size offset in
      let zero_chunk : chunk_size i size offset ≡ 0 = omega (arith, le) in
      elim (Bool-cases (size == 0)) [ inl y ↦ rw y | inr ne ↦ rw (ne, zero_chunk) ]

  read_from-filled :
      (fuel : ℕ) (m : Memory) (buffer size offset bytes_read : ℕ)
      → size < fuel
      → (m' : Memory) × (read_from fuel d i m buffer true size offset bytes_read
          ≡ some (m', bytes_read + available i size offset))
        × ((a : ℕ) → m' a ≡ filled d i m (buffer + bytes_read) (available i size offset) offset a)
  read_from-filled zero m buffer size offset bytes_read h = absurd (omega arith)
  read_from-filled (suc fuel) m buffer size offset bytes_read h =
      elim (dec_lt 0 (available i size offset)) [
        | yes left ↦
            let c : ℕ = chunk_size i size offset in
            let (le, fits, pos) = chunk-le i size offset in
            let (m1, step, first) =
              read_chunk-filled d i on m (buffer + bytes_read) size offset left in
            let (m', run, rest) =
              read_from-filled fuel m1 buffer (size - c) (offset + c) (bytes_read + c)
                (omega (arith, pos, left)) in
            (
              m',
              read_from-go true fuel m buffer size offset bytes_read (omega (arith, left)) step run
                  ∙ ap (λ k. some (m', k)) (total le),
              λ a.
                  rest a
                  ∙ ap (λ k. filled d i m1 k (available i (size - c) (offset + c)) (offset + c) a)
                      (along c)
                  ∙ filled-filled d i on m m1 (buffer + bytes_read) c
                      (available i (size - c) (offset + c)) offset a first
                  ∙ ap (λ k. filled d i m (buffer + bytes_read) k offset a) (parts le),
            )
        | no done_it ↦ (
          m,
          read_from-stop true fuel m buffer size offset bytes_read (omega arith)
              ∙ ap (λ k. some (m, k)) (omega arith),
          λ a. ground arith,
        )
      ]
    where
      total :
          {c : ℕ}
          → c ≤ available i size offset
          → bytes_read + c + available i (size - c) (offset + c)
            ≡ bytes_read + available i size offset
      total h = omega arith

      parts :
          {c : ℕ}
          → c ≤ available i size offset
          → c + available i (size - c) (offset + c) ≡ available i size offset
      parts h = omega arith

      along : (c : ℕ) → buffer + (bytes_read + c) ≡ buffer + bytes_read + c
      along c = omega arith

  read_from-break :
      (fuel : ℕ) (m : Memory) (buffer size offset bytes_read : ℕ)
      → size ≢ 0
      → read_chunk d i m (buffer + bytes_read) false size offset ≡ some none
      → read_from (suc fuel) d i m buffer false size offset bytes_read ≡ some (m, bytes_read)
  unfolding read_from
  read_from-break fuel m buffer size offset bytes_read ne step = rw (==_ne size 0 ne, step) refl

  -- The loop without memory: it reads a part, from the beginning on.
  read_from-part :
      (fuel : ℕ) (m : Memory) (buffer size offset bytes_read : ℕ)
      → size < fuel
      → (m' : Memory) × (n : ℕ) × (read_from fuel d i m buffer false size offset bytes_read
          ≡ some (m', bytes_read + n))
        × (n ≤ available i size offset)
        × ((a : ℕ) → m' a ≡ filled d i m (buffer + bytes_read) n offset a)
  read_from-part zero m buffer size offset bytes_read h = absurd (omega arith)
  read_from-part (suc fuel) m buffer size offset bytes_read h =
      elim (dec_lt 0 (available i size offset)) [
        | yes left ↦ elim (read_chunk-none d i on m (buffer + bytes_read) size offset left) [
          | inl none_read ↦ (
            m,
            0,
            read_from-break fuel m buffer size offset bytes_read (omega (arith, left)) none_read
                ∙ ap (λ k. some (m, k)) (omega arith),
            omega arith,
            λ a. ground arith,
          )
          | inr whole ↦
              let c : ℕ = chunk_size i size offset in
              let (le, fits, pos) = chunk-le i size offset in
              let (m1, step, first) =
                read_chunk-filled d i on m (buffer + bytes_read) size offset left in
              let (m', n, run, some_part, rest) =
                read_from-part fuel m1 buffer (size - c) (offset + c) (bytes_read + c)
                  (omega (arith, pos, left)) in
              (
                m',
                c + n,
                read_from-go false fuel m buffer size offset bytes_read (omega (arith, left))
                      (whole ∙ step) run
                    ∙ ap (λ k. some (m', k)) (omega arith),
                omega (arith, some_part, le),
                λ a.
                    rest a
                    ∙ ap (λ k. filled d i m1 k n (offset + c) a) (omega arith)
                    ∙ filled-filled d i on m m1 (buffer + bytes_read) c n offset a first,
              )
        ]
        | no done_it ↦ (
          m,
          0,
          read_from-stop false fuel m buffer size offset bytes_read (omega arith)
              ∙ ap (λ k. some (m, k)) (omega arith),
          omega arith,
          λ a. ground arith,
        )
      ]

pub inode_read_at-all :
    (d : Disk) (i : InodeDisk) (m : Memory) (buffer size offset : ℕ)
    → OnDisk d i
    → (m' : Memory) × (inode_read_at d i m true buffer size offset
        ≡ some (m', available i size offset))
      × ((a : ℕ) → m' a ≡ filled d i m buffer (available i size offset) offset a)
unfolding inode_read_at
inode_read_at-all d i m buffer size offset on =
    let (m', run, same) = read_from-filled d i on (suc size) m buffer size offset 0 (omega arith) in
    (
      m',
      run ∙ ap (λ k. some (m', k)) (omega arith),
      λ a. same a ∙ ap (λ k. filled d i m k (available i size offset) offset a) (omega arith),
    )

-- `inode_read_at` of a file on the disk ends and copies a number of bytes, from the file at `offset` on to the buffer,
-- changes no other byte of the memory and returns the number. This is at most as many as asked for and as the file
-- has behind `offset`, and it is as many when the `malloc` of the bounce buffer succeeds.
pub inode_read_at-filled :
    (d : Disk) (i : InodeDisk) (m : Memory) (bounce : Bool) (buffer size offset : ℕ)
    → OnDisk d i
    → (m' : Memory) × (n : ℕ) × (inode_read_at d i m bounce buffer size offset ≡ some (m', n))
      × ((if bounce then available i size offset else 0) ≤ n)
      × (n ≤ available i size offset)
      × ((a : ℕ) → m' a ≡ filled d i m buffer n offset a)
unfolding inode_read_at
inode_read_at-filled d i m true buffer size offset on =
    let (m', run, same) = inode_read_at-all d i m buffer size offset on in
    (m', available i size offset, run, omega arith, omega arith, same)
inode_read_at-filled d i m false buffer size offset on =
    let (m', n, run, le, same) =
      read_from-part d i on (suc size) m buffer size offset 0 (omega arith) in
    (
      m',
      n,
      run ∙ ap (λ k. some (m', k)) (omega arith),
      omega arith,
      le,
      λ a. same a ∙ ap (λ k. filled d i m k n offset a) (omega arith),
    )
