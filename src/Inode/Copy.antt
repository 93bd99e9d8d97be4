-- ===== src/Inode/Copy.antt =====
-- What one round of `inode_read_at` leaves in the buffer.
use tddb.Base.{
  ℕ, ◌+◌, ◌-◌, ◌/◌, ◌%◌, ◌≤◌, ◌<◌, true, false, ◌&&◌, none, some, ◌⊎◌, ◌==◌, ltb, leb,
  if◌then◌else◌, ◌≡◌, ◌≢◌, refl, sym, ap, ◌∙◌, arith, Bool-cases, inl, inr, ==_ne, dec_lt,
}
use tddb.Strings.{Memory}
use tddb.Inode.{
  Disk, sector_size, disk_read, InodeDisk, byte_to_sector, chunk_size, copy_out, read_chunk,
}
use tddb.Inode.Layout.{
  addressable-ltb, OnDisk, content, available, chunk-le, sector-OnDisk, content_inside,
}

-- The memory `m` with `n` bytes of the file, from `offset` on, at `dst`.
abbrev pub filled : Disk → InodeDisk → Memory → ℕ → ℕ → ℕ → Memory
filled d i m dst n offset a =
    if leb dst a && ltb a (dst + n) then content d i (offset + (a - dst)) else m a

module _ (d : Disk) (i : InodeDisk) (on : OnDisk d i) where
  copy_out-filled :
      (m : Memory) (dst n offset a : ℕ)
      → offset % sector_size + n ≤ sector_size
      → copy_out (d.sectors (i.start + offset / sector_size)) (offset % sector_size) m dst n a
        ≡ filled d i m dst n offset a
  copy_out-filled m dst n offset a h = elim (Bool-cases (leb dst a && ltb a (dst + n))) [
    | inl y ↦ rw y (sym (content_inside d i offset (a - dst) (ground arith)))
    | inr out ↦ rw out refl
  ]

  sector_read :
      (offset : ℕ)
      → offset < i.length
      → disk_read d (byte_to_sector i offset) ≡ some (d.sectors (i.start + offset / sector_size))
  unfolding disk_read
  sector_read offset h =
      let (at, below) = sector-OnDisk d i offset on h in
      let (there, in_range) = addressable-ltb d (i.start + offset / sector_size) below in
      rw (at, there, in_range)

  pub read_chunk-filled :
      (m : Memory) (dst size offset : ℕ)
      → 0 < available i size offset
      → (m' : Memory) × (read_chunk d i m dst true size offset ≡ some (some m'))
        × ((a : ℕ) → m' a ≡ filled d i m dst (chunk_size i size offset) offset a)
  unfolding read_chunk
  read_chunk-filled m dst size offset h =
      let (le, fits, pos) = chunk-le i size offset in
      let sector = sector_read offset (omega (arith, h)) in
      let ne : chunk_size i size offset ≢ 0 = omega (arith, pos, h) in
      elim (Bool-cases ((offset % sector_size == 0) && (chunk_size i size offset == sector_size))) [
        | inl y ↦ (
          copy_out (d.sectors (i.start + offset / sector_size)) 0 m dst sector_size,
          rw (==_ne (chunk_size i size offset) 0 ne, y, sector),
          λ a.
              ap
                (λ (p : ℕ × ℕ).
                  copy_out (d.sectors (i.start + offset / sector_size)) (p.0) m dst (p.1) a)
                (whole y)
              ∙ copy_out-filled m dst (chunk_size i size offset) offset a fits,
        )
        | inr part ↦ (
          copy_out (d.sectors (i.start + offset / sector_size)) (offset % sector_size) m dst
              (chunk_size i size offset),
          rw (==_ne (chunk_size i size offset) 0 ne, part, sector),
          λ a. copy_out-filled m dst (chunk_size i size offset) offset a fits,
        )
      ]
    where
      whole :
          {a b : ℕ}
          → ((a == 0) && (b == sector_size)) ≡ true
          → ◌≡◌ {A = ℕ × ℕ} (0, sector_size) (a, b)
      whole {a} {b} y = rw (zero_left, full_right) refl
        where
          zero_left : a ≡ 0
          zero_left = ground arith

          full_right : b ≡ sector_size
          full_right = ground arith

  -- First `c` bytes, then the rest.
  pub filled-filled :
      (m m' : Memory) (dst c n offset a : ℕ)
      → ((a : ℕ) → m' a ≡ filled d i m dst c offset a)
      → filled d i m' (dst + c) n (offset + c) a ≡ filled d i m dst (c + n) offset a
  filled-filled m m' dst c n offset a first = elim (dec_lt a (dst + c)) [
    | yes l ↦ ground (arith, first a)
    | no g ↦ ground (arith, first a, ap (content d i) (position g))
  ]
    where
      position : ¬ (a < dst + c) → offset + c + (a - (dst + c)) ≡ offset + (a - dst)
      position g = omega arith

  -- Without memory a chunk that is not a whole sector is not read.
  pub read_chunk-none :
      (m : Memory) (dst size offset : ℕ)
      → 0 < available i size offset
      → (read_chunk d i m dst false size offset ≡ some none)
        ⊎ (read_chunk d i m dst false size offset ≡ read_chunk d i m dst true size offset)
  unfolding read_chunk
  read_chunk-none m dst size offset h =
      let (le, fits, pos) = chunk-le i size offset in
      let ne : chunk_size i size offset ≢ 0 = omega (arith, pos, h) in
      elim (Bool-cases ((offset % sector_size == 0) && (chunk_size i size offset == sector_size))) [
        | inl y ↦ inr (rw (==_ne (chunk_size i size offset) 0 ne, y) refl)
        | inr part ↦ inl (rw (==_ne (chunk_size i size offset) 0 ne, part) refl)
      ]
