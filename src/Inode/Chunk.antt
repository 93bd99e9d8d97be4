-- ===== src/Inode/Chunk.antt =====
-- What one round of `inode_write_at` leaves on the disk.
use tddb.Base.{
  ℕ, ◌+◌, ◌-◌, ◌*◌, ◌/◌, ◌%◌, ◌≤◌, ◌<◌, true, false, ◌&&◌, ◌||◌, some, ◌==◌, ltb, leb,
  if◌then◌else◌, ◌≡◌, ◌≢◌, refl, ap, ◌∙◌, arith, Bool-cases, inl, inr, ==_ne, ℕ_discrete,
}
use tddb.Base.Members.{update}
use tddb.Strings.{Memory}
use tddb.Inode.{
  Block, Disk, sector_size, disk_read, disk_write, InodeDisk, chunk_size, copy_in, write_chunk,
}
use tddb.Inode.Layout.{addressable-ltb, OnDisk, available, chunk-le, sector-OnDisk}

-- The position in the file of byte `b` of sector `s`.
abbrev pub position : InodeDisk → ℕ → ℕ → ℕ
position i s b = (s - i.start) * sector_size + b

-- the sector `s` with `n` bytes from `src` written to the file at `offset`
abbrev pub patched : Disk → InodeDisk → Memory → ℕ → ℕ → ℕ → ℕ → Block
patched d i m src n offset s b =
    if leb i.start s && (leb offset (position i s b) && ltb (position i s b) (offset + n))
    then m (src + (position i s b - offset))
    else d.sectors s b

-- `d'` is `d` with these bytes written, and nothing else changed.
pub record Written (d : Disk) (i : InodeDisk) (m : Memory) (src n offset : ℕ) (d' : Disk)
    : Type 0 where
  pub same_size : d'.capacity ≡ d.capacity
  pub bytes : (s b : ℕ) → b < sector_size → d'.sectors s b ≡ patched d i m src n offset s b

-- A chunk that is no whole sector starts or ends inside one.
part_test :
    (ofs n : ℕ)
    → ((ofs == 0) && (n == sector_size)) ≡ false
    → ofs + n ≤ sector_size
    → (ltb 0 ofs || ltb n (sector_size - ofs)) ≡ true
part_test ofs n y h = ground arith

module _ (i : InodeDisk) (m : Memory) where
  -- The block of one chunk, over the sector as it was
  copy_in-patched :
      (d : Disk) (block : Block) (src n offset s b : ℕ)
      → ((b : ℕ)
          → b < sector_size
          → block b
            ≡ copy_in m src (d.sectors (i.start + offset / sector_size)) (offset % sector_size) n b)
      → offset % sector_size + n ≤ sector_size
      → b < sector_size
      → update d.sectors (i.start + offset / sector_size) block s b ≡ patched d i m src n offset s b
  copy_in-patched d block src n offset s b is fits h =
      elim (ℕ_discrete (i.start + offset / sector_size) s) [
        | yes e ↦
            let at : position i s b + offset % sector_size ≡ offset + b = omega (arith, e) in
            let old : d.sectors (i.start + offset / sector_size) b ≡ d.sectors s b =
              ap (λ k. d.sectors k b) e in
            rw (here_test e) (
              is b h
              ∙ elim (Bool-cases
                  (leb (offset % sector_size) b && ltb b (offset % sector_size + n))) [
                    | inl y ↦ rw (y, inside_test e at y) (ap m (index at))
                    | inr y ↦ rw (y, outside_test at y) old
                  ])
        | no ne ↦ rw (==_ne (i.start + offset / sector_size) s ne, missed_test ne fits h) refl
      ]
    where
      here_test : i.start + offset / sector_size ≡ s → (i.start + offset / sector_size == s) ≡ true
      here_test e = ground arith

      index :
          position i s b + offset % sector_size ≡ offset + b
          → src + (b - offset % sector_size) ≡ src + (position i s b - offset)
      index at = omega arith

      inside_test :
          i.start + offset / sector_size ≡ s
          → position i s b + offset % sector_size ≡ offset + b
          → (leb (offset % sector_size) b && ltb b (offset % sector_size + n)) ≡ true
          → (leb i.start s && (leb offset (position i s b) && ltb (position i s b) (offset + n)))
            ≡ true
      inside_test e at y = ground arith

      outside_test :
          position i s b + offset % sector_size ≡ offset + b
          → (leb (offset % sector_size) b && ltb b (offset % sector_size + n)) ≡ false
          → (leb i.start s && (leb offset (position i s b) && ltb (position i s b) (offset + n)))
            ≡ false
      outside_test at y = ground arith

      missed_test :
          i.start + offset / sector_size ≢ s
          → offset % sector_size + n ≤ sector_size
          → b < sector_size
          → (leb i.start s && (leb offset (position i s b) && ltb (position i s b) (offset + n)))
            ≡ false
      missed_test ne fits h = ground arith

  whole_block :
      (old : Block) (src ofs n b : ℕ)
      → ((ofs == 0) && (n == sector_size)) ≡ true
      → b < sector_size
      → m (src + b) ≡ copy_in m src old ofs n b
  whole_block old src ofs n b y h = ground (arith, ap m (index y))
    where
      index : ((ofs == 0) && (n == sector_size)) ≡ true → src + b ≡ src + (b - ofs)
      index y = ground arith

  pub write_chunk-Written :
      (d : Disk) (src size offset : ℕ)
      → OnDisk d i
      → 0 < available i size offset
      → (d' : Disk) × (write_chunk d i m src true size offset ≡ some (some d'))
        × Written d i m src (chunk_size i size offset) offset d'
  unfolding write_chunk disk_read disk_write
  write_chunk-Written d src size offset on h =
      let (le, fits, pos) = chunk-le i size offset in
      let (at, below) = sector-OnDisk d i offset on (omega (arith, h)) in
      let ne : chunk_size i size offset ≢ 0 = omega (arith, pos, h) in
      let (there, in_range) = addressable-ltb d (i.start + offset / sector_size) below in
      let old : Block = d.sectors (i.start + offset / sector_size) in
      let part : Block = copy_in m src old (offset % sector_size) (chunk_size i size offset) in
      elim (Bool-cases ((offset % sector_size == 0) && (chunk_size i size offset == sector_size))) [
        | inl y ↦ (
          record d {
            sectors = update d.sectors (i.start + offset / sector_size) (λ b. m (src + b));
          },
          rw (==_ne (chunk_size i size offset) 0 ne, y, at, there, in_range),
          record {
            same_size = refl;
            bytes = λ s b hb.
                copy_in-patched d (λ b. m (src + b)) src (chunk_size i size offset) offset s b
                  (λ b hb.
                    whole_block old src (offset % sector_size) (chunk_size i size offset) b y hb)
                  fits hb;
          },
        )
        | inr y ↦ (
          record d { sectors = update d.sectors (i.start + offset / sector_size) part },
          rw (
            ==_ne (chunk_size i size offset) 0 ne,
            y,
            part_test (offset % sector_size) (chunk_size i size offset) y fits,
            at,
            there,
            in_range,
          ),
          record {
            same_size = refl;
            bytes = λ s b hb.
                copy_in-patched d part src (chunk_size i size offset) offset s b (λ b hb. refl) fits
                  hb;
          },
        )
      ]
