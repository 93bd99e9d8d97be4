-- ===== src/Inode/Layout.antt =====
-- Where the bytes of a file stand on the disk.
use tddb.Base.{ℕ, ◌+◌, ◌-◌, ◌/◌, ◌%◌, ◌^◌, ◌≤◌, ◌<◌, true, min, ltb, lt→ltb, ◌≡◌, ap, arith}
use tddb.Inode.{Disk, sector_size, InodeDisk, bytes_to_sectors, byte_to_sector, chunk_size}

-- All sectors of the file are on the disk.
abbrev pub OnDisk : Disk → InodeDisk → Type 0
OnDisk d i = i.start + bytes_to_sectors i.length ≤ d.capacity

-- The byte at a position of the file.
abbrev pub content : Disk → InodeDisk → ℕ → ℕ
content d i pos = d.sectors (i.start + pos / sector_size) (pos % sector_size)

-- How many bytes there are to move.
abbrev pub available : InodeDisk → ℕ → ℕ → ℕ
available i size offset = min size (i.length - offset)

pub chunk-le :
    (i : InodeDisk) (size offset : ℕ)
    → (chunk_size i size offset ≤ available i size offset)
      × (offset % sector_size + chunk_size i size offset ≤ sector_size)
      × (0 < available i size offset → 0 < chunk_size i size offset)
chunk-le i size offset = ground arith

pub sector-OnDisk :
    (d : Disk) (i : InodeDisk) (offset : ℕ)
    → OnDisk d i
    → offset < i.length
    → (byte_to_sector i offset ≡ i.start + offset / sector_size)
      × (i.start + offset / sector_size < d.capacity)
sector-OnDisk d i offset on h = ground arith

-- Inside one chunk the sector is the same.
pub content_inside :
    (d : Disk) (i : InodeDisk) (offset k : ℕ)
    → offset % sector_size + k < sector_size
    → content d i (offset + k)
      ≡ d.sectors (i.start + offset / sector_size) (offset % sector_size + k)
content_inside d i offset k h = ap (λ (p : ℕ × ℕ). d.sectors (i.start + p.0) (p.1)) same
  where
    same :
        ◌≡◌ {A = ℕ × ℕ}
          ((offset + k) / sector_size, (offset + k) % sector_size)
          (offset / sector_size, offset % sector_size + k)
    same = rw (quotient, remainder)
      where
        quotient : (offset + k) / sector_size ≡ offset / sector_size
        quotient = omega arith

        remainder : (offset + k) % sector_size ≡ offset % sector_size + k
        remainder = omega arith

-- A sector of the disk has a number of 28 bits.
pub addressable-ltb :
    (d : Disk) (s : ℕ) → s < d.capacity → (ltb s d.capacity ≡ true) × (ltb s (2 ^ 28) ≡ true)
addressable-ltb d s below =
    (lt→ltb s d.capacity below, lt→ltb s (2 ^ 28) (omega (arith, below, d.addressable)))
