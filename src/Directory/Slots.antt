-- ===== src/Directory/Slots.antt =====
-- The entries of a directory, and reading and writing one of them.
use tddb.Base.{
  ℕ, ◌+◌, ◌-◌, ◌*◌, ◌/◌, ◌%◌, ◌≤◌, ◌<◌, true, false, ◌&&◌, some, ◌==◌, ltb, leb, if◌then◌else◌, ◌≡◌,
  ◌≢◌, refl, ap, ◌∙◌, arith,
}
use tddb.Inode.{Block, Disk, InodeDisk, sector_size}
use tddb.Inode.Layout.{OnDisk, content, available}
use tddb.Inode.Read.{inode_read_at-all}
use tddb.Inode.Chunk.{Written, position}
use tddb.Inode.Write.{inode_write_at-all}
use tddb.Inodes.{OpenInode, Inodes, find_inode}
use tddb.Directory.{Dir, entry_size, read_entry, write_entry}

-- The number of whole entries, and the entry with a number.
abbrev pub slots : InodeDisk → ℕ
slots i = i.length / entry_size

abbrev pub slot : Disk → InodeDisk → ℕ → Block
slot d i k b = content d i (entry_size * k + b)

-- Two entries that have the same bytes.
abbrev pub Agree : Block → Block → Type 0
Agree e e' = (b : ℕ) → b < entry_size → e b ≡ e' b

pub content-Written :
    (d d' : Disk) (i : InodeDisk) (m : Block) (src n offset pos : ℕ)
    → Written d i m src n offset d'
    → content d' i pos ≡ (
        if leb offset pos && ltb pos (offset + n)
        then m (src + (pos - offset))
        else content d i pos)
content-Written d d' i m src n offset pos w =
    w.bytes (i.start + pos / sector_size) (pos % sector_size) (omega arith) ∙ rw (below, back) refl
  where
    below : leb i.start (i.start + pos / sector_size) ≡ true
    below = ground arith

    back : position i (i.start + pos / sector_size) (pos % sector_size) ≡ pos
    back = omega arith

module _ (st : Inodes) (dir : Dir) (i : OpenInode)
    (found : find_inode st.open_inodes dir.inode ≡ some i) (on : OnDisk st.disk i.inode_data) where
  pub read_entry-slot :
      (e : Block) (k : ℕ)
      → k < slots i.inode_data
      → (e' : Block) × (read_entry st dir true e (entry_size * k) ≡ some (e', entry_size))
        × Agree e' (slot st.disk i.inode_data k)
  unfolding read_entry
  read_entry-slot e k h =
      let (e', run, bytes) =
        inode_read_at-all st.disk i.inode_data e 0 entry_size (entry_size * k) on in
      (
        e',
        rw (found, run) (ap (λ n. some (e', n)) whole),
        λ b below. bytes b ∙ rw (inside b below) (ap (slot st.disk i.inode_data k) (less_zero b)),
      )
    where
      less_zero : (b : ℕ) → b - 0 ≡ b
      less_zero b = omega arith

      whole : available i.inode_data entry_size (entry_size * k) ≡ entry_size
      whole = ground arith

      inside :
          (b : ℕ)
          → b < entry_size
          → (leb 0 b && ltb b (0 + available i.inode_data entry_size (entry_size * k))) ≡ true
      inside b below = ground arith

  pub read_entry_short :
      (e : Block) (k : ℕ)
      → slots i.inode_data ≤ k
      → (e' : Block) × (n : ℕ) × (read_entry st dir true e (entry_size * k) ≡ some (e', n))
        × ((n == entry_size) ≡ false)
  unfolding read_entry
  read_entry_short e k h =
      let (e', run, bytes) =
        inode_read_at-all st.disk i.inode_data e 0 entry_size (entry_size * k) on in
      (e', available i.inode_data entry_size (entry_size * k), rw (found, run) refl, ground arith)

  -- A whole slot is written, and no other one.
  pub write_entry-slot :
      (e : Block) (k : ℕ)
      → i.deny_write_cnt ≡ 0
      → k < slots i.inode_data
      → (d' : Disk) × (write_entry st dir true e (entry_size * k)
          ≡ some (record st { disk = d' }, entry_size))
        × (d'.capacity ≡ st.disk.capacity)
        × Agree (slot d' i.inode_data k) e
        × ((j : ℕ) → j ≢ k → Agree (slot d' i.inode_data j) (slot st.disk i.inode_data j))
  unfolding write_entry
  write_entry-slot e k writable h =
      let (d', run, w) =
        inode_write_at-all st.disk i.inode_data e 0 entry_size (entry_size * k) on in
      (
        d',
        rw (found, writable, run) (ap (λ n. some (record st { disk = d' }, n)) whole),
        w.same_size,
        λ b below.
            content-Written st.disk d' i.inode_data e 0
              (available i.inode_data entry_size (entry_size * k)) (entry_size * k)
              (entry_size * k + b) w
            ∙ rw (inside b below) (ap e (back b)),
        λ j ne b below.
            content-Written st.disk d' i.inode_data e 0
              (available i.inode_data entry_size (entry_size * k)) (entry_size * k)
              (entry_size * j + b) w
            ∙ rw (outside j ne b below) refl,
      )
    where
      whole : available i.inode_data entry_size (entry_size * k) ≡ entry_size
      whole = ground arith

      inside :
          (b : ℕ)
          → b < entry_size
          → (leb (entry_size * k) (entry_size * k + b)
              && ltb
                  (entry_size * k + b)
                  (entry_size * k + available i.inode_data entry_size (entry_size * k)))
            ≡ true
      inside b below = ground arith

      back : (b : ℕ) → 0 + (entry_size * k + b - entry_size * k) ≡ b
      back b = omega arith

      outside :
          (j : ℕ)
          → j ≢ k
          → (b : ℕ) → b < entry_size
          → (leb (entry_size * k) (entry_size * j + b)
              && ltb
                  (entry_size * j + b)
                  (entry_size * k + available i.inode_data entry_size (entry_size * k)))
            ≡ false
      outside j ne b below = ground arith

  -- Behind the last slot no slot is written.
  pub write_entry_short :
      (e : Block) (k : ℕ)
      → i.deny_write_cnt ≡ 0
      → slots i.inode_data ≤ k
      → (d' : Disk) × (n : ℕ) × (write_entry st dir true e (entry_size * k)
          ≡ some (record st { disk = d' }, n))
        × ((n == entry_size) ≡ false)
        × ((j : ℕ)
            → j < slots i.inode_data
            → Agree (slot d' i.inode_data j) (slot st.disk i.inode_data j))
  unfolding write_entry
  write_entry_short e k writable h =
      let (d', run, w) =
        inode_write_at-all st.disk i.inode_data e 0 entry_size (entry_size * k) on in
      (
        d',
        available i.inode_data entry_size (entry_size * k),
        rw (found, writable, run) refl,
        ground arith,
        λ j in_file b below.
            content-Written st.disk d' i.inode_data e 0
              (available i.inode_data entry_size (entry_size * k)) (entry_size * k)
              (entry_size * j + b) w
            ∙ rw (outside j b in_file below) refl,
      )
    where
      outside :
          (j b : ℕ)
          → j < slots i.inode_data
          → b < entry_size
          → (leb (entry_size * k) (entry_size * j + b)
              && ltb
                  (entry_size * j + b)
                  (entry_size * k + available i.inode_data entry_size (entry_size * k)))
            ≡ false
      outside j b in_file below = ground arith
