-- ===== src/Inodes/Create.antt =====
-- What `inode_create` leaves on the disk.
use tddb.Base.{
  ℕ, zero, suc, ◌+◌, ◌*◌, ◌/◌, ◌%◌, ◌^◌, ◌≤◌, ◌<◌, Bool, true, false, not, ◌&&◌, Option, some, ◌==◌,
  if◌then◌else◌, ◌≡◌, ◌≢◌, refl, sym, ap, ◌∙◌, arith, Bool-cases, inl, inr, ==_ne, ==_refl,
  ℕ_discrete, lt→ltb,
}
use tddb.Base.Members.{update}
use tddb.Bitmap.Bit.{at, IsValid}
use tddb.Bitmap.Range.{Fills, within}
use tddb.Bitmap.Scan.{Run, First}
use tddb.Inode.{Disk, Block, InodeDisk, bytes_to_sectors, disk_write, sector_size}
use tddb.Inode.Layout.{addressable-ltb, OnDisk, content}
use tddb.FreeMap.{FreeMap}
use tddb.FreeMap.Allocate.{Refusal, Allocated, failed, taken, free_map_allocate-Allocated}
use tddb.Inodes.{Inodes, encode, decode, zero_sectors, create_at, inode_create}

-- Reading back what was written
encode-decode : (i : InodeDisk) → i.start < 2 ^ 32 → i.length < 2 ^ 32 → decode (encode i) ≡ i
encode-decode i hs hl = rw (four_bytes i.start hs, four_bytes i.length hl) refl
  where
    four_bytes :
        (w : ℕ)
        → w < 2 ^ 32
        → w / 1 % 256
            + 256 * (w / 256 % 256)
            + 65536 * (w / 65536 % 256)
            + 16777216 * (w / 16777216 % 256)
          ≡ w
    four_bytes w h = omega arith

write_run :
    (d : Disk) (s : ℕ) (block : Block)
    → s < d.capacity
    → disk_write d s block ≡ some (record d { sectors = update d.sectors s block })
unfolding disk_write
write_run d s block h = let (there, in_range) = addressable-ltb d s h in rw (there, in_range)

zero_sectors-zero :
    (n : ℕ) (d : Disk) (start i : ℕ)
    → start + i + n ≤ d.capacity
    → (d' : Disk) × (zero_sectors d start i n ≡ some d')
      × (d'.capacity ≡ d.capacity)
      × ((s : ℕ) → d'.sectors s ≡ (if within (start + i) n s then (λ b. 0) else d.sectors s))
unfolding zero_sectors
zero_sectors-zero zero d start i h = (d, refl, refl, λ s. rw (nothing s) refl)
  where
    nothing : (s : ℕ) → within (start + i) 0 s ≡ false
    nothing s = ground arith
zero_sectors-zero (suc n) d start i h =
    let d1 : Disk = record d { sectors = update d.sectors (start + i) (λ b. 0) } in
    let (d', run, same, bytes) = zero_sectors-zero n d1 start (suc i) (omega arith) in
    (
      d',
      rw (write_run d (start + i) (λ b. 0) (omega arith)) run,
      same,
      λ s. bytes s ∙ elim (ℕ_discrete (start + i) s) [
        | yes e ↦ rw (later_at s e, now_at s e, same_test (start + i) s e) refl
        | no ne ↦ rw (==_ne (start + i) s ne, later_ne s ne) refl
      ],
    )
  where
    same_test : (a b : ℕ) → a ≡ b → (a == b) ≡ true
    same_test a b e = ground arith

    later_at : (s : ℕ) → start + i ≡ s → within (start + suc i) n s ≡ false
    later_at s e = ground arith

    now_at : (s : ℕ) → start + i ≡ s → within (start + i) (suc n) s ≡ true
    now_at s e = ground arith

    later_ne : (s : ℕ) → start + i ≢ s → within (start + suc i) n s ≡ within (start + i) (suc n) s
    later_ne s ne = ground arith

-- What `inode_create` did: it was refused the sectors and did nothing, or the inode and its bytes, all zero, are on the disk,
-- in the first free sectors.
pub data Created (st : Inodes) (sector length : ℕ) (written : Bool) : Bool → Inodes → Type 0 where
  refused :
      {st' : Inodes}
      → Refusal st.free_map (bytes_to_sectors length) written
      → st'.open_inodes ≡ st.open_inodes
      → st'.disk ≡ st.disk
      → IsValid st'.free_map.map
      → st'.free_map.map.bit_cnt ≡ st.free_map.map.bit_cnt
      → ((j : ℕ) → at st'.free_map.map j ≡ at st.free_map.map j)
      → Created st sector length written false st'
  made :
      {st' : Inodes} (i : InodeDisk)
      → st'.open_inodes ≡ st.open_inodes
      → st'.disk.capacity ≡ st.disk.capacity
      → (st.free_map.file_open && not written) ≡ false
      → First st.free_map.map 0 (bytes_to_sectors length) false i.start
      → i.length ≡ length
      → decode (st'.disk.sectors sector) ≡ i
      → OnDisk st'.disk i
      → ((pos : ℕ) → pos < length → content st'.disk i pos ≡ 0)
      → ((s : ℕ)
          → s ≢ sector
          → at st.free_map.map s ≡ true
          → st'.disk.sectors s ≡ st.disk.sectors s)
      → Run st.free_map.map i.start (bytes_to_sectors length) false
      → Fills st.free_map.map i.start (bytes_to_sectors length) true st'.free_map.map
      → Created st sector length written true st'

module _ (st : Inodes) (sector length : ℕ) (ok : IsValid st.free_map.map)
    (size : st.free_map.map.bit_cnt ≡ st.disk.capacity) (own : at st.free_map.map sector ≡ true)
    (on : sector < st.disk.capacity) (small : length < 2 ^ 31) where
  create_at-Created :
      {written : Bool} {o : Option ℕ} {map : FreeMap}
      → Allocated st.free_map (bytes_to_sectors length) written o map
      → (b : Bool) × (st' : Inodes) × (create_at st sector length (o, map) ≡ some (b, st'))
        × Created st sector length written b st'
  unfolding create_at
  create_at-Created {map = map} (failed why same valid bits) =
      (false, record st { free_map = map }, refl, refused why refl refl valid same bits)
  create_at-Created (taken {sector = start} {f' = map} wrote first fits fill run) =
      let i : InodeDisk = record { start = start; length = length } in
      let d1 : Disk = record (st.disk) { sectors = update st.disk.sectors sector (encode i) } in
      let (d', zeros, same, bytes) =
        zero_sectors-zero (bytes_to_sectors length) d1 start 0 (omega (arith, fits.below, size)) in
      let out : within (start + 0) (bytes_to_sectors length) sector ≡ false =
        not_inside start sector run own in
      let header : d'.sectors sector ≡ encode i = bytes sector ∙ rw (out, ==_refl sector) refl in
      let zeroed : (pos : ℕ) → pos < length → d'.sectors (start + pos / sector_size) ≡ (λ b. 0) =
        λ pos h. bytes (start + pos / sector_size) ∙ rw (inside start pos h) refl in
      (
        true,
        record st { free_map = map; disk = d' },
        rw (write_run st.disk sector (encode i) on, zeros),
        made i refl same wrote first refl
            (ap decode header
              ∙ encode-decode i (omega (arith, fits.below, ok.small)) (omega (arith, small)))
            (omega (arith, fits.below, size, same))
            (λ pos h. ap (λ (k : Block). k (pos % sector_size)) (zeroed pos h))
            (λ s ne used.
              bytes s ∙ rw (not_inside start s run used, ==_ne sector s (λ e. ne (sym e))) refl)
            run fill,
      )
    where
      not_inside :
          (start s : ℕ)
          → Run st.free_map.map start (bytes_to_sectors length) false
          → at st.free_map.map s ≡ true
          → within (start + 0) (bytes_to_sectors length) s ≡ false
      not_inside start s run used =
          elim (Bool-cases (within (start + 0) (bytes_to_sectors length) s)) [
            | inl y ↦ cc (sym used ∙ run s (low y) (high y))
            | inr n ↦ n
          ]
        where
          low : within (start + 0) (bytes_to_sectors length) s ≡ true → start ≤ s
          low y = ground arith

          high :
              within (start + 0) (bytes_to_sectors length) s ≡ true
              → s < start + bytes_to_sectors length
          high y = ground arith

      inside :
          (start pos : ℕ)
          → pos < length
          → within (start + 0) (bytes_to_sectors length) (start + pos / sector_size) ≡ true
      inside start pos h = ground arith

  pub inode_create-Created :
      (written : Bool)
      → (b : Bool) × (st' : Inodes) × (inode_create st sector length true written ≡ some (b, st'))
        × Created st sector length written b st'
  unfolding inode_create
  inode_create-Created written =
      let (o, map, run, a) =
        free_map_allocate-Allocated st.free_map (bytes_to_sectors length) written ok in
      rw (lt→ltb length (2 ^ 31) small, run) (create_at-Created a)
