-- ===== src/Filesys/Create.antt =====
-- What `filesys_create` leaves behind when the name is already there.
use mathlib.Core.Path.{subst}
use tddb.Base.{
  ℕ, ◌+◌, ◌*◌, ◌/◌, ◌%◌, ◌^◌, ◌≤◌, ◌<◌, Bool, true, false, not, ◌&&◌, some, List, ◌==◌,
  if◌then◌else◌, ◌≡◌, ◌≢◌, refl, sym, ap, ◌∙◌, arith, ==_ne,
}
use tddb.Bitmap.Bit.{at, IsValid}
use tddb.Bitmap.Range.{Fills, Fills-IsValid, within}
use tddb.Bitmap.Scan.{Run, First}
use tddb.Inode.{Block, Disk, InodeDisk, bytes_to_sectors, sector_size}
use tddb.Inode.Layout.{OnDisk}
use tddb.FreeMap.{FreeMap}
use tddb.FreeMap.Allocate.{free_map_release-Fills, Refusal, no_run, not_written}
use tddb.Inodes.{OpenInode, Inodes, find_inode, inode_create}
use tddb.Inodes.Create.{Created, refused, made, inode_create-Created}
use tddb.Directory.{granted, Dir, entry_size, dir_add}
use tddb.Directory.Slots.{slots, slot, Agree}
use tddb.Directory.Names.{is_entry-Agree, inode_sector-Agree}
use tddb.Directory.Add.{IsFileName, Holds, Missing, Added, listed, full, added}
use tddb.Directory.Map.{dir_add-Added}
use tddb.Filesys.{Outcome, create_entry, undo_create, create_in}

-- The same bytes of a file on two disks
slot-Agree :
    (d d' : Disk) (i : InodeDisk) (k : ℕ)
    → k < slots i
    → ((s : ℕ) → i.start ≤ s → s < i.start + bytes_to_sectors i.length → d'.sectors s ≡ d.sectors s)
    → Agree (slot d' i k) (slot d i k)
slot-Agree d d' i k below same b in_entry =
    ap (λ (s : Block). s ((entry_size * k + b) % sector_size))
      (same (i.start + (entry_size * k + b) / sector_size) (omega arith)
        (omega (arith, below, in_entry)))

Holds-same :
    (d d' : Disk) (i : InodeDisk) (name : List ℕ) (t : ℕ)
    → IsFileName name
    → ((s : ℕ) → i.start ≤ s → s < i.start + bytes_to_sectors i.length → d'.sectors s ≡ d.sectors s)
    → Holds d i name t
    → Holds d' i name t
Holds-same d d' i name t ok same (k, below, match, sec) = (
  k,
  below,
  is_entry-Agree name (slot d' i k) (slot d i k) ok.fits (slot-Agree d d' i k below same) ∙ match,
  inode_sector-Agree (slot d' i k) (slot d i k) (slot-Agree d d' i k below same) ∙ sec,
)

-- A name that is there cannot be added.
add_listed :
    (st : Inodes) (dir : Dir) (i : OpenInode) (e : Block) (name : List ℕ) (sector t : ℕ)
    → find_inode st.open_inodes dir.inode ≡ some i
    → OnDisk st.disk i.inode_data
    → i.deny_write_cnt ≡ 0
    → IsFileName name
    → sector < 2 ^ 32
    → Holds st.disk i.inode_data name t
    → dir_add st dir granted granted true e name sector ≡ some (false, st)
add_listed st dir i e name sector t found on writable ok small holds =
    let (b, st', run, a) = dir_add-Added st dir i e name sector found on writable ok small in
    go run a
  where
    impossible : Missing st.disk i.inode_data name → ⊥
    impossible missing = cc (sym (holds.2) ∙ missing (holds.0) (holds.1))

    go :
        {b : Bool} {st' : Inodes}
        → dir_add st dir granted granted true e name sector ≡ some (b, st')
        → Added st i.inode_data name sector b st'
        → dir_add st dir granted granted true e name sector ≡ some (false, st)
    go run (listed s h) = run
    go run (full missing used same) = absurd (impossible missing)
    go run (added missing map single same on) = absurd (impossible missing)

-- The free map after the failure: the sector of the inode is free again; the first free sectors that were enough for the
-- bytes, which no inode has, are in use.
pub record Leaked (map map' : FreeMap) (sector n : ℕ) : Type 0 where
  pub start : ℕ
  pub was_first : First map.map 0 n false start
  pub was_free : Run map.map start n false
  pub bits :
      (j : ℕ)
      → at map'.map j
        ≡ (if j == sector then false else if within start n j then true else at map.map j)

-- `undo_create` after a failure
undo_run :
    (st : Inodes) (sector : ℕ)
    → sector ≢ 0
    → IsValid st.free_map.map
    → sector < st.free_map.map.bit_cnt
    → at st.free_map.map sector ≡ true
    → (map : FreeMap) × (undo_create false st sector ≡ some (record st { free_map = map }))
      × ((j : ℕ) → at map.map j ≡ (if j == sector then false else at st.free_map.map j))
unfolding undo_create
undo_run st sector ne ok below used =
    let (map, run, fill) =
      free_map_release-Fills st.free_map sector 1
        (record { valid = ok; below = omega (arith, below) })
        (λ j lo hi. subst (λ k. at st.free_map.map k ≡ true) (only j lo hi) used) in
    (map, rw (==_ne sector 0 ne, run) refl, λ j. fill.bits j ∙ ground arith)
  where
    only : (j : ℕ) → sector ≤ j → j < sector + 1 → sector ≡ j
    only j lo hi = omega arith

module _ (st : Inodes) (o : Outcome) (dir : Dir) (i : OpenInode) (name : List ℕ)
    (initial_size sector t : ℕ) (found : find_inode st.open_inodes dir.inode ≡ some i)
    (on : OnDisk st.disk i.inode_data) (writable : i.deny_write_cnt ≡ 0) (ok : IsFileName name)
    (holds : Holds st.disk i.inode_data name t) (valid : IsValid st.free_map.map)
    (size : st.free_map.map.bit_cnt ≡ st.disk.capacity) (small : initial_size < 2 ^ 31)
    (mine : at st.free_map.map sector ≡ true) (not_first : sector ≢ 0)
    (below : sector < st.disk.capacity)
    (in_use : Run st.free_map.map i.inode_data.start (bytes_to_sectors i.inode_data.length) true)
    (apart : within i.inode_data.start (bytes_to_sectors i.inode_data.length) sector ≡ false)
    (memory : o.create_room ≡ true) (bounce : o.bounce ≡ granted)
    (slot_bounce : o.slot_bounce ≡ granted) (write_bounce : o.write_bounce ≡ true) (room : ℕ)
    (fits : room + bytes_to_sectors initial_size ≤ st.free_map.map.bit_cnt)
    (free_run : Run st.free_map.map room (bytes_to_sectors initial_size) false)
    (writes : o.written ≡ true) where
  has_room : ¬ (Refusal st.free_map (bytes_to_sectors initial_size) o.written)
  has_room (no_run none_free) = none_free room fits free_run
  has_room (not_written n) =
      impossible st.free_map.file_open (ap (λ w. st.free_map.file_open && not w) (sym writes) ∙ n)
    where
      impossible : (b : Bool) → ¬ ((b && not true) ≡ true)
      impossible true e = cc e
      impossible false e = cc e

  entry_refused :
      {b : Bool} {st' : Inodes}
      → inode_create st sector initial_size true o.written ≡ some (b, st')
      → Created st sector initial_size o.written b st'
      → create_entry st o dir name sector initial_size ≡ some (false, st')
  unfolding create_entry
  entry_refused run (refused why opens disk v cnt bits) = absurd (has_room why)
  entry_refused {b} {st'} run (made i2 opens cap wrote first len header on2 blank kept free fill) =
      rw (memory, run, bounce, slot_bounce, write_bounce)
        (add_listed st' dir i o.entry name sector t (ap (λ l. find_inode l dir.inode) opens ∙ found)
          (omega (arith, cap, on)) writable ok (omega (arith, below, size, valid.small))
          (Holds-same st.disk st'.disk i.inode_data name t ok
            (λ s lo hi. kept s (other s lo hi) (in_use s lo hi)) holds))
    where
      other :
          (s : ℕ)
          → i.inode_data.start ≤ s
          → s < i.inode_data.start + bytes_to_sectors i.inode_data.length
          → s ≢ sector
      other s lo hi = ground (arith, apart)

  -- `filesys_create` of a name of 1 to 14 characters that the root directory has already, from where the sector of the new
  -- inode is allocated, on a disk with a free run that is enough for the bytes of the file, when memory is granted
  -- and the free map is written to its file: it returns false and sets the sector of the inode free again, but
  -- the first free sectors, which `inode_create` took for the bytes, stay in use although no inode has them. The
  -- size is not negative; the directory is on the disk, may be written, and has sectors in use apart from
  -- that of the new inode; the free map is valid and as large as the disk.
  pub create_in-Leaked :
      (st' : Inodes) × (create_in st o dir name initial_size (some sector, st.free_map)
        ≡ some (false, st'))
      × Leaked st.free_map st'.free_map sector (bytes_to_sectors initial_size)
  unfolding create_in
  create_in-Leaked =
      let (b, st', run, c) =
        inode_create-Created st sector initial_size valid size mine below small o.written in
      go run c
    where
      go :
          {b : Bool} {st' : Inodes}
          → inode_create st sector initial_size true o.written ≡ some (b, st')
          → Created st sector initial_size o.written b st'
          → (st' : Inodes) × (create_in st o dir name initial_size (some sector, st.free_map)
              ≡ some (false, st'))
            × Leaked st.free_map st'.free_map sector (bytes_to_sectors initial_size)
      go run (refused why opens disk v cnt bits) = absurd (has_room why)
      go {st' = st'} run (made i2 opens cap wrote first len header on2 blank kept free fill) =
          let (map, undo, freed) =
            undo_run st' sector not_first (Fills-IsValid fill valid)
              (omega (arith, below, size, fill.same_cnt)) (still i2 free fill) in
          (
            record st' { free_map = map },
            rw
                (
                  entry_refused run
                      (made i2 opens cap wrote first len header on2 blank kept free fill),
                  undo,
                )
                refl,
            record {
              start = i2.start;
              was_first = first;
              was_free = free;
              bits = λ j. freed j ∙ ap (λ b. if j == sector then false else b) (fill.bits j);
            },
          )
        where
          still :
              (i2 : InodeDisk)
              → Run st.free_map.map i2.start (bytes_to_sectors initial_size) false
              → Fills st.free_map.map i2.start (bytes_to_sectors initial_size) true st'.free_map.map
              → at st'.free_map.map sector ≡ true
          still i2 free fill = fill.bits sector ∙ ground (arith, mine)
