-- ===== src/Inodes/Count.antt =====
-- The counts of openers, and what the last closing frees.
use mathlib.Core.Path.{subst}
use tddb.Base.{
  ℕ, ◌+◌, ◌≤◌, ◌<◌, Bool, true, false, ◌||◌, none, some, ◌∷◌, ◌==◌, if◌then◌else◌, ◌≡◌, refl, ap,
  ◌∙◌, arith, Option-cases, inl, inr, ==_ne, ==_refl,
}
use tddb.Inode.Layout.{addressable-ltb}
use tddb.Inode.{bytes_to_sectors, disk_read}
use tddb.Bitmap.{Bitmap}
use tddb.Bitmap.Bit.{at}
use tddb.Bitmap.Range.{Fits, Fills, Fills-IsValid, within}
use tddb.Bitmap.Scan.{Run}
use tddb.FreeMap.{FreeMap, free_map_release}
use tddb.FreeMap.Allocate.{free_map_release-Fills}
use tddb.Inodes.{
  one_less, OpenInode, Inodes, decode, find_inode, remove_elem, change_open, inode_reopen,
  open_found, inode_open, release_removed, inode_close,
}
use tddb.Inodes.OpenList.{
  AllOpen, openers, find-change, change-back, find-open, find-sector, openers-change,
  AllOpen-change, find-openers, absent-openers,
}

abbrev pub opened_once : OpenInode → OpenInode
opened_once i = record i { open_cnt = i.open_cnt + 1 }

abbrev pub closed_once : OpenInode → OpenInode
closed_once i = record i { open_cnt = one_less i.open_cnt }

back_again : (i : OpenInode) → closed_once (opened_once i) ≡ i
back_again i = ap (λ n. record i { open_cnt = n }) (ground arith)

close_last :
    (st : Inodes) (s : ℕ)
    → inode_close
        (record st {
          open_inodes =
              record {
                sector = s;
                open_cnt = 1;
                removed = false;
                deny_write_cnt = 0;
                inode_data = decode (st.disk.sectors s);
              }
              ∷ st.open_inodes;
        })
        (some s)
      ≡ some st
unfolding inode_close release_removed
close_last st s = rw (==_refl s)

reopen_run :
    (st : Inodes) (s : ℕ) {i : OpenInode}
    → find_inode st.open_inodes s ≡ some i
    → 0 < i.open_cnt
    → inode_reopen st (some s) ≡ some (some s, change_open st s opened_once)
unfolding inode_reopen
reopen_run st s {i} e pos = rw (e, ==_ne i.open_cnt 0 (omega (arith, pos)))

pub close_run :
    (st : Inodes) (s : ℕ) {i : OpenInode}
    → find_inode st.open_inodes s ≡ some i
    → 1 < i.open_cnt
    → inode_close st (some s) ≡ some (change_open st s closed_once)
unfolding inode_close
close_run st s {i} e pos = rw (e, ==_ne (one_less i.open_cnt) 0 (ground (arith, pos)))

pub open_run :
    (st : Inodes) (s : ℕ) (room : Bool) (i : OpenInode)
    → AllOpen st.open_inodes
    → find_inode st.open_inodes s ≡ some i
    → inode_open st s room ≡ some (some s, change_open st s opened_once)
unfolding inode_open open_found
open_run st s room i all e = rw e (reopen_run st s e (find-open st.open_inodes s all e))

-- The inode of a sector that is not open yet
abbrev new_inode : Inodes → ℕ → OpenInode
new_inode st s = record {
  sector = s;
  open_cnt = 1;
  removed = false;
  deny_write_cnt = 0;
  inode_data = decode (st.disk.sectors s);
}

open_new :
    (st : Inodes) (s : ℕ)
    → find_inode st.open_inodes s ≡ none
    → s < st.disk.capacity
    → inode_open st s true
      ≡ some (some s, record st { open_inodes = new_inode st s ∷ st.open_inodes })
unfolding inode_open open_found disk_read
open_new st s e below =
    let (there, in_range) = addressable-ltb st.disk s below in rw (e, there, in_range)

-- `inode_open` of a sector of the disk, with memory at hand, returns the one open inode of the sector: its count
-- goes up by one, from 0 if it was not open, and no other count changes.
pub inode_open-openers :
    (st : Inodes) (s : ℕ)
    → AllOpen st.open_inodes
    → s < st.disk.capacity
    → (st' : Inodes) × (inode_open st s true ≡ some (some s, st'))
      × AllOpen st'.open_inodes
      × ((t : ℕ)
          → openers st'.open_inodes t
            ≡ (if t == s then openers st.open_inodes t + 1 else openers st.open_inodes t))
inode_open-openers st s all below = elim (Option-cases (find_inode st.open_inodes s)) [
  | inl e ↦ (
    record st { open_inodes = new_inode st s ∷ st.open_inodes },
    open_new st s e below,
    (omega arith, e, all),
    λ t. ground (arith, absent-openers st.open_inodes s e),
  )
  | inr (i, e) ↦ (
    change_open st s opened_once,
    open_run st s true i all e,
    AllOpen-change st.open_inodes s opened_once (λ i. refl) e (omega arith) all,
    λ t.
        openers-change st.open_inodes s t opened_once (λ i. refl) e
        ∙ ground (arith, find-openers st.open_inodes s e),
  )
]

-- To open a sector, with memory at hand, and to close it again leaves the whole state as it was.
pub inode_open-inode_close :
    (st : Inodes) (s : ℕ)
    → AllOpen st.open_inodes
    → s < st.disk.capacity
    → (st' : Inodes) × (inode_open st s true ≡ some (some s, st'))
      × (inode_close st' (some s) ≡ some st)
inode_open-inode_close st s all below = elim (Option-cases (find_inode st.open_inodes s)) [
  | inl e ↦ (
    record st { open_inodes = new_inode st s ∷ st.open_inodes },
    open_new st s e below,
    close_new,
  )
  | inr (i, e) ↦
      let pos = find-open st.open_inodes s all e in
      (
        change_open st s opened_once,
        open_run st s true i all e,
        close_run (change_open st s opened_once) s
              (find-change st.open_inodes s opened_once (λ i. refl) e) (omega (arith, pos))
            ∙ ap (λ l. some (record st { open_inodes = l }))
                (change-back st.open_inodes s opened_once closed_once (λ i. refl) back_again),
      )
]
  where
    close_new :
        inode_close (record st { open_inodes = new_inode st s ∷ st.open_inodes }) (some s) ≡ some st
    close_new = close_last st s

Fits-other :
    {b b1 : Bitmap} {r cnt r1 cnt1 : ℕ} {v : Bool}
    → Fits b r cnt
    → Fills b r1 cnt1 v b1
    → Fits b1 r cnt
Fits-other fits fill = record {
  valid = Fills-IsValid fill fits.valid;
  below = omega (arith, fits.below, fill.same_cnt);
}

close_removed :
    (st : Inodes) (s : ℕ) (i : OpenInode) (m1 m2 : FreeMap)
    → find_inode st.open_inodes s ≡ some i
    → i.open_cnt ≡ 1
    → i.removed ≡ true
    → free_map_release st.free_map i.sector 1 ≡ some m1
    → free_map_release m1 i.inode_data.start (bytes_to_sectors i.inode_data.length) ≡ some m2
    → inode_close st (some s)
      ≡ some (record st { open_inodes = remove_elem st.open_inodes s; free_map = m2 })
unfolding inode_close release_removed
close_removed st s i m1 m2 e once gone r1 r2 = rw (e, once, gone, r1, r2)

-- The last closing of a removed inode whose sectors are in use, its own one apart from those of its bytes, takes
-- it from the list and frees exactly these sectors.
pub inode_close-frees :
    (st : Inodes) (s : ℕ) (i : OpenInode)
    → find_inode st.open_inodes s ≡ some i
    → i.open_cnt ≡ 1
    → i.removed ≡ true
    → Fits st.free_map.map s 1
    → at st.free_map.map s ≡ true
    → Fits st.free_map.map i.inode_data.start (bytes_to_sectors i.inode_data.length)
    → Run st.free_map.map i.inode_data.start (bytes_to_sectors i.inode_data.length) true
    → within i.inode_data.start (bytes_to_sectors i.inode_data.length) s ≡ false
    → (st' : Inodes) × (inode_close st (some s) ≡ some st')
      × (st'.open_inodes ≡ remove_elem st.open_inodes s)
      × ((j : ℕ)
          → at st'.free_map.map j ≡ (
              if (j == s) || within i.inode_data.start (bytes_to_sectors i.inode_data.length) j
              then false
              else at st.free_map.map j))
inode_close-frees st s i e once gone own_fits own fits used apart =
    let named : i.sector ≡ s = find-sector st.open_inodes s e in
    let (m1, r1, f1) =
      free_map_release-Fills st.free_map s 1 own_fits
        (λ j lo hi. subst (λ k. at st.free_map.map k ≡ true) (only j lo hi) own) in
    let (m2, r2, f2) =
      free_map_release-Fills m1 i.inode_data.start (bytes_to_sectors i.inode_data.length)
        (Fits-other fits f1) (λ j lo hi. f1.bits j ∙ rw (not_own j lo hi) (used j lo hi)) in
    (
      record st { open_inodes = remove_elem st.open_inodes s; free_map = m2 },
      close_removed st s i m1 m2 e once gone (ap (λ k. free_map_release st.free_map k 1) named ∙ r1)
          r2,
      refl,
      λ j. f2.bits j ∙ ground (arith, f1.bits j),
    )
  where
    only : (j : ℕ) → s ≤ j → j < s + 1 → s ≡ j
    only j lo hi = omega arith

    not_own :
        (j : ℕ)
        → i.inode_data.start ≤ j
        → j < i.inode_data.start + bytes_to_sectors i.inode_data.length
        → within s 1 j ≡ false
    not_own j lo hi = ground arith
