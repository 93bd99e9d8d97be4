-- ===== src/Directory/Remove.antt =====
-- What `dir_remove` does to the map of a directory.
use mathlib.Core.Path.{subst}
use tddb.Base.{
  ℕ, ◌<◌, Bool, true, false, not, ◌&&◌, some, List, ◌==◌, ◌≡◌, ◌≢◌, ◌↔◌, refl, sym, ap, ◌∙◌, arith,
}
use tddb.Base.Members.{update}
use tddb.Inode.{Block, Disk, InodeDisk}
use tddb.Inode.Layout.{OnDisk}
use tddb.Inodes.{OpenInode, Inodes, find_inode, change, change_open, inode_remove, inode_close}
use tddb.Inodes.OpenList.{AllOpen, find-change, find-change_other, find-open}
use tddb.Inodes.Count.{open_run, close_run, opened_once, closed_once}
use tddb.Directory.{granted, Dir, inode_sector, is_entry, is_name, lookup, erase, dir_remove}
use tddb.Directory.Slots.{slots, slot, Agree, write_entry-slot}
use tddb.Directory.Names.{is_entry-Agree, is_name_unique, inode_sector-Agree}
use tddb.Directory.Scan.{Scanned, past, hit, scan_all-Scanned, is_entry-Reads}
use tddb.Directory.Add.{IsFileName, Holds, Missing, Single}

abbrev pub marked : OpenInode → OpenInode
marked i = record i { removed = true }

-- One slot in use was set free.
module _ (d d' : Disk) (i : InodeDisk) (k : ℕ) (e : Block) (name : List ℕ) (below : k < slots i)
    (match : is_entry name (slot d i k) ≡ true) (ok : IsFileName name) (single : Single d i)
    (here : Agree (slot d' i k) (update e 19 0))
    (there : (j : ℕ) → j ≢ k → Agree (slot d' i j) (slot d i j)) where
  freed : (name2 : List ℕ) → is_entry name2 (slot d' i k) ≡ false
  freed name2 = ap (λ c. not (c == 0) && is_name name2 (slot d' i k) 4) (here 19 (omega arith))

  pub removed_map :
      (name2 : List ℕ) (s : ℕ)
      → IsFileName name2
      → Holds d' i name2 s ↔ ((name2 ≢ name) × Holds d i name2 s)
  removed_map name2 s ok2 = (forth, back)
    where
      forth : Holds d' i name2 s → (name2 ≢ name) × Holds d i name2 s
      forth (j, at, match2, sec) =
          let ne : j ≢ k =
            λ eq. cc (sym match2 ∙ ap (λ j. is_entry name2 (slot d' i j)) eq ∙ freed name2) in
          let old : is_entry name2 (slot d i j) ≡ true =
            sym (is_entry-Agree name2 (slot d' i j) (slot d i j) ok2.fits (there j ne)) ∙ match2 in
          (
            λ eq. ne (
                single name j k ok at below (subst (λ n. is_entry n (slot d i j) ≡ true) eq old)
                  match),
            (j, at, old, sym (inode_sector-Agree (slot d' i j) (slot d i j) (there j ne)) ∙ sec),
          )

      named : (n : List ℕ) → is_entry n (slot d i k) ≡ true → is_name n (slot d i k) 4 ≡ true
      named n h = ground arith

      back : (name2 ≢ name) × Holds d i name2 s → Holds d' i name2 s
      back (other, (j, at, match2, sec)) =
          let ne : j ≢ k = λ eq. other (
            is_name_unique name2 name (slot d i k) 4 ok2.chars ok.chars
              (named name2 (subst (λ j. is_entry name2 (slot d i j) ≡ true) eq match2))
              (named name match)) in
          (
            j,
            at,
            is_entry-Agree name2 (slot d' i j) (slot d i j) ok2.fits (there j ne) ∙ match2,
            inode_sector-Agree (slot d' i j) (slot d i j) (there j ne) ∙ sec,
          )

-- What `dir_remove` did, when the file is open elsewhere.
pub data Removed (st : Inodes) (i : InodeDisk) (name : List ℕ) : Bool → Inodes → Type 0 where
  not_there : Missing st.disk i name → Removed st i name false st
  removed :
      {st' : Inodes} (s : ℕ) (file : OpenInode)
      → Holds st.disk i name s
      → find_inode st.open_inodes s ≡ some file
      → find_inode st'.open_inodes s ≡ some (marked file)
      → ((name2 : List ℕ) (t : ℕ)
          → IsFileName name2
          → Holds st'.disk i name2 t ↔ ((name2 ≢ name) × Holds st.disk i name2 t))
      → Removed st i name true st'

-- `inode_remove` and `inode_close` of an inode that was just opened once more
drop_run :
    (st : Inodes) (s : ℕ) (file : OpenInode)
    → find_inode st.open_inodes s ≡ some file
    → 1 < file.open_cnt
    → (st' : Inodes) × (st2 : Inodes) × (inode_remove st s ≡ some st2)
      × (inode_close st2 (some s) ≡ some st')
      × (st'.disk ≡ st.disk)
      × (find_inode st'.open_inodes s ≡ some (closed_once (marked file)))
unfolding inode_remove
drop_run st s file found more = (
  change_open (change_open st s marked) s closed_once,
  change_open st s marked,
  rw found refl,
  close_run (change_open st s marked) s mark more,
  refl,
  find-change (change st.open_inodes s marked) s closed_once (λ i. refl) mark,
)
  where
    mark : find_inode (change st.open_inodes s marked) s ≡ some (marked file)
    mark = find-change st.open_inodes s marked (λ i. refl) found

-- `dir_remove` of a name of 1 to 14 characters from a directory on the disk whose inode may be written, in which no name is
-- twice, when the file of the name, if there is one, is another one than the directory and open elsewhere, and every
-- `malloc` of a bounce buffer succeeds: it returns false with nothing changed when the name is not there, and else true; then the map is the one
-- before without the name, and the inode of the file is marked as removed and still open.
pub dir_remove-Removed :
    (st : Inodes) (dir : Dir) (i : OpenInode) (room : Bool) (e : Block) (name : List ℕ)
    → find_inode st.open_inodes dir.inode ≡ some i
    → OnDisk st.disk i.inode_data
    → i.deny_write_cnt ≡ 0
    → AllOpen st.open_inodes
    → Single st.disk i.inode_data
    → IsFileName name
    → ((s : ℕ)
        → Holds st.disk i.inode_data name s
        → (s ≢ dir.inode) × ((file : OpenInode) × (find_inode st.open_inodes s ≡ some file)))
    → (b : Bool) × (st' : Inodes) × (dir_remove st dir granted true room e name ≡ some (b, st'))
      × Removed st i.inode_data name b st'
unfolding dir_remove lookup erase
dir_remove-Removed st dir i room e name found on writable all single ok open_elsewhere =
    let (b, e', ofs, run, s) =
      scan_all-Scanned st dir i found on (is_entry name) (is_entry-Reads name ok.fits) 0 e in
    go run s
  where
    go :
        {b : Bool} {e' : Block} {ofs : ℕ}
        → lookup st dir granted e name ≡ some (b, e', ofs)
        → Scanned st.disk i.inode_data (is_entry name) 0 b e' ofs
        → (b : Bool) × (st' : Inodes) × (dir_remove st dir granted true room e name ≡ some (b, st'))
          × Removed st i.inode_data name b st'
    go run (past n le over fails) =
        (false, st, rw run refl, not_there (λ k h. fails k (omega arith) h))
    go {e' = e'} run (hit n le below pass before agree) =
        let at_slot : inode_sector e' ≡ inode_sector (slot st.disk i.inode_data n) =
          inode_sector-Agree e' (slot st.disk i.inode_data n) agree in
        let holds : Holds st.disk i.inode_data name (inode_sector e') =
          (n, below, pass, sym at_slot) in
        let (apart, (file, opened)) = open_elsewhere (inode_sector e') holds in
        let st1 = change_open st (inode_sector e') opened_once in
        let dir_found : find_inode st1.open_inodes dir.inode ≡ some i =
          find-change_other st.open_inodes (inode_sector e') dir.inode opened_once (λ i. refl) apart
          ∙ found in
        let (d', wrote, cap, here, there) =
          write_entry-slot st1 dir i dir_found on (update e' 19 0) n writable below in
        let again = find-change st.open_inodes (inode_sector e') opened_once (λ i. refl) opened in
        let (st', st2, rem, close, same, marks) =
          drop_run (record st1 { disk = d' }) (inode_sector e') (opened_once file) again
            (omega (arith, find-open st.open_inodes (inode_sector e') all opened)) in
        (
          true,
          st',
          rw (run, open_run st (inode_sector e') room file all opened, wrote, rem, close) refl,
          removed (inode_sector e') file holds opened
              (marks ∙ ap (λ n. some (record file { open_cnt = n; removed = true })) (ground arith))
              (λ name2 t ok2.
                subst
                  (λ d2.
                    Holds d2 i.inode_data name2 t
                    ↔ ((name2 ≢ name) × Holds st.disk i.inode_data name2 t))
                  (sym same)
                  (removed_map st.disk d' i.inode_data n e' name below pass ok single here there
                    name2 t ok2)),
        )
