-- ===== src/Directory/Map.antt =====
-- Directories implement finite maps from names to sectors.
use tddb.Base.{
  ℕ, ◌^◌, ◌≤◌, ◌<◌, Bool, true, false, not, ◌||◌, none, some, List, ◌==◌, ltb, length, ◌≡◌, ◌⊎◌,
  inl, inr, refl, arith,
}
use tddb.Inode.{Block}
use tddb.Inode.Layout.{OnDisk}
use tddb.Inodes.{OpenInode, Inodes, find_inode, inode_open}
use tddb.Directory.{granted, Dir, name_max, inode_sector, in_use, lookup, dir_add, dir_lookup}
use tddb.Directory.Scan.{scan_all-Scanned, unused-Reads}
use tddb.Directory.Add.{
  IsFileName, Holds, Missing, Added, listed, add_at-Added, Looked, nowhere, somewhere,
  lookup-Looked,
}

-- `dir_add` of a name of 1 to 14 characters, none of them null, and a 32-bit sector to a directory on the disk whose inode
-- may be written, when every `malloc` of a bounce buffer succeeds: it returns false without
-- a change to any entry when the name is there or when every slot is taken, and else true, after which the
-- map from names to sectors is the one before with this name and sector added.
pub dir_add-Added :
    (st : Inodes) (dir : Dir) (i : OpenInode) (e : Block) (name : List ℕ) (sector : ℕ)
    → find_inode st.open_inodes dir.inode ≡ some i
    → OnDisk st.disk i.inode_data
    → i.deny_write_cnt ≡ 0
    → IsFileName name
    → sector < 2 ^ 32
    → (b : Bool) × (st' : Inodes) × (dir_add st dir granted granted true e name sector
        ≡ some (b, st'))
      × Added st i.inode_data name sector b st'
unfolding dir_add
dir_add-Added st dir i e name sector found on writable ok small =
    let (b, e', ofs, look, l) = lookup-Looked st dir i found on e name ok.fits in go look l
  where
    valid : ((length name == 0) || ltb name_max (length name)) ≡ false
    valid = ground (arith, ok.some_char, ok.fits)

    go :
        {b : Bool} {e' : Block} {ofs : ℕ}
        → lookup st dir granted e name ≡ some (b, e', ofs)
        → Looked st dir i found on name b e'
        → (b : Bool) × (st' : Inodes) × (dir_add st dir granted granted true e name sector
            ≡ some (b, st'))
          × Added st i.inode_data name sector b st'
    go look (somewhere holds) = (false, st, rw (valid, look) refl, listed _ holds)
    go look (nowhere missing) =
        let (b, e', ofs, run, s) =
          scan_all-Scanned st dir i found on (λ e. not (in_use e)) unused-Reads 0 e in
        let (b', st', did, a) =
          add_at-Added st dir i found on name sector writable ok small missing s in
        (b', st', rw (valid, look, run) did, a)

-- `dir_lookup` of a name of at most 14 characters in a directory on the disk, when every `malloc` of a bounce buffer
-- succeeds, opens the inode of a sector that the directory has for the name, or returns false when
-- it has none, with nothing changed.
pub dir_lookup-Holds :
    (st : Inodes) (dir : Dir) (i : OpenInode) (room : Bool) (e : Block) (name : List ℕ)
    → find_inode st.open_inodes dir.inode ≡ some i
    → OnDisk st.disk i.inode_data
    → length name ≤ name_max
    → ((s : ℕ) × (dir_lookup st dir granted room e name ≡ inode_open st s room)
        × Holds st.disk i.inode_data name s)
      ⊎ ((dir_lookup st dir granted room e name ≡ some (none, st))
          × Missing st.disk i.inode_data name)
unfolding dir_lookup
dir_lookup-Holds st dir i room e name found on h =
    let (b, e', ofs, look, l) = lookup-Looked st dir i found on e name h in go look l
  where
    go :
        {b : Bool} {e' : Block} {ofs : ℕ}
        → lookup st dir granted e name ≡ some (b, e', ofs)
        → Looked st dir i found on name b e'
        → ((s : ℕ) × (dir_lookup st dir granted room e name ≡ inode_open st s room)
            × Holds st.disk i.inode_data name s)
          ⊎ ((dir_lookup st dir granted room e name ≡ some (none, st))
              × Missing st.disk i.inode_data name)
    go {e' = e'} look (somewhere holds) = inl (inode_sector e', rw look refl, holds)
    go look (nowhere missing) = inr (rw look refl, missing)
