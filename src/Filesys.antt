-- ===== src/Filesys.antt =====
-- filesys/filesys.c: the operations on named files, over the root directory. The outer `none` is a failed ASSERT.
pub mod Create
mod Tests
use tddb.Base.{
  ℕ, Bool, true, false, not, ◌&&◌, Option, none, some, List, ◌==◌, if◌then◌else◌, ◌>>=◌,
}
use tddb.Inode.{Block}
use tddb.FreeMap.{FreeMap, free_map_allocate, free_map_release}
use tddb.Inodes.{Inodes, inode_create}
use tddb.Directory.{Dir, dir_open_root, dir_close, dir_lookup, dir_add, dir_remove}
use tddb.Files.{File, file_open}

-- Which allocations of memory succeed, whether the free map was written to its file, and what the local
-- `struct dir_entry` of directory.c holds before
pub record Outcome : Type 0 where
  pub open_room : Bool
  pub dir_room : Bool
  pub create_room : Bool
  pub bounce : ℕ → Bool
  pub slot_bounce : ℕ → Bool
  pub write_bounce : Bool
  pub file_room : Bool
  pub written : Bool
  pub entry : Block

-- `inode_create (...) && dir_add (...)`
unfoldable pub create_entry : Inodes → Outcome → Dir → List ℕ → ℕ → ℕ → Option (Bool × Inodes)
create_entry st o dir name inode_sector initial_size =
    inode_create st inode_sector initial_size o.create_room o.written >>= λ r.
    if r.0
    then dir_add (r.1) dir o.bounce o.slot_bounce o.write_bounce o.entry name inode_sector
    else some (false, r.1)

-- `if (!success && inode_sector != 0) free_map_release (inode_sector, 1);`
unfoldable pub undo_create : Bool → Inodes → ℕ → Option Inodes
undo_create success st inode_sector =
    if not success && not (inode_sector == 0)
    then (free_map_release st.free_map inode_sector 1 >>= λ map.
        some (record st { free_map = map }))
    else some st

-- `filesys_create` after the allocation of the inode's sector
unfoldable pub create_in :
    Inodes → Outcome → Dir → List ℕ → ℕ → Option ℕ × FreeMap → Option (Bool × Inodes)
create_in st o dir name initial_size (none, map) = some (false, record st { free_map = map })
create_in st o dir name initial_size (some inode_sector, map) =
    create_entry (record st { free_map = map }) o dir name inode_sector initial_size >>= λ r.
    undo_create (r.0) (r.1) inode_sector >>= λ st'. some (r.0, st')

-- `filesys_create` once the root directory is open
unfoldable pub create_root : Inodes → Outcome → List ℕ → ℕ → Option Dir → Option (Bool × Inodes)
create_root st o name initial_size none = some (false, st)
create_root st o name initial_size (some dir) = free_map_allocate st.free_map 1 o.written >>= λ a.
    create_in st o dir name initial_size a >>= λ r.
    dir_close (r.1) (some dir) >>= λ st'. some (r.0, st')

unfoldable pub filesys_create : Inodes → Outcome → List ℕ → ℕ → Option (Bool × Inodes)
filesys_create st o name initial_size =
    dir_open_root st o.open_room o.dir_room >>= λ d. create_root (d.1) o name initial_size (d.0)

-- `dir_lookup` in the root directory, and its closing
unfoldable pub lookup_root : Inodes → Outcome → List ℕ → Option Dir → Option (Option ℕ × Inodes)
lookup_root st o name none = some (none, st)
lookup_root st o name (some dir) = dir_lookup st dir o.bounce o.open_room o.entry name >>= λ r.
    dir_close (r.1) (some dir) >>= λ st'. some (r.0, st')

unfoldable pub filesys_open : Inodes → Outcome → List ℕ → Option (Option File × Inodes)
filesys_open st o name = dir_open_root st o.open_room o.dir_room >>= λ d.
    lookup_root (d.1) o name (d.0) >>= λ r. file_open (r.1) (r.0) o.file_room

unfoldable pub remove_root : Inodes → Outcome → List ℕ → Option Dir → Option (Bool × Inodes)
remove_root st o name none = some (false, st)
remove_root st o name (some dir) =
    dir_remove st dir o.bounce o.write_bounce o.open_room o.entry name >>= λ r.
    dir_close (r.1) (some dir) >>= λ st'. some (r.0, st')

unfoldable pub filesys_remove : Inodes → Outcome → List ℕ → Option (Bool × Inodes)
filesys_remove st o name =
    dir_open_root st o.open_room o.dir_room >>= λ d. remove_root (d.1) o name (d.0)
