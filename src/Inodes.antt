-- ===== src/Inodes.antt =====
-- filesys/inode.c: creating inodes on the disk, and the list of open inodes. No two open inodes have the same
-- sector, so a pointer to an open inode is its sector, and a null pointer is `none`. Whether an
-- allocation of memory succeeds is a parameter. The outer `none` is a failed ASSERT.
pub mod OpenList
pub mod Count
pub mod Create
mod Tests
use tddb.Base.{
  ℕ, zero, suc, ◌+◌, ◌-◌, ◌*◌, ◌/◌, ◌%◌, ◌^◌, Bool, true, false, not, Option, none, some, List, [],
  ◌∷◌, ◌==◌, ltb, leb, if◌then◌else◌, ◌>>=◌, ◌>>◌, assert,
}
use tddb.Inode.{Disk, Block, InodeDisk, bytes_to_sectors, disk_read, disk_write}
use tddb.FreeMap.{FreeMap, free_map_allocate, free_map_release}

-- `struct inode`
pub record OpenInode : Type 0 where
  pub sector : ℕ
  pub open_cnt : ℕ
  pub removed : Bool
  pub deny_write_cnt : ℕ
  pub inode_data : InodeDisk

-- What the file system keeps: `open_inodes`, `free_map` and the disk.
pub record Inodes : Type 0 where
  pub open_inodes : List OpenInode
  pub free_map : FreeMap
  pub disk : Disk

-- `INODE_MAGIC`
abbrev pub inode_magic : ℕ
inode_magic = 1229868868

-- byte `k` of a 32-bit number, the low one first
abbrev pub byte_of : ℕ → ℕ → ℕ
byte_of w k = w / 256 ^ k % 256

-- `struct inode_disk` as the bytes of its sector, and back
abbrev pub encode : InodeDisk → Block
encode i b =
    if ltb b 4
    then byte_of i.start b
    else if ltb b 8
    then byte_of i.length (b - 4)
    else if ltb b 12
    then byte_of inode_magic (b - 8)
    else 0

abbrev pub word_at : Block → ℕ → ℕ
word_at block k = block k + 256 * block (k + 1) + 65536 * block (k + 2) + 16777216 * block (k + 3)

abbrev pub decode : Block → InodeDisk
decode block = record { start = word_at block 0; length = word_at block 4 }

-- the rounds of the loop that writes zeros from sector `start + i` on; `n` are left
unfoldable pub zero_sectors : Disk → ℕ → ℕ → ℕ → Option Disk
zero_sectors d start i zero = some d
zero_sectors d start i (suc n) =
    disk_write d (start + i) (λ b. 0) >>= λ d'. zero_sectors d' start (suc i) n

-- `inode_create` behind the allocation of its sectors
unfoldable pub create_at : Inodes → ℕ → ℕ → Option ℕ × FreeMap → Option (Bool × Inodes)
create_at st sector length (none, map) = some (false, record st { free_map = map })
create_at st sector length (some start, map) = do
  d ← disk_write st.disk sector (encode (record { start = start; length = length }))
  d' ← zero_sectors d start 0 (bytes_to_sectors length)
  some (true, record st { free_map = map; disk = d' })

unfoldable pub inode_create : Inodes → ℕ → ℕ → Bool → Bool → Option (Bool × Inodes)
inode_create st sector length room written =
    assert (ltb length (2 ^ 31))
    >> (if room
        then free_map_allocate st.free_map (bytes_to_sectors length) written
          >>= create_at st sector length
        else some (false, st))

abbrev pub find_inode : List OpenInode → ℕ → Option OpenInode
find_inode [] sector = none
find_inode (i ∷ is) sector = if i.sector == sector then some i else find_inode is sector

-- a write to the struct behind the pointer
abbrev pub change : List OpenInode → ℕ → (OpenInode → OpenInode) → List OpenInode
change [] sector f = []
change (i ∷ is) sector f = if i.sector == sector then f i ∷ is else (i ∷ change is sector f)

-- `list_remove (&inode->elem)`
abbrev pub remove_elem : List OpenInode → ℕ → List OpenInode
remove_elem [] sector = []
remove_elem (i ∷ is) sector = if i.sector == sector then is else (i ∷ remove_elem is sector)

abbrev pub change_open : Inodes → ℕ → (OpenInode → OpenInode) → Inodes
change_open st sector f = record st { open_inodes = change st.open_inodes sector f }

unfoldable pub inode_reopen : Inodes → Option ℕ → Option (Option ℕ × Inodes)
inode_reopen st none = some (none, st)
inode_reopen st (some h) = do
  i ← find_inode st.open_inodes h
  assert (not (i.open_cnt == 0))
  some (some h, change_open st h (λ i. record i { open_cnt = i.open_cnt + 1 }))

-- `inode_open` when the loop over the open inodes found `i`, or none
unfoldable pub open_found : Inodes → ℕ → Bool → Option OpenInode → Option (Option ℕ × Inodes)
open_found st sector room (some i) = inode_reopen st (some sector)
open_found st sector false none = some (none, st)
open_found st sector true none = do
  block ← disk_read st.disk sector
  let i : OpenInode = record {
    sector = sector;
    open_cnt = 1;
    removed = false;
    deny_write_cnt = 0;
    inode_data = decode block;
  }
  some (some sector, record st { open_inodes = i ∷ st.open_inodes })

unfoldable pub inode_open : Inodes → ℕ → Bool → Option (Option ℕ × Inodes)
inode_open st sector room = open_found st sector room (find_inode st.open_inodes sector)

-- `inode_close` after the count came to 0 and the inode left the list
unfoldable pub release_removed : Inodes → OpenInode → Option Inodes
release_removed st i =
    if i.removed
    then (free_map_release st.free_map i.sector 1 >>= λ m1.
        free_map_release m1 i.inode_data.start (bytes_to_sectors i.inode_data.length) >>= λ m2.
        some (record st { free_map = m2 }))
    else some st

-- `--n` of an int, as its 32 bits
abbrev pub one_less : ℕ → ℕ
one_less n = if n == 0 then 2 ^ 32 - 1 else n - 1

unfoldable pub inode_close : Inodes → Option ℕ → Option Inodes
inode_close st none = some st
inode_close st (some h) = do
  i ← find_inode st.open_inodes h
  if one_less i.open_cnt == 0
      then release_removed (record st { open_inodes = remove_elem st.open_inodes h }) i
      else some (change_open st h (λ i. record i { open_cnt = one_less i.open_cnt }))

unfoldable pub inode_remove : Inodes → ℕ → Option Inodes
inode_remove st h = do
  i ← find_inode st.open_inodes h
  some (change_open st h (λ i. record i { removed = true }))

unfoldable pub inode_deny_write : Inodes → ℕ → Option Inodes
inode_deny_write st h = do
  i ← find_inode st.open_inodes h
  assert (leb (i.deny_write_cnt + 1) i.open_cnt)
  some (change_open st h (λ i. record i { deny_write_cnt = i.deny_write_cnt + 1 }))

unfoldable pub inode_allow_write : Inodes → ℕ → Option Inodes
inode_allow_write st h = do
  i ← find_inode st.open_inodes h
  assert (ltb 0 i.deny_write_cnt)
  assert (leb i.deny_write_cnt i.open_cnt)
  some (change_open st h (λ i. record i { deny_write_cnt = i.deny_write_cnt - 1 }))
