-- ===== src/Files.antt =====
-- filesys/file.c: open files over open inodes. A null file or inode is `none`; whether memory is at hand is a
-- parameter. The outer `none` is a failed ASSERT, or a null inode that is dereferenced.
pub mod Transfer
mod Tests
use tddb.Base.{
  ℕ, ◌+◌, Bool, true, false, not, Option, none, some, ◌>>=◌, ◌>>◌, assert, if◌then◌else◌,
}
use tddb.Strings.{Memory}
use tddb.Inode.{Disk, inode_read_at, inode_write_at}
use tddb.Inodes.{
  OpenInode, Inodes, find_inode, inode_reopen, inode_close, inode_deny_write, inode_allow_write,
}

-- `struct file`; `inode` is the sector of its open inode.
pub record File : Type 0 where
  pub inode : ℕ
  pub pos : ℕ
  pub deny_write : Bool

unfoldable pub file_open : Inodes → Option ℕ → Bool → Option (Option File × Inodes)
file_open st (some h) true = some (some (record { inode = h; pos = 0; deny_write = false }), st)
file_open st (some h) false = inode_close st (some h) >>= λ st'. some (none, st')
file_open st none room = some (none, st)

unfoldable pub file_reopen : Inodes → File → Bool → Option (Option File × Inodes)
file_reopen st f room = inode_reopen st (some f.inode) >>= λ r. file_open (r.1) (r.0) room

unfoldable pub file_deny_write : Inodes → File → Option (File × Inodes)
file_deny_write st f =
    if f.deny_write
    then some (f, st)
    else (inode_deny_write st f.inode >>= λ st'. some (record f { deny_write = true }, st'))

unfoldable pub file_allow_write : Inodes → File → Option (File × Inodes)
file_allow_write st f =
    if f.deny_write
    then (inode_allow_write st f.inode >>= λ st'. some (record f { deny_write = false }, st'))
    else some (f, st)

unfoldable pub file_close : Inodes → Option File → Option Inodes
file_close st none = some st
file_close st (some f) = file_allow_write st f >>= λ r. inode_close (r.1) (some f.inode)

unfoldable pub file_read_at : Inodes → Memory → Bool → File → ℕ → ℕ → ℕ → Option (Memory × ℕ)
file_read_at st m bounce f buffer size file_ofs = do
  i ← find_inode st.open_inodes f.inode
  inode_read_at st.disk i.inode_data m bounce buffer size file_ofs

unfoldable pub file_read : Inodes → Memory → Bool → File → ℕ → ℕ → Option (File × Memory × ℕ)
file_read st m bounce f buffer size = do
  i ← find_inode st.open_inodes f.inode
  r ← inode_read_at st.disk i.inode_data m bounce buffer size f.pos
  some (record f { pos = f.pos + r.1 }, r.0, r.1)

unfoldable pub file_write_at : Inodes → Memory → Bool → File → ℕ → ℕ → ℕ → Option (Inodes × ℕ)
file_write_at st m bounce f buffer size file_ofs = do
  i ← find_inode st.open_inodes f.inode
  r ← inode_write_at st.disk i.inode_data i.deny_write_cnt m bounce buffer size file_ofs
  some (record st { disk = r.0 }, r.1)

unfoldable pub file_write : Inodes → Memory → Bool → File → ℕ → ℕ → Option (File × Inodes × ℕ)
file_write st m bounce f buffer size = do
  i ← find_inode st.open_inodes f.inode
  r ← inode_write_at st.disk i.inode_data i.deny_write_cnt m bounce buffer size f.pos
  some (record f { pos = f.pos + r.1 }, record st { disk = r.0 }, r.1)

unfoldable pub file_length : Inodes → File → Option ℕ
file_length st f = do i ← find_inode st.open_inodes f.inode; some (i.inode_data.length)

abbrev pub file_seek : File → ℕ → File
file_seek f new_pos = record f { pos = new_pos }

abbrev pub file_tell : File → ℕ
file_tell f = f.pos
