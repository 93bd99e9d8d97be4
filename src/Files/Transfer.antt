-- ===== src/Files/Transfer.antt =====
-- Reading and writing through open files.
use tddb.Base.{
  ℕ, ◌+◌, ◌-◌, ◌<◌, Bool, true, false, Option, some, ◌≡◌, ◌≢◌, refl, sym, ap, ◌∙◌, arith, ==_ne,
  le→leb, lt→ltb,
}
use tddb.Strings.{Memory}
use tddb.Inode.{inode_write_at}
use tddb.Inode.Layout.{OnDisk, available}
use tddb.Inode.Write.{inode_write_at-inode_read_at}
use tddb.Inodes.{
  OpenInode, Inodes, find_inode, change, change_open, inode_deny_write, inode_allow_write,
}
use tddb.Inodes.OpenList.{find-change, change-back}
use tddb.Files.{File, file_read, file_write, file_seek, file_deny_write, file_allow_write}

-- Through a file on the disk whose inode may be written, when the `malloc` of the bounce buffer succeeds in both calls: what `file_write` wrote is read back by `file_read` after a seek to where
-- the write began, into any buffer of any memory; both return the number of bytes asked for that the file
-- has there, and both move the position by it.
pub file_write-file_read :
    (st : Inodes) (f : File) (i : OpenInode) (m m2 : Memory) (buffer buffer2 size : ℕ)
    → find_inode st.open_inodes f.inode ≡ some i
    → i.deny_write_cnt ≡ 0
    → OnDisk st.disk i.inode_data
    → (f1 f2 : File) × (st' : Inodes) × (m' : Memory) × (file_write st m true f buffer size
        ≡ some (f1, st', available i.inode_data size f.pos))
      × (file_read st' m2 true (file_seek f1 f.pos) buffer2 size
          ≡ some (f2, m', available i.inode_data size f.pos))
      × ((k : ℕ) → k < available i.inode_data size f.pos → m' (buffer2 + k) ≡ m (buffer + k))
      × (f1.pos ≡ f.pos + available i.inode_data size f.pos)
      × (f2 ≡ f1)
unfolding file_write file_read
file_write-file_read st f i m m2 buffer buffer2 size e writable on =
    let (d', m', wrote, did, same) =
      inode_write_at-inode_read_at st.disk i.inode_data m m2 buffer buffer2 size f.pos on in
    (
      record f { pos = f.pos + available i.inode_data size f.pos },
      record f { pos = f.pos + available i.inode_data size f.pos },
      record st { disk = d' },
      m',
      rw (e, writable, wrote),
      rw (e, did),
      same,
      refl,
      refl,
    )

-- While writes to the inode of a file are denied, `file_write` writes nothing and returns 0.
pub file_write-denied :
    (st : Inodes) (f : File) (i : OpenInode) (m : Memory) (bounce : Bool) (buffer size : ℕ)
    → find_inode st.open_inodes f.inode ≡ some i
    → i.deny_write_cnt ≢ 0
    → (f' : File) × (file_write st m bounce f buffer size ≡ some (f', st, 0)) × (f' ≡ f)
unfolding file_write inode_write_at
file_write-denied st f i m bounce buffer size e denied = (
  record f { pos = f.pos + 0 },
  rw (e, ==_ne i.deny_write_cnt 0 denied),
  ap (λ n. record f { pos = n }) (omega arith),
)

abbrev denied_once : OpenInode → OpenInode
denied_once i = record i { deny_write_cnt = i.deny_write_cnt + 1 }

abbrev allowed_once : OpenInode → OpenInode
allowed_once i = record i { deny_write_cnt = i.deny_write_cnt - 1 }

-- A file that denies writes: afterwards no file with this inode can write, and to allow them again restores the
-- state and the file.
pub file_deny_write-file_allow_write :
    (st : Inodes) (f : File) (i : OpenInode)
    → find_inode st.open_inodes f.inode ≡ some i
    → f.deny_write ≡ false
    → i.deny_write_cnt < i.open_cnt
    → (f' : File) × (st' : Inodes) × (i' : OpenInode) × (file_deny_write st f ≡ some (f', st'))
      × (find_inode st'.open_inodes f.inode ≡ some i')
      × (i'.deny_write_cnt ≢ 0)
      × (file_allow_write st' f' ≡ some (f, st))
unfolding file_deny_write file_allow_write inode_deny_write inode_allow_write
file_deny_write-file_allow_write st f i e may few = (
  record f { deny_write = true },
  change_open st f.inode denied_once,
  denied_once i,
  rw (may, e, le→leb (i.deny_write_cnt + 1) i.open_cnt (omega (arith, few))),
  found,
  omega arith,
  rw
      (
        found,
        lt→ltb 0 (i.deny_write_cnt + 1) (omega arith),
        le→leb (i.deny_write_cnt + 1) i.open_cnt (omega (arith, few)),
      )
      back,
)
  where
    found : find_inode (change st.open_inodes f.inode denied_once) f.inode ≡ some (denied_once i)
    found = find-change st.open_inodes f.inode denied_once (λ i. refl) e

    undone : (i : OpenInode) → allowed_once (denied_once i) ≡ i
    undone i = ap (λ n. record i { deny_write_cnt = n }) (omega arith)

    back :
        ◌≡◌ {A = Option (File × Inodes)}
          (some (
            record f { deny_write = false },
            change_open (change_open st f.inode denied_once) f.inode allowed_once,
          ))
          (some (f, st))
    back =
        let same_file : record f { deny_write = false } ≡ f =
          ap (λ b. record f { deny_write = b }) (sym may) in
        let same_list =
          change-back st.open_inodes f.inode denied_once allowed_once (λ i. refl) undone in
        ap (λ l. some (record f { deny_write = false }, record st { open_inodes = l })) same_list
        ∙ ap (λ g. some (g, st)) same_file
