-- ===== src/Directory.antt =====
-- filesys/directory.c: directories, which are files of entries of 20 bytes: the sector of an inode in 4 bytes, a name
-- in 15, and whether the entry is in use in the last one. A name is the list of its characters, without the
-- null character behind them. Whether the `malloc` of a bounce buffer succeeds is a parameter for each read of
-- a loop, by its offset, and one for the write. The outer `none` is a failed ASSERT, or a loop that ran out of fuel.
pub mod Slots
pub mod Names
pub mod Scan
pub mod Add
pub mod Map
pub mod Remove
mod Tests
use tddb.Base.{
  ℕ, zero, suc, ◌+◌, ◌-◌, ◌*◌, ◌/◌, ◌%◌, ◌^◌, Bool, true, false, not, ◌&&◌, ◌||◌, Option, none,
  some, List, [], ◌∷◌, ◌==◌, ltb, if◌then◌else◌, ◌>>=◌, length,
}
use tddb.Base.Members.{update}
use tddb.Inode.{Block, inode_read_at, inode_write_at}
use tddb.Inodes.{
  Inodes, word_at, byte_of, find_inode, inode_create, inode_open, inode_reopen, inode_close,
  inode_remove,
}

-- `struct dir`; `inode` is the sector of its open inode.
pub record Dir : Type 0 where
  pub inode : ℕ
  pub pos : ℕ

-- `sizeof (struct dir_entry)` and `NAME_MAX`
abbrev pub entry_size : ℕ
entry_size = 20

abbrev pub name_max : ℕ
name_max = 14

-- `e.inode_sector`, `e.in_use` and `e.name` of an entry in its bytes
abbrev pub inode_sector : Block → ℕ
inode_sector e = word_at e 0

abbrev pub in_use : Block → Bool
in_use e = not (e 19 == 0)

-- `!strcmp (name, e + p)`
abbrev pub is_name : List ℕ → Block → ℕ → Bool
is_name [] e p = e p == 0
is_name (c ∷ cs) e p = (e p == c) && is_name cs e (p + 1)

-- `strlcpy (e + p, name, ...)` of a name that has room
abbrev pub put_name : Block → ℕ → List ℕ → Block
put_name e p [] = update e p 0
put_name e p (c ∷ cs) = put_name (update e p c) (p + 1) cs

-- `e.inode_sector = sector`
abbrev pub put_sector : Block → ℕ → Block
put_sector e sector b = if ltb b 4 then byte_of sector b else e b

-- `inode_read_at (dir->inode, &e, sizeof e, ofs)`: the entry and how many of its bytes were read
unfoldable pub read_entry : Inodes → Dir → Bool → Block → ℕ → Option (Block × ℕ)
read_entry st dir bounce e ofs = find_inode st.open_inodes dir.inode >>= λ i.
    inode_read_at st.disk i.inode_data e bounce 0 entry_size ofs

-- `inode_write_at (dir->inode, &e, sizeof e, ofs)`
unfoldable pub write_entry : Inodes → Dir → Bool → Block → ℕ → Option (Inodes × ℕ)
write_entry st dir bounce e ofs = find_inode st.open_inodes dir.inode >>= λ i.
    inode_write_at st.disk i.inode_data i.deny_write_cnt e bounce 0 entry_size ofs >>= λ r.
    some (record st { disk = r.0 }, r.1)

-- Memory for every bounce buffer
abbrev pub granted : ℕ → Bool
granted ofs = true

-- The loops over the entries: whether `stop` held of one, which is then `e` at the offset, or else the loop came to
-- a short read there.
unfoldable pub scan :
    ℕ → (Block → Bool) → Inodes → Dir → (ℕ → Bool) → Block → ℕ → Option (Bool × Block × ℕ)
scan zero stop st dir bounce e ofs = none
scan (suc fuel) stop st dir bounce e ofs = read_entry st dir (bounce ofs) e ofs >>= λ r.
    let rest = scan fuel stop st dir bounce (r.0) (ofs + entry_size) in
    if r.1 == entry_size
    then (if stop (r.0) then some (true, r.0, ofs) else rest)
    else some (false, r.0, ofs)

-- A round passes one entry of the file.
unfoldable pub scan_all :
    (Block → Bool) → Inodes → Dir → (ℕ → Bool) → Block → ℕ → Option (Bool × Block × ℕ)
scan_all stop st dir bounce e ofs = find_inode st.open_inodes dir.inode >>= λ i.
    scan (i.inode_data.length + 1) stop st dir bounce e ofs

-- the test of `lookup`
abbrev pub is_entry : List ℕ → Block → Bool
is_entry name e = in_use e && is_name name e 4

-- `lookup`; `e` is what the variable of this name holds before.
unfoldable pub lookup : Inodes → Dir → (ℕ → Bool) → Block → List ℕ → Option (Bool × Block × ℕ)
lookup st dir bounce e name = scan_all (is_entry name) st dir bounce e 0

unfoldable pub dir_create : Inodes → ℕ → ℕ → Bool → Bool → Option (Bool × Inodes)
dir_create st sector entry_cnt room written =
    inode_create st sector (entry_cnt * entry_size) room written

unfoldable pub dir_open : Inodes → Option ℕ → Bool → Option (Option Dir × Inodes)
dir_open st (some h) true = some (some (record { inode = h; pos = 0 }), st)
dir_open st (some h) false = inode_close st (some h) >>= λ st'. some (none, st')
dir_open st none room = some (none, st)

-- `ROOT_DIR_SECTOR` is 1.
unfoldable pub dir_open_root : Inodes → Bool → Bool → Option (Option Dir × Inodes)
dir_open_root st room room2 = inode_open st 1 room >>= λ r. dir_open (r.1) (r.0) room2

unfoldable pub dir_reopen : Inodes → Dir → Bool → Option (Option Dir × Inodes)
dir_reopen st dir room = inode_reopen st (some dir.inode) >>= λ r. dir_open (r.1) (r.0) room

unfoldable pub dir_close : Inodes → Option Dir → Option Inodes
dir_close st none = some st
dir_close st (some dir) = inode_close st (some dir.inode)

unfoldable pub dir_lookup :
    Inodes → Dir → (ℕ → Bool) → Bool → Block → List ℕ → Option (Option ℕ × Inodes)
dir_lookup st dir bounce room e name = lookup st dir bounce e name >>= λ r.
    if r.0 then inode_open st (inode_sector (r.1)) room else some (none, st)

-- `dir_add` behind its loop: the slot at `ofs` is written.
unfoldable pub add_at : Inodes → Dir → Bool → List ℕ → ℕ → Block → ℕ → Option (Bool × Inodes)
add_at st dir bounce name sector e ofs =
    write_entry st dir bounce (put_sector (put_name (update e 19 1) 4 name) sector) ofs >>= λ r.
    some (r.1 == entry_size, r.0)

unfoldable pub dir_add :
    Inodes → Dir → (ℕ → Bool) → (ℕ → Bool) → Bool → Block → List ℕ → ℕ → Option (Bool × Inodes)
dir_add st dir bounce slot_bounce write_bounce e name sector =
    if (length name == 0) || ltb name_max (length name)
    then some (false, st)
    else (lookup st dir bounce e name >>= λ r.
        if r.0
        then some (false, st)
        else (scan_all (λ e. not (in_use e)) st dir slot_bounce e 0 >>= λ r'.
            add_at st dir write_bounce name sector (r'.1) (r'.2)))

-- `dir_remove` after `lookup`, once its inode is open
unfoldable pub erase : Inodes → Dir → Bool → Block → ℕ → Option ℕ → Option (Bool × Inodes)
erase st dir bounce e ofs none = some (false, st)
erase st dir bounce e ofs (some inode) = write_entry st dir bounce (update e 19 0) ofs >>= λ r.
    if r.1 == entry_size
    then (inode_remove (r.0) inode >>= λ st2.
        inode_close st2 (some inode) >>= λ st3. some (true, st3))
    else (inode_close (r.0) (some inode) >>= λ st2. some (false, st2))

unfoldable pub dir_remove :
    Inodes → Dir → (ℕ → Bool) → Bool → Bool → Block → List ℕ → Option (Bool × Inodes)
dir_remove st dir bounce write_bounce room e name = lookup st dir bounce e name >>= λ r.
    if r.0
    then (inode_open st (inode_sector (r.1)) room >>= λ o.
        erase (o.1) dir write_bounce (r.1) (r.2) (o.0))
    else some (false, st)

-- the name at `p` of an entry, at most `n` characters of it
abbrev pub name_at : ℕ → Block → ℕ → List ℕ
name_at zero e p = []
name_at (suc n) e p = if e p == 0 then [] else (e p ∷ name_at n e (p + 1))

-- `none` is the result `false`.
unfoldable pub dir_readdir : Inodes → Dir → (ℕ → Bool) → Block → Option (Option (List ℕ) × Dir)
dir_readdir st dir bounce e = scan_all in_use st dir bounce e dir.pos >>= λ r.
    if r.0
    then some (some (name_at name_max (r.1) 4), record dir { pos = r.2 + entry_size })
    else some (none, record dir { pos = r.2 })
