-- ===== src/Process.antt =====
-- userprog/process.c: the segments of an executable. The pages of a process are a map from the addresses of user pages
-- to their bytes and whether the process may write them; a page from the user pool is no part of any
-- other object, so it is a memory of its own. Which page tables can be allocated is a parameter, and so is
-- whether the bounce buffers of all reads of a segment can. Numbers are 32 bits wide. `none` is a failed ASSERT, or a loop that ran out of fuel.
pub mod Segment
pub mod Pages
pub mod Load
mod Tests
use tddb.Base.{
  ℕ, zero, suc, ◌+◌, ◌-◌, ◌*◌, ◌/◌, ◌%◌, ◌^◌, Bool, true, false, not, ◌&&◌, ◌||◌, Option, none,
  some, ◌==◌, ltb, leb, if◌then◌else◌, ◌>>=◌, ◌>>◌, assert,
}
use tddb.Base.Members.{update}
use tddb.Strings.{Memory, fill}
use tddb.Inode.{Block}
use tddb.Inodes.{Inodes}
use tddb.Files.{File, file_read, file_seek}

-- `PGSIZE` and `PHYS_BASE`
abbrev pub page_size : ℕ
page_size = 4096

abbrev pub phys_base : ℕ
phys_base = 3221225472

-- `pg_ofs`, and `& ~PGMASK`
abbrev pub pg_ofs : ℕ → ℕ
pg_ofs va = va % page_size

abbrev pub pg_round_down : ℕ → ℕ
pg_round_down va = va - va % page_size

abbrev pub is_user_vaddr : ℕ → Bool
is_user_vaddr va = ltb va phys_base

-- `+` and `-` on 32 bits
abbrev pub add32 : ℕ → ℕ → ℕ
add32 a b = (a + b) % 2 ^ 32

abbrev pub sub32 : ℕ → ℕ → ℕ
sub32 a b = (a + 2 ^ 32 - b) % 2 ^ 32

-- `ROUND_UP (x, PGSIZE)`
abbrev pub round_up : ℕ → ℕ
round_up x = sub32 (add32 x page_size) 1 / page_size * page_size

-- `struct Elf32_Phdr`, the fields that are read
pub record Phdr : Type 0 where
  pub p_offset : ℕ
  pub p_vaddr : ℕ
  pub p_filesz : ℕ
  pub p_memsz : ℕ
  pub p_flags : ℕ

unfoldable pub validate_segment : Phdr → ℕ → Bool
validate_segment phdr file_length =
    if not (pg_ofs phdr.p_offset == pg_ofs phdr.p_vaddr)
    then false
    else if ltb file_length phdr.p_offset
    then false
    else if ltb phdr.p_memsz phdr.p_filesz
    then false
    else if phdr.p_memsz == 0
    then false
    else if not (is_user_vaddr phdr.p_vaddr)
    then false
    else if not (is_user_vaddr (add32 phdr.p_vaddr phdr.p_memsz))
    then false
    else if ltb (add32 phdr.p_vaddr phdr.p_memsz) phdr.p_vaddr
    then false
    else if ltb phdr.p_vaddr page_size
    then false
    else true

-- How much `load` asks `load_segment` to read and to set to zero
abbrev pub read_bytes : Phdr → ℕ
read_bytes phdr = if ltb 0 phdr.p_filesz then add32 (pg_ofs phdr.p_vaddr) phdr.p_filesz else 0

abbrev pub zero_bytes : Phdr → ℕ
zero_bytes phdr =
    if ltb 0 phdr.p_filesz
    then sub32 (round_up (add32 (pg_ofs phdr.p_vaddr) phdr.p_memsz)) (read_bytes phdr)
    else round_up (add32 (pg_ofs phdr.p_vaddr) phdr.p_memsz)

-- The pages that the user pool has left, and those of the process.
pub record Space : Type 0 where
  pub free_pages : ℕ
  pub pages : ℕ → Option (Block × Bool)

abbrev pub is_null : {A : Type 0} → Option A → Bool
is_null none = true
is_null (some a) = false

-- `pagedir_get_page (pd, upage) == NULL && pagedir_set_page (pd, upage, kpage, writable)`
unfoldable pub install_page : (ℕ → Bool) → Space → ℕ → Block → Bool → Option (Bool × Space)
install_page tables sp upage kpage writable =
    assert (is_user_vaddr upage)
    >> (if is_null (sp.pages upage)
        then (assert (pg_ofs upage == 0)
            >> some (
                if tables upage
                then (true, record sp { pages = update sp.pages upage (some (kpage, writable)) })
                else (false, sp)))
        else some (false, sp))

abbrev pub take_page : Space → Space
take_page sp = record sp { free_pages = sp.free_pages - 1 }

abbrev pub give_page : Space → Space
give_page sp = record sp { free_pages = sp.free_pages + 1 }

-- `palloc_free_page (kpage); return false;`
abbrev pub give_up : File → Space → Option (Bool × File × Space)
give_up f sp = some (false, f, give_page sp)

-- The loop of `load_segment`; `fresh` is what is in a page from the pool.
unfoldable pub load_pages :
    ℕ
    → Inodes
    → Bool
    → (ℕ → Bool)
    → Block
    → File
    → Space
    → ℕ
    → ℕ
    → ℕ
    → Bool
    → Option (Bool × File × Space)
load_pages zero st bounce tables fresh f sp upage read_bytes zero_bytes writable = none
load_pages (suc fuel) st bounce tables fresh f sp upage read_bytes zero_bytes writable =
    let page_read_bytes = if ltb read_bytes page_size then read_bytes else page_size in
    let page_zero_bytes = page_size - page_read_bytes in
    if not (ltb 0 read_bytes || ltb 0 zero_bytes)
    then some (true, f, sp)
    else if sp.free_pages == 0
    then some (false, f, sp)
    else (file_read st fresh bounce f 0 page_read_bytes >>= λ r.
        if not (r.2 == page_read_bytes)
        then give_up (r.0) (take_page sp)
        else (install_page tables (take_page sp) upage
              (fill (r.1) page_read_bytes 0 page_zero_bytes) writable
            >>= λ p.
                let rest =
                  load_pages fuel st bounce tables fresh (r.0) (p.1) (upage + page_size)
                    (sub32 read_bytes page_read_bytes) (sub32 zero_bytes page_zero_bytes)
                    writable in
                if not (p.0) then give_up (r.0) (p.1) else rest))

-- Each round is for a page.
unfoldable pub load_segment :
    Inodes
    → Bool
    → (ℕ → Bool)
    → Block
    → File
    → Space
    → ℕ
    → ℕ
    → ℕ
    → ℕ
    → Bool
    → Option (Bool × File × Space)
load_segment st bounce tables fresh f sp ofs upage read_bytes zero_bytes writable = do
  assert (add32 read_bytes zero_bytes % page_size == 0)
  assert (pg_ofs upage == 0)
  assert (ofs % page_size == 0)
  load_pages (2 ^ 20 + 1) st bounce tables fresh (file_seek f ofs) sp upage read_bytes zero_bytes
      writable

-- The `PT_LOAD` case of `load`; `PF_W` is bit 1.
unfoldable pub load_phdr :
    Inodes → Bool → (ℕ → Bool) → Block → File → Space → Phdr → ℕ → Option (Bool × File × Space)
load_phdr st bounce tables fresh f sp phdr file_length =
    if validate_segment phdr file_length
    then load_segment st bounce tables fresh f sp (pg_round_down phdr.p_offset)
        (pg_round_down phdr.p_vaddr) (read_bytes phdr) (zero_bytes phdr) (phdr.p_flags / 2 % 2 == 1)
    else some (false, f, sp)
