-- ===== src/Process/Load.antt =====
-- Loading a segment of an executable into the pages of a process.
use mathlib.Core.Path.{subst}
use tddb.Base.{
  ℕ, ◌+◌, ◌*◌, ◌/◌, ◌%◌, ◌^◌, ◌≤◌, ◌<◌, Bool, true, false, Option, some, ◌==◌, ltb, if◌then◌else◌,
  ◌≡◌, refl, sym, ap, ◌∙◌, arith, Bool-cases, inl, inr,
}
use tddb.Inode.{Block}
use tddb.Inode.Layout.{OnDisk, content}
use tddb.Inodes.{OpenInode, Inodes, find_inode}
use tddb.Files.{File, file_seek}
use tddb.Process.{
  page_size, phys_base, pg_round_down, add32, Space, Phdr, read_bytes, zero_bytes, load_pages,
  load_segment, load_phdr,
}
use tddb.Process.Segment.{Fields, Loadable, validate_segment-Loadable, Loadable-pages}
use tddb.Process.Pages.{user_byte, Filled, Mappable, load_pages-Filled}

-- `load_segment` behind its assertions
segment_run :
    (st : Inodes) (tables : ℕ → Bool) (fresh : Block) (writable : Bool) (f : File) (sp : Space)
    (ofs upage read blank : ℕ) {r : Option (Bool × File × Space)}
    → ofs % page_size ≡ 0
    → upage % page_size ≡ 0
    → (read + blank) % page_size ≡ 0
    → load_pages (2 ^ 20 + 1) st true tables fresh (file_seek f ofs) sp upage read blank writable
      ≡ r
    → load_segment st true tables fresh f sp ofs upage read blank writable ≡ r
unfolding load_segment
segment_run st tables fresh writable f sp ofs upage read blank ofs_at up_at whole run =
    rw (multiple, ofs_at, up_at) run
  where
    multiple : add32 read blank % page_size ≡ 0
    multiple = omega (arith, whole)

-- `load_segment` of whole pages in user memory, with enough pages in the pool, room for the page tables, no page of
-- the process there yet and enough bytes in the file, succeeds: the first `read` bytes at `upage` are those
-- of the file from `ofs` on, the others are zero, all have the access asked for, and no other page changes.
pub load_segment-Filled :
    (st : Inodes) (tables : ℕ → Bool) (fresh : Block) (writable : Bool) (i : OpenInode) (f : File)
    (sp : Space) (ofs upage read blank : ℕ)
    → find_inode st.open_inodes f.inode ≡ some i
    → OnDisk st.disk i.inode_data
    → ofs % page_size ≡ 0
    → upage % page_size ≡ 0
    → (read + blank) % page_size ≡ 0
    → upage + (read + blank) ≤ phys_base
    → (read + blank) / page_size ≤ sp.free_pages
    → ofs + read ≤ i.inode_data.length
    → Mappable tables sp upage (read + blank)
    → (f' : File) × (sp' : Space) × (load_segment st true tables fresh f sp ofs upage read blank
          writable
        ≡ some (true, f', sp'))
      × Filled st.disk i.inode_data sp ofs upage read (read + blank) writable sp'
load_segment-Filled st tables fresh writable i f sp ofs upage read blank found on ofs_at up_at whole
      user room fits free =
    let pages : read + blank ≡ page_size * ((read + blank) / page_size) = omega (arith, whole) in
    let (f', sp', run, filled) =
      load_pages-Filled st tables fresh writable f.inode i found on (2 ^ 20 + 1)
        ((read + blank) / page_size) (file_seek f ofs) sp upage read blank refl up_at pages
        (omega (arith, user)) room (omega (arith, user, pages)) fits
        (λ p lo hi at. free p lo (omega (arith, hi, pages)) at) in
    (
      f',
      sp',
      segment_run st tables fresh writable f sp ofs upage read blank ofs_at up_at whole run,
      subst (λ n. Filled st.disk i.inode_data sp ofs upage read n writable sp') (sym pages) filled,
    )

-- A loadable segment whose bytes are all in the file, which is on the disk: with enough pages in the pool, room for the
-- page tables, no page of the process there yet, and every `malloc` of a bounce buffer succeeding, `load` maps it, with its first bytes from the file, blank behind them, and the
-- access that its flags ask for.
pub load_phdr-segment :
    (st : Inodes) (tables : ℕ → Bool) (fresh : Block) (i : OpenInode) (f : File) (sp : Space)
    (phdr : Phdr)
    → find_inode st.open_inodes f.inode ≡ some i
    → OnDisk st.disk i.inode_data
    → Fields phdr
    → Loadable phdr i.inode_data.length
    → phdr.p_offset + phdr.p_filesz ≤ i.inode_data.length
    → (read_bytes phdr + zero_bytes phdr) / page_size ≤ sp.free_pages
    → Mappable tables sp (pg_round_down phdr.p_vaddr) (read_bytes phdr + zero_bytes phdr)
    → (f' : File) × (sp' : Space) × (load_phdr st true tables fresh f sp phdr i.inode_data.length
        ≡ some (true, f', sp'))
      × ((k : ℕ)
          → k < phdr.p_memsz
          → user_byte sp' (phdr.p_vaddr + k)
            ≡ some (
              (if ltb k phdr.p_filesz then content st.disk i.inode_data (phdr.p_offset + k) else 0),
              phdr.p_flags / 2 % 2 == 1,
            ))
unfolding load_phdr
load_phdr-segment st tables fresh i f sp phdr found on fields ok fits room free =
    let (whole, user, covers, reads) = Loadable-pages phdr i.inode_data.length ok in
    let (f', sp', run, filled) =
      load_segment-Filled st tables fresh (phdr.p_flags / 2 % 2 == 1) i f sp
        (pg_round_down phdr.p_offset) (pg_round_down phdr.p_vaddr) (read_bytes phdr)
        (zero_bytes phdr) found on (omega arith) (omega arith) whole user room
        (ground (arith, reads, fits, ok.same_ofs)) free in
    (
      f',
      sp',
      rw ((validate_segment-Loadable phdr i.inode_data.length fields).1 ok) run,
      λ k below.
          ap (user_byte sp') (omega arith)
          ∙ filled.inside (phdr.p_vaddr % page_size + k) (omega (arith, covers, below))
          ∙ ap (λ (v : ℕ). some (v, phdr.p_flags / 2 % 2 == 1)) (byte_at k),
    )
  where
    byte_at :
        (k : ℕ)
        → (if ltb (phdr.p_vaddr % page_size + k) (read_bytes phdr)
            then content st.disk i.inode_data
                (pg_round_down phdr.p_offset + (phdr.p_vaddr % page_size + k))
            else 0)
          ≡ (if ltb k phdr.p_filesz then content st.disk i.inode_data (phdr.p_offset + k) else 0)
    byte_at k = elim (Bool-cases (ltb k phdr.p_filesz)) [
      | inl y ↦ rw (y, both y) (ap (content st.disk i.inode_data) (omega (arith, ok.same_ofs)))
      | inr out ↦ rw (out, neither out) refl
    ]
      where
        reads :
            read_bytes phdr
            ≡ (if ltb 0 phdr.p_filesz then phdr.p_vaddr % page_size + phdr.p_filesz else 0)
        reads = (Loadable-pages phdr i.inode_data.length ok).3

        both :
            ltb k phdr.p_filesz ≡ true → ltb (phdr.p_vaddr % page_size + k) (read_bytes phdr) ≡ true
        both y = ground (arith, reads)

        neither :
            ltb k phdr.p_filesz ≡ false
            → ltb (phdr.p_vaddr % page_size + k) (read_bytes phdr) ≡ false
        neither y = ground (arith, reads)
