-- ===== src/Process/Segment.antt =====
-- What `validate_segment` accepts, and the pages that `load` computes from it.
use tddb.Base.{ℕ, ◌+◌, ◌%◌, ◌^◌, ◌≤◌, ◌<◌, true, ltb, if◌then◌else◌, ◌≡◌, arith}
use tddb.Process.{
  Phdr, page_size, phys_base, pg_round_down, validate_segment, read_bytes, zero_bytes,
}

-- The fields have 32 bits.
pub record Fields (phdr : Phdr) : Type 0 where
  pub offset_small : phdr.p_offset < 2 ^ 32
  pub vaddr_small : phdr.p_vaddr < 2 ^ 32
  pub filesz_small : phdr.p_filesz < 2 ^ 32
  pub memsz_small : phdr.p_memsz < 2 ^ 32

-- A segment that lies in user memory above page 0 and begins in the file.
pub record Loadable (phdr : Phdr) (file_length : ℕ) : Type 0 where
  pub same_ofs : phdr.p_offset % page_size ≡ phdr.p_vaddr % page_size
  pub in_file : phdr.p_offset ≤ file_length
  pub no_more : phdr.p_filesz ≤ phdr.p_memsz
  pub some_bytes : 0 < phdr.p_memsz
  pub not_null : page_size ≤ phdr.p_vaddr
  pub in_user : phdr.p_vaddr + phdr.p_memsz < phys_base

-- For the fields of 32 bits, `validate_segment` accepts exactly the loadable segments: the offset and the address are equal
-- modulo the page size, the offset is at most the file's length, p_filesz is at most p_memsz, p_memsz is not 0, the
-- address is not in page 0, and the sum of address and p_memsz, which the code computes on 32 bits, is below PHYS_BASE
-- without a wrap.
pub validate_segment-Loadable :
    (phdr : Phdr) (file_length : ℕ)
    → Fields phdr
    → (validate_segment phdr file_length ≡ true → Loadable phdr file_length)
      × (Loadable phdr file_length → validate_segment phdr file_length ≡ true)
unfolding validate_segment
validate_segment-Loadable phdr file_length ok = (
  λ e. record {
    same_ofs = ground (arith, e);
    in_file = ground (arith, e);
    no_more = ground (arith, e);
    some_bytes = ground (arith, e);
    not_null = ground (arith, e);
    in_user = ground (arith, e, ok.vaddr_small, ok.memsz_small);
  },
  λ l. ground (arith, l.same_ofs, l.in_file, l.no_more, l.some_bytes, l.not_null, l.in_user),
)

-- The pages that `load` asks for are whole ones, hold the segment and lie in user memory.
pub Loadable-pages :
    (phdr : Phdr) (file_length : ℕ)
    → Loadable phdr file_length
    → ((read_bytes phdr + zero_bytes phdr) % page_size ≡ 0)
      × (pg_round_down phdr.p_vaddr + (read_bytes phdr + zero_bytes phdr) ≤ phys_base)
      × (phdr.p_vaddr + phdr.p_memsz
          ≤ pg_round_down phdr.p_vaddr + (read_bytes phdr + zero_bytes phdr))
      × (read_bytes phdr
          ≡ (if ltb 0 phdr.p_filesz then phdr.p_vaddr % page_size + phdr.p_filesz else 0))
Loadable-pages phdr file_length ok = ground (arith, ok.no_more, ok.some_bytes, ok.in_user)
