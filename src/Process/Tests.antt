-- ===== src/Process/Tests.antt =====
-- Each property of the segments, on a segment of two pages.
use tddb.Base.{
  ℕ, ◌+◌, ◌/◌, ◌%◌, ◌<◌, Bool, true, false, none, some, [], ◌∷◌, ◌==◌, ltb, if◌then◌else◌, ◌≡◌,
  refl, arith,
}
use tddb.Inode.{Block}
use tddb.Inode.Layout.{content}
use tddb.Inodes.{OpenInode, Inodes}
use tddb.Files.{File}
use tddb.Process.{Space, Phdr, validate_segment, read_bytes, zero_bytes, load_phdr}
use tddb.Process.Segment.{Fields, Loadable, validate_segment-Loadable}
use tddb.Process.Pages.{user_byte, Mappable}
use tddb.Process.Load.{load_phdr-segment}

abbrev program : OpenInode
program = record {
  sector = 5;
  open_cnt = 1;
  removed = false;
  deny_write_cnt = 0;
  inode_data = record { start = 6; length = 5000 };
}

abbrev state : Inodes
state = record {
  open_inodes = program ∷ [];
  free_map = record { map = record { bit_cnt = 40; bits = 65535 ∷ 0 ∷ [] }; file_open = true };
  disk = record { capacity = 40; addressable = omega arith; sectors = λ s b. s };
}

abbrev file : File
file = record { inode = 5; pos = 0; deny_write = false }

abbrev tables : ℕ → Bool
tables p = true

abbrev fresh : Block
fresh b = 204

abbrev space : Space
space = record { free_pages = 3; pages = λ p. none }

abbrev phdr : Phdr
phdr = record { p_offset = 4196; p_vaddr = 134512740; p_filesz = 500; p_memsz = 5000; p_flags = 6 }

phdr-Fields : Fields phdr
phdr-Fields = record {
  offset_small = omega arith;
  vaddr_small = omega arith;
  filesz_small = omega arith;
  memsz_small = omega arith;
}

phdr-Loadable : Loadable phdr 5000
phdr-Loadable = record {
  same_ofs = refl;
  in_file = omega arith;
  no_more = omega arith;
  some_bytes = omega arith;
  not_null = omega arith;
  in_user = omega arith;
}

-- The sum wraps around to a small address.
rejects_wrap : validate_segment (record phdr { p_memsz = 4294960000 }) 5000 ≡ false
unfolding validate_segment
rejects_wrap = refl

space-Mappable : (n : ℕ) → Mappable tables space 134512640 n
space-Mappable n p lo hi at = (refl, refl)

validate_segment-Loadable_example :
    (validate_segment phdr 5000 ≡ true → Loadable phdr 5000)
    × (Loadable phdr 5000 → validate_segment phdr 5000 ≡ true)
validate_segment-Loadable_example = validate_segment-Loadable phdr 5000 phdr-Fields

load_phdr-segment_example :
    (f' : File) × (sp' : Space) × (load_phdr state true tables fresh file space phdr 5000
      ≡ some (true, f', sp'))
    × ((k : ℕ)
        → k < 5000
        → user_byte sp' (134512740 + k)
          ≡ some (
            (if ltb k 500 then content state.disk program.inode_data (4196 + k) else 0),
            6 / 2 % 2 == 1,
          ))
load_phdr-segment_example =
    load_phdr-segment state tables fresh program file space phdr refl (omega arith) phdr-Fields
      phdr-Loadable (omega arith) (omega arith) (space-Mappable (read_bytes phdr + zero_bytes phdr))
