-- ===== src/Files/Tests.antt =====
-- Each property of the open files on a disk of 40 sectors.
use tddb.Base.{ℕ, ◌+◌, ◌<◌, true, false, some, [], ◌∷◌, ◌≡◌, refl, arith}
use tddb.Strings.{Memory}
use tddb.Inode.Layout.{available}
use tddb.Inodes.{OpenInode, Inodes}
use tddb.Files.{File, file_read, file_write, file_seek}
use tddb.Files.Transfer.{file_write-file_read}

-- The inode of sector 5 has 600 bytes from sector 6 on and two openers; that of sector 8 may not be written.
abbrev data_inode : OpenInode
data_inode = record {
  sector = 5;
  open_cnt = 2;
  removed = false;
  deny_write_cnt = 0;
  inode_data = record { start = 6; length = 600 };
}

abbrev program_inode : OpenInode
program_inode = record {
  sector = 8;
  open_cnt = 1;
  removed = false;
  deny_write_cnt = 1;
  inode_data = record { start = 9; length = 40 };
}

abbrev state : Inodes
state = record {
  open_inodes = program_inode ∷ data_inode ∷ [];
  free_map = record { map = record { bit_cnt = 40; bits = 1023 ∷ 0 ∷ [] }; file_open = true };
  disk = record { capacity = 40; addressable = omega arith; sectors = λ s b. s };
}

abbrev file : File
file = record { inode = 5; pos = 500; deny_write = false }

abbrev program : File
program = record { inode = 8; pos = 0; deny_write = true }

abbrev memory : Memory
memory a = a

file_write-file_read_example :
    (f1 f2 : File) × (st' : Inodes) × (m' : Memory) × (file_write state memory true file 1000 200
      ≡ some (f1, st', available data_inode.inode_data 200 500))
    × (file_read st' memory true (file_seek f1 500) 4000 200
        ≡ some (f2, m', available data_inode.inode_data 200 500))
    × ((k : ℕ) → k < available data_inode.inode_data 200 500 → m' (4000 + k) ≡ memory (1000 + k))
    × (f1.pos ≡ 500 + available data_inode.inode_data 200 500)
    × (f2 ≡ f1)
file_write-file_read_example =
    file_write-file_read state file data_inode memory memory 1000 4000 200 refl refl (omega arith)
