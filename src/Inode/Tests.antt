-- ===== src/Inode/Tests.antt =====
-- Tests of the transfers, and each property on a small disk.
use tddb.Base.{ℕ, ◌+◌, ◌%◌, ◌<◌, ◌≤◌, true, some, ◌≡◌, refl, arith}
use tddb.Strings.{Memory}
use tddb.Inode.{Disk, InodeDisk, inode_read_at, inode_write_at, read_from, read_chunk, disk_read}
use tddb.Inode.Layout.{available}
use tddb.Inode.Copy.{filled}
use tddb.Inode.Read.{inode_read_at-filled}
use tddb.Inode.Chunk.{Written}
use tddb.Inode.Write.{inode_write_at-Written, inode_write_at-inode_read_at}

-- Eight sectors, each filled with its number; a file of 600 bytes begins at sector 2.
abbrev disk : Disk
disk = record { capacity = 8; addressable = omega arith; sectors = λ s b. s }

abbrev inode : InodeDisk
inode = record { start = 2; length = 600 }

abbrev memory : Memory
memory a = a % 256

reads_two_sectors :
    (m : Memory) × (inode_read_at disk inode memory true 1000 700 500 ≡ some (m, 100))
    × (m 1011 ≡ 2)
    × (m 1012 ≡ 3)
unfolding inode_read_at read_from read_chunk disk_read
reads_two_sectors = (_, refl, refl, refl)

inode_read_at-filled_example :
    (m' : Memory) × (n : ℕ) × (inode_read_at disk inode memory true 1000 700 500 ≡ some (m', n))
    × (available inode 700 500 ≤ n)
    × (n ≤ available inode 700 500)
    × ((a : ℕ) → m' a ≡ filled disk inode memory 1000 n 500 a)
inode_read_at-filled_example =
    inode_read_at-filled disk inode memory true 1000 700 500 (omega arith)

inode_write_at-Written_example :
    (d' : Disk) × (n : ℕ) × (inode_write_at disk inode 0 memory true 1000 700 500 ≡ some (d', n))
    × (available inode 700 500 ≤ n)
    × (n ≤ available inode 700 500)
    × Written disk inode memory 1000 n 500 d'
inode_write_at-Written_example =
    inode_write_at-Written disk inode 0 memory true 1000 700 500 (omega arith)

inode_write_at-inode_read_at_example :
    (d' : Disk) × (m' : Memory) × (inode_write_at disk inode 0 memory true 1000 700 500
      ≡ some (d', available inode 700 500))
    × (inode_read_at d' inode memory true 2000 700 500 ≡ some (m', available inode 700 500))
    × ((k : ℕ) → k < available inode 700 500 → m' (2000 + k) ≡ memory (1000 + k))
inode_write_at-inode_read_at_example =
    inode_write_at-inode_read_at disk inode memory memory 1000 2000 700 500 (omega arith)
