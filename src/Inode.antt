-- ===== src/Inode.antt =====
-- filesys/inode.c: the bytes of a file on the disk. Sizes and offsets are not negative and below 2 ^ 31, as
-- file.c passes them; `-` on ℕ stops at 0 where the source gets a chunk that is not positive and leaves
-- the loop. `none` is a failed ASSERT of the disk driver, or a loop that ran out of fuel.
pub mod Layout
pub mod Copy
pub mod Read
pub mod Chunk
pub mod Rounds
pub mod Write
mod Tests
use tddb.Base.{
  ℕ, zero, suc, ◌+◌, ◌-◌, ◌/◌, ◌%◌, ◌^◌, ◌≤◌, Bool, true, false, not, ◌&&◌, ◌||◌, Option, none,
  some, ◌==◌, ltb, leb, min, if◌then◌else◌, ◌>>=◌, ◌>>◌, assert,
}
use tddb.Base.Members.{update}
use tddb.Strings.{Memory}

-- The bytes of one sector.
abbrev pub Block : Type 0
Block = ℕ → ℕ

-- What devices/disk.c keeps: a number of sectors and their bytes. A drive has a number of sectors that it can address,
-- in 28 bits.
pub record Disk : Type 0 where
  pub capacity : ℕ
  pub addressable : capacity ≤ 2 ^ 28
  pub sectors : ℕ → Block

-- `DISK_SECTOR_SIZE`
abbrev pub sector_size : ℕ
sector_size = 512

unfoldable pub disk_read : Disk → ℕ → Option Block
disk_read d sec = do assert (ltb sec d.capacity); assert (ltb sec (2 ^ 28)); some (d.sectors sec)

unfoldable pub disk_write : Disk → ℕ → Block → Option Disk
disk_write d sec block = do
  assert (ltb sec d.capacity)
  assert (ltb sec (2 ^ 28))
  some (record d { sectors = update d.sectors sec block })

-- `struct inode_disk`, without its padding
pub record InodeDisk : Type 0 where
  pub start : ℕ
  pub length : ℕ

-- DIV_ROUND_UP (size, DISK_SECTOR_SIZE)
abbrev pub bytes_to_sectors : ℕ → ℕ
bytes_to_sectors size = (size + sector_size - 1) / sector_size

abbrev pub byte_to_sector : InodeDisk → ℕ → ℕ
byte_to_sector i pos = if ltb pos i.length then i.start + pos / sector_size else 2 ^ 32 - 1

-- How many bytes the next round moves; 0 ends the loop.
abbrev pub chunk_size : InodeDisk → ℕ → ℕ → ℕ
chunk_size i size offset =
    let inode_left = i.length - offset in
    let sector_left = sector_size - offset % sector_size in
    let min_left = if ltb inode_left sector_left then inode_left else sector_left in
    if ltb size min_left then size else min_left

-- `memcpy (dst, block + ofs, n)` from a block that is no part of the memory
abbrev pub copy_out : Block → ℕ → Memory → ℕ → ℕ → Memory
copy_out block ofs m dst n a = if leb dst a && ltb a (dst + n) then block (ofs + (a - dst)) else m a

-- `memcpy (block + ofs, src, n)` to a block that is no part of the memory
abbrev pub copy_in : Memory → ℕ → Block → ℕ → ℕ → Block
copy_in m src block ofs n b = if leb ofs b && ltb b (ofs + n) then m (src + (b - ofs)) else block b

-- The body of the loop of `inode_read_at` up to its advance; `some none` is a `break`. `bounce` is
-- whether `malloc` has room for the bounce buffer.
unfoldable pub read_chunk : Disk → InodeDisk → Memory → ℕ → Bool → ℕ → ℕ → Option (Option Memory)
read_chunk d i m dst bounce size offset =
    let chunk = chunk_size i size offset in
    let ofs = offset % sector_size in
    if chunk == 0
    then some none
    else if (ofs == 0) && (chunk == sector_size)
    then (disk_read d (byte_to_sector i offset) >>= λ block.
        some (some (copy_out block 0 m dst sector_size)))
    else if not bounce
    then some none
    else (disk_read d (byte_to_sector i offset) >>= λ block.
        some (some (copy_out block ofs m dst chunk)))

-- `break` leaves the loop with `out`, and else it goes on.
abbrev pub or_break : {S T : Type 0} → Option S → (S → Option T) → T → Option T
or_break none go_on out = some out
or_break (some s) go_on out = go_on s

-- the rounds of the loop that are left, at most `fuel`
unfoldable pub read_from :
    ℕ → Disk → InodeDisk → Memory → ℕ → Bool → ℕ → ℕ → ℕ → Option (Memory × ℕ)
read_from zero d i m buffer bounce size offset bytes_read = none
read_from (suc fuel) d i m buffer bounce size offset bytes_read =
    let chunk = chunk_size i size offset in
    if size == 0
    then some (m, bytes_read)
    else (read_chunk d i m (buffer + bytes_read) bounce size offset >>= λ r.
        or_break r
          (λ m'.
            read_from fuel d i m' buffer bounce (size - chunk) (offset + chunk)
              (bytes_read + chunk))
          (m, bytes_read))

-- Each round moves at least one byte.
unfoldable pub inode_read_at : Disk → InodeDisk → Memory → Bool → ℕ → ℕ → ℕ → Option (Memory × ℕ)
inode_read_at d i m bounce buffer size offset =
    read_from (suc size) d i m buffer bounce size offset 0

-- The same for `inode_write_at`. A bounce buffer that is not read from the disk is set to zeros.
unfoldable pub write_chunk : Disk → InodeDisk → Memory → ℕ → Bool → ℕ → ℕ → Option (Option Disk)
write_chunk d i m src bounce size offset =
    let chunk = chunk_size i size offset in
    let ofs = offset % sector_size in
    let sector_left = sector_size - ofs in
    let sector_idx = byte_to_sector i offset in
    if chunk == 0
    then some none
    else if (ofs == 0) && (chunk == sector_size)
    then (disk_write d sector_idx (λ b. m (src + b)) >>= λ d'. some (some d'))
    else if not bounce
    then some none
    else ((if (ltb 0 ofs || ltb chunk sector_left) then disk_read d sector_idx else some (λ b. 0))
        >>= λ block.
            disk_write d sector_idx (copy_in m src block ofs chunk) >>= λ d'. some (some d'))

unfoldable pub write_from : ℕ → Disk → InodeDisk → Memory → ℕ → Bool → ℕ → ℕ → ℕ → Option (Disk × ℕ)
write_from zero d i m buffer bounce size offset bytes_written = none
write_from (suc fuel) d i m buffer bounce size offset bytes_written =
    let chunk = chunk_size i size offset in
    if size == 0
    then some (d, bytes_written)
    else (write_chunk d i m (buffer + bytes_written) bounce size offset >>= λ r.
        or_break r
          (λ d'.
            write_from fuel d' i m buffer bounce (size - chunk) (offset + chunk)
              (bytes_written + chunk))
          (d, bytes_written))

unfoldable pub inode_write_at : Disk → InodeDisk → ℕ → Memory → Bool → ℕ → ℕ → ℕ → Option (Disk × ℕ)
inode_write_at d i deny_write_cnt m bounce buffer size offset =
    if deny_write_cnt == 0
    then write_from (suc size) d i m buffer bounce size offset 0
    else some (d, 0)
