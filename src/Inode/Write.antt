-- ===== src/Inode/Write.antt =====
-- What `inode_write_at` leaves on the disk.
use tddb.Base.{
  ℕ, zero, suc, if◌then◌else◌, ◌==◌, ◌+◌, ◌-◌, ◌/◌, ◌%◌, ◌≤◌, ◌<◌, Bool, true, false, ◌&&◌, some,
  ltb, leb, ◌≡◌, refl, ap, ◌∙◌, arith, ==_ne,
}
use tddb.Strings.{Memory}
use tddb.Inode.{Disk, sector_size, InodeDisk, inode_write_at}
use mathlib.Core.Path.{subst}
use tddb.Inode.{inode_read_at}
use tddb.Inode.Copy.{filled}
use tddb.Inode.Read.{inode_read_at-all}
use tddb.Inode.Layout.{OnDisk, content, available}
use tddb.Inode.Chunk.{position, Written}
use tddb.Inode.Rounds.{write_from-Written, write_from-part}

pub inode_write_at-all :
    (d : Disk) (i : InodeDisk) (m : Memory) (buffer size offset : ℕ)
    → OnDisk d i
    → (d' : Disk) × (inode_write_at d i 0 m true buffer size offset
        ≡ some (d', available i size offset))
      × Written d i m buffer (available i size offset) offset d'
unfolding inode_write_at
inode_write_at-all d i m buffer size offset on =
    let (d', run, same) =
      write_from-Written i m (suc size) d buffer size offset 0 on (omega arith) in
    (
      d',
      run ∙ ap (λ k. some (d', k)) (omega arith),
      subst (λ k. Written d i m k (available i size offset) offset d') (omega arith) same,
    )

-- `inode_write_at` of a file on the disk ends and writes a number of bytes, at `offset`, returns the number and changes no
-- other byte of the disk. This is at most as many as asked for and as the file has behind `offset`; it is 0 when
-- somebody denies to write the file, and else it is as many when the `malloc` of the bounce buffer succeeds.
pub inode_write_at-Written :
    (d : Disk) (i : InodeDisk) (deny_write_cnt : ℕ) (m : Memory) (bounce : Bool)
    (buffer size offset : ℕ)
    → OnDisk d i
    → (d' : Disk) × (n : ℕ) × (inode_write_at d i deny_write_cnt m bounce buffer size offset
        ≡ some (d', n))
      × ((if (deny_write_cnt == 0) && bounce then available i size offset else 0) ≤ n)
      × (n ≤ (if deny_write_cnt == 0 then available i size offset else 0))
      × Written d i m buffer n offset d'
unfolding inode_write_at
inode_write_at-Written d i (suc deny) m bounce buffer size offset on = (
  d,
  0,
  rw (==_ne (suc deny) 0 (omega arith)) refl,
  ground arith,
  ground arith,
  record { same_size = refl; bytes = λ s b hb. ground arith },
)
inode_write_at-Written d i zero m true buffer size offset on =
    let (d', run, same) = inode_write_at-all d i m buffer size offset on in
    (d', available i size offset, run, omega arith, omega arith, same)
inode_write_at-Written d i zero m false buffer size offset on =
    let (d', n, run, le, same) =
      write_from-part i m (suc size) d buffer size offset 0 on (omega arith) in
    (
      d',
      n,
      run ∙ ap (λ k. some (d', k)) (omega arith),
      omega arith,
      le,
      subst (λ k. Written d i m k n offset d') (omega arith) same,
    )

-- What was written to a file on the disk that nobody denies to write, and lies inside it, is read back when the `malloc` of
-- the bounce buffer succeeds in both calls: reading the same range afterwards into any buffer returns as many
-- bytes, and these bytes.
pub inode_write_at-inode_read_at :
    (d : Disk) (i : InodeDisk) (m m2 : Memory) (buffer buffer2 size offset : ℕ)
    → OnDisk d i
    → (d' : Disk) × (m' : Memory) × (inode_write_at d i 0 m true buffer size offset
        ≡ some (d', available i size offset))
      × (inode_read_at d' i m2 true buffer2 size offset ≡ some (m', available i size offset))
      × ((k : ℕ) → k < available i size offset → m' (buffer2 + k) ≡ m (buffer + k))
inode_write_at-inode_read_at d i m m2 buffer buffer2 size offset on =
    let (d', wrote, w) = inode_write_at-all d i m buffer size offset on in
    let (m', did, r) =
      inode_read_at-all d' i m2 buffer2 size offset (omega (arith, on, w.same_size)) in
    (d', m', wrote, did, λ k h. r (buffer2 + k) ∙ back k h w)
  where
    back :
        {d' : Disk} (k : ℕ)
        → k < available i size offset
        → Written d i m buffer (available i size offset) offset d'
        → filled d' i m2 buffer2 (available i size offset) offset (buffer2 + k) ≡ m (buffer + k)
    back {d'} k h w =
        let p : ℕ = offset + k in
        let place : position i (i.start + p / sector_size) (p % sector_size) ≡ p = omega arith in
        rw (in_buffer k h) (ap (content d' i) (offset_of k))
        ∙ w.bytes (i.start + p / sector_size) (p % sector_size) (omega arith)
        ∙ rw (in_range k h place) (ap m (source k place))
      where
        in_buffer :
            (k : ℕ)
            → k < available i size offset
            → (leb buffer2 (buffer2 + k) && ltb (buffer2 + k) (buffer2 + available i size offset))
              ≡ true
        in_buffer k h = ground arith

        offset_of : (k : ℕ) → offset + (buffer2 + k - buffer2) ≡ offset + k
        offset_of k = omega arith

        in_range :
            (k : ℕ)
            → k < available i size offset
            → position i (i.start + (offset + k) / sector_size) ((offset + k) % sector_size)
              ≡ offset + k
            → (leb i.start (i.start + (offset + k) / sector_size)
                && (leb offset (
                      position i
                        (i.start + (offset + k) / sector_size)
                        ((offset + k) % sector_size))
                    && ltb
                        (position i
                          (i.start + (offset + k) / sector_size)
                          ((offset + k) % sector_size))
                        (offset + available i size offset)))
              ≡ true
        in_range k h e = ground arith

        source :
            (k : ℕ)
            → position i (i.start + (offset + k) / sector_size) ((offset + k) % sector_size)
              ≡ offset + k
            → buffer
                + (position i (i.start + (offset + k) / sector_size) ((offset + k) % sector_size)
                    - offset)
              ≡ buffer + k
        source k e = omega arith
