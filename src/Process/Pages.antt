-- ===== src/Process/Pages.antt =====
-- The bytes that `load_segment` puts into the pages of a process.
use tddb.Base.{
  ℕ, zero, suc, ◌+◌, ◌-◌, ◌*◌, ◌/◌, ◌%◌, ◌≤◌, ◌<◌, Bool, true, false, ◌&&◌, ◌||◌, Option, none,
  some, ltb, leb, if◌then◌else◌, ◌≡◌, ◌≢◌, refl, sym, ap, ◌∙◌, arith, ==_ne, ==_refl, Bool-cases,
  inl, inr, dec_lt,
}
use tddb.Base.Members.{update}
use tddb.Strings.{Memory, fill}
use tddb.Strings.Blocks.{fill-set}
use tddb.Inode.{Block, Disk, InodeDisk}
use tddb.Inode.Layout.{OnDisk, content, available}
use tddb.Inode.Read.{inode_read_at-all}
use tddb.Inodes.{OpenInode, Inodes, find_inode}
use tddb.Files.{File, file_read}
use tddb.Process.{
  page_size, phys_base, pg_ofs, pg_round_down, is_user_vaddr, Space, install_page, take_page,
  load_pages, sub32,
}

-- The byte of the process at an address, with whether it may be written.
abbrev pub byte_in : Option (Block × Bool) → ℕ → Option (ℕ × Bool)
byte_in none ofs = none
byte_in (some (page, writable)) ofs = some (page ofs, writable)

abbrev pub user_byte : Space → ℕ → Option (ℕ × Bool)
user_byte sp va = byte_in (sp.pages (pg_round_down va)) (pg_ofs va)

-- `n` bytes from `upage` on are those of the file from `ofs` on, as far as `read` goes, and then blank; the
-- pages elsewhere are as they were.
pub record Filled (d : Disk) (i : InodeDisk) (sp : Space) (ofs upage read n : ℕ) (writable : Bool)
    (sp' : Space) : Type 0 where
  pub inside :
      (a : ℕ)
      → a < n
      → user_byte sp' (upage + a)
        ≡ some ((if ltb a read then content d i (ofs + a) else 0), writable)
  pub outside : (p : ℕ) → (p < upage) → sp'.pages p ≡ sp.pages p
  pub behind : (p : ℕ) → upage + n ≤ p → sp'.pages p ≡ sp.pages p
  pub used : sp'.free_pages ≡ sp.free_pages - n / page_size

-- The pages that are to be mapped are free in the process, and there are tables for them.
abbrev pub Mappable : (ℕ → Bool) → Space → ℕ → ℕ → Type 0
Mappable tables sp upage n =
    (p : ℕ)
    → upage ≤ p
    → p < upage + n
    → p % page_size ≡ 0
    → (sp.pages p ≡ none) × (tables p ≡ true)

-- `page_read_bytes`
abbrev page_part : ℕ → ℕ
page_part read = if ltb read page_size then read else page_size

module _ (st : Inodes) (tables : ℕ → Bool) (fresh : Block) (writable : Bool) (h : ℕ) (i : OpenInode)
    (found : find_inode st.open_inodes h ≡ some i) (on : OnDisk st.disk i.inode_data) where
  -- The bytes of one page
  page_run :
      (f : File) (n : ℕ)
      → f.inode ≡ h
      → n ≤ page_size
      → f.pos + n ≤ i.inode_data.length
      → (m : Memory) × (file_read st fresh true f 0 n ≡ some (record f { pos = f.pos + n }, m, n))
        × ((b : ℕ)
            → b < page_size
            → fill m n 0 (page_size - n) b
              ≡ (if ltb b n then content st.disk i.inode_data (f.pos + b) else 0))
  unfolding file_read
  page_run f n same le fits =
      let (m, run, bytes) = inode_read_at-all st.disk i.inode_data fresh 0 n f.pos on in
      (
        m,
        rw (ap (find_inode st.open_inodes) same ∙ found, run)
            (ap (λ k. some (record f { pos = f.pos + k }, m, k)) whole),
        λ b below. fill-set (page_size - n) m n 0 b ∙ elim (Bool-cases (ltb b n)) [
          | inl y ↦
              rw (y, in_read b y)
                (bytes b ∙ rw (in_file b y) (ap (content st.disk i.inode_data) (omega arith)))
          | inr no_read ↦ rw (no_read, in_zeros b no_read below) refl
        ],
      )
    where
      whole : available i.inode_data n f.pos ≡ n
      whole = ground arith

      in_read : (b : ℕ) → ltb b n ≡ true → (leb n b && ltb b (n + (page_size - n))) ≡ false
      in_read b y = ground arith

      in_file :
          (b : ℕ) → ltb b n ≡ true → (leb 0 b && ltb b (0 + available i.inode_data n f.pos)) ≡ true
      in_file b y = ground arith

      in_zeros :
          (b : ℕ)
          → ltb b n ≡ false
          → b < page_size
          → (leb n b && ltb b (n + (page_size - n))) ≡ true
      in_zeros b no_read below = ground arith

  -- The page of the first round in front of those of the later ones
  Filled-page :
      {sp sp' : Space} {page : Block} {ofs upage read n : ℕ} (k : ℕ)
      → upage % page_size ≡ 0
      → n ≡ page_part read
      → ((b : ℕ)
          → b < page_size
          → page b ≡ (if ltb b n then content st.disk i.inode_data (ofs + b) else 0))
      → Filled st.disk i.inode_data
          (record (take_page sp) { pages = update sp.pages upage (some (page, writable)) })
          (ofs + n)
          (upage + page_size)
          (read - n)
          (page_size * k)
          writable
          sp'
      → Filled st.disk i.inode_data sp ofs upage read (page_size * suc k) writable sp'
  Filled-page {sp} {sp'} {page} {ofs} {upage} {read} {n} k aligned chunk bytes rest = record {
    inside = λ a below. elim (dec_lt a page_size) [
      | yes here ↦ first a here
      | no later ↦
          ap (user_byte sp') (sym (shifted a (omega (arith, later))))
          ∙ rest.inside (a - page_size) (omega (arith, below, later))
          ∙ ap (λ (v : ℕ). some (v, writable)) (same_value a (omega (arith, later)))
    ];
    outside = λ p below.
        rest.outside p (omega (arith, below)) ∙ rw (==_ne upage p (omega (arith, below))) refl;
    behind = λ p above.
        rest.behind p (omega (arith, above)) ∙ rw (==_ne upage p (omega (arith, above))) refl;
    used = omega (arith, rest.used);
  }
    where
      shifted : (a : ℕ) → page_size ≤ a → upage + page_size + (a - page_size) ≡ upage + a
      shifted a h = omega arith

      same_value :
          (a : ℕ)
          → page_size ≤ a
          → (if ltb (a - page_size) (read - n)
              then content st.disk i.inode_data (ofs + n + (a - page_size))
              else 0)
            ≡ (if ltb a read then content st.disk i.inode_data (ofs + a) else 0)
      same_value a h = elim (Bool-cases (ltb a read)) [
        | inl y ↦ rw (y, both y) (ap (content st.disk i.inode_data) (place y))
        | inr out ↦ rw (out, neither out) refl
      ]
        where
          both : ltb a read ≡ true → ltb (a - page_size) (read - n) ≡ true
          both y = ground arith

          neither : ltb a read ≡ false → ltb (a - page_size) (read - n) ≡ false
          neither y = ground arith

          place : ltb a read ≡ true → ofs + n + (a - page_size) ≡ ofs + a
          place y = ground arith

      mapped : sp'.pages upage ≡ some (page, writable)
      mapped = rest.outside upage (omega arith) ∙ rw (==_refl upage) refl

      in_chunk : (a : ℕ) → a < page_size → ltb a n ≡ ltb a read
      in_chunk a h = ground arith

      first :
          (a : ℕ)
          → a < page_size
          → user_byte sp' (upage + a)
            ≡ some ((if ltb a read then content st.disk i.inode_data (ofs + a) else 0), writable)
      first a here =
          ap (λ p. byte_in (sp'.pages p) (pg_ofs (upage + a))) down
          ∙ ap (λ o. byte_in o (pg_ofs (upage + a))) mapped
          ∙ ap (λ b. some (page b, writable)) low
          ∙ ap (λ (v : ℕ). some (v, writable)) (bytes a here)
          ∙ ap (λ t. some ((if t then content st.disk i.inode_data (ofs + a) else 0), writable))
              (in_chunk a here)
        where
          down : pg_round_down (upage + a) ≡ upage
          down = omega arith

          low : pg_ofs (upage + a) ≡ a
          low = omega arith

  done_run :
      (fuel : ℕ) (f : File) (sp : Space) (upage read blank : ℕ)
      → read ≡ 0
      → blank ≡ 0
      → load_pages (suc fuel) st true tables fresh f sp upage read blank writable
        ≡ some (true, f, sp)
  unfolding load_pages
  done_run fuel f sp upage read blank no_read no_zeros = rw (no_read, no_zeros) refl

  -- A round in which nothing fails
  round_run :
      (fuel : ℕ) (f : File) (sp : Space) (upage read blank n : ℕ) (m : Memory) (f' : File)
      → n ≡ page_part read
      → (ltb 0 read || ltb 0 blank) ≡ true
      → sp.free_pages ≢ 0
      → file_read st fresh true f 0 n ≡ some (f', m, n)
      → is_user_vaddr upage ≡ true
      → sp.pages upage ≡ none
      → upage % page_size ≡ 0
      → tables upage ≡ true
      → load_pages (suc fuel) st true tables fresh f sp upage read blank writable
        ≡ load_pages fuel st true tables fresh f'
            (record (take_page sp) {
              pages = update sp.pages upage (some (fill m n 0 (page_size - n), writable));
            })
            (upage + page_size)
            (sub32 read n)
            (sub32 blank (page_size - n))
            writable
  unfolding load_pages install_page
  round_run fuel f sp upage read blank n m f' chunk more free got user unmapped aligned table =
      rw
        (
          sym chunk,
          more,
          ==_ne sp.free_pages 0 free,
          got,
          ==_refl n,
          user,
          unmapped,
          aligned,
          table,
        )
        refl

  Mappable-later :
      (sp : Space) (upage k : ℕ) (v : Block × Bool)
      → Mappable tables sp upage (page_size * suc k)
      → Mappable tables
          (record (take_page sp) { pages = update sp.pages upage (some v) })
          (upage + page_size)
          (page_size * k)
  Mappable-later sp upage k v free p lo hi at =
      let (none_there, table) = free p (omega (arith, lo)) (omega (arith, hi)) at in
      (rw (==_ne upage p (omega (arith, lo))) none_there, table)

  pub load_pages-Filled :
      (fuel k : ℕ) (f : File) (sp : Space) (upage read blank : ℕ)
      → f.inode ≡ h
      → upage % page_size ≡ 0
      → read + blank ≡ page_size * k
      → k < fuel
      → k ≤ sp.free_pages
      → upage + page_size * k ≤ phys_base
      → f.pos + read ≤ i.inode_data.length
      → Mappable tables sp upage (page_size * k)
      → (f' : File) × (sp' : Space) × (load_pages fuel st true tables fresh f sp upage read blank
            writable
          ≡ some (true, f', sp'))
        × Filled st.disk i.inode_data sp f.pos upage read (page_size * k) writable sp'
  load_pages-Filled zero k f sp upage read blank same aligned whole fuelled room user fits free =
      absurd (omega (arith, fuelled))
  load_pages-Filled (suc fuel) zero f sp upage read blank same aligned whole fuelled room user fits
        free =
      (
        f,
        sp,
        done_run fuel f sp upage read blank (omega (arith, whole)) (omega (arith, whole)),
        record {
          inside = λ a below. absurd (omega arith);
          outside = λ p below. refl;
          behind = λ p above. refl;
          used = omega arith;
        },
      )
  load_pages-Filled (suc fuel) (suc k) f sp upage read blank same aligned whole fuelled room user
        fits free =
      let n = page_part read in
      let (m, got, bytes) = page_run f n same (ground arith) (ground (arith, fits)) in
      let sp1 : Space = record (take_page sp) {
        pages = update sp.pages upage (some (fill m n 0 (page_size - n), writable));
      } in
      let (f', sp', run, rest) =
        load_pages-Filled fuel k (record f { pos = f.pos + n }) sp1 (upage + page_size) (read - n)
          (blank - (page_size - n)) same (omega (arith, aligned)) (ground (arith, whole))
          (omega (arith, fuelled)) (omega (arith, room)) (omega (arith, user))
          (ground (arith, fits))
          (Mappable-later sp upage k (fill m n 0 (page_size - n), writable) free) in
      (
        f',
        sp',
        round_run fuel f sp upage read blank n m (record f { pos = f.pos + n }) refl
              (ground (arith, whole)) (omega (arith, room)) got (ground (arith, user))
              ((free upage (omega arith) (omega arith) aligned).0) aligned
              ((free upage (omega arith) (omega arith) aligned).1)
            ∙ rw (no_wrap.0, no_wrap.1) run,
        Filled-page k aligned refl bytes rest,
      )
    where
      no_wrap :
          (sub32 read (page_part read) ≡ read - page_part read)
          × (sub32 blank (page_size - page_part read) ≡ blank - (page_size - page_part read))
      no_wrap = (ground (arith, whole, user), ground (arith, whole, user))
