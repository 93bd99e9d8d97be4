-- ===== src/Syscall/Open.antt =====
-- Opening, using and closing one descriptor.
use mathlib.Core.Path.{subst}
use tddb.Base.{
  ℕ, zero, suc, ◌+◌, ◌^◌, ◌<◌, ◌≤◌, Bool, true, false, not, ◌&&◌, none, some, List, [], ◌∷◌, ◌==◌,
  ltb, if◌then◌else◌, get_elem?, set, get_or, length, get_or-set_self, get_elem?-eq-get_or, ◌≡◌,
  ◌≢◌, refl, sym, ap, ◌∙◌, arith, Bool-cases, Option-cases, inl, inr, ==_ne, dec_lt, lt→ltb, ltb→lt,
}
use tddb.Bitmap.{Bitmap, bitmap_error, scan_and_flip}
use tddb.Bitmap.Bit.{at, IsValid, set_bit-Writes, test-at}
use tddb.Bitmap.Range.{Fits, Fills}
use tddb.Bitmap.Scan.{First, Claimed, found, absent, full, claimed, scan_and_flip-Claimed}
use tddb.Syscall.{
  Services, Process, done, fault, fd_ok, opened, open_named, close_fd, read_console, read_into,
  write_from, minus_one, file_map_size,
}
use tddb.Syscall.Table.{IsTable, claimed-IsTable, closed-IsTable}

module _ {W : Type 0} where
  -- The descriptor is in use.
  abbrev pub is_open : Process W → ℕ → Bool
  is_open s fd = ltb fd file_map_size && at s.fd_bitmap fd

  -- `fd_ok` on any 32-bit word, negative ones and those beyond the table included
  fd_ok_lem :
      {s : Process W}
      → IsTable s
      → (fd : ℕ) → fd < 2 ^ 32
      → fd_ok fd s.fd_bitmap ≡ some (is_open s fd)
  unfolding fd_ok
  fd_ok_lem {s} h fd w = elim (dec_lt fd file_map_size) [
    | yes p ↦ ground (arith, test-at h.map fd, h.cnt)
    | no p ↦ ground (arith, h.cnt)
  ]

-- What a successful open does to the table: the least free descriptor gets the file.
pub record Opened {W : Type 0} (s : Process W) (file : ℕ) (w : W) (fd : ℕ) (s' : Process W)
    : Type 0 where
  pub table : IsTable s'
  pub result : s'.eax ≡ fd
  pub moved : s'.world ≡ w
  pub below : fd < file_map_size
  pub was_free : at s.fd_bitmap fd ≡ false
  pub least : (j : ℕ) → j < fd → at s.fd_bitmap j ≡ true
  pub marks : (j : ℕ) → at s'.fd_bitmap j ≡ (if fd == j then true else at s.fd_bitmap j)
  pub names : s'.file_names ≡ set s.file_names fd (some file)

-- A descriptor that is open and has no file
null_faults :
    {W : Type 0} (sv : Services W) {s : Process W}
    → IsTable s
    → (fd buffer size : ℕ) → fd ≢ 0
    → fd ≢ 1
    → is_open s fd ≡ true
    → get_or s.file_names fd none ≡ none
    → (read_into sv s fd buffer size ≡ fault) × (write_from sv s fd buffer size ≡ fault)
unfolding read_into write_from
null_faults {W} sv {s} h fd buffer size n0 n1 yes_open null =
    let below : fd < file_map_size =
      ltb→lt fd file_map_size (and_left (ltb fd file_map_size) (at s.fd_bitmap fd) yes_open) in
    let name : get_elem? s.file_names fd ≡ some none =
      get_elem?-eq-get_or s.file_names fd none (omega (arith, below, h.names)) ∙ ap some null in
    (
      rw (==_ne fd 0 n0, ==_ne fd 1 n1, fd_ok_lem h fd (omega (arith, below)), yes_open, name),
      rw (==_ne fd 0 n0, ==_ne fd 1 n1, fd_ok_lem h fd (omega (arith, below)), yes_open, name),
    )
  where
    and_left : (a b : Bool) → (a && b) ≡ true → a ≡ true
    and_left true b e = refl
    and_left false b e = e

-- The scan finds a free descriptor when there is one, and the least.
First-free :
    {b : Bitmap} {r : ℕ}
    → IsValid b
    → (k : ℕ) → k < b.bit_cnt
    → at b k ≡ false
    → First b 0 1 false r
    → (at b r ≡ false) × (r + 1 ≤ b.bit_cnt) × ((j : ℕ) → j < r → at b j ≡ true)
First-free {b} ok k below free (absent nowhere) = absurd (
    nowhere k (omega arith) (omega arith)
      (λ j lo up. subst (λ i. at b i ≡ false) (k_is j lo up) free))
  where
    k_is : (j : ℕ) → k ≤ j → j < k + 1 → k ≡ j
    k_is j lo up = omega arith
First-free {b} ok k below free (found i lo fits run least) = (
  run i (omega arith) (omega arith),
  fits,
  λ j up. elim (Bool-cases (at b j)) [
    | inl y ↦ y
    | inr n ↦
        absurd
          (least j (omega arith) up (λ m lo hi. subst (λ i. at b i ≡ false) (j_is j m lo hi) n))
  ],
)
  where
    j_is : (j m : ℕ) → j ≤ m → m < j + 1 → j ≡ m
    j_is j m lo up = omega arith

Fills-of :
    {b b' : Bitmap} {cnt r : ℕ} {v : Bool}
    → Claimed b cnt v r b'
    → r < bitmap_error
    → Fits b r cnt × Fills b r cnt (not v) b'
Fills-of full small = absurd (omega arith)
Fills-of (claimed fits fill) small = (fits, fill)

module _ {W : Type 0} (sv : Services W) {s : Process W} (h : IsTable s) where
  -- A descriptor that is not open, with 2 or more as a number of 32 bits: reading and writing return -1 and
  -- closing does nothing, and no service is called.
  pub unopened :
      (fd buffer size : ℕ)
      → fd < 2 ^ 32
      → fd ≢ 0
      → fd ≢ 1
      → is_open s fd ≡ false
      → (read_into sv s fd buffer size ≡ done (record s { eax = minus_one }))
        × (write_from sv s fd buffer size ≡ done (record s { eax = minus_one }))
        × (close_fd sv s fd ≡ done s)
  unfolding read_into write_from close_fd
  unopened fd buffer size w n0 n1 shut = (
    rw (==_ne fd 0 n0, ==_ne fd 1 n1, fd_ok_lem h fd w, shut),
    rw (==_ne fd 0 n0, ==_ne fd 1 n1, fd_ok_lem h fd w, shut),
    rw (fd_ok_lem h fd w, shut),
  )

  free_name : (fd : ℕ) → at s.fd_bitmap fd ≡ false → get_or s.file_names fd none ≡ none
  free_name fd free = elim (Option-cases (get_or s.file_names fd none)) [
    | inl e ↦ e
    | inr (f, e) ↦ cc (sym free ∙ h.used fd f e)
  ]

  used_ne : {i fd : ℕ} → at s.fd_bitmap i ≡ true → at s.fd_bitmap fd ≡ false → fd ≢ i
  used_ne {i} {fd} t f e = cc (sym f ∙ subst (λ j. at s.fd_bitmap j ≡ true) (sym e) t)

  -- The descriptor that `SYS_OPEN` claims.
  claim :
      (k : ℕ)
      → k < file_map_size
      → at s.fd_bitmap k ≡ false
      → (fd : ℕ) × (map : Bitmap) × (scan_and_flip s.fd_bitmap 0 1 false ≡ some (fd, map))
        × Fits s.fd_bitmap fd 1
        × Fills s.fd_bitmap fd 1 true map
        × (at s.fd_bitmap fd ≡ false)
        × ((j : ℕ) → j < fd → at s.fd_bitmap j ≡ true)
  claim k below free =
      let (r, map, run, first, kept) = scan_and_flip-Claimed 0 1 false h.map (omega arith) in
      let (free_r, fits, least) = First-free h.map k (omega (arith, h.cnt, below)) free first in
      let (range, fill) = Fills-of kept (omega (arith, h.map.small, fits)) in
      (r, map, run, range, fill, free_r, least)

  -- `SYS_OPEN` with a free descriptor and a file that opens: the least free descriptor gets the file, and
  -- nothing else of the table changes.
  pub open_named-Opened :
      (name k file : ℕ) (w : W)
      → k < file_map_size
      → at s.fd_bitmap k ≡ false
      → sv.filesys_open s.world name ≡ some (some file, w)
      → (fd : ℕ) × (s' : Process W) × (open_named sv s name ≡ done s') × Opened s file w fd s'
  unfolding open_named opened
  open_named-Opened name k file w below free opens =
      let (fd, map, run, fits, fill, free_fd, least) = claim k below free in
      let in_range : fd < bitmap_error = omega (arith, fits.below, h.cnt) in
      (
        fd,
        opened sv (record s { fd_bitmap = map }) fd (some file, w),
        rw (run, ==_ne fd bitmap_error (omega arith), opens),
        record {
          table = claimed-IsTable sv h fd (some file, w) fits fill;
          result = refl;
          moved = refl;
          below = omega (arith, fits.below, h.cnt);
          was_free = free_fd;
          least = least;
          marks = λ j. fill.bits j ∙ ground arith;
          names = refl;
        },
      )

  -- `SYS_CLOSE` of a descriptor that has a file: the file is closed and the descriptor is free.
  close_fd-done :
      (fd file : ℕ)
      → fd < file_map_size
      → get_or s.file_names fd none ≡ some file
      → (s' : Process W) × (close_fd sv s fd ≡ done s')
        × (s'.world ≡ sv.file_close s.world file)
        × ((j : ℕ) → at s'.fd_bitmap j ≡ (if fd == j then false else at s.fd_bitmap j))
        × (s'.file_names ≡ set s.file_names fd none)
  unfolding close_fd
  close_fd-done fd file below e =
      let (map, run, written) = set_bit-Writes h.map fd (omega (arith, below, h.cnt)) false in
      let name : get_elem? s.file_names fd ≡ some (some file) =
        get_elem?-eq-get_or s.file_names fd none (omega (arith, below, h.names)) ∙ ap some e in
      let opened_it : is_open s fd ≡ true = rw (lt→ltb fd file_map_size below) (h.used fd file e) in
      (
        record s {
          world = sv.file_close s.world file;
          fd_bitmap = map;
          file_names = set s.file_names fd none;
        },
        rw (fd_ok_lem h fd (omega (arith, below)), opened_it, name, run),
        refl,
        written.bits,
        refl,
      )

  -- `SYS_OPEN` with a free descriptor and a file that does not open, when 0 and 1 are taken: the call
  -- returns -1 and a descriptor without a file is marked for good; to read from it or write to it
  -- makes the kernel fault.
  pub open_named-leaks :
      (name k buffer size : ℕ) (w : W)
      → k < file_map_size
      → at s.fd_bitmap k ≡ false
      → at s.fd_bitmap 0 ≡ true
      → at s.fd_bitmap 1 ≡ true
      → sv.filesys_open s.world name ≡ some (none, w)
      → (fd : ℕ) × (s' : Process W) × (open_named sv s name ≡ done s')
        × (s'.eax ≡ minus_one)
        × (is_open s fd ≡ false)
        × (is_open s' fd ≡ true)
        × (read_into sv s' fd buffer size ≡ fault)
        × (write_from sv s' fd buffer size ≡ fault)
  unfolding open_named opened
  open_named-leaks name k buffer size w below free t0 t1 opens =
      let (fd, map, run, fits, fill, free_fd, least) = claim k below free in
      let in_range : fd < file_map_size = omega (arith, fits.below, h.cnt) in
      let s' : Process W = opened sv (record s { fd_bitmap = map }) fd (none, w) in
      let table : IsTable s' = claimed-IsTable sv h fd (none, w) fits fill in
      let open_now : at map fd ≡ true = fill.bits fd ∙ ground arith in
      let (r, wr) =
        null_faults sv table fd buffer size (used_ne t0 free_fd) (used_ne t1 free_fd)
          (rw (lt→ltb fd file_map_size in_range) open_now) (free_name fd free_fd) in
      (
        fd,
        s',
        rw (run, ==_ne fd bitmap_error (omega (arith, in_range)), opens),
        refl,
        rw (lt→ltb fd file_map_size in_range) free_fd,
        rw (lt→ltb fd file_map_size in_range) open_now,
        r,
        wr,
      )

get_or-set_back :
    {A : Type 0} (xs : List A) (i : ℕ) (a b d : A)
    → get_or xs i d ≡ b
    → (j : ℕ) → get_or (set (set xs i a) i b) j d ≡ get_or xs j d
get_or-set_back [] i a b d e j = refl
get_or-set_back (x ∷ xs) zero a b d e zero = sym e
get_or-set_back (x ∷ xs) zero a b d e (suc j) = refl
get_or-set_back (x ∷ xs) (suc i) a b d e zero = refl
get_or-set_back (x ∷ xs) (suc i) a b d e (suc j) = get_or-set_back xs i a b d e j

-- To open a file and close what `SYS_OPEN` returned closes this file, and leaves every descriptor and every
-- name as it was before.
pub open_named-close_fd :
    {W : Type 0} (sv : Services W) {s : Process W}
    → IsTable s
    → (name k file : ℕ) (w : W) → k < file_map_size
    → at s.fd_bitmap k ≡ false
    → sv.filesys_open s.world name ≡ some (some file, w)
    → (s' s'' : Process W) × (open_named sv s name ≡ done s')
      × (close_fd sv s' s'.eax ≡ done s'')
      × (s''.world ≡ sv.file_close w file)
      × ((j : ℕ) → at s''.fd_bitmap j ≡ at s.fd_bitmap j)
      × ((j : ℕ) → get_or s''.file_names j none ≡ get_or s.file_names j none)
open_named-close_fd sv {s} h name k file w below free opens =
    let (fd, s', run, o) = open_named-Opened sv h name k file w below free opens in
    let in_names : fd < length s.file_names = omega (arith, o.below, h.names) in
    let named : get_or s'.file_names fd none ≡ some file =
      ap (λ l. get_or l fd none) o.names
      ∙ get_or-set_self s.file_names fd (some file) none in_names in
    let (s'', close, world, marks, names) = close_fd-done sv o.table fd file o.below named in
    (
      s',
      s'',
      run,
      subst (λ i. close_fd sv s' i ≡ done s'') (sym o.result) close,
      world ∙ ap (λ v. sv.file_close v file) o.moved,
      λ j. marks j ∙ ground (arith, o.marks j, o.was_free),
      λ j.
          ap (λ l. get_or l j none) (names ∙ ap (λ l. set l fd none) o.names)
          ∙ get_or-set_back s.file_names fd (some file) none none (free_name sv h fd o.was_free) j,
    )

-- `SYS_CLOSE` of descriptor 0, which is marked and has no file, frees it: the next file that is opened gets 0,
-- and `SYS_READ` of that descriptor reads the console and not the file.
pub close_fd-zero :
    {W : Type 0} (sv : Services W) {s : Process W}
    → IsTable s
    → (name file buffer size : ℕ) (w : W) → at s.fd_bitmap 0 ≡ true
    → get_or s.file_names 0 none ≡ none
    → sv.filesys_open s.world name ≡ some (some file, w)
    → (s' s'' : Process W) × (close_fd sv s 0 ≡ done s')
      × (open_named sv s' name ≡ done s'')
      × (s''.eax ≡ 0)
      × (get_or s''.file_names 0 none ≡ some file)
      × (read_into sv s'' s''.eax buffer size ≡ read_console sv s'' buffer size)
unfolding read_into close_fd
close_fd-zero {W} sv {s} h name file buffer size w marked null opens =
    let (map, run, written) = set_bit-Writes h.map 0 (omega (arith, h.cnt)) false in
    let named : get_elem? s.file_names 0 ≡ some none =
      get_elem?-eq-get_or s.file_names 0 none (omega (arith, h.names)) ∙ ap some null in
    let s' : Process W = record s { fd_bitmap = map; file_names = set s.file_names 0 none } in
    let table : IsTable s' = closed-IsTable sv h s.world 0 (omega (arith, h.cnt)) written in
    let (fd, s'', run', o) =
      open_named-Opened sv table name 0 file w (omega arith) (written.bits 0) opens in
    let zero_fd : fd ≡ 0 = first_zero fd o.least (written.bits 0) in
    (
      s',
      s'',
      rw (fd_ok_lem h 0 (omega arith), marked, named, run),
      run',
      o.result ∙ zero_fd,
      ap (λ l. get_or l 0 none) o.names
          ∙ ap (λ i. get_or (set s'.file_names i (some file)) 0 none) zero_fd
          ∙ get_or-set_self s'.file_names 0 (some file) none (omega (arith, table.names)),
      rw (o.result, zero_fd),
    )
  where
    first_zero : {f : ℕ → Bool} (fd : ℕ) → ((j : ℕ) → j < fd → f j ≡ true) → f 0 ≡ false → fd ≡ 0
    first_zero zero least e = refl
    first_zero (suc n) least e = cc (sym (least 0 (omega arith)) ∙ e)
