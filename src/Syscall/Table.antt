-- ===== src/Syscall/Table.antt =====
-- The table of open files under every system call.
use mathlib.Core.Path.{subst}
use tddb.Base.{
  ℕ, ◌<◌, Bool, true, false, Option, none, some, ◌==◌, ltb, if◌then◌else◌, get_elem?, set, get_or,
  length, length-set, get_or-set_self, get_or-set_ne, ◌≡◌, refl, sym, ap, ◌∙◌, arith, Bool-cases,
  inl, inr, ℕ_discrete,
}
use tddb.Bitmap.{Bitmap, bitmap_error, test, set_bit, scan_and_flip}
use tddb.Bitmap.Bit.{at, IsValid, Writes, set_bit-Writes, Writes-IsValid}
use tddb.Bitmap.Range.{Fits, Fills, Fills-IsValid}
use tddb.Bitmap.Scan.{Claimed, full, claimed, scan_and_flip-Claimed}
use tddb.Syscall.{
  Services, Process, Result, done, exited, killed, off, fault, ◌>>=◌, lift, fd_ok,
  check_valid_pointer, check_pagedir, fetch, opened, open_named, close_file, close_fd, read_into,
  write_from, sys_read, sys_write, sys_create, sys_open, sys_close, sys_exec, sys_exit, sys_wait,
  dispatch, syscall_handler, minus_one, file_map_size, word_at, read_keys, rounds,
}

module _ {W : Type 0} where
  -- Every descriptor with a file is marked in the bitmap, which has as many bits as there are descriptors.
  pub record IsTable (s : Process W) : Type 0 where
    pub map : IsValid s.fd_bitmap
    pub cnt : s.fd_bitmap.bit_cnt ≡ file_map_size
    pub names : length s.file_names ≡ file_map_size
    pub used : (fd f : ℕ) → get_or s.file_names fd none ≡ some f → at s.fd_bitmap fd ≡ true

  -- However a call ends, the table is kept.
  pub data Ends : Result W (Process W) → Type 0 where
    returns : {s : Process W} → IsTable s → Ends (done s)
    exits : {n : ℕ} {s : Process W} → IsTable s → Ends (exited n s)
    dies : {s : Process W} → IsTable s → Ends (killed s)
    halts : {s : Process W} → IsTable s → Ends (off s)
    faults : Ends fault

  -- A step that may only fault or hand on a value
  Ends-lift :
      {A : Type 0} (o : Option A) (f : A → Result W (Process W))
      → ((a : A) → o ≡ some a → Ends (f a))
      → Ends (lift o >>= f)
  Ends-lift none f g = faults
  Ends-lift (some a) f g = g a refl

  Ends-if :
      (b : Bool) {m n : Result W (Process W)}
      → (b ≡ true → Ends m)
      → (b ≡ false → Ends n)
      → Ends (if b then m else n)
  Ends-if true f g = f refl
  Ends-if false f g = g refl

  moved-IsTable :
      {s : Process W} → IsTable s → (w : W) (e : ℕ) → IsTable (record s { world = w; eax = e })
  moved-IsTable h w e = record { map = h.map; cnt = h.cnt; names = h.names; used = h.used }

  Ends-file :
      (o : Option (Option ℕ)) (f : ℕ → Result W (Process W))
      → ((a : ℕ) → Ends (f a))
      → Ends ((lift o >>= lift) >>= f)
  Ends-file none f g = faults
  Ends-file (some none) f g = faults
  Ends-file (some (some a)) f g = g a

  -- a check that lets the call go on, or ends it where it is
  Ends-guard :
      {s : Process W} (b : Bool) (n : ℕ) (f : Unit {0} → Result W (Process W))
      → IsTable s
      → Ends (f tt)
      → Ends ((if b then exited n s else done tt) >>= f)
  Ends-guard true n f h g = exits h
  Ends-guard false n f h g = g

  Ends-pass :
      {s : Process W} (b : Bool) (n : ℕ) (f : Unit {0} → Result W (Process W))
      → IsTable s
      → Ends (f tt)
      → Ends ((if b then done tt else exited n s) >>= f)
  Ends-pass true n f h g = g
  Ends-pass false n f h g = exits h

pub fd_ok-test : (fd : ℕ) (map : Bitmap) → fd_ok fd map ≡ some true → test map fd ≡ some true
unfolding fd_ok
fd_ok-test fd map e = ground arith

pub test-below : (b : Bitmap) (i : ℕ) {v : Bool} → test b i ≡ some v → i < b.bit_cnt
unfolding test
test-below b i e = elim (Bool-cases (ltb i b.bit_cnt)) [
  | inl l ↦ ground arith
  | inr l ↦ cc (rw l at e)
]

some_inj : {A : Type 0} {a b : A} → some a ≡ some b → a ≡ b
some_inj e = cc

module _ {W : Type 0} (sv : Services W) {s : Process W} (h : IsTable s) where
  Ends-check :
      (a : ℕ) (f : Unit {0} → Result W (Process W))
      → Ends (f tt)
      → Ends (check_valid_pointer sv s a >>= f)
  Ends-check a f g = Ends-guard _ _ f h g

  Ends-page :
      (a : ℕ) (f : Unit {0} → Result W (Process W))
      → Ends (f tt)
      → Ends (check_pagedir sv s a >>= f)
  Ends-page a f g = Ends-pass _ _ f h g

  read_into-Ends : (fd buffer size : ℕ) → Ends (read_into sv s fd buffer size)
  unfolding read_into
  read_into-Ends fd buffer size =
      Ends-if (fd == 0)
        (λ e.
          Ends-lift (read_keys sv s.world buffer 0 (rounds sv size)) _
            (λ w e. returns (moved-IsTable h w (rounds sv size))))
        (λ e.
          Ends-if (fd == 1) (λ e. returns (moved-IsTable h s.world minus_one))
            (λ e. Ends-lift (fd_ok fd s.fd_bitmap) _ (λ ok e.
              Ends-if ok
                (λ t. Ends-file (get_elem? s.file_names fd) _ (λ a.
                  Ends-lift (sv.file_read s.world a buffer size) _
                    (λ r e. returns (moved-IsTable h (r.1) (r.0)))))
                (λ t. returns (moved-IsTable h s.world minus_one)))))

  Ends-fetch :
      (a : ℕ) (f : ℕ → Result W (Process W)) → ((v : ℕ) → Ends (f v)) → Ends (fetch sv s a >>= f)
  Ends-fetch a f g = Ends-lift (sv.load s.world a) f (λ v e. g v)

  -- the three arguments of `SYS_READ` and `SYS_WRITE`, whichever address `page` is looked up
  sys_read-Ends : (p : ℕ) → Ends (sys_read sv s p)
  unfolding sys_read
  sys_read-Ends p = Ends-fetch (word_at p 1) _ (λ fd. Ends-check (word_at p 1) _ (
      Ends-fetch (word_at p 2) _ (λ buffer. Ends-check buffer _ (
        Ends-page (word_at p 2) _ (
          Ends-fetch (word_at p 3) _
            (λ size. Ends-check (word_at p 3) _ (read_into-Ends fd buffer size)))))))

  write_from-Ends : (fd buffer size : ℕ) → Ends (write_from sv s fd buffer size)
  unfolding write_from
  write_from-Ends fd buffer size =
      Ends-if (fd == 1)
        (λ e.
          Ends-lift (sv.putbuf s.world buffer size) _ (λ w e. returns (moved-IsTable h w s.eax)))
        (λ e.
          Ends-if (fd == 0) (λ e. returns (moved-IsTable h s.world minus_one))
            (λ e. Ends-lift (fd_ok fd s.fd_bitmap) _ (λ ok e.
              Ends-if ok
                (λ t. Ends-file (get_elem? s.file_names fd) _ (λ a.
                  Ends-lift (sv.file_write s.world a buffer size) _
                    (λ r e. returns (moved-IsTable h (r.1) (r.0)))))
                (λ t. returns (moved-IsTable h s.world minus_one)))))

  sys_write-Ends : (p : ℕ) → Ends (sys_write sv s p)
  unfolding sys_write
  sys_write-Ends p = Ends-fetch (word_at p 1) _ (λ fd. Ends-check (word_at p 1) _ (
      Ends-fetch (word_at p 2) _ (λ buffer. Ends-check buffer _ (
        Ends-page buffer _ (
          Ends-fetch (word_at p 3) _
            (λ size. Ends-check (word_at p 3) _ (write_from-Ends fd buffer size)))))))

  sys_create-Ends : (p : ℕ) → Ends (sys_create sv s p)
  unfolding sys_create
  sys_create-Ends p = Ends-fetch (word_at p 1) _ (λ name. Ends-check name _ (
      Ends-page name _ (
        Ends-fetch (word_at p 2) _ (λ size. Ends-check (word_at p 3) _ (
          Ends-lift (sv.filesys_create s.world name size) _
            (λ r e. returns (moved-IsTable h (r.1) (if r.0 then 1 else 0))))))))

  sys_exec-Ends : (p : ℕ) → Ends (sys_exec sv s p)
  unfolding sys_exec
  sys_exec-Ends p = Ends-fetch (word_at p 1) _ (λ name. Ends-check name _ (
      Ends-page name _ (
        Ends-if (name == 0) (λ e. returns (moved-IsTable h s.world minus_one))
          (λ e.
            Ends-lift (sv.process_execute s.world name) _
              (λ r e. returns (moved-IsTable h (r.1) (r.0)))))))

  sys_exit-Ends : (p : ℕ) → Ends (sys_exit sv s p)
  unfolding sys_exit
  sys_exit-Ends p = Ends-fetch (word_at p 1) _ (λ status. Ends-check (word_at p 1) _ (exits h))

  sys_wait-Ends : (p : ℕ) → Ends (sys_wait sv s p)
  unfolding sys_wait
  sys_wait-Ends p = Ends-fetch (word_at p 1) _ (λ tid.
      Ends-check (word_at p 1) _
        (returns (moved-IsTable h (sv.process_wait s.world tid).1 (sv.process_wait s.world tid).0)))

  -- A file goes into a descriptor that has just been claimed.
  pub claimed-IsTable :
      {map : Bitmap} (fd : ℕ) (o : Option ℕ × W)
      → Fits s.fd_bitmap fd 1
      → Fills s.fd_bitmap fd 1 true map
      → IsTable (opened sv (record s { fd_bitmap = map }) fd o)
  unfolding opened
  claimed-IsTable {map} fd (none, w) fits fill = record {
    map = Fills-IsValid fill h.map;
    cnt = fill.same_cnt ∙ h.cnt;
    names = h.names;
    used = λ j f e. ground (arith, h.used j f, fill.bits j);
  }
  claimed-IsTable {map} fd (some file, w) fits fill = record {
    map = Fills-IsValid fill h.map;
    cnt = fill.same_cnt ∙ h.cnt;
    names = length-set s.file_names fd (some file) ∙ h.names;
    used = λ j f e. elim (ℕ_discrete fd j) [
      | yes p ↦ fill.bits j ∙ ground arith
      | no ne ↦
          fill.bits j
          ∙ ground
              (arith, h.used j f (sym (get_or-set_ne s.file_names fd j (some file) none ne) ∙ e))
    ];
  }

  pub closed-IsTable :
      {map : Bitmap} (w : W) (fd : ℕ)
      → fd < s.fd_bitmap.bit_cnt
      → Writes s.fd_bitmap fd false map
      → IsTable (record s { world = w; fd_bitmap = map; file_names = set s.file_names fd none })
  closed-IsTable {map} w fd below written = record {
    map = Writes-IsValid written h.map;
    cnt = written.cnt ∙ h.cnt;
    names = length-set s.file_names fd none ∙ h.names;
    used = λ j f e. elim (ℕ_discrete fd j) [
      | yes p ↦
          let gone =
            get_or-set_self s.file_names fd none none (omega (arith, h.cnt, h.names, below)) in
          cc (sym gone ∙ ap (λ k. get_or (set s.file_names fd none) k none) p ∙ e)
      | no ne ↦
          written.bits j
          ∙ ground (arith, h.used j f (sym (get_or-set_ne s.file_names fd j none none ne) ∙ e))
    ];
  }

  close_fd-Ends : (fd : ℕ) → Ends (close_fd sv s fd)
  unfolding close_fd
  close_fd-Ends fd = Ends-lift (fd_ok fd s.fd_bitmap) _ (λ ok e.
      Ends-if ok
        (λ t.
          let below = test-below s.fd_bitmap fd (fd_ok-test fd s.fd_bitmap (e ∙ ap some t)) in
          let (map, run, written) = set_bit-Writes h.map fd below false in
          Ends-lift (get_elem? s.file_names fd) _ (λ file e.
            Ends-lift (set_bit s.fd_bitmap fd false) _ (λ m e. returns (
              closed-IsTable (close_file sv file s.world) fd below
                (subst (Writes s.fd_bitmap fd false) (some_inj (sym run ∙ e)) written)))))
        (λ t. returns h))

  sys_close-Ends : (p : ℕ) → Ends (sys_close sv s p)
  unfolding sys_close
  sys_close-Ends p =
      Ends-fetch (word_at p 1) _ (λ fd. Ends-check (word_at p 1) _ (close_fd-Ends fd))

  open_named-Ends : (name : ℕ) → Ends (open_named sv s name)
  unfolding open_named
  open_named-Ends name = Ends-lift (scan_and_flip s.fd_bitmap 0 1 false) _ (λ r e.
      let (i, map, run, first, kept) = scan_and_flip-Claimed 0 1 false h.map (omega arith) in
      go (subst (λ p. Claimed s.fd_bitmap 1 false (p.0) (p.1)) (some_inj (sym run ∙ e)) kept))
    where
      go :
          {i : ℕ} {map : Bitmap}
          → Claimed s.fd_bitmap 1 false i map
          → Ends (
              if i == bitmap_error
              then done (record s { fd_bitmap = map; eax = minus_one })
              else (lift (sv.filesys_open s.world name) >>= λ o.
                  done (opened sv (record s { fd_bitmap = map }) i o)))
      go full = returns (moved-IsTable h s.world minus_one)
      go (claimed {i} {b'} fits fill) =
          Ends-if (i == bitmap_error) (λ e. absurd (ground (arith, fits.below, h.cnt)))
            (λ e.
              Ends-lift (sv.filesys_open s.world name) _
                (λ o e. returns (claimed-IsTable i o fits fill)))

  sys_open-Ends : (p : ℕ) → Ends (sys_open sv s p)
  unfolding sys_open
  sys_open-Ends p =
      Ends-fetch (word_at p 1) _
        (λ name. Ends-check name _ (Ends-page name _ (open_named-Ends name)))

  dispatch-Ends : (n p : ℕ) → Ends (dispatch sv n s p)
  unfolding dispatch
  dispatch-Ends n p =
      Ends-if (n == 0) (λ e. halts h)
        (λ e.
          Ends-if (n == 8) (λ e. sys_read-Ends p)
            (λ e.
              Ends-if (n == 9) (λ e. sys_write-Ends p)
                (λ e.
                  Ends-if (n == 4) (λ e. sys_create-Ends p)
                    (λ e.
                      Ends-if (n == 6) (λ e. sys_open-Ends p)
                        (λ e.
                          Ends-if (n == 12) (λ e. sys_close-Ends p)
                            (λ e.
                              Ends-if (n == 2) (λ e. sys_exec-Ends p)
                                (λ e.
                                  Ends-if (n == 1) (λ e. sys_exit-Ends p)
                                    (λ e.
                                      Ends-if (n == 3) (λ e. sys_wait-Ends p) (λ e. dies h)))))))))

  -- Whatever the user program passes and however the call ends, short of a fault of the kernel, the table
  -- of open files is kept: every descriptor with a file stays marked in the bitmap.
  pub syscall_handler-Ends : (p : ℕ) → Ends (syscall_handler sv s p)
  unfolding syscall_handler
  syscall_handler-Ends p =
      Ends-check p _ (Ends-page p _ (Ends-fetch p _ (λ number. dispatch-Ends number p)))
