-- ===== src/Syscall.antt =====
-- userprog/syscall.c: the handler of system calls and the table of open files of a process, with
-- `is_user_vaddr` of threads/vaddr.h. Files, the console, the user's memory and the other processes are
-- services that the handler calls; a word is a number below 2 ^ 32.
pub mod Table
pub mod Open
mod Tests
use tddb.Base.{
  ℕ, zero, suc, ◌+◌, ◌-◌, ◌*◌, ◌%◌, ◌^◌, Bool, true, false, not, ◌&&◌, ◌||◌, Option, none, some,
  List, ◌==◌, ltb, leb, if◌then◌else◌, get_elem?, set,
}
use tddb.Bitmap.{Bitmap, bitmap_error, test, set_bit, scan_and_flip}

-- `file_map_size`
abbrev pub file_map_size : ℕ
file_map_size = 128

-- What the handler calls, over the state `W` of the machine. A file is named by its address; `none` is a
-- page fault inside the kernel, or a null file where a file is wanted.
pub record Services (W : Type 0) : Type 0 where
  pub get_page : W → ℕ → Bool
  pub load : W → ℕ → Option ℕ
  pub store : W → ℕ → ℕ → Option W
  pub input_getc : W → ℕ × W
  pub putbuf : W → ℕ → ℕ → Option W
  pub file_read : W → ℕ → ℕ → ℕ → Option (ℕ × W)
  pub file_write : W → ℕ → ℕ → ℕ → Option (ℕ × W)
  pub file_close : W → ℕ → W
  pub filesys_create : W → ℕ → ℕ → Option (Bool × W)
  pub filesys_open : W → ℕ → Option (Option ℕ × W)
  pub process_execute : W → ℕ → Option (ℕ × W)
  pub process_wait : W → ℕ → ℕ × W

-- The running process: its descriptors, its files, and the `eax` of the frame.
pub record Process (W : Type 0) : Type 0 where
  pub world : W
  pub fd_bitmap : Bitmap
  pub file_names : List (Option ℕ)
  pub eax : ℕ

-- How a call of the handler ends: it returns, the process exits with a status or without one, the
-- machine is off, or the kernel faults.
pub data Result {ℓ} (W : Type 0) (A : Type ℓ) : Type ℓ where
  done : A → Result W A
  exited : ℕ → Process W → Result W A
  killed : Process W → Result W A
  off : Process W → Result W A
  fault : Result W A

infixl 5 ◌>>=◌ ◌>>◌
abbrev pub ◌>>=◌ {ℓ κ} :
    {W : Type 0} {A : Type ℓ} {B : Type κ} → Result W A → (A → Result W B) → Result W B
done a >>= f = f a
exited n s >>= f = exited n s
killed s >>= f = killed s
off s >>= f = off s
fault >>= f = fault

abbrev pub ◌>>◌ {κ} : {W : Type 0} {B : Type κ} → Result W (Unit {0}) → Result W B → Result W B
m >> k = m >>= λ _. k

abbrev pub lift {ℓ} : {W : Type 0} {A : Type ℓ} → Option A → Result W A
lift none = fault
lift (some a) = done a

-- `-1` as a word
abbrev pub minus_one : ℕ
minus_one = 2 ^ 32 - 1

-- `(int) a < (int) b`
abbrev pub signed_lt : ℕ → ℕ → Bool
signed_lt a b = ltb ((a + 2 ^ 31) % 2 ^ 32) ((b + 2 ^ 31) % 2 ^ 32)

-- `p + k` for a pointer to words
abbrev pub word_at : ℕ → ℕ → ℕ
word_at p k = (p + 4 * k) % 2 ^ 32

abbrev pub is_user_vaddr : ℕ → Bool
is_user_vaddr p = ltb p (2 ^ 32 - 2 ^ 30)

unfoldable pub fd_ok : ℕ → Bitmap → Option Bool
fd_ok fd map = if signed_lt fd map.bit_cnt && not (signed_lt fd 0) then test map fd else some false

-- The handler, its state explicit.
module _ {W : Type 0} (sv : Services W) where
  abbrev pub check_valid_pointer : Process W → ℕ → Result W (Unit {0})
  check_valid_pointer s p =
      if not (is_user_vaddr p) || ltb p (134512640) then exited minus_one s else done tt

  abbrev pub check_pagedir : Process W → ℕ → Result W (Unit {0})
  check_pagedir s p = if sv.get_page s.world p then done tt else exited minus_one s

  -- A word of the user's memory
  abbrev pub fetch : Process W → ℕ → Result W ℕ
  fetch s a = lift (sv.load s.world a)

  -- the file behind a descriptor that `fd_ok` let through; a null one is dereferenced
  abbrev pub file_at : Process W → ℕ → Result W ℕ
  file_at s fd = lift (get_elem? s.file_names fd) >>= lift

  -- the rounds of the loop that reads the console, from `i` on; `n` are left
  unfoldable pub read_keys : W → ℕ → ℕ → ℕ → Option W
  read_keys w buffer i zero = some w
  read_keys w buffer i (suc n) =
      let (key, w1) = sv.input_getc w in
      elim (sv.store w1 ((buffer + i) % 2 ^ 32) (key % 2 ^ 8)) [
        | none ↦ none
        | some w2 ↦ read_keys w2 buffer (suc i) n
      ]

  -- how often `for (i = 0; i < (int) size; i++)` goes round
  abbrev pub rounds : ℕ → ℕ
  rounds size = if signed_lt 0 size then size else 0

  abbrev pub read_console : Process W → ℕ → ℕ → Result W (Process W)
  read_console s buffer size = lift (read_keys s.world buffer 0 (rounds size)) >>= λ w.
      done (record s { world = w; eax = rounds size })

  abbrev pub read_file : Process W → ℕ → ℕ → ℕ → Result W (Process W)
  read_file s fd buffer size = file_at s fd >>= λ file.
      lift (sv.file_read s.world file buffer size) >>= λ r.
      done (record s { world = r.1; eax = r.0 })

  abbrev pub write_file : Process W → ℕ → ℕ → ℕ → Result W (Process W)
  write_file s fd buffer size = file_at s fd >>= λ file.
      lift (sv.file_write s.world file buffer size) >>= λ r.
      done (record s { world = r.1; eax = r.0 })

  -- `SYS_READ` after the arguments are read
  unfoldable pub read_into : Process W → ℕ → ℕ → ℕ → Result W (Process W)
  unfolding fd_ok
  read_into s fd buffer size =
      if fd == 0
      then read_console s buffer size
      else if fd == 1
      then done (record s { eax = minus_one })
      else (lift (fd_ok fd s.fd_bitmap) >>= λ ok.
          if ok then read_file s fd buffer size else done (record s { eax = minus_one }))

  unfoldable pub sys_read : Process W → ℕ → Result W (Process W)
  unfolding read_into
  sys_read s p = do
    fd ← fetch s (word_at p 1)
    check_valid_pointer s (word_at p 1)
    buffer ← fetch s (word_at p 2)
    check_valid_pointer s buffer
    check_pagedir s (word_at p 2)
    size ← fetch s (word_at p 3)
    check_valid_pointer s (word_at p 3)
    read_into s fd buffer size

  -- `SYS_WRITE` after the arguments are read; the console leaves `eax` as it was
  unfoldable pub write_from : Process W → ℕ → ℕ → ℕ → Result W (Process W)
  unfolding fd_ok
  write_from s fd buffer size =
      if fd == 1
      then (lift (sv.putbuf s.world buffer size) >>= λ w. done (record s { world = w }))
      else if fd == 0
      then done (record s { eax = minus_one })
      else (lift (fd_ok fd s.fd_bitmap) >>= λ ok.
          if ok then write_file s fd buffer size else done (record s { eax = minus_one }))

  unfoldable pub sys_write : Process W → ℕ → Result W (Process W)
  unfolding write_from
  sys_write s p = do
    fd ← fetch s (word_at p 1)
    check_valid_pointer s (word_at p 1)
    buffer ← fetch s (word_at p 2)
    check_valid_pointer s buffer
    check_pagedir s buffer
    size ← fetch s (word_at p 3)
    check_valid_pointer s (word_at p 3)
    write_from s fd buffer size

  unfoldable pub sys_create : Process W → ℕ → Result W (Process W)
  sys_create s p = do
    name ← fetch s (word_at p 1)
    check_valid_pointer s name
    check_pagedir s name
    size ← fetch s (word_at p 2)
    check_valid_pointer s (word_at p 3)
    r ← lift (sv.filesys_create s.world name size)
    done (record s { world = r.1; eax = if r.0 then 1 else 0 })

  -- `SYS_OPEN` after its checks: a descriptor is claimed, then the file is opened.
  unfoldable pub opened : Process W → ℕ → Option ℕ × W → Process W
  opened s fd (none, w) = record s { world = w; eax = minus_one }
  opened s fd (some file, w) = record s {
    world = w;
    file_names = set s.file_names fd (some file);
    eax = fd;
  }

  unfoldable pub open_named : Process W → ℕ → Result W (Process W)
  unfolding opened
  open_named s name = lift (scan_and_flip s.fd_bitmap 0 1 false) >>= λ r.
      if r.0 == bitmap_error
      then done (record s { fd_bitmap = r.1; eax = minus_one })
      else (lift (sv.filesys_open s.world name) >>= λ o.
          done (opened (record s { fd_bitmap = r.1 }) (r.0) o))

  unfoldable pub sys_open : Process W → ℕ → Result W (Process W)
  unfolding open_named
  sys_open s p = do
    name ← fetch s (word_at p 1)
    check_valid_pointer s name
    check_pagedir s name
    open_named s name

  -- `file_close`, which ignores a null file
  abbrev pub close_file : Option ℕ → W → W
  close_file none w = w
  close_file (some file) w = sv.file_close w file

  -- `SYS_CLOSE` after its check
  unfoldable pub close_fd : Process W → ℕ → Result W (Process W)
  unfolding fd_ok
  close_fd s fd = lift (fd_ok fd s.fd_bitmap) >>= λ ok.
      if ok
      then (lift (get_elem? s.file_names fd) >>= λ file.
          lift (set_bit s.fd_bitmap fd false) >>= λ map. done (record s {
            world = close_file file s.world;
            fd_bitmap = map;
            file_names = set s.file_names fd none;
          }))
      else done s

  unfoldable pub sys_close : Process W → ℕ → Result W (Process W)
  unfolding close_fd
  sys_close s p = do fd ← fetch s (word_at p 1); check_valid_pointer s (word_at p 1); close_fd s fd

  unfoldable pub sys_exec : Process W → ℕ → Result W (Process W)
  sys_exec s p = do
    name ← fetch s (word_at p 1)
    check_valid_pointer s name
    check_pagedir s name
    if name == 0
        then done (record s { eax = minus_one })
        else (lift (sv.process_execute s.world name) >>= λ r.
            done (record s { world = r.1; eax = r.0 }))

  unfoldable pub sys_exit : Process W → ℕ → Result W (Process W)
  sys_exit s p = do
    status ← fetch s (word_at p 1)
    check_valid_pointer s (word_at p 1)
    exited status s

  unfoldable pub sys_wait : Process W → ℕ → Result W (Process W)
  sys_wait s p = do
    tid ← fetch s (word_at p 1)
    check_valid_pointer s (word_at p 1)
    let r = sv.process_wait s.world tid
    done (record s { world = r.1; eax = r.0 })

  -- the cases of the switch, by the numbers of lib/syscall-nr.h
  unfoldable pub dispatch : ℕ → Process W → ℕ → Result W (Process W)
  unfolding sys_read sys_write sys_create sys_open sys_close sys_exec sys_exit sys_wait
  dispatch n s p =
      if n == 0
      then off s
      else if n == 8
      then sys_read s p
      else if n == 9
      then sys_write s p
      else if n == 4
      then sys_create s p
      else if n == 6
      then sys_open s p
      else if n == 12
      then sys_close s p
      else if n == 2
      then sys_exec s p
      else if n == 1
      then sys_exit s p
      else if n == 3
      then sys_wait s p
      else killed s

  unfoldable pub syscall_handler : Process W → ℕ → Result W (Process W)
  unfolding dispatch
  syscall_handler s p = do
    check_valid_pointer s p
    check_pagedir s p
    number ← fetch s p
    dispatch number s p
