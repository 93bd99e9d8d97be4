-- ===== src/Syscall/Tests.antt =====
-- Tests of the system calls, and each property at a small machine.
use tddb.Base.{
  ℕ, zero, suc, ◌-◌, ◌^◌, true, Option, none, some, [], ◌∷◌, ◌==◌, if◌then◌else◌, get_or, replicate,
  ◌≡◌, refl, sym, ◌∙◌, arith, length-replicate,
}
use tddb.Bitmap.Bit.{at}
use tddb.Base.Bits.{bit}
use tddb.Syscall.{
  Services, Process, done, exited, open_named, close_fd, write_from, syscall_handler, minus_one,
  file_map_size,
}
use tddb.Syscall.Table.{IsTable, Ends, syscall_handler-Ends}
use tddb.Syscall.Open.{open_named-close_fd}

-- The state is the number of files that were closed. The file named 7 is the only one there is; the user's
-- stack is at 0x08050000 and asks for `close (2)`.
abbrev machine : Services ℕ
machine = record {
  get_page = λ w a. true;
  load = λ w a. some (if a == 134545408 then 12 else 2);
  store = λ w a b. some w;
  input_getc = λ w. (65, w);
  putbuf = λ w a n. some w;
  file_read = λ w f a n. some (n, w);
  file_write = λ w f a n. some (n, w);
  file_close = λ w f. suc w;
  filesys_create = λ w a n. some (true, w);
  filesys_open = λ w a. some (if a == 7 then some 100 else none, w);
  process_execute = λ w a. some (minus_one, w);
  process_wait = λ w t. (minus_one, w);
}

-- as `thread_create` leaves it: descriptors 0 and 1 are taken, and no file is open.
abbrev process : Process ℕ
process = record {
  world = 0;
  fd_bitmap = record { bit_cnt = 128; bits = 3 ∷ 0 ∷ 0 ∷ 0 ∷ [] };
  file_names = replicate file_map_size none;
  eax = 0;
}

get_or-replicate : {A : Type 0} (n j : ℕ) (a : A) → get_or (replicate n a) j a ≡ a
get_or-replicate zero j a = refl
get_or-replicate (suc n) zero a = refl
get_or-replicate (suc n) (suc j) a = get_or-replicate n j a

process-IsTable : IsTable process
process-IsTable = record {
  map = record { room = omega arith; small = omega arith };
  cnt = refl;
  names = length-replicate {A = Option ℕ} file_map_size none;
  used = λ fd f e. cc (sym (get_or-replicate {A = Option ℕ} file_map_size fd none) ∙ e);
}

-- A pointer into the kernel ends the process with status -1.
kernel_pointer : syscall_handler machine process (2 ^ 32 - 8) ≡ exited minus_one process
unfolding syscall_handler
kernel_pointer = refl

-- Writing to the console leaves in `eax` what was there.
write_keeps_eax : write_from machine process 1 134545408 3 ≡ done process
unfolding write_from
write_keeps_eax = refl

syscall_handler-Ends_example : Ends (syscall_handler machine process 134545408)
syscall_handler-Ends_example = syscall_handler-Ends machine process-IsTable 134545408

open_named-close_fd_example :
    (s' s'' : Process ℕ) × (open_named machine process 7 ≡ done s')
    × (close_fd machine s' s'.eax ≡ done s'')
    × (s''.world ≡ 1)
    × ((j : ℕ) → at s''.fd_bitmap j ≡ at process.fd_bitmap j)
    × ((j : ℕ) → get_or s''.file_names j none ≡ get_or process.file_names j none)
unfolding bit
open_named-close_fd_example =
    open_named-close_fd machine process-IsTable 7 2 100 0 (omega arith) refl refl
