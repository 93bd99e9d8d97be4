-- ===== src/Thread/Sample.antt =====
-- A small kernel to run the functions on: thread 2 runs, 3 and 4 are ready, 5 is blocked, 1 is idle.
use tddb.Base.{ℕ, Option, none, some, [], ◌∷◌, if◌then◌else◌, ◌==◌, refl, arith}
use tddb.Thread.{Kernel, Status, running, ready, blocked}
use tddb.Thread.Invariant.{IsValid}

abbrev statuses : ℕ → Option Status
statuses t =
    if t == 1
    then some blocked
    else if t == 2
    then some running
    else if t == 3
    then some ready
    else if t == 4
    then some ready
    else if t == 5
    then some blocked
    else none

abbrev pub kernel : Kernel
kernel = record {
  status = statuses;
  ready_list = 3 ∷ 4 ∷ [];
  current = 2;
  idle_thread = 1;
  initial_thread = 2;
  thread_ticks = 1;
  idle_ticks = 0;
  kernel_ticks = 1;
  user_ticks = 0;
}

pub kernel-IsValid : IsValid kernel
kernel-IsValid = record {
  lists = record {
    listed = λ t h. ground arith;
    ready_in = λ t h ne. ground arith;
    distinct = ground arith;
    idle_out = refl;
    idle_alive = refl;
  };
  current_runs = refl;
  only_current = λ t h. ground arith;
}
