-- ===== src/Thread.antt =====
-- threads/thread.c: the scheduler. A thread is the address of its page. The functions run with
-- interrupts off from their head to the switch or the return, so each is one step of the kernel, and
-- the interrupt level is no part of the state. `none` is a failed ASSERT.
pub mod Invariant
pub mod Operations
pub mod Frames
pub mod Sample
mod Tests
use tddb.Base.{
  ℕ, ◌+◌, ◌%◌, ◌^◌, Bool, true, false, not, ◌&&◌, Option, none, some, List, [], ◌∷◌, ◌++◌, ◌==◌,
  leb, if◌then◌else◌, ◌>>=◌, ◌>>◌, assert,
}
use tddb.Base.Members.{update}

-- `enum thread_status`
pub data Status : Type 0 where
  running ready blocked dying : Status

-- The globals of thread.c and the `status` of each page; `none` for a page that holds no thread.
pub record Kernel : Type 0 where
  pub status : ℕ → Option Status
  pub ready_list : List ℕ
  pub current : ℕ
  pub idle_thread : ℕ
  pub initial_thread : ℕ
  pub thread_ticks : ℕ
  pub idle_ticks : ℕ
  pub kernel_ticks : ℕ
  pub user_ticks : ℕ

abbrev pub time_slice : ℕ
time_slice = 4

-- `t->magic == THREAD_MAGIC`
abbrev pub is_thread : Option Status → Bool
is_thread none = false
is_thread (some s) = true

abbrev pub is_running : Option Status → Bool
is_running (some running) = true
is_running (some _) = false
is_running none = false

abbrev pub is_blocked : Option Status → Bool
is_blocked (some blocked) = true
is_blocked (some _) = false
is_blocked none = false

abbrev pub is_dying : Option Status → Bool
is_dying (some dying) = true
is_dying (some _) = false
is_dying none = false

-- `t->status = s`
abbrev pub set_status : Kernel → ℕ → Status → Kernel
set_status k t s = record k { status = update k.status t (some s) }

abbrev pub push_ready : Kernel → ℕ → Kernel
push_ready k t = record k { ready_list = k.ready_list ++ (t ∷ []) }

-- The running thread, with the check that it is one.
unfoldable pub thread_current : Kernel → Option ℕ
thread_current k = do
  assert (is_thread (k.status k.current))
  assert (is_running (k.status k.current))
  some k.current

unfoldable pub thread_unblock : Kernel → ℕ → Option Kernel
thread_unblock k t = do
  assert (is_thread (k.status t))
  assert (is_blocked (k.status t))
  some (set_status (push_ready k t) t ready)

-- the front of the ready list, or the idle thread
abbrev pub front : List ℕ → ℕ → ℕ
front [] idle = idle
front (t ∷ ts) idle = t

abbrev pub behind : List ℕ → List ℕ
behind [] = []
behind (t ∷ ts) = ts

unfoldable pub next_thread_to_run : Kernel → ℕ × Kernel
next_thread_to_run k =
    (front k.ready_list k.idle_thread, record k { ready_list = behind k.ready_list })

-- `palloc_free_page (prev)`
abbrev pub free_thread : Kernel → ℕ → Kernel
free_thread k t = record k { status = update k.status t none }

unfoldable pub reap : Kernel → Option ℕ → Option Kernel
reap k none = some k
reap k (some prev) =
    if is_dying (k.status prev) && not (prev == k.initial_thread)
    then (assert (not (prev == k.current)) >> some (free_thread k prev))
    else some k

-- Activating the page tables is left to the processor.
unfoldable pub schedule_tail : Kernel → Option ℕ → Option Kernel
schedule_tail k prev = reap (record (set_status k k.current running) { thread_ticks = 0 }) prev

-- `switch_threads` makes `next` the running thread and hands it the one that it took over from.
unfoldable pub switch_to : Kernel → ℕ → Option Kernel
unfolding schedule_tail reap
switch_to k next =
    if k.current == next
    then schedule_tail k none
    else schedule_tail (record k { current = next }) (some k.current)

unfoldable pub schedule : Kernel → Option Kernel
unfolding next_thread_to_run switch_to
schedule k =
    let (next, k1) = next_thread_to_run k in
    do
      assert (not (is_running (k.status k.current)))
      assert (is_thread (k.status next))
      switch_to k1 next

unfoldable pub thread_block : Kernel → Option Kernel
thread_block k = do cur ← thread_current k; schedule (set_status k cur blocked)

-- The end of `thread_exit`, after the files and the process are gone.
unfoldable pub thread_exit : Kernel → Option Kernel
thread_exit k = do cur ← thread_current k; schedule (set_status k cur dying)

unfoldable pub thread_yield : Kernel → Option Kernel
thread_yield k = do
  cur ← thread_current k
  let k1 = if cur == k.idle_thread then k else push_ready k cur
  schedule (set_status k1 cur ready)

-- One tick more for the idle thread, a user program or the kernel.
abbrev pub charge : Kernel → Bool → Bool → Kernel
charge k true user = record k { idle_ticks = k.idle_ticks + 1 }
charge k false true = record k { user_ticks = k.user_ticks + 1 }
charge k false false = record k { kernel_ticks = k.kernel_ticks + 1 }

-- The timer interrupt; the result says whether `intr_yield_on_return` is called. `user` is whether the
-- thread has a page directory. The counters of ticks, which nothing reads, do not wrap here.
unfoldable pub thread_tick : Kernel → Bool → Option (Kernel × Bool)
thread_tick k user = do
  t ← thread_current k
  let k1 = charge k (t == k.idle_thread) user
  let ticks = (k1.thread_ticks + 1) % 2 ^ 32
  some (record k1 { thread_ticks = ticks }, leb time_slice ticks)
