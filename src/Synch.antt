-- ===== src/Synch.antt =====
-- threads/synch.c: semaphores, locks and condition variables over the scheduler. A function that may
-- sleep is cut at `thread_block`: `sema_down` is one round of its loop. `none` is a failed ASSERT.
pub mod System
pub mod Invariant
pub mod Queue
pub mod Steps
pub mod Mutex
mod Tests
use tddb.Base.{
  ℕ, ◌+◌, ◌-◌, ◌%◌, ◌^◌, Bool, true, false, not, Option, none, some, List, [], ◌∷◌, ◌++◌, ◌==◌, ltb,
  if◌then◌else◌, ◌>>=◌, ◌>>◌, assert,
}
use tddb.Thread.{Kernel, thread_current, thread_block, thread_unblock}

-- `struct semaphore`
pub record Semaphore : Type 0 where
  pub value : ℕ
  pub waiters : List ℕ

abbrev pub sema_init : ℕ → Semaphore
sema_init value = record { value = value; waiters = [] }

-- What one round of the loop of `sema_down` does: it takes the semaphore, or sleeps in its queue.
pub data Round : Type 0 where
  got : Semaphore → Round
  slept : Kernel → Semaphore → Round

unfoldable pub sema_down : Kernel → Semaphore → Option Round
sema_down k s =
    if s.value == 0
    then (thread_current k >>= λ cur.
        thread_block k >>= λ k'. some (slept k' (record s { waiters = s.waiters ++ (cur ∷ []) })))
    else some (got (record s { value = s.value - 1 }))

unfoldable pub sema_try_down : Semaphore → Bool × Semaphore
sema_try_down s = if ltb 0 s.value then (true, record s { value = s.value - 1 }) else (false, s)

-- The front waiter, if there is one, is woken.
unfoldable pub wake_front : Kernel → List ℕ → Option (Kernel × List ℕ)
wake_front k [] = some (k, [])
wake_front k (t ∷ ts) = do k' ← thread_unblock k t; some (k', ts)

unfoldable pub sema_up : Kernel → Semaphore → Option (Kernel × Semaphore)
unfolding wake_front
sema_up k s = do
  (k', ts) ← wake_front k s.waiters
  some (k', record { value = (s.value + 1) % 2 ^ 32; waiters = ts })

-- `struct lock`
pub record Lock : Type 0 where
  pub holder : Option ℕ
  pub semaphore : Semaphore

abbrev pub lock_init : Lock
lock_init = record { holder = none; semaphore = sema_init 1 }

abbrev pub is_holder : Option ℕ → ℕ → Bool
is_holder none t = false
is_holder (some h) t = h == t

unfoldable pub lock_held_by_current_thread : Kernel → Lock → Option Bool
lock_held_by_current_thread k l = do cur ← thread_current k; some (is_holder l.holder cur)

-- `lock_acquire` up to the call of `sema_down`
unfoldable pub acquire_check : Kernel → Lock → Option (Unit {0})
unfolding lock_held_by_current_thread
acquire_check k l = do held ← lock_held_by_current_thread k l; assert (not held)

-- `lock_acquire` after the call of `sema_down`
unfoldable pub acquire_own : Kernel → Lock → Option Lock
acquire_own k l = do cur ← thread_current k; some (record l { holder = some cur })

unfoldable pub lock_try_acquire : Kernel → Lock → Option (Bool × Lock)
unfolding lock_held_by_current_thread sema_try_down
lock_try_acquire k l = do
  held ← lock_held_by_current_thread k l
  assert (not held)
  let (success, s) = sema_try_down l.semaphore
  if success
      then (thread_current k >>= λ cur. some (true, record { holder = some cur; semaphore = s }))
      else some (false, record l { semaphore = s })

-- `lock_release` up to the call of `sema_up`
unfoldable pub release_disown : Kernel → Lock → Option Lock
unfolding lock_held_by_current_thread
release_disown k l = do
  held ← lock_held_by_current_thread k l
  assert held
  some (record l { holder = none })

-- `lock_release` with no other thread in between
unfoldable pub lock_release : Kernel → Lock → Option (Kernel × Lock)
unfolding release_disown sema_up
lock_release k l = do
  l1 ← release_disown k l
  (k', s) ← sema_up k l1.semaphore
  some (k', record l1 { semaphore = s })
