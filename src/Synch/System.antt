-- ===== src/Synch/System.antt =====
-- Any number of threads that share one lock, interleaved in any order: between two steps the timer may
-- switch threads, and threads may sleep and be woken for other reasons.
use tddb.Base.{ℕ, true, some, ◌≡◌, ◌≢◌}
use tddb.Base.Members.{update}
use tddb.Thread.{Kernel, blocked, thread_block, thread_unblock, thread_yield}
use tddb.Synch.{
  Semaphore, got, slept, sema_down, sema_up, sema_try_down, Lock, acquire_check, acquire_own,
  release_disown,
}

-- Where a thread stands in its use of the lock.
pub data Place : Type 0 where
  outside : Place  -- not in a lock function, and not the owner
  testing : Place  -- at the loop of `sema_down`, awake or asleep in it
  taken : Place  -- behind `sema_down`, not yet the holder
  inside : Place  -- between `lock_acquire` and `lock_release`
  leaving : Place  -- no more the holder, before `sema_up`

pub record System : Type 0 where
  pub kernel : Kernel
  pub lock : Lock
  pub place : ℕ → Place

abbrev pub runner : System → ℕ
runner s = s.kernel.current

abbrev pub go : System → Place → System
go s p = record s { place = update s.place (runner s) p }

-- `s` with another semaphore in its lock
abbrev pub with_sema : System → Semaphore → System
with_sema s m = record s { lock = record (s.lock) { semaphore = m } }

-- One stretch of code with interrupts off, by the running thread. The idle thread takes no lock.
pub data Step (s : System) : System → Type 0 where
  call :
      s.place (runner s) ≡ outside
      → runner s ≢ s.kernel.idle_thread
      → acquire_check s.kernel s.lock ≡ some tt
      → Step s (go s testing)
  take :
      {m : Semaphore}
      → s.place (runner s) ≡ testing
      → sema_down s.kernel s.lock.semaphore ≡ some (got m)
      → Step s (go (with_sema s m) taken)
  sleep :
      {m : Semaphore} {k : Kernel}
      → s.place (runner s) ≡ testing
      → sema_down s.kernel s.lock.semaphore ≡ some (slept k m)
      → Step s (record (with_sema s m) { kernel = k })
  own :
      {l : Lock}
      → s.place (runner s) ≡ taken
      → acquire_own s.kernel s.lock ≡ some l
      → Step s (record (go s inside) { lock = l })
  try :
      {m : Semaphore}
      → s.place (runner s) ≡ outside
      → runner s ≢ s.kernel.idle_thread
      → acquire_check s.kernel s.lock ≡ some tt
      → sema_try_down s.lock.semaphore ≡ (true, m)
      → Step s (go (with_sema s m) taken)
  disown :
      {l : Lock}
      → s.place (runner s) ≡ inside
      → release_disown s.kernel s.lock ≡ some l
      → Step s (record (go s leaving) { lock = l })
  up :
      {k : Kernel} {m : Semaphore}
      → s.place (runner s) ≡ leaving
      → sema_up s.kernel s.lock.semaphore ≡ some (k, m)
      → Step s (record (go (with_sema s m) outside) { kernel = k })
  preempt : {k : Kernel} → thread_yield s.kernel ≡ some k → Step s (record s { kernel = k })
  away :
      {k : Kernel}
      → s.place (runner s) ≡ outside
      → runner s ≢ s.kernel.idle_thread
      → thread_block s.kernel ≡ some k
      → Step s (record s { kernel = k })
  back :
      {k : Kernel} (t : ℕ)
      → s.place t ≡ outside
      → s.kernel.status t ≡ some blocked
      → t ≢ s.kernel.idle_thread
      → thread_unblock s.kernel t ≡ some k
      → Step s (record s { kernel = k })
  idle :
      {k : Kernel}
      → runner s ≡ s.kernel.idle_thread
      → thread_block s.kernel ≡ some k
      → Step s (record s { kernel = k })

pub data Reach (s : System) : System → Type 0 where
  here : Reach s s
  next : {t u : System} → Reach s t → Step t u → Reach s u
