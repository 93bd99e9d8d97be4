-- ===== src/Synch/Tests.antt =====
-- Tests of the lock, and each property after a run in which two threads meet.
use tddb.Base.{ℕ, true, false, [], ◌∷◌, ◌≡◌, ◌≢◌, refl, arith, ◌⊎◌}
use tddb.Thread.{thread_yield, thread_block, thread_current, schedule}
use tddb.Thread.Sample.{kernel, kernel-IsValid}
use tddb.Synch.{sema_down, acquire_check, acquire_own}
use tddb.Synch.System.{System, testing, runner, call, take, own, preempt, sleep, Reach, here, next}
use tddb.Synch.Invariant.{owns, asleep}
use tddb.Synch.Mutex.{fresh, Returns, Reach-exclusive, Reach-woken, Reach-Returns}

-- Thread 2 acquires the lock and is preempted; thread 3 asks for it and sleeps; thread 4 runs.
unfoldable met : (s : System) × Reach (fresh kernel) s
unfolding acquire_check sema_down acquire_own thread_yield thread_block thread_current schedule
met = (
  _,
  next
      (next
        (next
          (next (next (next here (call refl (omega arith) refl)) (take refl refl)) (own refl refl))
          (preempt refl))
        (call refl (omega arith) refl))
      (sleep refl refl),
)

met_waits : (met.0.lock.semaphore.waiters ≡ 3 ∷ []) × (met.0.kernel.current ≡ 4)
unfolding met
met_waits = (refl, refl)

Reach-exclusive_example : ◌≡◌ {A = ℕ} 2 2
unfolding met
Reach-exclusive_example = Reach-exclusive kernel-IsValid (met.1) 2 2 refl refl

Reach-woken_example :
    ((i : ℕ) × (owns (met.0.place i) ≡ true))
    ⊎ ((i : ℕ) × (met.0.place i ≡ testing) × (asleep met.0.kernel i ≡ false) × (i ≢ 3))
unfolding met
Reach-woken_example = Reach-woken kernel-IsValid (met.1) 3 refl

Reach-Returns_example : Returns met.0 (met.0.place (runner met.0))
Reach-Returns_example = Reach-Returns kernel-IsValid (met.1)
