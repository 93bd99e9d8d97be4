-- ===== src/Timer/Race.antt =====
-- The alarm that is lost: an interrupt inside `timer_sleep`.
use mathlib.Core.Path.{subst}
use tddb.Base.{
  ℕ, ◌+◌, ◌%◌, ◌^◌, ◌≤◌, ◌<◌, Bool, true, false, some, [], ◌∷◌, ◌==◌, leb, ◌≡◌, ◌≢◌, refl, sym, ap,
  ◌∙◌, arith, ==_refl, Bool-cases, inl, inr,
}
use tddb.Base.Members.{update, has}
use tddb.Thread.{Kernel, blocked, thread_current, thread_tick, charge, time_slice}
use tddb.Thread.Invariant.{IsValid}
use tddb.Thread.Operations.{
  current_lem, current_out, front_ne, counted-IsValid, thread_block-IsValid,
}
use tddb.Synch.{sema_init, sema_up, sema_down, wake_front}
use tddb.Timer.{Timer, int64_lt, sleep_enter, sleep_init, sleep_down, wake_from, timer_interrupt}

-- The loop on one thread whose time has come and whose semaphore nobody waits in
wake_one :
    (t : Timer) (th : ℕ)
    → int64_lt t.ticks (t.sleep_until th) ≡ false
    → (t.sleep_sema th).waiters ≡ []
    → (t' : Timer) × (wake_from (th ∷ []) t ≡ some t')
      × (t'.sleep_list ≡ [])
      × ((t'.sleep_sema th).value ≡ ((t.sleep_sema th).value + 1) % 2 ^ 32)
      × (t'.kernel ≡ t.kernel)
unfolding wake_from sema_up wake_front
wake_one t th early no_waiters = (
  record t {
    sleep_list = [];
    sleep_sema =
        update t.sleep_sema th
          (record { value = ((t.sleep_sema th).value + 1) % 2 ^ 32; waiters = [] });
  },
  rw (early, no_waiters) refl,
  refl,
  rw (==_refl th) refl,
  refl,
)

thread_tick-IsValid :
    {k : Kernel} (user : Bool)
    → IsValid k
    → (k' : Kernel) × (yield : Bool) × (thread_tick k user ≡ some (k', yield))
      × IsValid k'
      × (k'.current ≡ k.current)
      × (k'.idle_thread ≡ k.idle_thread)
unfolding thread_tick
thread_tick-IsValid {k} user valid =
    let k1 = charge k (k.current == k.idle_thread) user in
    let (ok, cur, idle) = charged (k.current == k.idle_thread) user in
    (
      record k1 { thread_ticks = (k1.thread_ticks + 1) % 2 ^ 32 },
      leb time_slice ((k1.thread_ticks + 1) % 2 ^ 32),
      rw (current_lem valid) refl,
      ok,
      cur,
      idle,
    )
  where
    charged :
        (b user : Bool)
        → IsValid (record (charge k b user) {
          thread_ticks = ((charge k b user).thread_ticks + 1) % 2 ^ 32;
        })
          × ((charge k b user).current ≡ k.current)
          × ((charge k b user).idle_thread ≡ k.idle_thread)
    charged true user = (
      counted-IsValid valid (k.idle_ticks + 1) k.kernel_ticks k.user_ticks
          ((k.thread_ticks + 1) % 2 ^ 32),
      refl,
      refl,
    )
    charged false true = (
      counted-IsValid valid k.idle_ticks k.kernel_ticks (k.user_ticks + 1)
          ((k.thread_ticks + 1) % 2 ^ 32),
      refl,
      refl,
    )
    charged false false = (
      counted-IsValid valid k.idle_ticks (k.kernel_ticks + 1) k.user_ticks
          ((k.thread_ticks + 1) % 2 ^ 32),
      refl,
      refl,
    )

-- A thread that sleeps in its own semaphore, which is 0, while another thread runs; it is in no list but that of its own
-- semaphore.
pub record Lost (t : Timer) (th : ℕ) : Type 0 where
  pub is_asleep : t.kernel.status th ≡ some blocked
  pub others_run : t.kernel.current ≢ th
  pub not_ready : has th t.kernel.ready_list ≡ false
  pub not_listed : t.sleep_list ≡ []
  pub in_vain : t.sleep_sema th ≡ record { value = 0; waiters = th ∷ [] }

down_Lost :
    (t : Timer)
    → IsValid t.kernel
    → t.kernel.current ≢ t.kernel.idle_thread
    → t.sleep_list ≡ []
    → (t3 : Timer) × (sleep_down (sleep_init t t.kernel.current) t.kernel.current
        ≡ some (false, t3))
      × Lost t3 t.kernel.current
unfolding sleep_down sema_down
down_Lost t valid not_idle empty =
    let th = t.kernel.current in
    let (k, run, ok, cur, was) = thread_block-IsValid valid in
    let other : k.current ≢ th = λ e.
      front_ne t.kernel.ready_list th t.kernel.idle_thread (current_out valid) not_idle
        (sym cur ∙ e) in
    (
      record t {
        kernel = k;
        sleep_sema =
            update (update t.sleep_sema th (sema_init 0)) th
              (record { value = 0; waiters = th ∷ [] });
      },
      rw (==_refl th, current_lem valid, run) refl,
      record {
        is_asleep = was other;
        others_run = other;
        not_ready = asleep_out k ok (was other);
        not_listed = empty;
        in_vain = rw (==_refl th) refl;
      },
    )
  where
    asleep_out :
        (k : Kernel)
        → IsValid k
        → k.status t.kernel.current ≡ some blocked
        → has t.kernel.current k.ready_list ≡ false
    asleep_out k ok b = elim (Bool-cases (has t.kernel.current k.ready_list)) [
      | inl y ↦ cc (sym b ∙ ok.lists.listed t.kernel.current y)
      | inr n ↦ n
    ]

down_Lost_at :
    (t : Timer) (th : ℕ)
    → t.kernel.current ≡ th
    → IsValid t.kernel
    → t.kernel.current ≢ t.kernel.idle_thread
    → t.sleep_list ≡ []
    → (t3 : Timer) × (sleep_down (sleep_init t th) th ≡ some (false, t3)) × Lost t3 th
down_Lost_at t th e valid not_idle empty =
    subst (λ c. (t3 : Timer) × (sleep_down (sleep_init t c) c ≡ some (false, t3)) × Lost t3 c) e
      (down_Lost t valid not_idle empty)

-- `timer_sleep` of at most one tick, of a thread that is not the idle one, when no other thread sleeps. It switches
-- interrupts on before it sets up the semaphore. When a timer interrupt comes in between, this takes the thread out of the
-- list and raises its semaphore; then the semaphore is set to 0, and in `sema_down` the thread goes to sleep, while
-- other threads run, in no list but that of its own semaphore.
pub sleep_enter-timer_interrupt :
    (t : Timer) (ticks : ℕ) (user : Bool)
    → t.sleep_list ≡ []
    → (t.sleep_sema t.kernel.current).waiters ≡ []
    → IsValid t.kernel
    → t.kernel.current ≢ t.kernel.idle_thread
    → ticks ≤ 1
    → t.ticks + 1 < 9223372036854775808
    → (t1 : Timer) × (yield : Bool) × (t2 : Timer) × (t3 : Timer) × (sleep_enter t ticks ≡ some t1)
      × (t1.sleep_list ≡ t.kernel.current ∷ [])
      × (timer_interrupt t1 user ≡ some (yield, t2))
      × ((t2.sleep_sema t.kernel.current).value
          ≡ ((t.sleep_sema t.kernel.current).value + 1) % 2 ^ 32)
      × (sleep_down (sleep_init t2 t.kernel.current) t.kernel.current ≡ some (false, t3))
      × Lost t3 t.kernel.current
unfolding sleep_enter timer_interrupt thread_current
sleep_enter-timer_interrupt t ticks user empty no_waiters valid not_idle soon now =
    let th = t.kernel.current in
    let t1 = record t {
      sleep_until = update t.sleep_until th ((ticks + t.ticks) % 18446744073709551616);
      sleep_list = th ∷ [];
    } in
    let (t2, woke, left, raised, kept) =
      wake_one (record t1 { ticks = (t.ticks + 1) % 18446744073709551616 }) th early no_waiters in
    let (k', yield, tick, ok, cur, idle) =
      thread_tick-IsValid user (subst IsValid (sym kept) valid) in
    let here : k'.current ≡ th = cur ∙ ap (λ k. k.current) kept in
    let (t3, down, lost) =
      down_Lost_at (record t2 { kernel = k' }) th here ok
        (λ e. not_idle (sym here ∙ e ∙ idle ∙ ap (λ k. k.idle_thread) kept)) left in
    (
      t1,
      yield,
      record t2 { kernel = k' },
      t3,
      rw (valid.current_runs, empty) refl,
      refl,
      rw (woke, tick) refl,
      raised,
      down,
      lost,
    )
  where
    early :
        int64_lt ((t.ticks + 1) % 18446744073709551616) (
          update t.sleep_until t.kernel.current
            ((ticks + t.ticks) % 18446744073709551616)
            t.kernel.current)
        ≡ false
    early = rw (==_refl t.kernel.current) (ground (arith, soon, now))
