-- ===== src/Timer.antt =====
-- devices/timer.c: alarms. A 64-bit number is its word; `sleep_list` is the sequence of the list (LinkedList proves that
-- `list_insert_ordered` and `list_remove` act so). `timer_sleep` is cut where an interrupt may come in between. `none`
-- is a failed ASSERT.
pub mod Wake
pub mod Race
mod Tests
use tddb.Base.{
  ℕ, ◌+◌, ◌-◌, ◌*◌, ◌/◌, ◌%◌, Bool, true, false, not, Option, none, some, List, [], ◌∷◌, ◌++◌, ◌==◌,
  ltb, if◌then◌else◌, ◌>>=◌,
}
use tddb.Base.Members.{update}
use tddb.LinkedList.Order.{front, behind}
use tddb.Thread.{Kernel, thread_current, thread_tick}
use tddb.Synch.{Semaphore, sema_init, sema_down, sema_up, Round, got, slept}

-- The globals of timer.c, the fields `sleep_until` and `sleep_sema` of the threads, and the scheduler
pub record Timer : Type 0 where
  pub kernel : Kernel
  pub ticks : ℕ
  pub sleep_list : List ℕ
  pub sleep_until : ℕ → ℕ
  pub sleep_sema : ℕ → Semaphore

-- The comparison of `sleep_less`, which is unsigned
abbrev pub sleep_less : Timer → ℕ → ℕ → Bool
sleep_less t a b = ltb (t.sleep_until a) (t.sleep_until b)

-- `a < b` as int64_t
abbrev pub int64_lt : ℕ → ℕ → Bool
int64_lt a b =
    ltb ((a + 9223372036854775808) % 18446744073709551616)
      ((b + 9223372036854775808) % 18446744073709551616)

unfoldable pub timer_elapsed : Timer → ℕ → ℕ
timer_elapsed t start = (t.ticks + 18446744073709551616 - start) % 18446744073709551616

-- `timer_sleep` until interrupts are on again
unfoldable pub sleep_enter : Timer → ℕ → Option Timer
sleep_enter t ticks = thread_current t.kernel >>= λ th.
    let t1 = record t {
      sleep_until = update t.sleep_until th ((ticks + t.ticks) % 18446744073709551616);
    } in
    some (record t1 {
      sleep_list =
          front (sleep_less t1) th t1.sleep_list ++ (th ∷ behind (sleep_less t1) th t1.sleep_list);
    })

-- `sema_init (&th->sleep_sema, 0)`
abbrev pub sleep_init : Timer → ℕ → Timer
sleep_init t th = record t { sleep_sema = update t.sleep_sema th (sema_init 0) }

-- `sema_down (&th->sleep_sema)`, one round; the result says whether it returned.
abbrev pub after_round : Timer → ℕ → Round → Bool × Timer
after_round t th (got s) = (true, record t { sleep_sema = update t.sleep_sema th s })
after_round t th (slept k s) =
    (false, record t { kernel = k; sleep_sema = update t.sleep_sema th s })

unfoldable pub sleep_down : Timer → ℕ → Option (Bool × Timer)
sleep_down t th = sema_down t.kernel (t.sleep_sema th) >>= λ r. some (after_round t th r)

-- The loop of `timer_interrupt` over the list
unfoldable pub wake_from : List ℕ → Timer → Option Timer
wake_from [] t = some (record t { sleep_list = [] })
wake_from (th ∷ ths) t =
    if int64_lt t.ticks (t.sleep_until th)
    then some (record t { sleep_list = th ∷ ths })
    else (sema_up t.kernel (t.sleep_sema th) >>= λ r.
        wake_from ths (record t { kernel = r.0; sleep_sema = update t.sleep_sema th (r.1) }))

-- The result says whether `thread_tick` asks for a yield.
unfoldable pub timer_interrupt : Timer → Bool → Option (Bool × Timer)
timer_interrupt t user =
    wake_from t.sleep_list (record t { ticks = (t.ticks + 1) % 18446744073709551616 }) >>= λ t'.
    thread_tick t'.kernel user >>= λ r. some (r.1, record t' { kernel = r.0 })
