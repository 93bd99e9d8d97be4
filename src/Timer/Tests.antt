-- ===== src/Timer/Tests.antt =====
-- Tests of the alarms, and each property at a concrete state.
use mathlib.Core.Path.{subst, sym}
use tddb.Base.{
  ℕ, Bool, true, false, ◌&&◌, some, List, [], ◌∷◌, ◌++◌, if◌then◌else◌, ◌==◌, ◌≡◌, refl, arith, ltb,
  leb,
}
use tddb.Base.Members.{has}
use tddb.Thread.Sample.{kernel, kernel-IsValid}
use tddb.Synch.{sema_init}
use tddb.Timer.{Timer, sleep_enter, sleep_init, sleep_down, timer_interrupt}
use tddb.Timer.Wake.{Asleep, timer_interrupt-due}
use tddb.Timer.Race.{Lost, sleep_enter-timer_interrupt}

-- Thread 5 sleeps until tick 8.
abbrev asleep_5 : Timer
asleep_5 = record {
  kernel = kernel;
  ticks = 7;
  sleep_list = 5 ∷ [];
  sleep_until = λ c. 8;
  sleep_sema = λ c. if c == 5 then record { value = 0; waiters = 5 ∷ [] } else sema_init 0;
}

sleeps : (c : ℕ) → has c (5 ∷ []) ≡ true → Asleep asleep_5 c
sleeps c i = subst (Asleep asleep_5) (sym five) (record { queued = refl; is_asleep = refl })
  where
    five : c ≡ 5
    five = ground (arith, i)

timer_interrupt-due_example :
    (yield : Bool) × (t' : Timer) × (woke : List ℕ) × (timer_interrupt asleep_5 false
      ≡ some (yield, t'))
    × ((5 ∷ []) ≡ woke ++ t'.sleep_list)
    × (t'.kernel.ready_list ≡ (3 ∷ (4 ∷ [])) ++ woke)
    × ((c : ℕ) → has c woke ≡ (has c (5 ∷ []) && leb 8 8))
    × ((c : ℕ) → has c t'.sleep_list ≡ (has c (5 ∷ []) && ltb 8 8))
timer_interrupt-due_example =
    timer_interrupt-due asleep_5 false (refl, tt) sleeps tt (λ d i. omega arith) (omega arith) refl

abbrev nobody : Timer
nobody = record asleep_5 { sleep_list = [] }

sleep_enter-timer_interrupt_example :
    (t1 : Timer) × (yield : Bool) × (t2 : Timer) × (t3 : Timer) × (sleep_enter nobody 1 ≡ some t1)
    × (t1.sleep_list ≡ 2 ∷ [])
    × (timer_interrupt t1 true ≡ some (yield, t2))
    × ((t2.sleep_sema 2).value ≡ 1)
    × (sleep_down (sleep_init t2 2) 2 ≡ some (false, t3))
    × Lost t3 2
sleep_enter-timer_interrupt_example =
    sleep_enter-timer_interrupt nobody 1 true refl refl kernel-IsValid
      (λ e. absurd (omega (arith, e))) (omega arith) (omega arith)
