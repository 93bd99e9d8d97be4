-- ===== src/Timer/Wake.antt =====
-- Whom a timer interrupt wakes, and whom it leaves asleep for ever.
use mathlib.Core.List.{append-nil, append_assoc}
use tddb.Base.{
  ℕ, ◌+◌, ◌%◌, ◌^◌, ◌≤◌, ◌<◌, Bool, true, false, ◌&&◌, some, List, [], ◌∷◌, ◌++◌, ◌==◌, ltb, leb,
  if◌then◌else◌, ◌≡◌, ◌≢◌, refl, sym, ap, ◌∙◌, arith, ==_ne, Bool-cases, inl, inr, ℕ_discrete,
}
use tddb.Base.Members.{update, has, Distinct}
use tddb.Thread.{
  Kernel, running, blocked, thread_current, thread_unblock, thread_tick, ready, push_ready,
  set_status, charge, time_slice,
}
use tddb.Synch.{sema_up, wake_front}
use tddb.LinkedList.Order.{Sorted}
use tddb.Timer.{Timer, sleep_less, int64_lt, wake_from, timer_interrupt}

-- A thread that waits in its own semaphore
pub record Asleep (t : Timer) (th : ℕ) : Type 0 where
  pub queued : (t.sleep_sema th).waiters ≡ th ∷ []
  pub is_asleep : t.kernel.status th ≡ some blocked

-- the threads in front of the list whose time has come, and the others
abbrev pub due : Timer → List ℕ → List ℕ
due t [] = []
due t (th ∷ ths) = if int64_lt t.ticks (t.sleep_until th) then [] else th ∷ due t ths

abbrev pub later : Timer → List ℕ → List ℕ
later t [] = []
later t (th ∷ ths) = if int64_lt t.ticks (t.sleep_until th) then th ∷ ths else later t ths

due-append-later : (t : Timer) (ths : List ℕ) → due t ths ++ later t ths ≡ ths
due-append-later t [] = refl
due-append-later t (th ∷ ths) = elim (Bool-cases (int64_lt t.ticks (t.sleep_until th))) [
  | inl y ↦ rw y refl
  | inr n ↦ rw n (ap (λ l. th ∷ l) (due-append-later t ths))
]

-- The state behind one `sema_up` of the loop
abbrev woken : Timer → ℕ → Timer
woken t th = record t {
  kernel = set_status (push_ready t.kernel th) th ready;
  sleep_sema =
      update t.sleep_sema th
        (record { value = ((t.sleep_sema th).value + 1) % 2 ^ 32; waiters = [] });
}

sema_up-run :
    (t : Timer) (th : ℕ)
    → Asleep t th
    → sema_up t.kernel (t.sleep_sema th)
      ≡ some (
        set_status (push_ready t.kernel th) th ready,
        record { value = ((t.sleep_sema th).value + 1) % 2 ^ 32; waiters = [] },
      )
unfolding sema_up wake_front thread_unblock
sema_up-run t th a = rw (a.queued, a.is_asleep) refl

sleep_unaffected : (t : Timer) (th c : ℕ) → th ≢ c → Asleep t c → Asleep (woken t th) c
sleep_unaffected t th c ne a = record {
  queued = rw (==_ne th c ne) a.queued;
  is_asleep = rw (==_ne th c ne) a.is_asleep;
}

wake_from-due :
    (ths : List ℕ) (t : Timer)
    → Distinct ths
    → ((c : ℕ) → has c ths ≡ true → Asleep t c)
    → (t' : Timer) × (wake_from ths t ≡ some t')
      × (t'.sleep_list ≡ later t ths)
      × (t'.kernel.ready_list ≡ t.kernel.ready_list ++ due t ths)
      × (t'.kernel.current ≡ t.kernel.current)
      × ((c : ℕ) → has c ths ≡ false → t'.kernel.status c ≡ t.kernel.status c)
unfolding wake_from
wake_from-due [] t d asleep = (
  record t { sleep_list = [] },
  refl,
  refl,
  sym (append-nil t.kernel.ready_list),
  refl,
  λ c o. refl,
)
wake_from-due (th ∷ ths) t (out, d) asleep =
    elim (Bool-cases (int64_lt t.ticks (t.sleep_until th))) [
      | inl y ↦ (
        record t { sleep_list = th ∷ ths },
        rw y refl,
        rw y refl,
        rw y (sym (append-nil t.kernel.ready_list)),
        refl,
        λ c o. refl,
      )
      | inr n ↦
          let (t', run, left, ready_now, cur, same) =
            wake_from-due ths (woken t th) d
              (λ c i. sleep_unaffected t th c (apart c i) (asleep c (ground (arith, i)))) in
          (
            t',
            rw (n, sema_up-run t th (asleep th (ground arith))) run,
            rw n left,
            rw n (ready_now ∙ append_assoc t.kernel.ready_list (th ∷ []) (due t ths)),
            cur,
            λ c o. same c (ground (arith, o)) ∙ rw (==_ne th c (λ e. cc (sym o ∙ here c e))) refl,
          )
    ]
  where
    apart : (c : ℕ) → has c ths ≡ true → th ≢ c
    apart c i e = cc (sym out ∙ ap (λ k. has k ths) e ∙ i)

    here : (c : ℕ) → th ≡ c → has c (th ∷ ths) ≡ true
    here c e = ground (arith, e)

pub int64_lt-ltb :
    (a b : ℕ) → a < 9223372036854775808 → b < 9223372036854775808 → int64_lt a b ≡ ltb a b
int64_lt-ltb a b small small' = ground (arith, small, small')

Sorted-tail :
    (t : Timer) (x : ℕ) (xs : List ℕ) → Sorted (sleep_less t) (x ∷ xs) → Sorted (sleep_less t) xs
Sorted-tail t x [] s = tt
Sorted-tail t x (y ∷ ys) (le, s) = s

Sorted-first :
    (t : Timer) (x : ℕ) (xs : List ℕ) (c : ℕ)
    → Sorted (sleep_less t) (x ∷ xs)
    → has c xs ≡ true
    → t.sleep_until x ≤ t.sleep_until c
Sorted-first t x [] c s i = cc i
Sorted-first t x (y ∷ ys) c (le, s) i = elim (ℕ_discrete c y) [
  | yes e ↦ ground (arith, le, ap t.sleep_until e)
  | no n ↦ ground (arith, le, Sorted-first t y ys c s (ground (arith, i, n)))
]

-- In a sorted list, those whose time has come stand in front of the others.
due-later :
    (t : Timer) (ths : List ℕ) (c : ℕ)
    → Sorted (sleep_less t) ths
    → ((d : ℕ) → has d ths ≡ true → t.sleep_until d < 9223372036854775808)
    → t.ticks < 9223372036854775808
    → (has c (due t ths) ≡ (has c ths && leb (t.sleep_until c) t.ticks))
      × (has c (later t ths) ≡ (has c ths && ltb t.ticks (t.sleep_until c)))
due-later t [] c s bound now = (refl, refl)
due-later t (th ∷ ths) c s bound now =
    let (early, late) =
      due-later t ths c (Sorted-tail t th ths s) (λ d i. bound d (ground (arith, i))) now in
    let test = int64_lt-ltb t.ticks (t.sleep_until th) now (bound th (ground arith)) in
    elim (Bool-cases (ltb t.ticks (t.sleep_until th))) [
      | inl y ↦ rw (test ∙ y) (nobody y, everybody y)
      | inr n ↦ rw (test ∙ n) (first_too n early, first_not n late)
    ]
  where
    after :
        ltb t.ticks (t.sleep_until th) ≡ true
        → has c (th ∷ ths) ≡ true
        → ltb t.ticks (t.sleep_until c) ≡ true
    after y i = elim (ℕ_discrete c th) [
      | yes e ↦ ap (λ k. ltb t.ticks (t.sleep_until k)) e ∙ y
      | no n ↦ ground (arith, y, Sorted-first t th ths c s (ground (arith, i, n)))
    ]

    nobody :
        ltb t.ticks (t.sleep_until th) ≡ true
        → false ≡ (has c (th ∷ ths) && leb (t.sleep_until c) t.ticks)
    nobody y = elim (Bool-cases (has c (th ∷ ths))) [
      | inl i ↦ ground (arith, i, after y i)
      | inr o ↦ rw o refl
    ]

    everybody :
        ltb t.ticks (t.sleep_until th) ≡ true
        → has c (th ∷ ths) ≡ (has c (th ∷ ths) && ltb t.ticks (t.sleep_until c))
    everybody y = elim (Bool-cases (has c (th ∷ ths))) [
      | inl i ↦ ground (arith, i, after y i)
      | inr o ↦ rw o refl
    ]

    first_too :
        ltb t.ticks (t.sleep_until th) ≡ false
        → has c (due t ths) ≡ (has c ths && leb (t.sleep_until c) t.ticks)
        → has c (th ∷ due t ths) ≡ (has c (th ∷ ths) && leb (t.sleep_until c) t.ticks)
    first_too n early = elim (ℕ_discrete c th) [
      | yes e ↦ ground (arith, n, e, early, ap t.sleep_until e)
      | no other ↦ ground (arith, early, other)
    ]

    first_not :
        ltb t.ticks (t.sleep_until th) ≡ false
        → has c (later t ths) ≡ (has c ths && ltb t.ticks (t.sleep_until c))
        → has c (later t ths) ≡ (has c (th ∷ ths) && ltb t.ticks (t.sleep_until c))
    first_not n late = elim (ℕ_discrete c th) [
      | yes e ↦ ground (arith, n, e, late, ap t.sleep_until e)
      | no other ↦ ground (arith, late, other)
    ]

pub thread_tick-run :
    (k : Kernel) (user : Bool)
    → k.status k.current ≡ some running
    → (k' : Kernel) × (yield : Bool) × (thread_tick k user ≡ some (k', yield))
      × (k'.ready_list ≡ k.ready_list)
unfolding thread_tick thread_current
thread_tick-run k user run =
    let k1 = charge k (k.current == k.idle_thread) user in
    (
      record k1 { thread_ticks = (k1.thread_ticks + 1) % 2 ^ 32 },
      leb time_slice ((k1.thread_ticks + 1) % 2 ^ 32),
      rw run refl,
      charged (k.current == k.idle_thread) user,
    )
  where
    charged : (b user : Bool) → (charge k b user).ready_list ≡ k.ready_list
    charged true user = refl
    charged false true = refl
    charged false false = refl

-- A timer interrupt while a sorted list of sleeping threads has each thread once, each blocked in its own semaphore, and a
-- thread runs, with times that do not overflow: it ends; it takes from the front of the list exactly the threads
-- whose time has come, appends them to the ready list in the order of the list, and leaves the others in the list
-- in their order.
pub timer_interrupt-due :
    (t : Timer) (user : Bool)
    → Distinct t.sleep_list
    → ((c : ℕ) → has c t.sleep_list ≡ true → Asleep t c)
    → Sorted (sleep_less t) t.sleep_list
    → ((d : ℕ) → has d t.sleep_list ≡ true → t.sleep_until d < 9223372036854775808)
    → t.ticks + 1 < 9223372036854775808
    → t.kernel.status t.kernel.current ≡ some running
    → (yield : Bool) × (t' : Timer) × (woke : List ℕ) × (timer_interrupt t user ≡ some (yield, t'))
      × (t.sleep_list ≡ woke ++ t'.sleep_list)
      × (t'.kernel.ready_list ≡ t.kernel.ready_list ++ woke)
      × ((c : ℕ) → has c woke ≡ (has c t.sleep_list && leb (t.sleep_until c) (t.ticks + 1)))
      × ((c : ℕ)
          → has c t'.sleep_list ≡ (has c t.sleep_list && ltb (t.ticks + 1) (t.sleep_until c)))
unfolding timer_interrupt
timer_interrupt-due t user d asleep s bound now run =
    let t0 = record t { ticks = (t.ticks + 1) % 18446744073709551616 } in
    let (t', woke, left, ready_now, cur, same) =
      wake_from-due t.sleep_list t0 d
        (λ c i. record { queued = (asleep c i).queued; is_asleep = (asleep c i).is_asleep }) in
    let still : t'.kernel.status t'.kernel.current ≡ some running =
      ap t'.kernel.status cur ∙ same t.kernel.current awake ∙ run in
    let (k', yield, tick, ready_kept) = thread_tick-run t'.kernel user still in
    (
      yield,
      record t' { kernel = k' },
      due t0 t.sleep_list,
      rw (woke, tick) refl,
      sym (due-append-later t0 t.sleep_list) ∙ ap (λ l. due t0 t.sleep_list ++ l) (sym left),
      ready_kept ∙ ready_now,
      λ c.
          (due-later t0 t.sleep_list c s bound (omega (arith, now))).0
          ∙ ap (λ n. has c t.sleep_list && leb (t.sleep_until c) n) next,
      λ c.
          ap (has c) left
          ∙ (due-later t0 t.sleep_list c s bound (omega (arith, now))).1
          ∙ ap (λ n. has c t.sleep_list && ltb n (t.sleep_until c)) next,
    )
  where
    next : (t.ticks + 1) % 18446744073709551616 ≡ t.ticks + 1
    next = omega (arith, now)

    awake : has t.kernel.current t.sleep_list ≡ false
    awake = elim (Bool-cases (has t.kernel.current t.sleep_list)) [
      | inl y ↦ cc (sym run ∙ (asleep t.kernel.current y).is_asleep)
      | inr n ↦ n
    ]
