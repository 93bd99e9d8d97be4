-- ===== src/Thread/Operations.antt =====
-- Each operation of the scheduler keeps the invariant and never fails an assertion.
use mathlib.Core.List.{append_assoc}
use tddb.Base.{
  ℕ, zero, suc, ◌+◌, Bool, true, false, Option, none, some, List, [], ◌∷◌, ◌++◌, ◌==◌,
  if◌then◌else◌, ◌>>=◌, ◌≡◌, ◌≢◌, refl, ap, sym, leb, ◌<◌, ◌-◌, ◌^◌, ◌%◌, ◌∙◌, arith, length, ==_ne,
}
use tddb.Base.Members.{has, has-push, Distinct-push}
use tddb.Thread.{
  Kernel, ready, blocked, dying, set_status, push_ready, front, behind, thread_current,
  thread_unblock, thread_block, thread_exit, thread_yield, thread_tick, time_slice, charge,
}
use tddb.Thread.Invariant.{
  IsValid, Stopped, next_of, scheduled, schedule-scheduled, scheduled-IsValid,
}

pub front_ne : (xs : List ℕ) (x idle : ℕ) → has x xs ≡ false → x ≢ idle → front xs idle ≢ x
front_ne [] x idle h ne e = ne (sym e)
front_ne (y ∷ ys) x idle h ne e = ground arith

front-behind :
    (xs : List ℕ) (x idle : ℕ)
    → front (xs ++ (x ∷ [])) idle ∷ behind (xs ++ (x ∷ [])) ≡ xs ++ (x ∷ [])
front-behind [] x idle = refl
front-behind (y ∷ ys) x idle = refl

pub thread_unblock_run :
    (k : Kernel) (t : ℕ)
    → k.status t ≡ some blocked
    → thread_unblock k t ≡ some (set_status (push_ready k t) t ready)
unfolding thread_unblock
thread_unblock_run k t b = rw b

module _ {k : Kernel} (v : IsValid k) where
  open v use {lists, current_runs, only_current}
  open lists use {listed, ready_in, distinct, idle_out, idle_alive}

  pub current_out : has k.current k.ready_list ≡ false
  current_out = ground (arith, listed k.current)

  pub current_lem : thread_current k ≡ some k.current
  unfolding thread_current
  current_lem = rw current_runs

  pub blocked-Stopped : Stopped (set_status k k.current blocked)
  blocked-Stopped = record {
    lists = record {
      listed = λ t h. ground (arith, listed t h, current_out);
      ready_in = λ t h ne. ground (arith, ready_in t);
      distinct = distinct;
      idle_out = idle_out;
      idle_alive = ground arith;
    };
    none_runs = λ t h. ground (arith, only_current t);
    here = ground arith;
  }

  dying-Stopped : k.current ≢ k.idle_thread → Stopped (set_status k k.current dying)
  dying-Stopped not_idle = record {
    lists = record {
      listed = λ t h. ground (arith, listed t h, current_out);
      ready_in = λ t h ne. ground (arith, ready_in t);
      distinct = distinct;
      idle_out = idle_out;
      idle_alive = ground arith;
    };
    none_runs = λ t h. ground (arith, only_current t);
    here = ground arith;
  }

  abbrev pub yielding : Kernel
  yielding =
      set_status (if k.current == k.idle_thread then k else push_ready k k.current) k.current ready

  pub yielding-Stopped : Stopped yielding
  yielding-Stopped = record {
    lists = record {
      listed = λ t h. ground (arith, listed t, has-push t k.current k.ready_list);
      ready_in = λ t h ne. ground (arith, ready_in t, has-push t k.current k.ready_list);
      distinct = ground (arith, distinct, Distinct-push k.current k.ready_list current_out);
      idle_out = ground (arith, idle_out, has-push k.idle_thread k.current k.ready_list);
      idle_alive = ground arith;
    };
    none_runs = λ t h. ground (arith, only_current t);
    here = ground arith;
  }

  pub thread_block_run : thread_block k ≡ some (scheduled (set_status k k.current blocked))
  unfolding thread_block
  thread_block_run =
      rw current_lem (schedule-scheduled (set_status k k.current blocked) blocked-Stopped)

  pub thread_yield_run : thread_yield k ≡ some (scheduled yielding)
  unfolding thread_yield
  thread_yield_run = rw current_lem (schedule-scheduled yielding yielding-Stopped)

  -- `thread_block` puts the running thread to sleep and switches to the front of the ready list, or to
  -- the idle thread; no assertion fails, and the invariant is kept.
  pub thread_block-IsValid :
      (k' : Kernel) × (thread_block k ≡ some k')
      × IsValid k'
      × (k'.current ≡ next_of k)
      × (k'.current ≢ k.current → k'.status k.current ≡ some blocked)
  thread_block-IsValid =
      let k1 : Kernel = set_status k k.current blocked in
      (
        scheduled k1,
        thread_block_run,
        scheduled-IsValid k1 blocked-Stopped,
        refl,
        λ ne. ground arith,
      )

  -- `thread_exit` never returns to the thread: another thread runs, the page of the one that exits is
  -- freed unless it is the initial thread's, and the invariant is kept.
  pub thread_exit-IsValid :
      k.current ≢ k.idle_thread
      → (k' : Kernel) × (thread_exit k ≡ some k')
        × IsValid k'
        × (k'.current ≢ k.current)
        × (k'.status k.current ≡ (if k.current == k.initial_thread then some dying else none))
  unfolding thread_exit
  thread_exit-IsValid not_idle =
      let k1 : Kernel = set_status k k.current dying in
      let s : Stopped k1 = dying-Stopped not_idle in
      let other : next_of k ≢ k.current =
        front_ne k.ready_list k.current k.idle_thread current_out not_idle in
      (
        scheduled k1,
        rw current_lem (schedule-scheduled k1 s),
        scheduled-IsValid k1 s,
        other,
        ground (arith, other),
      )

  -- `thread_yield` queues the running thread behind all others and runs the front one; no assertion
  -- fails, and the invariant is kept.
  pub thread_yield-IsValid :
      k.current ≢ k.idle_thread
      → (k' : Kernel) × (thread_yield k ≡ some k')
        × IsValid k'
        × (k'.current ∷ k'.ready_list ≡ k.ready_list ++ (k.current ∷ []))
        × (k'.idle_thread ≡ k.idle_thread)
  thread_yield-IsValid not_idle = (
    scheduled yielding,
    thread_yield_run,
    scheduled-IsValid yielding yielding-Stopped,
    rw (==_ne k.current k.idle_thread not_idle) (front-behind k.ready_list k.current k.idle_thread),
    rw (==_ne k.current k.idle_thread not_idle),
  )

  -- `thread_unblock` on a blocked thread other than the idle one queues it, last, and does not preempt.
  pub thread_unblock-IsValid :
      (t : ℕ)
      → k.status t ≡ some blocked
      → t ≢ k.idle_thread
      → (k' : Kernel) × (thread_unblock k t ≡ some k')
        × IsValid k'
        × (k'.current ≡ k.current)
        × (k'.ready_list ≡ k.ready_list ++ (t ∷ []))
  thread_unblock-IsValid t b ne = (
    set_status (push_ready k t) t ready,
    thread_unblock_run k t b,
    record {
      lists = record {
        listed = λ j h. ground (arith, listed j, has-push j t k.ready_list);
        ready_in = λ j h ne. ground (arith, ready_in j, has-push j t k.ready_list);
        distinct = ground (arith, Distinct-push t k.ready_list, listed t);
        idle_out = ground (arith, has-push k.idle_thread t k.ready_list);
        idle_alive = ground arith;
      };
      current_runs = ground arith;
      only_current = λ j h. ground (arith, only_current j);
    },
    refl,
    refl,
  )

-- The counters of ticks are no part of the invariant.
pub counted-IsValid :
    {k : Kernel}
    → IsValid k
    → (i n u t : ℕ)
    → IsValid (record k { idle_ticks = i; kernel_ticks = n; user_ticks = u; thread_ticks = t })
counted-IsValid v i n u t = record {
  lists = record {
    listed = v.lists.listed;
    ready_in = v.lists.ready_in;
    distinct = v.lists.distinct;
    idle_out = v.lists.idle_out;
    idle_alive = v.lists.idle_alive;
  };
  current_runs = v.current_runs;
  only_current = v.only_current;
}

charge-counts :
    {k : Kernel}
    → IsValid k
    → (idle user : Bool)
    → IsValid (charge k idle user)
      × ((charge k idle user).thread_ticks ≡ k.thread_ticks)
      × ((charge k idle user).idle_ticks
            + (charge k idle user).kernel_ticks
            + (charge k idle user).user_ticks
          ≡ suc (k.idle_ticks + k.kernel_ticks + k.user_ticks))
charge-counts {k} v true user = (
  counted-IsValid v (k.idle_ticks + 1) k.kernel_ticks k.user_ticks k.thread_ticks,
  refl,
  omega arith,
)
charge-counts {k} v false true = (
  counted-IsValid v k.idle_ticks k.kernel_ticks (k.user_ticks + 1) k.thread_ticks,
  refl,
  omega arith,
)
charge-counts {k} v false false = (
  counted-IsValid v k.idle_ticks (k.kernel_ticks + 1) k.user_ticks k.thread_ticks,
  refl,
  omega arith,
)

-- `thread_tick` adds one to exactly one of the tick counters and to the thread's own ticks, and asks for a
-- yield from the fourth tick of the thread on; the scheduler's invariant is kept.
pub thread_tick-counts :
    {k : Kernel} (user : Bool)
    → IsValid k
    → k.thread_ticks < 2 ^ 32 - 1
    → (k' : Kernel) × (thread_tick k user ≡ some (k', leb time_slice (suc k.thread_ticks)))
      × IsValid k'
      × (k'.thread_ticks ≡ suc k.thread_ticks)
      × (k'.idle_ticks + k'.kernel_ticks + k'.user_ticks
          ≡ suc (k.idle_ticks + k.kernel_ticks + k.user_ticks))
unfolding thread_tick
thread_tick-counts {k} user v small =
    let c = charge k (k.current == k.idle_thread) user in
    let (ok, same, sum) = charge-counts v (k.current == k.idle_thread) user in
    let wrapped : (c.thread_ticks + 1) % 2 ^ 32 ≡ suc k.thread_ticks = omega (arith, same, small) in
    (
      record c { thread_ticks = suc k.thread_ticks },
      rw (current_lem v, wrapped),
      counted-IsValid ok c.idle_ticks c.kernel_ticks c.user_ticks (suc k.thread_ticks),
      refl,
      sum,
    )

-- `n` times `thread_yield`, by whoever runs
pub yields : ℕ → Kernel → Option Kernel
yields zero k = some k
yields (suc n) k = thread_yield k >>= yields n

yields-step :
    {k1 k' : Kernel} (n : ℕ) (k : Kernel)
    → thread_yield k ≡ some k1
    → yields n k1 ≡ some k'
    → yields (suc n) k ≡ some k'
unfolding yields
yields-step n k e f = rw e f

yields-zero : (k : Kernel) → yields 0 k ≡ some k
unfolding yields
yields-zero k = refl

-- A thread in the ready list is not the idle one.
ne_idle : (x i : ℕ) (xs : List ℕ) → has i (x ∷ xs) ≡ false → x ≢ i
ne_idle x i xs h e = ground arith

cons_inj : {x y : ℕ} {xs ys : List ℕ} → x ∷ xs ≡ y ∷ ys → (x ≡ y) × (xs ≡ ys)
cons_inj e = (cc, cc)

-- No starvation: a thread with `n` others before it in the ready list runs after `n + 1` yields, whoever
-- yields, while the idle thread does not run.
pub yields-turn :
    (before : List ℕ) (t : ℕ) (after : List ℕ) {k : Kernel}
    → IsValid k
    → k.current ≢ k.idle_thread
    → k.ready_list ≡ before ++ (t ∷ after)
    → (k' : Kernel) × (yields (suc (length before)) k ≡ some k') × IsValid k' × (k'.current ≡ t)
yields-turn [] t after {k} v ne e =
    let (k1, run, v1, rot, idle) = thread_yield-IsValid v ne in
    (
      k1,
      yields-step 0 k run (yields-zero k1),
      v1,
      (cons_inj (rot ∙ ap (λ l. l ++ (k.current ∷ [])) e)).0,
    )
yields-turn (x ∷ before) t after {k} v ne e =
    let (k1, run, v1, rot, idle) = thread_yield-IsValid v ne in
    let (head, rest) = cons_inj (rot ∙ ap (λ l. l ++ (k.current ∷ [])) e) in
    let out : has k.idle_thread (x ∷ (before ++ (t ∷ after))) ≡ false = rw e at v.lists.idle_out in
    let not_idle : k1.current ≢ k1.idle_thread =
      λ p. ne_idle x k.idle_thread (before ++ (t ∷ after)) out (sym head ∙ p ∙ idle) in
    let (k', runs, v', at) =
      yields-turn before t (after ++ (k.current ∷ [])) {k = k1} v1 not_idle
        (rest ∙ append_assoc before (t ∷ after) (k.current ∷ [])) in
    (k', yields-step (suc (length before)) k run runs, v', at)
