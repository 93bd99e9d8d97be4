-- ===== src/Synch/Mutex.antt =====
-- What a lock promises to the threads that share it.
use tddb.Base.{
  ℕ, ◌+◌, ◌-◌, ◌%◌, ◌^◌, true, false, none, some, List, [], ◌∷◌, ◌++◌, ◌==◌, ◌≡◌, ◌≢◌, refl, arith,
  ==_refl, ==_ne, ◌⊎◌, inl, inr, Bool-cases, Option-cases, ◌↔◌,
}
use tddb.Base.Members.{has}
use tddb.Thread.{Kernel}
use tddb.Thread.Invariant.{IsValid}
use mathlib.Core.Path.{subst}
use tddb.Thread.{set_status, push_ready, ready}
use tddb.Thread.Operations.{current_lem, thread_block-IsValid, thread_unblock_run}
use tddb.Synch.{
  Semaphore, Round, got, slept, sema_down, wake_front, sema_up, Lock, lock_init, is_holder,
  acquire_check, acquire_own, release_disown,
}
use tddb.Synch.System.{Place, outside, testing, taken, inside, leaving, System, runner, Reach}
use tddb.Synch.Invariant.{owns, Inv, asleep}
use tddb.Synch.Steps.{Reach-Inv, is_blocked_lem}

-- A new lock that no thread uses yet.
abbrev pub fresh : Kernel → System
fresh k = record { kernel = k; lock = lock_init; place = λ t. outside }

fresh-Inv : {k : Kernel} → IsValid k → Inv (fresh k)
fresh-Inv v = record {
  kernel = v;
  idle_outside = refl;
  locked = record {
    small = omega arith;
    taken_zero = λ i o. cc;
    unique = λ i j oi oj. cc;
    owner = λ z. absurd (omega arith);
    holder_inside = λ t q. cc;
    inside_holder = λ t q. cc;
  };
  queue = record { sleeps = λ t h. cc; queued = λ t p h. cc; distinct = tt; woken = λ w h n. cc };
}

-- In every state that a new lock can come to, at most one thread is past `sema_down` in `lock_acquire`
-- or `lock_try_acquire` and not yet through `sema_up` in `lock_release`.
pub Reach-exclusive :
    {k : Kernel} {s : System}
    → IsValid k
    → Reach (fresh k) s
    → (i j : ℕ) → owns (s.place i) ≡ true
    → owns (s.place j) ≡ true
    → i ≡ j
Reach-exclusive v r = (Reach-Inv r (fresh-Inv v)).locked.unique

-- In every state that a new lock can come to, the holder that the lock names is exactly the thread
-- between its acquire and its release.
pub Reach-holder :
    {k : Kernel} {s : System}
    → IsValid k
    → Reach (fresh k) s
    → (t : ℕ) → (s.lock.holder ≡ some t) ↔ (s.place t ≡ inside)
Reach-holder v r t =
    let h = (Reach-Inv r (fresh-Inv v)).locked in (h.holder_inside t, h.inside_holder t)

-- No wakeup is lost: in every state that a new lock can come to, while a thread is in the queue of the
-- lock, some thread owns the semaphore, or another thread is awake at the loop and will test it.
pub Reach-woken :
    {k : Kernel} {s : System}
    → IsValid k
    → Reach (fresh k) s
    → (w : ℕ) → has w s.lock.semaphore.waiters ≡ true
    → ((i : ℕ) × (owns (s.place i) ≡ true))
      ⊎ ((i : ℕ) × (s.place i ≡ testing) × (asleep s.kernel i ≡ false) × (i ≢ w))
Reach-woken {k} {s} v r w at =
    let h = Reach-Inv r (fresh-Inv v) in
    elim (Bool-cases (s.lock.semaphore.value == 0)) [
      | inl z ↦ inl (h.locked.owner (ground arith))
      | inr z ↦
          let (i, p, a) = h.queue.woken w at (ground arith) in
          inr (i, p, a, λ e. ground (arith, h.queue.sleeps w at))
    ]

-- What the running thread does next, by where it stands; each is to return.
abbrev pub Returns : System → Place → Type 0
Returns s outside = acquire_check s.kernel s.lock ≡ some tt
Returns s testing = (r : Round) × (sema_down s.kernel s.lock.semaphore ≡ some r)
Returns s taken = (l : Lock) × (acquire_own s.kernel s.lock ≡ some l)
Returns s inside = (l : Lock) × (release_disown s.kernel s.lock ≡ some l)
Returns s leaving = (r : Kernel × Semaphore) × (sema_up s.kernel s.lock.semaphore ≡ some r)

module _ {s : System} (h : Inv s) where
  not_holder : s.place (runner s) ≢ inside → is_holder s.lock.holder (runner s) ≡ false
  not_holder ne = elim (Option-cases s.lock.holder) [
    | inl e ↦ rw e
    | inr (t, e) ↦ rw e (
        ==_ne t (runner s)
          (λ same. ne (subst (λ i. s.place i ≡ inside) same (h.locked.holder_inside t e))))
  ]

  check_returns : s.place (runner s) ≡ outside → acquire_check s.kernel s.lock ≡ some tt
  unfolding acquire_check
  check_returns at = rw (current_lem h.kernel, not_holder (λ e. ground arith))

  down_returns : (r : Round) × (sema_down s.kernel s.lock.semaphore ≡ some r)
  unfolding sema_down
  down_returns = elim (Bool-cases (s.lock.semaphore.value == 0)) [
    | inl z ↦
        let (k, run, ok, cur, was) = thread_block-IsValid h.kernel in
        (
          slept k
              (record (s.lock.semaphore) { waiters = s.lock.semaphore.waiters ++ (runner s ∷ []) }),
          rw (z, current_lem h.kernel, run),
        )
    | inr z ↦ (got (record (s.lock.semaphore) { value = s.lock.semaphore.value - 1 }), rw z)
  ]

  own_returns : (l : Lock) × (acquire_own s.kernel s.lock ≡ some l)
  unfolding acquire_own
  own_returns = (record (s.lock) { holder = some (runner s) }, rw (current_lem h.kernel))

  disown_returns :
      s.place (runner s) ≡ inside → (l : Lock) × (release_disown s.kernel s.lock ≡ some l)
  unfolding release_disown
  disown_returns at = (
    record (s.lock) { holder = none },
    rw (current_lem h.kernel, h.locked.inside_holder (runner s) at, ==_refl (runner s)),
  )

  wake_returns :
      (ws : List ℕ)
      → s.lock.semaphore.waiters ≡ ws
      → (p : Kernel × List ℕ) × (wake_front s.kernel ws ≡ some p)
  unfolding wake_front
  wake_returns [] e = ((s.kernel, []), refl)
  wake_returns (x ∷ xs) e =
      let (p, b) = h.queue.sleeps x (rw e (ground arith)) in
      (
        (set_status (push_ready s.kernel x) x ready, xs),
        rw (thread_unblock_run s.kernel x (is_blocked_lem (s.kernel.status x) b)),
      )

  up_returns : (r : Kernel × Semaphore) × (sema_up s.kernel s.lock.semaphore ≡ some r)
  unfolding sema_up
  up_returns =
      let ((k, ts), e) = wake_returns s.lock.semaphore.waiters refl in
      ((k, record { value = (s.lock.semaphore.value + 1) % 2 ^ 32; waiters = ts }), rw e)

  returns : Returns s (s.place (runner s))
  returns = go (s.place (runner s)) refl
    where
      go : (p : Place) → s.place (runner s) ≡ p → Returns s p
      go outside e = check_returns e
      go testing e = down_returns
      go taken e = own_returns
      go inside e = disown_returns e
      go leaving e = up_returns

-- No assertion of the lock fails, of `thread_block` and `thread_unblock` inside it neither: in every
-- state that a new lock can come to, what the running thread calls next, by where it stands, returns.
pub Reach-Returns :
    {k : Kernel} {s : System} → IsValid k → Reach (fresh k) s → Returns s (s.place (runner s))
Reach-Returns v r = returns (Reach-Inv r (fresh-Inv v))
