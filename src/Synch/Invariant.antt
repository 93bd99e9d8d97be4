-- ===== src/Synch/Invariant.antt =====
-- The invariant of the lock, and that every step of the system keeps it.
use tddb.Base.{ℕ, ◌+◌, ◌-◌, ◌%◌, ◌^◌, ◌≤◌, Bool, true, false, none, some, List, ◌≡◌, ◌≢◌, arith}
use tddb.Base.Members.{has, Distinct, update}
use tddb.Thread.{Kernel, is_blocked}
use tddb.Thread.Invariant.{IsValid}
use tddb.Synch.{Semaphore, Lock}
use tddb.Synch.System.{Place, outside, testing, taken, inside, leaving, System}

-- The thread has gone through `sema_down` and not yet through `sema_up`.
abbrev pub owns : Place → Bool
owns outside = false
owns testing = false
owns taken = true
owns inside = true
owns leaving = true

-- What the lock's fields say about the threads.
pub record Locked (l : Lock) (place : ℕ → Place) : Type 0 where
  pub small : l.semaphore.value ≤ 1
  pub taken_zero : (i : ℕ) → owns (place i) ≡ true → l.semaphore.value ≡ 0
  pub unique : (i j : ℕ) → owns (place i) ≡ true → owns (place j) ≡ true → i ≡ j
  pub owner : l.semaphore.value ≡ 0 → (i : ℕ) × (owns (place i) ≡ true)
  pub holder_inside : (t : ℕ) → l.holder ≡ some t → place t ≡ inside
  pub inside_holder : (t : ℕ) → place t ≡ inside → l.holder ≡ some t

-- What the queue of the semaphore says: it holds exactly the threads that sleep in `sema_down`, and if
-- the semaphore is free while one sleeps, another thread is about to test it.
pub record Queued (waiters : List ℕ) (value : ℕ) (status : ℕ → Bool) (place : ℕ → Place)
    : Type 0 where
  pub sleeps : (t : ℕ) → has t waiters ≡ true → (place t ≡ testing) × (status t ≡ true)
  pub queued : (t : ℕ) → place t ≡ testing → status t ≡ true → has t waiters ≡ true
  pub distinct : Distinct waiters
  pub woken :
      (w : ℕ)
      → has w waiters ≡ true
      → value ≢ 0
      → (t : ℕ) × (place t ≡ testing) × (status t ≡ false)

abbrev pub asleep : Kernel → ℕ → Bool
asleep k t = is_blocked (k.status t)

pub record Inv (s : System) : Type 0 where
  pub kernel : IsValid s.kernel
  pub idle_outside : s.place s.kernel.idle_thread ≡ outside
  pub locked : Locked s.lock s.place
  pub queue : Queued s.lock.semaphore.waiters s.lock.semaphore.value (asleep s.kernel) s.place

-- A thread that calls `lock_acquire` or leaves it alone.
pub Locked-place :
    {l : Lock} {place : ℕ → Place} (c : ℕ) (p : Place)
    → Locked l place
    → owns (place c) ≡ false
    → owns p ≡ false
    → Locked l (update place c p)
Locked-place {l} {place} c p h before after = record {
  small = h.small;
  taken_zero = λ i o. ground (arith, h.taken_zero i);
  unique = λ i j oi oj. ground (arith, h.unique i j);
  owner = λ z. let (i, o) = h.owner z in (i, ground arith);
  holder_inside = λ t q. ground (arith, h.holder_inside t);
  inside_holder = λ t q. ground (arith, h.inside_holder t);
}

-- A thread that takes the semaphore.
pub Locked-take :
    {l : Lock} {place : ℕ → Place} (c : ℕ) (m : Semaphore)
    → Locked l place
    → l.semaphore.value ≢ 0
    → m.value ≡ l.semaphore.value - 1
    → owns (place c) ≡ false
    → Locked (record l { semaphore = m }) (update place c taken)
Locked-take {l} {place} c m h pos e before = record {
  small = omega (arith, h.small, e);
  taken_zero = λ i o. omega (arith, h.small, e);
  unique = λ i j oi oj. ground (arith, h.taken_zero i, h.taken_zero j);
  owner = λ z. (c, ground arith);
  holder_inside = λ t q. ground (arith, h.holder_inside t);
  inside_holder = λ t q. ground (arith, h.inside_holder t);
}

pub Locked-own :
    {l : Lock} {place : ℕ → Place} (c : ℕ)
    → Locked l place
    → place c ≡ taken
    → Locked (record l { holder = some c }) (update place c inside)
Locked-own {l} {place} c h at = record {
  small = h.small;
  taken_zero = λ i o. ground (arith, h.taken_zero i, h.taken_zero c);
  unique = λ i j oi oj. ground (arith, h.unique i j, h.unique c j, h.unique i c);
  owner = λ z. (c, ground arith);
  holder_inside = λ t q. ground arith;
  inside_holder = λ t q. ground (arith, h.unique c t);
}

pub Locked-disown :
    {l : Lock} {place : ℕ → Place} (c : ℕ)
    → Locked l place
    → place c ≡ inside
    → Locked (record l { holder = none }) (update place c leaving)
Locked-disown {l} {place} c h at = record {
  small = h.small;
  taken_zero = λ i o. ground (arith, h.taken_zero i, h.taken_zero c);
  unique = λ i j oi oj. ground (arith, h.unique i j, h.unique c j, h.unique i c);
  owner = λ z. (c, ground arith);
  holder_inside = λ t q. cc;
  inside_holder = λ t q. ground (arith, h.unique c t);
}

pub Locked-up :
    {l : Lock} {place : ℕ → Place} (c : ℕ) (m : Semaphore)
    → Locked l place
    → place c ≡ leaving
    → m.value ≡ (l.semaphore.value + 1) % 2 ^ 32
    → Locked (record l { semaphore = m }) (update place c outside)
Locked-up {l} {place} c m h at e = record {
  small = ground (arith, h.taken_zero c);
  taken_zero = λ i o. ground (arith, h.unique c i);
  unique = λ i j oi oj. ground (arith, h.unique i j);
  owner = λ z. absurd (ground (arith, h.taken_zero c));
  holder_inside = λ t q. ground (arith, h.holder_inside t);
  inside_holder = λ t q. ground (arith, h.inside_holder t);
}
