-- ===== src/Synch/Steps.antt =====
-- Every step of the system keeps the invariant.
use mathlib.Core.Path.{subst}
use tddb.Base.{
  ℕ, ◌+◌, ◌-◌, ◌%◌, ◌^◌, Bool, true, false, Option, none, some, List, [], ◌∷◌, ◌++◌, ◌==◌, ◌>>=◌,
  ◌≡◌, ◌≢◌, refl, sym, ◌∙◌, arith, inl, inr, Bool-cases,
}
use tddb.Base.Members.{update}
use tddb.Thread.{Kernel, Status, blocked, is_blocked, thread_block, thread_unblock}
use tddb.Thread.Invariant.{IsValid}
use tddb.Thread.Operations.{current_lem}
use tddb.Thread.Frames.{Frame, thread_block-Frame, thread_yield-Frame, thread_unblock-Frame}
use tddb.Synch.{
  Semaphore, got, slept, sema_down, wake_front, sema_up, sema_try_down, Lock, is_holder,
  acquire_own, release_disown,
}
use tddb.Synch.System.{
  Place, outside, testing, taken, inside, leaving, System, runner, go, with_sema, Step, call, take,
  sleep, own, try, disown, up, preempt, away, back, idle, Reach, here, next,
}
use tddb.Synch.Invariant.{
  owns, Queued, Inv, asleep, Locked-place, Locked-take, Locked-own, Locked-disown, Locked-up,
}
use tddb.Synch.Queue.{
  Queued-frame, Queued-place, Queued-take, Queued-sleep, Queued-up_empty, Queued-up,
}

-- What each function did when it returned.
sema_down-got :
    {k : Kernel} (s : Semaphore) {m : Semaphore}
    → IsValid k
    → sema_down k s ≡ some (got m)
    → (s.value ≢ 0) × (m ≡ record s { value = s.value - 1 })
unfolding sema_down
sema_down-got {k} s {m} v e = elim (Bool-cases (s.value == 0)) [
  | inl z ↦ absurd (
      no_got (record s { waiters = s.waiters ++ (k.current ∷ []) }) (thread_block k)
        (rw (z, current_lem v) at e))
  | inr z ↦ ground arith
]
  where
    no_got :
        (s' : Semaphore) (o : Option Kernel) → (o >>= λ k'. some (slept k' s')) ≡ some (got m) → ⊥
    no_got s' none e = cc
    no_got s' (some k') e = cc

sema_down-slept :
    {k k' : Kernel} (s : Semaphore) {m : Semaphore}
    → IsValid k
    → sema_down k s ≡ some (slept k' m)
    → (s.value ≡ 0)
      × (thread_block k ≡ some k')
      × (m ≡ record s { waiters = s.waiters ++ (k.current ∷ []) })
unfolding sema_down
sema_down-slept {k} {k'} s {m} v e = elim (Bool-cases (s.value == 0)) [
  | inl z ↦
      let (run, same) =
        slept_inv (record s { waiters = s.waiters ++ (k.current ∷ []) }) (thread_block k)
          (rw (z, current_lem v) at e) in
      (ground arith, run, same)
  | inr z ↦ ground arith
]
  where
    slept_inv :
        (s' : Semaphore) (o : Option Kernel)
        → (o >>= λ k1. some (slept k1 s')) ≡ some (slept k' m)
        → (o ≡ some k') × (m ≡ s')
    slept_inv s' none e = cc
    slept_inv s' (some k1) e = (cc, cc)

sema_try_down-got :
    (s : Semaphore) {m : Semaphore}
    → sema_try_down s ≡ (true, m)
    → (s.value ≢ 0) × (m ≡ record s { value = s.value - 1 })
unfolding sema_try_down
sema_try_down-got s {m} e = ground arith

acquire_own_lem :
    {k : Kernel} (l : Lock) {l' : Lock}
    → IsValid k
    → acquire_own k l ≡ some l'
    → l' ≡ record l { holder = some (k.current) }
unfolding acquire_own
acquire_own_lem l v e = cc (rw (current_lem v) at e)

release_disown_lem :
    {k : Kernel} (l : Lock) {l' : Lock}
    → IsValid k
    → release_disown k l ≡ some l'
    → l' ≡ record l { holder = none }
unfolding release_disown
release_disown_lem {k} l v e = elim (Bool-cases (is_holder l.holder k.current)) [
  | inl z ↦ cc (rw (current_lem v, z) at e)
  | inr z ↦ cc (rw (current_lem v, z) at e)
]

wake_front_cons :
    {k : Kernel} {ts : List ℕ} (o : Option Kernel) (xs : List ℕ)
    → ◌>>=◌ {B = Kernel × List ℕ} o (λ k'. some (k', xs)) ≡ some (k, ts)
    → (o ≡ some k) × (xs ≡ ts)
wake_front_cons none xs e = cc
wake_front_cons (some k1) xs e = (cc, cc)

sema_up_inv :
    {k' : Kernel} (k : Kernel) (s : Semaphore) {m : Semaphore}
    → sema_up k s ≡ some (k', m)
    → (wake_front k s.waiters ≡ some (k', m.waiters)) × (m.value ≡ (s.value + 1) % 2 ^ 32)
unfolding sema_up
sema_up_inv {k'} k s {m} e = go (wake_front k s.waiters) e
  where
    go :
        (o : Option (Kernel × List ℕ))
        → ◌>>=◌ {B = Kernel × Semaphore} o
            (λ p. some (p.0, record { value = (s.value + 1) % 2 ^ 32; waiters = p.1 }))
          ≡ some (k', m)
        → (o ≡ some (k', m.waiters)) × (m.value ≡ (s.value + 1) % 2 ^ 32)
    go none e = cc
    go (some (k1, ts)) e = (cc, cc)

pub is_blocked_lem : (s : Option Status) → is_blocked s ≡ true → s ≡ some blocked
is_blocked_lem none h = cc
is_blocked_lem (some s) h = ground arith

-- Two threads that wait in the lock, or the running one and another.
module _ {s : System} (h : Inv s) where
  open h use {kernel, idle_outside, locked, queue}

  pub waits_ne : (t : ℕ) → s.place t ≡ testing → t ≢ s.kernel.idle_thread
  waits_ne t p e = ground (arith, idle_outside)

  awake : asleep s.kernel (runner s) ≡ false
  awake = ground (arith, kernel.current_runs)

  runs_ne : s.place (runner s) ≢ outside → s.kernel.idle_thread ≢ runner s
  runs_ne ne e = ne (subst (λ t. s.place t ≡ outside) e idle_outside)

  idle_update :
      (p : Place)
      → s.kernel.idle_thread ≢ runner s
      → update s.place (runner s) p s.kernel.idle_thread ≡ outside
  idle_update p ne = ground (arith, idle_outside)

  -- The kernel moves on and the threads in `sema_down` sleep as before.
  Inv-Frame :
      {k : Kernel} {b : ℕ → Bool}
      → Frame s.kernel b k
      → ((t : ℕ) → s.place t ≡ testing → b t ≡ asleep s.kernel t)
      → Inv (record s { kernel = k })
  Inv-Frame f same = record {
    kernel = f.valid;
    idle_outside = rw f.idle_same idle_outside;
    locked = locked;
    queue = Queued-frame queue (λ t p. f.blocks t (waits_ne t p) ∙ same t p);
  }

  Inv-call : s.place (runner s) ≡ outside → runner s ≢ s.kernel.idle_thread → Inv (go s testing)
  Inv-call at ne = record {
    kernel = kernel;
    idle_outside = idle_update testing (λ e. ne (sym e));
    locked = Locked-place (runner s) testing locked (rw at) refl;
    queue = Queued-place queue (runner s) testing (λ e. ground arith) awake;
  }

  Inv-take :
      owns (s.place (runner s)) ≡ false
      → s.kernel.idle_thread ≢ runner s
      → s.lock.semaphore.value ≢ 0
      → Inv (
          go (with_sema s (record (s.lock.semaphore) { value = s.lock.semaphore.value - 1 })) taken)
  Inv-take before ne free = record {
    kernel = kernel;
    idle_outside = idle_update taken ne;
    locked =
        Locked-take (runner s) (record (s.lock.semaphore) { value = s.lock.semaphore.value - 1 })
          locked free refl before;
    queue = Queued-take queue (runner s) (omega (arith, locked.small)) awake;
  }

  Inv-own :
      s.place (runner s) ≡ taken
      → Inv (record (go s inside) { lock = record (s.lock) { holder = some (runner s) } })
  Inv-own at = record {
    kernel = kernel;
    idle_outside = idle_update inside (runs_ne (λ e. ground arith));
    locked = Locked-own (runner s) locked at;
    queue = Queued-place queue (runner s) inside (λ e. ground arith) awake;
  }

  Inv-disown :
      s.place (runner s) ≡ inside
      → Inv (record (go s leaving) { lock = record (s.lock) { holder = none } })
  Inv-disown at = record {
    kernel = kernel;
    idle_outside = idle_update leaving (runs_ne (λ e. ground arith));
    locked = Locked-disown (runner s) locked at;
    queue = Queued-place queue (runner s) leaving (λ e. ground arith) awake;
  }

  Inv-sleep :
      {k : Kernel}
      → s.place (runner s) ≡ testing
      → s.lock.semaphore.value ≡ 0
      → thread_block s.kernel ≡ some k
      → Inv
          (record (with_sema s
            (record (s.lock.semaphore) { waiters = s.lock.semaphore.waiters ++ (runner s ∷ []) })) {
              kernel = k;
            })
  Inv-sleep {k} at full run =
      let f = thread_block-Frame kernel run in
      record {
        kernel = f.valid;
        idle_outside = rw f.idle_same idle_outside;
        locked = record {
          small = locked.small;
          taken_zero = locked.taken_zero;
          unique = locked.unique;
          owner = locked.owner;
          holder_inside = locked.holder_inside;
          inside_holder = locked.inside_holder;
        };
        queue = Queued-sleep queue (runner s) full at awake (λ t p. f.blocks t (waits_ne t p));
      }

  Inv-back :
      {k : Kernel} (t : ℕ)
      → s.place t ≡ outside
      → s.kernel.status t ≡ some blocked
      → t ≢ s.kernel.idle_thread
      → thread_unblock s.kernel t ≡ some k
      → Inv (record s { kernel = k })
  Inv-back t at b ne run = Inv-Frame (thread_unblock-Frame t kernel b ne run) (λ j p. ground arith)

  Inv-away :
      {k : Kernel}
      → s.place (runner s) ≡ outside
      → thread_block s.kernel ≡ some k
      → Inv (record s { kernel = k })
  Inv-away at run = Inv-Frame (thread_block-Frame kernel run) (λ j p. ground arith)

  -- `sema_up` with the queue at hand: what it leaves.
  Inv-up :
      {k : Kernel} (ws ts : List ℕ) (v : ℕ)
      → s.lock.semaphore.waiters ≡ ws
      → s.place (runner s) ≡ leaving
      → wake_front s.kernel ws ≡ some (k, ts)
      → v ≡ (s.lock.semaphore.value + 1) % 2 ^ 32
      → Inv (record (go (with_sema s (record { value = v; waiters = ts })) outside) { kernel = k })
  unfolding wake_front
  Inv-up {k} [] ts v none_waits at run e =
      let same_k : s.kernel ≡ k = cc in
      let same_ts : [] ≡ ts = cc in
      subst
        (λ k.
          Inv
            (record (go (with_sema s (record { value = v; waiters = ts })) outside) { kernel = k }))
        same_k
        (record {
          kernel = kernel;
          idle_outside = idle_update outside (runs_ne (λ e. ground arith));
          locked = Locked-up (runner s) (record { value = v; waiters = ts }) locked at e;
          queue =
              subst (λ ts. Queued ts v (asleep s.kernel) (update s.place (runner s) outside))
                same_ts
                (Queued-up_empty (runner s) v (
                  subst (λ ws. Queued ws s.lock.semaphore.value (asleep s.kernel) s.place)
                    none_waits queue));
        })
  Inv-up {k} (x ∷ xs) ts v waits at run e =
      let (woke, same_ts) = wake_front_cons (thread_unblock s.kernel x) xs run in
      let q =
        subst (λ ws. Queued ws s.lock.semaphore.value (asleep s.kernel) s.place) waits queue in
      let (px, bx) = q.sleeps x (ground arith) in
      let f =
        thread_unblock-Frame x kernel (is_blocked_lem (s.kernel.status x) bx) (waits_ne x px)
          woke in
      record {
        kernel = f.valid;
        idle_outside = rw f.idle_same (idle_update outside (runs_ne (λ e. ground arith)));
        locked = Locked-up (runner s) (record { value = v; waiters = ts }) locked at e;
        queue =
            subst (λ ts. Queued ts v (asleep k) (update s.place (runner s) outside)) same_ts
              (Queued-up (runner s) v q (λ e. ground arith) (λ t p. f.blocks t (waits_ne t p)));
      }

-- Every step keeps the invariant.
pub Step-Inv : {s t : System} → Step s t → Inv s → Inv t
Step-Inv {s} (call at ne ok) h = Inv-call h at ne
Step-Inv {s} (take {m} at run) h =
    let (free, same) = sema_down-got s.lock.semaphore h.kernel run in
    subst (λ m. Inv (go (with_sema s m) taken)) (sym same)
      (Inv-take h (rw at) (runs_ne h (λ e. ground arith)) free)
Step-Inv {s} (sleep {m} {k} at run) h =
    let (full, went, same) = sema_down-slept s.lock.semaphore h.kernel run in
    subst (λ m. Inv (record (with_sema s m) { kernel = k })) (sym same) (Inv-sleep h at full went)
Step-Inv {s} (own at run) h =
    subst (λ l. Inv (record (go s inside) { lock = l })) (sym (acquire_own_lem s.lock h.kernel run))
      (Inv-own h at)
Step-Inv {s} (try {m} at ne ok run) h =
    let (free, same) = sema_try_down-got s.lock.semaphore run in
    subst (λ m. Inv (go (with_sema s m) taken)) (sym same)
      (Inv-take h (rw at) (λ e. ne (sym e)) free)
Step-Inv {s} (disown at run) h =
    subst (λ l. Inv (record (go s leaving) { lock = l }))
      (sym (release_disown_lem s.lock h.kernel run)) (Inv-disown h at)
Step-Inv {s} (up {k} {m} at run) h =
    let (woke, v) = sema_up_inv s.kernel s.lock.semaphore run in
    Inv-up h s.lock.semaphore.waiters m.waiters m.value refl at woke v
Step-Inv (preempt run) h = Inv-Frame h (thread_yield-Frame h.kernel run) (λ t p. refl)
Step-Inv (away at ne run) h = Inv-away h at run
Step-Inv (back t at b ne run) h = Inv-back h t at b ne run
Step-Inv {s} (idle at run) h =
    Inv-away h (subst (λ t. s.place t ≡ outside) (sym at) h.idle_outside) run

pub Reach-Inv : {s t : System} → Reach s t → Inv s → Inv t
Reach-Inv here h = h
Reach-Inv (next r step) h = Step-Inv step (Reach-Inv r h)
