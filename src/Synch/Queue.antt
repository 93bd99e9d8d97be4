-- ===== src/Synch/Queue.antt =====
-- The queue of the semaphore under each kind of step.
use tddb.Base.{ℕ, Bool, true, false, List, [], ◌∷◌, ◌++◌, ◌==◌, if◌then◌else◌, ◌≡◌, ◌≢◌, arith}
use tddb.Base.Members.{has-push, Distinct-push, update}
use tddb.Synch.System.{Place, outside, testing, taken}
use tddb.Synch.Invariant.{Queued}

module _ {ts : List ℕ} {v : ℕ} {status : ℕ → Bool} {place : ℕ → Place}
    (q : Queued ts v status place) where
  open q use {sleeps, queued, distinct, woken}

  -- The scheduler changes nothing for the threads in `sema_down`.
  pub Queued-frame :
      {status' : ℕ → Bool}
      → ((t : ℕ) → place t ≡ testing → status' t ≡ status t)
      → Queued ts v status' place
  Queued-frame same = record {
    sleeps = λ t h. ground (arith, sleeps t, same t);
    queued = λ t p h. ground (arith, queued t, same t);
    distinct = distinct;
    woken = λ w h n. let (t, p, a) = woken w h n in (t, p, ground (arith, same t));
  }

  -- A thread that is awake and not at the loop goes elsewhere.
  pub Queued-place :
      (c : ℕ) (p : Place)
      → place c ≢ testing
      → status c ≡ false
      → Queued ts v status (update place c p)
  Queued-place c p ne awake = record {
    sleeps = λ t h. ground (arith, sleeps t);
    queued = λ t e h. ground (arith, queued t);
    distinct = distinct;
    woken = λ w h n. let (t, e, a) = woken w h n in (t, ground (arith, ne), a);
  }

  -- A thread that is awake takes the semaphore, which is then 0.
  pub Queued-take :
      (c : ℕ) {v' : ℕ} → v' ≡ 0 → status c ≡ false → Queued ts v' status (update place c taken)
  Queued-take c zero_now awake = record {
    sleeps = λ t h. ground (arith, sleeps t);
    queued = λ t e h. ground (arith, queued t);
    distinct = distinct;
    woken = λ w h n. absurd (n zero_now);
  }

  -- A thread at the loop goes to sleep, the semaphore being 0.
  pub Queued-sleep :
      (c : ℕ) {v' : ℕ} {status' : ℕ → Bool}
      → v' ≡ 0
      → place c ≡ testing
      → status c ≡ false
      → ((t : ℕ) → place t ≡ testing → status' t ≡ (if c == t then true else status t))
      → Queued (ts ++ (c ∷ [])) v' status' place
  Queued-sleep c zero_now at awake change = record {
    sleeps = λ t h. ground (arith, sleeps t, change t, has-push t c ts);
    queued = λ t p h. ground (arith, queued t, change t, has-push t c ts);
    distinct = Distinct-push c ts (ground (arith, sleeps c)) distinct;
    woken = λ w h n. absurd (n zero_now);
  }

-- An `up` with an empty queue.
pub Queued-up_empty :
    {v : ℕ} {status : ℕ → Bool} {place : ℕ → Place} (c v' : ℕ)
    → Queued [] v status place
    → Queued [] v' status (update place c outside)
Queued-up_empty c v' q = record {
  sleeps = λ t h. cc;
  queued = λ t p h. ground (arith, q.queued t);
  distinct = tt;
  woken = λ w h n. cc;
}

-- An `up` that wakes the front of the queue.
pub Queued-up :
    {x : ℕ} {xs : List ℕ} {v : ℕ} {status status' : ℕ → Bool} {place : ℕ → Place} (c v' : ℕ)
    → Queued (x ∷ xs) v status place
    → place c ≢ testing
    → ((t : ℕ) → place t ≡ testing → status' t ≡ (if x == t then false else status t))
    → Queued xs v' status' (update place c outside)
Queued-up {x} {xs} c v' q ne change = record {
  sleeps = λ t h. ground (arith, q.sleeps t, change t, q.distinct, ne);
  queued = λ t p h. ground (arith, q.queued t, change t);
  distinct = q.distinct.1;
  woken = λ w h n. (x, ground (arith, q.sleeps x, ne), ground (arith, q.sleeps x, change x));
}
