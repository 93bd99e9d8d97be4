-- ===== src/Thread/Invariant.antt =====
-- The scheduler's invariant, and that every operation keeps it.
use mathlib.Core.Path.{subst}
use tddb.Base.{
  ℕ, Bool, true, false, not, ◌&&◌, Option, none, some, List, [], ◌∷◌, ◌==◌, if◌then◌else◌, ◌≡◌, ◌≢◌,
  refl, arith,
}
use tddb.Base.Members.{has, Distinct, update}
use tddb.Thread.{
  Kernel, Status, running, ready, dying, is_thread, is_dying, front, behind, schedule,
}

-- The idle thread never exits.
abbrev pub is_alive : Option Status → Bool
is_alive (some dying) = false
is_alive (some _) = true
is_alive none = false

-- What holds between the threads and the ready list, whoever runs.
pub record IsListed (k : Kernel) : Type 0 where
  pub listed : (t : ℕ) → has t k.ready_list ≡ true → k.status t ≡ some ready
  pub ready_in : (t : ℕ) → k.status t ≡ some ready → t ≢ k.idle_thread → has t k.ready_list ≡ true
  pub distinct : Distinct k.ready_list
  pub idle_out : has k.idle_thread k.ready_list ≡ false
  pub idle_alive : is_alive (k.status k.idle_thread) ≡ true

-- The invariant outside the scheduler: one thread runs, and the ready list holds the ready threads,
-- each once, the idle thread apart.
pub record IsValid (k : Kernel) : Type 0 where
  pub lists : IsListed k
  pub current_runs : k.status k.current ≡ some running
  pub only_current : (t : ℕ) → k.status t ≡ some running → t ≡ k.current

-- The state that `schedule` is called in: the current thread has stopped running.
pub record Stopped (k : Kernel) : Type 0 where
  pub lists : IsListed k
  pub none_runs : (t : ℕ) → k.status t ≢ some running
  pub here : is_thread (k.status k.current) ≡ true

-- What `schedule` leaves: the front of the ready list runs, or the idle thread; a dying thread is freed.
abbrev pub next_of : Kernel → ℕ
next_of k = front k.ready_list k.idle_thread

abbrev pub reaped : Kernel → Bool
reaped k = is_dying (k.status k.current) && not (k.current == k.initial_thread)

abbrev pub scheduled : Kernel → Kernel
scheduled k = record k {
  ready_list = behind k.ready_list;
  current = next_of k;
  thread_ticks = 0;
  status =
      let s = update k.status (next_of k) (some running) in
      if reaped k then update s k.current none else s;
}

pub front-in : (x : ℕ) (xs : List ℕ) → has x (x ∷ xs) ≡ true
front-in x xs = ground arith

-- The thread that runs next is no dying one.
next_alive : (k : Kernel) → IsListed k → is_alive (k.status (next_of k)) ≡ true
next_alive k l = go k.ready_list refl
  where
    go : (xs : List ℕ) → k.ready_list ≡ xs → is_alive (k.status (front xs k.idle_thread)) ≡ true
    go [] e = l.idle_alive
    go (x ∷ xs) e = rw (l.listed x (rw e (front-in x xs)))

pub schedule-scheduled : (k : Kernel) → Stopped k → schedule k ≡ some (scheduled k)
unfolding schedule
schedule-scheduled k s = ground (arith, s.none_runs k.current, next_alive k s.lists, s.here)

module _ (k : Kernel) (s : Stopped k) where
  open s use {lists, none_runs}
  open lists use {listed, ready_in, distinct, idle_out, idle_alive}

  -- The thread that is chosen is in no list any more.
  next_out : has (next_of k) (behind k.ready_list) ≡ false
  next_out = go k.ready_list refl
    where
      go : (xs : List ℕ) → k.ready_list ≡ xs → has (front xs k.idle_thread) (behind xs) ≡ false
      go [] e = refl
      go (x ∷ xs) e = (subst Distinct e distinct).0

  in_behind : (t : ℕ) → has t (behind k.ready_list) ≡ true → has t k.ready_list ≡ true
  in_behind t = go k.ready_list
    where
      go : (xs : List ℕ) → has t (behind xs) ≡ true → has t xs ≡ true
      go [] h = h
      go (x ∷ xs) h = ground arith

  in_front :
      (t : ℕ) → has t k.ready_list ≡ true → t ≢ next_of k → has t (behind k.ready_list) ≡ true
  in_front t = go k.ready_list
    where
      go : (xs : List ℕ) → has t xs ≡ true → t ≢ front xs k.idle_thread → has t (behind xs) ≡ true
      go [] h ne = h
      go (x ∷ xs) h ne = ground arith

  Distinct-behind : Distinct (behind k.ready_list)
  Distinct-behind = go k.ready_list distinct
    where
      go : (xs : List ℕ) → Distinct xs → Distinct (behind xs)
      go [] d = tt
      go (x ∷ xs) d = d.1

  scheduled-IsListed : IsListed (scheduled k)
  scheduled-IsListed = record {
    listed = λ t h. ground (arith, listed t (in_behind t h), next_out, listed k.current);
    ready_in = λ t h ne. ground (arith, ready_in t, in_front t);
    distinct = Distinct-behind;
    idle_out = ground (arith, in_behind k.idle_thread);
    idle_alive = ground arith;
  }

  pub scheduled-IsValid : IsValid (scheduled k)
  scheduled-IsValid = record {
    lists = scheduled-IsListed;
    current_runs = ground (arith, next_alive k lists);
    only_current = λ t h. ground (arith, none_runs t);
  }
