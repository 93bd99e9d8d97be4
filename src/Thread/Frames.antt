-- ===== src/Thread/Frames.antt =====
-- What the scheduler's operations leave alone: which threads are blocked.
use tddb.Base.{
  ℕ, Bool, true, false, some, List, [], ◌∷◌, ◌==◌, if◌then◌else◌, ◌≡◌, ◌≢◌, refl, sym, ◌∙◌, arith,
}
use tddb.Thread.{
  Kernel, ready, blocked, is_blocked, set_status, push_ready, front, thread_unblock, thread_block,
  thread_yield,
}
use mathlib.Core.Path.{subst}
use tddb.Thread.Invariant.{
  IsListed, front-in, scheduled-IsValid, IsValid, Stopped, next_of, scheduled,
}
use tddb.Thread.Operations.{
  blocked-Stopped, yielding, yielding-Stopped, thread_block_run, thread_yield_run,
  thread_unblock_run, thread_unblock-IsValid,
}

-- `k'` differs from `k` in the scheduler's state alone, and has the blocked threads that `b` says, the
-- idle thread apart.
pub record Frame (k : Kernel) (b : ℕ → Bool) (k' : Kernel) : Type 0 where
  pub valid : IsValid k'
  pub idle_same : k'.idle_thread ≡ k.idle_thread
  pub blocks : (t : ℕ) → t ≢ k.idle_thread → is_blocked (k'.status t) ≡ b t

-- The thread that runs next was not blocked, unless it is the idle one.
front_not_blocked :
    (k : Kernel)
    → IsListed k
    → next_of k ≢ k.idle_thread
    → is_blocked (k.status (next_of k)) ≡ false
front_not_blocked k l = go k.ready_list refl
  where
    go :
        (xs : List ℕ)
        → k.ready_list ≡ xs
        → front xs k.idle_thread ≢ k.idle_thread
        → is_blocked (k.status (front xs k.idle_thread)) ≡ false
    go [] e ne = absurd (ne refl)
    go (x ∷ xs) e ne = rw (l.listed x (rw e (front-in x xs)))

scheduled-blocks :
    (k : Kernel)
    → Stopped k
    → (t : ℕ) → t ≢ k.idle_thread
    → is_blocked ((scheduled k).status t) ≡ is_blocked (k.status t)
scheduled-blocks k s t ne = ground (arith, front_not_blocked k s.lists)

some_same : {k k' : Kernel} → some k ≡ some k' → k ≡ k'
some_same e = cc

pub thread_block-Frame :
    {k k' : Kernel}
    → IsValid k
    → thread_block k ≡ some k'
    → Frame k (λ t. if k.current == t then true else is_blocked (k.status t)) k'
thread_block-Frame {k} {k'} v e =
    let k1 : Kernel = set_status k k.current blocked in
    let s : Stopped k1 = blocked-Stopped v in
    let f : Frame k (λ t. if k.current == t then true else is_blocked (k.status t)) (scheduled k1) =
      record {
        valid = scheduled-IsValid k1 s;
        idle_same = refl;
        blocks = λ t out. ground (arith, scheduled-blocks k1 s t out);
      } in
    subst (Frame k (λ t. if k.current == t then true else is_blocked (k.status t)))
      (some_same (sym (thread_block_run v) ∙ e)) f

pub thread_yield-Frame :
    {k k' : Kernel}
    → IsValid k
    → thread_yield k ≡ some k'
    → Frame k (λ t. is_blocked (k.status t)) k'
thread_yield-Frame {k} {k'} v e =
    let s : Stopped (yielding v) = yielding-Stopped v in
    let same_idle : (yielding v).idle_thread ≡ k.idle_thread =
      either (k.current == k.idle_thread) in
    let f : Frame k (λ t. is_blocked (k.status t)) (scheduled (yielding v)) = record {
      valid = scheduled-IsValid (yielding v) s;
      idle_same = same_idle;
      blocks = λ t out.
          scheduled-blocks (yielding v) s t (λ e. out (e ∙ same_idle))
          ∙ ground (arith, v.current_runs);
    } in
    subst (Frame k (λ t. is_blocked (k.status t))) (some_same (sym (thread_yield_run v) ∙ e)) f
  where
    either : (b : Bool) → (if b then k else push_ready k k.current).idle_thread ≡ k.idle_thread
    either true = refl
    either false = refl

pub thread_unblock-Frame :
    {k k' : Kernel} (x : ℕ)
    → IsValid k
    → k.status x ≡ some blocked
    → x ≢ k.idle_thread
    → thread_unblock k x ≡ some k'
    → Frame k (λ t. if x == t then false else is_blocked (k.status t)) k'
thread_unblock-Frame {k} {k'} x v b ne e =
    let k1 : Kernel = set_status (push_ready k x) x ready in
    let (k2, run, ok, cur, rl) = thread_unblock-IsValid v x b ne in
    let f : Frame k (λ t. if x == t then false else is_blocked (k.status t)) k1 = record {
      valid = subst IsValid (some_same (sym run ∙ thread_unblock_run k x b)) ok;
      idle_same = refl;
      blocks = λ t out. ground arith;
    } in
    subst (Frame k (λ t. if x == t then false else is_blocked (k.status t)))
      (some_same (sym (thread_unblock_run k x b) ∙ e)) f
