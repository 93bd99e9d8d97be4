-- ===== src/Child/Wait.antt =====
-- What `process_wait` returns.
use tddb.Base.{
  ℕ, ◌+◌, ◌-◌, true, false, Option, none, some, List, [], ◌∷◌, ◌==◌, if◌then◌else◌, ◌>>=◌, ◌≡◌, ◌≢◌,
  refl, sym, ap, ◌∙◌, arith, ==_ne, ==_refl, Option-cases, inl, inr, ℕ_discrete,
}
use tddb.Child.{
  ChildStatus, Family, store, free, list_remove, remove_from, find_child, returned, waits,
  minus_one, collect, wait_down, wait_for, process_wait, exit_with, drop_parent, raise,
}

-- A struct that is rewritten with its pid kept is found as before.
find_child-store :
    (fam : Family) (cs : List ℕ) (pid c : ℕ) (s s' : ChildStatus) (o : Option ℕ)
    → fam.heap c ≡ some s
    → s'.pid ≡ s.pid
    → find_child (store fam c s') cs pid o ≡ find_child fam cs pid o
unfolding find_child
find_child-store fam [] pid c s s' o at keep = refl
find_child-store fam (x ∷ xs) pid c s s' o at keep = elim (ℕ_discrete c x) [
  | yes same ↦
      rw (eq_test same, sym (ap fam.heap same) ∙ at, keep)
        (ap (λ r. if s.pid == pid then some (some x, true) else r)
          (find_child-store fam xs pid c s s' (some x) at keep))
  | no ne ↦ rw (==_ne c x ne) (elim (Option-cases (fam.heap x)) [
    | inl e ↦ rw e refl
    | inr (y, e) ↦ rw e (
        ap (λ r. if y.pid == pid then some (some x, true) else r)
          (find_child-store fam xs pid c s s' (some x) at keep))
  ])
]
  where
    eq_test : c ≡ x → (c == x) ≡ true
    eq_test e = ground arith

-- A thread with this struct as its parent's exits with a status, and no other thread runs in between.
abbrev pub exit_child : Family → ℕ → ℕ → Option Family
exit_child fam t status = exit_with fam t status >>= λ fam1.
    drop_parent fam1 (fam1.cs_parent t) >>= λ r. raise (r.0) (r.1)

-- The struct of a child that left it to its parent
abbrev pub left : ChildStatus → ℕ → ChildStatus
left s status = record s { exit_status = status; ref_cnt = 1; sema_exec = s.sema_exec + 1 }

stored : (fam : Family) (c : ℕ) (s : ChildStatus) → (store fam c s).heap c ≡ some s
stored fam c s = rw (==_refl c) refl

exit_run :
    (fam : Family) (t c status : ℕ) (s : ChildStatus)
    → fam.cs_parent t ≡ some c
    → fam.heap c ≡ some s
    → s.ref_cnt ≡ 2
    → exit_child fam t status
      ≡ some (
          store
            (store
              (store fam c (record s { exit_status = status }))
              c
              (record s { exit_status = status; ref_cnt = 1 }))
            c
            (left s status))
unfolding exit_with drop_parent raise
exit_run fam t c status s mine at two = rw (mine, at, two, mine, ==_refl c, ==_refl c) refl

module _ (fam : Family) (p t c pid status : ℕ) (s : ChildStatus) (mine : fam.cs_parent t ≡ some c)
    (at : fam.heap c ≡ some s) (two : s.ref_cnt ≡ 2)
    (listed : find_child fam (fam.cs_list p) pid none ≡ some (some c, true)) where
  after : Family
  after =
      store
        (store (store fam c (record s { exit_status = status })) c
          (record s { exit_status = status; ref_cnt = 1 }))
        c (left s status)

  still_listed : find_child after (fam.cs_list p) pid none ≡ some (some c, true)
  unfolding after
  still_listed =
      find_child-store
        (store (store fam c (record s { exit_status = status })) c
          (record s { exit_status = status; ref_cnt = 1 }))
        (fam.cs_list p) pid c (record s { exit_status = status; ref_cnt = 1 }) (left s status) none
        (stored (store fam c (record s { exit_status = status })) c
          (record s { exit_status = status; ref_cnt = 1 }))
        refl
      ∙ find_child-store (store fam c (record s { exit_status = status })) (fam.cs_list p) pid c
          (record s { exit_status = status }) (record s { exit_status = status; ref_cnt = 1 }) none
          (stored fam c (record s { exit_status = status })) refl
      ∙ find_child-store fam (fam.cs_list p) pid c s (record s { exit_status = status }) none at
          refl
      ∙ listed

  -- Whether the parent waits before or after its child has exited with a status, `process_wait` returns the status,
  -- takes the struct of the child from the list and frees it, and no other struct changes; before that, it
  -- sleeps on the semaphore of the struct if that is 0.
  pub process_wait-exit_child :
      (fam1 fam2 fam3 : Family) × (exit_child fam t status ≡ some fam1)
      × (process_wait fam1 p pid ≡ some (returned status fam2))
      × (wait_down fam1 p c true ≡ some (returned status fam3))
      × (s.sema_exec ≡ 0 → process_wait fam p pid ≡ some (waits c true))
      × (fam2.heap c ≡ none)
      × (fam3.heap c ≡ none)
      × ((d : ℕ) → c ≢ d → (fam2.heap d ≡ fam.heap d) × (fam3.heap d ≡ fam.heap d))
      × (fam2.cs_list p ≡ remove_from (fam.cs_list p) c)
      × (fam3.cs_list p ≡ remove_from (fam.cs_list p) c)
  unfolding process_wait wait_for wait_down collect after
  process_wait-exit_child = (
    after,
    free (list_remove after p c) c,
    free
        (list_remove (store after c (record (left s status) { sema_exec = s.sema_exec + 1 - 1 })) p
          c)
        c,
    exit_run fam t c status s mine at two,
    rw (still_listed, ==_refl c) refl,
    rw (==_refl c, ==_ne (s.sema_exec + 1) 0 (omega arith)) refl,
    (λ no_signal. rw (listed, at, two, no_signal) refl),
    rw (==_refl c) refl,
    rw (==_refl c) refl,
    (λ d ne. (rw (==_ne c d ne) refl, rw (==_ne c d ne) refl)),
    rw (==_refl p) refl,
    rw (==_refl p) refl,
  )

-- `process_wait` for a child that is not in the list of the parent returns -1 only if the list is empty. Else it acts on
-- the last struct of the list: it sleeps on its semaphore while that child runs, and once that child has
-- exited, it fails an assertion as it removes the end of the list.
pub process_wait-find_child :
    (fam : Family) (p pid : ℕ)
    → (find_child fam (fam.cs_list p) pid none ≡ some (none, false)
        → process_wait fam p pid ≡ some (returned minus_one fam))
      × ((c : ℕ) (s : ChildStatus)
          → find_child fam (fam.cs_list p) pid none ≡ some (some c, false)
          → fam.heap c ≡ some s
          → ((s.ref_cnt ≡ 2) × (s.sema_exec ≡ 0) → process_wait fam p pid ≡ some (waits c false))
            × (s.ref_cnt ≢ 2 → process_wait fam p pid ≡ none))
unfolding process_wait wait_for wait_down collect
process_wait-find_child fam p pid = (
  λ e. rw e refl,
  λ c s e at. ((λ h. rw (e, at, h.0, h.1) refl), (λ ne. rw (e, at, ==_ne s.ref_cnt 2 ne) refl)),
)
