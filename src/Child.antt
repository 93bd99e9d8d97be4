-- ===== src/Child.antt =====
-- userprog/process.c and userprog/syscall.c: how parents and children share a `struct child_status`, in `process_wait`,
-- `process_exit` and `exit`. The heap maps the address of each struct that is not freed to it; `cs_list`
-- and `cs_parent` are members of the threads. What a function does while it holds `cs_lock` is one step,
-- so the lock is left out; a semaphore is its value. A struct whose
-- `ref_cnt` comes to 0 is freed at once, so that `- 1` never meets 0. An `int` is its 32 bits. `none` is a failed ASSERT
-- or the use of a struct that was freed.
pub mod Wait
pub mod Exit
mod Tests
use tddb.Base.{
  ℕ, ◌+◌, ◌-◌, ◌^◌, Bool, true, false, Option, none, some, List, [], ◌∷◌, ◌==◌, if◌then◌else◌,
  ◌>>=◌, ◌>>◌, assert,
}
use tddb.Base.Members.{update}

-- `struct child_status`, the fields that are shared
pub record ChildStatus : Type 0 where
  pub pid : ℕ
  pub exit_status : ℕ
  pub ref_cnt : ℕ
  pub sema_exec : ℕ

pub record Family : Type 0 where
  pub heap : ℕ → Option ChildStatus
  pub cs_list : ℕ → List ℕ
  pub cs_parent : ℕ → Option ℕ

abbrev pub store : Family → ℕ → ChildStatus → Family
store fam c s = record fam { heap = update fam.heap c (some s) }

-- `free`
abbrev pub free : Family → ℕ → Family
free fam c = record fam { heap = update fam.heap c none }

abbrev pub remove_from : List ℕ → ℕ → List ℕ
remove_from [] c = []
remove_from (x ∷ xs) c = if x == c then xs else (x ∷ remove_from xs c)

-- `list_remove` of the element of a struct in the list of a thread
abbrev pub list_remove : Family → ℕ → ℕ → Family
list_remove fam t c = record fam { cs_list = update fam.cs_list t (remove_from (fam.cs_list t) c) }

-- the loop of `process_wait`: what `cs` is behind it, and whether `el` is the element of it, and not the end of the list
unfoldable pub find_child : Family → List ℕ → ℕ → Option ℕ → Option (Option ℕ × Bool)
find_child fam [] child_tid cs = some (cs, false)
find_child fam (c ∷ rest) child_tid cs = fam.heap c >>= λ s.
    let later = find_child fam rest child_tid (some c) in
    if s.pid == child_tid then some (some c, true) else later

-- How `process_wait` goes on: it returns, or it sleeps on the semaphore of a struct.
pub data Outcome : Type 0 where
  returned : ℕ → Family → Outcome
  waits : ℕ → Bool → Outcome

-- `-1`
abbrev pub minus_one : ℕ
minus_one = 2 ^ 32 - 1

-- The end of `process_wait`; `list_remove` asserts that `el` is no end of the list.
unfoldable pub collect : Family → ℕ → ℕ → Bool → Option Outcome
collect fam t c interior = fam.heap c >>= λ s.
    assert interior >> some (returned s.exit_status (free (list_remove fam t c) c))

-- `sema_down (&cs->sema_exec)` and what comes then; also where a thread that slept goes on
unfoldable pub wait_down : Family → ℕ → ℕ → Bool → Option Outcome
wait_down fam t c interior = fam.heap c >>= λ s.
    if s.sema_exec == 0
    then some (waits c interior)
    else collect (store fam c (record s { sema_exec = s.sema_exec - 1 })) t c interior

unfoldable pub wait_for : Family → ℕ → Option ℕ × Bool → Option Outcome
wait_for fam t (none, interior) = some (returned minus_one fam)
wait_for fam t (some c, interior) = fam.heap c >>= λ s.
    if s.ref_cnt == 2 then wait_down fam t c interior else collect fam t c interior

unfoldable pub process_wait : Family → ℕ → ℕ → Option Outcome
process_wait fam t child_tid = find_child fam (fam.cs_list t) child_tid none >>= wait_for fam t

-- `exit` of syscall.c up to `thread_exit`; a thread without a parent's struct uses a null pointer.
unfoldable pub exit_with : Family → ℕ → ℕ → Option Family
exit_with fam t status = fam.cs_parent t >>= λ c.
    fam.heap c >>= λ s. some (store fam c (record s { exit_status = status }))

-- `process_exit` up to the release of the parent's lock: the struct whose semaphore is still to be raised
unfoldable pub drop_parent : Family → Option ℕ → Option (Family × Option ℕ)
drop_parent fam none = some (fam, none)
drop_parent fam (some c) = fam.heap c >>= λ s.
    if s.ref_cnt - 1 == 0
    then some (free fam c, none)
    else some (store fam c (record s { ref_cnt = s.ref_cnt - 1 }), some c)

-- `sema_up (&cs_parent->sema_exec)`
unfoldable pub raise : Family → Option ℕ → Option Family
raise fam none = some fam
raise fam (some c) =
    fam.heap c >>= λ s. some (store fam c (record s { sema_exec = s.sema_exec + 1 }))

-- the loop over the children: `to_delete` is `children_to_delete`
unfoldable pub drop_children : Family → List ℕ → List ℕ → Option (Family × List ℕ)
drop_children fam [] to_delete = some (fam, to_delete)
drop_children fam (c ∷ rest) to_delete = fam.heap c >>= λ s.
    drop_children (store fam c (record s { ref_cnt = s.ref_cnt - 1 })) rest
      (if s.ref_cnt - 1 == 0 then c ∷ to_delete else to_delete)

-- `while (!list_empty (&children_to_delete))`
unfoldable pub delete_children : Family → ℕ → List ℕ → Family
delete_children fam t [] = fam
delete_children fam t (c ∷ rest) = delete_children (free (list_remove fam t c) c) t rest

unfoldable pub leave_children : Family → ℕ → Option Family
leave_children fam t =
    drop_children fam (fam.cs_list t) [] >>= λ r. some (delete_children (r.0) t (r.1))

-- `process_exit` without the page directory, with no other thread in between
unfoldable pub process_exit : Family → ℕ → Option Family
process_exit fam t =
    drop_parent fam (fam.cs_parent t) >>= λ r. raise (r.0) (r.1) >>= λ fam'. leave_children fam' t
