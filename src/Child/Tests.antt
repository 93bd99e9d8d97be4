-- ===== src/Child/Tests.antt =====
-- Each property of the structs of children: thread 1 has the structs 70 and 71, of which thread 8 refers to 70.
use tddb.Base.{ℕ, true, none, some, [], ◌∷◌, ◌==◌, if◌then◌else◌, ◌≡◌, ◌≢◌, refl}
use tddb.Child.{
  ChildStatus, Family, remove_from, find_child, wait_for, collect, returned, waits, wait_down,
  process_wait,
}
use tddb.Child.Wait.{exit_child, process_wait-exit_child}

abbrev running_child : ChildStatus
running_child = record { pid = 8; exit_status = 0; ref_cnt = 2; sema_exec = 0 }

abbrev gone_child : ChildStatus
gone_child = record { pid = 9; exit_status = 5; ref_cnt = 1; sema_exec = 1 }

abbrev family : Family
family = record {
  heap = λ c. if c == 70 then some running_child else if c == 71 then some gone_child else none;
  cs_list = λ t. if t == 1 then 70 ∷ 71 ∷ [] else [];
  cs_parent = λ t. if t == 8 then some 70 else none;
}

process_wait-exit_child_example :
    (fam1 fam2 fam3 : Family) × (exit_child family 8 42 ≡ some fam1)
    × (process_wait fam1 1 8 ≡ some (returned 42 fam2))
    × (wait_down fam1 1 70 true ≡ some (returned 42 fam3))
    × (◌≡◌ {A = ℕ} 0 0 → process_wait family 1 8 ≡ some (waits 70 true))
    × (fam2.heap 70 ≡ none)
    × (fam3.heap 70 ≡ none)
    × ((d : ℕ) → 70 ≢ d → (fam2.heap d ≡ family.heap d) × (fam3.heap d ≡ family.heap d))
    × (fam2.cs_list 1 ≡ remove_from (family.cs_list 1) 70)
    × (fam3.cs_list 1 ≡ remove_from (family.cs_list 1) 70)
unfolding find_child
process_wait-exit_child_example =
    process_wait-exit_child family 1 8 70 8 42 running_child refl refl refl refl

-- The kernel panics: 3 is no child, and the last struct of the list is that of a child that has exited.
waits_for_stranger : process_wait family 1 3 ≡ none
unfolding process_wait find_child wait_for collect
waits_for_stranger = refl
