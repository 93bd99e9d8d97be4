-- ===== src/Child/Exit.antt =====
-- The structs after a parent has exited.
use tddb.Base.{
  ℕ, ◌-◌, Bool, true, false, ◌&&◌, ◌||◌, Option, none, some, List, [], ◌∷◌, ◌==◌, if◌then◌else◌,
  ◌≡◌, ◌≢◌, refl, sym, ap, ◌∙◌, arith, ==_ne, Bool-cases, inl, inr, ℕ_discrete,
}
use tddb.Base.Members.{has, Distinct}
use tddb.Child.{
  ChildStatus, Family, store, free, list_remove, drop_children, delete_children, leave_children,
}

-- The struct with one reference less
abbrev lowered : Option ChildStatus → Option ChildStatus
lowered none = none
lowered (some s) = some (record s { ref_cnt = s.ref_cnt - 1 })

-- Nobody else refers to it.
abbrev is_last : Option ChildStatus → Bool
is_last none = false
is_last (some s) = s.ref_cnt - 1 == 0

-- The struct after one of its two sides is gone.
abbrev pub left_by : Option ChildStatus → Option ChildStatus
left_by none = none
left_by (some s) = if s.ref_cnt - 1 == 0 then none else some (record s { ref_cnt = s.ref_cnt - 1 })

-- All structs of the list are allocated.
abbrev pub Allocated : Family → List ℕ → Type 0
Allocated fam cs = (c : ℕ) → has c cs ≡ true → (s : ChildStatus) × (fam.heap c ≡ some s)

-- What the loop over the children did.
record Dropped (fam : Family) (cs to_delete : List ℕ) (fam' : Family) (del : List ℕ) : Type 0 where
  heaps : (d : ℕ) → fam'.heap d ≡ (if has d cs then lowered (fam.heap d) else fam.heap d)
  dels : (d : ℕ) → has d del ≡ ((has d cs && is_last (fam.heap d)) || has d to_delete)

abbrev lower : Family → ℕ → ChildStatus → Family
lower fam c s = store fam c (record s { ref_cnt = s.ref_cnt - 1 })

Dropped-cons :
    {fam fam' : Family} {c : ℕ} {rest to_delete del : List ℕ} {s : ChildStatus}
    → has c rest ≡ false
    → fam.heap c ≡ some s
    → Dropped
        (lower fam c s)
        rest
        (if s.ref_cnt - 1 == 0 then c ∷ to_delete else to_delete)
        fam'
        del
    → Dropped fam (c ∷ rest) to_delete fam' del
Dropped-cons {fam} {fam'} {c} {rest} {to_delete} {del} {s} out at dropped = record {
  heaps = λ d. dropped.heaps d ∙ elim (ℕ_discrete c d) [
    | yes e ↦ rw (gone d e, test d e, test2 d e, sym (ap fam.heap e) ∙ at) refl
    | no ne ↦ rw (==_ne c d ne, other d ne) refl
  ];
  dels = λ d. dropped.dels d ∙ elim (ℕ_discrete c d) [
    | yes e ↦ rw (gone d e, test2 d e, sym (ap fam.heap e) ∙ at) (with_c d e)
    | no ne ↦ rw (==_ne c d ne, other d ne) (without_c d ne)
  ];
}
  where
    gone : (d : ℕ) → c ≡ d → has d rest ≡ false
    gone d e = ap (λ k. has k rest) (sym e) ∙ out

    test : (d : ℕ) → c ≡ d → (c == d) ≡ true
    test d e = ground arith

    test2 : (d : ℕ) → c ≡ d → (d == c) ≡ true
    test2 d e = ground arith

    other : (d : ℕ) → c ≢ d → (d == c) ≡ false
    other d ne = ground arith

    with_c :
        (d : ℕ)
        → c ≡ d
        → has d (if s.ref_cnt - 1 == 0 then c ∷ to_delete else to_delete)
          ≡ ((s.ref_cnt - 1 == 0) || has d to_delete)
    with_c d e = elim (Bool-cases (s.ref_cnt - 1 == 0)) [
      | inl y ↦ rw (y, test2 d e) refl
      | inr n ↦ rw n refl
    ]

    without_c :
        (d : ℕ)
        → c ≢ d
        → ((has d rest && is_last (fam.heap d))
            || has d (if s.ref_cnt - 1 == 0 then c ∷ to_delete else to_delete))
          ≡ ((has d rest && is_last (fam.heap d)) || has d to_delete)
    without_c d ne = elim (Bool-cases (s.ref_cnt - 1 == 0)) [
      | inl y ↦ rw (y, other d ne) refl
      | inr n ↦ rw n refl
    ]

Allocated-rest :
    (fam : Family) (c : ℕ) (rest : List ℕ) (s : ChildStatus)
    → has c rest ≡ false
    → Allocated fam (c ∷ rest)
    → Allocated (lower fam c s) rest
Allocated-rest fam c rest s out all d h =
    let (s2, at2) = all d (ground (arith, h)) in (s2, rw (==_ne c d apart) at2)
  where
    apart : c ≢ d
    apart e = cc (sym h ∙ ap (λ k. has k rest) (sym e) ∙ out)

drop_children-Dropped :
    (fam : Family) (cs to_delete : List ℕ)
    → Distinct cs
    → Allocated fam cs
    → (fam' : Family) × (del : List ℕ) × (drop_children fam cs to_delete ≡ some (fam', del))
      × Dropped fam cs to_delete fam' del
unfolding drop_children
drop_children-Dropped fam [] to_delete distinct all =
    (fam, to_delete, refl, record { heaps = λ d. refl; dels = λ d. refl })
drop_children-Dropped fam (c ∷ rest) to_delete distinct all =
    let (s, at) = all c (ground arith) in
    let (fam', del, run, dropped) =
      drop_children-Dropped (lower fam c s) rest
        (if s.ref_cnt - 1 == 0 then c ∷ to_delete else to_delete) (distinct.1)
        (Allocated-rest fam c rest s (distinct.0) all) in
    (fam', del, next_run at run, Dropped-cons (distinct.0) at dropped)
  where
    next_run :
        {s : ChildStatus} {r : Option (Family × List ℕ)}
        → fam.heap c ≡ some s
        → drop_children
            (lower fam c s)
            rest
            (if s.ref_cnt - 1 == 0 then c ∷ to_delete else to_delete)
          ≡ r
        → drop_children fam (c ∷ rest) to_delete ≡ r
    next_run at run = rw at run

delete_children-heap :
    (del : List ℕ) (fam : Family) (t d : ℕ)
    → (delete_children fam t del).heap d ≡ (if has d del then none else fam.heap d)
unfolding delete_children
delete_children-heap [] fam t d = refl
delete_children-heap (c ∷ rest) fam t d =
    delete_children-heap rest (free (list_remove fam t c) c) t d ∙ elim (ℕ_discrete c d) [
      | yes e ↦ rw (test d e, test2 d e) (both (has d rest))
      | no ne ↦ rw (==_ne c d ne, other d ne) refl
    ]
  where
    test : (d : ℕ) → c ≡ d → (c == d) ≡ true
    test d e = ground arith

    test2 : (d : ℕ) → c ≡ d → (d == c) ≡ true
    test2 d e = ground arith

    other : (d : ℕ) → c ≢ d → (d == c) ≡ false
    other d ne = ground arith

    both : (b : Bool) → ◌≡◌ {A = Option ChildStatus} (if b then none else none) none
    both true = refl
    both false = refl

-- A thread whose list has each of its structs once, all allocated: as it exits, `leave_children` takes one reference from
-- exactly these structs, and frees exactly those that then have none.
pub leave_children-left_by :
    (fam : Family) (t : ℕ)
    → Distinct (fam.cs_list t)
    → Allocated fam (fam.cs_list t)
    → (fam' : Family) × (leave_children fam t ≡ some fam')
      × ((c : ℕ)
          → fam'.heap c ≡ (if has c (fam.cs_list t) then left_by (fam.heap c) else fam.heap c))
unfolding leave_children
leave_children-left_by fam t distinct all =
    let (fam1, del, run, dropped) = drop_children-Dropped fam (fam.cs_list t) [] distinct all in
    (
      delete_children fam1 t del,
      rw run refl,
      λ c.
          delete_children-heap del fam1 t c
          ∙ rw (dropped.dels c, dropped.heaps c) (cases (has c (fam.cs_list t)) (fam.heap c)),
    )
  where
    cases :
        (b : Bool) (o : Option ChildStatus)
        → (if (b && is_last o) || false then none else (if b then lowered o else o))
          ≡ (if b then left_by o else o)
    cases false o = refl
    cases true none = refl
    cases true (some s) = elim (Bool-cases (s.ref_cnt - 1 == 0)) [
      | inl y ↦ rw y refl
      | inr n ↦ rw n refl
    ]
