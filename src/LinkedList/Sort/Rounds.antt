-- ===== src/LinkedList/Sort/Rounds.antt =====
-- `list_sort` of lib/kernel/list.c: its passes and rounds.
use mathlib.Core.Path.{subst}
use mathlib.Core.List.{Perm, append-nil, append_assoc}
use mathlib.Core.List.Perm
use tddb.Base.{
  ℕ, zero, suc, ◌+◌, ◌≤◌, ◌<◌, Bool, true, some, List, [], ◌∷◌, ◌++◌, ltb, ◌≡◌, refl, sym, ap, ◌∙◌,
  ◌⊎◌, arith, length, length-append, ==_ne, ==_refl, Bool-cases, inl, inr,
}
use tddb.LinkedList.{Links, tail}
use tddb.LinkedList.Chain.{first_of}
use tddb.LinkedList.Sequence.{Represents}
use tddb.LinkedList.Walk.{begin_run, end_run, not_end}
use tddb.LinkedList.Order.{Sorted, WeakOrder}
use tddb.LinkedList.Sort.{is_sorted, pass_from, sort_rounds, list_sort}
use tddb.LinkedList.Sort.Runs.{
  run, rest, run-rest, run-Sorted, runs, runs-rest, runs-length, runs-append, runs-Sorted, Merged,
  Merged-Perm, Merged-length, Merged-Sorted,
}
use tddb.LinkedList.Sort.Merge.{
  is_sorted-Sorted, find_end_of_run-rest, inplace_merge-Merged, regroup,
}

List-cases : (xs : List ℕ) → (xs ≡ []) ⊎ ((y : ℕ) × (ys : List ℕ) × (xs ≡ y ∷ ys))
List-cases [] = inl refl
List-cases (y ∷ ys) = inr (y, ys, refl)

module _ (less : ℕ → ℕ → Bool) where
  -- What a pass over `ys` makes of it: `zs`, in `cnt` runs
  record Passed (ys zs : List ℕ) (cnt : ℕ) : Type 0 where
    perm : Perm ys zs
    size : length zs ≡ length ys
    few : runs less zs ≤ cnt
    half : cnt + cnt ≤ runs less ys + 1

  -- The two runs at the front
  two_runs :
      (x : ℕ) (xs : List ℕ) (y : ℕ) (ys : List ℕ)
      → rest less x xs ≡ y ∷ ys
      → x ∷ xs ≡ (x ∷ run less x xs) ++ ((y ∷ run less y ys) ++ rest less y ys)
  two_runs x xs y ys e =
      ap (λ l. x ∷ l)
        (sym (run-rest less x xs)
          ∙ ap (λ l. run less x xs ++ l) (e ∙ ap (λ l. y ∷ l) (sym (run-rest less y ys))))

  -- They are merged into one.
  merged_front :
      (x : ℕ) (xs : List ℕ) (y : ℕ) (ys zs ws : List ℕ) (cnt : ℕ)
      → WeakOrder less
      → rest less x xs ≡ y ∷ ys
      → Merged less (x ∷ run less x xs) (y ∷ run less y ys) zs
      → Passed (rest less y ys) ws cnt
      → Passed (x ∷ xs) (zs ++ ws) (cnt + 1)
  merged_front x xs y ys zs ws cnt w e m p = record {
    perm =
        subst (λ l. Perm l (zs ++ ws))
          (append_assoc (x ∷ run less x xs) (y ∷ run less y ys) (rest less y ys) ∙ sym parts)
          (Perm.append (Merged-Perm less m) p.perm);
    size = omega (
      arith,
      ap length parts,
      p.size,
      Merged-length less m,
      length-append zs ws,
      length-append (x ∷ run less x xs) ((y ∷ run less y ys) ++ rest less y ys),
      length-append (y ∷ run less y ys) (rest less y ys),
    );
    few = omega (
      arith,
      p.few,
      runs-append less zs ws (Merged-Sorted less w m (run-Sorted less x xs) (run-Sorted less y ys)),
    );
    half = omega (arith, p.half, runs-rest less x xs, ap (runs less) e, runs-rest less y ys);
  }
    where
      parts : x ∷ xs ≡ (x ∷ run less x xs) ++ ((y ∷ run less y ys) ++ rest less y ys)
      parts = two_runs x xs y ys e

  pass_from-Passed :
      (fuel rounds : ℕ) (h : Links) (list : ℕ) (pre xs : List ℕ) (cnt : ℕ)
      → WeakOrder less
      → Represents h list (pre ++ xs)
      → length xs < fuel
      → length xs < rounds
      → (g : Links) × (zs : List ℕ) × (k : ℕ) × (pass_from less fuel rounds h
            (tail list)
            (first_of xs (tail list))
            cnt
          ≡ some (g, cnt + k))
        × Represents g list (pre ++ zs)
        × Passed xs zs k
  unfolding pass_from
  pass_from-Passed zero rounds h list pre xs cnt w r fuelled enough =
      absurd (omega (arith, fuelled))
  pass_from-Passed (suc fuel) rounds h list pre [] cnt w r fuelled enough = (
    h,
    [],
    0,
    rw (==_refl (tail list)) (ap (λ k. some (h, k)) (omega arith)),
    r,
    record { perm = Perm.refl []; size = refl; few = omega arith; half = omega arith },
  )
  pass_from-Passed (suc fuel) rounds h list pre (x ∷ xs) cnt w r fuelled enough =
      elim (List-cases (rest less x xs)) [
        | inl e ↦ (
          h,
          x ∷ xs,
          1,
          rw
              (
                not_end h list pre x xs r,
                find_end_of_run-rest less rounds h list pre x xs r (omega (arith, enough)),
                e,
                ==_refl (tail list),
              )
              refl,
          r,
          record {
            perm = Perm.refl (x ∷ xs);
            size = refl;
            few = omega (arith, runs-rest less x xs, ap (runs less) e);
            half = omega arith;
          },
        )
        | inr (y, ys, e) ↦
            let parts = two_runs x xs y ys e in
            let size =
              ap length parts
              ∙ length-append (x ∷ run less x xs) ((y ∷ run less y ys) ++ rest less y ys) in
            let size2 = length-append (y ∷ run less y ys) (rest less y ys) in
            let r1 = subst (λ l. Represents h list (pre ++ l)) parts r in
            let r2 =
              regroup h list pre (x ∷ run less x xs) ((y ∷ run less y ys) ++ rest less y ys) r1 in
            let r3 =
              subst (λ l. Represents h list ((pre ++ (x ∷ run less x xs)) ++ (y ∷ l)))
                (run-rest less y ys) r2 in
            let (g, zs, run1, rep1, m) =
              inplace_merge-Merged less rounds h list pre x (run less x xs) y (run less y ys)
                (rest less y ys) r1 (run-Sorted less x xs) (run-Sorted less y ys)
                (omega (arith, size, size2, enough)) in
            let (g2, ws, k, run2, rep2, p) =
              pass_from-Passed fuel rounds g list (pre ++ zs) (rest less y ys) (cnt + 1) w
                (regroup g list pre zs (rest less y ys) rep1) (omega (arith, size, size2, fuelled))
                (omega (arith, size, size2, enough)) in
            (
              g2,
              zs ++ ws,
              k + 1,
              rw
                  (
                    not_end h list pre x xs r,
                    find_end_of_run-rest less rounds h list pre x xs r (omega (arith, enough)),
                    e,
                    not_end h list (pre ++ (x ∷ run less x xs)) y ys r3,
                    find_end_of_run-rest less rounds h list (pre ++ (x ∷ run less x xs)) y ys r3 (
                        omega (
                          arith,
                          size,
                          size2,
                          enough,
                          ap length (run-rest less y ys),
                          length-append (run less y ys) (rest less y ys),
                        )),
                    run1,
                  )
                  (run2 ∙ ap (λ k. some (g2, k)) (omega arith)),
              subst (Represents g2 list) (append_assoc pre zs ws) rep2,
              merged_front x xs y ys zs ws k w e m p,
            )
      ]

  sort_rounds-Sorted :
      (fuel rounds : ℕ) (h : Links) (list : ℕ) (xs : List ℕ)
      → WeakOrder less
      → Represents h list xs
      → runs less xs < fuel
      → length xs < rounds
      → (g : Links) × (zs : List ℕ) × (sort_rounds less fuel rounds h list ≡ some g)
        × Represents g list zs
        × Perm xs zs
        × Sorted less zs
        × (length zs ≡ length xs)
  unfolding sort_rounds
  sort_rounds-Sorted zero rounds h list xs w r fuelled enough = absurd (omega (arith, fuelled))
  sort_rounds-Sorted (suc fuel) rounds h list xs w r fuelled enough =
      let (g, zs, k, pass, rep, p) =
        pass_from-Passed rounds rounds h list [] xs 0 w r enough enough in
      elim (Bool-cases (ltb 1 (0 + k))) [
        | inl more ↦
            let (g2, ws, next, rep2, perm2, s, size) =
              sort_rounds-Sorted fuel rounds g list zs w rep
                (ground (arith, p.few, p.half, more, fuelled)) (omega (arith, p.size, enough)) in
            (
              g2,
              ws,
              rw (begin_run h list xs r, end_run h list xs r, pass, more) next,
              rep2,
              Perm.trans p.perm perm2,
              s,
              size ∙ p.size,
            )
        | inr done ↦ (
          g,
          zs,
          rw (begin_run h list xs r, end_run h list xs r, pass, done) refl,
          rep,
          p.perm,
          runs-Sorted less zs (ground (arith, p.few, done)),
          p.size,
        )
      ]

  -- The last assertion of `list_sort`
  checks :
      (fuel : ℕ) (g : Links) (list : ℕ) (zs : List ℕ)
      → Represents g list zs
      → Sorted less zs
      → length zs < fuel
      → is_sorted less fuel g (first_of zs (tail list)) (tail list) ≡ some true
  unfolding is_sorted
  checks fuel g list [] rep s enough = rw (==_refl (tail list)) refl
  checks fuel g list (z ∷ zs) rep s enough =
      is_sorted-Sorted less fuel g list [] z zs []
        (subst (λ l. Represents g list (z ∷ l)) (sym (append-nil zs)) rep) s (omega (arith, enough))

  -- `list_sort` ends, whatever the elements, and leaves them in the list, each as often as before, in an order in which
  -- none is less than the one in front of it.
  pub list_sort-Sorted :
      (fuel : ℕ) (h : Links) (list : ℕ) (xs : List ℕ)
      → WeakOrder less
      → Represents h list xs
      → length xs < fuel
      → (g : Links) × (zs : List ℕ) × (list_sort less fuel h list ≡ some g)
        × Represents g list zs
        × Perm xs zs
        × Sorted less zs
  unfolding list_sort
  list_sort-Sorted fuel h list xs w r fuelled =
      let (g, zs, run, rep, perm, s, size) =
        sort_rounds-Sorted fuel fuel h list xs w r (omega (arith, runs-length less xs, fuelled))
          fuelled in
      (
        g,
        zs,
        rw
            (
              ==_ne list 0 r.some_list,
              run,
              begin_run g list zs rep,
              end_run g list zs rep,
              checks fuel g list zs rep s (omega (arith, size, fuelled)),
            )
            refl,
        rep,
        perm,
        s,
      )
