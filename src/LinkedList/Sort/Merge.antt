-- ===== src/LinkedList/Sort/Merge.antt =====
-- `is_sorted`, `find_end_of_run` and `inplace_merge` of lib/kernel/list.c on the sequence of a list.
use mathlib.Core.Path.{subst}
use mathlib.Core.List.{append_assoc}
use tddb.Base.{
  ℕ, zero, suc, ◌+◌, ◌<◌, Bool, true, false, some, List, [], ◌∷◌, ◌++◌, ◌==◌, ◌≡◌, ◌≢◌, refl, sym,
  ap, ◌∙◌, arith, length, ==_ne, ==_refl, Bool-cases, inl, inr,
}
use tddb.LinkedList.{Links, tail, list_prev, list_splice, unlink, link_before}
use tddb.LinkedList.Chain.{last_of, first_of, has-append, Distinct-append}
use tddb.LinkedList.Sequence.{Represents, Fresh, place_ok, interior}
use tddb.LinkedList.Insert.{link_before-Represents}
use tddb.LinkedList.Remove.{unlink-Represents, unlink-Fresh}
use tddb.LinkedList.Walk.{Represents-step, next_run, prev_run, not_end}
use tddb.LinkedList.Order.{Sorted}
use tddb.LinkedList.Sort.{
  sorted_from, is_sorted, run_from, find_end_of_run, merge_from, inplace_merge,
}
use tddb.LinkedList.Sort.Runs.{run, rest, Merged, left_done, right_done, kept, moved}

-- An element in front of a place does not stand there.
pub not_stop :
    (h : Links) (list : ℕ) (xs : List ℕ) (y : ℕ) (ys post : List ℕ)
    → Represents h list (xs ++ (y ∷ (ys ++ post)))
    → (y == first_of post (tail list)) ≡ false
not_stop h list xs y ys [] r = not_end h list xs y (ys ++ []) r
not_stop h list xs y ys (z ∷ post) r =
    let (left, (y_out, right), sep) = Distinct-append xs (y ∷ (ys ++ (z ∷ post))) r.distinct in
    ground (arith, y_out, has-append y ys (z ∷ post))

last_of-append : (a : ℕ) (pre : List ℕ) (x : ℕ) → last_of a (pre ++ (x ∷ [])) ≡ x
last_of-append a [] x = refl
last_of-append a (y ∷ pre) x = last_of-append y pre x

prev_in :
    (h : Links) (list : ℕ) (pre : List ℕ) (x : ℕ) (ys : List ℕ)
    → Represents h list (pre ++ (x ∷ ys))
    → list_prev h (first_of ys (tail list)) ≡ some x
prev_in h list pre x ys r =
    prev_run h list (pre ++ (x ∷ [])) ys (Represents-step h list pre x ys r)
    ∙ ap some (last_of-append list pre x)

place_not_null :
    (h : Links) (list : ℕ) (pre ys : List ℕ)
    → Represents h list (pre ++ ys)
    → first_of ys (tail list) ≢ 0
place_not_null h list pre [] r e = omega (arith, e)
place_not_null h list pre (y ∷ ys) r e = (unlink-Fresh h list pre y ys r).some_elem e

pub regroup :
    (h : Links) (list : ℕ) (pre xs ys : List ℕ)
    → Represents h list (pre ++ (xs ++ ys))
    → Represents h list ((pre ++ xs) ++ ys)
regroup h list pre xs ys r = subst (Represents h list) (sym (append_assoc pre xs ys)) r

-- `inplace_merge` moves the element `y` in front of `x`.
splice_one :
    (h : Links) (list : ℕ) (pre : List ℕ) (x : ℕ) (xs : List ℕ) (y : ℕ) (ys : List ℕ)
    → Represents h list (pre ++ ((x ∷ xs) ++ (y ∷ ys)))
    → (list_splice h x y (first_of ys (tail list)) ≡ some (link_before (unlink h y) x y))
      × Represents (link_before (unlink h y) x y) list ((pre ++ (y ∷ [])) ++ ((x ∷ xs) ++ ys))
unfolding list_splice
splice_one h list pre x xs y ys r = (
  rw
      (
        place_ok h list pre ((x ∷ xs) ++ (y ∷ ys)) r,
        not_stop h list (pre ++ (x ∷ xs)) y [] ys behind,
        prev_in h list (pre ++ (x ∷ xs)) y ys behind,
        interior h list (pre ++ (x ∷ xs)) y ys behind,
      )
      refl,
  Represents-step (link_before (unlink h y) x y) list pre y ((x ∷ xs) ++ ys) (
      link_before-Represents (unlink h y) list pre ((x ∷ xs) ++ ys) y
        (subst (Represents (unlink h y) list) (append_assoc pre (x ∷ xs) ys)
          (unlink-Represents h list (pre ++ (x ∷ xs)) y ys behind))
        (subst (λ l. Fresh list l y) (append_assoc pre (x ∷ xs) ys)
          (unlink-Fresh h list (pre ++ (x ∷ xs)) y ys behind))),
)
  where
    behind : Represents h list ((pre ++ (x ∷ xs)) ++ (y ∷ ys))
    behind = regroup h list pre (x ∷ xs) (y ∷ ys) r

module _ (less : ℕ → ℕ → Bool) where
  sorted_from-Sorted :
      (fuel : ℕ) (h : Links) (list : ℕ) (pre : List ℕ) (x : ℕ) (xs post : List ℕ)
      → Represents h list (pre ++ (x ∷ (xs ++ post)))
      → Sorted less (x ∷ xs)
      → length xs < fuel
      → sorted_from less fuel h x (first_of post (tail list)) ≡ some true
  unfolding sorted_from
  sorted_from-Sorted zero h list pre x xs post r s fuelled = absurd (omega (arith, fuelled))
  sorted_from-Sorted (suc fuel) h list pre x [] post r s fuelled =
      rw (next_run h list pre x post r, ==_refl (first_of post (tail list))) refl
  sorted_from-Sorted (suc fuel) h list pre x (y ∷ ys) post r (n, s) fuelled =
      let r' = Represents-step h list pre x (y ∷ (ys ++ post)) r in
      rw
        (
          next_run h list pre x (y ∷ (ys ++ post)) r,
          not_stop h list (pre ++ (x ∷ [])) y ys post r',
          prev_in h list pre x (y ∷ (ys ++ post)) r,
          n,
        )
        (sorted_from-Sorted fuel h list (pre ++ (x ∷ [])) y ys post r' s (omega (arith, fuelled)))

  pub is_sorted-Sorted :
      (fuel : ℕ) (h : Links) (list : ℕ) (pre : List ℕ) (x : ℕ) (xs post : List ℕ)
      → Represents h list (pre ++ (x ∷ (xs ++ post)))
      → Sorted less (x ∷ xs)
      → length xs < fuel
      → is_sorted less fuel h x (first_of post (tail list)) ≡ some true
  unfolding is_sorted
  is_sorted-Sorted fuel h list pre x xs post r s fuelled =
      rw (not_stop h list pre x xs post r)
        (sorted_from-Sorted fuel h list pre x xs post r s fuelled)

  run_from-rest :
      (fuel : ℕ) (h : Links) (list : ℕ) (pre : List ℕ) (x : ℕ) (xs : List ℕ)
      → Represents h list (pre ++ (x ∷ xs))
      → length xs < fuel
      → run_from less fuel h x (tail list) ≡ some (first_of (rest less x xs) (tail list))
  unfolding run_from
  run_from-rest zero h list pre x xs r fuelled = absurd (omega (arith, fuelled))
  run_from-rest (suc fuel) h list pre x [] r fuelled =
      rw (next_run h list pre x [] r, ==_refl (tail list)) refl
  run_from-rest (suc fuel) h list pre x (y ∷ ys) r fuelled =
      let r' = Represents-step h list pre x (y ∷ ys) r in
      elim (Bool-cases (less y x)) [
        | inl t ↦
            rw
              (
                next_run h list pre x (y ∷ ys) r,
                not_end h list (pre ++ (x ∷ [])) y ys r',
                prev_in h list pre x (y ∷ ys) r,
                t,
              )
              refl
        | inr n ↦
            rw
              (
                next_run h list pre x (y ∷ ys) r,
                not_end h list (pre ++ (x ∷ [])) y ys r',
                prev_in h list pre x (y ∷ ys) r,
                n,
              )
              (run_from-rest fuel h list (pre ++ (x ∷ [])) y ys r' (omega (arith, fuelled)))
      ]

  pub find_end_of_run-rest :
      (fuel : ℕ) (h : Links) (list : ℕ) (pre : List ℕ) (x : ℕ) (xs : List ℕ)
      → Represents h list (pre ++ (x ∷ xs))
      → length xs < fuel
      → find_end_of_run less fuel h x (tail list) ≡ some (first_of (rest less x xs) (tail list))
  unfolding find_end_of_run
  find_end_of_run-rest fuel h list pre x xs r fuelled =
      rw (==_ne x 0 (place_not_null h list pre (x ∷ xs) r), tail_some, not_end h list pre x xs r)
        (run_from-rest fuel h list pre x xs r fuelled)
    where
      tail_some : (tail list == 0) ≡ false
      tail_some = ==_ne (tail list) 0 (λ e. omega (arith, e))

  merge_from-Merged :
      (fuel : ℕ) (h : Links) (list : ℕ) (pre xs ys post : List ℕ)
      → Represents h list (pre ++ (xs ++ (ys ++ post)))
      → length xs + length ys < fuel
      → (g : Links) × (zs : List ℕ) × (merge_from less fuel h
            (first_of (xs ++ (ys ++ post)) (tail list))
            (first_of (ys ++ post) (tail list))
            (first_of post (tail list))
          ≡ some g)
        × Represents g list (pre ++ (zs ++ post))
        × Merged less xs ys zs
  unfolding merge_from
  merge_from-Merged zero h list pre xs ys post r fuelled = absurd (omega (arith, fuelled))
  merge_from-Merged (suc fuel) h list pre [] ys post r fuelled =
      (h, ys, rw (==_refl (first_of (ys ++ post) (tail list))) refl, r, left_done ys)
  merge_from-Merged (suc fuel) h list pre (x ∷ xs) [] post r fuelled =
      (h, x ∷ xs, ground (arith, ==_refl (first_of post (tail list))), r, right_done (x ∷ xs))
  merge_from-Merged (suc fuel) h list pre (x ∷ xs) (y ∷ ys) post r fuelled =
      let r' = regroup h list pre (x ∷ xs) (y ∷ (ys ++ post)) r in
      let x_before = not_stop h list pre x xs (y ∷ (ys ++ post)) r in
      let y_before = not_stop h list (pre ++ (x ∷ xs)) y ys post r' in
      elim (Bool-cases (less y x)) [
        | inl t ↦
            let (run1, r1) = splice_one h list pre x xs y (ys ++ post) r in
            let (g, zs, run2, rep, m) =
              merge_from-Merged fuel (link_before (unlink h y) x y) list (pre ++ (y ∷ [])) (x ∷ xs)
                ys post r1 (omega (arith, fuelled)) in
            (
              g,
              y ∷ zs,
              rw
                  (
                    x_before,
                    y_before,
                    t,
                    next_run h list (pre ++ (x ∷ xs)) y (ys ++ post) r',
                    prev_in h list (pre ++ (x ∷ xs)) y (ys ++ post) r',
                    run1,
                  )
                  run2,
              subst (Represents g list) (append_assoc pre (y ∷ []) (zs ++ post)) rep,
              moved x y xs ys zs t m,
            )
        | inr n ↦
            let (g, zs, run2, rep, m) =
              merge_from-Merged fuel h list (pre ++ (x ∷ [])) xs (y ∷ ys) post
                (Represents-step h list pre x (xs ++ (y ∷ (ys ++ post))) r)
                (omega (arith, fuelled)) in
            (
              g,
              x ∷ zs,
              rw (x_before, y_before, n, next_run h list pre x (xs ++ (y ∷ (ys ++ post))) r) run2,
              subst (Represents g list) (append_assoc pre (x ∷ []) (zs ++ post)) rep,
              kept x y xs ys zs n m,
            )
      ]

  pub inplace_merge-Merged :
      (fuel : ℕ) (h : Links) (list : ℕ) (pre : List ℕ) (x : ℕ) (xs : List ℕ) (y : ℕ)
      (ys post : List ℕ)
      → Represents h list (pre ++ ((x ∷ xs) ++ ((y ∷ ys) ++ post)))
      → Sorted less (x ∷ xs)
      → Sorted less (y ∷ ys)
      → length (x ∷ xs) + length (y ∷ ys) < fuel
      → (g : Links) × (zs : List ℕ) × (inplace_merge less fuel h x y (first_of post (tail list))
          ≡ some g)
        × Represents g list (pre ++ (zs ++ post))
        × Merged less (x ∷ xs) (y ∷ ys) zs
  unfolding inplace_merge
  inplace_merge-Merged fuel h list pre x xs y ys post r left right fuelled =
      let r1 = regroup h list pre (x ∷ xs) (y ∷ (ys ++ post)) r in
      let r2 = regroup h list (pre ++ (x ∷ xs)) (y ∷ ys) post r1 in
      let (g, zs, run, rep, m) =
        merge_from-Merged fuel h list pre (x ∷ xs) (y ∷ ys) post r fuelled in
      (
        g,
        zs,
        rw
            (
              ==_ne x 0 (place_not_null h list pre (x ∷ (xs ++ (y ∷ (ys ++ post)))) r),
              ==_ne y 0 (place_not_null h list (pre ++ (x ∷ xs)) (y ∷ (ys ++ post)) r1),
              ==_ne (first_of post (tail list)) 0
                  (place_not_null h list ((pre ++ (x ∷ xs)) ++ (y ∷ ys)) post r2),
              is_sorted-Sorted fuel h list pre x xs (y ∷ (ys ++ post)) r left
                  (omega (arith, fuelled)),
              is_sorted-Sorted fuel h list (pre ++ (x ∷ xs)) y ys post r1 right
                  (omega (arith, fuelled)),
            )
            run,
        rep,
        m,
      )
