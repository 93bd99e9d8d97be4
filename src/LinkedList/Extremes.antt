-- ===== src/LinkedList/Extremes.antt =====
-- `list_init`, `list_max`, `list_min` and `list_unique` of lib/kernel/list.c on the sequence of a list.
use mathlib.Core.Path.{subst}
use mathlib.Core.List.{append_assoc}
use tddb.Base.{
  ℕ, zero, suc, ◌<◌, Bool, true, false, not, ◌&&◌, Option, some, List, [], ◌∷◌, ◌++◌, if◌then◌else◌,
  ◌≡◌, ◌≢◌, refl, ap, ◌∙◌, arith, length, ==_ne, ==_refl, Bool-cases, inl, inr, ℕ_discrete,
}
use tddb.Base.Members.{has}
use tddb.LinkedList.{
  Links, head, tail, set_prev, set_next, list_init, list_empty, list_max, max_from, list_unique,
  unique_from,
}
use tddb.LinkedList.Chain.{first_of, has-append}
use tddb.LinkedList.Sequence.{Represents}
use tddb.LinkedList.Remove.{list_remove-Represents}
use tddb.LinkedList.Walk.{Represents-step, next_run, begin_run, end_run, not_end}
use tddb.LinkedList.Order.{WeakOrder}

-- `list_init` makes an empty list.
pub list_init-Represents :
    (h : Links) (list : ℕ)
    → list ≢ 0
    → (g : Links) × (list_init h list ≡ some g) × Represents g list []
unfolding list_init
list_init-Represents h list some_list = (
  set_next
      (set_prev (set_next (set_prev h (head list) 0) (head list) (tail list)) (tail list)
        (head list))
      (tail list) 0,
  rw (==_ne list 0 some_list) refl,
  record {
    chain = (
      rw (==_ne (tail list) list (λ e. omega (arith, e)), ==_refl list) refl,
      rw (==_refl (tail list)) refl,
    );
    head_null = rw (==_ne (tail list) list (λ e. omega (arith, e)), ==_refl list) refl;
    tail_null = rw (==_refl (tail list)) refl;
    some_list = some_list;
    distinct = tt;
    head_out = refl;
    tail_out = refl;
    no_null = refl;
  },
)

module _ (less : ℕ → ℕ → Bool) where
  -- The result is an element of the sequence, and no element is larger.
  abbrev pub Largest : Option ℕ → List ℕ → Type 0
  Largest result xs =
      (m : ℕ) × (result ≡ some m)
      × (has m xs ≡ true)
      × ((c : ℕ) → has c xs ≡ true → less m c ≡ false)

  -- One element more has been looked at.
  larger :
      (pre : List ℕ) (y max : ℕ)
      → WeakOrder less
      → has max pre ≡ true
      → ((c : ℕ) → has c pre ≡ true → less max c ≡ false)
      → (has (if less max y then y else max) (pre ++ (y ∷ [])) ≡ true)
        × ((c : ℕ)
            → has c (pre ++ (y ∷ [])) ≡ true
            → less (if less max y then y else max) c ≡ false)
  larger pre y max w here most = elim (Bool-cases (less max y)) [
    | inl t ↦ rw t (
      has-append y pre (y ∷ []) ∙ ground arith,
      λ c i. elim (ℕ_discrete c y) [
        | yes e ↦ ap (λ k. less y k) e ∙ irreflexive
        | no n ↦
            w.chain c max y (most c (ground (arith, has-append c pre (y ∷ []), i, n)))
              (w.asym max y t)
      ],
    )
    | inr f ↦ rw f (
      ground (arith, has-append max pre (y ∷ []), here),
      λ c i. elim (ℕ_discrete c y) [
        | yes e ↦ ap (λ k. less max k) e ∙ f
        | no n ↦ most c (ground (arith, has-append c pre (y ∷ []), i, n))
      ],
    )
  ]
    where
      irreflexive : less y y ≡ false
      irreflexive = elim (Bool-cases (less y y)) [ inl t ↦ w.asym y y t | inr f ↦ f ]

  max_from-Largest :
      (fuel : ℕ) (h : Links) (list : ℕ) (pre ys : List ℕ) (max : ℕ)
      → WeakOrder less
      → Represents h list (pre ++ ys)
      → length ys < fuel
      → has max pre ≡ true
      → ((c : ℕ) → has c pre ≡ true → less max c ≡ false)
      → Largest (max_from less fuel h (tail list) max (first_of ys (tail list))) (pre ++ ys)
  unfolding max_from
  max_from-Largest zero h list pre ys max w r fuelled here most = absurd (omega (arith, fuelled))
  max_from-Largest (suc fuel) h list pre [] max w r fuelled here most = (
    max,
    rw (==_refl (tail list)) refl,
    ground (arith, has-append max pre [], here),
    λ c i. most c (ground (arith, has-append c pre [], i)),
  )
  max_from-Largest (suc fuel) h list pre (y ∷ ys) max w r fuelled here most =
      let (here', most') = larger pre y max w here most in
      rw (not_end h list pre y ys r, next_run h list pre y ys r)
        (subst
          (Largest (
            max_from less fuel h (tail list) (if less max y then y else max)
              (first_of ys (tail list))))
          (append_assoc pre (y ∷ []) ys)
          (max_from-Largest fuel h list (pre ++ (y ∷ [])) ys (if less max y then y else max) w
            (Represents-step h list pre y ys r) (omega (arith, fuelled)) here' most'))

  -- `list_max` of a list that is not empty ends with an element that no other one is larger than.
  pub list_max-Largest :
      (fuel : ℕ) (h : Links) (list x : ℕ) (xs : List ℕ)
      → WeakOrder less
      → Represents h list (x ∷ xs)
      → length xs < fuel
      → Largest (list_max less fuel h list) (x ∷ xs)
  unfolding list_max
  list_max-Largest fuel h list x xs w r fuelled =
      rw
        (
          begin_run h list (x ∷ xs) r,
          end_run h list (x ∷ xs) r,
          not_end h list [] x xs r,
          next_run h list [] x xs r,
        )
        (max_from-Largest fuel h list (x ∷ []) xs x w r fuelled (ground arith)
          (λ c i. ap (λ k. less x k) (ground (arith, i)) ∙ irreflexive))
    where
      irreflexive : less x x ≡ false
      irreflexive = elim (Bool-cases (less x x)) [ inl t ↦ w.asym x x t | inr f ↦ f ]

  -- `x` and what `list_unique` keeps behind it
  abbrev pub unique : ℕ → List ℕ → List ℕ
  unique x [] = x ∷ []
  unique x (y ∷ ys) = if not (less x y) && not (less y x) then unique x ys else x ∷ unique y ys

  unique_from-unique :
      (fuel : ℕ) (h : Links) (list : ℕ) (pre : List ℕ) (x : ℕ) (xs : List ℕ)
      → Represents h list (pre ++ (x ∷ xs))
      → length xs < fuel
      → (g : Links) × (unique_from less fuel h list 0 x ≡ some g)
        × Represents g list (pre ++ unique x xs)
  unfolding unique_from
  unique_from-unique zero h list pre x xs r fuelled = absurd (omega (arith, fuelled))
  unique_from-unique (suc fuel) h list pre x [] r fuelled = (
    h,
    rw (next_run h list pre x [] r, end_run h list (pre ++ (x ∷ [])) r, ==_refl (tail list)) refl,
    r,
  )
  unique_from-unique (suc fuel) h list pre x (y ∷ ys) r fuelled =
      let r' = Represents-step h list pre x (y ∷ ys) r in
      let walk = next_run h list pre x (y ∷ ys) r in
      let stop = end_run h list (pre ++ (x ∷ (y ∷ ys))) r in
      let more = not_end h list (pre ++ (x ∷ [])) y ys r' in
      elim (Bool-cases (not (less x y) && not (less y x))) [
        | inl same ↦
            let (g, out, rep, others) = list_remove-Represents h list (pre ++ (x ∷ [])) y ys r' in
            let (g2, run, rep2) =
              unique_from-unique fuel g list pre x ys
                (subst (Represents g list) (append_assoc pre (x ∷ []) ys) rep)
                (omega (arith, fuelled)) in
            (g2, rw (walk, stop, more, same, out) run, rw same rep2)
        | inr other ↦
            let (g2, run, rep2) =
              unique_from-unique fuel h list (pre ++ (x ∷ [])) y ys r' (omega (arith, fuelled)) in
            (
              g2,
              rw (walk, stop, more, other) run,
              rw other (subst (Represents g2 list) (append_assoc pre (x ∷ []) (unique y ys)) rep2),
            )
      ]

  -- `list_unique` with no list for the duplicates ends and leaves the first element of each stretch of equal ones.
  pub list_unique-unique :
      (fuel : ℕ) (h : Links) (list x : ℕ) (xs : List ℕ)
      → Represents h list (x ∷ xs)
      → length xs < fuel
      → (g : Links) × (list_unique less fuel h list 0 ≡ some g) × Represents g list (unique x xs)
  unfolding list_unique list_empty
  list_unique-unique fuel h list x xs r fuelled =
      let (g, run, rep) = unique_from-unique fuel h list [] x xs r fuelled in
      (
        g,
        rw
            (
              ==_ne list 0 r.some_list,
              begin_run h list (x ∷ xs) r,
              end_run h list (x ∷ xs) r,
              not_end h list [] x xs r,
            )
            run,
        rep,
      )
