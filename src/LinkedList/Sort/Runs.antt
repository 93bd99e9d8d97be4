-- ===== src/LinkedList/Sort/Runs.antt =====
-- Runs of a sequence, merging two of them, and what that does to their number.
use mathlib.Core.Path.{subst}
use mathlib.Core.List.{Perm, append-nil, perm_middle}
use mathlib.Core.List.Perm
use tddb.Base.{
  ℕ, ◌+◌, ◌≤◌, Bool, true, false, List, [], ◌∷◌, ◌++◌, if◌then◌else◌, ◌≡◌, refl, sym, ap, arith,
  length, Bool-cases, inl, inr,
}
use tddb.LinkedList.Order.{Sorted, WeakOrder}

module _ (less : ℕ → ℕ → Bool) where
  -- the rest of the run that `a` begins, and what is behind the run
  abbrev pub run : ℕ → List ℕ → List ℕ
  run a [] = []
  run a (x ∷ xs) = if less x a then [] else x ∷ run x xs

  abbrev pub rest : ℕ → List ℕ → List ℕ
  rest a [] = []
  rest a (x ∷ xs) = if less x a then x ∷ xs else rest x xs

  pub run-rest : (a : ℕ) (xs : List ℕ) → run a xs ++ rest a xs ≡ xs
  run-rest a [] = refl
  run-rest a (x ∷ xs) = elim (Bool-cases (less x a)) [
    | inl y ↦ rw y refl
    | inr n ↦ rw n (ap (λ l. x ∷ l) (run-rest x xs))
  ]

  pub run-Sorted : (a : ℕ) (xs : List ℕ) → Sorted less (a ∷ run a xs)
  run-Sorted a [] = tt
  run-Sorted a (x ∷ xs) = elim (Bool-cases (less x a)) [
    | inl y ↦ rw y tt
    | inr n ↦ rw n (n, run-Sorted x xs)
  ]

  -- how many runs there are behind the one that `a` stands in, and how many in a sequence
  abbrev pub runs_behind : ℕ → List ℕ → ℕ
  runs_behind a [] = 0
  runs_behind a (x ∷ xs) = if less x a then 1 + runs_behind x xs else runs_behind x xs

  abbrev pub runs : List ℕ → ℕ
  runs [] = 0
  runs (x ∷ xs) = 1 + runs_behind x xs

  pub runs-rest : (a : ℕ) (xs : List ℕ) → runs (rest a xs) ≡ runs_behind a xs
  runs-rest a [] = refl
  runs-rest a (x ∷ xs) = elim (Bool-cases (less x a)) [
    | inl y ↦ rw y refl
    | inr n ↦ rw n (runs-rest x xs)
  ]

  pub runs-length : (xs : List ℕ) → runs xs ≤ length xs
  runs-length [] = omega arith
  runs-length (x ∷ xs) = ground (arith, behind x xs)
    where
      behind : (a : ℕ) (xs : List ℕ) → runs_behind a xs ≤ length xs
      behind a [] = omega arith
      behind a (x ∷ xs) = ground (arith, behind x xs)

  runs_behind-append :
      (a : ℕ) (xs ys : List ℕ) → Sorted less (a ∷ xs) → runs_behind a (xs ++ ys) ≤ runs ys
  runs_behind-append a [] [] s = omega arith
  runs_behind-append a [] (y ∷ ys) s = ground arith
  runs_behind-append a (x ∷ xs) ys (n, s) = rw n (runs_behind-append x xs ys s)

  -- A run in front of a sequence adds one run at most.
  pub runs-append : (xs ys : List ℕ) → Sorted less xs → runs (xs ++ ys) ≤ 1 + runs ys
  runs-append [] ys s = omega arith
  runs-append (x ∷ xs) ys s = omega (arith, runs_behind-append x xs ys s)

  pub runs-Sorted : (xs : List ℕ) → runs xs ≤ 1 → Sorted less xs
  runs-Sorted [] le = tt
  runs-Sorted (x ∷ xs) le = single x xs (omega (arith, le))
    where
      single : (a : ℕ) (xs : List ℕ) → runs_behind a xs ≤ 0 → Sorted less (a ∷ xs)
      single a [] le = tt
      single a (x ∷ xs) le = elim (Bool-cases (less x a)) [
        | inl y ↦ absurd (ground (arith, le, y))
        | inr n ↦ (n, single x xs (ground (arith, le, n)))
      ]

  -- What the loop of `inplace_merge` makes of two runs
  pub data Merged : List ℕ → List ℕ → List ℕ → Type 0 where
    left_done : (ys : List ℕ) → Merged [] ys ys
    right_done : (xs : List ℕ) → Merged xs [] xs
    kept :
        (x y : ℕ) (xs ys zs : List ℕ)
        → less y x ≡ false
        → Merged xs (y ∷ ys) zs
        → Merged (x ∷ xs) (y ∷ ys) (x ∷ zs)
    moved :
        (x y : ℕ) (xs ys zs : List ℕ)
        → less y x ≡ true
        → Merged (x ∷ xs) ys zs
        → Merged (x ∷ xs) (y ∷ ys) (y ∷ zs)

  pub Merged-Perm : {xs ys zs : List ℕ} → Merged xs ys zs → Perm (xs ++ ys) zs
  Merged-Perm (left_done ys) = Perm.refl ys
  Merged-Perm (right_done xs) = subst (λ l. Perm l xs) (sym (append-nil xs)) (Perm.refl xs)
  Merged-Perm (kept x y xs ys zs n m) = Perm.cons' refl (Merged-Perm m)
  Merged-Perm (moved x y xs ys zs t m) =
      Perm.trans (perm_middle (x ∷ xs) ys) (Perm.cons' refl (Merged-Perm m))

  pub Merged-length : {xs ys zs : List ℕ} → Merged xs ys zs → length zs ≡ length xs + length ys
  Merged-length (left_done ys) = omega arith
  Merged-length (right_done xs) = omega arith
  Merged-length (kept x y xs ys zs n m) = omega (arith, Merged-length m)
  Merged-length (moved x y xs ys zs t m) = omega (arith, Merged-length m)

  Merged_behind :
      {xs ys zs : List ℕ} (p : ℕ)
      → WeakOrder less
      → Merged xs ys zs
      → Sorted less (p ∷ xs)
      → Sorted less (p ∷ ys)
      → Sorted less (p ∷ zs)
  Merged_behind p w (left_done ys) left right = right
  Merged_behind p w (right_done xs) left right = left
  Merged_behind p w (kept x y xs ys zs n m) (px, left) (py, right) =
      (px, Merged_behind x w m left (n, right))
  Merged_behind p w (moved x y xs ys zs t m) (px, left) (py, right) =
      (py, Merged_behind y w m (w.asym y x t, left) right)

  -- Two runs are merged into one.
  pub Merged-Sorted :
      {xs ys zs : List ℕ}
      → WeakOrder less
      → Merged xs ys zs
      → Sorted less xs
      → Sorted less ys
      → Sorted less zs
  Merged-Sorted w (left_done ys) left right = right
  Merged-Sorted w (right_done xs) left right = left
  Merged-Sorted w (kept x y xs ys zs n m) left right = Merged_behind x w m left (n, right)
  Merged-Sorted w (moved x y xs ys zs t m) left right =
      Merged_behind y w m (w.asym y x t, left) right
