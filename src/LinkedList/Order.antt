-- ===== src/LinkedList/Order.antt =====
-- Sequences in order, and the place of a new element.
use mathlib.Core.Path.{subst}
use tddb.Base.{
  ℕ, zero, suc, ◌<◌, Bool, true, false, some, List, [], ◌∷◌, ◌++◌, if◌then◌else◌, ◌≡◌, refl, sym,
  ap, arith, length, ==_ne, ==_refl, Bool-cases, inl, inr,
}
use tddb.LinkedList.{Links, tail, place_from, list_insert_ordered}
use tddb.LinkedList.Chain.{first_of}
use tddb.LinkedList.Sequence.{Represents, Fresh}
use tddb.LinkedList.Insert.{Untouched, list_insert-Represents}
use tddb.LinkedList.Walk.{Represents-step, next_run, begin_run, end_run, not_end}

-- What `less` is to be: it never holds both ways, and its opposite is transitive.
pub record WeakOrder (less : ℕ → ℕ → Bool) : Type 0 where
  pub asym : (a b : ℕ) → less a b ≡ true → less b a ≡ false
  pub chain : (a b c : ℕ) → less b a ≡ false → less c b ≡ false → less c a ≡ false

module _ (less : ℕ → ℕ → Bool) where
  -- No element is less than the one in front of it.
  abbrev pub Sorted : List ℕ → Type 0
  Sorted [] = Unit
  Sorted (x ∷ []) = Unit
  Sorted (x ∷ (y ∷ ys)) = (less y x ≡ false) × Sorted (y ∷ ys)

  -- the elements up to the first one that `elem` is less than, and the others
  abbrev pub front : ℕ → List ℕ → List ℕ
  front elem [] = []
  front elem (x ∷ xs) = if less elem x then [] else x ∷ front elem xs

  abbrev pub behind : ℕ → List ℕ → List ℕ
  behind elem [] = []
  behind elem (x ∷ xs) = if less elem x then x ∷ xs else behind elem xs

  front-behind : (elem : ℕ) (xs : List ℕ) → front elem xs ++ behind elem xs ≡ xs
  front-behind elem [] = refl
  front-behind elem (x ∷ xs) = elim (Bool-cases (less elem x)) [
    | inl y ↦ rw y refl
    | inr n ↦ rw n (ap (λ l. x ∷ l) (front-behind elem xs))
  ]

  -- Behind an element that `elem` is not less than, it stands in order.
  insert-Sorted :
      (x elem : ℕ) (xs : List ℕ)
      → WeakOrder less
      → less elem x ≡ false
      → Sorted (x ∷ xs)
      → Sorted (x ∷ (front elem xs ++ (elem ∷ behind elem xs)))
  insert-Sorted x elem [] w h s = (h, tt)
  insert-Sorted x elem (y ∷ ys) w h (s, rest) = elim (Bool-cases (less elem y)) [
    | inl t ↦ rw t (h, (w.asym elem y t, rest))
    | inr f ↦ rw f (s, insert-Sorted y elem ys w f rest)
  ]

  pub inserted-Sorted :
      (elem : ℕ) (xs : List ℕ)
      → WeakOrder less
      → Sorted xs
      → Sorted (front elem xs ++ (elem ∷ behind elem xs))
  inserted-Sorted elem [] w s = tt
  inserted-Sorted elem (x ∷ xs) w s = elim (Bool-cases (less elem x)) [
    | inl t ↦ rw t (w.asym elem x t, s)
    | inr f ↦ rw f (insert-Sorted x elem xs w f s)
  ]

  place_from-behind :
      (fuel : ℕ) (h : Links) (list : ℕ) (xs ys : List ℕ) (elem : ℕ)
      → Represents h list (xs ++ ys)
      → length ys < fuel
      → place_from less fuel h (tail list) elem (first_of ys (tail list))
        ≡ some (first_of (behind elem ys) (tail list))
  unfolding place_from
  place_from-behind zero h list xs ys elem r fuelled = absurd (omega (arith, fuelled))
  place_from-behind (suc fuel) h list xs [] elem r fuelled = rw (==_refl (tail list)) refl
  place_from-behind (suc fuel) h list xs (y ∷ ys) elem r fuelled = elim (Bool-cases (less elem y)) [
    | inl t ↦ rw (not_end h list xs y ys r, t) refl
    | inr f ↦
        rw (not_end h list xs y ys r, f, next_run h list xs y ys r)
          (place_from-behind fuel h list (xs ++ (y ∷ [])) ys elem (Represents-step h list xs y ys r)
            (omega (arith, fuelled)))
  ]

  -- `list_insert_ordered` ends and puts a new element in front of the first one that it is less than, or at the end; a
  -- sorted list then stays sorted, and no address but those of the list and of the element changes.
  pub list_insert_ordered-Sorted :
      (fuel : ℕ) (h : Links) (list : ℕ) (xs : List ℕ) (elem : ℕ)
      → WeakOrder less
      → Represents h list xs
      → Fresh list xs elem
      → length xs < fuel
      → (g : Links) × (list_insert_ordered less fuel h list elem ≡ some g)
        × Represents g list (front elem xs ++ (elem ∷ behind elem xs))
        × (front elem xs ++ behind elem xs ≡ xs)
        × (Sorted xs → Sorted (front elem xs ++ (elem ∷ behind elem xs)))
        × Untouched h g list xs elem
  unfolding list_insert_ordered
  list_insert_ordered-Sorted fuel h list xs elem w r fresh fuelled =
      let whole = front-behind elem xs in
      let (g, run, rep, same) =
        list_insert-Represents h list (front elem xs) (behind elem xs) elem
          (subst (Represents h list) (sym whole) r)
          (subst (λ l. Fresh list l elem) (sym whole) fresh) in
      (
        g,
        rw
            (
              ==_ne elem 0 fresh.some_elem,
              begin_run h list xs r,
              end_run h list xs r,
              place_from-behind fuel h list [] xs elem r fuelled,
            )
            run,
        rep,
        whole,
        inserted-Sorted elem xs w,
        subst (λ l. Untouched h g list l elem) whole same,
      )
