-- ===== src/LinkedList/Walk.antt =====
-- Walking along a list: its ends, its size, and the place of a new element.
use mathlib.Core.Path.{subst}
use mathlib.Core.List.{append-nil, append_assoc}
use tddb.Base.{
  ℕ, zero, suc, ◌+◌, ◌<◌, true, false, ◌||◌, some, List, [], ◌∷◌, ◌++◌, ◌==◌, ◌≡◌, refl, sym, ap,
  ◌∙◌, arith, length, ==_ne, ==_refl,
}
use tddb.Base.Members.{has}
use tddb.LinkedList.{
  Links, tail, is_head, is_interior, list_begin, list_end, list_next, list_prev, list_empty,
  list_front, list_back, list_pop_front, list_pop_back, size_from, list_size,
}
use tddb.LinkedList.Chain.{Chain-cut, Chain-last, Chain-first, last_of, first_of, has-append}
use tddb.LinkedList.Sequence.{Represents, place-prev, place_ok, interior}
use tddb.LinkedList.Remove.{Outside, list_remove-Represents}

-- One element more is in front of the place.
pub Represents-step :
    (h : Links) (list : ℕ) (xs : List ℕ) (y : ℕ) (ys : List ℕ)
    → Represents h list (xs ++ (y ∷ ys))
    → Represents h list ((xs ++ (y ∷ [])) ++ ys)
Represents-step h list xs y ys r = subst (Represents h list) (sym (append_assoc xs (y ∷ []) ys)) r

pub next_run :
    (h : Links) (list : ℕ) (xs : List ℕ) (y : ℕ) (ys : List ℕ)
    → Represents h list (xs ++ (y ∷ ys))
    → list_next h y ≡ some (first_of ys (tail list))
unfolding list_next
next_run h list xs y ys r =
    rw
      (
        passes,
        Chain-first h y ys (tail list) ((Chain-cut h list xs (y ∷ ys) (tail list) r.chain).1),
      )
      refl
  where
    passes : (is_head h y || is_interior h y) ≡ true
    passes = ground (arith, interior h list xs y ys r)

pub prev_run :
    (h : Links) (list : ℕ) (xs ys : List ℕ)
    → Represents h list (xs ++ ys)
    → list_prev h (first_of ys (tail list)) ≡ some (last_of list xs)
unfolding list_prev
prev_run h list xs ys r = rw (place_ok h list xs ys r, place-prev h list xs ys r) refl

pub begin_run :
    (h : Links) (list : ℕ) (xs : List ℕ)
    → Represents h list xs
    → list_begin h list ≡ some (first_of xs (tail list))
unfolding list_begin
begin_run h list xs r =
    rw (==_ne list 0 r.some_list, Chain-first h list xs (tail list) r.chain) refl

pub end_run :
    (h : Links) (list : ℕ) (xs : List ℕ) → Represents h list xs → list_end list ≡ some (tail list)
unfolding list_end
end_run h list xs r = rw (==_ne list 0 r.some_list) refl

-- An element is not the tail.
pub not_end :
    (h : Links) (list : ℕ) (xs : List ℕ) (y : ℕ) (ys : List ℕ)
    → Represents h list (xs ++ (y ∷ ys))
    → (y == tail list) ≡ false
not_end h list xs y ys r =
    ==_ne y (tail list)
      (λ e. cc (sym r.tail_out ∙ ap (λ k. has k (xs ++ (y ∷ ys))) (sym e) ∙ there))
  where
    there : has y (xs ++ (y ∷ ys)) ≡ true
    there = has-append y xs (y ∷ ys) ∙ ground arith

size_from-length :
    (fuel : ℕ) (h : Links) (list : ℕ) (xs ys : List ℕ) (cnt : ℕ)
    → Represents h list (xs ++ ys)
    → length ys < fuel
    → size_from fuel h (tail list) (first_of ys (tail list)) cnt ≡ some (cnt + length ys)
unfolding size_from
size_from-length zero h list xs ys cnt r fuelled = absurd (omega (arith, fuelled))
size_from-length (suc fuel) h list xs [] cnt r fuelled =
    rw (==_refl (tail list)) (ap some (omega arith))
size_from-length (suc fuel) h list xs (y ∷ ys) cnt r fuelled =
    rw (not_end h list xs y ys r, next_run h list xs y ys r)
      (size_from-length fuel h list (xs ++ (y ∷ [])) ys (cnt + 1) (Represents-step h list xs y ys r)
          (omega (arith, fuelled))
        ∙ ap some (omega arith))

-- `list_size` ends and returns the number of elements.
pub list_size-length :
    (fuel : ℕ) (h : Links) (list : ℕ) (xs : List ℕ)
    → Represents h list xs
    → length xs < fuel
    → list_size fuel h list ≡ some (length xs)
unfolding list_size
list_size-length fuel h list xs r fuelled =
    rw (begin_run h list xs r, end_run h list xs r)
      (size_from-length fuel h list [] xs 0 r fuelled ∙ ap some (omega arith))

-- `list_pop_front` of a list that is not empty takes its first element, and `list_pop_back` its last one.
pub list_pop_front-Represents :
    (h : Links) (list x : ℕ) (xs : List ℕ)
    → Represents h list (x ∷ xs)
    → (g : Links) × (list_pop_front h list ≡ some (x, g))
      × Represents g list xs
      × Outside h g list (x ∷ xs)
unfolding list_pop_front list_front list_empty
list_pop_front-Represents h list x xs r =
    let (g, run, rep, same) = list_remove-Represents h list [] x xs r in
    (
      g,
      rw
          (
            begin_run h list (x ∷ xs) r,
            end_run h list (x ∷ xs) r,
            not_end h list [] x xs r,
            r.chain.0,
            run,
          )
          refl,
      rep,
      same,
    )

pub list_pop_back-Represents :
    (h : Links) (list : ℕ) (xs : List ℕ) (x : ℕ)
    → Represents h list (xs ++ (x ∷ []))
    → (g : Links) × (list_pop_back h list ≡ some (x, g))
      × Represents g list xs
      × Outside h g list (xs ++ (x ∷ []))
unfolding list_pop_back list_back list_empty
list_pop_back-Represents h list xs x r =
    let (g, run, rep, same) = list_remove-Represents h list xs x [] r in
    (
      g,
      rw
          (
            begin_run h list (xs ++ (x ∷ [])) r,
            end_run h list (xs ++ (x ∷ [])) r,
            some_elem xs r,
            back,
            run,
          )
          refl,
      subst (Represents g list) (append-nil xs) rep,
      same,
    )
  where
    back : h.prev (tail list) ≡ x
    back = (Chain-last h x [] (tail list) ((Chain-cut h list xs (x ∷ []) (tail list) r.chain).1)).0

    some_elem :
        (xs : List ℕ)
        → Represents h list (xs ++ (x ∷ []))
        → (first_of (xs ++ (x ∷ [])) (tail list) == tail list) ≡ false
    some_elem [] r = not_end h list [] x [] r
    some_elem (y ∷ xs) r = not_end h list [] y (xs ++ (x ∷ [])) r
