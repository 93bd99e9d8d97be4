-- ===== src/LinkedList/Tests.antt =====
-- Tests of the list operations, and each property at concrete lists.
use mathlib.Core.List.{Perm}
use tddb.Base.{ℕ, Bool, some, List, [], ◌∷◌, ◌≡◌, refl, arith, ltb, ◌>>=◌}
use tddb.Base.Members.{update}
use tddb.LinkedList.{
  Links, list_insert, list_remove, list_size, list_insert_ordered, list_max, list_reverse, list_min,
  max_from, min_from, list_begin, list_end, list_next, list_empty, list_front, reverse_from,
}
use tddb.LinkedList.Sequence.{Represents, Fresh}
use tddb.LinkedList.Insert.{Untouched, list_insert-Represents}
use tddb.LinkedList.Remove.{Outside, list_remove-Represents}
use tddb.LinkedList.Walk.{list_size-length}
use tddb.LinkedList.Order.{WeakOrder, Sorted, list_insert_ordered-Sorted}
use tddb.LinkedList.Sort.{list_sort}
use tddb.LinkedList.Sort.Rounds.{list_sort-Sorted}

-- The list at 1, with the elements 20, 40 and 30
abbrev three : Links
three = record {
  next = update (update (update (update (λ e. 0) 1 20) 20 40) 40 30) 30 9;
  prev = update (update (update (update (λ e. 0) 20 1) 40 20) 30 40) 9 30;
}

abbrev elements : List ℕ
elements = 20 ∷ (40 ∷ (30 ∷ []))

three-Represents : Represents three 1 elements
three-Represents = record {
  chain = ((refl, refl, (refl, refl, (refl, refl, (refl, refl)))));
  head_null = refl;
  tail_null = refl;
  some_list = λ e. omega (arith, e);
  distinct = (refl, (refl, (refl, tt)));
  head_out = refl;
  tail_out = refl;
  no_null = refl;
}

fresh : Fresh 1 elements 35
fresh = record {
  some_elem = λ e. omega (arith, e);
  no_head = λ e. omega (arith, e);
  no_tail = λ e. omega (arith, e);
  out = refl;
}

-- elements by their addresses
abbrev less : ℕ → ℕ → Bool
less = ltb

less-WeakOrder : WeakOrder less
less-WeakOrder = record {
  asym = λ a b h. ground (arith, h);
  chain = λ a b c h k. ground (arith, h, k);
}

list_insert-Represents_example :
    (g : Links) × (list_insert three 40 35 ≡ some g)
    × Represents g 1 (20 ∷ (35 ∷ (40 ∷ (30 ∷ []))))
    × Untouched three g 1 elements 35
list_insert-Represents_example =
    list_insert-Represents three 1 (20 ∷ []) (40 ∷ (30 ∷ [])) 35 three-Represents fresh

list_remove-Represents_example :
    (g : Links) × (list_remove three 40 ≡ some (30, g))
    × Represents g 1 (20 ∷ (30 ∷ []))
    × Outside three g 1 elements
list_remove-Represents_example =
    list_remove-Represents three 1 (20 ∷ []) 40 (30 ∷ []) three-Represents

list_size-length_example : list_size 4 three 1 ≡ some 3
list_size-length_example = list_size-length 4 three 1 elements three-Represents (omega arith)

list_insert_ordered-Sorted_example :
    (g : Links) × (list_insert_ordered less 4 three 1 35 ≡ some g)
    × Represents g 1 (20 ∷ (35 ∷ (40 ∷ (30 ∷ []))))
    × (elements ≡ elements)
    × (Sorted less elements → Sorted less (20 ∷ (35 ∷ (40 ∷ (30 ∷ [])))))
    × Untouched three g 1 elements 35
list_insert_ordered-Sorted_example =
    list_insert_ordered-Sorted less 4 three 1 elements 35 less-WeakOrder three-Represents fresh
      (omega arith)

list_sort-Sorted_example :
    (g : Links) × (zs : List ℕ) × (list_sort less 4 three 1 ≡ some g)
    × Represents g 1 zs
    × Perm elements zs
    × Sorted less zs
list_sort-Sorted_example =
    list_sort-Sorted less 4 three 1 elements less-WeakOrder three-Represents (omega arith)

list_max_runs : (list_max less 9 three 1 ≡ some 40) × (list_min less 9 three 1 ≡ some 20)
unfolding list_max list_min max_from min_from list_begin list_end list_next
list_max_runs = (refl, refl)

list_reverse_runs : (list_reverse 9 three 1 >>= λ g. list_front g 1) ≡ some 30
unfolding list_reverse list_empty list_begin list_end reverse_from list_front
list_reverse_runs = refl
