-- ===== src/LinkedList/Sequence.antt =====
-- The sequence of a list, and what stands where it is cut in two.
use tddb.Base.{
  ℕ, true, false, ◌||◌, List, [], ◌∷◌, ◌++◌, ◌==◌, if◌then◌else◌, ◌≡◌, ◌≢◌, refl, sym, ap, ◌∙◌,
  arith, Bool-cases, inl, inr,
}
use tddb.Base.Members.{has, Distinct}
use tddb.LinkedList.{Links, tail, is_interior, is_tail, link_before}
use tddb.LinkedList.Chain.{
  Chain, Chain-cut, Chain-last, Chain-first, last_of, first_of, has-last_of, has-append,
}

-- The list has these elements, in this order.
pub record Represents (h : Links) (list : ℕ) (xs : List ℕ) : Type 0 where
  pub chain : Chain h list xs (tail list)
  pub head_null : h.prev list ≡ 0
  pub tail_null : h.next (tail list) ≡ 0
  pub some_list : list ≢ 0
  pub distinct : Distinct xs
  pub head_out : has list xs ≡ false
  pub tail_out : has (tail list) xs ≡ false
  pub no_null : has 0 xs ≡ false

-- An address that is no element of the list
pub record Fresh (list : ℕ) (xs : List ℕ) (elem : ℕ) : Type 0 where
  pub some_elem : elem ≢ 0
  pub no_head : elem ≢ list
  pub no_tail : elem ≢ tail list
  pub out : has elem xs ≡ false

pub link-next :
    (h : Links) (before elem c : ℕ)
    → (link_before h before elem).next c
      ≡ (if h.prev before == c then elem else if elem == c then before else h.next c)
link-next h before elem c = elim (Bool-cases (elem == before)) [
  | inl y ↦ rw y refl
  | inr n ↦ rw n refl
]

pub link-prev :
    (h : Links) (before elem c : ℕ)
    → (link_before h before elem).prev c
      ≡ (if before == c then elem else if elem == c then h.prev before else h.prev c)
link-prev h before elem c = refl

pub Distinct-insert :
    (xs ys : List ℕ) (elem : ℕ)
    → Distinct (xs ++ ys)
    → has elem (xs ++ ys) ≡ false
    → Distinct (xs ++ (elem ∷ ys))
Distinct-insert [] ys elem d out = (out, d)
Distinct-insert (x ∷ xs) ys elem (x_out, d) out = (
  ground (arith, has-append x xs (elem ∷ ys), has-append x xs ys, x_out, out),
  Distinct-insert xs ys elem d (ground (arith, out)),
)

pub has-insert :
    (c : ℕ) (xs ys : List ℕ) (elem : ℕ)
    → has c (xs ++ (elem ∷ ys)) ≡ ((c == elem) || has c (xs ++ ys))
has-insert c [] ys elem = refl
has-insert c (x ∷ xs) ys elem = ground (arith, has-insert c xs ys elem)

not_null :
    (list : ℕ) (xs : List ℕ) (c : ℕ)
    → list ≢ 0
    → has 0 xs ≡ false
    → has c (list ∷ xs) ≡ true
    → c ≢ 0
not_null list xs c some_list no_null i e =
    cc (sym none_there ∙ ap (λ k. has k (list ∷ xs)) (sym e) ∙ i)
  where
    none_there : has 0 (list ∷ xs) ≡ false
    none_there = ground (arith, no_null, some_list)

-- What stands where a list is cut in two: an element, or the tail
module _ (h : Links) (list : ℕ) (xs ys : List ℕ) (r : Represents h list (xs ++ ys)) where
  pub place-prev : h.prev (first_of ys (tail list)) ≡ last_of list xs
  place-prev =
      (Chain-last h list xs (first_of ys (tail list))
        ((Chain-cut h list xs ys (tail list) r.chain).0)).0

  pub last-not_null : last_of list xs ≢ 0
  last-not_null =
      not_null list (xs ++ ys) (last_of list xs) r.some_list r.no_null
        (ground (arith, has-append (last_of list xs) xs ys, has-last_of list xs))

  pub place_out : has (tail list) (list ∷ (xs ++ ys)) ≡ false
  place_out = ground (arith, r.tail_out)

  pub head_and_elements : Distinct (list ∷ (xs ++ ys))
  head_and_elements = (r.head_out, r.distinct)

pub interior :
    (h : Links) (list : ℕ) (xs : List ℕ) (y : ℕ) (ys : List ℕ)
    → Represents h list (xs ++ (y ∷ ys))
    → is_interior h y ≡ true
interior h list xs y ys r = ground (arith, some_y, some_prev, some_next)
  where
    in_list : has y (list ∷ (xs ++ (y ∷ ys))) ≡ true
    in_list = ground (arith, has-append y xs (y ∷ ys))

    some_y : y ≢ 0
    some_y = not_null list (xs ++ (y ∷ ys)) y r.some_list r.no_null in_list

    some_prev : h.prev y ≢ 0
    some_prev e = last-not_null h list xs (y ∷ ys) r (sym (place-prev h list xs (y ∷ ys) r) ∙ e)

    next_is : h.next y ≡ first_of ys (tail list)
    next_is = Chain-first h y ys (tail list) ((Chain-cut h list xs (y ∷ ys) (tail list) r.chain).1)

    behind : (ys : List ℕ) → has 0 (xs ++ (y ∷ ys)) ≡ false → first_of ys (tail list) ≢ 0
    behind [] out = omega arith
    behind (z ∷ ys) out = ground (arith, has-append 0 xs (y ∷ (z ∷ ys)), out)

    some_next : h.next y ≢ 0
    some_next e = behind ys r.no_null (sym next_is ∙ e)

pub place_ok :
    (h : Links) (list : ℕ) (xs ys : List ℕ)
    → Represents h list (xs ++ ys)
    → (is_interior h (first_of ys (tail list)) || is_tail h (first_of ys (tail list))) ≡ true
place_ok h list xs [] r = ground (arith, some_prev, r.tail_null)
  where
    some_prev : h.prev (tail list) ≢ 0
    some_prev e = last-not_null h list xs [] r (sym (place-prev h list xs [] r) ∙ e)
place_ok h list xs (y ∷ ys) r = rw (interior h list xs y ys r) refl
