-- ===== src/LinkedList/Insert.antt =====
-- Inserting into the sequence of a list.
use mathlib.Core.Path.{subst}
use mathlib.Core.List.{append-nil}
use tddb.Base.{
  ℕ, true, false, ◌||◌, some, List, [], ◌∷◌, ◌++◌, ◌==◌, ◌≡◌, ◌≢◌, refl, sym, ap, ◌∙◌, arith, ==_ne,
  ==_refl, Bool-cases, inl, inr,
}
use tddb.Base.Members.{has, Distinct}
use tddb.LinkedList.{
  Links, tail, list_begin, list_end, link_before, list_insert, list_push_front, list_push_back,
}
use tddb.LinkedList.Sequence.{
  Represents, Fresh, link-next, Distinct-insert, has-insert, place-prev, head_and_elements,
  place_ok,
}
use tddb.LinkedList.Chain.{
  Chain, Chain-cut, Chain-join, Chain-start, ChainTail-frame, Chain-first, last_of, first_of,
  has-last_of, has-append, Distinct-append, last_elsewhere, first_elsewhere,
}

-- No address but those of the list and `elem` changes.
abbrev pub Untouched : Links → Links → ℕ → List ℕ → ℕ → Type 0
Untouched h g list xs elem =
    (c : ℕ)
    → has c (elem ∷ (list ∷ (tail list ∷ xs))) ≡ false
    → (g.next c ≡ h.next c) × (g.prev c ≡ h.prev c)

module _ (h : Links) (list : ℕ) (xs ys : List ℕ) (elem : ℕ) (r : Represents h list (xs ++ ys))
    (fresh : Fresh list (xs ++ ys) elem) where
  before : ℕ
  before = first_of ys (tail list)

  parts :
      Distinct (list ∷ xs) × Distinct ys × ((c : ℕ) → has c (list ∷ xs) ≡ true → has c ys ≡ false)
  parts = Distinct-append (list ∷ xs) ys (head_and_elements h list xs ys r)

  -- `before` is no element in front of it, and not `elem`.
  apart :
      (ys : List ℕ)
      → has elem (xs ++ ys) ≡ false
      → has (tail list) (xs ++ ys) ≡ false
      → ((c : ℕ) → has c (list ∷ xs) ≡ true → has c ys ≡ false)
      → ((c : ℕ) → has c (list ∷ xs) ≡ true → first_of ys (tail list) ≢ c)
        × (first_of ys (tail list) ≢ elem)
  apart [] out tail_out sep = ((λ c i e. cc (sym (tail_not e) ∙ i)), λ e. fresh.no_tail (sym e))
    where
      tail_not : {c : ℕ} → tail list ≡ c → has c (list ∷ xs) ≡ false
      tail_not e =
          ap (λ k. has k (list ∷ xs)) (sym e)
          ∙ ground (arith, has-append (tail list) xs [], tail_out)
  apart (y ∷ ys) out tail_out sep =
      ((λ c i e. cc (sym (sep c i) ∙ here c e)), λ e. cc (sym out ∙ there e))
    where
      here : (c : ℕ) → y ≡ c → has c (y ∷ ys) ≡ true
      here c e = ground arith

      there : y ≡ elem → has elem (xs ++ (y ∷ ys)) ≡ true
      there e = has-append elem xs (y ∷ ys) ∙ ground arith

  inserted : Chain (link_before h before elem) list (xs ++ (elem ∷ ys)) (tail list)
  unfolding before
  inserted =
      let (d_left, d_right, sep) = parts in
      let (not_before, not_elem) = apart ys fresh.out r.tail_out sep in
      let (left, right) = Chain-cut h list xs ys (tail list) r.chain in
      let back = place-prev h list xs ys r in
      Chain-join h (link_before h before elem) list xs before (elem ∷ ys) (tail list) d_left
        (λ c i ne.
          link-next h before elem c
          ∙ rw (==_ne (h.prev before) c (λ e. ne (sym e ∙ back)), ==_ne elem c (elem_front c i))
              refl)
        (λ c i.
          rw
            (
              ==_ne before c (not_before c (ground (arith, i))),
              ==_ne elem c (elem_front c (ground (arith, i))),
            )
            refl)
        (link-next h before elem (last_of list xs) ∙ rw (back, ==_refl (last_of list xs)) refl)
        (rw (==_ne before elem not_elem, ==_refl elem) back)
        (Chain-start (link_before h before elem) elem ys (tail list)
          (link-next h before elem elem
            ∙ rw
                (
                  ==_ne (h.prev before) elem
                      (λ e. elem_front (last_of list xs) (has-last_of list xs) (sym e ∙ back)),
                  ==_refl elem,
                )
                refl)
          (rw (==_refl before) refl)
          (ChainTail-frame h (link_before h before elem) ys (tail list) d_right tail_behind
            (λ c i.
              link-next h before elem c
              ∙ rw
                  (
                    ==_ne (h.prev before) c (λ e. last_apart sep c i (sym back ∙ e)),
                    ==_ne elem c (elem_behind c i),
                  )
                  refl)
            (λ c i ne. rw (==_ne before c (λ e. ne (sym e)), ==_ne elem c (elem_last c i)) refl)
            right))
        left
    where
      elem_front : (c : ℕ) → has c (list ∷ xs) ≡ true → elem ≢ c
      elem_front c i e = cc (sym front_out ∙ ap (λ k. has k (list ∷ xs)) e ∙ i)
        where
          front_out : has elem (list ∷ xs) ≡ false
          front_out = ground (arith, fresh.no_head, fresh.out, has-append elem xs ys)

      elem_behind : (c : ℕ) → has c ys ≡ true → elem ≢ c
      elem_behind c i e = cc (sym behind_out ∙ ap (λ k. has k ys) e ∙ i)
        where
          behind_out : has elem ys ≡ false
          behind_out = ground (arith, fresh.out, has-append elem xs ys)

      elem_last : (c : ℕ) → (has c ys || (c == tail list)) ≡ true → elem ≢ c
      elem_last c i = elim (Bool-cases (has c ys)) [
        | inl y ↦ elem_behind c y
        | inr n ↦ λ e. fresh.no_tail (e ∙ ground arith)
      ]

      tail_behind : has (tail list) ys ≡ false
      tail_behind = ground (arith, r.tail_out, has-append (tail list) xs ys)

      last_apart :
          ((c : ℕ) → has c (list ∷ xs) ≡ true → has c ys ≡ false)
          → (c : ℕ) → has c ys ≡ true
          → last_of list xs ≢ c
      last_apart sep c i e =
          cc (sym (sep (last_of list xs) (has-last_of list xs)) ∙ ap (λ k. has k ys) e ∙ i)

  pub link_before-Represents :
      Represents (link_before h (first_of ys (tail list)) elem) list (xs ++ (elem ∷ ys))
  unfolding before
  link_before-Represents = record {
    chain = inserted;
    head_null = rw (==_ne before list (not_head parts), ==_ne elem list fresh.no_head) r.head_null;
    tail_null =
        link-next h before elem (tail list)
        ∙ rw
            (
              ==_ne (h.prev before) (tail list)
                  (λ e. last_elsewhere list xs (tail list) tail_front (sym back ∙ e)),
              ==_ne elem (tail list) fresh.no_tail,
            )
            r.tail_null;
    some_list = r.some_list;
    distinct = Distinct-insert xs ys elem r.distinct fresh.out;
    head_out = ground (arith, has-insert list xs ys elem, fresh.no_head, r.head_out);
    tail_out = ground (arith, has-insert (tail list) xs ys elem, fresh.no_tail, r.tail_out);
    no_null = ground (arith, has-insert 0 xs ys elem, fresh.some_elem, r.no_null);
  }
    where
      back : h.prev (first_of ys (tail list)) ≡ last_of list xs
      back = place-prev h list xs ys r

      not_head :
          Distinct (list ∷ xs)
            × Distinct ys
            × ((c : ℕ) → has c (list ∷ xs) ≡ true → has c ys ≡ false)
          → first_of ys (tail list) ≢ list
      not_head (d_left, d_right, sep) = (apart ys fresh.out r.tail_out sep).0 list (ground arith)

      tail_front : has (tail list) (list ∷ xs) ≡ false
      tail_front = ground (arith, r.tail_out, has-append (tail list) xs ys)

  -- `list_insert` of a new element before an element of a list, or before its tail, puts it there in the sequence; no
  -- other address changes.
  pub list_insert-Represents :
      (g : Links) × (list_insert h (first_of ys (tail list)) elem ≡ some g)
      × Represents g list (xs ++ (elem ∷ ys))
      × Untouched h g list (xs ++ ys) elem
  unfolding list_insert before
  list_insert-Represents = (
    link_before h before elem,
    rw (place_ok h list xs ys r, ==_ne elem 0 fresh.some_elem) refl,
    link_before-Represents,
    λ c out. (
      link-next h before elem c
          ∙ rw
              (
                ==_ne (h.prev before) c (λ e.
                    last_elsewhere list xs c (ground (arith, out, has-append c xs ys))
                      (sym back ∙ e)),
                ==_ne elem c (not_elem c out),
              )
              refl,
      rw
          (
            ==_ne before c (
                first_elsewhere ys (tail list) c (ground (arith, out, has-append c xs ys))
                  (not_tail c out)),
            ==_ne elem c (not_elem c out),
          )
          refl,
    ),
  )
    where
      back : h.prev (first_of ys (tail list)) ≡ last_of list xs
      back = place-prev h list xs ys r

      not_elem : (c : ℕ) → has c (elem ∷ (list ∷ (tail list ∷ (xs ++ ys)))) ≡ false → elem ≢ c
      not_elem c out = ground (arith, out)

      not_tail : (c : ℕ) → has c (elem ∷ (list ∷ (tail list ∷ (xs ++ ys)))) ≡ false → tail list ≢ c
      not_tail c out = ground (arith, out)

-- `list_push_front` and `list_push_back`
pub list_push_front-Represents :
    (h : Links) (list : ℕ) (xs : List ℕ) (elem : ℕ)
    → Represents h list xs
    → Fresh list xs elem
    → (g : Links) × (list_push_front h list elem ≡ some g)
      × Represents g list (elem ∷ xs)
      × Untouched h g list xs elem
unfolding list_push_front list_begin
list_push_front-Represents h list xs elem r fresh =
    let (g, run, rep, same) = list_insert-Represents h list [] xs elem r fresh in
    (g, rw (==_ne list 0 r.some_list, Chain-first h list xs (tail list) r.chain) run, rep, same)

pub list_push_back-Represents :
    (h : Links) (list : ℕ) (xs : List ℕ) (elem : ℕ)
    → Represents h list xs
    → Fresh list xs elem
    → (g : Links) × (list_push_back h list elem ≡ some g)
      × Represents g list (xs ++ (elem ∷ []))
      × Untouched h g list xs elem
unfolding list_push_back list_end
list_push_back-Represents h list xs elem r fresh =
    let whole = append-nil xs in
    let (g, run, rep, same) =
      list_insert-Represents h list xs [] elem (subst (Represents h list) (sym whole) r)
        (subst (λ l. Fresh list l elem) (sym whole) fresh) in
    (g, rw (==_ne list 0 r.some_list) run, rep, subst (λ l. Untouched h g list l elem) whole same)
