-- ===== src/LinkedList/Remove.antt =====
-- Removing from the sequence of a list.
use tddb.Base.{
  ℕ, true, false, some, List, [], ◌∷◌, ◌++◌, ◌==◌, if◌then◌else◌, ◌≡◌, ◌≢◌, refl, sym, ap, ◌∙◌,
  arith, ==_ne, ==_refl,
}
use tddb.Base.Members.{has, Distinct}
use tddb.LinkedList.{Links, tail, unlink, list_remove}
use tddb.LinkedList.Chain.{
  Chain, Chain-cut, Chain-join, ChainTail-frame, ChainTail_lem, Chain-first, last_of, first_of,
  has-last_of, has-append, Distinct-append, last_elsewhere, first_elsewhere,
}
use tddb.LinkedList.Sequence.{
  Represents, Fresh, place-prev, head_and_elements, interior, has-insert,
}

-- No address but those of the list changes.
abbrev pub Outside : Links → Links → ℕ → List ℕ → Type 0
Outside h g list xs =
    (c : ℕ)
    → has c (list ∷ (tail list ∷ xs)) ≡ false
    → (g.next c ≡ h.next c) × (g.prev c ≡ h.prev c)

Distinct-remove :
    (xs ys : List ℕ) (elem : ℕ)
    → Distinct (xs ++ (elem ∷ ys))
    → Distinct (xs ++ ys) × (has elem (xs ++ ys) ≡ false)
Distinct-remove [] ys elem (out, d) = (d, out)
Distinct-remove (x ∷ xs) ys elem (x_out, d) =
    let (d', out) = Distinct-remove xs ys elem d in
    (
      (ground (arith, has-insert x xs ys elem, x_out), d'),
      ground (arith, has-insert x xs ys elem, x_out, out),
    )

module _ (h : Links) (list : ℕ) (xs : List ℕ) (elem : ℕ) (ys : List ℕ)
    (r : Represents h list (xs ++ (elem ∷ ys))) where
  back : h.prev elem ≡ last_of list xs
  back = place-prev h list xs (elem ∷ ys) r

  ahead : h.next elem ≡ first_of ys (tail list)
  ahead =
      Chain-first h elem ys (tail list) ((Chain-cut h list xs (elem ∷ ys) (tail list) r.chain).1)

  elem_out : has elem (list ∷ xs) ≡ false
  elem_out = ground (
    arith,
    r.head_out,
    has-append elem xs ys,
    has-insert list xs ys elem,
    (Distinct-remove xs ys elem r.distinct).1,
  )

  unlink-next :
      (c : ℕ)
      → (unlink h elem).next c
        ≡ (if last_of list xs == c then first_of ys (tail list) else h.next c)
  unlink-next c = rw (back, ahead) refl

  unlink-prev :
      (c : ℕ)
      → (unlink h elem).prev c
        ≡ (if first_of ys (tail list) == c then last_of list xs else h.prev c)
  unlink-prev c =
      rw (back, ==_ne (last_of list xs) elem (last_elsewhere list xs elem elem_out), ahead) refl

  parts :
      Distinct (list ∷ xs)
      × Distinct (elem ∷ ys)
      × ((c : ℕ) → has c (list ∷ xs) ≡ true → has c (elem ∷ ys) ≡ false)
  parts = Distinct-append (list ∷ xs) (elem ∷ ys) (head_and_elements h list xs (elem ∷ ys) r)

  tail_front : has (tail list) (list ∷ xs) ≡ false
  tail_front = ground (arith, r.tail_out, has-append (tail list) xs (elem ∷ ys))

  tail_behind : has (tail list) ys ≡ false
  tail_behind = ground (arith, r.tail_out, has-append (tail list) xs (elem ∷ ys))

  not_front : (c : ℕ) → has c (list ∷ xs) ≡ true → first_of ys (tail list) ≢ c
  not_front c i =
      let (d_left, d_right, sep) = parts in
      first_elsewhere ys (tail list) c (ground (arith, sep c i))
        (λ e. cc (sym tail_front ∙ ap (λ k. has k (list ∷ xs)) e ∙ i))

  not_last : (c : ℕ) → has c ys ≡ true → last_of list xs ≢ c
  not_last c i e =
      let (d_left, d_right, sep) = parts in
      cc (sym (behind (sep (last_of list xs) (has-last_of list xs))) ∙ ap (λ k. has k ys) e ∙ i)
    where
      behind : has (last_of list xs) (elem ∷ ys) ≡ false → has (last_of list xs) ys ≡ false
      behind out = ground (arith, out)

  removed : Chain (unlink h elem) list (xs ++ ys) (tail list)
  removed =
      let (d_left, d_right, sep) = parts in
      let (left, right) = Chain-cut h list xs (elem ∷ ys) (tail list) r.chain in
      Chain-join h (unlink h elem) list xs elem ys (tail list) d_left
        (λ c i ne. unlink-next c ∙ rw (==_ne (last_of list xs) c (λ e. ne (sym e))) refl)
        (λ c i.
          unlink-prev c
          ∙ rw (==_ne (first_of ys (tail list)) c (not_front c (ground (arith, i)))) refl)
        (unlink-next (last_of list xs) ∙ rw (==_refl (last_of list xs)) refl)
        (unlink-prev (first_of ys (tail list)) ∙ rw (==_refl (first_of ys (tail list))) refl)
        (ChainTail-frame h (unlink h elem) ys (tail list) (d_right.1) tail_behind
          (λ c i. unlink-next c ∙ rw (==_ne (last_of list xs) c (not_last c i)) refl)
          (λ c i ne. unlink-prev c ∙ rw (==_ne (first_of ys (tail list)) c (λ e. ne (sym e))) refl)
          (ChainTail_lem h elem ys (tail list) right))
        left

  pub unlink-Represents : Represents (unlink h elem) list (xs ++ ys)
  unlink-Represents = record {
    chain = removed;
    head_null =
        unlink-prev list
        ∙ rw (==_ne (first_of ys (tail list)) list (not_front list (ground arith))) r.head_null;
    tail_null =
        unlink-next (tail list)
        ∙ rw (==_ne (last_of list xs) (tail list) (last_elsewhere list xs (tail list) tail_front))
            r.tail_null;
    some_list = r.some_list;
    distinct = (Distinct-remove xs ys elem r.distinct).0;
    head_out = ground (arith, has-insert list xs ys elem, r.head_out);
    tail_out = ground (arith, has-insert (tail list) xs ys elem, r.tail_out);
    no_null = ground (arith, has-insert 0 xs ys elem, r.no_null);
  }

  -- It may be put elsewhere.
  pub unlink-Fresh : Fresh list (xs ++ ys) elem
  unlink-Fresh = record {
    some_elem = λ e. cc (sym r.no_null ∙ ap (λ k. has k (xs ++ (elem ∷ ys))) (sym e) ∙ there);
    no_head = λ e. cc (sym r.head_out ∙ ap (λ k. has k (xs ++ (elem ∷ ys))) (sym e) ∙ there);
    no_tail = λ e. cc (sym r.tail_out ∙ ap (λ k. has k (xs ++ (elem ∷ ys))) (sym e) ∙ there);
    out = (Distinct-remove xs ys elem r.distinct).1;
  }
    where
      there : has elem (xs ++ (elem ∷ ys)) ≡ true
      there = has-insert elem xs ys elem ∙ ground arith

  -- `list_remove` of an element takes it out of the sequence, returns what stood behind it, and changes no address outside
  -- of the list.
  pub list_remove-Represents :
      (g : Links) × (list_remove h elem ≡ some (first_of ys (tail list), g))
      × Represents g list (xs ++ ys)
      × Outside h g list (xs ++ (elem ∷ ys))
  unfolding list_remove
  list_remove-Represents = (
    unlink h elem,
    rw (interior h list xs elem ys r) (ap (λ n. some (n, unlink h elem)) next_same),
    unlink-Represents,
    λ c out. (
      unlink-next c
          ∙ rw (==_ne (last_of list xs) c (last_elsewhere list xs c (front_out c out))) refl,
      unlink-prev c
          ∙ rw
              (==_ne (first_of ys (tail list)) c
                (first_elsewhere ys (tail list) c (behind_out c out) (not_tail c out)))
              refl,
    ),
  )
    where
      next_same : (unlink h elem).next elem ≡ first_of ys (tail list)
      next_same =
          unlink-next elem
          ∙ rw (==_ne (last_of list xs) elem (last_elsewhere list xs elem elem_out)) ahead

      front_out :
          (c : ℕ)
          → has c (list ∷ (tail list ∷ (xs ++ (elem ∷ ys)))) ≡ false
          → has c (list ∷ xs) ≡ false
      front_out c out = ground (arith, out, has-append c xs (elem ∷ ys))

      behind_out :
          (c : ℕ) → has c (list ∷ (tail list ∷ (xs ++ (elem ∷ ys)))) ≡ false → has c ys ≡ false
      behind_out c out = ground (arith, out, has-append c xs (elem ∷ ys))

      not_tail : (c : ℕ) → has c (list ∷ (tail list ∷ (xs ++ (elem ∷ ys)))) ≡ false → tail list ≢ c
      not_tail c out = ground (arith, out)
