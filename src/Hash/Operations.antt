-- ===== src/Hash/Operations.antt =====
-- The operations of a hash table on what it contains.
use mathlib.Core.Path.{subst}
use tddb.Base.{
  ℕ, ◌+◌, ◌≤◌, ◌<◌, Bool, true, false, not, ◌&&◌, ◌||◌, Option, none, some, List, [], ◌∷◌, ◌==◌,
  ◌≡◌, refl, sym, ap, ◌∙◌, arith, ==_ne, ==_refl, Bool-cases, inl, inr, ℕ_discrete, ◌⊎◌, zero, suc,
  ◌%◌, length, length-append,
}
use tddb.LinkedList.Chain.{has-append}
use tddb.Hash.Buckets.{anywhere, total}
use tddb.Hash.Moves.{place_lt}
use tddb.Base.Members.{update, has, Distinct}
use tddb.Hash.{
  Hash, remove_elem, insert_elem, find_bucket, find_elem, clear_from, hash_clear, apply_from,
  hash_apply, hash_size, hash_insert, hash_replace, hash_find, hash_delete,
}
use tddb.Hash.Contents.{
  equal, Hashing, contains, contains-anywhere, Valid, rehash-contains, insert_elem-Valid,
  remove_elem-Valid,
}

-- whether `c` is the element of a result
abbrev pub is : Option ℕ → ℕ → Bool
is none c = false
is (some old) c = c == old

abbrev pub found : Option ℕ → Bool
found none = false
found (some old) = true

module _ (hash : ℕ → ℕ) (less : ℕ → ℕ → Bool) where
  find_elem-lem :
      (bucket : List ℕ) (e : ℕ)
      → ((find_elem less bucket e ≡ none)
          × ((c : ℕ) → has c bucket ≡ true → equal less c e ≡ false))
        ⊎ ((c : ℕ) × (find_elem less bucket e ≡ some c)
            × (has c bucket ≡ true)
            × (equal less c e ≡ true))
  find_elem-lem [] e = inl (refl, λ c i. cc i)
  find_elem-lem (x ∷ xs) e = elim (Bool-cases (equal less x e)) [
    | inl y ↦ inr (x, rw y refl, ground arith, y)
    | inr n ↦ elim (find_elem-lem xs e) [
      | inl (run, out) ↦ inl (
        rw n run,
        λ c i. elim (ℕ_discrete c x) [
          | yes same ↦ ap (λ k. equal less k e) same ∙ n
          | no other ↦ out c (ground (arith, i, other))
        ],
      )
      | inr (c, run, i, q) ↦ inr (c, rw n run, ground (arith, i), q)
    ]
  ]

  -- `hash_find` returns an element of the table that is equal to `e`, or null when the table has none.
  pub hash_find-contains :
      (h : Hash) (e : ℕ)
      → Hashing hash less
      → ((hash_find hash less h e ≡ none)
          × ((c : ℕ) → contains hash h c ≡ true → equal less c e ≡ false))
        ⊎ ((c : ℕ) × (hash_find hash less h e ≡ some c)
            × (contains hash h c ≡ true)
            × (equal less c e ≡ true))
  unfolding hash_find
  hash_find-contains h e f = elim (find_elem-lem (h.buckets (find_bucket hash h e)) e) [
    | inl (run, out) ↦ inl (
      run,
      λ c i. elim (Bool-cases (equal less c e)) [
        | inl y ↦ out c (sym (ap (λ b. has c (h.buckets b)) (same_bucket c y)) ∙ i)
        | inr n ↦ n
      ],
    )
    | inr (c, run, i, q) ↦ inr (c, run, ap (λ b. has c (h.buckets b)) (same_bucket c q) ∙ i, q)
  ]
    where
      same_bucket : (c : ℕ) → equal less c e ≡ true → find_bucket hash h c ≡ find_bucket hash h e
      same_bucket c q = rw (f.same_hash c e q) refl

  -- `hash_insert` ends; it returns what `hash_find` finds and, if that is null, adds the element and nothing else.
  pub hash_insert-contains :
      (fuel : ℕ) (memory : Bool) (h : Hash) (new : ℕ)
      → Hashing hash less
      → Valid hash less h
      → 4294967300 < fuel
      → (g : Hash) × (hash_insert hash less fuel memory h new ≡ some (hash_find hash less h new, g))
        × Valid hash less g
        × ((c : ℕ)
            → contains hash g c
              ≡ (contains hash h c || ((c == new) && not (found (hash_find hash less h new)))))
  unfolding hash_insert hash_find
  hash_insert-contains fuel memory h new f v fuelled = elim (hash_find-contains h new f) [
    | inl (run, out) ↦
        let (v1, now1) = insert_elem-Valid hash less h new f v out in
        let (g, run2, v2, now2, size) =
          rehash-contains hash less fuel memory (insert_elem h (find_bucket hash h new) new) v1
            (omega (arith, fuelled)) in
        (g, rw (run, run2) refl, v2, λ c. now2 c ∙ now1 c ∙ rw run (ground arith))
    | inr (c, run, i, q) ↦
        let (g, run2, v2, now2, size) =
          rehash-contains hash less fuel memory h v (omega (arith, fuelled, v.counted)) in
        (g, rw (run, run2) refl, v2, λ c. now2 c ∙ rw run (ground arith))
  ]

  -- `hash_delete` ends; it returns what `hash_find` finds, and takes that out of the table and nothing else.
  pub hash_delete-contains :
      (fuel : ℕ) (memory : Bool) (h : Hash) (e : ℕ)
      → Hashing hash less
      → Valid hash less h
      → 4294967300 < fuel
      → (g : Hash) × (hash_delete hash less fuel memory h e ≡ some (hash_find hash less h e, g))
        × Valid hash less g
        × ((c : ℕ)
            → contains hash g c ≡ (contains hash h c && not (is (hash_find hash less h e) c)))
  unfolding hash_delete hash_find
  hash_delete-contains fuel memory h e f v fuelled = elim (hash_find-contains h e f) [
    | inl (run, out) ↦ (h, rw run refl, v, λ c. rw run (ground arith))
    | inr (old, run, i, q) ↦
        let (v1, now1) = remove_elem-Valid hash less h old v i in
        let (g, run2, v2, now2, size) =
          rehash-contains hash less fuel memory (remove_elem h old) v1 (omega (arith, fuelled)) in
        (g, rw (run, run2) refl, v2, λ c. now2 c ∙ now1 c ∙ rw run refl)
  ]

  -- `hash_replace` ends; it returns what `hash_find` finds, takes that out of the table, and adds the element.
  pub hash_replace-contains :
      (fuel : ℕ) (memory : Bool) (h : Hash) (new : ℕ)
      → Hashing hash less
      → Valid hash less h
      → 4294967300 < fuel
      → (g : Hash) × (hash_replace hash less fuel memory h new
          ≡ some (hash_find hash less h new, g))
        × Valid hash less g
        × ((c : ℕ)
            → contains hash g c
              ≡ ((contains hash h c && not (is (hash_find hash less h new) c)) || (c == new)))
  unfolding hash_replace hash_find
  hash_replace-contains fuel memory h new f v fuelled = elim (hash_find-contains h new f) [
    | inl (run, out) ↦
        let (v1, now1) = insert_elem-Valid hash less h new f v out in
        let (g, run2, v2, now2, size) =
          rehash-contains hash less fuel memory (insert_elem h (find_bucket hash h new) new) v1
            (omega (arith, fuelled)) in
        (g, rw (run, run2) refl, v2, λ c. now2 c ∙ now1 c ∙ rw run (ground arith))
    | inr (old, run, i, q) ↦
        let (v1, now1) = remove_elem-Valid hash less h old v i in
        let (v2, now2) =
          insert_elem-Valid hash less (remove_elem h old) new f v1 (left_apart old i q now1) in
        let (g, run2, v3, now3, size) =
          rehash-contains hash less fuel memory
            (insert_elem (remove_elem h old) (find_bucket hash h new) new) v2
            (omega (arith, fuelled)) in
        (g, rw (run, run2) refl, v3, λ c. now3 c ∙ now2 c ∙ rw (now1 c, run) refl)
  ]
    where
      gone : (c : ℕ) {old : ℕ} → c ≡ old → (contains hash h c && not (c == old)) ≡ false
      gone c e = ground (arith, e)

      before : (c : ℕ) (b : Bool) → (contains hash h c && b) ≡ true → contains hash h c ≡ true
      before c b i = ground (arith, i)

      left_apart :
          (old : ℕ)
          → contains hash h old ≡ true
          → equal less old new ≡ true
          → ((c : ℕ) → contains hash (remove_elem h old) c ≡ (contains hash h c && not (c == old)))
          → (c : ℕ) → contains hash (remove_elem h old) c ≡ true
          → equal less c new ≡ false
      left_apart old i q now c j = elim (Bool-cases (equal less c new)) [
        | inl y ↦ cc (
            sym j
            ∙ now c
            ∙ gone c (
                v.single c old (before c (not (c == old)) (sym (now c) ∙ j)) i
                  (f.third c old new y q)))
        | inr n ↦ n
      ]

clear_from-empty :
    (left i : ℕ) (buckets : ℕ → List ℕ) (k : ℕ)
    → (i ≤ k → k < i + left → clear_from left i buckets k ≡ [])
      × (k < i → clear_from left i buckets k ≡ buckets k)
unfolding clear_from
clear_from-empty zero i buckets k = (λ ge lt. absurd (omega (arith, ge, lt)), λ lt. refl)
clear_from-empty (suc left) i buckets k =
    let (inside, below) = clear_from-empty left (i + 1) (update buckets i []) k in
    (
      λ ge lt. elim (ℕ_discrete i k) [
        | yes e ↦ below (omega (arith, e)) ∙ rw (ap (λ j. j == k) e ∙ ==_refl k) refl
        | no n ↦ inside (omega (arith, ge, n)) (omega (arith, lt))
      ],
      λ lt. below (omega (arith, lt)) ∙ rw (==_ne i k (λ e. omega (arith, e, lt))) refl,
    )

apply_from-anywhere :
    (left i : ℕ) (buckets : ℕ → List ℕ) (c : ℕ)
    → (has c (apply_from left i buckets) ≡ anywhere left i buckets c)
      × (length (apply_from left i buckets) ≡ total left i buckets)
unfolding apply_from
apply_from-anywhere zero i buckets c = (refl, refl)
apply_from-anywhere (suc left) i buckets c =
    let (same, size) = apply_from-anywhere left (i + 1) buckets c in
    (
      ground (arith, has-append c (buckets i) (apply_from left (i + 1) buckets), same),
      omega (arith, length-append (buckets i) (apply_from left (i + 1) buckets), size),
    )

module _ (hash : ℕ → ℕ) (less : ℕ → ℕ → Bool) where
  -- `hash_clear` leaves a valid table that contains nothing.
  pub hash_clear-contains :
      (h : Hash)
      → 1 ≤ h.bucket_cnt
      → Valid hash less (hash_clear h)
        × ((c : ℕ) → contains hash (hash_clear h) c ≡ false)
        × (hash_size (hash_clear h) ≡ 0)
  unfolding hash_clear hash_size
  hash_clear-contains h pos = (
    record {
      positive = pos;
      placed = λ i c lt there. cc (sym (ap (has c) (empty i lt)) ∙ there);
      distinct = λ i lt. subst Distinct (sym (empty i lt)) tt;
      counted = ap (λ t. t % 4294967296) (sym (none_there h.bucket_cnt 0 (omega arith)));
      single = λ c d i. cc (sym (out c) ∙ i);
    },
    out,
    refl,
  )
    where
      empty : (i : ℕ) → i < h.bucket_cnt → clear_from h.bucket_cnt 0 h.buckets i ≡ []
      empty i lt = (clear_from-empty h.bucket_cnt 0 h.buckets i).0 (omega arith) (omega (arith, lt))

      out : (c : ℕ) → has c (clear_from h.bucket_cnt 0 h.buckets (find_bucket hash h c)) ≡ false
      out c = ap (has c) (empty (find_bucket hash h c) (place_lt hash h c pos))

      none_there :
          (left i : ℕ)
          → i + left ≤ h.bucket_cnt
          → total left i (clear_from h.bucket_cnt 0 h.buckets) ≡ 0
      none_there zero i le = refl
      none_there (suc left) i le = omega (
        arith,
        ap length (empty i (omega (arith, le))),
        none_there left (i + 1) (omega (arith, le)),
      )

  -- `hash_apply` comes to the elements of a valid table and to no other, and `hash_size` is how many they are.
  pub hash_apply-contains :
      (h : Hash)
      → Valid hash less h
      → ((c : ℕ) → has c (hash_apply h) ≡ contains hash h c)
        × (hash_size h ≡ length (hash_apply h) % 4294967296)
  unfolding hash_apply hash_size
  hash_apply-contains h v = (
    λ c. (apply_from-anywhere h.bucket_cnt 0 h.buckets c).0 ∙ contains-anywhere hash less h c v,
    v.counted ∙ ap (λ t. t % 4294967296) (sym ((apply_from-anywhere h.bucket_cnt 0 h.buckets 0).1)),
  )
