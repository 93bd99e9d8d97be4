-- ===== src/Hash/Moves.antt =====
-- What moving the elements to new buckets does.
use tddb.Base.{
  ℕ, zero, suc, ◌+◌, ◌-◌, ◌≤◌, ◌<◌, true, false, ◌&&◌, ◌||◌, List, [], ◌∷◌, ◌==◌, ◌≡◌, ◌≢◌, sym, ap,
  ◌∙◌, arith, length, ==_ne, ==_refl, Bool-cases, inl, inr, ℕ_discrete,
}
use tddb.Base.Members.{update, has, Distinct}
use tddb.Base.Bits.{bit_and-le}
use tddb.Hash.{Hash, find_bucket, move_elems, move_buckets}
use tddb.Hash.Buckets.{anywhere, total, anywhere-has, total-update, pushed-has}

module _ (hash : ℕ → ℕ) (h : Hash) where
  abbrev pub place : ℕ → ℕ
  place = find_bucket hash h

  pub place_lt : (c : ℕ) → 1 ≤ h.bucket_cnt → place c < h.bucket_cnt
  place_lt c pos = omega (arith, pos, bit_and-le (hash c) (h.bucket_cnt - 1))

  move_elems-has :
      (es : List ℕ) (bs : ℕ → List ℕ) (c j : ℕ)
      → has c (move_elems hash h es bs j) ≡ (has c (bs j) || (has c es && (place c == j)))
  move_elems-has [] bs c j = ground arith
  move_elems-has (e ∷ es) bs c j =
      move_elems-has es (update bs (place e) (e ∷ bs (place e))) c j
      ∙ ap (λ b. b || (has c es && (place c == j))) (pushed-has bs (place e) e c j)
      ∙ elim (ℕ_discrete c e) [
        | yes same ↦ ground (arith, ap place same, same)
        | no other ↦ ground (arith, other)
      ]

  pub move_buckets-has :
      (left i : ℕ) (old bs : ℕ → List ℕ) (c j : ℕ)
      → has c (move_buckets hash h left i old bs j)
        ≡ (has c (bs j) || (anywhere left i old c && (place c == j)))
  move_buckets-has zero i old bs c j = ground arith
  move_buckets-has (suc left) i old bs c j = ground (
    arith,
    move_buckets-has left (i + 1) old (move_elems hash h (old i) bs) c j,
    move_elems-has (old i) bs c j,
  )

  -- No element stands twice in a bucket.
  move_elems-Distinct :
      (es : List ℕ) (bs : ℕ → List ℕ)
      → Distinct es
      → ((j : ℕ) → Distinct (bs j))
      → ((c j : ℕ) → has c es ≡ true → has c (bs j) ≡ false)
      → (j : ℕ) → Distinct (move_elems hash h es bs j)
  move_elems-Distinct [] bs d ds apart j = ds j
  move_elems-Distinct (e ∷ es) bs (e_out, d) ds apart j =
      move_elems-Distinct es (update bs (place e) (e ∷ bs (place e))) d pushed still j
    where
      pushed : (j : ℕ) → Distinct (update bs (place e) (e ∷ bs (place e)) j)
      pushed j = elim (ℕ_discrete (place e) j) [
        | yes same ↦
            rw (ap (λ k. k == j) same ∙ ==_refl j) (apart e (place e) (ground arith), ds (place e))
        | no other ↦ rw (==_ne (place e) j other) (ds j)
      ]

      still : (c j : ℕ) → has c es ≡ true → has c (update bs (place e) (e ∷ bs (place e)) j) ≡ false
      still c j i =
          pushed-has bs (place e) e c j ∙ ground (arith, apart c j (ground (arith, i)), not_e)
        where
          not_e : c ≢ e
          not_e same = cc (sym e_out ∙ ap (λ k. has k es) (sym same) ∙ i)

  pub move_buckets-Distinct :
      (left i : ℕ) (old bs : ℕ → List ℕ)
      → ((k : ℕ) → i ≤ k → k < i + left → Distinct (old k))
      → ((c k m : ℕ)
          → i ≤ k
          → k < i + left
          → i ≤ m
          → m < i + left
          → has c (old k) ≡ true
          → has c (old m) ≡ true
          → k ≡ m)
      → ((j : ℕ) → Distinct (bs j))
      → ((c j : ℕ) → anywhere left i old c ≡ true → has c (bs j) ≡ false)
      → (j : ℕ) → Distinct (move_buckets hash h left i old bs j)
  move_buckets-Distinct zero i old bs d one ds apart j = ds j
  move_buckets-Distinct (suc left) i old bs d one ds apart j =
      move_buckets-Distinct left (i + 1) old (move_elems hash h (old i) bs)
        (λ k ge lt. d k (omega (arith, ge)) (omega (arith, lt)))
        (λ c k m ge lt ge' lt'.
          one c k m (omega (arith, ge)) (omega (arith, lt)) (omega (arith, ge'))
            (omega (arith, lt')))
        (move_elems-Distinct (old i) bs (d i (omega arith) (omega arith)) ds
          (λ c j h. apart c j (ground (arith, h))))
        (λ c j a.
          move_elems-has (old i) bs c j
          ∙ ground (arith, apart c j (ground (arith, a)), not_here c a))
        j
    where
      not_here : (c : ℕ) → anywhere left (i + 1) old c ≡ true → has c (old i) ≡ false
      not_here c a = elim (Bool-cases (has c (old i))) [
        | inl y ↦
            let (k, ge, lt, there) = anywhere-has left (i + 1) old c a in
            absurd (
              omega (
                arith,
                ge,
                one c i k (omega arith) (omega arith) (omega (arith, ge)) (omega (arith, lt)) y
                    there,
              ))
        | inr n ↦ n
      ]

  move_elems-total :
      (es : List ℕ) (bs : ℕ → List ℕ)
      → 1 ≤ h.bucket_cnt
      → total h.bucket_cnt 0 (move_elems hash h es bs) ≡ total h.bucket_cnt 0 bs + length es
  move_elems-total [] bs pos = omega arith
  move_elems-total (e ∷ es) bs pos = omega (
    arith,
    move_elems-total es (update bs (place e) (e ∷ bs (place e))) pos,
    total-update h.bucket_cnt 0 bs (place e) (e ∷ bs (place e)) (omega arith)
        (omega (arith, place_lt e pos)),
  )

  pub move_buckets-total :
      (left i : ℕ) (old bs : ℕ → List ℕ)
      → 1 ≤ h.bucket_cnt
      → total h.bucket_cnt 0 (move_buckets hash h left i old bs)
        ≡ total h.bucket_cnt 0 bs + total left i old
  move_buckets-total zero i old bs pos = omega arith
  move_buckets-total (suc left) i old bs pos = omega (
    arith,
    move_buckets-total left (i + 1) old (move_elems hash h (old i) bs) pos,
    move_elems-total (old i) bs pos,
  )
