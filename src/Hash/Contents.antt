-- ===== src/Hash/Contents.antt =====
-- What a hash table contains: its operations as those of a set in which no two elements are equal.
use mathlib.Core.Path.{subst}
use tddb.Base.{
  ℕ, ◌+◌, ◌/◌, ◌%◌, ◌≤◌, ◌<◌, Bool, true, false, not, ◌&&◌, ◌||◌, some, [], ◌∷◌, ◌==◌, ltb,
  if◌then◌else◌, ◌≡◌, ◌≢◌, refl, sym, ap, ◌∙◌, arith, ==_ne, ==_refl, Bool-cases, inl, inr,
  ℕ_discrete,
}
use tddb.Base.Members.{has, Distinct}
use tddb.Hash.{Hash, remove_elem, insert_elem, find_bucket, move_buckets, rehash}
use tddb.Hash.Buckets.{
  power_from-is_power_of_2, anywhere, anywhere-has, has-anywhere, total, total-update, total-empty,
  has-without, without-Distinct, total-without, pushed-has,
}
use tddb.Hash.Moves.{place_lt, move_buckets-has, move_buckets-Distinct, move_buckets-total}

-- `equal` as `find_elem` tests it
abbrev pub equal : (ℕ → ℕ → Bool) → ℕ → ℕ → Bool
equal less c d = not (less c d) && not (less d c)

-- What the functions of a table are to be: equal elements have the same hash, an element is equal to itself, and two
-- that are equal to a third one are equal.
pub record Hashing (hash : ℕ → ℕ) (less : ℕ → ℕ → Bool) : Type 0 where
  pub same_hash : (c d : ℕ) → equal less c d ≡ true → hash c ≡ hash d
  pub reflexive : (c : ℕ) → less c c ≡ false
  pub third : (c d e : ℕ) → equal less c e ≡ true → equal less d e ≡ true → equal less c d ≡ true

abbrev pub contains : (ℕ → ℕ) → Hash → ℕ → Bool
contains hash h c = has c (h.buckets (find_bucket hash h c))

pub record Valid (hash : ℕ → ℕ) (less : ℕ → ℕ → Bool) (h : Hash) : Type 0 where
  pub positive : 1 ≤ h.bucket_cnt
  pub placed : (i c : ℕ) → i < h.bucket_cnt → has c (h.buckets i) ≡ true → find_bucket hash h c ≡ i
  pub distinct : (i : ℕ) → i < h.bucket_cnt → Distinct (h.buckets i)
  pub counted : h.elem_cnt ≡ total h.bucket_cnt 0 h.buckets % 4294967296
  pub single :
      (c d : ℕ)
      → contains hash h c ≡ true
      → contains hash h d ≡ true
      → equal less c d ≡ true
      → c ≡ d

module _ (hash : ℕ → ℕ) (less : ℕ → ℕ → Bool) where
  pub contains-anywhere :
      (h : Hash) (c : ℕ)
      → Valid hash less h
      → anywhere h.bucket_cnt 0 h.buckets c ≡ contains hash h c
  contains-anywhere h c v = elim (Bool-cases (anywhere h.bucket_cnt 0 h.buckets c)) [
    | inl y ↦
        let (k, ge, lt, there) = anywhere-has h.bucket_cnt 0 h.buckets c y in
        y ∙ sym (ap (λ i. has c (h.buckets i)) (v.placed k c (omega (arith, lt)) there) ∙ there)
    | inr n ↦ elim (Bool-cases (contains hash h c)) [
      | inl y ↦ cc (
          sym n
          ∙ has-anywhere h.bucket_cnt 0 h.buckets c (find_bucket hash h c) (omega arith)
              (omega (arith, place_lt hash h c v.positive)) y)
      | inr n' ↦ n ∙ sym n'
    ]
  ]

  -- The table with its elements moved to `cnt` buckets
  abbrev moved : Hash → ℕ → Hash
  moved h cnt =
      let h' = record h { bucket_cnt = cnt } in
      record h' { buckets = move_buckets hash h' h.bucket_cnt 0 h.buckets (λ i. []) }

  moved-contains :
      (h : Hash) (cnt c : ℕ) → Valid hash less h → contains hash (moved h cnt) c ≡ contains hash h c
  moved-contains h cnt c v =
      move_buckets-has hash (record h { bucket_cnt = cnt }) h.bucket_cnt 0 h.buckets (λ i. []) c
        (find_bucket hash (moved h cnt) c)
      ∙ rw (==_refl (find_bucket hash (moved h cnt) c), contains-anywhere h c v) (ground arith)

  moved-Valid : (h : Hash) (cnt : ℕ) → Valid hash less h → 1 ≤ cnt → Valid hash less (moved h cnt)
  moved-Valid h cnt v pos = record {
    positive = pos;
    placed = λ i c lt there. ground (
      arith,
      sym (
            move_buckets-has hash (record h { bucket_cnt = cnt }) h.bucket_cnt 0 h.buckets (λ j. [])
              c i)
          ∙ there,
    );
    distinct = λ i lt.
        move_buckets-Distinct hash (record h { bucket_cnt = cnt }) h.bucket_cnt 0 h.buckets
          (λ j. []) (λ k ge lt'. v.distinct k (omega (arith, lt')))
          (λ c k m ge lt' ge' lt'' a b.
            sym (v.placed k c (omega (arith, lt')) a) ∙ v.placed m c (omega (arith, lt'')) b)
          (λ j. tt) (λ c j a. refl) i;
    counted =
        v.counted
        ∙ ap (λ t. t % 4294967296)
            (omega (
              arith,
              total-empty cnt 0,
              move_buckets-total hash (record h { bucket_cnt = cnt }) h.bucket_cnt 0 h.buckets
                  (λ j. []) pos,
            ));
    single = λ c d i j e.
        v.single c d (sym (moved-contains h cnt c v) ∙ i) (sym (moved-contains h cnt d v) ∙ j) e;
  }

  -- `rehash` ends, leaves a valid table valid and changes nothing of what it contains.
  pub rehash-contains :
      (fuel : ℕ) (memory : Bool) (h : Hash)
      → Valid hash less h
      → h.elem_cnt + 4 < fuel
      → (g : Hash) × (rehash hash fuel memory h ≡ some g)
        × Valid hash less g
        × ((c : ℕ) → contains hash g c ≡ contains hash h c)
        × (g.elem_cnt ≡ h.elem_cnt)
  unfolding rehash
  rehash-contains fuel memory h v fuelled =
      let (p, run, power, pos, le) =
        power_from-is_power_of_2 fuel (if ltb (h.elem_cnt / 2) 4 then 4 else h.elem_cnt / 2)
          (ground (arith, fuelled)) (ground arith) in
      rw run (elim (Bool-cases (p == h.bucket_cnt)) [
        | inl y ↦ rw y (h, refl, v, λ c. refl, refl)
        | inr n ↦ rw n (elim (Bool-cases memory) [
          | inl y ↦ rw y (moved h p, refl, moved-Valid h p v pos, λ c. moved-contains h p c v, refl)
          | inr n' ↦ rw n' (h, refl, v, λ c. refl, refl)
        ])
      ])

  pub insert_elem-Valid :
      (h : Hash) (new : ℕ)
      → Hashing hash less
      → Valid hash less h
      → ((c : ℕ) → contains hash h c ≡ true → equal less c new ≡ false)
      → Valid hash less (insert_elem h (find_bucket hash h new) new)
        × ((c : ℕ)
            → contains hash (insert_elem h (find_bucket hash h new) new) c
              ≡ (contains hash h c || (c == new)))
  insert_elem-Valid h new f v apart = (
    record {
      positive = v.positive;
      placed = λ i c lt there. elim (ℕ_discrete c new) [
        | yes e ↦ elim (ℕ_discrete (find_bucket hash h new) i) [
          | yes same ↦ ap (find_bucket hash h) e ∙ same
          | no other ↦ v.placed i c lt (
              ground
                (arith, sym (pushed-has h.buckets (find_bucket hash h new) new c i) ∙ there, other))
        ]
        | no n ↦
            v.placed i c lt (
              ground
                (arith, sym (pushed-has h.buckets (find_bucket hash h new) new c i) ∙ there, n))
      ];
      distinct = λ i lt. elim (ℕ_discrete (find_bucket hash h new) i) [
        | yes same ↦
            rw (ap (λ k. k == i) same ∙ ==_refl i)
              (new_out, v.distinct (find_bucket hash h new) (place_lt hash h new v.positive))
        | no other ↦ rw (==_ne (find_bucket hash h new) i other) (v.distinct i lt)
      ];
      counted = omega (
        arith,
        v.counted,
        total-update h.bucket_cnt 0 h.buckets (find_bucket hash h new)
            (new ∷ h.buckets (find_bucket hash h new)) (omega arith)
            (omega (arith, place_lt hash h new v.positive)),
      );
      single = λ c d i j e. elim (ℕ_discrete c new) [
        | yes ce ↦ elim (ℕ_discrete d new) [
          | yes de ↦ ce ∙ sym de
          | no dn ↦ cc (
              sym (apart d (before d dn j))
              ∙ symmetric d new (subst (λ k. equal less k d ≡ true) ce e))
        ]
        | no cn ↦ elim (ℕ_discrete d new) [
          | yes de ↦ cc (sym (apart c (before c cn i)) ∙ subst (λ k. equal less c k ≡ true) de e)
          | no dn ↦ v.single c d (before c cn i) (before d dn j) e
        ]
      ];
    },
    now,
  )
    where
      now :
          (c : ℕ)
          → contains hash (insert_elem h (find_bucket hash h new) new) c
            ≡ (contains hash h c || (c == new))
      now c =
          pushed-has h.buckets (find_bucket hash h new) new c (find_bucket hash h c)
          ∙ elim (ℕ_discrete c new) [
            | yes e ↦ ground (arith, e, ap (find_bucket hash h) e)
            | no n ↦ ground (arith, n)
          ]

      new_out : contains hash h new ≡ false
      new_out = elim (Bool-cases (contains hash h new)) [
        | inl y ↦ cc (sym (apart new y) ∙ itself)
        | inr n ↦ n
      ]
        where
          itself : equal less new new ≡ true
          itself = ground (arith, f.reflexive new)

      before :
          (c : ℕ)
          → c ≢ new
          → contains hash (insert_elem h (find_bucket hash h new) new) c ≡ true
          → contains hash h c ≡ true
      before c n i = ground (arith, sym (now c) ∙ i, n)

      symmetric : (d c : ℕ) → equal less c d ≡ true → equal less d c ≡ true
      symmetric d c e = ground (arith, e)

  pub remove_elem-Valid :
      (h : Hash) (e : ℕ)
      → Valid hash less h
      → contains hash h e ≡ true
      → Valid hash less (remove_elem h e)
        × ((c : ℕ) → contains hash (remove_elem h e) c ≡ (contains hash h c && not (c == e)))
  remove_elem-Valid h e v there = (
    record {
      positive = v.positive;
      placed = λ i c lt i'.
          v.placed i c lt
            (ground (arith, sym (has-without c e (h.buckets i) (v.distinct i lt)) ∙ i'));
      distinct = λ i lt. without-Distinct e (h.buckets i) (v.distinct i lt);
      counted = omega (
        arith,
        v.counted,
        total-without h.bucket_cnt 0 h.buckets e (find_bucket hash h e) (omega arith)
            (omega (arith, place_lt hash h e v.positive)) there
            (λ m ge lt i. sym (v.placed m e (omega (arith, lt)) i)),
      );
      single = λ c d i j. v.single c d (before c i) (before d j);
    },
    now,
  )
    where
      now : (c : ℕ) → contains hash (remove_elem h e) c ≡ (contains hash h c && not (c == e))
      now c =
          has-without c e (h.buckets (find_bucket hash h c))
            (v.distinct (find_bucket hash h c) (place_lt hash h c v.positive))

      before : (c : ℕ) → contains hash (remove_elem h e) c ≡ true → contains hash h c ≡ true
      before c i = ground (arith, sym (now c) ∙ i)
