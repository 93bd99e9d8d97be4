-- ===== src/Hash/Tests.antt =====
-- Tests of the hash table, and each property at a concrete table.
use tddb.Base.{
  ℕ, ◌/◌, sym, ap, ◌∙◌, inl, inr, ℕ_discrete, Bool, true, false, not, ◌&&◌, ◌||◌, none, some, [],
  ◌∷◌, ◌==◌, ◌≡◌, ◌⊎◌, refl, arith, ltb, if◌then◌else◌,
}
use tddb.Base.Members.{has}
use tddb.Hash.{
  Hash, hash_insert, hash_find, hash_delete, hash_string, string_from, rehash, find_bucket,
}
use tddb.Hash.Contents.{equal, Hashing, contains, Valid, rehash-contains}
use tddb.Hash.Operations.{found, is, hash_find-contains, hash_insert-contains, hash_delete-contains}

-- Elements are equal that have the same quotient by 10; the hash is that quotient.
abbrev key : ℕ → ℕ
key e = e / 10

abbrev less : ℕ → ℕ → Bool
less a b = ltb (a / 10) (b / 10)

-- Four buckets; 41 is in the first, 22 in the third.
abbrev table : Hash
table = record {
  elem_cnt = 2;
  bucket_cnt = 4;
  buckets = λ i. if i == 0 then 41 ∷ [] else if i == 2 then 22 ∷ [] else [];
}

key-Hashing : Hashing key less
key-Hashing = record {
  same_hash = λ c d e. ground (arith, e);
  reflexive = λ c. ground arith;
  third = λ c d e h k. ground (arith, h, k);
}

member : (i c : ℕ) → has c (table.buckets i) ≡ true → ((i ≡ 0) × (c ≡ 41)) ⊎ ((i ≡ 2) × (c ≡ 22))
member i c h = elim (ℕ_discrete i 0) [
  | yes e ↦ inl (e, ground (arith, e, h))
  | no n ↦ elim (ℕ_discrete i 2) [
    | yes e ↦ inr (e, ground (arith, e, h))
    | no m ↦ absurd (ground (arith, n, m, h))
  ]
]

table-Valid : Valid key less table
table-Valid = record {
  positive = omega arith;
  placed = λ i c lt h. elim (member i c h) [
    | inl (e, f) ↦ ap (find_bucket key table) f ∙ sym e
    | inr (e, f) ↦ ap (find_bucket key table) f ∙ sym e
  ];
  distinct = λ i lt. ground arith;
  counted = refl;
  single = λ c d h k e. elim (member (find_bucket key table c) c h) [
    | inl (p, f) ↦ elim (member (find_bucket key table d) d k) [
      | inl (q, g) ↦ f ∙ sym g
      | inr (q, g) ↦ cc (apart f g e)
    ]
    | inr (p, f) ↦ elim (member (find_bucket key table d) d k) [
      | inl (q, g) ↦ cc (apart' f g e)
      | inr (q, g) ↦ f ∙ sym g
    ]
  ];
}
  where
    apart : {c d : ℕ} → c ≡ 41 → d ≡ 22 → equal less c d ≡ true → false ≡ true
    apart f g e = ground (arith, f, g, e)

    apart' : {c d : ℕ} → c ≡ 22 → d ≡ 41 → equal less c d ≡ true → false ≡ true
    apart' f g e = ground (arith, f, g, e)

rehash-contains_example :
    (g : Hash) × (rehash key 7 true table ≡ some g)
    × Valid key less g
    × ((c : ℕ) → contains key g c ≡ contains key table c)
    × (g.elem_cnt ≡ 2)
rehash-contains_example = rehash-contains key less 7 true table table-Valid (omega arith)

hash_find-contains_example :
    ((hash_find key less table 45 ≡ none)
      × ((c : ℕ) → contains key table c ≡ true → equal less c 45 ≡ false))
    ⊎ ((c : ℕ) × (hash_find key less table 45 ≡ some c)
        × (contains key table c ≡ true)
        × (equal less c 45 ≡ true))
hash_find-contains_example = hash_find-contains key less table 45 key-Hashing

hash_insert-contains_example :
    (g : Hash) × (hash_insert key less 4294967301 false table 63
      ≡ some (hash_find key less table 63, g))
    × Valid key less g
    × ((c : ℕ)
        → contains key g c
          ≡ (contains key table c || ((c == 63) && not (found (hash_find key less table 63)))))
hash_insert-contains_example =
    hash_insert-contains key less 4294967301 false table 63 key-Hashing table-Valid (omega arith)

hash_delete-contains_example :
    (g : Hash) × (hash_delete key less 4294967301 true table 25
      ≡ some (hash_find key less table 25, g))
    × Valid key less g
    × ((c : ℕ)
        → contains key g c ≡ (contains key table c && not (is (hash_find key less table 25) c)))
hash_delete-contains_example =
    hash_delete-contains key less 4294967301 true table 25 key-Hashing table-Valid (omega arith)

hash_find_runs : (hash_find key less table 45 ≡ some 41) × (hash_find key less table 30 ≡ none)
unfolding hash_find
hash_find_runs = (refl, refl)

-- The hash of "a", by Fowler, Noll and Vo
hash_string_runs : hash_string (97 ∷ (0 ∷ [])) ≡ some 84696446
unfolding hash_string string_from
hash_string_runs = refl
