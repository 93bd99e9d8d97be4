-- ===== src/Bitmap/Create.antt =====
-- `create` and `set_all`, and the questions about a range of bits.
use tddb.Base.{
  ℕ, ◌+◌, ◌-◌, ◌*◌, ◌≤◌, ◌<◌, Bool, true, false, not, List, some, if◌then◌else◌, length, ◌≡◌, ◌∙◌,
  ap, arith,
}
use tddb.Bitmap.{Bitmap, word, byte_cnt, set_all, create, contains, any, none_set, all}
use tddb.Bitmap.Bit.{at, IsValid}
use tddb.Bitmap.Range.{
  within, Fills, Fits, Search, contains-Search, set_multiple-Fills, Fills-IsValid,
}

-- a new bitmap of `n` bits, all clear
pub record IsClear (n : ℕ) (b : Bitmap) : Type 0 where
  pub valid : IsValid b
  pub size : b.bit_cnt ≡ n
  pub clear : (j : ℕ) → j < n → at b j ≡ false

within_all : (n j : ℕ) → j < n → within 0 n j ≡ true
within_all n j h = ground arith

-- `bitmap_set_all` gives every bit of a valid bitmap the value.
pub set_all-Fills :
    {b : Bitmap} (v : Bool)
    → IsValid b
    → (b' : Bitmap) × (set_all b v ≡ some b') × Fills b 0 b.bit_cnt v b'
unfolding set_all
set_all-Fills {b} v ok = set_multiple-Fills v (record { valid = ok; below = omega arith })

create_run :
    {b' : Bitmap} (n : ℕ) (garbage : List ℕ)
    → set_all (record { bit_cnt = n; bits = garbage }) false ≡ some b'
    → create n true (some garbage) ≡ some (some b')
unfolding create
create_run n garbage e = rw e

-- `bitmap_create` with the memory that it asks for makes a valid bitmap of `n` bits, all clear,
-- whatever the memory held, if rounding `n` up to whole elements does not overflow.
pub create-IsClear :
    (n : ℕ) (garbage : List ℕ)
    → n ≤ word - 32
    → 4 * length garbage ≡ byte_cnt n
    → (b' : Bitmap) × (create n true (some garbage) ≡ some (some b')) × IsClear n b'
unfolding byte_cnt
create-IsClear n garbage h room =
    let b : Bitmap = record { bit_cnt = n; bits = garbage } in
    let ok : IsValid b = record { room = omega (arith, room); small = omega arith } in
    let (b', e, f) = set_all-Fills false ok in
    (
      b',
      create_run n garbage e,
      record {
        valid = Fills-IsValid f ok;
        size = f.same_cnt;
        clear = λ j lt. f.bits j ∙ ap (λ t. if t then false else at b j) (within_all n j lt);
      },
    )

module _ (b : Bitmap) {t : Bool} (start cnt : ℕ) where
  any_run : contains b start cnt true ≡ some t → any b start cnt ≡ some t
  unfolding any
  any_run e = e

  none_run : contains b start cnt true ≡ some t → none_set b start cnt ≡ some (not t)
  unfolding none_set
  none_run e = rw e

  all_run : contains b start cnt false ≡ some t → all b start cnt ≡ some (not t)
  unfolding all
  all_run e = rw e

-- On a range of the bitmap `bitmap_any` returns whether a bit is set, `bitmap_none` the opposite, and
-- `bitmap_all` whether no bit is clear.
pub any_none_all :
    {b : Bitmap} {start cnt : ℕ}
    → Fits b start cnt
    → (p q : Bool) × (any b start cnt ≡ some p)
      × (none_set b start cnt ≡ some (not p))
      × (all b start cnt ≡ some (not q))
      × Search b start (start + cnt) true p
      × Search b start (start + cnt) false q
any_none_all {b} {start} {cnt} r =
    let (p, e, sp) = contains-Search true r in
    let (q, f, sq) = contains-Search false r in
    (p, q, any_run b start cnt e, none_run b start cnt e, all_run b start cnt f, sp, sq)
