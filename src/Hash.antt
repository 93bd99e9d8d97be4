-- ===== src/Hash.antt =====
-- lib/kernel/hash.c: hash tables. An element is its address, a bucket the sequence of its list (LinkedList proves that
-- the list operations act so). `hash` and `less` stand for the table's functions; `memory` says whether `malloc`
-- succeeds. `none` is a loop that ran out of fuel.
pub mod Buckets
pub mod Moves
pub mod Contents
pub mod Operations
mod Tests
use tddb.Base.{
  ℕ, zero, suc, ◌+◌, ◌-◌, ◌*◌, ◌/◌, ◌%◌, Bool, true, false, not, ◌&&◌, Option, none, some, List, [],
  ◌∷◌, ◌++◌, ◌==◌, ltb, if◌then◌else◌, ◌>>=◌,
}
use Prim.Native.Nat.{bit_and, bit_xor}
use tddb.Base.Members.{update}

pub record Hash : Type 0 where
  pub elem_cnt : ℕ
  pub bucket_cnt : ℕ
  pub buckets : ℕ → List ℕ

-- `hash_bytes`; FNV_32_PRIME is 16777619 and FNV_32_BASIS 2166136261.
unfoldable pub hash_from : List ℕ → ℕ → ℕ
hash_from [] hash = hash
hash_from (b ∷ buf) hash = hash_from buf (bit_xor (hash * 16777619 % 4294967296) b)

unfoldable pub hash_bytes : List ℕ → ℕ
hash_bytes buf = hash_from buf 2166136261

-- `hash_string`; `none` when no null byte ends the string
unfoldable pub string_from : List ℕ → ℕ → Option ℕ
string_from [] hash = none
string_from (b ∷ s) hash =
    let rest = string_from s (bit_xor (hash * 16777619 % 4294967296) b) in
    if b == 0 then some hash else rest

unfoldable pub hash_string : List ℕ → Option ℕ
hash_string s = string_from s 2166136261

unfoldable pub hash_size : Hash → ℕ
hash_size h = h.elem_cnt

unfoldable pub hash_empty : Hash → Bool
hash_empty h = h.elem_cnt == 0

-- For x = 0, where x - 1 wraps around in C, the result is 0 all the same.
abbrev pub turn_off_least_1bit : ℕ → ℕ
turn_off_least_1bit x = bit_and x (x - 1)

abbrev pub is_power_of_2 : ℕ → Bool
is_power_of_2 x = not (x == 0) && (turn_off_least_1bit x == 0)

-- The loop of `rehash` that finds the power of 2
unfoldable pub power_from : ℕ → ℕ → Option ℕ
power_from zero new_bucket_cnt = none
power_from (suc fuel) new_bucket_cnt =
    let rest = power_from fuel (turn_off_least_1bit new_bucket_cnt) in
    if is_power_of_2 new_bucket_cnt then some new_bucket_cnt else rest

-- Takes `e` out of the list that it stands in.
abbrev pub without : ℕ → List ℕ → List ℕ
without e [] = []
without e (x ∷ xs) = if e == x then xs else x ∷ without e xs

abbrev pub remove_elem : Hash → ℕ → Hash
remove_elem h e = record h {
  elem_cnt = (h.elem_cnt + 4294967295) % 4294967296;
  buckets = λ i. without e (h.buckets i);
}

-- `bucket` is the index of the bucket.
abbrev pub insert_elem : Hash → ℕ → ℕ → Hash
insert_elem h bucket e = record h {
  elem_cnt = (h.elem_cnt + 1) % 4294967296;
  buckets = update h.buckets bucket (e ∷ h.buckets bucket);
}

-- `if (old == NULL) insert_elem (h, bucket, new)`
abbrev pub insert_unless : Option ℕ → Hash → ℕ → ℕ → Hash
insert_unless none h bucket new = insert_elem h bucket new
insert_unless (some old) h bucket new = h

-- `if (old != NULL) remove_elem (h, old)`
abbrev pub remove_found : Option ℕ → Hash → Hash
remove_found none h = h
remove_found (some old) h = remove_elem h old

-- `hash_clear` with no destructor; the loop empties every bucket.
unfoldable pub clear_from : ℕ → ℕ → (ℕ → List ℕ) → ℕ → List ℕ
clear_from zero i buckets = buckets
clear_from (suc left) i buckets = clear_from left (i + 1) (update buckets i [])

unfoldable pub hash_clear : Hash → Hash
hash_clear h = record h { elem_cnt = 0; buckets = clear_from h.bucket_cnt 0 h.buckets }

-- `garbage` is what the new memory holds; `none` stands here for the result false.
unfoldable pub hash_init : Bool → (ℕ → List ℕ) → Option Hash
hash_init memory garbage =
    if memory
    then some (hash_clear (record { elem_cnt = 0; bucket_cnt = 4; buckets = garbage }))
    else none

-- the elements in the order in which `hash_apply` and `hash_next` come to them
unfoldable pub apply_from : ℕ → ℕ → (ℕ → List ℕ) → List ℕ
apply_from zero i buckets = []
apply_from (suc left) i buckets = buckets i ++ apply_from left (i + 1) buckets

unfoldable pub hash_apply : Hash → List ℕ
hash_apply h = apply_from h.bucket_cnt 0 h.buckets

module _ (hash : ℕ → ℕ) where
  abbrev pub find_bucket : Hash → ℕ → ℕ
  find_bucket h e = bit_and (hash e) (h.bucket_cnt - 1)

  -- The inner loop of `rehash` over an old bucket; `h` has the new number of buckets already.
  abbrev pub move_elems : Hash → List ℕ → (ℕ → List ℕ) → ℕ → List ℕ
  move_elems h [] new_buckets = new_buckets
  move_elems h (elem ∷ old_bucket) new_buckets =
      let new_bucket = find_bucket h elem in
      move_elems h old_bucket (update new_buckets new_bucket (elem ∷ new_buckets new_bucket))

  abbrev pub move_buckets : Hash → ℕ → ℕ → (ℕ → List ℕ) → (ℕ → List ℕ) → ℕ → List ℕ
  move_buckets h zero i old_buckets new_buckets = new_buckets
  move_buckets h (suc left) i old_buckets new_buckets =
      move_buckets h left (i + 1) old_buckets (move_elems h (old_buckets i) new_buckets)

  unfoldable pub rehash : ℕ → Bool → Hash → Option Hash
  rehash fuel memory h =
      power_from fuel (if ltb (h.elem_cnt / 2) 4 then 4 else h.elem_cnt / 2) >>= λ new_bucket_cnt.
      if new_bucket_cnt == h.bucket_cnt
      then some h
      else if memory
      then (let h' = record h { bucket_cnt = new_bucket_cnt } in
          some (record h' { buckets = move_buckets h' h.bucket_cnt 0 h.buckets (λ i. []) }))
      else some h

module _ (less : ℕ → ℕ → Bool) where
  -- `find_elem`, the bucket as its sequence
  abbrev pub find_elem : List ℕ → ℕ → Option ℕ
  find_elem [] e = none
  find_elem (hi ∷ bucket) e =
      if not (less hi e) && not (less e hi) then some hi else find_elem bucket e

module _ (hash : ℕ → ℕ) (less : ℕ → ℕ → Bool) where
  unfoldable pub hash_insert : ℕ → Bool → Hash → ℕ → Option (Option ℕ × Hash)
  hash_insert fuel memory h new =
      let bucket = find_bucket hash h new in
      let old = find_elem less (h.buckets bucket) new in
      rehash hash fuel memory (insert_unless old h bucket new) >>= λ h'. some (old, h')

  unfoldable pub hash_replace : ℕ → Bool → Hash → ℕ → Option (Option ℕ × Hash)
  hash_replace fuel memory h new =
      let bucket = find_bucket hash h new in
      let old = find_elem less (h.buckets bucket) new in
      rehash hash fuel memory (insert_elem (remove_found old h) bucket new) >>= λ h'. some (old, h')

  unfoldable pub hash_find : Hash → ℕ → Option ℕ
  hash_find h e = find_elem less (h.buckets (find_bucket hash h e)) e

  -- `hash_delete` behind its search
  abbrev pub delete_found : ℕ → Bool → Hash → Option ℕ → Option (Option ℕ × Hash)
  delete_found fuel memory h none = some (none, h)
  delete_found fuel memory h (some found) =
      rehash hash fuel memory (remove_elem h found) >>= λ h'. some (some found, h')

  unfoldable pub hash_delete : ℕ → Bool → Hash → ℕ → Option (Option ℕ × Hash)
  hash_delete fuel memory h e =
      delete_found fuel memory h (find_elem less (h.buckets (find_bucket hash h e)) e)
