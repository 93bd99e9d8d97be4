-- ===== src/Directory/Names.antt =====
-- Names in the bytes of an entry.
use tddb.Base.{
  ℕ, ◌+◌, ◌*◌, ◌/◌, ◌%◌, ◌^◌, ◌≤◌, ◌<◌, true, false, not, ◌&&◌, List, [], ◌∷◌, ◌==◌, ltb, length,
  ◌≡◌, ◌≢◌, refl, ap, ◌∙◌, arith, ==_ne, ==_refl,
}
use tddb.Base.Members.{update}
use tddb.Inode.{Block}
use tddb.Directory.{name_max, inode_sector, is_name, is_entry, put_name, put_sector}
use tddb.Directory.Slots.{Agree}

-- No character of the name is the null character.
abbrev pub NonNull : List ℕ → Type 0
NonNull [] = Unit
NonNull (c ∷ cs) = (c ≢ 0) × NonNull cs

pub is_name_local :
    (name : List ℕ) (p : ℕ) (e e' : Block)
    → ((b : ℕ) → p ≤ b → b ≤ p + length name → e b ≡ e' b)
    → is_name name e p ≡ is_name name e' p
is_name_local [] p e e' agree = ap (λ c. c == 0) (agree p (omega arith) (omega arith))
is_name_local (c ∷ cs) p e e' agree = rw (agree p (omega arith) (omega arith)) (
    ap (λ b. (e' p == c) && b)
      (is_name_local cs (p + 1) e e' (λ b lo hi. agree b (omega arith) (omega arith))))

pub is_entry-Agree :
    (name : List ℕ) (e e' : Block)
    → length name ≤ name_max
    → Agree e e'
    → is_entry name e ≡ is_entry name e'
is_entry-Agree name e e' h agree = rw (agree 19 (omega arith)) (
    ap (λ b. not (e' 19 == 0) && b)
      (is_name_local name 4 e e' (λ b lo hi. agree b (omega (arith, h)))))

put_name_before : (name : List ℕ) (e : Block) (p b : ℕ) → b < p → put_name e p name b ≡ e b
put_name_before [] e p b h = rw (==_ne p b (omega (arith, h))) refl
put_name_before (c ∷ cs) e p b h =
    put_name_before cs (update e p c) (p + 1) b (omega (arith, h))
    ∙ rw (==_ne p b (omega (arith, h))) refl

put_name_behind :
    (name : List ℕ) (e : Block) (p b : ℕ) → p + length name < b → put_name e p name b ≡ e b
put_name_behind [] e p b h = rw (==_ne p b (omega (arith, h))) refl
put_name_behind (c ∷ cs) e p b h =
    put_name_behind cs (update e p c) (p + 1) b (omega (arith, h))
    ∙ rw (==_ne p b (omega (arith, h))) refl

is_name-put_name : (name : List ℕ) (e : Block) (p : ℕ) → is_name name (put_name e p name) p ≡ true
is_name-put_name [] e p = rw (==_refl p) refl
is_name-put_name (c ∷ cs) e p =
    rw (put_name_before cs (update e p c) (p + 1) p (omega arith), ==_refl p, ==_refl c)
      (is_name-put_name cs (update e p c) (p + 1))

-- Two names in the same bytes are the same.
pub is_name_unique :
    (name name2 : List ℕ) (e : Block) (p : ℕ)
    → NonNull name
    → NonNull name2
    → is_name name e p ≡ true
    → is_name name2 e p ≡ true
    → name ≡ name2
is_name_unique [] [] e p h h2 y y2 = refl
is_name_unique [] (c ∷ cs) e p h h2 y y2 = absurd (ground (arith, h2.0))
is_name_unique (c ∷ cs) [] e p h h2 y y2 = absurd (ground (arith, h.0))
is_name_unique (c ∷ cs) (c2 ∷ cs2) e p h h2 y y2 =
    let first : c ≡ c2 = ground arith in
    let rest = is_name_unique cs cs2 e (p + 1) (h.1) (h2.1) (ground arith) (ground arith) in
    ap (λ k. k ∷ cs) first ∙ ap (λ l. c2 ∷ l) rest

-- The bytes that `dir_add` writes
abbrev pub new_entry : Block → List ℕ → ℕ → Block
new_entry e name sector = put_sector (put_name (update e 19 1) 4 name) sector

pub is_entry-new_entry :
    (e : Block) (name : List ℕ) (sector : ℕ)
    → length name ≤ name_max
    → is_entry name (new_entry e name sector) ≡ true
is_entry-new_entry e name sector h =
    rw (put_name_behind name (update e 19 1) 4 19 (omega (arith, h))) (
      is_name_local name 4 (new_entry e name sector) (put_name (update e 19 1) 4 name) same
      ∙ is_name-put_name name (update e 19 1) 4)
  where
    same :
        (b : ℕ)
        → 4 ≤ b
        → b ≤ 4 + length name
        → new_entry e name sector b ≡ put_name (update e 19 1) 4 name b
    same b lo hi = rw (behind b lo) refl
      where
        behind : (b : ℕ) → 4 ≤ b → ltb b 4 ≡ false
        behind b lo = ground arith

pub inode_sector-new_entry :
    (e : Block) (name : List ℕ) (sector : ℕ)
    → sector < 2 ^ 32
    → inode_sector (new_entry e name sector) ≡ sector
inode_sector-new_entry e name sector h = four_bytes sector h
  where
    four_bytes :
        (w : ℕ)
        → w < 2 ^ 32
        → w / 1 % 256
            + 256 * (w / 256 % 256)
            + 65536 * (w / 65536 % 256)
            + 16777216 * (w / 16777216 % 256)
          ≡ w
    four_bytes w h = omega arith

pub inode_sector-Agree : (e e' : Block) → Agree e e' → inode_sector e ≡ inode_sector e'
inode_sector-Agree e e' agree =
    rw (agree 0 (omega arith), agree 1 (omega arith), agree 2 (omega arith), agree 3 (omega arith))
      refl
