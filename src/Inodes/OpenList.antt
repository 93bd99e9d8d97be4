-- ===== src/Inodes/OpenList.antt =====
-- The list of open inodes: looking up, changing and counting.
use mathlib.Core.Path.{subst}
use tddb.Base.{
  ℕ, ◌<◌, true, false, none, some, List, [], ◌∷◌, ◌==◌, if◌then◌else◌, ◌≡◌, ◌≢◌, refl, sym, ap, ◌∙◌,
  arith, Bool-cases, inl, inr,
}
use tddb.Inodes.{OpenInode, find_inode, change}

-- Every inode in the list has an opener and is there once.
abbrev pub AllOpen : List OpenInode → Type 0
AllOpen [] = Unit
AllOpen (i ∷ is) = (0 < i.open_cnt) × (find_inode is i.sector ≡ none) × AllOpen is

-- How often the inode of the sector is open.
abbrev pub openers : List OpenInode → ℕ → ℕ
openers [] s = 0
openers (i ∷ is) s = if i.sector == s then i.open_cnt else openers is s

pub find-change :
    (is : List OpenInode) (s : ℕ) (f : OpenInode → OpenInode) {i : OpenInode}
    → ((i : OpenInode) → (f i).sector ≡ i.sector)
    → find_inode is s ≡ some i
    → find_inode (change is s f) s ≡ some (f i)
find-change [] s f keep e = cc
find-change (j ∷ is) s f {i} keep e = elim (Bool-cases (j.sector == s)) [
  | inl y ↦ rw (y, ap (λ k. k == s) (keep j) ∙ y) (ap (λ k. some (f k)) (cc (rw y at e)))
  | inr n ↦ rw (n, n) (find-change is s f keep (rw n at e))
]

pub find-change_other :
    (is : List OpenInode) (s t : ℕ) (f : OpenInode → OpenInode)
    → ((i : OpenInode) → (f i).sector ≡ i.sector)
    → s ≢ t
    → find_inode (change is s f) t ≡ find_inode is t
find-change_other [] s t f keep ne = refl
find-change_other (j ∷ is) s t f keep ne = elim (Bool-cases (j.sector == s)) [
  | inl y ↦ rw (y, ap (λ k. k == t) (keep j), other y) refl
  | inr n ↦ rw (n, find-change_other is s t f keep ne) refl
]
  where
    other : (j.sector == s) ≡ true → (j.sector == t) ≡ false
    other y = ground arith

pub change-back :
    (is : List OpenInode) (s : ℕ) (f g : OpenInode → OpenInode)
    → ((i : OpenInode) → (f i).sector ≡ i.sector)
    → ((i : OpenInode) → g (f i) ≡ i)
    → change (change is s f) s g ≡ is
change-back [] s f g keep back = refl
change-back (j ∷ is) s f g keep back = elim (Bool-cases (j.sector == s)) [
  | inl y ↦ rw (y, ap (λ k. k == s) (keep j) ∙ y) (ap (λ k. k ∷ is) (back j))
  | inr n ↦ rw (n, n) (ap (λ l. j ∷ l) (change-back is s f g keep back))
]

pub find-open :
    (is : List OpenInode) (s : ℕ) {i : OpenInode}
    → AllOpen is
    → find_inode is s ≡ some i
    → 0 < i.open_cnt
find-open [] s h e = cc
find-open (j ∷ is) s {i} h e = elim (Bool-cases (j.sector == s)) [
  | inl y ↦ let p : j ≡ i = cc (rw y at e) in subst (λ k. 0 < k.open_cnt) p (h.0)
  | inr n ↦ find-open is s (h.2) (rw n at e)
]

pub find-sector :
    (is : List OpenInode) (s : ℕ) {i : OpenInode} → find_inode is s ≡ some i → i.sector ≡ s
find-sector [] s e = cc
find-sector (j ∷ is) s {i} e = elim (Bool-cases (j.sector == s)) [
  | inl y ↦
      let p : j ≡ i = cc (rw y at e) in ap (λ (k : OpenInode). k.sector) (sym p) ∙ ground arith
  | inr n ↦ find-sector is s (rw n at e)
]

pub openers-change :
    (is : List OpenInode) (s t : ℕ) (f : OpenInode → OpenInode)
    → ((i : OpenInode) → (f i).sector ≡ i.sector)
    → {i : OpenInode} → find_inode is s ≡ some i
    → openers (change is s f) t ≡ (if t == s then (f i).open_cnt else openers is t)
openers-change [] s t f keep e = cc
openers-change (j ∷ is) s t f keep {i} e = elim (Bool-cases (j.sector == s)) [
  | inl y ↦
      let same : (f j).open_cnt ≡ (f i).open_cnt = ap (λ k. (f k).open_cnt) (cc (rw y at e)) in
      rw y (ground (arith, keep j, same))
  | inr n ↦ rw n (ground (arith, openers-change is s t f keep (rw n at e)))
]

pub absent-change :
    (is : List OpenInode) (s t : ℕ) (f : OpenInode → OpenInode)
    → ((i : OpenInode) → (f i).sector ≡ i.sector)
    → find_inode is s ≡ none
    → find_inode (change is t f) s ≡ none
absent-change [] s t f keep e = refl
absent-change (j ∷ is) s t f keep e = elim (Bool-cases (j.sector == s)) [
  | inl y ↦ cc (rw y at e)
  | inr n ↦ elim (Bool-cases (j.sector == t)) [
    | inl y ↦ rw (y, ap (λ k. k == s) (keep j) ∙ n) (rw n at e)
    | inr m ↦ rw (m, n) (absent-change is s t f keep (rw n at e))
  ]
]

pub AllOpen-change :
    (is : List OpenInode) (s : ℕ) (f : OpenInode → OpenInode)
    → ((i : OpenInode) → (f i).sector ≡ i.sector)
    → {i : OpenInode} → find_inode is s ≡ some i
    → 0 < (f i).open_cnt
    → AllOpen is
    → AllOpen (change is s f)
AllOpen-change [] s f keep e pos h = tt
AllOpen-change (j ∷ is) s f keep {i} e pos h = elim (Bool-cases (j.sector == s)) [
  | inl y ↦
      let same : (f i).open_cnt ≡ (f j).open_cnt =
        ap (λ k. (f k).open_cnt) (sym (cc (rw y at e))) in
      rw y (subst (λ n. 0 < n) same pos, ap (find_inode is) (keep j) ∙ h.1, h.2)
  | inr n ↦ rw n (
    h.0,
    absent-change is j.sector s f keep (h.1),
    AllOpen-change is s f keep (rw n at e) pos (h.2),
  )
]

pub find-openers :
    (is : List OpenInode) (s : ℕ) {i : OpenInode}
    → find_inode is s ≡ some i
    → openers is s ≡ i.open_cnt
find-openers [] s e = cc
find-openers (j ∷ is) s {i} e = elim (Bool-cases (j.sector == s)) [
  | inl y ↦ let p : j ≡ i = cc (rw y at e) in rw y (ap (λ (k : OpenInode). k.open_cnt) p)
  | inr n ↦ rw n (find-openers is s (rw n at e))
]

pub absent-openers : (is : List OpenInode) (s : ℕ) → find_inode is s ≡ none → openers is s ≡ 0
absent-openers [] s e = refl
absent-openers (j ∷ is) s e = elim (Bool-cases (j.sector == s)) [
  | inl y ↦ cc (rw y at e)
  | inr n ↦ rw n (absent-openers is s (rw n at e))
]
