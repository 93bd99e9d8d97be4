-- ===== src/Directory/Add.antt =====
-- A directory as a finite map from names to sectors, and what `dir_add` and `dir_lookup` do to it.
use mathlib.Core.Path.{subst}
use tddb.Base.{
  ℕ, ◌^◌, ◌≤◌, ◌<◌, Bool, true, false, not, some, List, length, ◌≡◌, ◌≢◌, ◌↔◌, ◌⊎◌, inl, inr, refl,
  sym, ap, ◌∙◌, arith, ℕ_discrete,
}
use tddb.Inode.{Block, Disk, InodeDisk}
use tddb.Inode.Layout.{OnDisk}
use tddb.Inodes.{OpenInode, Inodes, find_inode}
use tddb.Directory.{granted, Dir, name_max, inode_sector, in_use, is_entry, is_name, lookup, add_at}
use tddb.Directory.Slots.{slots, slot, Agree, write_entry-slot, write_entry_short}
use tddb.Directory.Names.{
  NonNull, is_entry-Agree, is_name_unique, new_entry, is_entry-new_entry, inode_sector-new_entry,
  inode_sector-Agree,
}
use tddb.Directory.Scan.{Scanned, past, hit, scan_all-Scanned, is_entry-Reads}

-- A name that an entry can have.
pub record IsFileName (name : List ℕ) : Type 0 where
  pub some_char : length name ≢ 0
  pub fits : length name ≤ name_max
  pub chars : NonNull name

-- The directory has an entry for the name, with this sector.
abbrev pub Holds : Disk → InodeDisk → List ℕ → ℕ → Type 0
Holds d i name sector =
    (k : ℕ) × (k < slots i)
    × (is_entry name (slot d i k) ≡ true)
    × (inode_sector (slot d i k) ≡ sector)

-- The name is in no slot.
abbrev pub Missing : Disk → InodeDisk → List ℕ → Type 0
Missing d i name = (k : ℕ) → k < slots i → is_entry name (slot d i k) ≡ false

-- No two slots in use have the same name.
abbrev pub Single : Disk → InodeDisk → Type 0
Single d i =
    (name : List ℕ) (j k : ℕ)
    → IsFileName name
    → j < slots i
    → k < slots i
    → is_entry name (slot d i j) ≡ true
    → is_entry name (slot d i k) ≡ true
    → j ≡ k

-- What `dir_add` did.
pub data Added (st : Inodes) (i : InodeDisk) (name : List ℕ) (sector : ℕ)
    : Bool → Inodes → Type 0 where
  listed : (s : ℕ) → Holds st.disk i name s → Added st i name sector false st
  full :
      {st' : Inodes}
      → Missing st.disk i name
      → ((k : ℕ) → k < slots i → in_use (slot st.disk i k) ≡ true)
      → ((k : ℕ) → k < slots i → Agree (slot st'.disk i k) (slot st.disk i k))
      → Added st i name sector false st'
  added :
      {st' : Inodes}
      → Missing st.disk i name
      → ((name2 : List ℕ) (s : ℕ)
          → IsFileName name2
          → Holds st'.disk i name2 s ↔ (((name2 ≡ name) × (s ≡ sector)) ⊎ Holds st.disk i name2 s))
      → (Single st.disk i → Single st'.disk i)
      → st'.open_inodes ≡ st.open_inodes
      → OnDisk st'.disk i
      → Added st i name sector true st'

-- One free slot was written.
module _ (d d' : Disk) (i : InodeDisk) (k : ℕ) (e : Block) (name : List ℕ) (sector : ℕ)
    (below : k < slots i) (free : in_use (slot d i k) ≡ false) (ok : IsFileName name)
    (small : sector < 2 ^ 32) (here : Agree (slot d' i k) (new_entry e name sector))
    (there : (j : ℕ) → j ≢ k → Agree (slot d' i j) (slot d i j)) where
  kept : (name2 : List ℕ) (s : ℕ) → IsFileName name2 → Holds d i name2 s → Holds d' i name2 s
  kept name2 s ok2 (j, at, match, sec) = (
    j,
    at,
    is_entry-Agree name2 (slot d' i j) (slot d i j) ok2.fits (there j ne) ∙ match,
    inode_sector-Agree (slot d' i j) (slot d i j) (there j ne) ∙ sec,
  )
    where
      used : in_use (slot d i j) ≡ true
      used = ground arith

      ne : j ≢ k
      ne e = cc (sym used ∙ ap (λ j. in_use (slot d i j)) e ∙ free)

  fresh_sector : inode_sector (slot d' i k) ≡ sector
  fresh_sector =
      inode_sector-Agree (slot d' i k) (new_entry e name sector) here
      ∙ inode_sector-new_entry e name sector small

  fresh : Holds d' i name sector
  fresh = (
    k,
    below,
    is_entry-Agree name (slot d' i k) (new_entry e name sector) ok.fits here
        ∙ is_entry-new_entry e name sector ok.fits,
    fresh_sector,
  )

  named :
      (name2 : List ℕ)
      → is_entry name2 (new_entry e name sector) ≡ true
      → is_name name2 (new_entry e name sector) 4 ≡ true
  named name2 h = ground arith

  only :
      (name2 : List ℕ) (s : ℕ)
      → IsFileName name2
      → Holds d' i name2 s
      → ((name2 ≡ name) × (s ≡ sector)) ⊎ Holds d i name2 s
  only name2 s ok2 (j, at, match, sec) = elim (ℕ_discrete j k) [
    | yes same ↦
        let match_k : is_entry name2 (slot d' i k) ≡ true =
          subst (λ j. is_entry name2 (slot d' i j) ≡ true) same match in
        let both : is_entry name2 (new_entry e name sector) ≡ true =
          sym (is_entry-Agree name2 (slot d' i k) (new_entry e name sector) ok2.fits here)
          ∙ match_k in
        inl (
          is_name_unique name2 name (new_entry e name sector) 4 ok2.chars ok.chars
              (named name2 both) (named name (is_entry-new_entry e name sector ok.fits)),
          sym sec ∙ ap (λ j. inode_sector (slot d' i j)) same ∙ fresh_sector,
        )
    | no ne ↦ inr (
      j,
      at,
      sym (is_entry-Agree name2 (slot d' i j) (slot d i j) ok2.fits (there j ne)) ∙ match,
      sym (inode_sector-Agree (slot d' i j) (slot d i j) (there j ne)) ∙ sec,
    )
  ]

  -- A name in two slots of which one was free
  alone :
      (name2 : List ℕ) (j : ℕ)
      → IsFileName name2
      → Missing d i name
      → j < slots i
      → is_entry name2 (slot d' i j) ≡ true
      → is_entry name2 (slot d' i k) ≡ true
      → j ≡ k
  alone name2 j ok2 missing at match match_k = elim (ℕ_discrete j k) [
    | yes same ↦ same
    | no ne ↦
        let both : is_entry name2 (new_entry e name sector) ≡ true =
          sym (is_entry-Agree name2 (slot d' i k) (new_entry e name sector) ok2.fits here)
          ∙ match_k in
        let old : is_entry name2 (slot d i j) ≡ true =
          sym (is_entry-Agree name2 (slot d' i j) (slot d i j) ok2.fits (there j ne)) ∙ match in
        let eq : name2 ≡ name =
          is_name_unique name2 name (new_entry e name sector) 4 ok2.chars ok.chars
            (named name2 both) (named name (is_entry-new_entry e name sector ok.fits)) in
        absurd (cc (sym (subst (λ n. is_entry n (slot d i j) ≡ true) eq old) ∙ missing j at))
  ]

  pub added-Single : Missing d i name → Single d i → Single d' i
  added-Single missing single name2 j j2 ok2 at at2 match match2 = elim (ℕ_discrete j k) [
    | yes same ↦ sym (
        alone name2 j2 ok2 missing at2 match2
          (subst (λ j. is_entry name2 (slot d' i j) ≡ true) same match)
        ∙ sym same)
    | no ne ↦ elim (ℕ_discrete j2 k) [
      | yes same ↦
          alone name2 j ok2 missing at match
            (subst (λ j. is_entry name2 (slot d' i j) ≡ true) same match2)
          ∙ sym same
      | no ne2 ↦
          single name2 j j2 ok2 at at2
            (sym (is_entry-Agree name2 (slot d' i j) (slot d i j) ok2.fits (there j ne)) ∙ match)
            (sym (is_entry-Agree name2 (slot d' i j2) (slot d i j2) ok2.fits (there j2 ne2))
              ∙ match2)
    ]
  ]

  pub added_map :
      (name2 : List ℕ) (s : ℕ)
      → IsFileName name2
      → Holds d' i name2 s ↔ (((name2 ≡ name) × (s ≡ sector)) ⊎ Holds d i name2 s)
  added_map name2 s ok2 = (only name2 s ok2, back)
    where
      back : (((name2 ≡ name) × (s ≡ sector)) ⊎ Holds d i name2 s) → Holds d' i name2 s
      back (inl (n, t)) =
          subst (λ name2. Holds d' i name2 s) (sym n) (subst (λ s. Holds d' i name s) (sym t) fresh)
      back (inr h) = kept name2 s ok2 h

module _ (st : Inodes) (dir : Dir) (i : OpenInode)
    (found : find_inode st.open_inodes dir.inode ≡ some i) (on : OnDisk st.disk i.inode_data) where
  -- `add_at` at the slot that the loop stopped at
  pub add_at-Added :
      (name : List ℕ) (sector : ℕ) {b : Bool} {e : Block} {ofs : ℕ}
      → i.deny_write_cnt ≡ 0
      → IsFileName name
      → sector < 2 ^ 32
      → Missing st.disk i.inode_data name
      → Scanned st.disk i.inode_data (λ e. not (in_use e)) 0 b e ofs
      → (b' : Bool) × (st' : Inodes) × (add_at st dir true name sector e ofs ≡ some (b', st'))
        × Added st i.inode_data name sector b' st'
  unfolding add_at
  add_at-Added name sector {e = e} writable ok small missing (past n le over taken) =
      let (d', m, run, short, same) =
        write_entry_short st dir i found on (new_entry e name sector) n writable over in
      (
        false,
        record st { disk = d' },
        rw (run, short) refl,
        full missing (λ k h. not_not (taken k (omega arith) h)) same,
      )
    where
      not_not : {b : Bool} → not b ≡ false → b ≡ true
      not_not h = ground arith
  add_at-Added name sector {e = e} writable ok small missing (hit n le below free before agree) =
      let (d', run, cap, here, there) =
        write_entry-slot st dir i found on (new_entry e name sector) n writable below in
      (
        true,
        record st { disk = d' },
        rw run refl,
        added missing
            (added_map st.disk d' i.inode_data n e name sector below (not_yes free) ok small here
              there)
            (added-Single st.disk d' i.inode_data n e name sector below (not_yes free) ok small here
              there missing)
            refl (omega (arith, on, cap)),
      )
    where
      not_yes : {b : Bool} → not b ≡ true → b ≡ false
      not_yes h = ground arith

  -- What `lookup` returned
  pub data Looked (name : List ℕ) : Bool → Block → Type 0 where
    nowhere : {e : Block} → Missing st.disk i.inode_data name → Looked name false e
    somewhere : {e : Block} → Holds st.disk i.inode_data name (inode_sector e) → Looked name true e

  Scanned-Looked :
      (name : List ℕ) {b : Bool} {e : Block} {ofs : ℕ}
      → Scanned st.disk i.inode_data (is_entry name) 0 b e ofs
      → Looked name b e
  Scanned-Looked name (past n le over fails) = nowhere (λ k h. fails k (omega arith) h)
  Scanned-Looked name {e = e} (hit n le below pass before agree) =
      somewhere (n, below, pass, sym (inode_sector-Agree e (slot st.disk i.inode_data n) agree))

  pub lookup-Looked :
      (e : Block) (name : List ℕ)
      → length name ≤ name_max
      → (b : Bool) × (e' : Block) × (ofs : ℕ) × (lookup st dir granted e name ≡ some (b, e', ofs))
        × Looked name b e'
  unfolding lookup
  lookup-Looked e name h =
      let (b, e', ofs, run, s) =
        scan_all-Scanned st dir i found on (is_entry name) (is_entry-Reads name h) 0 e in
      (b, e', ofs, run, Scanned-Looked name s)
