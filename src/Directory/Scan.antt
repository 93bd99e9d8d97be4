-- ===== src/Directory/Scan.antt =====
-- What the loops over the entries find.
use mathlib.Core.Path.{subst}
use tddb.Base.{
  ℕ, zero, suc, ◌+◌, ◌*◌, ◌≤◌, ◌<◌, Bool, true, false, not, some, List, ◌==◌, length, ◌≡◌, sym, ap,
  ◌∙◌, arith, Bool-cases, inl, inr, ℕ_discrete, dec_lt,
}
use tddb.Inode.{Block, Disk, InodeDisk}
use tddb.Inode.Layout.{OnDisk}
use tddb.Inodes.{OpenInode, Inodes, find_inode}
use tddb.Directory.{granted, Dir, entry_size, name_max, in_use, is_entry, scan, scan_all}
use tddb.Directory.Names.{is_entry-Agree}
use tddb.Directory.Slots.{slots, slot, Agree, read_entry-slot, read_entry_short}

-- A test of entries that reads their bytes only.
abbrev pub Reads : (Block → Bool) → Type 0
Reads stop = (e e' : Block) → Agree e e' → stop e ≡ stop e'

-- The first slot from `k` on that passes the test, or none up to the end.
pub data Scanned (d : Disk) (i : InodeDisk) (stop : Block → Bool) (k : ℕ)
    : Bool → Block → ℕ → Type 0 where
  past :
      {e : Block} (n : ℕ)
      → k ≤ n
      → slots i ≤ n
      → ((j : ℕ) → k ≤ j → j < slots i → stop (slot d i j) ≡ false)
      → Scanned d i stop k false e (entry_size * n)
  hit :
      {e : Block} (n : ℕ)
      → k ≤ n
      → n < slots i
      → stop (slot d i n) ≡ true
      → ((j : ℕ) → k ≤ j → j < n → stop (slot d i j) ≡ false)
      → Agree e (slot d i n)
      → Scanned d i stop k true e (entry_size * n)

-- One more slot that does not pass, in front
Scanned-earlier :
    {d : Disk} {i : InodeDisk} {stop : Block → Bool} {k ofs : ℕ} {b : Bool} {e : Block}
    → stop (slot d i k) ≡ false
    → Scanned d i stop (suc k) b e ofs
    → Scanned d i stop k b e ofs
Scanned-earlier {d} {i} {stop} {k} skip (past n le over fails) =
    past n (omega (arith, le)) over (λ j from below. elim (ℕ_discrete k j) [
      | yes same ↦ subst (λ k. stop (slot d i k) ≡ false) same skip
      | no ne ↦ fails j (omega arith) below
    ])
Scanned-earlier {d} {i} {stop} {k} skip (hit n le below pass fails agree) =
    hit n (omega (arith, le)) below pass
      (λ j from under. elim (ℕ_discrete k j) [
        | yes same ↦ subst (λ k. stop (slot d i k) ≡ false) same skip
        | no ne ↦ fails j (omega arith) under
      ])
      agree

module _ (st : Inodes) (dir : Dir) (i : OpenInode)
    (found : find_inode st.open_inodes dir.inode ≡ some i) (on : OnDisk st.disk i.inode_data) where
  scan-Scanned :
      (stop : Block → Bool)
      → Reads stop
      → (fuel k : ℕ) (e : Block) → 0 < fuel
      → slots i.inode_data < fuel + k
      → (b : Bool) × (e' : Block) × (ofs : ℕ) × (scan fuel stop st dir granted e (entry_size * k)
          ≡ some (b, e', ofs))
        × Scanned st.disk i.inode_data stop k b e' ofs
  unfolding scan
  scan-Scanned stop reads zero k e pos h = absurd (omega (arith, pos))
  scan-Scanned stop reads (suc fuel) k e pos h = elim (dec_lt k (slots i.inode_data)) [
    | no over ↦
        let (e', n, run, short) = read_entry_short st dir i found on e k (omega (arith, over)) in
        (
          false,
          e',
          entry_size * k,
          rw (run, short),
          past k (omega arith) (omega (arith, over)) (λ j from below. absurd (omega (arith, over))),
        )
    | yes below ↦
        let (e', run, agree) = read_entry-slot st dir i found on e k below in
        elim (Bool-cases (stop e')) [
          | inl y ↦ (
            true,
            e',
            entry_size * k,
            rw (run, y),
            hit k (omega arith) below (sym (reads e' (slot st.disk i.inode_data k) agree) ∙ y)
                (λ j from under. absurd (omega arith)) agree,
          )
          | inr n ↦
              let (b, e2, ofs, rest, found_rest) =
                scan-Scanned stop reads fuel (suc k) e' (omega (arith, below)) (omega (arith, h)) in
              (
                b,
                e2,
                ofs,
                rw (run, n) (ap (λ o. scan fuel stop st dir granted e' o) (omega arith) ∙ rest),
                Scanned-earlier (sym (reads e' (slot st.disk i.inode_data k) agree) ∙ n) found_rest,
              )
        ]
  ]

  pub scan_all-Scanned :
      (stop : Block → Bool)
      → Reads stop
      → (k : ℕ) (e : Block)
      → (b : Bool) × (e' : Block) × (ofs : ℕ) × (scan_all stop st dir granted e (entry_size * k)
          ≡ some (b, e', ofs))
        × Scanned st.disk i.inode_data stop k b e' ofs
  unfolding scan_all
  scan_all-Scanned stop reads k e =
      let (b, e', ofs, run, s) =
        scan-Scanned stop reads (i.inode_data.length + 1) k e (omega arith) (omega arith) in
      (b, e', ofs, rw found run, s)

pub is_entry-Reads : (name : List ℕ) → length name ≤ name_max → Reads (is_entry name)
is_entry-Reads name h e e' agree = is_entry-Agree name e e' h agree

pub in_use-Reads : Reads in_use
in_use-Reads e e' agree = ap (λ c. not (c == 0)) (agree 19 (omega arith))

pub unused-Reads : Reads (λ e. not (in_use e))
unused-Reads e e' agree = ap not (in_use-Reads e e' agree)
