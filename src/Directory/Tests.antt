-- ===== src/Directory/Tests.antt =====
-- Each property of the directories on a disk of 40 sectors.
use mathlib.Core.Path.{subst}
use tddb.Base.{
  ℕ, ◌<◌, Bool, true, false, Option, none, some, List, [], ◌∷◌, ◌==◌, if◌then◌else◌, ◌≡◌, ◌≢◌, ◌⊎◌,
  refl, sym, ◌∙◌, arith, ℕ_discrete,
}
use tddb.Inode.{
  Block, inode_read_at, read_from, read_chunk, inode_write_at, write_from, write_chunk, disk_read,
  disk_write,
}
use tddb.Inodes.{OpenInode, Inodes, find_inode, inode_open}
use tddb.Directory.{
  granted, Dir, inode_sector, in_use, is_entry, dir_add, dir_lookup, dir_remove, lookup, scan_all,
  scan, read_entry, add_at, write_entry,
}
use tddb.Directory.Slots.{slot}
use tddb.Directory.Add.{IsFileName, Holds, Missing, Single, Added}
use tddb.Directory.Map.{dir_add-Added, dir_lookup-Holds}
use tddb.Directory.Remove.{Removed, dir_remove-Removed}

-- A directory of three entries at sector 2, of which the first one is "a" at sector 5; both are open.
abbrev root : OpenInode
root = record {
  sector = 1;
  open_cnt = 1;
  removed = false;
  deny_write_cnt = 0;
  inode_data = record { start = 2; length = 60 };
}

abbrev file : OpenInode
file = record {
  sector = 5;
  open_cnt = 1;
  removed = false;
  deny_write_cnt = 0;
  inode_data = record { start = 6; length = 600 };
}

abbrev entries : Block
entries b = if b == 0 then 5 else if b == 4 then 97 else if b == 19 then 1 else 0

abbrev state : Inodes
state = record {
  open_inodes = root ∷ file ∷ [];
  free_map = record { map = record { bit_cnt = 40; bits = 255 ∷ 0 ∷ [] }; file_open = true };
  disk = record {
    capacity = 40;
    addressable = omega arith;
    sectors = λ s. if s == 2 then entries else λ b. 0;
  };
}

abbrev dir : Dir
dir = record { inode = 1; pos = 0 }

abbrev zeros : Block
zeros b = 0

abbrev name_a : List ℕ
name_a = 97 ∷ []

abbrev name_b : List ℕ
name_b = 98 ∷ 98 ∷ []

name_a-IsFileName : IsFileName name_a
name_a-IsFileName = record {
  some_char = omega arith;
  fits = omega arith;
  chars = (omega arith, tt);
}

name_b-IsFileName : IsFileName name_b
name_b-IsFileName = record {
  some_char = omega arith;
  fits = omega arith;
  chars = (omega arith, (omega arith, tt));
}

first_only :
    (name : List ℕ) (k : ℕ)
    → k < 3
    → is_entry name (slot state.disk root.inode_data k) ≡ true
    → k ≡ 0
first_only name k h e = elim (ℕ_discrete k 0) [
  | yes same ↦ same
  | no ne ↦ elim (ℕ_discrete k 1) [
    | yes same ↦
        absurd (
          used 1 refl
            (subst (λ k. is_entry name (slot state.disk root.inode_data k) ≡ true) same e))
    | no ne2 ↦
        let same : k ≡ 2 = omega arith in
        absurd (
          used 2 refl
            (subst (λ k. is_entry name (slot state.disk root.inode_data k) ≡ true) same e))
  ]
]
  where
    used :
        (k : ℕ)
        → in_use (slot state.disk root.inode_data k) ≡ false
        → is_entry name (slot state.disk root.inode_data k) ≢ true
    used k f t = ground arith

state-Single : Single state.disk root.inode_data
state-Single name j k ok hj hk ej ek = first_only name j hj ej ∙ sym (first_only name k hk ek)

dir_add-Added_example :
    (b : Bool) × (st' : Inodes) × (dir_add state dir granted granted true zeros name_b 9
      ≡ some (b, st'))
    × Added state root.inode_data name_b 9 b st'
dir_add-Added_example =
    dir_add-Added state dir root zeros name_b 9 refl (omega arith) refl name_b-IsFileName
      (omega arith)

dir_lookup-Holds_example :
    ((s : ℕ) × (dir_lookup state dir granted true zeros name_a ≡ inode_open state s true)
      × Holds state.disk root.inode_data name_a s)
    ⊎ ((dir_lookup state dir granted true zeros name_a ≡ some (none, state))
        × Missing state.disk root.inode_data name_a)
dir_lookup-Holds_example =
    dir_lookup-Holds state dir root true zeros name_a refl (omega arith) (omega arith)

dir_remove-Removed_example :
    (b : Bool) × (st' : Inodes) × (dir_remove state dir granted true true zeros name_a
      ≡ some (b, st'))
    × Removed state root.inode_data name_a b st'
dir_remove-Removed_example =
    dir_remove-Removed state dir root true zeros name_a refl (omega arith) refl
      (omega arith, refl, (omega arith, refl, tt)) state-Single name_a-IsFileName elsewhere
  where
    elsewhere :
        (s : ℕ)
        → Holds state.disk root.inode_data name_a s
        → (s ≢ 1) × ((file : OpenInode) × (find_inode state.open_inodes s ≡ some file))
    elsewhere s (k, below, match, sec) =
        let five : 5 ≡ s =
          subst (λ k. 5 ≡ inode_sector (slot state.disk root.inode_data k))
            (sym (first_only name_a k below match)) refl
          ∙ sec in
        subst (λ s. (s ≢ 1) × ((file : OpenInode) × (find_inode state.open_inodes s ≡ some file)))
          five (omega arith, (file, refl))

-- No memory for the reads, but for the write: the name is added over the entry of "a".
abbrev starved : ℕ → Bool
starved ofs = false

-- the result, and which of "a" and "bb" the first slot holds then
abbrev first_slot : Option (Bool × Inodes) → List Bool
first_slot none = []
first_slot (some (b, st)) =
    b
    ∷ is_entry name_a (slot st.disk root.inode_data 0)
    ∷ is_entry name_b (slot st.disk root.inode_data 0)
    ∷ []

overwritten :
    first_slot (dir_add state dir starved starved true zeros name_b 9) ≡ true ∷ false ∷ true ∷ []
unfolding dir_add lookup scan_all scan read_entry add_at write_entry inode_read_at read_from
    read_chunk inode_write_at write_from write_chunk disk_read disk_write
overwritten = refl
