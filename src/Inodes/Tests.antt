-- ===== src/Inodes/Tests.antt =====
-- Each property of the inodes on a disk of 40 sectors.
use mathlib.Core.Path.{subst}
use tddb.Base.{
  ℕ, ◌+◌, ◌≤◌, ◌<◌, ◌||◌, true, false, some, [], ◌∷◌, ◌==◌, if◌then◌else◌, ◌≡◌, refl, arith, ◌⊎◌,
  inl, inr, ℕ_discrete,
}
use tddb.Base.Bits.{bit}
use tddb.Bitmap.Bit.{at, IsValid}
use tddb.Bitmap.Range.{within}
use tddb.Inode.{bytes_to_sectors}
use tddb.Inodes.{OpenInode, Inodes, inode_close, remove_elem}
use tddb.Inodes.OpenList.{AllOpen}
use tddb.Inodes.Count.{inode_close-frees}

-- Sectors 0 to 4 and 33 are in use. The inode of sector 33 is open once and removed; it has 600 bytes at 2.
abbrev victim : OpenInode
victim = record {
  sector = 33;
  open_cnt = 1;
  removed = true;
  deny_write_cnt = 0;
  inode_data = record { start = 2; length = 600 };
}

abbrev state : Inodes
state = record {
  open_inodes = victim ∷ [];
  free_map = record { map = record { bit_cnt = 40; bits = 31 ∷ 2 ∷ [] }; file_open = true };
  disk = record { capacity = 40; addressable = omega arith; sectors = λ s b. s };
}

map-IsValid : IsValid state.free_map.map
map-IsValid = record { room = omega arith; small = omega arith }

state-AllOpen : AllOpen state.open_inodes
state-AllOpen = (omega arith, refl, tt)

inode_close-frees_example :
    (st' : Inodes) × (inode_close state (some 33) ≡ some st')
    × (st'.open_inodes ≡ remove_elem state.open_inodes 33)
    × ((j : ℕ)
        → at st'.free_map.map j ≡ (
            if (j == 33) || within 2 (bytes_to_sectors 600) j
            then false
            else at state.free_map.map j))
unfolding bit
inode_close-frees_example =
    inode_close-frees state 33 victim refl refl refl
      (record { valid = map-IsValid; below = omega arith }) refl
      (record { valid = map-IsValid; below = omega arith }) in_use refl
  where
    which : (j : ℕ) → 2 ≤ j → j < 2 + bytes_to_sectors 600 → (2 ≡ j) ⊎ (3 ≡ j)
    which j lo hi = elim (ℕ_discrete 2 j) [ yes e ↦ inl e | no ne ↦ inr (omega arith) ]

    in_use : (j : ℕ) → 2 ≤ j → j < 2 + bytes_to_sectors 600 → at state.free_map.map j ≡ true
    in_use j lo hi = elim (which j lo hi) [
      | inl e ↦ subst (λ i. at state.free_map.map i ≡ true) e refl
      | inr e ↦ subst (λ i. at state.free_map.map i ≡ true) e refl
    ]
