-- ===== src/Filesys/Tests.antt =====
-- The property of `filesys_create` on a disk of 40 sectors; sector 7 was just allocated.
use mathlib.Core.Path.{subst}
use tddb.Base.{
  ℕ, ◌+◌, ◌≤◌, ◌<◌, true, false, some, List, [], ◌∷◌, ◌==◌, if◌then◌else◌, ◌≡◌, ◌≢◌, refl, arith,
  ℕ_discrete,
}
use tddb.Base.Bits.{bit}
use tddb.Bitmap.Bit.{at, IsValid}
use tddb.Inode.{Block, bytes_to_sectors}
use tddb.Inodes.{OpenInode, Inodes}
use tddb.Directory.{Dir, granted}
use tddb.Directory.Add.{IsFileName, Holds}
use tddb.Filesys.{Outcome, create_in}
use tddb.Filesys.Create.{Leaked, create_in-Leaked}

abbrev root : OpenInode
root = record {
  sector = 1;
  open_cnt = 1;
  removed = false;
  deny_write_cnt = 0;
  inode_data = record { start = 2; length = 60 };
}

-- one entry, "a" at sector 5
abbrev entries : Block
entries b = if b == 0 then 5 else if b == 4 then 97 else if b == 19 then 1 else 0

abbrev state : Inodes
state = record {
  open_inodes = root ∷ [];
  free_map = record { map = record { bit_cnt = 40; bits = 255 ∷ 0 ∷ [] }; file_open = true };
  disk = record {
    capacity = 40;
    addressable = omega arith;
    sectors = λ s. if s == 2 then entries else λ b. 0;
  };
}

abbrev outcome : Outcome
outcome = record {
  open_room = true;
  dir_room = true;
  create_room = true;
  bounce = granted;
  slot_bounce = granted;
  write_bounce = true;
  file_room = true;
  written = true;
  entry = λ b. 0;
}

abbrev dir : Dir
dir = record { inode = 1; pos = 0 }

abbrev name : List ℕ
name = 97 ∷ []

name-IsFileName : IsFileName name
name-IsFileName = record { some_char = omega arith; fits = omega arith; chars = (omega arith, tt) }

name-Holds : Holds state.disk root.inode_data name 5
name-Holds = (0, omega arith, refl, refl)

map-IsValid : IsValid state.free_map.map
map-IsValid = record { room = omega arith; small = omega arith }

create_in-Leaked_example :
    (st' : Inodes) × (create_in state outcome dir name 600 (some 7, state.free_map)
      ≡ some (false, st'))
    × Leaked state.free_map st'.free_map 7 (bytes_to_sectors 600)
unfolding bit
create_in-Leaked_example =
    create_in-Leaked state outcome dir root name 600 7 5 refl (omega arith) refl name-IsFileName
      name-Holds map-IsValid refl (omega arith) refl (omega arith) (omega arith) used refl refl refl
      refl refl 8 (omega arith) free_run refl
  where
    used : (j : ℕ) → 2 ≤ j → j < 2 + bytes_to_sectors 60 → at state.free_map.map j ≡ true
    used j lo hi = subst (λ i. at state.free_map.map i ≡ true) (two j lo hi) refl
      where
        two : (j : ℕ) → 2 ≤ j → j < 2 + bytes_to_sectors 60 → 2 ≡ j
        two j lo hi = omega arith

    free_run : (j : ℕ) → 8 ≤ j → j < 8 + bytes_to_sectors 600 → at state.free_map.map j ≡ false
    free_run j lo hi = elim (ℕ_discrete 8 j) [
      | yes e ↦ subst (λ i. at state.free_map.map i ≡ false) e refl
      | no ne ↦ subst (λ i. at state.free_map.map i ≡ false) (nine j lo hi ne) refl
    ]
      where
        nine : (j : ℕ) → 8 ≤ j → j < 8 + bytes_to_sectors 600 → 8 ≢ j → 9 ≡ j
        nine j lo hi ne = omega arith
