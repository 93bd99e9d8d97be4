-- ===== src/FreeMap/Tests.antt =====
-- Tests of the free map, and each property on a map of 40 sectors.
use tddb.Base.{ℕ, true, false, Option, none, some, [], ◌∷◌, ◌≡◌, refl, arith}
use tddb.Bitmap.{scan_and_flip, contains, test, set_bit}
use tddb.Bitmap.Bit.{IsValid}
use tddb.FreeMap.{FreeMap, free_map_allocate, keep_or_undo}
use tddb.FreeMap.Allocate.{Allocated, free_map_allocate-Allocated}

-- Sectors 0, 1 and 33 are in use.
abbrev map : FreeMap
map = record { map = record { bit_cnt = 40; bits = 3 ∷ 2 ∷ [] }; file_open = true }

map-IsValid : IsValid map.map
map-IsValid = record { room = omega arith; small = omega arith }

-- Without the file the map is not kept.
undone_write : free_map_allocate map 3 false ≡ some (none, map)
unfolding free_map_allocate keep_or_undo scan_and_flip contains test set_bit
undone_write = refl

abbrev after : FreeMap
after = record { map = record { bit_cnt = 40; bits = 31 ∷ 2 ∷ [] }; file_open = true }

takes : free_map_allocate map 3 true ≡ some (some 2, after)
unfolding free_map_allocate keep_or_undo scan_and_flip contains test set_bit
takes = refl

free_map_allocate-Allocated_example :
    (o : Option ℕ) × (f' : FreeMap) × (free_map_allocate map 3 true ≡ some (o, f'))
    × Allocated map 3 true o f'
free_map_allocate-Allocated_example = free_map_allocate-Allocated map 3 true map-IsValid
