-- ===== src/FreeMap.antt =====
-- filesys/free-map.c: the sectors in use, one bit for each. Whether the map could be written to its file is
-- a parameter, `written`. `none` is a failed ASSERT.
pub mod Allocate
mod Tests
use tddb.Base.{
  ℕ, Bool, true, false, not, ◌&&◌, Option, none, some, List, ◌==◌, if◌then◌else◌, ◌>>=◌, ◌>>◌,
  assert,
}
use tddb.Bitmap.{Bitmap, bitmap_error, create, mark, scan_and_flip, set_multiple, all}

-- `free_map`, and whether `free_map_file` is open
pub record FreeMap : Type 0 where
  pub map : Bitmap
  pub file_open : Bool

-- A disk of `size` sectors; FREE_MAP_SECTOR is 0 and ROOT_DIR_SECTOR is 1. A null bitmap panics.
unfoldable pub free_map_init : ℕ → Bool → Option (List ℕ) → Option FreeMap
free_map_init size room block = do
  made ← create size room block
  b ← made
  b1 ← mark b 0
  b2 ← mark b1 1
  some (record { map = b2; file_open = false })

-- What is left when the scan found `sector`.
unfoldable pub keep_or_undo : FreeMap → ℕ → Bool → ℕ × Bitmap → Option (Option ℕ × FreeMap)
keep_or_undo f cnt written (sector, map) =
    if sector == bitmap_error
    then some (none, record f { map = map })
    else if f.file_open && not written
    then (set_multiple map sector cnt false >>= λ map'. some (none, record f { map = map' }))
    else some (some sector, record f { map = map })

unfoldable pub free_map_allocate : FreeMap → ℕ → Bool → Option (Option ℕ × FreeMap)
free_map_allocate f cnt written = scan_and_flip f.map 0 cnt false >>= keep_or_undo f cnt written

unfoldable pub free_map_release : FreeMap → ℕ → ℕ → Option FreeMap
free_map_release f sector cnt = do
  in_use ← all f.map sector cnt
  assert in_use
  map ← set_multiple f.map sector cnt false
  some (record f { map = map })
