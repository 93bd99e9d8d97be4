-- ===== src/Strings/Tests.antt =====
-- Tests of the string functions, and each property on a small memory.
use tddb.Base.{ℕ, ◌+◌, some, ◌==◌, ltb, if◌then◌else◌, ◌≡◌, refl, arith}
use tddb.Strings.{Memory, memmove, strlen, end_from}
use tddb.Strings.Blocks.{copied, memmove-copied}
use tddb.Strings.Search.{strchr, chr_from, strcspn, cspn_from, strspn, spn_from, strpbrk}
use tddb.Strings.Ends.{IsString}

-- The string "Hi" stands at 100, and zeros everywhere else.
abbrev memory : Memory
memory a = if a == 100 then 72 else if a == 101 then 105 else 0

memory-IsString : IsString memory 100 2
memory-IsString = record { inside = λ i h e. ground arith; ended = refl }

strlen_runs : strlen 5 memory 100 ≡ some 2
unfolding strlen end_from
strlen_runs = refl

memmove-copied_example :
    (m' : Memory) × (p : ℕ) × (memmove memory 99 100 2 ≡ some (m', p))
    × ((a : ℕ) → m' a ≡ copied memory 99 100 2 a)
    × (p ≡ (if ltb 99 100 then 99 + 2 else 99))
memmove-copied_example = memmove-copied memory 99 100 2 refl refl

-- "i" stands at 101, behind the "H".
strcspn_stops : strcspn 4 4 memory 100 101 ≡ some 1
unfolding strcspn cspn_from strchr chr_from
strcspn_stops = refl

strspn_stops : strspn 4 4 memory 100 101 ≡ some 0
unfolding strspn spn_from strchr chr_from
strspn_stops = refl

strpbrk_finds : strpbrk 4 4 memory 100 101 ≡ some (some 101)
unfolding strpbrk strchr chr_from
strpbrk_finds = refl
