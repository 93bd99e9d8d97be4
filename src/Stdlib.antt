-- ===== src/Stdlib.antt =====
-- lib/stdlib.c and lib/ctype.h: `atoi`. A string is the list of its character codes, without the null byte; an int is
-- its 32-bit word.
use tddb.Base.{ℕ, ◌+◌, ◌-◌, ◌*◌, ◌%◌, Bool, ◌&&◌, ◌||◌, List, [], ◌∷◌, ◌==◌, leb, if◌then◌else◌}

abbrev pub isspace : ℕ → Bool
isspace c = (c == 32) || (leb 9 c && leb c 13)

abbrev pub isdigit : ℕ → Bool
isdigit c = leb 48 c && leb c 57

-- The loop that skips white space
abbrev pub skip_space : List ℕ → List ℕ
skip_space [] = []
skip_space (c ∷ s) = if isspace c then skip_space s else c ∷ s

-- The loop over the digits; `value` is the negated value, as in the source.
abbrev pub atoi_from : ℕ → List ℕ → ℕ
atoi_from value [] = value
atoi_from value (c ∷ s) =
    let rest = atoi_from ((value * 10 + 4294967296 - (c - 48)) % 4294967296) s in
    if isdigit c then rest else value

abbrev pub positive : ℕ → ℕ
positive value = (4294967296 - value) % 4294967296

-- `atoi` behind the white space
abbrev pub atoi_signed : List ℕ → ℕ
atoi_signed [] = 0
atoi_signed (c ∷ s) =
    if c == 43
    then positive (atoi_from 0 s)
    else if c == 45
    then atoi_from 0 s
    else positive (atoi_from 0 (c ∷ s))

unfoldable pub atoi : List ℕ → ℕ
atoi s = atoi_signed (skip_space s)
