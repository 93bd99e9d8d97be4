-- ===== src/Strings/Search.antt =====
-- lib/string.c: searches in blocks and strings, and the comparison of strings. A pointer that may be null
-- is an `Option`; the outer `none` is a failed ASSERT, or a loop that ran out of fuel. `fuel` bounds the
-- loop of a function and `limit` the loops of `strchr` inside it.
use tddb.Base.{
  ℕ, zero, suc, ◌+◌, ◌%◌, ◌^◌, Bool, true, false, not, ◌&&◌, Option, none, some, ◌==◌, ltb,
  if◌then◌else◌, ◌>>=◌, ◌>>◌, assert,
}
use tddb.Strings.{Memory, is_block, Sign, negative, null, positive}

-- `for (; size-- > 0; block++)`
unfoldable pub find_up : Memory → ℕ → ℕ → ℕ → Option ℕ
find_up m p ch zero = none
find_up m p ch (suc size) =
    let rest = find_up m (p + 1) ch size in if m p == ch then some p else rest

unfoldable pub memchr : Memory → ℕ → ℕ → ℕ → Option (Option ℕ)
memchr m block ch size = do assert (is_block block size); some (find_up m block (ch % 2 ^ 8) size)

-- the loop of `strchr` from `p` on
unfoldable pub chr_from : ℕ → Memory → ℕ → ℕ → Option (Option ℕ)
chr_from zero m p c = none
chr_from (suc fuel) m p c =
    let rest = chr_from fuel m (p + 1) c in
    if m p == c then some (some p) else if m p == 0 then some none else rest

unfoldable pub strchr : ℕ → Memory → ℕ → ℕ → Option (Option ℕ)
strchr fuel m string c = do assert (not (string == 0)); chr_from fuel m string (c % 2 ^ 8)

abbrev pub is_null : Option ℕ → Bool
is_null none = true
is_null (some p) = false

-- the loop of `strcspn` from `length` on
unfoldable pub cspn_from : ℕ → ℕ → Memory → ℕ → ℕ → ℕ → Option ℕ
cspn_from zero limit m string stop length = none
cspn_from (suc fuel) limit m string stop length =
    let rest = cspn_from fuel limit m string stop (length + 1) in
    if m (string + length) == 0
    then some length
    else (strchr limit m stop (m (string + length)) >>= λ r.
        if not (is_null r) then some length else rest)

unfoldable pub strcspn : ℕ → ℕ → Memory → ℕ → ℕ → Option ℕ
strcspn fuel limit m string stop = cspn_from fuel limit m string stop 0

-- the loop of `strspn` from `length` on
unfoldable pub spn_from : ℕ → ℕ → Memory → ℕ → ℕ → ℕ → Option ℕ
spn_from zero limit m string skip length = none
spn_from (suc fuel) limit m string skip length =
    let rest = spn_from fuel limit m string skip (length + 1) in
    if m (string + length) == 0
    then some length
    else (strchr limit m skip (m (string + length)) >>= λ r.
        if is_null r then some length else rest)

unfoldable pub strspn : ℕ → ℕ → Memory → ℕ → ℕ → Option ℕ
strspn fuel limit m string skip = spn_from fuel limit m string skip 0

unfoldable pub strpbrk : ℕ → ℕ → Memory → ℕ → ℕ → Option (Option ℕ)
strpbrk zero limit m string stop = none
strpbrk (suc fuel) limit m string stop =
    let rest = strpbrk fuel limit m (string + 1) stop in
    if m string == 0
    then some none
    else (strchr limit m stop (m string) >>= λ r.
        if not (is_null r) then some (some string) else rest)

-- the loop of `strcmp`
unfoldable pub cmp_from : ℕ → Memory → ℕ → ℕ → Option Sign
cmp_from zero m a b = none
cmp_from (suc fuel) m a b =
    let rest = cmp_from fuel m (a + 1) (b + 1) in
    if not (m a == 0) && (m a == m b)
    then rest
    else some (if ltb (m a) (m b) then negative else if ltb (m b) (m a) then positive else null)

unfoldable pub strcmp : ℕ → Memory → ℕ → ℕ → Option Sign
strcmp fuel m a b = do assert (not (a == 0)); assert (not (b == 0)); cmp_from fuel m a b

-- the loop of `strnlen` from `length` on; `n` rounds are left before `maxlen`
unfoldable pub nlen_from : Memory → ℕ → ℕ → ℕ → ℕ
nlen_from m string length zero = length
nlen_from m string length (suc n) =
    let rest = nlen_from m string (length + 1) n in
    if m (string + length) == 0 then length else rest

unfoldable pub strnlen : Memory → ℕ → ℕ → ℕ
strnlen m string maxlen = nlen_from m string 0 maxlen
