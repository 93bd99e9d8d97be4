-- ===== src/Strings/Blocks.antt =====
-- What the functions on blocks of memory leave in it.
use tddb.Base.{
  ℕ, zero, suc, ◌+◌, ◌-◌, ◌%◌, ◌^◌, ◌≤◌, ◌<◌, true, ◌&&◌, some, ◌==◌, ltb, leb, if◌then◌else◌, ◌⊎◌,
  inl, inr, ◌≡◌, ◌≢◌, sym, ap, ◌∙◌, arith, Bool-cases, ltb→lt, ltb-false→le, dec_lt, ℕ_discrete,
}
use tddb.Base.Members.{update}
use tddb.Strings.{
  Memory, is_block, copy_up, copy_down, memcpy, memmove, fill, memset, Sign, negative, null,
  positive, compare_up, memcmp,
}

-- The memory `m` with the `size` bytes at `src`, as they are in `m`, copied to `dst`.
abbrev pub copied : Memory → ℕ → ℕ → ℕ → Memory
copied m dst src size a = if leb dst a && ltb a (dst + size) then m (src + (a - dst)) else m a

shift : (m : Memory) (src dst a : ℕ) → dst < a → m (src + 1 + (a - (dst + 1))) ≡ m (src + (a - dst))
shift m src dst a h = ap m (omega arith)

-- The first byte is copied, then the rest: the first does not change what is still to be read.
copied-first :
    (m : Memory) (dst src n : ℕ)
    → (dst ≤ src) ⊎ (src + suc n ≤ dst)
    → (a : ℕ) → copied (update m dst (m src)) (dst + 1) (src + 1) n a ≡ copied m dst src (suc n) a
copied-first m dst src n apart a = elim (dec_lt dst a) [
  | yes h ↦ ground (arith, shift m src dst a h, unread apart h)
  | no h ↦ elim (ℕ_discrete dst a) [ yes e ↦ ground (arith, ap m (start e)) | no ne ↦ ground arith ]
]
  where
    unread :
        (dst ≤ src) ⊎ (src + suc n ≤ dst)
        → dst < a
        → a < dst + suc n
        → dst ≢ src + 1 + (a - (dst + 1))
    unread (inl o) h up = λ e. omega arith
    unread (inr o) h up = λ e. omega arith

    start : dst ≡ a → src + (a - dst) ≡ src
    start e = omega arith

copy_up-copied :
    (size : ℕ) (m : Memory) (dst src : ℕ)
    → (dst ≤ src) ⊎ (src + size ≤ dst)
    → (a : ℕ) → (copy_up m dst src size).0 a ≡ copied m dst src size a
unfolding copy_up
copy_up-copied zero m dst src apart a = ground arith
copy_up-copied (suc n) m dst src apart a =
    copy_up-copied n (update m dst (m src)) (dst + 1) (src + 1) (later apart) a
    ∙ copied-first m dst src n apart a
  where
    later : (dst ≤ src) ⊎ (src + suc n ≤ dst) → (dst + 1 ≤ src + 1) ⊎ (src + 1 + n ≤ dst + 1)
    later (inl h) = inl (omega arith)
    later (inr h) = inr (omega arith)

below : (dst src n : ℕ) → ◌≡◌ {A = ℕ × ℕ} (dst + suc n - 1, src + suc n - 1) (dst + n, src + n)
below dst src n = rw (left dst, left src)
  where
    left : (a : ℕ) → a + suc n - 1 ≡ a + n
    left a = omega arith

copied-last :
    (m : Memory) (dst src n : ℕ)
    → src ≤ dst
    → (a : ℕ) → copied (update m (dst + n) (m (src + n))) dst src n a ≡ copied m dst src (suc n) a
copied-last m dst src n h a = elim (ℕ_discrete (dst + n) a) [
  | yes e ↦ ground (arith, ap m (last e))
  | no ne ↦ ground arith
]
  where
    last : dst + n ≡ a → src + (a - dst) ≡ src + n
    last e = omega arith

copy_down-copied :
    (size : ℕ) (m : Memory) (dst src : ℕ)
    → src ≤ dst
    → (a : ℕ) → (copy_down m (dst + size) (src + size) size).0 a ≡ copied m dst src size a
unfolding copy_down
copy_down-copied zero m dst src h a = ground arith
copy_down-copied (suc n) m dst src h a =
    ap (λ k. (copy_down (update m (k.0) (m (k.1))) (k.0) (k.1) n).0 a) (below dst src n)
    ∙ copy_down-copied n (update m (dst + n) (m (src + n))) dst src h a
    ∙ copied-last m dst src n h a

copy_up-end : (size : ℕ) (m : Memory) (dst src : ℕ) → (copy_up m dst src size).1 ≡ dst + size
unfolding copy_up
copy_up-end zero m dst src = omega arith
copy_up-end (suc n) m dst src =
    copy_up-end n (update m dst (m src)) (dst + 1) (src + 1) ∙ omega arith

copy_down-end :
    (size : ℕ) (m : Memory) (dst src : ℕ) → (copy_down m (dst + size) (src + size) size).1 ≡ dst
unfolding copy_down
copy_down-end zero m dst src = omega arith
copy_down-end (suc n) m dst src =
    ap (λ k. (copy_down (update m (k.0) (m (k.1))) (k.0) (k.1) n).1) (below dst src n)
    ∙ copy_down-end n (update m (dst + n) (m (src + n))) dst src

-- `memmove` between any two blocks, however they overlap, copies what the source held before the call and
-- changes no other byte. What it returns is `dst` if `src` is not above it, and else the end of the block.
pub memmove-copied :
    (m : Memory) (dst src size : ℕ)
    → is_block dst size ≡ true
    → is_block src size ≡ true
    → (m' : Memory) × (p : ℕ) × (memmove m dst src size ≡ some (m', p))
      × ((a : ℕ) → m' a ≡ copied m dst src size a)
      × (p ≡ (if ltb dst src then dst + size else dst))
unfolding memmove
memmove-copied m dst src size bd bs = elim (Bool-cases (ltb dst src)) [
  | inl lt ↦ (
    (copy_up m dst src size).0,
    (copy_up m dst src size).1,
    rw (bd, bs, lt),
    copy_up-copied size m dst src (inl (omega (arith, ltb→lt dst src lt))),
    rw lt (copy_up-end size m dst src),
  )
  | inr ge ↦ (
    (copy_down m (dst + size) (src + size) size).0,
    (copy_down m (dst + size) (src + size) size).1,
    rw (bd, bs, ge),
    copy_down-copied size m dst src (ltb-false→le dst src ge),
    rw ge (copy_down-end size m dst src),
  )
]

-- `memcpy` between blocks that do not overlap copies the source, changes no other byte and returns `dst`.
pub memcpy-copied :
    (m : Memory) (dst src size : ℕ)
    → is_block dst size ≡ true
    → is_block src size ≡ true
    → (dst + size ≤ src) ⊎ (src + size ≤ dst)
    → (m' : Memory) × (memcpy m dst src size ≡ some (m', dst))
      × ((a : ℕ) → m' a ≡ copied m dst src size a)
unfolding memcpy
memcpy-copied m dst src size bd bs apart =
    ((copy_up m dst src size).0, rw (bd, bs), copy_up-copied size m dst src (ordered apart))
  where
    ordered : (dst + size ≤ src) ⊎ (src + size ≤ dst) → (dst ≤ src) ⊎ (src + size ≤ dst)
    ordered (inl h) = inl (omega arith)
    ordered (inr h) = inr h

pub fill-set :
    (size : ℕ) (m : Memory) (dst value a : ℕ)
    → fill m dst value size a ≡ (if leb dst a && ltb a (dst + size) then value % 2 ^ 8 else m a)
unfolding fill
fill-set zero m dst value a = ground arith
fill-set (suc n) m dst value a =
    fill-set n (update m dst (value % 2 ^ 8)) (dst + 1) value a ∙ ground arith

-- `memset` sets exactly the bytes of the block to the low byte of the value.
pub memset-set :
    (m : Memory) (dst value size : ℕ)
    → is_block dst size ≡ true
    → (m' : Memory) × (memset m dst value size ≡ some (m', dst))
      × ((a : ℕ) → m' a ≡ (if leb dst a && ltb a (dst + size) then value % 2 ^ 8 else m a))
unfolding memset
memset-set m dst value size b = (fill m dst value size, rw b, fill-set size m dst value)

-- How two blocks compare: they are equal, or the first bytes that differ decide.
pub data Compared (m : Memory) (a b size : ℕ) : Sign → Type 0 where
  equal : ((i : ℕ) → i < size → m (a + i) ≡ m (b + i)) → Compared m a b size null
  above :
      (i : ℕ)
      → i < size
      → ((j : ℕ) → j < i → m (a + j) ≡ m (b + j))
      → m (b + i) < m (a + i)
      → Compared m a b size positive
  under :
      (i : ℕ)
      → i < size
      → ((j : ℕ) → j < i → m (a + j) ≡ m (b + j))
      → m (a + i) < m (b + i)
      → Compared m a b size negative

-- The first bytes are equal, and the rest is compared.
pub Compared-later :
    {m : Memory} {a b n : ℕ} {s : Sign}
    → m a ≡ m b
    → Compared m (a + 1) (b + 1) n s
    → Compared m a b (suc n) s
Compared-later {m} {a} {b} {n} first rest = go rest
  where
    at_suc : (c i : ℕ) → m (c + suc i) ≡ m (c + 1 + i)
    at_suc c i = ap m (omega arith)

    at_zero : (c : ℕ) → m (c + 0) ≡ m c
    at_zero c = ap m (omega arith)

    before :
        (k : ℕ)
        → ((j : ℕ) → j < k → m (a + 1 + j) ≡ m (b + 1 + j))
        → (j : ℕ) → j < suc k
        → m (a + j) ≡ m (b + j)
    before k same zero up = at_zero a ∙ first ∙ sym (at_zero b)
    before k same (suc j) up = at_suc a j ∙ same j (omega arith) ∙ sym (at_suc b j)

    go : {s : Sign} → Compared m (a + 1) (b + 1) n s → Compared m a b (suc n) s
    go (equal same) = equal (before n same)
    go (above i up same lt) =
        above (suc i) (omega arith) (before i same) (rw (at_suc a i, at_suc b i) lt)
    go (under i up same lt) =
        under (suc i) (omega arith) (before i same) (rw (at_suc a i, at_suc b i) lt)

compare_up-Compared :
    (size : ℕ) (m : Memory) (a b : ℕ) → Compared m a b size (compare_up m a b size)
unfolding compare_up
compare_up-Compared zero m a b = equal (λ i h. absurd (omega arith))
compare_up-Compared (suc n) m a b = elim (Bool-cases (m a == m b)) [
  | inl e ↦ rw e (Compared-later (ground arith) (compare_up-Compared n m (a + 1) (b + 1)))
  | inr ne ↦ elim (Bool-cases (ltb (m b) (m a))) [
    | inl lt ↦
        rw (ne, lt)
          (above 0 (omega arith) (λ j h. absurd (omega arith)) (at_zero (ltb→lt (m b) (m a) lt)))
    | inr ge ↦
        rw (ne, ge) (under 0 (omega arith) (λ j h. absurd (omega arith)) (at_zero (ground arith)))
  ]
]
  where
    at_zero : {c d : ℕ} → m c < m d → m (c + 0) < m (d + 0)
    at_zero {c} {d} h = rw (ap m (plus_zero c), ap m (plus_zero d)) h
      where
        plus_zero : (c : ℕ) → c + 0 ≡ c
        plus_zero c = omega arith

-- `memcmp` returns 0 exactly on blocks with the same bytes, and otherwise the order of the first two bytes
-- that differ.
pub memcmp-Compared :
    (m : Memory) (a b size : ℕ)
    → is_block a size ≡ true
    → is_block b size ≡ true
    → (s : Sign) × (memcmp m a b size ≡ some s) × Compared m a b size s
unfolding memcmp
memcmp-Compared m a b size ba bb =
    (compare_up m a b size, rw (ba, bb), compare_up-Compared size m a b)
