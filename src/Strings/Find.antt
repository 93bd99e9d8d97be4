-- ===== src/Strings/Find.antt =====
-- What the searches find.
use mathlib.Core.Path.{subst}
use tddb.Base.{
  ℕ, zero, suc, ◌+◌, ◌%◌, ◌^◌, ◌≤◌, ◌<◌, true, false, not, ◌&&◌, Option, none, some, ◌==◌, ltb, min,
  if◌then◌else◌, inl, inr, ◌≡◌, ◌≢◌, sym, ap, ◌∙◌, arith, Bool-cases, ==_ne, ltb→lt, ℕ_discrete,
}
use tddb.Strings.{Memory, is_block, Sign, negative, null, positive}
use tddb.Strings.Blocks.{Compared, equal, above, under, Compared-later}
use tddb.Strings.Ends.{IsString, IsString-rest}
use tddb.Strings.Search.{find_up, memchr, chr_from, strchr, cmp_from, strcmp, nlen_from, strnlen}

-- The first of `size` bytes from `p` on that is `c`, if there is one.
pub data FirstByte (m : Memory) (p size c : ℕ) : Option ℕ → Type 0 where
  at_byte :
      (i : ℕ)
      → i < size
      → m (p + i) ≡ c
      → ((j : ℕ) → j < i → m (p + j) ≢ c)
      → FirstByte m p size c (some (p + i))
  nowhere : ((j : ℕ) → j < size → m (p + j) ≢ c) → FirstByte m p size c none

module _ (m : Memory) (p c : ℕ) where
  plus_zero : m (p + 0) ≡ m p
  plus_zero = ap m (omega arith)

  after : (j : ℕ) → m (p + suc j) ≡ m (p + 1 + j)
  after j = ap m (omega arith)

  FirstByte-here : (n : ℕ) → m p ≡ c → FirstByte m p (suc n) c (some p)
  FirstByte-here n e =
      subst (λ q. FirstByte m p (suc n) c (some q)) start
        (at_byte 0 (omega arith) (plus_zero ∙ e) (λ j h. absurd (omega arith)))
    where
      start : p + 0 ≡ p
      start = omega arith

  misses :
      (k : ℕ)
      → m p ≢ c
      → ((j : ℕ) → j < k → m (p + 1 + j) ≢ c)
      → (j : ℕ) → j < suc k
      → m (p + j) ≢ c
  misses k ne none_later zero h e = ne (sym plus_zero ∙ e)
  misses k ne none_later (suc j) h e = none_later j (omega arith) (sym (after j) ∙ e)

  FirstByte-later :
      {n : ℕ} {r : Option ℕ} → m p ≢ c → FirstByte m (p + 1) n c r → FirstByte m p (suc n) c r
  FirstByte-later {n} ne (at_byte i up is before) =
      subst (λ q. FirstByte m p (suc n) c (some q)) moved
        (at_byte (suc i) (omega arith) (after i ∙ is) (misses i ne before))
    where
      moved : p + suc i ≡ p + 1 + i
      moved = omega arith
  FirstByte-later {n} ne (nowhere out) = nowhere (misses n ne out)

find_up-FirstByte : (size : ℕ) (m : Memory) (p c : ℕ) → FirstByte m p size c (find_up m p c size)
unfolding find_up
find_up-FirstByte zero m p c = nowhere (λ j h. absurd (omega arith))
find_up-FirstByte (suc n) m p c = elim (Bool-cases (m p == c)) [
  | inl e ↦ rw e (FirstByte-here m p c n (ground arith))
  | inr ne ↦ rw ne (FirstByte-later m p c (ground arith) (find_up-FirstByte n m (p + 1) c))
]

-- `memchr` returns the first byte of the block that is the low byte of `ch`, and null exactly if none is.
pub memchr-FirstByte :
    (m : Memory) (block ch size : ℕ)
    → is_block block size ≡ true
    → (r : Option ℕ) × (memchr m block ch size ≡ some r) × FirstByte m block size (ch % 2 ^ 8) r
unfolding memchr
memchr-FirstByte m block ch size b =
    (find_up m block (ch % 2 ^ 8) size, rw b, find_up-FirstByte size m block (ch % 2 ^ 8))

is_zero : (x : ℕ) → x ≡ 0 → (x == 0) ≡ true
is_zero x e = ground arith

chr_from-FirstByte :
    (fuel n : ℕ) (m : Memory) (p c : ℕ)
    → IsString m p n
    → n < fuel
    → (r : Option ℕ) × (chr_from fuel m p c ≡ some r) × FirstByte m p (suc n) c r
unfolding chr_from
chr_from-FirstByte zero n m p c s h = absurd (omega arith)
chr_from-FirstByte (suc fuel) zero m p c s h =
    let z : m p ≡ 0 = sym (plus_zero m p c) ∙ s.ended in
    elim (Bool-cases (m p == c)) [
      | inl e ↦ (some p, rw e, FirstByte-here m p c 0 (ground arith))
      | inr ne ↦ (
        none,
        rw (ne, is_zero (m p) z),
        nowhere (misses m p c 0 (ground arith) (λ j l. absurd (omega arith))),
      )
    ]
chr_from-FirstByte (suc fuel) (suc n) m p c s h =
    let nz : m p ≢ 0 = λ e. s.inside 0 (omega arith) (plus_zero m p c ∙ e) in
    let (r, run, first) = chr_from-FirstByte fuel n m (p + 1) c (IsString-rest s) (omega arith) in
    elim (Bool-cases (m p == c)) [
      | inl e ↦ (some p, rw e, FirstByte-here m p c (suc n) (ground arith))
      | inr ne ↦ (r, rw (ne, ==_ne (m p) 0 nz) run, FirstByte-later m p c (ground arith) first)
    ]

-- `strchr` in a string returns the first byte that is the low byte of `c`, the terminator included, and null
-- exactly if there is none, with any fuel above the length.
pub strchr-FirstByte :
    (fuel n : ℕ) (m : Memory) (p c : ℕ)
    → p ≢ 0
    → IsString m p n
    → n < fuel
    → (r : Option ℕ) × (strchr fuel m p c ≡ some r) × FirstByte m p (suc n) (c % 2 ^ 8) r
unfolding strchr
strchr-FirstByte fuel n m p c ne s h =
    rw (==_ne p 0 ne) (chr_from-FirstByte fuel n m p (c % 2 ^ 8) s h)

-- the result of `strcmp` at the byte where its loop stops
abbrev order : ℕ → ℕ → Sign
order x y = if ltb x y then negative else if ltb y x then positive else null

order-Compared : (m : Memory) (a b l : ℕ) → m a ≢ m b → Compared m a b (suc l) (order (m a) (m b))
order-Compared m a b l ne = elim (Bool-cases (ltb (m a) (m b))) [
  | inl lt ↦
      rw lt (under 0 (omega arith) (λ j h. absurd (omega arith)) (first (ltb→lt (m a) (m b) lt)))
  | inr ge ↦
      rw (ge, above_it ge)
        (above 0 (omega arith) (λ j h. absurd (omega arith))
          (first (ltb→lt (m b) (m a) (above_it ge))))
]
  where
    above_it : ltb (m a) (m b) ≡ false → ltb (m b) (m a) ≡ true
    above_it ge = ground arith

    first : {c d : ℕ} → m c < m d → m (c + 0) < m (d + 0)
    first {c} {d} h = rw (plus_zero m c 0, plus_zero m d 0) h

ends_here : (m : Memory) (a b : ℕ) → m a ≡ m b → Compared m a b 1 (order (m a) (m b))
ends_here m a b e =
    rw (e, neither (m b))
      (equal (λ i h. ap m (zero_index a i h) ∙ e ∙ sym (ap m (zero_index b i h))))
  where
    neither : (x : ℕ) → ltb x x ≡ false
    neither x = ground arith

    zero_index : (c i : ℕ) → i < 1 → c + i ≡ c
    zero_index c i h = omega arith

cmp_stop :
    (fuel : ℕ) (m : Memory) (a b : ℕ)
    → (not (m a == 0) && (m a == m b)) ≡ false
    → cmp_from (suc fuel) m a b ≡ some (order (m a) (m b))
unfolding cmp_from
cmp_stop fuel m a b e = rw e

cmp_go :
    {s : Sign} (fuel : ℕ) (m : Memory) (a b : ℕ)
    → (not (m a == 0) && (m a == m b)) ≡ true
    → cmp_from fuel m (a + 1) (b + 1) ≡ some s
    → cmp_from (suc fuel) m a b ≡ some s
unfolding cmp_from
cmp_go fuel m a b e run = rw e run

cmp_from-Compared :
    (fuel n k : ℕ) (m : Memory) (a b : ℕ)
    → IsString m a n
    → IsString m b k
    → min n k < fuel
    → (s : Sign) × (cmp_from fuel m a b ≡ some s) × Compared m a b (suc (min n k)) s
cmp_from-Compared zero n k m a b sa sb h = absurd (omega arith)
cmp_from-Compared (suc fuel) zero k m a b sa sb h =
    let z : m a ≡ 0 = sym (plus_zero m a 0) ∙ sa.ended in
    elim (ℕ_discrete (m a) (m b)) [
      | yes e ↦ (
        order (m a) (m b),
        cmp_stop fuel m a b (ground arith),
        subst (λ l. Compared m a b (suc l) (order (m a) (m b))) (omega arith) (ends_here m a b e),
      )
      | no ne ↦
          (order (m a) (m b), cmp_stop fuel m a b (ground arith), order-Compared m a b (min 0 k) ne)
    ]
cmp_from-Compared (suc fuel) (suc n) zero m a b sa sb h =
    let z : m b ≡ 0 = sym (plus_zero m b 0) ∙ sb.ended in
    let ne : m a ≢ m b = λ e. sa.inside 0 (omega arith) (plus_zero m a 0 ∙ e ∙ z) in
    (order (m a) (m b), cmp_stop fuel m a b (ground arith), order-Compared m a b (min (suc n) 0) ne)
cmp_from-Compared (suc fuel) (suc n) (suc k) m a b sa sb h =
    let nz : m a ≢ 0 = λ e. sa.inside 0 (omega arith) (plus_zero m a 0 ∙ e) in
    let (s, run, rest) =
      cmp_from-Compared fuel n k m (a + 1) (b + 1) (IsString-rest sa) (IsString-rest sb)
        (omega arith) in
    elim (ℕ_discrete (m a) (m b)) [
      | yes e ↦ (
        s,
        cmp_go fuel m a b (ground arith) run,
        subst (λ l. Compared m a b l s) (omega arith) (Compared-later e rest),
      )
      | no ne ↦ (
        order (m a) (m b),
        cmp_stop fuel m a b (ground arith),
        order-Compared m a b (min (suc n) (suc k)) ne,
      )
    ]

-- `strcmp` of two strings compares them up to and with the first terminator: it is 0 exactly on equal strings,
-- and otherwise the order of the first two bytes that differ, with any fuel above the shorter length.
pub strcmp-Compared :
    (fuel n k : ℕ) (m : Memory) (a b : ℕ)
    → a ≢ 0
    → b ≢ 0
    → IsString m a n
    → IsString m b k
    → min n k < fuel
    → (s : Sign) × (strcmp fuel m a b ≡ some s) × Compared m a b (suc (min n k)) s
unfolding strcmp
strcmp-Compared fuel n k m a b na nb sa sb h =
    rw (==_ne a 0 na, ==_ne b 0 nb) (cmp_from-Compared fuel n k m a b sa sb h)

nlen_from-IsString :
    (rounds n : ℕ) (m : Memory) (p length : ℕ)
    → IsString m p n
    → length ≤ n
    → nlen_from m p length rounds ≡ min n (length + rounds)
unfolding nlen_from
nlen_from-IsString zero n m p length s h = omega arith
nlen_from-IsString (suc r) n m p length s h = elim (ℕ_discrete length n) [
  | yes e ↦ rw (is_zero (m (p + length)) (ap (λ i. m (p + i)) e ∙ s.ended)) (omega arith)
  | no ne ↦
      rw (==_ne (m (p + length)) 0 (s.inside length (omega arith)))
        (nlen_from-IsString r n m p (length + 1) s (omega arith) ∙ omega arith)
]

-- `strnlen` returns the length of the string or `maxlen`, whichever is less.
pub strnlen-IsString :
    (n : ℕ) (m : Memory) (p maxlen : ℕ) → IsString m p n → strnlen m p maxlen ≡ min n maxlen
unfolding strnlen
strnlen-IsString n m p maxlen s = nlen_from-IsString maxlen n m p 0 s (omega arith) ∙ omega arith
