-- ===== src/Strings/Ends.antt =====
-- Strings: where they end, and what a bounded copy leaves.
use tddb.Base.{
  ℕ, zero, suc, ◌+◌, ◌-◌, ◌≤◌, ◌<◌, some, ◌==◌, ltb, min, if◌then◌else◌, ◌⊎◌, inl, inr, ◌≡◌, ◌≢◌,
  sym, ap, ◌∙◌, arith, ==_ne,
}
use tddb.Base.Members.{update}
use tddb.Strings.{Memory, end_from, strlen, copy_terminated, strlcpy}
use tddb.Strings.Blocks.{copied, memcpy-copied}

-- A string of `n` bytes stands at `p`, with its terminator behind it.
pub record IsString (m : Memory) (p n : ℕ) : Type 0 where
  pub inside : (i : ℕ) → i < n → m (p + i) ≢ 0
  pub ended : m (p + n) ≡ 0

pub IsString-rest : {m : Memory} {p n : ℕ} → IsString m p (suc n) → IsString m (p + 1) n
IsString-rest {m} {p} {n} s = record {
  inside = λ i h e. s.inside (suc i) (omega arith) (ap m (along i) ∙ e);
  ended = ap m (sym (along n)) ∙ s.ended;
}
  where
    along : (i : ℕ) → p + suc i ≡ p + 1 + i
    along i = omega arith

end_from-IsString :
    (fuel n : ℕ) (m : Memory) (p : ℕ) → IsString m p n → n < fuel → end_from fuel m p ≡ some (p + n)
unfolding end_from
end_from-IsString zero n m p s h = absurd (omega arith)
end_from-IsString (suc fuel) zero m p s h = rw (ap m (start p) ∙ s.ended) (ap some (start p))
  where
    start : (p : ℕ) → p ≡ p + 0
    start p = omega arith
end_from-IsString (suc fuel) (suc n) m p s h =
    rw (==_ne (m p) 0 (λ e. s.inside 0 (omega arith) (ap m (start p) ∙ e)))
      (end_from-IsString fuel n m (p + 1) (IsString-rest s) (omega arith) ∙ ap some (omega arith))
  where
    start : (p : ℕ) → p + 0 ≡ p
    start p = omega arith

-- `strlen` of a string returns its length, with any fuel above it.
pub strlen-IsString :
    (fuel n : ℕ) (m : Memory) (p : ℕ) → p ≢ 0 → IsString m p n → n < fuel → strlen fuel m p ≡ some n
unfolding strlen
strlen-IsString fuel n m p ne s h =
    rw (==_ne p 0 ne, end_from-IsString fuel n m p s h) (ap some (omega arith))

copy_terminated-copied :
    (m : Memory) (dst src len : ℕ)
    → dst ≢ 0
    → src ≢ 0
    → (dst + len ≤ src) ⊎ (src + len ≤ dst)
    → (m' : Memory) × (copy_terminated m dst src len ≡ some m')
      × ((a : ℕ) → m' a ≡ (if dst + len == a then 0 else copied m dst src len a))
unfolding copy_terminated
copy_terminated-copied m dst src len nd ns apart =
    let (m1, run, bytes) =
      memcpy-copied m dst src len (rw (==_ne dst 0 nd)) (rw (==_ne src 0 ns)) apart in
    (update m1 (dst + len) 0, rw run, λ a. ground (arith, bytes a))

-- What is left in the buffer, for a cut at any length
cut-IsString :
    {n : ℕ} (len : ℕ) (m : Memory) (dst src size : ℕ)
    → dst ≢ 0
    → src ≢ 0
    → IsString m src n
    → len ≤ n
    → len < size
    → (dst + size ≤ src) ⊎ (src + suc n ≤ dst)
    → (m' : Memory) × (copy_terminated m dst src len ≡ some m')
      × IsString m' dst len
      × ((i : ℕ) → i < len → m' (dst + i) ≡ m (src + i))
      × ((a : ℕ) → (a < dst) ⊎ (dst + size ≤ a) → m' a ≡ m a)
cut-IsString {n} len m dst src size nd ns s short fits apart =
    let (m', run, bytes) = copy_terminated-copied m dst src len nd ns (closer apart) in
    let same : (i : ℕ) → i < len → m' (dst + i) ≡ m (src + i) =
      λ i up. bytes (dst + i) ∙ ground (arith, ap m (back i)) in
    (
      m',
      run,
      record {
        inside = λ i up e. s.inside i (omega arith) (sym (same i up) ∙ e);
        ended = bytes (dst + len) ∙ ground arith;
      },
      same,
      λ a out. bytes a ∙ elim out [ inl l ↦ ground arith | inr l ↦ ground arith ],
    )
  where
    closer : (dst + size ≤ src) ⊎ (src + suc n ≤ dst) → (dst + len ≤ src) ⊎ (src + len ≤ dst)
    closer (inl h) = inl (omega arith)
    closer (inr h) = inr (omega arith)

    back : (i : ℕ) → src + (dst + i - dst) ≡ src + i
    back i = omega arith

strlcpy_run :
    {m' : Memory} (fuel n : ℕ) (m : Memory) (dst src size : ℕ)
    → dst ≢ 0
    → src ≢ 0
    → 0 < size
    → strlen fuel m src ≡ some n
    → copy_terminated m dst src (min n (size - 1)) ≡ some m'
    → strlcpy fuel m dst src size ≡ some (m', n)
unfolding strlcpy
strlcpy_run fuel n m dst src size nd ns pos len run =
    rw (==_ne dst 0 nd, ==_ne src 0 ns, len, ==_ne size 0 (omega arith), least n (size - 1), run)
  where
    least : (a b : ℕ) → (if ltb a b then a else b) ≡ min a b
    least a b = ground arith

-- `strlcpy` to a buffer of `size > 0` bytes that does not overlap the source returns the length of the source,
-- leaves a string of this length cut to `size - 1` in the buffer, with the bytes of the source, and
-- changes no byte outside the buffer.
pub strlcpy-IsString :
    (fuel n : ℕ) (m : Memory) (dst src size : ℕ)
    → dst ≢ 0
    → src ≢ 0
    → IsString m src n
    → n < fuel
    → 0 < size
    → (dst + size ≤ src) ⊎ (src + suc n ≤ dst)
    → (m' : Memory) × (strlcpy fuel m dst src size ≡ some (m', n))
      × IsString m' dst (min n (size - 1))
      × ((i : ℕ) → i < min n (size - 1) → m' (dst + i) ≡ m (src + i))
      × ((a : ℕ) → (a < dst) ⊎ (dst + size ≤ a) → m' a ≡ m a)
strlcpy-IsString fuel n m dst src size nd ns s h pos apart =
    let (m', run, string, same, out) =
      cut-IsString (min n (size - 1)) m dst src size nd ns s (omega arith) (omega arith) apart in
    (
      m',
      strlcpy_run fuel n m dst src size nd ns pos (strlen-IsString fuel n m src ns s h) run,
      string,
      same,
      out,
    )
