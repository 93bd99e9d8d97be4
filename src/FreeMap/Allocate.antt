-- ===== src/FreeMap/Allocate.antt =====
-- Allocation and release of runs of sectors.
use tddb.Base.{
  ℕ, ◌+◌, ◌≤◌, ◌<◌, Bool, true, false, not, ◌&&◌, Option, none, some, ◌≡◌, refl, sym, ap, ◌∙◌,
  arith, Bool-cases, inl, inr, ==_ne,
}
use tddb.Bitmap.{Bitmap, bitmap_error}
use tddb.Bitmap.Bit.{at, IsValid}
use tddb.Bitmap.Range.{Fits, Fills, Fills-IsValid, Search, hit, miss, set_multiple-Fills, within}
use tddb.Bitmap.Create.{any_none_all}
use tddb.Bitmap.Scan.{Run, First, found, absent, Claimed, full, claimed, scan_and_flip-Claimed}
use tddb.FreeMap.{FreeMap, keep_or_undo, free_map_allocate, free_map_release}

-- Why an allocation of `cnt` sectors fails: there is no free run of that size, or the file of the map is open and cannot
-- be written.
pub data Refusal (f : FreeMap) (cnt : ℕ) (written : Bool) : Type 0 where
  no_run : ((k : ℕ) → k + cnt ≤ f.map.bit_cnt → ¬ (Run f.map k cnt false)) → Refusal f cnt written
  not_written : (f.file_open && not written) ≡ true → Refusal f cnt written

-- What an allocation did: it failed for such a reason and left every bit as it was, or it took the first free run and the
-- map was written if its file is open.
pub data Allocated (f : FreeMap) (cnt : ℕ) (written : Bool) : Option ℕ → FreeMap → Type 0 where
  failed :
      {f' : FreeMap}
      → Refusal f cnt written
      → f'.map.bit_cnt ≡ f.map.bit_cnt
      → IsValid f'.map
      → ((j : ℕ) → at f'.map j ≡ at f.map j)
      → Allocated f cnt written none f'
  taken :
      {sector : ℕ} {f' : FreeMap}
      → (f.file_open && not written) ≡ false
      → First f.map 0 cnt false sector
      → Fits f.map sector cnt
      → Fills f.map sector cnt true f'.map
      → Run f.map sector cnt false
      → Allocated f cnt written (some sector) f'

First-Run : {b : Bitmap} {cnt r : ℕ} → First b 0 cnt false r → r < bitmap_error → Run b r cnt false
First-Run (found i lo fits run least) h = run
First-Run (absent nowhere) h = absurd (omega arith)

First-error :
    {b : Bitmap} {cnt r k : ℕ}
    → IsValid b
    → r ≡ bitmap_error
    → First b 0 cnt false r
    → k + cnt ≤ b.bit_cnt
    → ¬ (Run b k cnt false)
First-error ok e (found i lo fits run least) below free = absurd (omega (arith, fits, ok.small, e))
First-error {k = k} ok e (absent nowhere) below free = nowhere k (omega arith) below free

-- Clearing a run that was clear, after it was set, undoes the setting.
undone :
    {b b1 b2 : Bitmap} {r cnt : ℕ}
    → Run b r cnt false
    → Fills b r cnt true b1
    → Fills b1 r cnt false b2
    → (j : ℕ) → at b2 j ≡ at b j
undone {b} {b1} {b2} {r} {cnt} run set_it clear j = elim (Bool-cases (within r cnt j)) [
  | inl y ↦ clear.bits j ∙ rw y (sym (run j (ground arith) (ground arith)))
  | inr y ↦ clear.bits j ∙ rw y (set_it.bits j ∙ rw y refl)
]

Fits-after :
    {b b1 : Bitmap} {r cnt : ℕ} {v : Bool} → Fits b r cnt → Fills b r cnt v b1 → Fits b1 r cnt
Fits-after fits fill = record {
  valid = Fills-IsValid fill fits.valid;
  below = omega (arith, fits.below, fill.same_cnt);
}

kept :
    (f : FreeMap) {r : ℕ} {map : Bitmap} (cnt : ℕ) (written : Bool)
    → IsValid f.map
    → First f.map 0 cnt false r
    → Claimed f.map cnt false r map
    → (o : Option ℕ) × (f' : FreeMap) × (keep_or_undo f cnt written (r, map) ≡ some (o, f'))
      × Allocated f cnt written o f'
unfolding keep_or_undo
kept f cnt written ok first full = (
  none,
  f,
  refl,
  failed (no_run (λ k below. First-error ok refl first below)) refl ok (λ j. refl),
)
kept f {r} {map} cnt written ok first (claimed fits fill) =
    let small : r < bitmap_error = omega (arith, fits.below, ok.small) in
    let run = First-Run first small in
    let (b2, clears, clear) = set_multiple-Fills false (Fits-after fits fill) in
    elim (Bool-cases (f.file_open && not written)) [
      | inl y ↦ (
        none,
        record f { map = b2 },
        rw (==_ne r bitmap_error (omega arith), y, clears),
        failed (not_written y) (clear.same_cnt ∙ fill.same_cnt)
            (Fills-IsValid clear (Fills-IsValid fill ok)) (undone run fill clear),
      )
      | inr y ↦ (
        some r,
        record f { map = map },
        rw (==_ne r bitmap_error (omega arith), y),
        taken y first fits fill run,
      )
    ]

-- `free_map_allocate` on a valid map takes the first free run of `cnt` sectors, and no other sector, when there is one and
-- the map is written to its file or the file is not open; else it fails, and every bit is as it was.
pub free_map_allocate-Allocated :
    (f : FreeMap) (cnt : ℕ) (written : Bool)
    → IsValid f.map
    → (o : Option ℕ) × (f' : FreeMap) × (free_map_allocate f cnt written ≡ some (o, f'))
      × Allocated f cnt written o f'
unfolding free_map_allocate
free_map_allocate-Allocated f cnt written ok =
    let (r, map, run, first, claim) = scan_and_flip-Claimed 0 cnt false ok (omega arith) in
    rw run (kept f cnt written ok first claim)

-- `free_map_release` of a run of sectors that are in use frees these and no others.
pub free_map_release-Fills :
    (f : FreeMap) (sector cnt : ℕ)
    → Fits f.map sector cnt
    → Run f.map sector cnt true
    → (f' : FreeMap) × (free_map_release f sector cnt ≡ some f')
      × Fills f.map sector cnt false f'.map
unfolding free_map_release
free_map_release-Fills f sector cnt fits used =
    let (p, q, anys, nones, alls, sp, sq) = any_none_all fits in
    let (map, run, fill) = set_multiple-Fills false fits in
    (record f { map = map }, rw (alls ∙ ap (λ b. some (not b)) (no_clear sq), run), fill)
  where
    no_clear : {q : Bool} → Search f.map sector (sector + cnt) false q → q ≡ false
    no_clear (hit j lo hi clear) = cc (sym (used j lo hi) ∙ clear)
    no_clear (miss out) = refl

-- A run that was allocated can be released, and then every bit is as it was before.
pub free_map_allocate-release :
    (f : FreeMap) {f1 : FreeMap} {sector : ℕ} (cnt : ℕ) (written : Bool)
    → IsValid f.map
    → free_map_allocate f cnt written ≡ some (some sector, f1)
    → (f2 : FreeMap) × (free_map_release f1 sector cnt ≡ some f2)
      × ((j : ℕ) → at f2.map j ≡ at f.map j)
free_map_allocate-release f {f1} {sector} cnt written ok e =
    let (o, f', run, a) = free_map_allocate-Allocated f cnt written ok in
    go a (pair_of (sym run ∙ e))
  where
    pair_of :
        {o o' : Option ℕ} {g g' : FreeMap}
        → ◌≡◌ {A = Option (Option ℕ × FreeMap)} (some (o, g)) (some (o', g'))
        → (o ≡ o') × (g ≡ g')
    pair_of e = (cc, cc)

    go :
        {o : Option ℕ} {f' : FreeMap}
        → Allocated f cnt written o f'
        → (o ≡ some sector) × (f' ≡ f1)
        → (f2 : FreeMap) × (free_map_release f1 sector cnt ≡ some f2)
          × ((j : ℕ) → at f2.map j ≡ at f.map j)
    go (failed why same valid bits) (e, e') = cc
    go (taken {sector = r} {f' = f'} wrote first fits fill run) (e, e') =
        let (f2, rel, clear) =
          free_map_release-Fills f' r cnt (Fits-after fits fill)
            (λ j lo hi. fill.bits j ∙ ground arith) in
        (
          f2,
          ap (λ (p : FreeMap × ℕ). free_map_release (p.0) (p.1) cnt)
                (both (sym e') (sym (same_sector e)))
              ∙ rel,
          undone run fill clear,
        )
      where
        same_sector : {a b : ℕ} → some a ≡ some b → a ≡ b
        same_sector e = cc

        both : {g g' : FreeMap} {a b : ℕ} → g ≡ g' → a ≡ b → ◌≡◌ {A = FreeMap × ℕ} (g, a) (g', b)
        both p q = cc
