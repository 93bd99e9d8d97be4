-- ===== src/Base/Members.antt =====
-- Lists of threads as the kernel keeps them: membership and the absence of repetitions.
use mathlib.Core.Bool.{Bool, false, ◌||◌}
use mathlib.Core.List.{List, [], ◌∷◌, ◌++◌}
use mathlib.Core.Path.{◌≡◌}
use Prim.Native.Nat.{ℕ}
use native.Mathlib.Omega.{arith}
use tddb.Base.Tests.{◌==◌, if◌then◌else◌}

abbrev pub has : ℕ → List ℕ → Bool
has t [] = false
has t (x ∷ xs) = (t == x) || has t xs

abbrev pub Distinct : List ℕ → Type 0
Distinct [] = Unit
Distinct (x ∷ xs) = (has x xs ≡ false) × Distinct xs

pub has-push : (t x : ℕ) (xs : List ℕ) → has t (xs ++ (x ∷ [])) ≡ (has t xs || (t == x))
has-push t x [] = ground arith
has-push t x (y ∷ ys) = ground (arith, has-push t x ys)

pub Distinct-push :
    (x : ℕ) (xs : List ℕ) → has x xs ≡ false → Distinct xs → Distinct (xs ++ (x ∷ []))
Distinct-push x [] h d = ground arith
Distinct-push x (y ∷ ys) h d =
    (ground (arith, has-push y x ys), Distinct-push x ys (ground arith) d.1)

-- a map from threads, changed at one of them
abbrev pub update {ℓ} : {A : Type ℓ} → (ℕ → A) → ℕ → A → ℕ → A
update f i a j = if i == j then a else f j
