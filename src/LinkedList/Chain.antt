-- ===== src/LinkedList/Chain.antt =====
-- The sequence of elements that a linked list stands for.
use tddb.Base.{
  ℕ, true, false, ◌||◌, List, [], ◌∷◌, ◌++◌, ◌==◌, ◌≡◌, ◌≢◌, refl, sym, ap, ◌∙◌, arith, ℕ_discrete,
}
use tddb.Base.Members.{has, Distinct}
use tddb.LinkedList.{Links}

-- The links lead from `a` through `xs` to `b`, and back.
abbrev pub Chain : Links → ℕ → List ℕ → ℕ → Type 0
Chain h a [] b = (h.next a ≡ b) × (h.prev b ≡ a)
Chain h a (x ∷ xs) b = (h.next a ≡ x) × (h.prev x ≡ a) × Chain h x xs b

pub Chain-frame :
    (h g : Links) (a : ℕ) (xs : List ℕ) (b : ℕ)
    → ((c : ℕ) → has c (a ∷ xs) ≡ true → g.next c ≡ h.next c)
    → ((c : ℕ) → (has c xs || (c == b)) ≡ true → g.prev c ≡ h.prev c)
    → Chain h a xs b
    → Chain g a xs b
Chain-frame h g a [] b nexts prevs (n, p) = (nexts a (ground arith) ∙ n, prevs b (ground arith) ∙ p)
Chain-frame h g a (x ∷ xs) b nexts prevs (n, p, rest) = (
  nexts a (ground arith) ∙ n,
  prevs x (ground arith) ∙ p,
  Chain-frame h g x xs b (λ c i. nexts c (ground (arith, i))) (λ c i. prevs c (ground (arith, i)))
      rest,
)

-- Two chains that meet
pub Chain-append :
    (h : Links) (a : ℕ) (xs : List ℕ) (m : ℕ) (ys : List ℕ) (b : ℕ)
    → Chain h a xs m
    → Chain h m ys b
    → Chain h a (xs ++ (m ∷ ys)) b
Chain-append h a [] m ys b (n, p) right = (n, p, right)
Chain-append h a (x ∷ xs) m ys b (n, p, left) right = (n, p, Chain-append h x xs m ys b left right)

pub Chain-split :
    (h : Links) (a : ℕ) (xs : List ℕ) (m : ℕ) (ys : List ℕ) (b : ℕ)
    → Chain h a (xs ++ (m ∷ ys)) b
    → Chain h a xs m × Chain h m ys b
Chain-split h a [] m ys b (n, p, right) = ((n, p), right)
Chain-split h a (x ∷ xs) m ys b (n, p, rest) =
    let (left, right) = Chain-split h x xs m ys b rest in ((n, p, left), right)

-- the element in front of `b`
abbrev pub last_of : ℕ → List ℕ → ℕ
last_of a [] = a
last_of a (x ∷ xs) = last_of x xs

-- the element behind `a`
abbrev pub first_of : List ℕ → ℕ → ℕ
first_of [] b = b
first_of (x ∷ xs) b = x

pub Chain-last :
    (h : Links) (a : ℕ) (xs : List ℕ) (b : ℕ)
    → Chain h a xs b
    → (h.prev b ≡ last_of a xs) × (h.next (last_of a xs) ≡ b)
Chain-last h a [] b (n, p) = (p, n)
Chain-last h a (x ∷ xs) b (n, p, rest) = Chain-last h x xs b rest

pub Chain-first :
    (h : Links) (a : ℕ) (xs : List ℕ) (b : ℕ) → Chain h a xs b → h.next a ≡ first_of xs b
Chain-first h a [] b (n, p) = n
Chain-first h a (x ∷ xs) b (n, p, rest) = n

pub has-last_of : (a : ℕ) (xs : List ℕ) → has (last_of a xs) (a ∷ xs) ≡ true
has-last_of a [] = ground arith
has-last_of a (x ∷ xs) = ground (arith, has-last_of x xs)

pub has-append : (c : ℕ) (xs ys : List ℕ) → has c (xs ++ ys) ≡ (has c xs || has c ys)
has-append c [] ys = refl
has-append c (x ∷ xs) ys = ground (arith, has-append c xs ys)

pub Distinct-append :
    (xs ys : List ℕ)
    → Distinct (xs ++ ys)
    → Distinct xs × Distinct ys × ((c : ℕ) → has c xs ≡ true → has c ys ≡ false)
Distinct-append [] ys d = (tt, d, λ c i. cc i)
Distinct-append (x ∷ xs) ys (out, d) =
    let (left, right, apart) = Distinct-append xs ys d in
    (
      (ground (arith, has-append x xs ys, out), left),
      right,
      λ c i. elim (ℕ_discrete c x) [
        | yes e ↦ ap (λ k. has k ys) e ∙ ground (arith, has-append x xs ys, out)
        | no ne ↦ apart c (ground (arith, i))
      ],
    )

-- the links behind the first element
abbrev pub ChainTail : Links → List ℕ → ℕ → Type 0
ChainTail h [] b = Unit
ChainTail h (y ∷ ys) b = Chain h y ys b

-- The elements `xs` as they were, and then `ys`, once the last one of the former leads to the first of the latter.
pub Chain-join :
    (h g : Links) (a : ℕ) (xs : List ℕ) (m : ℕ) (ys : List ℕ) (b : ℕ)
    → Distinct (a ∷ xs)
    → ((c : ℕ) → has c (a ∷ xs) ≡ true → c ≢ last_of a xs → g.next c ≡ h.next c)
    → ((c : ℕ) → has c xs ≡ true → g.prev c ≡ h.prev c)
    → g.next (last_of a xs) ≡ first_of ys b
    → g.prev (first_of ys b) ≡ last_of a xs
    → ChainTail g ys b
    → Chain h a xs m
    → Chain g a (xs ++ ys) b
Chain-join h g a [] m [] b d nexts prevs n p right left = (n, p)
Chain-join h g a [] m (y ∷ ys) b d nexts prevs n p right left = (n, p, right)
Chain-join h g a (x ∷ xs) m ys b (out, d) nexts prevs n p right (n1, p1, left) = (
  nexts a (ground arith) not_last ∙ n1,
  prevs x (ground arith) ∙ p1,
  Chain-join h g x xs m ys b d (λ c i ne. nexts c (ground (arith, i)) ne)
      (λ c i. prevs c (ground (arith, i))) n p right left,
)
  where
    not_last : a ≢ last_of x xs
    not_last e = cc (sym out ∙ ap (λ k. has k (x ∷ xs)) e ∙ has-last_of x xs)

pub ChainTail-frame :
    (h g : Links) (ys : List ℕ) (b : ℕ)
    → Distinct ys
    → has b ys ≡ false
    → ((c : ℕ) → has c ys ≡ true → g.next c ≡ h.next c)
    → ((c : ℕ) → (has c ys || (c == b)) ≡ true → c ≢ first_of ys b → g.prev c ≡ h.prev c)
    → ChainTail h ys b
    → ChainTail g ys b
ChainTail-frame h g [] b d out nexts prevs t = tt
ChainTail-frame h g (y ∷ ys) b (first_out, d) out nexts prevs t =
    Chain-frame h g y ys b nexts (λ c i. prevs c (ground (arith, i)) (ne c i)) t
  where
    ne : (c : ℕ) → (has c ys || (c == b)) ≡ true → c ≢ y
    ne c i e = cc (sym (neither c e) ∙ i)
      where
        neither : (c : ℕ) → c ≡ y → (has c ys || (c == b)) ≡ false
        neither c e = rw (ap (λ k. has k ys) e, first_out) (ground (arith, e, out))

pub ChainTail_lem : (h : Links) (a : ℕ) (ys : List ℕ) (b : ℕ) → Chain h a ys b → ChainTail h ys b
ChainTail_lem h a [] b t = tt
ChainTail_lem h a (y ∷ ys) b (n, p, t) = t

-- A chain cut in two
pub Chain-cut :
    (h : Links) (a : ℕ) (xs ys : List ℕ) (b : ℕ)
    → Chain h a (xs ++ ys) b
    → Chain h a xs (first_of ys b) × ChainTail h ys b
Chain-cut h a [] [] b (n, p) = ((n, p), tt)
Chain-cut h a [] (y ∷ ys) b (n, p, right) = ((n, p), right)
Chain-cut h a (x ∷ xs) ys b (n, p, rest) =
    let (left, right) = Chain-cut h x xs ys b rest in ((n, p, left), right)

pub Chain-start :
    (g : Links) (a : ℕ) (ys : List ℕ) (b : ℕ)
    → g.next a ≡ first_of ys b
    → g.prev (first_of ys b) ≡ a
    → ChainTail g ys b
    → Chain g a ys b
Chain-start g a [] b n p t = (n, p)
Chain-start g a (y ∷ ys) b n p t = (n, p, t)

pub last_elsewhere : (a : ℕ) (xs : List ℕ) (c : ℕ) → has c (a ∷ xs) ≡ false → last_of a xs ≢ c
last_elsewhere a xs c out e = cc (sym out ∙ ap (λ k. has k (a ∷ xs)) (sym e) ∙ has-last_of a xs)

pub first_elsewhere : (ys : List ℕ) (b c : ℕ) → has c ys ≡ false → b ≢ c → first_of ys b ≢ c
first_elsewhere [] b c out ne e = ne e
first_elsewhere (y ∷ ys) b c out ne e = cc (sym out ∙ here)
  where
    here : has c (y ∷ ys) ≡ true
    here = ground (arith, e)
