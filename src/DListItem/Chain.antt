-- ===== src/DListItem/Chain.antt =====
-- The nodes of a list, in order.
use alib_c.Common.{ℕ, ◌<◌, ◌≡◌, ◌≢◌, refl, ◌∙◌, true, false, some, List, [], ◌∷◌, arith, ◌==◌}
use alib_c.Common.Run.{ok}
use alib_c.DListItem.{Node, Heap, at, put}

-- The first of the items, or what follows them
abbrev pub head : List ℕ → ℕ → ℕ
head [] b = b
head (x ∷ xs) b = x

-- The nodes at `xs` are linked in this order: `a` comes before them and `b` after them.
abbrev pub Chain : Heap → ℕ → List ℕ → ℕ → Type 0
Chain h a [] b = Unit {0}
Chain h a (x ∷ xs) b =
    (0 < x) × ((n : Node) × (h x ≡ some n) × (n.prev ≡ a) × (n.next ≡ head xs b)) × Chain h x xs b

-- No node of `xs` is at `x`.
abbrev pub Avoids : ℕ → List ℕ → Type 0
Avoids x [] = Unit {0}
Avoids x (y ∷ ys) = (x ≢ y) × Avoids x ys

pub at-some : (h : Heap) (p : ℕ) (n : Node) → 0 < p → h p ≡ some n → at h p ≡ ok n
at-some h p n here e = let some' : (p == 0) ≡ false = ground arith in rw (some', e) refl

pub put_self : (h : Heap) (p : ℕ) (n : Node) → put h p n p ≡ some n
put_self h p n = let same : (p == p) ≡ true = ground arith in rw same refl

pub put_other : (h : Heap) (p q : ℕ) (n : Node) → p ≢ q → put h p n q ≡ h q
put_other h p q n ne = let other : (q == p) ≡ false = grind arith in rw other refl

-- A write elsewhere leaves the links.
pub Chain-put :
    (h : Heap) (p : ℕ) (n : Node) (a : ℕ) (xs : List ℕ) (b : ℕ)
    → Avoids p xs
    → Chain h a xs b
    → Chain (put h p n) a xs b
Chain-put h p n a [] b av c = tt
Chain-put h p n a (x ∷ xs) b (ne, av) (here, (m, e, l, r), c) =
    (here, (m, put_other h p x n ne ∙ e, l, r), Chain-put h p n x xs b av c)
