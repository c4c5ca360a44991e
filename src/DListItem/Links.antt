-- ===== src/DListItem/Links.antt =====
-- Changing the links at the ends of a stretch of a list.
use alib_c.Common.{ℕ, ◌<◌, ◌≡◌, ◌≢◌, refl, sym, ◌∙◌, false, some, List, [], ◌∷◌, ◌++◌, arith, ◌==◌}
use alib_c.Common.Run.{ok}
use alib_c.DListItem.{Node, Heap, put, set_next, set_prev, set_next_if, set_prev_if}
use alib_c.DListItem.Chain.{head, Chain, Avoids, put_self, put_other, Chain-put}
use alib_c.DListItem.Walk.{last}

abbrev pub Distinct : List ℕ → Type 0
Distinct [] = Unit {0}
Distinct (x ∷ xs) = Avoids x xs × Distinct xs

pub Avoids-append : (q : ℕ) (xs ys : List ℕ) → Avoids q (xs ++ ys) → Avoids q xs × Avoids q ys
Avoids-append q [] ys av = (tt, av)
Avoids-append q (x ∷ xs) ys (ne, av) = let (l, r) = Avoids-append q xs ys av in ((ne, l), r)

pub Distinct-append : (xs ys : List ℕ) → Distinct (xs ++ ys) → Distinct xs × Distinct ys
Distinct-append [] ys d = (tt, d)
Distinct-append (x ∷ xs) ys (av, d) =
    let (l, r) = Distinct-append xs ys d in
    let (before, _) = Avoids-append x xs ys av in ((before, l), r)

-- A later node is none of the earlier ones, and the last of the earlier ones is none of the later ones.
pub Avoids-earlier : (xs : List ℕ) (p : ℕ) (ys : List ℕ) → Distinct (xs ++ p ∷ ys) → Avoids p xs
Avoids-earlier [] p ys d = tt
Avoids-earlier (x ∷ xs) p ys (av, d) =
    let (_, (ne, _)) = Avoids-append x xs (p ∷ ys) av in (λ e. ne (sym e), Avoids-earlier xs p ys d)

pub Avoids-later : (x : ℕ) (xs ys : List ℕ) → Distinct (x ∷ xs ++ ys) → Avoids (last x xs) ys
Avoids-later x [] ys (av, d) = av
Avoids-later x (y ∷ xs) ys (av, d) = Avoids-later y xs ys d

Avoids-last : (q x : ℕ) (xs : List ℕ) → q ≢ x → Avoids q xs → q ≢ last x xs
Avoids-last q x [] ne av = ne
Avoids-last q x (y ∷ xs) ne (ne', av) = Avoids-last q y xs ne' av

pub Avoids-last_zero : (q : ℕ) (xs : List ℕ) → Avoids q xs → q ≢ 0 → q ≢ last 0 xs
Avoids-last_zero q [] av ne = ne
Avoids-last_zero q (x ∷ xs) (ne', av) ne = Avoids-last q x xs ne' av

pub Avoids-head : (q : ℕ) (ys : List ℕ) → Avoids q ys → q ≢ 0 → q ≢ head ys 0
Avoids-head q [] av ne = ne
Avoids-head q (y ∷ ys) (ne', av) ne = ne'

pub Chain-positive : (h : Heap) (a : ℕ) (xs : List ℕ) (b : ℕ) → Chain h a xs b → Avoids 0 xs
Chain-positive h a [] b c = tt
Chain-positive h a (x ∷ xs) b (here, node, c) =
    (λ e. absurd (omega (arith, e, here)), Chain-positive h x xs b c)

pub last-positive :
    (h : Heap) (a x : ℕ) (xs : List ℕ) (b : ℕ) → Chain h a (x ∷ xs) b → 0 < last x xs
last-positive h a x [] b (here, node, c) = here
last-positive h a x (y ∷ xs) b (here, node, c) = last-positive h x y xs b c

-- A heap that differs at `r` alone
abbrev pub Agree : Heap → Heap → ℕ → Type 0
Agree h h' r = (q : ℕ) → q ≢ r → h' q ≡ h q

pub Chain-agree :
    (h h' : Heap) (r a : ℕ) (xs : List ℕ) (b : ℕ)
    → Agree h h' r
    → Avoids r xs
    → Chain h a xs b
    → Chain h' a xs b
Chain-agree h h' r a [] b same av c = tt
Chain-agree h h' r a (x ∷ xs) b same (ne, av) (here, (n, e, l, m), c) =
    (here, (n, same x (λ q. ne (sym q)) ∙ e, l, m), Chain-agree h h' r x xs b same av c)

pub Agree-put : (h : Heap) (p : ℕ) (n : Node) → Agree h (put h p n) p
Agree-put h p n q ne = put_other h p q n (λ e. ne (sym e))

head-append : (xs : List ℕ) (p : ℕ) (ys : List ℕ) (b : ℕ) → head (xs ++ p ∷ ys) b ≡ head xs p
head-append [] p ys b = refl
head-append (x ∷ xs) p ys b = refl

head-append_all : (xs ys : List ℕ) (b : ℕ) → head (xs ++ ys) b ≡ head xs (head ys b)
head-append_all [] ys b = refl
head-append_all (x ∷ xs) ys b = refl

-- A list in two stretches
pub Chain-split :
    (h : Heap) (a : ℕ) (xs : List ℕ) (p : ℕ) (ys : List ℕ) (b : ℕ)
    → Chain h a (xs ++ p ∷ ys) b
    → Chain h a xs p
      × (0 < p)
      × ((n : Node) × (h p ≡ some n) × (n.prev ≡ last a xs) × (n.next ≡ head ys b))
      × Chain h p ys b
Chain-split h a [] p ys b (here, node, c) = (tt, here, node, c)
Chain-split h a (x ∷ xs) p ys b (here, (n, e, l, r), c) =
    let (front, there, node, rest) = Chain-split h x xs p ys b c in
    ((here, (n, e, l, r ∙ head-append xs p ys b), front), there, node, rest)

pub Chain-join :
    (h : Heap) (a : ℕ) (xs ys : List ℕ) (b : ℕ)
    → Chain h a xs (head ys b)
    → Chain h (last a xs) ys b
    → Chain h a (xs ++ ys) b
Chain-join h a [] ys b c d = d
Chain-join h a (x ∷ xs) ys b (here, (n, e, l, r), c) d =
    (here, (n, e, l, r ∙ sym (head-append_all xs ys b)), Chain-join h x xs ys b c d)

-- `if(next) next->prev = a';` in front of a stretch
pub set_prev_if_lem :
    (h : Heap) (a a' : ℕ) (ys : List ℕ)
    → Distinct ys
    → Chain h a ys 0
    → (h' : Heap) × (set_prev_if h (head ys 0) a' ≡ ok h')
      × Chain h' a' ys 0
      × Agree h h' (head ys 0)
unfolding set_prev_if set_prev
set_prev_if_lem h a a' [] d c = (h, refl, tt, λ q ne. refl)
set_prev_if_lem h a a' (y ∷ ys) (av, d) (here, (n, e, l, r), c) =
    let some' : (y == 0) ≡ false = ground arith in
    let m : Node = record n { prev = a' } in
    (
      put h y m,
      rw (some', e) refl,
      (here, (m, put_self h y m, refl, r), Chain-put h y m y ys 0 av c),
      Agree-put h y m,
    )

relink_next :
    (h : Heap) (a x : ℕ) (xs : List ℕ) (b b' : ℕ)
    → Distinct (x ∷ xs)
    → Chain h a (x ∷ xs) b
    → (n : Node) × (h (last x xs) ≡ some n)
      × Chain (put h (last x xs) (record n { next = b' })) a (x ∷ xs) b'
relink_next h a x [] b b' d (here, (n, e, l, r), c) =
    (n, e, (here, (record n { next = b' }, put_self h x (record n { next = b' }), l, refl), tt))
relink_next h a x (y ∷ xs) b b' ((ne, av), d) (here, (n, e, l, r), c) =
    let (m, f, c') = relink_next h x y xs b b' d c in
    let other : last y xs ≢ x = λ q. Avoids-last x y xs ne av (sym q) in
    (m, f, (here, (n, put_other h (last y xs) x (record m { next = b' }) other ∙ e, l, r), c'))

-- `if(prev) prev->next = b';` behind a stretch
pub set_next_if_lem :
    (h : Heap) (xs : List ℕ) (b b' : ℕ)
    → Distinct xs
    → Chain h 0 xs b
    → (h' : Heap) × (set_next_if h (last 0 xs) b' ≡ ok h')
      × Chain h' 0 xs b'
      × Agree h h' (last 0 xs)
unfolding set_next_if set_next
set_next_if_lem h [] b b' d c = (h, refl, tt, λ q ne. refl)
set_next_if_lem h (x ∷ xs) b b' d c =
    let (n, e, c') = relink_next h 0 x xs b b' d c in
    let there : 0 < last x xs = last-positive h 0 x xs b c in
    let some' : (last x xs == 0) ≡ false = ground arith in
    (
      put h (last x xs) (record n { next = b' }),
      rw (some', e) refl,
      c',
      Agree-put h (last x xs) (record n { next = b' }),
    )

head-Avoids_rest : (xs : List ℕ) (p y : ℕ) (ys : List ℕ) → Distinct (xs ++ p ∷ y ∷ ys) → Avoids y xs
head-Avoids_rest [] p y ys d = tt
head-Avoids_rest (x ∷ xs) p y ys (av, d) =
    let (_, (_, (ne, _))) = Avoids-append x xs (p ∷ y ∷ ys) av in
    (λ e. ne (sym e), head-Avoids_rest xs p y ys d)

-- The nodes next to an item are none of those on its other side.
pub head-Avoids :
    (h : Heap) (xs : List ℕ) (p : ℕ) (ys : List ℕ)
    → Distinct (xs ++ p ∷ ys)
    → Chain h 0 xs p
    → Avoids (head ys 0) xs
head-Avoids h xs p [] d c = Chain-positive h 0 xs p c
head-Avoids h [] p (y ∷ ys) d c = tt
head-Avoids h (x ∷ xs) p (y ∷ ys) (av, d) (here, node, c) =
    let (_, (_, (ne, _))) = Avoids-append x xs (p ∷ y ∷ ys) av in
    (λ e. ne (sym e), head-Avoids_rest xs p y ys d)

pub last-Avoids :
    (h : Heap) (xs : List ℕ) (p : ℕ) (ys : List ℕ)
    → Distinct (xs ++ p ∷ ys)
    → Chain h p ys 0
    → Avoids (last 0 xs) ys
last-Avoids h [] p ys d c = Chain-positive h p ys 0 c
last-Avoids h (x ∷ xs) p ys d c = let (_, av) = Avoids-later x xs (p ∷ ys) d in av
