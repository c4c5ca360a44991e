-- ===== src/ArrayList/Sifting.antt =====
-- ArrayList_sift(): its loops.
use mathlib.Core.List.Perm
use mathlib.Core.List.{Perm, perm_append_comm}
use alib_c.Common.{
  ℕ, zero, suc, ◌+◌, ◌≤◌, ◌<◌, ◌≡◌, ◌≢◌, refl, sym, ap, ap₂, ◌∙◌, false, Option, none, some, List,
  [], ◌∷◌, ◌++◌, append_assoc, append-nil, arith, length, set, get_elem?, map, replicate, ◌==◌,
  length-append, get_elem?-append_length, set-append_length, get_elem?-append_replicate,
  replicate-append, length-replicate, le_cases, inl, inr,
}
use mathlib.Core.Path.{subst}
use alib_c.Common.Run.{Run, ok}
use alib_c.ArrayList.State.{Item, Slot, items}
use alib_c.ArrayList.Edit.{seek, sift_slot, sift_loop}
use alib_c.ArrayList.Invariant.{items-append, items-replicate}
use alib_c.ArrayList.Loops.{nil_of_length}

seek-hit :
    (xs : List Slot) (it e : ℕ) {q : Item}
    → get_elem? xs e ≡ some (some q)
    → e ≢ it
    → seek xs it e ≡ ok e
unfolding seek
seek-hit xs it zero h ne = let other : (zero == it) ≡ false = ground arith in rw (other, h)
seek-hit xs it (suc e) h ne = let other : (suc e == it) ≡ false = ground arith in rw (other, h)

seek-skip :
    (xs : List Slot) (it e : ℕ)
    → get_elem? xs (suc e) ≡ some none
    → suc e ≢ it
    → seek xs it (suc e) ≡ seek xs it e
unfolding seek
seek-skip xs it e h ne = let other : (suc e == it) ≡ false = ground arith in rw (other, h)

-- Going down from the end over free slots reaches the last item.
seek-last :
    (us : List Slot) (q : Item) (n m it : ℕ)
    → it < length us
    → m ≤ n
    → seek (us ++ some q ∷ replicate n none) it (length us + m) ≡ ok (length us)
seek-last us q n zero it h k =
    let here : length us + 0 ≡ length us = omega arith in
    let xs : List Slot = us ++ some q ∷ replicate n none in
    ap (seek xs it) here
    ∙ seek-hit xs it (length us) (get_elem?-append_length us (some q) (replicate n none))
        (ground arith)
seek-last us q n (suc m) it h k =
    let up : length us + suc m ≡ suc (length us + m) = omega arith in
    let xs : List Slot = us ++ some q ∷ replicate n none in
    let free : get_elem? xs (suc (length us + m)) ≡ some none =
      ap₂ get_elem? (sym (append_assoc us (some q ∷ []) (replicate n none)))
        (omega (arith, length-append us (some q ∷ [])))
      ∙ get_elem?-append_replicate (us ++ some q ∷ []) n m none (omega arith) in
    ap (seek xs it) up
    ∙ seek-skip xs it (length us + m) free (ground arith)
    ∙ seek-last us q n m it h (omega arith)

-- The slots behind the last item are free.
pub all_free : (ys : List Slot) → items ys ≡ [] → ys ≡ replicate (length ys) none
all_free [] e = refl
all_free (none ∷ ys) e = ap (◌∷◌ none) (all_free ys e)
all_free (some p ∷ ys) e = absurd (omega (arith, ap length e))

last_item :
    (ys : List Slot)
    → 0 < length (items ys)
    → (zs : List Slot) × (q : Item) × (m : ℕ) × (ys ≡ zs ++ some q ∷ replicate m none)
last_item [] h = absurd (omega arith)
last_item (none ∷ ys) h = let (zs, q, m, e) = last_item ys h in (none ∷ zs, q, m, ap (◌∷◌ none) e)
last_item (some p ∷ ys) h = elim (le_cases (length (items ys)) 0) [
  | inl last ↦
      let no_more : items ys ≡ [] = nil_of_length (items ys) (omega arith) in
      ([], p, length ys, ap (◌∷◌ (some p)) (all_free ys no_more))
  | inr more ↦ let (zs, q, m, e) = last_item ys more in (some p ∷ zs, q, m, ap (◌∷◌ (some p)) e)
]

-- A sifted array: items, and free slots behind them.
abbrev pub sifted : List Item → ℕ → List Slot
sifted ps n = map some ps ++ replicate n none

-- What the loop of ArrayList_sift() does to an array in which `ps` is sifted, `ys` is not, and `k`
-- slots at the end are free.
pub record Sifts (n it end : ℕ) (ps : List Item) (ys : List Slot) (k : ℕ) : Type 0 where
  pub result : List Item
  pub free : ℕ
  pub runs :
      sift_loop n it end (map some ps ++ (ys ++ replicate k none)) ≡ ok (none, sifted result free)
  pub perm : Perm result (ps ++ items ys)
  pub len : length result + free ≡ length ps + length ys + k

map-append_one : (ps : List Item) (p : Item) → map some (ps ++ p ∷ []) ≡ map some ps ++ some p ∷ []
map-append_one [] p = refl
map-append_one (q ∷ ps) p = ap (◌∷◌ (some q)) (map-append_one ps p)

-- An item at the front of what is left stays where it is.
sift_item :
    {n it end : ℕ} {ps : List Item} {p : Item} {ys : List Slot} {k : ℕ}
    → it ≡ length (map some ps)
    → Sifts n (it + 1) end (ps ++ p ∷ []) ys k
    → Sifts (suc n) it end ps (some p ∷ ys) k
unfolding sift_loop sift_slot
sift_item {n} {it} {end} {ps} {p} {ys} {k} e s =
    let xs : List Slot = map some ps ++ (some p ∷ ys ++ replicate k none) in
    let here : get_elem? xs it ≡ some (some p) =
      ap (get_elem? xs) e
      ∙ get_elem?-append_length (map some ps) (some p) (ys ++ replicate k none) in
    let regroup : xs ≡ map some (ps ++ p ∷ []) ++ (ys ++ replicate k none) = sym (
      ap (λ us. us ++ (ys ++ replicate k none)) (map-append_one ps p)
      ∙ append_assoc (map some ps) (some p ∷ []) (ys ++ replicate k none)) in
    record {
      result = s.result;
      free = s.free;
      runs = rw here (ap (sift_loop n (it + 1) end) regroup ∙ s.runs);
      perm = subst (Perm s.result) (append_assoc ps (p ∷ []) (items ys)) s.perm;
      len = omega (arith, s.len, length-append ps (p ∷ []));
    }

-- One round at a free slot: the last item moves there.
sift_slot-free :
    (it end : ℕ) (us zs : List Slot) (q : Item) (n m : ℕ)
    (next : ℕ → List Slot → Run (Option ℕ × List Slot))
    → it ≡ length us
    → end ≡ length us + 1 + length zs + m
    → m ≤ n
    → let xs : List Slot = us ++ none ∷ (zs ++ some q ∷ replicate n none) in
      sift_slot it end xs next (get_elem? xs it)
      ≡ next (it + 1 + length zs) (us ++ some q ∷ (zs ++ none ∷ replicate n none))
unfolding sift_slot
sift_slot-free it end us zs q n m next e e' h =
    let behind : List Slot = some q ∷ replicate n none in
    let xs : List Slot = us ++ none ∷ (zs ++ behind) in
    let ys : List Slot = us ++ some q ∷ (zs ++ behind) in
    let last : ℕ = it + 1 + length zs in
    let len : (x : Slot) → last ≡ length (us ++ x ∷ zs) =
      λ x. omega (arith, length-append us (x ∷ zs)) in
    let whole : xs ≡ (us ++ none ∷ zs) ++ behind = sym (append_assoc us (none ∷ zs) behind) in
    let whole' : ys ≡ (us ++ some q ∷ zs) ++ behind = sym (append_assoc us (some q ∷ zs) behind) in
    let here : get_elem? xs it ≡ some none =
      ap (get_elem? xs) e ∙ get_elem?-append_length us none (zs ++ behind) in
    let found : seek xs it end ≡ ok last =
      ap₂ (λ vs i. seek vs it i) whole (omega (arith, len none))
      ∙ seek-last (us ++ none ∷ zs) q n m it (omega (arith, len none)) h
      ∙ ap ok (sym (len none)) in
    let there : get_elem? xs last ≡ some (some q) =
      ap₂ get_elem? whole (len none)
      ∙ get_elem?-append_length (us ++ none ∷ zs) (some q) (replicate n none) in
    let apart : (last == it) ≡ false = ground arith in
    let moved : set xs it (some q) ≡ ys =
      ap (λ i. set xs i (some q)) e ∙ set-append_length us none (zs ++ behind) (some q) in
    let cleared : set ys last none ≡ us ++ some q ∷ (zs ++ none ∷ replicate n none) =
      ap₂ (λ vs i. set vs i none) whole' (len (some q))
      ∙ set-append_length (us ++ some q ∷ zs) (some q) (replicate n none) none
      ∙ append_assoc us (some q ∷ zs) (none ∷ replicate n none) in
    rw (here, found, apart, there, moved, cleared)

items-behind :
    (zs : List Slot) (q : Item) (m : ℕ)
    → items (zs ++ some q ∷ replicate m none) ≡ items zs ++ q ∷ []
items-behind zs q m =
    items-append zs (some q ∷ replicate m none) ∙ ap (λ is. items zs ++ q ∷ is) (items-replicate m)

-- A free slot takes the last item.
sift_free :
    {n it end : ℕ} {ps : List Item} (zs : List Slot) (q : Item) (m : ℕ) {k : ℕ}
    → it ≡ length (map some ps)
    → end ≡ it + 1 + length zs + m
    → Sifts n (it + 1) (it + 1 + length zs) (ps ++ q ∷ []) (zs ++ none ∷ []) (m + k)
    → Sifts (suc n) it end ps (none ∷ (zs ++ some q ∷ replicate m none)) k
unfolding sift_loop
sift_free {n} {it} {end} {ps} zs q m {k} e e' s =
    let us : List Slot = map some ps in
    let regroup : us ++ (none ∷ (zs ++ some q ∷ replicate m none) ++ replicate k none)
        ≡ us ++ none ∷ (zs ++ some q ∷ replicate (m + k) none) =
      ap (λ vs. us ++ none ∷ vs)
        (append_assoc zs (some q ∷ replicate m none) (replicate k none)
          ∙ ap (λ vs. zs ++ some q ∷ vs) (replicate-append m k none)) in
    let xs : List Slot = us ++ none ∷ (zs ++ some q ∷ replicate (m + k) none) in
    let next : us ++ some q ∷ (zs ++ none ∷ replicate (m + k) none)
        ≡ map some (ps ++ q ∷ []) ++ ((zs ++ none ∷ []) ++ replicate (m + k) none) =
      sym (
        ap₂ ◌++◌ (map-append_one ps q) (append_assoc zs (none ∷ []) (replicate (m + k) none))
        ∙ append_assoc us (some q ∷ []) (zs ++ none ∷ replicate (m + k) none)) in
    let before : (ps ++ q ∷ []) ++ items (zs ++ none ∷ []) ≡ ps ++ (q ∷ items zs) =
      ap (λ is. (ps ++ q ∷ []) ++ is) (items-append zs (none ∷ []) ∙ append-nil (items zs))
      ∙ append_assoc ps (q ∷ []) (items zs) in
    let after : ps ++ items (zs ++ some q ∷ replicate m none) ≡ ps ++ (items zs ++ q ∷ []) =
      ap (λ is. ps ++ is) (items-behind zs q m) in
    record {
      result = s.result;
      free = s.free;
      runs =
          ap (λ vs. sift_slot it end vs (sift_loop n (it + 1)) (get_elem? vs it)) regroup
          ∙ sift_slot-free it end us zs q (m + k) m (sift_loop n (it + 1)) e (omega arith)
              (omega arith)
          ∙ ap (sift_loop n (it + 1) (it + 1 + length zs)) next
          ∙ s.runs;
      perm = subst (Perm s.result) (sym after) (
          Perm.trans (subst (Perm s.result) before s.perm)
            (Perm.append (Perm.refl ps) (perm_append_comm (q ∷ []) (items zs))));
      len = omega (
        arith,
        s.len,
        length-append ps (q ∷ []),
        length-append zs (none ∷ []),
        length-append zs (some q ∷ replicate m none),
        length-replicate {A = Slot} m none,
      );
    }

one_more :
    (ps : List Item) (p : Item) (it : ℕ)
    → it ≡ length (map some ps)
    → it + 1 ≡ length (map some (ps ++ p ∷ []))
one_more ps p it e =
    omega (arith, ap length (map-append_one ps p), length-append (map some ps) (some p ∷ []))

sift_done :
    (it end : ℕ) (ps : List Item) (ys : List Slot) (k : ℕ)
    → zero ≡ length (items ys)
    → Sifts zero it end ps ys k
unfolding sift_loop
sift_done it end ps ys k h =
    let empty : items ys ≡ [] = nil_of_length (items ys) h in
    let free : ys ++ replicate k none ≡ replicate (length ys + k) none =
      ap (λ vs. vs ++ replicate k none) (all_free ys empty) ∙ replicate-append (length ys) k none in
    record {
      result = ps;
      free = length ys + k;
      runs = ap (λ vs. ok (none, map some ps ++ vs)) free;
      perm = subst (Perm ps) (sym (ap (λ is. ps ++ is) empty ∙ append-nil ps)) (Perm.refl ps);
      len = omega arith;
    }

pub sift_loop-Sifts :
    (n it end : ℕ) (ps : List Item) (ys : List Slot) (k : ℕ)
    → it ≡ length (map some ps)
    → n ≡ length (items ys)
    → end + 1 ≡ it + length ys
    → Sifts n it end ps ys k
sift_loop-Sifts zero it end ps ys k e h e' = sift_done it end ps ys k h
sift_loop-Sifts (suc n) it end ps [] k e h e' = absurd (omega arith)
sift_loop-Sifts (suc n) it end ps (some p ∷ ys) k e h e' = sift_item e (
    sift_loop-Sifts n (it + 1) end (ps ++ p ∷ []) ys k (one_more ps p it e) (omega arith)
      (omega arith))
sift_loop-Sifts (suc n) it end ps (none ∷ ys) k e h e' =
    let (zs, q, m, split) = last_item ys (omega arith) in
    let counted : length (items ys) ≡ length (items zs) + 1 =
      ap (λ vs. length (items vs)) split
      ∙ ap length (items-behind zs q m)
      ∙ length-append (items zs) (q ∷ []) in
    let sized : length ys ≡ length zs + (1 + m) =
      ap length split
      ∙ omega (
        arith,
        length-append zs (some q ∷ replicate m none),
        length-replicate {A = Slot} m none,
      ) in
    let fewer : length (items (zs ++ none ∷ [])) ≡ length (items zs) =
      ap length (items-append zs (none ∷ []) ∙ append-nil (items zs)) in
    subst (λ vs. Sifts (suc n) it end ps (none ∷ vs) k) (sym split)
      (sift_free zs q m e (omega arith) (
        sift_loop-Sifts n (it + 1) (it + 1 + length zs) (ps ++ q ∷ []) (zs ++ none ∷ []) (m + k)
          (one_more ps q it e) (omega arith) (omega (arith, length-append zs (none ∷ [])))))
