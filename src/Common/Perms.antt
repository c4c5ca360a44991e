-- ===== src/Common/Perms.antt =====
-- Permutations and the length over the native numbers.
use mathlib.Core.Logic.{∥∥₁_elim}
use mathlib.Core.List.{Perm, Permᴰ, List}
use mathlib.Core.Path.{◌≡◌, refl, ap, ◌∙◌}
use native.Mathlib.Nat.{ℕ_set}
use alib_c.Common.Lists.{length}
use Prim.Native.Nat.{suc}

Permᴰ-length {ℓ} : {A : Type ℓ} {xs ys : List A} → Permᴰ xs ys → length xs ≡ length ys
Permᴰ-length Permᴰ.nil = refl
Permᴰ-length (Permᴰ.cons x p) = ap suc (Permᴰ-length p)
Permᴰ-length (Permᴰ.swap x y) = refl
Permᴰ-length (Permᴰ.trans p q) = Permᴰ-length p ∙ Permᴰ-length q

pub Perm-length {ℓ} : {A : Type ℓ} {xs ys : List A} → Perm xs ys → length xs ≡ length ys
Perm-length {xs} {ys} p = ∥∥₁_elim p (ℕ_set (length xs) (length ys)) Permᴰ-length
