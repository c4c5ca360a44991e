-- ===== src/Common/Run.antt =====
-- A run of C code: a result, or a fault such as an access outside an object or through NULL.
use Prim.Native.Nat.{ℕ, ◌+◌, ◌≤◌}
use mathlib.Core.Path.{◌≡◌}
use mathlib.Core.List.{List}
use alib_c.Common.Tests.{leb, le→leb, if◌then◌else◌}
use alib_c.Common.Lists.{length, take, drop, store}

pub data Run {ℓ} (A : Type ℓ) : Type ℓ where
  ok : A → Run A
  fault : Run A

infixl 5 ◌>>=◌
abbrev pub ◌>>=◌ {ℓ κ} : {A : Type ℓ} {B : Type κ} → Run A → (A → Run B) → Run B
ok a >>= f = f a
fault >>= f = fault

-- The `n` bytes at `at`, as memcpy() reads them.
pub read : List ℕ → ℕ → ℕ → Run (List ℕ)
read mem at n = if leb (at + n) (length mem) then ok (take n (drop at mem)) else fault

-- memcpy() of `bytes` to `at`.
pub write : List ℕ → ℕ → List ℕ → Run (List ℕ)
write mem at bytes = if leb (at + length bytes) (length mem) then ok (store mem at bytes) else fault

pub read-ok :
    (mem : List ℕ) (at n : ℕ) → at + n ≤ length mem → read mem at n ≡ ok (take n (drop at mem))
unfolding read
read-ok mem at n h = rw (le→leb _ _ h)

pub write-ok :
    (mem : List ℕ) (at : ℕ) (bytes : List ℕ)
    → at + length bytes ≤ length mem
    → write mem at bytes ≡ ok (store mem at bytes)
unfolding write
write-ok mem at bytes h = rw (le→leb _ _ h)
