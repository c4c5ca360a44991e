-- ===== src/RBuff/Refine.antt =====
-- A buffer that overwrites, against the list of the last bytes of a stream.
use alib_c.Common.{
  ℕ, ◌+◌, ◌-◌, min, ◌≡◌, refl, sym, ap, ◌∙◌, true, false, Option, some, List, [], ◌∷◌, ◌++◌, arith,
  length, take, drop, take_of_length-le, ap₂, length-append,
}
use native.Mathlib.Nat.{le_refl}
use alib_c.Common.Run.{Run, ok, ◌>>=◌}
use alib_c.RBuff.{RBuff, rbuff_no_overwrite, raised, popoff, pushback}
use alib_c.RBuff.Invariant.{IsValid}
use alib_c.RBuff.Contents.{contents}
use alib_c.RBuff.Copy.{popoff_lem}
use alib_c.RBuff.Room.{length-contents}
use alib_c.RBuff.Pushback.{pushback_overwrite}

-- RBuff_pushback() of some bytes, RBuff_popoff() of a number of bytes.
pub data Op : Type 0 where
  push : List ℕ → Op
  pop : ℕ → Op

-- What a call gives back: the count that it returns, and the bytes that it copies out.
abbrev pub Reply : Type 0
Reply = ℕ × List ℕ

step : Option RBuff → Op → Run (Reply × Option RBuff)
step r (push xs) = do (k, r') ← pushback r (some xs) (length xs); ok ((k, []), r')
step r (pop n) = do (k, bytes, r') ← popoff r true n; ok ((k, bytes), some r')

-- A client's calls in order, with what each gives back.
pub run : Option RBuff → List Op → Run (List Reply)
unfolding step
run r [] = ok []
run r (op ∷ ops) = do (a, r') ← step r op; replies ← run r' ops; ok (a ∷ replies)

-- The specification: the last `size` bytes of everything pushed and not yet popped.
last_bytes : ℕ → List ℕ → List ℕ
last_bytes size q = drop (length q - size) q

spec_step : ℕ → List ℕ → Op → Reply × List ℕ
spec_step size q (push xs) = ((min (length xs) size, []), last_bytes size (q ++ xs))
spec_step size q (pop n) = ((min n (length q), take n q), drop n q)

unfoldable pub spec : ℕ → List ℕ → List Op → List Reply
unfolding spec_step last_bytes
spec size q [] = []
spec size q (op ∷ ops) = let (a, q') = spec_step size q op in a ∷ spec size q' ops

record Follows (r : RBuff) (op : Op) (a : Reply) (r' : RBuff) : Type 0 where
  runs : step (some r) op ≡ ok (a, some r')
  valid : IsValid r'
  replies : (a, contents r') ≡ spec_step r.buff_end (contents r) op
  size : r'.buff_end ≡ r.buff_end
  flags : r'.flags ≡ r.flags

step-Follows :
    {r : RBuff} (op : Op)
    → IsValid r
    → raised r.flags rbuff_no_overwrite ≡ false
    → (a : Reply) × (r' : RBuff) × Follows r op a r'
unfolding step spec_step last_bytes
step-Follows {r} (push xs) v flag =
    let (r', pushed, p) = pushback_overwrite xs (length xs) v flag (le_refl _) in
    let all : take (length xs) xs ≡ xs = take_of_length-le (length xs) xs (le_refl _) in
    let cut : r.count + length xs - r.buff_end ≡ length (contents r ++ xs) - r.buff_end =
      omega (arith, length-append (contents r) xs, length-contents v) in
    (
      (min (length xs) r.buff_end, []),
      r',
      record {
        runs = rw pushed;
        valid = p.valid;
        replies =
            ap (λ q. ((min (length xs) r.buff_end, []), q))
              (p.holds
                ∙ ap (λ ys. drop (r.count + length xs - r.buff_end) (contents r ++ ys)) all
                ∙ ap (λ k. drop k (contents r ++ xs)) cut);
        size = p.size;
        flags = p.flags;
      },
    )
step-Follows {r} (pop n) v flag =
    let (r', popped, v', left, count, size, flags) = popoff_lem true n v in
    let len = length-contents v in
    (
      (min n r.count, take n (contents r)),
      r',
      record {
        runs = rw popped;
        valid = v';
        replies = ap₂ (λ k q. ((min n k, take n (contents r)), q)) (sym len) left;
        size = size;
        flags = flags;
      },
    )

-- On a valid buffer without rbuffNoOverwrite no sequence of pushes and pops faults, and none tells
-- the buffer from the list of the last bytes that it stands for: every count returned and every byte
-- copied out agrees.
pub run_refines :
    (ops : List Op) {r : RBuff}
    → IsValid r
    → raised r.flags rbuff_no_overwrite ≡ false
    → run (some r) ops ≡ ok (spec r.buff_end (contents r) ops)
unfolding run spec
run_refines [] v flag = refl
run_refines (op ∷ ops) {r} v flag =
    let (a, r', f) = step-Follows op v flag in
    let rest : run (some r') ops ≡ ok (spec r.buff_end (contents r') ops) =
      run_refines ops f.valid (ap (λ k. raised k rbuff_no_overwrite) f.flags ∙ flag)
      ∙ ap (λ k. ok (spec k (contents r') ops)) f.size in
    rw (f.runs, rest, ← f.replies)
