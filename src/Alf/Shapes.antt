-- ===== src/Alf/Shapes.antt =====
-- The loop structure of each pair `__helper_alf_enqueue_store_X`, `__helper_alf_dequeue_load_X` of
-- kernel/include/linux/alf_queue_helpers.h, which the two members share. `body index i` is
-- `q->ring[index] = ptr[i]` in the first and `ptr[i] = q->ring[index]` in the second.
use prototype_kernel.Base.{
  ℕ, zero, suc, ◌+◌, ◌-◌, ◌/◌, bit_and, ◌&&◌, not, Option, none, some, ◌>>=◌, ltb, leb, ◌==◌,
  if◌then◌else◌,
}
use prototype_kernel.Base.Words.{add32, sub32}
use prototype_kernel.Copy.Loops.{plain, masked, unrolled, iterations}

module _ {ℓ} {S : Type ℓ} (body : ℕ → ℕ → S → Option S) where
  -- the loop of `simple`: after the access at `index == size` the index restarts at 0, and then
  -- is incremented
  unfoldable pub simple_loop : ℕ → ℕ → ℕ → ℕ → S → Option S
  simple_loop size zero i index s = some s
  simple_loop size (suc left) i index s = body index i s >>= λ t.
      simple_loop size left (i + 1) (add32 (if index == size then 0 else index) 1) t

  -- `for (; i < n && index <= mask; i++, index++)`: what is left of `n`, `i`, and the state
  unfoldable pub until_end : ℕ → ℕ → ℕ → ℕ → S → Option (ℕ × ℕ × S)
  until_end mask zero i index s = some (0, i, s)
  until_end mask (suc left) i index s =
      let rest = body index i s >>= λ t. until_end mask left (i + 1) (add32 index 1) t in
      if leb index mask then rest else some (suc left, i, s)

  -- `switch (n & 0x3)`
  unfoldable pub remainder : ℕ → ℕ → ℕ → S → Option S
  remainder (suc zero) i index s = body index i s
  remainder (suc (suc zero)) i index s = do a ← body index i s; body (add32 index 1) (i + 1) a
  remainder (suc (suc (suc zero))) i index s = do
    a ← body index i s
    b ← body (add32 index 1) (i + 1) a
    body (add32 index 2) (i + 2) b
  remainder _ i index s = some s

  -- One pass of the switch in a do-while, entered at `case r`.
  unfoldable pub duff_pass : ℕ → ℕ → ℕ → S → Option S
  duff_pass (suc zero) i index s = body index i s
  duff_pass (suc (suc zero)) i index s = do a ← body (add32 index 1) (i + 1) s; body index i a
  duff_pass (suc (suc (suc zero))) i index s = do
    a ← body (add32 index 2) (i + 2) s
    b ← body (add32 index 1) (i + 1) a
    body index i b
  duff_pass _ i index s = do
    a ← body (add32 index 3) (i + 3) s
    b ← body (add32 index 2) (i + 2) a
    c ← body (add32 index 1) (i + 1) b
    body index i c

module _ {ℓ} {S : Type ℓ} (body : ℕ → ℕ → S → Option S) (size mask head n : ℕ) where
  unfoldable pub over_simple : S → Option S
  unfolding simple_loop
  over_simple = simple_loop body size n 0 (bit_and head mask)

  unfoldable pub over_mask : S → Option S
  over_mask = masked body mask n 0 head

  unfoldable pub over_mask_less : S → Option S
  over_mask_less s =
      let index = bit_and head mask in
      if leb (add32 index n) mask then plain body n 0 index s else masked body mask n 0 index s

  -- The first loop of the wrapping branch tests `index <= mask` alone, so it runs
  -- `mask + 1 - index` rounds.
  unfoldable pub over_mask_less2 : S → Option S
  over_mask_less2 s =
      let index = bit_and head mask in
      if leb (add32 index n) mask
      then plain body n 0 index s
      else (plain body (mask + 1 - index) 0 index s >>= λ t.
          plain body (n - (mask + 1 - index)) (mask + 1 - index) 0 t)

  unfoldable pub over_nomask : S → Option S
  unfolding until_end
  over_nomask s =
      until_end body mask n 0 (bit_and head mask) s >>= λ (left, i, t). plain body left i 0 t

  unfoldable pub over_unroll : S → Option S
  unfolding remainder
  over_unroll s =
      let index = bit_and head mask in
      if leb (add32 index n) mask
      then (unrolled body (iterations n / 4) 0 index s >>= λ t.
          remainder body (bit_and n 3) (iterations n) (add32 index (iterations n)) t)
      else masked body mask n 0 index s

  -- The loop, on fuel; its condition steps `i` and `index` by `r`, or by 4 once `r` is 0.
  unfoldable pub duff_loop : ℕ → ℕ → ℕ → ℕ → S → Option S
  unfolding duff_pass
  duff_loop zero r i index s = none
  duff_loop (suc fuel) r i index s = duff_pass body r i index s >>= λ t.
      let after_r = duff_loop fuel 0 (i + r) (add32 index r) t in
      let after_4 = duff_loop fuel 0 (i + 4) (add32 index 4) t in
      if ltb 0 r
      then (if iterations n == 0 then some t else after_r)
      else (if not (add32 index 4 == 0) && ltb (i + 4) (iterations n) then after_4 else some t)

  unfoldable pub over_unroll_duff : S → Option S
  unfolding duff_loop
  over_unroll_duff s =
      let index = bit_and head mask in
      if leb (add32 index n) mask
      then duff_loop (n / 4 + 1) (bit_and n 3) 0 index s
      else masked body mask n 0 index s

  -- A memcpy of `m` pointers moves them one after the other.
  unfoldable pub over_memcpy : S → Option S
  over_memcpy s =
      let next = bit_and (add32 head n) mask in
      let from = bit_and head mask in
      if leb from next
      then plain body (next - from) 0 from s
      else (plain body (sub32 size from) 0 from s >>= λ t. plain body next (sub32 size from) 0 t)
