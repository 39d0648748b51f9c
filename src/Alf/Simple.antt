-- ===== src/Alf/Simple.antt =====
-- The `simple` STORE helper: right up to the end of the array, out of range past it.
use prototype_kernel.Base.{
  ℕ, zero, suc, ◌+◌, ◌-◌, ◌%◌, ◌^◌, ◌≤◌, ◌<◌, ◌≡◌, refl, sym, ap, ap₂, ◌∙◌, arith, List, Option,
  some, none, ◌>>=◌, >>=_assoc, length, take, get_elem?, ge→ltb, ne→==, eq→==, Option-cases, inl,
  inr,
}
use prototype_kernel.Base.Words.{add32, bit_and_mask}
use prototype_kernel.Copy.Loops.{plain, around}
use prototype_kernel.Copy.Around.{bind_ext, plain-around}
use prototype_kernel.Copy.Slots.{Ptr, store, write, put_around, around-store}
use prototype_kernel.Copy.Window.{length-put_around}
use prototype_kernel.Alf.Queue.{AlfQueue}
use prototype_kernel.Alf.Valid.{IsSized}
use prototype_kernel.Alf.Shapes.{over_simple, over_mask, simple_loop}
use prototype_kernel.Alf.Helpers.{with_ring, enqueue_store_simple, enqueue_store_mask}
use prototype_kernel.Copy.Runs.{size_bounds, index_lt, start, plain_run}
use prototype_kernel.Alf.Variants.{over_mask-around}
use prototype_kernel.Alf.Stores.{small_log, at_size}
use native.Mathlib.Nat.{add-zero, zero-add}

module _ {ℓ} {S : Type ℓ} (body : ℕ → ℕ → S → Option S) (size : ℕ) (small : size < 2 ^ 31) where
  -- Below `size` the restart is not taken.
  simple_loop-plain :
      (left i index : ℕ) (s : S)
      → index + left ≤ size
      → simple_loop body size left i index s ≡ plain body left i index s
  unfolding simple_loop plain
  simple_loop-plain zero i index s h = refl
  simple_loop-plain (suc left) i index s h = rw (ne→== index size (omega arith)) (
      bind_ext (body index i s) λ t. simple_loop-plain left (i + 1) (add32 index 1) t (omega arith))

  -- Past it the next access is at index `size`.
  simple_loop_past :
      (a b i index : ℕ) (s : S)
      → index + a ≡ size
      → simple_loop body size (a + suc b) i index s ≡ (
          plain body a i index s >>= λ t.
          body size (i + a) t >>= λ u. simple_loop body size b (i + a + 1) (add32 0 1) u)
  unfolding simple_loop plain
  simple_loop_past zero b i index s e =
      rw (zero-add (suc b), eq→== index size at_end)
        (ap₂ (λ x j. body x j s >>= λ u. simple_loop body size b (j + 1) (add32 0 1) u) at_end
          (sym (add-zero i)))
    where
      at_end : index ≡ size
      at_end = omega arith
  simple_loop_past (suc a) b i index s e =
      ap (λ m. simple_loop body size m i index s) step
      ∙ rw (ne→== index size (omega arith)) (
          bind_ext (body index i s) (λ t.
            simple_loop_past a b (i + 1) (add32 index 1) t (omega arith)
            ∙ ap
                (λ j. plain body a (i + 1) (add32 index 1) t >>= λ t.
                  body size j t >>= λ u. simple_loop body size b (j + 1) (add32 0 1) u)
                place)
          ∙ sym (>>=_assoc (body index i s) _ _))
    where
      step : suc a + suc b ≡ suc (a + suc b)
      step = omega arith

      place : i + 1 + a ≡ i + suc a
      place = omega arith

-- A store at the length of the array is out of range.
store_past :
    (ptr : List Ptr) (index i : ℕ) (ring : List Ptr)
    → length ring ≤ index
    → store ptr index i ring ≡ none
unfolding store write
store_past ptr index i ring h = elim (Option-cases (get_elem? ptr i)) [
  | inl e ↦ rw e
  | inr (v, e) ↦ rw (e, ge→ltb index (length ring) h)
]

-- The `simple` STORE of a run that ends within the array does what the masked loop does.
pub enqueue_store_simple-mask :
    {q : AlfQueue} (v : IsSized q) (p_head : ℕ) (ptr : List Ptr) (n : ℕ)
    → p_head % q.size + n ≤ q.size
    → enqueue_store_simple p_head q ptr n ≡ enqueue_store_mask p_head q ptr n
unfolding enqueue_store_simple enqueue_store_mask over_simple
enqueue_store_simple-mask {q} v h ptr n inside = ap (with_ring q) (
    at_size v (λ z m. over_simple (store ptr) z m h n) (λ z. around (store ptr) z h n 0) q.ring
      (rw (bit_and_mask v.log h) (
        simple_loop-plain (store ptr) (2 ^ v.log)
          (omega (arith, size_bounds v.log h n (small_log v))) n 0 (h % 2 ^ v.log) q.ring fits
        ∙ plain_run (store ptr) v.log h n (small_log v) q.ring fits))
    ∙ sym (
        at_size v (λ z m. over_mask (store ptr) z m h n) (λ z. around (store ptr) z h n 0) q.ring
          (over_mask-around (store ptr) v.log h n (small_log v) q.ring)))
  where
    fits : h % 2 ^ v.log + n ≤ 2 ^ v.log
    fits = rw (← v.power) inside

-- The `simple` STORE of any run that passes the end of the array writes out of range, at index
-- `size`: the wrap is tested after the access and not before it.
pub enqueue_store_simple_faults :
    {q : AlfQueue} (v : IsSized q) (p_head : ℕ) (ptr : List Ptr) (n : ℕ)
    → n ≤ length ptr
    → q.size < p_head % q.size + n
    → enqueue_store_simple p_head q ptr n ≡ none
unfolding enqueue_store_simple over_simple
enqueue_store_simple_faults {q} v h ptr n given past = ap (with_ring q) (
    at_size v (λ z m. over_simple (store ptr) z m h n) (λ _ _. none) q.ring
      (rw (bit_and_mask v.log h) (
        ap (λ m. simple_loop (store ptr) z m 0 x q.ring) whole
        ∙ simple_loop_past (store ptr) z (omega (arith, bounds)) a b 0 x q.ring
            (omega (arith, inside))
        ∙ ap
            (λ m. m >>= λ t.
              store ptr z (0 + a) t >>= λ u. simple_loop (store ptr) z b (0 + a + 1) (add32 0 1) u)
            filled
        ∙ ap (λ m. m >>= λ u. simple_loop (store ptr) z b (0 + a + 1) (add32 0 1) u)
            (store_past ptr z (0 + a) _
              (omega (arith, length-put_around z (h + 0) (take a ptr) q.ring, v.slots, v.power))))))
  where
    z : ℕ
    z = 2 ^ v.log

    x : ℕ
    x = h % z

    a : ℕ
    a = z - x

    b : ℕ
    b = n - a - 1

    bounds : (0 < z) × (z ≤ 268435456)
    bounds = size_bounds v.log h n (small_log v)

    inside : x < z
    inside = index_lt v.log h n (small_log v)

    past' : z < x + n
    past' = rw (← v.power) past

    whole : n ≡ a + suc b
    whole = omega (arith, inside, past')

    filled : plain (store ptr) a 0 x q.ring ≡ some (put_around z (h + 0) (take a ptr) q.ring)
    filled =
        plain-around (store ptr) z h a 0 x q.ring (start v.log h n (small_log v))
          (omega (arith, inside)) (omega (arith, bounds))
        ∙ around-store ptr z h a 0 q.ring bounds.0 (v.slots ∙ v.power) (omega (arith, given, past'))
