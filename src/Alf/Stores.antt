-- ===== src/Alf/Stores.antt =====
-- What the LOAD and STORE helpers do to the arrays, in terms of slots.
use prototype_kernel.Base.{
  ℕ, ◌-◌, ◌^◌, ◌≤◌, ◌<◌, ◌≡◌, sym, ap, ap₂, ◌∙◌, arith, List, Option, some, length, take, drop,
  ◌++◌,
}
use prototype_kernel.Copy.Loops.{around}
use prototype_kernel.Copy.Slots.{
  Ptr, store, load, around-store, around-load, put_around, window, splice,
}
use prototype_kernel.Copy.Window.{splice-window}
use prototype_kernel.Alf.Queue.{AlfQueue}
use prototype_kernel.Alf.Valid.{IsSized}
use prototype_kernel.Alf.Shapes.{
  over_mask, over_mask_less, over_mask_less2, over_nomask, over_unroll, over_memcpy,
}
use prototype_kernel.Alf.Helpers.{
  with_ring, enqueue_store_mask, enqueue_store_mask_less, enqueue_store_mask_less2,
  enqueue_store_nomask, enqueue_store_unroll, enqueue_store_memcpy, dequeue_load_mask,
  dequeue_load_mask_less, dequeue_load_mask_less2, dequeue_load_nomask, dequeue_load_unroll,
}
use prototype_kernel.Copy.Runs.{size_bounds}
use prototype_kernel.Alf.Variants.{over_mask-around, over_mask_less-around}
use prototype_kernel.Alf.Wrapping.{
  over_mask_less2-around, over_nomask-around, over_memcpy-around, over_memcpy_whole,
}
use prototype_kernel.Alf.Unrolled.{over_unroll-around}
use native.Mathlib.Nat.{add-zero, pow-le-pow_right}

module _ {q : AlfQueue} (v : IsSized q) where
  pub small_log : v.log ≤ 28
  small_log = omega (arith, v.small)

  pub small_size : (0 < q.size) × (q.size ≤ 65536)
  small_size =
      omega (arith, size_bounds v.log 0 0 small_log, pow-le-pow_right {n = 2} (omega arith) v.small)

  -- A loop structure that follows the reference at sizes 2 ^ k does so here.
  pub at_size :
      {S : Type 0} (over : ℕ → ℕ → S → Option S) (spec : ℕ → S → Option S) (s : S)
      → over (2 ^ v.log) (2 ^ v.log - 1) s ≡ spec (2 ^ v.log) s
      → over q.size q.mask s ≡ spec q.size s
  at_size over spec s e =
      ap₂ (λ z m. over z m s) v.power v.ones ∙ e ∙ ap (λ z. spec z s) (sym v.power)

  module _ (p_head : ℕ) (ptr : List Ptr) (n : ℕ) (given : n ≤ length ptr) where
    stored : Option AlfQueue
    stored = some (record q { ring = put_around q.size p_head (take n ptr) q.ring })

    by_reference :
        (over : ℕ → ℕ → List Ptr → Option (List Ptr))
        → over (2 ^ v.log) (2 ^ v.log - 1) q.ring ≡ around (store ptr) (2 ^ v.log) p_head n 0 q.ring
        → with_ring q (over q.size q.mask q.ring) ≡ stored
    unfolding stored
    by_reference over e = ap (with_ring q) (
        at_size over (λ z. around (store ptr) z p_head n 0) q.ring e
        ∙ around-store ptr q.size p_head n 0 q.ring small_size.0 v.slots (omega arith)
        ∙ ap (λ h. some (put_around q.size h (take n ptr) q.ring)) (add-zero p_head))

    -- The selected STORE helper writes exactly the slots from `p_head` on.
    pub enqueue_store_unroll-put_around :
        n ≤ q.size
        → enqueue_store_unroll p_head q ptr n
          ≡ some (record q { ring = put_around q.size p_head (take n ptr) q.ring })
    unfolding enqueue_store_unroll stored
    enqueue_store_unroll-put_around fits =
        by_reference (λ z m. over_unroll (store ptr) z m p_head n)
          (over_unroll-around (store ptr) v.log p_head n small_log q.ring (rw (← v.power) fits))

  module _ (c_head : ℕ) (ptr : List Ptr) (elems : ℕ) (given : elems ≤ length ptr) where
    loaded : Option (List Ptr)
    loaded = some (splice 0 (window q.ring q.size c_head elems) ptr)

    by_reference_load :
        (over : ℕ → ℕ → List Ptr → Option (List Ptr))
        → over (2 ^ v.log) (2 ^ v.log - 1) ptr ≡ around (load q.ring) (2 ^ v.log) c_head elems 0 ptr
        → over q.size q.mask ptr ≡ loaded
    unfolding loaded
    by_reference_load over e =
        at_size over (λ z. around (load q.ring) z c_head elems 0) ptr e
        ∙ around-load q.ring q.size c_head elems 0 ptr small_size.0 v.slots (omega arith)
        ∙ ap (λ h. some (splice 0 (window q.ring q.size h elems) ptr)) (add-zero c_head)

    -- The selected LOAD helper reads exactly the slots from `c_head` on.
    pub dequeue_load_unroll-window :
        elems ≤ q.size
        → dequeue_load_unroll c_head q ptr elems
          ≡ some (splice 0 (window q.ring q.size c_head elems) ptr)
    unfolding dequeue_load_unroll loaded
    dequeue_load_unroll-window fits =
        by_reference_load (λ z m. over_unroll (load q.ring) z m c_head elems)
          (over_unroll-around (load q.ring) v.log c_head elems small_log ptr (rw (← v.power) fits))

-- Every STORE variant but `simple`, `unroll_duff` and `memcpy` does what the masked loop does: with
-- room for `n` elements and `n` elements given, it faults nowhere, puts element `i` into slot
-- `(p_head + i) % size`, and changes nothing else.
pub enqueue_stores_agree :
    {q : AlfQueue} (v : IsSized q) (p_head : ℕ) (ptr : List Ptr) (n : ℕ)
    → n ≤ length ptr
    → n ≤ q.size
    → let done = some (record q { ring = put_around q.size p_head (take n ptr) q.ring }) in
      (enqueue_store_mask p_head q ptr n ≡ done)
      × (enqueue_store_mask_less p_head q ptr n ≡ done)
      × (enqueue_store_mask_less2 p_head q ptr n ≡ done)
      × (enqueue_store_nomask p_head q ptr n ≡ done)
      × (enqueue_store_unroll p_head q ptr n ≡ done)
unfolding enqueue_store_mask enqueue_store_mask_less enqueue_store_mask_less2 enqueue_store_nomask
    stored
enqueue_stores_agree {q} v h ptr n given fits = (
  by_reference v h ptr n given (λ z m. over_mask (store ptr) z m h n)
      (over_mask-around (store ptr) v.log h n (small_log v) q.ring),
  by_reference v h ptr n given (λ z m. over_mask_less (store ptr) z m h n)
      (over_mask_less-around (store ptr) v.log h n (small_log v) q.ring le),
  by_reference v h ptr n given (λ z m. over_mask_less2 (store ptr) z m h n)
      (over_mask_less2-around (store ptr) v.log h n (small_log v) q.ring le),
  by_reference v h ptr n given (λ z m. over_nomask (store ptr) z m h n)
      (over_nomask-around (store ptr) v.log h n (small_log v) q.ring le),
  enqueue_store_unroll-put_around v h ptr n given fits,
)
  where
    le : n ≤ 2 ^ v.log
    le = rw (← v.power) fits

-- Every LOAD variant but `simple`, `unroll_duff` and `memcpy` faults nowhere and fills the first
-- `elems` cells of the table with the slots from `c_head` on.
pub dequeue_loads_agree :
    {q : AlfQueue} (v : IsSized q) (c_head : ℕ) (ptr : List Ptr) (elems : ℕ)
    → elems ≤ length ptr
    → elems ≤ q.size
    → let done = some (window q.ring q.size c_head elems ++ drop elems ptr) in
      (dequeue_load_mask c_head q ptr elems ≡ done)
      × (dequeue_load_mask_less c_head q ptr elems ≡ done)
      × (dequeue_load_mask_less2 c_head q ptr elems ≡ done)
      × (dequeue_load_nomask c_head q ptr elems ≡ done)
      × (dequeue_load_unroll c_head q ptr elems ≡ done)
unfolding dequeue_load_mask dequeue_load_mask_less dequeue_load_mask_less2 dequeue_load_nomask
    loaded
dequeue_loads_agree {q} v h ptr n given fits = (
  by_reference_load v h ptr n given (λ z m. over_mask (load q.ring) z m h n)
        (over_mask-around (load q.ring) v.log h n (small_log v) ptr)
      ∙ filled,
  by_reference_load v h ptr n given (λ z m. over_mask_less (load q.ring) z m h n)
        (over_mask_less-around (load q.ring) v.log h n (small_log v) ptr le)
      ∙ filled,
  by_reference_load v h ptr n given (λ z m. over_mask_less2 (load q.ring) z m h n)
        (over_mask_less2-around (load q.ring) v.log h n (small_log v) ptr le)
      ∙ filled,
  by_reference_load v h ptr n given (λ z m. over_nomask (load q.ring) z m h n)
        (over_nomask-around (load q.ring) v.log h n (small_log v) ptr le)
      ∙ filled,
  dequeue_load_unroll-window v h ptr n given fits ∙ filled,
)
  where
    le : n ≤ 2 ^ v.log
    le = rw (← v.power) fits

    filled :
        some (splice 0 (window q.ring q.size h n) ptr)
        ≡ some (window q.ring q.size h n ++ drop n ptr)
    filled = ap some (splice-window q.ring q.size h n ptr given)

-- The memcpy STORE of less than a whole ring does what the masked loop does.
pub enqueue_store_memcpy-mask :
    {q : AlfQueue} (v : IsSized q) (p_head : ℕ) (ptr : List Ptr) (n : ℕ)
    → n ≤ length ptr
    → n < q.size
    → enqueue_store_memcpy p_head q ptr n ≡ enqueue_store_mask p_head q ptr n
unfolding enqueue_store_memcpy enqueue_store_mask stored
enqueue_store_memcpy-mask {q} v h ptr n given lt =
    by_reference v h ptr n given (λ z m. over_memcpy (store ptr) z m h n)
      (over_memcpy-around (store ptr) v.log h n (small_log v) q.ring (rw (← v.power) lt))
    ∙ sym (
        by_reference v h ptr n given (λ z m. over_mask (store ptr) z m h n)
          (over_mask-around (store ptr) v.log h n (small_log v) q.ring))

-- The memcpy STORE of a whole ring stores nothing: its two ends coincide, and it takes the run for
-- an empty one.
pub enqueue_store_memcpy_whole :
    {q : AlfQueue} (v : IsSized q) (p_head : ℕ) (ptr : List Ptr)
    → enqueue_store_memcpy p_head q ptr q.size ≡ some q
unfolding enqueue_store_memcpy
enqueue_store_memcpy_whole {q} v h ptr = ap (with_ring q) (
    at_size v (λ z m. over_memcpy (store ptr) z m h q.size) (λ _ r. some r) q.ring
      (over_memcpy_whole (store ptr) v.log h q.size (small_log v) q.ring v.power))
