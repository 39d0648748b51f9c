-- ===== src/RingQueue/Valid.antt =====
-- The representation invariant of a ring_queue at rest, and what its copy macros do.
use prototype_kernel.Base.{
  ℕ, ◌+◌, ◌-◌, ◌%◌, ◌^◌, ◌≤◌, ◌<◌, ◌≡◌, sym, ap, ap₂, ◌∙◌, arith, List, Option, some, length, take,
  ltb, true, false, ltb→lt, ltb→ge, if-eq,
}
use prototype_kernel.Base.Words.{add32, sub32, bit_and_mask}
use prototype_kernel.Copy.Loops.{around}
use prototype_kernel.Copy.Around.{unrolled_rest}
use prototype_kernel.Copy.Runs.{size_bounds, index_lt, plain_run, wrapped_run}
use prototype_kernel.Copy.Slots.{
  Ptr, store, load, around-store, around-load, put_around, window, splice,
}
use prototype_kernel.RingQueue.State.{RingQueue}
use prototype_kernel.RingQueue.Ptrs.{over_ptrs, enqueue_ptrs, dequeue_ptrs}
use native.Mathlib.Nat.{add-zero}
use mathlib.Core.Option

-- Producer and consumer agree on a power of two of slots, and the mask selects one.
pub record IsSized (r : RingQueue) : Type 0 where
  pub log : ℕ
  pub small : log ≤ 28
  pub prod_power : r.prod.size ≡ 2 ^ log
  pub cons_power : r.cons.size ≡ 2 ^ log
  pub ones : r.prod.mask ≡ 2 ^ log - 1
  pub slots : length r.ring ≡ r.prod.size

-- One slot stays free, so the capacity is the mask.
pub record IsValid (r : RingQueue) : Type 0 where
  pub sized : IsSized r
  pub enqueued : r.prod.tail ≡ r.prod.head
  pub dequeued : r.cons.tail ≡ r.cons.head
  pub prod_word : r.prod.head < 2 ^ 32
  pub cons_word : r.cons.head < 2 ^ 32
  pub bounded : sub32 r.prod.head r.cons.head ≤ r.prod.mask

abbrev pub in_use : RingQueue → ℕ
in_use r = sub32 r.prod.tail r.cons.tail

-- The elements from the consumer's tail to the producer's tail, oldest first.
abbrev pub contents : RingQueue → List Ptr
contents r = window r.ring r.prod.size r.cons.tail (in_use r)

module _ (body : ℕ → ℕ → List Ptr → Option (List Ptr)) (k head n : ℕ) (hk : k ≤ 28)
    (hn : n ≤ 2 ^ k) where
  over_ptrs-around :
      (s : List Ptr) → over_ptrs body (2 ^ k) (2 ^ k - 1) head n s ≡ around body (2 ^ k) head n 0 s
  unfolding over_ptrs
  over_ptrs-around s = rw (bit_and_mask k head) (
      if-eq (ltb (add32 idx n) (2 ^ k))
        (λ e.
          unrolled_rest body n idx s (omega (arith, bounds, inside))
          ∙ plain_run body k head n hk s (below e))
        (λ e. wrapped_run body k head n hk s (past e) hn))
    where
      idx : ℕ
      idx = head % 2 ^ k

      bounds : (0 < 2 ^ k) × (2 ^ k ≤ 268435456)
      bounds = size_bounds k head n hk

      inside : idx < 2 ^ k
      inside = index_lt k head n hk

      below : ltb (add32 idx n) (2 ^ k) ≡ true → idx + n ≤ 2 ^ k
      below e = omega (arith, bounds, inside, hn, ltb→lt _ _ e)

      past : ltb (add32 idx n) (2 ^ k) ≡ false → 2 ^ k ≤ idx + n
      past e = omega (arith, bounds, inside, hn, ltb→ge _ _ e)

module _ {r : RingQueue} (v : IsSized r) where
  pub size_lem : (0 < r.prod.size) × (r.prod.size ≤ 268435456) × (r.prod.mask ≡ r.prod.size - 1)
  size_lem = omega (arith, size_bounds v.log 0 0 v.small, v.ones, v.prod_power)

  -- ENQUEUE_PTRS writes exactly the slots from the head on.
  pub enqueue_ptrs-put_around :
      (head : ℕ) (table : List Ptr) (n : ℕ)
      → n ≤ length table
      → n ≤ r.prod.size
      → enqueue_ptrs r head table n
        ≡ some (record r { ring = put_around r.prod.size head (take n table) r.ring })
  unfolding enqueue_ptrs
  enqueue_ptrs-put_around head table n given fits =
      ap (Option.map (λ ring. record r { ring = ring })) (
        ap₂ (λ z m. over_ptrs (store table) z m head n r.ring) v.prod_power v.ones
        ∙ over_ptrs-around (store table) v.log head n v.small (rw (← v.prod_power) fits) r.ring
        ∙ ap (λ z. around (store table) z head n 0 r.ring) (sym v.prod_power)
        ∙ around-store table r.prod.size head n 0 r.ring size_lem.0 v.slots (omega arith)
        ∙ ap (λ h. some (put_around r.prod.size h (take n table) r.ring)) (add-zero head))

  -- DEQUEUE_PTRS reads exactly the slots from the head on.
  pub dequeue_ptrs-window :
      (head : ℕ) (table : List Ptr) (n : ℕ)
      → n ≤ length table
      → n ≤ r.prod.size
      → dequeue_ptrs r head table n ≡ some (splice 0 (window r.ring r.prod.size head n) table)
  unfolding dequeue_ptrs
  dequeue_ptrs-window head table n given fits =
      ap₂ (λ z m. over_ptrs (load r.ring) z m head n table) v.cons_power v.ones
      ∙ over_ptrs-around (load r.ring) v.log head n v.small (rw (← v.prod_power) fits) table
      ∙ ap (λ z. around (load r.ring) z head n 0 table) (sym v.prod_power)
      ∙ around-load r.ring r.prod.size head n 0 table size_lem.0 v.slots (omega arith)
      ∙ ap (λ h. some (splice 0 (window r.ring r.prod.size h n) table)) (add-zero head)
