-- ===== src/RingQueue/Entered.antt =====
-- A ring_queue at rest after elements went in.
use prototype_kernel.Base.{
  ℕ, ◌+◌, ◌-◌, ◌%◌, ◌^◌, ◌≤◌, ◌≡◌, refl, sym, ap, ap₂, ◌∙◌, arith, List, Option, some, length, take,
  ◌++◌, length-take, ◌>>=◌,
}
use prototype_kernel.Base.Words.{add32, sub32}
use prototype_kernel.Copy.Slots.{Ptr, put_around, window}
use prototype_kernel.Copy.Window.{
  length-window, length-put_around, window-put_around, put_around_mod32,
}
use prototype_kernel.RingQueue.State.{RingQueue, Ret}
use prototype_kernel.RingQueue.Ptrs.{enqueue_ptrs}
use prototype_kernel.RingQueue.Ops.{set_prod_head, set_prod_tail, free_entries}
use prototype_kernel.RingQueue.Valid.{
  IsSized, IsValid, in_use, contents, size_lem, enqueue_ptrs-put_around,
}

abbrev pub finish : Ret → ℕ → RingQueue → Option (Ret × RingQueue)
finish ret t s = some (ret, set_prod_tail s t)

module _ {r : RingQueue} (v : IsValid r) where
  pub length-contents : length (contents r) ≡ in_use r
  length-contents = length-window r.ring r.prod.size r.cons.tail (in_use r)

  pub in_use_le : in_use r ≤ r.prod.mask
  in_use_le = omega (arith, v.bounded, v.enqueued, v.dequeued)

  -- The unsigned difference of the code, without wrap-around.
  pub free_entries_lem : free_entries r ≡ r.prod.mask - in_use r
  unfolding free_entries
  free_entries_lem = omega (arith, size_lem v.sized, in_use_le)

  put_at :
      (xs : List Ptr)
      → put_around r.prod.size r.prod.head xs r.ring
        ≡ put_around r.prod.size (r.cons.tail + in_use r) xs r.ring
  put_at xs =
      ap (λ h. put_around r.prod.size h xs r.ring) (sym producer_place)
      ∙ ap (λ z. put_around z ((r.cons.tail + in_use r) % 2 ^ 32) xs r.ring) v.sized.prod_power
      ∙ put_around_mod32 v.sized.log (r.cons.tail + in_use r) xs r.ring
          (omega (arith, v.sized.small))
      ∙ ap (λ z. put_around z (r.cons.tail + in_use r) xs r.ring) (sym v.sized.prod_power)
    where
      producer_place : (r.cons.tail + in_use r) % 2 ^ 32 ≡ r.prod.head
      producer_place = omega (arith, v.enqueued, v.dequeued, v.prod_word, v.cons_word)

  module _ (table : List Ptr) (m : ℕ) where
    -- The ring after the first `m` elements of the table went in.
    abbrev pub entered : RingQueue
    entered = record r {
      prod = record (r.prod) { head = add32 r.prod.head m; tail = add32 r.prod.head m };
      ring = put_around r.prod.size r.prod.head (take m table) r.ring;
    }

    module _ (given : m ≤ length table) (fits : m ≤ r.prod.mask - in_use r) where
      pub entered-IsValid : IsValid entered
      entered-IsValid = record {
        sized = record {
          log = v.sized.log;
          small = v.sized.small;
          prod_power = v.sized.prod_power;
          cons_power = v.sized.cons_power;
          ones = v.sized.ones;
          slots = length-put_around r.prod.size r.prod.head (take m table) r.ring ∙ v.sized.slots;
        };
        enqueued = refl;
        dequeued = v.dequeued;
        prod_word = omega arith;
        cons_word = v.cons_word;
        bounded = omega (arith, size_lem v.sized, in_use_le, v.dequeued, v.enqueued);
      }

      pub contents-entered : contents entered ≡ contents r ++ take m table
      contents-entered =
          ap₂ (λ t j. window t r.prod.size r.cons.tail j) (put_at (take m table)) total
          ∙ window-put_around r.prod.size r.cons.tail (in_use r) (take m table) r.ring v.sized.slots
              (omega (arith, length-take m table, in_use_le, size_lem v.sized))
        where
          total : sub32 (add32 r.prod.head m) r.cons.tail ≡ in_use r + length (take m table)
          total =
              omega
                (arith, length-take m table, in_use_le, size_lem v.sized, v.dequeued, v.enqueued)

      pub enqueue_ptrs-entered :
          (ret : Ret)
          → (enqueue_ptrs (set_prod_head r (add32 r.prod.head m)) r.prod.head table m >>= λ s.
              finish ret (add32 r.prod.head m) s)
            ≡ some (ret, entered)
      enqueue_ptrs-entered ret =
          ap (λ o. o >>= λ s. finish ret (add32 r.prod.head m) s)
            (enqueue_ptrs-put_around head_moved r.prod.head table m given
              (omega (arith, in_use_le, size_lem v.sized)))
        where
          head_moved : IsSized (set_prod_head r (add32 r.prod.head m))
          head_moved = record {
            log = v.sized.log;
            small = v.sized.small;
            prod_power = v.sized.prod_power;
            cons_power = v.sized.cons_power;
            ones = v.sized.ones;
            slots = v.sized.slots;
          }
