-- ===== src/Alf/Examples.antt =====
-- Tests of kernel/include/linux/alf_queue.h on a queue of four slots, and the theorems at such
-- inputs.
use prototype_kernel.Base.{
  ℕ, ◌^◌, ◌≡◌, refl, ap, ◌∙◌, arith, List, [], ◌∷◌, Option, some, Bool, true, ◌==◌, length,
  replicate, length-replicate, ==_iff,
}
use prototype_kernel.Copy.Slots.{Ptr, put_around, window}
use prototype_kernel.Fifo.{enqueue_bulk, dequeue_upto}
use prototype_kernel.Alf.Queue.{AlfQueue}
use prototype_kernel.Alf.Valid.{IsSized, IsValid, contents}
use prototype_kernel.Alf.Helpers.{
  enqueue_store_mask, enqueue_store_unroll, enqueue_store_nomask, enqueue_store_unroll_duff,
  enqueue_store_mask_less, enqueue_store_mask_less2, dequeue_load_mask, dequeue_load_mask_less,
  dequeue_load_mask_less2, dequeue_load_nomask, dequeue_load_unroll,
}
use prototype_kernel.Alf.Ops.{alf_sp_enqueue, alf_sc_dequeue}
use prototype_kernel.Alf.Stores.{enqueue_stores_agree, dequeue_loads_agree}
use prototype_kernel.Alf.RefineEnqueue.{alf_sp_enqueue_refines}
use prototype_kernel.Alf.RefineDequeue.{alf_sc_dequeue_refines}

-- Two elements, 8 and 9, with the counters about to wrap at 2 ^ 32.
abbrev near_wrap : AlfQueue
near_wrap = record {
  size = 4;
  mask = 3;
  flags = 0;
  producer = record { head = 0xffffffff; tail = 0xffffffff };
  consumer = record { head = 0xfffffffd; tail = 0xfffffffd };
  ring = 6 ∷ 8 ∷ 9 ∷ 7 ∷ [];
}

near_wrap-IsSized : IsSized near_wrap
near_wrap-IsSized = record { log = 2; small = omega arith; power = refl; ones = refl; slots = refl }

near_wrap-IsValid : IsValid near_wrap
near_wrap-IsValid = record {
  sized = near_wrap-IsSized;
  enqueued = refl;
  dequeued = refl;
  producer_word = omega arith;
  consumer_word = omega arith;
  bounded = omega arith;
}

contents-near_wrap : contents near_wrap ≡ 8 ∷ 9 ∷ []
contents-near_wrap = refl

abbrev two : List Ptr
two = 1 ∷ 2 ∷ []

abbrev four : List Ptr
four = 1 ∷ 2 ∷ 3 ∷ 4 ∷ []

enqueue_wraps :
    alf_sp_enqueue near_wrap two 2
    ≡ some (
      2,
      record near_wrap { producer = record { head = 1; tail = 1 }; ring = 2 ∷ 8 ∷ 9 ∷ 1 ∷ [] },
    )
unfolding alf_sp_enqueue enqueue_store_unroll prototype_kernel.Alf.Shapes.over_unroll
    prototype_kernel.Copy.Loops.masked prototype_kernel.Copy.Slots.store
    prototype_kernel.Copy.Slots.write
enqueue_wraps = refl

-- The Duff variants, entered at `case 0` with nothing to move, move four elements all the same.
duff_stores_four :
    enqueue_store_unroll_duff 0 near_wrap four 0 ≡ some (record near_wrap { ring = four })
unfolding enqueue_store_unroll_duff prototype_kernel.Alf.Shapes.over_unroll_duff
    prototype_kernel.Copy.Slots.store prototype_kernel.Copy.Slots.write
duff_stores_four = refl

duff_stores_three :
    enqueue_store_unroll_duff 0 near_wrap four 3
    ≡ some (record near_wrap { ring = 1 ∷ 2 ∷ 3 ∷ 7 ∷ [] })
unfolding enqueue_store_unroll_duff prototype_kernel.Alf.Shapes.over_unroll_duff
    prototype_kernel.Copy.Slots.store prototype_kernel.Copy.Slots.write
duff_stores_three = refl

enqueue_stores_agree_example :
    let done = some (record near_wrap { ring = 2 ∷ 8 ∷ 9 ∷ 1 ∷ [] }) in
    (enqueue_store_mask 3 near_wrap two 2 ≡ done)
    × (enqueue_store_mask_less 3 near_wrap two 2 ≡ done)
    × (enqueue_store_mask_less2 3 near_wrap two 2 ≡ done)
    × (enqueue_store_nomask 3 near_wrap two 2 ≡ done)
    × (enqueue_store_unroll 3 near_wrap two 2 ≡ done)
enqueue_stores_agree_example =
    enqueue_stores_agree near_wrap-IsSized 3 two 2 (omega arith) (omega arith)

dequeue_loads_agree_example :
    let done : Option (List Ptr) = some (8 ∷ 9 ∷ 5 ∷ []) in
    (dequeue_load_mask 1 near_wrap (0 ∷ 0 ∷ 5 ∷ []) 2 ≡ done)
    × (dequeue_load_mask_less 1 near_wrap (0 ∷ 0 ∷ 5 ∷ []) 2 ≡ done)
    × (dequeue_load_mask_less2 1 near_wrap (0 ∷ 0 ∷ 5 ∷ []) 2 ≡ done)
    × (dequeue_load_nomask 1 near_wrap (0 ∷ 0 ∷ 5 ∷ []) 2 ≡ done)
    × (dequeue_load_unroll 1 near_wrap (0 ∷ 0 ∷ 5 ∷ []) 2 ≡ done)
dequeue_loads_agree_example =
    dequeue_loads_agree near_wrap-IsSized 1 (0 ∷ 0 ∷ 5 ∷ []) 2 (omega arith) (omega arith)

alf_sp_enqueue_refines_example :
    (q' : AlfQueue) × (alf_sp_enqueue near_wrap four 3
      ≡ some ((enqueue_bulk 4 (8 ∷ 9 ∷ []) (1 ∷ 2 ∷ 3 ∷ [])).0, q'))
    × (contents q' ≡ (enqueue_bulk 4 (8 ∷ 9 ∷ []) (1 ∷ 2 ∷ 3 ∷ [])).1)
    × IsValid q'
    × (q'.size ≡ 4)
alf_sp_enqueue_refines_example = alf_sp_enqueue_refines near_wrap-IsValid four 3 (omega arith)

alf_sc_dequeue_refines_example :
    (q' : AlfQueue) × (alf_sc_dequeue near_wrap (0 ∷ 0 ∷ 0 ∷ []) 3 ≡ some (2, 8 ∷ 9 ∷ 0 ∷ [], q'))
    × (contents q' ≡ [])
    × IsValid q'
    × (q'.size ≡ 4)
unfolding dequeue_upto
alf_sc_dequeue_refines_example =
    alf_sc_dequeue_refines near_wrap-IsValid (0 ∷ 0 ∷ 0 ∷ []) 3 (omega arith)

-- A kernel that knows one power of two and always has memory.
only_four : ℕ → Bool
only_four n = n == 4

zeroed : ℕ → Option (List Ptr)
zeroed n = some (replicate n 0)

only_four_power : (n : ℕ) → only_four n ≡ true → (k : ℕ) × (n ≡ 2 ^ k)
unfolding only_four
only_four_power n e = (2, (==_iff n 4).0 e)

zeroed_granted : (n : ℕ) (r : List Ptr) → zeroed n ≡ some r → length r ≡ n
unfolding zeroed
zeroed_granted n r e = let same : r ≡ replicate n 0 = cc in ap length same ∙ length-replicate n 0

abbrev empty_four : AlfQueue
empty_four = record {
  size = 4;
  mask = 3;
  flags = 0;
  producer = record { head = 0; tail = 0 };
  consumer = record { head = 0; tail = 0 };
  ring = 0 ∷ 0 ∷ 0 ∷ 0 ∷ [];
}
