-- ===== src/QMemPool/Queues.antt =====
-- What the pool relies on of its queues: the operations of an alf_queue at rest, on the list that it
-- holds.
use prototype_kernel.Base.{
  ℕ, suc, ◌+◌, ◌≤◌, ◌<◌, ◌≡◌, ap, ◌∙◌, arith, List, ◌++◌, some, length, take, drop, true, false,
  min, length-take, leb, le→leb, gt→leb,
}
use prototype_kernel.Copy.Slots.{Ptr}
use prototype_kernel.Fifo.{enqueue_bulk, dequeue_upto}
use prototype_kernel.Alf.Queue.{AlfQueue}
use prototype_kernel.Alf.Valid.{IsValid, contents}
use prototype_kernel.Alf.Ops.{alf_sp_enqueue, alf_sc_dequeue, alf_mp_enqueue, alf_mc_dequeue}
use prototype_kernel.Alf.RefineEnqueue.{alf_sp_enqueue_refines, length-contents, count_le}
use prototype_kernel.Alf.RefineDequeue.{alf_sc_dequeue_refines}
use prototype_kernel.Alf.Solo.{alf_mp_enqueue-alf_sp_enqueue, alf_mc_dequeue-alf_sc_dequeue}

-- A valid queue at rest of `size` slots, with the elements `xs`, oldest first.
pub record Queued (size : ℕ) (q : AlfQueue) (xs : List Ptr) : Type 0 where
  pub valid : IsValid q
  pub sized : q.size ≡ size
  pub inside : contents q ≡ xs

-- What is in a queue fits in it.
pub length_le : {size : ℕ} {q : AlfQueue} {xs : List Ptr} → Queued size q xs → length xs ≤ size
length_le h = omega (arith, length-contents h.valid, ap length h.inside, count_le h.valid, h.sized)

module _ {size : ℕ} {q : AlfQueue} {xs : List Ptr} (h : Queued size q xs) (ptr : List Ptr) (n : ℕ)
    (given : n ≤ length ptr) where
  taken : length (take n ptr) ≡ n
  taken = omega (arith, length-take n ptr)

  pub sp_enqueue_fits :
      length xs + n ≤ size
      → (q' : AlfQueue) × (alf_sp_enqueue q ptr n ≡ some (n, q'))
        × Queued size q' (xs ++ take n ptr)
  unfolding enqueue_bulk
  sp_enqueue_fits fits =
      let (q', eq, left, valid, same) = alf_sp_enqueue_refines h.valid ptr n given in
      let room : leb (length (contents q) + length (take n ptr)) q.size ≡ true =
        le→leb _ _ (omega (arith, taken, ap length h.inside, h.sized)) in
      (
        q',
        rw room at eq ∙ ap (λ m. some (m, q')) taken,
        record {
          valid = valid;
          sized = same ∙ h.sized;
          inside = rw room at left ∙ ap (λ t. t ++ take n ptr) h.inside;
        },
      )

  pub sp_enqueue_full :
      size < length xs + n
      → (q' : AlfQueue) × (alf_sp_enqueue q ptr n ≡ some (0, q')) × Queued size q' xs
  unfolding enqueue_bulk
  sp_enqueue_full full =
      let (q', eq, left, valid, same) = alf_sp_enqueue_refines h.valid ptr n given in
      let no_room : leb (length (contents q) + length (take n ptr)) q.size ≡ false =
        gt→leb _ _ (omega (arith, taken, ap length h.inside, h.sized)) in
      (
        q',
        rw no_room at eq,
        record { valid = valid; sized = same ∙ h.sized; inside = rw no_room at left ∙ h.inside },
      )

  pub sc_dequeue-Queued :
      (q' : AlfQueue) × (alf_sc_dequeue q ptr n
        ≡ some (min (length xs) n, take n xs ++ drop (min (length xs) n) ptr, q'))
      × Queued size q' (drop n xs)
  unfolding dequeue_upto
  sc_dequeue-Queued =
      let (q', eq, left, valid, same) = alf_sc_dequeue_refines h.valid ptr n given in
      (
        q',
        rw h.inside at eq,
        record { valid = valid; sized = same ∙ h.sized; inside = left ∙ ap (drop n) h.inside },
      )

  module _ (fuel : ℕ) where
    pub mp_enqueue_fits :
        length xs + n ≤ size
        → (q' : AlfQueue) × (alf_mp_enqueue (suc fuel) q ptr n ≡ some (n, q'))
          × Queued size q' (xs ++ take n ptr)
    mp_enqueue_fits fits =
        rw (alf_mp_enqueue-alf_sp_enqueue h.valid fuel ptr n) (sp_enqueue_fits fits)

    pub mp_enqueue_full :
        size < length xs + n
        → (q' : AlfQueue) × (alf_mp_enqueue (suc fuel) q ptr n ≡ some (0, q')) × Queued size q' xs
    mp_enqueue_full full =
        rw (alf_mp_enqueue-alf_sp_enqueue h.valid fuel ptr n) (sp_enqueue_full full)

    pub mc_dequeue-Queued :
        (q' : AlfQueue) × (alf_mc_dequeue (suc fuel) q ptr n
          ≡ some (min (length xs) n, take n xs ++ drop (min (length xs) n) ptr, q'))
        × Queued size q' (drop n xs)
    mc_dequeue-Queued = rw (alf_mc_dequeue-alf_sc_dequeue h.valid fuel ptr n) sc_dequeue-Queued
