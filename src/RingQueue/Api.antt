-- ===== src/RingQueue/Api.antt =====
-- The bulk, single and burst calls of kernel/include/linux/ring_queue.h. `fuel` is what the
-- multi-producer and multi-consumer variants need.
use prototype_kernel.Base.{ℕ, List, [], ◌∷◌, Option, if◌then◌else◌}
use prototype_kernel.Copy.Slots.{Ptr}
use prototype_kernel.RingQueue.State.{RingQueue, Ret, fixed, variable}
use prototype_kernel.RingQueue.Ops.{sp_do_enqueue, mp_do_enqueue, sc_do_dequeue, mc_do_dequeue}

module _ (fuel : ℕ) (r : RingQueue) (obj_table : List Ptr) (n : ℕ) where
  unfoldable pub mp_enqueue_bulk : Option (Ret × RingQueue)
  mp_enqueue_bulk = mp_do_enqueue fuel r obj_table n fixed

  unfoldable pub sp_enqueue_bulk : Option (Ret × RingQueue)
  sp_enqueue_bulk = sp_do_enqueue r obj_table n fixed

  unfoldable pub enqueue_bulk : Option (Ret × RingQueue)
  unfolding mp_enqueue_bulk sp_enqueue_bulk
  enqueue_bulk = if r.prod.sp_enqueue then sp_enqueue_bulk else mp_enqueue_bulk

  unfoldable pub mc_dequeue_bulk : Option (Ret × List Ptr × RingQueue)
  mc_dequeue_bulk = mc_do_dequeue fuel r obj_table n fixed

  unfoldable pub sc_dequeue_bulk : Option (Ret × List Ptr × RingQueue)
  sc_dequeue_bulk = sc_do_dequeue r obj_table n fixed

  unfoldable pub dequeue_bulk : Option (Ret × List Ptr × RingQueue)
  unfolding mc_dequeue_bulk sc_dequeue_bulk
  dequeue_bulk = if r.cons.sc_dequeue then sc_dequeue_bulk else mc_dequeue_bulk

  unfoldable pub mp_enqueue_burst : Option (Ret × RingQueue)
  mp_enqueue_burst = mp_do_enqueue fuel r obj_table n variable

  unfoldable pub sp_enqueue_burst : Option (Ret × RingQueue)
  sp_enqueue_burst = sp_do_enqueue r obj_table n variable

  unfoldable pub enqueue_burst : Option (Ret × RingQueue)
  unfolding mp_enqueue_burst sp_enqueue_burst
  enqueue_burst = if r.prod.sp_enqueue then sp_enqueue_burst else mp_enqueue_burst

  unfoldable pub mc_dequeue_burst : Option (Ret × List Ptr × RingQueue)
  mc_dequeue_burst = mc_do_dequeue fuel r obj_table n variable

  unfoldable pub sc_dequeue_burst : Option (Ret × List Ptr × RingQueue)
  sc_dequeue_burst = sc_do_dequeue r obj_table n variable

  unfoldable pub dequeue_burst : Option (Ret × List Ptr × RingQueue)
  unfolding mc_dequeue_burst sc_dequeue_burst
  dequeue_burst = if r.cons.sc_dequeue then sc_dequeue_burst else mc_dequeue_burst

-- The calls for one object; a dequeue is given the cell that its pointer argument names.
module _ (fuel : ℕ) (r : RingQueue) (obj : Ptr) where
  unfoldable pub mp_enqueue : Option (Ret × RingQueue)
  unfolding mp_enqueue_bulk
  mp_enqueue = mp_enqueue_bulk fuel r (obj ∷ []) 1

  unfoldable pub sp_enqueue : Option (Ret × RingQueue)
  unfolding sp_enqueue_bulk
  sp_enqueue = sp_enqueue_bulk fuel r (obj ∷ []) 1

  unfoldable pub enqueue : Option (Ret × RingQueue)
  unfolding mp_enqueue sp_enqueue
  enqueue = if r.prod.sp_enqueue then sp_enqueue else mp_enqueue

  unfoldable pub mc_dequeue : Option (Ret × List Ptr × RingQueue)
  unfolding mc_dequeue_bulk
  mc_dequeue = mc_dequeue_bulk fuel r (obj ∷ []) 1

  unfoldable pub sc_dequeue : Option (Ret × List Ptr × RingQueue)
  unfolding sc_dequeue_bulk
  sc_dequeue = sc_dequeue_bulk fuel r (obj ∷ []) 1

  unfoldable pub dequeue : Option (Ret × List Ptr × RingQueue)
  unfolding mc_dequeue sc_dequeue
  dequeue = if r.cons.sc_dequeue then sc_dequeue else mc_dequeue
