-- ===== src/QMemPool/Destroy.antt =====
-- What `qmempool_destroy` gives back.
use prototype_kernel.Base.{
  ℕ, zero, suc, ◌<◌, ◌≡◌, refl, sym, ap, ◌∙◌, arith, List, [], ◌∷◌, ◌++◌, some, length,
  length-append, eq→==, min,
}
use prototype_kernel.Copy.Slots.{Ptr}
use prototype_kernel.Alf.Queue.{AlfQueue}
use prototype_kernel.Alf.Alloc.{counters_lem}
use prototype_kernel.QMemPool.Queues.{Queued, mc_dequeue-Queued}
use prototype_kernel.QMemPool.Slab.{free_all}
use prototype_kernel.QMemPool.Create.{
  QueuePtr, queue_at, drain, drain_at, drain_cpus, drain_percpu, drain_shared, qmempool_destroy,
}

-- Queues at rest with the elements, one list for each CPU.
pub data LocalQueues (size : ℕ) : List QueuePtr → List (List Ptr) → Type 0 where
  no_cpus : LocalQueues size [] []
  one_cpu :
      {q : AlfQueue} {qs : List QueuePtr} {xs : List Ptr} {xss : List (List Ptr)}
      → Queued size q xs
      → LocalQueues size qs xss
      → LocalQueues size (queue_at q ∷ qs) (xs ∷ xss)

-- All elements of the local queues, in order.
abbrev pub joined : List (List Ptr) → List Ptr
joined [] = []
joined (xs ∷ xss) = xs ++ joined xss

module _ {Slab : Type 0} (kmem_cache_free : Slab → Ptr → Slab) where
  pub free_all-append :
      (xs ys : List Ptr) (slab : Slab)
      → free_all kmem_cache_free slab (xs ++ ys)
        ≡ free_all kmem_cache_free (free_all kmem_cache_free slab xs) ys
  free_all-append [] ys slab = refl
  free_all-append (x ∷ xs) ys slab = free_all-append xs ys (kmem_cache_free slab x)

  module _ (fuel : ℕ) where
    -- The loop of `qmempool_destroy` gives back all that a queue holds, in order, and ends.
    drain_lem :
        {size : ℕ} (xs : List Ptr) (rounds : ℕ) (q : AlfQueue) (elem : Ptr) (slab : Slab)
        → length xs < rounds
        → Queued size q xs
        → drain kmem_cache_free (suc fuel) rounds q elem slab
          ≡ some (free_all kmem_cache_free slab xs)
    unfolding drain
    drain_lem xs zero q elem slab few h = absurd (omega arith)
    drain_lem [] (suc rounds) q elem slab few h =
        let (left, eq, queued) = mc_dequeue-Queued h (elem ∷ []) 1 (omega arith) fuel in
        rw (eq, (counters_lem queued.valid).2.1 queued.inside) refl
    drain_lem (x ∷ xs) (suc rounds) q elem slab few h =
        let (left, eq, queued) = mc_dequeue-Queued h (elem ∷ []) 1 (omega arith) fuel in
        rw (eq, eq→== (min (suc (length xs)) 1) 1 (omega arith))
          (drain_lem xs rounds left x (kmem_cache_free slab x) (omega arith) queued)

    drain_cpus_lem :
        {size : ℕ} {qs : List QueuePtr} {xss : List (List Ptr)}
        → LocalQueues size qs xss
        → (rounds : ℕ) (slab : Slab) → length (joined xss) < rounds
        → drain_cpus kmem_cache_free (suc fuel) rounds qs slab
          ≡ some (free_all kmem_cache_free slab (joined xss))
    unfolding drain_cpus drain_at
    drain_cpus_lem no_cpus rounds slab few = refl
    drain_cpus_lem (one_cpu {q} {qs} {xs} {xss} h more) rounds slab few =
        rw (drain_lem xs rounds q 0 slab (omega (arith, length-append xs (joined xss))) h) (
          drain_cpus_lem more rounds (free_all kmem_cache_free slab xs)
            (omega (arith, length-append xs (joined xss)))
          ∙ ap some (sym (free_all-append xs (joined xss) slab)))

    -- With every queue at rest, and more rounds than elements, `qmempool_destroy` returns and has
    -- given each element back to the slab allocator once: those of the local queues, CPU by CPU,
    -- then those of the shared queue.
    pub qmempool_destroy_lem :
        {size shared_size : ℕ} {qs : List QueuePtr} {xss : List (List Ptr)} {q : AlfQueue}
        {xs : List Ptr}
        → LocalQueues size qs xss
        → Queued shared_size q xs
        → (rounds : ℕ) (slab : Slab) → length (joined xss) < rounds
        → length xs < rounds
        → qmempool_destroy kmem_cache_free
            (suc fuel)
            rounds
            (record { percpu = some qs; sharedq = queue_at q })
            slab
          ≡ some (free_all kmem_cache_free slab (joined xss ++ xs))
    unfolding qmempool_destroy drain_percpu drain_shared drain_at
    qmempool_destroy_lem {xss} {q} {xs} locals shared rounds slab few few' =
        rw (drain_cpus_lem locals rounds slab few) (
          drain_lem xs rounds q 0 (free_all kmem_cache_free slab (joined xss)) few' shared
          ∙ ap some (sym (free_all-append (joined xss) xs slab)))
