-- ===== src/QMemPool/Create.antt =====
-- `qmempool_create` and `qmempool_destroy` of kernel/mm/qmempool.c. `none` is a BUG, an access through
-- an error pointer or NULL, or fuel that ended in a loop of a shared queue. The arguments are those of
-- one kmem_cache that is not NULL.
use prototype_kernel.Base.{
  Bool, true, false, ℕ, zero, suc, ◌+◌, ◌*◌, List, [], ◌∷◌, Option, none, some, ◌>>=◌, not, ◌||◌,
  ltb, ◌==◌, if◌then◌else◌, get_elem?, replicate,
}
use prototype_kernel.Copy.Slots.{Ptr}
use prototype_kernel.Alf.Queue.{
  AlfQueue, AlfAlloc, allocated, einval, enomem, alf_queue_alloc, alf_queue_empty,
}
use prototype_kernel.Alf.Ops.{alf_mp_enqueue, alf_mc_dequeue}
use prototype_kernel.QMemPool.Ops.{bulk, refill_multiplier}

-- A pointer to a queue, which alf_queue_alloc may have made an error pointer.
pub data QueuePtr : Type 0 where
  no_queue : QueuePtr
  err_ptr : QueuePtr
  queue_at : AlfQueue → QueuePtr

unfoldable pub queue_ptr : AlfAlloc → QueuePtr
queue_ptr (allocated q) = queue_at q
queue_ptr einval = err_ptr
queue_ptr enomem = err_ptr

-- `struct qmempool` while it is set up or taken down, with the local queues of all CPUs. `percpu` is NULL,
-- or there is one queue pointer for each CPU.
pub record Setup : Type 0 where
  pub percpu : Option (List QueuePtr)
  pub sharedq : QueuePtr

module _ {Slab : Type 0} (kmem_cache_free : Slab → Ptr → Slab) (fuel : ℕ) where
  -- `while (alf_mc_dequeue(q, &elem, 1) == 1) kmem_cache_free(pool->kmem, elem);
  -- BUG_ON(!alf_queue_empty(q))`
  unfoldable pub drain : ℕ → AlfQueue → Ptr → Slab → Option Slab
  drain zero q elem slab = none
  drain (suc rounds) q elem slab = alf_mc_dequeue fuel q (elem ∷ []) 1 >>= λ (num, es, left).
      if num == 1
      then (get_elem? es 0 >>= λ e. drain rounds left e (kmem_cache_free slab e))
      else if alf_queue_empty left
      then some slab
      else none

  -- The same, through a pointer.
  unfoldable pub drain_at : ℕ → QueuePtr → Slab → Option Slab
  unfolding drain
  drain_at rounds no_queue slab = none
  drain_at rounds err_ptr slab = none
  drain_at rounds (queue_at q) slab = drain rounds q 0 slab

  -- `for_each_possible_cpu(j)`
  unfoldable pub drain_cpus : ℕ → List QueuePtr → Slab → Option Slab
  unfolding drain_at
  drain_cpus rounds [] slab = some slab
  drain_cpus rounds (q ∷ qs) slab = drain_at rounds q slab >>= drain_cpus rounds qs

  unfoldable pub drain_percpu : ℕ → Option (List QueuePtr) → Slab → Option Slab
  unfolding drain_cpus
  drain_percpu rounds none slab = some slab
  drain_percpu rounds (some qs) slab = drain_cpus rounds qs slab

  -- `if (pool->sharedq) {...}`
  unfoldable pub drain_shared : ℕ → QueuePtr → Slab → Option Slab
  unfolding drain_at
  drain_shared rounds no_queue slab = some slab
  drain_shared rounds err_ptr slab = drain_at rounds err_ptr slab
  drain_shared rounds (queue_at q) slab = drain_at rounds (queue_at q) slab

  -- `qmempool_destroy`: the slab allocator after it
  unfoldable pub qmempool_destroy : ℕ → Setup → Slab → Option Slab
  unfolding drain_percpu drain_shared
  qmempool_destroy rounds pool slab =
      drain_percpu rounds pool.percpu slab >>= drain_shared rounds pool.sharedq

  -- `kzalloc k n` is the memory that the `k`th allocation of `n` slots gets.
  module _ (kmem_cache_alloc : Slab → Ptr × Slab) (is_power_of_2 : ℕ → Bool)
      (kzalloc : ℕ → ℕ → Option (List Ptr)) where
    -- The loop of the preallocation: whether it got all elements, the queue and the slab allocator
    unfoldable pub prealloc_loop : ℕ → AlfQueue → Slab → Option (Bool × AlfQueue × Slab)
    prealloc_loop zero q slab = some (true, q, slab)
    prealloc_loop (suc left) q slab =
        let got = kmem_cache_alloc slab in
        if got.0 == 0
        then some (false, q, got.1)
        else (alf_mp_enqueue fuel q (got.0 ∷ []) 1 >>= λ (num, r).
            if num == 0 then none else prealloc_loop left r (got.1))

    -- `alf_queue_alloc` of one queue, by the `k`th allocation
    unfoldable pub alloc_queue : ℕ → ℕ → QueuePtr
    unfolding queue_ptr
    alloc_queue k size = queue_ptr (alf_queue_alloc is_power_of_2 (kzalloc k) size)

    -- The local queues of the CPUs, zeroed at first: whether all were made, and the pointers.
    unfoldable pub alloc_localqs : ℕ → ℕ → ℕ → Bool × List QueuePtr
    unfolding alloc_queue
    alloc_localqs zero k size = (true, [])
    alloc_localqs (suc cpus) k size =
        let rest = alloc_localqs cpus (k + 1) size in
        elim (alloc_queue k size) [
          | queue_at q ↦ (rest.0, queue_at q ∷ rest.1)
          | no_queue ↦ (false, no_queue ∷ replicate cpus no_queue)
          | err_ptr ↦ (false, err_ptr ∷ replicate cpus no_queue)
        ]

    -- `qmempool_destroy(pool); return NULL;`
    unfoldable pub back_out : ℕ → Setup → Slab → Option (Option Setup × Slab)
    unfolding qmempool_destroy
    back_out rounds pool slab = qmempool_destroy rounds pool slab >>= λ s. some (none, s)

    -- `qmempool_create` behind its checks, with a shared queue
    unfoldable pub fill_pool : ℕ → Bool → ℕ → ℕ → ℕ → AlfQueue → Slab → Option (Option Setup × Slab)
    unfolding prealloc_loop alloc_localqs back_out
    fill_pool rounds percpu_granted cpus localq_sz prealloc q slab =
        prealloc_loop prealloc q slab >>= λ (full, r, s).
        if not full
        then back_out rounds (record { percpu = none; sharedq = queue_at r }) s
        else if not percpu_granted
        then back_out rounds (record { percpu = none; sharedq = queue_at r }) s
        else let (ok, qs) = alloc_localqs cpus 1 localq_sz in
          let pool : Setup = record { percpu = some qs; sharedq = queue_at r } in
          if ok then some (some pool, s) else back_out rounds pool s

    -- `qmempool_create`: the pool, or NULL, and the slab allocator after it. `pool_granted` and
    -- `percpu_granted` tell whether there is memory for the struct and for the local queues' pointers.
    unfoldable pub qmempool_create :
        ℕ → Bool → Bool → ℕ → ℕ → ℕ → ℕ → Slab → Option (Option Setup × Slab)
    unfolding alloc_queue back_out fill_pool
    qmempool_create rounds pool_granted percpu_granted cpus localq_sz sharedq_sz prealloc slab =
        if ltb localq_sz bulk
        then some (none, slab)
        else if ltb sharedq_sz (bulk * refill_multiplier)
        then some (none, slab)
        else if not (is_power_of_2 localq_sz) || not (is_power_of_2 sharedq_sz)
        then some (none, slab)
        else if ltb sharedq_sz prealloc
        then some (none, slab)
        else if not pool_granted
        then some (none, slab)
        else elim (alloc_queue 0 sharedq_sz) [
          | no_queue ↦ back_out rounds (record { percpu = none; sharedq = no_queue }) slab
          | err_ptr ↦ back_out rounds (record { percpu = none; sharedq = err_ptr }) slab
          | queue_at q ↦ fill_pool rounds percpu_granted cpus localq_sz prealloc q slab
        ]
