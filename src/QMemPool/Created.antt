-- ===== src/QMemPool/Created.antt =====
-- A pool as qmempool_create makes it, and all that the CPUs do with it afterwards.
use prototype_kernel.Base.{
  Bool, true, ℕ, zero, suc, ◌^◌, ◌≤◌, ◌<◌, ◌≡◌, refl, arith, List, [], ◌∷◌, Option, some, none,
  length, replicate,
}
use prototype_kernel.Copy.Slots.{Ptr}
use prototype_kernel.Alf.Queue.{AlfQueue}
use prototype_kernel.QMemPool.Queues.{Queued}
use prototype_kernel.QMemPool.Create.{QueuePtr, no_queue, err_ptr, queue_at, Setup, qmempool_create}
use prototype_kernel.QMemPool.Destroy.{LocalQueues, one_cpu}
use prototype_kernel.QMemPool.Lifetime.{qmempool_create-qmempool_destroy}
use prototype_kernel.QMemPool.Count.{Accounts, grants}
use prototype_kernel.QMemPool.Cpus.{Pools, total, Calls, Conserved}
use prototype_kernel.QMemPool.Held.{calls-Conserved}

-- No queue is behind the pointer.
abbrev no_slots : AlfQueue
no_slots = record {
  size = 0;
  mask = 0;
  flags = 0;
  producer = record { head = 0; tail = 0 };
  consumer = record { head = 0; tail = 0 };
  ring = [];
}

abbrev queue_of : QueuePtr → AlfQueue
queue_of (queue_at q) = q
queue_of no_queue = no_slots
queue_of err_ptr = no_slots

abbrev queue_of_cpu : List QueuePtr → ℕ → AlfQueue
queue_of_cpu [] i = no_slots
queue_of_cpu (p ∷ ps) zero = queue_of p
queue_of_cpu (p ∷ ps) (suc i) = queue_of_cpu ps i

abbrev local_queues : Option (List QueuePtr) → ℕ → AlfQueue
local_queues none i = no_slots
local_queues (some ps) i = queue_of_cpu ps i

-- The pool for its callers, who hold nothing yet.
abbrev pub opened : {Slab : Type 0} → Setup → Slab → Pools Slab
opened pool slab = record {
  sharedq = queue_of pool.sharedq;
  localq = local_queues pool.percpu;
  slab = slab;
  held = [];
}

empty_local :
    {size : ℕ} (cpus : ℕ) (qs : List QueuePtr) (i : ℕ)
    → LocalQueues size qs (replicate cpus [])
    → i < cpus
    → Queued size (queue_of_cpu qs i) []
empty_local zero qs i h lt = absurd (omega arith)
empty_local {size = size} (suc cpus) [] i h lt = elim h [ ]
empty_local (suc cpus) (p ∷ ps) zero (one_cpu h hs) lt = h
empty_local (suc cpus) (p ∷ ps) (suc i) (one_cpu h hs) lt = empty_local cpus ps i hs (omega arith)

total_none : (n : ℕ) (y : Ptr) → total n (λ i. []) y ≡ 0
total_none zero y = refl
total_none (suc n) y = omega (arith, total_none n y)

module _ {Slab : Type 0} {kmem_cache_alloc : Slab → Ptr × Slab}
    {kmem_cache_free : Slab → Ptr → Slab} {out : Slab → Ptr → ℕ}
    (acc : Accounts kmem_cache_alloc kmem_cache_free out) (fuel : ℕ) (is_power_of_2 : ℕ → Bool)
    (kzalloc : ℕ → ℕ → Option (List Ptr))
    (power_of_2 : (n : ℕ) → is_power_of_2 n ≡ true → (k : ℕ) × (n ≡ 2 ^ k))
    (granted : (k n : ℕ) (r : List Ptr) → kzalloc k n ≡ some r → length r ≡ n)
    (memory : (k n : ℕ) → (r : List Ptr) × (kzalloc k n ≡ some r)) {localq_sz sharedq_sz : ℕ}
    (big_local : 16 ≤ localq_sz) (big_shared : 32 ≤ sharedq_sz)
    (power_local : is_power_of_2 localq_sz ≡ true) (power_shared : is_power_of_2 sharedq_sz ≡ true)
    (small_local : localq_sz ≤ 65536) (small_shared : sharedq_sz ≤ 65536) (cpus rounds prealloc : ℕ)
    (room : prealloc ≤ sharedq_sz) (few : prealloc < rounds) (s : Slab)
    (unused : (y : Ptr) → out s y ≡ 0) where
  pub opened-Conserved :
      {pool : Setup} {u : Slab}
      → qmempool_create kmem_cache_free
          (suc fuel)
          kmem_cache_alloc
          is_power_of_2
          kzalloc
          rounds
          true
          true
          cpus
          localq_sz
          sharedq_sz
          prealloc
          s
        ≡ some (some pool, u)
      → Conserved kmem_cache_alloc kmem_cache_free out fuel cpus localq_sz sharedq_sz
          (opened pool u)
  opened-Conserved {pool} {u} e =
      let (xs, t, given, len, all) = grants acc fuel prealloc s in
      let (qs, q, eq, locals, shared, gone) =
        qmempool_create-qmempool_destroy kmem_cache_free fuel kmem_cache_alloc is_power_of_2 kzalloc
          power_of_2 granted memory big_local big_shared power_local power_shared small_local
          small_shared given (omega (arith, len)) cpus rounds (omega (arith, len)) in
      let same_pool : pool ≡ record { percpu = some qs; sharedq = queue_at q } = cc in
      let same_slab : u ≡ t = cc in
      rw (same_pool, same_slab)
        (record {
          shared = xs;
          locals = λ i. [];
          sharedq = shared;
          localqs = λ i lt. empty_local cpus qs i locals lt;
          balance = λ y. omega (arith, all y, unused y, total_none cpus y);
        })

  -- Let a pool come from qmempool_create with local queues of at least 16 slots and a shared queue of at
  -- least 32, at most 65536 each, with memory granted, is_power_of_2 right, and a slab allocator that never
  -- gives NULL and has nothing out before. Then whatever allocations that do not let the slab allocator
  -- sleep and frees of what they hold its CPUs make, in any order, each element that the slab allocator has
  -- out is held by a caller or in a queue as often as it is out, and no other element is.
  pub created-Conserved :
      {pool : Setup} {u : Slab} {v : Pools Slab}
      → qmempool_create kmem_cache_free
          (suc fuel)
          kmem_cache_alloc
          is_power_of_2
          kzalloc
          rounds
          true
          true
          cpus
          localq_sz
          sharedq_sz
          prealloc
          s
        ≡ some (some pool, u)
      → Calls kmem_cache_alloc kmem_cache_free out fuel cpus (opened pool u) v
      → Conserved kmem_cache_alloc kmem_cache_free out fuel cpus localq_sz sharedq_sz v
  created-Conserved e = calls-Conserved acc fuel cpus (omega arith) big_shared (opened-Conserved e)
