-- ===== src/QMemPool/Lifetime.antt =====
-- A pool from its creation to its destruction: every element that it took comes back.
use prototype_kernel.Base.{
  Bool, true, ℕ, zero, suc, ◌+◌, ◌^◌, ◌≤◌, ◌<◌, ◌≡◌, refl, sym, ap, ◌∙◌, arith, List, [], ◌∷◌, ◌++◌,
  Option, some, none, length, replicate, append-nil, append_assoc, length-append, ne→==, ge→ltb,
  lt→ltb,
}
use prototype_kernel.Base.Words.{sub32}
use prototype_kernel.Copy.Slots.{Ptr}
use prototype_kernel.Alf.Queue.{AlfQueue, allocated, alf_queue_alloc}
use prototype_kernel.Alf.Alloc.{alf_queue_alloc-IsValid}
use prototype_kernel.QMemPool.Queues.{Queued, mp_enqueue_fits}
use prototype_kernel.QMemPool.Slab.{free_all}
use prototype_kernel.QMemPool.Refill.{Granted, granted_none, granted_more}
use prototype_kernel.QMemPool.Destroy.{LocalQueues, no_cpus, one_cpu, joined, qmempool_destroy_lem}
use prototype_kernel.QMemPool.Create.{
  QueuePtr, queue_at, queue_ptr, drain_at, drain_percpu, drain_shared, qmempool_destroy,
  prealloc_loop, alloc_queue, alloc_localqs, back_out, fill_pool, qmempool_create,
}

module _ {Slab : Type 0} (kmem_cache_free : Slab → Ptr → Slab) (fuel : ℕ)
    (kmem_cache_alloc : Slab → Ptr × Slab) (is_power_of_2 : ℕ → Bool)
    (kzalloc : ℕ → ℕ → Option (List Ptr))
    (power_of_2 : (n : ℕ) → is_power_of_2 n ≡ true → (k : ℕ) × (n ≡ 2 ^ k))
    (granted : (k n : ℕ) (r : List Ptr) → kzalloc k n ≡ some r → length r ≡ n)
    (memory : (k n : ℕ) → (r : List Ptr) × (kzalloc k n ≡ some r)) where
  made :
      (k size : ℕ)
      → is_power_of_2 size ≡ true
      → size ≤ 65536
      → (q : AlfQueue) × (alf_queue_alloc is_power_of_2 (kzalloc k) size ≡ allocated q)
  unfolding alf_queue_alloc
  made k size power small =
      let (ring, got) = memory k size in
      (
        record {
          size = size;
          mask = sub32 size 1;
          flags = 0;
          producer = record { head = 0; tail = 0 };
          consumer = record { head = 0; tail = 0 };
          ring = ring;
        },
        rw (power, ge→ltb 65536 size small, got) refl,
      )

  -- With the memory, an allocated queue is empty and at rest.
  alloc_queue_lem :
      (k size : ℕ)
      → is_power_of_2 size ≡ true
      → size ≤ 65536
      → (q : AlfQueue) × (alloc_queue kmem_cache_free
            (suc fuel)
            kmem_cache_alloc
            is_power_of_2
            kzalloc
            k
            size
          ≡ queue_at q)
        × Queued size q []
  unfolding alloc_queue queue_ptr
  alloc_queue_lem k size power small =
      let (q, e) = made k size power small in
      let (sized, valid, nothing) =
        alf_queue_alloc-IsValid is_power_of_2 (kzalloc k) power_of_2 (granted k) size q e in
      (q, rw e refl, record { valid = valid; sized = sized; inside = nothing })

  alloc_localqs_lem :
      (cpus k size : ℕ)
      → is_power_of_2 size ≡ true
      → size ≤ 65536
      → (qs : List QueuePtr) × (alloc_localqs kmem_cache_free
            (suc fuel)
            kmem_cache_alloc
            is_power_of_2
            kzalloc
            cpus
            k
            size
          ≡ (true, qs))
        × LocalQueues size qs (replicate cpus [])
  unfolding alloc_localqs
  alloc_localqs_lem zero k size power small = ([], refl, no_cpus)
  alloc_localqs_lem (suc cpus) k size power small =
      let (q, e, h) = alloc_queue_lem k size power small in
      let (qs, es, hs) = alloc_localqs_lem cpus (k + 1) size power small in
      (queue_at q ∷ qs, rw (alloc_localqs, e, es) refl, one_cpu h hs)

  -- The preallocation puts all elements that are granted into the shared queue, in order.
  prealloc_lem :
      {size : ℕ} {xs ys : List Ptr} {s u : Slab} {q : AlfQueue}
      → Granted kmem_cache_alloc kmem_cache_free fuel s xs u
      → Queued size q ys
      → length ys + length xs ≤ size
      → (r : AlfQueue) × (prealloc_loop kmem_cache_free
            (suc fuel)
            kmem_cache_alloc
            is_power_of_2
            kzalloc
            (length xs)
            q
            s
          ≡ some (true, r, u))
        × Queued size r (ys ++ xs)
  unfolding prealloc_loop
  prealloc_lem {ys = ys} {q = q} granted_none h room = (q, refl, rw (append-nil ys) h)
  prealloc_lem {ys = ys} (granted_more {x = x} {xs = xs} got given more) h room =
      let (r, eq, queued) = mp_enqueue_fits h (x ∷ []) 1 (omega arith) fuel (omega arith) in
      let (r', eq', queued') =
        prealloc_lem more queued (omega (arith, length-append ys (x ∷ []))) in
      (r', rw (got, ne→== x 0 given, eq) eq', rw (sym (append_assoc ys (x ∷ []) xs)) queued')

  -- A pool of allowed sizes, with memory for all and the preallocation granted, is created with the
  -- granted elements in its shared queue, in order, and empty local queues; destroyed at once, it
  -- gives each element back once, and in the same order.
  pub qmempool_create-qmempool_destroy :
      {localq_sz sharedq_sz : ℕ} {xs : List Ptr} {s u : Slab}
      → 16 ≤ localq_sz
      → 32 ≤ sharedq_sz
      → is_power_of_2 localq_sz ≡ true
      → is_power_of_2 sharedq_sz ≡ true
      → localq_sz ≤ 65536
      → sharedq_sz ≤ 65536
      → Granted kmem_cache_alloc kmem_cache_free fuel s xs u
      → length xs ≤ sharedq_sz
      → (cpus rounds : ℕ) → length xs < rounds
      → (qs : List QueuePtr) × (q : AlfQueue) × (qmempool_create kmem_cache_free
            (suc fuel)
            kmem_cache_alloc
            is_power_of_2
            kzalloc
            rounds
            true
            true
            cpus
            localq_sz
            sharedq_sz
            (length xs)
            s
          ≡ some (some (record { percpu = some qs; sharedq = queue_at q }), u))
        × LocalQueues localq_sz qs (replicate cpus [])
        × Queued sharedq_sz q xs
        × (qmempool_destroy kmem_cache_free
              (suc fuel)
              rounds
              (record { percpu = some qs; sharedq = queue_at q })
              u
            ≡ some (free_all kmem_cache_free u xs))
  unfolding qmempool_create fill_pool
  qmempool_create-qmempool_destroy {localq_sz} {sharedq_sz} {xs} {s} {u} big_local big_shared
        power_local power_shared small_local small_shared given room cpus rounds few =
      let (q, e, h) = alloc_queue_lem 0 sharedq_sz power_shared small_shared in
      let (qs, es, hs) = alloc_localqs_lem cpus 1 localq_sz power_local small_local in
      let (r, filled, shared) = prealloc_lem given h (omega arith) in
      (
        qs,
        r,
        rw
            (
              qmempool_create,
              ge→ltb localq_sz 16 big_local,
              ge→ltb sharedq_sz 32 big_shared,
              power_local,
              power_shared,
              ge→ltb sharedq_sz (length xs) room,
              e,
              fill_pool,
              filled,
              es,
            )
            refl,
        hs,
        shared,
        qmempool_destroy_lem kmem_cache_free fuel hs shared rounds u
              (omega (arith, none_local cpus)) few
            ∙ ap (λ l. some (free_all kmem_cache_free u (l ++ xs))) (no_locals cpus),
      )
    where
      no_locals : (n : ℕ) → joined (replicate n []) ≡ []
      no_locals zero = refl
      no_locals (suc n) = no_locals n

      none_local : (n : ℕ) → length (joined (replicate n [])) ≡ 0
      none_local n = ap length (no_locals n)

module _ {Slab : Type 0} (kmem_cache_free : Slab → Ptr → Slab) (fuel : ℕ)
    (kmem_cache_alloc : Slab → Ptr × Slab) (is_power_of_2 : ℕ → Bool)
    (kzalloc : ℕ → ℕ → Option (List Ptr)) where
  -- A shared queue that cannot be allocated, for its size is a power of two above 65536, is an
  -- error pointer, which the cleanup then follows.
  pub qmempool_create_faults :
      {localq_sz sharedq_sz prealloc : ℕ} (s : Slab)
      → 16 ≤ localq_sz
      → is_power_of_2 localq_sz ≡ true
      → is_power_of_2 sharedq_sz ≡ true
      → 65536 < sharedq_sz
      → prealloc ≤ sharedq_sz
      → (cpus rounds : ℕ)
      → qmempool_create kmem_cache_free fuel kmem_cache_alloc is_power_of_2 kzalloc rounds true true
          cpus localq_sz sharedq_sz prealloc s
        ≡ none
  unfolding qmempool_create alloc_queue alf_queue_alloc queue_ptr back_out qmempool_destroy
      drain_percpu drain_shared drain_at
  qmempool_create_faults {localq_sz} {sharedq_sz} {prealloc} s big_local power_local power_shared
        large room cpus rounds =
      rw
        (
          qmempool_create,
          ge→ltb localq_sz 16 big_local,
          ge→ltb sharedq_sz 32 (omega arith),
          power_local,
          power_shared,
          ge→ltb sharedq_sz prealloc room,
          lt→ltb 65536 sharedq_sz large,
        )
        refl
