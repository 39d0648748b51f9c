-- ===== src/QMemPool/Sharing.antt =====
-- Allocation and freeing of one element by way of the shared queue, and of the slab allocator.
use prototype_kernel.Base.{
  false, ℕ, suc, ◌+◌, ◌≤◌, ◌<◌, ◌≡◌, refl, arith, List, [], ◌∷◌, ◌++◌, some, length, take, drop,
  min, length-take, length-drop, length-append,
}
use prototype_kernel.Copy.Slots.{Ptr}
use prototype_kernel.QMemPool.Ops.{QMemPool, main_alloc, main_free, free_to_sharedq}
use prototype_kernel.QMemPool.Queues.{
  sp_enqueue_fits, sp_enqueue_full, sc_dequeue-Queued, mp_enqueue_fits,
}
use prototype_kernel.QMemPool.Pool.{Pooled, more_shared, last_shared, take-append}

module _ {Slab : Type 0} (kmem_cache_alloc : Slab → Ptr × Slab)
    (kmem_cache_free : Slab → Ptr → Slab) (fuel : ℕ) {local_size shared_size : ℕ}
    {pool : QMemPool Slab} where
  -- With the local queue empty and of at least 15 slots, 16 cells on the stack, and flags that do not
  -- let the slab allocator sleep, the oldest element of the shared queue is handed out, and up to 15
  -- more of the shared queue go over to the local one, in order. The slab allocator is not touched.
  pub main_alloc_shared :
      {x : Ptr} {shared : List Ptr}
      → Pooled local_size shared_size pool [] (x ∷ shared)
      → (cell : Ptr) (elems slab_elems : List Ptr) → 15 ≤ local_size
      → 16 ≤ length elems
      → (p : QMemPool Slab) × (main_alloc kmem_cache_alloc kmem_cache_free
            (suc fuel)
            false
            pool
            cell
            elems
            slab_elems
          ≡ some (x, p))
        × Pooled local_size shared_size p (take 15 shared) (drop 15 shared)
        × (p.slab ≡ pool.slab)
  unfolding main_alloc
  main_alloc_shared {x} {shared = []} h cell elems slab_elems room given =
      let (l, eq, queued) = sc_dequeue-Queued h.localq (cell ∷ []) 1 (omega arith) in
      let (p, eqp, pooled, same) =
        last_shared kmem_cache_alloc kmem_cache_free fuel {pool = record pool { localq = l }}
          (record { localq = queued; sharedq = h.sharedq }) elems slab_elems given in
      (p, rw eq eqp, pooled, same)
  main_alloc_shared {x} {shared = y ∷ ys} h cell elems slab_elems room given =
      let (l, eq, queued) = sc_dequeue-Queued h.localq (cell ∷ []) 1 (omega arith) in
      let (p, eqp, pooled, same) =
        more_shared kmem_cache_alloc kmem_cache_free fuel {pool = record pool { localq = l }}
          (record { localq = queued; sharedq = h.sharedq }) elems slab_elems room given in
      (p, rw eq eqp, pooled, same)

  -- A freed element goes to the local queue while that has room. The shared queue and the slab
  -- allocator are not touched.
  pub main_free_local :
      {locals shared : List Ptr}
      → Pooled local_size shared_size pool locals shared
      → (elem : Ptr) (elems : List Ptr) → length locals < local_size
      → (p : QMemPool Slab) × (main_free kmem_cache_alloc kmem_cache_free (suc fuel) pool elem elems
          ≡ some p)
        × Pooled local_size shared_size p (locals ++ elem ∷ []) shared
        × (p.slab ≡ pool.slab)
  unfolding main_free
  main_free_local h elem elems room =
      let (l, eq, queued) = sp_enqueue_fits h.localq (elem ∷ []) 1 (omega arith) (omega arith) in
      (
        record pool { localq = l },
        rw eq refl,
        record { localq = queued; sharedq = h.sharedq },
        refl,
      )

  -- With the local queue full and of at least 15 slots, room for 16 in the shared one, and 16 cells on
  -- the stack, the freed element and the 15 oldest of the local queue go to the shared queue, in this
  -- order. The slab allocator is not touched.
  pub main_free_shared :
      {locals shared : List Ptr}
      → Pooled local_size shared_size pool locals shared
      → (elem : Ptr) (elems : List Ptr) → length locals ≡ local_size
      → 15 ≤ local_size
      → 16 ≤ length elems
      → length shared + 16 ≤ shared_size
      → (p : QMemPool Slab) × (main_free kmem_cache_alloc kmem_cache_free (suc fuel) pool elem elems
          ≡ some p)
        × Pooled local_size shared_size p (drop 15 locals) (shared ++ elem ∷ take 15 locals)
        × (p.slab ≡ pool.slab)
  unfolding main_free free_to_sharedq
  main_free_shared {locals} {shared} h elem elems full bulky given room =
      let (k, eqk, kept) = sp_enqueue_full h.localq (elem ∷ []) 1 (omega arith) (omega arith) in
      let (l, eql, queued) =
        sc_dequeue-Queued kept (drop 1 elems) 15 (omega (arith, length-drop 1 elems)) in
      let fifteen : min (length locals) 15 ≡ 15 = omega arith in
      let (q, eqq, shares) =
        mp_enqueue_fits h.sharedq (elem ∷ take 15 locals ++ drop 15 (drop 1 elems)) 16
          (omega
            (arith, length-append (take 15 locals) (drop 15 (drop 1 elems)), length-take 15 locals))
          fuel room in
      (
        record pool { localq = l; sharedq = q },
        rw (eqk, rw fifteen at eql, eqq) refl,
        record {
          localq = queued;
          sharedq =
              rw
                (take-append 15 (take 15 locals) (drop 15 (drop 1 elems))
                  (omega (arith, length-take 15 locals)))
                at shares;
        },
        refl,
      )
