-- ===== src/QMemPool/Slab.antt =====
-- Freeing of elements to the slab allocator, when both queues are full.
use prototype_kernel.Base.{
  ℕ, zero, suc, ◌+◌, ◌≤◌, ◌<◌, ◌≡◌, refl, ap, ◌∙◌, arith, List, [], ◌∷◌, ◌++◌, some, length, take,
  drop, get_or, min, length-take, length-drop, length-append,
}
use prototype_kernel.Copy.Slots.{Ptr, drop-cons, get_elem?-eq-get_or}
use prototype_kernel.Alf.Queue.{AlfQueue}
use prototype_kernel.QMemPool.Ops.{
  QMemPool, main_free, free_to_sharedq, free_to_slab, free_elems, make_room,
}
use prototype_kernel.QMemPool.Queues.{
  Queued, sp_enqueue_full, sc_dequeue-Queued, mp_enqueue_full, mc_dequeue-Queued,
}
use prototype_kernel.QMemPool.Pool.{Pooled, take-append}

-- The slab allocator after all of `xs` were given back, in order.
abbrev pub free_all : {Slab : Type 0} → (Slab → Ptr → Slab) → Slab → List Ptr → Slab
free_all kmem_cache_free slab [] = slab
free_all kmem_cache_free slab (x ∷ xs) = free_all kmem_cache_free (kmem_cache_free slab x) xs

module _ {Slab : Type 0} (kmem_cache_alloc : Slab → Ptr × Slab)
    (kmem_cache_free : Slab → Ptr → Slab) (fuel : ℕ) where
  free_elems_lem :
      (n i : ℕ) (elems : List Ptr) (slab : Slab)
      → i + n ≤ length elems
      → free_elems kmem_cache_alloc kmem_cache_free fuel n i elems slab
        ≡ some (free_all kmem_cache_free slab (take n (drop i elems)))
  unfolding free_elems
  free_elems_lem zero i elems slab inside = refl
  free_elems_lem (suc n) i elems slab inside =
      rw (get_elem?-eq-get_or elems i 0 (omega arith), drop-cons elems i 0 (omega arith))
        (free_elems_lem n (i + 1) elems (kmem_cache_free slab (get_or elems i 0)) (omega arith)
          ∙ ap
              (λ k. some (
                free_all kmem_cache_free (kmem_cache_free slab (get_or elems i 0))
                  (take n (drop k elems))))
              {x = i + 1} {y = suc i} (omega arith))

  -- One round that makes room in the shared queue.
  make_room_step :
      (pool : QMemPool Slab) {shared_size : ℕ} {shared : List Ptr}
      → Queued shared_size pool.sharedq shared
      → (left : ℕ) (elems : List Ptr) → 16 ≤ length elems
      → (q : AlfQueue) × (es : List Ptr) × (16 ≤ length es)
        × Queued shared_size q (drop 16 shared)
        × (make_room kmem_cache_alloc kmem_cache_free (suc fuel) (suc left) pool elems
            ≡ make_room kmem_cache_alloc kmem_cache_free
                (suc fuel)
                left
                (record pool {
                  sharedq = q;
                  slab = free_all kmem_cache_free pool.slab (take 16 shared);
                })
                es)
  unfolding make_room
  make_room_step pool {shared = shared} h left elems given =
      let (q, eq, rest) = mc_dequeue-Queued h elems 16 given fuel in
      (
        q,
        es,
        omega (arith, long),
        rest,
        rw
            (
              eq,
              free_elems_lem num 0 es pool.slab (omega (arith, long)),
              take-append num (take 16 shared) (drop num elems)
                  (omega (arith, length-take 16 shared)),
            )
            refl,
      )
    where
      num : ℕ
      num = min (length shared) 16

      es : List Ptr
      es = take 16 shared ++ drop num elems

      long : (length es ≡ length elems) × (num ≤ length elems)
      long = omega (
        arith,
        length-append (take 16 shared) (drop num elems),
        length-take 16 shared,
        length-drop num elems,
      )

  -- With the local queue full and of at least 15 slots, no room for 16 in the shared one, and 16 cells
  -- on the stack, the freed element and the 15
  -- oldest of the local queue go back to the slab allocator, and then up to 32 of the shared queue,
  -- oldest first, to make room.
  pub main_free_slab :
      {local_size shared_size : ℕ} {pool : QMemPool Slab} {locals shared : List Ptr}
      → Pooled local_size shared_size pool locals shared
      → (elem : Ptr) (elems : List Ptr) → length locals ≡ local_size
      → 15 ≤ local_size
      → 16 ≤ length elems
      → shared_size < length shared + 16
      → (p : QMemPool Slab) × (main_free kmem_cache_alloc kmem_cache_free (suc fuel) pool elem elems
          ≡ some p)
        × Pooled local_size shared_size p (drop 15 locals) (drop 16 (drop 16 shared))
        × (p.slab
            ≡ free_all kmem_cache_free
                (free_all kmem_cache_free
                  (free_all kmem_cache_free pool.slab (elem ∷ take 15 locals))
                  (take 16 shared))
                (take 16 (drop 16 shared)))
  unfolding main_free free_to_sharedq free_to_slab make_room
  main_free_slab {pool} {locals} {shared} h elem elems full bulky given crowded =
      let (k, eqk, kept) = sp_enqueue_full h.localq (elem ∷ []) 1 (omega arith) (omega arith) in
      let (l, eql, queued) =
        sc_dequeue-Queued kept (drop 1 elems) 15 (omega (arith, length-drop 1 elems)) in
      let fifteen : min (length locals) 15 ≡ 15 = omega arith in
      let (q, eqq, shares) = mp_enqueue_full h.sharedq (elem ∷ es) 16 enough fuel crowded in
      let (q1, es1, long1, shares1, eq1) =
        make_room_step (record pool { localq = l; sharedq = q; slab = given_back }) shares 1
          (elem ∷ es) enough in
      let (q2, es2, long2, shares2, eq2) =
        make_room_step
          (record pool {
            localq = l;
            sharedq = q1;
            slab = free_all kmem_cache_free given_back (take 16 shared);
          })
          shares1 0 es1 long1 in
      (
        record pool {
          localq = l;
          sharedq = q2;
          slab =
              free_all kmem_cache_free (free_all kmem_cache_free given_back (take 16 shared))
                (take 16 (drop 16 shared));
        },
        rw
            (
              eqk,
              rw fifteen at eql,
              eqq,
              free_elems_lem 16 0 (elem ∷ es) pool.slab enough,
              take-append 15 (take 15 locals) (drop 15 (drop 1 elems))
                  (omega (arith, length-take 15 locals)),
            )
            (eq1 ∙ eq2),
        record { localq = queued; sharedq = shares2 },
        refl,
      )
    where
      es : List Ptr
      es = take 15 locals ++ drop 15 (drop 1 elems)

      given_back : Slab
      given_back = free_all kmem_cache_free pool.slab (elem ∷ take 15 locals)

      enough : 16 ≤ length (elem ∷ es)
      enough = omega (
        arith,
        length-append (take 15 locals) (drop 15 (drop 1 elems)),
        length-take 15 locals,
        length-drop 15 (drop 1 elems),
        length-drop 1 elems,
      )
