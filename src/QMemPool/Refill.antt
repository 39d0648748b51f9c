-- ===== src/QMemPool/Refill.antt =====
-- Allocation from the slab allocator, when both queues are empty.
use prototype_kernel.Base.{
  false, ℕ, suc, ◌+◌, ◌≤◌, ◌≡◌, ◌≢◌, refl, sym, ap, ◌∙◌, arith, List, [], ◌∷◌, ◌++◌, some, length,
  take, drop, set, length-set, length-append, length-drop, ne→==,
}
use prototype_kernel.Copy.Slots.{Ptr, write_in, splice}
use prototype_kernel.Copy.Window.{splice-zero}
use prototype_kernel.Alf.Queue.{AlfQueue}
use prototype_kernel.QMemPool.Ops.{
  QMemPool, filled, alloc_row, alloc_rows, alloc_from_slab, alloc_from_sharedq, main_alloc,
}
use prototype_kernel.QMemPool.Queues.{Queued, sc_dequeue-Queued, mc_dequeue-Queued, mp_enqueue_fits}
use prototype_kernel.QMemPool.Pool.{Pooled, take-append}

module _ {Slab : Type 0} (kmem_cache_alloc : Slab → Ptr × Slab)
    (kmem_cache_free : Slab → Ptr → Slab) (fuel : ℕ) where
  -- The slab allocator hands out `xs`, none of them NULL, one after the other.
  pub data Granted : Slab → List Ptr → Slab → Type 0 where
    granted_none : {s : Slab} → Granted s [] s
    granted_more :
        {s t u : Slab} {x : Ptr} {xs : List Ptr}
        → kmem_cache_alloc s ≡ (x, t)
        → x ≢ 0
        → Granted t xs u
        → Granted s (x ∷ xs) u

  alloc_row_lem :
      {xs : List Ptr} {s u : Slab}
      → Granted s xs u
      → (j : ℕ) (pool : QMemPool Slab) (elems : List Ptr) → pool.slab ≡ s
      → j + length xs ≤ length elems
      → alloc_row kmem_cache_alloc kmem_cache_free (suc fuel) (length xs) j pool elems
        ≡ some (filled (splice j xs elems) (record pool { slab = u }))
  unfolding alloc_row
  alloc_row_lem granted_none j pool elems e inside =
      ap (λ s. some (filled elems (record pool { slab = s }))) e
  alloc_row_lem (granted_more {t = t} {x = x} got given more) j pool elems e inside =
      rw (ap kmem_cache_alloc e ∙ got, write_in elems j x (omega arith), ne→== x 0 given)
        (alloc_row_lem more (j + 1) (record pool { slab = t }) (set elems j x) refl
          (omega (arith, length-set elems j x)))

  -- A row of 16 that is granted goes into the shared queue.
  alloc_rows_step :
      {xs shared : List Ptr} {s u : Slab} {shared_size : ℕ}
      → Granted s xs u
      → length xs ≡ 16
      → (left : ℕ) (pool : QMemPool Slab) (elems : List Ptr) → pool.slab ≡ s
      → 16 ≤ length elems
      → Queued shared_size pool.sharedq shared
      → length shared + 16 ≤ shared_size
      → (q : AlfQueue) × (es : List Ptr) × (16 ≤ length es)
        × Queued shared_size q (shared ++ xs)
        × (alloc_rows kmem_cache_alloc kmem_cache_free (suc fuel) (suc left) pool elems
            ≡ alloc_rows kmem_cache_alloc kmem_cache_free
                (suc fuel)
                left
                (record pool { slab = u; sharedq = q })
                es)
  unfolding alloc_rows
  alloc_rows_step {xs} {shared} {u = u} granted sixteen left pool elems e given h room =
      let (q, eq, queued) = mp_enqueue_fits h es 16 (omega (arith, long)) fuel room in
      (
        q,
        es,
        omega (arith, long),
        rw (ap (take 16) spliced ∙ take-append 16 xs (drop (length xs) elems) (omega arith)) at
            queued,
        rw (row, eq) refl,
      )
    where
      es : List Ptr
      es = splice 0 xs elems

      spliced : es ≡ xs ++ drop (length xs) elems
      spliced = splice-zero xs elems (omega arith)

      long : length es ≡ length elems
      long =
          ap length spliced
          ∙ omega (arith, length-append xs (drop (length xs) elems), length-drop (length xs) elems)

      row :
          alloc_row kmem_cache_alloc kmem_cache_free (suc fuel) 16 0 pool elems
          ≡ some (filled es (record pool { slab = u }))
      row =
          ap (λ n. alloc_row kmem_cache_alloc kmem_cache_free (suc fuel) n 0 pool elems)
            (sym sixteen)
          ∙ alloc_row_lem granted 0 pool elems e (omega arith)

  alloc_from_slab_lem :
      {x : Ptr} {xs ys : List Ptr} {t u w : Slab} {shared_size : ℕ} (pool : QMemPool Slab)
      → kmem_cache_alloc pool.slab ≡ (x, t)
      → x ≢ 0
      → Granted t xs u
      → length xs ≡ 16
      → Granted u ys w
      → length ys ≡ 16
      → (elems : List Ptr) → 16 ≤ length elems
      → Queued shared_size pool.sharedq []
      → 32 ≤ shared_size
      → (q : AlfQueue) × Queued shared_size q (xs ++ ys)
        × (alloc_from_slab kmem_cache_alloc kmem_cache_free (suc fuel) false pool elems
            ≡ some (x, record pool { slab = w; sharedq = q }))
  unfolding alloc_from_slab alloc_rows
  alloc_from_slab_lem {x} {xs} {t = t} {u = u} pool first given row1 n1 row2 n2 elems long h room =
      let (q1, es1, long1, h1, eq1) =
        alloc_rows_step row1 n1 1 (record pool { slab = t }) elems refl long h (omega arith) in
      let (q2, es2, long2, h2, eq2) =
        alloc_rows_step row2 n2 0 (record pool { slab = u; sharedq = q1 }) es1 refl long1 h1
          (omega arith) in
      (q2, h2, rw (first, ne→== x 0 given, eq1, eq2) refl)

  -- With both queues empty, the shared one of at least 32 slots, 16 cells in each array on the stack,
  -- flags that do not let the slab allocator sleep, and 33 elements granted, the first is handed out and
  -- the other 32 go to the shared queue, in order.
  pub main_alloc_refill :
      {x : Ptr} {xs ys : List Ptr} {t u w : Slab} {local_size shared_size : ℕ}
      {pool : QMemPool Slab}
      → Pooled local_size shared_size pool [] []
      → 32 ≤ shared_size
      → kmem_cache_alloc pool.slab ≡ (x, t)
      → x ≢ 0
      → Granted t xs u
      → length xs ≡ 16
      → Granted u ys w
      → length ys ≡ 16
      → (cell : Ptr) (elems slab_elems : List Ptr) → 16 ≤ length elems
      → 16 ≤ length slab_elems
      → (p : QMemPool Slab) × (main_alloc kmem_cache_alloc kmem_cache_free
            (suc fuel)
            false
            pool
            cell
            elems
            slab_elems
          ≡ some (x, p))
        × Pooled local_size shared_size p [] (xs ++ ys)
        × (p.slab ≡ w)
  unfolding main_alloc alloc_from_sharedq
  main_alloc_refill {w = w} {pool = pool} h room first given row1 n1 row2 n2 cell elems slab_elems
        long slab_long =
      let (l, eql, locals) = sc_dequeue-Queued h.localq (cell ∷ []) 1 (omega arith) in
      let (q, eqq, shared) = mc_dequeue-Queued h.sharedq elems 16 long fuel in
      let (q2, refilled, eq) =
        alloc_from_slab_lem (record pool { localq = l; sharedq = q }) first given row1 n1 row2 n2
          slab_elems slab_long shared room in
      (
        record pool { localq = l; sharedq = q2; slab = w },
        rw (eql, eqq, eq) refl,
        record { localq = locals; sharedq = refilled },
        refl,
      )
