-- ===== src/QMemPool/Pool.antt =====
-- Allocation and freeing of one element, by what the local and the shared queue hold.
use prototype_kernel.Base.{
  false, ℕ, zero, suc, ◌-◌, ◌≤◌, ◌≡◌, refl, ap, arith, List, [], ◌∷◌, ◌++◌, some, length, take,
  drop, min, length-take, length-append, true, lt→ltb, ◌==◌, eq→==, ne→==,
}
use prototype_kernel.Copy.Slots.{Ptr}
use prototype_kernel.QMemPool.Ops.{QMemPool, main_alloc, alloc_from_sharedq}
use prototype_kernel.QMemPool.Queues.{Queued, sp_enqueue_fits, sc_dequeue-Queued, mc_dequeue-Queued}

pub take-append : (k : ℕ) (ys zs : List Ptr) → k ≡ length ys → take k (ys ++ zs) ≡ ys
take-append zero [] zs e = refl
take-append zero (y ∷ ys) zs e = absurd (omega arith)
take-append (suc k) [] zs e = absurd (omega arith)
take-append (suc k) (y ∷ ys) zs e = ap (λ t. y ∷ t) (take-append k ys zs (omega arith))

-- The local queue of `local_size` slots has the elements `locals`, and the shared queue those of
-- `shared`.
pub record Pooled {Slab : Type 0} (local_size shared_size : ℕ) (pool : QMemPool Slab)
    (locals shared : List Ptr) : Type 0 where
  pub localq : Queued local_size pool.localq locals
  pub sharedq : Queued shared_size pool.sharedq shared

module _ {Slab : Type 0} (kmem_cache_alloc : Slab → Ptr × Slab)
    (kmem_cache_free : Slab → Ptr → Slab) (fuel : ℕ) {local_size shared_size : ℕ}
    {pool : QMemPool Slab} where
  -- An element of the local queue is handed out first: the oldest. The shared queue and the slab
  -- allocator are not touched.
  pub main_alloc_local :
      {x : Ptr} {locals shared : List Ptr}
      → Pooled local_size shared_size pool (x ∷ locals) shared
      → (cell : Ptr) (elems slab_elems : List Ptr)
      → (p : QMemPool Slab) × (main_alloc kmem_cache_alloc kmem_cache_free
            (suc fuel)
            false
            pool
            cell
            elems
            slab_elems
          ≡ some (x, p))
        × Pooled local_size shared_size p locals shared
        × (p.slab ≡ pool.slab)
  unfolding main_alloc
  main_alloc_local {x} {locals} h cell elems slab_elems =
      let (l, eq, queued) = sc_dequeue-Queued h.localq (cell ∷ []) 1 (omega arith) in
      (
        record pool { localq = l },
        rw (eq, one) refl,
        record { localq = queued; sharedq = h.sharedq },
        refl,
      )
    where
      one : (min (length (x ∷ locals)) 1 == 1) ≡ true
      one = eq→== (min (length (x ∷ locals)) 1) 1 (omega arith)

  -- What the shared queue hands over when it has more than one element.
  pub more_shared :
      {x y : Ptr} {ys : List Ptr}
      → Pooled local_size shared_size pool [] (x ∷ y ∷ ys)
      → (elems slab_elems : List Ptr) → 15 ≤ local_size
      → 16 ≤ length elems
      → (p : QMemPool Slab) × (alloc_from_sharedq kmem_cache_alloc kmem_cache_free
            (suc fuel)
            false
            pool
            elems
            slab_elems
          ≡ some (x, p))
        × Pooled local_size shared_size p (take 15 (y ∷ ys)) (drop 15 (y ∷ ys))
        × (p.slab ≡ pool.slab)
  unfolding alloc_from_sharedq
  more_shared {x} {y} {ys} h elems slab_elems room given =
      let (q, eq, left) = mc_dequeue-Queued h.sharedq elems 16 given fuel in
      let (l, eql, refilled) =
        sp_enqueue_fits h.localq (take 15 (y ∷ ys) ++ drop num elems) (num - 1)
          (omega
            (arith, length-append (take 15 (y ∷ ys)) (drop num elems), length-take 15 (y ∷ ys)))
          (omega arith) in
      (
        record pool { sharedq = q; localq = l },
        rw
            (
              eq,
              lt→ltb 0 num (omega arith),
              lt→ltb 1 num (omega arith),
              eql,
              ne→== (num - 1) 0 (λ e. omega arith),
            )
            refl,
        record {
          localq =
              rw
                (take-append (num - 1) (take 15 (y ∷ ys)) (drop num elems)
                  (omega (arith, length-take 15 (y ∷ ys))))
                at refilled;
          sharedq = left;
        },
        refl,
      )
    where
      num : ℕ
      num = min (length (x ∷ y ∷ ys)) 16

  pub last_shared :
      {x : Ptr}
      → Pooled local_size shared_size pool [] (x ∷ [])
      → (elems slab_elems : List Ptr) → 16 ≤ length elems
      → (p : QMemPool Slab) × (alloc_from_sharedq kmem_cache_alloc kmem_cache_free
            (suc fuel)
            false
            pool
            elems
            slab_elems
          ≡ some (x, p))
        × Pooled local_size shared_size p [] []
        × (p.slab ≡ pool.slab)
  unfolding alloc_from_sharedq
  last_shared h elems slab_elems given =
      let (q, eq, left) = mc_dequeue-Queued h.sharedq elems 16 given fuel in
      (record pool { sharedq = q }, rw eq refl, record { localq = h.localq; sharedq = left }, refl)
