-- ===== src/QMemPool/Roundtrip.antt =====
-- A free followed by an allocation.
use prototype_kernel.Base.{false, ℕ, suc, ◌<◌, ◌≡◌, ◌∙◌, List, [], ◌∷◌, ◌++◌, length, some, ◌>>=◌}
use prototype_kernel.Copy.Slots.{Ptr}
use prototype_kernel.QMemPool.Ops.{QMemPool, main_alloc, main_free}
use prototype_kernel.QMemPool.Pool.{Pooled, main_alloc_local}
use prototype_kernel.QMemPool.Sharing.{main_free_local}

-- An allocation, with flags that do not let the slab allocator sleep, after a free with room in the
-- local queue hands out the element that has been in
-- the local queue for the longest time: the freed one if there was no other. The shared queue and
-- the slab allocator are as before, and the local queue has the other elements with the freed one
-- last.
pub main_free-main_alloc :
    {Slab : Type 0} (kmem_cache_alloc : Slab → Ptr × Slab) (kmem_cache_free : Slab → Ptr → Slab)
    (fuel : ℕ) {local_size shared_size : ℕ} {pool : QMemPool Slab} {locals shared : List Ptr}
    → Pooled local_size shared_size pool locals shared
    → (elem cell : Ptr) (elems slab_elems : List Ptr) → length locals < local_size
    → (x : Ptr) (others : List Ptr) → locals ++ elem ∷ [] ≡ x ∷ others
    → (p : QMemPool Slab) × (main_free kmem_cache_alloc kmem_cache_free (suc fuel) pool elem elems
          >>= (λ freed.
              main_alloc kmem_cache_alloc kmem_cache_free
                (suc fuel)
                false
                freed
                cell
                elems
                slab_elems)
        ≡ some (x, p))
      × Pooled local_size shared_size p others shared
      × (p.slab ≡ pool.slab)
main_free-main_alloc alloc free fuel {local_size} {shared_size} h elem cell elems slab_elems room x
      others whole =
    let (freed, eq, pooled, same) = main_free_local alloc free fuel h elem elems room in
    let (p, eqp, left, kept) =
      main_alloc_local alloc free fuel {pool = freed} (rw whole at pooled) cell elems slab_elems in
    (p, rw eq eqp, left, kept ∙ same)
