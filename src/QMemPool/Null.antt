-- ===== src/QMemPool/Null.antt =====
-- What the code does when the slab allocator gives out NULL at the start of a refill.
use prototype_kernel.Base.{
  false, ℕ, suc, ◌≤◌, ◌≡◌, ◌≢◌, refl, ap, ◌∙◌, arith, List, some, none, length, set, length-set,
  ne→==,
}
use prototype_kernel.Base.Words.{sub32}
use prototype_kernel.Copy.Slots.{Ptr, write_in}
use prototype_kernel.Copy.Runs.{size_bounds}
use prototype_kernel.Alf.Queue.{AlfQueue}
use prototype_kernel.Alf.Valid.{IsValid}
use prototype_kernel.Alf.Ops.{alf_mp_enqueue}
use prototype_kernel.Alf.RefineEnqueue.{alf_sp_enqueue_full, length-contents, count_le}
use prototype_kernel.Alf.Solo.{alf_mp_enqueue-alf_sp_enqueue}
use prototype_kernel.QMemPool.Ops.{QMemPool, alloc_row, alloc_rows, alloc_from_slab}
use prototype_kernel.QMemPool.Queues.{Queued, mp_enqueue_fits}

-- An enqueue of `j - 1` elements takes none in when `j` is 0, since the number wraps, or 1.
enqueue_wrapped :
    {q : AlfQueue} (v : IsValid q) (fuel : ℕ) (es : List Ptr)
    → alf_mp_enqueue (suc fuel) q es (sub32 0 1) ≡ some (0, q)
enqueue_wrapped {q} v fuel es =
    alf_mp_enqueue-alf_sp_enqueue v fuel es (sub32 0 1)
    ∙ alf_sp_enqueue_full v es (sub32 0 1)
        (omega (arith, size_bounds v.sized.log 0 0 (omega (arith, v.sized.small)), v.sized.power))

module _ {Slab : Type 0} (kmem_cache_alloc : Slab → Ptr × Slab)
    (kmem_cache_free : Slab → Ptr → Slab) (fuel : ℕ) where
  -- With an element in hand, 16 cells on the stack, and flags that do not let the slab allocator sleep,
  -- a NULL for the first or for the second element of the refill is a BUG:
  -- the code enqueues one element less than it has, so none, and takes the 0 that it gets for a
  -- full queue.
  pub alloc_from_slab_null :
      (pool : QMemPool Slab) {shared_size : ℕ} {shared : List Ptr}
      → Queued shared_size pool.sharedq shared
      → (elems : List Ptr) → 16 ≤ length elems
      → (x : Ptr) (t : Slab) → kmem_cache_alloc pool.slab ≡ (x, t)
      → x ≢ 0
      → ((u : Slab)
          → kmem_cache_alloc t ≡ (0, u)
          → alloc_from_slab kmem_cache_alloc kmem_cache_free (suc fuel) false pool elems ≡ none)
        × ((y : Ptr) (u w : Slab)
            → kmem_cache_alloc t ≡ (y, u)
            → y ≢ 0
            → kmem_cache_alloc u ≡ (0, w)
            → alloc_from_slab kmem_cache_alloc kmem_cache_free (suc fuel) false pool elems ≡ none)
  unfolding alloc_from_slab alloc_rows alloc_row
  alloc_from_slab_null pool {shared} h elems long x t first given = (
    (λ u second.
        rw
          (
            first,
            ne→== x 0 given,
            second,
            write_in elems 0 0 (omega arith),
            enqueue_wrapped h.valid fuel (set elems 0 0),
          )
          refl),
    (λ y u w second some_given third.
        let (q, eq, kept) =
          mp_enqueue_fits h (set (set elems 0 y) 1 0) 0 (omega arith) fuel (
            omega
              (arith, ap length h.inside, length-contents h.valid, count_le h.valid, h.sized)) in
        rw
          (
            first,
            ne→== x 0 given,
            second,
            write_in elems 0 y (omega arith),
            ne→== y 0 some_given,
            third,
            write_in (set elems 0 y) 1 0 (omega (arith, length-set elems 0 y)),
            eq,
          )
          refl),
  )
