-- ===== src/QMemPool/Held.antt =====
-- The pool over any number of CPUs: no call loses an element or hands one out that is in use.
use prototype_kernel.Base.{false, ℕ, suc, ◌+◌, ◌≤◌, ◌<◌, ◌≡◌, arith, List, ◌∷◌, ◌++◌, some, length}
use prototype_kernel.Copy.Slots.{Ptr}
use prototype_kernel.QMemPool.Ops.{QMemPool, main_alloc, main_free}
use prototype_kernel.QMemPool.Queues.{length_le}
use prototype_kernel.QMemPool.Count.{here, count, count-append, here_self, Accounts}
use prototype_kernel.QMemPool.Conserved.{main_alloc_conserves, main_free_conserves}
use prototype_kernel.QMemPool.Cpus.{
  Pools, cpu_view, after, total_at, Call, alloc_call, free_call, Calls, none_yet, one_more,
  Conserved, view-Pooled, after-Conserved,
}

module _ {Slab : Type 0} {kmem_cache_alloc : Slab → Ptr × Slab}
    {kmem_cache_free : Slab → Ptr → Slab} {out : Slab → Ptr → ℕ}
    (acc : Accounts kmem_cache_alloc kmem_cache_free out) (fuel cpus : ℕ)
    {local_size shared_size : ℕ} (bulky : 15 ≤ local_size) (large : 32 ≤ shared_size) where
  -- An allocation on a CPU returns, and leaves all as it was but for the element.
  pub alloc_returns :
      {w : Pools Slab}
      (c : Conserved kmem_cache_alloc kmem_cache_free out fuel cpus local_size shared_size w)
      (i : ℕ)
      → i < cpus
      → (cell : Ptr) (elems slab_elems : List Ptr) → 16 ≤ length elems
      → 16 ≤ length slab_elems
      → (x : Ptr) × (p : QMemPool Slab) × (main_alloc kmem_cache_alloc kmem_cache_free
            (suc fuel)
            false
            (cpu_view w i)
            cell
            elems
            slab_elems
          ≡ some (x, p))
        × Conserved kmem_cache_alloc kmem_cache_free out fuel cpus local_size shared_size
            (after w i p (x ∷ w.held))
  alloc_returns {w} c i lt cell elems slab_elems given long =
      let (x, p, locals', shared', eq, h, kept) =
        main_alloc_conserves acc fuel bulky large elems given (c.locals i) c.shared
          (view-Pooled kmem_cache_alloc kmem_cache_free out fuel cpus c i lt) cell slab_elems
          long in
      (
        x,
        p,
        eq,
        after-Conserved kmem_cache_alloc kmem_cache_free out fuel cpus c i lt p locals' shared'
            (x ∷ w.held) h (λ y. omega (arith, kept y)),
      )

  free_returns :
      {w : Pools Slab}
      (c : Conserved kmem_cache_alloc kmem_cache_free out fuel cpus local_size shared_size w)
      (i : ℕ)
      → i < cpus
      → (elems before : List Ptr) (elem : Ptr) (later : List Ptr) → 16 ≤ length elems
      → w.held ≡ before ++ elem ∷ later
      → (p : QMemPool Slab) × (main_free kmem_cache_alloc kmem_cache_free
            (suc fuel)
            (cpu_view w i)
            elem
            elems
          ≡ some p)
        × Conserved kmem_cache_alloc kmem_cache_free out fuel cpus local_size shared_size
            (after w i p (before ++ later))
  free_returns {w} c i lt elems before elem later given held =
      let (p, locals', shared', eq, h, kept) =
        main_free_conserves acc fuel bulky large elems given (c.locals i) c.shared
          (view-Pooled kmem_cache_alloc kmem_cache_free out fuel cpus c i lt)
          (length_le (c.localqs i lt)) elem
          (λ y. omega (arith, c.balance y, counted y, total_at cpus i c.locals y lt)) in
      (
        p,
        eq,
        after-Conserved kmem_cache_alloc kmem_cache_free out fuel cpus c i lt p locals' shared'
            (before ++ later) h (λ y. omega (arith, kept y, counted y)),
      )
    where
      counted : (y : Ptr) → count y w.held ≡ here elem y + count y (before ++ later)
      counted y =
          rw held (omega (arith, count-append y before (elem ∷ later), count-append y before later))

  call-Conserved :
      {w v : Pools Slab}
      → Conserved kmem_cache_alloc kmem_cache_free out fuel cpus local_size shared_size w
      → Call kmem_cache_alloc kmem_cache_free out fuel cpus w v
      → Conserved kmem_cache_alloc kmem_cache_free out fuel cpus local_size shared_size v
  call-Conserved {w} c (alloc_call i cell elems slab_elems {x} {p} lt given long e) =
      let (x', p', eq, left) = alloc_returns c i lt cell elems slab_elems given long in
      let same_x : x ≡ x' = cc in let same_p : p ≡ p' = cc in rw (same_x, same_p) left
  call-Conserved {w} c (free_call i elems before elem later {p} lt given held e) =
      let (p', eq, left) = free_returns c i lt elems before elem later given held in
      let same_p : p ≡ p' = cc in rw same_p left

  -- In a pool with local queues of at least 15 slots and a shared queue of at least 32, with a slab
  -- allocator that never gives NULL, and no allocation that lets it sleep: whatever calls the CPUs made, in
  -- any order, each element that the slab allocator has out is held by a caller or in a queue, as often
  -- as it is out, and no other element is.
  pub calls-Conserved :
      {w v : Pools Slab}
      → Conserved kmem_cache_alloc kmem_cache_free out fuel cpus local_size shared_size w
      → Calls kmem_cache_alloc kmem_cache_free out fuel cpus w v
      → Conserved kmem_cache_alloc kmem_cache_free out fuel cpus local_size shared_size v
  calls-Conserved c none_yet = c
  calls-Conserved c (one_more before call) = call-Conserved (calls-Conserved c before) call

  -- With local queues of at least 15 slots, a shared queue of at least 32, and a slab allocator
  -- that never gives NULL and has no element out twice: after any calls of the CPUs on a pool that
  -- accounts for the elements that are out, an allocation on any CPU returns an element that no
  -- caller holds.
  pub allocated_once :
      ((s : Slab) (y : Ptr) → out s y ≤ 1)
      → {w v : Pools Slab}
      → Conserved kmem_cache_alloc kmem_cache_free out fuel cpus local_size shared_size w
      → Calls kmem_cache_alloc kmem_cache_free out fuel cpus w v
      → (i : ℕ) → i < cpus
      → (cell : Ptr) (elems slab_elems : List Ptr) → 16 ≤ length elems
      → 16 ≤ length slab_elems
      → (x : Ptr) × (p : QMemPool Slab) × (main_alloc kmem_cache_alloc kmem_cache_free
            (suc fuel)
            false
            (cpu_view v i)
            cell
            elems
            slab_elems
          ≡ some (x, p))
        × (count x v.held ≡ 0)
  allocated_once once c calls i lt cell elems slab_elems given long =
      let (x, p, eq, left) =
        alloc_returns (calls-Conserved c calls) i lt cell elems slab_elems given long in
      (x, p, eq, omega (arith, left.balance x, once p.slab x, here_self x))
