-- ===== src/QMemPool/Ops.antt =====
-- Allocation and freeing of elements: kernel/include/linux/qmempool.h and kernel/mm/qmempool.c, as
-- one CPU runs them, with its own local queue. The slab allocator is a parameter. `none` is a BUG,
-- an access out of range, or fuel that ended in a loop of the shared queue. `elems` is the array on
-- the stack as the call finds it.
use prototype_kernel.Base.{
  Bool, ℕ, zero, suc, ◌+◌, ◌-◌, List, [], ◌∷◌, Option, none, some, ◌>>=◌, ltb, ◌==◌, if◌then◌else◌,
  get_elem?, drop,
}
use prototype_kernel.Base.Words.{sub32}
use prototype_kernel.Copy.Slots.{Ptr, write}
use prototype_kernel.Alf.Queue.{AlfQueue}
use prototype_kernel.Alf.Ops.{alf_sp_enqueue, alf_sc_dequeue, alf_mp_enqueue, alf_mc_dequeue}

-- QMEMPOOL_BULK
abbrev pub bulk : ℕ
bulk = 16

-- QMEMPOOL_REFILL_MULTIPLIER
abbrev pub refill_multiplier : ℕ
refill_multiplier = 2

-- `struct qmempool`, with the local queue of the CPU that runs and the state of the slab allocator
pub record QMemPool (Slab : Type 0) : Type 0 where
  pub sharedq : AlfQueue
  pub localq : AlfQueue
  pub slab : Slab

-- What a row of slab allocations ends with: the array full, or NULL seen.
pub data Row (Slab : Type 0) : Type 0 where
  filled : List Ptr → QMemPool Slab → Row Slab
  stopped : QMemPool Slab → Row Slab

module _ {Slab : Type 0} (kmem_cache_alloc : Slab → Ptr × Slab)
    (kmem_cache_free : Slab → Ptr → Slab) (fuel : ℕ) where
  -- The inner loop of `__qmempool_alloc_from_slab`; on NULL it enqueues `j - 1` elements and returns.
  unfoldable pub alloc_row : ℕ → ℕ → QMemPool Slab → List Ptr → Option (Row Slab)
  alloc_row zero j pool elems = some (filled elems pool)
  alloc_row (suc left) j pool elems =
      let got = kmem_cache_alloc pool.slab in
      write elems j (got.0) >>= λ es.
      if got.0 == 0
      then (alf_mp_enqueue fuel pool.sharedq es (sub32 j 1) >>= λ (num, q).
          if num == 0 then none else some (stopped (record pool { sharedq = q; slab = got.1 })))
      else alloc_row left (j + 1) (record pool { slab = got.1 }) es

  -- The outer loop.
  unfoldable pub alloc_rows : ℕ → QMemPool Slab → List Ptr → Option (QMemPool Slab)
  unfolding alloc_row
  alloc_rows zero pool elems = some pool
  alloc_rows (suc left) pool elems = alloc_row bulk 0 pool elems >>= λ row. elim row [
    | stopped p ↦ some p
    | filled es p ↦ alf_mp_enqueue fuel p.sharedq es bulk >>= λ (num, q).
        if num == 0 then none else alloc_rows left (record p { sharedq = q }) es
  ]

  -- `__qmempool_alloc_from_slab`; whether the given flags let the slab allocator sleep, which is a BUG
  unfoldable pub alloc_from_slab : Bool → QMemPool Slab → List Ptr → Option (Ptr × QMemPool Slab)
  unfolding alloc_rows
  alloc_from_slab may_sleep pool elems =
      let got = kmem_cache_alloc pool.slab in
      if may_sleep
      then none
      else if got.0 == 0
      then some (0, record pool { slab = got.1 })
      else (alloc_rows refill_multiplier (record pool { slab = got.1 }) elems >>= λ p.
          some (got.0, p))

  -- `__qmempool_alloc_from_sharedq`
  unfoldable pub alloc_from_sharedq :
      Bool → QMemPool Slab → List Ptr → List Ptr → Option (Ptr × QMemPool Slab)
  unfolding alloc_from_slab
  alloc_from_sharedq may_sleep pool elems slab_elems =
      alf_mc_dequeue fuel pool.sharedq elems bulk >>= λ (num, es, q).
      if ltb 0 num
      then (get_elem? es 0 >>= λ elem.
          if ltb 1 num
          then (alf_sp_enqueue pool.localq (drop 1 es) (num - 1) >>= λ (enq, l).
              if enq == 0 then none else some (elem, record pool { sharedq = q; localq = l }))
          else some (elem, record pool { sharedq = q }))
      else alloc_from_slab may_sleep (record pool { sharedq = q }) slab_elems

  -- `main_qmempool_alloc`; `cell` is the variable that the dequeue writes to
  unfoldable pub main_alloc :
      Bool → QMemPool Slab → Ptr → List Ptr → List Ptr → Option (Ptr × QMemPool Slab)
  unfolding alloc_from_sharedq
  main_alloc may_sleep pool cell elems slab_elems =
      alf_sc_dequeue pool.localq (cell ∷ []) 1 >>= λ (num, es, l).
      if num == 1
      then (get_elem? es 0 >>= λ elem. some (elem, record pool { localq = l }))
      else alloc_from_sharedq may_sleep (record pool { localq = l }) elems slab_elems

  -- `for (i = 0; i < n; i++) kmem_cache_free(pool->kmem, elems[i])`
  unfoldable pub free_elems : ℕ → ℕ → List Ptr → Slab → Option Slab
  free_elems zero i elems slab = some slab
  free_elems (suc left) i elems slab =
      get_elem? elems i >>= λ e. free_elems left (i + 1) elems (kmem_cache_free slab e)

  -- The second loop of `__qmempool_free_to_slab`, which makes room in the shared queue.
  unfoldable pub make_room : ℕ → QMemPool Slab → List Ptr → Option (QMemPool Slab)
  unfolding free_elems
  make_room zero pool elems = some pool
  make_room (suc left) pool elems = alf_mc_dequeue fuel pool.sharedq elems bulk >>= λ (num, es, q).
      free_elems num 0 es pool.slab >>= λ slab.
      make_room left (record pool { sharedq = q; slab = slab }) es

  -- `__qmempool_free_to_slab`
  unfoldable pub free_to_slab : QMemPool Slab → List Ptr → ℕ → Option (QMemPool Slab)
  unfolding free_elems make_room
  free_to_slab pool elems n = free_elems n 0 elems pool.slab >>= λ slab.
      make_room refill_multiplier (record pool { slab = slab }) elems

  -- `__qmempool_free_to_sharedq`
  unfoldable pub free_to_sharedq : Ptr → QMemPool Slab → List Ptr → Option (QMemPool Slab)
  unfolding free_to_slab
  free_to_sharedq elem pool elems =
      alf_sc_dequeue pool.localq (drop 1 elems) (bulk - 1) >>= λ (num_deq, es, l).
      if num_deq == 0
      then none
      else (alf_mp_enqueue fuel pool.sharedq (elem ∷ es) (num_deq + 1) >>= λ (num_enq, q).
          if num_enq == num_deq + 1
          then some (record pool { localq = l; sharedq = q })
          else free_to_slab (record pool { localq = l; sharedq = q }) (elem ∷ es) (num_deq + 1))

  -- `main_qmempool_free`
  unfoldable pub main_free : QMemPool Slab → Ptr → List Ptr → Option (QMemPool Slab)
  unfolding free_to_sharedq
  main_free pool elem elems = alf_sp_enqueue pool.localq (elem ∷ []) 1 >>= λ (num, l).
      if num == 1
      then some (record pool { localq = l })
      else free_to_sharedq elem (record pool { localq = l }) elems
