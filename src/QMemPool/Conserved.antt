-- ===== src/QMemPool/Conserved.antt =====
-- No call of one CPU loses an element or makes one.
use prototype_kernel.Base.{
  false, ℕ, suc, ◌+◌, ◌≤◌, ◌≡◌, refl, ap, arith, List, [], ◌∷◌, ◌++◌, some, length, take, drop,
}
use prototype_kernel.Copy.Slots.{Ptr}
use prototype_kernel.QMemPool.Ops.{QMemPool, main_alloc, main_free}
use prototype_kernel.QMemPool.Pool.{Pooled, main_alloc_local}
use prototype_kernel.QMemPool.Sharing.{main_alloc_shared, main_free_local, main_free_shared}
use prototype_kernel.QMemPool.Slab.{main_free_slab}
use prototype_kernel.QMemPool.Refill.{main_alloc_refill}
use prototype_kernel.QMemPool.Count.{
  here, count, count-append, count_split, Accounts, out-free_rows, grants,
}
use native.Mathlib.Decide.{dec_lt, dec_le}

module _ {Slab : Type 0} {kmem_cache_alloc : Slab → Ptr × Slab}
    {kmem_cache_free : Slab → Ptr → Slab} {out : Slab → Ptr → ℕ}
    (acc : Accounts kmem_cache_alloc kmem_cache_free out) (fuel : ℕ) {local_size shared_size : ℕ}
    (bulky : 15 ≤ local_size) (large : 32 ≤ shared_size) {pool : QMemPool Slab} (elems : List Ptr)
    (given : 16 ≤ length elems) where
  -- An allocation returns, and what it hands out is gone from the queues, or new from the slab allocator.
  pub main_alloc_conserves :
      (locals shared : List Ptr)
      → Pooled local_size shared_size pool locals shared
      → (cell : Ptr) (slab_elems : List Ptr) → 16 ≤ length slab_elems
      → (x : Ptr) × (p : QMemPool Slab) × (locals' : List Ptr) × (shared' : List Ptr) × (main_alloc
            kmem_cache_alloc kmem_cache_free
            (suc fuel)
            false
            pool
            cell
            elems
            slab_elems
          ≡ some (x, p))
        × Pooled local_size shared_size p locals' shared'
        × ((y : Ptr)
            → here x y + count y locals' + count y shared' + out pool.slab y
              ≡ count y locals + count y shared + out p.slab y)
  main_alloc_conserves (x ∷ locals) shared h cell slab_elems long =
      let (p, eq, h', same) =
        main_alloc_local kmem_cache_alloc kmem_cache_free fuel h cell elems slab_elems in
      (x, p, locals, shared, eq, h', (λ y. omega (arith, ap (λ s. out s y) same)))
  main_alloc_conserves [] (x ∷ shared) h cell slab_elems long =
      let (p, eq, h', same) =
        main_alloc_shared kmem_cache_alloc kmem_cache_free fuel h cell elems slab_elems bulky
          given in
      (
        x,
        p,
        take 15 shared,
        drop 15 shared,
        eq,
        h',
        (λ y. omega (arith, ap (λ s. out s y) same, count_split y 15 shared)),
      )
  main_alloc_conserves [] [] h cell slab_elems long =
      let (xs, u, row1, n1, all1) = grants acc fuel 16 (kmem_cache_alloc pool.slab).1 in
      let (ys, w, row2, n2, all2) = grants acc fuel 16 u in
      let (p, eq, h', same) =
        main_alloc_refill kmem_cache_alloc kmem_cache_free fuel h large refl (acc.there pool.slab)
          row1 n1 row2 n2 cell elems slab_elems given long in
      (
        _,
        p,
        [],
        xs ++ ys,
        eq,
        h',
        (λ y. omega (
          arith,
          ap (λ s. out s y) same,
          all1 y,
          all2 y,
          acc.taken pool.slab y,
          count-append y xs ys,
        )),
      )

  -- A free returns, and the element is in the queues then, or back in the slab allocator with others.
  pub main_free_conserves :
      (locals shared : List Ptr)
      → Pooled local_size shared_size pool locals shared
      → length locals ≤ local_size
      → (elem : Ptr) → ((y : Ptr) → here elem y + count y locals + count y shared ≤ out pool.slab y)
      → (p : QMemPool Slab) × (locals' : List Ptr) × (shared' : List Ptr) × (main_free
            kmem_cache_alloc kmem_cache_free
            (suc fuel)
            pool
            elem
            elems
          ≡ some p)
        × Pooled local_size shared_size p locals' shared'
        × ((y : Ptr)
            → count y locals' + count y shared' + out pool.slab y
              ≡ here elem y + count y locals + count y shared + out p.slab y)
  main_free_conserves locals shared h le elem there = elim (dec_lt (length locals) local_size) [
    | yes room ↦
        let (p, eq, h', same) =
          main_free_local kmem_cache_alloc kmem_cache_free fuel h elem elems room in
        (
          p,
          locals ++ elem ∷ [],
          shared,
          eq,
          h',
          (λ y. omega (arith, ap (λ s. out s y) same, count-append y locals (elem ∷ []))),
        )
    | no full ↦ elim (dec_le (length shared + 16) shared_size) [
      | yes fits ↦
          let (p, eq, h', same) =
            main_free_shared kmem_cache_alloc kmem_cache_free fuel h elem elems (omega arith) bulky
              given fits in
          (
            p,
            drop 15 locals,
            shared ++ elem ∷ take 15 locals,
            eq,
            h',
            (λ y. omega (
              arith,
              ap (λ s. out s y) same,
              count-append y shared (elem ∷ take 15 locals),
              count_split y 15 locals,
            )),
          )
      | no crowded ↦
          let (p, eq, h', same) =
            main_free_slab kmem_cache_alloc kmem_cache_free fuel h elem elems (omega arith) bulky
              given (omega arith) in
          (
            p,
            drop 15 locals,
            drop 16 (drop 16 shared),
            eq,
            h',
            (λ y. omega (
              arith,
              ap (λ s. out s y) same,
              count_split y 15 locals,
              count_split y 16 shared,
              count_split y 16 (drop 16 shared),
              out-free_rows acc (elem ∷ take 15 locals) (take 16 shared) (take 16 (drop 16 shared))
                  pool.slab
                  (λ z. omega (
                    arith,
                    there z,
                    count_split z 15 locals,
                    count_split z 16 shared,
                    count_split z 16 (drop 16 shared),
                  ))
                  y,
            )),
          )
    ]
  ]
