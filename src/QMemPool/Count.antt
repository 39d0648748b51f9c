-- ===== src/QMemPool/Count.antt =====
-- How often an element stands in a list, and a slab allocator that keeps account of its elements.
use prototype_kernel.Base.{
  ℕ, zero, suc, ◌+◌, ◌≤◌, ◌<◌, ◌≡◌, ◌≢◌, refl, sym, ap, ◌∙◌, arith, List, [], ◌∷◌, ◌++◌, length,
  take, drop, ◌==◌, if◌then◌else◌, ==_refl, take-append-drop,
}
use prototype_kernel.Copy.Slots.{Ptr}
use prototype_kernel.QMemPool.Slab.{free_all}
use prototype_kernel.QMemPool.Refill.{Granted, granted_none, granted_more}

abbrev pub here : Ptr → Ptr → ℕ
here x y = if x == y then 1 else 0

abbrev pub count : Ptr → List Ptr → ℕ
count y [] = 0
count y (x ∷ xs) = here x y + count y xs

pub here_self : (x : Ptr) → here x x ≡ 1
here_self x = rw (==_refl x) refl

pub count-append : (y : Ptr) (xs ys : List Ptr) → count y (xs ++ ys) ≡ count y xs + count y ys
count-append y [] ys = omega arith
count-append y (x ∷ xs) ys = omega (arith, count-append y xs ys)

pub count_split :
    (y : Ptr) (n : ℕ) (xs : List Ptr) → count y (take n xs) + count y (drop n xs) ≡ count y xs
count_split y n xs =
    sym (count-append y (take n xs) (drop n xs)) ∙ ap (count y) (take-append-drop n xs)

-- `out` says how often each element is given out. An allocation is never NULL and gives one more out; a
-- free of an element that is out takes it back.
pub record Accounts {Slab : Type 0} (kmem_cache_alloc : Slab → Ptr × Slab)
    (kmem_cache_free : Slab → Ptr → Slab) (out : Slab → Ptr → ℕ) : Type 0 where
  pub there : (s : Slab) → (kmem_cache_alloc s).0 ≢ 0
  pub taken :
      (s : Slab) (y : Ptr) → out (kmem_cache_alloc s).1 y ≡ here (kmem_cache_alloc s).0 y + out s y
  pub given_back :
      (s : Slab) (x y : Ptr) → 0 < out s x → here x y + out (kmem_cache_free s x) y ≡ out s y

module _ {Slab : Type 0} {kmem_cache_alloc : Slab → Ptr × Slab}
    {kmem_cache_free : Slab → Ptr → Slab} {out : Slab → Ptr → ℕ}
    (acc : Accounts kmem_cache_alloc kmem_cache_free out) where
  pub out-free_all :
      (xs : List Ptr) (s : Slab)
      → ((y : Ptr) → count y xs ≤ out s y)
      → (y : Ptr) → count y xs + out (free_all kmem_cache_free s xs) y ≡ out s y
  out-free_all [] s le y = omega arith
  out-free_all (x ∷ xs) s le y = omega (arith, out-free_all xs (kmem_cache_free s x) left y, back y)
    where
      back : (y : Ptr) → here x y + out (kmem_cache_free s x) y ≡ out s y
      back y = acc.given_back s x y (omega (arith, le x, here_self x))

      left : (y : Ptr) → count y xs ≤ out (kmem_cache_free s x) y
      left y = omega (arith, le y, back y)

  -- Three rows of frees.
  pub out-free_rows :
      (a b c : List Ptr) (s : Slab)
      → ((y : Ptr) → count y a + count y b + count y c ≤ out s y)
      → (y : Ptr)
      → count y a
          + count y b
          + count y c
          + out
              (free_all kmem_cache_free
                (free_all kmem_cache_free (free_all kmem_cache_free s a) b)
                c)
              y
        ≡ out s y
  out-free_rows a b c s le y = omega (arith, first y, second y, out-free_all c _ left y)
    where
      t : Slab
      t = free_all kmem_cache_free s a

      first : (y : Ptr) → count y a + out t y ≡ out s y
      first y = out-free_all a s (λ z. omega (arith, le z)) y

      second : (y : Ptr) → count y b + out (free_all kmem_cache_free t b) y ≡ out t y
      second y = out-free_all b t (λ z. omega (arith, le z, first z)) y

      left : (y : Ptr) → count y c ≤ out (free_all kmem_cache_free t b) y
      left y = omega (arith, le y, first y, second y)

  -- A number of allocations in a row.
  pub grants :
      (fuel n : ℕ) (s : Slab)
      → (xs : List Ptr) × (u : Slab) × Granted kmem_cache_alloc kmem_cache_free fuel s xs u
        × (length xs ≡ n)
        × ((y : Ptr) → out u y ≡ count y xs + out s y)
  grants fuel zero s = ([], s, granted_none, refl, (λ y. omega arith))
  grants fuel (suc n) s =
      let (xs, u, g, len, all) = grants fuel n (kmem_cache_alloc s).1 in
      (
        (kmem_cache_alloc s).0 ∷ xs,
        u,
        granted_more refl (acc.there s) g,
        omega (arith, len),
        (λ y. omega (arith, all y, acc.taken s y)),
      )
