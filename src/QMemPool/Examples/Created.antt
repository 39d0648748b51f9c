-- ===== src/QMemPool/Examples/Created.antt =====
-- A pool for two CPUs, as qmempool_create makes it on a slab allocator with nothing out, and a call.
use prototype_kernel.Base.{true, false, ◌≡◌, refl, sym, ap, ◌∙◌, arith, [], ◌∷◌, some}
use prototype_kernel.Copy.Slots.{Ptr}
use prototype_kernel.QMemPool.Examples.{
  stack, known_power, known_power_lem, zeroed, zeroed_granted, zeroed_memory,
}
use prototype_kernel.QMemPool.Examples.Held.{
  Marked, marks, hand_out, take_back, marks-Accounts, unused_slab, marks_unused,
}
use prototype_kernel.QMemPool.Create.{Setup, qmempool_create}
use prototype_kernel.QMemPool.Ops.{QMemPool, main_alloc}
use prototype_kernel.QMemPool.Count.{grants}
use prototype_kernel.QMemPool.Cpus.{
  cpu_view, after, alloc_call, Calls, none_yet, one_more, Conserved,
}
use prototype_kernel.QMemPool.Lifetime.{qmempool_create-qmempool_destroy}
use prototype_kernel.QMemPool.Held.{alloc_returns}
use prototype_kernel.QMemPool.Created.{opened, opened-Conserved, created-Conserved}

created :
    (pool : Setup) × (u : Marked) × (qmempool_create take_back 1 hand_out known_power zeroed 20 true
        true 2 16 32 16 unused_slab
      ≡ some (some pool, u))
unfolding known_power
created =
    let (xs, u, given, len, all) = grants marks-Accounts 0 16 unused_slab in
    let (qs, q, eq, _, _, _) =
      qmempool_create-qmempool_destroy take_back 0 hand_out known_power zeroed known_power_lem
        zeroed_granted zeroed_memory (omega arith) (omega arith) refl refl (omega arith)
        (omega arith) given (omega (arith, len)) 2 20 (omega (arith, len)) in
    (
      _,
      u,
      ap
            (λ n.
              qmempool_create take_back 1 hand_out known_power zeroed 20 true true 2 16 32 n
                unused_slab)
            (sym len)
          ∙ eq,
    )

created_pools-Conserved : Conserved hand_out take_back marks 0 2 16 32 (opened created.0 created.1)
unfolding known_power
created_pools-Conserved =
    opened-Conserved marks-Accounts 0 known_power zeroed known_power_lem zeroed_granted
      zeroed_memory (omega arith) (omega arith) refl refl (omega arith) (omega arith) 2 20 16
      (omega arith) (omega arith) unused_slab marks_unused created.2

-- CPU 1 allocates an element.
abbrev created_alloc :
    (x : Ptr) × (p : QMemPool Marked) × (main_alloc hand_out take_back 1 false
        (cpu_view (opened created.0 created.1) 1)
        0
        stack
        stack
      ≡ some (x, p))
    × Conserved hand_out take_back marks 0 2 16 32 (after (opened created.0 created.1) 1 p (x ∷ []))
created_alloc =
    alloc_returns marks-Accounts 0 2 (omega arith) (omega arith) created_pools-Conserved 1
      (omega arith) 0 stack stack (omega arith) (omega arith)

created_call :
    Calls hand_out take_back marks 0 2
      (opened created.0 created.1)
      (after (opened created.0 created.1) 1 created_alloc.1 (created_alloc.0 ∷ []))
created_call =
    one_more none_yet
      (alloc_call 1 0 stack stack (omega arith) (omega arith) (omega arith) created_alloc.2)

created-Conserved_example :
    Conserved hand_out take_back marks 0 2 16 32
      (after (opened created.0 created.1) 1 created_alloc.1 (created_alloc.0 ∷ []))
unfolding known_power
created-Conserved_example =
    created-Conserved marks-Accounts 0 known_power zeroed known_power_lem zeroed_granted
      zeroed_memory (omega arith) (omega arith) refl refl (omega arith) (omega arith) 2 20 16
      (omega arith) (omega arith) unused_slab marks_unused created.2 created_call
