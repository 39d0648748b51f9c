-- ===== src/QMemPool/Examples.antt =====
-- Runs of the pool of kernel/mm/qmempool.c with queues of 16 and 32 slots, at which the theorems hold.
mod Held
mod Created
use prototype_kernel.Base.{
  Bool, true, false, ℕ, zero, suc, ◌+◌, ◌^◌, ◌<◌, ◌≡◌, ◌≢◌, refl, ap, ◌∙◌, arith, List, [], ◌∷◌,
  ◌++◌, Option, some, ◌>>=◌, none, ◌||◌, ◌==◌, length, replicate, length-replicate, take, drop,
}
use prototype_kernel.Copy.Slots.{Ptr}
use prototype_kernel.Alf.Queue.{AlfQueue}
use prototype_kernel.QMemPool.Ops.{QMemPool, main_alloc, main_free, alloc_from_slab}
use prototype_kernel.QMemPool.Queues.{Queued}
use prototype_kernel.QMemPool.Pool.{Pooled}
use prototype_kernel.QMemPool.Sharing.{main_alloc_shared, main_free_shared}
use prototype_kernel.QMemPool.Roundtrip.{main_free-main_alloc}
use prototype_kernel.QMemPool.Slab.{main_free_slab, free_all}
use prototype_kernel.QMemPool.Refill.{main_alloc_refill, Granted, granted_none, granted_more}
use prototype_kernel.QMemPool.Create.{QueuePtr, queue_at, qmempool_create, qmempool_destroy}
use prototype_kernel.QMemPool.Destroy.{LocalQueues, no_cpus, one_cpu, qmempool_destroy_lem}
use prototype_kernel.QMemPool.Lifetime.{qmempool_create-qmempool_destroy, qmempool_create_faults}
use native.Mathlib.Decide.{ℕ_discrete}
use prototype_kernel.QMemPool.Null.{alloc_from_slab_null}

-- A slab allocator that hands out one address after the other and, from `limit` on, NULL.
abbrev Counter : Type 0
Counter = ℕ

next_element : Counter → Ptr × Counter
next_element n = (n, n + 1)

none_left : Counter → Ptr × Counter
none_left zero = (1, 1)
none_left (suc n) = (0, suc n)

give_back : Counter → Ptr → Counter
give_back n x = n

-- The queue of 2 ^ k slots that holds all of `xs`, with the other slots NULL.
abbrev holding : ℕ → ℕ → List Ptr → ℕ → AlfQueue
holding size mask ring n = record {
  size = size;
  mask = mask;
  flags = 0;
  producer = record { head = n; tail = n };
  consumer = record { head = 0; tail = 0 };
  ring = ring;
}

abbrev sixteen : List Ptr
sixteen = 11 ∷ 12 ∷ 13 ∷ 14 ∷ 15 ∷ 16 ∷ 17 ∷ 18 ∷ 19 ∷ 20 ∷ 21 ∷ 22 ∷ 23 ∷ 24 ∷ 25 ∷ 26 ∷ []

abbrev thirty_two : List Ptr
thirty_two = sixteen ++ sixteen

-- A local queue that is full.
full_local : Queued 16 (holding 16 15 sixteen 16) sixteen
full_local = record {
  valid = record {
    sized = record { log = 4; small = omega arith; power = refl; ones = refl; slots = refl };
    enqueued = refl;
    dequeued = refl;
    producer_word = omega arith;
    consumer_word = omega arith;
    bounded = omega arith;
  };
  sized = refl;
  inside = refl;
}

empty_local : Queued 16 (holding 16 15 sixteen 0) []
empty_local = record {
  valid = record {
    sized = record { log = 4; small = omega arith; power = refl; ones = refl; slots = refl };
    enqueued = refl;
    dequeued = refl;
    producer_word = omega arith;
    consumer_word = omega arith;
    bounded = omega arith;
  };
  sized = refl;
  inside = refl;
}

full_shared : Queued 32 (holding 32 31 thirty_two 32) thirty_two
full_shared = record {
  valid = record {
    sized = record { log = 5; small = omega arith; power = refl; ones = refl; slots = refl };
    enqueued = refl;
    dequeued = refl;
    producer_word = omega arith;
    consumer_word = omega arith;
    bounded = omega arith;
  };
  sized = refl;
  inside = refl;
}

empty_shared : Queued 32 (holding 32 31 thirty_two 0) []
empty_shared = record {
  valid = record {
    sized = record { log = 5; small = omega arith; power = refl; ones = refl; slots = refl };
    enqueued = refl;
    dequeued = refl;
    producer_word = omega arith;
    consumer_word = omega arith;
    bounded = omega arith;
  };
  sized = refl;
  inside = refl;
}

abbrev all_full : QMemPool Counter
all_full = record {
  sharedq = holding 32 31 thirty_two 32;
  localq = holding 16 15 sixteen 16;
  slab = 1;
}

abbrev local_only : QMemPool Counter
local_only = record {
  sharedq = holding 32 31 thirty_two 0;
  localq = holding 16 15 sixteen 16;
  slab = 1;
}

abbrev shared_only : QMemPool Counter
shared_only = record {
  sharedq = holding 32 31 thirty_two 32;
  localq = holding 16 15 sixteen 0;
  slab = 1;
}

abbrev all_empty : QMemPool Counter
all_empty = record {
  sharedq = holding 32 31 thirty_two 0;
  localq = holding 16 15 sixteen 0;
  slab = 1;
}

abbrev stack : List Ptr
stack = sixteen

main_alloc_shared_example :
    (p : QMemPool Counter) × (main_alloc next_element give_back 1 false shared_only 0 stack stack
      ≡ some (11, p))
    × Pooled 16 32 p (drop 1 sixteen) sixteen
    × (p.slab ≡ 1)
main_alloc_shared_example =
    main_alloc_shared next_element give_back 0
      (record { localq = empty_local; sharedq = full_shared }) 0 stack stack (omega arith)
      (omega arith)

main_free-main_alloc_example :
    (p : QMemPool Counter) × (◌>>=◌ {A = QMemPool Counter} {B = Ptr × QMemPool Counter}
        (main_free next_element give_back 1 all_empty 7 stack)
        (λ freed. main_alloc next_element give_back 1 false freed 0 stack stack)
      ≡ some (7, p))
    × Pooled 16 32 p [] []
    × (p.slab ≡ 1)
main_free-main_alloc_example =
    main_free-main_alloc next_element give_back 0
      (record { localq = empty_local; sharedq = empty_shared }) 7 0 stack stack (omega arith) 7 []
      refl

main_free_slab_example :
    (p : QMemPool Counter) × (main_free next_element give_back 1 all_full 7 stack ≡ some p)
    × Pooled 16 32 p (26 ∷ []) []
    × (p.slab
        ≡ free_all give_back
            (free_all give_back (free_all give_back 1 (7 ∷ take 15 sixteen)) sixteen)
            sixteen)
main_free_slab_example =
    main_free_slab next_element give_back 0 (record { localq = full_local; sharedq = full_shared })
      7 stack refl (omega arith) (omega arith) (omega arith)

-- The addresses from `n` on.
abbrev from : ℕ → ℕ → List Ptr
from n zero = []
from n (suc k) = n ∷ from (n + 1) k

Granted-from : (n k : ℕ) → 0 < n → Granted next_element give_back 0 n (from n k) (n + k)
unfolding next_element
Granted-from n zero pos = let e : n + 0 ≡ n = omega arith in rw e granted_none
Granted-from n (suc k) pos =
    let e : n + suc k ≡ n + 1 + k = omega arith in
    rw e (granted_more refl (λ z. absurd (omega arith)) (Granted-from (n + 1) k (omega arith)))

alloc_from_slab_null_example :
    let pool : QMemPool Counter = record all_empty { slab = 0 } in
    ((u : Counter)
      → none_left 1 ≡ (0, u)
      → alloc_from_slab none_left give_back 1 false pool stack ≡ none)
    × ((y : Ptr) (u w : Counter)
        → none_left 1 ≡ (y, u)
        → y ≢ 0
        → none_left u ≡ (0, w)
        → alloc_from_slab none_left give_back 1 false pool stack ≡ none)
unfolding none_left
alloc_from_slab_null_example =
    alloc_from_slab_null none_left give_back 0 (record all_empty { slab = 0 }) empty_shared stack
      (omega arith) 1 1 refl (λ e. absurd (omega arith))

-- A kernel that knows three powers of two and always has zeroed memory.
known_power : ℕ → Bool
known_power n = n == 16 || n == 32 || n == 131072

known_power_lem : (n : ℕ) → known_power n ≡ true → (k : ℕ) × (n ≡ 2 ^ k)
unfolding known_power
known_power_lem n e = elim (ℕ_discrete n 16) [
  | yes a ↦ (4, a)
  | no a ↦ elim (ℕ_discrete n 32) [ yes b ↦ (5, b) | no b ↦ (17, ground arith) ]
]

zeroed : ℕ → ℕ → Option (List Ptr)
zeroed k n = some (replicate n 0)

zeroed_granted : (k n : ℕ) (r : List Ptr) → zeroed k n ≡ some r → length r ≡ n
unfolding zeroed
zeroed_granted k n r e = let same : r ≡ replicate n 0 = cc in ap length same ∙ length-replicate n 0

zeroed_memory : (k n : ℕ) → (r : List Ptr) × (zeroed k n ≡ some r)
unfolding zeroed
zeroed_memory k n = (replicate n 0, refl)

qmempool_create-qmempool_destroy_example :
    (qs : List QueuePtr) × (q : AlfQueue) × (qmempool_create give_back 1 next_element known_power
        zeroed 20 true true 2 16 32 16 1
      ≡ some (some (record { percpu = some qs; sharedq = queue_at q }), 17))
    × LocalQueues 16 qs ([] ∷ [] ∷ [])
    × Queued 32 q (from 1 16)
    × (qmempool_destroy give_back 1 20 (record { percpu = some qs; sharedq = queue_at q }) 17
        ≡ some (free_all give_back 17 (from 1 16)))
unfolding known_power
qmempool_create-qmempool_destroy_example =
    qmempool_create-qmempool_destroy give_back 0 next_element known_power zeroed known_power_lem
      zeroed_granted zeroed_memory (omega arith) (omega arith) refl refl (omega arith) (omega arith)
      (Granted-from 1 16 (omega arith)) (omega arith) 2 20 (omega arith)

-- One CPU with a full local queue.
qmempool_destroy_lem_example :
    qmempool_destroy give_back 1 20
      (record {
        percpu = some (queue_at (holding 16 15 sixteen 16) ∷ []);
        sharedq = queue_at (holding 16 15 sixteen 16);
      })
      1
    ≡ some (free_all give_back 1 ((sixteen ++ []) ++ sixteen))
qmempool_destroy_lem_example =
    qmempool_destroy_lem give_back 0 (one_cpu full_local no_cpus) full_local 20 1 (omega arith)
      (omega arith)

qmempool_create_faults_example :
    qmempool_create give_back 1 next_element known_power zeroed 20 true true 2 16 131072 16 1 ≡ none
unfolding known_power
qmempool_create_faults_example =
    qmempool_create_faults give_back 1 next_element known_power zeroed 1 (omega arith) refl refl
      (omega arith) (omega arith) 2 20
