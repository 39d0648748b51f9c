-- ===== src/QMemPool/Examples/Held.antt =====
-- Two CPUs with local queues of 16 slots and a shared queue of 32, on a slab allocator that hands out
-- one address after the other.
use prototype_kernel.Base.{
  Bool, true, false, ℕ, ◌+◌, ◌-◌, ◌^◌, ◌≤◌, ◌<◌, ◌≡◌, refl, arith, List, [], ◌∷◌, some, replicate,
  length-replicate, ◌==◌, if◌then◌else◌, eq→==, ne→==, if-eq, ap, sym, Bool-cases, inl, inr,
}
use prototype_kernel.Copy.Slots.{Ptr}
use prototype_kernel.Alf.Queue.{AlfQueue}
use prototype_kernel.QMemPool.Ops.{QMemPool, main_alloc}
use prototype_kernel.QMemPool.Queues.{Queued}
use prototype_kernel.QMemPool.Count.{here, count, Accounts}
use prototype_kernel.QMemPool.Cpus.{
  Pools, cpu_view, after, alloc_call, Calls, none_yet, one_more, Conserved,
}
use prototype_kernel.QMemPool.Held.{alloc_returns, allocated_once}
use native.Mathlib.Decide.{ℕ_discrete}

-- The addresses up to `next` have been handed out; those of them that are out have a mark.
pub record Marked : Type 0 where
  pub next : ℕ
  pub mark : ℕ → Bool
  pub later : (y : Ptr) → next < y → mark y ≡ false

pub marks : Marked → Ptr → ℕ
marks s y = if s.mark y then 1 else 0

pub hand_out : Marked → Ptr × Marked
hand_out s = (
  s.next + 1,
  record {
    next = s.next + 1;
    mark = λ y. if s.next + 1 == y then true else s.mark y;
    later = λ y lt. rw (ne→== (s.next + 1) y (λ e. omega arith)) (s.later y (omega arith));
  },
)

pub take_back : Marked → Ptr → Marked
take_back s x = record {
  next = s.next;
  mark = λ y. if x == y then false else s.mark y;
  later = λ y lt. if-eq (x == y) (λ _. refl) (λ _. s.later y lt);
}

marks_once : (s : Marked) (y : Ptr) → marks s y ≤ 1
unfolding marks
marks_once s y = elim (Bool-cases (s.mark y)) [
  | inl marked ↦ rw marked (omega arith)
  | inr free ↦ rw free (omega arith)
]

marks-hand_out : (s : Marked) (y : Ptr) → marks (hand_out s).1 y ≡ here (s.next + 1) y + marks s y
unfolding hand_out marks
marks-hand_out s y = elim (ℕ_discrete (s.next + 1) y) [
  | yes e ↦
      let fresh : s.mark y ≡ false = s.later y (omega arith) in
      rw (eq→== (s.next + 1) y e, fresh) refl
  | no ne ↦ rw (ne→== (s.next + 1) y ne) (omega arith)
]

marks-take_back :
    (s : Marked) (x y : Ptr) → 0 < marks s x → here x y + marks (take_back s x) y ≡ marks s y
unfolding take_back marks
marks-take_back s x y lt = elim (ℕ_discrete x y) [
  | yes e ↦
      let marked : marks s y ≡ 1 = omega (arith, marks_once s y, ap (marks s) e) in
      rw (eq→== x y e) (sym marked)
  | no ne ↦ rw (ne→== x y ne) (omega arith)
]

pub marks-Accounts : Accounts hand_out take_back marks
unfolding hand_out
marks-Accounts = record {
  there = λ s e. omega (arith, e);
  taken = marks-hand_out;
  given_back = marks-take_back;
}

-- A queue of 2 ^ k slots, all NULL.
abbrev empty_queue : ℕ → ℕ → AlfQueue
empty_queue size mask = record {
  size = size;
  mask = mask;
  flags = 0;
  producer = record { head = 0; tail = 0 };
  consumer = record { head = 0; tail = 0 };
  ring = replicate size 0;
}

empty_queue-Queued :
    (k size : ℕ) → k ≤ 16 → size ≡ 2 ^ k → Queued size (empty_queue size (2 ^ k - 1)) []
empty_queue-Queued k size small e = record {
  valid = record {
    sized = record {
      log = k;
      small = small;
      power = e;
      ones = refl;
      slots = length-replicate size 0;
    };
    enqueued = refl;
    dequeued = refl;
    producer_word = omega arith;
    consumer_word = omega arith;
    bounded = omega arith;
  };
  sized = refl;
  inside = refl;
}

abbrev pub unused_slab : Marked
unused_slab = record { next = 0; mark = λ y. false; later = λ y lt. refl }

pub marks_unused : (y : Ptr) → marks unused_slab y ≡ 0
unfolding marks
marks_unused y = refl

abbrev new_pools : Pools Marked
new_pools = record {
  sharedq = empty_queue 32 31;
  localq = λ i. empty_queue 16 15;
  slab = unused_slab;
  held = [];
}

new-Conserved : Conserved hand_out take_back marks 0 2 16 32 new_pools
unfolding marks
new-Conserved = record {
  shared = [];
  locals = λ i. [];
  sharedq = empty_queue-Queued 5 32 (omega arith) refl;
  localqs = λ i lt. empty_queue-Queued 4 16 (omega arith) refl;
  balance = λ y. omega arith;
}

abbrev stack : List Ptr
stack = replicate 16 0

-- CPU 1 allocates an element.
abbrev first_alloc :
    (x : Ptr) × (p : QMemPool Marked) × (main_alloc hand_out take_back 1 false
        (cpu_view new_pools 1)
        0
        stack
        stack
      ≡ some (x, p))
    × Conserved hand_out take_back marks 0 2 16 32 (after new_pools 1 p (x ∷ []))
first_alloc =
    alloc_returns marks-Accounts 0 2 (omega arith) (omega arith) new-Conserved 1 (omega arith) 0
      stack stack (omega arith) (omega arith)

first_call :
    Calls hand_out take_back marks 0 2 new_pools
      (after new_pools 1 first_alloc.1 (first_alloc.0 ∷ []))
first_call =
    one_more none_yet
      (alloc_call 1 0 stack stack (omega arith) (omega arith) (omega arith) first_alloc.2)

allocated_once_example :
    (x : Ptr) × (p : QMemPool Marked) × (main_alloc hand_out take_back 1 false
        (cpu_view (after new_pools 1 first_alloc.1 (first_alloc.0 ∷ [])) 0)
        0
        stack
        stack
      ≡ some (x, p))
    × (count x (first_alloc.0 ∷ []) ≡ 0)
allocated_once_example =
    allocated_once marks-Accounts 0 2 (omega arith) (omega arith) marks_once new-Conserved
      first_call 0 (omega arith) 0 stack stack (omega arith) (omega arith)
