-- ===== src/Alf/RefineDequeue.antt =====
-- Dequeuing from a queue at rest, against the bounded FIFO of its contents.
use prototype_kernel.Base.{
  ℕ, [], take-nil, drop-nil, ◌+◌, ◌-◌, ◌≤◌, ◌≡◌, refl, sym, ap, ap₂, ◌∙◌, arith, List, some, length,
  take, drop, ◌++◌, min, ◌>>=◌, eq→==, ne→==,
}
use prototype_kernel.Base.Words.{add32, sub32}
use prototype_kernel.Copy.Slots.{Ptr, window, splice}
use prototype_kernel.Copy.Window.{take-window, drop-window, splice-window}
use prototype_kernel.Fifo.{dequeue_upto}
use prototype_kernel.Alf.Queue.{AlfQueue}
use prototype_kernel.Alf.Valid.{IsSized, IsValid, contents}
use prototype_kernel.Alf.Stores.{small_size, dequeue_load_unroll-window}
use prototype_kernel.Alf.Ops.{alf_sc_dequeue, set_consumer_head}
use prototype_kernel.Alf.RefineEnqueue.{in_use, count_le, window_at, length-contents}
use native.Mathlib.Decide.{ℕ_discrete}

-- The queue after `elems` elements went out.
abbrev pub dequeued : AlfQueue → ℕ → AlfQueue
dequeued q elems = record q {
  consumer = record { head = add32 q.consumer.head elems; tail = add32 q.consumer.head elems };
}

module _ {q : AlfQueue} (v : IsValid q) (n : ℕ) where
  abbrev pub taken : ℕ
  taken = min (in_use q) n

  pub dequeued-IsValid : IsValid (dequeued q taken)
  dequeued-IsValid = record {
    sized = record {
      log = v.sized.log;
      small = v.sized.small;
      power = v.sized.power;
      ones = v.sized.ones;
      slots = v.sized.slots;
    };
    enqueued = v.enqueued;
    dequeued = refl;
    producer_word = v.producer_word;
    consumer_word = omega arith;
    bounded = omega (arith, v.dequeued, v.enqueued, v.bounded, small_size v.sized);
  }

  pub contents-dequeued : contents (dequeued q taken) ≡ drop n (contents q)
  contents-dequeued =
      window_at v (q.consumer.head + taken) (sub32 q.producer.tail (add32 q.consumer.head taken))
      ∙ ap₂ (λ h m. window q.ring q.size h m) place rest
      ∙ sym (drop-window q.ring q.size q.consumer.tail (in_use q) n)
    where
      place : q.consumer.head + taken ≡ q.consumer.tail + min (in_use q) n
      place = omega arith

      rest : sub32 q.producer.tail (add32 q.consumer.head taken) ≡ in_use q - n
      rest = omega (arith, v.dequeued, v.enqueued, v.consumer_word, v.producer_word)

  -- What the code takes for the number of elements.
  all_lem : sub32 q.producer.tail q.consumer.head ≡ in_use q
  all_lem = omega (arith, v.dequeued)

  head_moved : IsSized (set_consumer_head q (add32 q.consumer.head taken))
  head_moved = record {
    log = v.sized.log;
    small = v.sized.small;
    power = v.sized.power;
    ones = v.sized.ones;
    slots = v.sized.slots;
  }

  module _ (ptr : List Ptr) (given : n ≤ length ptr) where
    pub loaded_table :
        splice 0 (window q.ring q.size q.consumer.head taken) ptr
        ≡ take n (contents q) ++ drop taken ptr
    loaded_table =
        splice-window q.ring q.size q.consumer.head taken ptr (omega arith)
        ∙ ap (λ w. w ++ drop taken ptr)
            (ap (λ h. window q.ring q.size h taken) (sym v.dequeued)
              ∙ sym (take-window q.ring q.size q.consumer.tail (in_use q) n))

    pub alf_sc_dequeue-dequeued :
        ¬ (in_use q ≡ 0)
        → alf_sc_dequeue q ptr n
          ≡ some
              (taken, splice 0 (window q.ring q.size q.consumer.head taken) ptr, dequeued q taken)
    unfolding alf_sc_dequeue
    alf_sc_dequeue-dequeued some_there =
        rw (all_lem, ne→== (in_use q) 0 some_there)
          (ap (λ m. m >>= λ t. some (taken, t, dequeued q taken))
            (dequeue_load_unroll-window head_moved q.consumer.head ptr taken (omega arith)
              (omega (arith, count_le v))))

    pub alf_sc_dequeue_empty : in_use q ≡ 0 → alf_sc_dequeue q ptr n ≡ some (0, ptr, q)
    unfolding alf_sc_dequeue
    alf_sc_dequeue_empty none_there = rw (all_lem, eq→== (in_use q) 0 none_there)

-- A single-consumer bulk dequeue returns, faults nowhere, and does what a FIFO does: it takes the
-- `min (length contents) n` oldest elements, writes them in order to the front of the caller's
-- table, leaves the rest of the table alone, and leaves a valid queue of the other elements, of
-- the same size.
pub alf_sc_dequeue_refines :
    {q : AlfQueue} (v : IsValid q) (ptr : List Ptr) (n : ℕ)
    → n ≤ length ptr
    → let (m, xs, rest) = dequeue_upto (contents q) n in
      (q' : AlfQueue) × (alf_sc_dequeue q ptr n ≡ some (m, xs ++ drop m ptr, q'))
      × (contents q' ≡ rest)
      × IsValid q'
      × (q'.size ≡ q.size)
unfolding dequeue_upto
alf_sc_dequeue_refines {q} v ptr n given = elim (ℕ_discrete (in_use q) 0) [
  | yes empty ↦ (
    q,
    alf_sc_dequeue_empty v n ptr given empty
        ∙ ap₂ (λ m t. some (m, t, q)) (none_out empty)
            (ap (λ w. w ++ ptr) (sym (take-nil n))
              ∙ ap₂ (λ w m. take n w ++ drop m ptr) (sym (nothing empty)) (none_out empty)),
    nothing empty ∙ sym (drop-nil n) ∙ ap (drop n) (sym (nothing empty)),
    v,
    refl,
  )
  | no some_there ↦ (
    dequeued q (taken v n),
    alf_sc_dequeue-dequeued v n ptr given some_there
        ∙ ap₂ (λ m t. some (m, t, dequeued q (taken v n))) mins
            (loaded_table v n ptr given ∙ ap (λ m. take n (contents q) ++ drop m ptr) mins),
    contents-dequeued v n,
    dequeued-IsValid v n,
    refl,
  )
]
  where
    mins : taken v n ≡ min (length (contents q)) n
    mins = ap (λ m. min m n) (sym (length-contents v))

    nothing : in_use q ≡ 0 → contents q ≡ []
    nothing e = ap (λ m. window q.ring q.size q.consumer.tail m) e

    none_out : in_use q ≡ 0 → 0 ≡ min (length (contents q)) n
    none_out e = omega (arith, length-contents v)
