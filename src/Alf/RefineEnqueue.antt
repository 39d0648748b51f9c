-- ===== src/Alf/RefineEnqueue.antt =====
-- A queue at rest behaves as the bounded FIFO of its contents.
use prototype_kernel.Base.{
  ℕ, ◌+◌, ◌-◌, ◌%◌, ◌^◌, ◌≤◌, ◌<◌, ◌≡◌, refl, sym, ap, ◌∙◌, arith, List, some, length, take, ◌++◌,
  leb, true, false, lt→ltb, ge→ltb, le→leb, gt→leb, length-take, ◌>>=◌,
}
use prototype_kernel.Base.Words.{add32, sub32}
use prototype_kernel.Copy.Slots.{Ptr, put_around, window}
use prototype_kernel.Copy.Window.{
  length-window, length-put_around, window-put_around, window_mod32, put_around_mod32,
}
use prototype_kernel.Fifo.{enqueue_bulk}
use prototype_kernel.Alf.Queue.{AlfQueue}
use prototype_kernel.Alf.Valid.{IsSized, IsValid, contents}
use prototype_kernel.Alf.Stores.{small_size, enqueue_store_unroll-put_around}
use prototype_kernel.Alf.Ops.{alf_sp_enqueue, set_producer_head, set_producer_tail}
use native.Mathlib.Decide.{dec_le}

-- The number of elements at rest.
abbrev pub in_use : AlfQueue → ℕ
in_use q = sub32 q.producer.tail q.consumer.tail

module _ {q : AlfQueue} (v : IsValid q) where
  pub length-contents : length (contents q) ≡ in_use q
  length-contents = length-window q.ring q.size q.consumer.tail (in_use q)

  pub count_le : in_use q ≤ q.size
  count_le = omega (arith, v.bounded, v.enqueued, v.dequeued)

  -- The unsigned differences of the code, without wrap-around.
  pub space_lem : sub32 (add32 q.size q.consumer.tail) q.producer.head ≡ q.size - in_use q
  space_lem = omega (arith, small_size v.sized)

  producer_place : (q.consumer.tail + in_use q) % 2 ^ 32 ≡ q.producer.head
  producer_place = omega arith

  put_at :
      (xs : List Ptr)
      → put_around q.size q.producer.head xs q.ring
        ≡ put_around q.size (q.consumer.tail + in_use q) xs q.ring
  put_at xs =
      ap (λ h. put_around q.size h xs q.ring) (sym producer_place)
      ∙ ap (λ z. put_around z ((q.consumer.tail + in_use q) % 2 ^ 32) xs q.ring) v.sized.power
      ∙ put_around_mod32 v.sized.log (q.consumer.tail + in_use q) xs q.ring
          (omega (arith, v.sized.small))
      ∙ ap (λ z. put_around z (q.consumer.tail + in_use q) xs q.ring) (sym v.sized.power)

  pub window_at : (a n : ℕ) → window q.ring q.size (a % 2 ^ 32) n ≡ window q.ring q.size a n
  window_at a n =
      ap (λ z. window q.ring z (a % 2 ^ 32) n) v.sized.power
      ∙ window_mod32 q.ring v.sized.log a n (omega (arith, v.sized.small))
      ∙ ap (λ z. window q.ring z a n) (sym v.sized.power)

  -- The queue after `n` elements of `ptr` went in.
  abbrev pub enqueued : List Ptr → ℕ → AlfQueue
  enqueued ptr n = record q {
    producer = record { head = add32 q.producer.head n; tail = add32 q.producer.head n };
    ring = put_around q.size q.producer.head (take n ptr) q.ring;
  }

  pub enqueued-IsValid : (ptr : List Ptr) (n : ℕ) → n ≤ q.size - in_use q → IsValid (enqueued ptr n)
  enqueued-IsValid ptr n fits = record {
    sized = record {
      log = v.sized.log;
      small = v.sized.small;
      power = v.sized.power;
      ones = v.sized.ones;
      slots = length-put_around q.size q.producer.head (take n ptr) q.ring ∙ v.sized.slots;
    };
    enqueued = refl;
    dequeued = v.dequeued;
    producer_word = omega arith;
    consumer_word = v.consumer_word;
    bounded = omega (arith, small_size v.sized, v.bounded, count_le);
  }

  contents-enqueued :
      (ptr : List Ptr) (n : ℕ)
      → n ≤ length ptr
      → n ≤ q.size - in_use q
      → contents (enqueued ptr n) ≡ contents q ++ take n ptr
  contents-enqueued ptr n given fits =
      ap
        (λ m.
          window (put_around q.size q.producer.head (take n ptr) q.ring) q.size q.consumer.tail m)
        total
      ∙ ap (λ r. window r q.size q.consumer.tail (in_use q + length (take n ptr)))
          (put_at (take n ptr))
      ∙ window-put_around q.size q.consumer.tail (in_use q) (take n ptr) q.ring v.sized.slots
          (omega (arith, length-take n ptr, count_le))
    where
      total : sub32 (add32 q.producer.head n) q.consumer.tail ≡ in_use q + length (take n ptr)
      total = omega (arith, length-take n ptr, count_le, small_size v.sized)

  pub alf_sp_enqueue-enqueued :
      (ptr : List Ptr) (n : ℕ)
      → n ≤ length ptr
      → n ≤ q.size - in_use q
      → alf_sp_enqueue q ptr n ≡ some (n, enqueued ptr n)
  unfolding alf_sp_enqueue
  alf_sp_enqueue-enqueued ptr n given fits =
      rw (space_lem, ge→ltb (q.size - in_use q) n fits)
        (ap (λ m. m >>= λ r. some (n, set_producer_tail r (add32 q.producer.head n)))
          (enqueue_store_unroll-put_around head_moved q.producer.head ptr n given
            (omega (arith, count_le))))
    where
      head_moved : IsSized (set_producer_head q (add32 q.producer.head n))
      head_moved = record {
        log = v.sized.log;
        small = v.sized.small;
        power = v.sized.power;
        ones = v.sized.ones;
        slots = v.sized.slots;
      }

  pub alf_sp_enqueue_full :
      (ptr : List Ptr) (n : ℕ) → q.size - in_use q < n → alf_sp_enqueue q ptr n ≡ some (0, q)
  unfolding alf_sp_enqueue
  alf_sp_enqueue_full ptr n full = rw (space_lem, lt→ltb (q.size - in_use q) n full)

-- A single-producer bulk enqueue returns, faults nowhere, and does what a FIFO of `size` slots does
-- with the first `n` given elements: it takes all of them in behind the contents if they fit, and
-- else none; the count it returns is the FIFO's, and the queue it leaves is valid again
-- and of the same size.
pub alf_sp_enqueue_refines :
    {q : AlfQueue} (v : IsValid q) (ptr : List Ptr) (n : ℕ)
    → n ≤ length ptr
    → (q' : AlfQueue) × (alf_sp_enqueue q ptr n
        ≡ some ((enqueue_bulk q.size (contents q) (take n ptr)).0, q'))
      × (contents q' ≡ (enqueue_bulk q.size (contents q) (take n ptr)).1)
      × IsValid q'
      × (q'.size ≡ q.size)
unfolding enqueue_bulk
alf_sp_enqueue_refines {q} v ptr n given = elim (dec_le n (q.size - in_use q)) [
  | yes fits ↦ (
    enqueued v ptr n,
    rw (room fits) (
        alf_sp_enqueue-enqueued v ptr n given fits
        ∙ ap (λ m. some (m, enqueued v ptr n)) (sym taken)),
    rw (room fits) (contents-enqueued v ptr n given fits),
    enqueued-IsValid v ptr n fits,
    refl,
  )
  | no full ↦ (
    q,
    rw (no_room full) (alf_sp_enqueue_full v ptr n (omega arith)),
    rw (no_room full) refl,
    v,
    refl,
  )
]
  where
    taken : length (take n ptr) ≡ n
    taken = omega (arith, length-take n ptr)

    room : n ≤ q.size - in_use q → leb (length (contents q) + length (take n ptr)) q.size ≡ true
    room fits = le→leb _ _ (omega (arith, length-contents v, taken, count_le v))

    no_room :
        ¬ (n ≤ q.size - in_use q) → leb (length (contents q) + length (take n ptr)) q.size ≡ false
    no_room full = gt→leb _ _ (omega (arith, length-contents v, taken))
