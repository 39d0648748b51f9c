-- ===== src/RingQueue/Dequeue.antt =====
-- The single-consumer dequeue of a ring_queue at rest, against its specification.
use prototype_kernel.Base.{
  ℕ, [], ◌+◌, ◌-◌, ◌≤◌, ◌≡◌, refl, sym, ap, ap₂, ◌∙◌, arith, List, Option, some, length, take, drop,
  ◌++◌, le→leb, gt→leb, min, length-take, take-nil, drop-nil, ◌>>=◌,
}
use prototype_kernel.Base.Words.{add32, sub32}
use prototype_kernel.Copy.Slots.{Ptr, window}
use prototype_kernel.Copy.Window.{take-window, drop-window, splice-window, window_mod32}
use prototype_kernel.RingQueue.State.{
  RingQueue, Ret, zero_ret, count, enoent, Behavior, fixed, variable,
}
use prototype_kernel.RingQueue.Ops.{sc_do_dequeue, set_cons_head, move, give_up, limit, dequeue_ret}
use prototype_kernel.RingQueue.Spec.{dequeue_spec}
use prototype_kernel.RingQueue.Valid.{
  IsSized, IsValid, in_use, contents, size_lem, dequeue_ptrs-window,
}
use prototype_kernel.RingQueue.Entered.{length-contents, in_use_le}
use prototype_kernel.RingQueue.Enqueue.{
  limit_fits, limit_fixed_full, limit_variable_none, limit_variable_part,
}
use native.Mathlib.Decide.{dec_le, ℕ_discrete}

-- The ring after `m` elements went out.
abbrev pub taken_out : RingQueue → ℕ → RingQueue
taken_out r m = record r {
  cons = record (r.cons) { head = add32 r.cons.head m; tail = add32 r.cons.head m };
}

module _ {r : RingQueue} (v : IsValid r) (m : ℕ) (there : m ≤ in_use r) where
  taken_out-IsValid : IsValid (taken_out r m)
  taken_out-IsValid = record {
    sized = record {
      log = v.sized.log;
      small = v.sized.small;
      prod_power = v.sized.prod_power;
      cons_power = v.sized.cons_power;
      ones = v.sized.ones;
      slots = v.sized.slots;
    };
    enqueued = v.enqueued;
    dequeued = refl;
    prod_word = v.prod_word;
    cons_word = omega arith;
    bounded = omega (arith, v.dequeued, v.enqueued, v.bounded, size_lem v.sized);
  }

  contents-taken_out : contents (taken_out r m) ≡ drop m (contents r)
  contents-taken_out =
      ap (λ z. window r.ring z (add32 r.cons.head m) rest) v.sized.prod_power
      ∙ window_mod32 r.ring v.sized.log (r.cons.head + m) rest (omega (arith, v.sized.small))
      ∙ ap (λ z. window r.ring z (r.cons.head + m) rest) (sym v.sized.prod_power)
      ∙ ap₂ (λ h j. window r.ring r.prod.size h j) place left
      ∙ sym (drop-window r.ring r.prod.size r.cons.tail (in_use r) m)
    where
      rest : ℕ
      rest = sub32 r.prod.tail (add32 r.cons.head m)

      place : r.cons.head + m ≡ r.cons.tail + min (in_use r) m
      place = omega (arith, v.dequeued)

      left : rest ≡ in_use r - m
      left = omega (arith, v.dequeued, v.enqueued, v.cons_word, v.prod_word)

  module _ (table : List Ptr) (n : ℕ) (behavior : Behavior) (room : m ≤ length table) where
    -- A dequeue that moves `m` elements.
    sc_move :
        limit enoent behavior n (in_use r) ≡ move m
        → sc_do_dequeue r table n behavior
          ≡ some (dequeue_ret behavior m, take m (contents r) ++ drop m table, taken_out r m)
    unfolding sc_do_dequeue
    sc_move lim =
        rw (ap (limit enoent behavior n) entries ∙ lim, sc_do_dequeue)
          (ap
            (λ o.
              ◌>>=◌ {B = Ret × List Ptr × RingQueue} o
                λ t. some (dequeue_ret behavior m, t, taken_out r m))
            (dequeue_ptrs-window head_moved r.cons.head table m room
                (omega (arith, in_use_le v, size_lem v.sized))
              ∙ ap some (
                  splice-window r.ring r.prod.size r.cons.head m table room
                  ∙ ap (λ w. w ++ drop m table) oldest)))
      where
        entries : sub32 r.prod.tail r.cons.head ≡ in_use r
        entries = omega (arith, v.dequeued)

        least : m ≡ min (in_use r) m
        least = omega (arith, there)

        oldest : window r.ring r.prod.size r.cons.head m ≡ take m (contents r)
        oldest =
            ap₂ (λ h j. window r.ring r.prod.size h j) (sym v.dequeued) least
            ∙ sym (take-window r.ring r.prod.size r.cons.tail (in_use r) m)

        head_moved : IsSized (set_cons_head r (add32 r.cons.head m))
        head_moved = record {
          log = v.sized.log;
          small = v.sized.small;
          prod_power = v.sized.prod_power;
          cons_power = v.sized.cons_power;
          ones = v.sized.ones;
          slots = v.sized.slots;
        }

sc_give_up :
    {r : RingQueue} (v : IsValid r) (table : List Ptr) (n : ℕ) (behavior : Behavior) (ret : Ret)
    → limit enoent behavior n (in_use r) ≡ give_up ret
    → sc_do_dequeue r table n behavior ≡ some (ret, table, r)
unfolding sc_do_dequeue
sc_give_up {r} v table n behavior ret lim =
    rw (ap (limit enoent behavior n) entries ∙ lim, sc_do_dequeue)
  where
    entries : sub32 r.prod.tail r.cons.head ≡ in_use r
    entries = omega (arith, v.dequeued)

-- What a dequeue returns, writes to the front of the table and leaves behind.
abbrev pub Refines :
    RingQueue → Option (Ret × List Ptr × RingQueue) → Behavior → List Ptr → ℕ → Type 0
Refines r result behavior table n =
    let (ret, xs, f) = dequeue_spec behavior (contents r) n in
    (s : RingQueue) × (result ≡ some (ret, xs ++ drop (length xs) table, s))
    × (contents s ≡ f)
    × IsValid s

module _ {r : RingQueue} (v : IsValid r) (table : List Ptr) (n : ℕ) (given : n ≤ length table) where
  -- A dequeue that moves `m` elements, and is asked for `n`.
  moved :
      (m : ℕ) (behavior : Behavior) (ret : Ret)
      → m ≡ min (in_use r) n
      → limit enoent behavior n (in_use r) ≡ move m
      → dequeue_ret behavior m ≡ ret
      → dequeue_spec behavior (contents r) n ≡ (ret, take n (contents r), drop n (contents r))
      → Refines r (sc_do_dequeue r table n behavior) behavior table n
  moved m behavior ret least lim e spec = (
    taken_out r m,
    sc_move v m (omega arith) table n behavior (omega arith) lim
        ∙ ap₂ (λ x xs. some (x, xs ++ drop m table, taken_out r m)) e same_taken
        ∙ ap (λ j. some (ret, take n (contents r) ++ drop j table, taken_out r m)) number
        ∙ ap (λ p. some (p.0, p.1 ++ drop (length p.1) table, taken_out r m)) (sym spec),
    contents-taken_out v m (omega arith) ∙ same_left ∙ ap (λ p. p.2) (sym spec),
    taken_out-IsValid v m (omega arith),
  )
    where
      again : min (in_use r) m ≡ min (in_use r) n
      again = omega (arith, least)

      same_taken : take m (contents r) ≡ take n (contents r)
      same_taken =
          take-window r.ring r.prod.size r.cons.tail (in_use r) m
          ∙ ap (window r.ring r.prod.size r.cons.tail) again
          ∙ sym (take-window r.ring r.prod.size r.cons.tail (in_use r) n)

      same_left : drop m (contents r) ≡ drop n (contents r)
      same_left =
          drop-window r.ring r.prod.size r.cons.tail (in_use r) m
          ∙ ap₂ (λ h j. window r.ring r.prod.size (r.cons.tail + h) j) again rest
          ∙ sym (drop-window r.ring r.prod.size r.cons.tail (in_use r) n)
        where
          rest : in_use r - m ≡ in_use r - n
          rest = omega (arith, least)

      number : m ≡ length (take n (contents r))
      number = omega (arith, length-take n (contents r), length-contents v, least)

  fixed-Refines : Refines r (sc_do_dequeue r table n fixed) fixed table n
  unfolding dequeue_ret dequeue_spec
  fixed-Refines = elim (dec_le n (in_use r)) [
    | yes there ↦
        moved n fixed zero_ret (omega arith) (limit_fits enoent n (in_use r) fixed there) refl
          (rw (le→leb n (length (contents r)) (omega (arith, length-contents v))))
    | no short ↦ (
      r,
      sc_give_up v table n fixed enoent (limit_fixed_full enoent n (in_use r) (omega arith))
          ∙ ap (λ p. some (p.0, p.1 ++ drop (length p.1) table, r)) (sym (missing short)),
      ap (λ p. p.2) (sym (missing short)),
      v,
    )
  ]
    where
      missing : ¬ (n ≤ in_use r) → dequeue_spec fixed (contents r) n ≡ (enoent, [], contents r)
      missing short = rw (gt→leb n (length (contents r)) (omega (arith, length-contents v)))

  variable-Refines : Refines r (sc_do_dequeue r table n variable) variable table n
  unfolding dequeue_ret dequeue_spec
  variable-Refines = elim (dec_le n (in_use r)) [
    | yes there ↦
        moved n variable (count (min (length (contents r)) n)) (omega arith)
          (limit_fits enoent n (in_use r) variable there)
          (ap count (omega (arith, length-contents v))) refl
    | no short ↦ elim (ℕ_discrete (in_use r) 0) [
      | yes empty ↦ (
        r,
        sc_give_up v table n variable (count 0)
              (limit_variable_none enoent n (in_use r) (omega arith) empty)
            ∙ ap₂ (λ j xs. some (count j, xs ++ drop (length xs) table, r))
                (omega (arith, length-contents v))
                (sym (take-nil n) ∙ ap (take n) (sym (nothing empty))),
        nothing empty ∙ sym (drop-nil n) ∙ ap (drop n) (sym (nothing empty)),
        v,
      )
      | no some_there ↦
          moved (in_use r) variable (count (min (length (contents r)) n)) (omega arith)
            (limit_variable_part enoent n (in_use r) (omega arith) some_there)
            (ap count (omega (arith, length-contents v))) refl
    ]
  ]
    where
      nothing : in_use r ≡ 0 → contents r ≡ []
      nothing e = ap (window r.ring r.prod.size r.cons.tail) e

-- A single-consumer dequeue returns, faults nowhere, and does what the specification says, in both
-- modes: the integer that it returns (0, -ENOENT, the count), the oldest elements in order at the
-- front of the table with the rest of the table untouched, the elements left, and a valid ring.
pub sc_do_dequeue-Refines :
    {r : RingQueue} (v : IsValid r) (table : List Ptr) (n : ℕ) (behavior : Behavior)
    → n ≤ length table
    → Refines r (sc_do_dequeue r table n behavior) behavior table n
sc_do_dequeue-Refines v table n fixed given = fixed-Refines v table n given
sc_do_dequeue-Refines v table n variable given = variable-Refines v table n given
