-- ===== src/RingQueue/Waits.antt =====
-- The dispatching calls of a ring_queue while another call on the same side is under way, so that the
-- tail is behind the head: kernel/include/linux/ring_queue.h.
use prototype_kernel.Base.{
  ap₂, ℕ, zero, suc, ◌≤◌, ◌≡◌, ◌≢◌, refl, arith, List, [], ◌∷◌, some, none, length, take,
  if◌then◌else◌, ge→ltb, ne→==, ◌<◌,
}
use prototype_kernel.Base.Words.{add32, sub32}
use prototype_kernel.Copy.Slots.{Ptr, put_around, window, splice}
use prototype_kernel.RingQueue.State.{RingQueue, Ret, Behavior, fixed, variable, enobufs, enoent}
use prototype_kernel.RingQueue.Ops.{
  sp_do_enqueue, sc_do_dequeue, mp_do_enqueue, mc_do_dequeue, set_prod_head, set_prod_tail,
  set_cons_head, set_cons_tail, move, limit, free_entries, enqueue_ret, dequeue_ret, wait_prod_tail,
  wait_cons_tail, reserve_prod, reserve_cons,
}
use prototype_kernel.RingQueue.Api.{
  enqueue_bulk, enqueue_burst, enqueue, dequeue_bulk, dequeue_burst, dequeue,
}
use prototype_kernel.RingQueue.Valid.{IsSized, enqueue_ptrs-put_around, dequeue_ptrs-window}
use prototype_kernel.RingQueue.Solo.{reserve_prod_move, reserve_cons_move}

limit_enough :
    (error : Ret) (behavior : Behavior) (n free : ℕ)
    → n ≤ free
    → limit error behavior n free ≡ move n
unfolding limit
limit_enough error fixed n free le = rw (ge→ltb free n le)
limit_enough error variable n free le = rw (ge→ltb free n le)

-- A tail that no one moves is waited for without end.
wait_prod_tail_behind :
    (fuel : ℕ) (r : RingQueue) (h : ℕ) → r.prod.tail ≢ h → wait_prod_tail fuel r h ≡ none
unfolding wait_prod_tail
wait_prod_tail_behind zero r h ne = refl
wait_prod_tail_behind (suc fuel) r h ne =
    rw (ne→== r.prod.tail h ne) (wait_prod_tail_behind fuel r h ne)

wait_cons_tail_behind :
    (fuel : ℕ) (r : RingQueue) (h : ℕ) → r.cons.tail ≢ h → wait_cons_tail fuel r h ≡ none
unfolding wait_cons_tail
wait_cons_tail_behind zero r h ne = refl
wait_cons_tail_behind (suc fuel) r h ne =
    rw (ne→== r.cons.tail h ne) (wait_cons_tail_behind fuel r h ne)

-- The ring after the single-producer enqueue of `n`, which writes the tail whatever it was.
abbrev pub enqueued_over : RingQueue → List Ptr → ℕ → RingQueue
enqueued_over r table n =
    set_prod_tail
      (record (set_prod_head r (add32 r.prod.head n)) {
        ring = put_around r.prod.size r.prod.head (take n table) r.ring;
      })
      (add32 r.prod.head n)

abbrev pub dequeued_over : RingQueue → ℕ → RingQueue
dequeued_over r n = set_cons_tail (set_cons_head r (add32 r.cons.head n)) (add32 r.cons.head n)

module _ {r : RingQueue} (v : IsSized r) (table : List Ptr) (n : ℕ) (given : n ≤ length table)
    (fits : n ≤ r.prod.size) (behavior : Behavior) where
  headed : (h g : ℕ) → IsSized (set_cons_head (set_prod_head r h) g)
  headed h g = record {
    log = v.log;
    small = v.small;
    prod_power = v.prod_power;
    cons_power = v.cons_power;
    ones = v.ones;
    slots = v.slots;
  }

  sp_do_enqueue_over :
      n ≤ free_entries r
      → sp_do_enqueue r table n behavior
        ≡ some (enqueue_ret r behavior n (free_entries r), enqueued_over r table n)
  unfolding sp_do_enqueue
  sp_do_enqueue_over room =
      rw
        (
          sp_do_enqueue,
          limit_enough enobufs behavior n (free_entries r) room,
          enqueue_ptrs-put_around (headed (add32 r.prod.head n) r.cons.head) r.prod.head table n
              given fits,
        )
        refl

  mp_do_enqueue_waits :
      (fuel : ℕ)
      → n ≤ free_entries r
      → r.prod.tail ≢ r.prod.head
      → mp_do_enqueue fuel r table n behavior ≡ none
  unfolding mp_do_enqueue reserve_prod
  mp_do_enqueue_waits zero room behind = refl
  mp_do_enqueue_waits (suc fuel) room behind =
      rw
        (
          reserve_prod_move r fuel n n behavior
              (limit_enough enobufs behavior n (free_entries r) room),
          enqueue_ptrs-put_around (headed (add32 r.prod.head n) r.cons.head) r.prod.head table n
              given fits,
          wait_prod_tail_behind (suc fuel)
              (record (set_prod_head r (add32 r.prod.head n)) {
                ring = put_around r.prod.size r.prod.head (take n table) r.ring;
              })
              r.prod.head behind,
        )
        refl

  sc_do_dequeue_over :
      n ≤ sub32 r.prod.tail r.cons.head
      → sc_do_dequeue r table n behavior
        ≡ some (
          dequeue_ret behavior n,
          splice 0 (window r.ring r.prod.size r.cons.head n) table,
          dequeued_over r n,
        )
  unfolding sc_do_dequeue
  sc_do_dequeue_over there =
      rw
        (
          sc_do_dequeue,
          limit_enough enoent behavior n (sub32 r.prod.tail r.cons.head) there,
          dequeue_ptrs-window (headed r.prod.head (add32 r.cons.head n)) r.cons.head table n given
              fits,
        )
        refl

  mc_do_dequeue_waits :
      (fuel : ℕ)
      → n ≤ sub32 r.prod.tail r.cons.head
      → r.cons.tail ≢ r.cons.head
      → mc_do_dequeue fuel r table n behavior ≡ none
  unfolding mc_do_dequeue reserve_cons
  mc_do_dequeue_waits zero there behind = refl
  mc_do_dequeue_waits (suc fuel) there behind =
      rw
        (
          reserve_cons_move r fuel n n behavior
              (limit_enough enoent behavior n (sub32 r.prod.tail r.cons.head) there),
          dequeue_ptrs-window (headed r.prod.head (add32 r.cons.head n)) r.cons.head table n given
              fits,
          wait_cons_tail_behind (suc fuel) (set_cons_head r (add32 r.cons.head n)) r.cons.head
              behind,
        )
        refl

module _ {r : RingQueue} (v : IsSized r) (fuel : ℕ) (table : List Ptr) (obj : Ptr) (n : ℕ)
    (given : n ≤ length table) (pos : 0 < n) (fits : n ≤ r.prod.size) where
  -- Another enqueue is under way on a ring, with the producer's tail behind the head, and there is room
  -- for n objects, which are given, at least one and not more than there are slots. Then the bulk, burst
  -- and one-object enqueues of a ring with a single producer return at once, with the return values of
  -- fixed, variable and fixed behavior, the objects in the slots from the head on, and head and tail
  -- behind them, over the other enqueue; those of a ring with several producers give no result on any
  -- fuel, since they wait for a tail that nobody moves.
  pub enqueue_waits :
      n ≤ free_entries r
      → r.prod.tail ≢ r.prod.head
      → (enqueue_bulk fuel r table n ≡ (
          if r.prod.sp_enqueue
          then some (enqueue_ret r fixed n (free_entries r), enqueued_over r table n)
          else none))
        × (enqueue_burst fuel r table n ≡ (
            if r.prod.sp_enqueue
            then some (enqueue_ret r variable n (free_entries r), enqueued_over r table n)
            else none))
        × (enqueue fuel r obj ≡ (
            if r.prod.sp_enqueue
            then some (enqueue_ret r fixed 1 (free_entries r), enqueued_over r (obj ∷ []) 1)
            else none))
  unfolding enqueue_bulk enqueue_burst enqueue
  enqueue_waits room behind = (
    ap₂ (λ x y. if r.prod.sp_enqueue then x else y)
        (sp_do_enqueue_over v table n given fits fixed room)
        (mp_do_enqueue_waits v table n given fits fixed fuel room behind),
    ap₂ (λ x y. if r.prod.sp_enqueue then x else y)
        (sp_do_enqueue_over v table n given fits variable room)
        (mp_do_enqueue_waits v table n given fits variable fuel room behind),
    ap₂ (λ x y. if r.prod.sp_enqueue then x else y)
        (sp_do_enqueue_over v (obj ∷ []) 1 (omega arith) (omega arith) fixed (omega arith))
        (mp_do_enqueue_waits v (obj ∷ []) 1 (omega arith) (omega arith) fixed fuel (omega arith)
          behind),
  )

  -- Another dequeue is under way on a ring, with the consumer's tail behind the head, and there are n
  -- objects, at least one and not more than there are slots, with room for them in the table. Then the
  -- bulk, burst and one-object dequeues of a ring with a single consumer return at once, with the return
  -- values of fixed, variable and fixed behavior, the objects of the slots from the head on in the front
  -- of the table, and head and tail behind them, over the other dequeue; those of a ring with several
  -- consumers give no result on any fuel, since they wait for a tail that nobody moves.
  pub dequeue_waits :
      n ≤ sub32 r.prod.tail r.cons.head
      → r.cons.tail ≢ r.cons.head
      → (dequeue_bulk fuel r table n ≡ (
          if r.cons.sc_dequeue
          then some (
            dequeue_ret fixed n,
            splice 0 (window r.ring r.prod.size r.cons.head n) table,
            dequeued_over r n,
          )
          else none))
        × (dequeue_burst fuel r table n ≡ (
            if r.cons.sc_dequeue
            then some (
              dequeue_ret variable n,
              splice 0 (window r.ring r.prod.size r.cons.head n) table,
              dequeued_over r n,
            )
            else none))
        × (dequeue fuel r obj ≡ (
            if r.cons.sc_dequeue
            then some (
              dequeue_ret fixed 1,
              splice 0 (window r.ring r.prod.size r.cons.head 1) (obj ∷ []),
              dequeued_over r 1,
            )
            else none))
  unfolding dequeue_bulk dequeue_burst dequeue
  dequeue_waits there behind = (
    ap₂ (λ x y. if r.cons.sc_dequeue then x else y)
        (sc_do_dequeue_over v table n given fits fixed there)
        (mc_do_dequeue_waits v table n given fits fixed fuel there behind),
    ap₂ (λ x y. if r.cons.sc_dequeue then x else y)
        (sc_do_dequeue_over v table n given fits variable there)
        (mc_do_dequeue_waits v table n given fits variable fuel there behind),
    ap₂ (λ x y. if r.cons.sc_dequeue then x else y)
        (sc_do_dequeue_over v (obj ∷ []) 1 (omega arith) (omega arith) fixed (omega arith))
        (mc_do_dequeue_waits v (obj ∷ []) 1 (omega arith) (omega arith) fixed fuel (omega arith)
          behind),
  )
