-- ===== src/RingQueue/Solo.antt =====
-- The multi-producer and multi-consumer operations of a ring_queue, run alone on a ring at rest.
use prototype_kernel.Base.{
  ℕ, suc, ◌⊎◌, inl, inr, ◌≡◌, refl, List, Option, some, none, ◌>>=◌, eq→==, ==_refl,
}
use prototype_kernel.Base.Words.{add32, sub32}
use prototype_kernel.Copy.Slots.{Ptr, store}
use prototype_kernel.RingQueue.State.{RingQueue, Ret, Behavior, enobufs, enoent}
use prototype_kernel.RingQueue.Ptrs.{over_ptrs, enqueue_ptrs}
use prototype_kernel.RingQueue.Valid.{IsValid}
use prototype_kernel.RingQueue.Ops.{
  sp_do_enqueue, sc_do_dequeue, mp_do_enqueue, mc_do_dequeue, set_prod_head, set_prod_tail,
  set_cons_head, Limit, move, give_up, limit, free_entries, enqueue_ret, returned, reserved,
  reserve_prod, reserve_cons, cmpxchg_prod_head, cmpxchg_cons_head, wait_prod_tail, wait_cons_tail,
}
use mathlib.Core.Option

-- The first cmpxchg of a run alone succeeds.
pub reserve_prod_move :
    (r : RingQueue) (fuel n m : ℕ) (behavior : Behavior)
    → limit enobufs behavior n (free_entries r) ≡ move m
    → reserve_prod (suc fuel) r n behavior
      ≡ some (reserved r.prod.head m (free_entries r) (set_prod_head r (add32 r.prod.head m)))
unfolding reserve_prod cmpxchg_prod_head
reserve_prod_move r fuel n m behavior lim =
    rw (lim, reserve_prod) (rw (==_refl r.prod.head) (rw (==_refl r.prod.head) refl))

reserve_prod_give_up :
    (r : RingQueue) (fuel n : ℕ) (ret : Ret) (behavior : Behavior)
    → limit enobufs behavior n (free_entries r) ≡ give_up ret
    → reserve_prod (suc fuel) r n behavior ≡ some (returned ret)
unfolding reserve_prod
reserve_prod_give_up r fuel n ret behavior lim = rw (lim, reserve_prod)

reserve_cons_give_up :
    (r : RingQueue) (fuel n : ℕ) (ret : Ret) (behavior : Behavior)
    → limit enoent behavior n (sub32 r.prod.tail r.cons.head) ≡ give_up ret
    → reserve_cons (suc fuel) r n behavior ≡ some (returned ret)
unfolding reserve_cons
reserve_cons_give_up r fuel n ret behavior lim = rw (lim, reserve_cons)

pub reserve_cons_move :
    (r : RingQueue) (fuel n m : ℕ) (behavior : Behavior)
    → limit enoent behavior n (sub32 r.prod.tail r.cons.head) ≡ move m
    → reserve_cons (suc fuel) r n behavior
      ≡ some (
          reserved r.cons.head m
            (sub32 r.prod.tail r.cons.head)
            (set_cons_head r (add32 r.cons.head m)))
unfolding reserve_cons cmpxchg_cons_head
reserve_cons_move r fuel n m behavior lim =
    rw (lim, reserve_cons) (rw (==_refl r.cons.head) (rw (==_refl r.cons.head) refl))

wait_prod_tail_there :
    (fuel : ℕ) (r : RingQueue) (h : ℕ) → r.prod.tail ≡ h → wait_prod_tail (suc fuel) r h ≡ some r
unfolding wait_prod_tail
wait_prod_tail_there fuel r h e = rw (eq→== r.prod.tail h e)

wait_cons_tail_there :
    (fuel : ℕ) (r : RingQueue) (h : ℕ) → r.cons.tail ≡ h → wait_cons_tail (suc fuel) r h ≡ some r
unfolding wait_cons_tail
wait_cons_tail_there fuel r h e = rw (eq→== r.cons.tail h e)

Limit-cases : (l : Limit) → ((ret : Ret) × (l ≡ give_up ret)) ⊎ ((m : ℕ) × (l ≡ move m))
Limit-cases (give_up ret) = inl (ret, refl)
Limit-cases (move m) = inr (m, refl)

-- What follows ENQUEUE_PTRS sees the ring with another array.
enqueue_ptrs-bind {ℓ} :
    {A : Type ℓ} (r : RingQueue) (head : ℕ) (table : List Ptr) (n : ℕ) (f g : RingQueue → Option A)
    → ((ring : List Ptr) → f (record r { ring = ring }) ≡ g (record r { ring = ring }))
    → (enqueue_ptrs r head table n >>= f) ≡ (enqueue_ptrs r head table n >>= g)
unfolding enqueue_ptrs
enqueue_ptrs-bind r head table n f g h =
    go (over_ptrs (store table) r.prod.size r.prod.mask head n r.ring)
  where
    go :
        (o : Option (List Ptr))
        → (Option.map (λ ring. record r { ring = ring }) o >>= f)
          ≡ (Option.map (λ ring. record r { ring = ring }) o >>= g)
    go none = refl
    go (some ring) = h ring

-- Run alone on a ring at rest, the multi-producer enqueue does what the single-producer one does:
-- its cmpxchg succeeds at the first try and its wait ends at once, so one round of fuel is enough.
pub mp_do_enqueue-sp_do_enqueue :
    {r : RingQueue} (v : IsValid r) (fuel : ℕ) (table : List Ptr) (n : ℕ) (behavior : Behavior)
    → mp_do_enqueue (suc fuel) r table n behavior ≡ sp_do_enqueue r table n behavior
unfolding mp_do_enqueue sp_do_enqueue
mp_do_enqueue-sp_do_enqueue {r} v fuel table n behavior =
    elim (Limit-cases (limit enobufs behavior n (free_entries r))) [
      | inl (ret, lim) ↦
          rw (reserve_prod_give_up r fuel n ret behavior lim) (rw (lim, sp_do_enqueue))
      | inr (m, lim) ↦ rw (reserve_prod_move r fuel n m behavior lim) (
          rw (lim, sp_do_enqueue)
            (enqueue_ptrs-bind (set_prod_head r (add32 r.prod.head m)) r.prod.head table m
              (λ t. wait_prod_tail (suc fuel) t r.prod.head >>= λ u. done m u) (λ s. done m s)
              (λ ring. rw (
                wait_prod_tail_there fuel
                  (record (set_prod_head r (add32 r.prod.head m)) { ring = ring }) r.prod.head
                  v.enqueued))))
    ]
  where
    done : ℕ → RingQueue → Option (Ret × RingQueue)
    done m s =
        some (enqueue_ret r behavior m (free_entries r), set_prod_tail s (add32 r.prod.head m))

-- Run alone on a ring at rest, the multi-consumer dequeue does what the single-consumer one does:
-- one round of fuel is enough.
pub mc_do_dequeue-sc_do_dequeue :
    {r : RingQueue} (v : IsValid r) (fuel : ℕ) (table : List Ptr) (n : ℕ) (behavior : Behavior)
    → mc_do_dequeue (suc fuel) r table n behavior ≡ sc_do_dequeue r table n behavior
unfolding mc_do_dequeue sc_do_dequeue
mc_do_dequeue-sc_do_dequeue {r} v fuel table n behavior =
    elim (Limit-cases (limit enoent behavior n (sub32 r.prod.tail r.cons.head))) [
      | inl (ret, lim) ↦
          rw (reserve_cons_give_up r fuel n ret behavior lim) (rw (lim, sc_do_dequeue))
      | inr (m, lim) ↦ rw (reserve_cons_move r fuel n m behavior lim) (
          rw (lim, sc_do_dequeue)
            (rw (
              wait_cons_tail_there fuel (set_cons_head r (add32 r.cons.head m)) r.cons.head
                v.dequeued)))
    ]

-- Alone on a ring at rest, in both behaviors, the operations for several producers or consumers end in
-- one round and do what those for one do.
pub ring_multi_alone :
    {r : RingQueue} (v : IsValid r) (fuel : ℕ) (table : List Ptr) (n : ℕ) (behavior : Behavior)
    → (mp_do_enqueue (suc fuel) r table n behavior ≡ sp_do_enqueue r table n behavior)
      × (mc_do_dequeue (suc fuel) r table n behavior ≡ sc_do_dequeue r table n behavior)
ring_multi_alone v fuel table n behavior = (
  mp_do_enqueue-sp_do_enqueue v fuel table n behavior,
  mc_do_dequeue-sc_do_dequeue v fuel table n behavior,
)
