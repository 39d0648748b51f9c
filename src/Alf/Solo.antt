-- ===== src/Alf/Solo.antt =====
-- The multi-producer and multi-consumer operations, run alone on a queue at rest.
use prototype_kernel.Base.{
  ℕ, suc, ◌≡◌, refl, arith, List, Option, some, none, ◌>>=◌, min, ltb, ◌==◌, if◌then◌else◌, eq→==,
  ==_refl, Bool-cases, inl, inr,
}
use prototype_kernel.Base.Words.{add32, sub32}
use prototype_kernel.Copy.Slots.{Ptr}
use prototype_kernel.Alf.Queue.{AlfQueue}
use prototype_kernel.Alf.Valid.{IsValid}
use prototype_kernel.Alf.Helpers.{with_ring, enqueue_store_unroll}
use prototype_kernel.Alf.Ops.{
  alf_sp_enqueue, alf_sc_dequeue, alf_mp_enqueue, alf_mc_dequeue, set_producer_head,
  set_producer_tail, set_consumer_head, reserve_enqueue, reserve_dequeue, wait_producer_tail,
  wait_consumer_tail,
}

-- What follows a store sees the queue with another ring.
with_ring-bind {ℓ} :
    {A : Type ℓ} (q : AlfQueue) (m : Option (List Ptr)) (f g : AlfQueue → Option A)
    → ((r : List Ptr) → f (record q { ring = r }) ≡ g (record q { ring = r }))
    → (with_ring q m >>= f) ≡ (with_ring q m >>= g)
with_ring-bind q none f g h = refl
with_ring-bind q (some r) f g h = h r

reserve_enqueue_solo :
    (q : AlfQueue) (fuel n : ℕ)
    → reserve_enqueue (suc fuel) q n
      ≡ some (
          if ltb (sub32 (add32 q.size q.consumer.tail) q.producer.head) n
          then none
          else some (q.producer.head, set_producer_head q (add32 q.producer.head n)))
unfolding reserve_enqueue
reserve_enqueue_solo q fuel n = ground (arith, ==_refl q.producer.head)

reserve_dequeue_solo :
    (q : AlfQueue) (fuel n : ℕ)
    → let all = sub32 q.producer.tail q.consumer.head in
      reserve_dequeue (suc fuel) q n
      ≡ some (
          if all == 0
          then none
          else some
              (q.consumer.head, min all n, set_consumer_head q (add32 q.consumer.head (min all n))))
unfolding reserve_dequeue
reserve_dequeue_solo q fuel n = ground (arith, ==_refl q.consumer.head)

-- A wait for a value that is there ends at once.
wait_producer_tail_there :
    (fuel : ℕ) (q : AlfQueue) (h : ℕ)
    → q.producer.tail ≡ h
    → wait_producer_tail (suc fuel) q h ≡ some q
unfolding wait_producer_tail
wait_producer_tail_there fuel q h e = rw (eq→== q.producer.tail h e)

wait_consumer_tail_there :
    (fuel : ℕ) (q : AlfQueue) (h : ℕ)
    → q.consumer.tail ≡ h
    → wait_consumer_tail (suc fuel) q h ≡ some q
unfolding wait_consumer_tail
wait_consumer_tail_there fuel q h e = rw (eq→== q.consumer.tail h e)

-- Run alone on a queue at rest, the multi-producer enqueue does what the single-producer one does:
-- its cmpxchg succeeds at the first try and its wait ends at once, so one round of fuel is enough.
pub alf_mp_enqueue-alf_sp_enqueue :
    {q : AlfQueue} (v : IsValid q) (fuel : ℕ) (ptr : List Ptr) (n : ℕ)
    → alf_mp_enqueue (suc fuel) q ptr n ≡ alf_sp_enqueue q ptr n
unfolding alf_mp_enqueue alf_sp_enqueue enqueue_store_unroll
alf_mp_enqueue-alf_sp_enqueue {q} v fuel ptr n =
    rw (reserve_enqueue_solo q fuel n)
      (elim (Bool-cases (ltb (sub32 (add32 q.size q.consumer.tail) q.producer.head) n)) [
        | inl full ↦ rw full
        | inr room ↦ rw room (
            with_ring-bind (set_producer_head q (add32 q.producer.head n)) _
              (λ s. wait_producer_tail (suc fuel) s q.producer.head >>= λ t.
                some (n, set_producer_tail t (add32 q.producer.head n)))
              (λ r. some (n, set_producer_tail r (add32 q.producer.head n)))
              (λ r. rw (
                wait_producer_tail_there fuel
                  (record q {
                    producer = record { head = add32 q.producer.head n; tail = q.producer.tail };
                    ring = r;
                  })
                  q.producer.head v.enqueued)))
      ])

-- Run alone on a queue at rest, the multi-consumer dequeue does what the single-consumer one does:
-- one round of fuel is enough.
pub alf_mc_dequeue-alf_sc_dequeue :
    {q : AlfQueue} (v : IsValid q) (fuel : ℕ) (ptr : List Ptr) (n : ℕ)
    → alf_mc_dequeue (suc fuel) q ptr n ≡ alf_sc_dequeue q ptr n
unfolding alf_mc_dequeue alf_sc_dequeue
alf_mc_dequeue-alf_sc_dequeue {q} v fuel ptr n =
    rw (reserve_dequeue_solo q fuel n)
      (elim (Bool-cases (sub32 q.producer.tail q.consumer.head == 0)) [
        | inl empty ↦ rw empty
        | inr more ↦ rw (
          more,
          wait_consumer_tail_there fuel
              (set_consumer_head q
                (add32 q.consumer.head (min (sub32 q.producer.tail q.consumer.head) n)))
              q.consumer.head v.dequeued,
        )
      ])
