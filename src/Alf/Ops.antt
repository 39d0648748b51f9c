-- ===== src/Alf/Ops.antt =====
-- Enqueue and dequeue of kernel/include/linux/alf_queue.h. `none` is a fault (an access out of
-- range) or, in the variants that wait, a wait that does not end.
use prototype_kernel.Base.{
  ℕ, zero, suc, List, Option, none, some, ◌>>=◌, ltb, ◌==◌, if◌then◌else◌, min,
}
use prototype_kernel.Base.Words.{add32, sub32}
use prototype_kernel.Copy.Slots.{Ptr}
use prototype_kernel.Alf.Queue.{AlfQueue}
use prototype_kernel.Alf.Helpers.{enqueue_store_unroll, dequeue_load_unroll}

abbrev pub set_producer_head : AlfQueue → ℕ → AlfQueue
set_producer_head q h = record q { producer = record { head = h; tail = q.producer.tail } }

abbrev pub set_producer_tail : AlfQueue → ℕ → AlfQueue
set_producer_tail q t = record q { producer = record { head = q.producer.head; tail = t } }

abbrev pub set_consumer_head : AlfQueue → ℕ → AlfQueue
set_consumer_head q h = record q { consumer = record { head = h; tail = q.consumer.tail } }

abbrev pub set_consumer_tail : AlfQueue → ℕ → AlfQueue
set_consumer_tail q t = record q { consumer = record { head = q.consumer.head; tail = t } }

-- `alf_sp_enqueue`: the number of elements taken in, and the queue
unfoldable pub alf_sp_enqueue : AlfQueue → List Ptr → ℕ → Option (ℕ × AlfQueue)
alf_sp_enqueue q ptr n =
    let p_head = q.producer.head in
    let space = sub32 (add32 q.size q.consumer.tail) p_head in
    let p_next = add32 p_head n in
    if ltb space n
    then some (0, q)
    else (enqueue_store_unroll p_head (set_producer_head q p_next) ptr n >>= λ r.
        some (n, set_producer_tail r p_next))

-- `alf_sc_dequeue`: the number of elements taken out, the caller's table, and the queue
unfoldable pub alf_sc_dequeue : AlfQueue → List Ptr → ℕ → Option (ℕ × List Ptr × AlfQueue)
alf_sc_dequeue q ptr n =
    let c_head = q.consumer.head in
    let all = sub32 q.producer.tail c_head in
    let elems = min all n in
    let c_next = add32 c_head elems in
    let r = set_consumer_head q c_next in
    if all == 0
    then some (0, ptr, q)
    else (dequeue_load_unroll c_head r ptr elems >>= λ table.
        some (elems, table, set_consumer_tail r c_next))

-- The multi-producer and multi-consumer variants, run with no other CPU at work on the queue: each
-- read sees what this run wrote. The loops are on fuel.
-- `cmpxchg(&q->producer.head, old, new)`: what it read, and the queue
unfoldable pub cmpxchg_producer_head : AlfQueue → ℕ → ℕ → ℕ × AlfQueue
cmpxchg_producer_head q old new =
    if q.producer.head == old
    then (q.producer.head, set_producer_head q new)
    else (q.producer.head, q)

unfoldable pub cmpxchg_consumer_head : AlfQueue → ℕ → ℕ → ℕ × AlfQueue
cmpxchg_consumer_head q old new =
    if q.consumer.head == old
    then (q.consumer.head, set_consumer_head q new)
    else (q.consumer.head, q)

-- `while (q->producer.tail != p_head) cpu_relax();`
unfoldable pub wait_producer_tail : ℕ → AlfQueue → ℕ → Option AlfQueue
wait_producer_tail zero q p_head = none
wait_producer_tail (suc fuel) q p_head =
    let again = wait_producer_tail fuel q p_head in
    if q.producer.tail == p_head then some q else again

unfoldable pub wait_consumer_tail : ℕ → AlfQueue → ℕ → Option AlfQueue
wait_consumer_tail zero q c_head = none
wait_consumer_tail (suc fuel) q c_head =
    let again = wait_consumer_tail fuel q c_head in
    if q.consumer.tail == c_head then some q else again

-- The do-while loop: no room, or the reserved head with the queue.
unfoldable pub reserve_enqueue : ℕ → AlfQueue → ℕ → Option (Option (ℕ × AlfQueue))
unfolding cmpxchg_producer_head
reserve_enqueue zero q n = none
reserve_enqueue (suc fuel) q n =
    let p_head = q.producer.head in
    let space = sub32 (add32 q.size q.consumer.tail) p_head in
    let swapped = cmpxchg_producer_head q p_head (add32 p_head n) in
    let again = reserve_enqueue fuel swapped.1 n in
    if ltb space n
    then some none
    else (if swapped.0 == p_head then some (some (p_head, swapped.1)) else again)

unfoldable pub alf_mp_enqueue : ℕ → AlfQueue → List Ptr → ℕ → Option (ℕ × AlfQueue)
unfolding reserve_enqueue wait_producer_tail
alf_mp_enqueue fuel q ptr n = reserve_enqueue fuel q n >>= λ reserved. elim reserved [
  | none ↦ some (0, q)
  | some (p_head, r) ↦ enqueue_store_unroll p_head r ptr n >>= λ s.
      wait_producer_tail fuel s p_head >>= λ t. some (n, set_producer_tail t (add32 p_head n))
]

-- The same for dequeue: nothing there, or the reserved head, the number and the queue.
unfoldable pub reserve_dequeue : ℕ → AlfQueue → ℕ → Option (Option (ℕ × ℕ × AlfQueue))
unfolding cmpxchg_consumer_head
reserve_dequeue zero q n = none
reserve_dequeue (suc fuel) q n =
    let c_head = q.consumer.head in
    let all = sub32 q.producer.tail c_head in
    let elems = min all n in
    let swapped = cmpxchg_consumer_head q c_head (add32 c_head elems) in
    let again = reserve_dequeue fuel swapped.1 n in
    if all == 0
    then some none
    else (if swapped.0 == c_head then some (some (c_head, elems, swapped.1)) else again)

unfoldable pub alf_mc_dequeue : ℕ → AlfQueue → List Ptr → ℕ → Option (ℕ × List Ptr × AlfQueue)
unfolding reserve_dequeue wait_consumer_tail
alf_mc_dequeue fuel q ptr n = reserve_dequeue fuel q n >>= λ reserved. elim reserved [
  | none ↦ some (0, ptr, q)
  | some (c_head, elems, r) ↦ dequeue_load_unroll c_head r ptr elems >>= λ table.
      wait_consumer_tail fuel r c_head >>= λ t.
      some (elems, table, set_consumer_tail t (add32 c_head elems))
]
