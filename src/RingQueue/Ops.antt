-- ===== src/RingQueue/Ops.antt =====
-- The four main operations of kernel/include/linux/ring_queue.h. `none` is a fault (an access out
-- of range) or, in the variants that wait, a wait that does not end.
use prototype_kernel.Base.{ℕ, zero, suc, List, Option, none, some, ◌>>=◌, ltb, ◌==◌, if◌then◌else◌}
use prototype_kernel.Base.Words.{add32, sub32}
use prototype_kernel.Copy.Slots.{Ptr}
use prototype_kernel.RingQueue.State.{
  RingQueue, Ret, zero_ret, count, quot_exceed, edquot, enobufs, enoent, Behavior, fixed, variable,
}
use prototype_kernel.RingQueue.Ptrs.{enqueue_ptrs, dequeue_ptrs}

abbrev pub set_prod_head : RingQueue → ℕ → RingQueue
set_prod_head r h = record r { prod = record (r.prod) { head = h } }

abbrev pub set_prod_tail : RingQueue → ℕ → RingQueue
set_prod_tail r t = record r { prod = record (r.prod) { tail = t } }

abbrev pub set_cons_head : RingQueue → ℕ → RingQueue
set_cons_head r h = record r { cons = record (r.cons) { head = h } }

abbrev pub set_cons_tail : RingQueue → ℕ → RingQueue
set_cons_tail r t = record r { cons = record (r.cons) { tail = t } }

-- How many elements to move, or what to return at once.
pub data Limit : Type 0 where
  move : ℕ → Limit
  give_up : Ret → Limit

-- `if (n > free) { if (FIXED) return error; if (free == 0) return 0; n = free; }`
unfoldable pub limit : Ret → Behavior → ℕ → ℕ → Limit
limit error fixed n free = if ltb free n then give_up error else move n
limit error variable n free =
    if ltb free n then (if free == 0 then give_up (count 0) else move free) else move n

-- `free_entries = mask + cons_tail - prod_head`
unfoldable pub free_entries : RingQueue → ℕ
free_entries r = sub32 (add32 r.prod.mask r.cons.tail) r.prod.head

-- The return value of an enqueue of `n`, with the watermark.
unfoldable pub enqueue_ret : RingQueue → Behavior → ℕ → ℕ → Ret
enqueue_ret r fixed n free =
    if ltb r.prod.watermark (add32 (sub32 (add32 r.prod.mask 1) free) n) then edquot else zero_ret
enqueue_ret r variable n free =
    if ltb r.prod.watermark (add32 (sub32 (add32 r.prod.mask 1) free) n)
    then quot_exceed n
    else count n

unfoldable pub dequeue_ret : Behavior → ℕ → Ret
dequeue_ret fixed n = zero_ret
dequeue_ret variable n = count n

-- `__ring_queue_sp_do_enqueue`
unfoldable pub sp_do_enqueue : RingQueue → List Ptr → ℕ → Behavior → Option (Ret × RingQueue)
sp_do_enqueue r obj_table n behavior = elim (limit enobufs behavior n (free_entries r)) [
  | give_up ret ↦ some (ret, r)
  | move m ↦ enqueue_ptrs (set_prod_head r (add32 r.prod.head m)) r.prod.head obj_table m >>= λ s.
      some (enqueue_ret r behavior m (free_entries r), set_prod_tail s (add32 r.prod.head m))
]

-- `__ring_queue_sc_do_dequeue`: also the caller's table
unfoldable pub sc_do_dequeue :
    RingQueue → List Ptr → ℕ → Behavior → Option (Ret × List Ptr × RingQueue)
sc_do_dequeue r obj_table n behavior =
    elim (limit enoent behavior n (sub32 r.prod.tail r.cons.head)) [
      | give_up ret ↦ some (ret, obj_table, r)
      | move m ↦
          dequeue_ptrs (set_cons_head r (add32 r.cons.head m)) r.cons.head obj_table m >>= λ table.
          some (
            dequeue_ret behavior m,
            table,
            set_cons_tail (set_cons_head r (add32 r.cons.head m)) (add32 r.cons.head m),
          )
    ]

-- The multi-producer and multi-consumer variants, run with no other CPU at work on the ring. The
-- loops are on fuel.
-- `cmpxchg` on the heads: what it read, and the ring
unfoldable pub cmpxchg_prod_head : RingQueue → ℕ → ℕ → ℕ × RingQueue
cmpxchg_prod_head r old new =
    if r.prod.head == old then (r.prod.head, set_prod_head r new) else (r.prod.head, r)

unfoldable pub cmpxchg_cons_head : RingQueue → ℕ → ℕ → ℕ × RingQueue
cmpxchg_cons_head r old new =
    if r.cons.head == old then (r.cons.head, set_cons_head r new) else (r.cons.head, r)

-- `while (r->prod.tail != prod_head) cpu_relax();`
unfoldable pub wait_prod_tail : ℕ → RingQueue → ℕ → Option RingQueue
wait_prod_tail zero r h = none
wait_prod_tail (suc fuel) r h =
    let again = wait_prod_tail fuel r h in if r.prod.tail == h then some r else again

unfoldable pub wait_cons_tail : ℕ → RingQueue → ℕ → Option RingQueue
wait_cons_tail zero r h = none
wait_cons_tail (suc fuel) r h =
    let again = wait_cons_tail fuel r h in if r.cons.tail == h then some r else again

-- What the do-while loop ends with.
pub data Reserved : Type 0 where
  returned : Ret → Reserved
  -- the head, the number of elements, the free entries seen, and the ring
  reserved : ℕ → ℕ → ℕ → RingQueue → Reserved

unfoldable pub reserve_prod : ℕ → RingQueue → ℕ → Behavior → Option Reserved
reserve_prod zero r n behavior = none
reserve_prod (suc fuel) r n behavior = elim (limit enobufs behavior n (free_entries r)) [
  | give_up ret ↦ some (returned ret)
  | move m ↦
      let (seen, s) = cmpxchg_prod_head r r.prod.head (add32 r.prod.head m) in
      let again = reserve_prod fuel s n behavior in
      if seen == r.prod.head then some (reserved r.prod.head m (free_entries r) s) else again
]

-- `__ring_queue_mp_do_enqueue`
unfoldable pub mp_do_enqueue : ℕ → RingQueue → List Ptr → ℕ → Behavior → Option (Ret × RingQueue)
mp_do_enqueue fuel r obj_table n behavior = reserve_prod fuel r n behavior >>= λ got. elim got [
  | returned ret ↦ some (ret, r)
  | reserved head m free s ↦ enqueue_ptrs s head obj_table m >>= λ t.
      wait_prod_tail fuel t head >>= λ u.
      some (enqueue_ret r behavior m free, set_prod_tail u (add32 head m))
]

unfoldable pub reserve_cons : ℕ → RingQueue → ℕ → Behavior → Option Reserved
reserve_cons zero r n behavior = none
reserve_cons (suc fuel) r n behavior =
    elim (limit enoent behavior n (sub32 r.prod.tail r.cons.head)) [
      | give_up ret ↦ some (returned ret)
      | move m ↦
          let (seen, s) = cmpxchg_cons_head r r.cons.head (add32 r.cons.head m) in
          let again = reserve_cons fuel s n behavior in
          if seen == r.cons.head
          then some (reserved r.cons.head m (sub32 r.prod.tail r.cons.head) s)
          else again
    ]

-- `__ring_queue_mc_do_dequeue`
unfoldable pub mc_do_dequeue :
    ℕ → RingQueue → List Ptr → ℕ → Behavior → Option (Ret × List Ptr × RingQueue)
mc_do_dequeue fuel r obj_table n behavior = reserve_cons fuel r n behavior >>= λ got. elim got [
  | returned ret ↦ some (ret, obj_table, r)
  | reserved head m free s ↦ dequeue_ptrs s head obj_table m >>= λ table.
      wait_cons_tail fuel s head >>= λ u.
      some (dequeue_ret behavior m, table, set_cons_tail u (add32 head m))
]
