-- ===== src/RingQueue/Ptrs.antt =====
-- ENQUEUE_PTRS and DEQUEUE_PTRS of kernel/include/linux/ring_queue.h. The two macros share their
-- loops; `body idx i` is `r->ring[idx] = obj_table[i]` in the first, and
-- `obj_table[i] = r->ring[idx]` in the second. The switch falls through, so it makes `n & 3` moves
-- one after the other.
use prototype_kernel.Base.{ℕ, ◌-◌, ◌/◌, List, Option, bit_and, ltb, if◌then◌else◌, ◌>>=◌}
use prototype_kernel.Base.Words.{add32}
use prototype_kernel.Copy.Loops.{plain, unrolled, iterations}
use prototype_kernel.Copy.Slots.{Ptr, store, load}
use prototype_kernel.RingQueue.State.{RingQueue}
use mathlib.Core.Option

unfoldable pub over_ptrs :
    (ℕ → ℕ → List Ptr → Option (List Ptr)) → ℕ → ℕ → ℕ → ℕ → List Ptr → Option (List Ptr)
over_ptrs body size mask head n s =
    let idx = bit_and head mask in
    if ltb (add32 idx n) size
    then (unrolled body (iterations n / 4) 0 idx s >>= λ t.
        plain body (bit_and n 3) (iterations n) (add32 idx (iterations n)) t)
    else (plain body (size - idx) 0 idx s >>= λ t. plain body (n - (size - idx)) (size - idx) 0 t)

-- `mask` is `r->prod.mask` in both; the size is that of the producer or of the consumer.
unfoldable pub enqueue_ptrs : RingQueue → ℕ → List Ptr → ℕ → Option RingQueue
enqueue_ptrs r prod_head obj_table n =
    Option.map (λ ring. record r { ring = ring })
      (over_ptrs (store obj_table) r.prod.size r.prod.mask prod_head n r.ring)

unfoldable pub dequeue_ptrs : RingQueue → ℕ → List Ptr → ℕ → Option (List Ptr)
dequeue_ptrs r cons_head obj_table n =
    over_ptrs (load r.ring) r.cons.size r.prod.mask cons_head n obj_table
