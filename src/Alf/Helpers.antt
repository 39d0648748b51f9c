-- ===== src/Alf/Helpers.antt =====
-- The LOAD and STORE helpers of kernel/include/linux/alf_queue_helpers.h.
use prototype_kernel.Base.{ℕ, List, Option}
use prototype_kernel.Copy.Slots.{Ptr, store, load}
use prototype_kernel.Alf.Queue.{AlfQueue}
use prototype_kernel.Alf.Shapes.{
  over_simple, over_mask, over_mask_less, over_mask_less2, over_nomask, over_unroll,
  over_unroll_duff, over_memcpy,
}
use mathlib.Core.Option

-- The queue with the ring that a store left behind.
abbrev pub with_ring : AlfQueue → Option (List Ptr) → Option AlfQueue
with_ring q = Option.map (λ r. record q { ring = r })

module _ (p_head : ℕ) (q : AlfQueue) (ptr : List Ptr) (n : ℕ) where
  unfoldable pub enqueue_store_simple : Option AlfQueue
  enqueue_store_simple = with_ring q (over_simple (store ptr) q.size q.mask p_head n q.ring)

  unfoldable pub enqueue_store_mask : Option AlfQueue
  enqueue_store_mask = with_ring q (over_mask (store ptr) q.size q.mask p_head n q.ring)

  unfoldable pub enqueue_store_mask_less : Option AlfQueue
  enqueue_store_mask_less = with_ring q (over_mask_less (store ptr) q.size q.mask p_head n q.ring)

  unfoldable pub enqueue_store_mask_less2 : Option AlfQueue
  enqueue_store_mask_less2 = with_ring q (over_mask_less2 (store ptr) q.size q.mask p_head n q.ring)

  unfoldable pub enqueue_store_nomask : Option AlfQueue
  enqueue_store_nomask = with_ring q (over_nomask (store ptr) q.size q.mask p_head n q.ring)

  unfoldable pub enqueue_store_unroll : Option AlfQueue
  enqueue_store_unroll = with_ring q (over_unroll (store ptr) q.size q.mask p_head n q.ring)

  unfoldable pub enqueue_store_unroll_duff : Option AlfQueue
  enqueue_store_unroll_duff =
      with_ring q (over_unroll_duff (store ptr) q.size q.mask p_head n q.ring)

  unfoldable pub enqueue_store_memcpy : Option AlfQueue
  enqueue_store_memcpy = with_ring q (over_memcpy (store ptr) q.size q.mask p_head n q.ring)

-- `ptr` is the caller's table, which comes back with the elements in it.
module _ (c_head : ℕ) (q : AlfQueue) (ptr : List Ptr) (elems : ℕ) where
  unfoldable pub dequeue_load_simple : Option (List Ptr)
  dequeue_load_simple = over_simple (load q.ring) q.size q.mask c_head elems ptr

  unfoldable pub dequeue_load_mask : Option (List Ptr)
  dequeue_load_mask = over_mask (load q.ring) q.size q.mask c_head elems ptr

  unfoldable pub dequeue_load_mask_less : Option (List Ptr)
  dequeue_load_mask_less = over_mask_less (load q.ring) q.size q.mask c_head elems ptr

  unfoldable pub dequeue_load_mask_less2 : Option (List Ptr)
  dequeue_load_mask_less2 = over_mask_less2 (load q.ring) q.size q.mask c_head elems ptr

  unfoldable pub dequeue_load_nomask : Option (List Ptr)
  dequeue_load_nomask = over_nomask (load q.ring) q.size q.mask c_head elems ptr

  unfoldable pub dequeue_load_unroll : Option (List Ptr)
  dequeue_load_unroll = over_unroll (load q.ring) q.size q.mask c_head elems ptr

  unfoldable pub dequeue_load_unroll_duff : Option (List Ptr)
  dequeue_load_unroll_duff = over_unroll_duff (load q.ring) q.size q.mask c_head elems ptr

  unfoldable pub dequeue_load_memcpy : Option (List Ptr)
  dequeue_load_memcpy = over_memcpy (load q.ring) q.size q.mask c_head elems ptr
