-- ===== src/RingQueue/Examples.antt =====
-- Tests of kernel/include/linux/ring_queue.h on a ring of four slots, and the theorems at such
-- inputs.
mod Waits
use prototype_kernel.Base.{
  ℕ, ◌≡◌, refl, ap, arith, List, [], ◌∷◌, Option, some, true, false, ◌∙◌, length, replicate,
  length-replicate,
}
use prototype_kernel.Copy.Slots.{Ptr}
use prototype_kernel.RingQueue.State.{
  RingQueue, zero_ret, quot_exceed, enobufs, fixed, variable, powerof2, flag_set, ring_queue_create,
}
use prototype_kernel.RingQueue.Ops.{sp_do_enqueue, sc_do_dequeue, mp_do_enqueue, mc_do_dequeue}
use prototype_kernel.RingQueue.Spec.{enqueue_spec, dequeue_spec}
use prototype_kernel.RingQueue.Valid.{IsValid, contents}
use prototype_kernel.RingQueue.Enqueue.{sp_do_enqueue-Refines}
use prototype_kernel.RingQueue.Dequeue.{sc_do_dequeue-Refines}
use prototype_kernel.RingQueue.Solo.{ring_multi_alone}
use prototype_kernel.RingQueue.Create.{ring_queue_create-IsValid, fresh}

-- Two objects, 8 and 9, with the counters about to wrap at 2 ^ 32; the watermark is 3.
abbrev near_wrap : RingQueue
near_wrap = record {
  flags = 1;
  prod = record {
    watermark = 3;
    sp_enqueue = true;
    size = 4;
    mask = 3;
    head = 0xffffffff;
    tail = 0xffffffff;
  };
  cons = record { sc_dequeue = false; size = 4; mask = 3; head = 0xfffffffd; tail = 0xfffffffd };
  ring = 6 ∷ 8 ∷ 9 ∷ 7 ∷ [];
}

near_wrap-IsValid : IsValid near_wrap
near_wrap-IsValid = record {
  sized = record {
    log = 2;
    small = omega arith;
    prod_power = refl;
    cons_power = refl;
    ones = refl;
    slots = refl;
  };
  enqueued = refl;
  dequeued = refl;
  prod_word = omega arith;
  cons_word = omega arith;
  bounded = omega arith;
}

contents-near_wrap : contents near_wrap ≡ 8 ∷ 9 ∷ []
contents-near_wrap = refl

abbrev two : List Ptr
two = 1 ∷ 2 ∷ []

-- One slot of the four stays free: there is no room for two more.
fixed_full : enqueue_spec 3 3 fixed (8 ∷ 9 ∷ []) two ≡ (enobufs, 8 ∷ 9 ∷ [])
unfolding enqueue_spec
fixed_full = refl

variable_part : enqueue_spec 3 3 variable (8 ∷ 9 ∷ []) two ≡ (quot_exceed 1, 8 ∷ 9 ∷ 1 ∷ [])
unfolding enqueue_spec
variable_part = refl

sp_do_enqueue-Refines_example :
    (s : RingQueue) × (sp_do_enqueue near_wrap two 2 variable ≡ some (quot_exceed 1, s))
    × (contents s ≡ 8 ∷ 9 ∷ 1 ∷ [])
    × IsValid s
unfolding enqueue_spec
sp_do_enqueue-Refines_example = sp_do_enqueue-Refines near_wrap-IsValid two 2 variable (omega arith)

sc_do_dequeue-Refines_example :
    (s : RingQueue) × (sc_do_dequeue near_wrap (0 ∷ 0 ∷ 5 ∷ []) 2 fixed
      ≡ some (zero_ret, 8 ∷ 9 ∷ 5 ∷ [], s))
    × (contents s ≡ [])
    × IsValid s
unfolding dequeue_spec
sc_do_dequeue-Refines_example =
    sc_do_dequeue-Refines near_wrap-IsValid (0 ∷ 0 ∷ 5 ∷ []) 2 fixed (omega arith)

ring_multi_alone_example :
    (mp_do_enqueue 1 near_wrap two 2 variable ≡ sp_do_enqueue near_wrap two 2 variable)
    × (mc_do_dequeue 1 near_wrap two 2 variable ≡ sc_do_dequeue near_wrap two 2 variable)
ring_multi_alone_example = ring_multi_alone near_wrap-IsValid 0 two 2 variable

zeroed : ℕ → Option (List Ptr)
zeroed n = some (replicate n 0)

zeroed_granted : (n : ℕ) (ring : List Ptr) → zeroed n ≡ some ring → length ring ≡ n
unfolding zeroed
zeroed_granted n ring e =
    let same : ring ≡ replicate n 0 = cc in ap length same ∙ length-replicate n 0

ring_queue_create-IsValid_example :
    let r = fresh 4 1 (0 ∷ 0 ∷ 0 ∷ 0 ∷ []) in
    (r.prod.size ≡ 4)
    × IsValid r
    × (contents r ≡ [])
    × (r.prod.watermark ≡ 4)
    × (r.prod.sp_enqueue ≡ flag_set 1 1)
    × (r.cons.sc_dequeue ≡ flag_set 1 2)
unfolding ring_queue_create powerof2 zeroed
ring_queue_create-IsValid_example =
    ring_queue_create-IsValid zeroed zeroed_granted 4 1 (fresh 4 1 (0 ∷ 0 ∷ 0 ∷ 0 ∷ []))
      (omega arith) (omega arith) refl

-- The ring as it is created, before anything is enqueued.
abbrev created : RingQueue
created = fresh 4 1 (0 ∷ 0 ∷ 0 ∷ 0 ∷ [])

created-IsValid : IsValid created
created-IsValid = record {
  sized = record {
    log = 2;
    small = omega arith;
    prod_power = refl;
    cons_power = refl;
    ones = refl;
    slots = refl;
  };
  enqueued = refl;
  dequeued = refl;
  prod_word = omega arith;
  cons_word = omega arith;
  bounded = omega arith;
}
