-- ===== src/Alf/Queue.antt =====
-- `struct alf_queue` with its allocation and its counters: kernel/include/linux/alf_queue.h and
-- kernel/lib/alf_queue.c. The flexible array `ring` is a list of pointers.
use prototype_kernel.Base.{ℕ, Bool, ◌||◌, not, List, Option, none, some, ltb, ◌==◌, if◌then◌else◌}
use prototype_kernel.Base.Words.{add32, sub32}
use prototype_kernel.Copy.Slots.{Ptr}

-- `struct alf_actor`, for the producers or the consumers
pub record AlfActor : Type 0 where
  pub head : ℕ
  pub tail : ℕ

-- `struct alf_queue`
pub record AlfQueue : Type 0 where
  pub size : ℕ
  pub mask : ℕ
  pub flags : ℕ
  pub producer : AlfActor
  pub consumer : AlfActor
  pub ring : List Ptr

-- What `alf_queue_alloc` returns: a queue, or an error pointer.
pub data AlfAlloc : Type 0 where
  allocated : AlfQueue → AlfAlloc
  einval enomem : AlfAlloc

-- `alf_queue_alloc`. `is_power_of_2` (linux/log2.h) and the memory that kzalloc hands out for `n`
-- ring slots are the kernel's.
module _ (is_power_of_2 : ℕ → Bool) (kzalloc : ℕ → Option (List Ptr)) where
  unfoldable pub alf_queue_alloc : ℕ → AlfAlloc
  alf_queue_alloc size =
      if not (is_power_of_2 size) || ltb 65536 size then einval else elim (kzalloc size) [
        | none ↦ enomem
        | some ring ↦ allocated (record {
          size = size;
          mask = sub32 size 1;
          flags = 0;
          producer = record { head = 0; tail = 0 };
          consumer = record { head = 0; tail = 0 };
          ring = ring;
        })
      ]

unfoldable pub alf_queue_empty : AlfQueue → Bool
alf_queue_empty q = q.consumer.tail == q.producer.tail

unfoldable pub alf_queue_count : AlfQueue → ℕ
alf_queue_count q = sub32 q.producer.tail q.consumer.head

-- `q->size + c_tail - p_head`
unfoldable pub alf_queue_avail_space : AlfQueue → ℕ
alf_queue_avail_space q = sub32 (add32 q.size q.consumer.tail) q.producer.head
