-- ===== src/Alf/Valid.antt =====
-- The representation invariant of an alf_queue, at rest: no operation is under way.
use prototype_kernel.Base.{ℕ, ◌-◌, ◌^◌, ◌≤◌, ◌<◌, ◌≡◌, List, length}
use prototype_kernel.Base.Words.{sub32}
use prototype_kernel.Copy.Slots.{Ptr, window}
use prototype_kernel.Alf.Queue.{AlfQueue}

-- The array has a power of two of slots, and the mask selects one.
pub record IsSized (q : AlfQueue) : Type 0 where
  pub log : ℕ
  pub small : log ≤ 16
  pub power : q.size ≡ 2 ^ log
  pub ones : q.mask ≡ 2 ^ log - 1
  pub slots : length q.ring ≡ q.size

pub record IsValid (q : AlfQueue) : Type 0 where
  pub sized : IsSized q
  pub enqueued : q.producer.tail ≡ q.producer.head
  pub dequeued : q.consumer.tail ≡ q.consumer.head
  pub producer_word : q.producer.head < 2 ^ 32
  pub consumer_word : q.consumer.head < 2 ^ 32
  pub bounded : sub32 q.producer.head q.consumer.head ≤ q.size

-- The elements from the consumer's tail to the producer's tail, oldest first.
abbrev pub contents : AlfQueue → List Ptr
contents q = window q.ring q.size q.consumer.tail (sub32 q.producer.tail q.consumer.tail)
