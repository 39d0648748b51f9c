-- ===== src/Alf/Alloc.antt =====
-- What `alf_queue_alloc` hands out, and the counters of a queue at rest.
use prototype_kernel.Base.{
  ℕ, ◌-◌, ◌^◌, ◌≤◌, ◌≡◌, refl, ap, ◌↔◌, arith, List, [], Option, some, length, Bool, true, eq→==,
  ==_iff, ◌==◌,
}
use prototype_kernel.Base.Words.{sub32}
use prototype_kernel.Copy.Slots.{Ptr, window}
use prototype_kernel.Alf.Queue.{
  AlfQueue, allocated, alf_queue_alloc, alf_queue_empty, alf_queue_count, alf_queue_avail_space,
}
use prototype_kernel.Alf.Valid.{IsValid, contents}
use prototype_kernel.Alf.RefineEnqueue.{length-contents, space_lem, in_use}
use native.Mathlib.Nat.{pow-le-pow_right, one-le-pow}
use native.Mathlib.Decide.{dec_le}

log_le : (k : ℕ) → 2 ^ k ≤ 65536 → k ≤ 16
log_le k h = elim (dec_le k 16) [
  | yes le ↦ le
  | no gt ↦
      absurd (omega (arith, pow-le-pow_right {n = 2} (omega arith) {i = 17} {j = k} (omega arith)))
]

module _ (is_power_of_2 : ℕ → Bool) (kzalloc : ℕ → Option (List Ptr))
    (power_of_2 : (n : ℕ) → is_power_of_2 n ≡ true → (k : ℕ) × (n ≡ 2 ^ k))
    (granted : (n : ℕ) (r : List Ptr) → kzalloc n ≡ some r → length r ≡ n) where
  abbrev fresh : ℕ → List Ptr → AlfQueue
  fresh size ring = record {
    size = size;
    mask = sub32 size 1;
    flags = 0;
    producer = record { head = 0; tail = 0 };
    consumer = record { head = 0; tail = 0 };
    ring = ring;
  }

  alloc_inversion :
      (size : ℕ) (q : AlfQueue)
      → alf_queue_alloc is_power_of_2 kzalloc size ≡ allocated q
      → (ring : List Ptr) × (kzalloc size ≡ some ring)
        × (is_power_of_2 size ≡ true)
        × (size ≤ 65536)
        × (q ≡ fresh size ring)
  unfolding alf_queue_alloc
  alloc_inversion size q e = ground arith

  -- With `is_power_of_2` true only of powers of two and kzalloc granting what was asked for, an
  -- allocated queue has the size asked for, is valid and is empty.
  pub alf_queue_alloc-IsValid :
      (size : ℕ) (q : AlfQueue)
      → alf_queue_alloc is_power_of_2 kzalloc size ≡ allocated q
      → (q.size ≡ size) × IsValid q × (contents q ≡ [])
  alf_queue_alloc-IsValid size q e =
      let (ring, got, power, le, is_fresh) = alloc_inversion size q e in
      let (k, pow) = power_of_2 size power in
      rw is_fresh (
        refl,
        record {
          sized = record {
            log = k;
            small = log_le k (omega arith);
            power = pow;
            ones = omega (arith, one-le-pow k 2);
            slots = granted size ring got;
          };
          enqueued = refl;
          dequeued = refl;
          producer_word = omega arith;
          consumer_word = omega arith;
          bounded = omega arith;
        },
        refl,
      )

-- The counters of a queue at rest tell the length of its contents.
pub counters_lem :
    {q : AlfQueue} (v : IsValid q)
    → (alf_queue_count q ≡ length (contents q))
      × (alf_queue_avail_space q ≡ q.size - length (contents q))
      × ((alf_queue_empty q ≡ true) ↔ (contents q ≡ []))
unfolding alf_queue_count alf_queue_avail_space alf_queue_empty
counters_lem {q} v = (
  omega (arith, length-contents v, v.dequeued),
  omega (arith, length-contents v, space_lem v),
  (
    (λ e. ap (λ m. window q.ring q.size q.consumer.tail m) (nothing e)),
    (λ e. eq→== q.consumer.tail q.producer.tail (tails e)),
  ),
)
  where
    nothing : q.consumer.tail == q.producer.tail ≡ true → in_use q ≡ 0
    nothing e =
        let same : q.consumer.tail ≡ q.producer.tail =
          (==_iff q.consumer.tail q.producer.tail).0 e in
        omega (arith, v.enqueued, v.dequeued, v.producer_word)

    tails : contents q ≡ [] → q.consumer.tail ≡ q.producer.tail
    tails e = omega (
      arith,
      ap length e,
      length-contents v,
      v.enqueued,
      v.dequeued,
      v.producer_word,
      v.consumer_word,
    )
