-- ===== src/RingQueue/Examples/Waits.antt =====
-- A ring of eight slots with an enqueue and a dequeue under way: the producer of 8 has not written its
-- tail, and the consumer of 5 has not written the other one. Producers are single, consumers are not.
use prototype_kernel.Base.{ℕ, ◌≡◌, refl, arith, List, [], ◌∷◌, some, none, true, false}
use prototype_kernel.Copy.Slots.{Ptr}
use prototype_kernel.RingQueue.State.{RingQueue, zero_ret, count}
use prototype_kernel.RingQueue.Api.{
  enqueue_bulk, enqueue_burst, enqueue, dequeue_bulk, dequeue_burst, dequeue,
}
use prototype_kernel.RingQueue.Ops.{free_entries, enqueue_ret}
use prototype_kernel.RingQueue.Valid.{IsSized}
use prototype_kernel.RingQueue.Waits.{enqueue_waits, dequeue_waits}

abbrev under_way : RingQueue
under_way = record {
  flags = 1;
  prod = record { watermark = 8; sp_enqueue = true; size = 8; mask = 7; head = 4; tail = 3 };
  cons = record { sc_dequeue = false; size = 8; mask = 7; head = 1; tail = 0 };
  ring = 5 ∷ 6 ∷ 7 ∷ 8 ∷ 0 ∷ 0 ∷ 0 ∷ 0 ∷ [];
}

under_way-IsSized : IsSized under_way
under_way-IsSized = record {
  log = 3;
  small = omega arith;
  prod_power = refl;
  cons_power = refl;
  ones = refl;
  slots = refl;
}

abbrev filled : ℕ → List Ptr → RingQueue
filled n ring = record {
  flags = 1;
  prod = record { watermark = 8; sp_enqueue = true; size = 8; mask = 7; head = n; tail = n };
  cons = record { sc_dequeue = false; size = 8; mask = 7; head = 1; tail = 0 };
  ring = ring;
}

enqueue_waits_example :
    (enqueue_bulk 5 under_way (9 ∷ 9 ∷ []) 2
      ≡ some (zero_ret, filled 6 (5 ∷ 6 ∷ 7 ∷ 8 ∷ 9 ∷ 9 ∷ 0 ∷ 0 ∷ [])))
    × (enqueue_burst 5 under_way (9 ∷ 9 ∷ []) 2
        ≡ some (count 2, filled 6 (5 ∷ 6 ∷ 7 ∷ 8 ∷ 9 ∷ 9 ∷ 0 ∷ 0 ∷ [])))
    × (enqueue 5 under_way 3 ≡ some (zero_ret, filled 5 (5 ∷ 6 ∷ 7 ∷ 8 ∷ 3 ∷ 0 ∷ 0 ∷ 0 ∷ [])))
unfolding enqueue_ret free_entries
enqueue_waits_example =
    enqueue_waits under_way-IsSized 5 (9 ∷ 9 ∷ []) 3 2 (omega arith) (omega arith) (omega arith)
      (omega arith) (λ e. absurd (omega arith))

dequeue_waits_example :
    (dequeue_bulk 5 under_way (0 ∷ 0 ∷ []) 2 ≡ none)
    × (dequeue_burst 5 under_way (0 ∷ 0 ∷ []) 2 ≡ none)
    × (dequeue 5 under_way 0 ≡ none)
dequeue_waits_example =
    dequeue_waits under_way-IsSized 5 (0 ∷ 0 ∷ []) 0 2 (omega arith) (omega arith) (omega arith)
      (omega arith) (λ e. absurd (omega arith))
