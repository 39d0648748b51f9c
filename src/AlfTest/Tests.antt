-- ===== src/AlfTest/Tests.antt =====
-- The tests of kernel/lib/alf_queue_test.c. `none` is a fault, or a loop that did not end on the fuel
-- given. What the tests print is left out.
use prototype_kernel.Base.{
  ℕ, zero, suc, ◌+◌, Bool, true, false, not, Option, none, some, ◌>>=◌, List, [], ◌∷◌, ltb, ◌==◌,
  if◌then◌else◌, get_elem?,
}
use prototype_kernel.Copy.Slots.{Ptr}
use prototype_kernel.Alf.Queue.{
  AlfQueue, allocated, einval, enomem, alf_queue_alloc, alf_queue_empty, alf_queue_count,
  alf_queue_avail_space,
}
use prototype_kernel.Alf.Ops.{alf_mp_enqueue, alf_mc_dequeue}

-- `if (!test) goto fail;`
unfoldable pub require : Bool → Option Bool → Option Bool
require test rest = if test then rest else some false

-- `for (i = 0; i < count; i++, n++) objs[i] = (void *)(unsigned long)(n);`
unfoldable pub fake_objs : ℕ → ℕ → List Ptr
fake_objs zero n = []
fake_objs (suc count) n = n ∷ fake_objs count (n + 1)

-- `if (objs[i] != deq_objs[i]) goto fail;`, for `left` rounds from `i` on
unfoldable pub same_objs : ℕ → ℕ → List Ptr → List Ptr → Option Bool
unfolding require
same_objs zero i objs deq_objs = some true
same_objs (suc left) i objs deq_objs = get_elem? objs i >>= λ obj.
    get_elem? deq_objs i >>= λ deq_obj.
    require (obj == deq_obj) (same_objs left (i + 1) objs deq_objs)

-- What `run_basic_tests` returns: -1, or the number of tests.
pub data Verdict : Type 0 where
  failed : Verdict
  passed : ℕ → Verdict

-- TEST_FUNC
unfoldable pub test_func : Option Bool → (ℕ → Option Verdict) → ℕ → Option Verdict
test_func test rest passed_count =
    test >>= λ ok. if ok then rest (passed_count + 1) else some failed

module _ (is_power_of_2 : ℕ → Bool) (kzalloc : ℕ → Option (List Ptr)) where
  unfoldable pub test_detect_not_power_of_two : Bool
  test_detect_not_power_of_two = elim (alf_queue_alloc is_power_of_2 kzalloc 42) [
    | allocated q ↦ false
    | einval ↦ true
    | enomem ↦ false
  ]

  -- What a test does with a queue of a size, or `return false`
  unfoldable pub with_queue : ℕ → (AlfQueue → Option Bool) → Option Bool
  with_queue size test = elim (alf_queue_alloc is_power_of_2 kzalloc size) [
    | allocated q ↦ test q
    | einval ↦ some false
    | enomem ↦ some false
  ]

  unfoldable pub test_alloc_and_free : Option Bool
  unfolding with_queue
  test_alloc_and_free = with_queue 2048 (λ q. some true)

module _ (fuel : ℕ) where
  -- `test_add_and_remove_elem` from the enqueue on, with the object on the stack, at an address, and
  -- what stands at an address
  unfoldable pub add_and_remove_elem : Ptr → (Ptr → ℕ) → AlfQueue → Option Bool
  unfolding require
  add_and_remove_elem obj deref q = alf_mp_enqueue fuel q (obj ∷ []) 1 >>= λ e. require (e.0 == 1) (
      require (alf_queue_count e.1 == 1) (
        alf_mc_dequeue fuel e.1 (0 ∷ []) 1 >>= λ d. require (not (d.0 == 0)) (
          get_elem? d.1 0 >>= λ deq_obj.
          require (obj == deq_obj)
            (require (deref deq_obj == deref obj) (some (alf_queue_empty d.2))))))

  -- The rounds that are left of `test_add_and_remove_elems_BULK`
  unfoldable pub bulk_rounds : ℕ → ℕ → List Ptr → AlfQueue → Option Bool
  unfolding require fake_objs same_objs
  bulk_rounds zero n deq_objs q = some (alf_queue_empty q)
  bulk_rounds (suc left) n deq_objs q = alf_mp_enqueue fuel q (fake_objs 10 n) 10 >>= λ e.
      require (e.0 == 10) (
        require (alf_queue_count e.1 == 10) (
          alf_mc_dequeue fuel e.1 deq_objs 10 >>= λ d. require (d.0 == 10) (
            same_objs 10 0 (fake_objs 10 n) d.1 >>= λ same.
            require same (bulk_rounds left (n + 10) d.1 d.2))))

  -- The loop of `test_add_until_full` that enqueues `j` at a time until the queue is full
  unfoldable pub fill : ℕ → ℕ → List Ptr → ℕ → AlfQueue → Option (ℕ × AlfQueue)
  fill zero j objs enq_cnt_total q = none
  fill (suc rounds) j objs enq_cnt_total q = alf_mp_enqueue fuel q objs j >>= λ e.
      let again = fill rounds j objs (enq_cnt_total + e.0) e.1 in
      if ltb 0 (e.0) then again else some (enq_cnt_total, e.1)

  -- The one that dequeues until it is empty
  unfoldable pub drain : ℕ → ℕ → List Ptr → AlfQueue → Option (ℕ × List Ptr × AlfQueue)
  drain zero deq_cnt_total deq_objs q = none
  drain (suc rounds) deq_cnt_total deq_objs q = alf_mc_dequeue fuel q deq_objs 15 >>= λ d.
      let again = drain rounds (deq_cnt_total + d.0) (d.1) (d.2) in
      if ltb 0 (d.0) then again else some (deq_cnt_total, d.1, d.2)

  -- The rounds of `test_add_until_full` from `j` on
  unfoldable pub full_rounds : ℕ → ℕ → List Ptr → List Ptr → AlfQueue → Option Bool
  unfolding require fill drain
  full_rounds zero j objs deq_objs q = some (alf_queue_empty q)
  full_rounds (suc left) j objs deq_objs q = fill fuel j objs 0 q >>= λ e.
      require (alf_queue_count e.1 == e.0) (
        drain fuel 0 deq_objs (e.1) >>= λ d.
        require (alf_queue_count d.2 == 0)
          (require (d.0 == e.0) (full_rounds left (j + 1) objs (d.1) (d.2))))

module _ (is_power_of_2 : ℕ → Bool) (kzalloc : ℕ → Option (List Ptr)) (fuel : ℕ) where
  unfoldable pub test_add_and_remove_elem : Ptr → (Ptr → ℕ) → Option Bool
  unfolding with_queue add_and_remove_elem
  test_add_and_remove_elem obj deref =
      with_queue is_power_of_2 kzalloc 8 (add_and_remove_elem fuel obj deref)

  -- The arrays on the stack are not initialised: `uninit n` is one of `n` pointers.
  module _ (uninit : ℕ → List Ptr) where
    unfoldable pub test_add_and_remove_elems_bulk : Option Bool
    unfolding with_queue require bulk_rounds
    test_add_and_remove_elems_bulk =
        with_queue is_power_of_2 kzalloc 32
          (λ q. require (alf_queue_avail_space q == 32) (bulk_rounds fuel 6 20 (uninit 10) q))

    unfoldable pub test_add_until_full : Option Bool
    unfolding with_queue require full_rounds fake_objs
    test_add_until_full = with_queue is_power_of_2 kzalloc 16 (λ q.
        require (alf_queue_avail_space q == 16)
          (full_rounds fuel 15 1 (fake_objs 15 20) (uninit 15) q))

    unfoldable pub run_basic_tests : Ptr → (Ptr → ℕ) → Option Verdict
    unfolding test_func test_detect_not_power_of_two test_alloc_and_free test_add_and_remove_elem
        test_add_and_remove_elems_bulk test_add_until_full
    run_basic_tests obj deref =
        test_func (some (test_detect_not_power_of_two is_power_of_2 kzalloc))
          (test_func (test_alloc_and_free is_power_of_2 kzalloc) (
            test_func (test_add_and_remove_elem obj deref) (
              test_func test_add_and_remove_elems_bulk
                (test_func test_add_until_full (λ passed_count. some (passed passed_count))))))
          0
