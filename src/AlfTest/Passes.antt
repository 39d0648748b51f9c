-- ===== src/AlfTest/Passes.antt =====
-- The tests of kernel/lib/alf_queue_test.c pass.
use prototype_kernel.Base.{
  ℕ, zero, suc, ◌+◌, ◌-◌, ◌^◌, ◌≤◌, ◌<◌, ◌≡◌, refl, ap, ◌∙◌, arith, Bool, true, false, Bool-cases,
  inl, inr, Option, some, List, [], ◌∷◌, ◌++◌, length, length-drop, get_elem?, get_or, ◌==◌, eq→==,
  ==_refl, ge→ltb,
}
use prototype_kernel.Base.Words.{sub32}
use prototype_kernel.Copy.Slots.{Ptr, get_elem?-eq-get_or}
use prototype_kernel.Alf.Queue.{
  AlfQueue, allocated, alf_queue_alloc, alf_queue_empty, alf_queue_count, alf_queue_avail_space,
}
use prototype_kernel.Alf.Alloc.{alf_queue_alloc-IsValid, counters_lem}
use prototype_kernel.QMemPool.Queues.{Queued, length_le, mp_enqueue_fits, mc_dequeue-Queued}
use prototype_kernel.AlfTest.Tests.{
  require, fake_objs, same_objs, passed, test_func, with_queue, test_detect_not_power_of_two,
  test_alloc_and_free, add_and_remove_elem, bulk_rounds, full_rounds, test_add_and_remove_elem,
  test_add_and_remove_elems_bulk, test_add_until_full, run_basic_tests,
}
use prototype_kernel.AlfTest.Loops.{fill-Filled, drain_lem}
use native.Mathlib.Nat.{pow-le-pow_right}
use native.Mathlib.Decide.{dec_le}

module _ {size : ℕ} {q : AlfQueue} {xs : List Ptr} (h : Queued size q xs) where
  count_is : alf_queue_count q ≡ length xs
  count_is = (counters_lem h.valid).0 ∙ ap length h.inside

  space_is : alf_queue_avail_space q ≡ size - length xs
  space_is = omega (arith, (counters_lem h.valid).1, ap length h.inside, h.sized)

empty_is : {size : ℕ} {q : AlfQueue} → Queued size q [] → alf_queue_empty q ≡ true
empty_is h = (counters_lem h.valid).2.1 h.inside

elem_passes :
    {q : AlfQueue} (h : Queued 8 q []) (fuel : ℕ) (obj : Ptr) (deref : Ptr → ℕ)
    → add_and_remove_elem (suc fuel) obj deref q ≡ some true
unfolding add_and_remove_elem require
elem_passes h fuel obj deref =
    let (q', e, h') = mp_enqueue_fits h (obj ∷ []) 1 (omega arith) fuel (omega arith) in
    let (r, d, h'') = mc_dequeue-Queued h' (0 ∷ []) 1 (omega arith) fuel in
    rw (e, count_is h', d, ==_refl obj, ==_refl (deref obj), empty_is h'') refl

get_elem?-append :
    (xs ys : List Ptr) (i : ℕ) → i < length xs → get_elem? (xs ++ ys) i ≡ get_elem? xs i
get_elem?-append [] ys i lt = absurd (omega arith)
get_elem?-append (x ∷ xs) ys zero lt = refl
get_elem?-append (x ∷ xs) ys (suc i) lt = get_elem?-append xs ys i (omega arith)

same_objs_lem :
    (left i : ℕ) (objs rest : List Ptr)
    → i + left ≤ length objs
    → same_objs left i objs (objs ++ rest) ≡ some true
unfolding same_objs require
same_objs_lem zero i objs rest le = refl
same_objs_lem (suc left) i objs rest le =
    rw
      (
        get_elem?-append objs rest i (omega arith),
        get_elem?-eq-get_or objs i 0 (omega arith),
        ==_refl (get_or objs i 0),
      )
      (same_objs_lem left (i + 1) objs rest (omega arith))

bulk_passes :
    (fuel left n : ℕ) {q : AlfQueue} (h : Queued 32 q []) (deq_objs : List Ptr)
    → length deq_objs ≡ 10
    → bulk_rounds (suc fuel) left n deq_objs q ≡ some true
unfolding bulk_rounds require fake_objs
bulk_passes fuel zero n h deq_objs len = ap some (empty_is h)
bulk_passes fuel (suc left) n h deq_objs len =
    let (q', e, h') = mp_enqueue_fits h (fake_objs 10 n) 10 (omega arith) fuel (omega arith) in
    let (r, d, h'') = mc_dequeue-Queued h' deq_objs 10 (omega arith) fuel in
    rw (e, count_is h', d, same_objs_lem 10 0 (fake_objs 10 n) _ (omega arith))
      (bulk_passes fuel left (n + 10) h'' _ (omega (arith, length-drop 10 deq_objs)))

full_passes :
    (fuel left j : ℕ) {q : AlfQueue} (h : Queued 16 q []) (objs deq_objs : List Ptr)
    → 16 ≤ fuel
    → 0 < j
    → length objs ≡ 15
    → j + left ≤ 16
    → length deq_objs ≡ 15
    → full_rounds (suc fuel) left j objs deq_objs q ≡ some true
unfolding full_rounds require
full_passes fuel zero j h objs deq_objs enough pos lo le ld = ap some (empty_is h)
full_passes fuel (suc left) j h objs deq_objs enough pos lo le ld =
    let f = fill-Filled fuel (suc fuel) h j objs 0 pos (omega arith) (omega arith) (omega arith) in
    let (table, r, d, same, h') =
      drain_lem fuel (suc fuel) f.inside f.queued 0 deq_objs (omega arith)
        (omega (arith, length_le f.queued)) in
    rw
      (
        f.result,
        eq→== (alf_queue_count f.queue) (0 + f.moved) (omega (arith, count_is f.queued, f.longer)),
        d,
        count_is h',
        eq→== (0 + length f.inside) (0 + f.moved) (omega (arith, f.longer)),
      )
      (full_passes fuel left (j + 1) h' objs table enough (omega arith) lo (omega arith)
        (same ∙ ld))

module _ (is_power_of_2 : ℕ → Bool) (kzalloc : ℕ → Option (List Ptr))
    (power_of_2 : (n : ℕ) → is_power_of_2 n ≡ true → (k : ℕ) × (n ≡ 2 ^ k))
    (powers : (k : ℕ) → k ≤ 16 → is_power_of_2 (2 ^ k) ≡ true)
    (memory : (n : ℕ) → (ring : List Ptr) × (kzalloc n ≡ some ring))
    (granted : (n : ℕ) (ring : List Ptr) → kzalloc n ≡ some ring → length ring ≡ n) where
  allocates :
      (k : ℕ) (ring : List Ptr)
      → k ≤ 16
      → kzalloc (2 ^ k) ≡ some ring
      → alf_queue_alloc is_power_of_2 kzalloc (2 ^ k)
        ≡ allocated (record {
          size = 2 ^ k;
          mask = sub32 (2 ^ k) 1;
          flags = 0;
          producer = record { head = 0; tail = 0 };
          consumer = record { head = 0; tail = 0 };
          ring = ring;
        })
  unfolding alf_queue_alloc
  allocates k ring le e =
      rw
        (
          powers k le,
          ge→ltb 65536 (2 ^ k)
              (omega (arith, pow-le-pow_right {n = 2} (omega arith) {i = k} {j = 16} le)),
          e,
        )
        refl

  queue_there :
      (k : ℕ)
      → k ≤ 16
      → (q : AlfQueue) × (alf_queue_alloc is_power_of_2 kzalloc (2 ^ k) ≡ allocated q)
        × Queued (2 ^ k) q []
  queue_there k le =
      let (ring, e) = memory (2 ^ k) in
      let alloc = allocates k ring le e in
      let (size, valid, empty) =
        alf_queue_alloc-IsValid is_power_of_2 kzalloc power_of_2 granted (2 ^ k) _ alloc in
      (_, alloc, record { valid = valid; sized = size; inside = empty })

  with_queue_lem :
      (k : ℕ) (test : AlfQueue → Option Bool) (r : Option Bool)
      → k ≤ 16
      → ((q : AlfQueue) → Queued (2 ^ k) q [] → test q ≡ r)
      → with_queue is_power_of_2 kzalloc (2 ^ k) test ≡ r
  unfolding with_queue
  with_queue_lem k test r le f = let (q, e, h) = queue_there k le in rw (with_queue, e) (f q h)

  not_power : is_power_of_2 42 ≡ false
  not_power = elim (Bool-cases (is_power_of_2 42)) [
    | inl is_power ↦
        let (k, e) = power_of_2 42 is_power in
        elim (dec_le k 5) [
          | yes le ↦
              absurd (omega (arith, e, pow-le-pow_right {n = 2} (omega arith) {i = k} {j = 5} le))
          | no gt ↦ absurd (
              omega
                (arith, e, pow-le-pow_right {n = 2} (omega arith) {i = 6} {j = k} (omega arith)))
        ]
    | inr is_none ↦ is_none
  ]

  detects : test_detect_not_power_of_two is_power_of_2 kzalloc ≡ true
  unfolding test_detect_not_power_of_two alf_queue_alloc
  detects = rw (test_detect_not_power_of_two, alf_queue_alloc, not_power) refl

  module _ (fuel : ℕ) where
    bulk_test :
        (uninit : ℕ → List Ptr)
        → ((n : ℕ) → length (uninit n) ≡ n)
        → test_add_and_remove_elems_bulk is_power_of_2 kzalloc (suc fuel) uninit ≡ some true
    unfolding test_add_and_remove_elems_bulk require
    bulk_test uninit len =
        with_queue_lem 5
          (λ q. require (alf_queue_avail_space q == 32) (bulk_rounds (suc fuel) 6 20 (uninit 10) q))
          (some true) (omega arith)
          (λ q h. rw (space_is h) (bulk_passes fuel 6 20 h (uninit 10) (len 10)))

    full_test :
        (uninit : ℕ → List Ptr)
        → 16 ≤ fuel
        → ((n : ℕ) → length (uninit n) ≡ n)
        → test_add_until_full is_power_of_2 kzalloc (suc fuel) uninit ≡ some true
    unfolding test_add_until_full require fake_objs
    full_test uninit enough len =
        with_queue_lem 4
          (λ q.
            require (alf_queue_avail_space q == 16)
              (full_rounds (suc fuel) 15 1 (fake_objs 15 20) (uninit 15) q))
          (some true) (omega arith)
          (λ q h. rw (space_is h) (
            full_passes fuel 15 1 h (fake_objs 15 20) (uninit 15) enough (omega arith) refl
              (omega arith) (len 15)))

  -- With is_power_of_2 right, memory for all queues, and at least 17 rounds for each loop, all five
  -- tests of the module pass: none faults or fails, and each loop of theirs ends.
  pub run_basic_tests-passed :
      (fuel : ℕ) (uninit : ℕ → List Ptr) (obj : Ptr) (deref : Ptr → ℕ)
      → 16 ≤ fuel
      → ((n : ℕ) → length (uninit n) ≡ n)
      → run_basic_tests is_power_of_2 kzalloc (suc fuel) uninit obj deref ≡ some (passed 5)
  unfolding run_basic_tests test_func test_alloc_and_free test_add_and_remove_elem
  run_basic_tests-passed fuel uninit obj deref enough len =
      rw
        (
          detects,
          with_queue_lem 11 (λ q. some true) (some true) (omega arith) (λ q h. refl),
          with_queue_lem 3 (add_and_remove_elem (suc fuel) obj deref) (some true) (omega arith)
              (λ q h. elem_passes h fuel obj deref),
          bulk_test fuel uninit len,
          full_test fuel uninit enough len,
        )
        refl
