-- ===== src/AlfTest/Loops.antt =====
-- The loops of the tests, on a queue at rest.
use prototype_kernel.Base.{
  ℕ, zero, suc, ◌+◌, ◌≤◌, ◌<◌, ◌≡◌, refl, ap, ◌∙◌, arith, Option, some, List, [], ◌∷◌, ◌++◌, length,
  take, drop, min, lt→ltb, length-append, length-take, length-drop,
}
use prototype_kernel.Copy.Slots.{Ptr}
use prototype_kernel.Alf.Queue.{AlfQueue}
use prototype_kernel.QMemPool.Queues.{Queued, mp_enqueue_fits, mp_enqueue_full, mc_dequeue-Queued}
use prototype_kernel.AlfTest.Tests.{fill, drain}
use native.Mathlib.Decide.{dec_le}

-- The loop ended with `enq_cnt_total` and what it moved, in a queue that has no room for `j` more.
pub record Filled (size j enq_cnt_total : ℕ) (xs : List Ptr) (r : Option (ℕ × AlfQueue))
    : Type 0 where
  pub moved : ℕ
  pub queue : AlfQueue
  pub inside : List Ptr
  pub result : r ≡ some (enq_cnt_total + moved, queue)
  pub queued : Queued size queue inside
  pub longer : length inside ≡ length xs + moved
  pub full : size < length inside + j

-- Enqueuing `j` objects at a time until none goes in ends, when there are more rounds than free slots.
pub fill-Filled :
    {size : ℕ} (fuel rounds : ℕ) {q : AlfQueue} {xs : List Ptr} (h : Queued size q xs) (j : ℕ)
    (objs : List Ptr) (enq_cnt_total : ℕ)
    → 0 < j
    → j ≤ length objs
    → length xs ≤ size
    → size < length xs + rounds
    → Filled size j enq_cnt_total xs (fill (suc fuel) rounds j objs enq_cnt_total q)
unfolding fill
fill-Filled fuel zero h j objs t pos given le more = absurd (omega arith)
fill-Filled {size} fuel (suc rounds) {q} {xs} h j objs t pos given le more =
    elim (dec_le (length xs + j) size) [
      | yes fits ↦
          let (q', e, h') = mp_enqueue_fits h objs j given fuel fits in
          let same : length (xs ++ take j objs) ≡ length xs + j =
            omega (arith, length-append xs (take j objs), length-take j objs) in
          let f = fill-Filled fuel rounds h' j objs (t + j) pos given (omega arith) (omega arith) in
          record {
            moved = j + f.moved;
            queue = f.queue;
            inside = f.inside;
            result = rw (e, lt→ltb 0 j pos) (f.result ∙ ap (λ m. some (m, f.queue)) (omega arith));
            queued = f.queued;
            longer = omega (arith, f.longer);
            full = f.full;
          }
      | no over ↦
          let (q', e, h') = mp_enqueue_full h objs j given fuel (omega arith) in
          record {
            moved = 0;
            queue = q';
            inside = xs;
            result = rw e (ap (λ m. some (m, q')) (omega arith));
            queued = h';
            longer = omega arith;
            full = omega arith;
          }
    ]

-- Dequeuing up to 15 at a time until none comes ends, with more rounds than elements; it counts all
-- elements and leaves an empty queue.
pub drain_lem :
    {size : ℕ} (fuel rounds : ℕ) {q : AlfQueue} (xs : List Ptr) (h : Queued size q xs)
    (deq_cnt_total : ℕ) (deq_objs : List Ptr)
    → 15 ≤ length deq_objs
    → length xs < rounds
    → (table : List Ptr) × (q' : AlfQueue) × (drain (suc fuel) rounds deq_cnt_total deq_objs q
        ≡ some (deq_cnt_total + length xs, table, q'))
      × (length table ≡ length deq_objs)
      × Queued size q' []
unfolding drain
drain_lem fuel zero xs h t deq_objs given more = absurd (omega arith)
drain_lem fuel (suc rounds) [] h t deq_objs given more =
    let (q', e, h') = mc_dequeue-Queued h deq_objs 15 given fuel in
    (deq_objs, q', rw e (ap (λ m. some (m, deq_objs, q')) (omega arith)), refl, h')
drain_lem {size} fuel (suc rounds) {q} (x ∷ xs) h t deq_objs given more =
    let (q', e, h') = mc_dequeue-Queued h deq_objs 15 given fuel in
    let m = min (length (x ∷ xs)) 15 in
    let table = take 15 (x ∷ xs) ++ drop m deq_objs in
    let kept : length table ≡ length deq_objs = omega (
      arith,
      length-append (take 15 (x ∷ xs)) (drop m deq_objs),
      length-take 15 (x ∷ xs),
      length-drop m deq_objs,
    ) in
    let (last, r, f, same, rest) =
      drain_lem fuel rounds (drop 15 (x ∷ xs)) h' (t + m) table (omega arith)
        (omega (arith, length-drop 15 (x ∷ xs))) in
    (
      last,
      r,
      rw (e, lt→ltb 0 m (omega arith))
          (f ∙ ap (λ k. some (k, last, r)) (omega (arith, length-drop 15 (x ∷ xs)))),
      same ∙ kept,
      rest,
    )
