-- ===== src/Mpmc/Examples.antt =====
-- Two threads on a queue of two slots, and the theorems at such states.
use prototype_kernel.Base.{
  ℕ, ◌+◌, ◌-◌, ◌≤◌, ◌<◌, ◌≡◌, ◌⊎◌, refl, arith, List, [], ◌∷◌, length, ◌++◌, drop, some,
}
use prototype_kernel.Copy.Slots.{Ptr}
use prototype_kernel.Mpmc.Protocol.{Protocol}
use prototype_kernel.Mpmc.System.{
  Shared, Pc, Move, idle, entering, leaving, rests_idle, enqueue, read_p_head, room, p_cmpxchg,
  store, p_wait_over, p_publish, dequeue, read_c_head, some_there, c_cmpxchg, load, c_wait_over,
  c_publish, room_seen, storing, loading, returned, System, update, pick, Reach, initial, later,
}
use prototype_kernel.Mpmc.Invariant.{Inv}
use prototype_kernel.Mpmc.Safety.{Reach-Inv}
use prototype_kernel.Mpmc.Progress.{Runs, calls_can_finish}
use prototype_kernel.Mpmc.Refine.{placed_run, Atomic, Step-Atomic, delivered_once}
use prototype_kernel.Mpmc.Instances.{alf_protocol}
use prototype_kernel.Mpmc.Alone.{Call}
use prototype_kernel.Mpmc.Agrees.{seen, got, alf_mp_enqueue_steps, alf_mc_dequeue_steps}
use prototype_kernel.Alf.Valid.{IsValid}
use prototype_kernel.Alf.Ops.{alf_mp_enqueue, alf_mc_dequeue}

abbrev alf : Protocol
alf = alf_protocol 1 (omega arith) (λ n. 0 < n)

abbrev empty_ring : List Ptr
empty_ring = 0 ∷ 0 ∷ []

abbrev Reached : Type 0
Reached = (s : System) × Reach alf 2 empty_ring s

abbrev step :
    (r : Reached) (i : ℕ) {m : Shared} {p : Pc} → i < 2 → Move alf r.0.mem (r.0.pc i) m p → Reached
step r i {m} {p} lt mv = (record { mem = m; pc = update r.0.pc i p }, later r.1 (pick i lt mv))

-- Thread 0 has reserved a slot, and thread 1 is before its cmpxchg.
abbrev racing : Reached
racing =
    let a = step (_, initial) 0 (omega arith) (enqueue rests_idle (7 ∷ []) (omega arith)) in
    let b = step a 0 (omega arith) read_p_head in
    let c = step b 1 (omega arith) (enqueue rests_idle (8 ∷ []) (omega arith)) in
    let d = step c 0 (omega arith) (room (omega arith, refl)) in
    let e = step d 0 (omega arith) (p_cmpxchg refl (omega arith)) in
    let f = step e 1 (omega arith) read_p_head in step f 1 (omega arith) (room (omega arith, refl))

-- Thread 1 has stored its element, and waits for thread 0.
abbrev both : Reached
both = step racing 1 (omega arith) (p_cmpxchg refl (omega arith))

abbrev waiting : Reached
waiting = step both 1 (omega arith) (store (omega arith))

waiting_ring : waiting.0.mem.ring ≡ 0 ∷ 8 ∷ []
waiting_ring = refl

-- Both have published, and then each has taken an element.
abbrev published : Reached
published =
    let a = step waiting 0 (omega arith) (store (omega arith)) in
    let b = step (step a 0 (omega arith) (p_wait_over refl refl)) 0 (omega arith) p_publish in
    step (step b 1 (omega arith) (p_wait_over refl refl)) 1 (omega arith) p_publish

abbrev delivered : Reached
delivered =
    let a = step published 1 (omega arith) (dequeue rests_idle 1 (omega arith)) in
    let b = step a 1 (omega arith) read_c_head in
    let c = step b 1 (omega arith) (some_there (omega arith, refl)) in
    let d = step c 1 (omega arith) (c_cmpxchg refl (omega arith)) in
    let e = step d 1 (omega arith) (load (omega arith)) in
    step (step e 1 (omega arith) (c_wait_over {h = 0} {ys = 7 ∷ []} refl refl)) 1 (omega arith)
      c_publish

delivered_lem : delivered.0.pc 1 ≡ returned 0 (7 ∷ [])
delivered_lem = refl

Reach-Inv_example : Inv alf waiting.0
Reach-Inv_example = Reach-Inv alf 2 (λ n pos. pos) empty_ring refl waiting.1

calls_can_finish_example :
    (t : System) × Runs alf 2 waiting.0 t
    × (t.mem.p_tail ≡ t.mem.p_head)
    × (t.mem.c_tail ≡ t.mem.c_head)
calls_can_finish_example = calls_can_finish alf 2 empty_ring refl (λ n pos. pos) waiting.0 waiting.1

Step-Atomic_example :
    Atomic alf racing.0.mem both.0.mem (room_seen (8 ∷ []) 1 0 1) (storing (8 ∷ []) 1 0)
Step-Atomic_example =
    Step-Atomic alf 2 empty_ring refl (λ n pos. pos) racing.1 1 (p_cmpxchg refl (omega arith))

delivered_once_example :
    ((7 ∷ []) ≡ placed_run delivered.0.mem.placed 0 1)
    × ((h' : ℕ) (ys' : List Ptr)
        → delivered.0.pc 0 ≡ returned h' ys'
        → (1 ≤ h') ⊎ (h' + length ys' ≤ 0))
    × ((m h' : ℕ) (ys' : List Ptr) → delivered.0.pc 0 ≡ loading m h' ys' → (1 ≤ h') ⊎ (h' + m ≤ 0))
delivered_once_example =
    delivered_once alf 2 empty_ring refl (λ n pos. pos) delivered.1 1 0 0 (7 ∷ []) refl
      (omega arith)

-- The published queue, at rest.
published-IsValid : IsValid (seen 1 published.0.mem)
published-IsValid = record {
  sized = record { log = 1; small = omega arith; power = refl; ones = refl; slots = refl };
  enqueued = refl;
  dequeued = refl;
  producer_word = omega arith;
  consumer_word = omega arith;
  bounded = omega arith;
}

-- And with one element left.
delivered-IsValid : IsValid (seen 1 delivered.0.mem)
delivered-IsValid = record {
  sized = record { log = 1; small = omega arith; power = refl; ones = refl; slots = refl };
  enqueued = refl;
  dequeued = refl;
  producer_word = omega arith;
  consumer_word = omega arith;
  bounded = omega arith;
}

alf_mp_enqueue_steps_example :
    (t : Shared) × (alf_mp_enqueue 1 (seen 1 delivered.0.mem) (9 ∷ []) 1
      ≡ some (t.p_head - 2, seen 1 t))
    × Call alf delivered.0.mem (entering (9 ∷ [])) t idle
alf_mp_enqueue_steps_example =
    alf_mp_enqueue_steps 1 (omega arith) (λ n. 0 < n) delivered.0.mem delivered-IsValid 0 (9 ∷ [])

alf_mc_dequeue_steps_example :
    (t : Shared) × (p : Pc) × (alf_mc_dequeue 1 (seen 1 published.0.mem) (3 ∷ []) 1
      ≡ some (length (got p), got p ++ drop (length (got p)) (3 ∷ []), seen 1 t))
    × Call alf published.0.mem (leaving 1) t p
alf_mc_dequeue_steps_example =
    alf_mc_dequeue_steps 1 (omega arith) (λ n. 0 < n) published.0.mem published-IsValid 0 (3 ∷ []) 1
      (omega arith)

-- With calls for no element: thread 0 asks for none, sees that it is its turn, and is held up; thread 1
-- enqueues 8, and takes it; then thread 0 writes the tail back behind the consumers.
abbrev any : Protocol
any = alf_protocol 1 (omega arith) (λ n. 0 ≤ n)

abbrev Arrived : Type 0
Arrived = (s : System) × Reach any 2 empty_ring s

abbrev go :
    (r : Arrived) (i : ℕ) {m : Shared} {p : Pc} → i < 2 → Move any r.0.mem (r.0.pc i) m p → Arrived
go r i {m} {p} lt mv = (record { mem = m; pc = update r.0.pc i p }, later r.1 (pick i lt mv))

abbrev held_up : Arrived
held_up =
    let a = go (_, initial) 0 (omega arith) (enqueue rests_idle [] (omega arith)) in
    let b = go a 0 (omega arith) read_p_head in
    let c = go b 0 (omega arith) (room (omega arith, refl)) in
    let d = go c 0 (omega arith) (p_cmpxchg refl (omega arith)) in
    go d 0 (omega arith) (p_wait_over refl refl)

abbrev overtaken : Arrived
overtaken =
    let a = go held_up 1 (omega arith) (enqueue rests_idle (8 ∷ []) (omega arith)) in
    let b = go a 1 (omega arith) read_p_head in
    let c = go b 1 (omega arith) (room (omega arith, refl)) in
    let d = go c 1 (omega arith) (p_cmpxchg refl (omega arith)) in
    let e = go d 1 (omega arith) (store (omega arith)) in
    let f = go e 1 (omega arith) (p_wait_over refl refl) in go f 1 (omega arith) p_publish

abbrev emptied : Arrived
emptied =
    let a = go overtaken 1 (omega arith) (dequeue rests_idle 1 (omega arith)) in
    let b = go a 1 (omega arith) read_c_head in
    let c = go b 1 (omega arith) (some_there (omega arith, refl)) in
    let d = go c 1 (omega arith) (c_cmpxchg refl (omega arith)) in
    go d 1 (omega arith) (load (omega arith))

abbrev written_back : Arrived
written_back = go emptied 0 (omega arith) p_publish

tail_behind : (written_back.0.mem.p_tail ≡ 0) × (written_back.0.mem.c_head ≡ 1)
tail_behind = (refl, refl)
