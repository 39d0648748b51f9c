-- ===== src/Mpmc/Agrees.antt =====
-- What alf_mp_enqueue and alf_mc_dequeue do as functions, a thread that no other disturbs does in steps.
use prototype_kernel.Base.{
  ℕ, suc, ◌+◌, ◌-◌, ◌^◌, ◌≤◌, ◌≡◌, ◌≢◌, refl, sym, ap, ap₂, ◌∙◌, arith, List, [], ◌∷◌, ◌++◌, some,
  length, take, drop, min,
}
use prototype_kernel.Base.Words.{add32, sub32}
use prototype_kernel.Copy.Slots.{Ptr, put_around, window, splice}
use prototype_kernel.Copy.Window.{put_around_mod32, window_mod32, length-window, splice-window}
use prototype_kernel.Alf.Queue.{AlfQueue}
use prototype_kernel.Alf.Valid.{IsValid}
use prototype_kernel.Alf.Ops.{alf_mp_enqueue, alf_mc_dequeue}
use prototype_kernel.Alf.RefineEnqueue.{
  in_use, enqueued, space_lem, alf_sp_enqueue-enqueued, alf_sp_enqueue_full,
}
use prototype_kernel.Alf.RefineDequeue.{
  dequeued, taken, alf_sc_dequeue-dequeued, alf_sc_dequeue_empty,
}
use prototype_kernel.Alf.Solo.{alf_mp_enqueue-alf_sp_enqueue, alf_mc_dequeue-alf_sc_dequeue}
use prototype_kernel.Mpmc.Protocol.{Protocol, word}
use prototype_kernel.Mpmc.System.{
  Shared, Pc, idle, entering, leaving, returned, storing, loading, place, read_p_head, no_room,
  room, p_cmpxchg, p_wait_over, p_publish, read_c_head, none_there, some_there, c_cmpxchg,
  c_wait_over, c_publish,
}
use prototype_kernel.Mpmc.Instances.{alf_protocol}
use prototype_kernel.Mpmc.Alone.{
  done, first, Call, ends, Alone-append, Alone-to, stores_alone, loads_alone,
}
use native.Mathlib.Decide.{dec_le, ℕ_discrete}

-- The queue in memory: the words of the counters, and the slots.
abbrev pub seen : ℕ → Shared → AlfQueue
seen log s = record {
  size = 2 ^ log;
  mask = 2 ^ log - 1;
  flags = 0;
  producer = record { head = word s.p_head; tail = word s.p_tail };
  consumer = record { head = word s.c_head; tail = word s.c_tail };
  ring = s.ring;
}

-- What a thread has from its last call.
abbrev pub got : Pc → List Ptr
got (returned h ys) = ys
got p = []

take-all : (xs : List Ptr) → take (length xs) xs ≡ xs
take-all [] = refl
take-all (x ∷ xs) = ap (λ ys. x ∷ ys) (take-all xs)

module _ (log : ℕ) (small : log ≤ 16) (Asks : ℕ → Type 0) (s : Shared)
    (v : IsValid (seen log s)) where
  abbrev P : Protocol
  P = alf_protocol log small Asks

  module _ (xs : List Ptr) where
    abbrev after_enqueue : Shared
    after_enqueue = record {
      p_head = s.p_head + length xs;
      p_tail = s.p_head + length xs;
      c_head = s.c_head;
      c_tail = s.c_tail;
      ring = put_around (2 ^ log) (s.p_head + 0) (take (length xs) xs) s.ring;
      placed = place s.placed s.p_head (take (length xs) xs);
    }

    -- The steps of a call that finds room, in their order.
    enqueue_run :
        length xs ≤ 2 ^ log - in_use (seen log s) → Call P s (entering xs) after_enqueue idle
    enqueue_run fits =
        ends
          (first read_p_head refl (
            first (room (omega (arith, space_lem v), refl)) refl (
              Alone-append P
                (Alone-to P (first (p_cmpxchg refl (omega arith)) refl done) refl
                  (ap (λ ys. storing ys s.p_head 0) (take-all xs)))
                (Alone-append P (stores_alone P xs s.p_head (length xs) 0 _ (omega arith))
                  (first (p_wait_over refl v.enqueued) refl done)))))
          p_publish refl

    after_enqueue-enqueued :
        length xs ≤ 2 ^ log - in_use (seen log s)
        → enqueued v xs (length xs) ≡ seen log after_enqueue
    after_enqueue-enqueued fits =
        ap₂
          (λ h t.
            with_producer h t (put_around (2 ^ log) (word s.p_head) (take (length xs) xs) s.ring))
          head head
        ∙ ap (with_producer (word (s.p_head + length xs)) (word (s.p_head + length xs))) (
            put_around_mod32 log s.p_head (take (length xs) xs) s.ring (omega (arith, small))
            ∙ ap (λ h. put_around (2 ^ log) h (take (length xs) xs) s.ring) same)
      where
        with_producer : ℕ → ℕ → List Ptr → AlfQueue
        with_producer h t ring = record (seen log s) {
          producer = record { head = h; tail = t };
          ring = ring;
        }

        head : add32 (word s.p_head) (length xs) ≡ word (s.p_head + length xs)
        head = omega arith

        same : s.p_head ≡ s.p_head + 0
        same = omega arith

  module _ (n : ℕ) where
    abbrev out : List Ptr
    out = window s.ring (2 ^ log) s.c_head (taken v n)

    length-out : length out ≡ taken v n
    length-out = length-window s.ring (2 ^ log) s.c_head (taken v n)

    abbrev after_dequeue : Shared
    after_dequeue = record s { c_head = s.c_head + taken v n; c_tail = s.c_head + length out }

    -- The steps of a call that finds elements, in their order.
    dequeue_run :
        in_use (seen log s) ≢ 0 → Call P s (leaving n) after_dequeue (returned s.c_head out)
    dequeue_run more =
        ends
          (first read_c_head refl (
            first
              (some_there
                ((λ e. more (omega arith)), ap (λ t. min (sub32 (word s.p_tail) t) n) v.dequeued))
              refl
              (first (c_cmpxchg refl (omega arith)) refl (
                Alone-append P
                  (Alone-to P (loads_alone P (taken v n) s.c_head (taken v n) [] _ (omega arith))
                    refl
                    (ap (λ h. loading (taken v n) s.c_head (window s.ring (2 ^ log) h (taken v n)))
                      (omega arith)))
                  (first (c_wait_over length-out v.dequeued) refl done)))))
          c_publish refl

    after_dequeue-dequeued : dequeued (seen log s) (taken v n) ≡ seen log after_dequeue
    after_dequeue-dequeued =
        ap₂ (λ h t. record (seen log s) { consumer = record { head = h; tail = t } })
          {y = word (s.c_head + taken v n)} {v = word (s.c_head + length out)} (omega arith)
          (omega (arith, length-out))

    table :
        (ptr : List Ptr)
        → n ≤ length ptr
        → splice 0 (window s.ring (2 ^ log) (word s.c_head) (taken v n)) ptr
          ≡ out ++ drop (length out) ptr
    table ptr given =
        splice-window s.ring (2 ^ log) (word s.c_head) (taken v n) ptr (omega arith)
        ∙ ap₂ (λ w m. w ++ drop m ptr)
            (window_mod32 s.ring log s.c_head (taken v n) (omega (arith, small))) (sym length-out)

  -- With a queue at rest, alf_mp_enqueue gives, in one round, the queue that one whole call of a thread
  -- alone reaches in steps from the same queue, and the number of positions that this call reserved. No
  -- elements, or too many, may be given.
  pub alf_mp_enqueue_steps :
      (fuel : ℕ) (xs : List Ptr)
      → (t : Shared) × (alf_mp_enqueue (suc fuel) (seen log s) xs (length xs)
          ≡ some (t.p_head - s.p_head, seen log t))
        × Call (alf_protocol log small Asks) s (entering xs) t idle
  alf_mp_enqueue_steps fuel xs = elim (dec_le (length xs) (2 ^ log - in_use (seen log s))) [
    | yes fits ↦ (
      after_enqueue xs,
      alf_mp_enqueue-alf_sp_enqueue v fuel xs (length xs)
          ∙ alf_sp_enqueue-enqueued v xs (length xs) (omega arith) fits
          ∙ ap₂ (λ m q. some (m, q)) (omega arith) (after_enqueue-enqueued xs fits),
      enqueue_run xs fits,
    )
    | no full ↦ (
      s,
      alf_mp_enqueue-alf_sp_enqueue v fuel xs (length xs)
          ∙ alf_sp_enqueue_full v xs (length xs) (omega arith)
          ∙ ap (λ m. some (m, seen log s)) (omega arith),
      ends (first read_p_head refl done) (no_room (omega (arith, space_lem v))) refl,
    )
  ]

  -- With a queue at rest and a table of at least n cells, alf_mc_dequeue gives, in one round, the queue
  -- that one whole call of a thread alone reaches in steps from the same queue, the elements that the
  -- thread has then, in the front of the table, and their number.
  pub alf_mc_dequeue_steps :
      (fuel : ℕ) (ptr : List Ptr) (n : ℕ)
      → n ≤ length ptr
      → (t : Shared) × (p : Pc) × (alf_mc_dequeue (suc fuel) (seen log s) ptr n
          ≡ some (length (got p), got p ++ drop (length (got p)) ptr, seen log t))
        × Call (alf_protocol log small Asks) s (leaving n) t p
  alf_mc_dequeue_steps fuel ptr n given = elim (ℕ_discrete (in_use (seen log s)) 0) [
    | yes empty ↦ (
      s,
      idle,
      alf_mc_dequeue-alf_sc_dequeue v fuel ptr n ∙ alf_sc_dequeue_empty v n ptr given empty,
      ends (first read_c_head refl done) (none_there (omega (arith, v.dequeued))) refl,
    )
    | no more ↦ (
      after_dequeue n,
      returned s.c_head (out n),
      alf_mc_dequeue-alf_sc_dequeue v fuel ptr n
          ∙ alf_sc_dequeue-dequeued v n ptr given more
          ∙ ap₂ (λ m t. some (m, t, dequeued (seen log s) (taken v n))) (sym (length-out n))
              (table n ptr given)
          ∙ ap (λ q. some (length (out n), out n ++ drop (length (out n)) ptr, q))
              (after_dequeue-dequeued n),
      dequeue_run n more,
    )
  ]
