-- ===== src/Mpmc/Kept.antt =====
-- Every move keeps the queue sound, and leaves the other threads what they hold.
use prototype_kernel.Base.{
  ℕ, ◌+◌, ◌-◌, ◌%◌, ◌^◌, ◌≤◌, ◌<◌, ◌≡◌, inl, inr, refl, sym, ap, ◌∙◌, arith, length, take,
  length-set, get_or,
}
use prototype_kernel.Mpmc.Protocol.{Protocol}
use prototype_kernel.Mpmc.System.{
  Shared, Pc, Move, enqueue, read_p_head, no_room, room, p_cmpxchg_fails, p_cmpxchg, store,
  p_wait_over, p_publish, dequeue, read_c_head, none_there, some_there, c_cmpxchg_fails, c_cmpxchg,
  load, c_wait_over, c_publish,
}
use prototype_kernel.Mpmc.Positions.{place_before}
use prototype_kernel.Mpmc.Invariant.{
  in_region, Clear, Sound, Fine, fine_room_seen, fine_storing, fine_p_turn, fine_some_seen,
  fine_c_turn,
}
use prototype_kernel.Mpmc.Frame.{Frame, Frame-refl, load_out, free-Clear, ins_le, outs_le}
use prototype_kernel.Mpmc.Moves.{same_count, room_le, there_le, size_le, store_there}
use native.Mathlib.Decide.{dec_lt}

module _ (P : Protocol) {s : Shared} (so : Sound P s) where
  pub Move-Sound : {p p' : Pc} {t : Shared} → Fine P s p → Move P s p t p' → Sound P t
  Move-Sound fi (enqueue rests xs pos) = so
  Move-Sound fi read_p_head = so
  Move-Sound fi (no_room refused) = so
  Move-Sound fi (room granted) = so
  Move-Sound fi (p_cmpxchg_fails ne) = so
  Move-Sound (fine_room_seen {xs} {h} {t} {m} le tail near asks pos few fits) (p_cmpxchg same lt) =
      record {
        emptied = so.emptied;
        taken = so.taken;
        slots = so.slots;
        filled = omega (arith, so.filled);
        bounded = omega (
          arith,
          same_count s.p_head h same le lt,
          so.emptied,
          so.taken,
          so.filled,
          room_le P.capacity h t m (omega (arith, size_le P, P.capacity_le))
              (omega (arith, so.emptied, so.taken, so.filled, same_count s.p_head h same le lt))
              near fits,
        );
        written = λ k ge below.
            so.written k ge below
            ∙ sym (place_before s.placed s.p_head (take m xs) k (omega (arith, so.filled)));
      }
  Move-Sound (fine_storing {xs} {h} {k} pos tail head some_stored put there) (store lt) = record {
    emptied = so.emptied;
    taken = so.taken;
    filled = so.filled;
    bounded = so.bounded;
    slots = length-set s.ring _ _ ∙ so.slots;
    written = λ q ge below.
        store_there P so xs h k lt tail head q ge (omega (arith, so.filled)) (omega arith)
        ∙ so.written q ge below;
  }
  Move-Sound fi (p_wait_over e same) = so
  Move-Sound (fine_p_turn {xs} {h} pos here head put there) p_publish = record {
    emptied = so.emptied;
    bounded = so.bounded;
    slots = so.slots;
    taken = omega (arith, so.taken);
    filled = omega arith;
    written = λ q ge below. elim (dec_lt q s.p_tail) [
      | yes lt ↦ so.written q ge lt
      | no past ↦ own q (omega arith) (omega arith)
    ];
  }
    where
      back : (a b : ℕ) → a ≤ b → a + (b - a) ≡ b
      back a b ge = omega arith

      own : (q : ℕ) → h ≤ q → q < h + length xs → get_or s.ring (q % 2 ^ P.log) 0 ≡ s.placed q
      own q ge below =
          ap (λ a. get_or s.ring (a % 2 ^ P.log) 0) (sym (back h q ge))
          ∙ there (q - h) (omega arith)
          ∙ sym (put (q - h) (omega arith))
          ∙ ap s.placed (back h q ge)
  Move-Sound fi (dequeue rests n pos) = so
  Move-Sound fi read_c_head = so
  Move-Sound fi (none_there refused) = so
  Move-Sound fi (some_there granted) = so
  Move-Sound fi (c_cmpxchg_fails ne) = so
  Move-Sound (fine_some_seen {n} {h} {t} {m} le near tail asks pos few fits) (c_cmpxchg same lt) =
      record {
        filled = so.filled;
        bounded = so.bounded;
        slots = so.slots;
        written = so.written;
        emptied = omega (arith, so.emptied);
        taken = omega (
          arith,
          here,
          there_le P.capacity h t m (omega (arith, size_le P, P.capacity_le)) near
              (omega (arith, so.emptied, so.filled, so.bounded, here)) fits,
        );
      }
    where
      here : s.c_head ≡ h
      here = same_count s.c_head h same le lt
  Move-Sound fi (load lt) = so
  Move-Sound fi (c_wait_over all same) = so
  Move-Sound (fine_c_turn {h} {ys} pos here head got) c_publish = record {
    taken = so.taken;
    filled = so.filled;
    slots = so.slots;
    emptied = omega arith;
    bounded = omega (arith, so.bounded);
    written = λ k ge below. so.written k (omega arith) below;
  }

  -- What a thread did not reserve it leaves alone.
  pub Move-Frame :
      {p p' q : Pc} {t : Shared}
      → Fine P s p
      → Fine P s q
      → Clear p q
      → Move P s p t p'
      → Frame P s t q
  Move-Frame fi fq cl (enqueue rests xs pos) = Frame-refl P s _
  Move-Frame fi fq cl read_p_head = Frame-refl P s _
  Move-Frame fi fq cl (no_room refused) = Frame-refl P s _
  Move-Frame fi fq cl (room granted) = Frame-refl P s _
  Move-Frame fi fq cl (p_cmpxchg_fails ne) = Frame-refl P s _
  Move-Frame (fine_room_seen {xs} {h} {t} {m} le tail near asks pos few fits) fq cl
        (p_cmpxchg same lt) =
      record {
        p_head_le = omega arith;
        p_tail_le = omega arith;
        c_head_le = omega arith;
        c_tail_le = omega arith;
        placed_kept = λ k below. place_before s.placed s.p_head (take m xs) k below;
        ins_kept = λ held ge. ge;
        loads_kept = λ held ge. ge;
        ring_kept = λ x lt some_stored tail' head'. refl;
      }
  Move-Frame {q} (fine_storing {xs} {h} {k} pos tail head some_stored put there) fq cl (store lt) =
      record {
        p_head_le = omega arith;
        p_tail_le = omega arith;
        c_head_le = omega arith;
        c_tail_le = omega arith;
        placed_kept = λ k' below. refl;
        ins_kept = λ held ge. ge;
        loads_kept = λ held ge. ge;
        ring_kept = λ x lt' some_stored' tail' head'.
            store_there P so xs h k lt tail head ((in_region q).0 + x)
              (omega (arith, so.emptied, so.taken)) (omega arith) (omega (arith, cl.ins));
      }
  Move-Frame fi fq cl (p_wait_over e same) = Frame-refl P s _
  Move-Frame (fine_p_turn {xs} {h} pos here head put there) fq cl p_publish = record {
    p_head_le = omega arith;
    p_tail_le = omega arith;
    c_head_le = omega arith;
    c_tail_le = omega arith;
    placed_kept = λ k' below. refl;
    ins_kept = λ held ge. omega (arith, cl.ins);
    loads_kept = λ held ge. ge;
    ring_kept = λ x lt some_stored' tail' head'. refl;
  }
  Move-Frame fi fq cl (dequeue rests n pos) = Frame-refl P s _
  Move-Frame fi fq cl read_c_head = Frame-refl P s _
  Move-Frame fi fq cl (none_there refused) = Frame-refl P s _
  Move-Frame fi fq cl (some_there granted) = Frame-refl P s _
  Move-Frame fi fq cl (c_cmpxchg_fails ne) = Frame-refl P s _
  Move-Frame fi fq cl (c_cmpxchg same lt) = record {
    p_head_le = omega arith;
    p_tail_le = omega arith;
    c_head_le = omega arith;
    c_tail_le = omega arith;
    placed_kept = λ k' below. refl;
    ins_kept = λ held ge. ge;
    loads_kept = λ held ge. ge;
    ring_kept = λ x lt some_stored' tail' head'. refl;
  }
  Move-Frame fi fq cl (load lt) = Frame-refl P s _
  Move-Frame fi fq cl (c_wait_over all same) = Frame-refl P s _
  Move-Frame {q} (fine_c_turn {h} {ys} pos here head got) fq cl c_publish = record {
    p_head_le = omega arith;
    p_tail_le = omega arith;
    c_head_le = omega arith;
    c_tail_le = omega arith;
    placed_kept = λ k' below. refl;
    ins_kept = λ held ge. ge;
    loads_kept = λ held ge. omega (arith, (load_out q held).0, (load_out q held).1, cl.outs);
    ring_kept = λ x lt some_stored' tail' head'. refl;
  }

  -- A new reservation is past all others.
  pub Move-Clear :
      {p p' q : Pc} {t : Shared}
      → Fine P s p
      → Fine P s q
      → Clear p q
      → Move P s p t p'
      → Clear p' q
  Move-Clear fi fq cl (enqueue rests xs pos) = free-Clear refl refl
  Move-Clear fi fq cl read_p_head = free-Clear refl refl
  Move-Clear fi fq cl (no_room refused) = free-Clear refl refl
  Move-Clear fi fq cl (room granted) = free-Clear refl refl
  Move-Clear fi fq cl (p_cmpxchg_fails ne) = free-Clear refl refl
  Move-Clear (fine_room_seen le tail near asks pos few fits) fq cl (p_cmpxchg same lt) = record {
    ins = inr (omega (arith, ins_le P s fq, same_count s.p_head _ same le lt));
    outs = inl (omega arith);
  }
  Move-Clear fi fq cl (store lt) = record { ins = cl.ins; outs = inl (omega arith) }
  Move-Clear fi fq cl (p_wait_over e same) = record { ins = cl.ins; outs = inl (omega arith) }
  Move-Clear fi fq cl p_publish = free-Clear refl refl
  Move-Clear fi fq cl (dequeue rests n pos) = free-Clear refl refl
  Move-Clear fi fq cl read_c_head = free-Clear refl refl
  Move-Clear fi fq cl (none_there refused) = free-Clear refl refl
  Move-Clear fi fq cl (some_there granted) = free-Clear refl refl
  Move-Clear fi fq cl (c_cmpxchg_fails ne) = free-Clear refl refl
  Move-Clear (fine_some_seen le near tail asks pos few fits) fq cl (c_cmpxchg same lt) = record {
    ins = inl (omega arith);
    outs = inr (omega (arith, outs_le P s so fq, same_count s.c_head _ same le lt));
  }
  Move-Clear fi fq cl (load lt) = record { ins = inl (omega arith); outs = cl.outs }
  Move-Clear fi fq cl (c_wait_over all same) = record {
    ins = inl (omega arith);
    outs = omega (arith, cl.outs);
  }
  Move-Clear fi fq cl c_publish = record { ins = inl (omega arith); outs = cl.outs }
