-- ===== src/Mpmc/Frame.antt =====
-- What a change of the queue by one thread leaves true of another.
use prototype_kernel.Base.{ℕ, ◌+◌, ◌%◌, ◌^◌, ◌≤◌, ◌<◌, ◌≡◌, inl, refl, sym, ap, ◌∙◌, arith, get_or}
use prototype_kernel.Mpmc.Protocol.{Protocol}
use prototype_kernel.Mpmc.System.{Shared, Pc}
use prototype_kernel.Mpmc.Invariant.{
  in_region, out_region, load_region, stored, Clear, Sound, Fine, fine_idle, fine_entering,
  fine_p_head_read, fine_room_seen, fine_storing, fine_p_turn, fine_leaving, fine_c_head_read,
  fine_some_seen, fine_loading, fine_c_turn, fine_returned,
}

module _ (P : Protocol) (s t : Shared) where
  -- The queue goes from `s` to `t`: the counters grow, but not past what the thread at `q` holds, whose
  -- stores are kept, and so are all reserved positions.
  pub record Frame (q : Pc) : Type 0 where
    pub p_head_le : s.p_head ≤ t.p_head
    pub p_tail_le : s.p_tail ≤ t.p_tail
    pub c_head_le : s.c_head ≤ t.c_head
    pub c_tail_le : s.c_tail ≤ t.c_tail
    pub placed_kept : (k : ℕ) → k < s.p_head → t.placed k ≡ s.placed k
    pub ins_kept : 0 < (in_region q).1 → s.p_tail ≤ (in_region q).0 → t.p_tail ≤ (in_region q).0
    pub loads_kept :
        0 < (load_region q).1 → s.c_tail ≤ (load_region q).0 → t.c_tail ≤ (load_region q).0
    pub ring_kept :
        (x : ℕ)
        → x < stored q
        → stored q ≤ (in_region q).1
        → s.p_tail ≤ (in_region q).0
        → (in_region q).0 + (in_region q).1 ≤ s.p_head
        → get_or t.ring (((in_region q).0 + x) % 2 ^ P.log) 0
          ≡ get_or s.ring (((in_region q).0 + x) % 2 ^ P.log) 0

module _ (P : Protocol) (s : Shared) where
  pub Frame-refl : (q : Pc) → Frame P s s q
  Frame-refl q = record {
    p_head_le = omega arith;
    p_tail_le = omega arith;
    c_head_le = omega arith;
    c_tail_le = omega arith;
    placed_kept = λ k below. refl;
    ins_kept = λ held ge. ge;
    loads_kept = λ held ge. ge;
    ring_kept = λ x lt some_stored tail head. refl;
  }

-- What a dequeue is loading is what it has reserved.
pub load_out :
    (q : Pc)
    → 0 < (load_region q).1
    → ((out_region q).0 ≡ (load_region q).0) × ((out_region q).1 ≡ (load_region q).1)
load_out q held = ground arith

-- A thread without a reservation is clear of all others.
pub free-Clear : {p q : Pc} → in_region p ≡ (0, 0) → out_region p ≡ (0, 0) → Clear p q
free-Clear i o = record {
  ins = inl (omega (arith, ap (λ r. r.0 + r.1) i));
  outs = inl (omega (arith, ap (λ r. r.0 + r.1) o));
}

module _ (P : Protocol) (s t : Shared) where
  pub Frame-Fine : {q : Pc} → Sound P s → Frame P s t q → Fine P s q → Fine P t q
  Frame-Fine so fr fine_idle = fine_idle
  Frame-Fine so fr (fine_entering pos) = fine_entering pos
  Frame-Fine so fr (fine_p_head_read pos le) = fine_p_head_read pos (omega (arith, fr.p_head_le))
  Frame-Fine so fr (fine_room_seen le tail near asks pos few room) =
      fine_room_seen (omega (arith, fr.p_head_le)) (omega (arith, fr.c_tail_le)) near asks pos few
        room
  Frame-Fine so fr (fine_storing pos tail head some_stored put there) =
      fine_storing pos (fr.ins_kept pos tail) (omega (arith, fr.p_head_le)) some_stored
        (λ x lt. fr.placed_kept _ (omega arith) ∙ put x lt)
        (λ x lt. fr.ring_kept x lt some_stored tail head ∙ there x lt)
  Frame-Fine so fr (fine_p_turn pos at head put there) =
      fine_p_turn pos (omega (arith, fr.p_tail_le, fr.ins_kept pos (omega arith)))
        (omega (arith, fr.p_head_le)) (λ x lt. fr.placed_kept _ (omega arith) ∙ put x lt)
        (λ x lt. fr.ring_kept x lt (omega arith) (omega arith) head ∙ there x lt)
  Frame-Fine so fr (fine_leaving pos) = fine_leaving pos
  Frame-Fine so fr (fine_c_head_read pos le) = fine_c_head_read pos (omega (arith, fr.c_head_le))
  Frame-Fine so fr (fine_some_seen le near tail asks pos few some_there) =
      fine_some_seen (omega (arith, fr.c_head_le)) near (omega (arith, fr.p_tail_le)) asks pos few
        some_there
  Frame-Fine so fr (fine_loading pos tail head loaded got) =
      fine_loading pos (fr.loads_kept pos tail) (omega (arith, fr.c_head_le)) loaded
        (λ x lt. got x lt ∙ sym (fr.placed_kept _ (omega (arith, so.taken, so.filled))))
  Frame-Fine so fr (fine_c_turn pos at head got) =
      fine_c_turn pos (omega (arith, fr.c_tail_le, fr.loads_kept pos (omega arith)))
        (omega (arith, fr.c_head_le))
        (λ x lt. got x lt ∙ sym (fr.placed_kept _ (omega (arith, so.taken, so.filled))))
  Frame-Fine so fr (fine_returned tail got) =
      fine_returned (omega (arith, fr.c_tail_le))
        (λ x lt. got x lt ∙ sym (fr.placed_kept _ (omega (arith, so.emptied, so.taken, so.filled))))

module _ (P : Protocol) (s : Shared) where
  -- What a thread holds was reserved.
  pub ins_le : {q : Pc} → Fine P s q → (in_region q).0 + (in_region q).1 ≤ s.p_head
  ins_le fine_idle = omega arith
  ins_le (fine_entering pos) = omega arith
  ins_le (fine_p_head_read pos le) = omega arith
  ins_le (fine_room_seen le tail near asks pos few room) = omega arith
  ins_le (fine_storing pos tail head some_stored put there) = head
  ins_le (fine_p_turn pos at head put there) = head
  ins_le (fine_leaving pos) = omega arith
  ins_le (fine_c_head_read pos le) = omega arith
  ins_le (fine_some_seen le near tail asks pos few some_there) = omega arith
  ins_le (fine_loading pos tail head loaded got) = omega arith
  ins_le (fine_c_turn pos at head got) = omega arith
  ins_le (fine_returned tail got) = omega arith

  pub outs_le : {q : Pc} → Sound P s → Fine P s q → (out_region q).0 + (out_region q).1 ≤ s.c_head
  outs_le so fine_idle = omega arith
  outs_le so (fine_entering pos) = omega arith
  outs_le so (fine_p_head_read pos le) = omega arith
  outs_le so (fine_room_seen le tail near asks pos few room) = omega arith
  outs_le so (fine_storing pos tail head some_stored put there) = omega arith
  outs_le so (fine_p_turn pos at head put there) = omega arith
  outs_le so (fine_leaving pos) = omega arith
  outs_le so (fine_c_head_read pos le) = omega arith
  outs_le so (fine_some_seen le near tail asks pos few some_there) = omega arith
  outs_le so (fine_loading pos tail head loaded got) = head
  outs_le so (fine_c_turn pos at head got) = head
  outs_le so (fine_returned tail got) = omega (arith, so.emptied)
