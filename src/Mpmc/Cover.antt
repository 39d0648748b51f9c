-- ===== src/Mpmc/Cover.antt =====
-- Every position on its way in or out belongs to a thread.
use prototype_kernel.Base.{
  ℕ, ◌+◌, ◌^◌, ◌≤◌, ◌<◌, ◌≡◌, ◌⊎◌, inl, inr, sym, arith, List, length, length-take,
}
use prototype_kernel.Copy.Slots.{Ptr}
use prototype_kernel.Mpmc.Protocol.{Protocol}
use prototype_kernel.Mpmc.System.{
  Shared, Pc, Move, enqueue, read_p_head, no_room, room, p_cmpxchg_fails, p_cmpxchg, store,
  p_wait_over, p_publish, dequeue, read_c_head, none_there, some_there, c_cmpxchg_fails, c_cmpxchg,
  load, c_wait_over, c_publish, rests_idle, rests_returned, System, update, pick, Reach, initial,
  later,
}
use prototype_kernel.Mpmc.Invariant.{
  in_region, load_region, Sound, Fine, fine_room_seen, fine_p_turn, fine_some_seen, fine_c_turn,
  Inv,
}
use prototype_kernel.Mpmc.Moves.{same_count}
use prototype_kernel.Mpmc.Safety.{update_self, update_ne, Reach-Inv}
use native.Mathlib.Decide.{ℕ_discrete, dec_lt}

-- A position of a range.
abbrev pub In : ℕ → ℕ × ℕ → Type 0
In k r = (r.0 ≤ k) × (k < r.0 + r.1)

-- Some thread has the position in its range.
abbrev pub Owned : (Pc → ℕ × ℕ) → ℕ → (ℕ → Pc) → ℕ → Type 0
Owned region threads pc k = (i : ℕ) × (i < threads) × In k (region (pc i))

-- A move leaves position `k` with the thread, or with the one that had it.
abbrev Passed : (Pc → ℕ × ℕ) → ℕ → ℕ → ℕ → Pc → Pc → Type 0
Passed region lo hi k p q =
    In k (region q) ⊎ ((lo ≤ k) × (k < hi) × (In k (region p) → In k (region q)))

module _ (P : Protocol) {s : Shared} (so : Sound P s) where
  in-Passed :
      {p q : Pc} {t : Shared}
      → Fine P s p
      → Move P s p t q
      → (k : ℕ) → t.p_tail ≤ k
      → k < t.p_head
      → Passed in_region s.p_tail s.p_head k p q
  in-Passed fi (enqueue rests_idle xs pos) k ge lt = inr (ge, lt, λ i. i)
  in-Passed fi (enqueue rests_returned xs pos) k ge lt = inr (ge, lt, λ i. i)
  in-Passed fi read_p_head k ge lt = inr (ge, lt, λ i. i)
  in-Passed fi (no_room refused) k ge lt = inr (ge, lt, λ i. i)
  in-Passed fi (room granted) k ge lt = inr (ge, lt, λ i. i)
  in-Passed fi (p_cmpxchg_fails ne) k ge lt = inr (ge, lt, λ i. i)
  in-Passed (fine_room_seen {xs} {h} {t} {m} le tail near asks pos few fits) (p_cmpxchg same b) k ge
        lt =
      elim (dec_lt k s.p_head) [
        | yes old ↦ inr (ge, old, λ i. absurd (omega arith))
        | no new ↦ inl (
          omega (arith, same_count s.p_head h same le b),
          omega (arith, same_count s.p_head h same le b, length-take m xs),
        )
      ]
  in-Passed fi (store b) k ge lt = inr (ge, lt, λ i. i)
  in-Passed fi (p_wait_over e same) k ge lt = inr (ge, lt, λ i. i)
  in-Passed (fine_p_turn pos here head put there) p_publish k ge lt =
      inr (omega arith, lt, λ i. absurd (omega (arith, i.1)))
  in-Passed fi (dequeue rests_idle n pos) k ge lt = inr (ge, lt, λ i. i)
  in-Passed fi (dequeue rests_returned n pos) k ge lt = inr (ge, lt, λ i. i)
  in-Passed fi read_c_head k ge lt = inr (ge, lt, λ i. i)
  in-Passed fi (none_there refused) k ge lt = inr (ge, lt, λ i. i)
  in-Passed fi (some_there granted) k ge lt = inr (ge, lt, λ i. i)
  in-Passed fi (c_cmpxchg_fails ne) k ge lt = inr (ge, lt, λ i. i)
  in-Passed fi (c_cmpxchg same b) k ge lt = inr (ge, lt, λ i. i)
  in-Passed fi (load b) k ge lt = inr (ge, lt, λ i. i)
  in-Passed fi (c_wait_over all same) k ge lt = inr (ge, lt, λ i. i)
  in-Passed fi c_publish k ge lt = inr (ge, lt, λ i. i)

  out-Passed :
      {p q : Pc} {t : Shared}
      → Fine P s p
      → Move P s p t q
      → (k : ℕ) → t.c_tail ≤ k
      → k < t.c_head
      → Passed load_region s.c_tail s.c_head k p q
  out-Passed fi (enqueue rests_idle xs pos) k ge lt = inr (ge, lt, λ i. i)
  out-Passed fi (enqueue rests_returned xs pos) k ge lt = inr (ge, lt, λ i. i)
  out-Passed fi read_p_head k ge lt = inr (ge, lt, λ i. i)
  out-Passed fi (no_room refused) k ge lt = inr (ge, lt, λ i. i)
  out-Passed fi (room granted) k ge lt = inr (ge, lt, λ i. i)
  out-Passed fi (p_cmpxchg_fails ne) k ge lt = inr (ge, lt, λ i. i)
  out-Passed fi (p_cmpxchg same b) k ge lt = inr (ge, lt, λ i. i)
  out-Passed fi (store b) k ge lt = inr (ge, lt, λ i. i)
  out-Passed fi (p_wait_over e same) k ge lt = inr (ge, lt, λ i. i)
  out-Passed fi p_publish k ge lt = inr (ge, lt, λ i. i)
  out-Passed fi (dequeue rests_idle n pos) k ge lt = inr (ge, lt, λ i. i)
  out-Passed fi (dequeue rests_returned n pos) k ge lt = inr (ge, lt, λ i. i)
  out-Passed fi read_c_head k ge lt = inr (ge, lt, λ i. i)
  out-Passed fi (none_there refused) k ge lt = inr (ge, lt, λ i. i)
  out-Passed fi (some_there granted) k ge lt = inr (ge, lt, λ i. i)
  out-Passed fi (c_cmpxchg_fails ne) k ge lt = inr (ge, lt, λ i. i)
  out-Passed (fine_some_seen {h} le near tail asks pos few fits) (c_cmpxchg same b) k ge lt =
      elim (dec_lt k s.c_head) [
        | yes old ↦ inr (ge, old, λ i. absurd (omega arith))
        | no new ↦ inl (
          omega (arith, same_count s.c_head h same le b),
          omega (arith, same_count s.c_head h same le b),
        )
      ]
  out-Passed fi (load b) k ge lt = inr (ge, lt, λ i. i)
  out-Passed fi (c_wait_over all same) k ge lt = inr (ge, lt, λ i. (i.0, omega (arith, i.1)))
  out-Passed (fine_c_turn pos here head got) c_publish k ge lt =
      inr (omega arith, lt, λ i. absurd (omega (arith, i.1)))

-- A position that was passed on has an owner again.
Owned-step :
    (region : Pc → ℕ × ℕ) (pc : ℕ → Pc) (q : Pc) {threads lo hi k i : ℕ}
    → i < threads
    → Passed region lo hi k (pc i) q
    → (lo ≤ k → k < hi → Owned region threads pc k)
    → Owned region threads (update pc i q) k
Owned-step region pc q {k} {i} inside (inl mine) owned = (i, inside, rw (update_self pc i q) mine)
Owned-step region pc q {k} {i} inside (inr (ge, lt, keeps)) owned =
    let (j, small, holds) = owned ge lt in
    (
      j,
      small,
      elim (ℕ_discrete i j) [
        | yes e ↦ rw (sym e, update_self pc i q) (keeps (rw e holds))
        | no ne ↦ rw (update_ne pc i j q ne) holds
      ],
    )

module _ (P : Protocol) (threads : ℕ) (ring : List Ptr) (len : length ring ≡ 2 ^ P.log)
    (callers : (n : ℕ) → P.Asks n → 0 < n) where
  -- A position that is reserved and not published has a thread that stores its element.
  pub in-Owned :
      {s : System}
      → Reach P threads ring s
      → (k : ℕ) → s.mem.p_tail ≤ k
      → k < s.mem.p_head
      → Owned in_region threads s.pc k
  in-Owned initial k ge lt = absurd (omega arith)
  in-Owned (later {s} r (pick i {p} inside mv)) k ge lt =
      Owned-step in_region s.pc p inside (in-Passed P inv.sound (inv.fine i) mv k ge lt)
        (in-Owned r k)
    where
      inv : Inv P s
      inv = Reach-Inv P threads callers ring len r

  pub out-Owned :
      {s : System}
      → Reach P threads ring s
      → (k : ℕ) → s.mem.c_tail ≤ k
      → k < s.mem.c_head
      → Owned load_region threads s.pc k
  out-Owned initial k ge lt = absurd (omega arith)
  out-Owned (later {s} r (pick i {p} inside mv)) k ge lt =
      Owned-step load_region s.pc p inside (out-Passed P inv.sound (inv.fine i) mv k ge lt)
        (out-Owned r k)
    where
      inv : Inv P s
      inv = Reach-Inv P threads callers ring len r
