-- ===== src/Mpmc/Progress.antt =====
-- How the calls that have reserved positions come to their ends.
use prototype_kernel.Base.{
  ℕ, zero, suc, ◌+◌, ◌-◌, ◌^◌, ◌≤◌, ◌<◌, ◌≡◌, ◌⊎◌, inl, inr, refl, sym, ap, ◌∙◌, arith, List, [],
  ◌∷◌, ◌++◌, length, get_or, set,
}
use prototype_kernel.Copy.Slots.{Ptr}
use prototype_kernel.Mpmc.Protocol.{Protocol, slot_of}
use prototype_kernel.Mpmc.System.{
  Pc, idle, returned, storing, p_turn, loading, c_turn, store, p_wait_over, p_publish, load,
  c_wait_over, c_publish, System, update, Step, pick, Reach, later,
}
use prototype_kernel.Mpmc.Invariant.{
  in_region, load_region, Fine, fine_idle, fine_entering, fine_p_head_read, fine_room_seen,
  fine_storing, fine_p_turn, fine_leaving, fine_c_head_read, fine_some_seen, fine_loading,
  fine_c_turn, fine_returned,
}
use prototype_kernel.Mpmc.Moves.{length-snoc}
use prototype_kernel.Mpmc.Safety.{update_self, Reach-Inv}
use prototype_kernel.Mpmc.Cover.{In, in-Owned, out-Owned}
use native.Mathlib.Decide.{dec_lt}

module _ (P : Protocol) (threads : ℕ) where
  -- Steps one after the other.
  pub data Runs : System → System → Type 0 where
    done : {s : System} → Runs s s
    first : {s t u : System} → Step P threads s t → Runs t u → Runs s u

  pub Runs-Reach :
      {ring : List Ptr} {s t : System} → Reach P threads ring s → Runs s t → Reach P threads ring t
  Runs-Reach r done = r
  Runs-Reach r (first st rest) = Runs-Reach (later r st) rest

  pub Runs-append : {s t u : System} → Runs s t → Runs t u → Runs s u
  Runs-append done more = more
  Runs-append (first st rest) more = first st (Runs-append rest more)

  -- The enqueue at the tail waits for nobody: its stores and its write of the tail are the next steps.
  tail_written :
      (i : ℕ) (xs : List Ptr) (s : System)
      → i < threads
      → s.pc i ≡ p_turn xs s.mem.p_tail
      → (t : System) × Runs s t
        × (t.mem.p_tail ≡ s.mem.p_tail + length xs)
        × (t.mem.p_head ≡ s.mem.p_head)
  tail_written i xs s inside at = (next, first (pick i inside (rw at p_publish)) done, refl, refl)
    where
      next : System
      next = record {
        mem = record s.mem { p_tail = s.mem.p_tail + length xs };
        pc = update s.pc i idle;
      }

  stores_left :
      (i : ℕ) (xs : List Ptr) (left k : ℕ) (s : System)
      → i < threads
      → k + left ≡ length xs
      → s.pc i ≡ storing xs s.mem.p_tail k
      → (t : System) × Runs s t
        × (t.mem.p_tail ≡ s.mem.p_tail + length xs)
        × (t.mem.p_head ≡ s.mem.p_head)
  stores_left i xs zero k s inside e at =
      let (t, run, tail, head) = tail_written i xs next inside (update_self s.pc i _) in
      (t, first (pick i inside (rw at (p_wait_over (omega arith) refl))) run, tail, head)
    where
      next : System
      next = record { mem = s.mem; pc = update s.pc i (p_turn xs s.mem.p_tail) }
  stores_left i xs (suc left) k s inside e at =
      let (t, run, tail, head) =
        stores_left i xs left (k + 1) next inside (omega arith) (update_self s.pc i _) in
      (t, first (pick i inside (rw at (store (omega arith)))) run, tail, head)
    where
      next : System
      next = record {
        mem = record s.mem { ring = set s.mem.ring (slot_of P s.mem.p_tail k) (get_or xs k 0) };
        pc = update s.pc i (storing xs s.mem.p_tail (k + 1));
      }

  given_back :
      (i : ℕ) (ys : List Ptr) (s : System)
      → i < threads
      → s.pc i ≡ c_turn s.mem.c_tail ys
      → (t : System) × Runs s t
        × (t.mem.c_tail ≡ s.mem.c_tail + length ys)
        × (t.mem.c_head ≡ s.mem.c_head)
        × (t.mem.p_tail ≡ s.mem.p_tail)
        × (t.mem.p_head ≡ s.mem.p_head)
  given_back i ys s inside at =
      (next, first (pick i inside (rw at c_publish)) done, refl, refl, refl, refl)
    where
      next : System
      next = record {
        mem = record s.mem { c_tail = s.mem.c_tail + length ys };
        pc = update s.pc i (returned s.mem.c_tail ys);
      }

  loads_left :
      (i m left : ℕ) (ys : List Ptr) (s : System)
      → i < threads
      → length ys + left ≡ m
      → s.pc i ≡ loading m s.mem.c_tail ys
      → (t : System) × Runs s t
        × (t.mem.c_tail ≡ s.mem.c_tail + m)
        × (t.mem.c_head ≡ s.mem.c_head)
        × (t.mem.p_tail ≡ s.mem.p_tail)
        × (t.mem.p_head ≡ s.mem.p_head)
  loads_left i m zero ys s inside e at =
      let (t, run, tail, head, p_tail, p_head) =
        given_back i ys next inside (update_self s.pc i _) in
      (
        t,
        first (pick i inside (rw at (c_wait_over (omega arith) refl))) run,
        omega (arith, tail),
        head,
        p_tail,
        p_head,
      )
    where
      next : System
      next = record { mem = s.mem; pc = update s.pc i (c_turn s.mem.c_tail ys) }
  loads_left i m (suc left) ys s inside e at =
      let (t, run, tail, head, p_tail, p_head) =
        loads_left i m left (ys ++ v ∷ []) next inside (omega (arith, length-snoc ys v))
          (update_self s.pc i _) in
      (t, first (pick i inside (rw at (load (omega arith)))) run, tail, head, p_tail, p_head)
    where
      v : Ptr
      v = get_or s.mem.ring (slot_of P s.mem.c_tail (length ys)) 0

      next : System
      next = record { mem = s.mem; pc = update s.pc i (loading m s.mem.c_tail (ys ++ v ∷ [])) }

-- The thread that has the position at a tail is the one whose turn it is.
module _ (P : Protocol) (s : System) where
  storing_first :
      {q : Pc}
      → Fine P s.mem q
      → In s.mem.p_tail (in_region q)
      → (xs : List Ptr) × (k : ℕ) × ((q ≡ storing xs s.mem.p_tail k) ⊎ (q ≡ p_turn xs s.mem.p_tail))
        × (k ≤ length xs)
        × (0 < length xs)
  storing_first fine_idle (ge, lt) = absurd (omega arith)
  storing_first (fine_entering pos) (ge, lt) = absurd (omega arith)
  storing_first (fine_p_head_read pos le) (ge, lt) = absurd (omega arith)
  storing_first (fine_room_seen le tail near asks pos few fits) (ge, lt) = absurd (omega arith)
  storing_first (fine_storing {xs} {h} {k} pos tail head some_stored put there) (ge, lt) =
      (xs, k, inl (ap (λ a. storing xs a k) (le_antisymm h s.mem.p_tail ge tail)), some_stored, pos)
    where
      le_antisymm : (a b : ℕ) → a ≤ b → b ≤ a → a ≡ b
      le_antisymm a b p q = omega arith
  storing_first (fine_p_turn {xs} pos at head put there) (ge, lt) =
      (xs, 0, inr (ap (p_turn xs) (sym at)), omega arith, pos)
  storing_first (fine_leaving pos) (ge, lt) = absurd (omega arith)
  storing_first (fine_c_head_read pos le) (ge, lt) = absurd (omega arith)
  storing_first (fine_some_seen le near tail asks pos few fits) (ge, lt) = absurd (omega arith)
  storing_first (fine_loading pos tail head loaded got) (ge, lt) = absurd (omega arith)
  storing_first (fine_c_turn pos at head got) (ge, lt) = absurd (omega arith)
  storing_first (fine_returned tail got) (ge, lt) = absurd (omega arith)

  loading_first :
      {q : Pc}
      → Fine P s.mem q
      → In s.mem.c_tail (load_region q)
      → (m : ℕ) × (ys : List Ptr) × ((q ≡ loading m s.mem.c_tail ys)
          ⊎ ((q ≡ c_turn s.mem.c_tail ys) × (length ys ≡ m)))
        × (length ys ≤ m)
        × (0 < m)
  loading_first fine_idle (ge, lt) = absurd (omega arith)
  loading_first (fine_entering pos) (ge, lt) = absurd (omega arith)
  loading_first (fine_p_head_read pos le) (ge, lt) = absurd (omega arith)
  loading_first (fine_room_seen le tail near asks pos few fits) (ge, lt) = absurd (omega arith)
  loading_first (fine_storing pos tail head some_stored put there) (ge, lt) = absurd (omega arith)
  loading_first (fine_p_turn pos at head put there) (ge, lt) = absurd (omega arith)
  loading_first (fine_leaving pos) (ge, lt) = absurd (omega arith)
  loading_first (fine_c_head_read pos le) (ge, lt) = absurd (omega arith)
  loading_first (fine_some_seen le near tail asks pos few fits) (ge, lt) = absurd (omega arith)
  loading_first (fine_loading {m} {h} {ys} pos tail head loaded got) (ge, lt) =
      (m, ys, inl (ap (λ a. loading m a ys) (le_antisymm h s.mem.c_tail ge tail)), loaded, pos)
    where
      le_antisymm : (a b : ℕ) → a ≤ b → b ≤ a → a ≡ b
      le_antisymm a b p q = omega arith
  loading_first (fine_c_turn {ys = ys} pos at head got) (ge, lt) =
      (length ys, ys, inr (ap (λ a. c_turn a ys) (sym at), refl), omega arith, pos)
  loading_first (fine_returned tail got) (ge, lt) = absurd (omega arith)

module _ (P : Protocol) (threads : ℕ) (ring : List Ptr) (len : length ring ≡ 2 ^ P.log)
    (callers : (n : ℕ) → P.Asks n → 0 < n) where
  -- The enqueue at the tail finishes.
  one_enqueue :
      (s : System)
      → Reach P threads ring s
      → s.mem.p_tail < s.mem.p_head
      → (t : System) × Runs P threads s t
        × (s.mem.p_tail < t.mem.p_tail)
        × (t.mem.p_head ≡ s.mem.p_head)
  one_enqueue s r lt =
      let (i, inside, holds) =
        in-Owned P threads ring len callers r s.mem.p_tail (omega arith) lt in
      let (xs, k, at, some_stored, pos) =
        storing_first P s ((Reach-Inv P threads callers ring len r).fine i) holds in
      elim at [
        | inl stores ↦
            let (t, run, tail, head) =
              stores_left P threads i xs (length xs - k) k s inside (omega arith) stores in
            (t, run, omega (arith, tail), head)
        | inr turn ↦
            let (t, run, tail, head) = tail_written P threads i xs s inside turn in
            (t, run, omega (arith, tail), head)
      ]

  one_dequeue :
      (s : System)
      → Reach P threads ring s
      → s.mem.c_tail < s.mem.c_head
      → (t : System) × Runs P threads s t
        × (s.mem.c_tail < t.mem.c_tail)
        × (t.mem.c_head ≡ s.mem.c_head)
        × (t.mem.p_tail ≡ s.mem.p_tail)
        × (t.mem.p_head ≡ s.mem.p_head)
  one_dequeue s r lt =
      let (i, inside, holds) =
        out-Owned P threads ring len callers r s.mem.c_tail (omega arith) lt in
      let (m, ys, at, loaded, pos) =
        loading_first P s ((Reach-Inv P threads callers ring len r).fine i) holds in
      elim at [
        | inl loads ↦
            let (t, run, tail, head, p_tail, p_head) =
              loads_left P threads i m (m - length ys) ys s inside (omega arith) loads in
            (t, run, omega (arith, tail), head, p_tail, p_head)
        | inr (turn, all) ↦
            let (t, run, tail, head, p_tail, p_head) = given_back P threads i ys s inside turn in
            (t, run, omega (arith, tail), head, p_tail, p_head)
      ]

  -- What a run can reach is reached from its start.
  Settled : System → Type 0
  Settled s = (t : System) × Runs P threads s t × (t.mem.p_tail ≡ t.mem.p_head)

  Quiet : System → Type 0
  Quiet s =
      (t : System) × Runs P threads s t
      × (t.mem.p_tail ≡ t.mem.p_head)
      × (t.mem.c_tail ≡ t.mem.c_head)

  Settled-Runs : {s t : System} → Runs P threads s t → Settled t → Settled s
  unfolding Settled
  Settled-Runs run (u, more, settled) = (u, Runs-append P threads run more, settled)

  Quiet-Runs : {s t : System} → Runs P threads s t → Quiet t → Quiet s
  unfolding Quiet
  Quiet-Runs run (u, more, published, given) = (u, Runs-append P threads run more, published, given)

  enqueues_finish :
      (fuel : ℕ) (s : System)
      → s.mem.p_head ≤ s.mem.p_tail + fuel
      → Reach P threads ring s
      → Settled s
  unfolding Settled
  enqueues_finish zero s few r =
      (s, done, omega (arith, (Reach-Inv P threads callers ring len r).sound.filled))
  enqueues_finish (suc fuel) s few r = elim (dec_lt s.mem.p_tail s.mem.p_head) [
    | no ge ↦ (s, done, omega (arith, (Reach-Inv P threads callers ring len r).sound.filled))
    | yes lt ↦ go (λ t. enqueues_finish fuel t) (one_enqueue s r lt)
  ]
    where
      go :
          ((t : System) → t.mem.p_head ≤ t.mem.p_tail + fuel → Reach P threads ring t → Settled t)
          → (t : System) × Runs P threads s t
            × (s.mem.p_tail < t.mem.p_tail)
            × (t.mem.p_head ≡ s.mem.p_head)
          → Settled s
      go next (t, run, tail, head) =
          Settled-Runs run (next t (omega arith) (Runs-Reach P threads r run))

  dequeues_finish :
      (fuel : ℕ) (s : System)
      → s.mem.c_head ≤ s.mem.c_tail + fuel
      → s.mem.p_tail ≡ s.mem.p_head
      → Reach P threads ring s
      → Quiet s
  unfolding Quiet
  dequeues_finish zero s few settled r =
      (s, done, settled, omega (arith, (Reach-Inv P threads callers ring len r).sound.emptied))
  dequeues_finish (suc fuel) s few settled r = elim (dec_lt s.mem.c_tail s.mem.c_head) [
    | no ge ↦
        (s, done, settled, omega (arith, (Reach-Inv P threads callers ring len r).sound.emptied))
    | yes lt ↦ go (λ t. dequeues_finish fuel t) (one_dequeue s r lt)
  ]
    where
      go :
          ((t : System)
            → t.mem.c_head ≤ t.mem.c_tail + fuel
            → t.mem.p_tail ≡ t.mem.p_head
            → Reach P threads ring t
            → Quiet t)
          → (t : System) × Runs P threads s t
            × (s.mem.c_tail < t.mem.c_tail)
            × (t.mem.c_head ≡ s.mem.c_head)
            × (t.mem.p_tail ≡ s.mem.p_tail)
            × (t.mem.p_head ≡ s.mem.p_head)
          → Quiet s
      go next (t, run, tail, head, p_tail, p_head) =
          Quiet-Runs run
            (next t (omega arith) (p_tail ∙ settled ∙ sym p_head) (Runs-Reach P threads r run))

  -- When every call asks for at least one element, then from every reachable state the threads can
  -- go on to a state where all that is reserved is published and all that is taken is given back:
  -- the waits for the tails are not a deadlock.
  pub calls_can_finish :
      (s : System)
      → Reach P threads ring s
      → (t : System) × Runs P threads s t
        × (t.mem.p_tail ≡ t.mem.p_head)
        × (t.mem.c_tail ≡ t.mem.c_head)
  unfolding Quiet Settled
  calls_can_finish s r = go (enqueues_finish s.mem.p_head s (omega arith) r)
    where
      go : Settled s → Quiet s
      go (t, run, settled) =
          Quiet-Runs run
            (dequeues_finish t.mem.c_head t (omega arith) settled (Runs-Reach P threads r run))
