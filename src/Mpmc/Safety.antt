-- ===== src/Mpmc/Safety.antt =====
-- What holds however the threads interleave: the invariant, and what a dequeue gets.
use prototype_kernel.Base.{
  ℕ, ◌^◌, ◌<◌, ◌≡◌, ◌≢◌, refl, sym, ◌∙◌, arith, List, length, ==_refl, ne→==,
}
use prototype_kernel.Copy.Slots.{Ptr}
use prototype_kernel.Mpmc.Protocol.{Protocol}
use prototype_kernel.Mpmc.System.{Pc, System, update, Step, pick, Reach, initial, later}
use prototype_kernel.Mpmc.Invariant.{Clear, Fine, fine_idle, Inv}
use prototype_kernel.Mpmc.Frame.{Frame-Fine, free-Clear}
use prototype_kernel.Mpmc.Moves.{Move-Fine}
use prototype_kernel.Mpmc.Kept.{Move-Sound, Move-Frame, Move-Clear}
use native.Mathlib.Decide.{ℕ_discrete}

pub update_self : (f : ℕ → Pc) (i : ℕ) (p : Pc) → update f i p i ≡ p
update_self f i p = rw (==_refl i)

pub update_ne : (f : ℕ → Pc) (i j : ℕ) (p : Pc) → i ≢ j → update f i p j ≡ f j
update_ne f i j p ne = rw (ne→== i j ne)

Clear-sym : {p q : Pc} → Clear p q → Clear q p
Clear-sym cl = record { ins = omega (arith, cl.ins); outs = omega (arith, cl.outs) }

module _ (P : Protocol) (threads : ℕ) (callers : (n : ℕ) → P.Asks n → 0 < n) where
  Step-Inv : {s t : System} → Inv P s → Step P threads s t → Inv P t
  Step-Inv {s} inv (pick i {m} {p} lt mv) = record {
    sound = Move-Sound P inv.sound (inv.fine i) mv;
    fine = fine;
    clear = clear;
  }
    where
      fine : (j : ℕ) → Fine P m (update s.pc i p j)
      fine j = elim (ℕ_discrete i j) [
        | yes e ↦ rw (sym e, update_self s.pc i p) (Move-Fine P inv.sound callers (inv.fine i) mv)
        | no ne ↦ rw (update_ne s.pc i j p ne) (
            Frame-Fine P s.mem m inv.sound
              (Move-Frame P inv.sound (inv.fine i) (inv.fine j) (inv.clear i j ne) mv) (inv.fine j))
      ]

      moved : (j : ℕ) → i ≢ j → Clear p (s.pc j)
      moved j ne = Move-Clear P inv.sound (inv.fine i) (inv.fine j) (inv.clear i j ne) mv

      clear : (j k : ℕ) → j ≢ k → Clear (update s.pc i p j) (update s.pc i p k)
      clear j k ne = elim (ℕ_discrete i j) [
        | yes e ↦
            rw (sym e, update_self s.pc i p, update_ne s.pc i k p (λ e'. ne (sym e ∙ e')))
              (moved k (λ e'. ne (sym e ∙ e')))
        | no a ↦ elim (ℕ_discrete i k) [
          | yes e ↦ rw (sym e, update_self s.pc i p, update_ne s.pc i j p a) (Clear-sym (moved j a))
          | no b ↦ rw (update_ne s.pc i j p a, update_ne s.pc i k p b) (inv.clear j k ne)
        ]
      ]

  -- When every call asks for at least one element, then in every reachable state the counters are
  -- in order and at most `capacity` positions are reserved, every published position has its
  -- element in its slot, and no two threads hold a position in common.
  pub Reach-Inv :
      (ring : List Ptr) {s : System} → length ring ≡ 2 ^ P.log → Reach P threads ring s → Inv P s
  Reach-Inv ring len initial = record {
    sound = record {
      emptied = omega arith;
      taken = omega arith;
      filled = omega arith;
      bounded = omega arith;
      slots = len;
      written = λ k ge lt. absurd (omega arith);
    };
    fine = λ i. fine_idle;
    clear = λ i j ne. free-Clear refl refl;
  }
  Reach-Inv ring len (later r st) = Step-Inv (Reach-Inv ring len r) st
