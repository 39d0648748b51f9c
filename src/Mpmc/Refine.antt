-- ===== src/Mpmc/Refine.antt =====
-- The concurrent queue as a list that changes at once, at the cmpxchg of a call.
use prototype_kernel.Base.{
  ℕ, zero, suc, ◌+◌, ◌-◌, ◌^◌, ◌≤◌, ◌<◌, ◌≡◌, ◌≢◌, ◌⊎◌, refl, sym, ap, ap₂, ◌∙◌, arith, List, [],
  ◌∷◌, ◌++◌, length, take, drop, get_or, length-take,
}
use prototype_kernel.Copy.Slots.{Ptr, window}
use prototype_kernel.Mpmc.Protocol.{Protocol}
use prototype_kernel.Mpmc.System.{
  Shared, Pc, place, Move, enqueue, read_p_head, no_room, room, p_cmpxchg_fails, p_cmpxchg, store,
  p_wait_over, p_publish, dequeue, read_c_head, none_there, some_there, c_cmpxchg_fails, c_cmpxchg,
  load, c_wait_over, c_publish, rests_idle, rests_returned, room_seen, storing, some_seen, loading,
  returned, System, Reach,
}
use prototype_kernel.Mpmc.Positions.{place_before, place_from}
use prototype_kernel.Mpmc.Invariant.{
  Clear, Sound, Fine, fine_room_seen, fine_some_seen, fine_returned, Inv,
}
use prototype_kernel.Mpmc.Kept.{Move-Sound}
use prototype_kernel.Mpmc.Safety.{Reach-Inv}

-- The elements of `n` positions from `lo` on.
abbrev pub placed_run : (ℕ → Ptr) → ℕ → ℕ → List Ptr
placed_run f lo zero = []
placed_run f lo (suc n) = f lo ∷ placed_run f (lo + 1) n

-- What is in the queue: what is reserved to go in, and not reserved to come out.
abbrev pub contents : Shared → List Ptr
contents s = placed_run s.placed s.c_head (s.p_head - s.c_head)

-- What a step of a thread does to the list: a cmpxchg of the producers' head that succeeds appends the
-- elements of the call, one of the consumers' head takes as many as the call found off the front, and
-- every other step leaves the list alone.
abbrev pub effect : Pc → Pc → List Ptr → List Ptr
effect (room_seen xs h t m) (storing ys h' k) c = c ++ take m xs
effect (some_seen n h t m) (loading m' h' ys) c = drop m c
effect p q c = c

-- A step from `s` to `t`, and what holds after it: at most the capacity is in the queue, what a dequeue
-- may take is published, and the slots from the consumers' head to the producers' tail have the front
-- of the list.
pub record Atomic (P : Protocol) (s t : Shared) (p q : Pc) : Type 0 where
  pub changed : contents t ≡ effect p q (contents s)
  pub bounded : length (contents t) ≤ P.capacity
  pub taken : t.c_head ≤ t.p_tail
  pub in_ring :
      window t.ring (2 ^ P.log) t.c_head (t.p_tail - t.c_head)
      ≡ take (t.p_tail - t.c_head) (contents t)

length-placed_run : (f : ℕ → Ptr) (lo n : ℕ) → length (placed_run f lo n) ≡ n
length-placed_run f lo zero = refl
length-placed_run f lo (suc n) = omega (arith, length-placed_run f (lo + 1) n)

take-placed_run :
    (f : ℕ → Ptr) (lo k n : ℕ) → k ≤ n → take k (placed_run f lo n) ≡ placed_run f lo k
take-placed_run f lo zero n le = refl
take-placed_run f lo (suc k) zero le = absurd (omega arith)
take-placed_run f lo (suc k) (suc n) le =
    ap (λ t. f lo ∷ t) (take-placed_run f (lo + 1) k n (omega arith))

drop-placed_run :
    (f : ℕ → Ptr) (lo m n : ℕ) → drop m (placed_run f lo n) ≡ placed_run f (lo + m) (n - m)
drop-placed_run f lo zero n = ap₂ (placed_run f) (omega arith) (omega arith)
drop-placed_run f lo (suc m) zero = ap (placed_run f (lo + suc m)) nothing
  where
    nothing : 0 ≡ 0 - suc m
    nothing = omega arith
drop-placed_run f lo (suc m) (suc n) =
    drop-placed_run f (lo + 1) m n ∙ ap₂ (placed_run f) shift less
  where
    shift : lo + 1 + m ≡ lo + suc m
    shift = omega arith

    less : n - m ≡ suc n - suc m
    less = omega arith

placed_run-add :
    (f : ℕ → Ptr) (lo a b : ℕ)
    → placed_run f lo (a + b) ≡ placed_run f lo a ++ placed_run f (lo + a) b
placed_run-add f lo zero b = ap₂ (placed_run f) (omega arith) (omega arith)
placed_run-add f lo (suc a) b =
    ap (placed_run f lo) step
    ∙ ap (λ t. f lo ∷ t)
        (placed_run-add f (lo + 1) a b
          ∙ ap (λ l. placed_run f (lo + 1) a ++ placed_run f l b) shift)
  where
    step : suc a + b ≡ suc (a + b)
    step = omega arith

    shift : lo + 1 + a ≡ lo + suc a
    shift = omega arith

-- Positions that agree make the same list.
pub placed_run-get :
    (f : ℕ → Ptr) (lo : ℕ) (ys : List Ptr)
    → ((x : ℕ) → x < length ys → get_or ys x 0 ≡ f (lo + x))
    → ys ≡ placed_run f lo (length ys)
placed_run-get f lo [] same = refl
placed_run-get f lo (y ∷ ys) same =
    ap₂ ◌∷◌ (same 0 (omega arith) ∙ ap f (omega arith))
      (placed_run-get f (lo + 1) ys (λ x lt. same (suc x) (omega arith) ∙ ap f (shift x)))
  where
    shift : (x : ℕ) → lo + suc x ≡ lo + 1 + x
    shift x = omega arith

placed_run_ext :
    (f g : ℕ → Ptr) (lo n : ℕ)
    → ((k : ℕ) → lo ≤ k → k < lo + n → f k ≡ g k)
    → placed_run f lo n ≡ placed_run g lo n
placed_run_ext f g lo zero same = refl
placed_run_ext f g lo (suc n) same =
    ap₂ ◌∷◌ (same lo (omega arith) (omega arith))
      (placed_run_ext f g (lo + 1) n (λ k ge lt. same k (omega arith) (omega arith)))

module _ (P : Protocol) {s : Shared} (so : Sound P s) where
  reserved :
      (xs : List Ptr) (m : ℕ)
      → m ≤ length xs
      → placed_run (place s.placed s.p_head (take m xs)) s.c_head (s.p_head + m - s.c_head)
        ≡ contents s ++ take m xs
  reserved xs m few =
      ap (placed_run now s.c_head) split
      ∙ placed_run-add now s.c_head (s.p_head - s.c_head) m
      ∙ ap₂ ◌++◌
          (placed_run_ext now s.placed s.c_head (s.p_head - s.c_head) (λ k ge lt.
            place_before s.placed s.p_head (take m xs) k (omega (arith, so.taken, so.filled))))
          (ap₂ (placed_run now) here count
            ∙ sym (
                placed_run-get now s.p_head (take m xs)
                  (λ x lt. sym (place_from s.placed s.p_head (take m xs) x))))
    where
      now : ℕ → Ptr
      now = place s.placed s.p_head (take m xs)

      split : s.p_head + m - s.c_head ≡ s.p_head - s.c_head + m
      split = omega (arith, so.taken, so.filled)

      here : s.c_head + (s.p_head - s.c_head) ≡ s.p_head
      here = omega (arith, so.taken, so.filled)

      count : m ≡ length (take m xs)
      count = omega (arith, length-take m xs)

  Move-effect :
      {p q : Pc} {t : Shared} → Fine P s p → Move P s p t q → contents t ≡ effect p q (contents s)
  Move-effect fi (enqueue rests_idle xs asks) = refl
  Move-effect fi (enqueue rests_returned xs asks) = refl
  Move-effect fi read_p_head = refl
  Move-effect fi (no_room refused) = refl
  Move-effect fi (room granted) = refl
  Move-effect fi (p_cmpxchg_fails ne) = refl
  Move-effect (fine_room_seen {xs} {h} {t} {m} le tail near asks pos few fits) (p_cmpxchg same lt) =
      reserved xs m few
  Move-effect fi (store lt) = refl
  Move-effect fi (p_wait_over e same) = refl
  Move-effect fi p_publish = refl
  Move-effect fi (dequeue rests_idle n asks) = refl
  Move-effect fi (dequeue rests_returned n asks) = refl
  Move-effect fi read_c_head = refl
  Move-effect fi (none_there refused) = refl
  Move-effect fi (some_there granted) = refl
  Move-effect fi (c_cmpxchg_fails ne) = refl
  Move-effect (fine_some_seen {n} {h} {t} {m} le near tail asks pos few fits) (c_cmpxchg same lt) =
      ap (placed_run s.placed (s.c_head + m)) left
      ∙ sym (drop-placed_run s.placed s.c_head m (s.p_head - s.c_head))
    where
      left : s.p_head - (s.c_head + m) ≡ s.p_head - s.c_head - m
      left = omega arith
  Move-effect fi (load lt) = refl
  Move-effect fi (c_wait_over all same) = refl
  Move-effect fi c_publish = refl

-- The slots of published positions have their elements.
module _ (P : Protocol) {t : Shared} (so : Sound P t) where
  published_ring :
      (n lo : ℕ)
      → t.c_tail ≤ lo
      → lo + n ≤ t.p_tail
      → window t.ring (2 ^ P.log) lo n ≡ placed_run t.placed lo n
  published_ring zero lo ge le = refl
  published_ring (suc n) lo ge le =
      ap₂ ◌∷◌ (so.written lo ge (omega arith))
        (published_ring n (lo + 1) (omega arith) (omega arith))

  in_ring_lem :
      window t.ring (2 ^ P.log) t.c_head (t.p_tail - t.c_head)
      ≡ take (t.p_tail - t.c_head) (contents t)
  in_ring_lem =
      published_ring (t.p_tail - t.c_head) t.c_head so.emptied (omega (arith, so.taken))
      ∙ sym (
          take-placed_run t.placed t.c_head (t.p_tail - t.c_head) (t.p_head - t.c_head)
            (omega (arith, so.filled)))

module _ (P : Protocol) (threads : ℕ) (ring : List Ptr) (len : length ring ≡ 2 ^ P.log)
    (callers : (n : ℕ) → P.Asks n → 0 < n) where
  -- Let any number of threads enqueue and dequeue on one queue, by either protocol, with at most 2 ^ 28
  -- slots, and let every call ask for at least one element. Then a step of a thread in a reachable state
  -- appends what its call enqueues to the list of the elements in the queue, if it is the cmpxchg of the
  -- producers' head, takes as many as the call found off the front, if it is that of the consumers' head,
  -- and leaves the list as it is otherwise. After it the list is not longer than the capacity, no more is
  -- taken than is published, and the slots from the consumers' head to the producers' tail have the front
  -- of the list.
  pub Step-Atomic :
      {s : System}
      → Reach P threads ring s
      → (i : ℕ) {t : Shared} {q : Pc} → Move P s.mem (s.pc i) t q
      → Atomic P s.mem t (s.pc i) q
  Step-Atomic {s} r i {t} mv = record {
    changed = Move-effect P inv.sound (inv.fine i) mv;
    bounded = omega (
      arith,
      length-placed_run t.placed t.c_head (t.p_head - t.c_head),
      after.bounded,
      after.emptied,
    );
    taken = after.taken;
    in_ring = in_ring_lem P after;
  }
    where
      inv : Inv P s
      inv = Reach-Inv P threads callers ring len r

      after : Sound P t
      after = Move-Sound P inv.sound (inv.fine i) mv

  -- When every call asks for at least one element, a dequeue that has returned gave the elements
  -- that were reserved for its positions, in order, and it shares no position with what another
  -- thread's last dequeue gave, or one on its way loads.
  pub delivered_once :
      {s : System}
      → Reach P threads ring s
      → (i j h : ℕ) (ys : List Ptr) → s.pc i ≡ returned h ys
      → i ≢ j
      → (ys ≡ placed_run s.mem.placed h (length ys))
        × ((h' : ℕ) (ys' : List Ptr)
            → s.pc j ≡ returned h' ys'
            → (h + length ys ≤ h') ⊎ (h' + length ys' ≤ h))
        × ((m h' : ℕ) (ys' : List Ptr)
            → s.pc j ≡ loading m h' ys'
            → (h + length ys ≤ h') ⊎ (h' + m ≤ h))
  delivered_once {s} r i j h ys e ne = (
    got (transport-Fine e (inv.fine i)),
    (λ h' ys' e'. (at_pcs e e').outs),
    (λ m h' ys' e'. (at_pcs e e').outs),
  )
    where
      inv : Inv P s
      inv = Reach-Inv P threads callers ring len r

      transport-Fine : {p : Pc} → s.pc i ≡ p → Fine P s.mem (s.pc i) → Fine P s.mem p
      transport-Fine e fi = rw (sym e) fi

      at_pcs : {p q : Pc} → s.pc i ≡ p → s.pc j ≡ q → Clear p q
      at_pcs e e' = rw (sym e, sym e') (inv.clear i j ne)

      got : Fine P s.mem (returned h ys) → ys ≡ placed_run s.mem.placed h (length ys)
      got (fine_returned tail loaded) = placed_run-get s.mem.placed h ys loaded
