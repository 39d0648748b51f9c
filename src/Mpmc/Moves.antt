-- ===== src/Mpmc/Moves.antt =====
-- What a move leaves of the thread that makes it, and of the queue.
use prototype_kernel.Base.{
  ℕ, zero, suc, ◌+◌, ◌%◌, ◌^◌, ◌≤◌, ◌<◌, ◌≡◌, ◌≢◌, refl, sym, ap, ◌∙◌, arith, List, [], ◌∷◌, ◌++◌,
  length, take, get_or, set, length-take, length-append,
}
use prototype_kernel.Base.Words.{add32, sub32}
use prototype_kernel.Copy.Slots.{Ptr}
use prototype_kernel.Mpmc.Protocol.{Protocol, word, slot_of}
use prototype_kernel.Mpmc.System.{
  Shared, Pc, place, Move, enqueue, read_p_head, no_room, room, p_cmpxchg_fails, p_cmpxchg, store,
  p_wait_over, p_publish, dequeue, read_c_head, none_there, some_there, c_cmpxchg_fails, c_cmpxchg,
  load, c_wait_over, c_publish,
}
use prototype_kernel.Mpmc.Positions.{slot_of-mod, place_from, stored_at, stored_off}
use prototype_kernel.Mpmc.Invariant.{
  Sound, Fine, fine_idle, fine_entering, fine_p_head_read, fine_room_seen, fine_storing,
  fine_p_turn, fine_leaving, fine_c_head_read, fine_some_seen, fine_loading, fine_c_turn,
  fine_returned,
}
use native.Mathlib.Nat.{mod-lt, one-le-pow, pow-le-pow_right}
use native.Mathlib.Decide.{ℕ_discrete}

-- The same word, less than a round of the counter apart.
pub same_count : (a h : ℕ) → word a ≡ word h → h ≤ a → a < h + 2 ^ 32 → a ≡ h
same_count a h e ge lt = omega arith

-- The room that the code computes, where the counters are in order.
pub room_le :
    (c h t m : ℕ)
    → c ≤ 2 ^ 28
    → t ≤ h
    → h ≤ t + c
    → m ≤ sub32 (add32 c (word t)) (word h)
    → h + m ≤ t + c
room_le c h t m small ge le few = omega arith

pub there_le :
    (c h t m : ℕ) → c ≤ 2 ^ 28 → h ≤ t → t ≤ h + c → m ≤ sub32 (word t) (word h) → h + m ≤ t
there_le c h t m small ge le few = omega arith

module _ (P : Protocol) where
  pub size_le : 2 ^ P.log ≤ 2 ^ 28
  size_le = pow-le-pow_right {n = 2} (omega arith) P.small

  pub slot_lt : (k : ℕ) → k % 2 ^ P.log < 2 ^ P.log
  slot_lt k = mod-lt k (one-le-pow P.log 2 (omega arith))

-- One more element at the end of a list.
pub get_or-snoc_lt :
    (ys : List Ptr) (v : Ptr) (x : ℕ) → x < length ys → get_or (ys ++ v ∷ []) x 0 ≡ get_or ys x 0
get_or-snoc_lt [] v x lt = absurd (omega arith)
get_or-snoc_lt (y ∷ ys) v zero lt = refl
get_or-snoc_lt (y ∷ ys) v (suc x) lt = get_or-snoc_lt ys v x (omega arith)

pub get_or-snoc_last : (ys : List Ptr) (v : Ptr) → get_or (ys ++ v ∷ []) (length ys) 0 ≡ v
get_or-snoc_last [] v = refl
get_or-snoc_last (y ∷ ys) v = get_or-snoc_last ys v

pub length-snoc : (ys : List Ptr) (v : Ptr) → length (ys ++ v ∷ []) ≡ length ys + 1
length-snoc ys v = length-append ys (v ∷ [])

module _ (P : Protocol) {s : Shared} (so : Sound P s) where
  -- What a store puts in a slot of the reservation, and what it leaves in the others.
  module _ (xs : List Ptr) (h k : ℕ) (lt : k < length xs) (tail : s.p_tail ≤ h)
      (head : h + length xs ≤ s.p_head) where
    pub store_here :
        get_or (set s.ring (slot_of P h k) (get_or xs k 0)) ((h + k) % 2 ^ P.log) 0 ≡ get_or xs k 0
    store_here =
        ap (λ i. get_or (set s.ring i (get_or xs k 0)) ((h + k) % 2 ^ P.log) 0) (slot_of-mod P h k)
        ∙ stored_at s.ring (2 ^ P.log) (h + k) (get_or xs k 0)
            (omega (arith, so.slots, slot_lt P (h + k)))

    pub store_there :
        (q : ℕ)
        → s.c_tail ≤ q
        → q < s.p_head
        → h + k ≢ q
        → get_or (set s.ring (slot_of P h k) (get_or xs k 0)) (q % 2 ^ P.log) 0
          ≡ get_or s.ring (q % 2 ^ P.log) 0
    store_there q ge below ne =
        ap (λ i. get_or (set s.ring i (get_or xs k 0)) (q % 2 ^ P.log) 0) (slot_of-mod P h k)
        ∙ stored_off s.ring (2 ^ P.log) (h + k) (get_or xs k 0) q s.c_tail
            (omega (arith, so.emptied, so.taken)) ge (omega (arith, so.bounded, P.capacity_le))
            (omega (arith, so.bounded, P.capacity_le)) ne

  -- A thread's turn has come when the tail is at its reservation.
  pub in_turn : (h : ℕ) → s.p_tail ≤ h → h ≤ s.p_head → word s.p_tail ≡ word h → h ≡ s.p_tail
  in_turn h ge le e =
      same_count h s.p_tail (sym e) ge
        (omega (arith, so.emptied, so.taken, so.bounded, P.capacity_le, size_le P))

  pub out_turn : (h : ℕ) → s.c_tail ≤ h → h ≤ s.c_head → word s.c_tail ≡ word h → h ≡ s.c_tail
  out_turn h ge le e =
      same_count h s.c_tail (sym e) ge
        (omega (arith, so.taken, so.filled, so.bounded, P.capacity_le, size_le P))

  pub Move-Fine :
      ((n : ℕ) → P.Asks n → 0 < n)
      → {p p' : Pc} {t : Shared} → Fine P s p
      → Move P s p t p'
      → Fine P t p'
  Move-Fine callers fi (enqueue rests xs asks) = fine_entering (callers _ asks)
  Move-Fine callers (fine_entering pos) read_p_head = fine_p_head_read pos (omega arith)
  Move-Fine callers fi (no_room refused) = fine_idle
  Move-Fine callers (fine_p_head_read pos le) (room {m} granted) =
      fine_room_seen le (omega arith) (omega (arith, so.bounded)) pos
        (P.grant_in_pos _ _ _ granted pos) (P.grant_in_le _ _ _ granted).0
        (P.grant_in_le _ _ _ granted).1
  Move-Fine callers (fine_room_seen le tail near asks pos few fits) (p_cmpxchg_fails ne) =
      fine_entering asks
  Move-Fine callers (fine_room_seen {xs} {h} {t} {m} le tail near asks pos few fits)
        (p_cmpxchg same lt) =
      fine_storing (omega (arith, length-take m xs)) (omega (arith, so.filled, here))
        (omega (arith, length-take m xs, here)) (omega arith)
        (λ x lt'.
          ap (λ a. place s.placed s.p_head (take m xs) (a + x)) (sym here)
          ∙ place_from s.placed s.p_head (take m xs) x)
        (λ x none. absurd (omega arith))
    where
      here : s.p_head ≡ h
      here = same_count s.p_head h same le lt
  Move-Fine callers (fine_storing {xs} {h} {k} pos tail head some_stored put there) (store lt) =
      fine_storing pos tail head (omega arith) put (λ x lt'. elim (ℕ_discrete x k) [
        | yes e ↦ rw e (store_here xs h k lt tail head)
        | no ne ↦
            store_there xs h k lt tail head (h + x) (omega (arith, so.emptied, so.taken))
              (omega arith) (omega arith)
            ∙ there x (omega arith)
      ])
  Move-Fine callers (fine_storing {xs} {h} pos tail head some_stored put there)
        (p_wait_over e same) =
      fine_p_turn pos (sym (in_turn h tail (omega arith) same)) head put
        (λ x lt. there x (omega arith))
  Move-Fine callers fi p_publish = fine_idle
  Move-Fine callers fi (dequeue rests n asks) = fine_leaving (callers _ asks)
  Move-Fine callers (fine_leaving pos) read_c_head = fine_c_head_read pos (omega arith)
  Move-Fine callers fi (none_there refused) = fine_idle
  Move-Fine callers (fine_c_head_read pos le) (some_there granted) =
      fine_some_seen le (omega (arith, so.taken)) (omega arith) pos
        (P.grant_out_pos _ _ _ granted pos) (P.grant_out_le _ _ _ granted).0
        (P.grant_out_le _ _ _ granted).1
  Move-Fine callers (fine_some_seen le near tail asks pos few fits) (c_cmpxchg_fails ne) =
      fine_leaving asks
  Move-Fine callers (fine_some_seen {n} {h} {t} {m} le near tail asks pos few fits)
        (c_cmpxchg same lt) =
      fine_loading pos (omega (arith, so.emptied, here)) (omega (arith, here)) (omega arith)
        (λ x none. absurd (omega arith))
    where
      here : s.c_head ≡ h
      here = same_count s.c_head h same le lt
  Move-Fine callers (fine_loading {m} {h} {ys} pos tail head loaded got) (load lt) =
      fine_loading pos tail head (omega (arith, length-snoc ys v)) (λ x lt'.
        elim (ℕ_discrete x (length ys)) [
          | yes e ↦ rw e (get_or-snoc_last ys v ∙ loaded_here)
          | no ne ↦
              get_or-snoc_lt ys v x (omega (arith, length-snoc ys v))
              ∙ got x (omega (arith, length-snoc ys v))
        ])
    where
      v : Ptr
      v = get_or s.ring (slot_of P h (length ys)) 0

      loaded_here : v ≡ s.placed (h + length ys)
      loaded_here =
          ap (λ i. get_or s.ring i 0) (slot_of-mod P h (length ys))
          ∙ so.written (h + length ys) (omega arith) (omega (arith, so.taken))
  Move-Fine callers (fine_loading {m} {h} {ys} pos tail head loaded got) (c_wait_over all same) =
      fine_c_turn (omega arith) (sym (out_turn h tail (omega arith) same)) (omega arith) got
  Move-Fine callers (fine_c_turn pos at head got) c_publish = fine_returned (omega arith) got
