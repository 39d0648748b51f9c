-- ===== src/Mpmc/Alone.antt =====
-- A thread that no other disturbs: its steps, one after the other, and how they copy the elements.
use prototype_kernel.Base.{
  ℕ, Bool, true, false, zero, suc, ◌+◌, ◌%◌, ◌^◌, ◌≡◌, refl, sym, ap, ap₂, ◌∙◌, arith, List, [],
  ◌∷◌, ◌++◌, append-nil, append_assoc, length, take, drop, get_or, set,
}
use prototype_kernel.Copy.Slots.{Ptr, put_around, window, drop-cons}
use prototype_kernel.Mpmc.Protocol.{Protocol, slot_of}
use prototype_kernel.Mpmc.System.{Shared, Pc, idle, returned, Move, storing, loading, store, load}
use prototype_kernel.Mpmc.Positions.{slot_of-mod}
use prototype_kernel.Mpmc.Moves.{length-snoc}

-- Whether a thread is in a call.
abbrev pub in_call : Pc → Bool
in_call idle = false
in_call (returned h ys) = false
in_call p = true

module _ (P : Protocol) where
  -- Steps of one call, which has not ended.
  pub data Alone : Shared → Pc → Shared → Pc → Type 0 where
    done : {s : Shared} {p : Pc} → Alone s p s p
    first :
        {s t u : Shared} {p q r : Pc}
        → Move P s p t q
        → in_call q ≡ true
        → Alone t q u r
        → Alone s p u r

  -- A whole call, alone: from where it stands to its end.
  pub data Call (s : Shared) (p : Pc) : Shared → Pc → Type 0 where
    ends :
        {t u : Shared} {q r : Pc}
        → Alone s p t q
        → Move P t q u r
        → in_call r ≡ false
        → Call s p u r

  pub Alone-append : {s t u : Shared} {p q r : Pc} → Alone s p t q → Alone t q u r → Alone s p u r
  Alone-append done more = more
  Alone-append (first mv busy rest) more = first mv busy (Alone-append rest more)

  -- The same run, to another way to write where it ends.
  pub Alone-to : {s t u : Shared} {p q r : Pc} → Alone s p t q → t ≡ u → q ≡ r → Alone s p u r
  Alone-to run e f = rw (sym e, sym f) run

  -- What is left to store goes to its slots.
  pub stores_alone :
      (xs : List Ptr) (h left k : ℕ) (s : Shared)
      → k + left ≡ length xs
      → Alone s
          (storing xs h k)
          (record s { ring = put_around (2 ^ P.log) (h + k) (take left (drop k xs)) s.ring })
          (storing xs h (length xs))
  stores_alone xs h zero k s e = Alone-to done refl (ap (storing xs h) (omega (arith, e)))
  stores_alone xs h (suc left) k s e =
      first (store (omega arith)) refl
        (Alone-to (stores_alone xs h left (k + 1) next (omega arith)) (ap placed_in same) refl)
    where
      next : Shared
      next = record s { ring = set s.ring (slot_of P h k) (get_or xs k 0) }

      placed_in : List Ptr → Shared
      placed_in ring = record s { ring = ring }

      same :
          put_around (2 ^ P.log) (h + (k + 1)) (take left (drop (k + 1) xs)) next.ring
          ≡ put_around (2 ^ P.log) (h + k) (take (suc left) (drop k xs)) s.ring
      same =
          rw (drop-cons xs k 0 (omega arith), slot_of-mod P h k)
            (ap₂
              (λ a i.
                put_around (2 ^ P.log) a (take left (drop i xs))
                  (set s.ring ((h + k) % 2 ^ P.log) (get_or xs k 0)))
              {y = h + k + 1} {v = suc k} (omega arith) (omega arith))

  -- What is left to load comes from its slots.
  pub loads_alone :
      (m h left : ℕ) (ys : List Ptr) (s : Shared)
      → length ys + left ≡ m
      → Alone s
          (loading m h ys)
          s
          (loading m h (ys ++ window s.ring (2 ^ P.log) (h + length ys) left))
  loads_alone m h zero ys s e = Alone-to done refl (ap (loading m h) (sym (append-nil ys)))
  loads_alone m h (suc left) ys s e = first (load (omega arith)) refl (
      Alone-to (loads_alone m h left (ys ++ v ∷ []) s (omega (arith, length-snoc ys v))) refl
        (ap (loading m h) same))
    where
      v : Ptr
      v = get_or s.ring (slot_of P h (length ys)) 0

      same :
          (ys ++ v ∷ []) ++ window s.ring (2 ^ P.log) (h + length (ys ++ v ∷ [])) left
          ≡ ys ++ window s.ring (2 ^ P.log) (h + length ys) (suc left)
      same =
          append_assoc ys (v ∷ []) _
          ∙ ap₂ (λ i a. ys ++ get_or s.ring i 0 ∷ window s.ring (2 ^ P.log) a left)
              (slot_of-mod P h (length ys)) (omega (arith, length-snoc ys v))
