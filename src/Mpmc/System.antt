-- ===== src/Mpmc/System.antt =====
-- Threads that enqueue and dequeue in any order, one shared access at a time. The counters are
-- numbers that do not wrap, and the code sees their words. Memory is sequentially consistent.
use prototype_kernel.Base.{
  ℕ, ◌+◌, ◌-◌, ◌^◌, ◌<◌, ◌≡◌, ◌≢◌, List, [], ◌∷◌, ◌++◌, length, take, get_or, set, ltb, ◌==◌,
  if◌then◌else◌,
}
use prototype_kernel.Base.Words.{add32, sub32}
use prototype_kernel.Copy.Slots.{Ptr}
use prototype_kernel.Mpmc.Protocol.{Protocol, word, slot_of}

-- The queue, and with it `placed`, which no code reads: the element that each position was reserved
-- for.
pub record Shared : Type 0 where
  pub p_head : ℕ
  pub p_tail : ℕ
  pub c_head : ℕ
  pub c_tail : ℕ
  pub ring : List Ptr
  pub placed : ℕ → Ptr

-- Where a thread stands, with the local variables that are live there.
pub data Pc : Type 0 where
  idle : Pc
  -- an enqueue of the elements: at the top of its loop; after the read of the head; after the read of
  -- the consumer's tail and the test, with the number to move
  entering : (xs : List Ptr) → Pc
  p_head_read : (xs : List Ptr) (h : ℕ) → Pc
  room_seen : (xs : List Ptr) (h t m : ℕ) → Pc
  -- the elements go to the positions from `h` on, and `k` of them are stored
  storing : (xs : List Ptr) (h k : ℕ) → Pc
  -- its wait is over, and it is about to write the tail
  p_turn : (xs : List Ptr) (h : ℕ) → Pc
  -- a dequeue of `n`: at the top of its loop; after the read of the head; after the read of the
  -- producer's tail and the test
  leaving : (n : ℕ) → Pc
  c_head_read : (n h : ℕ) → Pc
  some_seen : (n h t m : ℕ) → Pc
  -- `m` elements come from the positions from `h` on, and `ys` are loaded
  loading : (m h : ℕ) (ys : List Ptr) → Pc
  c_turn : (h : ℕ) (ys : List Ptr) → Pc
  -- a dequeue has returned `ys`, from the positions from `h` on
  returned : (h : ℕ) (ys : List Ptr) → Pc

-- A thread that is in no call.
pub data Rests : Pc → Type 0 where
  rests_idle : Rests idle
  rests_returned : {h : ℕ} {ys : List Ptr} → Rests (returned h ys)

-- The elements that the positions from `h` on are reserved for.
abbrev pub place : (ℕ → Ptr) → ℕ → List Ptr → ℕ → Ptr
place f h xs k = if ltb k h then f k else get_or xs (k - h) 0

-- One step of one thread. A call may ask for any number of elements that the protocol lets through,
-- none included where the code has no guard against it. A cmpxchg compares words; the premise
-- beside it says that fewer than 2 ^ 32 elements went by since the head was read, without which the
-- same word may be another count.
module _ (P : Protocol) where
  pub data Move (s : Shared) : Pc → Shared → Pc → Type 0 where
    enqueue : {p : Pc} → Rests p → (xs : List Ptr) → P.Asks (length xs) → Move s p s (entering xs)
    read_p_head : {xs : List Ptr} → Move s (entering xs) s (p_head_read xs s.p_head)
    no_room :
        {xs : List Ptr} {h : ℕ}
        → P.RefuseIn (length xs) (sub32 (add32 P.capacity (word s.c_tail)) (word h))
        → Move s (p_head_read xs h) s idle
    room :
        {xs : List Ptr} {h m : ℕ}
        → P.GrantIn (length xs) (sub32 (add32 P.capacity (word s.c_tail)) (word h)) m
        → Move s (p_head_read xs h) s (room_seen xs h s.c_tail m)
    p_cmpxchg_fails :
        {xs : List Ptr} {h t m : ℕ}
        → word s.p_head ≢ word h
        → Move s (room_seen xs h t m) s (entering xs)
    p_cmpxchg :
        {xs : List Ptr} {h t m : ℕ}
        → word s.p_head ≡ word h
        → s.p_head < h + 2 ^ 32
        → Move s
            (room_seen xs h t m)
            (record s { p_head = s.p_head + m; placed = place s.placed s.p_head (take m xs) })
            (storing (take m xs) h 0)
    store :
        {xs : List Ptr} {h k : ℕ}
        → k < length xs
        → Move s
            (storing xs h k)
            (record s { ring = set s.ring (slot_of P h k) (get_or xs k 0) })
            (storing xs h (k + 1))
    p_wait_over :
        {xs : List Ptr} {h k : ℕ}
        → k ≡ length xs
        → word s.p_tail ≡ word h
        → Move s (storing xs h k) s (p_turn xs h)
    p_publish :
        {xs : List Ptr} {h : ℕ} → Move s (p_turn xs h) (record s { p_tail = h + length xs }) idle
    dequeue : {p : Pc} → Rests p → (n : ℕ) → P.Asks n → Move s p s (leaving n)
    read_c_head : {n : ℕ} → Move s (leaving n) s (c_head_read n s.c_head)
    none_there :
        {n h : ℕ} → P.RefuseOut n (sub32 (word s.p_tail) (word h)) → Move s (c_head_read n h) s idle
    some_there :
        {n h m : ℕ}
        → P.GrantOut n (sub32 (word s.p_tail) (word h)) m
        → Move s (c_head_read n h) s (some_seen n h s.p_tail m)
    c_cmpxchg_fails :
        {n h t m : ℕ} → word s.c_head ≢ word h → Move s (some_seen n h t m) s (leaving n)
    c_cmpxchg :
        {n h t m : ℕ}
        → word s.c_head ≡ word h
        → s.c_head < h + 2 ^ 32
        → Move s (some_seen n h t m) (record s { c_head = s.c_head + m }) (loading m h [])
    load :
        {m h : ℕ} {ys : List Ptr}
        → length ys < m
        → Move s
            (loading m h ys)
            s
            (loading m h (ys ++ get_or s.ring (slot_of P h (length ys)) 0 ∷ []))
    c_wait_over :
        {m h : ℕ} {ys : List Ptr}
        → length ys ≡ m
        → word s.c_tail ≡ word h
        → Move s (loading m h ys) s (c_turn h ys)
    c_publish :
        {h : ℕ} {ys : List Ptr}
        → Move s (c_turn h ys) (record s { c_tail = h + length ys }) (returned h ys)

-- `n` threads over one queue.
pub record System : Type 0 where
  pub mem : Shared
  pub pc : ℕ → Pc

abbrev pub update : (ℕ → Pc) → ℕ → Pc → ℕ → Pc
update f i p j = if i == j then p else f j

module _ (P : Protocol) (threads : ℕ) where
  pub data Step (s : System) : System → Type 0 where
    pick :
        (i : ℕ) {m : Shared} {p : Pc}
        → i < threads
        → Move P s.mem (s.pc i) m p
        → Step s (record { mem = m; pc = update s.pc i p })

  -- A new queue, with all slots free and every thread idle.
  abbrev pub start : List Ptr → System
  start ring = record {
    mem = record { p_head = 0; p_tail = 0; c_head = 0; c_tail = 0; ring = ring; placed = λ _. 0 };
    pc = λ _. idle;
  }

  pub data Reach (ring : List Ptr) : System → Type 0 where
    initial : Reach ring (start ring)
    later : {s t : System} → Reach ring s → Step s t → Reach ring t
