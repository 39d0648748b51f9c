-- ===== src/Mpmc/Invariant.antt =====
-- What holds in every reachable state of the concurrent queue.
use prototype_kernel.Base.{ℕ, ◌+◌, ◌%◌, ◌^◌, ◌≤◌, ◌<◌, ◌≡◌, ◌≢◌, ◌⊎◌, List, length, get_or}
use prototype_kernel.Base.Words.{add32, sub32}
use prototype_kernel.Copy.Slots.{Ptr}
use prototype_kernel.Mpmc.Protocol.{Protocol, word}
use prototype_kernel.Mpmc.System.{
  Shared, Pc, idle, entering, p_head_read, room_seen, storing, p_turn, leaving, c_head_read,
  some_seen, loading, c_turn, returned, System,
}

-- The positions that a thread has reserved: where they start, and how many they are.
abbrev pub in_region : Pc → ℕ × ℕ
in_region (storing xs h k) = (h, length xs)
in_region (p_turn xs h) = (h, length xs)
in_region p = (0, 0)

abbrev pub out_region : Pc → ℕ × ℕ
out_region (loading m h ys) = (h, m)
out_region (c_turn h ys) = (h, length ys)
out_region (returned h ys) = (h, length ys)
out_region p = (0, 0)

-- Those of a dequeue that has not returned, and how many of its stores an enqueue has done.
abbrev pub load_region : Pc → ℕ × ℕ
load_region (loading m h ys) = (h, m)
load_region (c_turn h ys) = (h, length ys)
load_region p = (0, 0)

abbrev pub stored : Pc → ℕ
stored (storing xs h k) = k
stored (p_turn xs h) = length xs
stored p = 0

-- Two ranges of positions without a common one.
abbrev pub Apart : ℕ × ℕ → ℕ × ℕ → Type 0
Apart r q = (r.0 + r.1 ≤ q.0) ⊎ (q.0 + q.1 ≤ r.0)

pub record Clear (p q : Pc) : Type 0 where
  pub ins : Apart (in_region p) (in_region q)
  pub outs : Apart (out_region p) (out_region q)

module _ (P : Protocol) (s : Shared) where
  -- The counters are in order, and every published position that is not given back yet has its element in
  -- its slot.
  pub record Sound : Type 0 where
    pub emptied : s.c_tail ≤ s.c_head
    pub taken : s.c_head ≤ s.p_tail
    pub filled : s.p_tail ≤ s.p_head
    pub bounded : s.p_head ≤ s.c_tail + P.capacity
    pub slots : length s.ring ≡ 2 ^ P.log
    pub written :
        (k : ℕ) → s.c_tail ≤ k → k < s.p_tail → get_or s.ring (k % 2 ^ P.log) 0 ≡ s.placed k

  -- What a thread's local variables say of the queue.
  pub data Fine : Pc → Type 0 where
    fine_idle : Fine idle
    fine_entering : {xs : List Ptr} → 0 < length xs → Fine (entering xs)
    fine_p_head_read :
        {xs : List Ptr} {h : ℕ} → 0 < length xs → h ≤ s.p_head → Fine (p_head_read xs h)
    fine_room_seen :
        {xs : List Ptr} {h t m : ℕ}
        → h ≤ s.p_head
        → t ≤ s.c_tail
        → h ≤ t + P.capacity
        → 0 < length xs
        → 0 < m
        → m ≤ length xs
        → m ≤ sub32 (add32 P.capacity (word t)) (word h)
        → Fine (room_seen xs h t m)
    fine_storing :
        {xs : List Ptr} {h k : ℕ}
        → 0 < length xs
        → s.p_tail ≤ h
        → h + length xs ≤ s.p_head
        → k ≤ length xs
        → ((x : ℕ) → x < length xs → s.placed (h + x) ≡ get_or xs x 0)
        → ((x : ℕ) → x < k → get_or s.ring ((h + x) % 2 ^ P.log) 0 ≡ get_or xs x 0)
        → Fine (storing xs h k)
    fine_p_turn :
        {xs : List Ptr} {h : ℕ}
        → 0 < length xs
        → s.p_tail ≡ h
        → h + length xs ≤ s.p_head
        → ((x : ℕ) → x < length xs → s.placed (h + x) ≡ get_or xs x 0)
        → ((x : ℕ) → x < length xs → get_or s.ring ((h + x) % 2 ^ P.log) 0 ≡ get_or xs x 0)
        → Fine (p_turn xs h)
    fine_leaving : {n : ℕ} → 0 < n → Fine (leaving n)
    fine_c_head_read : {n h : ℕ} → 0 < n → h ≤ s.c_head → Fine (c_head_read n h)
    fine_some_seen :
        {n h t m : ℕ}
        → h ≤ s.c_head
        → h ≤ t
        → t ≤ s.p_tail
        → 0 < n
        → 0 < m
        → m ≤ n
        → m ≤ sub32 (word t) (word h)
        → Fine (some_seen n h t m)
    fine_loading :
        {m h : ℕ} {ys : List Ptr}
        → 0 < m
        → s.c_tail ≤ h
        → h + m ≤ s.c_head
        → length ys ≤ m
        → ((x : ℕ) → x < length ys → get_or ys x 0 ≡ s.placed (h + x))
        → Fine (loading m h ys)
    fine_c_turn :
        {h : ℕ} {ys : List Ptr}
        → 0 < length ys
        → s.c_tail ≡ h
        → h + length ys ≤ s.c_head
        → ((x : ℕ) → x < length ys → get_or ys x 0 ≡ s.placed (h + x))
        → Fine (c_turn h ys)
    fine_returned :
        {h : ℕ} {ys : List Ptr}
        → h + length ys ≤ s.c_tail
        → ((x : ℕ) → x < length ys → get_or ys x 0 ≡ s.placed (h + x))
        → Fine (returned h ys)

pub record Inv (P : Protocol) (s : System) : Type 0 where
  pub sound : Sound P s.mem
  pub fine : (i : ℕ) → Fine P s.mem (s.pc i)
  pub clear : (i j : ℕ) → i ≢ j → Clear (s.pc i) (s.pc j)
