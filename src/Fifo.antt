-- ===== src/Fifo.antt =====
-- What a bounded queue of pointers promises: a list, oldest element first, and bulk operations.
use prototype_kernel.Base.{ℕ, ◌+◌, List, ◌++◌, leb, if◌then◌else◌, length, take, drop, min}
use prototype_kernel.Copy.Slots.{Ptr}

abbrev pub Fifo : Type 0
Fifo = List Ptr

-- All of `xs` or nothing; the number of elements taken in.
unfoldable pub enqueue_bulk : ℕ → Fifo → List Ptr → ℕ × Fifo
enqueue_bulk cap f xs = if leb (length f + length xs) cap then (length xs, f ++ xs) else (0, f)

-- Up to `n` elements: their number, the elements, and the rest.
unfoldable pub dequeue_upto : Fifo → ℕ → ℕ × List Ptr × Fifo
dequeue_upto f n = (min (length f) n, take n f, drop n f)
