-- ===== src/RingQueue/Spec.antt =====
-- What the operations of a ring_queue promise, on the FIFO of its elements.
use prototype_kernel.Base.{
  ℕ, [], ◌+◌, ◌-◌, List, ◌++◌, length, take, drop, min, leb, ◌==◌, not, ◌&&◌, if◌then◌else◌,
}
use prototype_kernel.Copy.Slots.{Ptr}
use prototype_kernel.Fifo.{Fifo}
use prototype_kernel.RingQueue.State.{
  Ret, zero_ret, count, quot_exceed, edquot, enobufs, enoent, Behavior, fixed, variable,
}

-- Fixed: all of `xs` or nothing. Variable: as much of `xs` as fits; a call that finds the queue full
-- returns 0. Once the queue holds `watermark` elements, the call says so.
unfoldable pub enqueue_spec : ℕ → ℕ → Behavior → Fifo → List Ptr → Ret × Fifo
enqueue_spec cap watermark fixed f xs =
    if leb (length f + length xs) cap
    then (if leb watermark (length f + length xs) then edquot else zero_ret, f ++ xs)
    else (enobufs, f)
enqueue_spec cap watermark variable f xs =
    let m = min (length xs) (cap - length f) in
    if leb cap (length f) && not (length xs == 0)
    then (count 0, f)
    else (if leb watermark (length f + m) then quot_exceed m else count m, f ++ take m xs)

-- Fixed: `n` elements or nothing. Variable: as many as there are, at most `n`.
unfoldable pub dequeue_spec : Behavior → Fifo → ℕ → Ret × List Ptr × Fifo
dequeue_spec fixed f n =
    if leb n (length f) then (zero_ret, take n f, drop n f) else (enoent, [], f)
dequeue_spec variable f n = (count (min (length f) n), take n f, drop n f)
