-- ===== src/RingQueue/State.antt =====
-- `struct ring_queue`, its creation and its tests: kernel/include/linux/ring_queue.h and
-- kernel/lib/ring_queue.c.
use prototype_kernel.Base.{
  ℕ, List, Option, none, some, Bool, not, ◌||◌, bit_and, ltb, leb, ◌==◌, if◌then◌else◌,
}
use prototype_kernel.Base.Words.{sub32}
use prototype_kernel.Copy.Slots.{Ptr}

pub record Prod : Type 0 where
  pub watermark : ℕ
  pub sp_enqueue : Bool
  pub size : ℕ
  pub mask : ℕ
  pub head : ℕ
  pub tail : ℕ

pub record Cons : Type 0 where
  pub sc_dequeue : Bool
  pub size : ℕ
  pub mask : ℕ
  pub head : ℕ
  pub tail : ℕ

-- `struct ring_queue`
pub record RingQueue : Type 0 where
  pub flags : ℕ
  pub prod : Prod
  pub cons : Cons
  pub ring : List Ptr

-- The integers that the operations return: `0`, a number of elements, a number with the bit
-- RING_QUEUE_QUOT_EXCEED, or an error code with its sign changed.
pub data Ret : Type 0 where
  zero_ret : Ret
  count : ℕ → Ret
  quot_exceed : ℕ → Ret
  edquot enobufs enoent einval : Ret

-- `enum ring_queue_queue_behavior`
pub data Behavior : Type 0 where
  fixed variable : Behavior

-- `POWEROF2(x)`
unfoldable pub powerof2 : ℕ → Bool
powerof2 x = bit_and x (sub32 x 1) == 0

-- RING_QUEUE_SZ_MASK
abbrev pub sz_mask : ℕ
sz_mask = 0x0fffffff

-- `!!(flags & bit)`
abbrev pub flag_set : ℕ → ℕ → Bool
flag_set flags bit = not (bit_and flags bit == 0)

-- `ring_queue_create`. The pages that alloc_pages_exact hands out hold the header and `count` slots,
-- all zero.
module _ (alloc_pages : ℕ → Option (List Ptr)) where
  unfoldable pub ring_queue_create : ℕ → ℕ → Option RingQueue
  unfolding powerof2
  ring_queue_create n flags =
      if not (powerof2 n) || ltb sz_mask n then none else elim (alloc_pages n) [
        | none ↦ none
        | some ring ↦ some (record {
          flags = flags;
          prod = record {
            watermark = n;
            sp_enqueue = flag_set flags 1;
            size = n;
            mask = sub32 n 1;
            head = 0;
            tail = 0;
          };
          cons = record {
            sc_dequeue = flag_set flags 2;
            size = n;
            mask = sub32 n 1;
            head = 0;
            tail = 0;
          };
          ring = ring;
        })
      ]

-- `ring_queue_set_water_mark`
unfoldable pub ring_queue_set_water_mark : RingQueue → ℕ → Ret × RingQueue
ring_queue_set_water_mark r n = if leb r.prod.size n then (einval, r) else (
  zero_ret,
  record r { prod = record (r.prod) { watermark = if n == 0 then r.prod.size else n } },
)

unfoldable pub ring_queue_full : RingQueue → Bool
ring_queue_full r = bit_and (sub32 (sub32 r.cons.tail r.prod.tail) 1) r.prod.mask == 0

unfoldable pub ring_queue_empty : RingQueue → Bool
ring_queue_empty r = r.cons.tail == r.prod.tail

unfoldable pub ring_queue_count : RingQueue → ℕ
ring_queue_count r = bit_and (sub32 r.prod.tail r.cons.tail) r.prod.mask

unfoldable pub ring_queue_free_count : RingQueue → ℕ
ring_queue_free_count r = bit_and (sub32 (sub32 r.cons.tail r.prod.tail) 1) r.prod.mask
