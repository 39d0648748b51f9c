-- ===== src/RingQueue/Calls.antt =====
-- The exported calls of a ring_queue on a ring at rest, and its watermark.
use prototype_kernel.Base.{
  ℕ, suc, ◌+◌, ◌≤◌, ◌<◌, ◌≡◌, ◌⊎◌, inl, inr, refl, arith, List, [], ◌∷◌, some, length, take, true,
  false, leb, le→leb, gt→leb, leb→le, Bool-cases, if◌then◌else◌, Bool, ◌==◌, eq→==, ne→==, ◌++◌,
}
use prototype_kernel.Copy.Slots.{Ptr}
use prototype_kernel.RingQueue.State.{
  RingQueue, fixed, variable, zero_ret, einval, enobufs, ring_queue_set_water_mark,
}
use prototype_kernel.RingQueue.Ops.{sp_do_enqueue, sc_do_dequeue}
use prototype_kernel.RingQueue.Api.{
  enqueue_bulk, enqueue_burst, enqueue, dequeue_bulk, dequeue_burst, dequeue,
}
use prototype_kernel.RingQueue.Spec.{enqueue_spec}
use prototype_kernel.RingQueue.Valid.{IsValid, contents, size_lem}
use prototype_kernel.RingQueue.Enqueue.{sp_do_enqueue-Refines}
use prototype_kernel.RingQueue.Solo.{mp_do_enqueue-sp_do_enqueue, mc_do_dequeue-sc_do_dequeue}

either {ℓ} : {A : Type ℓ} (b : Bool) (x y : A) → y ≡ x → (if b then x else y) ≡ x
either true x y e = refl
either false x y e = e

-- Whatever the flags of a ring at rest choose, single or multi producers and consumers, each
-- dispatching call gives what the single variant gives: the bulk and the one-object calls with fixed
-- behavior, the burst calls with variable behavior.
pub calls_dispatch :
    {r : RingQueue} (v : IsValid r) (fuel : ℕ) (table : List Ptr) (obj : Ptr) (n : ℕ)
    → (enqueue_bulk (suc fuel) r table n ≡ sp_do_enqueue r table n fixed)
      × (enqueue_burst (suc fuel) r table n ≡ sp_do_enqueue r table n variable)
      × (enqueue (suc fuel) r obj ≡ sp_do_enqueue r (obj ∷ []) 1 fixed)
      × (dequeue_bulk (suc fuel) r table n ≡ sc_do_dequeue r table n fixed)
      × (dequeue_burst (suc fuel) r table n ≡ sc_do_dequeue r table n variable)
      × (dequeue (suc fuel) r obj ≡ sc_do_dequeue r (obj ∷ []) 1 fixed)
unfolding enqueue_bulk enqueue_burst enqueue dequeue_bulk dequeue_burst dequeue
calls_dispatch {r} v fuel table obj n = (
  either r.prod.sp_enqueue _ _ (mp_do_enqueue-sp_do_enqueue v fuel table n fixed),
  either r.prod.sp_enqueue _ _ (mp_do_enqueue-sp_do_enqueue v fuel table n variable),
  either r.prod.sp_enqueue _ _ (mp_do_enqueue-sp_do_enqueue v fuel (obj ∷ []) 1 fixed),
  either r.cons.sc_dequeue _ _ (mc_do_dequeue-sc_do_dequeue v fuel table n fixed),
  either r.cons.sc_dequeue _ _ (mc_do_dequeue-sc_do_dequeue v fuel table n variable),
  either r.cons.sc_dequeue _ _ (mc_do_dequeue-sc_do_dequeue v fuel (obj ∷ []) 1 fixed),
)

with_watermark : RingQueue → ℕ → RingQueue
with_watermark r w = record r { prod = record (r.prod) { watermark = w } }

with_watermark-IsValid : {r : RingQueue} (v : IsValid r) (w : ℕ) → IsValid (with_watermark r w)
unfolding with_watermark
with_watermark-IsValid v w = record {
  sized = record {
    log = v.sized.log;
    small = v.sized.small;
    prod_power = v.sized.prod_power;
    cons_power = v.sized.cons_power;
    ones = v.sized.ones;
    slots = v.sized.slots;
  };
  enqueued = v.enqueued;
  dequeued = v.dequeued;
  prod_word = v.prod_word;
  cons_word = v.cons_word;
  bounded = v.bounded;
}

-- Setting the watermark of a ring at rest keeps it valid and keeps its elements. A watermark from
-- the size on is refused and leaves the ring as it is; 0 sets it to the size, and any other value
-- below the size is taken as it is.
pub ring_queue_set_water_mark_lem :
    {r : RingQueue} (v : IsValid r) (n : ℕ)
    → let result = ring_queue_set_water_mark r n in
      IsValid (result.1)
      × (contents (result.1) ≡ contents r)
      × (r.prod.size ≤ n → result ≡ (einval, r))
      × (n ≡ 0 → (result.0 ≡ zero_ret) × (result.1.prod.watermark ≡ r.prod.size))
      × (0 < n → n < r.prod.size → (result.0 ≡ zero_ret) × (result.1.prod.watermark ≡ n))
unfolding ring_queue_set_water_mark with_watermark
ring_queue_set_water_mark_lem {r} v n = (
  elim (Bool-cases (leb r.prod.size n)) [
    | inl e ↦ rw e v
    | inr e ↦ rw e (with_watermark-IsValid v (if n == 0 then r.prod.size else n))
  ],
  elim (Bool-cases (leb r.prod.size n)) [ inl e ↦ rw e | inr e ↦ rw e refl ],
  (λ le. rw (le→leb r.prod.size n le)),
  (λ e. rw (gt→leb r.prod.size n (omega (arith, (size_lem v.sized).0)), eq→== n 0 e) (refl, refl)),
  (λ pos lt. rw (gt→leb r.prod.size n lt, ne→== n 0 (λ e. omega arith)) (refl, refl)),
)

-- With a watermark from the size on, as a ring is created with, a fixed enqueue on a ring at rest
-- never returns -EDQUOT: it returns 0 with all the objects in, or -ENOBUFS with nothing changed.
pub sp_do_enqueue_no_edquot :
    {r : RingQueue} (v : IsValid r) (table : List Ptr) (n : ℕ)
    → n ≤ length table
    → r.prod.size ≤ r.prod.watermark
    → (s : RingQueue) × ((sp_do_enqueue r table n fixed ≡ some (zero_ret, s))
          × (contents s ≡ contents r ++ take n table)
        ⊎ (sp_do_enqueue r table n fixed ≡ some (enobufs, s)) × (contents s ≡ contents r))
unfolding enqueue_spec
sp_do_enqueue_no_edquot {r} v table n given high =
    let (s, got, left, valid) = sp_do_enqueue-Refines v table n fixed given in
    elim (Bool-cases (leb (length (contents r) + length (take n table)) r.prod.mask)) [
      | inl fits ↦
          let low =
            gt→leb r.prod.watermark (length (contents r) + length (take n table))
              (omega (arith, leb→le _ _ fits, size_lem v.sized)) in
          (s, inl (rw (fits, low) at got, rw fits at left))
      | inr full ↦ (s, inr (rw full at got, rw full at left))
    ]
