-- ===== src/RingQueue/Create.antt =====
-- What `ring_queue_create` hands out, and the tests of a ring at rest.
use prototype_kernel.Base.{
  ℕ, ◌-◌, ◌^◌, ◌≤◌, ◌<◌, ◌≡◌, refl, sym, ap, ap₂, ◌∙◌, ◌↔◌, arith, List, [], Option, some, length,
  true, bit_and, ◌==◌, ==_iff, eq→==,
}
use prototype_kernel.Base.Words.{sub32, bit_and_pred, bit_and_mask, complement-mod}
use prototype_kernel.Copy.Slots.{Ptr, window}
use prototype_kernel.RingQueue.State.{
  RingQueue, powerof2, flag_set, sz_mask, ring_queue_create, ring_queue_full, ring_queue_empty,
  ring_queue_count, ring_queue_free_count,
}
use prototype_kernel.RingQueue.Valid.{IsValid, in_use, contents}
use prototype_kernel.RingQueue.Entered.{length-contents, in_use_le}
use native.Mathlib.Nat.{pow-le-pow_right, one-le-pow, mod-eq_of_lt}
use native.Mathlib.Decide.{dec_le}

log_le : (k : ℕ) → 2 ^ k ≤ sz_mask → k ≤ 28
log_le k h = elim (dec_le k 28) [
  | yes le ↦ le
  | no gt ↦
      absurd (omega (arith, pow-le-pow_right {n = 2} (omega arith) {i = 29} {j = k} (omega arith)))
]

-- POWEROF2 holds of nothing above 0 but the powers of two.
pub powerof2_sound : (n : ℕ) → 0 < n → n < 2 ^ 32 → powerof2 n ≡ true → (k : ℕ) × (n ≡ 2 ^ k)
unfolding powerof2
powerof2_sound n pos word e =
    bit_and_pred n pos (ap (bit_and n) (omega arith) ∙ (==_iff (bit_and n (sub32 n 1)) 0).0 e)

-- A ring with `n` slots as the call hands it out.
abbrev pub fresh : ℕ → ℕ → List Ptr → RingQueue
fresh n flags ring = record {
  flags = flags;
  prod = record {
    watermark = n;
    sp_enqueue = flag_set flags 1;
    size = n;
    mask = sub32 n 1;
    head = 0;
    tail = 0;
  };
  cons = record { sc_dequeue = flag_set flags 2; size = n; mask = sub32 n 1; head = 0; tail = 0 };
  ring = ring;
}

module _ (alloc_pages : ℕ → Option (List Ptr))
    (granted : (n : ℕ) (ring : List Ptr) → alloc_pages n ≡ some ring → length ring ≡ n) where
  create_inversion :
      (n flags : ℕ) (r : RingQueue)
      → ring_queue_create alloc_pages n flags ≡ some r
      → (ring : List Ptr) × (alloc_pages n ≡ some ring)
        × (powerof2 n ≡ true)
        × (n ≤ sz_mask)
        × (r ≡ fresh n flags ring)
  unfolding ring_queue_create
  create_inversion n flags r e = ground arith

  -- With pages granted as asked for, a ring created with a positive count has that size, which is a
  -- power of two; it is valid and empty, its watermark is the size, and its flags choose the
  -- single-producer and single-consumer calls.
  pub ring_queue_create-IsValid :
      (n flags : ℕ) (r : RingQueue)
      → 0 < n
      → n < 2 ^ 32
      → ring_queue_create alloc_pages n flags ≡ some r
      → (r.prod.size ≡ n)
        × IsValid r
        × (contents r ≡ [])
        × (r.prod.watermark ≡ n)
        × (r.prod.sp_enqueue ≡ flag_set flags 1)
        × (r.cons.sc_dequeue ≡ flag_set flags 2)
  ring_queue_create-IsValid n flags r pos word e =
      let (ring, got, power, le, is_fresh) = create_inversion n flags r e in
      let (k, pow) = powerof2_sound n pos word power in
      rw is_fresh (
        refl,
        record {
          sized = record {
            log = k;
            small = log_le k (omega arith);
            prod_power = pow;
            cons_power = pow;
            ones = omega (arith, one-le-pow k 2);
            slots = granted n ring got;
          };
          enqueued = refl;
          dequeued = refl;
          prod_word = omega arith;
          cons_word = omega arith;
          bounded = omega arith;
        },
        refl,
        refl,
        refl,
        refl,
      )

module _ {r : RingQueue} (v : IsValid r) where
  count_lem : ring_queue_count r ≡ length (contents r)
  unfolding ring_queue_count
  count_lem =
      ap (bit_and (in_use r)) v.sized.ones
      ∙ bit_and_mask v.sized.log (in_use r)
      ∙ mod-eq_of_lt (omega (arith, in_use_le v, v.sized.ones, one-le-pow v.sized.log 2))
      ∙ sym (length-contents v)

  free_lem :
      bit_and (sub32 (sub32 r.cons.tail r.prod.tail) 1) r.prod.mask
      ≡ r.prod.mask - length (contents r)
  free_lem =
      ap₂ bit_and rest v.sized.ones
      ∙ bit_and_mask v.sized.log (2 ^ 32 - 1 - in_use r)
      ∙ complement-mod v.sized.log (in_use r) (omega (arith, v.sized.small))
          (omega (arith, in_use_le v, v.sized.ones, one-le-pow v.sized.log 2))
      ∙ omega (arith, v.sized.ones, length-contents v)
    where
      rest : sub32 (sub32 r.cons.tail r.prod.tail) 1 ≡ 2 ^ 32 - 1 - in_use r
      rest = omega (arith, v.enqueued, v.dequeued, v.prod_word, v.cons_word)

-- The tests of a ring at rest tell the number of its elements; the capacity is the mask.
pub ring_queue_tests :
    {r : RingQueue} (v : IsValid r)
    → (ring_queue_count r ≡ length (contents r))
      × (ring_queue_free_count r ≡ r.prod.mask - length (contents r))
      × ((ring_queue_full r ≡ true) ↔ (length (contents r) ≡ r.prod.mask))
      × ((ring_queue_empty r ≡ true) ↔ (contents r ≡ []))
unfolding ring_queue_free_count ring_queue_full ring_queue_empty
ring_queue_tests {r} v = (
  count_lem v,
  free_lem v,
  (
    (λ e. omega (arith, free_lem v, (==_iff free 0).0 e, length-contents v, in_use_le v)),
    (λ e. eq→== free 0 (omega (arith, free_lem v, e))),
  ),
  (
    (λ e. ap (window r.ring r.prod.size r.cons.tail) (nothing e)),
    (λ e. eq→== r.cons.tail r.prod.tail (tails e)),
  ),
)
  where
    free : ℕ
    free = bit_and (sub32 (sub32 r.cons.tail r.prod.tail) 1) r.prod.mask

    nothing : r.cons.tail == r.prod.tail ≡ true → in_use r ≡ 0
    nothing e =
        let same : r.cons.tail ≡ r.prod.tail = (==_iff r.cons.tail r.prod.tail).0 e in
        omega (arith, v.enqueued, v.dequeued, v.prod_word)

    tails : contents r ≡ [] → r.cons.tail ≡ r.prod.tail
    tails e =
        omega
          (arith, ap length e, length-contents v, v.enqueued, v.dequeued, v.prod_word, v.cons_word)
