-- ===== src/RingQueue/Enqueue.antt =====
-- The single-producer enqueue of a ring_queue at rest, against its specification.
use prototype_kernel.Base.{
  ℕ, ◌+◌, ◌-◌, ◌≤◌, ◌<◌, ◌≡◌, ◌≢◌, ◌⊎◌, inl, inr, and_false, refl, sym, ap, ◌∙◌, arith, List,
  Option, some, length, take, ◌++◌, ltb, leb, lt→ltb, ge→ltb, le→leb, gt→leb, eq→==, ne→==, min,
  length-take, take-take, if◌then◌else◌,
}
use prototype_kernel.Base.Words.{add32, sub32}
use prototype_kernel.Copy.Slots.{Ptr}
use prototype_kernel.RingQueue.State.{
  RingQueue, Ret, zero_ret, count, quot_exceed, edquot, enobufs, Behavior, fixed, variable,
}
use prototype_kernel.RingQueue.Ops.{sp_do_enqueue, move, give_up, limit, free_entries, enqueue_ret}
use prototype_kernel.RingQueue.Spec.{enqueue_spec}
use prototype_kernel.RingQueue.Valid.{IsValid, in_use, contents, size_lem}
use native.Mathlib.Decide.{dec_le, ℕ_discrete}
use prototype_kernel.RingQueue.Entered.{
  length-contents, in_use_le, free_entries_lem, entered, entered-IsValid, contents-entered,
  enqueue_ptrs-entered,
}

-- What the code compares with the watermark decides as `watermark <= length` does.
watermark_test : (watermark used : ℕ) → ltb watermark (used + 1) ≡ leb watermark used
watermark_test watermark used = ground arith

-- The result of an enqueue of `m` elements that fit.
module _ {r : RingQueue} (v : IsValid r) (m : ℕ) (fits : m ≤ r.prod.mask - in_use r) where
  full_enough :
      ltb r.prod.watermark (add32 (sub32 (add32 r.prod.mask 1) (r.prod.mask - in_use r)) m)
      ≡ leb r.prod.watermark (length (contents r) + m)
  full_enough =
      ap (ltb r.prod.watermark) (omega (arith, in_use_le v, size_lem v.sized, length-contents v))
      ∙ watermark_test r.prod.watermark (length (contents r) + m)

  enqueue_ret_fixed :
      enqueue_ret r fixed m (free_entries r)
      ≡ (if leb r.prod.watermark (length (contents r) + m) then edquot else zero_ret)
  unfolding enqueue_ret
  enqueue_ret_fixed = rw (free_entries_lem v) (ap (λ b. if b then edquot else zero_ret) full_enough)

  enqueue_ret_variable :
      enqueue_ret r variable m (free_entries r)
      ≡ (if leb r.prod.watermark (length (contents r) + m) then quot_exceed m else count m)
  unfolding enqueue_ret
  enqueue_ret_variable =
      rw (free_entries_lem v) (ap (λ b. if b then quot_exceed m else count m) full_enough)

-- What a call leaves behind meets the specification.
abbrev pub Refines : RingQueue → Option (Ret × RingQueue) → Behavior → List Ptr → Type 0
Refines r result behavior xs =
    let (ret, f) = enqueue_spec r.prod.mask r.prod.watermark behavior (contents r) xs in
    (s : RingQueue) × (result ≡ some (ret, s)) × (contents s ≡ f) × IsValid s

Refines-of :
    (r s : RingQueue) (result : Option (Ret × RingQueue)) (behavior : Behavior) (xs : List Ptr)
    (ret : Ret) (f : List Ptr)
    → enqueue_spec r.prod.mask r.prod.watermark behavior (contents r) xs ≡ (ret, f)
    → result ≡ some (ret, s)
    → contents s ≡ f
    → IsValid s
    → Refines r result behavior xs
Refines-of r s result behavior xs ret f spec got left valid =
    (s, got ∙ ap (λ p. some (p.0, s)) (sym spec), left ∙ ap (λ p. p.1) (sym spec), valid)

-- The specification, case by case.
module _ (cap watermark : ℕ) (f xs : List Ptr) where
  spec_fixed_fits :
      length f + length xs ≤ cap
      → enqueue_spec cap watermark fixed f xs
        ≡ (if leb watermark (length f + length xs) then edquot else zero_ret, f ++ xs)
  unfolding enqueue_spec
  spec_fixed_fits h = rw (le→leb (length f + length xs) cap h)

  spec_fixed_full :
      cap < length f + length xs → enqueue_spec cap watermark fixed f xs ≡ (enobufs, f)
  unfolding enqueue_spec
  spec_fixed_full h = rw (gt→leb (length f + length xs) cap h)

  spec_variable_none :
      cap ≤ length f → length xs ≢ 0 → enqueue_spec cap watermark variable f xs ≡ (count 0, f)
  unfolding enqueue_spec
  spec_variable_none h some_given = rw (le→leb cap (length f) h, ne→== (length xs) 0 some_given)

  spec_variable_some :
      (length f < cap) ⊎ (length xs ≡ 0)
      → let m = min (length xs) (cap - length f) in
        enqueue_spec cap watermark variable f xs
        ≡ (if leb watermark (length f + m) then quot_exceed m else count m, f ++ take m xs)
  unfolding enqueue_spec
  spec_variable_some (inl h) = rw (gt→leb cap (length f) h)
  spec_variable_some (inr e) = rw (eq→== (length xs) 0 e, and_false (leb cap (length f)))

module _ {r : RingQueue} (v : IsValid r) (table : List Ptr) (n : ℕ) (behavior : Behavior) where
  sp_move :
      (m : ℕ) (ret : Ret)
      → limit enobufs behavior n (r.prod.mask - in_use r) ≡ move m
      → m ≤ length table
      → m ≤ r.prod.mask - in_use r
      → enqueue_ret r behavior m (free_entries r) ≡ ret
      → sp_do_enqueue r table n behavior ≡ some (ret, entered v table m)
  unfolding sp_do_enqueue
  sp_move m ret lim given fits e =
      rw (ap (limit enobufs behavior n) (free_entries_lem v) ∙ lim, sp_do_enqueue)
        (enqueue_ptrs-entered v table m given fits (enqueue_ret r behavior m (free_entries r))
          ∙ ap (λ x. some (x, entered v table m)) e)

  sp_give_up :
      (ret : Ret)
      → limit enobufs behavior n (r.prod.mask - in_use r) ≡ give_up ret
      → sp_do_enqueue r table n behavior ≡ some (ret, r)
  unfolding sp_do_enqueue
  sp_give_up ret lim = rw (ap (limit enobufs behavior n) (free_entries_lem v) ∙ lim, sp_do_enqueue)

-- The number of elements to move, case by case.
module _ (error : Ret) (n free : ℕ) where
  pub limit_fits : (behavior : Behavior) → n ≤ free → limit error behavior n free ≡ move n
  unfolding limit
  limit_fits fixed h = rw (ge→ltb free n h)
  limit_fits variable h = rw (ge→ltb free n h)

  pub limit_fixed_full : free < n → limit error fixed n free ≡ give_up error
  unfolding limit
  limit_fixed_full h = rw (lt→ltb free n h)

  pub limit_variable_none : free < n → free ≡ 0 → limit error variable n free ≡ give_up (count 0)
  unfolding limit
  limit_variable_none h e = rw (lt→ltb free n h, eq→== free 0 e)

  pub limit_variable_part : free < n → free ≢ 0 → limit error variable n free ≡ move free
  unfolding limit
  limit_variable_part h e = rw (lt→ltb free n h, ne→== free 0 e)

module _ {r : RingQueue} (v : IsValid r) (table : List Ptr) (n : ℕ) (given : n ≤ length table) where
  taken : length (take n table) ≡ n
  taken = omega (arith, length-take n table)

  fixed-Refines : Refines r (sp_do_enqueue r table n fixed) fixed (take n table)
  fixed-Refines = elim (dec_le n (r.prod.mask - in_use r)) [
    | yes fits ↦
        Refines-of r (entered v table n) _ fixed (take n table) _ _
          (spec_fixed_fits r.prod.mask r.prod.watermark (contents r) (take n table)
              (omega (arith, taken, length-contents v, in_use_le v))
            ∙ ap
                (λ m. (
                  if leb r.prod.watermark (length (contents r) + m) then edquot else zero_ret,
                  contents r ++ take n table,
                ))
                taken)
          (sp_move v table n fixed n _ (limit_fits enobufs n (r.prod.mask - in_use r) fixed fits)
            given fits (enqueue_ret_fixed v n fits))
          (contents-entered v table n given fits) (entered-IsValid v table n given fits)
    | no full ↦
        Refines-of r r _ fixed (take n table) enobufs (contents r)
          (spec_fixed_full r.prod.mask r.prod.watermark (contents r) (take n table)
            (omega (arith, taken, length-contents v)))
          (sp_give_up v table n fixed enobufs
            (limit_fixed_full enobufs n (r.prod.mask - in_use r) (omega arith)))
          refl v
  ]

  -- A variable enqueue that moves `m` elements.
  variable_moved :
      (m : ℕ)
      → m ≡ min n (r.prod.mask - in_use r)
      → limit enobufs variable n (r.prod.mask - in_use r) ≡ move m
      → (length (contents r) < r.prod.mask) ⊎ (length (take n table) ≡ 0)
      → Refines r (sp_do_enqueue r table n variable) variable (take n table)
  variable_moved m least lim room =
      Refines-of r (entered v table m) _ variable (take n table) _ _
        (spec_variable_some r.prod.mask r.prod.watermark (contents r) (take n table) room
          ∙ ap
              (λ j. (
                if leb r.prod.watermark (length (contents r) + j) then quot_exceed j else count j,
                contents r ++ take j (take n table),
              ))
              same)
        (sp_move v table n variable m _ lim (omega arith) (omega arith)
          (enqueue_ret_variable v m (omega arith)))
        (contents-entered v table m (omega arith) (omega arith)
          ∙ ap (λ t. contents r ++ t) (sym (take-take m n table (omega arith))))
        (entered-IsValid v table m (omega arith) (omega arith))
    where
      same : min (length (take n table)) (r.prod.mask - length (contents r)) ≡ m
      same = omega (arith, taken, length-contents v, least)

  variable-Refines : Refines r (sp_do_enqueue r table n variable) variable (take n table)
  variable-Refines = elim (dec_le n (r.prod.mask - in_use r)) [
    | yes fits ↦
        variable_moved n (omega arith) (limit_fits enobufs n (r.prod.mask - in_use r) variable fits)
          (room fits)
    | no full ↦ elim (ℕ_discrete (r.prod.mask - in_use r) 0) [
      | yes none ↦
          Refines-of r r _ variable (take n table) (count 0) (contents r)
            (spec_variable_none r.prod.mask r.prod.watermark (contents r) (take n table)
              (omega (arith, length-contents v)) (omega (arith, taken)))
            (sp_give_up v table n variable (count 0)
              (limit_variable_none enobufs n (r.prod.mask - in_use r) (omega arith) none))
            refl v
      | no part ↦
          variable_moved (r.prod.mask - in_use r) (omega arith)
            (limit_variable_part enobufs n (r.prod.mask - in_use r) (omega arith) part)
            (inl (omega (arith, length-contents v, in_use_le v)))
    ]
  ]
    where
      room :
          n ≤ r.prod.mask - in_use r
          → (length (contents r) < r.prod.mask) ⊎ (length (take n table) ≡ 0)
      room fits = elim (ℕ_discrete n 0) [
        | yes e ↦ inr (taken ∙ e)
        | no ne ↦ inl (omega (arith, length-contents v, in_use_le v))
      ]

-- A single-producer enqueue returns, faults nowhere, and does what the specification says with the
-- first `n` given elements, in both modes: the integer that it returns (-ENOBUFS, -EDQUOT, the
-- count, the count with the quota bit), the elements inside afterwards, in order, and a valid ring.
pub sp_do_enqueue-Refines :
    {r : RingQueue} (v : IsValid r) (table : List Ptr) (n : ℕ) (behavior : Behavior)
    → n ≤ length table
    → Refines r (sp_do_enqueue r table n behavior) behavior (take n table)
sp_do_enqueue-Refines v table n fixed given = fixed-Refines v table n given
sp_do_enqueue-Refines v table n variable given = variable-Refines v table n given
