-- ===== src/Alf/Unrolled.antt =====
-- The unrolled variants: four accesses a round, and the rest in a switch.
use prototype_kernel.Base.{
  ℕ, zero, suc, ◌+◌, ◌-◌, ◌/◌, ◌%◌, ◌^◌, ◌≤◌, ◌<◌, ◌≡◌, refl, sym, ap₂, ◌∙◌, arith, Option, ◌>>=◌,
  bit_and, leb, if-eq,
}
use prototype_kernel.Base.Words.{add32, bit_and_mask}
use prototype_kernel.Copy.Loops.{plain, unrolled, around, iterations}
use prototype_kernel.Copy.Around.{bind_ext, bind_some, unrolled_rest, iterations_lem}
use prototype_kernel.Alf.Shapes.{over_unroll, remainder}
use prototype_kernel.Copy.Runs.{size_bounds, fits, plain_run, masked_run}

module _ {ℓ} {S : Type ℓ} (body : ℕ → ℕ → S → Option S) where
  -- The switch moves the last `r` elements, in order.
  pub remainder-plain :
      (r i index : ℕ) (s : S) → r < 4 → remainder body r i index s ≡ plain body r i index s
  unfolding remainder plain
  remainder-plain zero i index s h = refl
  remainder-plain (suc zero) i index s h = sym (bind_some (body index i s))
  remainder-plain (suc (suc zero)) i index s h =
      bind_ext (body index i s) (λ a. sym (bind_some (body (add32 index 1) (i + 1) a)))
  remainder-plain (suc (suc (suc zero))) i index s h = bind_ext (body index i s) λ a.
      bind_ext (body (add32 index 1) (i + 1) a)
        λ b. ap₂ (λ x j. body x j b) two_on j2 ∙ sym (bind_some _)
    where
      two_on : add32 index 2 ≡ add32 (add32 index 1) 1
      two_on = omega arith

      j2 : i + 2 ≡ i + 1 + 1
      j2 = omega arith
  remainder-plain (suc (suc (suc (suc r)))) i index s h = absurd (omega arith)

  -- Full rounds and the switch make up one run.
  pub unroll_run :
      (n index : ℕ) (s : S)
      → index + n < 2 ^ 32
      → (unrolled body (iterations n / 4) 0 index s >>= λ t.
          remainder body (bit_and n 3) (iterations n) (add32 index (iterations n)) t)
        ≡ plain body n 0 index s
  unroll_run n index s h =
      bind_ext (unrolled body (iterations n / 4) 0 index s) (λ t.
        remainder-plain (bit_and n 3) (iterations n) (add32 index (iterations n)) t
          (omega (arith, iterations_lem n)))
      ∙ unrolled_rest body n index s h

module _ {ℓ} {S : Type ℓ} (body : ℕ → ℕ → S → Option S) (k head n : ℕ) (hk : k ≤ 28) where
  pub over_unroll-around :
      (s : S)
      → n ≤ 2 ^ k
      → over_unroll body (2 ^ k) (2 ^ k - 1) head n s ≡ around body (2 ^ k) head n 0 s
  unfolding over_unroll
  over_unroll-around s hn = rw (bit_and_mask k head) (
      if-eq (leb (add32 index n) (2 ^ k - 1))
        (λ e.
          unroll_run body n index s (bound (fits k head n hk hn e))
          ∙ plain_run body k head n hk s (fits k head n hk hn e))
        (λ _. masked_run body k head n hk s))
    where
      index : ℕ
      index = head % 2 ^ k

      bound : index + n ≤ 2 ^ k → index + n < 2 ^ 32
      bound h = omega (arith, size_bounds k head n hk)
