-- ===== src/Alf/Variants.antt =====
-- The masked loop structures of `Alf.Shapes`, for any body, against the reference
-- `Copy.Loops.around`.
use prototype_kernel.Base.{ℕ, ◌-◌, ◌%◌, ◌^◌, ◌≤◌, ◌≡◌, arith, Option, leb, if-eq}
use prototype_kernel.Base.Words.{add32, bit_and_mask}
use prototype_kernel.Copy.Loops.{around}
use prototype_kernel.Copy.Around.{masked-around}
use prototype_kernel.Alf.Shapes.{over_mask, over_mask_less}
use prototype_kernel.Copy.Runs.{fits, start, plain_run, masked_run}

module _ {ℓ} {S : Type ℓ} (body : ℕ → ℕ → S → Option S) (k head n : ℕ) (hk : k ≤ 28) where
  pub over_mask-around :
      (s : S) → over_mask body (2 ^ k) (2 ^ k - 1) head n s ≡ around body (2 ^ k) head n 0 s
  unfolding over_mask
  over_mask-around s = masked-around body k head n 0 head s (omega arith) (start k head n hk)

  pub over_mask_less-around :
      (s : S)
      → n ≤ 2 ^ k
      → over_mask_less body (2 ^ k) (2 ^ k - 1) head n s ≡ around body (2 ^ k) head n 0 s
  unfolding over_mask_less
  over_mask_less-around s hn = rw (bit_and_mask k head) (
      if-eq (leb (add32 (head % 2 ^ k) n) (2 ^ k - 1))
        (λ e. plain_run body k head n hk s (fits k head n hk hn e))
        (λ _. masked_run body k head n hk s))
