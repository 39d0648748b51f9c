-- ===== src/Copy/Runs.antt =====
-- Runs over an array of a power of two of slots: within it, masked, and round its end.
use prototype_kernel.Base.{
  ℕ, ◌+◌, ◌-◌, ◌%◌, ◌^◌, ◌≤◌, ◌<◌, ◌≡◌, sym, ap, ◌∙◌, arith, Option, ◌>>=◌, leb, true, false,
  leb→le, leb→gt,
}
use prototype_kernel.Base.Words.{add32}
use prototype_kernel.Copy.Loops.{plain, masked, around}
use prototype_kernel.Copy.Around.{plain-around, masked-around, around-add, bind_ext}
use native.Mathlib.Nat.{
  add-zero, zero-add, mod_self, mod-add-mod, mod-lt, mod-mod, one-le-pow, pow-le-pow_right,
}

module _ (k head n : ℕ) (hk : k ≤ 28) where
  pub size_bounds : (0 < 2 ^ k) × (2 ^ k ≤ 268435456)
  size_bounds = (one-le-pow k 2 (omega arith), pow-le-pow_right {n = 2} (omega arith) hk)

  pub index_lt : head % 2 ^ k < 2 ^ k
  index_lt = mod-lt head (size_bounds.0)

  -- The u32 test `index + n <= mask` says that the run stays within the array.
  pub fits : n ≤ 2 ^ k → leb (add32 (head % 2 ^ k) n) (2 ^ k - 1) ≡ true → head % 2 ^ k + n ≤ 2 ^ k
  fits hn e = omega (arith, size_bounds, index_lt, leb→le _ _ e)

  pub passes :
      n ≤ 2 ^ k → leb (add32 (head % 2 ^ k) n) (2 ^ k - 1) ≡ false → 2 ^ k ≤ head % 2 ^ k + n
  passes hn e = omega (arith, size_bounds, index_lt, leb→gt _ _ e)

  pub start : head % 2 ^ k ≡ (head + 0) % 2 ^ k
  start = ap (λ t. t % 2 ^ k) (sym (add-zero head))

module _ {ℓ} {S : Type ℓ} (body : ℕ → ℕ → S → Option S) (k head n : ℕ) (hk : k ≤ 28) where
  pub masked_run :
      (s : S) → masked body (2 ^ k - 1) n 0 (head % 2 ^ k) s ≡ around body (2 ^ k) head n 0 s
  masked_run s =
      masked-around body k head n 0 (head % 2 ^ k) s (omega arith)
        (mod-mod head (2 ^ k) ∙ start k head n hk)

  pub plain_run :
      (s : S)
      → head % 2 ^ k + n ≤ 2 ^ k
      → plain body n 0 (head % 2 ^ k) s ≡ around body (2 ^ k) head n 0 s
  plain_run s h =
      plain-around body (2 ^ k) head n 0 (head % 2 ^ k) s (start k head n hk) h
        (omega (arith, size_bounds k head n hk))

  -- Up to the end of the array, and on from its start.
  pub wrapped_run :
      (s : S)
      → 2 ^ k ≤ head % 2 ^ k + n
      → n ≤ 2 ^ k
      → (plain body (2 ^ k - head % 2 ^ k) 0 (head % 2 ^ k) s >>= λ t.
          plain body (n - (2 ^ k - head % 2 ^ k)) (2 ^ k - head % 2 ^ k) 0 t)
        ≡ around body (2 ^ k) head n 0 s
  wrapped_run s h hn =
      ap (λ m. m >>= λ t. plain body b a 0 t)
        (plain-around body (2 ^ k) head a 0 (head % 2 ^ k) s (start k head n hk) to_end small)
      ∙ bind_ext (around body (2 ^ k) head a 0 s) (λ t.
        plain-around body (2 ^ k) head b a 0 t again (omega (arith, index_lt k head n hk)) small
        ∙ ap (λ j. around body (2 ^ k) head b j t) (sym (zero-add a)))
      ∙ sym (around-add body (2 ^ k) head a b 0 s)
      ∙ ap (λ m. around body (2 ^ k) head m 0 s) whole
    where
      a : ℕ
      a = 2 ^ k - head % 2 ^ k

      b : ℕ
      b = n - a

      small : 2 ^ k ≤ 2 ^ 32
      small = omega (arith, size_bounds k head n hk)

      to_end : head % 2 ^ k + a ≤ 2 ^ k
      to_end = omega (arith, index_lt k head n hk)

      whole : a + b ≡ n
      whole = omega arith

      again : 0 ≡ (head + a) % 2 ^ k
      again = sym (sym (mod-add-mod head (2 ^ k) a) ∙ ap (λ t. t % 2 ^ k) full ∙ mod_self (2 ^ k))
        where
          full : head % 2 ^ k + a ≡ 2 ^ k
          full = omega (arith, index_lt k head n hk)
