-- ===== src/Alf/Wrapping.antt =====
-- The variants that end at the end of the array and start again at its first slot.
use prototype_kernel.Base.{
  ℕ, zero, suc, ◌+◌, ◌-◌, ◌%◌, ◌^◌, ◌≤◌, ◌<◌, ◌≡◌, sym, ap, ◌∙◌, arith, Option, some, ◌>>=◌,
  >>=_assoc, leb, le→leb, gt→leb, if-eq,
}
use prototype_kernel.Base.Words.{add32, sub32, bit_and_mask, mod32-mod}
use prototype_kernel.Copy.Loops.{plain, around}
use prototype_kernel.Copy.Around.{bind_ext, bind_some}
use prototype_kernel.Alf.Shapes.{over_mask_less2, over_nomask, until_end, over_memcpy}
use prototype_kernel.Copy.Runs.{size_bounds, index_lt, fits, passes, plain_run, wrapped_run}
use native.Mathlib.Decide.{dec_le, dec_lt}
use native.Mathlib.Nat.{
  add-zero, zero-add, mod-add-mod, mod-eq_of_lt, mod-eq-sub-mod, add-mod_right,
}

module _ {ℓ} {S : Type ℓ} (body : ℕ → ℕ → S → Option S) (mask : ℕ) (small : mask < 2 ^ 31) where
  -- The first loop of `nomask` takes all rounds, if they stay within the array.
  until_end_all :
      (left i index : ℕ) (s : S)
      → index + left ≤ mask + 1
      → until_end body mask left i index s
        ≡ (plain body left i index s >>= λ t. some (0, i + left, t))
  unfolding until_end plain
  until_end_all zero i index s h = ap (λ j. some (0, j, s)) (sym (add-zero i))
  until_end_all (suc left) i index s h = rw (le→leb index mask (omega arith)) (
      bind_ext (body index i s) (λ t.
        until_end_all left (i + 1) (add32 index 1) t (omega arith)
        ∙ ap (λ j. plain body left (i + 1) (add32 index 1) t >>= λ u. some (0, j, u)) place)
      ∙ sym (>>=_assoc (body index i s) _ _))
    where
      place : i + 1 + left ≡ i + suc left
      place = omega arith

  -- Otherwise it stops at the end of the array.
  until_end_stop :
      (a b i index : ℕ) (s : S)
      → index + a ≡ mask + 1
      → until_end body mask (a + b) i index s ≡ (plain body a i index s >>= λ t. some (b, i + a, t))
  unfolding until_end plain
  until_end_stop zero zero i index s h = ap (λ j. some (0, j, s)) (sym (add-zero i))
  until_end_stop zero (suc b) i index s h =
      rw (zero-add (suc b), gt→leb index mask (omega arith))
        (ap (λ j. some (suc b, j, s)) (sym (add-zero i)))
  until_end_stop (suc a) b i index s h =
      ap (λ m. until_end body mask m i index s) step
      ∙ rw (le→leb index mask (omega arith)) (
          bind_ext (body index i s) (λ t.
            until_end_stop a b (i + 1) (add32 index 1) t (omega arith)
            ∙ ap (λ j. plain body a (i + 1) (add32 index 1) t >>= λ u. some (b, j, u)) place)
          ∙ sym (>>=_assoc (body index i s) _ _))
    where
      step : suc a + b ≡ suc (a + b)
      step = omega arith

      place : i + 1 + a ≡ i + suc a
      place = omega arith

module _ {ℓ} {S : Type ℓ} (body : ℕ → ℕ → S → Option S) (k head n : ℕ) (hk : k ≤ 28) where
  pub over_mask_less2-around :
      (s : S)
      → n ≤ 2 ^ k
      → over_mask_less2 body (2 ^ k) (2 ^ k - 1) head n s ≡ around body (2 ^ k) head n 0 s
  unfolding over_mask_less2
  over_mask_less2-around s hn = rw (bit_and_mask k head) (
      if-eq (leb (add32 (head % 2 ^ k) n) (2 ^ k - 1))
        (λ e. plain_run body k head n hk s (fits k head n hk hn e))
        (λ e.
          ap (λ a. plain body a 0 (head % 2 ^ k) s >>= λ t. plain body (n - a) a 0 t) rounds
          ∙ wrapped_run body k head n hk s (passes k head n hk hn e) hn))
    where
      rounds : 2 ^ k - 1 + 1 - head % 2 ^ k ≡ 2 ^ k - head % 2 ^ k
      rounds = omega (arith, size_bounds k head n hk)

  pub over_nomask-around :
      (s : S)
      → n ≤ 2 ^ k
      → over_nomask body (2 ^ k) (2 ^ k - 1) head n s ≡ around body (2 ^ k) head n 0 s
  unfolding over_nomask plain
  over_nomask-around s hn =
      ap (λ x. until_end body (2 ^ k - 1) n 0 x s >>= λ (left, i, t). plain body left i 0 t)
        (bit_and_mask k head)
      ∙ elim (dec_le (head % 2 ^ k + n) (2 ^ k)) [
        | yes le ↦
            ap continue (until_end_all body (2 ^ k - 1) small n 0 index s (omega (arith, bounds)))
            ∙ >>=_assoc (plain body n 0 index s) _ _
            ∙ bind_some (plain body n 0 index s)
            ∙ plain_run body k head n hk s le
        | no gt ↦
            ap (λ m. continue (until_end body (2 ^ k - 1) m 0 index s)) (whole gt)
            ∙ ap continue (
                until_end_stop body (2 ^ k - 1) small a (n - a) 0 index s
                  (omega (arith, bounds, index_lt k head n hk)))
            ∙ >>=_assoc (plain body a 0 index s) _ _
            ∙ ap (λ j. plain body a 0 index s >>= λ t. plain body (n - a) j 0 t) (zero-add a)
            ∙ wrapped_run body k head n hk s (omega arith) hn
      ]
    where
      index : ℕ
      index = head % 2 ^ k

      a : ℕ
      a = 2 ^ k - index

      bounds : (0 < 2 ^ k) × (2 ^ k ≤ 268435456)
      bounds = size_bounds k head n hk

      small : 2 ^ k - 1 < 2 ^ 31
      small = omega (arith, bounds)

      continue : Option (ℕ × ℕ × S) → Option S
      continue m = m >>= λ (left, i, t). plain body left i 0 t

      whole : ¬ (head % 2 ^ k + n ≤ 2 ^ k) → n ≡ a + (n - a)
      whole gt = omega arith

  pub over_memcpy-around :
      (s : S)
      → n < 2 ^ k
      → over_memcpy body (2 ^ k) (2 ^ k - 1) head n s ≡ around body (2 ^ k) head n 0 s
  unfolding over_memcpy
  over_memcpy-around s hn =
      rw (bit_and_mask k head, bit_and_mask k (add32 head n), mod32-mod k (head + n) (omega arith))
        (elim (dec_lt (index + n) (2 ^ k)) [
          | yes lt ↦
              rw (same lt, le→leb index (index + n) (omega arith))
                (ap (λ m. plain body m 0 index s) (omega arith)
                  ∙ plain_run body k head n hk s (omega arith))
          | no ge ↦
              rw (back ge, gt→leb index (index + n - 2 ^ k) (omega arith), to_end)
                (ap (λ m. plain body a 0 index s >>= λ t. plain body m a 0 t)
                    (omega (arith, index_lt k head n hk))
                  ∙ wrapped_run body k head n hk s (omega arith) (omega arith))
        ])
    where
      index : ℕ
      index = head % 2 ^ k

      a : ℕ
      a = 2 ^ k - index

      same : index + n < 2 ^ k → (head + n) % 2 ^ k ≡ index + n
      same lt = sym (mod-add-mod head (2 ^ k) n) ∙ mod-eq_of_lt lt

      back : ¬ (index + n < 2 ^ k) → (head + n) % 2 ^ k ≡ index + n - 2 ^ k
      back ge =
          sym (mod-add-mod head (2 ^ k) n)
          ∙ mod-eq-sub-mod {n = index + n} {m = 2 ^ k} (omega arith)
          ∙ mod-eq_of_lt {n = index + n - 2 ^ k} {m = 2 ^ k} (omega (arith, index_lt k head n hk))

      to_end : sub32 (2 ^ k) index ≡ a
      to_end = omega (arith, size_bounds k head n hk, index_lt k head n hk)

  -- A whole ring at once is taken for nothing.
  pub over_memcpy_whole :
      (s : S) → n ≡ 2 ^ k → over_memcpy body (2 ^ k) (2 ^ k - 1) head n s ≡ some s
  unfolding over_memcpy plain
  over_memcpy_whole s e =
      rw
        (
          bit_and_mask k head,
          bit_and_mask k (add32 head n),
          mod32-mod k (head + n) (omega arith),
          e,
          add-mod_right head (2 ^ k),
        )
        (rw (le→leb (head % 2 ^ k) (head % 2 ^ k) (omega arith))
          (ap (λ m. plain body m 0 (head % 2 ^ k) s) none_left))
    where
      none_left : head % 2 ^ k - head % 2 ^ k ≡ 0
      none_left = omega arith
