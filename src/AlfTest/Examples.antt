-- ===== src/AlfTest/Examples.antt =====
-- The tests of kernel/lib/alf_queue_test.c with a kernel that knows the powers of two up to 2 ^ 16 and
-- has memory.
use prototype_kernel.Base.{
  ℕ, zero, suc, ◌^◌, ◌≤◌, ◌≡◌, refl, ap, ◌∙◌, arith, Bool, true, Option, some, List, length,
  replicate, length-replicate, ◌==◌, ==_iff, ==_refl, Bool-cases, inl, inr, if-eq, if◌then◌else◌,
}
use prototype_kernel.Copy.Slots.{Ptr}
use prototype_kernel.AlfTest.Tests.{run_basic_tests, passed}
use prototype_kernel.AlfTest.Passes.{run_basic_tests-passed}
use native.Mathlib.Decide.{ℕ_discrete}

-- Whether `n` is 2 ^ k for a k up to `m`.
power_up_to : ℕ → ℕ → Bool
power_up_to zero n = n == 1
power_up_to (suc m) n = if n == 2 ^ suc m then true else power_up_to m n

power_up_to_sound : (m n : ℕ) → power_up_to m n ≡ true → (k : ℕ) × (n ≡ 2 ^ k)
unfolding power_up_to
power_up_to_sound zero n e = (0, (==_iff n 1).0 e)
power_up_to_sound (suc m) n e = elim (Bool-cases (n == 2 ^ suc m)) [
  | inl same ↦ (suc m, (==_iff n (2 ^ suc m)).0 same)
  | inr other ↦ power_up_to_sound m n (rw other at e)
]

power_up_to_there : (m k : ℕ) → k ≤ m → power_up_to m (2 ^ k) ≡ true
unfolding power_up_to
power_up_to_there zero k le = let e : k ≡ 0 = omega arith in rw e refl
power_up_to_there (suc m) k le = elim (ℕ_discrete k (suc m)) [
  | yes e ↦ rw (e, ==_refl (2 ^ suc m)) refl
  | no ne ↦ if-eq (2 ^ k == 2 ^ suc m) (λ _. refl) (λ _. power_up_to_there m k (omega arith))
]

zeroed : ℕ → Option (List Ptr)
zeroed n = some (replicate n 0)

zeroed_memory : (n : ℕ) → (ring : List Ptr) × (zeroed n ≡ some ring)
unfolding zeroed
zeroed_memory n = (replicate n 0, refl)

zeroed_granted : (n : ℕ) (ring : List Ptr) → zeroed n ≡ some ring → length ring ≡ n
unfolding zeroed
zeroed_granted n ring e =
    let same : ring ≡ replicate n 0 = cc in ap length same ∙ length-replicate n 0

run_basic_tests-passed_example :
    run_basic_tests (power_up_to 16) zeroed 17 (λ n. replicate n 7) 5 (λ p. 123) ≡ some (passed 5)
run_basic_tests-passed_example =
    run_basic_tests-passed (power_up_to 16) zeroed (power_up_to_sound 16) (power_up_to_there 16)
      zeroed_memory zeroed_granted 16 (λ n. replicate n 7) 5 (λ p. 123) (omega arith)
      (λ n. length-replicate n 7)
