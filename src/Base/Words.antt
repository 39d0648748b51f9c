-- ===== src/Base/Words.antt =====
-- Machine words: `u32` arithmetic with its wrap-around, and `&` with a mask of low ones.
use Prim.Native.Nat.{
  ℕ, zero, suc, ◌+◌, ◌-◌, ◌*◌, ◌/◌, ◌%◌, ◌^◌, ◌≤◌, ◌<◌, ◌∣◌, min, bit_and, digits, bit_and-bitwise,
}
use mathlib.Core.Path.{◌≡◌, refl, sym, ap, ◌∙◌}
use mathlib.Core.Logic.{◌≢◌}
use native.Mathlib.Nat.{
  pow-suc, one-le-pow, mod-eq_of_lt, mod-mod_of_dvd, mod-lt, div-add-mod, mul-add-mod_self_left,
  dvd_refl, dvd-mul_right_of_dvd, zero-mod, add-mul-mod_self_left, mod-eq-zero_of_dvd,
}
use native.Mathlib.Decide.{dec_le, ℕ_discrete}
use native.Mathlib.Omega.{arith}

-- `a + b` and `a - b` on u32. The modulus is added first, since `-` on ℕ stops at 0.
abbrev pub add32 : ℕ → ℕ → ℕ
add32 a b = (a + b) % 2 ^ 32

abbrev pub sub32 : ℕ → ℕ → ℕ
sub32 a b = (a + 2 ^ 32 - b) % 2 ^ 32

-- A mask of zero keeps nothing.
digits-zero : (n a : ℕ) → digits (λ b. 0) min n a 0 ≡ 0
digits-zero zero zero = refl
digits-zero zero (suc a) = refl
digits-zero (suc n) zero = refl
digits-zero (suc n) (suc a) = omega (arith, digits-zero n (suc a / 2))

-- The lowest digit of a remainder.
mod-double : (x m : ℕ) → 0 < m → x % (2 * m) ≡ x / 2 % m * 2 + x % 2
mod-double x m h =
    ap (λ t. t % (2 * m)) split
    ∙ mul-add-mod_self_left (2 * m) (x / 2 / m) (x / 2 % m * 2 + x % 2)
    ∙ mod-eq_of_lt (omega (arith, mod-lt (x / 2) h))
  where
    split : x ≡ 2 * m * (x / 2 / m) + (x / 2 % m * 2 + x % 2)
    split = omega (arith, div-add-mod (x / 2) m)

pub digits-mask : (k n a : ℕ) → a ≤ n → digits (λ b. 0) min n a (2 ^ k - 1) ≡ a % 2 ^ k
digits-mask zero n a h = digits-zero n a ∙ omega arith
digits-mask (suc k) zero zero h = sym (zero-mod (2 ^ suc k))
digits-mask (suc k) (suc n) zero h = sym (zero-mod (2 ^ suc k))
digits-mask (suc k) zero (suc a) h = absurd (omega arith)
digits-mask (suc k) (suc n) (suc a) h = omega (
  arith,
  pow-suc 2 k,
  one-le-pow k 2,
  ap (λ b. digits (λ b. 0) min n (suc a / 2) b) half,
  digits-mask k n (suc a / 2) (omega arith),
  ap (λ t. suc a % t) twice,
  mod-double (suc a) (2 ^ k) (omega (arith, one-le-pow k 2)),
)
  where
    twice : 2 ^ suc k ≡ 2 * 2 ^ k
    twice = omega (arith, pow-suc 2 k)

    half : (2 ^ suc k - 1) / 2 ≡ 2 ^ k - 1
    half = omega (arith, pow-suc 2 k, one-le-pow k 2)

-- A mask of `k` ones is the remainder by `2 ^ k`.
pub bit_and_mask : (k a : ℕ) → bit_and a (2 ^ k - 1) ≡ a % 2 ^ k
bit_and_mask k a = bit_and-bitwise a (2 ^ k - 1) ∙ digits-mask k a a (omega arith)

two_pow-dvd : (n k : ℕ) → k ≤ n → 2 ^ k ∣ 2 ^ n
two_pow-dvd zero zero h = dvd_refl 1
two_pow-dvd zero (suc k) h = absurd (omega arith)
two_pow-dvd (suc n) k h = elim (dec_le k n) [
  | yes le ↦ rw (pow-suc 2 n) (dvd-mul_right_of_dvd (2 ^ k) (two_pow-dvd n k le) 2)
  | no gt ↦ rw (eq_of k n h gt) (dvd_refl (2 ^ suc n))
]
  where
    eq_of : (k n : ℕ) → k ≤ suc n → ¬ (k ≤ n) → k ≡ suc n
    eq_of k n h gt = omega arith

-- Reducing a u32 first does not change the remainder by a power of two.
pub mod32-mod : (k x : ℕ) → k ≤ 32 → x % 2 ^ 32 % 2 ^ k ≡ x % 2 ^ k
mod32-mod k x h = mod-mod_of_dvd (2 ^ k) x (two_pow-dvd 32 k h)

-- `x & (x - 1)` clears the lowest one, so it is 0 only at powers of two.
digits_self : (n a : ℕ) → a ≤ n → digits (λ b. 0) min n a a ≡ a
digits_self zero zero h = refl
digits_self (suc n) zero h = refl
digits_self zero (suc a) h = absurd (omega arith)
digits_self (suc n) (suc a) h = omega (arith, digits_self n (suc a / 2) (omega arith))

digits_pred :
    (n a : ℕ) → suc a ≤ n → digits (λ b. 0) min n (suc a) a ≡ 0 → (k : ℕ) × (suc a ≡ 2 ^ k)
digits_pred zero a h e = absurd (omega arith)
digits_pred (suc n) a h e = elim (ℕ_discrete (suc a % 2) 1) [
  | yes odd ↦ (
    0,
    omega (
      arith,
      ap (λ b. digits (λ b. 0) min n (suc a / 2) b) (same odd),
      digits_self n (suc a / 2) (omega arith),
    ),
  )
  | no even ↦
      let (k, power) =
        digits_pred n (a / 2) (omega arith)
          (ap (λ b. digits (λ b. 0) min n b (a / 2)) (sym (up even)) ∙ omega arith) in
      (suc k, omega (arith, power, pow-suc 2 k))
]
  where
    same : suc a % 2 ≡ 1 → a / 2 ≡ suc a / 2
    same odd = omega arith

    up : suc a % 2 ≢ 1 → suc a / 2 ≡ suc (a / 2)
    up even = omega arith

pub bit_and_pred : (x : ℕ) → 0 < x → bit_and x (x - 1) ≡ 0 → (k : ℕ) × (x ≡ 2 ^ k)
bit_and_pred zero h e = absurd (omega arith)
bit_and_pred (suc a) h e =
    digits_pred (suc a) a (omega arith)
      (sym (bit_and-bitwise (suc a) a) ∙ ap (bit_and (suc a)) (omega arith) ∙ e)

-- What is left of 2 ^ 32 behind a small number, under a mask.
pub complement-mod : (k u : ℕ) → k ≤ 32 → u < 2 ^ k → (2 ^ 32 - 1 - u) % 2 ^ k ≡ 2 ^ k - 1 - u
complement-mod k u h lt =
    ap (λ t. t % 2 ^ k) split
    ∙ add-mul-mod_self_left (2 ^ k - 1 - u) (2 ^ k) (2 ^ 32 / 2 ^ k - 1)
    ∙ mod-eq_of_lt (omega arith)
  where
    whole : 2 ^ k * (2 ^ 32 / 2 ^ k) ≡ 2 ^ 32
    whole =
        omega (arith, div-add-mod (2 ^ 32) (2 ^ k), mod-eq-zero_of_dvd (2 ^ k) (two_pow-dvd 32 k h))

    once : 2 ^ 32 / 2 ^ k ≢ 0
    once e = absurd (omega (arith, whole, ap (λ t. 2 ^ k * t) e))

    step : 2 ^ k * (2 ^ 32 / 2 ^ k) ≡ 2 ^ k * (2 ^ 32 / 2 ^ k - 1) + 2 ^ k
    step = mul_step (2 ^ k) (2 ^ 32 / 2 ^ k) once
      where
        mul_step : (m n : ℕ) → n ≢ 0 → m * n ≡ m * (n - 1) + m
        mul_step m zero ne = absurd (ne refl)
        mul_step m (suc n) ne = omega (arith, ap (λ (t : ℕ). m * t) (back n))
          where
            back : (n : ℕ) → suc n - 1 ≡ n
            back n = omega arith

    split : 2 ^ 32 - 1 - u ≡ 2 ^ k - 1 - u + 2 ^ k * (2 ^ 32 / 2 ^ k - 1)
    split = omega (arith, whole, step)
