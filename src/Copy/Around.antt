-- ===== src/Copy/Around.antt =====
-- The loops of `Copy.Loops` against the reference `around`.
use prototype_kernel.Base.{
  ℕ, zero, suc, bit_and, ◌/◌, ◌+◌, ◌-◌, ◌*◌, ◌%◌, ◌^◌, ◌≤◌, ◌<◌, ◌≡◌, refl, sym, ap, ap₂, ◌∙◌,
  arith, Option, none, some, ◌>>=◌, >>=_assoc,
}
use prototype_kernel.Base.Words.{add32, bit_and_mask, mod32-mod}
use prototype_kernel.Copy.Loops.{plain, masked, four, unrolled, around, iterations}
use native.Mathlib.Nat.{add-zero, mod-add-mod, mod-eq_of_lt}
use mathlib.Core.Path.{fun_ext}

pub bind_ext {ℓ κ} :
    {A : Type ℓ} {B : Type κ} (m : Option A) {f g : A → Option B}
    → ((a : A) → f a ≡ g a)
    → (m >>= f) ≡ (m >>= g)
bind_ext m h = ap (λ k. m >>= k) (fun_ext h)

pub bind_some {ℓ} : {A : Type ℓ} (m : Option A) → (m >>= λ a. some a) ≡ m
bind_some none = refl
bind_some (some a) = refl

-- `n & ~3` is the number of moves in full rounds.
pub iterations_lem : (n : ℕ) → (bit_and n 3 ≡ n % 4) × (iterations n ≡ n / 4 * 4)
iterations_lem n = omega (arith, bit_and_mask 2 n)

-- One step on keeps the index where the reference has it.
next_slot :
    (size head i index : ℕ)
    → index ≡ (head + i) % size
    → index + 1 < size
    → size ≤ 2 ^ 32
    → add32 index 1 ≡ (head + (i + 1)) % size
next_slot size head i index e h le = omega (
  arith,
  ap (λ t. (t + 1) % size) e,
  mod-add-mod (head + i) size 1,
  mod-eq_of_lt h,
  ap (λ t. t % size) regroup,
)
  where
    regroup : head + (i + 1) ≡ head + i + 1
    regroup = omega arith

next_residue :
    (k head i index : ℕ)
    → k ≤ 32
    → index % 2 ^ k ≡ (head + i) % 2 ^ k
    → add32 index 1 % 2 ^ k ≡ (head + (i + 1)) % 2 ^ k
next_residue k head i index h e =
    mod32-mod k (index + 1) h
    ∙ sym (mod-add-mod index (2 ^ k) 1)
    ∙ ap (λ t. (t + 1) % 2 ^ k) e
    ∙ mod-add-mod (head + i) (2 ^ k) 1
    ∙ ap (λ t. t % 2 ^ k) (omega arith)

module _ {ℓ} {S : Type ℓ} (body : ℕ → ℕ → S → Option S) where
  pub around-add :
      (size head a b i : ℕ) (s : S)
      → around body size head (a + b) i s
        ≡ (around body size head a i s >>= λ t. around body size head b (i + a) t)
  unfolding around
  around-add size head zero b i s =
      ap₂ (λ n j. around body size head n j s) (omega arith) (omega arith)
  around-add size head (suc a) b i s =
      ap (λ n. around body size head n i s) step
      ∙ bind_ext (body ((head + i) % size) i s) (inner (λ t. around-add size head a b (i + 1) t))
      ∙ sym (>>=_assoc (body ((head + i) % size) i s) _ _)
    where
      step : suc a + b ≡ suc (a + b)
      step = omega arith

      place : i + 1 + a ≡ i + suc a
      place = omega arith

      inner :
          ((t : S)
            → around body size head (a + b) (i + 1) t
              ≡ (around body size head a (i + 1) t >>= λ u. around body size head b (i + 1 + a) u))
          → (t : S)
          → around body size head (a + b) (i + 1) t
            ≡ (around body size head a (i + 1) t >>= λ u. around body size head b (i + suc a) u)
      inner rest t =
          rest t
          ∙ ap (λ j. around body size head a (i + 1) t >>= λ u. around body size head b j u) place

  -- A run that does not pass the end of the array needs no mask.
  pub plain-around :
      (size head left i index : ℕ) (s : S)
      → index ≡ (head + i) % size
      → index + left ≤ size
      → size ≤ 2 ^ 32
      → plain body left i index s ≡ around body size head left i s
  unfolding plain around
  plain-around size head zero i index s e h le = refl
  plain-around size head (suc zero) i index s e h le = ap (λ x. body x i s >>= λ t. some t) e
  plain-around size head (suc (suc left)) i index s e h le =
      ap (λ x. body x i s >>= λ t. plain body (suc left) (i + 1) (add32 index 1) t) e
      ∙ bind_ext (body ((head + i) % size) i s) (λ t.
        plain-around size head (suc left) (i + 1) (add32 index 1) t
          (next_slot size head i index e (omega arith) le) (omega arith) le)

  -- A masked run follows the reference from any index that agrees modulo the size.
  pub masked-around :
      (k head left i index : ℕ) (s : S)
      → k ≤ 32
      → index % 2 ^ k ≡ (head + i) % 2 ^ k
      → masked body (2 ^ k - 1) left i index s ≡ around body (2 ^ k) head left i s
  unfolding masked around
  masked-around k head zero i index s h e = refl
  masked-around k head (suc left) i index s h e =
      ap (λ x. body x i s >>= λ t. masked body (2 ^ k - 1) left (i + 1) (add32 index 1) t)
        (bit_and_mask k index ∙ e)
      ∙ bind_ext (body ((head + i) % 2 ^ k) i s) (λ t.
        masked-around k head left (i + 1) (add32 index 1) t h (next_residue k head i index h e))

  -- A run in two parts, if the index does not wrap within the first.
  pub plain-add :
      (a b i index : ℕ) (s : S)
      → index + a < 2 ^ 32
      → plain body (a + b) i index s
        ≡ (plain body a i index s >>= λ t. plain body b (i + a) (index + a) t)
  unfolding plain
  plain-add zero b i index s h =
      ap₂ (λ n j. plain body n j index s) zero_add (sym (add-zero i))
      ∙ ap (λ x. plain body b (i + 0) x s) (sym (add-zero index))
    where
      zero_add : 0 + b ≡ b
      zero_add = omega arith
  plain-add (suc a) b i index s h =
      ap (λ n. plain body n i index s) step
      ∙ bind_ext (body index i s)
          (λ t. plain-add a b (i + 1) (add32 index 1) t (omega arith) ∙ shift t)
      ∙ sym (>>=_assoc (body index i s) _ _)
    where
      step : suc a + b ≡ suc (a + b)
      step = omega arith

      place : i + 1 + a ≡ i + suc a
      place = omega arith

      slot : add32 index 1 + a ≡ index + suc a
      slot = omega arith

      shift :
          (t : S)
          → (plain body a (i + 1) (add32 index 1) t >>= λ u.
              plain body b (i + 1 + a) (add32 index 1 + a) u)
            ≡ (plain body a (i + 1) (add32 index 1) t >>= λ u.
                plain body b (i + suc a) (index + suc a) u)
      shift t =
          ap₂ (λ j x. plain body a (i + 1) (add32 index 1) t >>= λ u. plain body b j x u) place slot

  four_steps :
      (left i index : ℕ) (s : S)
      → (four body i index s >>= λ t. plain body left (i + 4) (add32 index 4) t)
        ≡ plain body (suc (suc (suc (suc left)))) i index s
  unfolding four plain
  four_steps left i index s = simp (>>=_assoc, i2, i3, i4, j2, j3, j4)
    where
      i2 : add32 (add32 index 1) 1 ≡ add32 index 2
      i2 = omega arith

      i3 : add32 (add32 index 2) 1 ≡ add32 index 3
      i3 = omega arith

      i4 : add32 (add32 index 3) 1 ≡ add32 index 4
      i4 = omega arith

      j2 : i + 1 + 1 ≡ i + 2
      j2 = omega arith

      j3 : i + 2 + 1 ≡ i + 3
      j3 = omega arith

      j4 : i + 3 + 1 ≡ i + 4
      j4 = omega arith

  rounds : (blocks : ℕ) → suc (suc (suc (suc (blocks * 4)))) ≡ suc blocks * 4
  rounds blocks = omega arith

  -- Unrolling by four changes nothing.
  pub unrolled-plain :
      (blocks i index : ℕ) (s : S)
      → unrolled body blocks i index s ≡ plain body (blocks * 4) i index s
  unfolding unrolled four plain
  unrolled-plain zero i index s = refl
  unrolled-plain (suc blocks) i index s =
      bind_ext (four body i index s) (λ t. unrolled-plain blocks (i + 4) (add32 index 4) t)
      ∙ four_steps (blocks * 4) i index s
      ∙ ap (λ n. plain body n i index s) (rounds blocks)

  -- Full rounds of four and the moves that are left make up one run.
  pub unrolled_rest :
      (n index : ℕ) (s : S)
      → index + n < 2 ^ 32
      → (unrolled body (iterations n / 4) 0 index s >>= λ t.
          plain body (bit_and n 3) (iterations n) (add32 index (iterations n)) t)
        ≡ plain body n 0 index s
  unrolled_rest n index s h =
      ap₂
        (λ b r. unrolled body b 0 index s >>= λ t.
          plain body r (iterations n) (add32 index (iterations n)) t)
        blocks (iterations_lem n).0
      ∙ ap₂ (λ j x. unrolled body (n / 4) 0 index s >>= λ t. plain body (n % 4) j x t) from to
      ∙ ap (λ m. m >>= λ t. plain body (n % 4) (0 + n / 4 * 4) (index + n / 4 * 4) t)
          (unrolled-plain (n / 4) 0 index s)
      ∙ sym (plain-add (n / 4 * 4) (n % 4) 0 index s (omega arith))
      ∙ ap (λ m. plain body m 0 index s) whole
    where
      blocks : iterations n / 4 ≡ n / 4
      blocks = omega (arith, iterations_lem n)

      from : iterations n ≡ 0 + n / 4 * 4
      from = omega (arith, iterations_lem n)

      to : add32 index (iterations n) ≡ index + n / 4 * 4
      to = omega (arith, iterations_lem n)

      whole : n / 4 * 4 + n % 4 ≡ n
      whole = omega arith
