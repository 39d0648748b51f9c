-- ===== src/Xdp/Symmetric.antt =====
-- The flow hash of xdp_redirect_cpu_kern.c is the same in both directions of a flow.
use prototype_kernel.Base.{
  ℕ, zero, suc, ◌+◌, ◌*◌, ◌/◌, ◌%◌, ◌≤◌, ◌≡◌, refl, sym, ap₂, ◌∙◌, arith, List, [], ◌∷◌,
}
use prototype_kernel.Xdp.FlowHash.{mixed_key, get_l3_hash}
use Prim.Native.Nat.{bit_xor, bit_xor-bitwise, digits, differ}

differ_comm : (a b : ℕ) → differ a b ≡ differ b a
differ_comm zero zero = refl
differ_comm zero (suc b) = refl
differ_comm (suc a) zero = refl
differ_comm (suc a) (suc b) = differ_comm a b

abbrev xor_digits : ℕ → ℕ → ℕ → ℕ
xor_digits n a b = digits (λ b. b) differ n a b

xor_left : (n b : ℕ) → xor_digits n 0 b ≡ b
xor_left zero b = refl
xor_left (suc n) b = refl

differ_zero : (a : ℕ) → differ a 0 ≡ a
differ_zero zero = refl
differ_zero (suc a) = refl

xor_right : (n a : ℕ) → a ≤ n → xor_digits n a 0 ≡ a
xor_right zero zero h = refl
xor_right (suc n) zero h = refl
xor_right zero (suc a) h = absurd (omega arith)
xor_right (suc n) (suc a) h =
    ap₂ (λ x y. x * 2 + y) (xor_right n (suc a / 2) (omega arith)) (differ_zero (suc a % 2))
    ∙ omega arith

xor_digits_comm : (n m a b : ℕ) → a ≤ n → b ≤ m → xor_digits n a b ≡ xor_digits m b a
xor_digits_comm n m zero b h k = xor_left n b ∙ sym (xor_right m b k)
xor_digits_comm n m (suc a) zero h k = xor_right n (suc a) h ∙ sym (xor_left m (suc a))
xor_digits_comm zero m (suc a) (suc b) h k = absurd (omega arith)
xor_digits_comm (suc n) zero (suc a) (suc b) h k = absurd (omega arith)
xor_digits_comm (suc n) (suc m) (suc a) (suc b) h k =
    ap₂ (λ x y. x * 2 + y) (xor_digits_comm n m (suc a / 2) (suc b / 2) (omega arith) (omega arith))
      (differ_comm (suc a % 2) (suc b % 2))

bit_xor_comm : (a b : ℕ) → bit_xor a b ≡ bit_xor b a
bit_xor_comm a b =
    bit_xor-bitwise a b
    ∙ xor_digits_comm a b a b (omega arith) (omega arith)
    ∙ sym (bit_xor-bitwise b a)

mixed_key_comm : (ss ds : List ℕ) → mixed_key ss ds ≡ mixed_key ds ss
unfolding mixed_key
mixed_key_comm [] [] = refl
mixed_key_comm [] (d ∷ ds) = refl
mixed_key_comm (s ∷ ss) [] = refl
mixed_key_comm (s ∷ ss) (d ∷ ds) = ap₂ ◌∷◌ (bit_xor_comm s d) (mixed_key_comm ss ds)

-- With source and destination swapped, in IPv4 and IPv6 alike, the hash is the same.
pub get_l3_hash_symmetric :
    (src dst : List ℕ) (protocol l4_proto : ℕ)
    → get_l3_hash (record { src = src; dst = dst }) protocol l4_proto
      ≡ get_l3_hash (record { src = dst; dst = src }) protocol l4_proto
unfolding get_l3_hash
get_l3_hash_symmetric src dst protocol l4_proto = rw (get_l3_hash, mixed_key_comm src dst) refl
