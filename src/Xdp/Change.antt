-- ===== src/Xdp/Change.antt =====
-- `xdp_prognum0` and `xdp_prognum1` of xdp_vlan01_kern.c: dropping VLAN 4011, and making it VLAN 0.
use prototype_kernel.Base.{
  ℕ, zero, suc, ◌+◌, ◌-◌, ◌*◌, ◌/◌, ◌%◌, ◌≤◌, ◌<◌, ◌≡◌, ◌≢◌, refl, sym, ap, ap₂, ◌∙◌, arith, Option,
  some, ◌>>=◌, Bool, true, not, ◌==◌, if◌then◌else◌, [], ◌∷◌, length, set, bit_and, length-set,
  eq→==, ne→==, min,
}
use prototype_kernel.Base.Words.{bit_and_mask, digits-mask}
use prototype_kernel.Copy.Slots.{get_or-set_self, get_or-set_ne}
use prototype_kernel.Xdp.Packet.{Packet, Action, aborted, pass, byte, be16, load16, load16_in}
use prototype_kernel.Xdp.Eth.{is_vlan}
use prototype_kernel.Xdp.Tags.{
  plain, single, double, Parsed, too_small, parsed, parse_eth_frame-Parsed,
}
use prototype_kernel.Xdp.Vlan.{
  ParsePkt, store8, store16, testvlan, to_vlan, xdp_prognum0, xdp_prognum1,
}
use Prim.Native.Nat.{bit_or, digits, bit_and-bitwise, bit_or-bitwise, max}
use native.Mathlib.Decide.{ℕ_discrete}

-- Halves and doubles, `k` times.
abbrev halves : ℕ → ℕ → ℕ
halves zero a = a
halves (suc k) a = halves k (a / 2)

abbrev doubles : ℕ → ℕ → ℕ
doubles zero a = a
doubles (suc k) a = doubles k a * 2

and_nothing : (n m : ℕ) → digits (λ b. 0) min n 0 m ≡ 0
and_nothing zero m = refl
and_nothing (suc n) m = refl

-- A mask with low zeros.
and_double :
    (n a m : ℕ)
    → a ≤ n
    → digits (λ b. 0) min n a (m * 2) ≡ digits (λ b. 0) min (n - 1) (a / 2) m * 2
and_double zero zero m h = refl
and_double (suc n) zero m h = sym (ap (λ t. t * 2) (and_nothing (suc n - 1) m))
and_double zero (suc a) m h = absurd (omega arith)
and_double (suc n) (suc a) m h =
    omega (arith, ap₂ (λ f b. digits (λ b. 0) min f (suc a / 2) b) fuel half)
  where
    fuel : n ≡ suc n - 1
    fuel = omega arith

    half : m * 2 / 2 ≡ m
    half = omega arith

and_doubles :
    (k n a m : ℕ)
    → a ≤ n
    → digits (λ b. 0) min n a (doubles k m) ≡ doubles k (digits (λ b. 0) min (n - k) (halves k a) m)
and_doubles zero n a m h = ap (λ f. digits (λ b. 0) min f a m) (omega arith)
and_doubles (suc k) n a m h =
    and_double n a (doubles k m) h
    ∙ ap (λ t. t * 2)
        (and_doubles k (n - 1) (a / 2) m (omega arith)
          ∙ ap (λ f. doubles k (digits (λ b. 0) min f (halves k (a / 2)) m)) (omega arith))

mask_top : (a : ℕ) → bit_and a 0xf000 ≡ a / 4096 % 16 * 4096
mask_top a =
    bit_and-bitwise a 0xf000
    ∙ and_doubles 12 a a 15 (omega arith)
    ∙ ap (doubles 12) (digits-mask 4 (a - 12) (halves 12 a) (omega arith))
    ∙ omega arith

or_nothing : (n a : ℕ) → a ≤ n → digits (λ b. b) max n a 0 ≡ a
or_nothing zero zero h = refl
or_nothing (suc n) zero h = refl
or_nothing zero (suc a) h = absurd (omega arith)
or_nothing (suc n) (suc a) h = omega (arith, or_nothing n (suc a / 2) (omega arith))

or_zero : (a : ℕ) → bit_or a to_vlan ≡ a
or_zero a = bit_or-bitwise a 0 ∙ or_nothing a a (omega arith)

store8_in : (xs : Packet) (i v : ℕ) → i < length xs → store8 xs i v ≡ some (set xs i v)
unfolding store8
store8_in [] i v h = absurd (omega arith)
store8_in (x ∷ xs) zero v h = refl
store8_in (x ∷ xs) (suc i) v h = rw (store8_in xs i v (omega arith)) refl

store16_in :
    (xs : Packet) (i v : ℕ)
    → i + 2 ≤ length xs
    → store16 xs i v ≡ some (set (set xs i (v / 256)) (i + 1) (v % 256))
unfolding store16
store16_in xs i v h =
    rw (store8_in xs i (v / 256) (omega arith))
      (store8_in (set xs i (v / 256)) (i + 1) (v % 256) (omega (arith, length-set xs i (v / 256))))

-- The frame with the low twelve bits of the outer TCI cleared.
abbrev pub vlan_zeroed : Packet → Packet
vlan_zeroed xs = set (set xs 14 (be16 xs 14 / 4096 % 16 * 16)) 15 0

-- All branches of `xdp_prognum1`: the packet is too small, it is not in the VLAN, or it is and is changed.
pub data Changed (xs : Packet) : Option (Action × Packet) → Type 0 where
  refused : length xs < 22 → Changed xs (some (aborted, xs))
  other_vlan :
      22 ≤ length xs
      → (is_vlan (be16 xs 12) ≡ true → bit_and (be16 xs 14) 0x0fff ≢ testvlan)
      → Changed xs (some (pass, xs))
  zeroed :
      22 ≤ length xs
      → is_vlan (be16 xs 12) ≡ true
      → bit_and (be16 xs 14) 0x0fff ≡ testvlan
      → Changed xs (some (pass, vlan_zeroed xs))

module _ (xs : Packet) where
  abbrev put_tci : ℕ → ℕ → Option (Action × Packet)
  put_tci offset tci =
      store16 xs offset (bit_or (bit_and tci 0xf000) to_vlan) >>= λ d. some (pass, d)

  change : Bool × ParsePkt → Option (Action × Packet)
  unfolding store16
  change (ok, pkt) =
      if not ok
      then some (aborted, xs)
      else if pkt.vlan_outer == testvlan
      then (load16 xs pkt.vlan_outer_offset >>= put_tci pkt.vlan_outer_offset)
      else some (pass, xs)

  stored : 22 ≤ length xs → (load16 xs 14 >>= put_tci 14) ≡ some (pass, vlan_zeroed xs)
  stored large =
      rw
        (
          load16_in xs 14 (omega arith),
          or_zero (bit_and (be16 xs 14) 0xf000),
          mask_top (be16 xs 14),
          store16_in xs 14 (be16 xs 14 / 4096 % 16 * 4096) (omega arith),
        )
        (ap₂ (λ a b. some (pass, set (set xs 14 a) 15 b)) high low)
    where
      high : be16 xs 14 / 4096 % 16 * 4096 / 256 ≡ be16 xs 14 / 4096 % 16 * 16
      high = omega arith

      low : be16 xs 14 / 4096 % 16 * 4096 % 256 ≡ 0
      low = omega arith

  change-Changed : {r : Option (Bool × ParsePkt)} → Parsed xs r → Changed xs (r >>= change)
  unfolding change
  change-Changed (too_small lt) = refused lt
  change-Changed (parsed large (plain no_tag)) = other_vlan large (λ tag. cc)
  change-Changed (parsed large (single tag one)) =
      elim (ℕ_discrete (bit_and (be16 xs 14) 0x0fff) testvlan) [
        | yes e ↦
            rw (eq→== (bit_and (be16 xs 14) 0x0fff) testvlan e, stored large) (zeroed large tag e)
        | no ne ↦
            rw (ne→== (bit_and (be16 xs 14) 0x0fff) testvlan ne) (other_vlan large (λ tag'. ne))
      ]
  change-Changed (parsed large (double tag two)) =
      elim (ℕ_discrete (bit_and (be16 xs 14) 0x0fff) testvlan) [
        | yes e ↦
            rw (eq→== (bit_and (be16 xs 14) 0x0fff) testvlan e, stored large) (zeroed large tag e)
        | no ne ↦
            rw (ne→== (bit_and (be16 xs 14) 0x0fff) testvlan ne) (other_vlan large (λ tag'. ne))
      ]

  xdp_prognum1-Changed : Changed xs (xdp_prognum1 xs)
  unfolding xdp_prognum1 change
  xdp_prognum1-Changed = change-Changed (parse_eth_frame-Parsed xs)

  -- Who is not in VLAN 4011 passes the other program.
  keep : Bool × ParsePkt → Option Action
  keep (ok, pkt) =
      some (if not ok then aborted else if pkt.vlan_outer == testvlan then aborted else pass)

  passes :
      22 ≤ length xs
      → (is_vlan (be16 xs 12) ≡ true → bit_and (be16 xs 14) 0x0fff ≢ testvlan)
      → {r : Option (Bool × ParsePkt)} → Parsed xs r
      → (r >>= keep) ≡ some pass
  unfolding keep
  passes large other (too_small lt) = absurd (omega arith)
  passes large other (parsed large' (plain no_tag)) = refl
  passes large other (parsed large' (single tag one)) =
      rw (ne→== (bit_and (be16 xs 14) 0x0fff) testvlan (other tag)) refl
  passes large other (parsed large' (double tag two)) =
      rw (ne→== (bit_and (be16 xs 14) 0x0fff) testvlan (other tag)) refl

  xdp_prognum0_passes :
      22 ≤ length xs
      → (is_vlan (be16 xs 12) ≡ true → bit_and (be16 xs 14) 0x0fff ≢ testvlan)
      → xdp_prognum0 xs ≡ some pass
  unfolding xdp_prognum0 keep
  xdp_prognum0_passes large other = passes large other (parse_eth_frame-Parsed xs)

module _ (xs : Packet) where
  zeroed_passes : 22 ≤ length xs → xdp_prognum0 (vlan_zeroed xs) ≡ some pass
  zeroed_passes large =
      xdp_prognum0_passes (vlan_zeroed xs) (omega (arith, len))
        (λ tag e. absurd (omega (arith, e, bit_and_mask 12 (be16 (vlan_zeroed xs) 14), high, low)))
    where
      top : ℕ
      top = be16 xs 14 / 4096 % 16 * 16

      len : length (vlan_zeroed xs) ≡ length xs
      len = length-set (set xs 14 top) 15 0 ∙ length-set xs 14 top

      high : byte (vlan_zeroed xs) 14 ≡ top
      high =
          get_or-set_ne (set xs 14 top) 15 14 0 0 (λ e. absurd (omega arith))
          ∙ get_or-set_self xs 14 top 0 (omega arith)

      low : byte (vlan_zeroed xs) 15 ≡ 0
      low = get_or-set_self (set xs 14 top) 15 0 0 (omega (arith, length-set xs 14 top))

  -- `xdp_prognum1` faults on no packet; it clears the VLAN of a frame in VLAN 4011, keeps the top
  -- four bits of its tag, and changes no other. What it passes on, `xdp_prognum0` passes.
  pub changed_passes :
      Changed xs (xdp_prognum1 xs)
      × ((ys : Packet) → xdp_prognum1 xs ≡ some (pass, ys) → xdp_prognum0 ys ≡ some pass)
  changed_passes = (xdp_prognum1-Changed xs, λ ys e. go (xdp_prognum1-Changed xs) e)
    where
      go :
          {ys : Packet} {r : Option (Action × Packet)}
          → Changed xs r
          → r ≡ some (pass, ys)
          → xdp_prognum0 ys ≡ some pass
      go (refused lt) e = absurd cc
      go {ys} (other_vlan large other) e =
          let same : xs ≡ ys = cc in ap xdp_prognum0 (sym same) ∙ xdp_prognum0_passes xs large other
      go {ys} (zeroed large tag vlan) e =
          let same : vlan_zeroed xs ≡ ys = cc in ap xdp_prognum0 (sym same) ∙ zeroed_passes large
