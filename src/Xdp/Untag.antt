-- ===== src/Xdp/Untag.antt =====
-- The three ways in xdp_vlan01_kern.c to take the outer VLAN tag out of a frame.
use prototype_kernel.Base.{
  ℕ, zero, suc, ◌+◌, ◌*◌, ◌≤◌, ◌<◌, ◌≡◌, refl, sym, ap, ◌∙◌, arith, [], ◌∷◌, ◌++◌, Option, some,
  ◌>>=◌, Bool, true, false, not, ◌==◌, if◌then◌else◌, length, get_or, take, drop,
}
use mathlib.Core.Path.{subst}
use prototype_kernel.Copy.Slots.{drop-cons}
use prototype_kernel.Xdp.Packet.{Packet, Action, aborted, pass, load8, be16}
use prototype_kernel.Xdp.Eth.{is_vlan}
use prototype_kernel.Xdp.Tags.{
  plain, single, double, Parsed, too_small, parsed, parse_eth_frame-Parsed,
}
use prototype_kernel.Xdp.Vlan.{
  ParsePkt, memmove, load_bytes, store_bytes, store8, shift_mac_4bytes_16bit,
  shift_mac_4bytes_32bit, xdp_prognum2, xdp_prognum3,
}

-- The bytes from `i` on.
abbrev pub bytes_from : Packet → ℕ → ℕ → Packet
bytes_from xs i zero = []
bytes_from xs i (suc n) = get_or xs i 0 ∷ bytes_from xs (i + 1) n

pub drop-bytes_from :
    (xs : Packet) (n i : ℕ) → i + n ≤ length xs → drop i xs ≡ bytes_from xs i n ++ drop (i + n) xs
drop-bytes_from xs zero i h = ap (λ t. drop t xs) (omega arith)
drop-bytes_from xs (suc n) i h =
    drop-cons xs i 0 (omega arith)
    ∙ ap (λ t. get_or xs i 0 ∷ t)
        (ap (λ t. drop t xs) next
          ∙ drop-bytes_from xs n (i + 1) (omega arith)
          ∙ ap (λ t. bytes_from xs (i + 1) n ++ drop t xs) end)
  where
    next : suc i ≡ i + 1
    next = omega arith

    end : i + 1 + n ≡ i + suc n
    end = omega arith

-- Both MAC addresses moved by four bytes, over the type and the tag.
abbrev pub macs_moved : Packet → Packet
macs_moved xs = take 4 xs ++ take 12 xs ++ drop 16 xs

abbrev pub Moves : Packet → Type 0
Moves xs =
    (memmove xs 4 0 12 ≡ some (macs_moved xs))
    × (shift_mac_4bytes_16bit xs ≡ some (macs_moved xs))
    × (shift_mac_4bytes_32bit xs ≡ some (macs_moved xs))
    × (drop 4 (macs_moved xs) ≡ take 12 xs ++ drop 16 xs)
    × (length (macs_moved xs) ≡ length xs)

sixteen :
    (b0 b1 b2 b3 b4 b5 b6 b7 b8 b9 b10 b11 b12 b13 b14 b15 : ℕ) (rest : Packet)
    → Moves
        (b0 ∷ b1 ∷ b2 ∷ b3 ∷ b4 ∷ b5 ∷ b6 ∷ b7 ∷ b8 ∷ b9 ∷ b10 ∷ b11 ∷ b12 ∷ b13 ∷ b14 ∷ b15 ∷ rest)
unfolding memmove load_bytes store_bytes store8 load8 shift_mac_4bytes_16bit shift_mac_4bytes_32bit
sixteen b0 b1 b2 b3 b4 b5 b6 b7 b8 b9 b10 b11 b12 b13 b14 b15 rest = (refl, refl, refl, refl, refl)

-- A memmove of both MAC addresses does what the two word-by-word shifts do.
pub shifts_agree : (xs : Packet) → 16 ≤ length xs → Moves xs
shifts_agree xs h = subst Moves (sym whole) (sixteen _ _ _ _ _ _ _ _ _ _ _ _ _ _ _ _ _)
  where
    whole : xs ≡ bytes_from xs 0 16 ++ drop 16 xs
    whole = drop-bytes_from xs 16 0 h

-- What a program that removes the outer tag does: nothing to a packet that is too small or has no tag, or
-- it takes the four bytes behind the MAC addresses out, so that the tag's type is the frame's.
pub data Removal (xs : Packet) : Option (Action × Packet) → Type 0 where
  refused : length xs < 22 → Removal xs (some (aborted, xs))
  no_outer : 22 ≤ length xs → is_vlan (be16 xs 12) ≡ false → Removal xs (some (pass, xs))
  removed :
      22 ≤ length xs
      → is_vlan (be16 xs 12) ≡ true
      → Removal xs (some (pass, take 12 xs ++ drop 16 xs))

module _ (adjust_head : Packet → ℕ → Packet)
    (moves_head : (xs : Packet) → 18 ≤ length xs → adjust_head xs 4 ≡ drop 4 xs) where
  stripped :
      (xs : Packet) → 22 ≤ length xs → adjust_head (macs_moved xs) 4 ≡ take 12 xs ++ drop 16 xs
  stripped xs large =
      let (mv, by16, by32, head, len) = shifts_agree xs (omega arith) in
      moves_head (macs_moved xs) (omega (arith, len)) ∙ head

  -- The two programs that remove the outer tag, with memmove and with 32-bit words, both do so on
  -- every packet, and fault on none.
  pub removals_agree :
      (xs : Packet)
      → Removal xs (xdp_prognum2 adjust_head xs)
        × (xdp_prognum3 adjust_head xs ≡ xdp_prognum2 adjust_head xs)
  unfolding xdp_prognum2 xdp_prognum3
  removals_agree xs = go (parse_eth_frame-Parsed xs)
    where
      by_memmove : Bool × ParsePkt → Option (Action × Packet)
      by_memmove (ok, pkt) =
          if not ok
          then some (aborted, xs)
          else if pkt.vlan_outer_offset == 0
          then some (pass, xs)
          else (memmove xs 4 0 (6 * 2) >>= λ d. some (pass, adjust_head d 4))

      by_words : Bool × ParsePkt → Option (Action × Packet)
      by_words (ok, pkt) =
          if not ok
          then some (aborted, xs)
          else if pkt.vlan_outer_offset == 0
          then some (pass, xs)
          else (shift_mac_4bytes_32bit xs >>= λ d. some (pass, adjust_head d 4))

      tagged_removed :
          (p : ParsePkt)
          → (p.vlan_outer_offset == 0) ≡ false
          → 22 ≤ length xs
          → is_vlan (be16 xs 12) ≡ true
          → Removal xs (by_memmove (true, p)) × (by_words (true, p) ≡ by_memmove (true, p))
      tagged_removed p e large tag =
          let (mv, by16, by32, head, len) = shifts_agree xs (omega arith) in
          rw (e, mv, by32, stripped xs large) (removed large tag, refl)

      go :
          {r : Option (Bool × ParsePkt)}
          → Parsed xs r
          → Removal xs (r >>= by_memmove) × ((r >>= by_words) ≡ (r >>= by_memmove))
      go (too_small lt) = (refused lt, refl)
      go (parsed large (plain no_tag)) = (no_outer large no_tag, refl)
      go (parsed {p} large (single tag one)) = tagged_removed p refl large tag
      go (parsed {p} large (double tag two)) = tagged_removed p refl large tag
