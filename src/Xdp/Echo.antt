-- ===== src/Xdp/Echo.antt =====
-- What xdp_bench01_mem_access_cost_kern.c sends back.
use prototype_kernel.Base.{
  ℕ, ◌≤◌, ◌<◌, ◌≡◌, refl, sym, ap, ◌∙◌, arith, ◌∷◌, ◌++◌, some, ◌>>=◌, true, false, ltb, ◌==◌,
  if◌then◌else◌, length, take, drop, bit_and, lt→ltb, ge→ltb,
}
use mathlib.Core.Path.{subst}
use prototype_kernel.Xdp.Packet.{Packet, be16, load8, load16, load16_in, bump}
use prototype_kernel.Xdp.Eth.{eth_p_802_3_min}
use prototype_kernel.Xdp.Vlan.{load_bytes, store_bytes, store8, memmove}
use prototype_kernel.Xdp.Untag.{bytes_from, drop-bytes_from}
use prototype_kernel.Xdp.MemAccess.{
  Maps, swap_src_dst_mac, left, read_mem, swap_if, touch, count_rx, with_action, xdp_prog,
}

-- The frame with its MAC addresses swapped, as the receiver sends it back.
abbrev pub echo : Packet → Packet
echo pkt = take 6 (drop 6 pkt) ++ take 6 pkt ++ drop 12 pkt

abbrev Swaps : Packet → Type 0
Swaps pkt =
    (swap_src_dst_mac pkt ≡ some (echo pkt))
    × (length (echo pkt) ≡ length pkt)
    × (echo (echo pkt) ≡ pkt)
    × (be16 (echo pkt) 12 ≡ be16 pkt 12)

twelve :
    (b0 b1 b2 b3 b4 b5 b6 b7 b8 b9 b10 b11 : ℕ) (rest : Packet)
    → Swaps (b0 ∷ b1 ∷ b2 ∷ b3 ∷ b4 ∷ b5 ∷ b6 ∷ b7 ∷ b8 ∷ b9 ∷ b10 ∷ b11 ∷ rest)
unfolding swap_src_dst_mac memmove load_bytes store_bytes store8 load8
twelve b0 b1 b2 b3 b4 b5 b6 b7 b8 b9 b10 b11 rest = (refl, refl, refl, refl)

swap-echo : (pkt : Packet) → 12 ≤ length pkt → Swaps pkt
swap-echo pkt h = subst Swaps (sym whole) (twelve _ _ _ _ _ _ _ _ _ _ _ _ _)
  where
    whole : pkt ≡ bytes_from pkt 0 12 ++ drop 12 pkt
    whole = drop-bytes_from pkt 12 0 h

reads :
    (pkt : Packet) (t : ℕ)
    → 14 ≤ length pkt
    → eth_p_802_3_min ≤ be16 pkt 12
    → read_mem pkt t ≡ some false
unfolding read_mem
reads pkt t h type =
    elim (bit_and t 1 == 0)
      as (λ b.
        (if b then some false else (load16 pkt 12 >>= λ e. some (ltb e eth_p_802_3_min)))
        ≡ some false) [
          | true ↦ refl
          | false ↦ rw (load16_in pkt 12 h) (ap some (ge→ltb (be16 pkt 12) eth_p_802_3_min type))
        ]

-- A packet more.
abbrev pub counted : Maps → Maps
counted m = record m { rx_cnt = bump m.rx_cnt 0 }

module _ (t : ℕ) (on : 0 < t) where
  touches :
      (pkt : Packet)
      → 14 ≤ length pkt
      → eth_p_802_3_min ≤ be16 pkt 12
      → touch pkt 3 (some t) ≡ some (left (echo pkt))
  unfolding touch swap_if
  touches pkt h type = rw (lt→ltb 0 t on, reads pkt t h type, (swap-echo pkt (omega arith)).0) refl

  answers :
      (pkt : Packet) (m : Maps)
      → 14 ≤ length pkt
      → eth_p_802_3_min ≤ be16 pkt 12
      → m.xdp_action ≡ some 3
      → m.touch_memory ≡ some t
      → xdp_prog pkt m ≡ some (3, echo pkt, counted m)
  unfolding xdp_prog with_action count_rx
  answers pkt m h type action touching =
      ap (λ b. if b then some (1, pkt, m) else with_action pkt m m.xdp_action)
        (ge→ltb (length pkt) 14 h)
      ∙ ap (with_action pkt m) action
      ∙ ap (λ o. touch pkt 3 o >>= λ a. some (count_rx pkt m 3 a)) touching
      ∙ ap (λ o. o >>= λ a. some (count_rx pkt m 3 a)) (touches pkt h type)

  -- With XDP_TX chosen and touching on, a frame that has a whole Ethernet header and whose type is
  -- no length is sent back with its MAC addresses swapped and all else as it was; sent in again,
  -- the answer comes back as the frame itself; and each time one packet is counted.
  pub sent_back :
      (pkt : Packet) (m : Maps)
      → 14 ≤ length pkt
      → eth_p_802_3_min ≤ be16 pkt 12
      → m.xdp_action ≡ some 3
      → m.touch_memory ≡ some t
      → (xdp_prog pkt m ≡ some (3, echo pkt, counted m))
        × (xdp_prog (echo pkt) (counted m) ≡ some (3, pkt, counted (counted m)))
  sent_back pkt m h type action touching =
      let (swaps, len, twice, same) = swap-echo pkt (omega arith) in
      (
        answers pkt m h type action touching,
        answers (echo pkt) (counted m) (omega (arith, len)) (omega (arith, same)) action touching
            ∙ ap (λ p. some (3, p, counted (counted m))) twice,
      )
