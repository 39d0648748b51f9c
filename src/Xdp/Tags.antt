-- ===== src/Xdp/Tags.antt =====
-- What `parse_eth_frame` of xdp_vlan01_kern.c finds, and the programs that drop or change a VLAN.
use prototype_kernel.Base.{
  ◌≤◌, ◌<◌, ◌≡◌, inl, inr, arith, Option, some, Bool, true, false, length, bit_and, lt→ltb, ge→ltb,
  Bool-cases,
}
use prototype_kernel.Xdp.Packet.{Packet, be16, load16_in}
use prototype_kernel.Xdp.Eth.{is_vlan}
use prototype_kernel.Xdp.Vlan.{ParsePkt, no_pkt, outer_tag, inner_tag, parse_eth_frame}
use native.Mathlib.Decide.{dec_lt}

-- The parse of a frame by its tags: none, one, or two.
pub data ParsedAs (xs : Packet) : ParsePkt → Type 0 where
  plain :
      is_vlan (be16 xs 12) ≡ false
      → ParsedAs xs (record no_pkt { l3_proto = be16 xs 12; l3_offset = 14 })
  single :
      is_vlan (be16 xs 12) ≡ true
      → is_vlan (be16 xs 16) ≡ false
      → ParsedAs xs (record no_pkt {
        l3_proto = be16 xs 16;
        l3_offset = 18;
        vlan_outer = bit_and (be16 xs 14) 0x0fff;
        vlan_outer_offset = 14;
      })
  double :
      is_vlan (be16 xs 12) ≡ true
      → is_vlan (be16 xs 16) ≡ true
      → ParsedAs xs (record {
        l3_proto = be16 xs 20;
        l3_offset = 22;
        vlan_outer = bit_and (be16 xs 14) 0x0fff;
        vlan_inner = bit_and (be16 xs 18) 0x0fff;
        vlan_outer_offset = 14;
        vlan_inner_offset = 18;
      })

-- A packet is parsed if it has room for the Ethernet header and two tags.
pub data Parsed (xs : Packet) : Option (Bool × ParsePkt) → Type 0 where
  too_small : length xs < 22 → Parsed xs (some (false, no_pkt))
  parsed : {p : ParsePkt} → 22 ≤ length xs → ParsedAs xs p → Parsed xs (some (true, p))

pub parse_eth_frame-Parsed : (xs : Packet) → Parsed xs (parse_eth_frame xs no_pkt)
unfolding parse_eth_frame outer_tag inner_tag
parse_eth_frame-Parsed xs = elim (dec_lt (length xs) 22) [
  | yes lt ↦ rw (lt→ltb (length xs) 22 lt) (too_small lt)
  | no ge ↦ elim (Bool-cases (is_vlan (be16 xs 12))) [
    | inr no_tag ↦
        rw (ge→ltb (length xs) 22 (omega arith), load16_in xs 12 (omega arith), no_tag, no_tag)
          (parsed (omega arith) (plain no_tag))
    | inl tag ↦ elim (Bool-cases (is_vlan (be16 xs 16))) [
      | inr one ↦
          rw
            (
              ge→ltb (length xs) 22 (omega arith),
              load16_in xs 12 (omega arith),
              tag,
              load16_in xs 14 (omega arith),
              load16_in xs 16 (omega arith),
              one,
            )
            (parsed (omega arith) (single tag one))
      | inl two ↦
          rw
            (
              ge→ltb (length xs) 22 (omega arith),
              load16_in xs 12 (omega arith),
              tag,
              load16_in xs 14 (omega arith),
              load16_in xs 16 (omega arith),
              two,
              load16_in xs 18 (omega arith),
              load16_in xs 20 (omega arith),
            )
            (parsed (omega arith) (double tag two))
    ]
  ]
]
