-- ===== src/Xdp/Vlan.antt =====
-- The XDP programs of kernel/samples/bpf/xdp_vlan01_kern.c.
use prototype_kernel.Base.{
  ℕ, zero, suc, ◌+◌, ◌*◌, ◌/◌, ◌%◌, List, [], ◌∷◌, Option, none, some, ◌>>=◌, Bool, true, false,
  not, ltb, ◌==◌, if◌then◌else◌, length, bit_and,
}
use prototype_kernel.Xdp.Packet.{Packet, Action, aborted, pass, load8, load16}
use prototype_kernel.Xdp.Eth.{is_vlan}
use Prim.Native.Nat.{bit_or}

-- `struct parse_pkt`
pub record ParsePkt : Type 0 where
  pub l3_proto : ℕ
  pub l3_offset : ℕ
  pub vlan_outer : ℕ
  pub vlan_inner : ℕ
  pub vlan_outer_offset : ℕ
  pub vlan_inner_offset : ℕ

-- `struct parse_pkt pkt = { 0 }`
abbrev pub no_pkt : ParsePkt
no_pkt = record {
  l3_proto = 0;
  l3_offset = 0;
  vlan_outer = 0;
  vlan_inner = 0;
  vlan_outer_offset = 0;
  vlan_inner_offset = 0;
}

-- The blocks of `parse_eth_frame` for the outer and the inner tag: the parse, `eth_type` and `offset`.
unfoldable pub outer_tag : Packet → ParsePkt → ℕ → ℕ → Option (ParsePkt × ℕ × ℕ)
outer_tag bytes pkt eth_type offset =
    if is_vlan eth_type
    then (load16 bytes offset >>= λ tci. load16 bytes (offset + 2) >>= λ t.
        some (
          record pkt { vlan_outer_offset = offset; vlan_outer = bit_and tci 0x0fff },
          t,
          offset + 4,
        ))
    else some (pkt, eth_type, offset)

unfoldable pub inner_tag : Packet → ParsePkt → ℕ → ℕ → Option (ParsePkt × ℕ × ℕ)
inner_tag bytes pkt eth_type offset =
    if is_vlan eth_type
    then (load16 bytes offset >>= λ tci. load16 bytes (offset + 2) >>= λ t.
        some (
          record pkt { vlan_inner_offset = offset; vlan_inner = bit_and tci 0x0fff },
          t,
          offset + 4,
        ))
    else some (pkt, eth_type, offset)

-- `parse_eth_frame`: whether the packet is large enough, and the parse
unfoldable pub parse_eth_frame : Packet → ParsePkt → Option (Bool × ParsePkt)
unfolding outer_tag inner_tag
parse_eth_frame bytes pkt =
    if ltb (length bytes) (14 + 8)
    then some (false, pkt)
    else (load16 bytes 12 >>= λ eth_type. outer_tag bytes pkt eth_type 14 >>= λ (p, t, o).
        inner_tag bytes p t o >>= λ (q, u, l3).
        some (true, record q { l3_proto = u; l3_offset = l3 }))

-- TESTVLAN and TO_VLAN
abbrev pub testvlan : ℕ
testvlan = 4011

abbrev pub to_vlan : ℕ
to_vlan = 0

-- `xdp_prognum0`
unfoldable pub xdp_prognum0 : Packet → Option Action
unfolding parse_eth_frame
xdp_prognum0 bytes = parse_eth_frame bytes no_pkt >>= λ (ok, pkt).
    some (if not ok then aborted else if pkt.vlan_outer == testvlan then aborted else pass)

-- Stores of a byte, of a 16-bit number in network byte order, and of bytes one after the other. A store
-- past the end of the packet faults.
unfoldable pub store8 : Packet → ℕ → ℕ → Option Packet
store8 [] i v = none
store8 (b ∷ bytes) zero v = some (v ∷ bytes)
store8 (b ∷ bytes) (suc i) v = store8 bytes i v >>= λ stored. some (b ∷ stored)

unfoldable pub store16 : Packet → ℕ → ℕ → Option Packet
unfolding store8
store16 bytes i v = store8 bytes i (v / 256) >>= λ d. store8 d (i + 1) (v % 256)

unfoldable pub store_bytes : Packet → ℕ → List ℕ → Option Packet
unfolding store8
store_bytes bytes i [] = some bytes
store_bytes bytes i (v ∷ vs) = store8 bytes i v >>= λ d. store_bytes d (i + 1) vs

unfoldable pub load_bytes : Packet → ℕ → ℕ → Option (List ℕ)
unfolding load8
load_bytes bytes i zero = some []
load_bytes bytes i (suc n) =
    load8 bytes i >>= λ v. load_bytes bytes (i + 1) n >>= λ vs. some (v ∷ vs)

-- `xdp_prognum1`: also the packet
unfoldable pub xdp_prognum1 : Packet → Option (Action × Packet)
unfolding parse_eth_frame store16
xdp_prognum1 bytes = parse_eth_frame bytes no_pkt >>= λ (ok, pkt).
    if not ok
    then some (aborted, bytes)
    else if pkt.vlan_outer == testvlan
    then (load16 bytes pkt.vlan_outer_offset >>= λ tci.
        store16 bytes pkt.vlan_outer_offset (bit_or (bit_and tci 0xf000) to_vlan) >>= λ d.
        some (pass, d))
    else some (pass, bytes)

-- `memmove(data + dst, data + src, n)`, as if through a buffer
unfoldable pub memmove : Packet → ℕ → ℕ → ℕ → Option Packet
unfolding load_bytes store_bytes
memmove bytes dst src n = load_bytes bytes src n >>= λ vs. store_bytes bytes dst vs

-- `p[i] = p[j]` on words of the size
abbrev pub assign : ℕ → ℕ → ℕ → Packet → Option Packet
assign size i j bytes = memmove bytes (size * i) (size * j) size

-- `shift_mac_4bytes_16bit`
unfoldable pub shift_mac_4bytes_16bit : Packet → Option Packet
unfolding memmove
shift_mac_4bytes_16bit bytes =
    assign 2 7 5 bytes
    >>= assign 2 6 4
    >>= assign 2 5 3
    >>= assign 2 4 2
    >>= assign 2 3 1
    >>= assign 2 2 0

-- `shift_mac_4bytes_32bit`
unfoldable pub shift_mac_4bytes_32bit : Packet → Option Packet
unfolding memmove
shift_mac_4bytes_32bit bytes = assign 4 3 2 bytes >>= assign 4 2 1 >>= assign 4 1 0

-- `bpf_xdp_adjust_head(ctx, delta)`: the packet after it. The programs ignore what it returns.
module _ (adjust_head : Packet → ℕ → Packet) where
  -- `xdp_prognum2`
  unfoldable pub xdp_prognum2 : Packet → Option (Action × Packet)
  unfolding parse_eth_frame memmove
  xdp_prognum2 bytes = parse_eth_frame bytes no_pkt >>= λ (ok, pkt).
      if not ok
      then some (aborted, bytes)
      else if pkt.vlan_outer_offset == 0
      then some (pass, bytes)
      else (memmove bytes 4 0 (6 * 2) >>= λ d. some (pass, adjust_head d 4))

  -- `xdp_prognum3`
  unfoldable pub xdp_prognum3 : Packet → Option (Action × Packet)
  unfolding parse_eth_frame shift_mac_4bytes_32bit
  xdp_prognum3 bytes = parse_eth_frame bytes no_pkt >>= λ (ok, pkt).
      if not ok
      then some (aborted, bytes)
      else if pkt.vlan_outer_offset == 0
      then some (pass, bytes)
      else (shift_mac_4bytes_32bit bytes >>= λ d. some (pass, adjust_head d 4))
