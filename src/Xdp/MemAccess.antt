-- ===== src/Xdp/MemAccess.antt =====
-- kernel/samples/bpf/xdp_bench01_mem_access_cost_kern.c: packets counted, read, and sent back.
use prototype_kernel.Base.{
  ℕ, ◌%◌, ◌^◌, Option, none, some, ◌>>=◌, Bool, false, ◌||◌, not, ltb, ◌==◌, if◌then◌else◌, length,
  bit_and,
}
use prototype_kernel.Xdp.Packet.{Packet, load16, BpfMap, bump}
use prototype_kernel.Xdp.Eth.{eth_p_802_3_min}
use prototype_kernel.Xdp.Vlan.{load_bytes, store_bytes, memmove, assign}

-- The maps, of one CPU: what a lookup of key 0 finds in the two that are only read, and the counter.
pub record Maps : Type 0 where
  pub xdp_action : Option ℕ
  pub touch_memory : Option ℕ
  pub rx_cnt : BpfMap

-- `swap_src_dst_mac`, on words of two bytes
unfoldable pub swap_src_dst_mac : Packet → Option Packet
unfolding load_bytes store_bytes memmove
swap_src_dst_mac pkt = load_bytes pkt 0 2 >>= λ dst0. load_bytes pkt 2 2 >>= λ dst1.
    load_bytes pkt 4 2 >>= λ dst2. (assign 2 0 3 pkt >>= assign 2 1 4 >>= assign 2 2 5) >>= λ p.
    store_bytes p 6 dst0 >>= λ q. store_bytes q 8 dst1 >>= λ r. store_bytes r 10 dst2

-- How the block that touches the packet is left: `return XDP_DROP`, or with the packet.
pub data Touched : Type 0 where
  dropped : Touched
  left : Packet → Touched

-- `if (*touch_mem & 1) {...}`: whether it returns XDP_DROP
unfoldable pub read_mem : Packet → ℕ → Option Bool
unfolding load16
read_mem pkt touch_mem =
    if bit_and touch_mem 1 == 0
    then some false
    else (load16 pkt 12 >>= λ eth_type. some (ltb eth_type eth_p_802_3_min))

-- `if (*action == XDP_TX || (*touch_mem & 2)) swap_src_dst_mac(data)`
unfoldable pub swap_if : Packet → ℕ → ℕ → Option Packet
unfolding swap_src_dst_mac
swap_if pkt action touch_mem =
    if action == 3 || not (bit_and touch_mem 2 == 0) then swap_src_dst_mac pkt else some pkt

-- `if (touch_mem && (*touch_mem > 0)) {...}`, with what the lookup found
unfoldable pub touch : Packet → ℕ → Option ℕ → Option Touched
unfolding read_mem swap_if
touch pkt action none = some (left pkt)
touch pkt action (some touch_mem) =
    if ltb 0 touch_mem
    then (read_mem pkt touch_mem >>= λ bad.
        if bad then some dropped else (swap_if pkt action touch_mem >>= λ d. some (left d)))
    else some (left pkt)

-- `xdp_prog` behind that block.
unfoldable pub count_rx : Packet → Maps → ℕ → Touched → ℕ × Packet × Maps
unfolding bump
count_rx pkt m action dropped = (1, pkt, m)
count_rx pkt m action (left d) = (action, d, record m { rx_cnt = bump m.rx_cnt 0 })

-- `xdp_prog` from the lookup of the action on, with what it found; the pointer is to an int.
unfoldable pub with_action : Packet → Maps → Option ℕ → Option (ℕ × Packet × Maps)
unfolding touch count_rx
with_action pkt m none = some (1, pkt, m)
with_action pkt m (some v) =
    touch pkt (v % 2 ^ 32) m.touch_memory >>= λ t. some (count_rx pkt m (v % 2 ^ 32) t)

-- `xdp_prog`: the number of its verdict, the packet and the maps
unfoldable pub xdp_prog : Packet → Maps → Option (ℕ × Packet × Maps)
unfolding with_action
xdp_prog pkt m = if ltb (length pkt) 14 then some (1, pkt, m) else with_action pkt m m.xdp_action
