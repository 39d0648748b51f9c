-- ===== src/Xdp/Ddos.antt =====
-- kernel/samples/bpf/xdp_ddos01_blacklist_kern.c: drops by source address and by destination port.
use prototype_kernel.Base.{
  ℕ, ◌+◌, ◌-◌, ◌%◌, ◌^◌, Option, none, some, ◌>>=◌, ltb, leb, ◌==◌, if◌then◌else◌, length, bit_and,
}
use prototype_kernel.Xdp.Packet.{
  Packet, Action, aborted, drop, pass, code, load8, load16, load32_raw, BpfMap, put, bump,
}
use prototype_kernel.Xdp.Eth.{eth_p_ip, reject, found, parse_eth_double}

-- The maps, of one CPU: `blacklist` by address, `verdict_cnt` by action, the others by port.
pub record Maps : Type 0 where
  pub blacklist : BpfMap
  pub verdict_cnt : BpfMap
  pub port_blacklist : BpfMap
  pub drop_count_tcp : BpfMap
  pub drop_count_udp : BpfMap

-- DDOS_FILTER_TCP and DDOS_FILTER_UDP
pub data Filter : Type 0 where
  filter_tcp filter_udp : Filter

unfoldable pub fproto : Filter → ℕ
fproto filter_tcp = 0
fproto filter_udp = 1

-- `*drops += 1` on the counters, which are u64: `drops` is a pointer to u32, so the low word of the
-- counter (the machine is little-endian) goes up by one and wraps with no carry.
unfoldable pub count_low : BpfMap → ℕ → BpfMap
unfolding put
count_low m k = elim (m k) [ none ↦ m | some v ↦ put m k (v - v % 2 ^ 32 + (v + 1) % 2 ^ 32) ]

-- `drop_count_by_fproto`, and the count
unfoldable pub count_drop : Maps → Filter → ℕ → Maps
unfolding count_low
count_drop m filter_tcp dport = record m { drop_count_tcp = count_low m.drop_count_tcp dport }
count_drop m filter_udp dport = record m { drop_count_udp = count_low m.drop_count_udp dport }

-- `stats_action_verdict`
unfoldable pub stats_action_verdict : Maps → Action → Maps
unfolding bump code
stats_action_verdict m action =
    if leb 4 (code action) then m else record m { verdict_cnt = bump m.verdict_cnt (code action) }

-- The end of `parse_port`, with the port.
unfoldable pub port_verdict : Maps → Filter → ℕ → Action × Maps
unfolding fproto count_drop
port_verdict m filter dport = elim (m.port_blacklist dport) [
  | none ↦ (pass, m)
  | some value ↦
      if bit_and value (2 ^ fproto filter) == 0
      then (pass, m)
      else (drop, count_drop m filter dport)
]

-- `parse_port`
unfoldable pub parse_port : Packet → Maps → ℕ → ℕ → Option (Action × Maps)
unfolding port_verdict
parse_port pkt m proto hdr =
    if proto == 17
    then (if ltb (length pkt) (hdr + 8)
        then some (aborted, m)
        else (load16 pkt (hdr + 2) >>= λ dport. some (port_verdict m filter_udp dport)))
    else if proto == 6
    then (if ltb (length pkt) (hdr + 20)
        then some (aborted, m)
        else (load16 pkt (hdr + 2) >>= λ dport. some (port_verdict m filter_tcp dport)))
    else some (pass, m)

-- `parse_ipv4`
unfoldable pub parse_ipv4 : Packet → Maps → ℕ → Option (Action × Maps)
unfolding parse_port
parse_ipv4 pkt m l3_offset =
    if ltb (length pkt) (l3_offset + 20)
    then some (aborted, m)
    else (load32_raw pkt (l3_offset + 12) >>= λ ip_src. elim (m.blacklist ip_src) [
      | some value ↦ some (drop, record m { blacklist = bump m.blacklist ip_src })
      | none ↦ load8 pkt (l3_offset + 9) >>= λ proto. parse_port pkt m proto (l3_offset + 20)
    ])

-- `handle_eth_protocol`
unfoldable pub handle_eth_protocol : Packet → Maps → ℕ → ℕ → Option (Action × Maps)
unfolding parse_ipv4
handle_eth_protocol pkt m eth_proto l3_offset =
    if eth_proto == eth_p_ip then parse_ipv4 pkt m l3_offset else some (pass, m)

-- `xdp_program`
unfoldable pub xdp_program : Packet → Maps → Option (Action × Maps)
unfolding handle_eth_protocol stats_action_verdict
xdp_program pkt m = parse_eth_double pkt >>= λ l3. elim l3 [
  | reject ↦ some (pass, m)
  | found eth_proto l3_offset ↦ handle_eth_protocol pkt m eth_proto l3_offset >>= λ r.
      some (r.0, stats_action_verdict r.1 r.0)
]
