-- ===== src/Xdp/Ttl.antt =====
-- kernel/samples/bpf/xdp_ttl_kern.c: counts of the TTL values seen.
use prototype_kernel.Base.{
  ℕ, ◌+◌, ◌≤◌, ◌<◌, sym, arith, Option, some, ◌>>=◌, ltb, ◌==◌, if◌then◌else◌, length, lt→ltb,
  ge→ltb, eq→==, ne→==,
}
use prototype_kernel.Xdp.Packet.{Packet, Action, aborted, pass, load8, byte, load8_in, BpfMap, bump}
use prototype_kernel.Xdp.Eth.{eth_p_ip, L3, reject, found, parse_eth}
use prototype_kernel.Xdp.Parse.{Frame, Frame-unique, Decides, finds, rejects, parse_eth-Decides}
use native.Mathlib.Decide.{dec_lt, ℕ_discrete}

-- `parse_ipv4`, with the map of counts
unfoldable pub parse_ipv4 : Packet → BpfMap → ℕ → Option (Action × BpfMap)
unfolding bump
parse_ipv4 pkt ttl_map l3_offset =
    if ltb (length pkt) (l3_offset + 20)
    then some (aborted, ttl_map)
    else (load8 pkt (l3_offset + 8) >>= λ ttl. some (pass, bump ttl_map ttl))

-- `handle_eth_protocol`
unfoldable pub handle_eth_protocol : Packet → BpfMap → ℕ → ℕ → Option (Action × BpfMap)
unfolding parse_ipv4
handle_eth_protocol pkt ttl_map eth_proto l3_offset =
    if eth_proto == eth_p_ip then parse_ipv4 pkt ttl_map l3_offset else some (pass, ttl_map)

-- `xdp_ttl_program`
unfoldable pub xdp_ttl_program : Packet → BpfMap → Option (Action × BpfMap)
unfolding parse_eth handle_eth_protocol
xdp_ttl_program pkt ttl_map = parse_eth pkt >>= λ l3. elim l3 [
  | reject ↦ some (pass, ttl_map)
  | found eth_proto l3_offset ↦ handle_eth_protocol pkt ttl_map eth_proto l3_offset
]

-- What the program does: it counts the TTL of a whole IPv4 header, and nothing else; a cut-off header is an
-- error, and everything else passes.
pub data Counted (pkt : Packet) (m : BpfMap) : Option (Action × BpfMap) → Type 0 where
  ttl_counted :
      {o : ℕ}
      → Frame 1 pkt eth_p_ip o
      → o + 20 ≤ length pkt
      → Counted pkt m (some (pass, bump m (byte pkt (o + 8))))
  cut_off :
      {o : ℕ} → Frame 1 pkt eth_p_ip o → length pkt < o + 20 → Counted pkt m (some (aborted, m))
  not_ipv4 : ((o : ℕ) → ¬ Frame 1 pkt eth_p_ip o) → Counted pkt m (some (pass, m))

ipv4-Counted :
    (pkt : Packet) (m : BpfMap) {o : ℕ}
    → Frame 1 pkt eth_p_ip o
    → Counted pkt m (parse_ipv4 pkt m o)
unfolding parse_ipv4
ipv4-Counted pkt m {o} frame = elim (dec_lt (length pkt) (o + 20)) [
  | yes lt ↦ rw (parse_ipv4, lt→ltb (length pkt) (o + 20) lt) (cut_off frame lt)
  | no ge ↦
      rw
        (parse_ipv4, ge→ltb (length pkt) (o + 20) (omega arith), load8_in pkt (o + 8) (omega arith))
        (ttl_counted frame (omega arith))
]

-- On every packet the TTL program returns; it counts the TTL of exactly the IPv4 packets, behind one VLAN
-- tag at most, whose header is whole, aborts those whose header is cut off, and passes all else uncounted.
pub xdp_ttl_program-Counted : (pkt : Packet) (m : BpfMap) → Counted pkt m (xdp_ttl_program pkt m)
unfolding xdp_ttl_program
xdp_ttl_program-Counted pkt m = go ((parse_eth-Decides pkt).0)
  where
    next : L3 → Option (Action × BpfMap)
    next reject = some (pass, m)
    next (found e o) = handle_eth_protocol pkt m e o

    go : {l3 : Option L3} → Decides (Frame 1 pkt) l3 → Counted pkt m (l3 >>= next)
    go (rejects never) = not_ipv4 (never eth_p_ip)
    go (finds {e} {o} frame) = elim (ℕ_discrete e eth_p_ip) [
      | yes ip ↦
          rw (handle_eth_protocol, eq→== e eth_p_ip ip) (ipv4-Counted pkt m (rw (sym ip) frame))
      | no other ↦
          rw (handle_eth_protocol, ne→== e eth_p_ip other)
            (not_ipv4 (λ o' f. other ((Frame-unique frame f).0)))
    ]
