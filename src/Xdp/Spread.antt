-- ===== src/Xdp/Spread.antt =====
-- All six programs of xdp_redirect_cpu_kern.c on all packets, and where the fourth sends ARP.
use prototype_kernel.Base.{
  ℕ, ◌+◌, ◌%◌, ◌≤◌, ◌≡◌, ◌≢◌, inl, inr, refl, ap, arith, List, [], ◌∷◌, Option, none, some, ◌>>=◌,
  Bool, true, false, ◌==◌, if◌then◌else◌, length, lt→ltb, ge→ltb, eq→==, ne→==, Option-cases,
}
use prototype_kernel.Xdp.Packet.{
  Packet, Action, aborted, drop, pass, raw32, load8_in, load32_raw_in,
}
use prototype_kernel.Xdp.Eth.{eth_p_ip, eth_p_ipv6, eth_p_arp, L3, reject, found, parse_eth}
use prototype_kernel.Xdp.Parse.{Frame, Decides, finds, rejects, parse_eth-Decides}
use prototype_kernel.Xdp.RedirectCpu.{
  Maps, DataRec, count_processed, count_dropped, send_to_index, get_dest_port_ipv4_udp, l4_proto,
  index_of_proto, xdp_prognum0_no_touch, xdp_prognum1_touch_data, xdp_prognum2_round_robin,
  xdp_prognum3_proto_separate, xdp_prognum4_ddos_filter_pktgen,
}
use prototype_kernel.Xdp.FlowHash.{
  Hashed, verdict, hash, flow_hash, load_address, xdp_prognum5_ip_l3_flow_hash,
}
use prototype_kernel.Xdp.Verdicts.{
  InRange, aborts, drops, passes, Returns, returns, send_to_index-InRange, no_touch-InRange,
  touch_data-Returns, round_robin-InRange, l4_proto_in, dest_port_in, proto_separate-Returns,
}
use native.Mathlib.Decide.{dec_lt, ℕ_discrete}

ddos_filter-Returns : (pkt : Packet) (m : Maps) → Returns (xdp_prognum4_ddos_filter_pktgen pkt m)
unfolding xdp_prognum4_ddos_filter_pktgen
ddos_filter-Returns pkt m = elim (Option-cases m.rx_cnt) [
  | inl nothing ↦ rw (xdp_prognum4_ddos_filter_pktgen, nothing) (returns aborts)
  | inr (r, counted) ↦
      rw (xdp_prognum4_ddos_filter_pktgen, counted) (go r ((parse_eth-Decides pkt).0))
]
  where
    next : DataRec → L3 → Option (Action × Maps)
    next r reject = some (pass, count_processed m r)
    next r (found e o) = l4_proto pkt e o >>= λ p.
        if p == 17
        then (get_dest_port_ipv4_udp pkt o >>= λ dest_port. some (
            if dest_port == 9
            then (drop, count_dropped (count_processed m r))
            else send_to_index (count_processed m r) (index_of_proto p)))
        else some (send_to_index (count_processed m r) (index_of_proto p))

    unless_port_nine :
        (b : Bool) (m' : Maps) (q : Action × Maps)
        → InRange q.0
        → Returns (some (if b then (drop, count_dropped m') else q))
    unless_port_nine true m' q ok = returns drops
    unless_port_nine false m' q ok = returns ok

    filtered :
        (b : Bool) (m' : Maps) (q : Action × Maps) (o : ℕ)
        → InRange q.0
        → Returns (
            if b
            then (get_dest_port_ipv4_udp pkt o >>= λ dest_port.
                some (if dest_port == 9 then (drop, count_dropped m') else q))
            else some q)
    filtered false m' q o ok = returns ok
    filtered true m' q o ok =
        let (port, eq) = dest_port_in pkt o in rw eq (unless_port_nine (port == 9) m' q ok)

    go : (r : DataRec) {l3 : Option L3} → Decides (Frame 1 pkt) l3 → Returns (l3 >>= next r)
    go r (rejects never) = returns passes
    go r (finds {e} {o} frame) =
        let (v, eq) = l4_proto_in pkt e o in
        rw eq (
          filtered (v == 17) (count_processed m r)
            (send_to_index (count_processed m r) (index_of_proto v)) o
            (send_to_index-InRange (count_processed m r) (index_of_proto v)))

load_address_in :
    (pkt : Packet) (i : ℕ) → i + 16 ≤ length pkt → (a : List ℕ) × (load_address pkt i ≡ some a)
unfolding load_address
load_address_in pkt i h = (
  raw32 pkt i ∷ raw32 pkt (i + 4) ∷ raw32 pkt (i + 8) ∷ raw32 pkt (i + 12) ∷ [],
  rw
      (
        load32_raw_in pkt i (omega arith),
        load32_raw_in pkt (i + 4) (omega arith),
        load32_raw_in pkt (i + 8) (omega arith),
        load32_raw_in pkt (i + 12) (omega arith),
      )
      refl,
)

-- A verdict before the choice of a CPU is no redirect.
data Chosen : Option Hashed → Type 0 where
  settled : {a : Action} → InRange a → Chosen (some (verdict a))
  hashed : {v : ℕ} → Chosen (some (hash v))

flow_hash-Chosen : (pkt : Packet) (e o : ℕ) → Chosen (flow_hash pkt e o)
unfolding flow_hash
flow_hash-Chosen pkt e o = elim (ℕ_discrete e eth_p_ip) [
  | yes ip ↦ elim (dec_lt (length pkt) (o + 20)) [
    | yes lt ↦ rw (flow_hash, eq→== e eth_p_ip ip, lt→ltb (length pkt) (o + 20) lt) (settled aborts)
    | no ge ↦
        rw
          (
            flow_hash,
            eq→== e eth_p_ip ip,
            ge→ltb (length pkt) (o + 20) (omega arith),
            load32_raw_in pkt (o + 12) (omega arith),
            load32_raw_in pkt (o + 16) (omega arith),
            load8_in pkt (o + 9) (omega arith),
          )
          hashed
  ]
  | no other ↦ elim (ℕ_discrete e eth_p_ipv6) [
    | yes ip ↦ elim (dec_lt (length pkt) (o + 40)) [
      | yes lt ↦
          rw
            (
              flow_hash,
              ne→== e eth_p_ip other,
              eq→== e eth_p_ipv6 ip,
              lt→ltb (length pkt) (o + 40) lt,
            )
            (settled aborts)
      | no ge ↦
          let (s, src) = load_address_in pkt (o + 8) (omega arith) in
          let (d, dst) = load_address_in pkt (o + 24) (omega arith) in
          rw
            (
              flow_hash,
              ne→== e eth_p_ip other,
              eq→== e eth_p_ipv6 ip,
              ge→ltb (length pkt) (o + 40) (omega arith),
              src,
              dst,
              load8_in pkt (o + 6) (omega arith),
            )
            hashed
    ]
    | no neither ↦ elim (ℕ_discrete e eth_p_arp) [
      | yes arp ↦
          rw (flow_hash, ne→== e eth_p_ip other, ne→== e eth_p_ipv6 neither, eq→== e eth_p_arp arp)
            (settled passes)
      | no unknown ↦
          rw
            (
              flow_hash,
              ne→== e eth_p_ip other,
              ne→== e eth_p_ipv6 neither,
              ne→== e eth_p_arp unknown,
            )
            hashed
    ]
  ]
]

flow_hash-Returns :
    (pkt : Packet) (m : Maps) → m.cpus_count ≢ some 0 → Returns (xdp_prognum5_ip_l3_flow_hash pkt m)
unfolding xdp_prognum5_ip_l3_flow_hash
flow_hash-Returns pkt m some_cpus = elim (Option-cases m.rx_cnt) [
  | inl nothing ↦ rw (xdp_prognum5_ip_l3_flow_hash, nothing) (returns aborts)
  | inr (r, counted) ↦ rw (xdp_prognum5_ip_l3_flow_hash, counted) (go r ((parse_eth-Decides pkt).0))
]
  where
    over : DataRec → ℕ → Option ℕ → Option (Action × Maps)
    over r v none = some (aborted, count_processed m r)
    over r v (some cpu_max) =
        if cpu_max == 0 then none else some (send_to_index (count_processed m r) (v % cpu_max))

    spread : DataRec → Hashed → Option (Action × Maps)
    spread r (verdict action) = some (action, count_processed m r)
    spread r (hash v) = over r v m.cpus_count

    next : DataRec → L3 → Option (Action × Maps)
    next r reject = some (pass, count_processed m r)
    next r (found e o) = flow_hash pkt e o >>= spread r

    by_count : (r : DataRec) (v : ℕ) (count : Option ℕ) → count ≢ some 0 → Returns (over r v count)
    by_count r v none ne = returns aborts
    by_count r v (some size) ne =
        rw (ne→== size 0 (λ e. ne (ap some e)))
          (returns (send_to_index-InRange (count_processed m r) (v % size)))

    chosen : (r : DataRec) {h : Option Hashed} → Chosen h → Returns (h >>= spread r)
    chosen r (settled ok) = returns ok
    chosen r (hashed {v}) = by_count r v m.cpus_count some_cpus

    go : (r : DataRec) {l3 : Option L3} → Decides (Frame 1 pkt) l3 → Returns (l3 >>= next r)
    go r (rejects never) = returns passes
    go r (finds {e} {o} frame) = chosen r (flow_hash-Chosen pkt e o)

-- All six programs return a verdict on every packet and whatever is in the maps, read nothing past the end
-- of the packet, and redirect to CPUs below MAX_CPUS only; the last if the count of CPUs is not zero.
pub redirect_cpu_safe :
    (pkt : Packet) (m : Maps)
    → m.cpus_count ≢ some 0
    → InRange ((xdp_prognum0_no_touch m).0)
      × Returns (xdp_prognum1_touch_data pkt m)
      × InRange ((xdp_prognum2_round_robin m).0)
      × Returns (xdp_prognum3_proto_separate pkt m)
      × Returns (xdp_prognum4_ddos_filter_pktgen pkt m)
      × Returns (xdp_prognum5_ip_l3_flow_hash pkt m)
redirect_cpu_safe pkt m some_cpus = (
  no_touch-InRange m,
  touch_data-Returns pkt m,
  round_robin-InRange m,
  proto_separate-Returns pkt m,
  ddos_filter-Returns pkt m,
  flow_hash-Returns pkt m some_cpus,
)

-- The fourth program sends a frame that is neither IPv4 nor IPv6, ARP included, to the CPU with
-- index 1, which is the one for UDP.
pub proto_separate_other :
    (pkt : Packet) (m : Maps) (r : DataRec) {e o : ℕ}
    → m.rx_cnt ≡ some r
    → parse_eth pkt ≡ some (found e o)
    → e ≢ eth_p_ip
    → e ≢ eth_p_ipv6
    → xdp_prognum3_proto_separate pkt m ≡ some (send_to_index (count_processed m r) 1)
unfolding xdp_prognum3_proto_separate l4_proto index_of_proto
proto_separate_other pkt m r {e} {o} counted found_l3 not_ipv4 not_ipv6 =
    rw
      (
        xdp_prognum3_proto_separate,
        counted,
        found_l3,
        ne→== e eth_p_ip not_ipv4,
        ne→== e eth_p_ipv6 not_ipv6,
      )
      refl
