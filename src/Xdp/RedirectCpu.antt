-- ===== src/Xdp/RedirectCpu.antt =====
-- kernel/samples/bpf/xdp_redirect_cpu_kern.c: packets spread over CPUs.
use prototype_kernel.Base.{
  ℕ, ◌+◌, ◌%◌, ◌^◌, Option, none, some, ◌>>=◌, ◌||◌, ltb, leb, ◌==◌, if◌then◌else◌, length,
}
use prototype_kernel.Base.Words.{add32}
use prototype_kernel.Xdp.Packet.{
  Packet, Action, aborted, drop, pass, redirect, load8, load16, BpfMap,
}
use prototype_kernel.Xdp.Eth.{eth_p_802_3_min, eth_p_ip, eth_p_ipv6, reject, found, parse_eth}

-- MAX_CPUS
abbrev pub max_cpus : ℕ
max_cpus = 12

-- `struct datarec`
pub record DataRec : Type 0 where
  pub processed : ℕ
  pub dropped : ℕ
  pub issue : ℕ

-- The maps, of one CPU. Those with one entry are what a lookup of key 0 finds.
pub record Maps : Type 0 where
  pub cpus_available : BpfMap
  pub cpus_count : Option ℕ
  pub cpus_iterator : Option ℕ
  pub rx_cnt : Option DataRec

abbrev inc64 : ℕ → ℕ
inc64 n = (n + 1) % 2 ^ 64

-- `rec->processed++`, `rec->dropped++` and `rec->issue++`, with `rec` the entry of `rx_cnt`
unfoldable pub count_processed : Maps → DataRec → Maps
count_processed m r = record m { rx_cnt = some (record r { processed = inc64 r.processed }) }

unfoldable pub count_dropped : Maps → Maps
count_dropped m = elim m.rx_cnt [
  | none ↦ m
  | some r ↦ record m { rx_cnt = some (record r { dropped = inc64 r.dropped }) }
]

unfoldable pub count_issue : Maps → Maps
count_issue m = elim m.rx_cnt [
  | none ↦ m
  | some r ↦ record m { rx_cnt = some (record r { issue = inc64 r.issue }) }
]

-- The end of every program: `if (cpu_dest >= MAX_CPUS) {...} return bpf_redirect_map(&cpu_map,
-- cpu_dest, 0)`
unfoldable pub send_to : Maps → ℕ → Action × Maps
unfolding count_issue
send_to m cpu_dest =
    if leb max_cpus cpu_dest then (aborted, count_issue m) else (redirect cpu_dest, m)

-- The same, behind the lookup of the CPU under an index.
unfoldable pub send_to_index : Maps → ℕ → Action × Maps
unfolding send_to
send_to_index m cpu_idx = elim (m.cpus_available cpu_idx) [
  | none ↦ (aborted, m)
  | some cpu_dest ↦ send_to m cpu_dest
]

-- `get_dest_port_ipv4_udp`, `get_proto_ipv4` and `get_proto_ipv6`
unfoldable pub get_dest_port_ipv4_udp : Packet → ℕ → Option ℕ
get_dest_port_ipv4_udp pkt nh_off =
    if ltb (length pkt) (nh_off + 20)
    then some 0
    else (load8 pkt (nh_off + 9) >>= λ protocol.
        if protocol == 17
        then (if ltb (length pkt) (nh_off + 20 + 8) then some 0 else load16 pkt (nh_off + 20 + 2))
        else some 0)

unfoldable pub get_proto_ipv4 : Packet → ℕ → Option ℕ
get_proto_ipv4 pkt nh_off =
    if ltb (length pkt) (nh_off + 20) then some 0 else load8 pkt (nh_off + 9)

unfoldable pub get_proto_ipv6 : Packet → ℕ → Option ℕ
get_proto_ipv6 pkt nh_off =
    if ltb (length pkt) (nh_off + 40) then some 0 else load8 pkt (nh_off + 6)

-- `xdp_prognum0_no_touch`
unfoldable pub xdp_prognum0_no_touch : Maps → Action × Maps
unfolding count_processed send_to
xdp_prognum0_no_touch m = elim (m.cpus_available 0) [
  | none ↦ (aborted, m)
  | some cpu_dest ↦ elim m.rx_cnt [
    | none ↦ (aborted, m)
    | some r ↦ send_to (count_processed m r) cpu_dest
  ]
]

-- `xdp_prognum1_touch_data`
unfoldable pub xdp_prognum1_touch_data : Packet → Maps → Option (Action × Maps)
unfolding count_processed count_dropped send_to
xdp_prognum1_touch_data pkt m = elim (m.cpus_available 0) [
  | none ↦ some (aborted, m)
  | some cpu_dest ↦ if ltb (length pkt) 14 then some (aborted, m) else elim m.rx_cnt [
    | none ↦ some (aborted, m)
    | some r ↦ load16 pkt 12 >>= λ eth_type. some (
        if ltb eth_type eth_p_802_3_min
        then (drop, count_dropped (count_processed m r))
        else send_to (count_processed m r) cpu_dest)
  ]
]

-- `xdp_prognum2_round_robin`
unfoldable pub xdp_prognum2_round_robin : Maps → Action × Maps
unfolding count_processed send_to
xdp_prognum2_round_robin m = elim m.cpus_count [
  | none ↦ (aborted, m)
  | some cpu_max ↦ elim m.cpus_iterator [
    | none ↦ (aborted, m)
    | some cpu_idx ↦
        let next = add32 cpu_idx 1 in
        let n = record m { cpus_iterator = some (if next == cpu_max then 0 else next) } in
        elim (m.cpus_available cpu_idx) [
          | none ↦ (aborted, n)
          | some cpu_dest ↦ elim m.rx_cnt [
            | none ↦ (aborted, n)
            | some r ↦ send_to (count_processed n r) cpu_dest
          ]
        ]
  ]
]

-- The two switches of `xdp_prognum3_proto_separate`: the protocol, which is UDP at first, and its index.
unfoldable pub l4_proto : Packet → ℕ → ℕ → Option ℕ
unfolding get_proto_ipv4 get_proto_ipv6
l4_proto pkt eth_proto l3_offset =
    if eth_proto == eth_p_ip
    then get_proto_ipv4 pkt l3_offset
    else if eth_proto == eth_p_ipv6
    then get_proto_ipv6 pkt l3_offset
    else some 17

unfoldable pub index_of_proto : ℕ → ℕ
index_of_proto ip_proto =
    if ip_proto == 1 || ip_proto == 58
    then 2
    else if ip_proto == 6
    then 0
    else if ip_proto == 17
    then 1
    else 0

-- `xdp_prognum3_proto_separate`
unfoldable pub xdp_prognum3_proto_separate : Packet → Maps → Option (Action × Maps)
unfolding count_processed parse_eth l4_proto index_of_proto send_to_index
xdp_prognum3_proto_separate pkt m = elim m.rx_cnt [
  | none ↦ some (aborted, m)
  | some r ↦ parse_eth pkt >>= λ l3. elim l3 [
    | reject ↦ some (pass, count_processed m r)
    | found eth_proto l3_offset ↦ l4_proto pkt eth_proto l3_offset >>= λ ip_proto.
        some (send_to_index (count_processed m r) (index_of_proto ip_proto))
  ]
]

-- `xdp_prognum4_ddos_filter_pktgen`: the same, but UDP to port 9 is dropped
unfoldable pub xdp_prognum4_ddos_filter_pktgen : Packet → Maps → Option (Action × Maps)
unfolding count_processed count_dropped parse_eth l4_proto index_of_proto send_to_index
    get_dest_port_ipv4_udp
xdp_prognum4_ddos_filter_pktgen pkt m = elim m.rx_cnt [
  | none ↦ some (aborted, m)
  | some r ↦ parse_eth pkt >>= λ l3. elim l3 [
    | reject ↦ some (pass, count_processed m r)
    | found eth_proto l3_offset ↦ l4_proto pkt eth_proto l3_offset >>= λ ip_proto.
        if ip_proto == 17
        then (get_dest_port_ipv4_udp pkt l3_offset >>= λ dest_port. some (
            if dest_port == 9
            then (drop, count_dropped (count_processed m r))
            else send_to_index (count_processed m r) (index_of_proto ip_proto)))
        else some (send_to_index (count_processed m r) (index_of_proto ip_proto))
  ]
]
