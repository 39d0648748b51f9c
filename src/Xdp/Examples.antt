-- ===== src/Xdp/Examples.antt =====
-- Tests of the XDP programs on small packets, and the theorems at such inputs.
use prototype_kernel.Base.{
  ℕ, ◌+◌, ◌≤◌, ◌<◌, ◌≡◌, ◌≢◌, refl, arith, List, [], ◌∷◌, ◌++◌, none, some, ltb, ◌==◌,
  if◌then◌else◌, drop, length, replicate,
}
use prototype_kernel.Xdp.Packet.{Packet, pass, BpfMap, load8, load16}
use prototype_kernel.Xdp.Eth.{eth_p_ip, eth_p_arp, found, untag, parse_eth, parse_eth_double}
use prototype_kernel.Xdp.Parse.{Frame, Decides, parse_eth-Decides}
use prototype_kernel.Xdp.Ddos
use prototype_kernel.Xdp.Ddos.{Maps, xdp_program}
use prototype_kernel.Xdp.Blacklist.{Outcome}
use prototype_kernel.Xdp.Filter.{xdp_program-Outcome}
use prototype_kernel.Xdp.Vlan.{
  store8, store_bytes, load_bytes, memmove, parse_eth_frame, outer_tag, inner_tag, xdp_prognum0,
  xdp_prognum1, xdp_prognum2, xdp_prognum3,
}
use prototype_kernel.Xdp.Change.{Changed, changed_passes}
use prototype_kernel.Xdp.Untag.{Removal, removals_agree}
use prototype_kernel.Xdp.FlowHash.{get_l3_hash, xdp_prognum5_ip_l3_flow_hash}
use prototype_kernel.Xdp.RedirectCpu.{
  DataRec, max_cpus, count_processed, send_to_index, xdp_prognum0_no_touch, xdp_prognum1_touch_data,
  xdp_prognum2_round_robin, xdp_prognum3_proto_separate, xdp_prognum4_ddos_filter_pktgen,
}
use prototype_kernel.Xdp.RedirectCpu
use prototype_kernel.Xdp.Verdicts.{InRange, Returns}
use prototype_kernel.Xdp.Spread.{redirect_cpu_safe, proto_separate_other}
use prototype_kernel.Xdp.Symmetric.{get_l3_hash_symmetric}
use prototype_kernel.Xdp.Trace
use prototype_kernel.Xdp.Trace.{CpumapEnqueueCtx, CpumapKthreadCtx, add_rec}
use prototype_kernel.Xdp.Totals.{Words}
use prototype_kernel.Xdp.MemAccess
use prototype_kernel.Xdp.Echo.{echo, counted, sent_back}
use prototype_kernel.Xdp.DropPattern
use prototype_kernel.Xdp.DropPattern.{run}
use prototype_kernel.Xdp.Pattern.{turns, no_more, one_more, Runs, WithHeaders, drop_pattern}

abbrev macs : Packet
macs = replicate 12 1

-- IPv4 from 10.0.0.1, with UDP to port 9
abbrev ip_udp : Packet
ip_udp =
    69 ∷ 0 ∷ 0 ∷ 28 ∷ 0 ∷ 0 ∷ 0 ∷ 0 ∷ 64 ∷ 17 ∷ 0 ∷ 0 ∷ 10 ∷ 0 ∷ 0 ∷ 1 ∷ 10 ∷ 0 ∷ 0 ∷ 2 ∷ 0 ∷ 53 ∷ 0
    ∷ 9 ∷ 0 ∷ 8 ∷ 0 ∷ 0 ∷ []

abbrev udp_packet : Packet
udp_packet = macs ++ 0x08 ∷ 0x00 ∷ ip_udp

-- The same in VLAN 4011, with the top four bits of the tag 0xa.
abbrev tagged_packet : Packet
tagged_packet = macs ++ 0x81 ∷ 0x00 ∷ 0xaf ∷ 0xab ∷ 0x08 ∷ 0x00 ∷ ip_udp

abbrev arp_packet : Packet
arp_packet = macs ++ 0x08 ∷ 0x06 ∷ replicate 28 0

empty_map : BpfMap
empty_map k = none

-- UDP port 9 is on the list.
abbrev lists : Ddos.Maps
lists = record {
  blacklist = empty_map;
  verdict_cnt = λ k. some 0;
  port_blacklist = λ k. if k == 9 then some 2 else none;
  drop_count_tcp = λ k. some 0;
  drop_count_udp = λ k. some 0;
}

parse_eth-Decides_example :
    Decides (Frame 1 tagged_packet) (parse_eth tagged_packet)
    × Decides (Frame 2 tagged_packet) (parse_eth_double tagged_packet)
parse_eth-Decides_example = parse_eth-Decides tagged_packet

tagged_l3 : parse_eth tagged_packet ≡ some (found 0x0800 18)
unfolding parse_eth untag load16 load8
tagged_l3 = refl

xdp_program-Outcome_example : Outcome udp_packet lists (xdp_program udp_packet lists)
xdp_program-Outcome_example = xdp_program-Outcome udp_packet lists

-- `bpf_xdp_adjust_head`, which refuses to leave less than an Ethernet header.
adjust_head : Packet → ℕ → Packet
adjust_head xs delta = if ltb (length xs) (delta + 14) then xs else drop delta xs

adjust_head_moves : (xs : Packet) → 18 ≤ length xs → adjust_head xs 4 ≡ drop 4 xs
unfolding adjust_head
adjust_head_moves xs h = ground arith

removals_agree_example :
    Removal tagged_packet (xdp_prognum2 adjust_head tagged_packet)
    × (xdp_prognum3 adjust_head tagged_packet ≡ xdp_prognum2 adjust_head tagged_packet)
removals_agree_example = removals_agree adjust_head adjust_head_moves tagged_packet

untagged_packet : xdp_prognum2 adjust_head tagged_packet ≡ some (pass, udp_packet)
unfolding xdp_prognum2 parse_eth_frame outer_tag inner_tag load16 load8 memmove load_bytes
    store_bytes store8 adjust_head
untagged_packet = refl

changed_passes_example :
    Changed tagged_packet (xdp_prognum1 tagged_packet)
    × ((ys : Packet) → xdp_prognum1 tagged_packet ≡ some (pass, ys) → xdp_prognum0 ys ≡ some pass)
changed_passes_example = changed_passes tagged_packet

-- Three CPUs, of which the second is next.
abbrev cpus : BpfMap
cpus i = if ltb i 3 then some (i + 4) else none

abbrev no_packets : DataRec
no_packets = record { processed = 0; dropped = 0; issue = 0 }

abbrev three_cpus : RedirectCpu.Maps
three_cpus = record {
  cpus_available = cpus;
  cpus_count = some 3;
  cpus_iterator = some 1;
  rx_cnt = some no_packets;
}

cpus_there : (i : ℕ) → i < 3 → cpus i ≡ some (i + 4)
cpus_there i lt = ground arith

cpus_inside : (i : ℕ) → i < 3 → i + 4 < max_cpus
cpus_inside i lt = omega arith

three_counted : three_cpus.cpus_count ≢ some 0
three_counted e = cc

redirect_cpu_safe_example :
    InRange ((xdp_prognum0_no_touch three_cpus).0)
    × Returns (xdp_prognum1_touch_data udp_packet three_cpus)
    × InRange ((xdp_prognum2_round_robin three_cpus).0)
    × Returns (xdp_prognum3_proto_separate udp_packet three_cpus)
    × Returns (xdp_prognum4_ddos_filter_pktgen udp_packet three_cpus)
    × Returns (xdp_prognum5_ip_l3_flow_hash udp_packet three_cpus)
redirect_cpu_safe_example = redirect_cpu_safe udp_packet three_cpus three_counted

arp_l3 : parse_eth arp_packet ≡ some (found eth_p_arp 14)
unfolding parse_eth untag load16 load8
arp_l3 = refl

proto_separate_other_example :
    xdp_prognum3_proto_separate arp_packet three_cpus
    ≡ some (send_to_index (count_processed three_cpus no_packets) 1)
proto_separate_other_example =
    proto_separate_other arp_packet three_cpus no_packets refl arp_l3 (omega arith) (omega arith)

get_l3_hash_symmetric_example :
    get_l3_hash (record { src = 16777226 ∷ []; dst = 33554442 ∷ [] }) eth_p_ip 17
    ≡ get_l3_hash (record { src = 33554442 ∷ []; dst = 16777226 ∷ [] }) eth_p_ip 17
get_l3_hash_symmetric_example = get_l3_hash_symmetric (16777226 ∷ []) (33554442 ∷ []) eth_p_ip 17

-- Two drops and two passes in turn, with the third packet of a round next.
abbrev two_and_two : DropPattern.Maps
two_and_two = record {
  rx_cnt = λ k. some 0;
  xdp_pattern = some (record { type = 1; arg = 2 });
  touch_memory = some 0;
  verdict_cnt = λ k. some 0;
  count = λ k. some 2;
  blacklist = empty_map;
  xdp_action = some 0;
}

five_packets : WithHeaders (replicate 5 udp_packet)
five_packets = one_more (omega arith) (
    one_more (omega arith)
      (one_more (omega arith) (one_more (omega arith) (one_more (omega arith) no_more))))

drop_pattern_example :
    Runs 2 (omega arith) (omega arith) (turns 2 2 5) 7 (run (replicate 5 udp_packet) two_and_two)
drop_pattern_example =
    drop_pattern 2 (omega arith) (omega arith) 2 five_packets
      (record { chosen = refl; untouched = refl; kept = refl; counter = refl })

-- Two bulks for CPU 2, the second of them all dropped, with one for CPU 3 between, and one round of
-- the kthread.
abbrev no_events : Trace.Maps
no_events = record {
  redirect_err_cnt = λ k. some no_packets;
  exception_cnt = λ k. some no_packets;
  cpumap_enqueue_cnt = λ k. some no_packets;
  cpumap_kthread_cnt = λ k. some no_packets;
}

abbrev three_bulks : List CpumapEnqueueCtx
three_bulks =
    record { drops = 1; processed = 7; to_cpu = 2 }
    ∷ record { drops = 0; processed = 8; to_cpu = 3 }
    ∷ record { drops = 8; processed = 0; to_cpu = 2 }
    ∷ []

abbrev one_round : List CpumapKthreadCtx
one_round = record { drops = 0; processed = 7; sched = 1 } ∷ []

no_packets-Words : Words no_packets
no_packets-Words = record { processed = omega arith; dropped = omega arith; issue = omega arith }

-- Frames are sent back; reading is on as well.
abbrev send_back : MemAccess.Maps
send_back = record { xdp_action = some 3; touch_memory = some 3; rx_cnt = λ k. some 0 }

abbrev udp_echo : Packet
udp_echo = echo udp_packet

sent_back_example :
    (MemAccess.xdp_prog udp_packet send_back ≡ some (3, udp_echo, counted send_back))
    × (MemAccess.xdp_prog udp_echo (counted send_back)
        ≡ some (3, udp_packet, counted (counted send_back)))
sent_back_example =
    sent_back 3 (omega arith) udp_packet send_back (omega arith) (omega arith) refl refl
