-- ===== src/User/Examples.antt =====
-- The theorems on small maps, for two CPUs.
use prototype_kernel.Base.{
  ℕ, ◌≡◌, refl, arith, Option, none, some, true, ltb, ◌==◌, if◌then◌else◌, List, [], ◌∷◌, ◌++◌,
  length, replicate, lt→ltb, ge→ltb,
}
use prototype_kernel.Xdp.Packet.{Packet, drop, aborted}
use prototype_kernel.Xdp.RedirectCpu
use prototype_kernel.Xdp.RedirectCpu.{DataRec}
use prototype_kernel.User.Cpus.{CpuFiles, CpuOpt, cpu_option, qsize_option, set_up}
use prototype_kernel.Xdp.Trace
use prototype_kernel.Xdp.Trace.{CpumapEnqueueCtx, trace_xdp_cpumap_enqueue}
use prototype_kernel.User.Collect.{Record, zeros, map_collect_percpu}
use prototype_kernel.User.Events.{Counted, no_cpus, one_cpu, collected_events}
use prototype_kernel.User.Spread.{Serves, set_up-Serves}
use prototype_kernel.Xdp.Ddos
use prototype_kernel.Xdp.Ddos.{Filter, filter_tcp, filter_udp}
use prototype_kernel.User.Bpf.{Calls}
use prototype_kernel.User.Ports
use prototype_kernel.User.Ports.{IsPorts, verdict, blacklist_port_modify-verdict}
use prototype_kernel.User.Addresses.{IsAddresses, absent, with_addresses, blacklist_modify-verdict}
use prototype_kernel.User.Sources.{ip_verdict}
use prototype_kernel.User.Cmdline.{
  Opt, add, ip, udp, tcp, Options, defaults, take_options, Files, counters_of, update,
}
use prototype_kernel.User.Update.{bad_address_unnoticed}
use prototype_kernel.User.Blacklist.{exit_ok, blacklist_port_modify, blacklist_modify, exit_of}
use native.Mathlib.Decide.{dec_lt}
use prototype_kernel.User.Tables.{
  Entries, Table, put_row, table_calls, table_calls-IsArray, array_calls, array_calls-IsArray,
  hash_update, hash_calls, hash_calls-IsHash,
}

-- `inet_pton` for one text, "10.0.0.1".
abbrev home : List ℕ
home = 49 ∷ 48 ∷ 46 ∷ 48 ∷ 46 ∷ 48 ∷ 46 ∷ 49 ∷ []

abbrev inet_pton : List ℕ → Option ℕ
inet_pton s = if length s == 8 then some 0x0100000a else none

-- No port blocked, no address listed, on two CPUs.
abbrev no_ports : Entries
no_ports k = if ltb k 65536 then some (0 ∷ 0 ∷ []) else none

no_ports-IsPorts : IsPorts array_calls array_calls-IsArray 2 no_ports
no_ports-IsPorts = record { entries = entry }
  where
    entry : (k : ℕ) → Ports.Entry 2 k (no_ports k)
    entry k = elim (dec_lt k 65536) [
      | yes lt ↦ rw (lt→ltb k 65536 lt) (Ports.there lt refl (omega arith))
      | no ge ↦ rw (ge→ltb k 65536 (omega arith)) (Ports.beyond (omega arith))
    ]

abbrev no_addresses : Entries
no_addresses k = none

no_addresses-IsAddresses : IsAddresses hash_calls hash_calls-IsHash 2 inet_pton no_addresses
no_addresses-IsAddresses = record { entries = λ k. absent }

abbrev empty_maps : Ddos.Maps
empty_maps = record {
  blacklist = λ k. none;
  verdict_cnt = λ k. some 0;
  port_blacklist = λ k. none;
  drop_count_tcp = λ k. some 0;
  drop_count_udp = λ k. some 0;
}

blacklist_port_modify-verdict_example :
    let r = blacklist_port_modify array_calls 2 no_ports no_ports 9 1 17 in
    (r.0 ≡ exit_ok)
    × IsPorts array_calls array_calls-IsArray 2 (r.1)
    × (verdict array_calls array_calls-IsArray 2 (r.1) 1 empty_maps filter_udp 9 ≡ drop)
    × ((j : ℕ) → r.2 j ≡ no_ports j)
blacklist_port_modify-verdict_example =
    blacklist_port_modify-verdict array_calls array_calls-IsArray 2 true filter_udp no_ports
      no_ports 9 (0 ∷ 0 ∷ []) empty_maps 1 filter_udp 9 no_ports-IsPorts refl (omega arith)
      (omega arith)

-- From 10.0.0.1, behind an Ethernet header.
abbrev ip_packet : Packet
ip_packet =
    replicate 14 0
    ++ 69 ∷ 0 ∷ 0 ∷ 20 ∷ 0 ∷ 0 ∷ 0 ∷ 0 ∷ 64 ∷ 17 ∷ 0 ∷ 0 ∷ 10 ∷ 0 ∷ 0 ∷ 1 ∷ 10 ∷ 0 ∷ 0 ∷ 2 ∷ []

abbrev listed_home : Entries
listed_home = (blacklist_modify hash_calls 2 inet_pton no_addresses home 1).1

added : (blacklist_modify hash_calls 2 inet_pton no_addresses home 1).0 ≡ exit_ok
unfolding blacklist_modify hash_update exit_of
added = refl

blacklist_modify-verdict_example :
    IsAddresses hash_calls hash_calls-IsHash 2 inet_pton listed_home
    × (ip_verdict ip_packet
          (with_addresses hash_calls hash_calls-IsHash 2 inet_pton empty_maps listed_home 1)
          14
        ≡ some drop)
blacklist_modify-verdict_example =
    blacklist_modify-verdict hash_calls hash_calls-IsHash 2 inet_pton true no_addresses home
      0x0100000a ip_packet empty_maps 14 1 refl no_addresses-IsAddresses added (omega arith)
      (omega arith)

abbrev no_files : Files hash_calls array_calls
no_files = record {
  blacklist = no_addresses;
  port_blacklist = no_ports;
  count_tcp = no_ports;
  count_udp = no_ports;
}

-- `--add --ip 1 --udp 9`, where "1" is no address
abbrev bad_line : List Opt
bad_line = add ∷ ip (49 ∷ []) ∷ udp 9 ∷ []

abbrev bad_options : Options
bad_options = record {
  action = 1;
  ip_string = some (49 ∷ []);
  dport = 9;
  proto = 17;
  filter = filter_udp;
}

bad_line_taken : take_options defaults bad_line ≡ some bad_options
unfolding take_options
bad_line_taken = refl

-- `-t` behind `-u` does not go back to TCP.
udp_then_tcp :
    take_options defaults (add ∷ udp 9 ∷ tcp 80 ∷ [])
    ≡ some (record defaults { action = 1; dport = 80; proto = 17; filter = filter_udp })
unfolding take_options
udp_then_tcp = refl

counters_there : counters_of hash_calls array_calls filter_udp no_files 9 ≡ some (0 ∷ 0 ∷ [])
unfolding counters_of
counters_there = refl

abbrev bad_run : ℕ × Files hash_calls array_calls
bad_run = update hash_calls array_calls 2 inet_pton bad_options no_files

bad_address_unnoticed_example : (bad_run.0 ≡ exit_ok) × (bad_run.1.blacklist ≡ no_addresses)
bad_address_unnoticed_example =
    bad_address_unnoticed hash_calls array_calls array_calls-IsArray 2 inet_pton true bad_line
      bad_options (49 ∷ []) no_files (0 ∷ 0 ∷ []) bad_line_taken refl refl refl (omega arith)
      (omega arith) no_ports-IsPorts counters_there (omega arith)

-- A CPU map that takes every CPU, and the options `--cpu 2 --qsize 512 --cpu 5 --cpu 3`.
abbrev cpu_calls : Calls ℕ
cpu_calls = record {
  Map = Table ℕ;
  lookup = λ m k. m k;
  update = λ m k v flag. (0, put_row m k v);
  delete = λ m k. (22, m);
}

abbrev fresh_files : CpuFiles cpu_calls (table_calls ℕ)
fresh_files = record {
  cpu_map = λ k. none;
  cpus_available = λ k. if ltb k 12 then some 0 else none;
  cpus_count = λ k. if ltb k 1 then some 0 else none;
}

abbrev three_cpus : List CpuOpt
three_cpus = cpu_option 2 ∷ qsize_option 512 ∷ cpu_option 5 ∷ cpu_option 3 ∷ []

abbrev no_packets : DataRec
no_packets = record { processed = 0; dropped = 0; issue = 0 }

abbrev before_packets : RedirectCpu.Maps
before_packets = record {
  cpus_available = λ k. none;
  cpus_count = none;
  cpus_iterator = some 0;
  rx_cnt = some no_packets;
}

set_up-Serves_example :
    Serves cpu_calls
      (table_calls ℕ)
      (table_calls-IsArray ℕ)
      (λ m k v. refl)
      before_packets
      4
      5
      3
      aborted
      (set_up cpu_calls (table_calls ℕ) fresh_files three_cpus)
set_up-Serves_example =
    set_up-Serves cpu_calls (table_calls ℕ) (table_calls-IsArray ℕ) (λ m k v. refl) three_cpus
      fresh_files before_packets no_packets 4 3 (record { zeroed = λ j. refl; no_cpus = refl })
      (omega arith) (omega arith) (omega arith) refl refl (omega arith)

-- Two CPUs with a bulk each for CPU 2.
abbrev zeroed : Trace.Maps
zeroed = record {
  redirect_err_cnt = λ k. some zeros;
  exception_cnt = λ k. some zeros;
  cpumap_enqueue_cnt = λ k. some zeros;
  cpumap_kthread_cnt = λ k. some zeros;
}

abbrev bulk : ℕ → CpumapEnqueueCtx
bulk n = record { drops = 1; processed = n; to_cpu = 2 }

abbrev two_bulks : List (List CpumapEnqueueCtx)
two_bulks = (bulk 7 ∷ []) ∷ (bulk 8 ∷ []) ∷ []

abbrev two_counters : List DataRec
two_counters =
    record { processed = 7; dropped = 1; issue = 1 }
    ∷ record { processed = 8; dropped = 1; issue = 1 }
    ∷ []

two-Counted : Counted 2 two_bulks two_counters
unfolding trace_xdp_cpumap_enqueue
two-Counted = one_cpu zeroed refl refl (one_cpu zeroed refl refl no_cpus)

abbrev no_record : Record
no_record = record { timestamp = 0; total = zeros; cpu = [] }

collected_events_example :
    (map_collect_percpu
      (table_calls (List DataRec))
      1000
      (λ k. some two_counters)
      2
      no_record).total
    ≡ record { processed = 15; dropped = 2; issue = 2 }
collected_events_example =
    collected_events (table_calls (List DataRec)) 1000 (λ k. some two_counters) 2 no_record
      two_bulks two_counters (omega arith) refl two-Counted
