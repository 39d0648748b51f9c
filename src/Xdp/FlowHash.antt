-- ===== src/Xdp/FlowHash.antt =====
-- `xdp_prognum5_ip_l3_flow_hash` of kernel/samples/bpf/xdp_redirect_cpu_kern.c, and its hash.
use prototype_kernel.Base.{
  ℕ, ◌+◌, ◌/◌, ◌%◌, List, [], ◌∷◌, Option, none, some, ◌>>=◌, ltb, ◌==◌, if◌then◌else◌, length,
}
use prototype_kernel.Base.Words.{add32}
use prototype_kernel.Xdp.Packet.{Packet, Action, aborted, pass, load8, load32_raw}
use prototype_kernel.Xdp.Eth.{eth_p_ip, eth_p_ipv6, eth_p_arp, reject, found, parse_eth}
use prototype_kernel.Xdp.Hash.{super_fast_hash}
use prototype_kernel.Xdp.RedirectCpu.{Maps, count_processed, send_to_index}
use Prim.Native.Nat.{bit_xor}

-- `struct L3_flow_keys`: of an IPv4 packet the first words only
pub record L3FlowKeys : Type 0 where
  pub src : List ℕ
  pub dst : List ℕ

-- INIT_SEED
abbrev pub init_seed : ℕ
init_seed = 15485863

-- `key[i] = flow->src[i] ^ flow->dst[i]`, for all words
unfoldable pub mixed_key : List ℕ → List ℕ → List ℕ
mixed_key [] ds = []
mixed_key (s ∷ ss) [] = []
mixed_key (s ∷ ss) (d ∷ ds) = bit_xor s d ∷ mixed_key ss ds

-- Words as they lie in memory.
unfoldable pub bytes_of : List ℕ → List ℕ
bytes_of [] = []
bytes_of (w ∷ ws) = w % 256 ∷ w / 256 % 256 ∷ w / 65536 % 256 ∷ w / 16777216 % 256 ∷ bytes_of ws

-- `get_l3_hash`
unfoldable pub get_l3_hash : L3FlowKeys → ℕ → ℕ → ℕ
unfolding mixed_key bytes_of super_fast_hash
get_l3_hash flow protocol l4_proto =
    let initval = add32 (add32 init_seed protocol) l4_proto in
    if protocol == eth_p_ip
    then super_fast_hash (bytes_of (mixed_key flow.src flow.dst)) 4 initval
    else if protocol == eth_p_ipv6
    then super_fast_hash (bytes_of (mixed_key flow.src flow.dst)) 16 initval
    else 0

-- The four words of an IPv6 address.
unfoldable pub load_address : Packet → ℕ → Option (List ℕ)
load_address pkt i = load32_raw pkt i >>= λ a. load32_raw pkt (i + 4) >>= λ b.
    load32_raw pkt (i + 8) >>= λ c. load32_raw pkt (i + 12) >>= λ d. some (a ∷ b ∷ c ∷ d ∷ [])

-- What the first switch of the program comes to: a verdict, or a hash.
pub data Hashed : Type 0 where
  verdict : Action → Hashed
  hash : ℕ → Hashed

unfoldable pub flow_hash : Packet → ℕ → ℕ → Option Hashed
unfolding get_l3_hash load_address
flow_hash pkt eth_proto l3_offset =
    if eth_proto == eth_p_ip
    then (if ltb (length pkt) (l3_offset + 20)
        then some (verdict aborted)
        else (load32_raw pkt (l3_offset + 12) >>= λ s. load32_raw pkt (l3_offset + 16) >>= λ d.
            load8 pkt (l3_offset + 9) >>= λ protocol.
            some (hash (get_l3_hash (record { src = s ∷ []; dst = d ∷ [] }) eth_proto protocol))))
    else if eth_proto == eth_p_ipv6
    then (if ltb (length pkt) (l3_offset + 40)
        then some (verdict aborted)
        else (load_address pkt (l3_offset + 8) >>= λ s. load_address pkt (l3_offset + 24) >>= λ d.
            load8 pkt (l3_offset + 6) >>= λ nexthdr.
            some (hash (get_l3_hash (record { src = s; dst = d }) eth_proto nexthdr))))
    else if eth_proto == eth_p_arp
    then some (verdict pass)
    else some (hash 0)

-- `xdp_prognum5_ip_l3_flow_hash`; a division by zero CPUs faults
unfoldable pub xdp_prognum5_ip_l3_flow_hash : Packet → Maps → Option (Action × Maps)
unfolding count_processed parse_eth flow_hash send_to_index
xdp_prognum5_ip_l3_flow_hash pkt m = elim m.rx_cnt [
  | none ↦ some (aborted, m)
  | some r ↦ parse_eth pkt >>= λ l3. elim l3 [
    | reject ↦ some (pass, count_processed m r)
    | found eth_proto l3_offset ↦ flow_hash pkt eth_proto l3_offset >>= λ h. elim h [
      | verdict action ↦ some (action, count_processed m r)
      | hash v ↦ elim m.cpus_count [
        | none ↦ some (aborted, count_processed m r)
        | some cpu_max ↦
            if cpu_max == 0 then none else some (send_to_index (count_processed m r) (v % cpu_max))
      ]
    ]
  ]
]
