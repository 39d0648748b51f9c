-- ===== src/Xdp/DropPattern.antt =====
-- kernel/samples/bpf/xdp_bench02_drop_pattern_kern.c: drops in a pattern that user space chooses.
use prototype_kernel.Base.{
  ℕ, ◌+◌, ◌*◌, ◌%◌, ◌^◌, Option, none, some, ◌>>=◌, ltb, leb, ◌==◌, if◌then◌else◌, List, [], ◌∷◌,
  length,
}
use prototype_kernel.Xdp.Packet.{
  Packet, Action, aborted, drop, pass, tx, code, load32_raw, BpfMap, put, bump,
}
use prototype_kernel.Xdp.Eth.{eth_p_ip, reject, found, parse_eth}

-- `struct pattern`
pub record Pattern : Type 0 where
  pub type : ℕ
  pub arg : ℕ

-- The maps, of one CPU. Those with one entry that is only read are what a lookup of key 0 finds.
pub record Maps : Type 0 where
  pub rx_cnt : BpfMap
  pub xdp_pattern : Option Pattern
  pub touch_memory : Option ℕ
  pub verdict_cnt : BpfMap
  pub count : BpfMap
  pub blacklist : BpfMap
  pub xdp_action : Option ℕ

-- `stats_action_verdict`
unfoldable pub stats_action_verdict : Maps → Action → Maps
unfolding bump code
stats_action_verdict m action =
    if leb 4 (code action) then m else record m { verdict_cnt = bump m.verdict_cnt (code action) }

-- The counter of `N_drop_N_accept`, and `val`
unfoldable pub next_count : BpfMap → ℕ → BpfMap
unfolding bump put
next_count count n = elim (count 0) [
  | none ↦ count
  | some val ↦ if leb (n * 2 % 2 ^ 64) ((val + 1) % 2 ^ 64) then put count 0 0 else bump count 0
]

unfoldable pub val_of : BpfMap → ℕ
val_of count = elim (count 0) [ none ↦ 0 | some val ↦ val ]

-- The tests of `N_drop_N_accept`
unfoldable pub pattern_verdict : ℕ → ℕ → Action
pattern_verdict n val =
    if n == 0
    then pass
    else if ltb val n
    then drop
    else if ltb val (n * 2 % 2 ^ 64)
    then pass
    else tx

-- `N_drop_N_accept`
unfoldable pub n_drop_n_accept : Maps → ℕ → Action × Maps
unfolding next_count val_of pattern_verdict
n_drop_n_accept m n =
    (pattern_verdict n (val_of m.count), record m { count = next_count m.count n })

-- `parse_ipv4`
unfoldable pub parse_ipv4 : Packet → Maps → ℕ → Option (Action × Maps)
unfolding bump
parse_ipv4 pkt m l3_offset =
    if ltb (length pkt) (l3_offset + 20)
    then some (aborted, m)
    else (load32_raw pkt (l3_offset + 12) >>= λ ip_src. elim (m.blacklist ip_src) [
      | some value ↦ some (drop, record m { blacklist = bump m.blacklist ip_src })
      | none ↦ some (pass, m)
    ])

-- `handle_eth_protocol`
unfoldable pub handle_eth_protocol : Packet → Maps → ℕ → ℕ → Option (Action × Maps)
unfolding parse_ipv4
handle_eth_protocol pkt m eth_proto l3_offset =
    if eth_proto == eth_p_ip then parse_ipv4 pkt m l3_offset else some (pass, m)

-- How `xdp_prog` leaves the block that touches the packet: `return XDP_PASS`, `goto out`, or neither.
pub data Touched : Type 0 where
  skip : Touched
  goto_out : Maps → Touched
  go_on : Maps → Touched

-- `a2 = handle_eth_protocol(...); if (a2 == XDP_DROP) {...}`
unfoldable pub out_of : Action × Maps → Touched
unfolding code
out_of r = if code r.0 == 1 then goto_out r.1 else go_on r.1

-- `if (touch_mem && (*touch_mem == 1)) {...}`, with what the lookup found
unfoldable pub touch : Packet → Maps → Option ℕ → Option Touched
unfolding handle_eth_protocol out_of
touch pkt m none = some (go_on m)
touch pkt m (some touch_mem) =
    if touch_mem == 1
    then (parse_eth pkt >>= λ l3. elim l3 [
      | reject ↦ some skip
      | found eth_proto l3_offset ↦
          handle_eth_protocol pkt m eth_proto l3_offset >>= λ r. some (out_of r)
    ])
    else some (go_on m)

-- `if (a3 && (*a3 > 0) && (*a3 < XDP_ACTION_MAX)) action = *a3`, where `a3` points to 32 bits
unfoldable pub override : Option ℕ → Action → Action
override none action = action
override (some v) action =
    if v % 2 ^ 32 == 1
    then drop
    else if v % 2 ^ 32 == 2
    then pass
    else if v % 2 ^ 32 == 3
    then tx
    else action

-- `if (pattern->type == 1) action = N_drop_N_accept(pattern->arg)`, with the action before it
unfoldable pub by_pattern : Pattern → Maps → Action × Maps
unfolding n_drop_n_accept
by_pattern pattern m = if pattern.type == 1 then n_drop_n_accept m pattern.arg else (drop, m)

-- From `out:` on.
unfoldable pub out : Action → Maps → Action × Maps
unfolding stats_action_verdict
out action m = (action, stats_action_verdict m action)

-- `xdp_prog` from the count of packets on.
unfoldable pub choose : Pattern → Maps → Action × Maps
unfolding by_pattern override out bump
choose pattern m =
    let r = by_pattern pattern (record m { rx_cnt = bump m.rx_cnt 0 }) in
    out (override m.xdp_action (r.0)) (r.1)

-- `xdp_prog` behind the block that touches the packet.
unfoldable pub after_touch : Pattern → Maps → Touched → Action × Maps
unfolding choose out
after_touch pattern m skip = (pass, m)
after_touch pattern m (goto_out m') = out drop m'
after_touch pattern m (go_on m') = choose pattern m'

-- `xdp_prog` from the lookup of the pattern on, with what it found.
unfoldable pub with_pattern : Packet → Maps → Option Pattern → Option (Action × Maps)
unfolding touch after_touch
with_pattern pkt m none = some (aborted, m)
with_pattern pkt m (some pattern) =
    touch pkt m m.touch_memory >>= λ t. some (after_touch pattern m t)

-- `xdp_prog`
unfoldable pub xdp_prog : Packet → Maps → Option (Action × Maps)
unfolding with_pattern
xdp_prog pkt m = if ltb (length pkt) 14 then some (drop, m) else with_pattern pkt m m.xdp_pattern

-- The program on one packet after the other: the verdicts, and the maps in the end.
abbrev pub run : List Packet → Maps → Option (List Action × Maps)
run [] m = some ([], m)
run (pkt ∷ pkts) m = xdp_prog pkt m >>= λ r. run pkts (r.1) >>= λ s. some (r.0 ∷ s.0, s.1)
