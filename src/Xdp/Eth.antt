-- ===== src/Xdp/Eth.antt =====
-- `parse_eth` of kernel/samples/bpf/xdp_ddos01_blacklist_kern.c, and that of xdp_ttl_kern.c and
-- xdp_redirect_cpu_kern.c, which takes one VLAN tag at most; and the frames that they accept.
use prototype_kernel.Base.{
  ℕ, suc, ◌+◌, ◌≤◌, ◌≡◌, Option, some, ◌>>=◌, Bool, true, false, ◌||◌, ltb, ◌==◌, if◌then◌else◌,
  length,
}
use prototype_kernel.Xdp.Packet.{Packet, load16, be16}

abbrev pub eth_p_ip : ℕ
eth_p_ip = 0x0800

abbrev pub eth_p_ipv6 : ℕ
eth_p_ipv6 = 0x86dd

abbrev pub eth_p_arp : ℕ
eth_p_arp = 0x0806

abbrev pub eth_p_802_3_min : ℕ
eth_p_802_3_min = 0x0600

-- ETH_P_8021Q or ETH_P_8021AD
abbrev pub is_vlan : ℕ → Bool
is_vlan eth_type = eth_type == 0x8100 || eth_type == 0x88a8

-- What `parse_eth` finds: false, or the protocol and the offset of layer 3.
pub data L3 : Type 0 where
  reject : L3
  found : (eth_proto l3_offset : ℕ) → L3

-- `if (eth_type == htons(ETH_P_8021Q) || ...) { ... }`
unfoldable pub untag : Packet → ℕ → ℕ → Option L3
untag pkt eth_type offset =
    if is_vlan eth_type
    then (if ltb (length pkt) (offset + 4)
        then some reject
        else (load16 pkt (offset + 2) >>= λ t. some (found t (offset + 4))))
    else some (found eth_type offset)

-- The other tag, if there was no error in the first.
unfoldable pub untag_more : Packet → L3 → Option L3
unfolding untag
untag_more pkt reject = some reject
untag_more pkt (found eth_type offset) = untag pkt eth_type offset

-- `parse_eth` with one tag
unfoldable pub parse_eth : Packet → Option L3
unfolding untag
parse_eth pkt =
    if ltb (length pkt) 14
    then some reject
    else (load16 pkt 12 >>= λ eth_type.
        if ltb eth_type eth_p_802_3_min then some reject else untag pkt eth_type 14)

-- `parse_eth` with two tags
unfoldable pub parse_eth_double : Packet → Option L3
unfolding parse_eth untag_more
parse_eth_double pkt = parse_eth pkt >>= untag_more pkt

-- The type field at `i`, behind which up to `tags` VLAN tags may stand, gives the protocol, and layer 3
-- starts at the offset.
pub data Typed (pkt : Packet) : (tags i eth_proto l3_offset : ℕ) → Type 0 where
  untagged :
      {i : ℕ} (tags : ℕ)
      → i + 2 ≤ length pkt
      → is_vlan (be16 pkt i) ≡ false
      → Typed pkt tags i (be16 pkt i) (i + 2)
  last : {i : ℕ} → i + 2 ≤ length pkt → Typed pkt 0 i (be16 pkt i) (i + 2)
  tagged :
      {tags i eth_proto l3_offset : ℕ}
      → i + 2 ≤ length pkt
      → is_vlan (be16 pkt i) ≡ true
      → Typed pkt tags (i + 4) eth_proto l3_offset
      → Typed pkt (suc tags) i eth_proto l3_offset
