-- ===== src/Xdp/Blacklist.antt =====
-- The verdict of the blacklist program on every packet.
use prototype_kernel.Base.{
  ℕ, ◌+◌, ◌^◌, ◌≤◌, ◌<◌, ◌≡◌, ◌≢◌, inl, inr, refl, sym, ap, ◌∙◌, arith, Option, none, some, length,
  bit_and, lt→ltb, ge→ltb, eq→==, ne→==, Option-cases,
}
use prototype_kernel.Xdp.Packet.{
  Packet, Action, aborted, drop, pass, byte, be16, raw32, load16_in, bump,
}
use prototype_kernel.Xdp.Eth.{eth_p_ip}
use prototype_kernel.Xdp.Parse.{Frame}
use prototype_kernel.Xdp.Ddos.{
  Maps, Filter, filter_tcp, filter_udp, fproto, count_drop, stats_action_verdict, port_verdict,
  parse_port,
}
use native.Mathlib.Decide.{dec_lt, ℕ_discrete}

-- The IP protocol of a filter, and the size of its header.
abbrev pub proto_of : Filter → ℕ
proto_of filter_tcp = 6
proto_of filter_udp = 17

abbrev pub header_of : Filter → ℕ
header_of filter_tcp = 20
header_of filter_udp = 8

-- The bit of a filter in an entry of `port_blacklist`.
abbrev pub bit_of : Filter → ℕ
bit_of filter_tcp = 1
bit_of filter_udp = 2

-- The transport header behind the IPv4 header at `o` names a port that is marked for its protocol.
pub record MarkedPort (pkt : Packet) (m : Maps) (o : ℕ) (f : Filter) : Type 0 where
  pub proto : byte pkt (o + 9) ≡ proto_of f
  pub whole : o + 20 + header_of f ≤ length pkt
  pub value : ℕ
  pub listed : m.port_blacklist (be16 pkt (o + 20 + 2)) ≡ some value
  pub marked : bit_and value (bit_of f) ≢ 0

-- Why a packet is dropped, and the maps after that.
pub data Dropped (pkt : Packet) (m : Maps) : Maps → Type 0 where
  by_address :
      {o v : ℕ}
      → Frame 2 pkt eth_p_ip o
      → o + 20 ≤ length pkt
      → m.blacklist (raw32 pkt (o + 12)) ≡ some v
      → Dropped pkt m (record m {
        blacklist = bump m.blacklist (raw32 pkt (o + 12));
        verdict_cnt = bump m.verdict_cnt 1;
      })
  by_port :
      {o : ℕ} {f : Filter}
      → Frame 2 pkt eth_p_ip o
      → o + 20 ≤ length pkt
      → m.blacklist (raw32 pkt (o + 12)) ≡ none
      → MarkedPort pkt m o f
      → Dropped pkt m (stats_action_verdict (count_drop m f (be16 pkt (o + 20 + 2))) drop)

-- A packet that is let through or is too short changes the counters of verdicts only.
pub data Kept (m : Maps) : Action → Maps → Type 0 where
  skipped : Kept m pass m
  passed : Kept m pass (record m { verdict_cnt = bump m.verdict_cnt 2 })
  too_short : Kept m aborted (record m { verdict_cnt = bump m.verdict_cnt 0 })

pub data Outcome (pkt : Packet) (m : Maps) : Option (Action × Maps) → Type 0 where
  drops : {m' : Maps} → Dropped pkt m m' → Outcome pkt m (some (drop, m'))
  keeps :
      {a : Action} {m' : Maps}
      → Kept m a m'
      → ((m'' : Maps) → ¬ Dropped pkt m m'')
      → Outcome pkt m (some (a, m'))

-- What `parse_port` does behind the IPv4 header at `o`.
pub data PortOutcome (pkt : Packet) (m : Maps) (o : ℕ) : Option (Action × Maps) → Type 0 where
  port_drops :
      {f : Filter}
      → MarkedPort pkt m o f
      → PortOutcome pkt m o (some (drop, count_drop m f (be16 pkt (o + 20 + 2))))
  port_passes : ((f : Filter) → ¬ MarkedPort pkt m o f) → PortOutcome pkt m o (some (pass, m))
  port_short : ((f : Filter) → ¬ MarkedPort pkt m o f) → PortOutcome pkt m o (some (aborted, m))

proto_unique : (f g : Filter) → proto_of f ≡ proto_of g → f ≡ g
proto_unique filter_tcp filter_tcp e = refl
proto_unique filter_tcp filter_udp e = absurd (omega arith)
proto_unique filter_udp filter_tcp e = absurd (omega arith)
proto_unique filter_udp filter_udp e = refl

module _ (pkt : Packet) (m : Maps) (o : ℕ) where
  unmarked :
      (f : Filter) {g : Filter} {value : ℕ}
      → byte pkt (o + 9) ≡ proto_of f
      → m.port_blacklist (be16 pkt (o + 20 + 2)) ≡ some value
      → bit_and value (bit_of f) ≡ 0
      → ¬ MarkedPort pkt m o g
  unmarked f {g} {value} proto listed zero_bit mk =
      mk.marked (rw (same_value, same_filter) zero_bit)
    where
      same_filter : g ≡ f
      same_filter = proto_unique g f (sym mk.proto ∙ proto)

      same_value : mk.value ≡ value
      same_value = let same : some mk.value ≡ some value = sym mk.listed ∙ listed in cc

  verdict_outcome :
      (f : Filter)
      → byte pkt (o + 9) ≡ proto_of f
      → o + 20 + header_of f ≤ length pkt
      → PortOutcome pkt m o (some (port_verdict m f (be16 pkt (o + 20 + 2))))
  unfolding port_verdict fproto
  verdict_outcome f proto whole = elim (Option-cases (m.port_blacklist (be16 pkt (o + 20 + 2)))) [
    | inl nothing ↦ rw (port_verdict, nothing) (port_passes (λ g mk. unlisted mk nothing))
    | inr (value, there) ↦ elim (ℕ_discrete (bit_and value (bit_of f)) 0) [
      | yes e ↦
          rw (port_verdict, there, bit_lem f, eq→== (bit_and value (bit_of f)) 0 e)
            (port_passes (λ g mk. unmarked f proto there e mk))
      | no ne ↦
          rw (port_verdict, there, bit_lem f, ne→== (bit_and value (bit_of f)) 0 ne)
            (port_drops
              (record { proto = proto; whole = whole; value = value; listed = there; marked = ne }))
    ]
  ]
    where
      unlisted :
          {g : Filter} → MarkedPort pkt m o g → ¬ (m.port_blacklist (be16 pkt (o + 20 + 2)) ≡ none)
      unlisted mk nothing = let same : some mk.value ≡ none = sym mk.listed ∙ nothing in cc

      bit_lem : (f : Filter) → 2 ^ fproto f ≡ bit_of f
      bit_lem filter_tcp = refl
      bit_lem filter_udp = refl

  other_proto : (f : Filter) → byte pkt (o + 9) ≢ 17 → byte pkt (o + 9) ≢ 6 → ¬ MarkedPort pkt m o f
  other_proto filter_tcp no_udp no_tcp mk = no_tcp mk.proto
  other_proto filter_udp no_udp no_tcp mk = no_udp mk.proto

  short_header :
      (f g : Filter)
      → byte pkt (o + 9) ≡ proto_of f
      → length pkt < o + 20 + header_of f
      → ¬ MarkedPort pkt m o g
  short_header f g proto short mk =
      absurd (omega (arith, mk.whole, ap header_of (proto_unique g f (sym mk.proto ∙ proto))))

  pub port_outcome : PortOutcome pkt m o (parse_port pkt m (byte pkt (o + 9)) (o + 20))
  unfolding parse_port
  port_outcome = elim (ℕ_discrete (byte pkt (o + 9)) 17) [
    | yes udp ↦ elim (dec_lt (length pkt) (o + 20 + 8)) [
      | yes lt ↦
          rw (eq→== (byte pkt (o + 9)) 17 udp, lt→ltb (length pkt) (o + 20 + 8) lt)
            (port_short (λ g. short_header filter_udp g udp lt))
      | no ge ↦
          rw
            (
              eq→== (byte pkt (o + 9)) 17 udp,
              ge→ltb (length pkt) (o + 20 + 8) (omega arith),
              load16_in pkt (o + 20 + 2) (omega arith),
            )
            (verdict_outcome filter_udp udp (omega arith))
    ]
    | no no_udp ↦ elim (ℕ_discrete (byte pkt (o + 9)) 6) [
      | yes tcp ↦ elim (dec_lt (length pkt) (o + 20 + 20)) [
        | yes lt ↦
            rw
              (
                ne→== (byte pkt (o + 9)) 17 no_udp,
                eq→== (byte pkt (o + 9)) 6 tcp,
                lt→ltb (length pkt) (o + 20 + 20) lt,
              )
              (port_short (λ g. short_header filter_tcp g tcp lt))
        | no ge ↦
            rw
              (
                ne→== (byte pkt (o + 9)) 17 no_udp,
                eq→== (byte pkt (o + 9)) 6 tcp,
                ge→ltb (length pkt) (o + 20 + 20) (omega arith),
                load16_in pkt (o + 20 + 2) (omega arith),
              )
              (verdict_outcome filter_tcp tcp (omega arith))
      ]
      | no no_tcp ↦
          rw (ne→== (byte pkt (o + 9)) 17 no_udp, ne→== (byte pkt (o + 9)) 6 no_tcp)
            (port_passes (λ g mk. other_proto g no_udp no_tcp mk))
    ]
  ]
