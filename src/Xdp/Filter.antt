-- ===== src/Xdp/Filter.antt =====
-- The blacklist program drops exactly the packets that the lists name.
use prototype_kernel.Base.{
  ℕ, ◌+◌, ◌≤◌, ◌≡◌, ◌≢◌, inl, inr, sym, arith, Option, none, some, ◌>>=◌, length, lt→ltb, ge→ltb,
  eq→==, ne→==, Option-cases,
}
use prototype_kernel.Xdp.Packet.{Packet, Action, pass, code, raw32, load8_in, load32_raw_in}
use prototype_kernel.Xdp.Eth.{eth_p_ip, L3, reject, found}
use prototype_kernel.Xdp.Parse.{Frame, Frame-unique, Decides, finds, rejects, parse_eth-Decides}
use prototype_kernel.Xdp.Ddos.{
  Maps, Filter, stats_action_verdict, parse_ipv4, handle_eth_protocol, xdp_program,
}
use prototype_kernel.Xdp.Blacklist.{
  MarkedPort, Dropped, by_address, by_port, skipped, passed, too_short, Outcome, drops, keeps,
  PortOutcome, port_drops, port_passes, port_short, port_outcome,
}
use native.Mathlib.Decide.{dec_lt, ℕ_discrete}

-- The verdict with its count.
unfoldable counted : Action × Maps → Option (Action × Maps)
unfolding stats_action_verdict
counted r = some (r.0, stats_action_verdict r.1 r.0)

module _ (pkt : Packet) (m : Maps) {o : ℕ} (frame : Frame 2 pkt eth_p_ip o) where
  -- All facts about the IPv4 header are about this one.
  at_ip : {m' : Maps} → Dropped pkt m m' → o + 20 ≤ length pkt
  at_ip (by_address f inside there) = rw (sym ((Frame-unique f frame).1)) inside
  at_ip (by_port f inside unlisted mk) = rw (sym ((Frame-unique f frame).1)) inside

  listed_port :
      {m' : Maps}
      → m.blacklist (raw32 pkt (o + 12)) ≡ none
      → ((f : Filter) → ¬ MarkedPort pkt m o f)
      → ¬ Dropped pkt m m'
  listed_port nothing unmarked (by_address {o = o'} f inside there) =
      let same : o' ≡ o = (Frame-unique f frame).1 in cc
  listed_port nothing unmarked (by_port {f = g} f inside unlisted mk) =
      unmarked g (rw (sym ((Frame-unique f frame).1)) mk)

  port_counted :
      o + 20 ≤ length pkt
      → m.blacklist (raw32 pkt (o + 12)) ≡ none
      → {r : Option (Action × Maps)} → PortOutcome pkt m o r
      → Outcome pkt m (r >>= counted)
  unfolding counted stats_action_verdict code
  port_counted inside nothing (port_drops mk) = drops (by_port frame inside nothing mk)
  port_counted inside nothing (port_passes unmarked) =
      keeps passed (λ m''. listed_port nothing unmarked)
  port_counted inside nothing (port_short unmarked) =
      keeps too_short (λ m''. listed_port nothing unmarked)

  ipv4_counted : Outcome pkt m (parse_ipv4 pkt m o >>= counted)
  unfolding parse_ipv4 counted stats_action_verdict code
  ipv4_counted = elim (dec_lt (length pkt) (o + 20)) [
    | yes lt ↦
        rw (lt→ltb (length pkt) (o + 20) lt)
          (keeps too_short (λ m'' d. absurd (omega (arith, at_ip d))))
    | no ge ↦ elim (Option-cases (m.blacklist (raw32 pkt (o + 12)))) [
      | inr (v, there) ↦
          rw
            (
              ge→ltb (length pkt) (o + 20) (omega arith),
              load32_raw_in pkt (o + 12) (omega arith),
              there,
            )
            (drops (by_address frame (omega arith) there))
      | inl nothing ↦
          rw
            (
              ge→ltb (length pkt) (o + 20) (omega arith),
              load32_raw_in pkt (o + 12) (omega arith),
              nothing,
              load8_in pkt (o + 9) (omega arith),
            )
            (port_counted (omega arith) nothing (port_outcome pkt m o))
    ]
  ]

-- On every packet the program returns a verdict and reads nothing past the end. It drops exactly the IPv4
-- packets, behind up to two VLAN tags, that have a whole IPv4 header of 20 bytes and whose source address
-- is on the list, or that are UDP or TCP, have a whole transport header directly behind those 20 bytes
-- (whatever length the IPv4 header states) and have a destination port there that is on the list for the
-- protocol; and it counts the drop. Other packets change the counts of verdicts only.
pub xdp_program-Outcome : (pkt : Packet) (m : Maps) → Outcome pkt m (xdp_program pkt m)
unfolding xdp_program handle_eth_protocol stats_action_verdict code counted
xdp_program-Outcome pkt m = go (parse_eth-Decides pkt).1
  where
    go :
        {l3 : Option L3}
        → Decides (Frame 2 pkt) l3
        → Outcome pkt m (
            l3 >>= λ l3. elim l3 [
              | reject ↦ some (pass, m)
              | found eth_proto l3_offset ↦ handle_eth_protocol pkt m eth_proto l3_offset >>= λ r.
                  some (r.0, stats_action_verdict r.1 r.0)
            ])
    go (rejects never) = keeps skipped (λ m'' d. unframed d)
      where
        unframed : {m'' : Maps} → ¬ Dropped pkt m m''
        unframed (by_address f inside there) = never _ _ f
        unframed (by_port f inside unlisted mk) = never _ _ f
    go (finds {e} {o} frame) = elim (ℕ_discrete e eth_p_ip) [
      | yes ip ↦
          rw (handle_eth_protocol, eq→== e eth_p_ip ip) (ipv4_counted pkt m (rw (sym ip) frame))
      | no other ↦
          rw (handle_eth_protocol, ne→== e eth_p_ip other) (keeps passed (λ m'' d. not_ip other d))
    ]
      where
        not_ip : {m'' : Maps} → e ≢ eth_p_ip → ¬ Dropped pkt m m''
        not_ip other (by_address f inside there) = other ((Frame-unique frame f).0)
        not_ip other (by_port f inside unlisted mk) = other ((Frame-unique frame f).0)
