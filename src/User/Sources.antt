-- ===== src/User/Sources.antt =====
-- The verdict of the XDP program on an IPv4 packet, by what the list of addresses has for its source.
use prototype_kernel.Base.{
  ℕ, ◌+◌, ◌≤◌, ◌≡◌, refl, ap, arith, Option, none, some, ◌>>=◌, length, ge→ltb, Option-cases,
  >>=_assoc,
}
use prototype_kernel.Xdp.Packet.{
  Packet, Action, BpfMap, bump, drop, raw32, load8, load16, load32_raw_in,
}
use prototype_kernel.Xdp.Ddos.{Maps, parse_ipv4, parse_port, port_verdict}
use mathlib.Core.Path.{fun_ext}

-- The verdict that the ports of a packet get, and that the packet gets.
abbrev pub by_port : Packet → Maps → ℕ → Option Action
by_port pkt m l3_offset = load8 pkt (l3_offset + 9) >>= λ proto.
    parse_port pkt m proto (l3_offset + 20) >>= λ r. some (r.0)

abbrev pub ip_verdict : Packet → Maps → ℕ → Option Action
ip_verdict pkt m l3_offset = parse_ipv4 pkt m l3_offset >>= λ r. some (r.0)

-- The verdict by the values for the source.
abbrev pub on_source : Option ℕ → Option Action → Option Action
on_source none ports = ports
on_source (some v) ports = some drop

pub ip_verdict_lem :
    (pkt : Packet) (m : Maps) (o : ℕ)
    → o + 20 ≤ length pkt
    → ip_verdict pkt m o ≡ on_source (m.blacklist (raw32 pkt (o + 12))) (by_port pkt m o)
unfolding parse_ipv4
ip_verdict_lem pkt m o h =
    rw (ge→ltb (length pkt) (o + 20) h, load32_raw_in pkt (o + 12) (omega arith))
      (by_source (m.blacklist (raw32 pkt (o + 12))))
  where
    by_source :
        (v : Option ℕ)
        → (elim v as (λ x. Option (Action × Maps)) [
          | none ↦ load8 pkt (o + 9) >>= λ proto. parse_port pkt m proto (o + 20)
          | some value ↦ some (drop, record m { blacklist = bump m.blacklist (raw32 pkt (o + 12)) })
        ]
            >>= λ r. some (r.0))
          ≡ on_source v (by_port pkt m o)
    by_source none =
        >>=_assoc (load8 pkt (o + 9)) (λ proto. parse_port pkt m proto (o + 20)) (λ r. some (r.0))
    by_source (some v) = refl

-- The list of addresses is nothing to the ports.
port_same :
    (pkt : Packet) (m : Maps) (b c : BpfMap) (proto hdr : ℕ)
    → (parse_port pkt (record m { blacklist = b }) proto hdr >>= λ r. some (r.0))
      ≡ (parse_port pkt (record m { blacklist = c }) proto hdr >>= λ r. some (r.0))
unfolding parse_port port_verdict
port_same pkt m b c proto hdr = ground (arith, Option-cases (load16 pkt (hdr + 2)))

pub by_port_same :
    (pkt : Packet) (m : Maps) (b c : BpfMap) (o : ℕ)
    → by_port pkt (record m { blacklist = b }) o ≡ by_port pkt (record m { blacklist = c }) o
by_port_same pkt m b c o =
    ap (λ f. load8 pkt (o + 9) >>= f) (fun_ext (λ proto. port_same pkt m b c proto (o + 20)))
