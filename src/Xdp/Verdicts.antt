-- ===== src/Xdp/Verdicts.antt =====
-- What the programs of xdp_redirect_cpu_kern.c may return, and which packets go to the CPU for UDP.
use prototype_kernel.Base.{
  ℕ, ◌+◌, ◌<◌, ◌≡◌, inl, inr, refl, arith, Option, some, ◌>>=◌, ◌==◌, if◌then◌else◌, length, lt→ltb,
  ge→ltb, eq→==, ne→==, le→leb, gt→leb, Option-cases,
}
use prototype_kernel.Base.Words.{add32}
use prototype_kernel.Xdp.Packet.{
  Packet, Action, aborted, drop, pass, redirect, be16, byte, load8_in, load16_in,
}
use prototype_kernel.Xdp.Eth.{eth_p_802_3_min, eth_p_ip, eth_p_ipv6, L3, reject, found}
use prototype_kernel.Xdp.Parse.{Frame, Decides, finds, rejects, parse_eth-Decides}
use prototype_kernel.Xdp.RedirectCpu.{
  Maps, DataRec, max_cpus, count_processed, send_to, send_to_index, get_dest_port_ipv4_udp,
  get_proto_ipv4, get_proto_ipv6, l4_proto, index_of_proto, xdp_prognum0_no_touch,
  xdp_prognum1_touch_data, xdp_prognum2_round_robin, xdp_prognum3_proto_separate,
}
use native.Mathlib.Decide.{dec_lt, dec_le, ℕ_discrete}

-- A verdict that is no redirect, or one to a CPU below MAX_CPUS.
pub data InRange : Action → Type 0 where
  aborts : InRange aborted
  drops : InRange drop
  passes : InRange pass
  to_cpu : {cpu : ℕ} → cpu < max_cpus → InRange (redirect cpu)

-- A program that returns, with such a verdict.
pub data Returns : Option (Action × Maps) → Type 0 where
  returns : {r : Action × Maps} → InRange r.0 → Returns (some r)

send_to-InRange : (m : Maps) (d : ℕ) → InRange ((send_to m d).0)
unfolding send_to
send_to-InRange m d = elim (dec_le max_cpus d) [
  | yes le ↦ rw (le→leb max_cpus d le) aborts
  | no gt ↦ rw (gt→leb max_cpus d (omega arith)) (to_cpu (omega arith))
]

pub send_to_index-InRange : (m : Maps) (i : ℕ) → InRange ((send_to_index m i).0)
unfolding send_to_index
send_to_index-InRange m i = elim (Option-cases (m.cpus_available i)) [
  | inl nothing ↦ rw (send_to_index, nothing) aborts
  | inr (d, there) ↦ rw (send_to_index, there) (send_to-InRange m d)
]

pub no_touch-InRange : (m : Maps) → InRange ((xdp_prognum0_no_touch m).0)
unfolding xdp_prognum0_no_touch
no_touch-InRange m = elim (Option-cases (m.cpus_available 0)) [
  | inl nothing ↦ rw (xdp_prognum0_no_touch, nothing) aborts
  | inr (d, there) ↦ elim (Option-cases m.rx_cnt) [
    | inl nothing ↦ rw (xdp_prognum0_no_touch, there, nothing) aborts
    | inr (r, counted) ↦
        rw (xdp_prognum0_no_touch, there, counted) (send_to-InRange (count_processed m r) d)
  ]
]

pub touch_data-Returns : (pkt : Packet) (m : Maps) → Returns (xdp_prognum1_touch_data pkt m)
unfolding xdp_prognum1_touch_data
touch_data-Returns pkt m = elim (Option-cases (m.cpus_available 0)) [
  | inl nothing ↦ rw (xdp_prognum1_touch_data, nothing) (returns aborts)
  | inr (d, there) ↦ elim (dec_lt (length pkt) 14) [
    | yes lt ↦ rw (xdp_prognum1_touch_data, there, lt→ltb (length pkt) 14 lt) (returns aborts)
    | no ge ↦ elim (Option-cases m.rx_cnt) [
      | inl nothing ↦
          rw (xdp_prognum1_touch_data, there, ge→ltb (length pkt) 14 (omega arith), nothing)
            (returns aborts)
      | inr (r, counted) ↦ elim (dec_lt (be16 pkt 12) eth_p_802_3_min) [
        | yes lt ↦
            rw
              (
                xdp_prognum1_touch_data,
                there,
                ge→ltb (length pkt) 14 (omega arith),
                counted,
                load16_in pkt 12 (omega arith),
                lt→ltb (be16 pkt 12) eth_p_802_3_min lt,
              )
              (returns drops)
        | no le ↦
            rw
              (
                xdp_prognum1_touch_data,
                there,
                ge→ltb (length pkt) 14 (omega arith),
                counted,
                load16_in pkt 12 (omega arith),
                ge→ltb (be16 pkt 12) eth_p_802_3_min (omega arith),
              )
              (returns (send_to-InRange (count_processed m r) d))
      ]
    ]
  ]
]

-- The maps with the iterator moved on.
turned : Maps → ℕ → ℕ → Maps
turned m i size = record m { cpus_iterator = some (if add32 i 1 == size then 0 else add32 i 1) }

pub round_robin-InRange : (m : Maps) → InRange ((xdp_prognum2_round_robin m).0)
unfolding xdp_prognum2_round_robin turned
round_robin-InRange m = elim (Option-cases m.cpus_count) [
  | inl nothing ↦ rw (xdp_prognum2_round_robin, nothing) aborts
  | inr (size, count) ↦ elim (Option-cases m.cpus_iterator) [
    | inl nothing ↦ rw (xdp_prognum2_round_robin, count, nothing) aborts
    | inr (i, at) ↦ elim (Option-cases (m.cpus_available i)) [
      | inl nothing ↦ rw (xdp_prognum2_round_robin, count, at, nothing) aborts
      | inr (d, there) ↦ elim (Option-cases m.rx_cnt) [
        | inl nothing ↦ rw (xdp_prognum2_round_robin, count, at, there, nothing) aborts
        | inr (r, counted) ↦
            rw (xdp_prognum2_round_robin, count, at, there, counted)
              (send_to-InRange (count_processed (turned m i size) r) d)
      ]
    ]
  ]
]

-- The reads of the layer 3 header fault on no packet.
proto_ipv4_in : (pkt : Packet) (o : ℕ) → (v : ℕ) × (get_proto_ipv4 pkt o ≡ some v)
unfolding get_proto_ipv4
proto_ipv4_in pkt o = elim (dec_lt (length pkt) (o + 20)) [
  | yes lt ↦ (0, rw (lt→ltb (length pkt) (o + 20) lt) refl)
  | no ge ↦ (
    byte pkt (o + 9),
    rw (ge→ltb (length pkt) (o + 20) (omega arith)) (load8_in pkt (o + 9) (omega arith)),
  )
]

proto_ipv6_in : (pkt : Packet) (o : ℕ) → (v : ℕ) × (get_proto_ipv6 pkt o ≡ some v)
unfolding get_proto_ipv6
proto_ipv6_in pkt o = elim (dec_lt (length pkt) (o + 40)) [
  | yes lt ↦ (0, rw (lt→ltb (length pkt) (o + 40) lt) refl)
  | no ge ↦ (
    byte pkt (o + 6),
    rw (ge→ltb (length pkt) (o + 40) (omega arith)) (load8_in pkt (o + 6) (omega arith)),
  )
]

pub l4_proto_in : (pkt : Packet) (e o : ℕ) → (v : ℕ) × (l4_proto pkt e o ≡ some v)
unfolding l4_proto
l4_proto_in pkt e o = elim (ℕ_discrete e eth_p_ip) [
  | yes ip ↦ let (v, eq) = proto_ipv4_in pkt o in (v, rw (l4_proto, eq→== e eth_p_ip ip) eq)
  | no other ↦ elim (ℕ_discrete e eth_p_ipv6) [
    | yes ip ↦
        let (v, eq) = proto_ipv6_in pkt o in
        (v, rw (l4_proto, ne→== e eth_p_ip other, eq→== e eth_p_ipv6 ip) eq)
    | no neither ↦ (17, rw (l4_proto, ne→== e eth_p_ip other, ne→== e eth_p_ipv6 neither) refl)
  ]
]

pub dest_port_in : (pkt : Packet) (o : ℕ) → (v : ℕ) × (get_dest_port_ipv4_udp pkt o ≡ some v)
unfolding get_dest_port_ipv4_udp
dest_port_in pkt o = elim (dec_lt (length pkt) (o + 20)) [
  | yes lt ↦ (0, rw (lt→ltb (length pkt) (o + 20) lt) refl)
  | no ge ↦ elim (ℕ_discrete (byte pkt (o + 9)) 17) [
    | no other ↦ (
      0,
      rw
          (
            ge→ltb (length pkt) (o + 20) (omega arith),
            load8_in pkt (o + 9) (omega arith),
            ne→== (byte pkt (o + 9)) 17 other,
          )
          refl,
    )
    | yes udp ↦ elim (dec_lt (length pkt) (o + 20 + 8)) [
      | yes lt ↦ (
        0,
        rw
            (
              ge→ltb (length pkt) (o + 20) (omega arith),
              load8_in pkt (o + 9) (omega arith),
              eq→== (byte pkt (o + 9)) 17 udp,
              lt→ltb (length pkt) (o + 20 + 8) lt,
            )
            refl,
      )
      | no more ↦ (
        be16 pkt (o + 20 + 2),
        rw
            (
              ge→ltb (length pkt) (o + 20) (omega arith),
              load8_in pkt (o + 9) (omega arith),
              eq→== (byte pkt (o + 9)) 17 udp,
              ge→ltb (length pkt) (o + 20 + 8) (omega arith),
            )
            (load16_in pkt (o + 20 + 2) (omega arith)),
      )
    ]
  ]
]

pub proto_separate-Returns : (pkt : Packet) (m : Maps) → Returns (xdp_prognum3_proto_separate pkt m)
unfolding xdp_prognum3_proto_separate
proto_separate-Returns pkt m = elim (Option-cases m.rx_cnt) [
  | inl nothing ↦ rw (xdp_prognum3_proto_separate, nothing) (returns aborts)
  | inr (r, counted) ↦ rw (xdp_prognum3_proto_separate, counted) (go r ((parse_eth-Decides pkt).0))
]
  where
    next : DataRec → L3 → Option (Action × Maps)
    next r reject = some (pass, count_processed m r)
    next r (found e o) =
        l4_proto pkt e o >>= λ p. some (send_to_index (count_processed m r) (index_of_proto p))

    go : (r : DataRec) {l3 : Option L3} → Decides (Frame 1 pkt) l3 → Returns (l3 >>= next r)
    go r (rejects never) = returns passes
    go r (finds {e} {o} frame) =
        let (v, eq) = l4_proto_in pkt e o in
        rw eq (returns (send_to_index-InRange (count_processed m r) (index_of_proto v)))
