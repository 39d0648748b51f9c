-- ===== src/User/Update.antt =====
-- The command line of xdp_ddos01_blacklist_cmdline.c and the ports that it changes.
use prototype_kernel.Base.{
  ℕ, ◌<◌, ◌≡◌, refl, ap, ap₂, ◌∙◌, arith, Option, none, some, Bool, ◌&&◌, ◌==◌, if◌then◌else◌, List,
  [], ◌∷◌, ne→==, and_false, Option-cases, inl, inr,
}
use prototype_kernel.Xdp.Packet.{drop, pass}
use prototype_kernel.Xdp.Ddos.{Filter, filter_tcp, filter_udp}
use prototype_kernel.Xdp.Ddos
use prototype_kernel.User.Bpf.{Calls, IsArray}
use prototype_kernel.User.Blacklist.{exit_ok, blacklist_modify, blacklist_port_modify}
use prototype_kernel.User.PortBits.{same, proto_of, action_of}
use prototype_kernel.User.Ports.{IsPorts, verdict, blacklist_port_modify-verdict}
use prototype_kernel.User.Cmdline.{
  Opt, Options, no_ip, defaults, take_option, take_options, Files, update_ip, update_port,
  counters_of, set_counters, update,
}

-- The protocol and the counters that are open go together.
abbrev Agree : Options → Type 0
Agree o = o.proto ≡ proto_of o.filter

take_option-Agree :
    (o : Options) (x : Opt) (o' : Options) → Agree o → take_option o x ≡ some o' → Agree o'
unfolding take_option
take_option-Agree o x o' h e = ground arith

take_options-Agree :
    (xs : List Opt) (o o' : Options) → Agree o → take_options o xs ≡ some o' → Agree o'
unfolding take_options
take_options-Agree [] o o' h e = cc
take_options-Agree (x ∷ xs) o o' h e = elim (Option-cases (take_option o x)) [
  | inl stop ↦ ground arith
  | inr (p, taken) ↦ take_options-Agree xs p o' (take_option-Agree o x p h taken) (ground arith)
]

abbrev no_maps : Ddos.Maps
no_maps = record {
  blacklist = λ k. none;
  verdict_cnt = λ k. none;
  port_blacklist = λ k. none;
  drop_count_tcp = λ k. none;
  drop_count_udp = λ k. none;
}

module _ (H A : Calls (List ℕ)) (array : IsArray A) (nr_cpus : ℕ)
    (inet_pton : List ℕ → Option ℕ) where
  open A use {lookup}

  run : Options → Files H A → ℕ × Files H A
  unfolding update
  run = update H A nr_cpus inet_pton

  -- The change of the port, with the protocol that goes with the filter.
  modify_port : Bool → Options → Files H A → ℕ × A.Map × A.Map
  modify_port on o st =
      blacklist_port_modify A nr_cpus st.port_blacklist (counters_of H A o.filter st) o.dport
        (action_of on) (proto_of o.filter)

  set_counters-ports :
      (f : Filter) (st : Files H A) (c : A.Map)
      → (set_counters H A f st c).port_blacklist ≡ st.port_blacklist
  unfolding set_counters
  set_counters-ports filter_tcp st c = refl
  set_counters-ports filter_udp st c = refl

  set_counters-addresses :
      (f : Filter) (st : Files H A) (c : A.Map) → (set_counters H A f st c).blacklist ≡ st.blacklist
  unfolding set_counters
  set_counters-addresses filter_tcp st c = refl
  set_counters-addresses filter_udp st c = refl

  update_port_lem :
      (on : Bool) (o : Options) (res : ℕ) (st : Files H A)
      → Agree o
      → o.action ≡ action_of on
      → 0 < o.dport
      → let r = update_port H A nr_cpus inet_pton o res st in
        (r.0 ≡ (modify_port on o st).0)
        × (r.1.port_blacklist ≡ (modify_port on o st).1)
        × (r.1.blacklist ≡ st.blacklist)
  unfolding update_port modify_port
  update_port_lem on o res st agree action pos =
      rw (update_port, ne→== o.dport 0 (omega arith), agree, action)
        (refl, set_counters-ports o.filter _ _, set_counters-addresses o.filter _ _)

  -- The state between the two updates.
  between : Options → Files H A → ℕ × Files H A
  between o st = update_ip H A nr_cpus inet_pton o 0 st

  run-between :
      (o : Options) (st : Files H A)
      → 0 < o.dport
      → run o st ≡ update_port H A nr_cpus inet_pton o (between o st).0 (between o st).1
  unfolding run between
  run-between o st pos =
      rw (update, ne→== o.dport 0 (omega arith), and_false (no_ip o.ip_string)) refl

  between-ports :
      (o : Options) (st : Files H A)
      → ((between o st).1.port_blacklist ≡ st.port_blacklist)
        × (counters_of H A o.filter (between o st).1 ≡ counters_of H A o.filter st)
  unfolding between update_ip counters_of
  between-ports o st = elim (Option-cases o.ip_string) [
    | inl e ↦ rw (update_ip, e) (refl, refl)
    | inr (s, e) ↦ rw (update_ip, e) (refl, same_counters o.filter _)
  ]
    where
      same_counters :
          (f : Filter) (b : H.Map)
          → counters_of H A f (record st { blacklist = b }) ≡ counters_of H A f st
      same_counters filter_tcp b = refl
      same_counters filter_udp b = refl

  unmoved :
      (on : Bool) (o : Options) (st : Files H A)
      → modify_port on o (between o st).1 ≡ modify_port on o st
  unfolding modify_port
  unmoved on o st =
      let same = between-ports o st in
      ap₂ (λ fd c. blacklist_port_modify A nr_cpus fd c o.dport (action_of on) (proto_of o.filter))
        same.0 same.1

  -- The tool changes the port as `blacklist_port_modify` does, and exits with its code.
  run-modify_port :
      (on : Bool) (o : Options) (st : Files H A)
      → Agree o
      → o.action ≡ action_of on
      → 0 < o.dport
      → ((run o st).0 ≡ (modify_port on o st).0)
        × ((run o st).1.port_blacklist ≡ (modify_port on o st).1)
        × ((run o st).1.blacklist ≡ (between o st).1.blacklist)
  run-modify_port on o st agree action pos =
      let u = update_port_lem on o (between o st).0 (between o st).1 agree action pos in
      rw (run-between o st pos)
        (u.0 ∙ ap (λ r. r.0) (unmoved on o st), u.1 ∙ ap (λ r. r.1) (unmoved on o st), u.2)

  -- When the options are accepted with one action and a port from 1 to 65535, on ports that have
  -- only the two filter bits in use and counters that have the port, the tool exits with 0,
  -- whatever became of an address beside it, and on every CPU the XDP program drops or passes the
  -- port for the protocol of the options, as the action says, and judges every other port and
  -- protocol as before.
  pub update-verdict :
      (on : Bool) (xs : List Opt) (o : Options) (st : Files H A) (olds : List ℕ) (m : Ddos.Maps)
      (cpu : ℕ) (g : Filter) (q : ℕ)
      → take_options defaults xs ≡ some o
      → o.action ≡ action_of on
      → 0 < o.dport
      → o.dport < 65536
      → IsPorts A array nr_cpus st.port_blacklist
      → lookup (counters_of H A o.filter st) o.dport ≡ some olds
      → cpu < nr_cpus
      → let r = update H A nr_cpus inet_pton o st in
        (r.0 ≡ exit_ok)
        × (verdict A array nr_cpus r.1.port_blacklist cpu m g q ≡ (
            if q == o.dport && same g o.filter
            then (if on then drop else pass)
            else verdict A array nr_cpus st.port_blacklist cpu m g q))
  unfolding run modify_port
  update-verdict on xs o st olds m cpu g q taken action pos lt ports counts inside =
      let agree = take_options-Agree xs defaults o refl taken in
      let (code, ports', addresses) = run-modify_port on o st agree action pos in
      let r =
        blacklist_port_modify-verdict A array nr_cpus on o.filter st.port_blacklist
          (counters_of H A o.filter st) o.dport olds m cpu g q ports counts lt inside in
      (code ∙ r.0, ap (λ fd. verdict A array nr_cpus fd cpu m g q) ports' ∙ r.2)

  -- When the options are accepted with one action, an address that inet_pton rejects and a port
  -- from 1 to 65535, on ports that have only the two filter bits in use and counters that have the
  -- port, the tool exits with 0, although it leaves the addresses as they were.
  pub bad_address_unnoticed :
      (on : Bool) (xs : List Opt) (o : Options) (s : List ℕ) (st : Files H A) (olds : List ℕ)
      → take_options defaults xs ≡ some o
      → o.action ≡ action_of on
      → o.ip_string ≡ some s
      → inet_pton s ≡ none
      → 0 < o.dport
      → o.dport < 65536
      → IsPorts A array nr_cpus st.port_blacklist
      → lookup (counters_of H A o.filter st) o.dport ≡ some olds
      → 0 < nr_cpus
      → ((update H A nr_cpus inet_pton o st).0 ≡ exit_ok)
        × ((update H A nr_cpus inet_pton o st).1.blacklist ≡ st.blacklist)
  unfolding run between update_ip blacklist_modify
  bad_address_unnoticed on xs o s st olds taken action given bad pos lt ports counts cpus =
      let agree = take_options-Agree xs defaults o refl taken in
      (
        (update-verdict on xs o st olds no_maps 0 o.filter 0 taken action pos lt ports counts
            cpus).0,
        (run-modify_port on o st agree action pos).2
            ∙ rw (update_ip, given, blacklist_modify, bad) refl,
      )
