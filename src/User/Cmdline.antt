-- ===== src/User/Cmdline.antt =====
-- `main` of kernel/samples/bpf/xdp_ddos01_blacklist_cmdline.c, as far as it changes the maps: its
-- options, and the update.
use prototype_kernel.Base.{
  ℕ, Option, none, some, Bool, true, false, ◌&&◌, leb, ◌==◌, if◌then◌else◌, List, [], ◌∷◌, length,
}
use prototype_kernel.Xdp.Ddos.{Filter, filter_tcp, filter_udp}
use prototype_kernel.User.Bpf.{Calls}
use prototype_kernel.User.Blacklist.{
  exit_fail_option, action_add, action_del, ipproto_tcp, ipproto_udp, blacklist_modify,
  blacklist_port_modify,
}
use Prim.Native.Nat.{bit_or}

-- An option of `getopt_long`, with its argument; a port is the 32-bit word that atoi gives. Those for
-- listing and for statistics are one here, and so are those that show the usage.
pub data Opt : Type 0 where
  add del show help : Opt
  ip : List ℕ → Opt
  udp tcp : ℕ → Opt

-- The variables of `main`.
pub record Options : Type 0 where
  pub action : ℕ
  pub ip_string : Option (List ℕ)
  pub dport : ℕ
  pub proto : ℕ
  pub filter : Filter

abbrev pub defaults : Options
defaults = record {
  action = 0;
  ip_string = none;
  dport = 0;
  proto = ipproto_tcp;
  filter = filter_tcp;
}

-- STR_MAX
abbrev pub str_max : ℕ
str_max = 42

-- One round of the loop; `none` goes to `fail_opt`. The case of `-u` falls through to that of `-t`.
unfoldable pub take_option : Options → Opt → Option Options
take_option o add = some (record o { action = bit_or o.action action_add })
take_option o del = some (record o { action = bit_or o.action action_del })
take_option o (ip s) =
    if leb str_max (length s) then none else some (record o { ip_string = some s })
take_option o (udp dport) =
    some (record o { proto = ipproto_udp; filter = filter_udp; dport = dport })
take_option o (tcp dport) = some (record o { dport = dport })
take_option o show = some o
take_option o help = none

unfoldable pub take_options : Options → List Opt → Option Options
unfolding take_option
take_options o [] = some o
take_options o (x ∷ xs) = elim (take_option o x) [ none ↦ none | some o' ↦ take_options o' xs ]

-- `!ip_string`
abbrev pub no_ip : Option (List ℕ) → Bool
no_ip none = true
no_ip (some s) = false

-- A hash of addresses and an array of ports, with the counters of the ports.
pub record Files (H A : Calls (List ℕ)) : Type 0 where
  pub blacklist : H.Map
  pub port_blacklist : A.Map
  pub count_tcp : A.Map
  pub count_udp : A.Map

module _ (H A : Calls (List ℕ)) where
  -- The counters of the ports that `fd_port_blacklist_count` is open for.
  unfoldable pub counters_of : Filter → Files H A → A.Map
  counters_of filter_tcp st = st.count_tcp
  counters_of filter_udp st = st.count_udp

  unfoldable pub set_counters : Filter → Files H A → A.Map → Files H A
  set_counters filter_tcp st m = record st { count_tcp = m }
  set_counters filter_udp st m = record st { count_udp = m }

module _ (H A : Calls (List ℕ)) (nr_cpus : ℕ) (inet_pton : List ℕ → Option ℕ) where
  -- `if (ip_string) {...}`, with `res` before it
  unfoldable pub update_ip : Options → ℕ → Files H A → ℕ × Files H A
  update_ip o res st = elim o.ip_string [
    | none ↦ (res, st)
    | some s ↦
        let r = blacklist_modify H nr_cpus inet_pton st.blacklist s o.action in
        (r.0, record st { blacklist = r.1 })
  ]

  -- `if (dport) {...}`
  unfoldable pub update_port : Options → ℕ → Files H A → ℕ × Files H A
  unfolding counters_of set_counters
  update_port o res st =
      if o.dport == 0
      then (res, st)
      else (let r =
            blacklist_port_modify A nr_cpus st.port_blacklist (counters_of H A o.filter st) o.dport
              o.action o.proto in
          (r.0, set_counters H A o.filter (record st { port_blacklist = r.1 }) (r.2)))

  -- `if (action) {...}`: the exit code and the maps
  unfoldable pub update : Options → Files H A → ℕ × Files H A
  unfolding update_ip update_port
  update o st =
      if no_ip o.ip_string && o.dport == 0
      then (exit_fail_option, st)
      else (let r = update_ip o 0 st in update_port o (r.0) (r.1))
