-- ===== src/User/Blacklist.antt =====
-- kernel/samples/bpf/xdp_ddos01_blacklist_common.h and the update that xdp_ddos01_blacklist_cmdline.c
-- makes with it. What the tools print is left out.
use prototype_kernel.Base.{
  ℕ, ◌+◌, ◌-◌, ◌%◌, ◌^◌, Option, none, some, Bool, ◌&&◌, ◌||◌, not, ltb, ◌==◌, if◌then◌else◌, List,
  [], ◌∷◌, replicate, bit_and,
}
use prototype_kernel.User.Bpf.{Calls, noexist, exist, eexist}
use prototype_kernel.Xdp.Ddos.{filter_tcp, filter_udp, fproto}
use mathlib.Core.List.{map}
use Prim.Native.Nat.{bit_or}

-- Exit codes.
abbrev pub exit_ok : ℕ
exit_ok = 0

abbrev pub exit_fail_option : ℕ
exit_fail_option = 2

abbrev pub exit_fail_map_key : ℕ
exit_fail_map_key = 21

abbrev pub exit_fail_ip : ℕ
exit_fail_ip = 30

abbrev pub exit_fail_port : ℕ
exit_fail_port = 31

-- ACTION_ADD and ACTION_DEL
abbrev pub action_add : ℕ
action_add = 1

abbrev pub action_del : ℕ
action_del = 2

-- IPPROTO_TCP and IPPROTO_UDP
abbrev pub ipproto_tcp : ℕ
ipproto_tcp = 6

abbrev pub ipproto_udp : ℕ
ipproto_udp = 17

-- `if (proto == IPPROTO_TCP) value = 1 << DDOS_FILTER_TCP; ...`
unfoldable pub filter_bit : ℕ → Option ℕ
unfolding fproto
filter_bit proto =
    if proto == ipproto_tcp
    then some (2 ^ fproto filter_tcp)
    else if proto == ipproto_udp
    then some (2 ^ fproto filter_udp)
    else none

-- `dport > 65535`, where `dport` is an int, given by its 32-bit word
unfoldable pub port_too_large : ℕ → Bool
port_too_large dport = ltb dport (2 ^ 31) && ltb 65535 dport

-- `curr_values[i] |= value` or `curr_values[i] &= ~(value)`, on u64
unfoldable pub change_bit : ℕ → ℕ → ℕ → ℕ
change_bit action value v =
    if action == action_add then bit_or v value else bit_and v (2 ^ 64 - 1 - value)

-- `if (res != 0) {...}`: the exit code
unfoldable pub exit_of : ℕ → ℕ
exit_of errno =
    if errno == 0 then exit_ok else if errno == eexist then exit_ok else exit_fail_map_key

-- `for (i = 0; i < nr_cpus; i++) sum += values[i]`
unfoldable pub sum_from : ℕ → List ℕ → ℕ
sum_from sum [] = sum
sum_from sum (v ∷ vs) = sum_from ((sum + v) % 2 ^ 64) vs

-- A map with a value for each possible CPU. `inet_pton` gives the address, or fails.
module _ (B : Calls (List ℕ)) (nr_cpus : ℕ) (inet_pton : List ℕ → Option ℕ) where
  open B use {Map, lookup, update, delete}

  -- `blacklist_modify`
  unfoldable pub blacklist_modify : Map → List ℕ → ℕ → ℕ × Map
  unfolding exit_of
  blacklist_modify fd ip_string action = elim (inet_pton ip_string) [
    | none ↦ (exit_fail_ip, fd)
    | some key ↦
        if action == action_add
        then (let r = update fd key (replicate nr_cpus 0) noexist in (exit_of (r.0), r.1))
        else if action == action_del
        then (let r = delete fd key in (exit_of (r.0), r.1))
        else (exit_fail_option, fd)
  ]

module _ (B : Calls (List ℕ)) (nr_cpus : ℕ) where
  open B use {Map, lookup, update, delete}

  -- The values of all CPUs for a key, of zeros where the lookup fails
  unfoldable pub curr_values : Map → ℕ → List ℕ
  curr_values fd key = elim (lookup fd key) [ none ↦ replicate nr_cpus 0 | some vs ↦ vs ]

  -- `if (action == ACTION_DEL) {...}`: the counters
  unfoldable pub clear_stats : Map → ℕ → ℕ → ℕ × Map
  clear_stats countfd key action =
      if action == action_del
      then (let r = update countfd key (replicate nr_cpus 0) exist in
          (if r.0 == 0 then exit_ok else exit_fail_map_key, r.1))
      else (exit_ok, countfd)

  -- `blacklist_port_modify` from the update of the map on, with the values to write
  unfoldable pub write_port : Map → Map → ℕ → ℕ → List ℕ → ℕ × Map × Map
  unfolding clear_stats exit_of
  write_port fd countfd key action values =
      let r = update fd key values exist in
      if r.0 == 0
      then (let c = clear_stats countfd key action in (c.0, r.1, c.1))
      else (exit_of (r.0), r.1, countfd)

  -- `blacklist_port_modify`: the exit code, the ports and the counters
  unfoldable pub blacklist_port_modify : Map → Map → ℕ → ℕ → ℕ → ℕ × Map × Map
  unfolding filter_bit port_too_large change_bit curr_values write_port
  blacklist_port_modify fd countfd dport action proto =
      if not (action == action_add || action == action_del)
      then (exit_fail_option, fd, countfd)
      else elim (filter_bit proto) [
        | none ↦ (exit_fail_option, fd, countfd)
        | some value ↦
            if port_too_large dport
            then (exit_fail_port, fd, countfd)
            else write_port fd countfd dport action
                (map (change_bit action value) (curr_values fd dport))
      ]

  -- `get_key32_value64_percpu`
  unfoldable pub get_key32_value64_percpu : Map → ℕ → ℕ
  unfolding sum_from
  get_key32_value64_percpu fd key = elim (lookup fd key) [
    | none ↦ 0
    | some values ↦ sum_from 0 values
  ]
