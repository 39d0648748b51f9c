-- ===== src/User/Ports.antt =====
-- What the ports that the tool blacklists are to the XDP program.
use prototype_kernel.Base.{
  ℕ, ◌≤◌, ◌<◌, ◌≡◌, refl, sym, ap, ◌∙◌, arith, Option, none, some, Bool, true, false, ◌&&◌, not,
  ◌==◌, if◌then◌else◌, List, length, replicate, length-map, eq→==, ne→==, ==_refl,
}
use prototype_kernel.Xdp.Packet.{Action, drop, pass}
use prototype_kernel.Xdp.Ddos.{Maps, Filter, filter_tcp, filter_udp, port_verdict}
use prototype_kernel.User.PortBits.{
  AllSmall, same, proto_of, action_of, changed, map-AllSmall, on_value, changed_value,
  port_verdict_lem,
}
use prototype_kernel.User.Bpf.{view, Calls, exist, Stored, IsArray}
use prototype_kernel.User.Blacklist.{
  exit_ok, blacklist_port_modify, write_port, clear_stats, curr_values,
}
use mathlib.Core.List.{map}
use native.Mathlib.Decide.{ℕ_discrete}

-- What the map of ports has under a key, for so many CPUs.
pub data Entry (nr_cpus k : ℕ) : Option (List ℕ) → Type 0 where
  there : {vs : List ℕ} → k < 65536 → length vs ≡ nr_cpus → AllSmall vs → Entry nr_cpus k (some vs)
  beyond : 65536 ≤ k → Entry nr_cpus k none

port-eq-write_port :
    (B : Calls (List ℕ)) (nr_cpus : ℕ) (on : Bool) (f : Filter) (fd countfd : B.Map) (p : ℕ)
    → p < 65536
    → blacklist_port_modify B nr_cpus fd countfd p (action_of on) (proto_of f)
      ≡ write_port B nr_cpus fd countfd p
          (action_of on)
          (map (changed on f) (curr_values B nr_cpus fd p))
unfolding blacklist_port_modify changed
port-eq-write_port B nr true filter_tcp fd countfd p lt = ground arith
port-eq-write_port B nr true filter_udp fd countfd p lt = ground arith
port-eq-write_port B nr false filter_tcp fd countfd p lt = ground arith
port-eq-write_port B nr false filter_udp fd countfd p lt = ground arith

module _ (B : Calls (List ℕ)) (array : IsArray B) (nr_cpus : ℕ) where
  open B use {Map, lookup, update}

  pub record IsPorts (fd : Map) : Type 0 where
    pub entries : (k : ℕ) → Entry nr_cpus k (lookup fd k)

  -- The verdict of the program on a port, on that CPU.
  abbrev pub verdict : Map → ℕ → Maps → Filter → ℕ → Action
  verdict fd cpu m g q = (port_verdict (record m { port_blacklist = view B fd cpu }) g q).0

  -- The entry of a port that there is.
  found_entry :
      (fd : Map) (p : ℕ)
      → IsPorts fd
      → p < 65536
      → (vs : List ℕ) × (lookup fd p ≡ some vs) × (length vs ≡ nr_cpus) × AllSmall vs
  found_entry fd p ports lt = inside (ports.entries p)
    where
      inside :
          {o : Option (List ℕ)}
          → Entry nr_cpus p o
          → (vs : List ℕ) × (o ≡ some vs) × (length vs ≡ nr_cpus) × AllSmall vs
      inside (there {vs} h len small) = (vs, refl, len, small)
      inside (beyond h) = absurd (omega arith)

  written :
      (on : Bool) (f : Filter) (fd : Map) (p : ℕ) (vs : List ℕ)
      → IsPorts fd
      → p < 65536
      → lookup fd p ≡ some vs
      → Stored B fd p (some (map (changed on f) vs)) (update fd p (map (changed on f) vs) exist)
  written on f fd p vs ports lt at = array.update_there fd p _ vs exist (cc) at

  -- The map of ports after the write.
  changed-IsPorts :
      (on : Bool) (f : Filter) (fd fd' : Map) (p : ℕ) (vs : List ℕ)
      → IsPorts fd
      → p < 65536
      → length vs ≡ nr_cpus
      → AllSmall vs
      → ((j : ℕ) → lookup fd' j ≡ (if j == p then some (map (changed on f) vs) else lookup fd j))
      → IsPorts fd'
  changed-IsPorts on f fd fd' p vs ports lt len small found = record { entries = entry }
    where
      entry : (k : ℕ) → Entry nr_cpus k (lookup fd' k)
      entry k = elim (ℕ_discrete k p) [
        | yes e ↦
            rw (found k, eq→== k p e)
              (there (omega arith) (length-map vs (changed on f) ∙ len)
                (map-AllSmall on f vs small))
        | no ne ↦ rw (found k, ne→== k p ne) (ports.entries k)
      ]

  verdict-changed :
      (on : Bool) (f g : Filter) (fd fd' : Map) (p q cpu : ℕ) (vs : List ℕ) (m : Maps)
      → lookup fd p ≡ some vs
      → AllSmall vs
      → cpu < length vs
      → ((j : ℕ) → lookup fd' j ≡ (if j == p then some (map (changed on f) vs) else lookup fd j))
      → verdict fd' cpu m g q
        ≡ (if q == p && same g f then (if on then drop else pass) else verdict fd cpu m g q)
  verdict-changed on f g fd fd' p q cpu vs m at small lt found =
      port_verdict_lem (record m { port_blacklist = view B fd' cpu }) g q
      ∙ values
      ∙ ap (λ a. if q == p && same g f then (if on then drop else pass) else a)
          (sym (port_verdict_lem (record m { port_blacklist = view B fd cpu }) g q))
    where
      values : on_value g (view B fd' cpu q) ≡ (
          if q == p && same g f then (if on then drop else pass) else on_value g (view B fd cpu q))
      values = elim (ℕ_discrete q p) [
        | yes e ↦ rw (e, view, found p, ==_refl p, at) (changed_value on f g vs cpu small lt)
        | no ne ↦ rw (view, found q, ne→== q p ne) refl
      ]

  -- The update of the counters.
  clear_stats_lem :
      (on : Bool) (countfd : Map) (p : ℕ) (olds : List ℕ)
      → lookup countfd p ≡ some olds
      → ((clear_stats B nr_cpus countfd p (action_of on)).0 ≡ exit_ok)
        × ((j : ℕ)
            → lookup (clear_stats B nr_cpus countfd p (action_of on)).1 j
              ≡ (if not on && j == p then some (replicate nr_cpus 0) else lookup countfd j))
  unfolding clear_stats
  clear_stats_lem true countfd p olds at = (refl, λ j. refl)
  clear_stats_lem false countfd p olds at =
      let s = array.update_there countfd p (replicate nr_cpus 0) olds exist (cc) at in
      (rw (eq→== _ 0 s.success) refl, s.found)

  curr_values-eq :
      (fd : Map) (p : ℕ) (vs : List ℕ) → lookup fd p ≡ some vs → curr_values B nr_cpus fd p ≡ vs
  unfolding curr_values
  curr_values-eq fd p vs at = rw (curr_values, at) refl

  write_port_ok :
      (fd countfd : Map) (p action : ℕ) (vs : List ℕ)
      → (update fd p vs exist).0 ≡ 0
      → write_port B nr_cpus fd countfd p action vs
        ≡ (let c = clear_stats B nr_cpus countfd p action in (c.0, (update fd p vs exist).1, c.1))
  unfolding write_port
  write_port_ok fd countfd p action vs ok = rw (write_port, eq→== _ 0 ok) refl

  -- On a map of ports that has only the two filter bits in use, and counters that have the port,
  -- the tool adds or deletes a port up to 65535 for a protocol and exits with 0; after it, on every
  -- CPU, the XDP program drops the port for that protocol if it was added and passes it if it was
  -- deleted, and its verdict on every other port and protocol is what it was; a deletion clears the
  -- port's counters, and no other.
  pub blacklist_port_modify-verdict :
      (on : Bool) (f : Filter) (fd countfd : Map) (p : ℕ) (olds : List ℕ) (m : Maps) (cpu : ℕ)
      (g : Filter) (q : ℕ)
      → IsPorts fd
      → lookup countfd p ≡ some olds
      → p < 65536
      → cpu < nr_cpus
      → let r = blacklist_port_modify B nr_cpus fd countfd p (action_of on) (proto_of f) in
        (r.0 ≡ exit_ok)
        × IsPorts (r.1)
        × (verdict (r.1) cpu m g q
            ≡ (if q == p && same g f then (if on then drop else pass) else verdict fd cpu m g q))
        × ((j : ℕ)
            → lookup (r.2) j
              ≡ (if not on && j == p then some (replicate nr_cpus 0) else lookup countfd j))
  blacklist_port_modify-verdict on f fd countfd p olds m cpu g q ports counts lt inside =
      let (vs, at, len, small) = found_entry fd p ports lt in
      let s = written on f fd p vs ports lt at in
      let c = clear_stats_lem on countfd p olds counts in
      rw
        (
          port-eq-write_port B nr_cpus on f fd countfd p lt,
          curr_values-eq fd p vs at,
          write_port_ok fd countfd p (action_of on) (map (changed on f) vs) s.success,
        )
        (
          c.0,
          changed-IsPorts on f fd _ p vs ports lt len small s.found,
          verdict-changed on f g fd _ p q cpu vs m at small (omega (arith, len)) s.found,
          c.1,
        )
