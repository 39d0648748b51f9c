-- ===== src/User/Addresses.antt =====
-- What the addresses that the tool blacklists are to the XDP program.
use prototype_kernel.Base.{
  ℕ, ◌+◌, ◌≤◌, ◌<◌, ◌≡◌, ◌≢◌, refl, ap, ◌∙◌, inl, inr, arith, Option, none, some, Bool, true, false,
  ◌==◌, if◌then◌else◌, List, length, get_elem?, replicate, length-replicate, eq→==, ne→==,
}
use prototype_kernel.Xdp.Packet.{Packet, Action, drop, raw32}
use prototype_kernel.Xdp.Ddos.{Maps}
use prototype_kernel.User.Bpf.{Calls, noexist, Stored, Failed, IsHash, view}
use prototype_kernel.User.Blacklist.{exit_ok, exit_of, blacklist_modify}
use prototype_kernel.User.PortBits.{action_of}
use native.Mathlib.Decide.{ℕ_discrete}
use prototype_kernel.Copy.Slots.{get_elem?-eq-get_or}
use prototype_kernel.User.Sources.{by_port, ip_verdict, on_source, ip_verdict_lem, by_port_same}

-- What the map of addresses has under a key.
pub data Entry (nr_cpus : ℕ) : Option (List ℕ) → Type 0 where
  absent : Entry nr_cpus none
  listed : {vs : List ℕ} → length vs ≡ nr_cpus → Entry nr_cpus (some vs)

module _ (B : Calls (List ℕ)) (hash : IsHash B) (nr_cpus : ℕ) (inet_pton : List ℕ → Option ℕ) where
  open B use {Map, lookup, update, delete}

  abbrev modify : Map → List ℕ → ℕ → ℕ × Map
  modify = blacklist_modify B nr_cpus inet_pton

  -- The map after an address was added or deleted.
  pub record Listed (on : Bool) (fd : Map) (a : ℕ) (fd' : Map) : Type 0 where
    pub values : List ℕ
    pub counters : length values ≡ nr_cpus
    pub found :
        (j : ℕ)
        → lookup fd' j ≡ (if j == a then (if on then some values else none) else lookup fd j)

  -- What the tool does to the map: the change, with exit code 0, or nothing, with another.
  pub data Modified (on : Bool) (fd : Map) (a : ℕ) : ℕ × Map → Type 0 where
    done : {fd' : Map} → Listed on fd a fd' → Modified on fd a (exit_ok, fd')
    refused : {code : ℕ} → code ≢ exit_ok → Modified on fd a (code, fd)

  modify_add :
      (fd : Map) (ip : List ℕ) (a : ℕ)
      → inet_pton ip ≡ some a
      → modify fd ip 1 ≡ (let r = update fd a (replicate nr_cpus 0) noexist in (exit_of (r.0), r.1))
  unfolding blacklist_modify
  modify_add fd ip a e = rw (blacklist_modify, e) refl

  modify_del :
      (fd : Map) (ip : List ℕ) (a : ℕ)
      → inet_pton ip ≡ some a
      → modify fd ip 2 ≡ (let r = delete fd a in (exit_of (r.0), r.1))
  unfolding blacklist_modify
  modify_del fd ip a e = rw (blacklist_modify, e) refl

  stored :
      (on : Bool) (fd : Map) (a : ℕ) (r : ℕ × Map)
      → Stored B fd a (if on then some (replicate nr_cpus 0) else none) r
      → Modified on fd a (exit_of (r.0), r.1)
  unfolding exit_of
  stored on fd a r s = rw (eq→== _ 0 s.success) (
      done (record {
        values = replicate nr_cpus 0;
        counters = length-replicate nr_cpus 0;
        found = s.found;
      }))

  failed :
      (on : Bool) (fd : Map) (a : ℕ) (r : ℕ × Map)
      → Failed B fd r
      → Modified on fd a (exit_of (r.0), r.1)
  unfolding exit_of
  failed on fd a r f =
      rw (ne→== _ 0 f.failure, ne→== _ 17 f.other, f.same)
        (refused (λ e. absurd (omega (arith, e))))

  still :
      (fd : Map) (a : ℕ) (vs : List ℕ)
      → lookup fd a ≡ some vs
      → (j : ℕ) → lookup fd j ≡ (if j == a then some vs else lookup fd j)
  still fd a vs at j = elim (ℕ_discrete j a) [
    | yes e ↦ rw (eq→== j a e) (ap lookup_fd e ∙ at)
    | no ne ↦ rw (ne→== j a ne) refl
  ]
    where
      lookup_fd : ℕ → Option (List ℕ)
      lookup_fd k = lookup fd k

  modify_lem :
      (on : Bool) (fd : Map) (ip : List ℕ) (a : ℕ)
      → inet_pton ip ≡ some a
      → Entry nr_cpus (lookup fd a)
      → Modified on fd a (modify fd ip (action_of on))
  unfolding exit_of
  modify_lem true fd ip a e entry = rw (modify_add fd ip a e) (by_entry refl entry)
    where
      by_entry :
          {o : Option (List ℕ)}
          → lookup fd a ≡ o
          → Entry nr_cpus o
          → (let r = update fd a (replicate nr_cpus 0) noexist in
              Modified true fd a (exit_of (r.0), r.1))
      by_entry at absent = elim (hash.insert fd a (replicate nr_cpus 0) at) [
        | inl s ↦ stored true fd a _ s
        | inr f ↦ failed true fd a _ f
      ]
      by_entry at (listed {vs} len) =
          rw (hash.insert_there fd a (replicate nr_cpus 0) vs at)
            (done (record { values = vs; counters = len; found = still fd a vs at }))
  modify_lem false fd ip a e entry = rw (modify_del fd ip a e) (by_entry refl entry)
    where
      by_entry :
          {o : Option (List ℕ)}
          → lookup fd a ≡ o
          → Entry nr_cpus o
          → Modified false fd a (exit_of ((delete fd a).0), (delete fd a).1)
      by_entry at absent = failed false fd a _ (hash.delete_missing fd a at)
      by_entry at (listed {vs} len) = stored false fd a _ (hash.delete_there fd a vs at)

  -- The maps of the program, with this list of addresses.
  abbrev pub with_addresses : Maps → Map → ℕ → Maps
  with_addresses m fd cpu = record m { blacklist = view B fd cpu }

  pub record IsAddresses (fd : Map) : Type 0 where
    pub entries : (j : ℕ) → Entry nr_cpus (lookup fd j)

  -- The verdict by what the map has for the source.
  on_entry : Option (List ℕ) → ℕ → Option Action → Option Action
  on_entry none cpu ports = ports
  on_entry (some vs) cpu ports = on_source (get_elem? vs cpu) ports

  entry_verdict :
      (pkt : Packet) (m : Maps) (fd : Map) (o cpu : ℕ)
      → o + 20 ≤ length pkt
      → ip_verdict pkt (with_addresses m fd cpu) o
        ≡ on_entry (lookup fd (raw32 pkt (o + 12))) cpu (by_port pkt m o)
  unfolding on_entry
  entry_verdict pkt m fd o cpu h =
      ip_verdict_lem pkt (with_addresses m fd cpu) o h
      ∙ ap (on_source (view B fd cpu (raw32 pkt (o + 12))))
          (by_port_same pkt m (view B fd cpu) m.blacklist o)
      ∙ by_entry (lookup fd (raw32 pkt (o + 12)))
    where
      by_entry :
          (e : Option (List ℕ))
          → on_source
              (elim e as (λ x. Option ℕ) [ none ↦ none | some vs ↦ get_elem? vs cpu ])
              (by_port pkt m o)
            ≡ on_entry e cpu (by_port pkt m o)
      by_entry none = refl
      by_entry (some vs) = refl

  Listed-verdict :
      (on : Bool) (fd fd' : Map) (a : ℕ) (pkt : Packet) (m : Maps) (o cpu : ℕ)
      → Listed on fd a fd'
      → o + 20 ≤ length pkt
      → cpu < nr_cpus
      → ip_verdict pkt (with_addresses m fd' cpu) o ≡ (
          if raw32 pkt (o + 12) == a
          then (if on then some drop else by_port pkt m o)
          else ip_verdict pkt (with_addresses m fd cpu) o)
  unfolding on_entry
  Listed-verdict on fd fd' a pkt m o cpu l h inside =
      rw
        (
          entry_verdict pkt m fd' o cpu h,
          entry_verdict pkt m fd o cpu h,
          l.found (raw32 pkt (o + 12)),
        )
        (by_test (raw32 pkt (o + 12) == a) on)
    where
      by_test :
          (b on : Bool)
          → on_entry
              (if b then (if on then some l.values else none) else lookup fd (raw32 pkt (o + 12)))
              cpu
              (by_port pkt m o)
            ≡ (if b
                then (if on then some drop else by_port pkt m o)
                else on_entry (lookup fd (raw32 pkt (o + 12))) cpu (by_port pkt m o))
      by_test true true = rw (get_elem?-eq-get_or l.values cpu 0 (omega (arith, l.counters))) refl
      by_test true false = refl
      by_test false on = refl

  Listed-IsAddresses :
      (on : Bool) (fd fd' : Map) (a : ℕ) → Listed on fd a fd' → IsAddresses fd → IsAddresses fd'
  Listed-IsAddresses on fd fd' a l addresses = record {
    entries = λ j. rw (l.found j) (by_test (j == a) on j);
  }
    where
      by_test :
          (b on : Bool) (j : ℕ)
          → Entry nr_cpus (if b then (if on then some l.values else none) else lookup fd j)
      by_test true true j = listed l.counters
      by_test true false j = absent
      by_test false on j = addresses.entries j

  -- When the tool exits with 0 after it was told to add or to delete an address that inet_pton
  -- knows, on a map whose entries have a value for each CPU, then these still do; and on every CPU,
  -- of the packets that have a whole IPv4 header, the XDP program drops those from the address if
  -- it was added, gives those from it the verdict of their ports if it was deleted, and gives all
  -- others the verdict that it gave before.
  pub blacklist_modify-verdict :
      (on : Bool) (fd : Map) (ip : List ℕ) (a : ℕ) (pkt : Packet) (m : Maps) (o cpu : ℕ)
      → inet_pton ip ≡ some a
      → IsAddresses fd
      → (modify fd ip (action_of on)).0 ≡ exit_ok
      → o + 20 ≤ length pkt
      → cpu < nr_cpus
      → IsAddresses (modify fd ip (action_of on)).1
        × (ip_verdict pkt (with_addresses m (modify fd ip (action_of on)).1 cpu) o ≡ (
            if raw32 pkt (o + 12) == a
            then (if on then some drop else by_port pkt m o)
            else ip_verdict pkt (with_addresses m fd cpu) o))
  blacklist_modify-verdict on fd ip a pkt m o cpu known addresses ok h inside =
      by_outcome (modify_lem on fd ip a known (addresses.entries a)) ok
    where
      by_outcome :
          {r : ℕ × Map}
          → Modified on fd a r
          → r.0 ≡ exit_ok
          → IsAddresses (r.1)
            × (ip_verdict pkt (with_addresses m (r.1) cpu) o ≡ (
                if raw32 pkt (o + 12) == a
                then (if on then some drop else by_port pkt m o)
                else ip_verdict pkt (with_addresses m fd cpu) o))
      by_outcome (done {fd'} l) e = (
        Listed-IsAddresses on fd fd' a l addresses,
        Listed-verdict on fd fd' a pkt m o cpu l h inside,
      )
      by_outcome (refused ne) e = absurd (ne e)
