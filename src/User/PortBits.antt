-- ===== src/User/PortBits.antt =====
-- The bits of a value of the map of ports, one for each filter, and what the XDP program reads off them.
use prototype_kernel.Base.{
  ℕ, zero, suc, ◌^◌, ◌<◌, ◌≡◌, refl, ap, ◌∙◌, arith, Option, none, some, Bool, true, false, not,
  ◌==◌, if◌then◌else◌, List, [], ◌∷◌, length, get_elem?, bit_and,
}
use prototype_kernel.Xdp.Packet.{Action, drop, pass}
use prototype_kernel.Xdp.Ddos.{Maps, Filter, filter_tcp, filter_udp, fproto, port_verdict}
use prototype_kernel.User.Blacklist.{action_add, action_del, change_bit}
use mathlib.Core.List.{map}

-- Only the two bits of the filters are in use.
abbrev pub AllSmall : List ℕ → Type 0
AllSmall [] = Unit
AllSmall (v ∷ vs) = (v < 4) × AllSmall vs

abbrev pub same : Filter → Filter → Bool
same filter_tcp filter_tcp = true
same filter_udp filter_udp = true
same filter_tcp filter_udp = false
same filter_udp filter_tcp = false

abbrev pub proto_of : Filter → ℕ
proto_of filter_tcp = 6
proto_of filter_udp = 17

abbrev pub action_of : Bool → ℕ
action_of true = action_add
action_of false = action_del

-- The test of the program, on a value after the change of a bit.
abbrev pub blocks : Filter → ℕ → Bool
blocks f v = not (bit_and v (2 ^ fproto f) == 0)

unfoldable pub changed : (on : Bool) (f : Filter) → ℕ → ℕ
unfolding change_bit fproto
changed on f = change_bit (action_of on) (2 ^ fproto f)

-- A fact about the values below 4.
below_four : (P : ℕ → Type 0) → P 0 → P 1 → P 2 → P 3 → (v : ℕ) → v < 4 → P v
below_four P p q r s zero h = p
below_four P p q r s (suc zero) h = q
below_four P p q r s (suc (suc zero)) h = r
below_four P p q r s (suc (suc (suc zero))) h = s
below_four P p q r s (suc (suc (suc (suc v)))) h = absurd (omega arith)

abbrev Changed : Bool → Filter → Filter → ℕ → Type 0
Changed on f g v =
    (changed on f v < 4) × (blocks g (changed on f v) ≡ (if same g f then on else blocks g v))

changed-Changed : (on : Bool) (f g : Filter) (v : ℕ) → v < 4 → Changed on f g v
unfolding changed
changed-Changed true filter_tcp filter_tcp =
    below_four (Changed true filter_tcp filter_tcp) (omega arith, refl) (omega arith, refl)
      (omega arith, refl) (omega arith, refl)
changed-Changed true filter_tcp filter_udp =
    below_four (Changed true filter_tcp filter_udp) (omega arith, refl) (omega arith, refl)
      (omega arith, refl) (omega arith, refl)
changed-Changed true filter_udp filter_tcp =
    below_four (Changed true filter_udp filter_tcp) (omega arith, refl) (omega arith, refl)
      (omega arith, refl) (omega arith, refl)
changed-Changed true filter_udp filter_udp =
    below_four (Changed true filter_udp filter_udp) (omega arith, refl) (omega arith, refl)
      (omega arith, refl) (omega arith, refl)
changed-Changed false filter_tcp filter_tcp =
    below_four (Changed false filter_tcp filter_tcp) (omega arith, refl) (omega arith, refl)
      (omega arith, refl) (omega arith, refl)
changed-Changed false filter_tcp filter_udp =
    below_four (Changed false filter_tcp filter_udp) (omega arith, refl) (omega arith, refl)
      (omega arith, refl) (omega arith, refl)
changed-Changed false filter_udp filter_tcp =
    below_four (Changed false filter_udp filter_tcp) (omega arith, refl) (omega arith, refl)
      (omega arith, refl) (omega arith, refl)
changed-Changed false filter_udp filter_udp =
    below_four (Changed false filter_udp filter_udp) (omega arith, refl) (omega arith, refl)
      (omega arith, refl) (omega arith, refl)

pub map-AllSmall :
    (on : Bool) (f : Filter) (vs : List ℕ) → AllSmall vs → AllSmall (map (changed on f) vs)
map-AllSmall on f [] h = tt
map-AllSmall on f (v ∷ vs) h = ((changed-Changed on f f v (h.0)).0, map-AllSmall on f vs (h.1))

-- The verdict on a port whose values are these, on a CPU.
abbrev pub on_value : Filter → Option ℕ → Action
on_value g none = pass
on_value g (some v) = if blocks g v then drop else pass

pub changed_value :
    (on : Bool) (f g : Filter) (vs : List ℕ) (cpu : ℕ)
    → AllSmall vs
    → cpu < length vs
    → on_value g (get_elem? (map (changed on f) vs) cpu)
      ≡ (if same g f then (if on then drop else pass) else on_value g (get_elem? vs cpu))
changed_value on f g [] cpu h lt = elim lt [ ]
changed_value on f g (v ∷ vs) zero h lt =
    ap (λ b. if b then drop else pass) ((changed-Changed on f g v (h.0)).1) ∙ by_filter (same g f)
  where
    by_filter :
        (s : Bool)
        → (if (if s then on else blocks g v) then drop else pass)
          ≡ (if s then (if on then drop else pass) else if blocks g v then drop else pass)
    by_filter true = refl
    by_filter false = refl
changed_value on f g (v ∷ vs) (suc cpu) h lt = changed_value on f g vs cpu (h.1) (omega arith)

pub port_verdict_lem :
    (m : Maps) (g : Filter) (q : ℕ) → (port_verdict m g q).0 ≡ on_value g (m.port_blacklist q)
unfolding port_verdict
port_verdict_lem m g q = ground arith
