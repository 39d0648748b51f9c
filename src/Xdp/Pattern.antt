-- ===== src/Xdp/Pattern.antt =====
-- The pattern of drops of xdp_bench02_drop_pattern_kern.c.
use prototype_kernel.Base.{
  ℕ, zero, suc, ◌+◌, ◌*◌, ◌%◌, ◌^◌, ◌≤◌, ◌<◌, ◌≡◌, refl, sym, ap, ◌∙◌, arith, Option, some, ◌>>=◌,
  true, false, ltb, leb, if◌then◌else◌, List, [], ◌∷◌, length, lt→ltb, ge→ltb, gt→leb, le→leb,
  ne→==,
}
use prototype_kernel.Xdp.Packet.{Packet, Action, drop, pass, code, put, bump}
use prototype_kernel.Xdp.DropPattern.{
  Pattern, Maps, stats_action_verdict, next_count, val_of, pattern_verdict, n_drop_n_accept,
  override, by_pattern, out, touch, choose, after_touch, with_pattern, xdp_prog, run,
}
use native.Mathlib.Nat.{mod-eq_of_lt, mod_self, mod-lt, mod-add-mod}
use native.Mathlib.Decide.{dec_lt, ℕ_discrete}

-- The verdict for the packet of number `i`: `n` drops and `n` passes take turns.
abbrev pub turn : ℕ → ℕ → Action
turn n i = if ltb (i % (n * 2)) n then drop else pass

-- The verdicts for the packets from number `i` on.
abbrev pub turns : ℕ → ℕ → ℕ → List Action
turns n i zero = []
turns n i (suc k) = turn n i ∷ turns n (i + 1) k

-- The first pattern is chosen with `n`, touching packets and overriding are off, and the counter is `i`.
pub record Drops (n i : ℕ) (m : Maps) : Type 0 where
  pub chosen : m.xdp_pattern ≡ some (record { type = 1; arg = n })
  pub untouched : m.touch_memory ≡ some 0
  pub kept : m.xdp_action ≡ some 0
  pub counter : m.count 0 ≡ some i

-- Every packet has a whole Ethernet header.
pub data WithHeaders : List Packet → Type 0 where
  no_more : WithHeaders []
  one_more :
      {pkt : Packet} {pkts : List Packet}
      → 14 ≤ length pkt
      → WithHeaders pkts
      → WithHeaders (pkt ∷ pkts)

stats-Drops :
    {n i : ℕ} {m : Maps} (action : Action) → Drops n i m → Drops n i (stats_action_verdict m action)
unfolding stats_action_verdict code
stats-Drops {n} {i} {m} action d =
    elim (leb 4 (code action))
      as (λ b.
        Drops n i (if b then m else record m { verdict_cnt = bump m.verdict_cnt (code action) })) [
          | true ↦ d
          | false ↦ record {
            chosen = d.chosen;
            untouched = d.untouched;
            kept = d.kept;
            counter = d.counter;
          }
        ]

module _ (n : ℕ) (some_drops : 0 < n) (word : n < 2 ^ 32) where
  verdict_turn : (i : ℕ) → i < n * 2 → pattern_verdict n i ≡ (if ltb i n then drop else pass)
  unfolding pattern_verdict
  verdict_turn i lt = elim (dec_lt i n) [
    | yes l ↦ rw (ne→== n 0 (omega arith), lt→ltb i n l) refl
    | no g ↦
        rw
          (
            ne→== n 0 (omega arith),
            ge→ltb i n (omega arith),
            lt→ltb i (n * 2 % 2 ^ 64) (omega arith),
          )
          refl
  ]

  next_place :
      (m : Maps) (i : ℕ)
      → i < n * 2
      → m.count 0 ≡ some i
      → next_count m.count n 0 ≡ some ((i + 1) % (n * 2))
  unfolding next_count put bump
  next_place m i lt at = elim (ℕ_discrete (i + 1) (n * 2)) [
    | yes e ↦
        rw (next_count, at, le→leb (n * 2 % 2 ^ 64) ((i + 1) % 2 ^ 64) (omega arith))
          (ap some (sym (ap (λ a. a % (n * 2)) e ∙ mod_self (n * 2))))
    | no ne ↦
        rw (next_count, at, gt→leb (n * 2 % 2 ^ 64) ((i + 1) % 2 ^ 64) (omega arith), bump, at)
          (ap some (omega (arith, mod-eq_of_lt {n = i + 1} {m = n * 2} (omega arith))))
  ]

  abbrev first : Pattern
  first = record { type = 1; arg = n }

  next-Drops :
      (i : ℕ) {m : Maps}
      → i < n * 2
      → Drops n i m
      → Drops n ((i + 1) % (n * 2)) ((choose first m).1)
  unfolding choose by_pattern n_drop_n_accept out
  next-Drops i {m} lt d =
      stats-Drops (override m.xdp_action (pattern_verdict n (val_of m.count))) (record {
        chosen = d.chosen;
        untouched = d.untouched;
        kept = d.kept;
        counter = next_place m i lt d.counter;
      })

  chosen_verdict : (i : ℕ) {m : Maps} → Drops n (i % (n * 2)) m → (choose first m).0 ≡ turn n i
  unfolding choose by_pattern n_drop_n_accept out override val_of
  chosen_verdict i {m} d =
      rw (d.kept, val_of, d.counter) (verdict_turn (i % (n * 2)) (mod-lt i (omega arith)))

  one_packet :
      (pkt : Packet) (i : ℕ) {m : Maps}
      → 14 ≤ length pkt
      → Drops n (i % (n * 2)) m
      → xdp_prog pkt m ≡ some (turn n i, (choose first m).1)
  unfolding xdp_prog with_pattern after_touch touch
  one_packet pkt i {m} long d =
      ap (λ b. if b then some (drop, m) else with_pattern pkt m m.xdp_pattern)
        (ge→ltb (length pkt) 14 long)
      ∙ ap (with_pattern pkt m) d.chosen
      ∙ ap (λ t. touch pkt m t >>= λ a. some (after_touch first m a)) d.untouched
      ∙ ap (λ v. some (v, (choose first m).1)) (chosen_verdict i d)

  -- The verdicts are these, and the maps are ready for the packet of this number.
  pub data Runs (verdicts : List Action) (i : ℕ) : Option (List Action × Maps) → Type 0 where
    runs : {m : Maps} → Drops n (i % (n * 2)) m → Runs verdicts i (some (verdicts, m))

  behind :
      {vs : List Action} (a : Action) {i : ℕ} {o : Option (List Action × Maps)}
      → Runs vs i o
      → Runs (a ∷ vs) i (o >>= λ s. some (a ∷ s.0, s.1))
  behind a (runs d) = runs d

  -- With the first pattern chosen for a positive number below 2^32, packets that are not touched
  -- and no action that overrides, on every list of packets with a whole Ethernet header, from the
  -- `i`th of a round on, with the counter at that `i` (below twice the number), the program runs to
  -- the end; its verdicts are that many drops and that many passes in turn, never XDP_TX; and the
  -- counter is left where the next packet carries on.
  pub drop_pattern :
      (i : ℕ) {pkts : List Packet} {m : Maps}
      → WithHeaders pkts
      → Drops n (i % (n * 2)) m
      → Runs (turns n i (length pkts)) (i + length pkts) (run pkts m)
  drop_pattern i no_more d = rw (place) (runs d)
    where
      place : i + 0 ≡ i
      place = omega arith
  drop_pattern i {pkts = pkt ∷ pkts} {m} (one_more long rest) d =
      rw (one_packet pkt i long d, sym place)
        (behind (turn n i) (
          drop_pattern (i + 1) rest
            (rw (sym wrap) (next-Drops (i % (n * 2)) (mod-lt i (omega arith)) d))))
    where
      place : (i + 1) + length pkts ≡ i + suc (length pkts)
      place = omega arith

      wrap : (i % (n * 2) + 1) % (n * 2) ≡ (i + 1) % (n * 2)
      wrap = mod-add-mod i (n * 2) 1
