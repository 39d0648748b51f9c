-- ===== src/Xdp/RoundRobin.antt =====
-- The round robin of xdp_redirect_cpu_kern.c is fair.
use prototype_kernel.Base.{
  ℕ, zero, suc, ◌+◌, ◌%◌, ◌^◌, ◌<◌, ◌≡◌, refl, sym, ap, ◌∙◌, arith, some, ◌==◌, if◌then◌else◌,
  gt→leb, eq→==, ne→==,
}
use prototype_kernel.Base.Words.{add32}
use prototype_kernel.Xdp.Packet.{redirect, BpfMap}
use prototype_kernel.Xdp.RedirectCpu.{
  Maps, DataRec, max_cpus, count_processed, send_to, xdp_prognum2_round_robin,
}
use native.Mathlib.Nat.{mod-eq_of_lt, mod_self, mod-lt, mod-add-mod}
use native.Mathlib.Decide.{ℕ_discrete}

-- The maps after the program ran on `n` packets.
abbrev pub after : ℕ → Maps → Maps
after zero m = m
after (suc n) m = after n (xdp_prognum2_round_robin m).1

-- The maps are set up for `size` CPUs, the `i`th of them next.
pub record Turn (available : BpfMap) (size i : ℕ) (m : Maps) : Type 0 where
  pub listed : m.cpus_available ≡ available
  pub count : m.cpus_count ≡ some size
  pub iterator : m.cpus_iterator ≡ some i
  pub rec : DataRec
  pub counted : m.rx_cnt ≡ some rec

module _ (available : BpfMap) (cpu : ℕ → ℕ) (size : ℕ) (some_cpus : 0 < size) (word : size < 2 ^ 32)
    (there : (i : ℕ) → i < size → available i ≡ some (cpu i))
    (inside : (i : ℕ) → i < size → cpu i < max_cpus) where
  next_index : (i : ℕ) → i < size → (if add32 i 1 == size then 0 else add32 i 1) ≡ (i + 1) % size
  next_index i lt = elim (ℕ_discrete (i + 1) size) [
    | yes e ↦ rw (eq→== (add32 i 1) size (omega arith)) (sym (ap (λ t. t % size) e ∙ mod_self size))
    | no ne ↦
        rw (ne→== (add32 i 1) size (omega arith))
          (omega (arith, mod-eq_of_lt {n = i + 1} {m = size} (omega arith)))
  ]

  one-Turn :
      {i : ℕ} {m : Maps}
      → i < size
      → Turn available size i m
      → ((xdp_prognum2_round_robin m).0 ≡ redirect (cpu i))
        × Turn available size ((i + 1) % size) (xdp_prognum2_round_robin m).1
  unfolding xdp_prognum2_round_robin count_processed send_to
  one-Turn {i} {m} lt t =
      rw
        (
          xdp_prognum2_round_robin,
          t.count,
          t.iterator,
          ap (λ f. f i) t.listed ∙ there i lt,
          t.counted,
          gt→leb max_cpus (cpu i) (inside i lt),
        )
        (
          refl,
          record {
            listed = t.listed;
            count = t.count;
            iterator = ap some (next_index i lt);
            rec = record (t.rec) { processed = (t.rec.processed + 1) % 2 ^ 64 };
            counted = refl;
          },
        )

  later-Turn :
      (n : ℕ) {i : ℕ} {m : Maps}
      → i < size
      → Turn available size i m
      → Turn available size ((i + n) % size) (after n m)
  later-Turn zero {i} {m} lt t = rw (start) t
    where
      start : (i + 0) % size ≡ i
      start = ap (λ a. a % size) (omega arith) ∙ mod-eq_of_lt lt
  later-Turn (suc n) {i} {m} lt t =
      rw (sym place) (later-Turn n (mod-lt (i + 1) some_cpus) ((one-Turn lt t).1))
    where
      place : ((i + 1) % size + n) % size ≡ (i + suc n) % size
      place = mod-add-mod (i + 1) size n ∙ ap (λ a. a % size) (omega arith)

  -- With the CPUs of the list all below MAX_CPUS, the `n`th packet goes to the `n`th CPU after the
  -- first, around the list.
  pub round_robin_fair :
      (n : ℕ) {i : ℕ} {m : Maps}
      → i < size
      → Turn available size i m
      → (xdp_prognum2_round_robin (after n m)).0 ≡ redirect (cpu ((i + n) % size))
  round_robin_fair n {i} lt t = (one-Turn (mod-lt (i + n) some_cpus) (later-Turn n lt t)).0
