-- ===== src/User/Events.antt =====
-- The totals that xdp_redirect_cpu_user.c collects, and the events that its XDP program counted.
use prototype_kernel.Base.{ℕ, ◌+◌, ◌%◌, ◌^◌, ◌<◌, ◌≡◌, refl, ap, ◌∙◌, arith, some, List, [], ◌∷◌}
use prototype_kernel.Xdp.RedirectCpu.{DataRec, max_cpus}
use prototype_kernel.Xdp.Trace.{Maps, CpumapEnqueueCtx, add_rec, one_if}
use prototype_kernel.Xdp.Totals.{same_rec, Words, enqueues, sum, for_cpu, enqueued}
use prototype_kernel.User.Bpf.{Calls}
use prototype_kernel.User.Collect.{Record, sum_recs, zeros, map_collect_percpu}

-- The sum of one counter over the CPUs.
abbrev over_cpus : (DataRec → ℕ) → List DataRec → ℕ
over_cpus f [] = 0
over_cpus f (v ∷ values) = f v + over_cpus f values

-- With u64 in the counters, the sums are those over the CPUs, modulo 2^64.
sum_recs_lem :
    (values : List DataRec) (sum : DataRec)
    → sum.processed < 2 ^ 64
    → sum.dropped < 2 ^ 64
    → sum.issue < 2 ^ 64
    → sum_recs sum values ≡ record {
      processed = (sum.processed + over_cpus (λ v. v.processed) values) % 2 ^ 64;
      dropped = (sum.dropped + over_cpus (λ v. v.dropped) values) % 2 ^ 64;
      issue = (sum.issue + over_cpus (λ v. v.issue) values) % 2 ^ 64;
    }
unfolding sum_recs
sum_recs_lem [] sum p d i = same_rec (omega arith) (omega arith) (omega arith)
sum_recs_lem (v ∷ values) sum p d i =
    sum_recs_lem values _ (omega arith) (omega arith) (omega arith)
    ∙ same_rec (omega arith) (omega arith) (omega arith)

map_collect-over_cpus :
    (D : Calls (List DataRec)) (gettime : ℕ) (fd : D.Map) (key : ℕ) (rec : Record)
    (values : List DataRec)
    → D.lookup fd key ≡ some values
    → (map_collect_percpu D gettime fd key rec).total ≡ record {
      processed = over_cpus (λ v. v.processed) values % 2 ^ 64;
      dropped = over_cpus (λ v. v.dropped) values % 2 ^ 64;
      issue = over_cpus (λ v. v.issue) values % 2 ^ 64;
    }
unfolding map_collect_percpu
map_collect-over_cpus D gettime fd key rec values at =
    rw (map_collect_percpu, at)
      (sum_recs_lem values zeros (omega arith) (omega arith) (omega arith)
        ∙ same_rec (omega arith) (omega arith) (omega arith))

-- What each CPU has in its record for the CPU `cpu`, after its events, from zeros on.
pub data Counted (cpu : ℕ) : List (List CpumapEnqueueCtx) → List DataRec → Type 0 where
  no_cpus : Counted cpu [] []
  one_cpu :
      {es : List CpumapEnqueueCtx} {v : DataRec} {ess : List (List CpumapEnqueueCtx)}
      {values : List DataRec} (m : Maps)
      → m.cpumap_enqueue_cnt cpu ≡ some zeros
      → (enqueues es m).cpumap_enqueue_cnt cpu ≡ some v
      → Counted cpu ess values
      → Counted cpu (es ∷ ess) (v ∷ values)

zeros-Words : Words zeros
zeros-Words = record { processed = omega arith; dropped = omega arith; issue = omega arith }

counted_value :
    (cpu : ℕ) (es : List CpumapEnqueueCtx) (v : DataRec) (m : Maps)
    → cpu < max_cpus
    → m.cpumap_enqueue_cnt cpu ≡ some zeros
    → (enqueues es m).cpumap_enqueue_cnt cpu ≡ some v
    → v
      ≡ add_rec zeros
          (sum (for_cpu cpu (λ x. x.processed)) es)
          (sum (for_cpu cpu (λ x. x.drops)) es)
          (sum (for_cpu cpu (λ x. one_if x.processed)) es)
counted_value cpu es v m lt fresh at = cc (enqueued es m cpu zeros lt zeros-Words fresh)

-- The sum of a number of events over the CPUs.
abbrev pub over_events : (CpumapEnqueueCtx → ℕ) → List (List CpumapEnqueueCtx) → ℕ
over_events f [] = 0
over_events f (es ∷ ess) = sum f es + over_events f ess

Counted-sums :
    {cpu : ℕ} {ess : List (List CpumapEnqueueCtx)} {values : List DataRec}
    → cpu < max_cpus
    → Counted cpu ess values
    → (over_cpus (λ v. v.processed) values % 2 ^ 64
        ≡ over_events (for_cpu cpu (λ x. x.processed)) ess % 2 ^ 64)
      × (over_cpus (λ v. v.dropped) values % 2 ^ 64
          ≡ over_events (for_cpu cpu (λ x. x.drops)) ess % 2 ^ 64)
      × (over_cpus (λ v. v.issue) values % 2 ^ 64
          ≡ over_events (for_cpu cpu (λ x. one_if x.processed)) ess % 2 ^ 64)
unfolding add_rec
Counted-sums lt no_cpus = (refl, refl, refl)
Counted-sums {cpu} lt (one_cpu {es} {v} m fresh at rest) =
    let e = counted_value cpu es v m lt fresh at in
    let (p, d, i) = Counted-sums lt rest in
    (
      omega (arith, ap (λ (r : DataRec). r.processed) e, p),
      omega (arith, ap (λ (r : DataRec). r.dropped) e, d),
      omega (arith, ap (λ (r : DataRec). r.issue) e, i),
    )

-- When each CPU has counted its enqueue events for a CPU below MAX_CPUS, from zeros on, the total
-- that the tool collects for it has, modulo 2^64, the packets processed and dropped in the events
-- of all CPUs for it, and one for each that processed any.
pub collected_events :
    (D : Calls (List DataRec)) (gettime : ℕ) (fd : D.Map) (cpu : ℕ) (rec : Record)
    (ess : List (List CpumapEnqueueCtx)) (values : List DataRec)
    → cpu < max_cpus
    → D.lookup fd cpu ≡ some values
    → Counted cpu ess values
    → (map_collect_percpu D gettime fd cpu rec).total ≡ record {
      processed = over_events (for_cpu cpu (λ x. x.processed)) ess % 2 ^ 64;
      dropped = over_events (for_cpu cpu (λ x. x.drops)) ess % 2 ^ 64;
      issue = over_events (for_cpu cpu (λ x. one_if x.processed)) ess % 2 ^ 64;
    }
collected_events D gettime fd cpu rec ess values lt at counted =
    let (p, d, i) = Counted-sums lt counted in
    map_collect-over_cpus D gettime fd cpu rec values at ∙ same_rec p d i
