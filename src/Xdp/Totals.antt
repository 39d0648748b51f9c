-- ===== src/Xdp/Totals.antt =====
-- What the trace points of the CPU map have counted after a list of events.
use prototype_kernel.Base.{
  ℕ, ◌+◌, ◌^◌, ◌<◌, ◌≡◌, ◌≢◌, refl, sym, ap, ◌∙◌, arith, none, some, ◌==◌, if◌then◌else◌, List, [],
  ◌∷◌, gt→leb, le→leb, eq→==, ne→==,
}
use prototype_kernel.Xdp.RedirectCpu.{DataRec, max_cpus}
use prototype_kernel.Xdp.Trace.{
  Maps, CpumapEnqueueCtx, CpumapKthreadCtx, Counters, store_rec, add_rec, count_bulk, one_if,
  trace_xdp_cpumap_enqueue, trace_xdp_cpumap_kthread,
}
use native.Mathlib.Decide.{dec_lt, ℕ_discrete}

-- The maps after a list of events.
abbrev pub enqueues : List CpumapEnqueueCtx → Maps → Maps
enqueues [] m = m
enqueues (e ∷ es) m = enqueues es (trace_xdp_cpumap_enqueue m e).1

abbrev pub kthreads : List CpumapKthreadCtx → Maps → Maps
kthreads [] m = m
kthreads (e ∷ es) m = kthreads es (trace_xdp_cpumap_kthread m e).1

-- Sums over a list, and over the events for one CPU.
abbrev pub sum : {A : Type 0} → (A → ℕ) → List A → ℕ
sum f [] = 0
sum f (e ∷ es) = f e + sum f es

abbrev pub for_cpu : ℕ → (CpumapEnqueueCtx → ℕ) → CpumapEnqueueCtx → ℕ
for_cpu cpu f e = if e.to_cpu == cpu then f e else 0

-- The counters are u64.
pub record Words (rec : DataRec) : Type 0 where
  pub processed : rec.processed < 2 ^ 64
  pub dropped : rec.dropped < 2 ^ 64
  pub issue : rec.issue < 2 ^ 64

add_rec-Words : (rec : DataRec) (p d i : ℕ) → Words (add_rec rec p d i)
unfolding add_rec
add_rec-Words rec p d i = record {
  processed = omega arith;
  dropped = omega arith;
  issue = omega arith;
}

pub same_rec :
    {a b c a' b' c' : ℕ}
    → a ≡ a'
    → b ≡ b'
    → c ≡ c'
    → Path DataRec
        (record { processed = a; dropped = b; issue = c })
        (record { processed = a'; dropped = b'; issue = c' })
same_rec p q r i = record { processed = p i; dropped = q i; issue = r i }

add_zero : (rec : DataRec) → Words rec → add_rec rec 0 0 0 ≡ rec
unfolding add_rec
add_zero rec w =
    same_rec (omega (arith, w.processed)) (omega (arith, w.dropped)) (omega (arith, w.issue))

add_add :
    (rec : DataRec) (p d i p' d' i' : ℕ)
    → add_rec (add_rec rec p d i) p' d' i' ≡ add_rec rec (p + p') (d + d') (i + i')
unfolding add_rec
add_add rec p d i p' d' i' = same_rec (omega arith) (omega arith) (omega arith)

-- One bulk, for the record that is counted in, and for another.
bulk_own :
    (cnt : Counters) (key : ℕ) (rec : DataRec) (p d i : ℕ)
    → cnt key ≡ some rec
    → count_bulk cnt key p d i key ≡ some (add_rec rec p d i)
unfolding count_bulk store_rec
bulk_own cnt key rec p d i there = rw (count_bulk, there, eq→== key key refl) refl

bulk_other : (cnt : Counters) (key j : ℕ) (p d i : ℕ) → j ≢ key → count_bulk cnt key p d i j ≡ cnt j
unfolding count_bulk store_rec
bulk_other cnt key j p d i other =
    elim (cnt key)
      as (λ o.
        (elim o as (λ x. Counters) [
          | none ↦ cnt
          | some rec ↦ store_rec cnt key (add_rec rec p d i)
        ])
          j
        ≡ cnt j) [ none ↦ refl | some rec ↦ rw (ne→== j key other) refl ]

-- One event, for the record of a CPU.
enqueue_event :
    (e : CpumapEnqueueCtx) (m : Maps) (cpu : ℕ) (rec : DataRec)
    → cpu < max_cpus
    → Words rec
    → m.cpumap_enqueue_cnt cpu ≡ some rec
    → (trace_xdp_cpumap_enqueue m e).1.cpumap_enqueue_cnt cpu
      ≡ some (
          add_rec rec
            (for_cpu cpu (λ x. x.processed) e)
            (for_cpu cpu (λ x. x.drops) e)
            (for_cpu cpu (λ x. one_if x.processed) e))
unfolding trace_xdp_cpumap_enqueue store_rec
enqueue_event e m cpu rec inside w there = elim (ℕ_discrete cpu e.to_cpu) [
  | yes same ↦
      rw (same, gt→leb max_cpus e.to_cpu (omega (arith, same)), eq→== e.to_cpu e.to_cpu refl)
        (bulk_own m.cpumap_enqueue_cnt e.to_cpu rec _ _ _
          (sym (ap m.cpumap_enqueue_cnt same) ∙ there))
  | no other ↦ elim (dec_lt e.to_cpu max_cpus) [
    | yes lt ↦
        rw (gt→leb max_cpus e.to_cpu lt, ne→== e.to_cpu cpu (λ q. other (sym q)), add_zero rec w)
          (bulk_other m.cpumap_enqueue_cnt e.to_cpu cpu _ _ _ other ∙ there)
    | no ge ↦
        rw
          (
            le→leb max_cpus e.to_cpu (omega arith),
            ne→== e.to_cpu cpu (λ q. other (sym q)),
            add_zero rec w,
          )
          there
  ]
]

-- What is counted for a CPU below MAX_CPUS
pub enqueued :
    (es : List CpumapEnqueueCtx) (m : Maps) (cpu : ℕ) (rec : DataRec)
    → cpu < max_cpus
    → Words rec
    → m.cpumap_enqueue_cnt cpu ≡ some rec
    → (enqueues es m).cpumap_enqueue_cnt cpu
      ≡ some (
          add_rec rec
            (sum (for_cpu cpu (λ x. x.processed)) es)
            (sum (for_cpu cpu (λ x. x.drops)) es)
            (sum (for_cpu cpu (λ x. one_if x.processed)) es))
enqueued [] m cpu rec inside w there = there ∙ ap some (sym (add_zero rec w))
enqueued (e ∷ es) m cpu rec inside w there =
    enqueued es _ cpu _ inside (add_rec-Words rec _ _ _) (enqueue_event e m cpu rec inside w there)
    ∙ ap some (add_add rec _ _ _ _ _ _)

-- What is counted of the kthreads
scheduled :
    (ks : List CpumapKthreadCtx) (m : Maps) (rec : DataRec)
    → Words rec
    → m.cpumap_kthread_cnt 0 ≡ some rec
    → (kthreads ks m).cpumap_kthread_cnt 0
      ≡ some (
          add_rec rec
            (sum (λ x. x.processed) ks)
            (sum (λ x. x.drops) ks)
            (sum (λ x. one_if x.sched) ks))
unfolding trace_xdp_cpumap_kthread
scheduled [] m rec w there = there ∙ ap some (sym (add_zero rec w))
scheduled (k ∷ ks) m rec w there =
    scheduled ks (trace_xdp_cpumap_kthread m k).1 _ (add_rec-Words rec _ _ _)
      (bulk_own m.cpumap_kthread_cnt 0 rec _ _ _ there)
    ∙ ap some (add_add rec _ _ _ _ _ _)

-- For every CPU below MAX_CPUS that has a record, the enqueue events in a list add up in it, modulo
-- 2^64: their processed and their dropped packets, and one for each that processed any. In the one
-- record of the kthread events, these add up likewise, with one for each that was scheduled.
pub events_add_up :
    (es : List CpumapEnqueueCtx) (ks : List CpumapKthreadCtx) (m : Maps) (cpu : ℕ)
    (rec krec : DataRec)
    → cpu < max_cpus
    → Words rec
    → Words krec
    → m.cpumap_enqueue_cnt cpu ≡ some rec
    → m.cpumap_kthread_cnt 0 ≡ some krec
    → ((enqueues es m).cpumap_enqueue_cnt cpu
        ≡ some (
            add_rec rec
              (sum (for_cpu cpu (λ x. x.processed)) es)
              (sum (for_cpu cpu (λ x. x.drops)) es)
              (sum (for_cpu cpu (λ x. one_if x.processed)) es)))
      × ((kthreads ks m).cpumap_kthread_cnt 0
          ≡ some (
              add_rec krec
                (sum (λ x. x.processed) ks)
                (sum (λ x. x.drops) ks)
                (sum (λ x. one_if x.sched) ks)))
events_add_up es ks m cpu rec krec inside w kw there kthere =
    (enqueued es m cpu rec inside w there, scheduled ks m krec kw kthere)
