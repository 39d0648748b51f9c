-- ===== src/User/Collect.antt =====
-- The counters that xdp_redirect_cpu_user.c collects from all CPUs.
use prototype_kernel.Base.{ℕ, ◌+◌, ◌%◌, ◌^◌, none, some, ltb, if◌then◌else◌, List, [], ◌∷◌}
use prototype_kernel.Xdp.RedirectCpu.{DataRec, max_cpus}
use prototype_kernel.User.Bpf.{Calls}

-- `struct record`
pub record Record : Type 0 where
  pub timestamp : ℕ
  pub total : DataRec
  pub cpu : List DataRec

-- The sums of `map_collect_percpu`, on u64
unfoldable pub sum_recs : DataRec → List DataRec → DataRec
sum_recs sum [] = sum
sum_recs sum (v ∷ values) =
    sum_recs
      (record {
        processed = (sum.processed + v.processed) % 2 ^ 64;
        dropped = (sum.dropped + v.dropped) % 2 ^ 64;
        issue = (sum.issue + v.issue) % 2 ^ 64;
      })
      values

abbrev pub zeros : DataRec
zeros = record { processed = 0; dropped = 0; issue = 0 }

-- `struct stats_record`
pub record StatsRecord : Type 0 where
  pub rx_cnt : Record
  pub redir_err : Record
  pub kthread : Record
  pub exception : Record
  pub enq : ℕ → Record

module _ (D : Calls (List DataRec)) (gettime : ℕ) where
  -- `map_collect_percpu`: the record after it. On a failed lookup it is left alone.
  unfoldable pub map_collect_percpu : D.Map → ℕ → Record → Record
  unfolding sum_recs
  map_collect_percpu fd key rec = elim (D.lookup fd key) [
    | none ↦ rec
    | some values ↦ record { timestamp = gettime; total = sum_recs zeros values; cpu = values }
  ]

module _ (D : Calls (List DataRec)) where
  -- The maps of counters.
  pub record StatsFiles : Type 0 where
    pub rx_cnt : D.Map
    pub redirect_err_cnt : D.Map
    pub cpumap_enqueue_cnt : D.Map
    pub cpumap_kthread_cnt : D.Map
    pub exception_cnt : D.Map

  -- `stats_collect`; `gettime n` is the time after the lookup with number `n`
  unfoldable pub stats_collect : (ℕ → ℕ) → StatsFiles → StatsRecord → StatsRecord
  unfolding map_collect_percpu
  stats_collect gettime fd rec = record {
    rx_cnt = map_collect_percpu D (gettime 0) fd.rx_cnt 0 rec.rx_cnt;
    redir_err = map_collect_percpu D (gettime 1) fd.redirect_err_cnt 1 rec.redir_err;
    enq = λ i.
        if ltb i max_cpus
        then map_collect_percpu D (gettime (2 + i)) fd.cpumap_enqueue_cnt i (rec.enq i)
        else rec.enq i;
    kthread = map_collect_percpu D (gettime (2 + max_cpus)) fd.cpumap_kthread_cnt 0 rec.kthread;
    exception = map_collect_percpu D (gettime (3 + max_cpus)) fd.exception_cnt 0 rec.exception;
  }
