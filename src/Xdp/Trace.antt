-- ===== src/Xdp/Trace.antt =====
-- The trace points of kernel/samples/bpf/xdp_redirect_cpu_kern.c. A field of a trace point that is an
-- int is its 32-bit word.
use prototype_kernel.Base.{ℕ, ◌+◌, ◌%◌, ◌^◌, Option, none, some, leb, ◌==◌, if◌then◌else◌}
use prototype_kernel.Xdp.RedirectCpu.{DataRec, max_cpus}

-- A map of counters: what a lookup finds.
abbrev pub Counters : Type 0
Counters = ℕ → Option DataRec

pub record Maps : Type 0 where
  pub redirect_err_cnt : Counters
  pub exception_cnt : Counters
  pub cpumap_enqueue_cnt : Counters
  pub cpumap_kthread_cnt : Counters

-- The fields that are read of `struct cpumap_enqueue_ctx` and `struct cpumap_kthread_ctx`.
pub record CpumapEnqueueCtx : Type 0 where
  pub drops : ℕ
  pub processed : ℕ
  pub to_cpu : ℕ

pub record CpumapKthreadCtx : Type 0 where
  pub drops : ℕ
  pub processed : ℕ
  pub sched : ℕ

-- Writes through the pointer that a lookup found.
unfoldable pub store_rec : Counters → ℕ → DataRec → Counters
store_rec cnt key rec j = if j == key then some rec else cnt j

-- `rec->processed += processed; rec->dropped += drops; rec->issue += issue`, on u64
unfoldable pub add_rec : DataRec → ℕ → ℕ → ℕ → DataRec
add_rec rec processed drops issue = record {
  processed = (rec.processed + processed) % 2 ^ 64;
  dropped = (rec.dropped + drops) % 2 ^ 64;
  issue = (rec.issue + issue) % 2 ^ 64;
}

-- `if (!rec) return r; rec->dropped += 1; return 0`
unfoldable pub count_event : Counters → ℕ → ℕ → ℕ × Counters
unfolding store_rec
count_event cnt key r = elim (cnt key) [
  | none ↦ (r, cnt)
  | some rec ↦ (0, store_rec cnt key (record rec { dropped = (rec.dropped + 1) % 2 ^ 64 }))
]

-- `xdp_redirect_collect_stat`
unfoldable pub xdp_redirect_collect_stat : Maps → (err : ℕ) → ℕ × Maps
unfolding count_event
xdp_redirect_collect_stat m err =
    let r = count_event m.redirect_err_cnt (if err == 0 then 0 else 1) 0 in
    (r.0, record m { redirect_err_cnt = r.1 })

-- `trace_xdp_redirect_err` and `trace_xdp_redirect_map_err`
unfoldable pub trace_xdp_redirect_err : Maps → ℕ → ℕ × Maps
unfolding xdp_redirect_collect_stat
trace_xdp_redirect_err m err = xdp_redirect_collect_stat m err

unfoldable pub trace_xdp_redirect_map_err : Maps → ℕ → ℕ × Maps
unfolding xdp_redirect_collect_stat
trace_xdp_redirect_map_err m err = xdp_redirect_collect_stat m err

-- `trace_xdp_exception`
unfoldable pub trace_xdp_exception : Maps → ℕ × Maps
unfolding count_event
trace_xdp_exception m =
    let r = count_event m.exception_cnt 0 1 in (r.0, record m { exception_cnt = r.1 })

-- `if (ctx->processed > 0) rec->issue += 1`, and `if (ctx->sched) rec->issue++`: how much it adds
abbrev pub one_if : ℕ → ℕ
one_if n = if n == 0 then 0 else 1

-- `if (!rec) return 0; rec->processed += processed; ...`
unfoldable pub count_bulk : Counters → ℕ → ℕ → ℕ → ℕ → Counters
unfolding store_rec add_rec
count_bulk cnt key processed drops issue = elim (cnt key) [
  | none ↦ cnt
  | some rec ↦ store_rec cnt key (add_rec rec processed drops issue)
]

-- `trace_xdp_cpumap_enqueue`
unfoldable pub trace_xdp_cpumap_enqueue : Maps → CpumapEnqueueCtx → ℕ × Maps
unfolding count_bulk
trace_xdp_cpumap_enqueue m ctx = if leb max_cpus ctx.to_cpu then (1, m) else (
  0,
  record m {
    cpumap_enqueue_cnt =
        count_bulk m.cpumap_enqueue_cnt ctx.to_cpu ctx.processed ctx.drops (one_if ctx.processed);
  },
)

-- `trace_xdp_cpumap_kthread`
unfoldable pub trace_xdp_cpumap_kthread : Maps → CpumapKthreadCtx → ℕ × Maps
unfolding count_bulk
trace_xdp_cpumap_kthread m ctx = (
  0,
  record m {
    cpumap_kthread_cnt =
        count_bulk m.cpumap_kthread_cnt 0 ctx.processed ctx.drops (one_if ctx.sched);
  },
)
