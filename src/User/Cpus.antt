-- ===== src/User/Cpus.antt =====
-- kernel/samples/bpf/xdp_redirect_cpu_user.c: the CPUs that it makes available to its XDP programs, and
-- the counters that it collects.
use prototype_kernel.Base.{
  ℕ, zero, suc, ◌+◌, ◌^◌, Option, none, some, ◌>>=◌, Bool, true, false, ◌&&◌, ◌||◌, ltb, leb, ◌==◌,
  if◌then◌else◌, List, [], ◌∷◌,
}
use prototype_kernel.Base.Words.{add32}
use prototype_kernel.Xdp.RedirectCpu.{max_cpus}
use prototype_kernel.User.Bpf.{Calls, any}

-- The maps `cpu_map`, `cpus_available` and `cpus_count`: one of CPUs with their queue sizes, and two
-- arrays of u32.
pub record CpuFiles (C A : Calls ℕ) : Type 0 where
  pub cpu_map : C.Map
  pub cpus_available : A.Map
  pub cpus_count : A.Map

-- An option of `getopt_long`: a CPU and a queue size by their 32-bit words, the number of a program, one
-- that changes no map, or one that shows the usage.
pub data CpuOpt : Type 0 where
  cpu_option qsize_option prog_option : ℕ → CpuOpt
  other help : CpuOpt

-- MAX_PROG
abbrev pub max_prog : ℕ
max_prog = 6

-- `add_cpu >= MAX_CPUS` or `prog_num < 0 || prog_num >= MAX_PROG`, on the word of an int
abbrev pub too_large : ℕ → ℕ → Bool
too_large bound w = ltb w (2 ^ 31) && leb bound w

abbrev pub negative : ℕ → Bool
negative w = leb (2 ^ 31) w

module _ (C A : Calls ℕ) where
  -- How the tool stands after an option: it ended with an exit code, or it goes on.
  pub data Setup : Type 0 where
    stopped : ℕ → Setup
    ready : CpuFiles C A → (queue_size added_cpus : ℕ) → Setup

  -- `create_cpu_entry` from the update of `cpus_available` on; `none` is exit(EXIT_FAIL_BPF).
  unfoldable pub count_cpu : CpuFiles C A → Bool → Option (CpuFiles C A)
  count_cpu st new = A.lookup st.cpus_count 0 >>= λ curr_cpus_count.
      if new
      then (let r = A.update st.cpus_count 0 (add32 curr_cpus_count 1) any in
          if r.0 == 0 then some (record st { cpus_count = r.1 }) else none)
      else some st

  unfoldable pub list_cpu : CpuFiles C A → ℕ → ℕ → Option (CpuFiles C A)
  list_cpu st cpu avail_idx =
      let r = A.update st.cpus_available avail_idx cpu any in
      if r.0 == 0 then some (record st { cpus_available = r.1 }) else none

  unfoldable pub add_cpu : CpuFiles C A → ℕ → ℕ → Option (CpuFiles C A)
  add_cpu st cpu queue_size =
      let r = C.update st.cpu_map cpu queue_size any in
      if r.0 == 0 then some (record st { cpu_map = r.1 }) else none

  -- `create_cpu_entry`
  unfoldable pub create_cpu_entry : CpuFiles C A → ℕ → ℕ → ℕ → Bool → Option (CpuFiles C A)
  unfolding add_cpu list_cpu count_cpu
  create_cpu_entry st cpu queue_size avail_idx new =
      add_cpu st cpu queue_size >>= λ t. list_cpu t cpu avail_idx >>= λ u. count_cpu u new

  -- `mark_cpus_unavailable`, from index `i` on for `n` rounds
  unfoldable pub mark_from : ℕ → ℕ → CpuFiles C A → Option (CpuFiles C A)
  unfolding list_cpu
  mark_from zero i st = some st
  mark_from (suc n) i st = list_cpu st max_cpus i >>= mark_from n (i + 1)

  unfoldable pub mark_cpus_unavailable : CpuFiles C A → Option (CpuFiles C A)
  unfolding mark_from
  mark_cpus_unavailable st = mark_from max_cpus 0 st

  -- One round of the loop over the options of `main`. EXIT_FAIL_OPTION is 2, EXIT_FAIL_BPF is 4.
  unfoldable pub take_cpu_option : CpuFiles C A → ℕ → ℕ → CpuOpt → Setup
  unfolding create_cpu_entry
  take_cpu_option st queue_size added_cpus (cpu_option w) =
      if too_large max_cpus w
      then stopped 2
      else elim (create_cpu_entry st w queue_size added_cpus true) [
        | none ↦ stopped 4
        | some t ↦ ready t queue_size (added_cpus + 1)
      ]
  take_cpu_option st queue_size added_cpus (qsize_option w) = ready st w added_cpus
  take_cpu_option st queue_size added_cpus (prog_option w) =
      if negative w || too_large max_prog w then stopped 2 else ready st queue_size added_cpus
  take_cpu_option st queue_size added_cpus other = ready st queue_size added_cpus
  take_cpu_option st queue_size added_cpus help = stopped 2

  unfoldable pub take_cpu_options : Setup → List CpuOpt → Setup
  unfolding take_cpu_option
  take_cpu_options s [] = s
  take_cpu_options (stopped code) (x ∷ xs) = stopped code
  take_cpu_options (ready st queue_size added_cpus) (x ∷ xs) =
      take_cpu_options (take_cpu_option st queue_size added_cpus x) xs

  -- `main` up to the end of the loop, with the first queue size
  unfoldable pub set_up : CpuFiles C A → List CpuOpt → Setup
  unfolding mark_cpus_unavailable take_cpu_options
  set_up st xs = elim (mark_cpus_unavailable st) [
    | none ↦ stopped 4
    | some t ↦ take_cpu_options (ready t (128 + 64) 0) xs
  ]

  -- `stress_cpumap`
  unfoldable pub stress_cpumap : CpuFiles C A → Option (CpuFiles C A)
  unfolding create_cpu_entry
  stress_cpumap st =
      create_cpu_entry st 1 1024 0 false
      >>= (λ t. create_cpu_entry t 1 128 0 false)
      >>= (λ t. create_cpu_entry t 1 16000 0 false)
