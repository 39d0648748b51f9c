-- ===== src/User/Spread.antt =====
-- The CPUs that the options of xdp_redirect_cpu_user.c name, in the round robin of its XDP program.
use prototype_kernel.Base.{
  ℕ, zero, suc, ◌+◌, ◌%◌, ◌≤◌, ◌<◌, ◌≡◌, refl, ap, ◌∙◌, arith, Option, none, some, ltb,
  if◌then◌else◌, List, [], ◌∷◌, length, get_or, lt→ltb, ge→ltb, gt→leb,
}
use mathlib.Core.Path.{subst}
use native.Mathlib.Decide.{dec_lt}
use prototype_kernel.Xdp.Packet.{Action, aborted, redirect}
use prototype_kernel.Xdp.RedirectCpu.{
  Maps, DataRec, max_cpus, send_to, send_to_index, xdp_prognum2_round_robin,
}
use prototype_kernel.Xdp.RoundRobin.{after, round_robin_fair}
use prototype_kernel.User.Bpf.{Calls, any, IsArray}
use prototype_kernel.User.Cpus.{
  CpuFiles, CpuOpt, cpu_option, qsize_option, prog_option, other, help, Setup, stopped, ready,
  set_up, mark_cpus_unavailable, take_cpu_options,
}
use prototype_kernel.User.Setup.{
  prefix, Accepted, cpus_of, follows, At, Gives, gives, mark_from_lem, Ready, on_ready,
  take_cpu_options_lem,
}

Accepted-small :
    (xs : List CpuOpt) (i : ℕ)
    → Accepted xs
    → i < length (cpus_of xs)
    → get_or (cpus_of xs) i 0 < max_cpus
Accepted-small [] i ok lt = elim lt [ ]
Accepted-small (cpu_option w ∷ xs) zero ok lt = ok.0
Accepted-small (cpu_option w ∷ xs) (suc i) ok lt = Accepted-small xs i (ok.1) (omega arith)
Accepted-small (qsize_option w ∷ xs) i ok lt = Accepted-small xs i ok lt
Accepted-small (prog_option w ∷ xs) i ok lt = Accepted-small xs i (ok.1) lt
Accepted-small (other ∷ xs) i ok lt = Accepted-small xs i ok lt
Accepted-small (help ∷ xs) i ok lt = elim ok [ ]

module _ (C A : Calls ℕ) (array : IsArray A)
    (grants : (m : C.Map) (k v : ℕ) → (C.update m k v any).0 ≡ 0) where
  -- The arrays as they are created.
  pub record IsFresh (st : CpuFiles C A) : Type 0 where
    pub zeroed : (j : ℕ) → A.lookup st.cpus_available j ≡ (if ltb j max_cpus then some 0 else none)
    pub no_cpus : A.lookup st.cpus_count 0 ≡ some 0

  -- The maps of the program, with what the tool wrote.
  abbrev pub with_cpus : Maps → CpuFiles C A → Maps
  with_cpus m st = record m {
    cpus_available = A.lookup st.cpus_available;
    cpus_count = A.lookup st.cpus_count 0;
  }

  fresh-At : (st : CpuFiles C A) → IsFresh st → At C A array grants (λ j. max_cpus) 0 0 0 st
  fresh-At st fresh = record {
    available = λ j. fresh.zeroed j ∙ none_marked j;
    count = fresh.no_cpus;
  }
    where
      none_marked :
          (j : ℕ) → (if ltb j max_cpus then some 0 else none) ≡ prefix (λ j. max_cpus) 0 0 j
      none_marked j = ground arith

  marked-At :
      (f : ℕ → ℕ) (st : CpuFiles C A)
      → At C A array grants (λ j. max_cpus) max_cpus 0 0 st
      → At C A array grants f 0 max_cpus 0 st
  marked-At f st at = record { available = λ j. at.available j ∙ all_marked j; count = at.count }
    where
      all_marked : (j : ℕ) → prefix (λ j. max_cpus) max_cpus 0 j ≡ prefix f 0 max_cpus j
      all_marked j = ground arith

  pub set_up_lem :
      (xs : List CpuOpt) (st : CpuFiles C A)
      → IsFresh st
      → Accepted xs
      → length (cpus_of xs) ≤ max_cpus
      → Ready C A array grants
          (λ i. get_or (cpus_of xs) i 0)
          (length (cpus_of xs))
          (set_up C A st xs)
  unfolding set_up mark_cpus_unavailable
  set_up_lem xs st fresh ok room =
      by_gives (mark_from_lem C A array grants max_cpus 0 0 st refl (fresh-At st fresh))
    where
      f : ℕ → ℕ
      f i = get_or (cpus_of xs) i 0

      start : 0 + length (cpus_of xs) ≡ length (cpus_of xs)
      start = omega arith

      by_gives :
          {o : Option (CpuFiles C A)}
          → Gives C A array grants (At C A array grants (λ j. max_cpus) max_cpus 0 0) o
          → Ready C A array grants f (length (cpus_of xs)) (elim o as (λ x. Setup C A) [
            | none ↦ stopped 4
            | some t ↦ take_cpu_options C A (ready t (128 + 64) 0) xs
          ])
      by_gives (gives {st = t} p) =
          subst (λ k. Ready C A array grants f k (take_cpu_options C A (ready t (128 + 64) 0) xs))
            start
            (take_cpu_options_lem C A array grants f xs 0 (128 + 64) t ok (omega (arith, room))
              (follows f 0 (cpus_of xs) (λ i lt. ap f (omega arith))) (marked-At f t p))

  -- The tool goes on, the program sends its `n`th packet by round robin to the CPU, and has this
  -- verdict for index `i`.
  pub data Serves (m : Maps) (n cpu i : ℕ) (by_index : Action) : Setup C A → Type 0 where
    serves :
        {st : CpuFiles C A} (queue_size added_cpus : ℕ)
        → (xdp_prognum2_round_robin (after n (with_cpus m st))).0 ≡ redirect cpu
        → (send_to_index (with_cpus m st) i).0 ≡ by_index
        → Serves m n cpu i by_index (ready st queue_size added_cpus)

  sent :
      (m : Maps) (i cpu : ℕ)
      → cpu < max_cpus
      → m.cpus_available i ≡ some cpu
      → (send_to_index m i).0 ≡ redirect cpu
  unfolding send_to_index send_to
  sent m i cpu lt e = rw (send_to_index, e, gt→leb max_cpus cpu lt) refl

  not_sent :
      (m : Maps) (i : ℕ) → m.cpus_available i ≡ some max_cpus → (send_to_index m i).0 ≡ aborted
  unfolding send_to_index send_to
  not_sent m i e = rw (send_to_index, e) refl

  -- With arrays as they are created, a CPU map that refuses none, and options that are accepted and
  -- name from one to MAX_CPUS CPUs, the tool goes on; then the program, with its iterator at 0 and
  -- a counter, sends the nth packet by round robin to the nth CPU of the options, around them; and
  -- for an index below MAX_CPUS it redirects to the CPU that the options have there, or aborts if
  -- they have none.
  pub set_up-Serves :
      (xs : List CpuOpt) (st : CpuFiles C A) (m : Maps) (rec : DataRec) (n i : ℕ)
      → IsFresh st
      → Accepted xs
      → 0 < length (cpus_of xs)
      → length (cpus_of xs) ≤ max_cpus
      → m.cpus_iterator ≡ some 0
      → m.rx_cnt ≡ some rec
      → i < max_cpus
      → Serves m n
          (get_or (cpus_of xs) (n % length (cpus_of xs)) 0)
          i
          (if ltb i (length (cpus_of xs)) then redirect (get_or (cpus_of xs) i 0) else aborted)
          (set_up C A st xs)
  set_up-Serves xs st m rec n i fresh ok some_cpus room iter counted inside =
      on_ready C A array grants
        (Serves m n (get_or (cpus_of xs) (n % length (cpus_of xs)) 0) i
          (if ltb i (length (cpus_of xs)) then redirect (get_or (cpus_of xs) i 0) else aborted))
        (set_up_lem xs st fresh ok room)
        (λ queue_size t at. serves queue_size (length (cpus_of xs)) (turn t at) (index_ok t at))
    where
      f : ℕ → ℕ
      f j = get_or (cpus_of xs) j 0

      size : ℕ
      size = length (cpus_of xs)

      turn :
          (t : CpuFiles C A)
          → At C A array grants f size max_cpus size t
          → (xdp_prognum2_round_robin (after n (with_cpus m t))).0 ≡ redirect (f (n % size))
      turn t at =
          let start : 0 + n ≡ n = omega arith in
          subst
            (λ k. (xdp_prognum2_round_robin (after n (with_cpus m t))).0 ≡ redirect (f (k % size)))
            start
            (round_robin_fair (A.lookup t.cpus_available) f size some_cpus (omega (arith, room))
              (λ j lt. at.available j ∙ rw (lt→ltb j size lt) refl)
              (λ j lt. Accepted-small xs j ok lt) n {i = 0} {m = with_cpus m t} some_cpus
              (record {
                listed = refl;
                count = at.count;
                iterator = iter;
                rec = rec;
                counted = counted;
              }))

      index_ok :
          (t : CpuFiles C A)
          → At C A array grants f size max_cpus size t
          → (send_to_index (with_cpus m t) i).0 ≡ (if ltb i size then redirect (f i) else aborted)
      index_ok t at = elim (dec_lt i size) [
        | yes lt ↦ rw (lt→ltb i size lt) (
            sent (with_cpus m t) i (f i) (Accepted-small xs i ok lt)
              (at.available i ∙ rw (lt→ltb i size lt) refl))
        | no ge ↦ rw (ge→ltb i size (omega arith)) (
            not_sent (with_cpus m t) i
              (at.available i ∙ rw (ge→ltb i size (omega arith), lt→ltb i max_cpus inside) refl))
      ]
