-- ===== src/User/Setup.antt =====
-- The maps that xdp_redirect_cpu_user.c sets up, and the round robin that reads them.
use prototype_kernel.Base.{
  ℕ, zero, suc, ◌+◌, ◌-◌, ◌^◌, ◌≤◌, ◌<◌, ◌≡◌, refl, sym, ap, ◌∙◌, arith, Option, none, some, ◌>>=◌,
  true, ltb, ◌==◌, if◌then◌else◌, List, [], ◌∷◌, length, get_or, lt→ltb, ge→ltb, gt→leb, eq→==,
  and_false,
}
use mathlib.Core.Path.{subst}
use prototype_kernel.Base.Words.{add32}
use prototype_kernel.Xdp.RedirectCpu.{max_cpus}
use prototype_kernel.User.Bpf.{Calls, any, IsArray}
use prototype_kernel.User.Cpus.{
  CpuFiles, CpuOpt, cpu_option, qsize_option, prog_option, other, help, Setup, stopped, ready,
  count_cpu, list_cpu, add_cpu, create_cpu_entry, mark_from, take_cpu_option, take_cpu_options,
  max_prog,
}

-- An array of MAX_CPUS entries, the first `k` of them by `f`, the others `d`.
abbrev pub prefix : (ℕ → ℕ) → ℕ → ℕ → ℕ → Option ℕ
prefix f k d j = if ltb j k then some (f j) else if ltb j max_cpus then some d else none

prefix_next :
    (f : ℕ → ℕ) (k d j : ℕ)
    → k < max_cpus
    → (if j == k then some (f k) else prefix f k d j) ≡ prefix f (k + 1) d j
prefix_next f k d j lt = ground arith

-- The options that the tool accepts, the CPUs they name, and those as the values of a function.
abbrev pub Accepted : List CpuOpt → Type 0
Accepted [] = Unit
Accepted (cpu_option w ∷ xs) = (w < max_cpus) × Accepted xs
Accepted (qsize_option w ∷ xs) = Accepted xs
Accepted (prog_option w ∷ xs) = (w < max_prog) × Accepted xs
Accepted (other ∷ xs) = Accepted xs
Accepted (help ∷ xs) = ⊥

abbrev pub cpus_of : List CpuOpt → List ℕ
cpus_of [] = []
cpus_of (cpu_option w ∷ xs) = w ∷ cpus_of xs
cpus_of (qsize_option w ∷ xs) = cpus_of xs
cpus_of (prog_option w ∷ xs) = cpus_of xs
cpus_of (other ∷ xs) = cpus_of xs
cpus_of (help ∷ xs) = cpus_of xs

abbrev pub Follows : (ℕ → ℕ) → ℕ → List ℕ → Type 0
Follows f k [] = Unit
Follows f k (w ∷ ws) = (f k ≡ w) × Follows f (k + 1) ws

pub follows :
    (f : ℕ → ℕ) (k : ℕ) (ws : List ℕ)
    → ((i : ℕ) → i < length ws → f (k + i) ≡ get_or ws i 0)
    → Follows f k ws
follows f k [] h = tt
follows f k (w ∷ ws) h = (
  ap f (omega arith) ∙ h 0 (omega arith),
  follows f (k + 1) ws (λ i lt. ap f (omega arith) ∙ h (suc i) (omega arith)),
)

module _ (C A : Calls ℕ) (array : IsArray A)
    (grants : (m : C.Map) (k v : ℕ) → (C.update m k v any).0 ≡ 0) where
  open A use {lookup}

  pub record At (f : ℕ → ℕ) (k d n : ℕ) (st : CpuFiles C A) : Type 0 where
    pub available : (j : ℕ) → lookup st.cpus_available j ≡ prefix f k d j
    pub count : lookup st.cpus_count 0 ≡ some n

  -- A result that is there, and as it should be.
  pub data Gives (P : CpuFiles C A → Type 0) : Option (CpuFiles C A) → Type 0 where
    gives : {st : CpuFiles C A} → P st → Gives P (some st)

  list_cpu_lem :
      (f : ℕ → ℕ) (k d n : ℕ) (st : CpuFiles C A)
      → k < max_cpus
      → At f k d n st
      → Gives (At f (k + 1) d n) (list_cpu C A st (f k) k)
  unfolding list_cpu
  list_cpu_lem f k d n st lt at =
      let s = array.update_there st.cpus_available k (f k) d any (cc) (at.available k ∙ here) in
      rw (eq→== _ 0 s.success) (
        gives (record {
          available = λ j.
              s.found j
              ∙ ap (λ o. if j == k then some (f k) else o) (at.available j)
              ∙ prefix_next f k d j lt;
          count = at.count;
        }))
    where
      here : prefix f k d k ≡ some d
      here = rw (ge→ltb k k (omega arith), lt→ltb k max_cpus lt) refl

  count_cpu_lem :
      (f : ℕ → ℕ) (k d n : ℕ) (st : CpuFiles C A)
      → n < 2 ^ 32 - 1
      → At f k d n st
      → Gives (At f k d (n + 1)) (count_cpu C A st true)
  unfolding count_cpu
  count_cpu_lem f k d n st small at =
      let s = array.update_there st.cpus_count 0 (add32 n 1) n any (cc) at.count in
      rw (at.count, eq→== _ 0 s.success)
        (gives (record { available = at.available; count = s.found 0 ∙ ap some (omega arith) }))

  add_cpu_lem :
      (f : ℕ → ℕ) (k d n cpu queue_size : ℕ) (st : CpuFiles C A)
      → At f k d n st
      → Gives (At f k d n) (add_cpu C A st cpu queue_size)
  unfolding add_cpu
  add_cpu_lem f k d n cpu queue_size st at =
      rw (eq→== _ 0 (grants st.cpu_map cpu queue_size))
        (gives (record { available = at.available; count = at.count }))

  -- One step after the other.
  then-Gives :
      {P Q : CpuFiles C A → Type 0} {o : Option (CpuFiles C A)}
      (g : CpuFiles C A → Option (CpuFiles C A))
      → Gives P o
      → ((st : CpuFiles C A) → P st → Gives Q (g st))
      → Gives Q (o >>= g)
  then-Gives g (gives {st} p) h = h st p

  create_cpu_entry_lem :
      (f : ℕ → ℕ) (k d n queue_size : ℕ) (st : CpuFiles C A)
      → k < max_cpus
      → n < 2 ^ 32 - 1
      → At f k d n st
      → Gives (At f (k + 1) d (n + 1)) (create_cpu_entry C A st (f k) queue_size k true)
  unfolding create_cpu_entry
  create_cpu_entry_lem f k d n queue_size st lt small at =
      then-Gives (λ t. list_cpu C A t (f k) k >>= λ u. count_cpu C A u true)
        (add_cpu_lem f k d n (f k) queue_size st at)
        (λ t p.
          then-Gives (λ u. count_cpu C A u true) (list_cpu_lem f k d n t lt p)
            (λ u q. count_cpu_lem f (k + 1) d n u small q))

  pub mark_from_lem :
      (rounds i n : ℕ) (st : CpuFiles C A)
      → i + rounds ≡ max_cpus
      → At (λ j. max_cpus) i 0 n st
      → Gives (At (λ j. max_cpus) max_cpus 0 n) (mark_from C A rounds i st)
  unfolding mark_from
  mark_from_lem zero i n st e at =
      let full : i ≡ max_cpus = omega (arith, e) in
      subst (λ k. Gives (At (λ j. max_cpus) k 0 n) (some st)) full (gives at)
  mark_from_lem (suc rounds) i n st e at =
      then-Gives (mark_from C A rounds (i + 1))
        (list_cpu_lem (λ j. max_cpus) i 0 n st (omega arith) at)
        (λ t p. mark_from_lem rounds (i + 1) n t (omega arith) p)

  -- The tool goes on, with so many CPUs added.
  pub data Ready (f : ℕ → ℕ) (k : ℕ) : Setup C A → Type 0 where
    is_ready :
        {st : CpuFiles C A} (queue_size : ℕ)
        → At f k max_cpus k st
        → Ready f k (ready st queue_size k)

  pub on_ready :
      {f : ℕ → ℕ} {k : ℕ} {s : Setup C A} (P : Setup C A → Type 0)
      → Ready f k s
      → ((queue_size : ℕ) (st : CpuFiles C A) → At f k max_cpus k st → P (ready st queue_size k))
      → P s
  on_ready P (is_ready {st} queue_size at) h = h queue_size st at

  take_cpu_lem :
      (f : ℕ → ℕ) (w k queue_size : ℕ) (st : CpuFiles C A)
      → w < max_cpus
      → k < max_cpus
      → f k ≡ w
      → At f k max_cpus k st
      → Ready f (k + 1) (take_cpu_option C A st queue_size k (cpu_option w))
  unfolding take_cpu_option
  take_cpu_lem f w k queue_size st small room e at =
      rw (gt→leb max_cpus w small, and_false (ltb w (2 ^ 31)), sym e)
        (by_gives (create_cpu_entry_lem f k max_cpus k queue_size st room (omega arith) at))
    where
      by_gives :
          {o : Option (CpuFiles C A)}
          → Gives (At f (k + 1) max_cpus (k + 1)) o
          → Ready f (k + 1) (elim o as (λ x. Setup C A) [
            | none ↦ stopped 4
            | some t ↦ ready t queue_size (k + 1)
          ])
      by_gives (gives p) = is_ready queue_size p

  pub take_cpu_options_lem :
      (f : ℕ → ℕ) (xs : List CpuOpt) (k queue_size : ℕ) (st : CpuFiles C A)
      → Accepted xs
      → k + length (cpus_of xs) ≤ max_cpus
      → Follows f k (cpus_of xs)
      → At f k max_cpus k st
      → Ready f (k + length (cpus_of xs)) (take_cpu_options C A (ready st queue_size k) xs)
  unfolding take_cpu_options take_cpu_option
  take_cpu_options_lem f [] k queue_size st ok room fol at =
      let none_left : k ≡ k + 0 = omega arith in
      subst (λ n. Ready f n (ready st queue_size k)) none_left (is_ready queue_size at)
  take_cpu_options_lem f (cpu_option w ∷ xs) k queue_size st ok room fol at =
      let one_more : k + 1 + length (cpus_of xs) ≡ k + suc (length (cpus_of xs)) = omega arith in
      on_ready (λ s. Ready f (k + suc (length (cpus_of xs))) (take_cpu_options C A s xs))
        (take_cpu_lem f w k queue_size st (ok.0) (omega (arith, room)) (fol.0) at)
        (λ q t at'.
          subst (λ n. Ready f n (take_cpu_options C A (ready t q (k + 1)) xs)) one_more
            (take_cpu_options_lem f xs (k + 1) q t (ok.1) (omega (arith, room)) (fol.1) at'))
  take_cpu_options_lem f (qsize_option w ∷ xs) k queue_size st ok room fol at =
      take_cpu_options_lem f xs k w st ok room fol at
  take_cpu_options_lem f (prog_option w ∷ xs) k queue_size st ok room fol at =
      rw
        (
          gt→leb max_prog w (ok.0),
          gt→leb (2 ^ 31) w (omega (arith, ok.0)),
          and_false (ltb w (2 ^ 31)),
        )
        (take_cpu_options_lem f xs k queue_size st (ok.1) room fol at)
  take_cpu_options_lem f (other ∷ xs) k queue_size st ok room fol at =
      take_cpu_options_lem f xs k queue_size st ok room fol at
  take_cpu_options_lem f (help ∷ xs) k queue_size st ok room fol at = elim ok [ ]
