-- ===== src/QMemPool/Cpus.antt =====
-- Any number of CPUs with their local queues over one shared queue, in any order of whole calls of
-- kernel/include/linux/qmempool.h. Interrupts and other CPUs do not get into a call; what the multi
-- calls on the shared queue do when they run at once is Mpmc.
use prototype_kernel.Base.{
  false, ℕ, zero, suc, ◌+◌, ◌≤◌, ◌<◌, ◌≡◌, ◌≢◌, refl, sym, arith, List, ◌∷◌, ◌++◌, some, length,
  ◌==◌, if◌then◌else◌, ==_refl, ne→==,
}
use prototype_kernel.Copy.Slots.{Ptr}
use prototype_kernel.Alf.Queue.{AlfQueue}
use prototype_kernel.QMemPool.Ops.{QMemPool, main_alloc, main_free}
use prototype_kernel.QMemPool.Queues.{Queued}
use prototype_kernel.QMemPool.Pool.{Pooled}
use prototype_kernel.QMemPool.Count.{count}
use native.Mathlib.Decide.{ℕ_discrete}

-- A pool with the local queues of all CPUs, and what the callers hold.
pub record Pools (Slab : Type 0) : Type 0 where
  pub sharedq : AlfQueue
  pub localq : ℕ → AlfQueue
  pub slab : Slab
  pub held : List Ptr

abbrev pub put {ℓ} : {A : Type ℓ} → (ℕ → A) → ℕ → A → ℕ → A
put f i a j = if i == j then a else f j

-- The pool as a CPU has it, and what a call on the CPU leaves.
abbrev pub cpu_view : {Slab : Type 0} → Pools Slab → ℕ → QMemPool Slab
cpu_view w i = record { sharedq = w.sharedq; localq = w.localq i; slab = w.slab }

abbrev pub after : {Slab : Type 0} → Pools Slab → ℕ → QMemPool Slab → List Ptr → Pools Slab
after w i p held = record {
  sharedq = p.sharedq;
  localq = put w.localq i p.localq;
  slab = p.slab;
  held = held;
}

-- How often an element stands in the local queues of the first CPUs.
abbrev pub total : ℕ → (ℕ → List Ptr) → Ptr → ℕ
total zero f y = 0
total (suc n) f y = count y (f n) + total n f y

put_self : {A : Type 0} (f : ℕ → A) (i : ℕ) (a : A) → put f i a i ≡ a
put_self f i a = rw (==_refl i) refl

put_other : {A : Type 0} (f : ℕ → A) (i : ℕ) (a : A) (j : ℕ) → i ≢ j → put f i a j ≡ f j
put_other f i a j ne = rw (ne→== i j ne) refl

total_other :
    (n i : ℕ) (f : ℕ → List Ptr) (xs : List Ptr) (y : Ptr)
    → n ≤ i
    → total n (put f i xs) y ≡ total n f y
total_other zero i f xs y le = refl
total_other (suc n) i f xs y le =
    rw (put_other f i xs n (λ e. omega arith), total_other n i f xs y (omega arith)) refl

total-put :
    (n i : ℕ) (f : ℕ → List Ptr) (xs : List Ptr) (y : Ptr)
    → i < n
    → total n (put f i xs) y + count y (f i) ≡ total n f y + count y xs
total-put zero i f xs y lt = absurd (omega arith)
total-put (suc n) i f xs y lt = elim (ℕ_discrete i n) [
  | yes e ↦ rw (e, put_self f n xs, total_other n n f xs y (omega arith)) (omega arith)
  | no ne ↦ rw (put_other f i xs n ne) (omega (arith, total-put n i f xs y (omega arith)))
]

pub total_at : (n i : ℕ) (f : ℕ → List Ptr) (y : Ptr) → i < n → count y (f i) ≤ total n f y
total_at zero i f y lt = absurd (omega arith)
total_at (suc n) i f y lt = elim (ℕ_discrete i n) [
  | yes e ↦ rw e (omega arith)
  | no ne ↦ omega (arith, total_at n i f y (omega arith))
]

module _ {Slab : Type 0} (kmem_cache_alloc : Slab → Ptr × Slab)
    (kmem_cache_free : Slab → Ptr → Slab) (out : Slab → Ptr → ℕ) (fuel cpus : ℕ) where
  -- A call on one of the CPUs. A caller frees what is held.
  pub data Call (w : Pools Slab) : Pools Slab → Type 0 where
    alloc_call :
        (i : ℕ) (cell : Ptr) (elems slab_elems : List Ptr) {x : Ptr} {p : QMemPool Slab}
        → i < cpus
        → 16 ≤ length elems
        → 16 ≤ length slab_elems
        → main_alloc kmem_cache_alloc kmem_cache_free
            (suc fuel)
            false
            (cpu_view w i)
            cell
            elems
            slab_elems
          ≡ some (x, p)
        → Call w (after w i p (x ∷ w.held))
    free_call :
        (i : ℕ) (elems before : List Ptr) (elem : Ptr) (later : List Ptr) {p : QMemPool Slab}
        → i < cpus
        → 16 ≤ length elems
        → w.held ≡ before ++ elem ∷ later
        → main_free kmem_cache_alloc kmem_cache_free (suc fuel) (cpu_view w i) elem elems ≡ some p
        → Call w (after w i p (before ++ later))

  pub data Calls (w : Pools Slab) : Pools Slab → Type 0 where
    none_yet : Calls w w
    one_more : {u v : Pools Slab} → Calls w u → Call u v → Calls w v

  -- The queues hold lists, and each element is out of the slab allocator as often as it is held or in a
  -- queue.
  pub record Conserved (local_size shared_size : ℕ) (w : Pools Slab) : Type 0 where
    pub shared : List Ptr
    pub locals : ℕ → List Ptr
    pub sharedq : Queued shared_size w.sharedq shared
    pub localqs : (i : ℕ) → i < cpus → Queued local_size (w.localq i) (locals i)
    pub balance : (y : Ptr) → count y w.held + total cpus locals y + count y shared ≡ out w.slab y

  module _ {local_size shared_size : ℕ} {w : Pools Slab} (c : Conserved local_size shared_size w)
      (i : ℕ) (lt : i < cpus) where
    pub view-Pooled : Pooled local_size shared_size (cpu_view w i) (c.locals i) c.shared
    view-Pooled = record { localq = c.localqs i lt; sharedq = c.sharedq }

    -- What is conserved on the CPU is conserved in all.
    pub after-Conserved :
        (p : QMemPool Slab) (locals' shared' held : List Ptr)
        → Pooled local_size shared_size p locals' shared'
        → ((y : Ptr)
            → count y held + count y locals' + count y shared' + out w.slab y
              ≡ count y w.held + count y (c.locals i) + count y c.shared + out p.slab y)
        → Conserved local_size shared_size (after w i p held)
    after-Conserved p locals' shared' held h kept = record {
      shared = shared';
      locals = put c.locals i locals';
      sharedq = h.sharedq;
      localqs = λ j inside. elim (ℕ_discrete i j) [
        | yes e ↦ rw (sym e, put_self w.localq i p.localq, put_self c.locals i locals') h.localq
        | no ne ↦
            rw (put_other w.localq i p.localq j ne, put_other c.locals i locals' j ne)
              (c.localqs j inside)
      ];
      balance = λ y. omega (arith, kept y, c.balance y, total-put cpus i c.locals locals' y lt);
    }
