-- ===== src/Copy/Slots.antt =====
-- The two bodies of the copy loops, and what a run of either does to the arrays.
mod Arrays
pub use Arrays.*
use prototype_kernel.Base.{
  ℕ, zero, suc, ◌+◌, ◌-◌, ◌%◌, ◌≤◌, ◌<◌, ◌≡◌, refl, sym, ap, ap₂, ◌∙◌, arith, List, [], ◌∷◌, ◌++◌,
  Option, none, some, ◌>>=◌, length, get_elem?, get_or, set, take, drop, ltb, if◌then◌else◌,
  length-set,
}
use prototype_kernel.Copy.Loops.{around}
use native.Mathlib.Nat.{mod-lt}

-- A pointer to an object, by its address.
abbrev pub Ptr : Type 0
Ptr = ℕ

-- `xs[i] = v`; a write out of range faults.
unfoldable pub write : List Ptr → ℕ → Ptr → Option (List Ptr)
write xs i v = if ltb i (length xs) then some (set xs i v) else none

-- `ring[index] = table[i]`
unfoldable pub store : List Ptr → ℕ → ℕ → List Ptr → Option (List Ptr)
store table index i ring = get_elem? table i >>= λ v. write ring index v

-- `table[i] = ring[index]`
unfoldable pub load : List Ptr → ℕ → ℕ → List Ptr → Option (List Ptr)
load ring index i table = get_elem? ring index >>= λ v. write table i v

-- The ring after `xs` went into the slots from `head` on.
abbrev pub put_around : ℕ → ℕ → List Ptr → List Ptr → List Ptr
put_around size head [] ring = ring
put_around size head (x ∷ xs) ring = put_around size (head + 1) xs (set ring (head % size) x)

-- The `n` elements in the slots from `head` on.
abbrev pub window : List Ptr → ℕ → ℕ → ℕ → List Ptr
window ring size head zero = []
window ring size head (suc n) = get_or ring (head % size) 0 ∷ window ring size (head + 1) n

-- The table after `xs` went into it from `i` on.
abbrev pub splice : ℕ → List Ptr → List Ptr → List Ptr
splice i [] table = table
splice i (x ∷ xs) table = splice (i + 1) xs (set table i x)

pub write_in : (xs : List Ptr) (i : ℕ) (v : Ptr) → i < length xs → write xs i v ≡ some (set xs i v)
unfolding write
write_in xs i v h = ground arith

store_in :
    (table : List Ptr) (index i : ℕ) (ring : List Ptr)
    → i < length table
    → index < length ring
    → store table index i ring ≡ some (set ring index (get_or table i 0))
unfolding store
store_in table index i ring hi hx =
    rw (get_elem?-eq-get_or table i 0 hi) (write_in ring index (get_or table i 0) hx)

load_in :
    (ring : List Ptr) (index i : ℕ) (table : List Ptr)
    → i < length table
    → index < length ring
    → load ring index i table ≡ some (set table i (get_or ring index 0))
unfolding load
load_in ring index i table hi hx =
    rw (get_elem?-eq-get_or ring index 0 hx) (write_in table i (get_or ring index 0) hi)

-- A run of stores faults nowhere and fills the slots from `head + i` on with the table's elements.
pub around-store :
    (table : List Ptr) (size head left i : ℕ) (ring : List Ptr)
    → 0 < size
    → length ring ≡ size
    → i + left ≤ length table
    → around (store table) size head left i ring
      ≡ some (put_around size (head + i) (take left (drop i table)) ring)
unfolding around store
around-store table size head zero i ring pos len h = refl
around-store table size head (suc left) i ring pos len h =
    rw (store_in table slot i ring (omega arith) (omega (arith, mod-lt (head + i) pos))) (
      around-store table size head left (i + 1) (set ring slot v) pos (length-set ring slot v ∙ len)
        (omega arith)
      ∙ ap some (
          ap₂ (λ p q. put_around size p (take left (drop q table)) (set ring slot v)) at here
          ∙ ap (λ xs. put_around size (head + i) (take (suc left) xs) ring)
              (sym (drop-cons table i 0 (omega arith)))))
  where
    slot : ℕ
    slot = (head + i) % size

    v : Ptr
    v = get_or table i 0

    at : head + (i + 1) ≡ head + i + 1
    at = omega arith

    here : i + 1 ≡ suc i
    here = omega arith

-- A run of loads faults nowhere and copies the slots from `head + i` on to the table from `i` on.
pub around-load :
    (ring : List Ptr) (size head left i : ℕ) (table : List Ptr)
    → 0 < size
    → length ring ≡ size
    → i + left ≤ length table
    → around (load ring) size head left i table
      ≡ some (splice i (window ring size (head + i) left) table)
unfolding around load
around-load ring size head zero i table pos len h = refl
around-load ring size head (suc left) i table pos len h =
    rw
      (load_in ring ((head + i) % size) i table (omega arith)
        (omega (arith, mod-lt (head + i) pos)))
      (around-load ring size head left (i + 1) (set table i v) pos len
          (omega (arith, length-set table i v))
        ∙ ap (λ p. some (splice (i + 1) (window ring size p left) (set table i v))) at)
  where
    v : Ptr
    v = get_or ring ((head + i) % size) 0

    at : head + (i + 1) ≡ head + i + 1
    at = omega arith
