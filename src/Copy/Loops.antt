-- ===== src/Copy/Loops.antt =====
-- Loops over an index into the ring and an index `i` into the table, for any body. The body may
-- fault (`none`), as an access out of range does. `i` counts rounds and does not wrap, since the
-- number of rounds is a u32; the ring index wraps.
use prototype_kernel.Base.{ℕ, zero, suc, ◌+◌, ◌-◌, ◌%◌, bit_and, Option, some, ◌>>=◌}
use prototype_kernel.Base.Words.{add32}

-- `n & ~3`: the moves in full rounds of four
abbrev pub iterations : ℕ → ℕ
iterations n = n - bit_and n 3

module _ {ℓ} {S : Type ℓ} (body : ℕ → ℕ → S → Option S) where
  -- `for (; left; i++, index++) body(index, i)`
  unfoldable pub plain : ℕ → ℕ → ℕ → S → Option S
  plain zero i index s = some s
  plain (suc left) i index s = body index i s >>= λ t. plain left (i + 1) (add32 index 1) t

  -- the same with `index & mask`
  unfoldable pub masked : ℕ → ℕ → ℕ → ℕ → S → Option S
  masked mask zero i index s = some s
  masked mask (suc left) i index s =
      body (bit_and index mask) i s >>= λ t. masked mask left (i + 1) (add32 index 1) t

  -- four moves in a row
  unfoldable pub four : ℕ → ℕ → S → Option S
  four i index s = do
    a ← body index i s
    b ← body (add32 index 1) (i + 1) a
    c ← body (add32 index 2) (i + 2) b
    body (add32 index 3) (i + 3) c

  -- `for (; blocks; i += 4, index += 4)` over four moves
  unfoldable pub unrolled : ℕ → ℕ → ℕ → S → Option S
  unrolled zero i index s = some s
  unrolled (suc blocks) i index s =
      four i index s >>= λ t. unrolled blocks (i + 4) (add32 index 4) t

  -- The reference: element `i` belongs to slot `(head + i) % size`.
  unfoldable pub around : ℕ → ℕ → ℕ → ℕ → S → Option S
  around size head zero i s = some s
  around size head (suc left) i s =
      body ((head + i) % size) i s >>= λ t. around size head left (i + 1) t
