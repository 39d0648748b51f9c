-- ===== src/Mpmc/Positions.antt =====
-- Positions and their slots: which slots are different, and what a reservation changes.
use prototype_kernel.Base.{
  ℕ, ◌+◌, ◌-◌, ◌%◌, ◌^◌, ◌≤◌, ◌<◌, ◌≡◌, ◌≢◌, sym, ap, ◌∙◌, arith, List, length, get_or, set, lt→ltb,
  ge→ltb,
}
use prototype_kernel.Base.Words.{add32, bit_and_mask, mod32-mod}
use prototype_kernel.Copy.Slots.{Ptr, get_or-set_self, get_or-set_ne}
use prototype_kernel.Copy.Window.{residue_ne}
use prototype_kernel.Mpmc.Protocol.{Protocol, word, slot_of}
use prototype_kernel.Mpmc.System.{place}
use native.Mathlib.Decide.{dec_lt}

module _ (P : Protocol) where
  pub slot_of-mod : (h i : ℕ) → slot_of P h i ≡ (h + i) % 2 ^ P.log
  slot_of-mod h i =
      bit_and_mask P.log (add32 (word h) i)
      ∙ ap (λ t. t % 2 ^ P.log) whole
      ∙ mod32-mod P.log (h + i) (omega (arith, P.small))
    where
      whole : add32 (word h) i ≡ (h + i) % 2 ^ 32
      whole = omega arith

-- Positions less than a round apart have different slots.
pub slots_differ :
    (k a b lo : ℕ) → lo ≤ a → lo ≤ b → a < lo + k → b < lo + k → a ≢ b → a % k ≢ b % k
slots_differ k a b lo la lb ha hb ne e = elim (dec_lt a b) [
  | yes lt ↦ residue_ne k a (b - a) (omega arith) (omega arith) (e ∙ ap (λ t. t % k) (back a b lt))
  | no ge ↦
      residue_ne k b (a - b) (omega arith) (omega arith)
        (sym e ∙ ap (λ t. t % k) (back b a (omega arith)))
]
  where
    back : (x y : ℕ) → x < y → y ≡ x + (y - x)
    back x y lt = omega arith

-- A reservation leaves the positions before it alone, and puts the elements in the others.
pub place_before : (f : ℕ → Ptr) (h : ℕ) (xs : List Ptr) (k : ℕ) → k < h → place f h xs k ≡ f k
place_before f h xs k lt = rw (lt→ltb k h lt)

pub place_from :
    (f : ℕ → Ptr) (h : ℕ) (xs : List Ptr) (x : ℕ) → place f h xs (h + x) ≡ get_or xs x 0
place_from f h xs x = rw (ge→ltb (h + x) h (omega arith)) (ap (λ t. get_or xs t 0) (back h x))
  where
    back : (h x : ℕ) → h + x - h ≡ x
    back h x = omega arith

-- The ring after a store, at the slot of a position.
module _ (ring : List Ptr) (k p : ℕ) (v : Ptr) where
  pub stored_at : p % k < length ring → get_or (set ring (p % k) v) (p % k) 0 ≡ v
  stored_at h = get_or-set_self ring (p % k) v 0 h

  pub stored_off :
      (q lo : ℕ)
      → lo ≤ p
      → lo ≤ q
      → p < lo + k
      → q < lo + k
      → p ≢ q
      → get_or (set ring (p % k) v) (q % k) 0 ≡ get_or ring (q % k) 0
  stored_off q lo lp lq hp hq ne =
      get_or-set_ne ring (p % k) (q % k) v 0 (slots_differ k p q lo lp lq hp hq ne)
