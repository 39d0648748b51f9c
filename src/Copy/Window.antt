-- ===== src/Copy/Window.antt =====
-- Laws of the window of a ring that its head and tail mark off.
use prototype_kernel.Base.{
  ℕ, zero, suc, ◌+◌, ◌-◌, ◌%◌, ◌^◌, ◌≤◌, ◌<◌, ◌≡◌, refl, sym, ap, ap₂, ◌∙◌, arith, List, [], ◌∷◌,
  ◌++◌, append-nil, append_assoc, length, get_or, set, take, drop, min, length-set,
}
use prototype_kernel.Base.Words.{mod32-mod}
use prototype_kernel.Copy.Slots.{Ptr, window, put_around, splice, get_or-set_self, get_or-set_ne}
use native.Mathlib.Nat.{add-zero, mod-lt, mod-add-mod, mod-eq_of_lt, mod-eq-sub-mod}
use native.Mathlib.Decide.{dec_lt}

pub length-window : (ring : List Ptr) (size head n : ℕ) → length (window ring size head n) ≡ n
length-window ring size head zero = refl
length-window ring size head (suc n) = ap suc (length-window ring size (head + 1) n)

pub length-put_around :
    (size head : ℕ) (xs ring : List Ptr) → length (put_around size head xs ring) ≡ length ring
length-put_around size head [] ring = refl
length-put_around size head (x ∷ xs) ring =
    length-put_around size (head + 1) xs (set ring (head % size) x)
    ∙ length-set ring (head % size) x

-- Two slots less than a round apart are different.
pub residue_ne : (size a d : ℕ) → 0 < d → d < size → ¬ (a % size ≡ (a + d) % size)
residue_ne size a d pos h e = elim (dec_lt (a % size + d) size) [
  | yes p ↦ absurd (omega (arith, mod-add-mod a size d, mod-eq_of_lt p))
  | no p ↦ absurd (
      omega (
        arith,
        mod-add-mod a size d,
        mod-lt a (le_of pos h),
        mod-eq-sub-mod {n = a % size + d} {m = size} (omega arith),
        mod-eq_of_lt {n = a % size + d - size} {m = size} (omega (arith, mod-lt a (le_of pos h))),
      ))
]
  where
    le_of : 0 < d → d < size → 0 < size
    le_of p q = omega arith

-- A write to a slot outside the window leaves it alone.
window-set_ne :
    (ring : List Ptr) (size head n p : ℕ) (v : Ptr)
    → ((j : ℕ) → j < n → ¬ (p ≡ (head + j) % size))
    → window (set ring p v) size head n ≡ window ring size head n
window-set_ne ring size head zero p v apart = refl
window-set_ne ring size head (suc n) p v apart =
    ap₂ ◌∷◌
      (get_or-set_ne ring p (head % size) v 0
        (λ e. apart 0 (omega arith) (e ∙ ap (λ t. t % size) (sym (add-zero head)))))
      (window-set_ne ring size (head + 1) n p v
        (λ j h e. apart (suc j) (omega arith) (e ∙ ap (λ t. t % size) (step j))))
  where
    step : (j : ℕ) → head + 1 + j ≡ head + suc j
    step j = omega arith

pub window-add :
    (ring : List Ptr) (size head a b : ℕ)
    → window ring size head (a + b) ≡ window ring size head a ++ window ring size (head + a) b
window-add ring size head zero b =
    ap₂ (λ h n. window ring size h n) (sym (add-zero head)) (omega arith)
window-add ring size head (suc a) b =
    ap (λ n. window ring size head n) step
    ∙ ap (λ w. get_or ring (head % size) 0 ∷ w)
        (window-add ring size (head + 1) a b
          ∙ ap (λ h. window ring size (head + 1) a ++ window ring size h b) place)
  where
    step : suc a + b ≡ suc (a + b)
    step = omega arith

    place : head + 1 + a ≡ head + suc a
    place = omega arith

-- A store just past the window extends it by its element.
window-set_next :
    (ring : List Ptr) (size head n : ℕ) (v : Ptr)
    → length ring ≡ size
    → n < size
    → window (set ring ((head + n) % size) v) size head (n + 1)
      ≡ window ring size head n ++ (v ∷ [])
window-set_next ring size head n v len h =
    window-add (set ring slot v) size head n 1
    ∙ ap₂ (λ w x. w ++ (x ∷ []))
        (window-set_ne ring size head n slot v (λ j lt e.
          residue_ne size (head + j) (n - j) (omega arith) (omega arith)
            (sym e ∙ ap (λ t. t % size) (split j lt))))
        (get_or-set_self ring slot v 0 (omega (arith, mod-lt (head + n) (pos h))))
  where
    slot : ℕ
    slot = (head + n) % size

    split : (j : ℕ) → j < n → head + n ≡ head + j + (n - j)
    split j lt = omega arith

    pos : n < size → 0 < size
    pos h = omega arith

-- Stores just past a window extend it.
pub window-put_around :
    (size head n : ℕ) (xs ring : List Ptr)
    → length ring ≡ size
    → n + length xs ≤ size
    → window (put_around size (head + n) xs ring) size head (n + length xs)
      ≡ window ring size head n ++ xs
window-put_around size head n [] ring len h =
    ap (λ m. window ring size head m) (add-zero n) ∙ sym (append-nil (window ring size head n))
window-put_around size head n (x ∷ xs) ring len h =
    ap₂ (λ p m. window (put_around size p xs ring') size head m) place count
    ∙ window-put_around size head (n + 1) xs ring' (length-set ring slot x ∙ len) (omega arith)
    ∙ ap (λ w. w ++ xs) (window-set_next ring size head n x len (omega arith))
    ∙ append_assoc (window ring size head n) (x ∷ []) xs
  where
    slot : ℕ
    slot = (head + n) % size

    ring' : List Ptr
    ring' = set ring slot x

    place : head + n + 1 ≡ head + (n + 1)
    place = omega arith

    count : n + suc (length xs) ≡ n + 1 + length xs
    count = omega arith

-- Only the residue of the head matters.
window_congr :
    (ring : List Ptr) (size a b n : ℕ)
    → a % size ≡ b % size
    → window ring size a n ≡ window ring size b n
window_congr ring size a b zero e = refl
window_congr ring size a b (suc n) e =
    ap₂ (λ x xs. get_or ring x 0 ∷ xs) e
      (window_congr ring size (a + 1) (b + 1) n
        (sym (mod-add-mod a size 1) ∙ ap (λ t. (t + 1) % size) e ∙ mod-add-mod b size 1))

-- So a head that wrapped at 2 ^ 32 marks the same window.
pub window_mod32 :
    (ring : List Ptr) (k a n : ℕ)
    → k ≤ 32
    → window ring (2 ^ k) (a % 2 ^ 32) n ≡ window ring (2 ^ k) a n
window_mod32 ring k a n h = window_congr ring (2 ^ k) (a % 2 ^ 32) a n (mod32-mod k a h)

put_around_congr :
    (size a b : ℕ) (xs ring : List Ptr)
    → a % size ≡ b % size
    → put_around size a xs ring ≡ put_around size b xs ring
put_around_congr size a b [] ring e = refl
put_around_congr size a b (x ∷ xs) ring e =
    ap (λ t. put_around size (a + 1) xs (set ring t x)) e
    ∙ put_around_congr size (a + 1) (b + 1) xs (set ring (b % size) x)
        (sym (mod-add-mod a size 1) ∙ ap (λ t. (t + 1) % size) e ∙ mod-add-mod b size 1)

pub put_around_mod32 :
    (k a : ℕ) (xs ring : List Ptr)
    → k ≤ 32
    → put_around (2 ^ k) (a % 2 ^ 32) xs ring ≡ put_around (2 ^ k) a xs ring
put_around_mod32 k a xs ring h = put_around_congr (2 ^ k) (a % 2 ^ 32) a xs ring (mod32-mod k a h)

splice-suc :
    (i : ℕ) (xs table : List Ptr) (t : Ptr) → splice (suc i) xs (t ∷ table) ≡ t ∷ splice i xs table
splice-suc i [] table t = refl
splice-suc i (x ∷ xs) table t =
    ap (λ j. splice j xs (t ∷ set table i x)) (omega arith)
    ∙ splice-suc (i + 1) xs (set table i x) t

-- What a run of loads leaves in the table: the elements, and what stood behind them.
pub splice-zero :
    (xs table : List Ptr)
    → length xs ≤ length table
    → splice 0 xs table ≡ xs ++ drop (length xs) table
splice-zero [] table h = refl
splice-zero (x ∷ xs) [] h = absurd (omega arith)
splice-zero (x ∷ xs) (t ∷ table) h =
    splice-suc 0 xs table x ∙ ap (λ w. x ∷ w) (splice-zero xs table (omega arith))

pub splice-window :
    (ring : List Ptr) (size head n : ℕ) (table : List Ptr)
    → n ≤ length table
    → splice 0 (window ring size head n) table ≡ window ring size head n ++ drop n table
splice-window ring size head n table h =
    splice-zero (window ring size head n) table (omega (arith, length-window ring size head n))
    ∙ ap (λ m. window ring size head n ++ drop m table) (length-window ring size head n)

pub take-window :
    (ring : List Ptr) (size head m n : ℕ)
    → take n (window ring size head m) ≡ window ring size head (min m n)
take-window ring size head m zero = ap (λ j. window ring size head j) none
  where
    none : 0 ≡ min m 0
    none = omega arith
take-window ring size head zero (suc n) = ap (λ j. window ring size head j) none
  where
    none : 0 ≡ min 0 (suc n)
    none = omega arith
take-window ring size head (suc m) (suc n) =
    ap (λ w. get_or ring (head % size) 0 ∷ w) (take-window ring size (head + 1) m n)
    ∙ ap (λ j. window ring size head j) both
  where
    both : suc (min m n) ≡ min (suc m) (suc n)
    both = omega arith

pub drop-window :
    (ring : List Ptr) (size head m n : ℕ)
    → drop n (window ring size head m) ≡ window ring size (head + min m n) (m - n)
drop-window ring size head m zero = ap₂ (λ h j. window ring size h j) (omega arith) (omega arith)
drop-window ring size head zero (suc n) = ap (λ j. window ring size (head + min 0 (suc n)) j) none
  where
    none : 0 ≡ 0 - suc n
    none = omega arith
drop-window ring size head (suc m) (suc n) =
    drop-window ring size (head + 1) m n ∙ ap₂ (λ h j. window ring size h j) place rest
  where
    place : head + 1 + min m n ≡ head + min (suc m) (suc n)
    place = omega arith

    rest : m - n ≡ suc m - suc n
    rest = omega arith
