-- ===== src/Mpmc/Protocol.antt =====
-- What the two queues have in common, and what they differ in.
use prototype_kernel.Base.{ℕ, ◌-◌, ◌%◌, ◌^◌, ◌≤◌, ◌<◌, bit_and}
use prototype_kernel.Base.Words.{add32}

-- A counter as the code has it: a u32.
abbrev pub word : ℕ → ℕ
word x = x % 2 ^ 32

-- `Asks n`: a caller may ask for `n` elements.
-- `Grant asked there moved`: a call that asks for `asked`, and sees `there`, moves `moved`.
-- `Refuse asked there`: it returns at once.
pub record Protocol : Type 1 where
  pub log : ℕ
  pub capacity : ℕ
  pub Asks : ℕ → Type 0
  pub GrantIn : ℕ → ℕ → ℕ → Type 0
  pub RefuseIn : ℕ → ℕ → Type 0
  pub GrantOut : ℕ → ℕ → ℕ → Type 0
  pub RefuseOut : ℕ → ℕ → Type 0
  pub small : log ≤ 28
  pub capacity_le : capacity ≤ 2 ^ log
  pub grant_in_le :
      (asked there moved : ℕ) → GrantIn asked there moved → (moved ≤ asked) × (moved ≤ there)
  pub grant_in_pos : (asked there moved : ℕ) → GrantIn asked there moved → 0 < asked → 0 < moved
  pub grant_out_le :
      (asked there moved : ℕ) → GrantOut asked there moved → (moved ≤ asked) × (moved ≤ there)
  pub grant_out_pos : (asked there moved : ℕ) → GrantOut asked there moved → 0 < asked → 0 < moved

-- `(head + i) & mask`
abbrev pub slot_of : Protocol → ℕ → ℕ → ℕ
slot_of P head i = bit_and (add32 (word head) i) (2 ^ P.log - 1)
