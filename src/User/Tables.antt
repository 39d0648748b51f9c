-- ===== src/User/Tables.antt =====
-- Maps as functions, which meet what bpf(2) says of an array and of a hash.
use prototype_kernel.Base.{
  ℕ, ◌≡◌, ◌≢◌, refl, ap, ◌⊎◌, inl, arith, Option, none, some, ◌==◌, if◌then◌else◌, List,
}
use prototype_kernel.User.Bpf.{
  Calls, Flag, any, noexist, exist, eexist, Stored, Failed, IsArray, IsHash,
}

abbrev pub Entries : Type 0
Entries = ℕ → Option (List ℕ)

abbrev pub put_entry : Entries → ℕ → Option (List ℕ) → Entries
put_entry m k v j = if j == k then v else m j

-- An array whose entries are all there from the start.
abbrev pub Table : Type 0 → Type 0
Table V = ℕ → Option V

module _ {V : Type 0} where
  abbrev pub put_row : Table V → ℕ → V → Table V
  put_row m k v j = if j == k then some v else m j

  unfoldable pub table_update : Table V → ℕ → V → Flag → Option V → ℕ × Table V
  table_update m k v flag none = (7, m)
  table_update m k v noexist (some old) = (eexist, m)
  table_update m k v any (some old) = (0, put_row m k v)
  table_update m k v exist (some old) = (0, put_row m k v)

abbrev pub table_calls : (V : Type 0) → Calls V
table_calls V = record {
  Map = Table V;
  lookup = λ m k. m k;
  update = λ m k v flag. table_update m k v flag (m k);
  delete = λ m k. (22, m);
}

module _ (V : Type 0) where
  table_there :
      (m : Table V) (k : ℕ) (v old : V) (flag : Flag)
      → flag ≢ noexist
      → m k ≡ some old
      → Stored (table_calls V) m k (some v) (table_update m k v flag (m k))
  unfolding table_update
  table_there m k v old any ne at = rw at (record { success = refl; found = λ j. refl })
  table_there m k v old exist ne at = rw at (record { success = refl; found = λ j. refl })
  table_there m k v old noexist ne at = absurd (ne refl)

  table_missing :
      (m : Table V) (k : ℕ) (v : V) (flag : Flag)
      → m k ≡ none
      → Failed (table_calls V) m (table_update m k v flag (m k))
  unfolding table_update
  table_missing m k v flag e = rw e (record {
    failure = λ q. absurd (omega (arith, q));
    other = λ q. absurd (omega (arith, q));
    same = refl;
  })

  pub table_calls-IsArray : IsArray (table_calls V)
  table_calls-IsArray = record { update_there = table_there; update_missing = table_missing }

abbrev pub array_calls : Calls (List ℕ)
array_calls = table_calls (List ℕ)

pub array_calls-IsArray : IsArray array_calls
array_calls-IsArray = table_calls-IsArray (List ℕ)

-- A hash that is never full.
unfoldable pub hash_update : Entries → ℕ → List ℕ → Flag → Option (List ℕ) → ℕ × Entries
hash_update m k v noexist (some old) = (eexist, m)
hash_update m k v flag old = (0, put_entry m k (some v))

unfoldable pub hash_delete : Entries → ℕ → Option (List ℕ) → ℕ × Entries
hash_delete m k none = (2, m)
hash_delete m k (some old) = (0, put_entry m k none)

abbrev pub hash_calls : Calls (List ℕ)
hash_calls = record {
  Map = Entries;
  lookup = λ m k. m k;
  update = λ m k v flag. hash_update m k v flag (m k);
  delete = λ m k. hash_delete m k (m k);
}

hash_insert :
    (m : Entries) (k : ℕ) (v : List ℕ)
    → m k ≡ none
    → Stored hash_calls m k (some v) (hash_update m k v noexist (m k))
      ⊎ Failed hash_calls m (hash_update m k v noexist (m k))
unfolding hash_update
hash_insert m k v e = rw e (inl (record { success = refl; found = λ j. refl }))

hash_insert_there :
    (m : Entries) (k : ℕ) (v old : List ℕ)
    → m k ≡ some old
    → hash_update m k v noexist (m k) ≡ (eexist, m)
unfolding hash_update
hash_insert_there m k v old e = ap (hash_update m k v noexist) e

hash_delete_there :
    (m : Entries) (k : ℕ) (old : List ℕ)
    → m k ≡ some old
    → Stored hash_calls m k none (hash_delete m k (m k))
unfolding hash_delete
hash_delete_there m k old e = rw e (record { success = refl; found = λ j. refl })

hash_delete_missing :
    (m : Entries) (k : ℕ) → m k ≡ none → Failed hash_calls m (hash_delete m k (m k))
unfolding hash_delete
hash_delete_missing m k e = rw e (record {
  failure = λ q. absurd (omega (arith, q));
  other = λ q. absurd (omega (arith, q));
  same = refl;
})

pub hash_calls-IsHash : IsHash hash_calls
hash_calls-IsHash = record {
  insert = hash_insert;
  insert_there = hash_insert_there;
  delete_there = hash_delete_there;
  delete_missing = hash_delete_missing;
}
