-- ===== src/User/Bpf.antt =====
-- The system calls on BPF maps that the tools make, as kernel/samples/bpf/libbpf.h declares them. The
-- kernel behind them is a parameter, with what bpf(2) says of an array and of a hash.
use prototype_kernel.Base.{
  ℕ, ◌≡◌, ◌≢◌, ◌⊎◌, Option, none, some, ◌==◌, if◌then◌else◌, List, get_elem?,
}
use prototype_kernel.Xdp.Packet.{BpfMap}

-- BPF_ANY, BPF_NOEXIST and BPF_EXIST
pub data Flag : Type 0 where
  any noexist exist : Flag

abbrev pub eexist : ℕ
eexist = 17

-- `bpf_map_lookup_elem`, `bpf_map_update_elem` and `bpf_map_delete_elem`. A number that one returns is
-- the errno, with 0 for success.
pub record Calls (V : Type 0) : Type 1 where
  pub Map : Type 0
  pub lookup : Map → ℕ → Option V
  pub update : Map → ℕ → V → Flag → ℕ × Map
  pub delete : Map → ℕ → ℕ × Map

-- After a call that succeeded, `v` is what the map has under `k`.
pub record Stored {V : Type 0} (B : Calls V) (m : B.Map) (k : ℕ) (v : Option V) (r : ℕ × B.Map)
    : Type 0 where
  pub success : r.0 ≡ 0
  pub found : (j : ℕ) → B.lookup r.1 j ≡ (if j == k then v else B.lookup m j)

-- A call that failed.
pub record Failed {V : Type 0} (B : Calls V) (m : B.Map) (r : ℕ × B.Map) : Type 0 where
  pub failure : r.0 ≢ 0
  pub other : r.0 ≢ eexist
  pub same : r.1 ≡ m

-- An array has all its entries from the start, and no others.
pub record IsArray {V : Type 0} (B : Calls V) : Type 0 where
  pub update_there :
      (m : B.Map) (k : ℕ) (v old : V) (flag : Flag)
      → flag ≢ noexist
      → B.lookup m k ≡ some old
      → Stored B m k (some v) (B.update m k v flag)
  pub update_missing :
      (m : B.Map) (k : ℕ) (v : V) (flag : Flag)
      → B.lookup m k ≡ none
      → Failed B m (B.update m k v flag)

-- A hash may be full.
pub record IsHash {V : Type 0} (B : Calls V) : Type 0 where
  pub insert :
      (m : B.Map) (k : ℕ) (v : V)
      → B.lookup m k ≡ none
      → Stored B m k (some v) (B.update m k v noexist) ⊎ Failed B m (B.update m k v noexist)
  pub insert_there :
      (m : B.Map) (k : ℕ) (v old : V)
      → B.lookup m k ≡ some old
      → B.update m k v noexist ≡ (eexist, m)
  pub delete_there :
      (m : B.Map) (k : ℕ) (old : V) → B.lookup m k ≡ some old → Stored B m k none (B.delete m k)
  pub delete_missing : (m : B.Map) (k : ℕ) → B.lookup m k ≡ none → Failed B m (B.delete m k)

-- What a program that runs on a CPU finds in a map with a value for each.
abbrev pub view : (B : Calls (List ℕ)) → B.Map → ℕ → BpfMap
view B fd cpu k = elim (B.lookup fd k) [ none ↦ none | some vs ↦ get_elem? vs cpu ]
