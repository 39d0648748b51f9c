-- ===== src/Xdp/Packet.antt =====
-- Packets and verdicts of the programs in kernel/samples/bpf. A packet is its bytes, from `data` to
-- `data_end`. A number in network byte order is its value: htons and ntohs are not written.
use prototype_kernel.Base.{
  ℕ, ◌+◌, ◌*◌, ◌%◌, ◌^◌, ◌≤◌, ◌≡◌, refl, arith, List, Option, none, some, ◌>>=◌, ◌==◌,
  if◌then◌else◌, length, get_elem?, get_or,
}
use prototype_kernel.Copy.Slots.{get_elem?-eq-get_or}

abbrev pub Packet : Type 0
Packet = List ℕ

-- The verdicts, with the CPU that a redirect through the CPU map goes to.
pub data Action : Type 0 where
  aborted drop pass tx : Action
  redirect : (cpu : ℕ) → Action

-- Their numbers in `enum xdp_action`.
unfoldable pub code : Action → ℕ
code aborted = 0
code drop = 1
code pass = 2
code tx = 3
code (redirect cpu) = 4

-- Reads of one byte, of a 16-bit number in network byte order, and of a 32-bit one as it lies in
-- memory. A read past the end of the packet faults.
unfoldable pub load8 : Packet → ℕ → Option ℕ
load8 pkt i = get_elem? pkt i

unfoldable pub load16 : Packet → ℕ → Option ℕ
unfolding load8
load16 pkt i = load8 pkt i >>= λ a. load8 pkt (i + 1) >>= λ b. some (a * 256 + b)

unfoldable pub load32_raw : Packet → ℕ → Option ℕ
unfolding load8
load32_raw pkt i = load8 pkt i >>= λ a. load8 pkt (i + 1) >>= λ b. load8 pkt (i + 2) >>= λ c.
    load8 pkt (i + 3) >>= λ d. some (a + b * 256 + c * 65536 + d * 16777216)

-- The numbers at a place of a packet.
abbrev pub byte : Packet → ℕ → ℕ
byte pkt i = get_or pkt i 0

abbrev pub be16 : Packet → ℕ → ℕ
be16 pkt i = byte pkt i * 256 + byte pkt (i + 1)

abbrev pub raw32 : Packet → ℕ → ℕ
raw32 pkt i =
    byte pkt i + byte pkt (i + 1) * 256 + byte pkt (i + 2) * 65536 + byte pkt (i + 3) * 16777216

module _ (pkt : Packet) (i : ℕ) where
  pub load8_in : i + 1 ≤ length pkt → load8 pkt i ≡ some (byte pkt i)
  unfolding load8
  load8_in h = get_elem?-eq-get_or pkt i 0 (omega arith)

  pub load16_in : i + 2 ≤ length pkt → load16 pkt i ≡ some (be16 pkt i)
  unfolding load8 load16
  load16_in h =
      rw
        (get_elem?-eq-get_or pkt i 0 (omega arith), get_elem?-eq-get_or pkt (i + 1) 0 (omega arith))
        refl

  pub load32_raw_in : i + 4 ≤ length pkt → load32_raw pkt i ≡ some (raw32 pkt i)
  unfolding load8 load32_raw
  load32_raw_in h =
      rw
        (
          get_elem?-eq-get_or pkt i 0 (omega arith),
          get_elem?-eq-get_or pkt (i + 1) 0 (omega arith),
          get_elem?-eq-get_or pkt (i + 2) 0 (omega arith),
          get_elem?-eq-get_or pkt (i + 3) 0 (omega arith),
        )
        refl

-- A BPF map: what bpf_map_lookup_elem finds under a key.
abbrev pub BpfMap : Type 0
BpfMap = ℕ → Option ℕ

-- A write through the pointer that a lookup found.
unfoldable pub put : BpfMap → ℕ → ℕ → BpfMap
put m k v j = if j == k then some v else m j

-- `value = bpf_map_lookup_elem(&m, &k); if (value) *value += 1`, on u64
unfoldable pub bump : BpfMap → ℕ → BpfMap
unfolding put
bump m k = elim (m k) [ none ↦ m | some v ↦ put m k ((v + 1) % 2 ^ 64) ]
