-- ===== src/Xdp/Hash.antt =====
-- `SuperFastHash` of kernel/samples/bpf/hash_func01.h, on u32. Memory is little-endian.
use prototype_kernel.Base.{
  ℕ, zero, suc, ◌+◌, ◌-◌, ◌*◌, ◌/◌, ◌%◌, ◌^◌, List, ltb, ◌==◌, if◌then◌else◌, get_or,
}
use prototype_kernel.Base.Words.{add32}
use Prim.Native.Nat.{bit_xor}

-- `x << k` and `x >> k`
abbrev pub shl32 : ℕ → ℕ → ℕ
shl32 x k = x * 2 ^ k % 2 ^ 32

abbrev pub shr32 : ℕ → ℕ → ℕ
shr32 x k = x / 2 ^ k

-- `get16bits(d)` at a place of the data
abbrev pub get16bits : List ℕ → ℕ → ℕ
get16bits bytes i = get_or bytes i 0 + get_or bytes (i + 1) 0 * 256

-- `(signed char)d`, as the u32 that it is added as
abbrev pub signed_char : List ℕ → ℕ → ℕ
signed_char bytes i = let b = get_or bytes i 0 in if ltb b 128 then b else 2 ^ 32 - 256 + b

-- The rounds of the main loop, from the `i`th byte on.
unfoldable pub hash_rounds : List ℕ → ℕ → ℕ → ℕ → ℕ
hash_rounds bytes zero i hash = hash
hash_rounds bytes (suc left) i hash =
    let h = add32 hash (get16bits bytes i) in
    let tmp = bit_xor (shl32 (get16bits bytes (i + 2)) 11) h in
    let g = bit_xor (shl32 h 16) tmp in hash_rounds bytes left (i + 4) (add32 g (shr32 g 11))

-- The cases of `switch (rem)`, with the bytes left from the `i`th on.
unfoldable pub hash_three : List ℕ → ℕ → ℕ → ℕ
hash_three bytes i hash =
    let h = add32 hash (get16bits bytes i) in
    let g = bit_xor h (shl32 h 16) in
    let f = bit_xor g (shl32 (signed_char bytes (i + 2)) 18) in add32 f (shr32 f 11)

unfoldable pub hash_two : List ℕ → ℕ → ℕ → ℕ
hash_two bytes i hash =
    let h = add32 hash (get16bits bytes i) in let g = bit_xor h (shl32 h 11) in add32 g (shr32 g 17)

unfoldable pub hash_one : List ℕ → ℕ → ℕ → ℕ
hash_one bytes i hash =
    let h = add32 hash (signed_char bytes i) in
    let g = bit_xor h (shl32 h 10) in add32 g (shr32 g 1)

unfoldable pub hash_end : List ℕ → ℕ → ℕ → ℕ → ℕ
unfolding hash_three hash_two hash_one
hash_end bytes rem i hash =
    if rem == 3
    then hash_three bytes i hash
    else if rem == 2
    then hash_two bytes i hash
    else if rem == 1
    then hash_one bytes i hash
    else hash

-- The last mixing.
unfoldable pub avalanche : ℕ → ℕ
avalanche a =
    let b = bit_xor a (shl32 a 3) in
    let c = add32 b (shr32 b 5) in
    let d = bit_xor c (shl32 c 4) in
    let e = add32 d (shr32 d 17) in let f = bit_xor e (shl32 e 25) in add32 f (shr32 f 6)

-- `SuperFastHash(data, len, initval)`, for a length that is no more than there are bytes
unfoldable pub super_fast_hash : List ℕ → ℕ → ℕ → ℕ
unfolding hash_rounds hash_end avalanche
super_fast_hash bytes len initval =
    if len == 0
    then 0
    else avalanche (hash_end bytes (len % 4) (len / 4 * 4) (hash_rounds bytes (len / 4) 0 initval))
