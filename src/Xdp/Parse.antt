-- ===== src/Xdp/Parse.antt =====
-- What `parse_eth` finds, for every packet.
use prototype_kernel.Base.{
  ℕ, suc, ◌+◌, ◌≤◌, ◌<◌, ◌≡◌, inl, inr, refl, arith, Option, some, ◌>>=◌, true, false, length,
  lt→ltb, ge→ltb, Bool-cases,
}
use prototype_kernel.Xdp.Packet.{Packet, be16, load16_in}
use prototype_kernel.Xdp.Eth.{
  eth_p_802_3_min, is_vlan, L3, reject, found, untag, untag_more, parse_eth, parse_eth_double,
  Typed, untagged, last, tagged,
}
use native.Mathlib.Decide.{dec_lt}

-- A frame whose layer 3 is at the offset: a whole Ethernet header, a type that is no length, and at most
-- so many VLAN tags.
pub record Frame (tags : ℕ) (pkt : Packet) (eth_proto l3_offset : ℕ) : Type 0 where
  pub header : 14 ≤ length pkt
  pub type_ii : eth_p_802_3_min ≤ be16 pkt 12
  pub typed : Typed pkt tags 12 eth_proto l3_offset

-- A parse that faults nowhere, finds only what is there, and rejects only what there is not.
pub data Decides (Is : ℕ → ℕ → Type 0) : Option L3 → Type 0 where
  finds : {e o : ℕ} → Is e o → Decides Is (some (found e o))
  rejects : ((e o : ℕ) → ¬ Is e o) → Decides Is (some reject)

Typed-in : {pkt : Packet} {tags i e o : ℕ} → Typed pkt tags i e o → i + 2 ≤ length pkt
Typed-in (untagged tags inside no_tag) = inside
Typed-in (last inside) = inside
Typed-in (tagged inside tag rest) = inside

pub Typed-offset : {pkt : Packet} {tags i e o : ℕ} → Typed pkt tags i e o → o ≤ length pkt
Typed-offset (untagged tags inside no_tag) = inside
Typed-offset (last inside) = inside
Typed-offset (tagged inside tag rest) = Typed-offset rest

-- The three ways through `untag`.
data Untagged (pkt : Packet) (i : ℕ) : Option L3 → Type 0 where
  none_there : is_vlan (be16 pkt i) ≡ false → Untagged pkt i (some (found (be16 pkt i) (i + 2)))
  cut_off : is_vlan (be16 pkt i) ≡ true → length pkt < i + 6 → Untagged pkt i (some reject)
  taken_off :
      is_vlan (be16 pkt i) ≡ true
      → i + 4 + 2 ≤ length pkt
      → Untagged pkt i (some (found (be16 pkt (i + 4)) (i + 4 + 2)))

module _ (pkt : Packet) where
  untag-Untagged : (i : ℕ) → Untagged pkt i (untag pkt (be16 pkt i) (i + 2))
  unfolding untag
  untag-Untagged i = elim (Bool-cases (is_vlan (be16 pkt i))) [
    | inr no_tag ↦ rw no_tag (none_there no_tag)
    | inl tag ↦ elim (dec_lt (length pkt) (i + 6)) [
      | yes lt ↦ rw (tag, lt→ltb (length pkt) (i + 2 + 4) (omega arith)) (cut_off tag lt)
      | no ge ↦
          rw
            (
              tag,
              ge→ltb (length pkt) (i + 2 + 4) (omega arith),
              at,
              load16_in pkt (i + 4) (omega arith),
              behind,
            )
            (taken_off tag (omega arith))
    ]
  ]
    where
      at : i + 2 + 2 ≡ i + 4
      at = omega arith

      behind : i + 2 + 4 ≡ i + 4 + 2
      behind = omega arith

  -- One tag.
  once : {i : ℕ} {o : Option L3} → i + 2 ≤ length pkt → Untagged pkt i o → Decides (Typed pkt 1 i) o
  once inside (none_there no_tag) = finds (untagged 1 inside no_tag)
  once {i} inside (cut_off tag lt) = rejects (λ e o ty. short tag lt ty)
    where
      short :
          {tags e o : ℕ}
          → is_vlan (be16 pkt i) ≡ true
          → length pkt < i + 6
          → ¬ Typed pkt (suc tags) i e o
      short tag lt (untagged tags' inside no_tag) = cc
      short tag lt (tagged inside tag' rest) = absurd (omega (arith, Typed-in rest))
  once inside (taken_off tag more) = finds (tagged inside tag (last more))

  -- Two tags: what the first leaves is parsed again.
  behind_tag :
      {tags i : ℕ} {o : Option L3}
      → i + 2 ≤ length pkt
      → is_vlan (be16 pkt i) ≡ true
      → Decides (Typed pkt tags (i + 4)) o
      → Decides (Typed pkt (suc tags) i) o
  behind_tag inside tag (finds ty) = finds (tagged inside tag ty)
  behind_tag {tags} {i} inside tag (rejects never) = rejects (λ e o ty. refute tag never ty)
    where
      refute :
          {e o : ℕ}
          → is_vlan (be16 pkt i) ≡ true
          → ((e o : ℕ) → ¬ Typed pkt tags (i + 4) e o)
          → ¬ Typed pkt (suc tags) i e o
      refute tag never (untagged tags' inside no_tag) = cc
      refute tag never (tagged inside tag' rest) = never _ _ rest

  twice :
      {i : ℕ} {o : Option L3}
      → i + 2 ≤ length pkt
      → Untagged pkt i o
      → Decides (Typed pkt 2 i) (o >>= untag_more pkt)
  unfolding untag_more
  twice {i} inside (none_there no_tag) = again (untag-Untagged i)
    where
      again : {o : Option L3} → Untagged pkt i o → Decides (Typed pkt 2 i) o
      again (none_there no_tag') = finds (untagged 2 inside no_tag')
      again (cut_off tag lt) = cc
      again (taken_off tag more) = cc
  twice {i} inside (cut_off tag lt) =
      behind_tag inside tag (rejects (λ e o ty. absurd (omega (arith, Typed-in ty))))
  twice {i} inside (taken_off tag more) = behind_tag inside tag (once more (untag-Untagged (i + 4)))

-- `parse_eth`, with one VLAN tag at most, faults on no packet, finds the protocol and the layer 3 offset of
-- exactly the frames, and rejects all else; so does that with two tags.
framed :
    {tags : ℕ} {pkt : Packet} {o : Option L3}
    → 14 ≤ length pkt
    → eth_p_802_3_min ≤ be16 pkt 12
    → Decides (Typed pkt tags 12) o
    → Decides (Frame tags pkt) o
framed header type_ii (finds ty) = finds (record { header = header; type_ii = type_ii; typed = ty })
framed header type_ii (rejects never) = rejects (λ e o f. never e o f.typed)

pub parse_eth-Decides :
    (pkt : Packet)
    → Decides (Frame 1 pkt) (parse_eth pkt) × Decides (Frame 2 pkt) (parse_eth_double pkt)
unfolding parse_eth parse_eth_double untag_more
parse_eth-Decides pkt = elim (dec_lt (length pkt) 14) [
  | yes lt ↦ rw (lt→ltb (length pkt) 14 lt) (
    rejects (λ e o f. absurd (omega (arith, f.header))),
    rejects (λ e o f. absurd (omega (arith, f.header))),
  )
  | no ge ↦ elim (dec_lt (be16 pkt 12) eth_p_802_3_min) [
    | yes lt ↦
        rw
          (
            ge→ltb (length pkt) 14 (omega arith),
            load16_in pkt 12 (omega arith),
            lt→ltb (be16 pkt 12) eth_p_802_3_min lt,
          )
          (
            rejects (λ e o f. absurd (omega (arith, f.type_ii))),
            rejects (λ e o f. absurd (omega (arith, f.type_ii))),
          )
    | no le ↦
        rw
          (
            ge→ltb (length pkt) 14 (omega arith),
            load16_in pkt 12 (omega arith),
            ge→ltb (be16 pkt 12) eth_p_802_3_min (omega arith),
          )
          (
            framed (omega arith) (omega arith) (once pkt (omega arith) (untag-Untagged pkt 12)),
            framed (omega arith) (omega arith) (twice pkt (omega arith) (untag-Untagged pkt 12)),
          )
  ]
]

-- A frame has one protocol and one start of layer 3.
Typed-unique :
    {pkt : Packet} {tags i e o e' o' : ℕ}
    → Typed pkt tags i e o
    → Typed pkt tags i e' o'
    → (e ≡ e') × (o ≡ o')
Typed-unique (untagged tags inside no_tag) (untagged tags' inside' no_tag') = (refl, refl)
Typed-unique (untagged tags inside no_tag) (last inside') = (refl, refl)
Typed-unique (untagged tags inside no_tag) (tagged inside' tag rest) = cc
Typed-unique (last inside) (untagged tags' inside' no_tag') = (refl, refl)
Typed-unique (last inside) (last inside') = (refl, refl)
Typed-unique (tagged inside tag rest) (untagged tags' inside' no_tag) = cc
Typed-unique (tagged inside tag rest) (tagged inside' tag' rest') = Typed-unique rest rest'

pub Frame-unique :
    {pkt : Packet} {tags e o e' o' : ℕ}
    → Frame tags pkt e o
    → Frame tags pkt e' o'
    → (e ≡ e') × (o ≡ o')
Frame-unique f g = Typed-unique f.typed g.typed
