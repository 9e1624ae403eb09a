-- ===== src/Mp4/Nal/AccessUnit.antt =====
-- The access unit that `nal_access_unit` gives to the MP4 writer.
use silk_studio.Prelude.{
  ℕ, zero, suc, ◌≤◌, ◌<◌, ◌≡◌, refl, sym, ap, ◌∙◌, subst, List, [], ◌∷◌, ◌++◌, some, inl, inr,
  length, drop, take, length-take, take-drop, All, All-drop, ok, Option-cases, arith,
}
use silk_studio.Mp4.Bytes.{Bytes, IsByte, be32, from_be32, be32-from_be32}
use silk_studio.Mp4.Nal.{
  avcc_loop, avcc_nals, annex_b_nals, unless_empty, split_at_code, nal_units, prefix_nals,
  nal_access_unit,
}
use silk_studio.Mp4.Nal.Avcc.{
  IsFramed, IsNonempty, framed, avcc_loop-framed, avcc_loop-IsNonempty, annex_b_loop-IsNonempty,
  prefix_nals-eq-ok, prefix_nals-framed,
}

unless_empty-eq-some :
    (found : List Bytes) {nals : List Bytes} → unless_empty found ≡ some nals → found ≡ nals
unless_empty-eq-some [] e = cc
unless_empty-eq-some (n ∷ ns) e = cc

avcc_nals-IsNonempty :
    (bytes : Bytes) {nals : List Bytes} → avcc_nals bytes ≡ some nals → All IsNonempty nals
unfolding avcc_nals
avcc_nals-IsNonempty bytes read = avcc_loop-IsNonempty (length bytes) bytes (ground arith)

annex_b_nals-IsNonempty :
    (bytes : Bytes) {nals : List Bytes} → annex_b_nals bytes ≡ some nals → All IsNonempty nals
unfolding annex_b_nals
annex_b_nals-IsNonempty bytes read =
    subst (All IsNonempty) (unless_empty-eq-some _ read)
      (annex_b_loop-IsNonempty (length bytes) (split_at_code bytes).1)

pub nal_units-IsNonempty :
    (bytes : Bytes) {nals : List Bytes} → nal_units bytes ≡ some nals → All IsNonempty nals
unfolding nal_units
nal_units-IsNonempty bytes {nals} read = elim (Option-cases (avcc_nals bytes)) [
  | inl fails ↦
      let other : annex_b_nals bytes ≡ some nals = ground arith in
      annex_b_nals-IsNonempty bytes other
  | inr (found, reads) ↦
      let this : avcc_nals bytes ≡ some nals = ground arith in avcc_nals-IsNonempty bytes this
]

-- An access unit is nonempty and made of framed NAL units, those read from the packet.
pub nal_access_unit-eq-ok :
    (packet : Bytes) {unit : Bytes}
    → nal_access_unit packet ≡ ok unit
    → (nals : List Bytes) × (nal_units packet ≡ some nals)
      × (prefix_nals nals ≡ ok unit)
      × (unit ≡ framed nals)
      × All IsFramed nals
      × (0 < length unit)
unfolding nal_access_unit
nal_access_unit-eq-ok packet {unit} done = elim (Option-cases (nal_units packet)) [
  | inl fails ↦ absurd (ground arith)
  | inr (nals, reads) ↦
      let written : prefix_nals nals ≡ ok unit = ground arith in
      let (same, all) = prefix_nals-eq-ok nals (nal_units-IsNonempty packet reads) written in
      (nals, reads, written, same, all, ground arith)
]

nal_units-avcc_nals :
    (bytes : Bytes) {nals : List Bytes} → avcc_nals bytes ≡ some nals → nal_units bytes ≡ some nals
unfolding nal_units
nal_units-avcc_nals bytes read = ground arith

avcc_nals-framed :
    (nals : List Bytes)
    → All IsFramed nals
    → 0 < length (framed nals)
    → avcc_nals (framed nals) ≡ some nals
unfolding avcc_nals framed
avcc_nals-framed [] h nonempty = absurd (omega arith)
avcc_nals-framed (nal ∷ nals) h nonempty =
    let read = avcc_loop-framed (length (framed (nal ∷ nals))) (nal ∷ nals) h (omega arith) in
    ground arith

pub nal_access_unit-framed :
    (packet : Bytes) (nals : List Bytes)
    → nal_units packet ≡ some nals
    → All IsFramed nals
    → 0 < length (framed nals)
    → nal_access_unit packet ≡ ok (framed nals)
unfolding nal_access_unit
nal_access_unit-framed packet nals read all nonempty =
    let written = prefix_nals-framed nals all in ground arith

-- An access unit that `nal_access_unit` makes from a packet is length prefixed, reading it gives the
-- NAL units of the packet in their order, none lost and none added, and it is made into itself.
pub nal_access_unit-nal_units :
    (packet unit : Bytes)
    → nal_access_unit packet ≡ ok unit
    → (avcc_nals unit ≡ nal_units packet) × (nal_access_unit unit ≡ ok unit)
nal_access_unit-nal_units packet unit done =
    let (nals, read, written, same, all, nonempty) = nal_access_unit-eq-ok packet done in
    let framed_nonempty : 0 < length (framed nals) = subst (λ b. 0 < length b) same nonempty in
    let again : avcc_nals (framed nals) ≡ some nals = avcc_nals-framed nals all framed_nonempty in
    let back : avcc_nals unit ≡ some nals = ap avcc_nals same ∙ again in
    let unit_again =
      nal_access_unit-framed unit nals (nal_units-avcc_nals unit back) all framed_nonempty in
    (back ∙ sym read, unit_again ∙ ap ok (sym same))

-- Taking the frame off and putting it on again.
framed-step :
    (a b c d : ℕ) (body : Bytes) (size : ℕ) (more : List Bytes)
    → All IsByte (a ∷ b ∷ c ∷ d ∷ body)
    → size ≡ from_be32 (a ∷ b ∷ c ∷ d ∷ [])
    → size ≤ length body
    → framed more ≡ drop size body
    → framed (take size body ∷ more) ≡ a ∷ b ∷ c ∷ d ∷ body
unfolding framed
framed-step a b c d body size more (ha, (hb, (hc, (hd, _)))) said fits later =
    let header : be32 (length (take size body)) ≡ a ∷ b ∷ c ∷ d ∷ [] =
      ap be32 (length-take size body fits ∙ said) ∙ be32-from_be32 a b c d ha hb hc hd in
    let joined : take size body ++ framed more ≡ body =
      ap (λ rest. take size body ++ rest) later ∙ take-drop size body in
    ap (λ front. front ++ (take size body ++ framed more)) header
    ∙ ap (λ rest. a ∷ b ∷ c ∷ d ∷ rest) joined

nothing_read : {more : List Bytes} → some [] ≡ some more → [] ≡ more
nothing_read e = cc

framed-avcc_loop :
    (fuel : ℕ) (bytes : Bytes) (nals : List Bytes)
    → All IsByte bytes
    → avcc_loop fuel bytes ≡ some nals
    → (framed nals ≡ bytes) × All IsFramed nals
unfolding avcc_loop framed
framed-avcc_loop zero [] nals are read =
    subst (λ ns. (framed ns ≡ []) × All IsFramed ns) (nothing_read read) (refl, tt)
framed-avcc_loop zero (b ∷ bs) nals are read = cc
framed-avcc_loop (suc fuel) [] nals are read =
    subst (λ ns. (framed ns ≡ []) × All IsFramed ns) (nothing_read read) (refl, tt)
framed-avcc_loop (suc fuel) (a ∷ []) nals are read = cc
framed-avcc_loop (suc fuel) (a ∷ b ∷ []) nals are read = cc
framed-avcc_loop (suc fuel) (a ∷ b ∷ c ∷ []) nals are read = cc
framed-avcc_loop (suc fuel) (a ∷ b ∷ c ∷ d ∷ body) nals (ha, (hb, (hc, (hd, rest_are)))) read =
    let size = from_be32 (a ∷ b ∷ c ∷ d ∷ body) in
    elim (Option-cases (avcc_loop fuel (drop size body))) [
      | inl fails ↦ absurd (ground arith)
      | inr (more, reads) ↦
          let (later, framed_later) =
            framed-avcc_loop fuel (drop size body) more (All-drop IsByte size body rest_are)
              reads in
          let taken : take size body ∷ more ≡ nals = ground arith in
          let full : (0 < size) × (size ≤ length body) = ground arith in
          let whole =
            framed-step a b c d body size more (ha, (hb, (hc, (hd, rest_are)))) refl full.1 later in
          let now : IsFramed (take size body) =
            let said : length (take size body) ≡ size = length-take size body full.1 in
            omega arith in
          subst (λ ns. (framed ns ≡ a ∷ b ∷ c ∷ d ∷ body) × All IsFramed ns) taken
            (whole, (now, framed_later))
    ]

-- A packet of bytes that is length prefixed already is its own access unit.
pub nal_access_unit-avcc_nals :
    (packet : Bytes) (nals : List Bytes)
    → All IsByte packet
    → avcc_nals packet ≡ some nals
    → nal_access_unit packet ≡ ok packet
unfolding avcc_nals
nal_access_unit-avcc_nals packet nals are read =
    let (same, all) = framed-avcc_loop (length packet) packet nals are (ground arith) in
    let long : 4 ≤ length packet = ground arith in
    let nonempty : 0 < length (framed nals) = subst (λ b. 0 < length b) (sym same) (omega arith) in
    nal_access_unit-framed packet nals (nal_units-avcc_nals packet read) all nonempty ∙ ap ok same
