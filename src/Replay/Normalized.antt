-- ===== src/Replay/Normalized.antt =====
-- The timestamps that `normalize_timestamps` (crates/replay-buffer/src/lib.rs) leaves.
use silk_studio.Prelude.{
  ◌≡◌, sym, true, false, List, [], ◌∷◌, arith, subst, map, All, Bool-cases, inl, inr,
}
use silk_studio.Prelude.Int.{ℤ, pos, ◌≤ℤ◌, eqb_ℤ, min_ℤ}
use silk_studio.Prelude.Words.{sub_i64, IsSmall, sub_i64_parts}
use silk_studio.Media.Packet.{EncodedPacket}
use silk_studio.Media.Snapshot.{StreamPackets, MediaSnapshot}
use silk_studio.Replay.Snapshots.{
  shift_with_first, shift_of, shift_packet, shift_stream, normalize_timestamps,
}

-- No timestamp of the packets is less than a bound.
abbrev pub NotBefore : ℤ → EncodedPacket → Type 0
NotBefore z p = (z ≤ℤ p.pts) × (z ≤ℤ p.dts)

-- No packet has a timestamp less than both of the first packet's.
abbrev pub FirstIsLeast : List EncodedPacket → Type 0
FirstIsLeast [] = Unit
FirstIsLeast (p ∷ ps) = All (NotBefore (min_ℤ p.dts p.pts)) ps

abbrev pub SmallPacket : EncodedPacket → Type 0
SmallPacket p = IsSmall p.pts × IsSmall p.dts

-- A snapshot whose timestamps are small and whose streams each have their least ones in front.
abbrev pub IsFrontLed : MediaSnapshot → Type 0
IsFrontLed m =
    IsSmall m.origin_pts × All (λ s. All SmallPacket s.packets × FirstIsLeast s.packets) m.streams

-- The streams of a snapshot, none with a timestamp less than a bound.
abbrev pub AllNotBefore : ℤ → List StreamPackets → Type 0
AllNotBefore z = All (λ s. All (NotBefore z) s.packets)

NotBefore-All :
    (z w : ℤ) (ps : List EncodedPacket) → z ≤ℤ w → All (NotBefore w) ps → All (NotBefore z) ps
NotBefore-All z w [] h a = tt
NotBefore-All z w (p ∷ ps) h (a, rest) = ((omega arith, omega arith), NotBefore-All z w ps h rest)

shift_with_first-le : (z : ℤ) (ps : List EncodedPacket) → shift_with_first z ps ≤ℤ z
shift_with_first-le z [] = omega arith
shift_with_first-le z (p ∷ ps) = ground arith

shift_of-le : (z : ℤ) (ss : List StreamPackets) → shift_of z ss ≤ℤ z
unfolding shift_of
shift_of-le z [] = omega arith
shift_of-le z (s ∷ ss) =
    omega (arith, shift_with_first-le z s.packets, shift_of-le (shift_with_first z s.packets) ss)

first-NotBefore :
    (z : ℤ) (ps : List EncodedPacket) → FirstIsLeast ps → All (NotBefore (shift_with_first z ps)) ps
first-NotBefore z [] h = tt
first-NotBefore z (p ∷ ps) h = (
  (ground arith, ground arith),
  NotBefore-All (shift_with_first z (p ∷ ps)) (min_ℤ p.dts p.pts) ps (ground arith) h,
)

shift_of-AllNotBefore :
    (z : ℤ) (ss : List StreamPackets)
    → All (λ s. All SmallPacket s.packets × FirstIsLeast s.packets) ss
    → AllNotBefore (shift_of z ss) ss
unfolding shift_of
shift_of-AllNotBefore z [] h = tt
shift_of-AllNotBefore z (s ∷ ss) (h, rest) =
    let next = shift_with_first z s.packets in
    (
      NotBefore-All (shift_of next ss) next s.packets (shift_of-le next ss)
          (first-NotBefore z s.packets h.1),
      shift_of-AllNotBefore next ss rest,
    )

shift_with_first-IsSmall :
    (z : ℤ) (ps : List EncodedPacket)
    → IsSmall z
    → All SmallPacket ps
    → IsSmall (shift_with_first z ps)
shift_with_first-IsSmall z [] hz h = hz
shift_with_first-IsSmall z (p ∷ ps) hz ((hp, hd), rest) = ground arith

shift_of-IsSmall :
    (z : ℤ) (ss : List StreamPackets)
    → IsSmall z
    → All (λ s. All SmallPacket s.packets × FirstIsLeast s.packets) ss
    → IsSmall (shift_of z ss)
unfolding shift_of
shift_of-IsSmall z [] hz h = hz
shift_of-IsSmall z (s ∷ ss) hz (h, rest) =
    shift_of-IsSmall (shift_with_first z s.packets) ss (shift_with_first-IsSmall z s.packets hz h.0)
      rest

shift-NotBefore :
    (z : ℤ) (ps : List EncodedPacket)
    → IsSmall z
    → All SmallPacket ps
    → All (NotBefore z) ps
    → All (NotBefore (pos 0)) (map (shift_packet z) ps)
shift-NotBefore z [] hz small h = tt
shift-NotBefore z (p ∷ ps) hz ((hp, hd), small) ((bp, bd), h) = (
  (omega (arith, sub_i64_parts p.pts z hp hz), omega (arith, sub_i64_parts p.dts z hd hz)),
  shift-NotBefore z ps hz small h,
)

shift-AllNotBefore :
    (z : ℤ) (ss : List StreamPackets)
    → IsSmall z
    → All (λ s. All SmallPacket s.packets × FirstIsLeast s.packets) ss
    → AllNotBefore z ss
    → AllNotBefore (pos 0) (map (shift_stream z) ss)
shift-AllNotBefore z [] hz small h = tt
shift-AllNotBefore z (s ∷ ss) hz (hs, small) (b, h) =
    (shift-NotBefore z s.packets hz hs.0 b, shift-AllNotBefore z ss hz small h)

-- The snapshot with every timestamp moved.
abbrev shifted : ℤ → MediaSnapshot → MediaSnapshot
shifted z m = record m {
  origin_pts = sub_i64 m.origin_pts z;
  streams = map (shift_stream z) m.streams;
}

normalize_timestamps-still :
    (m : MediaSnapshot)
    → eqb_ℤ (shift_of m.origin_pts m.streams) (pos 0) ≡ true
    → normalize_timestamps m ≡ m
unfolding normalize_timestamps
normalize_timestamps-still m h = ground arith

normalize_timestamps-shifted :
    (m : MediaSnapshot)
    → eqb_ℤ (shift_of m.origin_pts m.streams) (pos 0) ≡ false
    → normalize_timestamps m ≡ shifted (shift_of m.origin_pts m.streams) m
unfolding normalize_timestamps
normalize_timestamps-shifted m h = ground arith

-- No timestamp of a snapshot is negative.
abbrev pub IsNotNegative : MediaSnapshot → Type 0
IsNotNegative m = (pos 0 ≤ℤ m.origin_pts) × AllNotBefore (pos 0) m.streams

-- Where in each stream of the snapshot no packet has a timestamp less than both of the first
-- packet's, and all timestamps are less than 2 ^ 62 in magnitude, normalization leaves no timestamp
-- negative, the origin's included.
pub normalize_timestamps-IsNotNegative :
    (m : MediaSnapshot) → IsFrontLed m → IsNotNegative (normalize_timestamps m)
normalize_timestamps-IsNotNegative m (ho, hs) =
    let z = shift_of m.origin_pts m.streams in
    let below = shift_of-AllNotBefore m.origin_pts m.streams hs in
    let small = shift_of-IsSmall m.origin_pts m.streams ho hs in
    let le = shift_of-le m.origin_pts m.streams in
    elim (Bool-cases (eqb_ℤ z (pos 0))) [
      | inl still ↦
          let zero_shift : z ≡ pos 0 = ground arith in
          subst IsNotNegative (sym (normalize_timestamps-still m still)) (
            subst (λ w. w ≤ℤ m.origin_pts) zero_shift le,
            subst (λ w. AllNotBefore w m.streams) zero_shift below,
          )
      | inr moved ↦ subst IsNotNegative (sym (normalize_timestamps-shifted m moved)) (
        omega (arith, sub_i64_parts m.origin_pts z ho small),
        shift-AllNotBefore z m.streams small hs below,
      )
    ]
