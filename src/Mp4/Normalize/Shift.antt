-- ===== src/Mp4/Normalize/Shift.antt =====
-- What `normalize_snapshot` makes of a snapshot.
use silk_studio.Prelude.{
  ◌≡◌, ◌∙◌, refl, ap, sym, subst, List, [], ◌∷◌, map, All, some, ok, >>=-eq-ok, ok_injective,
  Option-cases, Result-cases, inl, inr, arith,
}
use silk_studio.Prelude.Int.{ℤ, pos, ◌-ℤ◌, ◌≤ℤ◌}
use silk_studio.Media.Packet.{EncodedPacket}
use silk_studio.Media.Snapshot.{StreamPackets, MediaSnapshot}
use silk_studio.Muxer.{validate_snapshot}
use silk_studio.Mp4.Error.{Mp4Error}
use silk_studio.Mp4.Normalize

-- A packet with its two times less the shift.
abbrev pub earlier_packet : ℤ → EncodedPacket → EncodedPacket
earlier_packet shift p = record p { dts = p.dts -ℤ shift; pts = p.pts -ℤ shift }

abbrev pub earlier_stream : ℤ → StreamPackets → StreamPackets
earlier_stream shift s = record {
  descriptor = s.descriptor;
  packets = map (earlier_packet shift) s.packets;
}

-- Both times are 0 or later.
abbrev pub HasTimes : EncodedPacket → Type 0
HasTimes p = (pos 0 ≤ℤ p.dts) × (pos 0 ≤ℤ p.pts)

difference_exact : (a b : ℤ) {d : ℤ} → Normalize.checked_sub_i64 a b ≡ some d → a -ℤ b ≡ d
unfolding Normalize.checked_sub_i64
difference_exact a b done = ground arith

checked_time-eq-ok :
    (shift time : ℤ) (e f : Mp4Error) {t : ℤ}
    → Normalize.checked_time shift time e f ≡ ok t
    → (time -ℤ shift ≡ t) × (pos 0 ≤ℤ t)
checked_time-eq-ok shift time e f {t} done =
    elim (Option-cases (Normalize.checked_sub_i64 time shift)) [
      | inl underflows ↦ absurd (ground arith)
      | inr (difference, exact) ↦
          let value : time -ℤ shift ≡ difference = difference_exact time shift exact in ground arith
    ]

shift_packet-eq-ok :
    (shift : ℤ) (p : EncodedPacket) {q : EncodedPacket}
    → Normalize.shift_packet shift p ≡ ok q
    → (earlier_packet shift p ≡ q) × HasTimes q
unfolding Normalize.shift_packet
shift_packet-eq-ok shift p {q} done =
    let (dts, first, rest) = >>=-eq-ok (Normalize.checked_time shift p.dts _ _) _ done in
    let (pts, second, last) = >>=-eq-ok (Normalize.checked_time shift p.pts _ _) _ rest in
    let (dts_is, dts_from) = checked_time-eq-ok shift p.dts _ _ first in
    let (pts_is, pts_from) = checked_time-eq-ok shift p.pts _ _ second in
    let made : earlier_packet shift p ≡ record p { dts = dts; pts = pts } =
      ap (λ d. record p { dts = d; pts = p.pts -ℤ shift }) dts_is
      ∙ ap (λ t. record p { dts = dts; pts = t }) pts_is in
    let times : HasTimes (record p { dts = dts; pts = pts }) = (dts_from, pts_from) in
    (made ∙ ok_injective last, subst HasTimes (ok_injective last) times)

shift_packets-eq-ok :
    (shift : ℤ) (ps : List EncodedPacket) {qs : List EncodedPacket}
    → Normalize.shift_packets shift ps ≡ ok qs
    → (map (earlier_packet shift) ps ≡ qs) × All HasTimes qs
unfolding Normalize.shift_packets
shift_packets-eq-ok shift [] done = (ok_injective done, subst (All HasTimes) (ok_injective done) tt)
shift_packets-eq-ok shift (p ∷ ps) {qs} done =
    let (q, first, rest) = >>=-eq-ok (Normalize.shift_packet shift p) _ done in
    let (more, others, last) = >>=-eq-ok (Normalize.shift_packets shift ps) _ rest in
    let (now, now_from) = shift_packet-eq-ok shift p first in
    let (later, later_from) = shift_packets-eq-ok shift ps others in
    let all : All HasTimes (q ∷ more) = (now_from, later_from) in
    (
      ap (λ x. x ∷ map (earlier_packet shift) ps) now ∙ ap (◌∷◌ q) later ∙ ok_injective last,
      subst (All HasTimes) (ok_injective last) all,
    )

shift_streams-eq-ok :
    (shift : ℤ) (ss : List StreamPackets) {ts : List StreamPackets}
    → Normalize.shift_streams shift ss ≡ ok ts
    → (map (earlier_stream shift) ss ≡ ts) × All (λ s. All HasTimes s.packets) ts
unfolding Normalize.shift_streams
shift_streams-eq-ok shift [] done =
    (ok_injective done, subst (All (λ s. All HasTimes s.packets)) (ok_injective done) tt)
shift_streams-eq-ok shift (s ∷ ss) {ts} done =
    let (packets, first, rest) = >>=-eq-ok (Normalize.shift_packets shift s.packets) _ done in
    let (more, others, last) = >>=-eq-ok (Normalize.shift_streams shift ss) _ rest in
    let (now, now_from) = shift_packets-eq-ok shift s.packets first in
    let (later, later_from) = shift_streams-eq-ok shift ss others in
    let t : StreamPackets = record { descriptor = s.descriptor; packets = packets } in
    let all : All (λ s. All HasTimes s.packets) (t ∷ more) = (now_from, later_from) in
    (
      ap (λ ps. record { descriptor = s.descriptor; packets = ps } ∷ map (earlier_stream shift) ss)
            now
          ∙ ap (◌∷◌ t) later
          ∙ ok_injective last,
      subst (All (λ s. All HasTimes s.packets)) (ok_injective last) all,
    )

validated-eq-ok :
    (m : MediaSnapshot) {n : MediaSnapshot}
    → Normalize.validated m ≡ ok n
    → (m ≡ n) × (validate_snapshot m ≡ ok tt)
validated-eq-ok m done = elim (Result-cases (validate_snapshot m)) [
  | inl (u, passes) ↦ (ground arith, passes)
  | inr (e, fails) ↦ absurd (ground arith)
]

-- A snapshot that is normalized has its origin at 0 and the packets of the given one, each with its two
-- times less one shift for all streams, none of them negative; it passes the validation.
pub normalize_snapshot-eq-ok :
    (m n : MediaSnapshot)
    → Normalize.normalize_snapshot m ≡ ok n
    → (n.origin_pts ≡ pos 0)
      × (n.streams ≡ map (earlier_stream (Normalize.find_shift m.origin_pts m.streams)) m.streams)
      × All (λ s. All HasTimes s.packets) n.streams
      × (validate_snapshot n ≡ ok tt)
unfolding Normalize.normalize_snapshot
normalize_snapshot-eq-ok m n done =
    let shift = Normalize.find_shift m.origin_pts m.streams in
    let (streams, shifted, last) = >>=-eq-ok (Normalize.shift_streams shift m.streams) _ done in
    let (same, from) = shift_streams-eq-ok shift m.streams shifted in
    let (kept, valid) = validated-eq-ok (record m { origin_pts = pos 0; streams = streams }) last in
    subst
      (λ r.
        (r.origin_pts ≡ pos 0)
        × (r.streams ≡ map (earlier_stream shift) m.streams)
        × All (λ s. All HasTimes s.packets) r.streams
        × (validate_snapshot r ≡ ok tt))
      kept (refl, sym same, from, valid)
