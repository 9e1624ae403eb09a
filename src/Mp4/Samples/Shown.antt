-- ===== src/Mp4/Samples/Shown.antt =====
-- When the video frames are shown: the start times and durations of `video_samples`.
use silk_studio.Prelude.{
  ℕ, ◌+◌, ◌<◌, ◌≡◌, ◌∙◌, refl, subst, ap, sym, List, [], ◌∷◌, Option, none, some, head?, ok,
  >>=-eq-ok, >>-eq-ok, ok_injective, arith, ok_or, All,
}
use silk_studio.Prelude.Int.{
  ℤ, pos, negsuc, pos_part, neg_part, ◌<ℤ◌, ◌-ℤ◌, ◌≤ℤ◌, -ℤ_parts, eq_of_parts,
}
use silk_studio.Prelude.Words.{sub_i64, FitsI64, wrap_i64-eq_of_fits}
use silk_studio.Media.Packet.{EncodedPacket}
use silk_studio.Mp4.Error.{Mp4Error, negative_start, duration_too_long}
use silk_studio.Mp4.Codec.{VideoCodec}
use silk_studio.Mp4.Samples.Order.{Placed, PreparedSample}
use silk_studio.Mp4.Samples.Video.{
  to_u64, to_u32, raw_duration, require_duration, require_payload, composition_offset,
  video_payload, video_sample, video_samples,
}

-- The end of a frame: the next packet's decode time if that is later, else the packet's own duration
-- after its start.
abbrev pub EndsAt : EncodedPacket → (next : Option EncodedPacket) → PreparedSample → Type 0
EndsAt p none s = pos s.sample.duration ≡ p.duration
EndsAt p (some next) s =
    (p.dts <ℤ next.dts → pos (s.sample.start_time + s.sample.duration) ≡ next.dts)
    × (next.dts ≤ℤ p.dts → pos s.sample.duration ≡ p.duration)

-- A sample for each packet, in order: it starts at the packet's decode time, lasts a while and ends
-- where the next one starts.
abbrev pub IsShown : List EncodedPacket → List PreparedSample → Type 0
IsShown [] [] = Unit
IsShown [] (s ∷ ss) = ⊥
IsShown (p ∷ ps) [] = ⊥
IsShown (p ∷ ps) (s ∷ ss) =
    (pos s.sample.start_time ≡ p.dts)
    × (0 < s.sample.duration)
    × EndsAt p (head? ps) s
    × IsShown ps ss

to_u64-eq-ok : (z : ℤ) (e : Mp4Error) {n : ℕ} → ok_or (to_u64 z) e ≡ ok n → pos n ≡ z
to_u64-eq-ok (pos m) e read = ap pos (sym (ok_injective read))
to_u64-eq-ok (negsuc m) e read = cc

to_u32-eq-ok : (z : ℤ) (e : Mp4Error) {n : ℕ} → ok_or (to_u32 z) e ≡ ok n → pos n ≡ z
to_u32-eq-ok (pos m) e read = ground arith
to_u32-eq-ok (negsuc m) e read = cc

require_duration-eq-ok : (p : EncodedPacket) → require_duration p ≡ ok tt → pos 0 <ℤ p.duration
require_duration-eq-ok p checked = ground arith

-- What the body of the loop has checked of the times.
video_sample_times :
    (place : Placed) (codec : VideoCodec) (p : EncodedPacket) (next : Option EncodedPacket)
    {s : PreparedSample}
    → video_sample place codec p next ≡ ok s
    → (pos s.sample.start_time ≡ p.dts)
      × (pos s.sample.duration ≡ raw_duration p next)
      × (pos 0 <ℤ p.duration)
unfolding video_sample
video_sample_times place codec p next {s} done =
    let (start, starts, after_start) = >>=-eq-ok (ok_or (to_u64 p.dts) negative_start) _ done in
    let (u, positive, after_check) = >>=-eq-ok (require_duration p) _ after_start in
    let (lasts, ends, after_end) =
      >>=-eq-ok (ok_or (to_u32 (raw_duration p next)) duration_too_long) _ after_check in
    let (offset, composed, after_offset) = >>=-eq-ok (composition_offset p) _ after_end in
    let (payload, read, last) = >>=-eq-ok (video_payload codec p.payload) _ after_offset in
    let made = >>-eq-ok (require_payload place.stream_id payload) last in
    subst
      (λ t.
        (pos t.sample.start_time ≡ p.dts)
        × (pos t.sample.duration ≡ raw_duration p next)
        × (pos 0 <ℤ p.duration))
      made
      (
        to_u64-eq-ok p.dts _ starts,
        to_u32-eq-ok (raw_duration p next) _ ends,
        require_duration-eq-ok p positive,
      )

-- A difference of decode times is exact.
sub_i64_positive :
    (a b : ℤ) (m n : ℕ) → pos m ≡ a → pos n ≡ b → FitsI64 a → FitsI64 b → sub_i64 b a ≡ b -ℤ a
unfolding sub_i64 ◌-ℤ◌
sub_i64_positive a b m n ea eb ha hb = wrap_i64-eq_of_fits (b -ℤ a) (ground arith)

-- The duration that a later packet sets.
advance :
    (a b : ℤ) (m n lasts : ℕ) → pos m ≡ a → pos n ≡ b → pos lasts ≡ b -ℤ a → pos (m + lasts) ≡ b
advance a b m n lasts ea eb h =
    let parts = -ℤ_parts b a in ground (arith, eq_of_parts (pos (m + lasts)) b)

raw_duration-EndsAt :
    (p next : EncodedPacket) (s : PreparedSample) (n : ℕ)
    → FitsI64 p.dts
    → FitsI64 next.dts
    → pos s.sample.start_time ≡ p.dts
    → pos n ≡ next.dts
    → pos s.sample.duration ≡ raw_duration p (some next)
    → EndsAt p (some next) s
unfolding raw_duration
raw_duration-EndsAt p next s n hp hn start later lasts =
    let exact = sub_i64_positive p.dts next.dts s.sample.start_time n start later hp hn in
    let parts = -ℤ_parts next.dts p.dts in
    let ups : pos_part (sub_i64 next.dts p.dts) ≡ pos_part (next.dts -ℤ p.dts) =
      ap pos_part exact in
    let downs : neg_part (sub_i64 next.dts p.dts) ≡ neg_part (next.dts -ℤ p.dts) =
      ap neg_part exact in
    (
      λ advances.
          let taken : raw_duration p (some next) ≡ sub_i64 next.dts p.dts = ground arith in
          advance p.dts next.dts s.sample.start_time n s.sample.duration start later
            (lasts ∙ taken ∙ exact),
      λ stays. let taken : raw_duration p (some next) ≡ p.duration = ground arith in lasts ∙ taken,
    )

raw_duration_last : (p : EncodedPacket) → raw_duration p none ≡ p.duration
unfolding raw_duration
raw_duration_last p = refl

raw_duration_positive :
    (p : EncodedPacket) (next : Option EncodedPacket) (n : ℕ)
    → pos 0 <ℤ p.duration
    → pos n ≡ raw_duration p next
    → 0 < n
unfolding raw_duration
raw_duration_positive p none n positive lasts = ground arith
raw_duration_positive p (some next) n positive lasts = ground arith

-- A video track whose samples are prepared has one for each packet, in order: each starts at its
-- packet's decode time, lasts at least a tick, and ends where the next one starts, if that is later,
-- or after its packet's duration, if that is not later or there is none. The decode times are values
-- of an `i64`.
pub video_samples-IsShown :
    (place : Placed) (codec : VideoCodec) (ps : List EncodedPacket) (ss : List PreparedSample)
    → All (λ p. FitsI64 p.dts) ps
    → video_samples place codec ps ≡ ok ss
    → IsShown ps ss
unfolding video_samples
video_samples-IsShown place codec [] [] fit done = tt
video_samples-IsShown place codec [] (s ∷ ss) fit done = cc
video_samples-IsShown place codec (p ∷ []) ss (fits, fit) done =
    let (now, first, rest) = >>=-eq-ok (video_sample place codec p none) _ done in
    let (later, then_rest, joined) =
      >>=-eq-ok (video_samples place codec []) (λ more. ok (now ∷ more)) rest in
    let (start, lasts, positive) = video_sample_times place codec p none first in
    let after = video_samples-IsShown place codec [] later tt then_rest in
    let shown : IsShown (p ∷ []) (now ∷ later) =
      (start, raw_duration_positive p none _ positive lasts, lasts ∙ raw_duration_last p, after) in
    subst (IsShown (p ∷ [])) (ok_injective joined) shown
video_samples-IsShown place codec (p ∷ q ∷ ps) ss (fits, fit) done =
    let (now, first, rest) = >>=-eq-ok (video_sample place codec p (some q)) _ done in
    let (later, then_rest, joined) = >>=-eq-ok (video_samples place codec (q ∷ ps)) _ rest in
    let (start, lasts, positive) = video_sample_times place codec p (some q) first in
    let (next, second, others) = >>=-eq-ok (video_sample place codec q (head? ps)) _ then_rest in
    let (next_start, _, _) = video_sample_times place codec q (head? ps) second in
    let after = video_samples-IsShown place codec (q ∷ ps) later fit then_rest in
    let ends = raw_duration-EndsAt p q now _ fits fit.0 start next_start lasts in
    let shown : IsShown (p ∷ q ∷ ps) (now ∷ later) =
      (start, raw_duration_positive p (some q) _ positive lasts, ends, after) in
    subst (IsShown (p ∷ q ∷ ps)) (ok_injective joined) shown
