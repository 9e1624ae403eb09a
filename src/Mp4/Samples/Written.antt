-- ===== src/Mp4/Samples/Written.antt =====
-- The order in which the samples are written (the end of `sorted_mp4_packets` of
-- crates/muxer/src/mp4_muxer.rs).
use silk_studio.Prelude.{
  ◌≤◌, ◌<◌, ◌≡◌, ◌∙◌, ◌⊎◌, ap, sym, subst, Bool, true, List, [], ◌∷◌, filter, length, All, inl, inr,
  ok, >>=-eq-ok, ok_injective, arith,
}
use silk_studio.Prelude.Int.{◌<ℤ◌, eq_of_parts}
use silk_studio.Media.Snapshot.{MediaSnapshot}
use silk_studio.Mp4.Samples
use silk_studio.Mp4.Samples.Order.{PreparedSample, not_after, sort_samples}
use silk_studio.Mp4.Samples.Sorting.{
  IsSorted, filter-sort_samples, sort_samples-IsSorted, sort_samples_sorted, sort_samples-length,
}
use silk_studio.Mp4.Samples.Taken.{OfTracks, all_samples-OfTracks}
use silk_studio.Mp4.Tracks.{PreparedTrack}

-- A sample may be written before another: it is decoded earlier, or at the same time and has the
-- lower sequence, or the same sequence too and is of no later stream.
abbrev pub MayPrecede : PreparedSample → PreparedSample → Type 0
MayPrecede a b =
    (a.dts_ms <ℤ b.dts_ms)
    ⊎ ((a.dts_ms ≡ b.dts_ms)
        × ((a.sequence < b.sequence)
            ⊎ ((a.sequence ≡ b.sequence) × (a.stream_index ≤ b.stream_index))))

abbrev pub IsOrdered : List PreparedSample → Type 0
IsOrdered [] = Unit
IsOrdered (a ∷ rest) = All (MayPrecede a) rest × IsOrdered rest

not_after-MayPrecede : (a b : PreparedSample) → not_after a b ≡ true → MayPrecede a b
not_after-MayPrecede a b h = let same = eq_of_parts a.dts_ms b.dts_ms in ground arith

MayPrecede-not_after : (a b : PreparedSample) → MayPrecede a b → not_after a b ≡ true
MayPrecede-not_after a b (inl earlier) = ground arith
MayPrecede-not_after a b (inr (same, inl lower)) = ground arith
MayPrecede-not_after a b (inr (same, inr (equal, no_later))) = ground arith

IsSorted-IsOrdered : (ss : List PreparedSample) → IsSorted ss → IsOrdered ss
IsSorted-IsOrdered [] h = tt
IsSorted-IsOrdered (a ∷ rest) (now, later) = (each rest now, IsSorted-IsOrdered rest later)
  where
    each : (bs : List PreparedSample) → All (λ b. not_after a b ≡ true) bs → All (MayPrecede a) bs
    each [] h = tt
    each (b ∷ bs) (first, others) = (not_after-MayPrecede a b first, each bs others)

IsOrdered-IsSorted : (ss : List PreparedSample) → IsOrdered ss → IsSorted ss
IsOrdered-IsSorted [] h = tt
IsOrdered-IsSorted (a ∷ rest) (now, later) = (each rest now, IsOrdered-IsSorted rest later)
  where
    each : (bs : List PreparedSample) → All (MayPrecede a) bs → All (λ b. not_after a b ≡ true) bs
    each [] h = tt
    each (b ∷ bs) (first, others) = (MayPrecede-not_after a b first, each bs others)

-- A list is another in a stable order: what any test picks is as many as in the other, and the same
-- list where the other has it in order.
abbrev pub ReordersStably : List PreparedSample → List PreparedSample → Type 0
ReordersStably ss prepared =
    (test : PreparedSample → Bool)
    → (length (filter test ss) ≡ length (filter test prepared))
      × (IsOrdered (filter test prepared) → filter test ss ≡ filter test prepared)

-- The samples that `sorted_mp4_packets` gives are in the order of decode time, then sequence, then
-- stream. They are a reordering of the samples that `all_samples` makes, which are, track after
-- track, one for each packet of the stream at the track's index, with that packet's decode time and
-- sequence and the track's id and index: as many of each kind that a test tells apart, and samples of
-- one kind that are made in that order, such as those of a track whose packets are in it, stay as
-- they are.
pub sorted_mp4_packets-IsSorted :
    (m : MediaSnapshot) (tracks : List PreparedTrack) (ss : List PreparedSample)
    → Samples.sorted_mp4_packets m tracks ≡ ok ss
    → (prepared : List PreparedSample) × (Samples.all_samples m.streams tracks ≡ ok prepared)
      × OfTracks m.streams tracks prepared
      × IsOrdered ss
      × ReordersStably ss prepared
unfolding Samples.sorted_mp4_packets
sorted_mp4_packets-IsSorted m tracks ss done =
    let (prepared, ready, sorted) = >>=-eq-ok (Samples.all_samples m.streams tracks) _ done in
    let same : sort_samples prepared ≡ ss = ok_injective sorted in
    let stable : (test : PreparedSample → Bool)
        → filter test ss ≡ sort_samples (filter test prepared) =
      λ test. ap (filter test) (sym same) ∙ filter-sort_samples test prepared in
    (
      prepared,
      ready,
      all_samples-OfTracks m.streams tracks prepared ready,
      IsSorted-IsOrdered ss (subst IsSorted same (sort_samples-IsSorted prepared)),
      λ test. (
        ap length (stable test) ∙ sort_samples-length (filter test prepared),
        λ in_order.
            let picked = filter test prepared in
            stable test ∙ sort_samples_sorted picked (IsOrdered-IsSorted picked in_order),
      ),
    )
