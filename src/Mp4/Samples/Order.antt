-- ===== src/Mp4/Samples/Order.antt =====
-- Samples with the place of their track, and the order in which they are written: the sort at the end
-- of `sorted_mp4_packets` (crates/muxer/src/mp4_muxer.rs). `sort_by` is stable.
use silk_studio.Prelude.{ℕ, Bool, ◌&&◌, ◌||◌, List, [], ◌∷◌, ltb, leb, ◌==◌, if◌then◌else◌}
use silk_studio.Prelude.Int.{ℤ, ltb_ℤ, eqb_ℤ}
use silk_studio.Mp4.Bytes.{Bytes}

-- `mp4::Mp4Sample`
pub record Mp4Sample : Type 0 where
  pub start_time : ℕ
  pub duration : ℕ
  pub rendering_offset : ℤ
  pub is_sync : Bool
  pub bytes : Bytes

-- The track and the stream that a sample is of.
pub record Placed : Type 0 where
  pub track_id : ℕ
  pub stream_index : ℕ
  pub stream_id : ℕ

pub record PreparedSample : Type 0 where
  pub track_id : ℕ
  pub dts_ms : ℤ
  pub sequence : ℕ
  pub stream_index : ℕ
  pub sample : Mp4Sample

-- The comparison of `sort_by` is less or equal.
abbrev pub not_after : PreparedSample → PreparedSample → Bool
not_after a b =
    ltb_ℤ a.dts_ms b.dts_ms
    || (eqb_ℤ a.dts_ms b.dts_ms
        && (ltb a.sequence b.sequence
            || (a.sequence == b.sequence && leb a.stream_index b.stream_index)))

unfoldable pub insert_sample : PreparedSample → List PreparedSample → List PreparedSample
insert_sample a [] = a ∷ []
insert_sample a (b ∷ bs) =
    let rest = insert_sample a bs in if not_after a b then a ∷ b ∷ bs else b ∷ rest

unfoldable pub sort_samples : List PreparedSample → List PreparedSample
sort_samples [] = []
sort_samples (a ∷ rest) = insert_sample a (sort_samples rest)
