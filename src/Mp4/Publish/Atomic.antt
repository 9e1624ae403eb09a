-- ===== src/Mp4/Publish/Atomic.antt =====
-- What `write_snapshot` leaves in the staged file and in the clip.
use silk_studio.Prelude.{
  ◌≡◌, refl, true, none, some, length, List, Result, ok, err, Result-cases, inl, inr, arith, subst,
  sym, ap, if◌then◌else◌, ◌∙◌, ◌>>◌, >>=-eq-ok,
}
use silk_studio.Media.Snapshot.{MediaSnapshot}
use silk_studio.Mp4.Bytes.{Bytes}
use silk_studio.Mp4.Error.{Mp4Error, io_failed}
use silk_studio.Mp4.Publish
use silk_studio.Mp4.Tracks.{PreparedTrack, require}

-- A file that was written whole from the prepared snapshot, and validated.
abbrev pub IsWhole : Publish.Outside → MediaSnapshot → Bytes → Type 0
IsWhole o m bytes =
    (n : MediaSnapshot) × (tracks : List PreparedTrack) × (Publish.prepared o m ≡ ok (n, tracks))
    × (Publish.write_staged_mp4 o n tracks ≡ ok bytes)
    × (Publish.validate_staged_mp4_file o tracks bytes ≡ ok tt)

-- What a call leaves: on an error the clip is as before, and the staged file is gone if it can be
-- removed; on success the staged file is gone and the clip is a whole file of the size returned.
abbrev pub Leaves :
    Publish.Outside
    → MediaSnapshot
    → Publish.Store
    → Result Mp4Error Publish.ClipMetadata × Publish.Store
    → Type 0
Leaves o m before (err e, after) =
    (after.clip ≡ before.clip) × (o.removes ≡ true → after.staged ≡ none)
Leaves o m before (ok meta, after) =
    (after.staged ≡ none)
    × ((bytes : Bytes) × (after.clip ≡ some bytes)
        × (meta.size_bytes ≡ length bytes)
        × IsWhole o m bytes)

module _ (o : Publish.Outside) (m : MediaSnapshot) (before : Publish.Store) where
  refused-Leaves :
      (e : Mp4Error) (store : Publish.Store)
      → store.clip ≡ before.clip
      → Leaves o m before (Publish.drop_guard o (err e, store))
  refused-Leaves e store same =
      (same, λ removed. ap (λ b. if b then none else store.staged) removed)

  -- A call that ends in an error, with the clip as before.
  Refuses-Leaves :
      (call : Result Mp4Error Publish.ClipMetadata × Publish.Store) (e : Mp4Error)
      (store : Publish.Store)
      → call ≡ (err e, store)
      → store.clip ≡ before.clip
      → Leaves o m before (Publish.drop_guard o call)
  Refuses-Leaves call e store ends same =
      subst (λ c. Leaves o m before (Publish.drop_guard o c)) (sym ends)
        (refused-Leaves e store same)

  confirm-eq-ok :
      (tracks : List PreparedTrack) (bytes : Bytes)
      → Publish.confirm o tracks bytes ≡ ok tt
      → Publish.validate_staged_mp4_file o tracks bytes ≡ ok tt
  unfolding Publish.confirm
  confirm-eq-ok tracks bytes settled =
      let (u, first, rest) =
        >>=-eq-ok
          (Publish.validate_staged_mp4_file o tracks bytes >> require o.has_metadata io_failed) _
          settled in
      let (v, valid, measured) =
        >>=-eq-ok (Publish.validate_staged_mp4_file o tracks bytes) _ first in
      valid

  last_value :
      {A : Type 0} {ready out : A}
      → (require o.creates_dir io_failed >> require o.opens io_failed >> ok ready) ≡ ok out
      → ready ≡ out
  last_value {A} {ready} {out} ends = ground arith

  opened-eq-ok :
      {n : MediaSnapshot} {tracks : List PreparedTrack}
      → Publish.opened o m ≡ ok (n, tracks)
      → Publish.prepared o m ≡ ok (n, tracks)
  unfolding Publish.opened
  opened-eq-ok opens =
      let (ready, prepares, rest) = >>=-eq-ok (Publish.prepared o m) _ opens in
      prepares ∙ ap ok (last_value rest)

  publish-Leaves :
      (n : MediaSnapshot) (tracks : List PreparedTrack) (bytes : Bytes) (store : Publish.Store)
      → store.clip ≡ before.clip
      → Publish.prepared o m ≡ ok (n, tracks)
      → Publish.write_staged_mp4 o n tracks ≡ ok bytes
      → Leaves o m before (Publish.drop_guard o (Publish.publish o m n tracks bytes store))
  unfolding Publish.publish
  publish-Leaves n tracks bytes store same prepares writes =
      let after : Result Mp4Error (Unit {0})
          → Result Mp4Error Publish.ClipMetadata × Publish.Store =
        λ r. elim r [
          | err e ↦ (err e, store)
          | ok _ ↦ (
            ok (Publish.metadata m n tracks bytes),
            record store { staged = none; clip = some bytes },
          )
        ] in
      elim (Result-cases (Publish.confirm o tracks bytes)) [
        | inr (e, refused) ↦ Refuses-Leaves _ e store (ap after refused) same
        | inl (u, settled) ↦
            let leaves : Leaves o m before (
              ok (Publish.metadata m n tracks bytes),
              record store { staged = none; clip = some bytes },
            ) =
              (
                refl,
                (
                  bytes,
                  refl,
                  refl,
                  (n, tracks, prepares, writes, confirm-eq-ok tracks bytes settled),
                ),
              ) in
            subst (λ c. Leaves o m before (Publish.drop_guard o c)) (sym (ap after settled)) leaves
      ]

  stage-Leaves :
      (n : MediaSnapshot) (tracks : List PreparedTrack)
      → Publish.prepared o m ≡ ok (n, tracks)
      → Leaves o m before (Publish.drop_guard o (Publish.stage o m n tracks before))
  unfolding Publish.stage
  stage-Leaves n tracks prepares =
      let after : Result Mp4Error Bytes → Result Mp4Error Publish.ClipMetadata × Publish.Store =
        λ r. elim r [
          | err e ↦ (err e, record before { staged = some o.partial })
          | ok bytes ↦ Publish.publish o m n tracks bytes (record before { staged = some bytes })
        ] in
      elim (Result-cases (Publish.write_staged_mp4 o n tracks)) [
        | inr (e, fails) ↦
            Refuses-Leaves _ e (record before { staged = some o.partial }) (ap after fails) refl
        | inl (bytes, writes) ↦
            subst (λ c. Leaves o m before (Publish.drop_guard o c)) (sym (ap after writes))
              (publish-Leaves n tracks bytes (record before { staged = some bytes }) refl prepares
                writes)
      ]

  -- Whatever the file system and the `mp4` crate answer, a call that fails leaves the clip as it was,
  -- and no staged file if that can be removed; a call that succeeds leaves no staged file and, as the
  -- clip, a file of the size returned that was written whole from the prepared snapshot and passed the
  -- validation.
  pub write_snapshot-Leaves : Leaves o m before (Publish.write_snapshot o m before)
  unfolding Publish.write_snapshot Publish.write_body
  write_snapshot-Leaves =
      let after : Result Mp4Error (MediaSnapshot × List PreparedTrack)
          → Result Mp4Error Publish.ClipMetadata × Publish.Store =
        λ r. elim r [
          | err e ↦ (err e, before)
          | ok (n, tracks) ↦ Publish.stage o m n tracks before
        ] in
      elim (Result-cases (Publish.opened o m)) [
        | inr (e, refused) ↦ Refuses-Leaves _ e before (ap after refused) refl
        | inl ((n, tracks), opens) ↦
            subst (λ c. Leaves o m before (Publish.drop_guard o c)) (sym (ap after opens))
              (stage-Leaves n tracks (opened-eq-ok opens))
      ]
