-- ===== src/Mp4/Tracks/Writable.antt =====
-- The places of the streams that can be written: what `indices_of` finds.
use silk_studio.Prelude.{
  ℕ, zero, suc, ◌+◌, ◌-◌, ◌≤◌, ◌<◌, ◌≡◌, ◌⊎◌, ◌↔◌, inl, inr, Bool-cases, ◌∙◌, refl, ap, sym, subst,
  Bool, true, false, not, ◌&&◌, List, [], ◌∷◌, some, get_elem?, is_empty, All, arith, if◌then◌else◌,
}
use silk_studio.Media.Packet.{MediaType}
use silk_studio.Media.Snapshot.{StreamPackets}
use silk_studio.Mp4.Tracks

-- A stream at a place that has packets and is of a kind.
unfoldable pub Writable : (MediaType → Bool) → List StreamPackets → (place : ℕ) → Type 0
Writable kind streams place =
    (s : StreamPackets) × (get_elem? streams place ≡ some s)
    × (is_empty s.packets ≡ false)
    × (kind s.descriptor.media_type ≡ true)

get_elem?-later :
    (s : StreamPackets) (ss : List StreamPackets) (index place : ℕ)
    → suc index ≤ place
    → get_elem? ss (place - suc index) ≡ get_elem? (s ∷ ss) (place - index)
get_elem?-later s ss index place h =
    let next : place - index ≡ suc (place - suc index) = omega arith in
    sym (ap (get_elem? (s ∷ ss)) next)

Writable-later :
    (kind : MediaType → Bool) (s : StreamPackets) (ss : List StreamPackets) (index : ℕ)
    (places : List ℕ)
    → All (λ i. (suc index ≤ i) × Writable kind ss (i - suc index)) places
    → All (λ i. (index ≤ i) × Writable kind (s ∷ ss) (i - index)) places
unfolding Writable
Writable-later kind s ss index [] h = tt
Writable-later kind s ss index (i ∷ is) ((beyond, (t, found, full, of_kind)), later) = (
  (omega arith, (t, sym (get_elem?-later s ss index i beyond) ∙ found, full, of_kind)),
  Writable-later kind s ss index is later,
)

All-if :
    (P : ℕ → Type 0) (keep : Bool) (i : ℕ) (rest : List ℕ)
    → (keep ≡ true → P i)
    → All P rest
    → All P (if keep then i ∷ rest else rest)
All-if P true i rest first all = (first refl, all)
All-if P false i rest first all = all

Writable-here :
    (kind : MediaType → Bool) (s : StreamPackets) (ss : List StreamPackets) (index : ℕ)
    → (not (is_empty s.packets) && kind s.descriptor.media_type) ≡ true
    → Writable kind (s ∷ ss) (index - index)
unfolding Writable
Writable-here kind s ss index h =
    let here : 0 ≡ index - index = omega arith in
    let both : (is_empty s.packets ≡ false) × (kind s.descriptor.media_type ≡ true) =
      ground arith in
    subst (Writable kind (s ∷ ss)) here (s, refl, both.0, both.1)

indices_of-Writable :
    (kind : MediaType → Bool) (index : ℕ) (streams : List StreamPackets)
    → All
        (λ i. (index ≤ i) × Writable kind streams (i - index))
        (Tracks.indices_of kind index streams)
unfolding Tracks.indices_of Writable
indices_of-Writable kind index [] = tt
indices_of-Writable kind index (s ∷ ss) =
    let more = Writable-later kind s ss index _ (indices_of-Writable kind (suc index) ss) in
    All-if (λ i. (index ≤ i) × Writable kind (s ∷ ss) (i - index)) _ index _
      (λ kept. (omega arith, Writable-here kind s ss index kept)) more

pub places-Writable :
    (kind : MediaType → Bool) (streams : List StreamPackets)
    → All (Writable kind streams) (Tracks.indices_of kind 0 streams)
unfolding Writable
places-Writable kind streams = from_zero _ (indices_of-Writable kind 0 streams)
  where
    from_zero :
        (places : List ℕ)
        → All (λ i. (0 ≤ i) × Writable kind streams (i - 0)) places
        → All (Writable kind streams) places
    from_zero [] h = tt
    from_zero (i ∷ is) ((_, now), later) =
        let same : i - 0 ≡ i = omega arith in
        (subst (Writable kind streams) same now, from_zero is later)

-- A number that a list holds.
abbrev pub Listed : ℕ → List ℕ → Type 0
Listed i [] = ⊥
Listed i (j ∷ js) = (i ≡ j) ⊎ Listed i js

-- Each number is below all that follow it.
abbrev pub IsAscending : List ℕ → Type 0
IsAscending [] = Unit
IsAscending (i ∷ is) = All (λ j. i < j) is × IsAscending is

-- The places of all the streams that can be written, in order and each once.
abbrev pub ArePlaces : (MediaType → Bool) → List StreamPackets → List ℕ → Type 0
ArePlaces kind streams places =
    IsAscending places × ((i : ℕ) → Writable kind streams i ↔ Listed i places)

indices_of-beyond :
    (kind : MediaType → Bool) (index : ℕ) (streams : List StreamPackets)
    → All (λ i. index ≤ i) (Tracks.indices_of kind index streams)
unfolding Tracks.indices_of
indices_of-beyond kind index [] = tt
indices_of-beyond kind index (s ∷ ss) =
    let later = above _ (indices_of-beyond kind (suc index) ss) in
    All-if (λ i. index ≤ i) _ index _ (λ _. omega arith) later
  where
    above : (is : List ℕ) → All (λ i. suc index ≤ i) is → All (λ i. index ≤ i) is
    above [] h = tt
    above (i ∷ is) (now, later) = (omega arith, above is later)

indices_of-IsAscending :
    (kind : MediaType → Bool) (index : ℕ) (streams : List StreamPackets)
    → IsAscending (Tracks.indices_of kind index streams)
unfolding Tracks.indices_of
indices_of-IsAscending kind index [] = tt
indices_of-IsAscending kind index (s ∷ ss) =
    let beyond = indices_of-beyond kind (suc index) ss in
    let rest = indices_of-IsAscending kind (suc index) ss in
    elim (Bool-cases (not (is_empty s.packets) && kind s.descriptor.media_type)) [
      | inl kept ↦ rw kept (beyond, rest)
      | inr passed ↦ rw passed rest
    ]

Listed-if :
    (keep : Bool) (i j : ℕ) (rest : List ℕ)
    → Listed i rest
    → Listed i (if keep then j ∷ rest else rest)
Listed-if true i j rest h = inr h
Listed-if false i j rest h = h

-- No stream that can be written is passed over.
Writable-Listed :
    (kind : MediaType → Bool) (index place : ℕ) (streams : List StreamPackets)
    → Writable kind streams place
    → Listed (index + place) (Tracks.indices_of kind index streams)
unfolding Tracks.indices_of Writable
Writable-Listed kind index place [] (s, found, _, _) = cc
Writable-Listed kind index zero (s ∷ ss) (t, found, full, of_kind) =
    let kept : (not (is_empty s.packets) && kind s.descriptor.media_type) ≡ true = ground arith in
    rw kept (inl (omega arith))
Writable-Listed kind index (suc place) (s ∷ ss) (t, found, full, of_kind) =
    let later = Writable-Listed kind (suc index) place ss (t, found, full, of_kind) in
    let same : suc index + place ≡ index + suc place = omega arith in
    Listed-if _ (index + suc place) index _
      (subst (λ i. Listed i (Tracks.indices_of kind (suc index) ss)) same later)

Listed-All : (P : ℕ → Type 0) (i : ℕ) (is : List ℕ) → All P is → Listed i is → P i
Listed-All P i [] h listed = elim listed [ ]
Listed-All P i (j ∷ js) (now, later) (inl e) = subst P (sym e) now
Listed-All P i (j ∷ js) (now, later) (inr more) = Listed-All P i js later more

pub indices_of-ArePlaces :
    (kind : MediaType → Bool) (streams : List StreamPackets)
    → ArePlaces kind streams (Tracks.indices_of kind 0 streams)
indices_of-ArePlaces kind streams = (
  indices_of-IsAscending kind 0 streams,
  λ i. (
    λ writable.
        let same : 0 + i ≡ i = omega arith in
        subst (λ j. Listed j (Tracks.indices_of kind 0 streams)) same
          (Writable-Listed kind 0 i streams writable),
    Listed-All (Writable kind streams) i _ (places-Writable kind streams),
  ),
)
