-- ===== src/Mp4/Samples/Sorting.antt =====
-- The stable sort of the samples, and taking some of them.
use silk_studio.Prelude.{
  suc, ◌≡◌, ◌∙◌, refl, ap, sym, subst, Bool, true, false, List, [], ◌∷◌, filter, length, All,
  Bool-cases, inl, inr, arith, if◌then◌else◌,
}
use silk_studio.Mp4.Samples.Order.{PreparedSample, not_after, insert_sample, sort_samples}

-- No sample is after a later one.
abbrev pub IsSorted : List PreparedSample → Type 0
IsSorted [] = Unit
IsSorted (a ∷ rest) = All (λ b. not_after a b ≡ true) rest × IsSorted rest

not_after_total : (a b : PreparedSample) → not_after a b ≡ false → not_after b a ≡ true
not_after_total a b h = ground arith

not_after_trans :
    (a b c : PreparedSample) → not_after a b ≡ true → not_after b c ≡ true → not_after a c ≡ true
not_after_trans a b c h g = ground arith

All-not_after :
    (a b : PreparedSample) (rest : List PreparedSample)
    → not_after a b ≡ true
    → All (λ c. not_after b c ≡ true) rest
    → All (λ c. not_after a c ≡ true) rest
All-not_after a b [] h all = tt
All-not_after a b (c ∷ rest) h (now, later) =
    (not_after_trans a b c h now, All-not_after a b rest h later)

-- The two branches of an insertion.
insert_sample_here :
    (a b : PreparedSample) (bs : List PreparedSample)
    → not_after a b ≡ true
    → insert_sample a (b ∷ bs) ≡ a ∷ b ∷ bs
unfolding insert_sample
insert_sample_here a b bs h = ap (λ t. if t then a ∷ b ∷ bs else b ∷ insert_sample a bs) h

insert_sample_beyond :
    (a b : PreparedSample) (bs : List PreparedSample)
    → not_after a b ≡ false
    → insert_sample a (b ∷ bs) ≡ b ∷ insert_sample a bs
unfolding insert_sample
insert_sample_beyond a b bs h = ap (λ t. if t then a ∷ b ∷ bs else b ∷ insert_sample a bs) h

insert_sample-All :
    (P : PreparedSample → Type 0) (a : PreparedSample) (rest : List PreparedSample)
    → P a
    → All P rest
    → All P (insert_sample a rest)
unfolding insert_sample
insert_sample-All P a [] h all = (h, tt)
insert_sample-All P a (b ∷ bs) h (now, later) =
    let more = insert_sample-All P a bs h later in
    elim (Bool-cases (not_after a b)) [
      | inl here ↦ subst (All P) (sym (insert_sample_here a b bs here)) (h, (now, later))
      | inr beyond ↦ subst (All P) (sym (insert_sample_beyond a b bs beyond)) (now, more)
    ]

insert_sample-IsSorted :
    (a : PreparedSample) (rest : List PreparedSample)
    → IsSorted rest
    → IsSorted (insert_sample a rest)
unfolding insert_sample
insert_sample-IsSorted a [] sorted = (tt, tt)
insert_sample-IsSorted a (b ∷ bs) (now, later) =
    let more = insert_sample-IsSorted a bs later in
    elim (Bool-cases (not_after a b)) [
      | inl here ↦
          let front : IsSorted (a ∷ b ∷ bs) =
            ((here, All-not_after a b bs here now), (now, later)) in
          subst IsSorted (sym (insert_sample_here a b bs here)) front
      | inr beyond ↦
          let behind = not_after_total a b beyond in
          let back : IsSorted (b ∷ insert_sample a bs) =
            (insert_sample-All (λ c. not_after b c ≡ true) a bs behind now, more) in
          subst IsSorted (sym (insert_sample_beyond a b bs beyond)) back
    ]

pub sort_samples-IsSorted : (samples : List PreparedSample) → IsSorted (sort_samples samples)
unfolding sort_samples
sort_samples-IsSorted [] = tt
sort_samples-IsSorted (a ∷ rest) =
    insert_sample-IsSorted a (sort_samples rest) (sort_samples-IsSorted rest)

-- A sample not after any of the rest goes in front.
insert_sample_first :
    (a : PreparedSample) (rest : List PreparedSample)
    → All (λ b. not_after a b ≡ true) rest
    → insert_sample a rest ≡ a ∷ rest
unfolding insert_sample
insert_sample_first a [] h = refl
insert_sample_first a (b ∷ bs) (now, later) = insert_sample_here a b bs now

pub sort_samples_sorted :
    (samples : List PreparedSample) → IsSorted samples → sort_samples samples ≡ samples
unfolding sort_samples
sort_samples_sorted [] sorted = refl
sort_samples_sorted (a ∷ rest) (now, later) =
    ap (insert_sample a) (sort_samples_sorted rest later) ∙ insert_sample_first a rest now

module _ (test : PreparedSample → Bool) where
  filter_in :
      (a : PreparedSample) (rest : List PreparedSample)
      → test a ≡ true
      → filter test (a ∷ rest) ≡ a ∷ filter test rest
  filter_in a rest h = ap (λ t. if t then a ∷ filter test rest else filter test rest) h

  filter_out :
      (a : PreparedSample) (rest : List PreparedSample)
      → test a ≡ false
      → filter test (a ∷ rest) ≡ filter test rest
  filter_out a rest h = ap (λ t. if t then a ∷ filter test rest else filter test rest) h

  filter-All :
      (P : PreparedSample → Type 0) (rest : List PreparedSample)
      → All P rest
      → All P (filter test rest)
  filter-All P [] h = tt
  filter-All P (a ∷ rest) (now, later) =
      let more = filter-All P rest later in
      elim (Bool-cases (test a)) [
        | inl kept ↦ subst (All P) (sym (filter_in a rest kept)) (now, more)
        | inr dropped ↦ subst (All P) (sym (filter_out a rest dropped)) more
      ]

  filter-insert_sample_kept :
      (a : PreparedSample) (rest : List PreparedSample)
      → test a ≡ true
      → IsSorted rest
      → filter test (insert_sample a rest) ≡ insert_sample a (filter test rest)
  unfolding insert_sample
  filter-insert_sample_kept a [] kept sorted = filter_in a [] kept
  filter-insert_sample_kept a (b ∷ bs) kept (now, later) =
      let more = filter-insert_sample_kept a bs kept later in
      elim (Bool-cases (not_after a b)) [
        | inl here ↦
            let all =
              filter-All (λ c. not_after a c ≡ true) (b ∷ bs)
                (here, All-not_after a b bs here now) in
            ap (filter test) (insert_sample_here a b bs here)
            ∙ filter_in a (b ∷ bs) kept
            ∙ sym (insert_sample_first a (filter test (b ∷ bs)) all)
        | inr beyond ↦
            let moved = ap (filter test) (insert_sample_beyond a b bs beyond) in
            elim (Bool-cases (test b)) [
              | inl both ↦
                  moved
                  ∙ filter_in b (insert_sample a bs) both
                  ∙ ap (◌∷◌ b) more
                  ∙ sym (insert_sample_beyond a b (filter test bs) beyond)
                  ∙ ap (insert_sample a) (sym (filter_in b bs both))
              | inr one ↦
                  moved
                  ∙ filter_out b (insert_sample a bs) one
                  ∙ more
                  ∙ ap (insert_sample a) (sym (filter_out b bs one))
            ]
      ]

  filter-insert_sample_dropped :
      (a : PreparedSample) (rest : List PreparedSample)
      → test a ≡ false
      → filter test (insert_sample a rest) ≡ filter test rest
  unfolding insert_sample
  filter-insert_sample_dropped a [] dropped = filter_out a [] dropped
  filter-insert_sample_dropped a (b ∷ bs) dropped =
      let more = filter-insert_sample_dropped a bs dropped in
      elim (Bool-cases (not_after a b)) [
        | inl here ↦
            ap (filter test) (insert_sample_here a b bs here) ∙ filter_out a (b ∷ bs) dropped
        | inr beyond ↦
            ap (filter test) (insert_sample_beyond a b bs beyond)
            ∙ ap (λ rest. if test b then b ∷ rest else rest) more
      ]

  -- A stable sort and a filter commute.
  pub filter-sort_samples :
      (samples : List PreparedSample)
      → filter test (sort_samples samples) ≡ sort_samples (filter test samples)
  unfolding sort_samples
  filter-sort_samples [] = refl
  filter-sort_samples (a ∷ rest) =
      let more = filter-sort_samples rest in
      elim (Bool-cases (test a)) [
        | inl kept ↦
            filter-insert_sample_kept a (sort_samples rest) kept (sort_samples-IsSorted rest)
            ∙ ap (insert_sample a) more
            ∙ ap sort_samples (sym (filter_in a rest kept))
        | inr dropped ↦
            filter-insert_sample_dropped a (sort_samples rest) dropped
            ∙ more
            ∙ ap sort_samples (sym (filter_out a rest dropped))
      ]

insert_sample-length :
    (a : PreparedSample) (rest : List PreparedSample)
    → length (insert_sample a rest) ≡ suc (length rest)
unfolding insert_sample
insert_sample-length a [] = refl
insert_sample-length a (b ∷ bs) = ground (arith, insert_sample-length a bs)

pub sort_samples-length :
    (samples : List PreparedSample) → length (sort_samples samples) ≡ length samples
unfolding sort_samples
sort_samples-length [] = refl
sort_samples-length (a ∷ rest) =
    insert_sample-length a (sort_samples rest) ∙ ap suc (sort_samples-length rest)
