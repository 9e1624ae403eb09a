-- ===== src/AudioSync/Samples/Lengths.antt =====
-- The lengths of what the loops over samples return.
use Prim.Native.Nat.{ℕ, zero, suc}
use silk_studio.Prelude.{
  ◌+◌, ◌-◌, ◌*◌, ◌≤◌, ◌<◌, min, Bool-cases, inl, inr, ◌≡◌, refl, subst, false, List, [], ◌∷◌, ◌++◌,
  Option, none, some, arith, length, take, drop, get_elem?, length-append, length-take, length-drop,
  ltb, ◌==◌,
}
use native.Mathlib.Nat.{suc-mul}
use silk_studio.AudioSync.Frame.{SampleFormat, SampleOps, bytes_per_sample}
use silk_studio.AudioSync.Samples.{
  collect, ◌>>=?◌, decode_chunks, convert_frame, convert_frames, convert_channels,
}

-- A list of a given length, without a panic.
abbrev pub Yields : {A : Type 0} → ℕ → Option (List A) → Type 0
Yields n none = ⊥
Yields n (some xs) = length xs ≡ n

pub get_elem?-some :
    {A : Type 0} (xs : List A) (i : ℕ) → i < length xs → (x : A) × (get_elem? xs i ≡ some x)
get_elem?-some [] i h = absurd (omega arith)
get_elem?-some (x ∷ xs) zero h = (x, refl)
get_elem?-some (x ∷ xs) (suc i) h = get_elem?-some xs i (omega arith)

append-Yields :
    {A : Type 0} (m n : ℕ) (front back : Option (List A))
    → Yields m front
    → Yields n back
    → Yields (m + n) (front >>=? λ xs. back >>=? λ ys. some (xs ++ ys))
append-Yields m n none back h k = absurd h
append-Yields m n (some xs) none h k = absurd k
append-Yields m n (some xs) (some ys) h k = omega (arith, length-append xs ys, h, k)

-- A loop whose rounds yield lists of one length.
pub collect-Yields :
    {A : Type 0} (n : ℕ) (round : ℕ → Option (List A)) (index count : ℕ)
    → ((i : ℕ) → index ≤ i → i < index + count → Yields n (round i))
    → Yields (count * n) (collect round index count)
collect-Yields n round index zero h = omega arith
collect-Yields n round index (suc count) h =
    let later : Yields (count * n) (collect round (suc index) count) =
      collect-Yields n round (suc index) count (λ i lo hi. h i (omega arith) (omega arith)) in
    let total : n + count * n ≡ suc count * n = omega arith in
    subst (λ k. Yields k (collect round index (suc count))) total
      (append-Yields n (count * n) (round index) (collect round (suc index) count)
        (h index (omega arith) (omega arith)) later)

-- A round that yields what an index finds.
pub found-Yields :
    {A B : Type 0} (xs : List A) (i : ℕ) (f : A → B)
    → i < length xs
    → Yields 1 (get_elem? xs i >>=? λ x. some (f x ∷ []))
found-Yields xs i f h = let (x, e) = get_elem?-some xs i h in rw e refl

module _ {F : Type 0} (ops : SampleOps F) where
  pub length-decode_chunks :
      (format : SampleFormat) (count : ℕ) (bytes : List ℕ)
      → length (decode_chunks ops format count bytes) ≡ count
  length-decode_chunks format zero bytes = refl
  length-decode_chunks format (suc count) bytes =
      omega (arith, length-decode_chunks format count (drop (bytes_per_sample format) bytes))

  convert_frame-Yields :
      (source target : ℕ) (frame : List F)
      → 1 ≤ source
      → length frame ≡ source
      → Yields target (convert_frame ops source target frame)
  unfolding convert_frame
  convert_frame-Yields source target frame pos_source len = elim (Bool-cases (target == 1)) [
    | inl one ↦ rw one (ground arith)
    | inr more ↦
        let each =
          collect-Yields 1
            (λ channel. get_elem? frame (min channel (source - 1)) >>=? λ x. some (x ∷ [])) 0 target
            (λ i lo hi. found-Yields frame (min i (source - 1)) (λ x. x) (ground arith)) in
        let total : target * 1 ≡ target = omega arith in
        rw more (
          subst
            (λ k. Yields k (
              collect
                (λ channel. get_elem? frame (min channel (source - 1)) >>=? λ x. some (x ∷ [])) 0
                target))
            total each)
  ]

  convert_frames-Yields :
      (source target frames : ℕ) (samples : List F)
      → 1 ≤ source
      → length samples ≡ frames * source
      → Yields (frames * target) (convert_frames ops source target frames samples)
  unfolding convert_frames
  convert_frames-Yields source target zero samples pos_source len = omega arith
  convert_frames-Yields source target (suc frames) samples pos_source len =
      let enough : ltb (length samples) source ≡ false = ground (arith, suc-mul frames source) in
      let here =
        convert_frame-Yields source target (take source samples) pos_source
          (length-take source samples (omega (arith, suc-mul frames source))) in
      let later =
        convert_frames-Yields source target frames (drop source samples) pos_source
          (omega (arith, length-drop source samples, suc-mul frames source)) in
      let total : target + frames * target ≡ suc frames * target = omega arith in
      rw enough (
        subst
          (λ k. Yields k (
            convert_frame ops source target (take source samples) >>=? λ front.
            convert_frames ops source target frames (drop source samples) >>=? λ back.
            some (front ++ back)))
          total
          (append-Yields target (frames * target)
            (convert_frame ops source target (take source samples))
            (convert_frames ops source target frames (drop source samples)) here later))

  -- The channels of whole frames are converted without a panic, each frame to the target's width.
  pub convert_channels-Yields :
      (samples : List F) (frames source target : ℕ)
      → 1 ≤ source
      → length samples ≡ frames * source
      → Yields (frames * target) (convert_channels ops samples frames source target)
  unfolding convert_channels
  convert_channels-Yields samples frames source target pos_source len =
      elim (Bool-cases (source == target)) [
        | inl same ↦
            let e : source ≡ target = ground arith in
            rw same (subst (λ t. length samples ≡ frames * t) e len)
        | inr other ↦
            let nonzero : (source == 0) ≡ false = ground arith in
            rw (other, nonzero) (convert_frames-Yields source target frames samples pos_source len)
      ]
