-- ===== src/Metrics/Timer/Bins.antt =====
-- The loop that distributes sorted samples over the bins, against the numbers of samples in their
-- ranges.
use petrel.Prelude.{
  ℕ, zero, suc, ◌+◌, ◌*◌, ◌≤◌, ◌<◌, ◌≡◌, refl, ◌⊎◌, inl, inr, Bool, true, ◌&&◌, ◌||◌, List, [], ◌∷◌,
  some, ◌==◌, ltb, leb, ◌∙◌, length, if◌then◌else◌, arith, Bool-cases,
}
use petrel.Metrics.Timer.{update_bin, next_bin, distribute}
use petrel.Metrics.Timer.Sort.{AllFrom, AllFrom-mono, IsSorted, count_if}

abbrev pub bin_count : List (ℕ × ℕ) → ℕ → ℕ
bin_count [] j = 0
bin_count ((lower, n) ∷ dist) zero = n
bin_count ((lower, n) ∷ dist) (suc j) = bin_count dist j

abbrev pub lowers : List (ℕ × ℕ) → List ℕ
lowers [] = []
lowers ((lower, n) ∷ dist) = lower ∷ lowers dist

-- `to` is `from` with `added j` more samples in each bin `j`.
pub record Added (added : ℕ → ℕ) (from to : List (ℕ × ℕ)) : Type 0 where
  pub same_length : length to ≡ length from
  pub same_lowers : lowers to ≡ lowers from
  pub counts : (j : ℕ) → j < length from → bin_count to j ≡ added j + bin_count from j

abbrev pub only : ℕ → ℕ → ℕ → ℕ
only i count j = if j == i then count else 0

pub update_bin-Added :
    (dist : List (ℕ × ℕ)) (i count : ℕ)
    → i < length dist
    → (dist' : List (ℕ × ℕ)) × (update_bin dist i count ≡ some dist')
      × Added (only i count) dist dist'
unfolding update_bin
update_bin-Added [] i count h = elim h [ ]
update_bin-Added ((lower, n) ∷ dist) zero count h = (
  (lower, n + count) ∷ dist,
  refl,
  record {
    same_length = refl;
    same_lowers = refl;
    counts = elim [ zero ↦ λ l. omega arith | suc j ↦ λ l. ground arith ];
  },
)
update_bin-Added ((lower, n) ∷ dist) (suc i) count h =
    let (dist', done, a) = update_bin-Added dist i count (omega arith) in
    (
      (lower, n) ∷ dist',
      rw done,
      record {
        same_length = omega (arith, a.same_length);
        same_lowers = rw (a.same_lowers);
        counts = elim [ zero ↦ λ l. ground arith | suc j ↦ λ l. ground (arith, a.counts j) ];
      },
    )

-- The range of bin `j`: above `j * bin_size` but for the first bin, and up to
-- `(j + 1) * bin_size` but for the last one.
abbrev pub in_bin : ℕ → ℕ → ℕ → ℕ → Bool
in_bin num_of_bins bin_size j t =
    (j == 0 || ltb (j * bin_size) t) && (j == num_of_bins || leb t ((j + 1) * bin_size))

-- A position `(i, upper)` of the loop that fits the sample `d`.
record Fits (num_of_bins bin_size d i upper : ℕ) : Type 0 where
  bounded : i ≤ num_of_bins
  at_upper : upper ≡ (i + 1) * bin_size
  above : (i ≡ 0) ⊎ (i * bin_size < d)
  within : (i ≡ num_of_bins) ⊎ (d ≤ upper)

module _ (num_of_bins bin_size : ℕ) where
  mul_mono : (a b : ℕ) → a ≤ b → a * bin_size ≤ b * bin_size
  mul_mono a b h = grind arith

  -- A sample is in no other bin than the one that fits it.
  in_bin-Fits :
      (d i upper j : ℕ)
      → Fits num_of_bins bin_size d i upper
      → j ≤ num_of_bins
      → in_bin num_of_bins bin_size j d ≡ (j == i)
  in_bin-Fits d i upper j f h = ground (arith, mul_mono (j + 1) i, mul_mono (i + 1) j)

  next_bin-Fits :
      (fuel d i upper : ℕ)
      → num_of_bins ≤ fuel + i
      → i ≤ num_of_bins
      → upper ≡ (i + 1) * bin_size
      → (i ≡ 0) ⊎ (i * bin_size < d)
      → Fits num_of_bins bin_size d
          (next_bin num_of_bins bin_size fuel d i upper).0
          (next_bin num_of_bins bin_size fuel d i upper).1
  unfolding next_bin
  next_bin-Fits zero d i upper e b u a = ground arith
  next_bin-Fits (suc fuel) d i upper e b u a =
      elim (Bool-cases (ltb upper d && ltb i num_of_bins)) [
        | inl more ↦ rw more (
            next_bin-Fits fuel d (i + 1) (upper + bin_size) (omega arith) (ground arith)
              (omega arith) (ground arith))
        | inr stop ↦ rw stop (ground arith)
      ]

pub Added-trans :
    (f g : ℕ → ℕ) (a b c : List (ℕ × ℕ)) → Added f a b → Added g b c → Added (λ j. g j + f j) a c
Added-trans f g a b c p q = record {
  same_length = q.same_length ∙ p.same_length;
  same_lowers = q.same_lowers ∙ p.same_lowers;
  counts = λ j h. omega (arith, p.counts j h, q.counts j (omega (arith, p.same_length)));
}

pub Added-congr :
    (f g : ℕ → ℕ) (a b : List (ℕ × ℕ))
    → ((j : ℕ) → j < length a → f j ≡ g j)
    → Added f a b
    → Added g a b
Added-congr f g a b e p = record {
  same_length = p.same_length;
  same_lowers = p.same_lowers;
  counts = λ j h. omega (arith, e j h, p.counts j h);
}

-- No sample is strictly between a multiple of `bin_size` and 1.0 above it.
abbrev pub IsClear : ℕ → ℕ → List ℕ → Type 0
IsClear one bin_size ts =
    (k : ℕ) → count_if (λ t. ltb (k * bin_size) t && ltb t (k * bin_size + one)) ts ≡ 0

module _ (one num_of_bins bin_size : ℕ) where
  -- What the rest of the loop adds to bin `j` if the samples are clear.
  abbrev pending : List ℕ → ℕ → ℕ → ℕ → ℕ
  pending data' count i j = only i count j + count_if (in_bin num_of_bins bin_size j) data'

  pub distribute-Added :
      (data' : List ℕ) (count i upper : ℕ) (dist : List (ℕ × ℕ))
      → IsSorted data'
      → i ≤ num_of_bins
      → upper ≡ (i + 1) * bin_size
      → (i ≡ 0) ⊎ AllFrom (i * bin_size + 1) data'
      → length dist ≡ num_of_bins + 1
      → (dist' : List (ℕ × ℕ)) × (distribute one num_of_bins bin_size data' count i upper dist
          ≡ some dist')
        × (added : ℕ → ℕ) × Added added dist dist'
        × (IsClear one bin_size data'
            → (j : ℕ) → j < length dist
            → added j ≡ pending data' count i j)
  unfolding distribute
  distribute-Added [] count i upper dist s b u a l =
      let (dist', done, p) = update_bin-Added dist i count (omega arith) in
      (dist', done, only i count, p, λ clear j h. omega arith)
  distribute-Added (d ∷ ds) count i upper dist s b u a l =
      elim (Bool-cases (ltb d (upper + one) || i == num_of_bins)) [
        | inl here ↦
            let (dist', done, f, p, e) =
              distribute-Added ds (count + 1) i upper dist s.1 b u (later ds i s.0 (ground arith))
                l in
            (
              dist',
              rw (here, distribute) done,
              f,
              p,
              λ clear j h. ground (
                arith,
                in_bin-Fits num_of_bins bin_size d i upper j (within clear here),
                e (rest_clear clear) j h,
              ),
            )
        | inr past ↦
            let (i', upper') = next_bin num_of_bins bin_size num_of_bins d i upper in
            let fits : Fits num_of_bins bin_size d i' upper' =
              next_bin-Fits num_of_bins bin_size num_of_bins d i upper (omega arith) b u
                (ground arith) in
            let (dist₁, first, p) = update_bin-Added dist i count (omega arith) in
            let (dist₂, rest, f, q, e) =
              distribute-Added ds 1 i' upper' dist₁ s.1 fits.bounded fits.at_upper
                (later ds i' s.0 fits.above) (p.same_length ∙ l) in
            (
              dist₂,
              rw (past, first, distribute) rest,
              (λ j. f j + only i count j),
              Added-trans (only i count) f dist dist₁ dist₂ p q,
              λ clear j h. ground (
                arith,
                in_bin-Fits num_of_bins bin_size d i' upper' j fits,
                e (rest_clear clear) j (omega (arith, p.same_length)),
              ),
            )
      ]
    where
      rest_clear : IsClear one bin_size (d ∷ ds) → IsClear one bin_size ds
      rest_clear clear k = omega (arith, clear k)

      within :
          IsClear one bin_size (d ∷ ds)
          → (ltb d (upper + one) || i == num_of_bins) ≡ true
          → Fits num_of_bins bin_size d i upper
      within clear here = ground (arith, clear (i + 1))

      later :
          (ds' : List ℕ) (k : ℕ)
          → AllFrom d ds'
          → (k ≡ 0) ⊎ (k * bin_size < d)
          → (k ≡ 0) ⊎ AllFrom (k * bin_size + 1) ds'
      later ds' k h (inl e) = inl e
      later ds' k h (inr lt) = inr (AllFrom-mono (k * bin_size + 1) d ds' (omega arith) h)
