-- ===== src/Metrics/Timer/Minute.antt =====
-- The aggregated histogram of the last minute against the samples of the kept windows.
use petrel.Prelude.{
  ℕ, ◌+◌, ◌≡◌, refl, ◌∙◌, inl, inr, List, [], ◌∷◌, ◌++◌, some, ltb, arith, Bool-cases,
}
use petrel.Metrics.Timer.{
  Histogram, Timer, new_timer, merge_all, new_histogram, get_1min_histogram, with_avg,
}
use petrel.Metrics.Timer.Distribution.{length-bins, bin_count-bins}
use petrel.Metrics.Timer.Refinement.{
  Call, Window, Refines, run, run_window, no_samples, run-new_timer-Refines,
}
use petrel.Metrics.Timer.Covers.{samples, Covers, HasIdle, merge_all-Covers}

module _ {D : Type 0} (zero_avg : D) (ratio : ℕ → ℕ → D) (one double_max n size : ℕ) (t : Timer D)
    (w : Window) where
  new-Covers : (m : ℕ) → Covers one n size [] (record (new_histogram zero_avg n size) { min = m })
  unfolding new_histogram
  new-Covers m = record {
    total = refl;
    counted = refl;
    bins_length = length-bins (n + 1) 0 size;
    bins_count = λ clear j h. bin_count-bins (n + 1) 0 size j;
    none_below = refl;
    none_above = refl;
  }

  with_avg-Covers :
      (ts : List ℕ) (h : Histogram D)
      → Covers one n size ts h
      → ((with_avg zero_avg ratio one h).min ≡ h.min)
        × Covers one n size ts (with_avg zero_avg ratio one h)
  with_avg-Covers ts h c = elim (Bool-cases (ltb 0 h.count)) [
    | inl some_samples ↦ rw some_samples (
      refl,
      record {
        total = c.total;
        counted = c.counted;
        bins_length = c.bins_length;
        bins_count = c.bins_count;
        none_below = c.none_below;
        none_above = c.none_above;
      },
    )
    | inr no_samples ↦ rw no_samples (refl, c)
  ]

  get_1min-none :
      t.values ≡ []
      → t.num_of_bins ≡ n
      → t.bin_size ≡ size
      → get_1min_histogram zero_avg ratio one double_max t ≡ some (new_histogram zero_avg n size)
  unfolding get_1min_histogram
  get_1min-none f b s = rw (f, b, s)

  get_1min-some :
      (g : Histogram D) (hs : List (Histogram D)) (h : Histogram D)
      → t.values ≡ g ∷ hs
      → t.num_of_bins ≡ n
      → t.bin_size ≡ size
      → merge_all n (g ∷ hs) (record (new_histogram zero_avg n size) { min = double_max }) ≡ some h
      → get_1min_histogram zero_avg ratio one double_max t ≡ some (with_avg zero_avg ratio one h)
  unfolding get_1min_histogram
  get_1min-some g hs h f b s merged = rw (f, b, s, merged) (ground arith)

  minute-Covers-cases :
      (wss : List (List ℕ)) (hs : List (Histogram D))
      → Refines ratio one n size t w
      → w.windows ≡ wss
      → t.values ≡ hs
      → (h : Histogram D) × (get_1min_histogram zero_avg ratio one double_max t ≡ some h)
        × Covers one n size (samples wss) h
        × (HasIdle wss → h.min ≡ 0)
  unfolding get_1min_histogram
  minute-Covers-cases [] [] r e f = (
    new_histogram zero_avg n size,
    get_1min-none f r.same_bins r.same_size,
    unfold new_histogram in new-Covers 0,
    λ none. absurd none,
  )
  minute-Covers-cases [] (g ∷ hs) r e f = absurd (rw (e, f) at r.described)
  minute-Covers-cases (ts ∷ wss) [] r e f = absurd (rw (e, f) at r.described)
  minute-Covers-cases (ts ∷ wss) (g ∷ hs) r e f =
      let start : Histogram D = record (new_histogram zero_avg n size) { min = double_max } in
      let (h, merged, covers, zero_min) =
        merge_all-Covers ratio one n size [] (ts ∷ wss) start (g ∷ hs) (new-Covers double_max)
          (rw (e, f) at r.described) in
      let (same_min, done) = with_avg-Covers (ts ++ samples wss) h covers in
      (
        with_avg zero_avg ratio one h,
        get_1min-some g hs h f r.same_bins r.same_size merged,
        done,
        λ idle. same_min ∙ zero_min (inr idle),
      )

module _ {D : Type 0} (zero_avg : D) (ratio : ℕ → ℕ → D) (one double_max n size : ℕ)
    (cs : List Call) where
  -- If no sample was negative and one of the windows that are kept has no sample, the minimum of the
  -- last minute is 0, whatever the samples of the other windows are.
  pub get_1min_histogram-idle_min :
      HasIdle (run_window no_samples cs).windows
      → (t : Timer D) × (run zero_avg ratio one (new_timer n size) cs ≡ some t)
        × (h : Histogram D) × (get_1min_histogram zero_avg ratio one double_max t ≡ some h)
        × (h.min ≡ 0)
  get_1min_histogram-idle_min idle =
      let (t, ran, r) = run-new_timer-Refines zero_avg ratio one n size cs in
      let w = run_window no_samples cs in
      let (h, done, covers, zero_min) =
        minute-Covers-cases zero_avg ratio one double_max n size t w w.windows t.values r refl
          refl in
      (t, ran, h, done, zero_min idle)
