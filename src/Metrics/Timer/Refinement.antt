-- ===== src/Metrics/Timer/Refinement.antt =====
-- The timer against the samples that it was given: those since the last flush, and those of each of
-- the last six windows of ten ticks.
use petrel.Prelude.{
  ℕ, suc, ◌+◌, ◌-◌, ◌%◌, ◌≤◌, ◌<◌, ◌≡◌, refl, ap, inl, inr, List, [], ◌∷◌, ◌++◌, Option, none, some,
  ◌==◌, ltb, length, length-append, length-drop, drop, if◌then◌else◌, arith, Bool-cases,
}
use petrel.Metrics.Timer.{
  Histogram, Timer, new_timer, active, set_active, update, push_value, aggregate,
}
use petrel.Metrics.Timer.Distribution.{Describes, make_histogram-Describes}

pub data Call : Type 0 where
  sample : ℕ → Call
  tick : Call

-- What the timer stands for.
pub record Window : Type 0 where
  pub pending : List ℕ
  pub ticks : ℕ
  pub windows : List (List ℕ)

abbrev pub last_six : List (List ℕ) → List (List ℕ)
last_six ws = drop (length ws - 6) ws

abbrev pub step_window : Window → Call → Window
step_window w (sample time) = record w { pending = w.pending ++ time ∷ [] }
step_window w tick =
    if w.ticks == 9
    then record { pending = []; ticks = 0; windows = last_six (w.windows ++ w.pending ∷ []) }
    else record w { ticks = w.ticks + 1 }

abbrev pub run_window : Window → List Call → Window
run_window w [] = w
run_window w (c ∷ cs) = run_window (step_window w c) cs

abbrev pub no_samples : Window
no_samples = record { pending = []; ticks = 0; windows = [] }

module _ {D : Type 0} (zero_avg : D) (ratio : ℕ → ℕ → D) (one : ℕ) where
  -- `update` and `aggregate`, and a sequence of calls of them; `none` is a fault.
  abbrev pub step : Timer D → Call → Option (Timer D)
  step t (sample time) = some (update t time)
  step t tick = aggregate zero_avg ratio one t

  abbrev pub run : Timer D → List Call → Option (Timer D)
  run t [] = some t
  run t (c ∷ cs) = elim (step t c) [ none ↦ none | some t' ↦ run t' cs ]

module _ {D : Type 0} (ratio : ℕ → ℕ → D) (one : ℕ) where
  abbrev pub AllDescribe : ℕ → ℕ → List (List ℕ) → List (Histogram D) → Type 0
  AllDescribe n size [] [] = Unit
  AllDescribe n size [] (h ∷ hs) = ⊥
  AllDescribe n size (ts ∷ wss) [] = ⊥
  AllDescribe n size (ts ∷ wss) (h ∷ hs) =
      Describes ratio one n size ts h × AllDescribe n size wss hs

  pub record Refines (n size : ℕ) (t : Timer D) (w : Window) : Type 0 where
    pub same_bins : t.num_of_bins ≡ n
    pub same_size : t.bin_size ≡ size
    pub idx_bound : t.times_idx < 2
    pub pending_active : active t ≡ w.pending
    pub other_empty : (if t.times_idx == 0 then t.times_1 else t.times_0) ≡ []
    pub ticks_counter : t.aggregate_counter ≡ w.ticks
    pub ticks_bound : w.ticks < 10
    pub described : AllDescribe n size w.windows t.values
    pub few : length w.windows ≤ 6

  AllDescribe-length :
      (n size : ℕ) (wss : List (List ℕ)) (hs : List (Histogram D))
      → AllDescribe n size wss hs
      → length hs ≡ length wss
  AllDescribe-length n size [] [] d = refl
  AllDescribe-length n size [] (h ∷ hs) d = absurd d
  AllDescribe-length n size (ts ∷ wss) [] d = absurd d
  AllDescribe-length n size (ts ∷ wss) (h ∷ hs) d = ap suc (AllDescribe-length n size wss hs d.1)

  AllDescribe-append :
      (n size : ℕ) (wss : List (List ℕ)) (hs : List (Histogram D)) (ts : List ℕ) (h : Histogram D)
      → AllDescribe n size wss hs
      → Describes ratio one n size ts h
      → AllDescribe n size (wss ++ ts ∷ []) (hs ++ h ∷ [])
  AllDescribe-append n size [] [] ts h d e = (e, tt)
  AllDescribe-append n size [] (g ∷ hs) ts h d e = absurd d
  AllDescribe-append n size (us ∷ wss) [] ts h d e = absurd d
  AllDescribe-append n size (us ∷ wss) (g ∷ hs) ts h d e =
      (d.0, AllDescribe-append n size wss hs ts h d.1 e)

  AllDescribe-drop_one :
      (n size : ℕ) (wss : List (List ℕ)) (hs : List (Histogram D))
      → AllDescribe n size wss hs
      → AllDescribe n size (drop 1 wss) (drop 1 hs)
  AllDescribe-drop_one n size [] [] d = tt
  AllDescribe-drop_one n size [] (h ∷ hs) d = absurd d
  AllDescribe-drop_one n size (ts ∷ wss) [] d = absurd d
  AllDescribe-drop_one n size (ts ∷ wss) (h ∷ hs) d = d.1

  push_value-last_six :
      (n size : ℕ) (wss : List (List ℕ)) (hs : List (Histogram D)) (ts : List ℕ) (h : Histogram D)
      → length wss ≤ 6
      → AllDescribe n size wss hs
      → Describes ratio one n size ts h
      → AllDescribe n size (last_six (wss ++ ts ∷ [])) (push_value hs h)
  push_value-last_six n size wss hs ts h few d e =
      elim (Bool-cases (ltb 6 (length (hs ++ h ∷ [])))) [
        | inl over ↦
            let excess : length (wss ++ ts ∷ []) - 6 ≡ 1 = ground (arith, same, sizes) in
            rw (over, excess)
              (AllDescribe-drop_one n size (wss ++ ts ∷ []) (hs ++ h ∷ [])
                (AllDescribe-append n size wss hs ts h d e))
        | inr fits ↦
            let excess : length (wss ++ ts ∷ []) - 6 ≡ 0 = ground (arith, same, sizes) in
            rw (fits, excess) (AllDescribe-append n size wss hs ts h d e)
      ]
    where
      same : length hs ≡ length wss
      same = AllDescribe-length n size wss hs d

      sizes : (length (wss ++ ts ∷ []) ≡ length wss + 1) × (length (hs ++ h ∷ []) ≡ length hs + 1)
      sizes = (length-append wss (ts ∷ []), length-append hs (h ∷ []))

  length-last_six :
      (wss : List (List ℕ)) (ts : List ℕ) → length wss ≤ 6 → length (last_six (wss ++ ts ∷ [])) ≤ 6
  length-last_six wss ts few = omega (
    arith,
    length-drop (length (wss ++ ts ∷ []) - 6) (wss ++ ts ∷ []),
    length-append wss (ts ∷ []),
  )

  update-Refines :
      (n size : ℕ) (t : Timer D) (w : Window) (time : ℕ)
      → Refines n size t w
      → Refines n size (update t time) (step_window w (sample time))
  unfolding update
  update-Refines n size t w time r = record {
    same_bins = r.same_bins;
    same_size = r.same_size;
    idx_bound = r.idx_bound;
    pending_active = ground arith;
    other_empty = ground arith;
    ticks_counter = r.ticks_counter;
    ticks_bound = r.ticks_bound;
    described = r.described;
    few = r.few;
  }

module _ {D : Type 0} (zero_avg : D) (ratio : ℕ → ℕ → D) (one : ℕ) where
  flush-Refines :
      (n size : ℕ) (t : Timer D) (w : Window)
      → Refines ratio one n size t w
      → w.ticks ≡ 9
      → (t' : Timer D) × (aggregate zero_avg ratio one t ≡ some t')
        × Refines ratio one n size t' (step_window w tick)
  unfolding aggregate
  flush-Refines n size t w r e =
      let (h, done, describes) =
        make_histogram-Describes zero_avg ratio one t.num_of_bins t.bin_size (active t) in
      let described : Describes ratio one n size w.pending h =
        rw (← r.same_bins, ← r.same_size, ← r.pending_active) describes in
      (
        record (set_active t []) {
          times_idx = (t.times_idx + 1) % 2;
          values = push_value t.values h;
          aggregate_counter = 0;
        },
        ground (arith, done),
        rw e (record {
          same_bins = r.same_bins;
          same_size = r.same_size;
          idx_bound = omega arith;
          pending_active = ground arith;
          other_empty = ground arith;
          ticks_counter = refl;
          ticks_bound = omega arith;
          described =
              push_value-last_six ratio one n size w.windows t.values w.pending h r.few r.described
                described;
          few = length-last_six ratio one w.windows w.pending r.few;
        }),
      )

  -- Every call of `update` or `aggregate` succeeds.
  step-Refines :
      (n size : ℕ) (t : Timer D) (w : Window) (c : Call)
      → Refines ratio one n size t w
      → (t' : Timer D) × (step zero_avg ratio one t c ≡ some t')
        × Refines ratio one n size t' (step_window w c)
  unfolding aggregate
  step-Refines n size t w (sample time) r =
      (update t time, refl, update-Refines ratio one n size t w time r)
  step-Refines n size t w tick r = elim (Bool-cases (w.ticks == 9)) [
    | inl last ↦ flush-Refines n size t w r (ground arith)
    | inr early ↦ (
      record t { aggregate_counter = t.aggregate_counter + 1 },
      ground arith,
      rw early (record {
        same_bins = r.same_bins;
        same_size = r.same_size;
        idx_bound = r.idx_bound;
        pending_active = r.pending_active;
        other_empty = r.other_empty;
        ticks_counter = ground arith;
        ticks_bound = ground arith;
        described = r.described;
        few = r.few;
      }),
    )
  ]

  run-Refines :
      (n size : ℕ) (t : Timer D) (w : Window) (cs : List Call)
      → Refines ratio one n size t w
      → (t' : Timer D) × (run zero_avg ratio one t cs ≡ some t')
        × Refines ratio one n size t' (run_window w cs)
  run-Refines n size t w [] r = (t, refl, r)
  run-Refines n size t w (c ∷ cs) r =
      let (t₁, stepped, r₁) = step-Refines n size t w c r in
      let (t₂, ran, r₂) = run-Refines n size t₁ (step_window w c) cs r₁ in
      (t₂, rw (stepped, run) ran, r₂)

  pub run-new_timer-Refines :
      (n size : ℕ) (cs : List Call)
      → (t : Timer D) × (run zero_avg ratio one (new_timer n size) cs ≡ some t)
        × Refines ratio one n size t (run_window no_samples cs)
  unfolding new_timer
  run-new_timer-Refines n size cs = run-Refines n size (new_timer n size) no_samples cs (record {
    same_bins = refl;
    same_size = refl;
    idx_bound = omega arith;
    pending_active = refl;
    other_empty = refl;
    ticks_counter = refl;
    ticks_bound = omega arith;
    described = tt;
    few = omega arith;
  })
