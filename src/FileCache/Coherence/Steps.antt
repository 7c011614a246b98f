-- ===== src/FileCache/Coherence/Steps.antt =====
-- Coherence over `get_file` and over any event.
use text.Mathlib.Text.{◌==◌ as str_eq}
use text.Mathlib.TextEquality.{eq_iff}
use Prim.Native.String.{String}
use mathlib.Core.Path.{subst}
use mathlib.Core.Option.{some-injective}
use petrel.Prelude.{
  ℕ, ◌≡◌, refl, sym, ◌∙◌, inl, inr, true, List, [], ◌∷◌, Option, none, some, ◌==◌, ◌&&◌,
  if◌then◌else◌, arith, member, Option-cases, Bool-cases,
}
use petrel.Maps.{lookup, assign, lookup-assign}
use petrel.FileCache.{
  File, Files, Task, Cache, at, perform, perform_next, run_task, find_local, get_file,
  get_file_main,
}
use petrel.FileCache.Threads.{after, value, after-cases}
use petrel.FileCache.Coherence.{
  System, Event, posts, finishes, registers, runs, gets, step, latest, Coherent,
}
use petrel.FileCache.Coherence.Posts.{
  post_file-Coherent, ran, ran-Coherent, register-Coherent, set_file-Coherent, system,
}

abbrev pub got : ℕ → String → Files → File → Cache → Cache
got thread n m f c = record c { file_map_local = at c.file_map_local thread (some (assign n f m)) }

value-got :
    (c : Cache) (thread u : ℕ) (n k : String) (m : Files) (f : File)
    → c.file_map_local thread ≡ some m
    → lookup n m ≡ none
    → value k u (got thread n m f c)
      ≡ (if thread == u && str_eq n k then after n (c.queue thread) (some f) else value k u c)
value-got c thread u n k m f l h = ground (arith, eq_iff n k, lookup-assign n k f m)

-- What `agree` needs for the name that `get_file` looked up.
got-latest :
    (c : Cache) (p : Option (String × File)) (thread : ℕ) (n : String) (m : Files) (f g : File)
    → Coherent (system c p)
    → c.file_map_local thread ≡ some m
    → lookup n m ≡ none
    → lookup n c.file_map ≡ some f
    → after n (c.queue thread) (some f) ≡ some g
    → latest n c.file_map p ≡ some g
got-latest c p thread n m f g v l h k e = elim (after-cases n (c.queue thread)) [
  | inl same ↦
      v.agree thread n g
        (ground (arith, same (some f), same (find_local n (c.file_map_local thread))))
  | inr kept ↦ elim (Bool-cases (member thread c.iosvcs)) [
    | inl registered ↦
        untold p refl (kept (some f)) (kept (find_local n (c.file_map_local thread))) registered
    | inr other ↦ absurd (ground (arith, v.idle thread other))
  ]
]
  where
    untold :
        (r : Option (String × File))
        → p ≡ r
        → after n (c.queue thread) (some f) ≡ some f
        → value n thread c ≡ find_local n (c.file_map_local thread)
        → member thread c.iosvcs ≡ true
        → latest n c.file_map p ≡ some g
    untold none q a b registered = ground arith
    untold (some (i, j)) q a b registered =
        ground (arith, eq_iff i n, v.told thread i j q registered)

got-Coherent :
    (c : Cache) (p : Option (String × File)) (thread : ℕ) (n : String) (m : Files) (f : File)
    → c.file_map_local thread ≡ some m
    → lookup n m ≡ none
    → lookup n c.file_map ≡ some f
    → Coherent (system c p)
    → Coherent (system (got thread n m f c) p)
got-Coherent c p thread n m f l h k v = record {
  agree = λ u i g e. ground (
    arith,
    eq_iff n i,
    value-got c thread u n i m f l h,
    got-latest c p thread n m f g v l h k,
    v.agree u i g,
  );
  told = λ u i g r e. elim (after-cases n (c.queue thread)) [
    | inl same ↦ ground (
      arith,
      eq_iff n i,
      value-got c thread u n i m f l h,
      v.told u i g r e,
      same (some f),
      same (find_local n (c.file_map_local thread)),
    )
    | inr kept ↦ ground (
      arith,
      eq_iff n i,
      value-got c thread u n i m f l h,
      v.told u i g r e,
      kept (find_local n (c.file_map_local thread)),
    )
  ];
  live = λ u e. ground (arith, v.live u e);
  idle = λ u e. ground (arith, v.idle u e);
}

run-Coherent_cases :
    (c c' : Cache) (p : Option (String × File)) (thread : ℕ) (q : List Task)
    → c.queue thread ≡ q
    → perform_next thread q c ≡ some c'
    → Coherent (system c p)
    → Coherent (system c' p)
run-Coherent_cases c c' p thread [] e h v =
    subst (λ k. Coherent (system k p)) (some-injective _ _ h) v
run-Coherent_cases c c' p thread (t ∷ rest) e h v =
    elim (Option-cases (perform t (c.file_map_local thread))) [
      | inl faults ↦ absurd (ground arith)
      | inr (m, works) ↦
          let k : ran thread rest m c ≡ c' =
            some-injective _ _ (sym (rw (works, perform_next) refl) ∙ h) in
          subst (λ k. Coherent (system k p)) k (ran-Coherent c p thread t rest m e works v)
    ]

get_file-Coherent :
    (c : Cache) (p : Option (String × File)) (thread : ℕ) (n : String)
    → Coherent (system c p)
    → Coherent (system (get_file thread n c).0 p)
unfolding get_file get_file_main
get_file-Coherent c p thread n v = go (c.file_map_local thread) refl
  where
    go :
        (l : Option Files)
        → c.file_map_local thread ≡ l
        → Coherent (system (get_file thread n c).0 p)
    go none l = rw (l, get_file, l) v
    go (some m) l = elim (Option-cases (lookup n m)) [
      | inr (f, there) ↦ rw (l, there, get_file) v
      | inl absent ↦ elim (Option-cases (lookup n c.file_map)) [
        | inl k ↦ rw (l, absent, get_file, k, l) v
        | inr (f, k) ↦ rw (l, absent, get_file, k, l) (got-Coherent c p thread n m f l absent k v)
      ]
    ]

pub step-Coherent : (s s' : System) (e : Event) → Coherent s → step s e ≡ some s' → Coherent s'
unfolding step
step-Coherent s s' e v h = go s.cache s.pending e v h
  where
    done : {k : System} → Coherent k → some k ≡ some s' → Coherent s'
    done v h = subst Coherent (some-injective _ _ h) v

    go :
        (c : Cache) (p : Option (String × File)) (e : Event)
        → Coherent (system c p)
        → step (system c p) e ≡ some s'
        → Coherent s'
    go c none (posts name f) v h = done (post_file-Coherent c name f v) h
    go c (some p) (posts name f) v h = absurd (ground arith)
    go c none finishes v h = absurd (ground arith)
    go c (some (name, f)) finishes v h = done (set_file-Coherent c name f v) h
    go c none (registers thread) v h = elim (Bool-cases (member thread c.iosvcs)) [
      | inl there ↦ absurd (ground arith)
      | inr new ↦ done (register-Coherent c thread v new) (sym (rw new refl) ∙ h)
    ]
    go c (some p) (registers thread) v h = absurd (ground arith)
    go c p (runs thread) v h = elim (Option-cases (run_task thread c)) [
      | inl faults ↦ absurd (ground arith)
      | inr (c', works) ↦
          done (run-Coherent_cases c c' p thread (c.queue thread) refl (unfold run_task in works) v)
            (sym (rw works refl) ∙ h)
    ]
    go c p (gets thread name) v h = done (get_file-Coherent c p thread name v) h
