-- ===== src/FileCache/Coherence/Posts.antt =====
-- Coherence over the posts to the threads, a registration and a thread's tasks.
use text.Mathlib.TextEquality.{eq_iff}
use Prim.Native.String.{String}
use petrel.Prelude.{
  ℕ, ◌≡◌, refl, sym, ap, ◌∙◌, inl, inr, true, false, List, [], ◌∷◌, Option, none, some, ◌==◌,
  if◌then◌else◌, arith, member, member-append, Bool-cases,
}
use petrel.Maps.{lookup-assign}
use petrel.FileCache.{
  File, Files, Task, creates, resets, sets, erases, Cache, at, post, perform, find_local,
  register_io_service, post_file, set_file,
}
use petrel.FileCache.Threads.{
  effect, after, value, perform-effect, after-post_all, alive, exists, alive-post_all,
  post_all-other,
}
use petrel.FileCache.Coherence.{System, Coherent}

abbrev pub system : Cache → Option (String × File) → System
system c p = record { cache = c; pending = p }

value-idle :
    (s : System) (thread : ℕ) (n : String)
    → Coherent s
    → member thread s.cache.iosvcs ≡ false
    → value n thread s.cache ≡ none
value-idle s thread n v h = let (q, l) = v.idle thread h in rw (q, l) refl

value-post_file :
    (c : Cache) (name n : String) (f : File) (thread : ℕ)
    → value n thread (post_file name f c) ≡ (
        if member thread c.iosvcs
        then effect n (sets name f) (value n thread c)
        else value n thread c)
unfolding post_file
value-post_file c name n f thread =
    after-post_all n c.iosvcs (sets name f) c.queue thread (find_local n (c.file_map_local thread))

pub post_file-Coherent :
    (c : Cache) (name : String) (f : File)
    → Coherent (system c none)
    → Coherent (system (post_file name f c) (some (name, f)))
post_file-Coherent c name f v = record {
  agree = λ thread n g h. elim (Bool-cases (member thread c.iosvcs)) [
    | inl e ↦
        unfold post_file in ground (arith, value-post_file c name n f thread, v.agree thread n g)
    | inr e ↦
        absurd (
          ground
            (arith, value-post_file c name n f thread, value-idle (system c none) thread n v e))
  ];
  told = λ thread n g p h.
      unfold post_file in ground (arith, eq_iff name n, value-post_file c name n f thread);
  live = λ thread h.
      unfold post_file in
      alive-post_all c.iosvcs name f c.queue thread (exists (c.file_map_local thread))
        (v.live thread h);
  idle = λ thread h.
      unfold post_file in
      (
        post_all-other c.iosvcs (sets name f) c.queue thread h ∙ (v.idle thread h).0,
        (v.idle thread h).1,
      );
}

pub set_file-Coherent :
    (c : Cache) (name : String) (f : File)
    → Coherent (system c (some (name, f)))
    → Coherent (system (set_file name f c) none)
unfolding set_file
set_file-Coherent c name f v = record {
  agree = λ thread n g h. lookup-assign name n f c.file_map ∙ v.agree thread n g h;
  told = λ thread n g p h. absurd (ground arith);
  live = v.live;
  idle = v.idle;
}

pub register-Coherent :
    (c : Cache) (thread : ℕ)
    → Coherent (system c none)
    → member thread c.iosvcs ≡ false
    → Coherent (system (register_io_service thread c) none)
unfolding register_io_service post
register-Coherent c thread v new = record {
  agree = λ u n g h. ground (arith, v.agree u n g, v.idle thread new);
  told = λ u n g p h. absurd (ground arith);
  live = λ u h. ground (arith, member-append u c.iosvcs (thread ∷ []), v.idle thread new, v.live u);
  idle = λ u h. ground (arith, member-append u c.iosvcs (thread ∷ []), v.idle u);
}

alive-perform :
    (t : Task) (ts : List Task) (m m' : Option Files)
    → perform t m ≡ some m'
    → alive (exists m) (t ∷ ts) ≡ true
    → alive (exists m') ts ≡ true
alive-perform creates ts m m' e h = ground arith
alive-perform resets ts m m' e h = ground arith
alive-perform (sets n f) ts none m' e h = cc
alive-perform (sets n f) ts (some m) m' e h = ground arith
alive-perform (erases n) ts none m' e h = cc
alive-perform (erases n) ts (some m) m' e h = ground arith

-- The cache after a thread has run the first task of its queue.
abbrev pub ran : ℕ → List Task → Option Files → Cache → Cache
ran thread rest m c = record c {
  file_map_local = at c.file_map_local thread m;
  queue = at c.queue thread rest;
}

value-ran :
    (c : Cache) (thread u : ℕ) (n : String) (t : Task) (rest : List Task) (m : Option Files)
    → c.queue thread ≡ t ∷ rest
    → perform t (c.file_map_local thread) ≡ some m
    → value n u (ran thread rest m c) ≡ value n u c
value-ran c thread u n t rest m q e =
    let f = perform-effect n t (c.file_map_local thread) m e in
    elim (Bool-cases (thread == u)) [
      | inl same ↦
          let k : thread ≡ u = ground arith in
          rw same (
            ap (after n rest) f
            ∙ ap (λ ts. after n ts (find_local n (c.file_map_local thread))) (sym q)
            ∙ ap (λ w. value n w c) k)
      | inr other ↦ rw other refl
    ]

pub ran-Coherent :
    (c : Cache) (p : Option (String × File)) (thread : ℕ) (t : Task) (rest : List Task)
    (m : Option Files)
    → c.queue thread ≡ t ∷ rest
    → perform t (c.file_map_local thread) ≡ some m
    → Coherent (system c p)
    → Coherent (system (ran thread rest m c) p)
ran-Coherent c p thread t rest m q e v = record {
  agree = λ u n g h. v.agree u n g (sym (value-ran c thread u n t rest m q e) ∙ h);
  told = λ u n g r h. value-ran c thread u n t rest m q e ∙ v.told u n g r h;
  live = λ u h. ground (
    arith,
    v.live u h,
    alive-perform t rest (c.file_map_local thread) m e,
    ap (alive (exists (c.file_map_local thread))) q,
  );
  idle = λ u h. ground (arith, v.idle u h, q);
}

-- The cache after `get_file` has put a file of the main map into the thread's map.
