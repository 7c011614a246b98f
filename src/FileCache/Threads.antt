-- ===== src/FileCache/Threads.antt =====
-- What a thread's map will have under a name once the tasks in the thread's queue have run.
use text.Mathlib.Text.{◌==◌ as str_eq}
use Prim.Native.String.{String}
use petrel.Prelude.{
  ℕ, ◌≡◌, refl, sym, ap, ◌∙◌, ◌⊎◌, inl, inr, Bool, true, false, List, [], ◌∷◌, ◌++◌, Option, none,
  some, if◌then◌else◌, arith, member, Bool-cases,
}
use mathlib.Core.Option.{some-injective}
use petrel.Maps.{lookup, lookup-assign, lookup-erase}
use petrel.FileCache.{
  File, Files, Task, creates, resets, sets, erases, Cache, post, post_all, perform, find_local,
}

abbrev pub effect : String → Task → Option File → Option File
effect n creates v = none
effect n resets v = none
effect n (sets m f) v = if str_eq m n then some f else v
effect n (erases m) v = if str_eq m n then none else v

abbrev pub after : String → List Task → Option File → Option File
after n [] v = v
after n (t ∷ ts) v = after n ts (effect n t v)

abbrev pub value : String → ℕ → Cache → Option File
value n thread c = after n (c.queue thread) (find_local n (c.file_map_local thread))

effect_twice : (n : String) (t : Task) (v : Option File) → effect n t (effect n t v) ≡ effect n t v
effect_twice n creates v = refl
effect_twice n resets v = refl
effect_twice n (sets m f) v = ground arith
effect_twice n (erases m) v = ground arith

pub after-append :
    (n : String) (ts us : List Task) (v : Option File)
    → after n (ts ++ us) v ≡ after n us (after n ts v)
after-append n [] us v = refl
after-append n (t ∷ ts) us v = after-append n ts us (effect n t v)

effect-cases :
    (n : String) (t : Task)
    → ((v : Option File) → effect n t v ≡ effect n t none) ⊎ ((v : Option File) → effect n t v ≡ v)
effect-cases n creates = inl λ v. refl
effect-cases n resets = inl λ v. refl
effect-cases n (sets m f) = elim (Bool-cases (str_eq m n)) [
  | inl e ↦ inl λ v. rw e refl
  | inr e ↦ inr λ v. rw e refl
]
effect-cases n (erases m) = elim (Bool-cases (str_eq m n)) [
  | inl e ↦ inl λ v. rw e refl
  | inr e ↦ inr λ v. rw e refl
]

-- Tasks either settle what a name has, or leave it.
pub after-cases :
    (n : String) (ts : List Task)
    → ((v : Option File) → after n ts v ≡ after n ts none) ⊎ ((v : Option File) → after n ts v ≡ v)
after-cases n [] = inr λ v. refl
after-cases n (t ∷ ts) = elim (after-cases n ts) [
  | inl h ↦ inl λ v. h (effect n t v) ∙ sym (h (effect n t none))
  | inr h ↦ elim (effect-cases n t) [
    | inl g ↦ inl λ v. ap (after n ts) (g v)
    | inr g ↦ inr λ v. h (effect n t v) ∙ g v
  ]
]

pub perform-effect :
    (n : String) (t : Task) (m m' : Option Files)
    → perform t m ≡ some m'
    → find_local n m' ≡ effect n t (find_local n m)
perform-effect n creates m m' e =
    ap (find_local n) (sym (some-injective _ _ e)) ∙ unfold lookup in refl
perform-effect n resets m m' e = ground arith
perform-effect n (sets k f) none m' e = cc
perform-effect n (sets k f) (some m) m' e = ground (arith, lookup-assign k n f m)
perform-effect n (erases k) none m' e = cc
perform-effect n (erases k) (some m) m' e = ground (arith, lookup-erase k n m)

pub after-post_all :
    (n : String) (is : List ℕ) (t : Task) (queue : ℕ → List Task) (thread : ℕ) (v : Option File)
    → after n (post_all is t queue thread) v ≡ (
        if member thread is
        then effect n t (after n (queue thread) v)
        else after n (queue thread) v)
unfolding post_all post
after-post_all n [] t queue thread v = refl
after-post_all n (i ∷ is) t queue thread v = ground (
  arith,
  after-post_all n is t (post i t queue) thread v,
  after-append n (queue i) (t ∷ []) v,
  effect_twice n t (after n (queue thread) v),
)

-- Whether the tasks can run on a thread, which has a map or has none, with no null pointer used and
-- with a map at the end.
abbrev pub alive : Bool → List Task → Bool
alive b [] = b
alive b (creates ∷ ts) = alive true ts
alive b (resets ∷ ts) = alive false ts
alive b (sets n f ∷ ts) = if b then alive true ts else false
alive b (erases n ∷ ts) = if b then alive true ts else false

abbrev pub exists : Option Files → Bool
exists none = false
exists (some m) = true

pub alive-append :
    (b : Bool) (ts : List Task) (n : String) (f : File)
    → alive b ts ≡ true
    → alive b (ts ++ sets n f ∷ []) ≡ true
alive-append b [] n f h = ground arith
alive-append b (creates ∷ ts) n f h = alive-append true ts n f h
alive-append b (resets ∷ ts) n f h = alive-append false ts n f h
alive-append true (sets m g ∷ ts) n f h = alive-append true ts n f h
alive-append true (erases m ∷ ts) n f h = alive-append true ts n f h
alive-append false (sets m g ∷ ts) n f h = cc
alive-append false (erases m ∷ ts) n f h = cc

pub alive-post_all :
    (is : List ℕ) (n : String) (f : File) (queue : ℕ → List Task) (thread : ℕ) (b : Bool)
    → alive b (queue thread) ≡ true
    → alive b (post_all is (sets n f) queue thread) ≡ true
unfolding post_all post
alive-post_all [] n f queue thread b h = h
alive-post_all (i ∷ is) n f queue thread b h =
    alive-post_all is n f (post i (sets n f) queue) thread b
      (ground (arith, alive-append b (queue i) n f))

pub post_all-other :
    (is : List ℕ) (t : Task) (queue : ℕ → List Task) (thread : ℕ)
    → member thread is ≡ false
    → post_all is t queue thread ≡ queue thread
unfolding post_all post
post_all-other [] t queue thread h = refl
post_all-other (i ∷ is) t queue thread h =
    ground (arith, post_all-other is t (post i t queue) thread)
