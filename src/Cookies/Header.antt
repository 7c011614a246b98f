-- ===== src/Cookies/Header.antt =====
-- The loop of `push_cookies` over a whole header.
use petrel.Prelude.{
  ℕ, ◌+◌, ◌≡◌, refl, ◌∙◌, List, [], ◌∷◌, ◌++◌, map, leb, take, length, length-append, if◌then◌else◌,
  arith,
}
use mathlib.Core.List.{append_assoc, append-nil}
use mathlib.Core.Path.{ap₂}
use petrel.Cookies.{push_parts, push_cookies, Result, ok, err, out_of_bounds, ◌>>=◌}
use petrel.Cookies.Parts.{Lacks, StartsName, part, push_part_value}

-- Texts joined by ';', from the second one on, and from the first.
abbrev pub more : List (List ℕ) → List ℕ
more [] = []
more (s ∷ ss) = b';' ∷ (s ++ more ss)

abbrev pub join : List (List ℕ) → List ℕ
join [] = []
join (s ∷ ss) = s ++ more ss

-- Where the joined texts stand.
abbrev pub spans : ℕ → List (List ℕ) → List (ℕ × ℕ)
spans start [] = []
spans start (s ∷ ss) = (start, length s) ∷ spans (start + length s + 1) ss

abbrev pub AllLack : ℕ → List (List ℕ) → Type 0
AllLack c [] = Unit
AllLack c (s ∷ ss) = Lacks c s × AllLack c ss

-- What `iter_split` with a token finder for ';' is documented to do: it gives the texts between
-- the separators, empty ones too.
abbrev pub SplitsAtSemicolons : (List ℕ → List (ℕ × ℕ)) → Type 0
SplitsAtSemicolons split =
    (s : List ℕ) (ss : List (List ℕ))
    → AllLack b';' (s ∷ ss)
    → split (join (s ∷ ss)) ≡ spans 0 (s ∷ ss)

-- One cookie as a client writes it, with the spaces in front of it.
pub record Cookie : Type 0 where
  pub spaces : ℕ
  pub name : List ℕ
  pub value : List ℕ

abbrev pub text : Cookie → List ℕ
text c = part [] c.name c.value [] c.spaces

abbrev pub WellFormed : Cookie → Type 0
WellFormed c = Lacks b'=' c.name × StartsName c.name

abbrev pub AllWellFormed : List Cookie → Type 0
AllWellFormed [] = Unit
AllWellFormed (c ∷ cs) = WellFormed c × AllWellFormed cs

-- The table that the header is meant to give.
abbrev pub pairs : List Cookie → List (List ℕ × List ℕ)
pairs [] = []
pairs (c ∷ cs) = (c.name, c.value) ∷ pairs cs

-- What one cookie sets: its value runs on over as many of the bytes behind the cookie as there are
-- spaces in front of it.
abbrev pub overrun_one : Cookie → List ℕ → Result (List ℕ × List ℕ)
overrun_one c behind =
    if leb c.spaces (length behind)
    then ok (c.name, c.value ++ take c.spaces behind)
    else err out_of_bounds

-- The table that the code gives.
abbrev pub overrun : List Cookie → Result (List (List ℕ × List ℕ))
overrun [] = ok []
overrun (c ∷ cs) =
    overrun_one c (more (map text cs) ++ 0 ∷ []) >>= λ p. overrun cs >>= λ ps. ok (p ∷ ps)

push_parts-first :
    (before behind : List ℕ) (c : Cookie) (parts : List (ℕ × ℕ))
    (r : Result (List (List ℕ × List ℕ)))
    → WellFormed c
    → push_parts (before ++ (text c ++ behind)) parts ≡ r
    → push_parts (before ++ (text c ++ behind)) ((length before, length (text c)) ∷ parts)
      ≡ (overrun_one c behind >>= λ p. r >>= λ ps. ok (p ∷ ps))
unfolding push_parts
push_parts-first before behind c parts r h e =
    rw (e, push_part_value before c.name c.value behind c.spaces h.0 h.1) (ground arith)

push_parts-overrun :
    (before : List ℕ) (c : Cookie) (cs : List Cookie)
    → AllWellFormed (c ∷ cs)
    → push_parts
        (before ++ (text c ++ (more (map text cs) ++ 0 ∷ [])))
        (spans (length before) (map text (c ∷ cs)))
      ≡ overrun (c ∷ cs)
push_parts-overrun before c [] h =
    push_parts-first before (0 ∷ []) c [] (ok []) h.0 (unfold push_parts in refl)
push_parts-overrun before c (d ∷ cs) h =
    push_parts-first before (more (map text (d ∷ cs)) ++ 0 ∷ []) c
      (spans (length before + length (text c) + 1) (map text (d ∷ cs))) (overrun (d ∷ cs)) h.0
      (ap₂ (λ m n. push_parts m (spans n (map text (d ∷ cs)))) around place
        ∙ push_parts-overrun (before ++ (text c ++ b';' ∷ [])) d cs h.1)
  where
    around :
        before ++ (text c ++ (more (map text (d ∷ cs)) ++ 0 ∷ []))
        ≡ (before ++ (text c ++ b';' ∷ [])) ++ (text d ++ (more (map text cs) ++ 0 ∷ []))
    around = simp append_assoc

    place : length before + length (text c) + 1 ≡ length (before ++ (text c ++ b';' ∷ []))
    place =
        omega
          (arith, length-append before (text c ++ b';' ∷ []), length-append (text c) (b';' ∷ []))

-- For a header of cookies joined by ';', each with any number of spaces in front, and a splitter
-- that splits at ';': the names are set without their spaces, and each value runs on over as many
-- of the bytes behind its cookie as there are spaces in front of it, the separators, the following
-- cookies and the final NUL included; it is a fault if the buffer ends before.
pub push_cookies-overrun :
    (split : List ℕ → List (ℕ × ℕ)) (c : Cookie) (cs : List Cookie)
    → SplitsAtSemicolons split
    → AllWellFormed (c ∷ cs)
    → AllLack b';' (map text (c ∷ cs))
    → push_cookies split (join (map text (c ∷ cs))) ≡ overrun (c ∷ cs)
unfolding push_cookies
push_cookies-overrun split c cs splits good plain =
    rw (splits (text c) (map text cs) plain) (rw append_assoc (push_parts-overrun [] c cs good))

-- No cookie has a space in front.
abbrev pub AllUnspaced : List Cookie → Type 0
AllUnspaced [] = Unit
AllUnspaced (c ∷ cs) = (c.spaces ≡ 0) × AllUnspaced cs

overrun_one-unspaced :
    (c : Cookie) (behind : List ℕ) → c.spaces ≡ 0 → overrun_one c behind ≡ ok (c.name, c.value)
overrun_one-unspaced c behind h = ground (arith, append-nil c.value)

overrun-unspaced : (cs : List Cookie) → AllUnspaced cs → overrun cs ≡ ok (pairs cs)
overrun-unspaced [] h = refl
overrun-unspaced (c ∷ cs) h =
    rw (overrun_one-unspaced c (more (map text cs) ++ 0 ∷ []) h.0, overrun-unspaced cs h.1)

-- A header of cookies joined by ';' with no spaces is read back as exactly the names and values
-- that it was written from.
pub push_cookies-pairs :
    (split : List ℕ → List (ℕ × ℕ)) (c : Cookie) (cs : List Cookie)
    → SplitsAtSemicolons split
    → AllWellFormed (c ∷ cs)
    → AllLack b';' (map text (c ∷ cs))
    → AllUnspaced (c ∷ cs)
    → push_cookies split (join (map text (c ∷ cs))) ≡ ok (pairs (c ∷ cs))
push_cookies-pairs split c cs splits good plain unspaced =
    push_cookies-overrun split c cs splits good plain ∙ overrun-unspaced (c ∷ cs) unspaced
