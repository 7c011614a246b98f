-- ===== src/Cookies/Parts.antt =====
-- What one part of the header sets, for every layout of the part.
use petrel.Prelude.{
  ◌⊎◌, inl, inr, ℕ, zero, suc, ◌+◌, ◌-◌, ◌<◌, ◌≡◌, refl, ◌≢◌, ap, ◌∙◌, List, [], ◌∷◌, ◌++◌, none,
  some, leb, take, drop, length, replicate, length-append, length-replicate, if◌then◌else◌, arith,
}
use native.Mathlib.Nat.{zero-add, suc-add}
use mathlib.Core.List.{append_assoc}
use petrel.Cookies.{◌>>=◌, index_of, skip_spaces, read, push_part, ok, err, out_of_bounds}

-- The byte does not occur.
abbrev pub Lacks : ℕ → List ℕ → Type 0
Lacks c [] = Unit
Lacks c (b ∷ bs) = (b ≢ c) × Lacks c bs

-- The text is not empty, and its first byte is no space.
abbrev pub StartsName : List ℕ → Type 0
StartsName [] = ⊥
StartsName (b ∷ bs) = b ≢ b' '

pub index_of-append :
    (c : ℕ) (bs rest : List ℕ) → Lacks c bs → index_of c (bs ++ c ∷ rest) ≡ length bs
unfolding index_of
index_of-append c [] rest h = ground arith
index_of-append c (b ∷ bs) rest h = ground (arith, index_of-append c bs rest h.1)

pub Lacks-spaces : (k : ℕ) (bs : List ℕ) → Lacks b'=' bs → Lacks b'=' (replicate k b' ' ++ bs)
Lacks-spaces zero bs h = h
Lacks-spaces (suc k) bs h = (omega arith, Lacks-spaces k bs h)

skip_spaces-name :
    (k : ℕ) (name rest : List ℕ)
    → StartsName name
    → skip_spaces (replicate k b' ' ++ (name ++ rest)) (k + length name) ≡ k
unfolding skip_spaces
skip_spaces-name zero [] rest h = absurd h
skip_spaces-name zero (b ∷ bs) rest h = ground arith
skip_spaces-name (suc k) name rest h = ground (arith, skip_spaces-name k name rest h)

pub drop_append : (xs ys : List ℕ) → drop (length xs) (xs ++ ys) ≡ ys
drop_append [] ys = refl
drop_append (x ∷ xs) ys = drop_append xs ys

pub take_append : (xs ys : List ℕ) → take (length xs) (xs ++ ys) ≡ xs
take_append [] ys = refl
take_append (x ∷ xs) ys = ap (◌∷◌ x) (take_append xs ys)

pub read_append :
    (xs ys : List ℕ) (start len : ℕ)
    → start ≡ length xs
    → read (xs ++ ys) start len
      ≡ (if leb len (length ys) then ok (take len ys) else err out_of_bounds)
unfolding read
read_append xs ys start len e = rw (e, drop_append xs ys) (ground (arith, length-append xs ys))

take_past : (xs ys : List ℕ) (k : ℕ) → take (length xs + k) (xs ++ ys) ≡ xs ++ take k ys
take_past [] ys k = rw zero-add
take_past (x ∷ xs) ys k = rw suc-add (ap (◌∷◌ x) (take_past xs ys k))

-- A part with a name is read at the places that the two scans give.
push_part_reads :
    (mem : List ℕ) (start len it k : ℕ)
    → index_of b'=' (take len (drop start mem)) ≡ it
    → skip_spaces (take len (drop start mem)) it ≡ k
    → k < it
    → it < len
    → push_part mem start len ≡ (do
      n ← read mem (start + k) (it - k)
      v ← read mem (start + it + 1) (len - (it - k) - 1)
      ok (some (n, v)))
unfolding push_part
push_part_reads mem start len it k scan skip named inside = rw (scan, skip) (ground (arith, minus))
  where
    minus : start + it - (start + k) ≡ it - k
    minus = omega arith

module _ (before name val after : List ℕ) (k : ℕ) where
  -- Leading spaces, a name, '=' and a value.
  abbrev pub part : List ℕ
  part = (replicate k b' ' ++ name) ++ b'=' ∷ val

  -- The header's buffer around the part.
  abbrev pub mem : List ℕ
  mem = before ++ (part ++ after)

  take-part : take (length part) (drop (length before) mem) ≡ part
  take-part = rw (drop_append before (part ++ after)) (take_append part after)

  module _ (lacks : Lacks b'=' name) (starts : StartsName name) where
    scan : index_of b'=' part ≡ k + length name
    scan =
        index_of-append b'=' (replicate k b' ' ++ name) val (Lacks-spaces k name lacks)
        ∙ length-append (replicate k b' ') name
        ∙ ap (λ n. n + length name) (length-replicate k b' ')

    skip : skip_spaces part (k + length name) ≡ k
    skip = rw append_assoc (skip_spaces-name k name (b'=' ∷ val) starts)

    named : (n : List ℕ) → StartsName n → k < k + length n
    named [] h = absurd h
    named (b ∷ bs) h = omega arith

    length-part : length part ≡ k + length name + (1 + length val)
    length-part = omega (
      arith,
      length-append (replicate k b' ' ++ name) (b'=' ∷ val),
      length-append (replicate k b' ') name,
      length-replicate {A = ℕ} k b' ',
    )

    within : k + length name < length part
    within = omega (arith, length-part)

    read_name : read mem (length before + k) (k + length name - k) ≡ ok name
    read_name =
        ap (λ m. read m (length before + k) (k + length name - k)) around
        ∙ read_append (before ++ replicate k b' ') (name ++ (b'=' ∷ (val ++ after)))
            (length before + k) (k + length name - k)
            (omega
              (arith, length-append before (replicate k b' '), length-replicate {A = ℕ} k b' '))
        ∙ rw len (
            ground (
              arith,
              length-append name (b'=' ∷ (val ++ after)),
              take_append name (b'=' ∷ (val ++ after)),
            ))
      where
        around : mem ≡ (before ++ replicate k b' ') ++ (name ++ (b'=' ∷ (val ++ after)))
        around = simp append_assoc

        len : k + length name - k ≡ length name
        len = omega arith

    read_value :
        read mem (length before + (k + length name) + 1) (length part - (k + length name - k) - 1)
        ≡ (if leb (length val + k) (length (val ++ after))
            then ok (take (length val + k) (val ++ after))
            else err out_of_bounds)
    read_value =
        ap
          (λ m.
            read m (length before + (k + length name) + 1)
              (length part - (k + length name - k) - 1))
          around
        ∙ read_append (before ++ (replicate k b' ' ++ (name ++ b'=' ∷ []))) (val ++ after)
            (length before + (k + length name) + 1) (length part - (k + length name - k) - 1)
            (omega (
              arith,
              length-append before (replicate k b' ' ++ (name ++ b'=' ∷ [])),
              length-append (replicate k b' ') (name ++ b'=' ∷ []),
              length-append name (b'=' ∷ []),
              length-replicate {A = ℕ} k b' ',
            ))
        ∙ rw len
      where
        around : mem ≡ (before ++ (replicate k b' ' ++ (name ++ b'=' ∷ []))) ++ (val ++ after)
        around = simp append_assoc

        len : length part - (k + length name - k) - 1 ≡ length val + k
        len = omega (arith, length-part)

    -- A part `name=value` behind `k` spaces sets the name without the spaces, to the value followed
    -- by the `k` bytes that stand behind the part in the buffer; it is a fault if the buffer ends
    -- before them.
    pub push_part_value : push_part mem (length before) (length part) ≡ (
        if leb k (length after) then ok (some (name, val ++ take k after)) else err out_of_bounds)
    push_part_value =
        push_part_reads mem (length before) (length part) (k + length name) k (rw take-part scan)
          (rw take-part skip) (named name starts) within
        ∙ rw (read_name, read_value)
            (ground (arith, take_past val after k, length-append val after))

-- A part with no '=', or with nothing but spaces in front of its first '=', sets nothing, wherever
-- it stands in the buffer.
abbrev pub Nameless : List ℕ → Type 0
Nameless bs = Lacks b'=' bs ⊎ ((k : ℕ) × (rest : List ℕ) × (bs ≡ replicate k b' ' ++ b'=' ∷ rest))

index_of-Lacks : (c : ℕ) (bs : List ℕ) → Lacks c bs → index_of c bs ≡ length bs
unfolding index_of
index_of-Lacks c [] h = refl
index_of-Lacks c (b ∷ bs) h = ground (arith, index_of-Lacks c bs h.1)

skip_spaces-all : (k : ℕ) (rest : List ℕ) → skip_spaces (replicate k b' ' ++ rest) k ≡ k
unfolding skip_spaces
skip_spaces-all zero [] = refl
skip_spaces-all zero (b ∷ rest) = refl
skip_spaces-all (suc k) rest = ap suc (skip_spaces-all k rest)

Lacks-replicate : (k : ℕ) → Lacks b'=' (replicate k b' ')
Lacks-replicate zero = tt
Lacks-replicate (suc k) = (omega arith, Lacks-replicate k)

pub push_part_nothing :
    (before bs after : List ℕ)
    → Nameless bs
    → push_part (before ++ (bs ++ after)) (length before) (length bs) ≡ ok none
unfolding push_part
push_part_nothing before bs after (inl h) =
    rw (drop_append before (bs ++ after), take_append bs after)
      (ground (arith, index_of-Lacks b'=' bs h))
push_part_nothing before bs after (inr (k, rest, e)) =
    rw (drop_append before (bs ++ after), take_append bs after) (ground (arith, scan, skip))
  where
    scan : index_of b'=' bs ≡ k
    scan =
        ap (index_of b'=') e
        ∙ index_of-append b'=' (replicate k b' ') rest (Lacks-replicate k)
        ∙ length-replicate k b' '

    skip : skip_spaces bs k ≡ k
    skip = ap (λ b. skip_spaces b k) e ∙ skip_spaces-all k (b'=' ∷ rest)
