-- ===== src/Texts.antt =====
-- Texts as lists of character codes, and the standard library's functions on them that the code uses.
use Prim.Native.Char.{code}
use Prim.Native.String.{String}
use petrel.Prelude.{
  ℕ, ◌+◌, ◌-◌, ◌*◌, Bool, true, false, ◌&&◌, ◌||◌, List, [], ◌∷◌, Option, none, some, ◌==◌, ltb,
  leb, if◌then◌else◌,
}

abbrev pub codes : String → List ℕ
codes String.[] = []
codes (String.◌∷◌ c cs) = code c ∷ codes cs

abbrev pub starts_with : List ℕ → List ℕ → Bool
starts_with [] text = true
starts_with (p ∷ ps) [] = false
starts_with (p ∷ ps) (c ∷ cs) = if p == c then starts_with ps cs else false

-- `boost::algorithm::istarts_with`, for texts of ASCII.
abbrev pub lower : ℕ → ℕ
lower c = if leb 65 c && leb c 90 then c + 32 else c

abbrev pub istarts_with : List ℕ → List ℕ → Bool
istarts_with [] text = true
istarts_with (p ∷ ps) [] = false
istarts_with (p ∷ ps) (c ∷ cs) = if lower p == lower c then istarts_with ps cs else false

-- `std::getline`: the line and what is left of the stream; none if nothing is there.
abbrev pub getline_from : List ℕ → List ℕ × List ℕ
getline_from [] = ([], [])
getline_from (c ∷ cs) =
    let (line, rest) = getline_from cs in if c == 10 then ([], cs) else (c ∷ line, rest)

abbrev pub getline : List ℕ → Option (List ℕ × List ℕ)
getline [] = none
getline (c ∷ cs) = some (getline_from (c ∷ cs))

-- What follows the first space of a text.
abbrev pub after_space : List ℕ → Option (List ℕ)
after_space [] = none
after_space (c ∷ cs) = if c == 32 then some cs else after_space cs

abbrev pub is_digit : ℕ → Bool
is_digit c = leb 48 c && leb c 57

abbrev pub digits_from : ℕ → List ℕ → ℕ
digits_from n [] = n
digits_from n (c ∷ cs) = if is_digit c then digits_from (n * 10 + (c - 48)) cs else n

-- The characters of `isspace`.
abbrev pub is_space : ℕ → Bool
is_space c = c == 32 || (leb 9 c && leb c 13)

-- `std::atoi`, as a 64-bit number in two's complement; none where the value is no `int` and the
-- function has no defined behaviour.
abbrev pub in_int : Bool → ℕ → Option ℕ
in_int false n = if ltb n 2147483648 then some n else none
in_int true n =
    if n == 0 then some 0 else if leb n 2147483648 then some (18446744073709551616 - n) else none

abbrev pub signed : List ℕ → Option ℕ
signed [] = some 0
signed (c ∷ cs) =
    if c == 45
    then in_int true (digits_from 0 cs)
    else if c == 43
    then in_int false (digits_from 0 cs)
    else in_int false (digits_from 0 (c ∷ cs))

abbrev pub atoi : List ℕ → Option ℕ
atoi [] = some 0
atoi (c ∷ cs) = if is_space c then atoi cs else signed (c ∷ cs)

-- A text up to its first NUL, as a function that takes a C string sees it.
abbrev pub c_str : List ℕ → List ℕ
c_str [] = []
c_str (c ∷ cs) = if c == 0 then [] else c ∷ c_str cs
