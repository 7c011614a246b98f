-- ===== src/Cookies/Tests.antt =====
-- A splitter as Boost documents it, and the cookie theorems at concrete headers.
use petrel.Prelude.{
  inr, ℕ, ◌+◌, ◌≡◌, refl, true, false, List, [], ◌∷◌, ◌++◌, map, none, ◌==◌, length, arith,
}
use native.Mathlib.Nat.{add-zero, add_assoc}
use mathlib.Core.List.{append-nil}
use petrel.Cookies.{
  push_cookies, push_parts, push_part, index_of, skip_spaces, read, ok, err, out_of_bounds,
}
use petrel.Cookies.Parts.{Lacks, push_part_value, push_part_nothing}
use petrel.Cookies.Header.{
  more, join, spans, AllLack, SplitsAtSemicolons, Cookie, text, overrun, pairs,
  push_cookies-overrun, push_cookies-pairs,
}

split_from : ℕ → ℕ → List ℕ → List (ℕ × ℕ)
split_from start len [] = (start, len) ∷ []
split_from start len (b ∷ bs) = elim (b == b';') [
  | true ↦ (start, len) ∷ split_from (start + len + 1) 0 bs
  | false ↦ split_from start (len + 1) bs
]

split : List ℕ → List (ℕ × ℕ)
unfolding split_from
split bs = split_from 0 0 bs

split_from-Lacks :
    (start len : ℕ) (s rest : List ℕ)
    → Lacks b';' s
    → split_from start len (s ++ rest) ≡ split_from start (len + length s) rest
unfolding split_from
split_from-Lacks start len [] rest h = rw add-zero
split_from-Lacks start len (b ∷ s) rest h =
    ground (arith, split_from-Lacks start (len + 1) s rest h.1, add_assoc len 1 (length s))

split_from-join :
    (start : ℕ) (s : List ℕ) (ss : List (List ℕ))
    → AllLack b';' (s ∷ ss)
    → split_from start 0 (join (s ∷ ss)) ≡ spans start (s ∷ ss)
unfolding split_from
split_from-join start s [] h = ground (arith, split_from-Lacks start 0 s [] h.0, append-nil s)
split_from-join start s (t ∷ ss) h = ground (
  arith,
  split_from-Lacks start 0 s (more (t ∷ ss)) h.0,
  split_from-join (start + length s + 1) t ss h.1,
)

split-SplitsAtSemicolons : SplitsAtSemicolons split
unfolding split
split-SplitsAtSemicolons s ss h = split_from-join 0 s ss h

-- "a=1; b=2; c=3", as browsers write it.
abbrev browser_cookies : List Cookie
browser_cookies =
    record { spaces = 0; name = b'a' ∷ []; value = b'1' ∷ [] }
    ∷ record { spaces = 1; name = b'b' ∷ []; value = b'2' ∷ [] }
    ∷ record { spaces = 1; name = b'c' ∷ []; value = b'3' ∷ [] }
    ∷ []

abbrev compact_cookies : List Cookie
compact_cookies =
    record { spaces = 0; name = b'a' ∷ []; value = b'1' ∷ [] }
    ∷ record { spaces = 0; name = b'b' ∷ []; value = b'=' ∷ b'2' ∷ [] }
    ∷ []

browser_test :
    push_cookies split (join (map text browser_cookies))
    ≡ ok ((b'a' ∷ [], b'1' ∷ []) ∷ (b'b' ∷ [], b'2' ∷ b';' ∷ []) ∷ (b'c' ∷ [], b'3' ∷ 0 ∷ []) ∷ [])
unfolding push_cookies push_parts push_part index_of skip_spaces read split
browser_test = refl

push_cookies-overrun_example :
    push_cookies split (join (map text browser_cookies)) ≡ overrun browser_cookies
push_cookies-overrun_example =
    push_cookies-overrun split (record { spaces = 0; name = b'a' ∷ []; value = b'1' ∷ [] })
      (record { spaces = 1; name = b'b' ∷ []; value = b'2' ∷ [] }
        ∷ record { spaces = 1; name = b'c' ∷ []; value = b'3' ∷ [] }
        ∷ [])
      split-SplitsAtSemicolons (omega arith) (omega arith)

push_cookies-pairs_example :
    push_cookies split (join (map text compact_cookies)) ≡ ok (pairs compact_cookies)
push_cookies-pairs_example =
    push_cookies-pairs split (record { spaces = 0; name = b'a' ∷ []; value = b'1' ∷ [] })
      (record { spaces = 0; name = b'b' ∷ []; value = b'=' ∷ b'2' ∷ [] } ∷ [])
      split-SplitsAtSemicolons (omega arith) (omega arith) (omega arith)

-- The part "  n=v" with "x" behind it: the value would run on over two bytes.
push_part_value_example :
    push_part (b';' ∷ b' ' ∷ b' ' ∷ b'n' ∷ b'=' ∷ b'v' ∷ b'x' ∷ []) 1 5 ≡ err out_of_bounds
push_part_value_example =
    push_part_value (b';' ∷ []) (b'n' ∷ []) (b'v' ∷ []) (b'x' ∷ []) 2 (omega arith) (omega arith)

blank_name : push_part (b' ' ∷ b'=' ∷ b'v' ∷ 0 ∷ []) 0 3 ≡ ok none
blank_name = push_part_nothing [] (b' ' ∷ b'=' ∷ b'v' ∷ []) (0 ∷ []) (inr (1, b'v' ∷ [], refl))
