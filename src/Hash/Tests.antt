-- ===== src/Hash/Tests.antt =====
-- The text of a short hash.
use petrel.Prelude.{◌≡◌, refl, [], ◌∷◌, arith}
use petrel.Hash.{fnv, fnv_from, push_hash, read_hash, read_hash-push_hash}

text_of_hash : push_hash (7 ∷ 255 ∷ []) ≡ 48 ∷ 55 ∷ 102 ∷ 102 ∷ []
unfolding push_hash
text_of_hash = refl

read_hash_back : read_hash (push_hash (7 ∷ 255 ∷ [])) ≡ 7 ∷ 255 ∷ []
read_hash_back = read_hash-push_hash (7 ∷ 255 ∷ []) (omega arith, (omega arith, tt))

-- The published FNV-1 value of the text `a`.
fnv_a : fnv (97 ∷ []) ≡ 84696446
unfolding fnv fnv_from
fnv_a = refl
