-- ===== src/Hash.antt =====
-- src/lib/builtin/hash.cpp: the text of a hash that a Lua program gets, and `fnv`. Texts are lists of
-- character codes. OpenSSL computes the other hashes: their bytes are an argument.
mod Tests
use Prim.Native.Nat.{bit_xor}
use petrel.Texts.{c_str}
use petrel.Prelude.{
  ℕ, ◌+◌, ◌-◌, ◌*◌, ◌/◌, ◌%◌, ◌<◌, ◌≡◌, refl, ap, List, [], ◌∷◌, Option, none, some, ltb,
  if◌then◌else◌, arith,
}

-- A digit as `std::hex` writes it.
abbrev pub digit : ℕ → ℕ
digit n = if ltb n 10 then 48 + n else 87 + n

-- The loop over the bytes: each is written with a width of two, filled with zeros.
unfoldable pub push_hash : List ℕ → List ℕ
push_hash [] = []
push_hash (b ∷ bs) = digit (b / 16) ∷ digit (b % 16) ∷ push_hash bs

-- `md5` and `sha1` of a text that Lua passes, up to its first NUL; `digest` has no value where OpenSSL
-- fails and an error is raised.
unfoldable pub hash_text : (List ℕ → Option (List ℕ)) → List ℕ → Option (List ℕ)
unfolding push_hash
hash_text digest str = elim (digest (c_str str)) [ none ↦ none | some h ↦ some (push_hash h) ]

-- The loop of `fnv`, on a `std::uint32_t`.
unfoldable pub fnv_from : ℕ → List ℕ → ℕ
fnv_from h [] = h
fnv_from h (b ∷ bs) = fnv_from (bit_xor (h * 16777619 % 4294967296) b) bs

unfoldable pub fnv : List ℕ → ℕ
unfolding fnv_from
fnv str = fnv_from 2166136261 (c_str str)

-- What a reader of the text takes a digit for.
abbrev value : ℕ → ℕ
value c = if ltb c 58 then c - 48 else c - 87

abbrev pub read_hash : List ℕ → List ℕ
read_hash [] = []
read_hash (c ∷ []) = []
read_hash (c ∷ d ∷ cs) = (16 * value c + value d) ∷ read_hash cs

abbrev pub Bytes : List ℕ → Type 0
Bytes [] = Unit
Bytes (b ∷ bs) = (b < 256) × Bytes bs

byte-value : (b : ℕ) → b < 256 → 16 * value (digit (b / 16)) + value (digit (b % 16)) ≡ b
byte-value b h = ground arith

-- The bytes of a hash can be read back from its text, pair by pair of digits.
pub read_hash-push_hash : (bs : List ℕ) → Bytes bs → read_hash (push_hash bs) ≡ bs
unfolding push_hash
read_hash-push_hash [] h = refl
read_hash-push_hash (b ∷ bs) h = ground (arith, byte-value b h.0, read_hash-push_hash bs h.1)
