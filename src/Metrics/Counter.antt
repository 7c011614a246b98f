-- ===== src/Metrics/Counter.antt =====
-- `metrics::counter` of src/metrics/counter.h: an atomic 64-bit counter. Each method is one atomic
-- operation, so what several threads do is a sequence of calls.
use petrel.Prelude.{ℕ, ◌+◌, ◌-◌, ◌%◌, ◌<◌, ◌≡◌, List, [], ◌∷◌, arith}

-- `std::uint_fast64_t` is 64 bits wide.
abbrev pub u64 : ℕ → ℕ
u64 n = n % 18446744073709551616

-- A method returns the new value of `m_val` and its result.
unfoldable pub increment : ℕ → ℕ → ℕ × ℕ
increment val i = (u64 (val + i), u64 (val + i))

unfoldable pub decrement : ℕ → ℕ → ℕ × ℕ
decrement val i = (u64 (val + 18446744073709551616 - i), u64 (val + 18446744073709551616 - i))

unfoldable pub exchange : ℕ → ℕ → ℕ × ℕ
exchange val i = (i, val)

unfoldable pub get_and_reset : ℕ → ℕ × ℕ
get_and_reset val = (0, val)

unfoldable pub get : ℕ → ℕ
get val = val

pub data Call : Type 0 where
  increments : ℕ → Call
  decrements : ℕ → Call

unfoldable pub run : ℕ → List Call → ℕ
run val [] = val
run val (increments i ∷ cs) = run (increment val i).0 cs
run val (decrements i ∷ cs) = run (decrement val i).0 cs

-- What the calls add and take away.
abbrev pub added : List Call → ℕ
added [] = 0
added (increments i ∷ cs) = i + added cs
added (decrements i ∷ cs) = added cs

abbrev pub taken : List Call → ℕ
taken [] = 0
taken (increments i ∷ cs) = taken cs
taken (decrements i ∷ cs) = i + taken cs

-- The amounts are 64-bit arguments.
abbrev pub Amounts : List Call → Type 0
Amounts [] = Unit
Amounts (increments i ∷ cs) = (i < 18446744073709551616) × Amounts cs
Amounts (decrements i ∷ cs) = (i < 18446744073709551616) × Amounts cs

-- After any increments and decrements by 64-bit amounts the counter is, modulo 2^64, what they
-- added less what they took away, and it stays below 2^64.
pub run-balance :
    (val : ℕ) (cs : List Call)
    → val < 18446744073709551616
    → Amounts cs
    → (u64 (run val cs + taken cs) ≡ u64 (val + added cs)) × (run val cs < 18446744073709551616)
unfolding run increment decrement
run-balance val [] b a = omega arith
run-balance val (increments i ∷ cs) b a =
    omega (arith, run-balance (u64 (val + i)) cs (omega arith) a.1)
run-balance val (decrements i ∷ cs) b a =
    omega (arith, run-balance (u64 (val + 18446744073709551616 - i)) cs (omega arith) a.1)
