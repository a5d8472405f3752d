-- ===== src/Backoff.antt =====
-- internal/backoff/backoff.go. Durations are nanoseconds. The source's tests for a negative base,
-- cap or attempt count coincide with those for zero here.
pub mod Bounds
use mxlrc_go.Common.{
  Bool, ℕ, zero, suc, ◌+◌, ◌-◌, ◌*◌, ◌/◌, ◌%◌, ◌^◌, ◌||◌, ltb, leb, ◌==◌, if◌then◌else◌, true,
  false, refl, none, some, inl, inr, [], ◌∷◌, arith, ◌∙◌, ◌≡◌,
}

-- One second, and the two defaults.
abbrev pub second : ℕ
second = 1000000000

abbrev pub default_base : ℕ
default_base = 60 * second

abbrev pub default_max : ℕ
default_max = 3600 * second

-- A time.Duration is an int64, held here as its 64 bits: a product wraps modulo 2^64, and bits from
-- 2^63 on stand for a negative number.
abbrev pub wrap : ℕ → ℕ
wrap n = n % 2 ^ 64

-- The order of an int64 is that of the bits with the sign bit flipped.
abbrev pub flipped : ℕ → ℕ
flipped n = (n + 2 ^ 63) % 2 ^ 64

abbrev pub signed_ltb : ℕ → ℕ → Bool
signed_ltb a b = ltb (flipped a) (flipped b)

abbrev pub signed_leb : ℕ → ℕ → Bool
signed_leb a b = leb (flipped a) (flipped b)

-- The loop of `Geometric`, `rounds` times; the test after the loop is its base case.
pub doubling : (rounds delay cap : ℕ) → ℕ
doubling zero delay cap = if signed_ltb cap delay then cap else delay
doubling (suc rounds) delay cap =
    let rest = doubling rounds (wrap (delay * 2)) cap in
    if signed_leb cap delay || signed_ltb (cap / 2) delay then cap else rest

unfoldable pub geometric : (attempts base cap : ℕ) → ℕ
unfolding doubling
geometric attempts base cap =
    if (base == 0) || (cap == 0) then 0 else doubling (attempts - 1) base cap
