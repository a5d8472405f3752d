-- ===== src/Backoff/Bounds.antt =====
-- What `Geometric` (internal/backoff/backoff.go) computes, in closed form, and its bounds.
use Prim.Native.Nat.{min}
use native.Mathlib.Nat.{pow-suc}
use mxlrc_go.Common.{ℕ, zero, suc, ◌-◌, ◌*◌, ◌^◌, ◌≤◌, ◌<◌, ◌≡◌, arith}
use mxlrc_go.Backoff.{doubling, geometric}

pow_pos : (n : ℕ) → 0 < 2 ^ n
pow_pos zero = omega arith
pow_pos (suc n) = rw (pow-suc 2 n) (omega (arith, pow_pos n))

le_mul : (a b : ℕ) → 0 < b → a ≤ a * b
le_mul a b h = grind arith

double_pow : (d n : ℕ) → d * 2 ^ suc n ≡ d * 2 * 2 ^ n
double_pow d n = rw (pow-suc 2 n) (omega arith)

doubling-eq-min :
    (rounds delay cap : ℕ)
    → delay < 2 ^ 63
    → cap < 2 ^ 63
    → doubling rounds delay cap ≡ min cap (delay * 2 ^ rounds)
unfolding doubling
doubling-eq-min zero delay cap d h = ground arith
doubling-eq-min (suc rounds) delay cap d h = ground (
  arith,
  double_pow delay rounds,
  le_mul (delay * 2) (2 ^ rounds) (pow_pos rounds),
  doubling-eq-min rounds (delay * 2) cap,
)

-- On a base and a cap that are positive int64s, the delay of an attempt is the base doubled once for
-- each earlier attempt, as a number and not modulo 2^64, cut off at the cap.
pub geometric-eq-min :
    (attempts base cap : ℕ)
    → 0 < base
    → base < 2 ^ 63
    → 0 < cap
    → cap < 2 ^ 63
    → geometric attempts base cap ≡ min cap (base * 2 ^ (attempts - 1))
unfolding geometric
geometric-eq-min attempts base cap b fits c h =
    ground (arith, doubling-eq-min (attempts - 1) base cap fits h)

pow_mono : (m n : ℕ) → m ≤ n → 2 ^ m ≤ 2 ^ n
pow_mono zero zero h = omega arith
pow_mono zero (suc n) h = omega (arith, pow_pos (suc n))
pow_mono (suc m) zero h = absurd (omega arith)
pow_mono (suc m) (suc n) h =
    rw (pow-suc 2 m, pow-suc 2 n) (omega (arith, pow_mono m n (omega arith)))

mul_mono : (a b c : ℕ) → b ≤ c → a * b ≤ a * c
mul_mono a b c h = grind arith

-- On a base and a cap that are int64s, the wait never shrinks as failures add up, and it never passes
-- the cap.
pub geometric_mono :
    (m n base cap : ℕ)
    → m ≤ n
    → base < 2 ^ 63
    → cap < 2 ^ 63
    → (geometric m base cap ≤ geometric n base cap) × (geometric n base cap ≤ cap)
unfolding geometric
geometric_mono m n base cap le fits h = ground (
  arith,
  doubling-eq-min (m - 1) base cap fits h,
  doubling-eq-min (n - 1) base cap fits h,
  mul_mono base (2 ^ (m - 1)) (2 ^ (n - 1)) (pow_mono (m - 1) (n - 1) (omega arith)),
)
