-- ===== src/Limiter/Backoff/Schedule.antt =====
-- The schedule of delays in closed form, and what follows: no wrap-around, the cap, monotonicity.
use native.Mathlib.Nat.{pow-suc, mul-le-mul, le_refl}
use native.Mathlib.Decide.{dec_le}
use quantsim.Prelude.{
  ℕ, zero, suc, ◌+◌, ◌-◌, ◌*◌, ◌^◌, ◌≤◌, ◌<◌, min, ◌≡◌, inl, inr, true, false, arith, leb, ap, ◌∙◌,
  leb→le, Bool-cases, ◌==◌, if◌then◌else◌,
}
use quantsim.Prelude.Int.{pos, ◌≤ℤ◌, ◌+ℤ◌, wrap64, wrap64-eq_self, leb_ℤ}
use quantsim.Limiter.Backoff.{BackoffConfig, double_up, cap_at, delay}

-- A schedule of positive durations, as `rateLimitConfig` in services/gateway/cmd/server/main.go
-- makes it.
abbrev pub schedule : ℕ → ℕ → ℕ → BackoffConfig
schedule free b m = record { free_failures = free; base_delay = pos b; max_delay = pos m }

pow-pos : (r : ℕ) → 1 ≤ 2 ^ r
pow-pos zero = omega arith
pow-pos (suc r) = rw pow-suc (omega (arith, pow-pos r))

le-mul-pow : (d r : ℕ) → d ≤ d * 2 ^ r
le-mul-pow d r = grind (arith, pow-pos r)

double_self : (d : ℕ) → pos d +ℤ pos d ≡ pos (d + d)
unfolding ◌+ℤ◌
double_self d = ground arith

double_in_range : (d : ℕ) → d < 2 ^ 62 → wrap64 (pos d +ℤ pos d) ≡ pos (d + d)
double_in_range d h = rw double_self (wrap64-eq_self (pos (d + d)) (omega arith, omega arith))

cap_at-pos : (m d : ℕ) → cap_at (pos m) (pos d) ≡ pos (min d m)
unfolding cap_at
cap_at-pos m d = ground arith

double_pow : (d r : ℕ) → (d + d) * 2 ^ r ≡ d * 2 ^ suc r
double_pow d r = rw pow-suc (omega arith)

-- Below a cap of 2^62 the loop never wraps, and the capped result is the closed form.
double_up_closed :
    (r m d : ℕ)
    → m < 2 ^ 62
    → cap_at (pos m) (double_up r (pos m) (pos d)) ≡ pos (min (d * 2 ^ r) m)
unfolding double_up
double_up_closed zero m d h = rw cap_at-pos (ap pos (omega arith))
double_up_closed (suc r) m d h = elim (Bool-cases (leb_ℤ (pos m) (pos d))) [
  | inl over ↦
      rw over (rw cap_at-pos (ap pos (omega (arith, leb→le _ _ over, le-mul-pow d (suc r)))))
  | inr under ↦ rw under (
      rw (double_in_range d (ground arith))
        (double_up_closed r m (d + d) h ∙ ap pos (omega (arith, double_pow d r))))
]

suc-eq-zero : (k : ℕ) → (suc k == 0) ≡ false
suc-eq-zero k = ground arith

-- The k-th failure past the free ones costs `base * 2 ^ (k - 1)`, but never more than the cap, as
-- long as the cap is below 2^62 ns (146 years): the doubling never wraps to a negative delay.
pub delay_closed :
    (free b m k : ℕ)
    → m < 2 ^ 62
    → delay (free + suc k) (schedule free b m) ≡ pos (min (b * 2 ^ k) m)
unfolding delay
delay_closed free b m k h =
    let excess : free + suc k - free ≡ suc k = omega arith in
    let rounds : suc k - 1 ≡ k = omega arith in
    rw excess (rw (suc-eq-zero k) (rw rounds (double_up_closed k m b h)))

-- The free failures cost nothing.
pub delay_free : (n : ℕ) (cfg : BackoffConfig) → n ≤ cfg.free_failures → delay n cfg ≡ pos 0
unfolding delay
delay_free n cfg h = ground arith

pow_mono : (j k : ℕ) → j ≤ k → 2 ^ j ≤ 2 ^ k
pow_mono j zero h = let e : j ≡ 0 = omega arith in rw e (le_refl _)
pow_mono j (suc k) h = elim (dec_le j k) [
  | yes below ↦ rw pow-suc (omega (arith, pow_mono j k below))
  | no above ↦ let e : j ≡ suc k = omega arith in rw e (le_refl _)
]

closed_mono : (b m j k : ℕ) → j ≤ k → min (b * 2 ^ j) m ≤ min (b * 2 ^ k) m
closed_mono b m j k h =
    let grows : b * 2 ^ j ≤ b * 2 ^ k = mul-le-mul (le_refl b) (pow_mono j k h) in omega arith

-- The length of a delay, as a number.
abbrev charge : ℕ → ℕ → ℕ → ℕ → ℕ
charge free b m n = if leb n free then 0 else min (b * 2 ^ (n - free - 1)) m

delay-charge : (free b m n : ℕ) → m < 2 ^ 62 → delay n (schedule free b m) ≡ pos (charge free b m n)
delay-charge free b m n h = elim (dec_le n free) [
  | yes below ↦
      let e : leb n free ≡ true = ground arith in rw (e, delay_free n (schedule free b m) below)
  | no above ↦
      let e : leb n free ≡ false = ground arith in
      let split : n ≡ free + suc (n - free - 1) = omega arith in
      rw e (ap (λ x. delay x (schedule free b m)) split ∙ delay_closed free b m (n - free - 1) h)
]

charge_mono : (free b m n n' : ℕ) → n ≤ n' → charge free b m n ≤ charge free b m n'
charge_mono free b m n n' le =
    ground (arith, closed_mono b m (n - free - 1) (n' - free - 1) (omega arith))

-- With a cap below 2^62 ns, every delay lies between 0 and the cap, and a longer run of failures
-- never waits less.
pub delay_mono :
    (free b m n n' : ℕ)
    → m < 2 ^ 62
    → n ≤ n'
    → (pos 0 ≤ℤ delay n (schedule free b m))
      × (delay n (schedule free b m) ≤ℤ delay n' (schedule free b m))
      × (delay n' (schedule free b m) ≤ℤ pos m)
delay_mono free b m n n' h le = rw (delay-charge free b m n h) (
    rw (delay-charge free b m n' h)
      (omega arith, omega (arith, charge_mono free b m n n' le), ground arith))
