-- ===== src/Prelude/Fixed.antt =====
-- Numbers with four decimals and no sign, as multiples of 1/10000: the numbers on which the
-- development's tests run, and an instance of every law that it asks of a float.
use native.Mathlib.Nat.{mul-le-mul, le-div_iff_mul-le, le_refl}
use quantsim.Prelude.{
  ℕ, ◌+◌, ◌-◌, ◌*◌, ◌/◌, ◌≤◌, ◌<◌, ◌≡◌, true, false, arith, ltb, leb, ◌==◌, leb→le,
}
use quantsim.Prelude.Float.{Float, IsIeee}

instance abbrev pub fixed : Float ℕ
fixed = record {
  of_ℕ = λ n. n * 10_000;
  add = λ a b. a + b;
  sub = λ a b. a - b;
  mul = λ a b. a * b / 10_000;
  div = λ a b. a * 10_000 / b;
  round = λ a. (a + 5_000) / 10_000 * 10_000;
  neg = λ a. 0 - a;
  lt = ltb;
  le = leb;
  eq = ◌==◌;
  is_inf = λ a. false;
}

div_mono : (a b c : ℕ) → a ≤ b → 0 < c → a / c ≤ b / c
div_mono a b c le pos =
    let back : a / c * c ≤ a = (le-div_iff_mul-le pos).0 (le_refl (a / c)) in
    (le-div_iff_mul-le pos).1 (omega arith)

le→leb : (a b : ℕ) → a ≤ b → leb a b ≡ true
le→leb a b h = ground arith

pub fixed_laws : IsIeee ℕ
fixed_laws = record {
  sub_nonneg = λ a b _ _ _. ground arith;
  add_nonneg = λ a b _ _. ground arith;
  mul_nonneg = λ a b _ _. ground arith;
  nought_finite = ground arith;
  le_of_lt = λ a b h. ground arith;
  refl_of_le = λ a b h. ground arith;
  le_trans = λ a b c h k. ground arith;
  lt_of_lt_of_le = λ a b c h k. ground arith;
  lt_of_not_le = λ a b h _ _. ground arith;
  eq_self = λ a _. ground arith;
  mul_mono = λ a b c h _ _.
      let more : a * c ≤ b * c = mul-le-mul (leb→le a b h) (le_refl c) in ground arith;
  div_mono = λ a b c h pos _.
      le→leb _ _ (div_mono (a * 10_000) (b * 10_000) c (ground arith) (ground arith));
  round_mono = λ a b h. ground arith;
  round_whole = λ n. ground arith;
  of_ℕ_pos = λ n h _. ground arith;
}
