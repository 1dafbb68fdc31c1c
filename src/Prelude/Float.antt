-- ===== src/Prelude/Float.antt =====
-- Go's `float64`, as the operations and constants that the program uses of it. What a theorem needs
-- of them is a law of `IsIeee`, which states what IEEE 754 says of every value, NaN and the
-- infinities included.
use quantsim.Prelude.{ℕ, ◌<◌, ◌^◌, ◌≡◌, Bool, true, false}

pub record Float (F : Type 0) : Type 0 where
  pub of_ℕ : ℕ → F
  pub add : F → F → F
  pub sub : F → F → F
  pub mul : F → F → F
  pub div : F → F → F
  pub round : F → F
  pub neg : F → F
  -- `<`, `<=` and `==`: false where an operand is NaN
  pub lt : F → F → Bool
  pub le : F → F → Bool
  pub eq : F → F → Bool
  pub is_inf : F → Bool

module _ {F : Type 0} ⦃f : Float F⦄ where
  abbrev pub nought : F
  nought = f.of_ℕ 0

  infix 50 ◌≼◌
  abbrev pub ◌≼◌ : F → F → Type 0
  x ≼ y = f.le x y ≡ true

  -- Neither NaN nor an infinity.
  abbrev pub IsFinite : F → Type 0
  IsFinite x = (x ≼ x) × (f.is_inf x ≡ false)

pub record IsIeee (F : Type 0) ⦃f : Float F⦄ : Type 0 where
  -- `a > b` fails: the difference is not negative, if `a` is finite and `b` is a number
  pub sub_nonneg : (a b : F) → IsFinite a → b ≼ b → f.lt a b ≡ false → nought ≼ f.sub a b
  pub add_nonneg : (a b : F) → nought ≼ a → nought ≼ b → nought ≼ f.add a b
  pub mul_nonneg : (a b : F) → f.lt nought a ≡ true → f.lt nought b ≡ true → nought ≼ f.mul a b
  pub nought_finite : IsFinite {F = F} nought
  pub le_of_lt : (a b : F) → f.lt a b ≡ true → a ≼ b
  pub refl_of_le : (a b : F) → a ≼ b → (a ≼ a) × (b ≼ b)
  pub le_trans : (a b c : F) → a ≼ b → b ≼ c → a ≼ c
  pub lt_of_lt_of_le : (a b c : F) → f.lt a b ≡ true → b ≼ c → f.lt a c ≡ true
  -- a comparison of two numbers that fails holds the other way round
  pub lt_of_not_le :
      (a b : F) → f.le a b ≡ false → f.eq a a ≡ true → f.eq b b ≡ true → f.lt b a ≡ true
  pub eq_self : (a : F) → a ≼ a → f.eq a a ≡ true
  -- rounding is monotone, so these are
  pub mul_mono : (a b c : F) → a ≼ b → f.lt nought c ≡ true → IsFinite c → f.mul a c ≼ f.mul b c
  pub div_mono : (a b c : F) → a ≼ b → f.lt nought c ≡ true → IsFinite c → f.div a c ≼ f.div b c
  pub round_mono : (a b : F) → a ≼ b → f.round a ≼ f.round b
  -- `math.Round` is the identity on whole numbers
  pub round_whole : (n : ℕ) → f.round (f.of_ℕ n) ≡ f.of_ℕ n
  pub of_ℕ_pos :
      (n : ℕ) → 0 < n → n < 2 ^ 53 → (f.lt nought (f.of_ℕ n) ≡ true) × IsFinite (f.of_ℕ n)
