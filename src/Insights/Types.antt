-- ===== src/Insights/Types.antt =====
-- The data of the report (services/ai-insights/internal/service/types.go). A day is the number of
-- days since some start, an instant the number of nanoseconds.
use quantsim.Prelude.{ℕ, ◌/◌, Bool, true, false, List, [], ◌∷◌, ltb, ◌==◌, if◌then◌else◌}
use quantsim.Prelude.Float.{Float}
use quantsim.Prelude.Map.{Map}
use quantsim.Prelude.Text.{Text}

pub record Bar (F : Type 0) : Type 0 where
  pub timestamp : ℕ
  pub close : F

-- "sell", and whatever else stands there
pub data Side : Type 0 where
  side_sell : Side
  side_other : Text → Side

pub record Trade (F : Type 0) : Type 0 where
  pub id : Text
  pub symbol : Text
  pub side : Side
  pub quantity : F
  pub price : F
  pub executed_at : ℕ

pub record Reconstruction (F : Type 0) : Type 0 where
  pub dates : List ℕ
  pub equity : List F
  pub cash : List F
  pub holdings : Map Text F

pub record LivePosition (F : Type 0) : Type 0 where
  pub symbol : Text
  pub quantity : F

pub record LivePortfolio (F : Type 0) : Type 0 where
  pub balance : F
  pub positions : List (LivePosition F)

-- `Day`: the UTC midnight of an instant
unfoldable pub day : ℕ → ℕ
day instant = instant / 86_400_000_000_000

abbrev pub starting_balance : {F : Type 0} ⦃f : Float F⦄ → F
starting_balance ⦃f⦄ = f.of_ℕ 100_000

-- Go's order of strings: by bytes, which is by code points
unfoldable pub text_before : Text → Text → Bool
text_before [] [] = false
text_before [] (d ∷ t) = true
text_before (c ∷ s) [] = false
text_before (c ∷ s) (d ∷ t) =
    let rest = text_before s t in if ltb c d then true else if c == d then rest else false
