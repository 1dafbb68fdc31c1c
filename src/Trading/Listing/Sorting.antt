-- ===== src/Trading/Listing/Sorting.antt =====
-- What ORDER BY gives: the same rows, in order.
use quantsim.Prelude.{
  ℕ, ◌+◌, ◌≡◌, refl, ap, ◌∙◌, Bool, true, false, List, [], ◌∷◌, arith, if◌then◌else◌,
}
use quantsim.Trading.Listing.{insert_by, order_by, before_pair}

-- How many of the rows pass a test.
abbrev pub tally : {A : Type 0} → (A → Bool) → List A → ℕ
tally p [] = 0
tally p (x ∷ xs) = (if p x then 1 else 0) + tally p xs

-- The same rows, each as often, in some order.
abbrev pub SameRows : {A : Type 0} → List A → List A → Type 0
SameRows {A} xs ys = (p : A → Bool) → tally p xs ≡ tally p ys

-- No row is before the one in front of it.
abbrev pub InOrder : {A : Type 0} → (A → A → Bool) → List A → Type 0
InOrder before [] = Unit
InOrder before (x ∷ []) = Unit
InOrder before (x ∷ y ∷ r) = (before y x ≡ false) × InOrder before (y ∷ r)

tally-insert_by :
    {A : Type 0} (before : A → A → Bool) (p : A → Bool) (x : A) (ys : List A)
    → tally p (insert_by before x ys) ≡ (if p x then 1 else 0) + tally p ys
unfolding insert_by
tally-insert_by before p x [] = refl
tally-insert_by before p x (y ∷ ys) = ground (arith, tally-insert_by before p x ys)

pub order_by-SameRows :
    {A : Type 0} (before : A → A → Bool) (xs : List A) → SameRows (order_by before xs) xs
unfolding order_by
order_by-SameRows before [] p = refl
order_by-SameRows before (x ∷ xs) p =
    tally-insert_by before p x (order_by before xs)
    ∙ ap (λ n. (if p x then 1 else 0) + n) (order_by-SameRows before xs p)

module _ {A : Type 0} (before : A → A → Bool)
    (asym : (x y : A) → before x y ≡ true → before y x ≡ false) where
  insert_by-InOrder :
      (x : A) (ys : List A) → InOrder before ys → InOrder before (insert_by before x ys)
  unfolding insert_by
  insert_by-InOrder x [] s = tt
  insert_by-InOrder x (y ∷ []) s = ground (arith, asym y x)
  insert_by-InOrder x (y ∷ z ∷ r) s =
      ground (arith, asym y x, asym z x, s.0, s.1, insert_by-InOrder x (z ∷ r) s.1)

  pub order_by-InOrder : (xs : List A) → InOrder before (order_by before xs)
  unfolding order_by
  order_by-InOrder [] = tt
  order_by-InOrder (x ∷ xs) = insert_by-InOrder x (order_by before xs) (order_by-InOrder xs)

pub before_pair_asym : (a x b y : ℕ) → before_pair a x b y ≡ true → before_pair b y a x ≡ false
unfolding before_pair
before_pair_asym a x b y h = ground arith
