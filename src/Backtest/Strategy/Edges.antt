-- ===== src/Backtest/Strategy/Edges.antt =====
-- A crossover signals changes, not states.
use quantsim.Prelude.{
  ℕ, zero, suc, ◌≤◌, ◌≡◌, ◌↔◌, arith, refl, Bool, true, false, Option, none, some, List, [], ◌∷◌,
  take, All,
}
use quantsim.Prelude.Float.{Float}
use quantsim.Backtest.Types.{Signal, hold, buy_next, sell_next}
use quantsim.Backtest.Strategy.{edge, crossings, crossover_signals}

-- Buys and sells alternate; the state says which of them was last, if any.
abbrev pub Alternates : Option Bool → List Signal → Type 0
Alternates state [] = Unit
Alternates state (hold ∷ xs) = Alternates state xs
Alternates (some true) (buy_next ∷ xs) = ⊥
Alternates none (buy_next ∷ xs) = Alternates (some true) xs
Alternates (some false) (buy_next ∷ xs) = Alternates (some true) xs
Alternates (some false) (sell_next ∷ xs) = ⊥
Alternates none (sell_next ∷ xs) = Alternates (some false) xs
Alternates (some true) (sell_next ∷ xs) = Alternates (some false) xs

weaken : (b : Bool) (xs : List Signal) → Alternates (some b) xs → Alternates none xs
weaken b [] h = tt
weaken b (hold ∷ xs) h = weaken b xs h
weaken true (buy_next ∷ xs) h = absurd h
weaken false (buy_next ∷ xs) h = h
weaken true (sell_next ∷ xs) h = h
weaken false (sell_next ∷ xs) h = absurd h

edge-Alternates :
    (state : Option Bool) (above : Bool) (xs : List Signal)
    → Alternates (some above) xs
    → Alternates state (edge state above ∷ xs)
unfolding edge
edge-Alternates none above xs h = weaken above xs h
edge-Alternates (some true) true xs h = h
edge-Alternates (some true) false xs h = h
edge-Alternates (some false) true xs h = h
edge-Alternates (some false) false xs h = h

edge_iff :
    (was now : Bool)
    → ((edge (some was) now ≡ buy_next) ↔ ((was ≡ false) × (now ≡ true)))
      × ((edge (some was) now ≡ sell_next) ↔ ((was ≡ true) × (now ≡ false)))
unfolding edge
edge_iff true true = ground arith
edge_iff true false = ground arith
edge_iff false true = ground arith
edge_iff false false = ground arith

-- The entry of a line at an index
abbrev pub entry {ℓ} : {A : Type ℓ} → ℕ → List A → Option A
entry n [] = none
entry zero (x ∷ xs) = some x
entry (suc n) (x ∷ xs) = entry n xs

module _ {F : Type 0} ⦃f : Float F⦄ where
  crossings-Alternates :
      (k : ℕ) (state : Option Bool) (fast slow : List F)
      → Alternates state (crossings k state fast slow)
  unfolding crossings
  crossings-Alternates k state [] slow = tt
  crossings-Alternates k state (x ∷ fast) [] = tt
  crossings-Alternates (suc k) state (x ∷ fast) (y ∷ slow) = crossings-Alternates k state fast slow
  crossings-Alternates zero state (x ∷ fast) (y ∷ slow) =
      edge-Alternates state (f.lt y x) (crossings zero (some (f.lt y x)) fast slow)
        (crossings-Alternates zero (some (f.lt y x)) fast slow)

  crossings-quiet :
      (k : ℕ) (fast slow : List F)
      → All (λ (s : Signal). s ≡ hold) (take (suc k) (crossings k none fast slow))
  unfolding crossings edge
  crossings-quiet k [] slow = tt
  crossings-quiet k (x ∷ fast) [] = tt
  crossings-quiet (suc k) (x ∷ fast) (y ∷ slow) = (refl, crossings-quiet k fast slow)
  crossings-quiet zero (x ∷ fast) (y ∷ slow) = (refl, tt)

  -- The signal of an entry behind the start is the change of the comparison from the entry before.
  crossings-edge :
      (k n : ℕ) (state : Option Bool) (fast slow : List F) (a b x y : F)
      → k ≤ n
      → entry n fast ≡ some a
      → entry n slow ≡ some b
      → entry (suc n) fast ≡ some x
      → entry (suc n) slow ≡ some y
      → entry (suc n) (crossings k state fast slow) ≡ some (edge (some (f.lt b a)) (f.lt y x))
  unfolding crossings
  crossings-edge k n state [] slow a b x y le ea eb ex ey = cc ea
  crossings-edge k n state (p ∷ fast) [] a b x y le ea eb ex ey = cc eb
  crossings-edge zero zero state (p ∷ []) (q ∷ slow) a b x y le ea eb ex ey = cc ex
  crossings-edge zero zero state (p ∷ p' ∷ fast) (q ∷ []) a b x y le ea eb ex ey = cc ey
  crossings-edge zero zero state (p ∷ p' ∷ fast) (q ∷ q' ∷ slow) a b x y le ea eb ex ey =
      let p_is : p ≡ a = cc ea in
      let q_is : q ≡ b = cc eb in
      let p'_is : p' ≡ x = cc ex in let q'_is : q' ≡ y = cc ey in rw (p_is, q_is, p'_is, q'_is) refl
  crossings-edge zero (suc n) state (p ∷ fast) (q ∷ slow) a b x y le ea eb ex ey =
      crossings-edge zero n (some (f.lt q p)) fast slow a b x y (omega arith) ea eb ex ey
  crossings-edge (suc k) zero state (p ∷ fast) (q ∷ slow) a b x y le ea eb ex ey =
      absurd (omega (arith, le))
  crossings-edge (suc k) (suc n) state (p ∷ fast) (q ∷ slow) a b x y le ea eb ex ey =
      crossings-edge k n state fast slow a b x y (omega (arith, le)) ea eb ex ey

  -- A crossover fires where the lines cross, and only there. Behind the entry from which both lines
  -- exist, an entry has the signal to buy exactly when the fast line was not above the slow one at the
  -- entry before (`slow < fast` failed there, as a comparison of floats) and is above it now, and the
  -- signal to sell exactly when it was above it and is not now. Up to and at that entry, which shows a
  -- state but no change, it holds. So buys and sells alternate.
  pub crossover_signals-Alternates :
      (fast slow : List F) (from n : ℕ) (a b x y : F)
      → from ≤ n
      → entry n fast ≡ some a
      → entry n slow ≡ some b
      → entry (suc n) fast ≡ some x
      → entry (suc n) slow ≡ some y
      → ((signal : Signal) × ((entry (suc n) (crossover_signals fast slow from) ≡ some signal)
            × (((signal ≡ buy_next) ↔ ((f.lt b a ≡ false) × (f.lt y x ≡ true)))
                × ((signal ≡ sell_next) ↔ ((f.lt b a ≡ true) × (f.lt y x ≡ false))))))
        × (All (λ (s : Signal). s ≡ hold) (take (suc from) (crossover_signals fast slow from))
            × Alternates none (crossover_signals fast slow from))
  unfolding crossover_signals
  crossover_signals-Alternates fast slow from n a b x y le ea eb ex ey = (
    (
      edge (some (f.lt b a)) (f.lt y x),
      (crossings-edge from n none fast slow a b x y le ea eb ex ey, edge_iff (f.lt b a) (f.lt y x)),
    ),
    (crossings-quiet from fast slow, crossings-Alternates from none fast slow),
  )
