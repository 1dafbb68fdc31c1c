-- ===== src/Trading/Order/Checks.antt =====
-- What `validateOrder` accepts, and the form that it gives to what it accepts.
use quantsim.Prelude.{
  ◌≤◌, ◌≡◌, ◌↔◌, ◌⊎◌, inl, inr, refl, sym, ap, ◌∙◌, true, false, arith, ◌++◌, map, All,
}
use quantsim.Prelude.Int.{ℤ, pos, ◌≤ℤ◌}
use quantsim.Prelude.Float.{Float, nought, ◌≼◌, IsIeee}
use quantsim.Prelude.Text.{
  Text, Unicode, IsCaseMap, is_empty, trim_space, to_upper, byte_len, trim_space-map,
  trim_space-padded,
}
use quantsim.Trading.Types.{Side, buy, sell, other_side, PlaceOrderRequest, Result, ok, err}
use quantsim.Trading.Order.{
  known_side, normal_symbol, quantity_scale, min_quantity, bad_quantity, snap, validate_order,
  max_trade_limit, normalize_trade_limit,
}

known_side-cases : (s : Side) → known_side s ≡ true → (s ≡ buy) ⊎ (s ≡ sell)
unfolding known_side
known_side-cases buy e = inl refl
known_side-cases sell e = inr refl
known_side-cases (other_side t) e = cc e

module _ {F : Type 0} ⦃f : Float F⦄ (u : Unicode) where
  -- An order that makes sense: a symbol that is left after trimming and fits, a side that is one of
  -- the two, and a quantity that is a number, of at least one tick and at most a billion.
  pub record IsAcceptable (req : PlaceOrderRequest F) : Type 0 where
    pub named : is_empty (to_upper u (trim_space u req.symbol)) ≡ false
    pub short : byte_len u (to_upper u (trim_space u req.symbol)) ≤ 16
    pub sided : (req.side ≡ buy) ⊎ (req.side ≡ sell)
    pub at_least : f.div (f.of_ℕ 1) (f.of_ℕ 10_000) ≼ req.quantity
    pub finite : f.is_inf req.quantity ≡ false
    pub at_most : f.lt (f.of_ℕ 1_000_000_000) req.quantity ≡ false

  -- What an accepted order becomes: the symbol trimmed and then in upper case, the quantity rounded to
  -- a whole number of ten-thousandths.
  abbrev pub normalised : PlaceOrderRequest F → PlaceOrderRequest F
  normalised req = record {
    symbol = to_upper u (trim_space u req.symbol);
    side = req.side;
    quantity = f.div (f.round (f.mul req.quantity (f.of_ℕ 10_000))) (f.of_ℕ 10_000);
  }

  accepts :
      (req : PlaceOrderRequest F) → IsAcceptable req → validate_order u req ≡ ok (normalised req)
  unfolding validate_order bad_quantity known_side normal_symbol snap
  accepts req a = elim a.sided [
    | inl b ↦ ground (arith, a.named, a.short, a.at_least, a.finite, a.at_most)
    | inr s ↦ ground (arith, a.named, a.short, a.at_least, a.finite, a.at_most)
  ]

  refuses : (req req' : PlaceOrderRequest F) → validate_order u req ≡ ok req' → IsAcceptable req
  unfolding validate_order bad_quantity normal_symbol
  refuses req req' e = record {
    named = ground arith;
    short = ground arith;
    sided = known_side-cases req.side (ground arith);
    at_least = ground arith;
    finite = ground arith;
    at_most = ground arith;
  }

  same_result :
      (a b : PlaceOrderRequest F) → ◌≡◌ {A = Result (PlaceOrderRequest F)} (ok a) (ok b) → a ≡ b
  same_result a b e = ap (λ r. elim r [ ok x ↦ x | err x ↦ a ]) e

  -- The checks accept exactly the orders that make sense: a symbol that is left after trimming, of at
  -- most 16 bytes in upper case, the side "buy" or "sell", and a quantity that is a number, at least
  -- 1/10000 and at most a billion. An accepted order gets one form: the symbol in upper case without
  -- the spaces around it, the quantity rounded to a whole number of ten-thousandths.
  pub validate_order_exact :
      (req req' : PlaceOrderRequest F)
      → (validate_order u req ≡ ok req') ↔ (IsAcceptable req × (normalised req ≡ req'))
  validate_order_exact req req' = (
    λ e.
        let a = refuses req req' e in
        (a, same_result (normalised req) req' (sym (accepts req a) ∙ e)),
    λ h. accepts req h.0 ∙ ap ok h.1,
  )

  -- No spelling of a ticker splits a holding: two spellings that agree in upper case, one of them with
  -- any white space in front of it and behind it, are treated alike: both orders are refused or both
  -- are accepted as the same order (where mapping the case neither makes nor removes white space).
  pub validate_order_canonical :
      (req : PlaceOrderRequest F) (spelling before after : Text)
      → IsCaseMap u u.upper
      → All (λ c. u.is_space c ≡ true) before
      → All (λ c. u.is_space c ≡ true) after
      → to_upper u spelling ≡ to_upper u req.symbol
      → validate_order u (record req { symbol = before ++ (spelling ++ after) })
        ≡ validate_order u req
  unfolding validate_order normal_symbol to_upper
  validate_order_canonical req spelling before after m blank blank' same =
      let trimmed = trim_space-padded u before spelling after blank blank' in
      let one : map u.upper (trim_space u spelling) ≡ map u.upper (trim_space u req.symbol) =
        sym (trim_space-map u u.upper m spelling)
        ∙ ap (trim_space u) same
        ∙ trim_space-map u u.upper m req.symbol in
      rw (trimmed, one) refl

-- That 1/10000 is not lost: it is above zero, and 10000 of it are a whole, in the rounding of the
-- machine (they are, exactly, in binary64).
pub record IsTick (F : Type 0) ⦃f : Float F⦄ : Type 0 where
  pub above : f.lt nought min_quantity ≡ true
  pub whole : f.of_ℕ 1 ≼ f.mul min_quantity quantity_scale

-- No dust: a quantity that passes the check is still above zero after it was rounded.
pub snap_pos :
    {F : Type 0} ⦃f : Float F⦄ (ieee : IsIeee F) (tick : IsTick F) (q : F)
    → min_quantity ≼ q
    → f.lt nought (snap q) ≡ true
unfolding snap
snap_pos ⦃f⦄ ieee tick q h =
    let (scale, number) = ieee.of_ℕ_pos 10_000 (omega arith) (omega arith) in
    let grid = ieee.le_trans _ _ _ tick.whole (ieee.mul_mono _ _ _ h scale number) in
    let rounded : f.of_ℕ 1 ≼ f.round (f.mul q quantity_scale) =
      rw⁻¹ (ieee.round_whole 1) (ieee.round_mono _ _ grid) in
    ieee.lt_of_lt_of_le _ _ _ tick.above (ieee.div_mono _ _ _ rounded scale number)

-- The limit on a listing is always usable: it is between 1 and the cap, and it is the one asked for
-- whenever that is in the range.
pub normalize_trade_limit_range :
    (limit : ℤ)
    → (pos 1 ≤ℤ normalize_trade_limit limit)
      × (normalize_trade_limit limit ≤ℤ pos max_trade_limit)
      × (pos 1 ≤ℤ limit → limit ≤ℤ pos max_trade_limit → normalize_trade_limit limit ≡ limit)
unfolding normalize_trade_limit
normalize_trade_limit_range limit = ground arith
