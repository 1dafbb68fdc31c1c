-- ===== src/Trading/Tests.antt =====
-- The trading engine on one small desk: an account of 1000, orders on it, and what the theorems say.
use quantsim.Prelude.{ltb, length}
use quantsim.Prelude.{
  ℕ, ◌+◌, ◌-◌, ◌≡◌, ◌↔◌, refl, true, false, ◌&&◌, some, List, [], ◌∷◌, ◌++◌, arith, if◌then◌else◌,
  leb, ◌==◌,
}
use quantsim.Prelude.Int.{pos, negsuc, ◌≤ℤ◌}
use quantsim.Prelude.Fixed.{fixed, fixed_laws}
use quantsim.Prelude.Map.{lookup}
use quantsim.Prelude.Text.{Text, Unicode, IsCaseMap, to_upper}
use quantsim.Trading.Types.{Side, buy, sell, Holding, PlaceOrderRequest, ExecuteOrderParams, ok}
use quantsim.Trading.Order.{validate_order, normalize_trade_limit, max_trade_limit}
use quantsim.Trading.Order.Checks.{
  IsAcceptable, IsTick, normalised, validate_order_exact, validate_order_canonical,
  normalize_trade_limit_range,
}
use quantsim.Trading.Client.{Exchange, unreachable, answer}
use quantsim.Trading.Postgres.{Server, Db, Conn}
use quantsim.Trading.Store.{execute_order}
use quantsim.Trading.Store.Outcome.{Settles}
use quantsim.Trading.Store.Atomic.{execute_order-Settles}
use quantsim.Trading.Store.Solvent.{IsSolvent, IsNumeric, execute_order-IsSolvent}
use quantsim.Trading.Store.Isolation.{Untouched, execute_order-Untouched}
use quantsim.Trading.Store.Live.{healthy, is_filled, buy_filled_iff_covered}
use quantsim.Trading.Service.{World, place_order}
use quantsim.Trading.Service.Whole.{Concluded, place_order-Concluded}
use quantsim.Trading.Service.Funds.{place_order-IsSolvent}
use quantsim.Trading.Listing.{Collation, list_orders, list_trades}
use quantsim.Trading.Listing.Rows.{History, Log, list_orders-History, list_trades-Log}
use quantsim.Trading.Portfolio.{price}
use quantsim.Trading.Portfolio.Valued.{Reports, price-Reports}

-- Letters of ASCII, and the space.
abbrev ascii : Unicode
ascii = record {
  upper = λ c. if leb 97 c && leb c 122 then c - 32 else c;
  lower = λ c. if leb 65 c && leb c 90 then c + 32 else c;
  is_space = λ c. c == 32;
  width = λ c. 1;
}

-- "AAPL", and " aapl"
abbrev aapl : Text
aapl = 65 ∷ 65 ∷ 80 ∷ 76 ∷ []

abbrev typed : Text
typed = 32 ∷ 97 ∷ 97 ∷ 112 ∷ 108 ∷ []

abbrev desk : Server ℕ
desk = healthy (λ t. t) (λ t. t) (λ x. x)

abbrev tables : Db ℕ
tables = record {
  accounts = (1, record { user_id = 7; balance = 10_000_000 }) ∷ [];
  positions = ((1, aapl), record { quantity = 20_000; avg_cost = 900_000 }) ∷ [];
  orders = [];
  trades = [];
}

abbrev session : Conn ℕ
session = record { committed = tables; working = tables; tick = 0 }

-- 3 shares at 100.
abbrev three : Side → ExecuteOrderParams ℕ
three side = record {
  account_id = 1;
  symbol = aapl;
  side = side;
  quantity = 30_000;
  price = 1_000_000;
}

abbrev asked_for : PlaceOrderRequest ℕ
asked_for = record { symbol = typed; side = buy; quantity = 30_000 }

-- 100 for every symbol.
abbrev quotes : Text → Exchange ℕ
quotes s = answer 200 (some 1_000_000)

abbrev world : World ℕ
world = record { conn = session; cache = record { fails = λ n. false; asked = 0; dropped = [] } }

desk-IsNumeric : IsNumeric desk
desk-IsNumeric = record { keeps = λ x y e h. ground arith }

fixed-IsTick : IsTick ℕ
fixed-IsTick = record { above = refl; whole = refl }

tables-IsSolvent : IsSolvent tables
tables-IsSolvent = record { balances = λ id a e. ground arith; quantities = λ k h e. ground arith }

ascii-IsCaseMap : IsCaseMap ascii ascii.upper
ascii-IsCaseMap = record { space = λ c. ground arith }

execute_order-Settles_example :
    let (r, c') = execute_order desk (three buy) session in
    Settles desk (three buy) buy tables r c'.committed
execute_order-Settles_example = execute_order-Settles desk (three buy) session

execute_order-IsSolvent_example : IsSolvent (execute_order desk (three sell) session).1.committed
execute_order-IsSolvent_example =
    execute_order-IsSolvent desk fixed_laws desk-IsNumeric (three sell) refl refl session
      tables-IsSolvent

execute_order-Untouched_example :
    Untouched desk (three buy) tables (execute_order desk (three buy) session).1.committed
execute_order-Untouched_example = execute_order-Untouched desk (three buy) session

buy_filled_iff_covered_example : is_filled (execute_order desk (three buy) session).0 ≡ true
unfolding lookup
buy_filled_iff_covered_example =
    buy_filled_iff_covered (λ t. t) (λ t. t) (λ x. x) (three buy) session
      (record { user_id = 7; balance = 10_000_000 }) refl refl

validate_order_exact_example :
    (validate_order ascii asked_for ≡ ok (normalised ascii asked_for))
    ↔ (IsAcceptable ascii asked_for × (normalised ascii asked_for ≡ normalised ascii asked_for))
validate_order_exact_example = validate_order_exact ascii asked_for (normalised ascii asked_for)

validate_order_canonical_example :
    validate_order ascii (record asked_for { symbol = (32 ∷ []) ++ ((65 ∷ []) ++ (32 ∷ 32 ∷ [])) })
    ≡ validate_order ascii (record asked_for { symbol = 97 ∷ [] })
unfolding to_upper
validate_order_canonical_example =
    validate_order_canonical ascii (record asked_for { symbol = 97 ∷ [] }) (65 ∷ []) (32 ∷ [])
      (32 ∷ 32 ∷ []) ascii-IsCaseMap (refl, tt) (refl, (refl, tt)) refl

normalize_trade_limit_range_example :
    (pos 1 ≤ℤ normalize_trade_limit (negsuc 4))
    × (normalize_trade_limit (negsuc 4) ≤ℤ pos max_trade_limit)
    × (pos 1 ≤ℤ negsuc 4
        → negsuc 4 ≤ℤ pos max_trade_limit
        → normalize_trade_limit (negsuc 4) ≡ negsuc 4)
normalize_trade_limit_range_example = normalize_trade_limit_range (negsuc 4)

place_order-Concluded_example :
    let (r, w') = place_order desk ascii quotes 7 asked_for world in
    Concluded desk ascii quotes 7 asked_for world r w'
place_order-Concluded_example = place_order-Concluded desk ascii quotes 7 asked_for world

place_order-IsSolvent_example :
    IsSolvent (place_order desk ascii quotes 7 asked_for world).1.conn.committed
place_order-IsSolvent_example =
    place_order-IsSolvent fixed_laws fixed-IsTick desk desk-IsNumeric ascii quotes 7 asked_for world
      tables-IsSolvent

-- One symbol priced, one not.
abbrev half : Text → Exchange ℕ
half [] = unreachable
half (c ∷ s) = answer 200 (some 1_000_000)

abbrev two_holdings : List (Holding ℕ)
two_holdings =
    record { symbol = aapl; quantity = 20_000; avg_cost = 900_000 }
    ∷ record { symbol = []; quantity = 10_000; avg_cost = 500_000 }
    ∷ []

price-Reports_example : Reports fixed_laws half two_holdings (price half two_holdings)
price-Reports_example = price-Reports fixed_laws half two_holdings

abbrev by_length : Collation ℕ
by_length = record { symbol_before = λ a b. ltb (length a) (length b) }

-- A desk that has filled two orders.
abbrev busy : Conn ℕ
busy = (execute_order desk (three sell) (execute_order desk (three buy) session).1).1

list_orders-History_example :
    let (r, c') = list_orders desk by_length 1 busy in
    History desk by_length 1 busy.committed r c'.committed
list_orders-History_example = list_orders-History desk by_length 1 busy

list_trades-Log_example :
    let (r, c') = list_trades desk by_length 1 (pos 1) busy in
    Log desk by_length 1 (pos 1) busy.committed r c'.committed
list_trades-Log_example = list_trades-Log desk by_length 1 (pos 1) busy
