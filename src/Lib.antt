-- ===== src/Lib.antt =====
-- A verification library for QuantSim, a paper-trading platform of small Go services behind one
-- gateway. A browser talks to the gateway (services/gateway), which limits the rate of logins and
-- proxies to the services; the trading engine (services/trading-engine) takes orders, asks market-data
-- for a price over HTTP, and settles each order in one Postgres transaction; it then asks the cache
-- to drop the caller's report, which ai-insights keeps.
--
-- Which file models what:
-- Prelude: shared names, lists, integers with Go's 64-bit wrap-around (Prelude/Int), association
--   lists for maps (Prelude/Map), text as code points with Go's TrimSpace and ToUpper (Prelude/Text),
--   and `float64` as an abstract type with the IEEE 754 laws that the proofs use (Prelude/Float).
--   Prelude/Fixed is an instance of those laws, on which the tests run.
-- Limiter: services/gateway/internal/limiter. Backoff is backoff.go (Delay, Attempt, Succeed, Undo,
--   EvictStale), Memory is memory.go (Allow, EvictStale on sixteen shards). A call holds its lock for
--   its whole body, so it is a function of the table and of the instant that it read; a history is a
--   list of calls in the order of the lock. The hash FNV-1a is a parameter. The loop of Delay is
--   structural recursion on the number of rounds, which is what the Go loop counts.
-- Trading: services/trading-engine/internal. Types, Money and Order are service/types.go, errors.go,
--   money.go and validateOrder of trading.go; Client is client/market_data_client.go, from what the
--   exchange ended in; Postgres is the database as four tables, a transaction and statements that may
--   fail at any point, and Store is store/postgres_trading_store.go over it, statement by statement;
--   Service, Listing and Portfolio are service/trading.go with the listings of the store; the cache
--   of reports may fail at each deletion. Orders on
--   one account are serialised by the row lock that ExecuteOrder takes first, so a transaction is one
--   step on the durable tables.
-- Backtest: services/backtesting/internal/service. Indicators is indicators.go with the moving average
--   of strategy.go; an array that Go fills by index is a list that the loop gives in order, zeros
--   included. Strategy is the rest of strategy.go: the checks, the warm-up in 64 bits, the signals.
--   Parameters arrive as they decode from JSON; the decoder is Go's. Simulation is simulate_portfolio.go,
--   bar by bar over what each symbol keeps; Align is align.go, where bars per symbol are a map and the
--   day of an instant is its number of whole days.
-- Auth: services/auth and pkg/auth. Blocklist and Validate are service/blocklist.go and validate.go;
--   World is what the service runs against: the two tables, the denylist with the instant at which
--   Redis forgets each key, and a record of the libraries it calls; a call of the outside takes the
--   next tick, which decides its instant, its UUID and whether it fails. Tokens is pkg/auth (jwt.go,
--   middleware.go), Store is store/user_store.go and redis_token_store.go, Service is
--   service/auth.go with sequences of requests, Handler is handler/auth.go from the decoded body on.
-- Gateway: services/gateway/internal/middleware. Http is a request as the middleware sees it: header
--   lines, a declared length, a body that ends or breaks. Bodies is bodylimit.go, Identity is identity.go
--   with pkg/auth's gate and the header that the proxy of services/gateway/internal/proxy sends,
--   ClientIp is clientip.go over net and net/netip as parameters, RateLimit is
--   ratelimit.go. Logins cuts the login limiter's handler in two, before and after the backend's
--   answer, and lets every other request come in between: an interleaving is a list of events, one of
--   which is the proxy's panic, after which a request is never settled.
-- Insights: services/ai-insights/internal/service. Calendar is calendar.go, Replay is reconstruct.go,
--   Reconcile is reconcile.go, over abstract floats; a map is an association list whose keys are
--   sorted before anything is summed over them, as the code does. The list of symbols that the guard
--   scans may name a symbol twice, which changes no outcome. Behaviour, risk and benchmark metrics are
--   not modelled.
--
-- What a parameter stands for: the UUIDs and instants that Postgres makes up, what a NUMERIC(20,4)
-- column keeps of a number, which statements fail, what market-data answers, Unicode's case
-- tables, net/mail, bcrypt, the JWT library, Redis, net/netip, httputil and the JSON decoder.
-- Hypotheses on them are records of laws: IsIeee (float64), IsNumeric (the column), IsTick (the tick
-- 1/10000 in binary64), IsCaseMap (case mapping), IsReverse (httputil.ReverseProxy), IsJwt, IsBcrypt and IsLowered (what the
-- libraries of auth document), IsRegular (time, the life of a key in Redis, one jti for one token).
--
-- Not modelled: HTTP routing and encoding, logging, contexts and time-outs, goroutines inside one
-- request, the start-up of the services, the contents of the SQL migrations, the web client, and the
-- services that no module above names.
pub mod Prelude
pub mod Limiter
pub mod Trading
pub mod Auth
pub mod Gateway
pub mod Insights
pub mod Backtest
